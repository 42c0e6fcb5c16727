-- ===== src/Email/Health/Streaks.antt =====
-- A streak of equal outcomes, each fed to `evaluate` of ui/backend/trigger_health.py with the state
-- that the one before it left.
use bestteam.Shared.{
  ℕ, zero, suc, ◌+◌, max, true, false, ◌||◌, Option, some, is_some, ◌≡◌, refl, ◌∙◌, inl, inr, arith,
  Bool-cases, leb, if◌then◌else◌,
}
use bestteam.Shared.Equality.{contains}
use bestteam.Shared.Int.{ℤ, pos, clamp_zero}
use bestteam.Shared.Text.{Text, text_eq, text_beq_iff}
use bestteam.Email.Fingerprints.{parse}
use bestteam.Email.Health.{Outcome, fault_fingerprint, is_timeout, evaluate, HealthDecision}
use bestteam.Email.Health.Faults.{IsFaultReport, evaluate-reports}

-- The number of notifications that `n` outcomes `o` in a row send.
abbrev pub alerts : Outcome → ℤ → ℕ → ℕ → Option Text → ℕ
alerts o threshold zero faults column = 0
alerts o threshold (suc n) faults column =
    let d = evaluate o (pos faults) column threshold in
    (if is_some d.notification then 1 else 0)
    + alerts o threshold n d.consecutive_faults d.alerted_fingerprint

module _ (o : Outcome) (f : Text) (threshold : ℤ) (fault : fault_fingerprint o ≡ some f) where
  alerts-known :
      (n faults : ℕ) (column : Option Text)
      → contains f (parse column) ≡ true
      → alerts o threshold n faults column ≡ 0
  alerts-known zero faults column h = refl
  alerts-known (suc n) faults column h =
      let d = evaluate o (pos faults) column threshold in
      let w = evaluate-reports o f (pos faults) column threshold fault in
      ground (
        arith,
        h,
        w.due,
        w.outstanding f,
        alerts-known n d.consecutive_faults d.alerted_fingerprint,
      )

  known_after :
      (faults : ℕ) (known : _) (d : HealthDecision)
      → IsFaultReport o f faults threshold known d
      → is_some d.notification ≡ true
      → contains f (parse d.alerted_fingerprint) ≡ true
  known_after faults known d w sent = w.outstanding f ∙ rw (sent, (text_beq_iff f f).1 refl) refl

  unknown_after :
      (faults : ℕ) (known : _) (d : HealthDecision)
      → IsFaultReport o f faults threshold known d
      → contains f known ≡ false
      → is_some d.notification ≡ false
      → contains f (parse d.alerted_fingerprint) ≡ false
  unknown_after faults known d w h quiet =
      w.outstanding f ∙ rw (quiet, h, (text_beq_iff f f).1 refl) refl

  -- A fault that is not yet reported sends one notification however often it is repeated, and sends
  -- it as soon as the streak reaches the threshold (of at least 1), a timeout at once.
  alerts_once :
      (n faults : ℕ) (column : Option Text)
      → contains f (parse column) ≡ false
      → alerts o threshold (suc n) faults column
        ≡ (if is_timeout o || leb (max (clamp_zero threshold) 1) (faults + suc n) then 1 else 0)
  alerts_once zero faults column h =
      let w = evaluate-reports o f (pos faults) column threshold fault in rw (w.due, h) ground arith
  alerts_once (suc n) faults column h =
      let d = evaluate o (pos faults) column threshold in
      let w = evaluate-reports o f (pos faults) column threshold fault in
      elim (Bool-cases (is_some d.notification)) [
        | inl sent ↦
            rw
              (
                sent,
                alerts-known (suc n) d.consecutive_faults d.alerted_fingerprint
                    (known_after faults (parse column) d w sent),
              )
              ground (arith, w.due, h)
        | inr quiet ↦
            rw
              (
                quiet,
                alerts_once n d.consecutive_faults d.alerted_fingerprint
                    (unknown_after faults (parse column) d w h quiet),
              )
              ground (arith, w.due, w.streak, h)
      ]
