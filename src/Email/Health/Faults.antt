-- ===== src/Email/Health/Faults.antt =====
-- Reports of faults: the branches of `evaluate` in ui/backend/trigger_health.py that count them.
use bestteam.Shared.{
  ℕ, ◌+◌, max, ◌&&◌, ◌||◌, not, Option, some, is_some, ◌≡◌, refl, subst, inl, inr, arith,
  Bool-cases, leb, ltb,
}
use bestteam.Shared.Equality.{contains}
use bestteam.Shared.Int.{ℤ, clamp_zero}
use bestteam.Shared.Text.{Text, text_eq, text_beq}
use bestteam.Email.Fingerprints.{TextSet, parse}
use bestteam.Email.Fingerprints.Order.{contains-insert}
use bestteam.Email.Fingerprints.Column.{IsMember, IsCanonical, parse-IsCanonical, parse-encode}
use bestteam.Email.Fingerprints.Sets.{parse-encode-insert}
use bestteam.Email.Health.{
  Outcome, pipeline_fault, mailbox_fault, run_timeout, mailbox_ok, pipeline_ok, other,
  fingerprint_pipeline, fingerprint_mailbox, fingerprint_timeout, HealthDecision, fault_fingerprint,
  ok_clears, is_timeout, on_fault, evaluate,
}

-- What a report of a fault does: the streak grows by one, an alert is due when the streak is long
-- enough and the fault is not yet known, and only its fingerprint may become outstanding.
pub record IsFaultReport (o : Outcome) (f : Text) (faults : ℕ) (threshold : ℤ) (known : TextSet)
    (d : HealthDecision) : Type 0 where
  pub streak : d.consecutive_faults ≡ faults + 1
  pub due : is_some d.notification ≡ (
      (is_timeout o || leb (max (clamp_zero threshold) 1) (faults + 1)) && not (contains f known))
  pub outstanding :
      (g : Text)
      → contains g (parse d.alerted_fingerprint)
        ≡ ((text_beq g f && is_some d.notification) || contains g known)

some_inj : (a b : Text) → some a ≡ some b → a ≡ b
some_inj a b h = cc

on_fault-reports :
    (o : Outcome) (f : Text) (faults : ℕ) (threshold : ℤ) (known : TextSet)
    → IsMember f
    → IsCanonical known
    → IsFaultReport o f faults threshold known (on_fault o f faults threshold known)
unfolding on_fault
on_fault-reports o f faults threshold known m w =
    elim (Bool-cases (not (is_timeout o) && ltb (faults + 1) (max (clamp_zero threshold) 1))) [
      | inl early ↦ rw early (record {
        streak = refl;
        due = ground arith;
        outstanding = λ g. rw (parse-encode known w) ground arith;
      })
      | inr late ↦ rw late (elim (Bool-cases (contains f known)) [
        | inl old ↦ rw old (record {
          streak = refl;
          due = ground arith;
          outstanding = λ g. rw (parse-encode known w) ground arith;
        })
        | inr new ↦ rw new (record {
          streak = refl;
          due = ground arith;
          outstanding =
              λ g. rw (parse-encode-insert f known m w, contains-insert f g known) ground arith;
        })
      ])
    ]

-- For an outcome that is a fault, `evaluate` lengthens the streak by one, sends a notification
-- exactly when the fault's fingerprint is not outstanding and the streak has reached the threshold
-- (of at least 1) or the fault is a timeout, and the fingerprints outstanding in the new column are
-- those of the old one and, if a notification is sent, the fault's own.
pub evaluate-reports :
    (o : Outcome) (f : Text) (k : ℤ) (column : Option Text) (threshold : ℤ)
    → fault_fingerprint o ≡ some f
    → IsFaultReport o f (clamp_zero k) threshold (parse column) (evaluate o k column threshold)
unfolding evaluate fault_fingerprint ok_clears
evaluate-reports pipeline_fault f k column threshold h =
    subst
      (λ x.
        IsFaultReport pipeline_fault x (clamp_zero k) threshold (parse column)
          (evaluate pipeline_fault k column threshold))
      (some_inj fingerprint_pipeline f h)
      (on_fault-reports pipeline_fault fingerprint_pipeline (clamp_zero k) threshold (parse column)
        (refl, refl) (parse-IsCanonical column))
evaluate-reports mailbox_fault f k column threshold h =
    subst
      (λ x.
        IsFaultReport mailbox_fault x (clamp_zero k) threshold (parse column)
          (evaluate mailbox_fault k column threshold))
      (some_inj fingerprint_mailbox f h)
      (on_fault-reports mailbox_fault fingerprint_mailbox (clamp_zero k) threshold (parse column)
        (refl, refl) (parse-IsCanonical column))
evaluate-reports run_timeout f k column threshold h =
    subst
      (λ x.
        IsFaultReport run_timeout x (clamp_zero k) threshold (parse column)
          (evaluate run_timeout k column threshold))
      (some_inj fingerprint_timeout f h)
      (on_fault-reports run_timeout fingerprint_timeout (clamp_zero k) threshold (parse column)
        (refl, refl) (parse-IsCanonical column))
evaluate-reports mailbox_ok f k column threshold h = cc
evaluate-reports pipeline_ok f k column threshold h = cc
evaluate-reports other f k column threshold h = cc
