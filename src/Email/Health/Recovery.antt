-- ===== src/Email/Health/Recovery.antt =====
-- Reports of successes: the branches of `evaluate` in ui/backend/trigger_health.py that clear
-- alerts.
use bestteam.Shared.{
  ℕ, Bool, true, ◌&&◌, not, Option, some, List, is_some, filter, [], ◌∷◌, ◌≡◌, subst, inl, inr,
  arith, Bool-cases, if◌then◌else◌,
}
use bestteam.Shared.Equality.{contains}
use bestteam.Shared.Int.{ℤ, clamp_zero}
use bestteam.Shared.Text.{Text, text_eq, is_empty}
use bestteam.Email.Fingerprints.{TextSet, intersect, subtract, parse}
use bestteam.Email.Fingerprints.Column.{IsCanonical, parse-IsCanonical, parse-encode}
use bestteam.Email.Fingerprints.Sets.{parse-encode-subtract, contains-intersect, contains-subtract}
use bestteam.Email.Health.{
  Outcome, pipeline_fault, mailbox_fault, run_timeout, mailbox_ok, pipeline_ok, other,
  fingerprint_pipeline, fingerprint_mailbox, fingerprint_timeout, fault_fingerprints,
  HealthDecision, ok_clears, on_success, evaluate,
}

-- Some member of the set is listed.
abbrev pub meets : TextSet → List Text → Bool
meets s l = not (is_empty (filter (λ x. contains x l) s))

-- What a report of a success does: a recovery is announced when one of its own alerts was
-- outstanding, which clears all of these and no other; the streak ends unless only alerts of
-- other faults are outstanding.
pub record IsRecoveryReport (clears : List Text) (faults : ℕ) (known : TextSet) (d : HealthDecision)
    : Type 0 where
  pub due : is_some d.notification ≡ meets known clears
  pub streak :
      d.consecutive_faults
      ≡ (if meets known fault_fingerprints && not (meets known clears) then faults else 0)
  pub outstanding :
      (g : Text)
      → contains g (parse d.alerted_fingerprint)
        ≡ (contains g known && not (is_some d.notification && contains g clears))

cleared_members :
    (g : Text) (s : TextSet) (l : List Text)
    → contains g (subtract s (intersect s l)) ≡ (contains g s && not (true && contains g l))
cleared_members g s l =
    rw (contains-subtract g s (intersect s l), contains-intersect g s l) ground arith

abbrev Subset : List Text → List Text → Type 0
Subset l l' = (x : Text) → contains x l ≡ true → contains x l' ≡ true

meets-Subset : (l l' : List Text) (s : TextSet) → Subset l l' → meets s l ≡ true → meets s l' ≡ true
meets-Subset l l' [] h m = m
meets-Subset l l' (x ∷ s) h m = ground (arith, meets-Subset l l' s h, h x)

on_success-reports :
    (o : Outcome) (clears : List Text) (faults : ℕ) (known : TextSet)
    → Subset clears fault_fingerprints
    → IsCanonical known
    → IsRecoveryReport clears faults known (on_success o clears faults known)
unfolding on_success intersect
on_success-reports o clears faults known h w =
    elim (Bool-cases (is_empty (filter (λ x. contains x fault_fingerprints) known))) [
      | inl healthy ↦ rw healthy (record {
        due = ground (arith, meets-Subset clears fault_fingerprints known h);
        streak = ground arith;
        outstanding = λ g. rw (parse-encode known w) ground arith;
      })
      | inr faulty ↦
          rw faulty (elim (Bool-cases (is_empty (filter (λ x. contains x clears) known))) [
            | inl foreign ↦ rw foreign (record {
              due = ground arith;
              streak = ground arith;
              outstanding = λ g. rw (parse-encode known w) ground arith;
            })
            | inr own ↦ rw own (record {
              due = ground arith;
              streak = ground arith;
              outstanding = λ g.
                  rw (parse-encode-subtract known (intersect known clears) w)
                    (cleared_members g known clears);
            })
          ])
    ]

mailbox_clears : Subset (fingerprint_mailbox ∷ []) fault_fingerprints
unfolding contains
mailbox_clears x h = ground arith

pipeline_clears : Subset (fingerprint_pipeline ∷ fingerprint_timeout ∷ []) fault_fingerprints
unfolding contains
pipeline_clears x h = ground arith

some_inj : (a b : List Text) → some a ≡ some b → a ≡ b
some_inj a b h = cc

-- For an outcome that is a success, `evaluate` announces a recovery exactly when an alert that this
-- kind of success clears was outstanding; then those alerts and no others are cleared, and otherwise
-- the outstanding alerts stay as they were. The streak is reset, unless alerts of faults are
-- outstanding and this kind of success clears none of them.
evaluate-recovers :
    (o : Outcome) (clears : List Text) (k : ℤ) (column : Option Text) (threshold : ℤ)
    → ok_clears o ≡ some clears
    → IsRecoveryReport clears (clamp_zero k) (parse column) (evaluate o k column threshold)
unfolding evaluate ok_clears
evaluate-recovers mailbox_ok clears k column threshold h =
    subst
      (λ x.
        IsRecoveryReport x (clamp_zero k) (parse column) (evaluate mailbox_ok k column threshold))
      (some_inj (fingerprint_mailbox ∷ []) clears h)
      (on_success-reports mailbox_ok (fingerprint_mailbox ∷ []) (clamp_zero k) (parse column)
        mailbox_clears (parse-IsCanonical column))
evaluate-recovers pipeline_ok clears k column threshold h =
    subst
      (λ x.
        IsRecoveryReport x (clamp_zero k) (parse column) (evaluate pipeline_ok k column threshold))
      (some_inj (fingerprint_pipeline ∷ fingerprint_timeout ∷ []) clears h)
      (on_success-reports pipeline_ok (fingerprint_pipeline ∷ fingerprint_timeout ∷ [])
        (clamp_zero k) (parse column) pipeline_clears (parse-IsCanonical column))
evaluate-recovers pipeline_fault clears k column threshold h = cc
evaluate-recovers mailbox_fault clears k column threshold h = cc
evaluate-recovers run_timeout clears k column threshold h = cc
evaluate-recovers other clears k column threshold h = cc
