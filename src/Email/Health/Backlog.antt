-- ===== src/Email/Health/Backlog.antt =====
-- The backlog alert, `evaluate_backlog` of ui/backend/trigger_health.py.
use bestteam.Shared.{
  Bool, true, false, not, Option, is_some, [], ◌∷◌, ◌≡◌, refl, inl, inr, arith, Bool-cases,
  if◌then◌else◌,
}
use bestteam.Shared.Equality.{contains}
use bestteam.Shared.Text.{Text, text_eq, text_beq, text_beq_iff}
use bestteam.Email.Fingerprints.{TextSet, parse}
use bestteam.Email.Fingerprints.Order.{contains-insert}
use bestteam.Email.Fingerprints.Column.{parse-IsCanonical}
use bestteam.Email.Fingerprints.Sets.{
  parse-encode-insert, parse-encode-subtract, parse-encode-parse, contains-subtract,
}
use bestteam.Email.Health.{Seconds, BacklogDecision, is_over, fingerprint_backlog, evaluate_backlog}

pub record IsBacklogReport (over : Bool) (known : TextSet) (d : BacklogDecision) : Type 0 where
  pub due : is_some d.notification ≡ (
      if over then not (contains fingerprint_backlog known) else contains fingerprint_backlog known)
  pub outstanding :
      (g : Text)
      → contains g (parse d.alerted_fingerprint)
        ≡ (if text_beq g fingerprint_backlog then over else contains g known)

backlog_member :
    (g : Text) (known : TextSet) (b : Bool)
    → contains fingerprint_backlog known ≡ b
    → contains g known ≡ (if text_beq g fingerprint_backlog then b else contains g known)
backlog_member g known b h = elim (Bool-cases (text_beq g fingerprint_backlog)) [
  | inl same ↦ rw (same, (text_beq_iff g fingerprint_backlog).0 same) h
  | inr differ ↦ rw differ refl
]

contains-one : (g x : Text) → contains g (x ∷ []) ≡ text_beq g x
unfolding contains
contains-one g x = ground arith

-- `evaluate_backlog` sends a notification exactly when the measured level and the remembered alert
-- disagree; afterwards the backlog alert is outstanding exactly when the oldest pending message is
-- older than the threshold, and every other outstanding alert is as it was.
evaluate_backlog-reports :
    {S : Type 0} ⦃clock : Seconds S⦄ (oldest : Option S) (threshold : S) (column : Option Text)
    → IsBacklogReport
        (is_over oldest threshold)
        (parse column)
        (evaluate_backlog oldest threshold column)
unfolding evaluate_backlog
evaluate_backlog-reports oldest threshold column = elim (Bool-cases (is_over oldest threshold)) [
  | inl over ↦ rw over (elim (Bool-cases (contains fingerprint_backlog (parse column))) [
    | inl old ↦ rw old (record {
      due = rw old refl;
      outstanding = λ g. rw (parse-encode-parse column) (backlog_member g (parse column) true old);
    })
    | inr new ↦ rw new (record {
      due = rw new refl;
      outstanding = λ g.
          rw
            (
              parse-encode-insert fingerprint_backlog (parse column) (refl, refl)
                  (parse-IsCanonical column),
              contains-insert fingerprint_backlog g (parse column),
            )
            ground arith;
    })
  ])
  | inr under ↦ rw under (elim (Bool-cases (contains fingerprint_backlog (parse column))) [
    | inl old ↦ rw old (record {
      due = rw old refl;
      outstanding = λ g.
          rw
            (
              parse-encode-subtract (parse column) (fingerprint_backlog ∷ [])
                  (parse-IsCanonical column),
              contains-subtract g (parse column) (fingerprint_backlog ∷ []),
              contains-one g fingerprint_backlog,
            )
            ground arith;
    })
    | inr new ↦ rw new (record {
      due = rw new refl;
      outstanding = λ g. rw (parse-encode-parse column) (backlog_member g (parse column) false new);
    })
  ])
]
