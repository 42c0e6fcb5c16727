-- ===== src/Email/Drafts/Passes.antt =====
-- A whole pass of `reconcile` in ui/backend/draft_outcomes.py over the table.
use bestteam.Shared.{
  ℕ, ◌≤◌, true, false, not, ◌&&◌, List, [], ◌∷◌, map, filter, take, length, All, length-take-le,
  length-filter-le, ◌≡◌, ◌⊎◌, inl, inr, arith, Bool-cases, true-and, if◌then◌else◌,
}
use bestteam.Shared.Equality.{contains, nat_eq}
use bestteam.Shared.Text.{Text}
use bestteam.Email.Drafts.{
  pending, unknown, DraftOutcome, MailboxBackend, Answers, is_candidate, is_out_of_scope, selected,
  ordered, ask, active_rows, reconcile_batch, reconcile_row, reconcile,
}
use bestteam.Email.Drafts.Verdicts.{IsTracked, IsJustified, reconcile_row-IsTracked}

candidate-pending : (org : ℕ) (r : DraftOutcome) → is_candidate org r ≡ true → r.status ≡ pending
unfolding is_candidate
candidate-pending org r h = ground arith

-- Rows of the table before and after, one by one.
abbrev pub Pointwise :
    (DraftOutcome → DraftOutcome → Type 0) → List DraftOutcome → List DraftOutcome → Type 0
Pointwise R [] [] = Unit
Pointwise R [] (b ∷ bs) = ⊥
Pointwise R (r ∷ rows) [] = ⊥
Pointwise R (r ∷ rows) (b ∷ bs) = R r b × Pointwise R rows bs

-- The row is as it was, or it was pending in the organisation and has a verdict that rests on the
-- mailbox's answers, or on its being out of scope.
abbrev pub IsForward : ℕ → Text → (window now : ℕ) → Answers → DraftOutcome → DraftOutcome → Type 0
IsForward org prefix window now a before after =
    (after ≡ before)
    ⊎ (is_candidate org before ≡ true)
      × ((is_out_of_scope prefix window now before ≡ true) × (after.status ≡ unknown)
          ⊎ (is_out_of_scope prefix window now before ≡ false)
            × IsJustified a before after after.status)

module _ (box : MailboxBackend) (org : ℕ) (prefix : Text) (window now : ℕ) where
  -- The rows that a pass asks the mailbox about.
  abbrev pub asked_rows : List DraftOutcome → List DraftOutcome
  asked_rows rows = active_rows prefix window now (selected org rows)

  All-IsTracked :
      (a : Answers) (chosen : List ℕ) (rows : List DraftOutcome)
      → All IsTracked rows
      → All IsTracked (
          map
            (λ r.
              if is_candidate org r && contains r.id chosen
              then reconcile_row prefix window now a r
              else r)
            rows)
  All-IsTracked a chosen [] h = tt
  All-IsTracked a chosen (r ∷ rows) h =
      elim (Bool-cases (is_candidate org r && contains r.id chosen)) [
        | inl hit ↦ rw hit (
          reconcile_row-IsTracked prefix window now a r
              (candidate-pending org r (true-and _ _ hit).0) h.0,
          All-IsTracked a chosen rows h.1,
        )
        | inr miss ↦ rw miss (h.0, All-IsTracked a chosen rows h.1)
      ]

  -- A pass keeps the table, if it is so before, one in which a pending row is unresolved with fewer
  -- misses than the threshold, a sent row has its evidence, a handled row has missed often enough,
  -- and every row that is not pending has the time of its verdict.
  pub reconcile-IsTracked :
      (rows : List DraftOutcome)
      → All IsTracked rows
      → All IsTracked (reconcile box org prefix window now rows)
  unfolding reconcile
  reconcile-IsTracked rows h =
      All-IsTracked (ask box prefix (asked_rows rows)) (map (λ s. s.id) (selected org rows)) rows h

  -- However many rows are pending, a pass asks the mailbox about no more than the batch.
  pub asked_rows-le : (rows : List DraftOutcome) → length (asked_rows rows) ≤ reconcile_batch
  unfolding active_rows selected
  asked_rows-le rows = omega (
    arith,
    length-filter-le (λ r. not (is_out_of_scope prefix window now r))
        (take reconcile_batch (ordered (filter (is_candidate org) rows))),
    length-take-le reconcile_batch (ordered (filter (is_candidate org) rows)),
  )
