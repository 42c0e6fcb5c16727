-- ===== src/Results/Additions.antt =====
-- What one more call of `normalize_run_result` of ui/backend/automation_results.py changes.
use bestteam.Shared.{
  ℕ, none, some, true, List, [], ◌∷◌, ◌++◌, any, All, ◌≡◌, refl, sym, ap, subst, inl, inr, arith,
  Bool-cases, Option-cases, ◌∙◌,
}
use mathlib.Core.Option.{some-injective}
use mathlib.Core.List.{append-nil, append_assoc}
use bestteam.Shared.Equality.{contains, ==-self}
use bestteam.Shared.Text.{Text, text_eq}
use bestteam.Results.{
  Output, TriggerContext, RunRow, Evidence, AutomationItemResult, is_row, batch_of, read_output,
  row_maker, rows_to_add, add_all, existing_keys, normalized_context, normalize_batch, normalize,
  normalize_run_result,
}
use bestteam.Results.Rows.{IsDistinct, any-count, contains-existing_keys}
use bestteam.Results.Honesty.{IsHonest, row_maker-IsHonest}
use bestteam.Results.Coverage.{
  IsDeclared, normalize_run_result-IsCovered, normalize_run_result-rows,
}

add_all-append :
    (rows table after : List AutomationItemResult)
    → add_all table rows ≡ some after
    → after ≡ table ++ rows
unfolding add_all
add_all-append [] table after h = sym (some-injective table after h) ∙ sym (append-nil table)
add_all-append (r ∷ rows) table after h =
    elim (Bool-cases (any (is_row r.run_id r.source_key) table)) [
      | inl clash ↦ absurd (refused (sym (rw (clash, add_all) refl) ∙ h))
      | inr free ↦
          add_all-append rows (table ++ r ∷ []) after (sym (rw (free, add_all) refl) ∙ h)
          ∙ append_assoc table (r ∷ []) rows
    ]
  where
    refused : none ≡ some after → ⊥
    refused e = cc

All-rows_to_add :
    (P : AutomationItemResult → Type 0) (row_of : Text → AutomationItemResult)
    (key_of : Text → Text) (existing us : List Text)
    → ((u : Text) → contains u us ≡ true → P (row_of u))
    → All P (rows_to_add row_of key_of existing us)
unfolding rows_to_add contains
All-rows_to_add P row_of key_of existing [] h = tt
All-rows_to_add P row_of key_of existing (u ∷ us) h =
    let rest = All-rows_to_add P row_of key_of existing us (λ v m. h v (rw m (ground arith))) in
    elim (Bool-cases (contains (key_of u) existing)) [
      | inl known ↦ rw known rest
      | inr new ↦ rw new (h u (rw (==-self u) refl), rest)
    ]

-- The row is an honest one for a message of the run's batch.
abbrev pub IsAdded : RunRow → Evidence → AutomationItemResult → Type 0
IsAdded run e r =
    (org_id : ℕ) × (context : TriggerContext) × (u : Text) × (normalized_context run
      ≡ some (org_id, context))
    × (contains u context.uids ≡ true)
    × IsHonest (batch_of org_id run.id context) e u r

-- The table with new rows behind it, all of them of the run's batch.
abbrev pub IsExtended : RunRow → Evidence → (before after : List AutomationItemResult) → Type 0
IsExtended run e before after =
    (new : List AutomationItemResult) × (after ≡ before ++ new) × All (IsAdded run e) new

unchanged :
    (run : RunRow) (e : Evidence) (table : List AutomationItemResult) → IsExtended run e table table
unchanged run e table = ([], sym (append-nil table), tt)

-- Whatever the run and its output are, the rows of the table stay as they are, and each row that comes
-- behind them is for a message of the run's batch, says that there is a draft exactly when the
-- trace confirms one, and needs attention when its status or its priority says so or the trace has
-- a failed call for the message.
pub normalize_run_result-IsExtended :
    (run : RunRow) (e : Evidence) (output : Output) (table : List AutomationItemResult)
    → IsExtended run e table (normalize_run_result run e output table)
unfolding normalize_run_result normalize normalize_batch
normalize_run_result-IsExtended run e output table = elim (Option-cases (normalized_context run)) [
  | inl other ↦ rw (other, normalize, normalize_run_result) (unchanged run e table)
  | inr ((org_id, context), engaged) ↦
      let b = batch_of org_id run.id context in
      elim (Option-cases (row_maker b e context.uids (read_output context output))) [
        | inl unrelated ↦
            rw (engaged, normalize, normalize_run_result)
              (rw (unrelated, normalize_batch) (unchanged run e table))
        | inr (row_of, made) ↦
            let new = rows_to_add row_of b.key_of (existing_keys run.id table) context.uids in
            elim (Option-cases (add_all table new)) [
              | inl clash ↦
                  rw (engaged, normalize, normalize_run_result)
                    (rw (made, normalize_batch) (rw clash (unchanged run e table)))
              | inr (rows, added) ↦
                  subst (IsExtended run e table)
                    (sym (
                      normalize_run_result-rows run e output table rows org_id context row_of
                        engaged made added))
                    (
                      new,
                      add_all-append new table rows added,
                      All-rows_to_add (IsAdded run e) row_of b.key_of (existing_keys run.id table)
                          context.uids
                          λ u m. (
                            org_id,
                            context,
                            u,
                            engaged,
                            m,
                            row_maker-IsHonest b e context.uids (read_output context output) row_of
                                u made,
                          ),
                    )
            ]
      ]
]

rows_to_add-known :
    (row_of : Text → AutomationItemResult) (key_of : Text → Text) (existing us : List Text)
    → ((u : Text) → contains u us ≡ true → contains (key_of u) existing ≡ true)
    → rows_to_add row_of key_of existing us ≡ []
unfolding rows_to_add contains
rows_to_add-known row_of key_of existing [] h = refl
rows_to_add-known row_of key_of existing (u ∷ us) h =
    rw (h u (rw (==-self u) refl))
      (rows_to_add-known row_of key_of existing us (λ v m. h v (rw m (ground arith))))

left_alone :
    (run : RunRow) (e : Evidence) (output : Output) (table : List AutomationItemResult) (org_id : ℕ)
    (context : TriggerContext)
    → normalized_context run ≡ some (org_id, context)
    → row_maker (batch_of org_id run.id context) e context.uids (read_output context output) ≡ none
    → normalize_run_result run e output table ≡ table
unfolding normalize_run_result normalize normalize_batch
left_alone run e output table org_id context engaged unrelated =
    rw (engaged, normalize, normalize_run_result) (rw (unrelated, normalize_batch) refl)

-- A second normalisation of a declared batch, by the same or by any other output and evidence, changes nothing.
normalize_run_result-again :
    (run : RunRow) (e f : Evidence) (output later : Output) (table : List AutomationItemResult)
    (org_id : ℕ) (context : TriggerContext)
    → normalized_context run ≡ some (org_id, context)
    → IsDeclared context output
    → IsDistinct context.uids
    → let once = normalize_run_result run e output table in
      normalize_run_result run f later once ≡ once
unfolding add_all
normalize_run_result-again run e f output later table org_id context engaged declared distinct =
    let once = normalize_run_result run e output table in
    let b = batch_of org_id run.id context in
    let covered =
      normalize_run_result-IsCovered run e output table org_id context engaged declared distinct in
    elim (Option-cases (row_maker b f context.uids (read_output context later))) [
      | inl unrelated ↦ left_alone run f later once org_id context engaged unrelated
      | inr (row_of, made) ↦
          normalize_run_result-rows run f later once once org_id context row_of engaged made (
            ap (add_all once) (
              rows_to_add-known row_of b.key_of (existing_keys run.id once) context.uids λ u m.
                contains-existing_keys run.id (b.key_of u) once
                ∙ any-count (is_row run.id (b.key_of u)) once
                ∙ ground (arith, covered u m)))
    ]
