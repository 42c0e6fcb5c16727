-- ===== src/Results/Coverage.antt =====
-- `normalize_run_result` of ui/backend/automation_results.py on a whole batch.
use bestteam.Shared.{
  ℕ, max, Option, none, some, true, false, is_some, List, ◌++◌, count_where, ◌≡◌, ◌⊎◌, refl, sym,
  ap, subst, inl, inr, arith, Bool-cases, Option-cases, ◌∙◌,
}
use mathlib.Core.List.{append_cancel_left}
use bestteam.Shared.Equality.{contains}
use bestteam.Shared.Text.{Text, text_eq}
use bestteam.Shared.Literal.{text}
use bestteam.Results.{
  Output, no_object, object, TriggerContext, RunRow, Evidence, Batch, AutomationItemResult, Reading,
  source_key_of, is_row, is_marker, batch_of, read_output, row_maker, rows_to_add, add_all,
  existing_keys, is_valid_envelope, normalized_context, normalize_batch, normalize,
  normalize_run_result,
}
use bestteam.Results.Rows.{IsDistinct, IsKeyed, add_all-existing_keys}
use bestteam.Results.Honesty.{row_maker-IsHonest}

pub source_key_of-injective : (m v u w : Text) → source_key_of m v u ≡ source_key_of m v w → u ≡ w
unfolding source_key_of
source_key_of-injective m v u w h =
    append_cancel_left (text "mailbox:" ++ m ++ text ":uidvalidity:" ++ v ++ text ":uid:") u w h

row_maker-IsKeyed :
    (b : Batch) (e : Evidence) (uids : List Text) (reading : Reading)
    (row_of : Text → AutomationItemResult)
    → row_maker b e uids reading ≡ some row_of
    → IsKeyed b.run_id b.key_of row_of
row_maker-IsKeyed b e uids reading row_of h u =
    let honest = row_maker-IsHonest b e uids reading row_of u h in (honest.of_run, honest.keyed)

abbrev pub type_of : Output → Option Text
type_of no_object = none
type_of (object result_type typed) = result_type

-- The run declares the contract of the batch, or its output carries the marker.
abbrev pub IsDeclared : TriggerContext → Output → Type 0
IsDeclared context output =
    (is_marker context.result_contract ≡ true) ⊎ (is_marker (type_of output) ≡ true)

reads_batch :
    (b : Batch) (e : Evidence) (uids : List Text) (context : TriggerContext) (output : Output)
    → IsDeclared context output
    → is_some (row_maker b e uids (read_output context output)) ≡ true
unfolding row_maker read_output
reads_batch b e uids context no_object h = ground (arith, h)
reads_batch b e uids context (object result_type none) h = ground (arith, h)
reads_batch b e uids context (object result_type (some envelope)) h =
    elim (Bool-cases (is_marker result_type)) [
      | inl marked ↦ rw marked (elim (Bool-cases (is_valid_envelope envelope)) [
        | inl valid ↦ rw valid refl
        | inr invalid ↦ rw invalid refl
      ])
      | inr plain ↦ rw plain (ground (arith, h))
    ]

row_maker-IsDeclared :
    (b : Batch) (e : Evidence) (uids : List Text) (context : TriggerContext) (output : Output)
    → IsDeclared context output
    → (row_of : Text → AutomationItemResult) × (row_maker b e uids (read_output context output)
        ≡ some row_of)
row_maker-IsDeclared b e uids context output h =
    elim (Option-cases (row_maker b e uids (read_output context output))) [
      | inl missing ↦
          absurd (none_is_some (sym (ap is_some missing) ∙ reads_batch b e uids context output h))
      | inr made ↦ made
    ]
  where
    none_is_some : false ≡ true → ⊥
    none_is_some p = cc

pub normalize_run_result-rows :
    (run : RunRow) (e : Evidence) (output : Output) (table rows : List AutomationItemResult)
    (org_id : ℕ) (context : TriggerContext) (row_of : Text → AutomationItemResult)
    → let b = batch_of org_id run.id context in
      normalized_context run ≡ some (org_id, context)
      → row_maker b e context.uids (read_output context output) ≡ some row_of
      → add_all table (rows_to_add row_of b.key_of (existing_keys run.id table) context.uids)
        ≡ some rows
      → normalize_run_result run e output table ≡ rows
unfolding normalize_run_result normalize normalize_batch
normalize_run_result-rows run e output table rows org_id context row_of engaged made added =
    rw (engaged, normalize, normalize_run_result) (rw (made, normalize_batch) (rw added refl))

-- The message has the rows that it had, or one.
abbrev pub IsCovered : RunRow → TriggerContext → (before after : List AutomationItemResult) → Type 0
IsCovered run context before after =
    (u : Text)
    → contains u context.uids ≡ true
    → let here =
        is_row run.id (source_key_of context.mailbox_credential_id context.uidvalidity u) in
      count_where here after ≡ max 1 (count_where here before)

-- Every message of a declared batch has a row after the normalisation, exactly one when it had at most
-- one before: whatever the output is, with no message listed twice.
pub normalize_run_result-IsCovered :
    (run : RunRow) (e : Evidence) (output : Output) (table : List AutomationItemResult) (org_id : ℕ)
    (context : TriggerContext)
    → normalized_context run ≡ some (org_id, context)
    → IsDeclared context output
    → IsDistinct context.uids
    → IsCovered run context table (normalize_run_result run e output table)
normalize_run_result-IsCovered run e output table org_id context engaged declared distinct =
    let b = batch_of org_id run.id context in
    let (row_of, made) = row_maker-IsDeclared b e context.uids context output declared in
    let (added, counted) =
      add_all-existing_keys run.id b.key_of row_of
        (row_maker-IsKeyed b e context.uids (read_output context output) row_of made)
        (source_key_of-injective context.mailbox_credential_id context.uidvalidity) context.uids
        table distinct in
    subst (IsCovered run context table)
      (sym
        (normalize_run_result-rows run e output table _ org_id context row_of engaged made added))
      counted
