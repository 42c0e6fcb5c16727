-- ===== src/Results/Examples.antt =====
-- A run of two messages and its retry, for ui/backend/automation_results.py.
use bestteam.Shared.{
  map, ℕ, ◌<◌, String, none, some, true, false, List, [], ◌∷◌, ◌≡◌, refl, sym, ap, subst, ◌∙◌, inl,
  arith, if◌then◌else◌,
}
use mathlib.Core.Option.{some-injective}
use mathlib.Core.List.{Memᴰ}
use mathlib.Core.List.Memᴰ
use bestteam.Shared.Equality.{◌==◌, contains, string_eq, nat_eq}
use bestteam.Shared.Text.{text_eq}
use bestteam.Shared.Literal.{text}
use bestteam.Results.{
  EnvelopeItem, Output, no_object, object, TriggerContext, RunRow, Evidence, AutomationItemResult,
  result_type_batch_marker, normalized_context, normalize_run_result, normalize, normalize_batch,
  row_maker, read_output, add_all, rows_to_add, existing_keys, error_row, new_row, error_payload,
  source_key_of,
}
use bestteam.Results.Rows.{IsDistinct}
use bestteam.Results.Coverage.{IsCovered, IsDeclared, normalize_run_result-IsCovered}
use bestteam.Results.Additions.{IsExtended, normalize_run_result-IsExtended}
use bestteam.Results.Families.{find_run, root_from, next_frontier, grow, retry_family_run_ids}
use bestteam.Results.Families.Roots.{IsNumbering, IsFamily, retry_family_run_ids_terminates}
use bestteam.Results.Drafted.{
  TraceEventRecord, already_drafted_uids, retry_uids, row_confirms, event_confirms,
  result_confirmed_uids, trace_confirmed_uids,
}
use bestteam.Runs.{empty_registry, failed}
use bestteam.Results.Retention.{
  StoredRun, Store, purge_content_of, purge_org_runs, purgeable_run_count,
}
use bestteam.Results.Retention.Counting.{purge_org_runs-count}
use bestteam.Results.Retention.Forgetting.{purge_content_of-forgets}
use bestteam.Results.Retries.{drafted_message_stays}

abbrev batch : TriggerContext
batch = record {
  trigger_type = some (text "email");
  uids = text "5" ∷ text "6" ∷ [];
  mailbox_credential_id = text "1";
  uidvalidity = text "9";
  result_contract = some result_type_batch_marker;
}

abbrev original : RunRow
original = record {
  id = "r1";
  org_id = some 1;
  trigger_context = some batch;
  retry_of_run_id = none;
}

abbrev first_retry : RunRow
first_retry = record {
  id = "r2";
  org_id = some 1;
  trigger_context = some batch;
  retry_of_run_id = some "r1";
}

abbrev runs : List RunRow
runs = original ∷ first_retry ∷ []

abbrev evidence : Evidence
evidence = record { confirmed = text "6" ∷ []; failed = [] }

abbrev emergency : EnvelopeItem
emergency = record {
  message_id = text "5 ";
  classification = text "maintenance_request";
  category = text "plumbing";
  priority = text "possible_emergency";
  status = text "processed";
  summary = text "A pipe burst.";
  extracted = [];
  missing_information = [];
  risk_reasons = [];
  action = record { draft_created = true; draft_type = none };
  needs_human = false;
  human_reason = none;
}

abbrev output : Output
output =
    object (some result_type_batch_marker)
      (some (record { schema_version = 1; items = emergency ∷ [] }))

abbrev no_rows : List AutomationItemResult
no_rows = []

original-context : normalized_context original ≡ some (1, batch)
unfolding normalized_context
original-context = refl

first_retry-context : normalized_context first_retry ≡ some (1, batch)
unfolding normalized_context
first_retry-context = refl

batch-IsDeclared : IsDeclared batch output
batch-IsDeclared = inl refl

batch-IsDistinct : IsDistinct batch.uids
batch-IsDistinct = ((refl, tt), (tt, tt))

normalize_run_result-IsCovered_example :
    IsCovered original batch no_rows (normalize_run_result original evidence output no_rows)
normalize_run_result-IsCovered_example =
    normalize_run_result-IsCovered original evidence output no_rows 1 batch original-context
      batch-IsDeclared batch-IsDistinct

normalize_run_result-IsExtended_example :
    IsExtended original evidence no_rows (normalize_run_result original evidence output no_rows)
normalize_run_result-IsExtended_example =
    normalize_run_result-IsExtended original evidence output no_rows

abbrev number : String → ℕ
number id = if id == "r1" then 0 else 1

runs-earlier :
    (r : RunRow) (p : String) → Memᴰ r runs → r.retry_of_run_id ≡ some p → number p < number r.id
runs-earlier r p (Memᴰ.head q) e = cc (ap (λ k. k.retry_of_run_id) q, e)
runs-earlier r p (Memᴰ.tail (Memᴰ.head q)) e =
    let parent = some-injective p "r1" (sym e ∙ ap (λ k. k.retry_of_run_id) q) in
    subst (λ i. number i < number r.id) (sym parent)
      (subst (λ k. number "r1" < number k.id) (sym q) (omega arith))
runs-earlier r p (Memᴰ.tail (Memᴰ.tail m)) e = absurd (Memᴰ.not-nil m)

runs-IsNumbering : IsNumbering number runs
runs-IsNumbering = record { bounded = λ r m. below r; earlier = runs-earlier }
  where
    below : (r : RunRow) → number r.id < 2
    below r = ground arith

retry_family_run_ids_terminates_example :
    (family : List String) × (retry_family_run_ids runs first_retry ≡ some family)
    × IsFamily runs first_retry family
retry_family_run_ids_terminates_example =
    retry_family_run_ids_terminates number runs first_retry runs-IsNumbering
      (Memᴰ.tail (Memᴰ.head refl))

abbrev no_trace : List TraceEventRecord
no_trace = []

family_of_two : retry_family_run_ids runs original ≡ some ("r1" ∷ "r2" ∷ [])
unfolding retry_family_run_ids root_from find_run grow next_frontier contains
family_of_two = refl

second_drafted :
    already_drafted_uids runs no_trace
      (normalize_run_result first_retry evidence no_object no_rows)
      original
    ≡ some (text "6" ∷ [])
unfolding already_drafted_uids retry_family_run_ids root_from find_run grow next_frontier contains
    normalize_run_result normalize normalize_batch normalized_context row_maker read_output add_all
    rows_to_add existing_keys error_row new_row error_payload source_key_of result_confirmed_uids
    row_confirms trace_confirmed_uids event_confirms
second_drafted = refl

member : contains (text "6") batch.uids ≡ true
unfolding contains
member = refl

sure : contains (text "6") evidence.confirmed ≡ true
unfolding contains
sure = refl

inside : contains {A = String} "r2" ("r1" ∷ "r2" ∷ []) ≡ true
unfolding contains
inside = refl

drafted_message_stays_example : contains (text "6") (retry_uids batch.uids (text "6" ∷ [])) ≡ false
drafted_message_stays_example =
    drafted_message_stays runs no_trace first_retry original evidence no_object no_rows 1 batch
      batch ("r1" ∷ "r2" ∷ []) (text "6" ∷ []) (text "6") first_retry-context (inl refl)
      batch-IsDistinct member sure refl refl refl family_of_two inside second_drafted

abbrev stored : StoredRun
stored = record {
  row = original;
  status = failed;
  created_at = 10;
  input = text "5, 6";
  output = none;
  internal_error = none;
  content_purged_at = none;
}

abbrev store : Store
store = record {
  runs = stored ∷ [];
  trace = [];
  results = normalize_run_result original evidence no_object no_rows;
  registry = empty_registry;
}

purge_org_runs-count_example :
    ((purge_org_runs 1440 1 7 20000 store).1 ≡ purgeable_run_count 1440 1 7 20000 store)
    × (purgeable_run_count 1440 1 7 20000 (purge_org_runs 1440 1 7 20000 store).0 ≡ 0)
purge_org_runs-count_example = purge_org_runs-count 1440 1 7 20000 store

alone : retry_family_run_ids (original ∷ []) original ≡ some ("r1" ∷ [])
unfolding retry_family_run_ids root_from find_run grow next_frontier contains
alone = refl

drafted_before :
    already_drafted_uids (original ∷ []) store.trace store.results original ≡ some (text "6" ∷ [])
unfolding already_drafted_uids retry_family_run_ids root_from find_run grow next_frontier contains
    normalize_run_result normalize normalize_batch normalized_context row_maker read_output add_all
    rows_to_add existing_keys error_row new_row error_payload source_key_of result_confirmed_uids
    row_confirms trace_confirmed_uids event_confirms
drafted_before = refl

abbrev after_purge : Store
after_purge = purge_content_of 20000 "r1" store

none_drafted :
    already_drafted_uids
      (map (λ r. r.row) after_purge.runs)
      after_purge.trace
      after_purge.results
      original
    ≡ some []
unfolding purge_content_of already_drafted_uids retry_family_run_ids root_from find_run grow
    next_frontier contains normalize_run_result normalize normalize_batch normalized_context
    row_maker read_output add_all rows_to_add existing_keys error_row new_row error_payload
    source_key_of result_confirmed_uids row_confirms trace_confirmed_uids event_confirms
none_drafted = refl

purge_content_of-forgets_example :
    contains (text "6") (retry_uids batch.uids []) ≡ contains (text "6") batch.uids
purge_content_of-forgets_example =
    purge_content_of-forgets 20000 original batch store [] (text "6") refl alone none_drafted
