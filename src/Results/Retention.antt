-- ===== src/Results/Retention.antt =====
-- The purge of ui/backend/retention.py: the rows of a run, its trace and its results, and the run in
-- the registry of ui/backend/registry.py. A moment counts ticks of the clock, `day` of them a day. The empty
-- dictionary that a payload becomes is the payload whose entries read as absent. The table
-- `run_knowledge_generations` is not kept.
pub mod Counting
pub mod Forgetting
use bestteam.Shared.{
  ℕ, zero, suc, ◌+◌, ◌*◌, String, Option, none, some, Bool, true, false, not, ◌&&◌, ◌||◌, List, [],
  ◌∷◌, map, filter, length, ltb, is_some, is_none, if◌then◌else◌,
}
use bestteam.Shared.Equality.{◌==◌, string_eq, nat_eq}
use bestteam.Shared.Text.{Text}
use bestteam.Runs.{RunStatus, is_running, Registry, purge_content}
use bestteam.Results.{RunRow, Payload, AutomationItemResult}
use bestteam.Results.Drafted.{TraceEventRecord}

-- A row of `runs`: what a retry reads of it, and the columns of the purge.
pub record StoredRun : Type 0 where
  pub row : RunRow
  pub status : RunStatus
  pub created_at : ℕ
  pub input : Text
  pub output : Option Text
  pub internal_error : Option Text
  pub content_purged_at : Option ℕ

pub record Store : Type 0 where
  pub runs : List StoredRun
  pub trace : List TraceEventRecord
  pub results : List AutomationItemResult
  pub registry : Registry

abbrev pub empty_payload : Payload
empty_payload = record {
  classification = [];
  category = [];
  priority = [];
  summary = [];
  extracted = [];
  missing_information = [];
  risk_reasons = [];
  action = record { draft_created = false; draft_type = none };
  human_reason = none;
}

-- `run.status not in _TERMINAL_STATUSES or run.content_purged_at is not None`
unfoldable pub is_refused : StoredRun → Bool
is_refused run = is_running run.status || is_some run.content_purged_at

abbrev pub clear_run : ℕ → StoredRun → StoredRun
clear_run now run = record run {
  input = [];
  output = none;
  internal_error = none;
  content_purged_at = some now;
}

abbrev pub clear_result : AutomationItemResult → AutomationItemResult
clear_result item = record item { payload = empty_payload }

abbrev pub of_run : String → StoredRun → Bool
of_run run_id run = run.row.id == run_id

-- What a purge that is not refused changes.
unfoldable pub purge_content_of : ℕ → String → Store → Store
purge_content_of now run_id s = record {
  runs = map (λ r. if of_run run_id r then clear_run now r else r) s.runs;
  trace = filter (λ t. not (t.run_id == run_id)) s.trace;
  results = map (λ i. if i.run_id == run_id then clear_result i else i) s.results;
  registry = (purge_content run_id s.registry).0;
}

unfoldable pub purge_run : ℕ → StoredRun → Store → Store × Bool
purge_run now run s =
    if is_refused run then (s, false) else (purge_content_of now run.row.id s, true)

abbrev pub is_of_org : ℕ → Option ℕ → Bool
is_of_org org_id none = false
is_of_org org_id (some o) = o == org_id

-- The conditions of `_purgeable_query`; the cutoff is `older_than_days` before `now`.
unfoldable pub is_purgeable : (day org_id older_than_days now : ℕ) → StoredRun → Bool
is_purgeable day org_id older_than_days now run =
    is_of_org org_id run.row.org_id
    && ltb (run.created_at + older_than_days * day) now
    && is_none run.content_purged_at
    && not (is_running run.status)

unfoldable pub purgeable_query : (day org_id older_than_days now : ℕ) → Store → List StoredRun
purgeable_query day org_id older_than_days now s =
    filter (is_purgeable day org_id older_than_days now) s.runs

unfoldable pub purge_all : ℕ → List StoredRun → Store → Store × ℕ
purge_all now [] s = (s, 0)
purge_all now (run ∷ runs) s =
    let (t, purged) = purge_run now run s in
    let (u, count) = purge_all now runs t in (u, if purged then suc count else count)

unfoldable pub purge_org_runs : (day org_id older_than_days now : ℕ) → Store → Store × ℕ
purge_org_runs day org_id older_than_days now s =
    purge_all now (purgeable_query day org_id older_than_days now s) s

unfoldable pub purgeable_run_count : (day org_id older_than_days now : ℕ) → Store → ℕ
purgeable_run_count day org_id older_than_days now s =
    length (purgeable_query day org_id older_than_days now s)
