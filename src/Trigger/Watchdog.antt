-- ===== src/Trigger/Watchdog.antt =====
-- `_release_stale_run` of ui/backend/email_trigger.py and the overlap guard of `poll_org` and
-- `retry_triggered_run`. An id of a run is not the empty string.
use bestteam.Shared.{
  ℕ, ◌-◌, String, Bool, true, false, Option, none, some, [], ◌∷◌, ◌++◌, leb, nat_beq, if◌then◌else◌,
}
use bestteam.Shared.Equality.{string_eq}
use bestteam.Shared.Dict.{lookup, put}
use bestteam.Inbox.{release_events}
use bestteam.Email.Health.{run_timeout}
use bestteam.Runs.{Run, failed, get, is_running, request_cancel}
use bestteam.Trigger.{
  plain, pipeline_kind, EmailTrigger, RunRow, Limits, System, with_error, apply_health,
}

abbrev pub stale_message : String
stale_message =
    "The previous automatic run didn't finish in time and was stopped. Automatic runs have resumed."

abbrev pub dead_letter_message : String
dead_letter_message =
    "Some new mail couldn't be processed after several attempts and has been set aside -- open the run list for details."

-- `trigger.last_error` when `release_events` has set messages aside.
abbrev pub with_dead_letters : ℕ → EmailTrigger → EmailTrigger
with_dead_letters dead t =
    if nat_beq dead 0 then t else record t { last_error = some (plain dead_letter_message) }

-- `if release_events(...): trigger.last_error = _DEAD_LETTER_MESSAGE`
unfoldable pub hand_back : Limits → String → String → ℕ → System → System
hand_back limits run_id message now s =
    let (ledger, dead) =
      release_events run_id limits.max_event_attempts (some message) now s.ledger in
    record s { ledger = ledger; trigger = with_dead_letters dead s.trigger }

-- The run has been there for longer than the timeout.
unfoldable pub is_overdue : Limits → ℕ → RunRow → Bool
is_overdue limits now row = elim row.created_at [
  | none ↦ false
  | some created ↦ if leb (now - created) limits.run_timeout then false else true
]

unfoldable pub stop_row : RunRow → RunRow
stop_row row =
    if is_running row.status
    then record row { status = failed; output = some stale_message }
    else row

-- The run that is overdue is no longer waited for.
unfoldable pub stop_run : Limits → ℕ → String → RunRow → System → System
stop_run limits now run_id row s =
    let stopped : System = record s {
      registry = (request_cancel run_id s.registry).0;
      run_rows = put run_id (stop_row row) s.run_rows;
      trigger = with_error (some (plain stale_message)) (some pipeline_kind) s.trigger;
    } in
    let after =
      hand_back limits run_id stale_message now (apply_health limits run_timeout stopped) in
    record after { normalized = after.normalized ++ run_id ∷ [] }

unfoldable pub release_stale_run : Limits → ℕ → String → System → System × Bool
release_stale_run limits now run_id s = elim (lookup run_id s.run_rows) [
  | none ↦ (s, false)
  | some row ↦
      if is_overdue limits now row then (stop_run limits now run_id row s, true) else (s, false)
]

-- `prev is not None and prev.status == "running"`
abbrev pub is_active : Option Run → Bool
is_active none = false
is_active (some run) = is_running run.status

-- The overlap guard: whether the cycle may go on.
unfoldable pub overlap_guard : Limits → ℕ → System → System × Bool
overlap_guard limits now s = elim s.trigger.last_run_id [
  | none ↦ (s, true)
  | some run_id ↦
      if is_active (get run_id s.registry) then release_stale_run limits now run_id s else (s, true)
]
