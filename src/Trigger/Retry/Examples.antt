-- ===== src/Trigger/Retry/Examples.antt =====
-- The theorems on manual retries of ui/backend/email_trigger.py at a concrete input: a batch of
-- three messages, one with a recorded draft and one with a draft that only the mailbox shows.
use bestteam.Shared.{true, false, none, some, [], ◌∷◌, ◌≡◌, refl}
use bestteam.Shared.Int.{pos}
use bestteam.Shared.Equality.{string_eq, contains}
use bestteam.Shared.Literal.{text}
use bestteam.Shared.Dict.{lookup}
use bestteam.Runs.{failed, empty_registry}
use bestteam.Trigger.{plain, TriggerContext, Limits, System}
use bestteam.Trigger.Retry.{
  Original, Attempt, reached, refused, retry_triggered_run, has_failed, retrying_words,
  checked_retry, early_refusal, is_retrying, undrafted, mailbox_refusal, probe_refusal,
  locked_retry, dispatch_retry, all_drafted, may_retry, retry_uids,
}
use bestteam.Trigger.Poll.{is_generation, roll_over, is_today, at_daily_cap}
use bestteam.Trigger.Watchdog.{overlap_guard}
use bestteam.Trigger.Decimal.{str, digits, digit}
use bestteam.Trigger.Scope.{generation_of}
use bestteam.Trigger.Drafted.{mailbox_drafted_uids, key_to_uid, found_uids, draft_marker_prefix}
use bestteam.Trigger.Retry.Laws.{
  IsSent, Redoes, retry_triggered_run-excludes, retry_triggered_run-Redoes,
}

abbrev limits : Limits
limits = record {
  daily_cap = 3;
  batch_size = 5;
  max_event_attempts = 3;
  run_timeout = 1800;
  alert_threshold = pos 3;
}

abbrev batch : TriggerContext
batch = record {
  mailbox_credential_id = 4;
  mailbox_host = "imap.example";
  mailbox_username = "desk";
  uidvalidity = some 7;
  uids = 5 ∷ 6 ∷ 8 ∷ [];
  triggered_at = 900;
  is_contract = false;
}

abbrev broken : Original
broken = record { id = "r0"; pipeline = "desk"; status = failed; trigger_context = some batch }

abbrev attempt : Attempt
attempt = record {
  now = 2000;
  today = text "2026-08-02";
  run_id = "r1";
  drafted_before = [];
  mailbox = some (record { id = 4; host = "imap.example"; username = "desk" }, reached 7);
  has_trigger = true;
  drafted = "5" ∷ [];
  scan = λ keys. some ("mailbox:4:uidvalidity:7:uid:8" ∷ []);
  build = some (some 2);
  is_contract = false;
  switched_off = false;
  org_active = true;
  submits = true;
}

abbrev start : System
start = record {
  trigger = record {
    org_id = 1;
    pipeline_name = "desk";
    enabled = true;
    last_uid = 10;
    uidvalidity = some 7;
    runs_date = some (text "2026-08-02");
    runs_today = 2;
    messages_today = 3;
    last_run_id = none;
    last_error = none;
    last_error_kind = none;
    last_checked_at = none;
    consecutive_faults = pos 0;
    alerted_fingerprint = none;
  };
  ledger = record { rows = []; next_id = 1 };
  registry = empty_registry;
  run_rows = [];
  notifications = [];
  normalized = [];
}

is_sent : IsSent "r1" (retry_triggered_run limits attempt broken start)
unfolding retry_triggered_run checked_retry early_refusal is_retrying undrafted contains
    mailbox_refusal probe_refusal is_generation roll_over is_today locked_retry overlap_guard
    at_daily_cap dispatch_retry all_drafted str digits digit mailbox_drafted_uids key_to_uid
    found_uids draft_marker_prefix generation_of lookup may_retry
is_sent = refl

retry_triggered_run-excludes_example :
    retry_triggered_run limits attempt broken (retry_triggered_run limits attempt broken start).1
    ≡ (refused (plain retrying_words), (retry_triggered_run limits attempt broken start).1)
retry_triggered_run-excludes_example =
    retry_triggered_run-excludes limits attempt attempt broken start refl is_sent

retry_triggered_run-Redoes_example :
    (ctx : TriggerContext) × (broken.trigger_context ≡ some ctx)
    × (has_failed broken.status ≡ true)
    × Redoes attempt broken ctx (retry_triggered_run limits attempt broken start).1
retry_triggered_run-Redoes_example = retry_triggered_run-Redoes limits attempt broken start is_sent

one_message : retry_uids attempt batch ≡ 6 ∷ []
unfolding undrafted contains all_drafted str digits digit mailbox_drafted_uids key_to_uid found_uids
    draft_marker_prefix generation_of lookup
one_message = refl
