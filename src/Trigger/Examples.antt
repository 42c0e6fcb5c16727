-- ===== src/Trigger/Examples.antt =====
-- The theorems on ui/backend/email_trigger.py at concrete inputs, and what some cycles do.
use bestteam.Shared.{
  ℕ, ◌+◌, ◌≤◌, ◌<◌, max, String, true, false, Option, none, some, List, [], ◌∷◌, ◌≡◌, refl, arith,
  leb, All, ◌⊎◌,
}
use bestteam.Shared.Int.{pos}
use bestteam.Shared.Equality.{string_eq}
use bestteam.Shared.Dict.{lookup}
use bestteam.Shared.Text.{Text}
use bestteam.Shared.Literal.{text}
use bestteam.Inbox.WellFormed.{IsWellFormed}
use bestteam.Runs.{Run, running, empty_registry, new_run, get, is_running}
use bestteam.Trigger.{EmailTrigger, Credential, RunRow, Limits, Money, Casing, System, with_trigger}
use bestteam.Trigger.Mailbox.{Scan, check_mailbox, sort}
use bestteam.Trigger.Mailbox.Order.{IsSorted, check_mailbox-above}
use bestteam.Trigger.Watchdog.{is_overdue, is_active, release_stale_run}
use bestteam.Trigger.Dispatch.{Dispatch}
use bestteam.Trigger.Poll.{Cycle, connected, roll_over, on_scan, poll_org, is_generation}
use bestteam.Trigger.Ending.{IsIdle}
use bestteam.Trigger.Caps.{poll_org-caps}
use bestteam.Trigger.Cursor.{IsCovered, on_scan-cursor}
use bestteam.Trigger.Overlap.{hangs, IsReleased, release_stale_run_lem, poll_org-waits}

-- Amounts in cents, and texts that are in lower case already.
instance abbrev cents : Money ℕ
cents = record { zero_amount = 0; at_least = λ a b. leb b a }

instance abbrev lower_case : Casing
lower_case = record { lower = λ s. s }

abbrev limits : Limits
limits = record {
  daily_cap = 50;
  batch_size = 1;
  max_event_attempts = 3;
  run_timeout = 1800;
  alert_threshold = pos 3;
}

abbrev cred : Credential
cred = record { id = 4; host = "imap.example"; username = "desk" }

abbrev trigger : EmailTrigger
trigger = record {
  org_id = 1;
  pipeline_name = "desk";
  enabled = true;
  last_uid = 10;
  uidvalidity = some 7;
  runs_date = some (text "2026-08-01");
  runs_today = 50;
  messages_today = 9;
  last_run_id = none;
  last_error = none;
  last_error_kind = none;
  last_checked_at = none;
  consecutive_faults = pos 0;
  alerted_fingerprint = none;
}

abbrev start : System
start = record {
  trigger = trigger;
  ledger = record { rows = []; next_id = 1 };
  registry = empty_registry;
  run_rows = [];
  notifications = [];
  normalized = [];
}

abbrev dispatch : Dispatch ℕ
dispatch = record {
  now = 5000;
  day = text "2026-08-02";
  month = text "2026-08";
  run_id = "r1";
  caps = record { daily_message_cap = some 5; monthly_cost_cap = some 900 };
  spent = some 899;
  build = some (some 2);
  is_contract = false;
  switched_off = false;
  org_active = true;
  submits = true;
}

abbrev status : Text
status = text "INBOX (UIDNEXT 14 UIDVALIDITY 7)"

abbrev answer : Option (List ℕ)
answer = some (13 ∷ 10 ∷ 11 ∷ [])

abbrev cycle : Cycle ℕ
cycle = record {
  today = text "2026-08-02";
  connection = connected cred (some status) answer;
  summaries = none;
  dispatch = dispatch;
}

abbrev scan : Scan
scan = record { uidvalidity = 7; max_uid = 13; new_uids = 11 ∷ 13 ∷ [] }

read_scan : check_mailbox (some status) answer 10 ≡ some scan
unfolding check_mailbox bestteam.Trigger.Mailbox.parse_status bestteam.Trigger.Mailbox.search_number
    bestteam.Trigger.Mailbox.read_digits sort bestteam.Trigger.Mailbox.insert
read_scan = refl

start-IsWellFormed : IsWellFormed 3 start.ledger
start-IsWellFormed = record { consistent = tt; keyed = tt }

start-IsIdle : IsIdle "r1" start
unfolding get lookup
start-IsIdle = (tt, refl)

same_generation : is_generation scan.uidvalidity start.trigger.uidvalidity ≡ true
unfolding is_generation
same_generation = refl

poll_org-caps_example :
    ((poll_org limits cycle start).trigger.runs_today
      ≤ max 50 (roll_over cycle.today start.trigger).runs_today)
    × ((poll_org limits cycle start).trigger.messages_today
        ≤ (roll_over cycle.today start.trigger).messages_today + 1)
    × ((poll_org limits cycle start).trigger.messages_today
        ≤ max 5 (roll_over cycle.today start.trigger).messages_today)
poll_org-caps_example =
    poll_org-caps limits cycle start 5 refl (omega arith) start-IsWellFormed tt start-IsIdle

check_mailbox-above_example : All (λ u. 10 < u) scan.new_uids × IsSorted scan.new_uids
check_mailbox-above_example = check_mailbox-above (some status) answer 10 scan read_scan

on_scan-cursor_example :
    (10 ≤ (on_scan limits cycle cred scan start).trigger.last_uid)
    × All (IsCovered limits cycle cred trigger (on_scan limits cycle cred scan start)) scan.new_uids
on_scan-cursor_example =
    on_scan-cursor limits cycle cred (some status) answer scan start (omega arith) (omega arith)
      start-IsWellFormed read_scan same_generation

abbrev hung_run : Run
hung_run = new_run "r0" "desk" [] (some 1) none

abbrev hung_row : ℕ → RunRow
hung_row created = record {
  id = "r0";
  pipeline = "desk";
  input = [];
  output = none;
  status = running;
  created_at = some created;
  version_id = none;
  retry_of_run_id = none;
  trigger_context = record {
    mailbox_credential_id = 4;
    mailbox_host = "imap.example";
    mailbox_username = "desk";
    uidvalidity = some 7;
    uids = 9 ∷ [];
    triggered_at = created;
    is_contract = false;
  };
}

-- The run "r0" is at work since the given time.
abbrev busy : ℕ → System
busy created = record start {
  trigger = record trigger { last_run_id = some "r0" };
  registry = record empty_registry { runs = ("r0", hung_run) ∷ [] };
  run_rows = ("r0", hung_row created) ∷ [];
}

busy_run : (created : ℕ) → get "r0" (busy created).registry ≡ some hung_run
unfolding get lookup
busy_run created = refl

busy-is_active : is_active (get "r0" (busy 4000).registry) ≡ true
unfolding get lookup new_run
busy-is_active = refl

hung_run-is_running : is_running hung_run.status ≡ true
unfolding new_run
hung_run-is_running = refl

busy_is_young : hangs limits 5000 "r0" (busy 4000) ≡ false
unfolding lookup is_overdue
busy_is_young = refl

poll_org-waits_example :
    poll_org limits cycle (busy 4000)
    ≡ with_trigger (roll_over cycle.today (busy 4000).trigger) (busy 4000)
poll_org-waits_example =
    poll_org-waits limits cycle (busy 4000) "r0" refl busy-is_active busy_is_young

release_stale_run_lem_example :
    ((hangs limits 5000 "r0" (busy 1000) ≡ false)
      × (release_stale_run limits 5000 "r0" (busy 1000) ≡ (busy 1000, false)))
    ⊎ (hangs limits 5000 "r0" (busy 1000) ≡ true)
      × ((release_stale_run limits 5000 "r0" (busy 1000)).1 ≡ true)
      × IsReleased "r0" (busy 1000) (release_stale_run limits 5000 "r0" (busy 1000)).0
release_stale_run_lem_example =
    release_stale_run_lem limits 5000 "r0" (busy 1000) hung_run (busy_run 1000) hung_run-is_running

after_cycle : ℕ × Option String × ℕ × ℕ
after_cycle =
    let t = (poll_org limits cycle start).trigger in
    (t.last_uid, t.last_run_id, t.runs_today, t.messages_today)
