-- ===== src/Trigger.antt =====
-- The autonomous email trigger, ui/backend/email_trigger.py: what one poll cycle of one
-- organisation and one manual retry read and write. The durable tables are those of the
-- organisation; a clock reading is a number of microseconds; a cycle's answers from the mailbox,
-- the database of settings, the builder of pipelines and the executor are its argument.
pub mod Decimal
pub mod Mailbox
pub mod Scope
pub mod Budget
pub mod Watchdog
pub mod Dispatch
pub mod Poll
pub mod Stages
pub mod Refinement
pub mod Outcomes
pub mod Unclaimed
pub mod Activity
pub mod Ending
pub mod Caps
pub mod Cursor
pub mod Overlap
pub mod Drafted
pub mod Retry
mod Examples
use bestteam.Shared.{ℕ, String, Option, none, some, Bool, List, [], ◌++◌, ◌∷◌, if◌then◌else◌}
use bestteam.Shared.Dict.{Dict, lookup, put}
use bestteam.Shared.Equality.{string_eq}
use bestteam.Shared.Int.{ℤ, pos}
use bestteam.Shared.Text.{Text}
use bestteam.Inbox.{Ledger, Decisions}
use bestteam.Runs.{Registry, RunStatus}
use bestteam.Email.Health.{Outcome, HealthDecision, NotificationDraft, evaluate}

-- A text shown to the customer; a text with a number or a name in it is its parts.
pub data Message : Type 0 where
  plain : String → Message
  counted : (before : String) (n : ℕ) (after : String) → Message
  about : (before name after : String) → Message
  quoted : Text → Message

pub data ErrorKind : Type 0 where
  mailbox_kind pipeline_kind : ErrorKind

pub record EmailTrigger : Type 0 where
  pub org_id : ℕ
  pub pipeline_name : String
  pub enabled : Bool
  pub last_uid : ℕ
  pub uidvalidity : Option ℕ
  pub runs_date : Option Text
  pub runs_today : ℕ
  pub messages_today : ℕ
  pub last_run_id : Option String
  pub last_error : Option Message
  pub last_error_kind : Option ErrorKind
  pub last_checked_at : Option ℕ
  pub consecutive_faults : ℤ
  pub alerted_fingerprint : Option Text

pub record Credential : Type 0 where
  pub id : ℕ
  pub host : String
  pub username : String

-- `trigger_context`; its "trigger_type" is "email" and its "folder" is "INBOX". `is_contract` says
-- whether it has the entry "result_contract".
pub record TriggerContext : Type 0 where
  pub mailbox_credential_id : ℕ
  pub mailbox_host : String
  pub mailbox_username : String
  pub uidvalidity : Option ℕ
  pub uids : List ℕ
  pub triggered_at : ℕ
  pub is_contract : Bool

-- A row of the table of runs.
pub record RunRow : Type 0 where
  pub id : String
  pub pipeline : String
  pub input : Text
  pub output : Option String
  pub status : RunStatus
  pub created_at : Option ℕ
  pub version_id : Option ℕ
  pub retry_of_run_id : Option String
  pub trigger_context : TriggerContext

-- The limits from the environment of the process.
pub record Limits : Type 0 where
  pub daily_cap : ℕ
  pub batch_size : ℕ
  pub max_event_attempts : ℕ
  pub run_timeout : ℕ
  pub alert_threshold : ℤ

-- Amounts of money are Python's floats, given by what the code uses of them: `0.0` and `a >= b`.
pub record Money (M : Type 0) : Type 0 where
  pub zero_amount : M
  pub at_least : M → M → Bool

-- `str.lower`
pub record Casing : Type 0 where
  pub lower : String → String

-- What the cycle reads and writes: the trigger's row, the ledger, the registry of runs, the runs'
-- rows, the organisation's notifications, and the runs passed to `normalize_run_result`, in order.
pub record System : Type 0 where
  pub trigger : EmailTrigger
  pub ledger : Ledger
  pub registry : Registry
  pub run_rows : Dict String RunRow
  pub notifications : List NotificationDraft
  pub normalized : List String

abbrev pub with_trigger : EmailTrigger → System → System
with_trigger t s = record s { trigger = t }

abbrev pub with_registry : Registry → System → System
with_registry r s = record s { registry = r }

abbrev pub with_ledger : Ledger → System → System
with_ledger l s = record s { ledger = l }

-- `trigger.last_error` and `trigger.last_error_kind`
abbrev pub with_error : Option Message → Option ErrorKind → EmailTrigger → EmailTrigger
with_error e kind t = record t { last_error = e; last_error_kind = kind }

abbrev pub add_notification :
    Option NotificationDraft → List NotificationDraft → List NotificationDraft
add_notification none notes = notes
add_notification (some note) notes = notes ++ note ∷ []

abbrev pub take_health : HealthDecision → System → System
take_health d s = record s {
  trigger = record s.trigger {
    consecutive_faults = pos d.consecutive_faults;
    alerted_fingerprint = d.alerted_fingerprint;
  };
  notifications = add_notification d.notification s.notifications;
}

unfoldable pub apply_health : Limits → Outcome → System → System
apply_health limits outcome s =
    take_health
      (evaluate outcome s.trigger.consecutive_faults s.trigger.alerted_fingerprint
        limits.alert_threshold)
      s

-- The row of a run set to failed with its message, and the run passed to `normalize_run_result`.
unfoldable pub fail_row : String → String → Dict String RunRow → Dict String RunRow
fail_row run_id message rows = elim (lookup run_id rows) [
  | none ↦ rows
  | some row ↦ put run_id (record row { status = RunStatus.failed; output = some message }) rows
]
