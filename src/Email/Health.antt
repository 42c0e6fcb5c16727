-- ===== src/Email/Health.antt =====
-- When a trigger's change of health is told to someone, ui/backend/trigger_health.py. The strings
-- `OUTCOME_*` are the constructors of `Outcome`, any other outcome is `other`; a text with a
-- number in it is its two halves and the number; the seconds of `evaluate_backlog` are Python's
-- floats, given by the order and the division that the code uses.
pub mod Faults
pub mod Recovery
pub mod Backlog
pub mod Streaks
use bestteam.Shared.{
  ℕ, ◌+◌, max, String, Bool, true, false, Option, none, some, List, [], ◌∷◌, not, ◌&&◌, ◌||◌, ltb,
  if◌then◌else◌,
}
use bestteam.Shared.Equality.{Eq, ◌==◌, contains}
use bestteam.Shared.Int.{ℤ, pos, negsuc, clamp_zero}
use bestteam.Shared.Text.{Text, text_eq, is_empty}
use bestteam.Shared.Literal.{text}
use bestteam.Email.Fingerprints.{TextSet, insert, intersect, subtract, parse, encode}

pub data Outcome : Type 0 where
  pipeline_fault mailbox_fault run_timeout mailbox_ok pipeline_ok other : Outcome

abbrev pub fingerprint_pipeline : Text
fingerprint_pipeline = text "workflow"

abbrev pub fingerprint_mailbox : Text
fingerprint_mailbox = text "mailbox"

abbrev pub fingerprint_timeout : Text
fingerprint_timeout = text "run_timeout"

abbrev pub fingerprint_backlog : Text
fingerprint_backlog = text "backlog"

abbrev pub recovered : Text
recovered = text "recovered"

pub data Severity : Type 0 where
  error warning info : Severity

pub data Body : Type 0 where
  plain : String → Body
  counted : String → ℕ → String → Body

-- Every draft has the kind "trigger_health".
pub record NotificationDraft : Type 0 where
  pub kind : String
  pub severity : Severity
  pub title : String
  pub body : Body
  pub fingerprint : Text

pub record HealthDecision : Type 0 where
  pub consecutive_faults : ℕ
  pub alerted_fingerprint : Option Text
  pub notification : Option NotificationDraft

abbrev kind_trigger_health : String
kind_trigger_health = "trigger_health"

-- `_FAULT_FINGERPRINTS.get(outcome)`
unfoldable pub fault_fingerprint : Outcome → Option Text
fault_fingerprint pipeline_fault = some fingerprint_pipeline
fault_fingerprint mailbox_fault = some fingerprint_mailbox
fault_fingerprint run_timeout = some fingerprint_timeout
fault_fingerprint _ = none

abbrev pub fault_fingerprints : List Text
fault_fingerprints = fingerprint_pipeline ∷ fingerprint_mailbox ∷ fingerprint_timeout ∷ []

-- `_OK_CLEARS.get(outcome)`
unfoldable pub ok_clears : Outcome → Option (List Text)
ok_clears mailbox_ok = some (fingerprint_mailbox ∷ [])
ok_clears pipeline_ok = some (fingerprint_pipeline ∷ fingerprint_timeout ∷ [])
ok_clears _ = none

abbrev pub is_timeout : Outcome → Bool
is_timeout run_timeout = true
is_timeout _ = false

unfoldable pub draft : Outcome → ℕ → NotificationDraft
draft run_timeout faults = record {
  kind = kind_trigger_health;
  severity = warning;
  title = "An automatic run was stopped after taking too long";
  body =
      plain
        "One automatic email run didn't finish in time, so it was stopped and automatic runs have resumed. If this keeps happening, the team may be waiting on a model or mailbox that isn't responding.";
  fingerprint = fingerprint_timeout;
}
draft mailbox_fault faults = record {
  kind = kind_trigger_health;
  severity = error;
  title = "Your mailbox can't be reached";
  body =
      counted "The last " faults
        " attempts to check the mailbox failed, so no new mail is being processed. Check the email connection in your organisation's settings -- the most common causes are a changed password, an expired credential, or a revoked permission.";
  fingerprint = fingerprint_mailbox;
}
draft _ faults = record {
  kind = kind_trigger_health;
  severity = error;
  title = "Automatic email replies are failing";
  body =
      counted "The last " faults
        " automatic runs failed, so no replies are being drafted. Open the run history to see what each run reported.";
  fingerprint = fingerprint_pipeline;
}

-- `_RECOVERY_TITLES[outcome]`, called only for the outcomes that `_OK_CLEARS` lists.
abbrev recovery_title : Outcome → String
recovery_title mailbox_ok = "Your mailbox is reachable again"
recovery_title _ = "Automatic email replies are working again"

unfoldable pub recovery_draft : Outcome → NotificationDraft
recovery_draft o = record {
  kind = kind_trigger_health;
  severity = info;
  title = recovery_title o;
  body = plain "The problem reported earlier has cleared and automatic runs are succeeding.";
  fingerprint = recovered;
}

abbrev pub decided : ℕ → TextSet → Option NotificationDraft → HealthDecision
decided faults outstanding note = record {
  consecutive_faults = faults;
  alerted_fingerprint = encode outstanding;
  notification = note;
}

-- The branch of `evaluate` for a success, which clears the alerts `clears`.
unfoldable pub on_success : Outcome → List Text → ℕ → TextSet → HealthDecision
unfolding intersect subtract
on_success o clears faults outstanding =
    let cleared = intersect outstanding clears in
    if is_empty (intersect outstanding fault_fingerprints)
    then decided 0 outstanding none
    else if not (is_empty cleared)
    then decided 0 (subtract outstanding cleared) (some (recovery_draft o))
    else decided faults outstanding none

-- The branch of `evaluate` for a fault with the fingerprint `fingerprint`.
unfoldable pub on_fault : Outcome → Text → ℕ → ℤ → TextSet → HealthDecision
on_fault o fingerprint faults threshold outstanding =
    let now = faults + 1 in
    if not (is_timeout o) && ltb now (max (clamp_zero threshold) 1)
    then decided now outstanding none
    else if contains fingerprint outstanding
    then decided now outstanding none
    else decided now (insert fingerprint outstanding) (some (draft o now))

unfoldable pub evaluate : Outcome → ℤ → Option Text → ℤ → HealthDecision
evaluate o consecutive column threshold =
    let faults = clamp_zero consecutive in
    let outstanding = parse column in
    elim (ok_clears o) [
      | some clears ↦ on_success o clears faults outstanding
      | none ↦ elim (fault_fingerprint o) [
        | none ↦ decided faults outstanding none
        | some f ↦ on_fault o f faults threshold outstanding
      ]
    ]

-- Seconds as floats: `a > b` and `int(a // 60)`.
pub record Seconds (S : Type 0) : Type 0 where
  pub exceeds : S → S → Bool
  pub whole_minutes : S → ℤ

pub record BacklogDecision : Type 0 where
  pub alerted_fingerprint : Option Text
  pub notification : Option NotificationDraft

abbrev pub is_over : {S : Type 0} ⦃clock : Seconds S⦄ → Option S → S → Bool
is_over none threshold = false
is_over ⦃clock⦄ (some age) threshold = clock.exceeds age threshold

abbrev minutes_of : {S : Type 0} ⦃clock : Seconds S⦄ → Option S → ℤ
minutes_of none = pos 0
minutes_of ⦃clock⦄ (some age) = clock.whole_minutes age

abbrev pub backlog_draft : ℕ → NotificationDraft
backlog_draft minutes = record {
  kind = kind_trigger_health;
  severity = warning;
  title = "Incoming email is backing up";
  body =
      counted "The oldest unprocessed email has been waiting about " minutes
        " minute(s). Automatic runs may be paused by a daily or budget limit, or falling behind -- check the automation settings and run history.";
  fingerprint = fingerprint_backlog;
}

abbrev pub backlog_cleared_draft : NotificationDraft
backlog_cleared_draft = record {
  kind = kind_trigger_health;
  severity = info;
  title = "The email backlog has cleared";
  body = plain "Waiting email reported earlier is being processed again.";
  fingerprint = recovered;
}

unfoldable pub evaluate_backlog :
    {S : Type 0} ⦃clock : Seconds S⦄ → Option S → S → Option Text → BacklogDecision
unfolding subtract
evaluate_backlog oldest threshold column =
    let outstanding = parse column in
    let over = is_over oldest threshold in
    let reported = contains fingerprint_backlog outstanding in
    if over && not reported
    then record {
      alerted_fingerprint = encode (insert fingerprint_backlog outstanding);
      notification = some (backlog_draft (max (clamp_zero (minutes_of oldest)) 1));
    }
    else if not over && reported
    then record {
      alerted_fingerprint = encode (subtract outstanding (fingerprint_backlog ∷ []));
      notification = some backlog_cleared_draft;
    }
    else record { alerted_fingerprint = encode outstanding; notification = none }
