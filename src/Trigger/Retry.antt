-- ===== src/Trigger/Retry.antt =====
-- `retry_triggered_run` of ui/backend/email_trigger.py.
-- Other sessions commit between its calls; what they commit within one is in its `Attempt`.
pub mod Cases
pub mod Laws
mod Examples
use bestteam.Shared.{
  ℕ, ◌+◌, String, Bool, true, false, not, ◌&&◌, Option, none, some, List, [], ◌∷◌, ◌++◌, map,
  filter, any, leb, if◌then◌else◌,
}
use bestteam.Shared.Equality.{string_eq, ◌==◌, contains}
use bestteam.Shared.Dict.{Dict, put}
use bestteam.Shared.Text.{Text, is_empty}
use bestteam.Shared.Literal.{text}
use bestteam.Inbox.{resolve_retry_events}
use bestteam.Runs.{RunStatus, running, failed, run_failed, get, is_running, create, publish}
use bestteam.Trigger.{
  Message, plain, about, EmailTrigger, Credential, TriggerContext, RunRow, Limits, System,
  with_trigger, with_registry, fail_row,
}
use bestteam.Trigger.Decimal.{str}
use bestteam.Trigger.Watchdog.{is_active, overlap_guard}
use bestteam.Trigger.Dispatch.{trigger_username, trigger_input, drop_run}
use bestteam.Trigger.Poll.{roll_over, at_daily_cap, is_generation}
use bestteam.Trigger.Drafted.{mailbox_drafted_uids}

-- `run_row`; the context is `none` where it is not one of an e-mail trigger.
pub record Original : Type 0 where
  pub id : String
  pub pipeline : String
  pub status : RunStatus
  pub trigger_context : Option TriggerContext

-- What `mailbox_state` answers.
pub data Probe : Type 0 where
  unreadable unreachable : Probe
  reached : (uidvalidity : ℕ) → Probe

-- `drafted_before` and `drafted` are what `already_drafted_uids` answers before the lock and under
-- it, `has_trigger` says whether the trigger's row is there, `scan` is `backend.drafts_with_source_keys`, and the rest is as in a `Dispatch`.
pub record Attempt : Type 0 where
  pub now : ℕ
  pub today : Text
  pub run_id : String
  pub drafted_before : List String
  pub mailbox : Option (Credential × Probe)
  pub has_trigger : Bool
  pub drafted : List String
  pub scan : List String → Option (List String)
  pub build : Option (Option ℕ)
  pub is_contract : Bool
  pub switched_off : Bool
  pub org_active : Bool
  pub submits : Bool

-- The words of the `RetryError`, or the id of the new run.
pub data RetryResult : Type 0 where
  refused : Message → RetryResult
  dispatched : String → RetryResult

abbrev pub retrying_words : String
retrying_words = "A retry of this run is already in progress."

abbrev pub drafted_words : String
drafted_words =
    "Every message in this batch already has a confirmed draft -- nothing left to retry."

abbrev pub cap_words : String
cap_words = "Today's automatic-run limit has been reached -- try again tomorrow."

abbrev pub retry_message : String
retry_message = "Couldn't start the retry. Try again."

abbrev pub has_failed : RunStatus → Bool
has_failed failed = true
has_failed _ = false

abbrev pub is_retry_of : String → Option String → Bool
is_retry_of id none = false
is_retry_of id (some original) = original == id

abbrev pub retries : String → RunRow → Bool
retries id row = is_retry_of id row.retry_of_run_id && is_running row.status

-- A running row is a retry of the run.
unfoldable pub is_retrying : String → Dict String RunRow → Bool
is_retrying id rows = any (λ p. retries id p.1) rows

-- The messages without a draft.
unfoldable pub undrafted : List String → List ℕ → List ℕ
undrafted drafted uids = filter (λ u. not (contains (str u) drafted)) uids

unfoldable pub probe_refusal : Option ℕ → Probe → Option String
probe_refusal generation unreadable =
    some "The mailbox connection can't be read right now -- reconnect it and try again."
probe_refusal generation unreachable =
    some "Couldn't reach the mailbox to verify it before retrying."
probe_refusal generation (reached v) =
    if is_generation v generation
    then none
    else some
        "The mailbox has changed since this run (its UIDVALIDITY no longer matches) -- this batch can no longer be safely retried."

abbrev pub is_mailbox_of : TriggerContext → Credential → Bool
is_mailbox_of ctx cred = cred.host == ctx.mailbox_host && cred.username == ctx.mailbox_username

unfoldable pub mailbox_refusal : TriggerContext → Option (Credential × Probe) → Option String
mailbox_refusal ctx none = some "Connect a mailbox before retrying."
mailbox_refusal ctx (some (cred, probe)) =
    if is_mailbox_of ctx cred
    then probe_refusal ctx.uidvalidity probe
    else some
        "The connected mailbox has changed since this run -- this batch can no longer be safely retried."

-- The checks before the trigger is read.
unfoldable pub early_refusal : Attempt → Original → TriggerContext → System → Option String
early_refusal a r ctx s =
    if is_running r.status
    then some "This run is still in progress."
    else if not (has_failed r.status)
    then some "Only a failed run can be retried."
    else if is_retrying r.id s.run_rows
    then some retrying_words
    else if is_empty (undrafted a.drafted_before ctx.uids)
    then some drafted_words
    else mailbox_refusal ctx a.mailbox

-- All messages of the batch that are known to have a draft.
unfoldable pub all_drafted : Attempt → TriggerContext → List String
all_drafted a ctx = a.drafted ++ mailbox_drafted_uids a.scan ctx (undrafted a.drafted ctx.uids)

abbrev pub retry_uids : Attempt → TriggerContext → List ℕ
retry_uids a ctx = undrafted (all_drafted a ctx) ctx.uids

-- The compare-and-swap's values: the messages of the day are not counted again.
unfoldable pub advance_retry : String → EmailTrigger → EmailTrigger
advance_retry run_id t = record t {
  runs_today = t.runs_today + 1;
  last_run_id = some run_id;
  last_error = none;
  last_error_kind = none;
}

unfoldable pub may_retry : Attempt → EmailTrigger → Bool
may_retry a t = t.enabled && not a.switched_off && a.org_active

-- What the database keeps after the overlap guard: the release of a stale run is committed, the
-- new day's counters alone are not.
unfoldable pub committed : (before rolled guarded : System) → System
committed before rolled guarded = elim rolled.trigger.last_run_id [
  | none ↦ before
  | some last ↦ if is_active (get last rolled.registry) then guarded else before
]

module _ (a : Attempt) (r : Original) (ctx : TriggerContext) where
  -- `new_row`
  unfoldable pub retry_row : Option ℕ → RunRow
  retry_row version = record {
    id = a.run_id;
    pipeline = r.pipeline;
    input = trigger_input (retry_uids a ctx);
    output = none;
    status = running;
    created_at = some a.now;
    version_id = version;
    retry_of_run_id = some r.id;
    trigger_context = record ctx {
      uids = retry_uids a ctx;
      triggered_at = a.now;
      is_contract = a.is_contract;
    };
  }

  -- `registry.create`
  abbrev pub with_new_run : System → System
  with_new_run s =
      with_registry
        (create a.run_id r.pipeline (trigger_input (retry_uids a ctx)) (some s.trigger.org_id)
          (some trigger_username) s.registry).0
        s

  unfoldable pub commit_retry : Option ℕ → System → System
  commit_retry version s = record s {
    registry = (with_new_run s).registry;
    run_rows = put a.run_id (retry_row version) s.run_rows;
    ledger =
        (resolve_retry_events r.id a.run_id (map str (retry_uids a ctx)) (all_drafted a ctx) a.now
          s.ledger).0;
    trigger = advance_retry a.run_id s.trigger;
  }

  unfoldable pub submit_retry : System → System
  submit_retry s = if a.submits then s else record s {
    run_rows = fail_row a.run_id retry_message s.run_rows;
    normalized = s.normalized ++ a.run_id ∷ [];
    registry = publish a.run_id (run_failed (text retry_message)) s.registry;
  }

  -- From the evidence of drafts on; a rollback goes back to `kept`.
  unfoldable pub dispatch_retry : (kept s : System) → RetryResult × System
  dispatch_retry kept s =
      if is_empty (retry_uids a ctx) then (refused (plain drafted_words), s) else elim a.build [
        | none ↦ (
          refused (
              about "Couldn't rebuild the team '" r.pipeline
                "' -- it may have been changed or removed."),
          kept,
        )
        | some version ↦
            if may_retry a s.trigger
            then (dispatched a.run_id, submit_retry (commit_retry version s))
            else (
              refused (
                  plain
                    "Automatic runs were turned off for this mailbox while the retry was being prepared -- reconnect it and try again."),
              drop_run a.run_id (with_new_run kept),
            )
      ]

  -- Under the lock.
  unfoldable pub locked_retry : Limits → (before rolled : System) → RetryResult × System
  locked_retry limits before rolled =
      let (s, free) = overlap_guard limits a.now rolled in
      let kept = committed before rolled s in
      if not free
      then (
        refused (
            plain
              "A run against this mailbox is already in progress -- try again once it finishes."),
        s,
      )
      else if at_daily_cap limits a.today s.trigger
      then (refused (plain cap_words), s)
      else if is_retrying r.id s.run_rows
      then (refused (plain retrying_words), s)
      else dispatch_retry kept s

  unfoldable pub checked_retry : Limits → System → RetryResult × System
  checked_retry limits s =
      let rolled = with_trigger (roll_over a.today s.trigger) s in
      elim (early_refusal a r ctx s) [
        | some words ↦ (refused (plain words), s)
        | none ↦
            if not a.has_trigger
            then (refused (plain "No automatic-run configuration exists for this team anymore."), s)
            else if leb limits.daily_cap rolled.trigger.runs_today
            then (refused (plain cap_words), rolled)
            else locked_retry limits s rolled
      ]

unfoldable pub retry_triggered_run : Limits → Attempt → Original → System → RetryResult × System
retry_triggered_run limits a r s = elim r.trigger_context [
  | none ↦ (refused (plain "This run has no recorded email batch to retry."), s)
  | some ctx ↦ checked_retry a r ctx limits s
]
