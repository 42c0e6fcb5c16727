-- ===== src/Trigger/Dispatch.antt =====
-- `_start_triggered_run` of ui/backend/email_trigger.py: from the budgets to the executor.
use bestteam.Shared.{
  ℕ, ◌+◌, String, Bool, not, ◌&&◌, Option, none, some, List, [], ◌∷◌, ◌++◌, map, length,
  if◌then◌else◌,
}
use bestteam.Shared.Equality.{string_eq}
use bestteam.Shared.Dict.{lookup, put}
use bestteam.Shared.Int.{pos}
use bestteam.Shared.Text.{Text, join}
use bestteam.Shared.Literal.{text}
use bestteam.Inbox.{InboxEvent, claim_events, mark_dispatched, release_events}
use bestteam.Runs.{Registry, running, run_failed, create, discard, publish}
use bestteam.Trigger.{
  plain, about, pipeline_kind, EmailTrigger, Credential, TriggerContext, RunRow, Limits, Money,
  Casing, System, with_trigger, with_registry, with_ledger, with_error, fail_row,
}
use bestteam.Trigger.Decimal.{str, int}
use bestteam.Trigger.Scope.{mailbox_of}
use bestteam.Trigger.Budget.{
  BudgetCaps, remaining_messages, claim_limit, is_used_up, cost_exceeded, raise_budget_alert,
}
use bestteam.Trigger.Watchdog.{hand_back}

abbrev pub trigger_username : String
trigger_username = "email-trigger"

-- What one dispatch is told: the day and the month of the budgets, the clock, the id that the
-- registry draws, the budgets, the answers of the builder (`none` when it raises) and of the
-- executor, and what other sessions have committed by the time of the compare-and-swap.
pub record Dispatch (M : Type 0) : Type 0 where
  pub now : ℕ
  pub day : Text
  pub month : Text
  pub run_id : String
  pub caps : BudgetCaps M
  pub spent : Option M
  pub build : Option (Option ℕ)
  pub is_contract : Bool
  pub switched_off : Bool
  pub org_active : Bool
  pub submits : Bool

unfoldable pub trigger_input : List ℕ → Text
trigger_input uids =
    text (str (length uids))
    ++ (text " new email(s) arrived in the inbox (message ids: "
        ++ (join (text ", ") (map (λ u. text (str u)) uids)
            ++ text
                "). Read each message by id and triage it, drafting replies where appropriate."))

abbrev pub cost_words : String
cost_words =
    "This organisation has reached its monthly spend limit for automatic email runs. New mail is still being collected and will be processed when the new month begins, or sooner if you raise the limit."

abbrev pub messages_words : String
messages_words =
    "This organisation has reached its daily limit for automatically processed emails. New mail is still being collected and will be processed tomorrow, or sooner if you raise the limit."

abbrev pub submit_message : String
submit_message =
    "Couldn't start the automatic run. The affected mail will be picked up again on a later check."

-- `run.input = input_text`
unfoldable pub set_input : String → Text → Registry → Registry
set_input run_id input r = elim (lookup run_id r.runs) [
  | none ↦ r
  | some run ↦ record r { runs = put run_id (record run { input = input }) r.runs }
]

abbrev pub drop_run : String → System → System
drop_run run_id s = with_registry (discard run_id s.registry) s

-- The penalty-free release of a run that is not dispatched.
unfoldable pub give_up : Limits → ℕ → String → System → System
give_up limits now run_id s =
    drop_run run_id
      (with_ledger (release_events run_id limits.max_event_attempts none now s.ledger).0 s)

unfoldable pub advance : String → ℕ → EmailTrigger → EmailTrigger
advance run_id claimed t = record t {
  runs_today = t.runs_today + 1;
  messages_today = t.messages_today + claimed;
  last_run_id = some run_id;
  last_error = none;
  last_error_kind = none;
}

-- The executor refuses the run.
unfoldable pub fail_submission : Limits → ℕ → String → System → System
fail_submission limits now run_id s =
    let marked : System = record s {
      run_rows = fail_row run_id submit_message s.run_rows;
      trigger = with_error (some (plain submit_message)) (some pipeline_kind) s.trigger;
    } in
    let after = hand_back limits run_id submit_message now marked in
    record after {
      normalized = after.normalized ++ run_id ∷ [];
      registry = publish run_id (run_failed (text submit_message)) after.registry;
    }

module _ {M : Type 0} ⦃money : Money M⦄ ⦃casing : Casing⦄ (limits : Limits) (c : Dispatch M)
    (cred : Credential) where
  abbrev pub context_of : EmailTrigger → List ℕ → TriggerContext
  context_of t batch = record {
    mailbox_credential_id = cred.id;
    mailbox_host = cred.host;
    mailbox_username = cred.username;
    uidvalidity = t.uidvalidity;
    uids = batch;
    triggered_at = c.now;
    is_contract = c.is_contract;
  }

  abbrev pub row_of : EmailTrigger → List ℕ → Option ℕ → RunRow
  row_of t batch version = record {
    id = c.run_id;
    pipeline = t.pipeline_name;
    input = trigger_input batch;
    output = none;
    status = running;
    created_at = some c.now;
    version_id = version;
    retry_of_run_id = none;
    trigger_context = context_of t batch;
  }

  -- The predicate of the compare-and-swap.
  unfoldable pub may_advance : EmailTrigger → Bool
  may_advance t = t.enabled && not c.switched_off && c.org_active

  -- The commit of the dispatch: the trigger's row, the run's row and the charged attempts.
  unfoldable pub commit_run : List ℕ → Option ℕ → System → System
  commit_run batch version s = record s {
    trigger = advance c.run_id (length batch) s.trigger;
    run_rows = put c.run_id (row_of s.trigger batch version) s.run_rows;
    ledger = mark_dispatched c.run_id s.ledger;
  }

  abbrev pub cannot_start : EmailTrigger → EmailTrigger
  cannot_start t =
      with_error
        (some (
          about "Couldn't start the team '" t.pipeline_name
            "' -- it may have been changed or removed. Re-enable automatic runs from its page."))
        (some pipeline_kind) t

  -- `db.refresh(trigger)` after the compare-and-swap has matched no row.
  abbrev pub refreshed : EmailTrigger → EmailTrigger
  refreshed t = record t { enabled = t.enabled && not c.switched_off }

  unfoldable pub submit : System → System
  submit s = if c.submits then s else fail_submission limits c.now c.run_id s

  -- From the answer of the builder on.
  unfoldable pub dispatch_batch : List ℕ → System → System
  dispatch_batch batch s =
      let s' = with_registry (set_input c.run_id (trigger_input batch) s.registry) s in
      elim c.build [
        | none ↦ give_up limits c.now c.run_id (with_trigger (cannot_start s'.trigger) s')
        | some version ↦
            if may_advance s'.trigger
            then submit (commit_run batch version s')
            else give_up limits c.now c.run_id (with_trigger (refreshed s'.trigger) s')
      ]

  abbrev pub batch_of : List InboxEvent → List ℕ
  batch_of claimed = map (λ e. int e.external_id) claimed

  -- From the claim on.
  unfoldable pub claim_batch : ℕ → System → System
  claim_batch limit s =
      let (ledger, claimed) =
        claim_events (mailbox_of cred s.trigger) c.run_id c.now (pos limit) s.ledger in
      let s' = with_ledger ledger s in
      elim claimed [ [] ↦ drop_run c.run_id s' | e ∷ es ↦ dispatch_batch (batch_of (e ∷ es)) s' ]

  unfoldable pub within_budget : System → System
  within_budget s =
      let remaining = remaining_messages c.caps.daily_message_cap s.trigger.messages_today in
      if cost_exceeded c.caps c.spent
      then raise_budget_alert (text "cost") c.month cost_words (drop_run c.run_id s)
      else if is_used_up remaining
      then raise_budget_alert (text "messages") c.day messages_words (drop_run c.run_id s)
      else claim_batch (claim_limit limits.batch_size remaining) s

  unfoldable pub start_triggered_run : System → System
  start_triggered_run s =
      let (registry, run) =
        create c.run_id s.trigger.pipeline_name [] (some s.trigger.org_id) (some trigger_username)
          s.registry in
      within_budget (with_registry registry s)
