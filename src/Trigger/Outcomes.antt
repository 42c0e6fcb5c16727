-- ===== src/Trigger/Outcomes.antt =====
-- How a dispatch, `_start_triggered_run` of ui/backend/email_trigger.py, can end: the contract that
-- its stages fulfil.
use bestteam.Shared.{ℕ, ◌≤◌, String, true, false, not, ◌&&◌, Option, some, none, List, [], map, ◌≡◌}
use bestteam.Shared.Int.{pos}
use bestteam.Shared.Text.{is_empty}
use bestteam.Inbox.{InboxEvent, Ledger, claim_events, release_events, mark_dispatched}
use bestteam.Shared.Equality.{string_eq}
use bestteam.Shared.Dict.{Dict, lookup, lookup-put_self}
use bestteam.Runs.{RunStatus, running, failed}
use bestteam.Trigger.{fail_row, RunRow, Credential, Limits, Money, Casing, System}
use bestteam.Trigger.Decimal.{int}
use bestteam.Trigger.Scope.{mailbox_of}
use bestteam.Trigger.Dispatch.{Dispatch, submit_message, commit_run, batch_of}
use bestteam.Trigger.Stages.{goes, is_over_budget}

-- A run that is there is failed with the message.
pub lookup-fail_row :
    (run_id message : String) (row : RunRow) (rows : Dict String RunRow)
    → lookup run_id rows ≡ some row
    → lookup run_id (fail_row run_id message rows)
      ≡ some (record row { status = failed; output = some message })
unfolding fail_row
lookup-fail_row run_id message row rows there =
    rw (there, fail_row)
      (lookup-put_self run_id (record row { status = failed; output = some message }) rows)

module _ {M : Type 0} ⦃money : Money M⦄ ⦃casing : Casing⦄ (limits : Limits) (c : Dispatch M)
    (cred : Credential) where
  -- The rows that the dispatch claims of the trigger's mailbox, at most as many as the limit.
  abbrev pub claims_up_to : ℕ → System → Ledger × List InboxEvent
  claims_up_to limit s =
      claim_events (mailbox_of cred s.trigger) c.run_id c.now (pos limit) s.ledger

  -- The run's row has the status, and its batch is the ids of the messages.
  pub record HasBatch (t : System) (status : RunStatus) (events : List InboxEvent) : Type 0 where
    pub row : RunRow
    pub there : lookup c.run_id t.run_rows ≡ some row
    pub is_at : row.status ≡ status
    pub batch : row.trigger_context.uids ≡ map (λ e. int e.external_id) events

  -- The ways in which a dispatch from `s` can end in `t`.
  pub data Outcome (s t : System) : Type 0 where
    waits :
        is_over_budget limits c s ≡ true
        → t.ledger ≡ s.ledger
        → t.trigger.last_run_id ≡ s.trigger.last_run_id
        → Outcome s t
    finds_nothing :
        (limit : ℕ)
        → limit ≤ limits.batch_size
        → (claims_up_to limit s).1 ≡ []
        → t.ledger ≡ (claims_up_to limit s).0
        → t.trigger.last_run_id ≡ s.trigger.last_run_id
        → Outcome s t
    gives_up :
        (limit : ℕ)
        → limit ≤ limits.batch_size
        → is_empty (claims_up_to limit s).1 ≡ false
        → goes limits c cred s ≡ false
        → t.ledger
          ≡ (release_events c.run_id limits.max_event_attempts none c.now
              (claims_up_to limit s).0).0
        → t.trigger.last_run_id ≡ s.trigger.last_run_id
        → Outcome s t
    sends :
        (limit : ℕ)
        → limit ≤ limits.batch_size
        → is_empty (claims_up_to limit s).1 ≡ false
        → goes limits c cred s && c.submits ≡ true
        → t.ledger ≡ mark_dispatched c.run_id (claims_up_to limit s).0
        → t.trigger.last_run_id ≡ some c.run_id
        → HasBatch t running (claims_up_to limit s).1
        → Outcome s t
    fails :
        (limit : ℕ)
        → limit ≤ limits.batch_size
        → is_empty (claims_up_to limit s).1 ≡ false
        → goes limits c cred s && not c.submits ≡ true
        → t.ledger
          ≡ (release_events c.run_id limits.max_event_attempts
              (some submit_message)
              c.now
              (mark_dispatched c.run_id (claims_up_to limit s).0)).0
        → t.trigger.last_run_id ≡ some c.run_id
        → HasBatch t failed (claims_up_to limit s).1
        → Outcome s t

  module _ (limit : ℕ) (s u : System) (version : Option ℕ) (events : List InboxEvent)
      (same : u.ledger ≡ (claims_up_to limit s).0) (taken : events ≡ (claims_up_to limit s).1) where
    abbrev dispatched : System
    dispatched = commit_run limits c cred (batch_of limits c cred events) version u
