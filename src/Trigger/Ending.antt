-- ===== src/Trigger/Ending.antt =====
-- How a cycle of ui/backend/email_trigger.py ends: with a run that holds its batch, or with no
-- claim and no run left at work.
use bestteam.Shared.{
  ℕ, String, true, false, Option, none, some, List, [], ◌∷◌, map, ◌≡◌, refl, sym, ap, subst, ◌∙◌,
  ◌⊎◌, inl, inr, Bool-cases,
}
use bestteam.Shared.Text.{Text}
use bestteam.Shared.Literal.{text}
use bestteam.Shared.Equality.{string_eq}
use bestteam.Shared.Dict.{lookup, HasDistinctKeys, lookup-put_self}
use bestteam.Inbox.{InboxEvent, claimed_events}
use bestteam.Runs.{running, get}
use bestteam.Trigger.{RunRow, Credential, Limits, Money, Casing, System, apply_health}
use bestteam.Trigger.Decimal.{str}
use bestteam.Trigger.Scope.{mailbox_identity, mailbox_of}
use bestteam.Trigger.Budget.{raise_budget_alert, budget_fingerprint, has_fingerprint}
use bestteam.Trigger.Watchdog.{is_active, hand_back, stop_run, stale_message}
use bestteam.Trigger.Dispatch.{
  Dispatch, give_up, submit, fail_submission, submit_message, commit_run, advance, batch_of,
  start_triggered_run,
}
use bestteam.Trigger.Poll.{
  Cycle, detected, filter_decisions, mailbox_failed, mailbox_checked, rebase, record_scan,
}
use bestteam.Trigger.Stages.{Keeps, start_cases, claim_cases, dispatch_cases, with_run, with_input}
use bestteam.Trigger.Unclaimed.{
  IsUnclaimed, IsUnclaimed-release, IsUnclaimed-release_own, IsUnclaimed-abandon,
  IsUnclaimed-record, claim-nothing, claim-returns, uids_of, uids-mark,
}
use bestteam.Trigger.Activity.{
  active_in, active-create, active-discard, active-fail, active-set_input, runs-request_cancel,
}

-- No message is claimed by the run, and the registry has no such run at work.
abbrev pub IsIdle : String → System → Type 0
IsIdle run_id s = IsUnclaimed run_id s.ledger × (active_in run_id s.registry ≡ false)

-- The run is the one that the trigger waits for, it is at work, and its row lists exactly the
-- messages that it has claimed.
abbrev pub IsDispatched : String → System → Type 0
IsDispatched run_id s =
    (s.trigger.last_run_id ≡ some run_id)
    × (active_in run_id s.registry ≡ true)
    × ((row : RunRow) × (lookup run_id s.run_rows ≡ some row)
        × (row.status ≡ running)
        × (row.trigger_context.uids ≡ uids_of (claimed_events run_id s.ledger)))

-- What holds of a run id that is not dispatched yet, or of the dispatched run.
abbrev pub Ends : String → System → Type 0
Ends run_id s = IsIdle run_id s ⊎ IsDispatched run_id s

raise-IsIdle :
    (run_id : String) (which period : Text) (words : String) (s : System)
    → IsIdle run_id s
    → IsIdle run_id (raise_budget_alert which period words s)
unfolding raise_budget_alert
raise-IsIdle run_id which period words s h =
    elim (Bool-cases (has_fingerprint (budget_fingerprint which period) s.notifications)) [
      | inl told ↦ rw told h
      | inr new ↦ rw new h
    ]

module _ {M : Type 0} ⦃money : Money M⦄ ⦃casing : Casing⦄ (limits : Limits) (c : Dispatch M)
    (cred : Credential) where
  give_up-IsIdle : (s : System) → IsIdle c.run_id (give_up limits c.now c.run_id s)
  unfolding give_up
  give_up-IsIdle s = (
    IsUnclaimed-release_own c.run_id limits.max_event_attempts none c.now s.ledger,
    active-discard c.run_id s.registry,
  )

  submit-Ends : (s : System) → IsDispatched c.run_id s → Ends c.run_id (submit limits c cred s)
  unfolding submit fail_submission hand_back
  submit-Ends s h = elim (Bool-cases c.submits) [
    | inl sent ↦ rw sent (inr h)
    | inr refused ↦ rw refused (
        inl (
          IsUnclaimed-release_own c.run_id limits.max_event_attempts (some submit_message) c.now
              s.ledger,
          active-fail c.run_id (text submit_message) s.registry,
        ))
  ]

  commit-IsDispatched :
      (es : List InboxEvent) (version : Option ℕ) (s : System)
      → claimed_events c.run_id s.ledger ≡ es
      → active_in c.run_id s.registry ≡ true
      → IsDispatched c.run_id (
          commit_run limits c cred
            (batch_of limits c cred es)
            version
            (with_input limits c (batch_of limits c cred es) s))
  unfolding commit_run advance
  commit-IsDispatched es version s held active = (
    refl,
    active-set_input c.run_id _ s.registry ∙ active,
    (
      _,
      lookup-put_self c.run_id _ s.run_rows,
      refl,
      sym (uids-mark c.run_id s.ledger ∙ ap uids_of held),
    ),
  )

  pub start-Ends :
      (s : System)
      → HasDistinctKeys s.registry.runs
      → IsIdle c.run_id s
      → Ends c.run_id (start_triggered_run limits c cred s)
  start-Ends s distinct h =
      start_cases limits (Ends c.run_id) c cred s
        (λ which period words over. inl (
          raise-IsIdle c.run_id which period words _
            (h.0, active-discard c.run_id (with_run limits c s).registry)))
        λ cheap free.
          claim_cases limits (Ends c.run_id) c cred _ _
            (λ nothing. inl (
              claim-nothing c.run_id (mailbox_of cred s.trigger) c.now _ s.ledger h.0 nothing,
              active-discard c.run_id (with_run limits c s).registry,
            ))
            λ e es found.
              dispatch_cases limits (Ends c.run_id) c cred _ _
                (λ t stays eq. inl (give_up-IsIdle t)) (λ t stays eq. inl (give_up-IsIdle t))
                λ version on. submit-Ends _ (
                  commit-IsDispatched (e ∷ es) version _
                    (claim-returns c.run_id (mailbox_of cred s.trigger) c.now _ s.ledger e es found)
                    (active-create c.run_id s.trigger.pipeline_name [] (some s.trigger.org_id) _
                      s.registry distinct))

-- What the stages before the dispatch keep: an idle run id and a registry without double entries;
-- from the dispatch on, the end.
abbrev pub Waits : String → System → Type 0
Waits run_id s = IsIdle run_id s × HasDistinctKeys s.registry.runs

stop_run-Waits :
    (limits : Limits) (now : ℕ) (run_id other : String) (row : RunRow) (s : System)
    → Waits run_id s
    → Waits run_id (stop_run limits now other row s)
unfolding stop_run hand_back apply_health get
stop_run-Waits limits now run_id other row s (h, distinct) = (
  (
    IsUnclaimed-release run_id other limits.max_event_attempts (some stale_message) now s.ledger
        h.0,
    ap (λ d. is_active (lookup run_id d)) (runs-request_cancel other s.registry) ∙ h.1,
  ),
  subst HasDistinctKeys (sym (runs-request_cancel other s.registry)) distinct,
)

module _ {M : Type 0} ⦃money : Money M⦄ ⦃casing : Casing⦄ (limits : Limits) (c : Cycle M) where
  open c.dispatch use {run_id}

  pub Ends-kept : Keeps limits (Waits run_id) (Ends run_id) c
  unfolding mailbox_failed mailbox_checked rebase record_scan apply_health
  Ends-kept = record {
    ends = λ s h. inl h.0;
    stops = λ other row s h. stop_run-Waits limits c.now run_id other row s h;
    fails = λ message s h. h;
    checks = λ s h. h;
    rebases = λ cred scan s other h. (
      (
        IsUnclaimed-abandon run_id s.trigger.org_id (mailbox_identity cred)
            (some (str scan.uidvalidity)) c.now s.ledger h.0.0,
        h.0.1,
      ),
      h.1,
    );
    records = λ cred u us s h. (
      (
        IsUnclaimed-record run_id (mailbox_of cred s.trigger) "imap"
            (filter_decisions (detected limits c (u ∷ us)) c.summaries) c.now
            (map str (detected limits c (u ∷ us))) s.ledger h.0.0,
        h.0.1,
      ),
      h.1,
    );
    starts = λ cred s below h. start-Ends limits c.dispatch cred s h.1 h.0;
  }
