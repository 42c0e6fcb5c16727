-- ===== src/Trigger/Refinement.antt =====
-- What `poll_org` of ui/backend/email_trigger.py does to the ledger of
-- ui/backend/db/inbox_events.py, as operations of that ledger.
use bestteam.Shared.{ℕ, String, some, none, ◌∷◌, ◌≡◌, refl, map, inl, inr, Bool-cases}
use bestteam.Shared.Int.{pos}
use bestteam.Shared.Text.{Text}
use bestteam.Inbox.{Ledger, claim_events}
use bestteam.Shared.Equality.{string_eq}
use bestteam.Inbox.Steps.{Reach, next, record_scan as recorded, claim, abandon, dispatch, release}
use bestteam.Trigger.{RunRow, Credential, Limits, Money, Casing, System, apply_health}
use bestteam.Trigger.Decimal.{str}
use bestteam.Trigger.Scope.{mailbox_identity, mailbox_of}
use bestteam.Trigger.Budget.{has_fingerprint, budget_fingerprint, raise_budget_alert, claim_limit}
use bestteam.Trigger.Watchdog.{hand_back, stop_run, stale_message}
use bestteam.Trigger.Dispatch.{
  Dispatch, give_up, fail_submission, submit, submit_message, start_triggered_run, commit_run,
}
use bestteam.Trigger.Poll.{
  Cycle, detected, filter_decisions, mailbox_failed, mailbox_checked, rebase, record_scan,
}
use bestteam.Trigger.Stages.{Keeps, start_cases, claim_cases, dispatch_cases, room}

pub ledger-raise :
    (which period : Text) (words : String) (s : System)
    → (raise_budget_alert which period words s).ledger ≡ s.ledger
unfolding raise_budget_alert
ledger-raise which period words s =
    elim (Bool-cases (has_fingerprint (budget_fingerprint which period) s.notifications)) [
      | inl told ↦ rw told refl
      | inr new ↦ rw new refl
    ]

pub trigger-raise :
    (which period : Text) (words : String) (s : System)
    → (raise_budget_alert which period words s).trigger ≡ s.trigger
unfolding raise_budget_alert
trigger-raise which period words s =
    elim (Bool-cases (has_fingerprint (budget_fingerprint which period) s.notifications)) [
      | inl told ↦ rw told refl
      | inr new ↦ rw new refl
    ]

module _ (limits : Limits) (l : Ledger) where
  abbrev pub Reached : System → Type 0
  Reached s = Reach limits.max_event_attempts l s.ledger

  stop_run-Reached :
      (now : ℕ) (run_id : String) (row : RunRow) (s : System)
      → Reached s
      → Reached (stop_run limits now run_id row s)
  unfolding stop_run hand_back apply_health
  stop_run-Reached now run_id row s r = next r (release run_id (some stale_message) now)

  module _ {M : Type 0} ⦃money : Money M⦄ ⦃casing : Casing⦄ where
    submit-Reached :
        (c : Dispatch M) (cred : Credential) (s : System)
        → Reached s
        → Reached (submit limits c cred s)
    unfolding submit fail_submission hand_back
    submit-Reached c cred s r = elim (Bool-cases c.submits) [
      | inl sent ↦ rw sent r
      | inr refused ↦ rw refused (next r (release c.run_id (some submit_message) c.now))
    ]

    pub start-Reached :
        (c : Dispatch M) (cred : Credential) (s : System)
        → Reached s
        → Reached (start_triggered_run limits c cred s)
    unfolding give_up commit_run
    start-Reached c cred s r =
        start_cases limits Reached c cred s (λ which period words over. rw ledger-raise r)
          λ cheap free.
            claim_cases limits Reached c cred _ _ (λ none_left. taken)
              λ e es found.
                dispatch_cases limits Reached c cred _ _
                  (λ t stays e. rw e (next taken (release c.run_id none c.now)))
                  (λ t stays e. rw e (next taken (release c.run_id none c.now)))
                  (λ version on. submit-Reached c cred _ (next taken (dispatch c.run_id)))
      where
        taken :
            Reach limits.max_event_attempts l
              (claim_events
                (mailbox_of cred s.trigger)
                c.run_id
                c.now
                (pos (claim_limit limits.batch_size (room limits c s)))
                s.ledger).0
        taken = next r (claim _ c.run_id c.now _)

    pub Reached-kept : (c : Cycle M) → Keeps limits Reached Reached c
    unfolding mailbox_failed mailbox_checked rebase record_scan apply_health
    Reached-kept c = record {
      ends = λ s r. r;
      stops = λ run_id row s r. stop_run-Reached c.now run_id row s r;
      fails = λ message s r. r;
      checks = λ s r. r;
      rebases = λ cred scan s other r.
          next r
            (abandon s.trigger.org_id (mailbox_identity cred) (some (str scan.uidvalidity)) c.now);
      records = λ cred u us s r. next r (
          recorded (mailbox_of cred s.trigger) "imap"
            (filter_decisions (detected limits c (u ∷ us)) c.summaries) c.now
            (map str (detected limits c (u ∷ us))));
      starts = λ cred s below r. start-Reached c.dispatch cred s r;
    }
