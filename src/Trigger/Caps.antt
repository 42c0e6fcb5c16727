-- ===== src/Trigger/Caps.antt =====
-- The caps of ui/backend/email_trigger.py and ui/backend/email_budget.py over a cycle.
use bestteam.Shared.{
  ℕ, ◌+◌, ◌-◌, ◌≤◌, ◌<◌, max, true, false, some, List, ◌∷◌, length, leb, ◌≡◌, refl, sym, subst, ap,
  ap₂, inl, inr, Bool-cases, arith, length-map, String, leb-lt,
}
use bestteam.Shared.Int.{pos}
use bestteam.Shared.Dict.{HasDistinctKeys}
use bestteam.Shared.Text.{Text, text_eq}
use bestteam.Shared.Equality.{==-self, string_eq}
use bestteam.Inbox.{InboxEvent, Ledger, Mailbox, claim_events}
use bestteam.Inbox.WellFormed.{IsWellFormed}
use bestteam.Inbox.Claims.{claim_events-count}
use bestteam.Inbox.Steps.{here, Reach-IsWellFormed}
use bestteam.Trigger.{
  plain, pipeline_kind, with_error, EmailTrigger, Credential, Limits, Money, Casing, System,
  apply_health, with_ledger,
}
use bestteam.Trigger.Scope.{mailbox_of}
use bestteam.Trigger.Budget.{remaining_messages, claim_limit}
use bestteam.Trigger.Watchdog.{hand_back, stop_run, with_dead_letters}
use bestteam.Trigger.Dispatch.{
  give_up, submit, fail_submission, submit_message, commit_run, advance, batch_of,
  start_triggered_run,
}
use bestteam.Trigger.Poll.{
  Cycle, is_today, roll_over, at_daily_cap, mailbox_failed, mailbox_checked, clear_mailbox_error,
  rebuilt_error, rebase, record_scan, poll_org,
}
use bestteam.Trigger.Stages.{
  Keeps, poll_org-keeps, start_cases, claim_cases, dispatch_cases, room, with_run,
}
use bestteam.Trigger.Refinement.{Reached, Reached-kept, trigger-raise}
use bestteam.Trigger.Ending.{IsIdle, Waits, Ends-kept}
use bestteam.Trigger.Unclaimed.{IsUnclaimed, claim-returns, count-unclaimed, length-claimed}

-- A batch is no longer than the limit of its claim.
pub length-claim-le :
    (max_attempts : ℕ) (m : Mailbox) (run : String) (now limit : ℕ) (l : Ledger) (e : InboxEvent)
    (es : List InboxEvent)
    → IsWellFormed max_attempts l
    → IsUnclaimed run l
    → (claim_events m run now (pos limit) l).1 ≡ e ∷ es
    → length (e ∷ es) ≤ limit
length-claim-le a m run now limit l e es w free found =
    let held = claim-returns run m now limit l e es found in
    let counted = (claim_events-count a m run now (pos limit) l w).0 in
    let size = length-claimed run (claim_events m run now (pos limit) l).0 in
    omega (arith, count-unclaimed run l.rows free, counted, size, ap length held)

-- `claim_limit` is within the batch size and within what is left of the message cap.
pub claim_limit-le :
    (batch cap used : ℕ)
    → (claim_limit batch (remaining_messages (some cap) used) ≤ batch)
      × (claim_limit batch (remaining_messages (some cap) used) ≤ cap - used)
unfolding claim_limit remaining_messages
claim_limit-le batch cap used = (omega arith, omega arith)

module _ (today : Text) (runs messages : ℕ) where
  -- The counters of the day, before the dispatch.
  abbrev pub Counts : EmailTrigger → Type 0
  Counts t =
      (is_today today t.runs_date ≡ true) × (t.runs_today ≡ runs) × (t.messages_today ≡ messages)

  Counts-clear : (t : EmailTrigger) → Counts t → Counts (clear_mailbox_error t)
  unfolding clear_mailbox_error
  Counts-clear t h = ground arith

  Counts-dead : (dead : ℕ) (t : EmailTrigger) → Counts t → Counts (with_dead_letters dead t)
  Counts-dead dead t h = ground arith

  Counts-rebuilt : (n : ℕ) (t : EmailTrigger) → Counts t → Counts (rebuilt_error n t)
  Counts-rebuilt n t h = ground arith

pub roll_over-Counts :
    (today : Text) (t : EmailTrigger)
    → Counts today
        (roll_over today t).runs_today
        (roll_over today t).messages_today
        (roll_over today t)
unfolding roll_over is_today
roll_over-Counts today t = elim (Bool-cases (is_today today t.runs_date)) [
  | inl same ↦ rw same (same, refl, refl)
  | inr other ↦ rw other (==-self today, refl, refl)
]

module _ {M : Type 0} ⦃money : Money M⦄ ⦃casing : Casing⦄ (limits : Limits) (c : Cycle M) (cap : ℕ)
    (capped : c.dispatch.caps.daily_message_cap ≡ some cap) (l : Ledger)
    (positive : 0 < limits.max_event_attempts) (w : IsWellFormed limits.max_event_attempts l)
    (runs messages : ℕ) where
  open c.dispatch use {run_id}

  abbrev Before : System → Type 0
  Before s = Counts c.today runs messages s.trigger × Reached limits l s × Waits run_id s

  abbrev Charged : EmailTrigger → Type 0
  Charged t =
      (t.runs_today ≤ max limits.daily_cap runs)
      × (t.messages_today ≤ messages + limits.batch_size)
      × (t.messages_today ≤ max cap messages)

  abbrev Within : System → Type 0
  Within s = Charged s.trigger

  Within-unmoved : (s : System) → Counts c.today runs messages s.trigger → Within s
  Within-unmoved s h = omega (arith, h.1, h.2)

  Charged-dead : (dead : ℕ) (t : EmailTrigger) → Charged t → Charged (with_dead_letters dead t)
  Charged-dead dead t h = ground arith

  submit-Within :
      (cred : Credential) (s : System) → Within s → Within (submit limits c.dispatch cred s)
  unfolding submit fail_submission hand_back
  submit-Within cred s h = elim (Bool-cases c.dispatch.submits) [
    | inl sent ↦ rw sent h
    | inr refused ↦
        rw refused (
          Charged-dead _ (with_error (some (plain submit_message)) (some pipeline_kind) s.trigger)
            h)
  ]

  -- The dispatch charges one run, below the cap, and as many messages as the claim's limit allows.
  charge-bounds :
      (used batch_length limit : ℕ) (s : System)
      → at_daily_cap limits c.today s.trigger ≡ false
      → Counts c.today runs messages s.trigger
      → limit ≡ claim_limit limits.batch_size (remaining_messages (some cap) messages)
      → batch_length ≤ limit
      → (s.trigger.runs_today + 1 ≤ max limits.daily_cap runs)
        × (s.trigger.messages_today + batch_length ≤ messages + limits.batch_size)
        × (s.trigger.messages_today + batch_length ≤ max cap messages)
  unfolding at_daily_cap
  charge-bounds used batch_length limit s below h e short =
      let lim = claim_limit-le limits.batch_size cap messages in
      let below' : leb limits.daily_cap s.trigger.runs_today ≡ false = rw h.0 at below in
      omega (arith, lim.0, lim.1, e, short, h.1, h.2, leb-lt _ _ below')

  start-Within :
      (cred : Credential) (s : System)
      → at_daily_cap limits c.today s.trigger ≡ false
      → Before s
      → Within (start_triggered_run limits c.dispatch cred s)
  unfolding give_up commit_run advance
  start-Within cred s below (h, r, waits) =
      start_cases limits Within c.dispatch cred s
        (λ which period words over. rw trigger-raise (Within-unmoved s h))
        λ cheap free.
          claim_cases limits Within c.dispatch cred begun limit (λ nothing. Within-unmoved s h)
            λ e es found.
              dispatch_cases limits Within c.dispatch cred (claimed e es)
                (batch_of limits c.dispatch cred (e ∷ es))
                (λ t stays eq. rw eq (Within-unmoved s h))
                (λ t stays eq. rw eq (Within-unmoved s h))
                λ version on. submit-Within cred _ (
                  charge-bounds 0 (length (batch_of limits c.dispatch cred (e ∷ es))) limit s below
                    h (ap (claim_limit limits.batch_size) (ap₂ remaining_messages capped h.2))
                    (subst (λ k. k ≤ limit) (sym (length-map _ (e ∷ es)))
                      (length-claim-le limits.max_event_attempts (mailbox_of cred s.trigger) run_id
                        c.now limit s.ledger e es
                        (Reach-IsWellFormed limits.max_event_attempts positive w r) waits.0.0
                        found)))
    where
      begun : System
      begun = with_run limits c.dispatch s

      limit : ℕ
      limit = claim_limit limits.batch_size (room limits c.dispatch s)

      claimed : InboxEvent → List InboxEvent → System
      claimed e es =
          with_ledger (claim_events (mailbox_of cred s.trigger) run_id c.now (pos limit) s.ledger).0
            begun

  Within-kept : Keeps limits Before Within c
  unfolding mailbox_failed mailbox_checked rebase record_scan apply_health stop_run hand_back
  Within-kept = record {
    ends = λ s h. Within-unmoved s h.0;
    stops = λ other row s h. (
      Counts-dead c.today runs messages _ _ h.0,
      (Reached-kept limits l c).stops other row s h.1,
      (Ends-kept limits c).stops other row s h.2,
    );
    fails = λ message s h. h;
    checks = λ s h. (Counts-clear c.today runs messages _ h.0, h.1, h.2);
    rebases = λ cred scan s other h. (
      Counts-rebuilt c.today runs messages _ _ h.0,
      (Reached-kept limits l c).rebases cred scan s other h.1,
      (Ends-kept limits c).rebases cred scan s other h.2,
    );
    records = λ cred u us s h. (
      h.0,
      (Reached-kept limits l c).records cred u us s h.1,
      (Ends-kept limits c).records cred u us s h.2,
    );
    starts = start-Within;
  }

-- With a positive dead-letter budget, a well-formed ledger, a registry in which no run id has two
-- entries, an idle id drawn for the run and a daily cap on messages, a poll cycle's counters, after
-- the day's rollover, obey the caps: the runs of the day stay within the daily cap on runs (or
-- where they were, if above), the messages grow by at most the size of a batch, and they
-- stay within the cap on messages (or where they were, if above).
pub poll_org-caps :
    {M : Type 0} ⦃money : Money M⦄ ⦃casing : Casing⦄ (limits : Limits) (c : Cycle M) (s : System)
    (allowed : ℕ)
    → c.dispatch.caps.daily_message_cap ≡ some allowed
    → 0 < limits.max_event_attempts
    → IsWellFormed limits.max_event_attempts s.ledger
    → HasDistinctKeys s.registry.runs
    → IsIdle c.dispatch.run_id s
    → ((poll_org limits c s).trigger.runs_today
        ≤ max limits.daily_cap (roll_over c.today s.trigger).runs_today)
      × ((poll_org limits c s).trigger.messages_today
          ≤ (roll_over c.today s.trigger).messages_today + limits.batch_size)
      × ((poll_org limits c s).trigger.messages_today
          ≤ max allowed (roll_over c.today s.trigger).messages_today)
poll_org-caps limits c s allowed capped positive w distinct idle =
    let t = roll_over c.today s.trigger in
    poll_org-keeps limits
      (Before limits c allowed capped s.ledger positive w t.runs_today t.messages_today)
      (Within limits c allowed capped s.ledger positive w t.runs_today t.messages_today) c
      (Within-kept limits c allowed capped s.ledger positive w t.runs_today t.messages_today) s
      (roll_over-Counts c.today s.trigger, here, (idle, distinct))
