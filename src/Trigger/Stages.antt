-- ===== src/Trigger/Stages.antt =====
-- The stages of `poll_org` and of `_start_triggered_run` of ui/backend/email_trigger.py: what each
-- stage keeps, the cycle keeps.
use bestteam.Shared.{
  ℕ, String, true, false, Option, some, List, [], ◌∷◌, ◌≡◌, refl, ap, leb, inl, inr, Bool, ◌&&◌,
  ◌||◌, is_some, Bool-cases, Option-cases, List-cases,
}
use bestteam.Shared.Int.{pos}
use bestteam.Shared.Text.{Text}
use bestteam.Shared.Dict.{lookup}
use bestteam.Shared.Equality.{string_eq}
use bestteam.Inbox.{InboxEvent, Ledger, claim_events, has_pending_events}
use bestteam.Runs.{get, create}
use bestteam.Trigger.{
  Message, RunRow, Credential, Limits, Money, Casing, System, with_ledger, with_trigger,
  with_registry,
}
use bestteam.Trigger.Mailbox.{Scan, check_mailbox}
use bestteam.Trigger.Scope.{mailbox_of}
use bestteam.Trigger.Budget.{
  remaining_messages, claim_limit, is_used_up, cost_exceeded, raise_budget_alert,
}
use bestteam.Trigger.Watchdog.{is_active, is_overdue, stop_run, release_stale_run, overlap_guard}
use bestteam.Trigger.Dispatch.{
  Dispatch, drop_run, trigger_username, set_input, trigger_input, cannot_start, refreshed, batch_of,
  commit_run, give_up, may_advance, submit, dispatch_batch, claim_batch, within_budget,
  start_triggered_run,
}
use bestteam.Trigger.Poll.{
  no_mailbox, unreadable, raised, connected, Cycle, roll_over, at_daily_cap, mailbox_failed,
  mailbox_checked, rebase, record_scan, may_start, take_mail, is_generation, on_scan, visit_mailbox,
  poll_org,
}

module _ {ℓ} (P : System → Type ℓ) (limits : Limits) (now : ℕ) (s : System) where
  stale_cases :
      (run_id : String)
      → P s
      → ((row : RunRow)
          → lookup run_id s.run_rows ≡ some row
          → is_overdue limits now row ≡ true
          → P (stop_run limits now run_id row s))
      → P (release_stale_run limits now run_id s).0
  unfolding release_stale_run
  stale_cases run_id kept stopped = elim (Option-cases (lookup run_id s.run_rows)) [
    | inl missing ↦ rw (missing, release_stale_run) kept
    | inr (row, there) ↦
        rw (there, release_stale_run)
          (elim (Bool-cases (is_overdue limits now row)) [
            | inl over ↦ rw over (stopped row there over)
            | inr young ↦ rw young kept
          ])
  ]

  -- The overlap guard changes nothing, or stops an active run that is overdue.
  pub guard_cases :
      P s
      → ((run_id : String) (row : RunRow)
          → lookup run_id s.run_rows ≡ some row
          → is_overdue limits now row ≡ true
          → P (stop_run limits now run_id row s))
      → P (overlap_guard limits now s).0
  unfolding overlap_guard
  guard_cases kept stopped = elim (Option-cases s.trigger.last_run_id) [
    | inl unset ↦ rw (unset, overlap_guard) kept
    | inr (run_id, set) ↦
        rw (set, overlap_guard)
          (elim (Bool-cases (is_active (get run_id s.registry))) [
            | inl active ↦ rw active (stale_cases run_id kept (stopped run_id))
            | inr idle ↦ rw idle kept
          ])
  ]

true-and_of : {x y b : Bool} → x ≡ true → y ≡ b → (x && y) ≡ b
true-and_of h k = rw (h, k) refl

module _ {M : Type 0} ⦃money : Money M⦄ ⦃casing : Casing⦄ (limits : Limits) where
  abbrev pub with_input : Dispatch M → List ℕ → System → System
  with_input c batch t = with_registry (set_input c.run_id (trigger_input batch) t.registry) t

  -- The team is built and the compare-and-swap finds its row.
  abbrev pub goes : Dispatch M → Credential → System → Bool
  goes c cred s = is_some c.build && may_advance limits c cred s.trigger

  module _ {ℓ} (P : System → Type ℓ) (c : Dispatch M) (cred : Credential) (s : System) where
    -- A claimed batch is given up, or committed and submitted.
    pub dispatch_cases :
        (batch : List ℕ)
        → ((t : System)
            → goes c cred s ≡ false
            → t ≡ with_trigger (cannot_start limits c cred s.trigger) (with_input c batch s)
            → P (give_up limits c.now c.run_id t))
        → ((t : System)
            → goes c cred s ≡ false
            → t ≡ with_trigger (refreshed limits c cred s.trigger) (with_input c batch s)
            → P (give_up limits c.now c.run_id t))
        → ((version : Option ℕ)
            → goes c cred s ≡ true
            → P (
                submit limits c cred
                  (commit_run limits c cred batch version (with_input c batch s))))
        → P (dispatch_batch limits c cred batch s)
    unfolding dispatch_batch
    dispatch_cases batch broken off sent = elim (Option-cases c.build) [
      | inl raises ↦ rw (raises, dispatch_batch) (broken _ (rw raises refl) refl)
      | inr (version, built) ↦
          rw (built, dispatch_batch)
            (elim (Bool-cases (may_advance limits c cred s.trigger)) [
              | inl on ↦ rw on (sent version (true-and_of (ap is_some built) on))
              | inr switched ↦ rw switched (off _ (true-and_of (ap is_some built) switched) refl)
            ])
    ]

    abbrev pub claim_of : ℕ → Ledger × List InboxEvent
    claim_of limit = claim_events (mailbox_of cred s.trigger) c.run_id c.now (pos limit) s.ledger

    -- A claim takes nothing, or a batch.
    pub claim_cases :
        (limit : ℕ)
        → ((claim_of limit).1 ≡ [] → P (drop_run c.run_id (with_ledger (claim_of limit).0 s)))
        → ((e : InboxEvent) (es : List InboxEvent)
            → (claim_of limit).1 ≡ e ∷ es
            → P (
                dispatch_batch limits c cred
                  (batch_of limits c cred (e ∷ es))
                  (with_ledger (claim_of limit).0 s)))
        → P (claim_batch limits c cred limit s)
    unfolding claim_batch
    claim_cases limit nothing batch = elim (List-cases (claim_of limit).1) [
      | inl e ↦ rw (e, claim_batch) (nothing e)
      | inr (x, xs, e) ↦ rw (e, claim_batch) (batch x xs e)
    ]

  abbrev pub room : Dispatch M → System → Option ℕ
  room c s = remaining_messages c.caps.daily_message_cap s.trigger.messages_today

  abbrev pub is_over_budget : Dispatch M → System → Bool
  is_over_budget c s = cost_exceeded c.caps c.spent || is_used_up (room c s)

  abbrev pub with_run : Dispatch M → System → System
  with_run c s =
      with_registry
        (create c.run_id s.trigger.pipeline_name [] (some s.trigger.org_id) (some trigger_username)
          s.registry).0
        s

  -- A dispatch stops at a budget, or claims within both.
  pub start_cases {ℓ} :
      (P : System → Type ℓ) (c : Dispatch M) (cred : Credential) (s : System)
      → ((which period : Text) (words : String)
          → is_over_budget c s ≡ true
          → P (raise_budget_alert which period words (drop_run c.run_id (with_run c s))))
      → (cost_exceeded c.caps c.spent ≡ false
          → is_used_up (room c s) ≡ false
          → P (claim_batch limits c cred (claim_limit limits.batch_size (room c s)) (with_run c s)))
      → P (start_triggered_run limits c cred s)
  unfolding start_triggered_run within_budget
  start_cases P c cred s stopped claims = elim (Bool-cases (cost_exceeded c.caps c.spent)) [
    | inl dear ↦ rw dear (stopped _ _ _ (rw dear refl))
    | inr cheap ↦ rw cheap (elim (Bool-cases (is_used_up (room c s))) [
      | inl full ↦ rw full (stopped _ _ _ (rw (cheap, full) refl))
      | inr free ↦ rw free (claims cheap free)
    ])
  ]

  -- The stages of a cycle before the dispatch keep `P`, and the dispatch, below the daily cap, ends
  -- in `Q`.
  pub record Keeps {ℓ} (P Q : System → Type ℓ) (c : Cycle M) : Type ℓ where
    pub ends : (s : System) → P s → Q s
    pub stops :
        (run_id : String) (row : RunRow) (s : System) → P s → P (stop_run limits c.now run_id row s)
    pub fails : (message : Message) (s : System) → P s → P (mailbox_failed limits c.now message s)
    pub checks : (s : System) → P s → P (mailbox_checked limits c.now s)
    pub rebases :
        (cred : Credential) (scan : Scan) (s : System)
        → is_generation scan.uidvalidity s.trigger.uidvalidity ≡ false
        → P s
        → P (rebase limits c cred scan s)
    pub records :
        (cred : Credential) (u : ℕ) (us : List ℕ) (s : System)
        → P s
        → P (record_scan limits c cred (u ∷ us) s)
    pub starts :
        (cred : Credential) (s : System)
        → at_daily_cap limits c.today s.trigger ≡ false
        → P s
        → Q (start_triggered_run limits c.dispatch cred s)

  module _ {ℓ} (P Q : System → Type ℓ) (c : Cycle M) (k : Keeps P Q c) where
    may_start-keeps : (cred : Credential) (s : System) → P s → Q (may_start limits c cred s)
    unfolding may_start
    may_start-keeps cred s p = elim (Bool-cases (at_daily_cap limits c.today s.trigger)) [
      | inl full ↦ rw full (k.ends s p)
      | inr free ↦ rw free (k.starts cred s free p)
    ]

    pub take_mail-keeps :
        (cred : Credential) (uids : List ℕ) (s : System) → P s → Q (take_mail limits c cred uids s)
    unfolding take_mail
    take_mail-keeps cred [] s p =
        elim (Bool-cases (has_pending_events (mailbox_of cred s.trigger) s.ledger)) [
          | inl work ↦ rw work (may_start-keeps cred s p)
          | inr quiet ↦ rw quiet (k.ends s p)
        ]
    take_mail-keeps cred (u ∷ us) s p = may_start-keeps cred _ (k.records cred u us s p)

    on_scan-keeps :
        (cred : Credential) (scan : Scan) (s : System) → P s → Q (on_scan limits c cred scan s)
    unfolding on_scan
    on_scan-keeps cred scan s p =
        elim (Bool-cases (is_generation scan.uidvalidity s.trigger.uidvalidity)) [
          | inl same ↦ rw same (take_mail-keeps cred scan.new_uids s p)
          | inr other ↦ rw other (k.ends _ (k.rebases cred scan s other p))
        ]

    visit_mailbox-keeps : (s : System) → P s → Q (visit_mailbox limits c s)
    unfolding visit_mailbox
    visit_mailbox-keeps s p =
        elim c.connection as (λ x. c.connection ≡ x → Q (visit_mailbox limits c s)) [
          | no_mailbox ↦ λ e. rw (e, visit_mailbox) (k.ends _ (k.fails _ s p))
          | unreadable ↦ λ e. rw (e, visit_mailbox) (k.ends _ (k.fails _ s p))
          | raised words ↦ λ e. rw (e, visit_mailbox) (k.ends _ (k.fails _ s p))
          | connected cred status found ↦ λ e.
              rw (e, visit_mailbox)
                (elim (Option-cases (check_mailbox status found s.trigger.last_uid)) [
                  | inl bad ↦ rw (bad, visit_mailbox) (k.ends _ (k.fails _ s p))
                  | inr (scan, read) ↦
                      rw (read, visit_mailbox) (on_scan-keeps cred scan _ (k.checks s p))
                ])
        ]
          refl

    -- From what holds with the counters of the day, a cycle ends where its dispatch ends.
    pub poll_org-keeps :
        (s : System) → P (with_trigger (roll_over c.today s.trigger) s) → Q (poll_org limits c s)
    unfolding poll_org
    poll_org-keeps s p =
        let rolled = with_trigger (roll_over c.today s.trigger) s in
        let guarded : P (overlap_guard limits c.now rolled).0 =
          guard_cases P limits c.now rolled p
            (λ run_id row there over. k.stops run_id row rolled p) in
        elim (Bool-cases (leb limits.daily_cap (roll_over c.today s.trigger).runs_today)) [
          | inl full ↦ rw full (k.ends _ p)
          | inr free ↦ rw free (elim (Bool-cases (overlap_guard limits c.now rolled).1) [
            | inl on ↦ rw on (visit_mailbox-keeps _ guarded)
            | inr busy ↦ rw busy (k.ends _ guarded)
          ])
        ]
