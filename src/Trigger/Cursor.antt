-- ===== src/Trigger/Cursor.antt =====
-- The durability point of ui/backend/email_trigger.py: the cursor `last_uid` and the rows of
-- ui/backend/db/inbox_events.py.
use bestteam.Shared.{
  ℕ, suc, ◌≤◌, ◌<◌, ◌*◌, ◌-◌, String, true, Option, some, List, [], ◌∷◌, map, take, any, ◌≡◌, ◌≢◌,
  refl, sym, ap, subst, ◌∙◌, inl, inr, Bool-cases, arith, All, All-imp,
}
use bestteam.Shared.Equality.{contains, nat_eq, eq_of_==, ◌==◌}
use bestteam.Shared.Text.{Text}
use bestteam.Inbox.{InboxEvent, Ledger, same_identity, has_pending_events}
use bestteam.Inbox.Rows.{same_identity_iff}
use bestteam.Inbox.WellFormed.{IsWellFormed}
use bestteam.Inbox.Recording.{IsKnown, record_events-IsKnown}
use bestteam.Inbox.Durability.{Extends, Reach-Extends}
use bestteam.Inbox.Steps.{Reach, here, next, Reach-IsWellFormed, record_scan as recorded}
use bestteam.Trigger.{Credential, Limits, Money, Casing, System, EmailTrigger}
use bestteam.Trigger.Decimal.{str}
use bestteam.Trigger.Mailbox.{Scan, maximum, sort, check_mailbox}
use bestteam.Trigger.Mailbox.Order.{
  All-sort, sort-All, sort-IsSorted, check_mailbox-above, take-down_closed,
}
use bestteam.Trigger.Scope.{mailbox_of}
use bestteam.Trigger.Watchdog.{hand_back, with_dead_letters}
use bestteam.Trigger.Dispatch.{
  Dispatch, give_up, submit, fail_submission, commit_run, advance, start_triggered_run,
}
use bestteam.Trigger.Poll.{
  Cycle, detected, detect_multiplier, filter_decisions, at_daily_cap, record_scan, may_start,
  take_mail, is_generation, on_scan,
}
use bestteam.Trigger.Stages.{start_cases, claim_cases, dispatch_cases, with_run}
use bestteam.Trigger.Refinement.{start-Reached, trigger-raise}

-- Rows that extend others hold every message that the others hold.
known_in_later :
    (p : InboxEvent) (xs ys : List InboxEvent)
    → Extends xs ys
    → any (same_identity p) xs ≡ true
    → any (same_identity p) ys ≡ true
known_in_later p [] ys e h = cc
known_in_later p (x ∷ xs) [] e h = absurd e
known_in_later p (x ∷ xs) (y ∷ ys) e h = elim (Bool-cases (same_identity p x)) [
  | inl hit ↦ ground (arith, moved hit)
  | inr miss ↦ ground (arith, known_in_later p xs ys e.1)
]
  where
    moved : same_identity p x ≡ true → same_identity p y ≡ true
    moved hit =
        (same_identity_iff p y).1 ((same_identity_iff p x).0 hit ∙ sym (ap (λ k. k.1) e.0.0))

contains-All : (P : ℕ → Type 0) (u : ℕ) (ns : List ℕ) → contains u ns ≡ true → All P ns → P u
unfolding contains
contains-All P u [] h a = cc
contains-All P u (n ∷ ns) h a = elim (Bool-cases (u == n)) [
  | inl same ↦ subst P (sym (eq_of_== u n same)) a.0
  | inr differ ↦ contains-All P u ns (ground arith) a.1
]

All-unmap :
    (P : String → Type 0) (f : ℕ → String) (ns : List ℕ) → All P (map f ns) → All (λ n. P (f n)) ns
All-unmap P f [] h = tt
All-unmap P f (n ∷ ns) h = (h.0, All-unmap P f ns h.1)

below_maximum :
    (a k : ℕ) (ns : List ℕ) → All (λ n. a < n) ns → ns ≢ [] → a ≤ maximum (take (suc k) ns)
below_maximum a k [] h some_there = absurd (some_there refl)
below_maximum a k (n ∷ ns) h some_there = omega (arith, h.0)

sort-ne-nil : (n : ℕ) (ns : List ℕ) → sort (n ∷ ns) ≢ []
sort-ne-nil n ns e = (sort-All (λ m. ⊥) (n ∷ ns) (subst (All (λ m. ⊥)) (sym e) tt)).0

dead-last_uid : (dead : ℕ) (t : EmailTrigger) → (with_dead_letters dead t).last_uid ≡ t.last_uid
dead-last_uid dead t = ground arith

module _ {M : Type 0} ⦃money : Money M⦄ ⦃casing : Casing⦄ (limits : Limits) where
  -- A dispatch leaves the cursor where it is.
  start-last_uid :
      (c : Dispatch M) (cred : Credential) (s : System)
      → (start_triggered_run limits c cred s).trigger.last_uid ≡ s.trigger.last_uid
  unfolding give_up commit_run advance submit fail_submission hand_back
  start-last_uid c cred s =
      start_cases limits Same c cred s
        (λ which period words over. ap (λ t. t.last_uid) (trigger-raise which period words _))
        λ cheap free.
          claim_cases limits Same c cred (with_run limits c s) _ (λ nothing. refl)
            λ e es found.
              dispatch_cases limits Same c cred _ _ (λ t stays eq. ap (λ u. u.trigger.last_uid) eq)
                (λ t stays eq. ap (λ u. u.trigger.last_uid) eq)
                λ version on. elim (Bool-cases c.submits) [
                  | inl sent ↦ rw sent refl
                  | inr refused ↦ rw refused (dead-last_uid _ _)
                ]
    where
      Same : System → Type 0
      Same t = t.trigger.last_uid ≡ s.trigger.last_uid

  module _ (c : Cycle M) (cred : Credential) where
    may_start-last_uid :
        (s : System) → (may_start limits c cred s).trigger.last_uid ≡ s.trigger.last_uid
    unfolding may_start
    may_start-last_uid s = elim (Bool-cases (at_daily_cap limits c.today s.trigger)) [
      | inl full ↦ rw full refl
      | inr free ↦ rw free (start-last_uid c.dispatch cred s)
    ]

    may_start-Reach :
        (s : System) → Reach limits.max_event_attempts s.ledger (may_start limits c cred s).ledger
    unfolding may_start
    may_start-Reach s = elim (Bool-cases (at_daily_cap limits c.today s.trigger)) [
      | inl full ↦ rw full here
      | inr free ↦ rw free (start-Reached limits s.ledger c.dispatch cred s here)
    ]

    -- The message has a row in the ledger.
    abbrev pub IsRecorded : EmailTrigger → Ledger → ℕ → Type 0
    IsRecorded t l u = IsKnown (mailbox_of cred t) "imap" l (str u)

    abbrev pub IsCovered : EmailTrigger → System → ℕ → Type 0
    IsCovered t after u = u ≤ after.trigger.last_uid → IsRecorded t after.ledger u

    IsRecorded-later :
        (t : EmailTrigger) (k l : Ledger) (u : ℕ)
        → Extends k.rows l.rows
        → IsRecorded t k u
        → IsRecorded t l u
    IsRecorded-later t k l u e = known_in_later _ k.rows l.rows e

    IsRecorded-scan :
        (u : ℕ) (us : List ℕ) (s : System)
        → All
            (IsRecorded s.trigger (record_scan limits c cred (u ∷ us) s).ledger)
            (detected limits c (u ∷ us))
    unfolding record_scan
    IsRecorded-scan u us s =
        All-unmap
          (IsKnown (mailbox_of cred s.trigger) "imap" (record_scan limits c cred (u ∷ us) s).ledger)
          str (detected limits c (u ∷ us))
          (record_events-IsKnown (mailbox_of cred s.trigger) "imap"
            (filter_decisions (detected limits c (u ∷ us)) c.summaries) c.now
            (map str (detected limits c (u ∷ us))) s.ledger)

    take_mail-cursor :
        (uids : List ℕ) (s : System)
        → 0 < limits.max_event_attempts
        → 0 < limits.batch_size
        → IsWellFormed limits.max_event_attempts s.ledger
        → All (λ u. s.trigger.last_uid < u) uids
        → (s.trigger.last_uid ≤ (take_mail limits c cred uids s).trigger.last_uid)
          × All (IsCovered s.trigger (take_mail limits c cred uids s)) uids
    unfolding take_mail record_scan
    take_mail-cursor [] s positive size w above = (
      elim (Bool-cases (has_pending_events (mailbox_of cred s.trigger) s.ledger)) [
        | inl work ↦ rw work (omega (arith, may_start-last_uid s))
        | inr quiet ↦ rw quiet (omega arith)
      ],
      tt,
    )
    take_mail-cursor (u ∷ us) s positive size w above = (
      subst (λ n. s.trigger.last_uid ≤ n) (sym moved)
          (subst (λ n. s.trigger.last_uid ≤ maximum (take n uids)) (sym enough)
            (below_maximum s.trigger.last_uid k uids (All-sort _ (u ∷ us) above)
              (sort-ne-nil u us))),
      sort-All (IsCovered s.trigger after) (u ∷ us) (
          All-imp uids
            (λ v kept low. IsRecorded-later s.trigger scanned.ledger after.ledger v still (
              contains-All (IsRecorded s.trigger scanned.ledger) v (detected limits c (u ∷ us))
                (kept (subst (λ n. v ≤ n) moved low)) (IsRecorded-scan u us s)))
            (subst
              (λ n. All (λ v. v ≤ maximum (take n uids) → contains v (take n uids) ≡ true) uids)
              (sym enough) (take-down_closed k uids (sort-IsSorted (u ∷ us))))),
    )
      where
        uids : List ℕ
        uids = sort (u ∷ us)

        scanned : System
        scanned = record_scan limits c cred (u ∷ us) s

        after : System
        after = may_start limits c cred scanned

        k : ℕ
        k = limits.batch_size * detect_multiplier - 1

        enough : limits.batch_size * detect_multiplier ≡ suc k
        enough = omega arith

        moved : after.trigger.last_uid ≡ maximum (detected limits c (u ∷ us))
        moved = may_start-last_uid scanned

        still : Extends scanned.ledger.rows after.ledger.rows
        still =
            Reach-Extends limits.max_event_attempts positive
              (Reach-IsWellFormed limits.max_event_attempts positive w (
                next here (
                  recorded (mailbox_of cred s.trigger) "imap"
                    (filter_decisions (detected limits c (u ∷ us)) c.summaries) c.now
                    (map str (detected limits c (u ∷ us))))))
              (may_start-Reach scanned)

-- After a check that read the mailbox in the trigger's generation, with positive limits and a
-- well-formed ledger, the cursor has not moved back, and every new message that the check found at
-- or below the cursor has a row in the ledger: whatever the batch size, the filter, the
-- caps, the builder and the executor do with it, no message is passed over.
pub on_scan-cursor :
    {M : Type 0} ⦃money : Money M⦄ ⦃casing : Casing⦄ (limits : Limits) (c : Cycle M)
    (cred : Credential) (status : Option Text) (found : Option (List ℕ)) (scan : Scan) (s : System)
    → 0 < limits.max_event_attempts
    → 0 < limits.batch_size
    → IsWellFormed limits.max_event_attempts s.ledger
    → check_mailbox status found s.trigger.last_uid ≡ some scan
    → is_generation scan.uidvalidity s.trigger.uidvalidity ≡ true
    → (s.trigger.last_uid ≤ (on_scan limits c cred scan s).trigger.last_uid)
      × All (IsCovered limits c cred s.trigger (on_scan limits c cred scan s)) scan.new_uids
unfolding on_scan
on_scan-cursor limits c cred status found scan s positive size w read same = rw same (
    take_mail-cursor limits c cred scan.new_uids s positive size w
      (check_mailbox-above status found s.trigger.last_uid scan read).0)
