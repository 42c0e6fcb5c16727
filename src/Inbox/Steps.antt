-- ===== src/Inbox/Steps.antt =====
-- The ledger of ui/backend/db/inbox_events.py under any sequence of operations of its callers.
use bestteam.Shared.{
  ℕ, zero, suc, ◌+◌, ◌<◌, String, Bool, true, Option, none, List, [], ◌∷◌, ◌≡◌, refl, sym, subst,
  inl, inr, arith, All, Bool-cases, ap,
}
use bestteam.Shared.Int.{ℤ, clamp_zero}
use bestteam.Inbox.{
  pending, InboxEvent, Ledger, Mailbox, Decisions, claimable, claimed_by, claim_row, claim_events,
  superseded, abandon_row, abandon_superseded_events, record_events, mark_dispatched, complete_row,
  complete_events, release_row, release_events, failed_in, retry_row, resolve_retry_events,
  releasable, release_filtered_event,
}
use bestteam.Inbox.Rows.{key_of, keys}
use bestteam.Inbox.WellFormed.{
  IsConsistent, IsWellFormed, update-IsWellFormed, claim_row-IsConsistent, abandon_row-IsConsistent,
  complete_row-IsConsistent, release_row-IsConsistent, retry_row-IsConsistent,
}
use bestteam.Inbox.Claims.{
  first_matching, claim_events-first_matching, claim_events-next, claimable-pending,
}
use bestteam.Inbox.Recording.{record_events-IsWellFormed}

-- One operation of a caller; `max_attempts` is the budget that every release is given.
pub data Step (max_attempts : ℕ) (s : Ledger) : Ledger → Type 0 where
  record_scan :
      (m : Mailbox) (connector : String) (decisions : Decisions) (now : ℕ) (ids : List String)
      → Step max_attempts s (record_events m connector decisions now ids s).0
  claim :
      (m : Mailbox) (run : String) (now : ℕ) (limit : ℤ)
      → Step max_attempts s (claim_events m run now limit s).0
  abandon :
      (org : ℕ) (identity : String) (generation : Option String) (now : ℕ)
      → Step max_attempts s (abandon_superseded_events org identity generation now s).0
  dispatch : (run : String) → Step max_attempts s (mark_dispatched run s)
  complete :
      (run : String) (done_ids : List String) (error : Option String) (now : ℕ)
      → Step max_attempts s (complete_events run done_ids error now s)
  release :
      (run : String) (error : Option String) (now : ℕ)
      → Step max_attempts s (release_events run max_attempts error now s).0
  retry :
      (from_run to_run : String) (ids done_ids : List String) (now : ℕ)
      → Step max_attempts s (resolve_retry_events from_run to_run ids done_ids now s).0
  release_filtered : (org id : ℕ) → Step max_attempts s (release_filtered_event org id s).0

pub data Reach (max_attempts : ℕ) (s : Ledger) : Ledger → Type 0 where
  here : Reach max_attempts s s
  next : {t u : Ledger} → Reach max_attempts s t → Step max_attempts t u → Reach max_attempts s u

first_matching-IsConsistent :
    (max_attempts : ℕ) (m : Mailbox) (run : String) (now n : ℕ) (rows : List InboxEvent)
    → All (IsConsistent max_attempts) rows
    → All (IsConsistent max_attempts) (first_matching (claimable m) (claim_row run now) n rows)
unfolding first_matching
first_matching-IsConsistent a m run now zero rows h = h
first_matching-IsConsistent a m run now (suc n) [] h = tt
first_matching-IsConsistent a m run now (suc n) (e ∷ es) h = elim (Bool-cases (claimable m e)) [
  | inl hit ↦ rw hit (
    claim_row-IsConsistent a run now e (claimable-pending m e hit) h.0,
    first_matching-IsConsistent a m run now n es h.1,
  )
  | inr miss ↦ rw miss (h.0, first_matching-IsConsistent a m run now (suc n) es h.1)
]

keys-first_matching :
    (p : InboxEvent → Bool) (run : String) (now n : ℕ) (rows : List InboxEvent)
    → keys (first_matching p (claim_row run now) n rows) ≡ keys rows
unfolding first_matching claim_row
keys-first_matching p run now zero rows = refl
keys-first_matching p run now (suc n) [] = refl
keys-first_matching p run now (suc n) (e ∷ es) = elim (Bool-cases (p e)) [
  | inl hit ↦ rw hit (ap (λ l. key_of e ∷ l) (keys-first_matching p run now n es))
  | inr miss ↦ rw miss (ap (λ l. key_of e ∷ l) (keys-first_matching p run now (suc n) es))
]

module _ (max_attempts : ℕ) where
  claim_events-IsWellFormed :
      (m : Mailbox) (run : String) (now : ℕ) (limit : ℤ) (s : Ledger)
      → IsWellFormed max_attempts s
      → IsWellFormed max_attempts (claim_events m run now limit s).0
  claim_events-IsWellFormed m run now limit s w =
      let walked = claim_events-first_matching max_attempts m run now limit s w in
      record {
        consistent = subst (All (IsConsistent max_attempts)) (sym walked) (
            first_matching-IsConsistent max_attempts m run now (clamp_zero limit) s.rows
              w.consistent);
        keyed =
            rw
              (
                claim_events-next m run now limit s,
                walked,
                keys-first_matching (claimable m) run now (clamp_zero limit) s.rows,
              )
              w.keyed;
      }

  abbrev unfilter_row : InboxEvent → InboxEvent
  unfilter_row e = record e { status = pending; decision = none; run_id = none }

  unfilter_row-IsConsistent :
      (org id : ℕ) (e : InboxEvent)
      → releasable org id e ≡ true
      → IsConsistent max_attempts e
      → IsConsistent max_attempts (unfilter_row e)
  unfolding releasable
  unfilter_row-IsConsistent org id e h w = ground arith

  dispatch_row-IsConsistent :
      (run : String) (e : InboxEvent)
      → claimed_by run e ≡ true
      → IsConsistent max_attempts e
      → IsConsistent max_attempts (record e { attempts = e.attempts + 1 })
  unfolding claimed_by
  dispatch_row-IsConsistent run e h w = ground arith

  complete_row-key :
      (done_ids : List String) (error : Option String) (now : ℕ) (e : InboxEvent)
      → key_of (complete_row done_ids error now e) ≡ key_of e
  unfolding complete_row
  complete_row-key done_ids error now e = ground arith

  release_row-key :
      (error : Option String) (now : ℕ) (e : InboxEvent)
      → key_of (release_row max_attempts error now e) ≡ key_of e
  unfolding release_row
  release_row-key error now e = ground arith

  retry_row-key :
      (to_run : String) (ids done_ids : List String) (now : ℕ) (e : InboxEvent)
      → key_of (retry_row to_run ids done_ids now e) ≡ key_of e
  unfolding retry_row
  retry_row-key to_run ids done_ids now e = ground arith

  module _ (positive : 0 < max_attempts) where
    pub Step-IsWellFormed :
        {s t : Ledger}
        → Step max_attempts s t
        → IsWellFormed max_attempts s
        → IsWellFormed max_attempts t
    unfolding mark_dispatched complete_events release_events resolve_retry_events
        abandon_superseded_events release_filtered_event abandon_row
    Step-IsWellFormed {s} (record_scan m connector decisions now ids) w =
        record_events-IsWellFormed max_attempts positive m connector decisions now ids s w
    Step-IsWellFormed {s} (claim m run now limit) w = claim_events-IsWellFormed m run now limit s w
    Step-IsWellFormed {s} (abandon org identity generation now) w =
        update-IsWellFormed max_attempts (superseded org identity generation) (abandon_row now) s
          (λ e. refl) (abandon_row-IsConsistent max_attempts org identity generation now) w
    Step-IsWellFormed {s} (dispatch run) w =
        update-IsWellFormed max_attempts (claimed_by run) _ s (λ e. refl)
          (dispatch_row-IsConsistent run) w
    Step-IsWellFormed {s} (complete run done_ids error now) w =
        update-IsWellFormed max_attempts (claimed_by run) (complete_row done_ids error now) s
          (complete_row-key done_ids error now)
          (complete_row-IsConsistent max_attempts run done_ids error now) w
    Step-IsWellFormed {s} (release run error now) w =
        update-IsWellFormed max_attempts (claimed_by run) (release_row max_attempts error now) s
          (release_row-key error now) (release_row-IsConsistent max_attempts run error now) w
    Step-IsWellFormed {s} (retry from_run to_run ids done_ids now) w =
        update-IsWellFormed max_attempts (failed_in from_run) (retry_row to_run ids done_ids now) s
          (retry_row-key to_run ids done_ids now)
          (retry_row-IsConsistent max_attempts from_run to_run ids done_ids now) w
    Step-IsWellFormed {s} (release_filtered org id) w =
        update-IsWellFormed max_attempts (releasable org id) unfilter_row s (λ e. refl)
          (unfilter_row-IsConsistent org id) w

-- Whatever operations are made, with a positive dead-letter budget, from a well-formed ledger,
-- the ledger stays well formed: ids ascend, no message has two rows, each row's columns fit its
-- status, and every waiting row has used fewer attempts than the budget.
pub Reach-IsWellFormed :
    (max_attempts : ℕ) {s t : Ledger}
    → 0 < max_attempts
    → IsWellFormed max_attempts s
    → Reach max_attempts s t
    → IsWellFormed max_attempts t
Reach-IsWellFormed a positive w here = w
Reach-IsWellFormed a positive w (next r step) =
    Step-IsWellFormed a positive step (Reach-IsWellFormed a positive w r)
