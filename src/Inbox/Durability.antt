-- ===== src/Inbox/Durability.antt =====
-- Rows of ui/backend/db/inbox_events.py before and after any operations.
use bestteam.Shared.{
  ℕ, zero, suc, ◌<◌, String, Bool, true, Option, List, [], ◌∷◌, ◌++◌, ◌≡◌, refl, sym, subst, ◌∙◌,
  inl, inr, arith, Bool-cases, ap,
}
use bestteam.Shared.Int.{clamp_zero}
use bestteam.Inbox.{
  done, InboxEvent, Ledger, Mailbox, update, claimable, claimed_by, claim_row, superseded,
  abandon_row, abandon_superseded_events, mark_dispatched, complete_row, complete_events,
  release_row, release_events, failed_in, retry_row, resolve_retry_events, releasable,
  release_filtered_event,
}
use bestteam.Inbox.Rows.{key_of}
use bestteam.Inbox.WellFormed.{IsWellFormed}
use bestteam.Inbox.Claims.{first_matching, claim_events-first_matching}
use bestteam.Inbox.Recording.{record_events-append}
use bestteam.Inbox.Steps.{
  Step, Reach, here, next, record_scan, claim, abandon, dispatch, complete, release, retry,
  release_filtered, Reach-IsWellFormed,
}

-- The later row is of the same message, and the same row if the earlier one was done.
abbrev pub IsKept : InboxEvent → InboxEvent → Type 0
IsKept x y = (key_of y ≡ key_of x) × (x.status ≡ done → y ≡ x)

-- Every earlier row is kept, at its place; new rows come behind.
abbrev pub Extends : List InboxEvent → List InboxEvent → Type 0
Extends [] ys = Unit
Extends (x ∷ xs) [] = ⊥
Extends (x ∷ xs) (y ∷ ys) = IsKept x y × Extends xs ys

Extends-refl : (xs : List InboxEvent) → Extends xs xs
Extends-refl [] = tt
Extends-refl (x ∷ xs) = ((refl, λ h. refl), Extends-refl xs)

Extends-append : (xs new : List InboxEvent) → Extends xs (xs ++ new)
Extends-append [] new = tt
Extends-append (x ∷ xs) new = ((refl, λ h. refl), Extends-append xs new)

IsKept-trans : {x y z : InboxEvent} → IsKept x y → IsKept y z → IsKept x z
IsKept-trans p q = (q.0 ∙ p.0, λ h. q.1 (ap (λ e. e.status) (p.1 h) ∙ h) ∙ p.1 h)

Extends-trans : (xs ys zs : List InboxEvent) → Extends xs ys → Extends ys zs → Extends xs zs
Extends-trans [] ys zs p q = tt
Extends-trans (x ∷ xs) [] zs p q = absurd p
Extends-trans (x ∷ xs) (y ∷ ys) [] p q = absurd q
Extends-trans (x ∷ xs) (y ∷ ys) (z ∷ zs) p q =
    (IsKept-trans p.0 q.0, Extends-trans xs ys zs p.1 q.1)

Extends-update :
    (p : InboxEvent → Bool) (f : InboxEvent → InboxEvent) (rows : List InboxEvent)
    → ((e : InboxEvent) → p e ≡ true → IsKept e (f e))
    → Extends rows (update p f rows)
Extends-update p f [] h = tt
Extends-update p f (e ∷ es) h = elim (Bool-cases (p e)) [
  | inl hit ↦ rw hit (h e hit, Extends-update p f es h)
  | inr miss ↦ rw miss ((refl, λ d. refl), Extends-update p f es h)
]

claim_row-IsKept :
    (m : Mailbox) (run : String) (now : ℕ) (e : InboxEvent)
    → claimable m e ≡ true
    → IsKept e (claim_row run now e)
unfolding claimable claim_row
claim_row-IsKept m run now e h = (refl, λ d. ground arith)

Extends-first_matching :
    (m : Mailbox) (run : String) (now n : ℕ) (rows : List InboxEvent)
    → Extends rows (first_matching (claimable m) (claim_row run now) n rows)
unfolding first_matching
Extends-first_matching m run now zero rows = Extends-refl rows
Extends-first_matching m run now (suc n) [] = tt
Extends-first_matching m run now (suc n) (e ∷ es) = elim (Bool-cases (claimable m e)) [
  | inl hit ↦ rw hit (claim_row-IsKept m run now e hit, Extends-first_matching m run now n es)
  | inr miss ↦ rw miss ((refl, λ d. refl), Extends-first_matching m run now (suc n) es)
]

not-done_of_claimed :
    (run : String) (e f : InboxEvent) → claimed_by run e ≡ true → e.status ≡ done → f ≡ e
unfolding claimed_by
not-done_of_claimed run e f h d = ground arith

not-done_of_superseded :
    (org : ℕ) (identity : String) (generation : Option String) (e f : InboxEvent)
    → superseded org identity generation e ≡ true
    → e.status ≡ done
    → f ≡ e
unfolding superseded
not-done_of_superseded org identity generation e f h d = ground arith

not-done_of_failed :
    (run : String) (e f : InboxEvent) → failed_in run e ≡ true → e.status ≡ done → f ≡ e
unfolding failed_in
not-done_of_failed run e f h d = ground arith

not-done_of_releasable :
    (org id : ℕ) (e f : InboxEvent) → releasable org id e ≡ true → e.status ≡ done → f ≡ e
unfolding releasable
not-done_of_releasable org id e f h d = ground arith

Step-Extends :
    (max_attempts : ℕ) {s t : Ledger}
    → IsWellFormed max_attempts s
    → Step max_attempts s t
    → Extends s.rows t.rows
unfolding mark_dispatched complete_events release_events resolve_retry_events
    abandon_superseded_events release_filtered_event abandon_row complete_row release_row retry_row
Step-Extends a {s} w (record_scan m connector decisions now ids) =
    let (new, e, c) = record_events-append m connector decisions now ids s in
    subst (Extends s.rows) (sym e) (Extends-append s.rows new)
Step-Extends a {s} w (claim m run now limit) =
    subst (Extends s.rows) (sym (claim_events-first_matching a m run now limit s w))
      (Extends-first_matching m run now (clamp_zero limit) s.rows)
Step-Extends a {s} w (abandon org identity generation now) =
    Extends-update (superseded org identity generation) _ s.rows
      λ e h. (refl, not-done_of_superseded org identity generation e _ h)
Step-Extends a {s} w (dispatch run) =
    Extends-update (claimed_by run) _ s.rows λ e h. (refl, not-done_of_claimed run e _ h)
Step-Extends a {s} w (complete run done_ids error now) =
    Extends-update (claimed_by run) _ s.rows λ e h. (ground arith, not-done_of_claimed run e _ h)
Step-Extends a {s} w (release run error now) =
    Extends-update (claimed_by run) _ s.rows λ e h. (ground arith, not-done_of_claimed run e _ h)
Step-Extends a {s} w (retry from_run to_run ids done_ids now) =
    Extends-update (failed_in from_run) _ s.rows
      λ e h. (ground arith, not-done_of_failed from_run e _ h)
Step-Extends a {s} w (release_filtered org id) =
    Extends-update (releasable org id) _ s.rows λ e h. (refl, not-done_of_releasable org id e _ h)

-- Whatever operations are made from a well-formed ledger, with a positive dead-letter budget, every
-- recorded message keeps its row, its id and its identity, and a row that is done never changes.
pub Reach-Extends :
    (max_attempts : ℕ) {s t : Ledger}
    → 0 < max_attempts
    → IsWellFormed max_attempts s
    → Reach max_attempts s t
    → Extends s.rows t.rows
Reach-Extends a {s} positive w here = Extends-refl s.rows
Reach-Extends a {s} {t = u} positive w (next {t = mid} r step) =
    Extends-trans s.rows mid.rows u.rows (Reach-Extends a positive w r)
      (Step-Extends a (Reach-IsWellFormed a positive w r) step)
