-- ===== src/Inbox/Claims.antt =====
-- `claim_events` and `has_pending_events` of ui/backend/db/inbox_events.py.
use bestteam.Shared.{
  ℕ, zero, suc, ◌+◌, ◌<◌, String, Bool, true, false, List, [], ◌∷◌, map, any, filter, take,
  count_where, min, ◌≡◌, ◌≢◌, refl, sym, subst, ap, ap₂, ◌∙◌, ◌↔◌, inl, inr, arith, All,
  if◌then◌else◌, Bool-cases,
}
use bestteam.Shared.Equality.{contains, nat_eq, string_eq, ==-self}
use bestteam.Shared.Int.{ℤ, pos, negsuc, clamp_zero}
use bestteam.Inbox.{
  pending, InboxEvent, Ledger, Mailbox, update, claim_row, claim_events, claimable, claimed_by,
  claimed_events, oldest_pending, has_pending_events,
}
use bestteam.Inbox.Rows.{Identity, key_of, keys}
use bestteam.Inbox.WellFormed.{AreKeys, IsWellFormed}
use text.Mathlib.TextEquality.{eq_iff}

-- The ids that a claim picks, seen from the rows: walk them from the oldest and take the first `n`.
unfoldable pub first_matching :
    (InboxEvent → Bool) → (InboxEvent → InboxEvent) → ℕ → List InboxEvent → List InboxEvent
first_matching p f zero rows = rows
first_matching p f (suc n) [] = []
first_matching p f (suc n) (e ∷ es) =
    (if p e then f e else e) ∷ first_matching p f (if p e then n else suc n) es

abbrev picked : (InboxEvent → Bool) → ℕ → List InboxEvent → List ℕ
picked p n rows = take n (map (λ e. e.id) (filter p rows))

abbrev Above : ℕ → List InboxEvent → Type 0
Above id rows = All (λ x. id < x.id) rows

Above-of_keys :
    (k : ℕ × Identity) (rows : List InboxEvent)
    → All (λ j. (k.0 < j.0) × (k.1 ≢ j.1)) (keys rows)
    → Above k.0 rows
Above-of_keys k [] h = tt
Above-of_keys k (e ∷ es) h = (h.0.0, Above-of_keys k es h.1)

-- An id below all rows is not among the picked ones.
not-picked_below :
    (p : InboxEvent → Bool) (id n : ℕ) (rows : List InboxEvent)
    → Above id rows
    → contains id (picked p n rows) ≡ false
unfolding contains
not-picked_below p id zero rows h = refl
not-picked_below p id (suc n) [] h = refl
not-picked_below p id (suc n) (e ∷ es) h =
    ground (arith, not-picked_below p id n es h.1, not-picked_below p id (suc n) es h.1)

module _ (p : InboxEvent → Bool) (f : InboxEvent → InboxEvent) where
  skip_head :
      (e : InboxEvent) (ids : List ℕ) (rows : List InboxEvent)
      → Above e.id rows
      → update (λ x. contains x.id (e.id ∷ ids)) f rows ≡ update (λ x. contains x.id ids) f rows
  unfolding contains
  skip_head e ids [] h = refl
  skip_head e ids (x ∷ xs) h = ground (arith, skip_head e ids xs h.1)

  update_none : (rows : List InboxEvent) → update (λ x. contains x.id []) f rows ≡ rows
  unfolding contains
  update_none [] = refl
  update_none (x ∷ xs) = ap (λ l. x ∷ l) (update_none xs)

  head_hit : (e : InboxEvent) (ids : List ℕ) → (if contains e.id (e.id ∷ ids) then f e else e) ≡ f e
  unfolding contains
  head_hit e ids = rw (==-self e.id)

  picked_hit :
      (e : InboxEvent) (n : ℕ) (es : List InboxEvent)
      → p e ≡ true
      → picked p (suc n) (e ∷ es) ≡ e.id ∷ picked p n es
  picked_hit e n es hit = rw hit

  picked_miss :
      (e : InboxEvent) (n : ℕ) (es : List InboxEvent)
      → p e ≡ false
      → picked p n (e ∷ es) ≡ picked p n es
  picked_miss e n es miss = rw miss

  -- The UPDATE by the picked ids is the walk over the rows.
  update-picked :
      (next n : ℕ) (rows : List InboxEvent)
      → AreKeys next (keys rows)
      → update (λ e. contains e.id (picked p n rows)) f rows ≡ first_matching p f n rows
  unfolding first_matching
  update-picked next zero rows h = update_none rows
  update-picked next (suc n) [] h = refl
  update-picked next (suc n) (e ∷ es) h = elim (Bool-cases (p e)) [
    | inl hit ↦
        subst
          (λ ids. update (λ x. contains x.id ids) f (e ∷ es) ≡ first_matching p f (suc n) (e ∷ es))
          (sym (picked_hit e n es hit))
          (rw hit (
            ap₂ (λ x xs. x ∷ xs) (head_hit e (picked p n es))
              (skip_head e (picked p n es) es (Above-of_keys (key_of e) es h.1)
                ∙ update-picked next n es h.2)))
    | inr miss ↦
        subst
          (λ ids. update (λ x. contains x.id ids) f (e ∷ es) ≡ first_matching p f (suc n) (e ∷ es))
          (sym (picked_miss e (suc n) es miss))
          (rw (miss, not-picked_below p e.id (suc n) es (Above-of_keys (key_of e) es h.1))
            (ap (λ xs. e ∷ xs) (update-picked next (suc n) es h.2)))
  ]

-- From a well-formed ledger, the UPDATE by selected ids is the walk from the oldest row that claims
-- the first claimable rows, as many as the limit (none for a limit at or below zero), and changes
-- no other row.
pub claim_events-first_matching :
    (max_attempts : ℕ) (m : Mailbox) (run : String) (now : ℕ) (limit : ℤ) (s : Ledger)
    → IsWellFormed max_attempts s
    → (claim_events m run now limit s).0.rows
      ≡ first_matching (claimable m) (claim_row run now) (clamp_zero limit) s.rows
unfolding claim_events first_matching oldest_pending
claim_events-first_matching a m run now (negsuc k) s w = refl
claim_events-first_matching a m run now (pos zero) s w = refl
claim_events-first_matching a m run now (pos (suc n)) s w =
    update-picked (claimable m) (claim_row run now) s.next_id (suc n) s.rows w.keyed

module _ (m : Mailbox) (run : String) (now : ℕ) where
  abbrev walk : ℕ → List InboxEvent → List InboxEvent
  walk = first_matching (claimable m) (claim_row run now)

  claimable-claim_row : (e : InboxEvent) → claimable m (claim_row run now e) ≡ false
  unfolding claimable claim_row
  claimable-claim_row e = ground arith

  -- Each round of the walk claims a row while there is one and the limit allows it.
  walk-claimable :
      (n : ℕ) (rows : List InboxEvent)
      → count_where (claimable m) (walk n rows) + min n (count_where (claimable m) rows)
        ≡ count_where (claimable m) rows
  unfolding first_matching
  walk-claimable zero rows = omega arith
  walk-claimable (suc n) [] = omega arith
  walk-claimable (suc n) (e ∷ es) = elim (Bool-cases (claimable m e)) [
    | inl hit ↦ rw (hit, claimable-claim_row e) (omega (arith, walk-claimable n es))
    | inr miss ↦ ground (arith, walk-claimable (suc n) es)
  ]

  claimed_by-claim_row : (e : InboxEvent) → claimed_by run (claim_row run now e) ≡ true
  unfolding claimed_by claim_row
  claimed_by-claim_row e = ground (arith, eq_iff run run)

  not-claimed_by : (r : String) (e : InboxEvent) → claimable m e ≡ true → claimed_by r e ≡ false
  unfolding claimable claimed_by
  not-claimed_by r e h = ground arith

  walk-claimed :
      (n : ℕ) (rows : List InboxEvent)
      → count_where (claimed_by run) (walk n rows)
        ≡ count_where (claimed_by run) rows + min n (count_where (claimable m) rows)
  unfolding first_matching
  walk-claimed zero rows = omega arith
  walk-claimed (suc n) [] = omega arith
  walk-claimed (suc n) (e ∷ es) = elim (Bool-cases (claimable m e)) [
    | inl hit ↦
        rw (hit, claimed_by-claim_row e, not-claimed_by run e hit)
          (omega (arith, walk-claimed n es))
    | inr miss ↦ ground (arith, walk-claimed (suc n) es)
  ]

  foreign_claim :
      (other : String) (e : InboxEvent)
      → run ≢ other
      → claimed_by other (claim_row run now e) ≡ false
  unfolding claimed_by claim_row
  foreign_claim other e h = ground (arith, eq_iff run other)

  walk-filter_other :
      (other : String) (n : ℕ) (rows : List InboxEvent)
      → run ≢ other
      → filter (claimed_by other) (walk n rows) ≡ filter (claimed_by other) rows
  unfolding first_matching
  walk-filter_other other zero rows h = refl
  walk-filter_other other (suc n) [] h = refl
  walk-filter_other other (suc n) (e ∷ es) h = elim (Bool-cases (claimable m e)) [
    | inl hit ↦
        rw (hit, not-claimed_by other e hit, foreign_claim other e h)
          (walk-filter_other other n es h)
    | inr miss ↦ ground (arith, walk-filter_other other (suc n) es h)
  ]

-- From a well-formed ledger a claim with a limit takes, for the claiming run, as many of the
-- mailbox's pending rows as the limit allows and no more: so many rows are claimed by the run
-- more than before, and so many fewer are claimable. A limit at or below zero takes none.
pub claim_events-count :
    (max_attempts : ℕ) (m : Mailbox) (run : String) (now : ℕ) (limit : ℤ) (s : Ledger)
    → IsWellFormed max_attempts s
    → (count_where (claimed_by run) (claim_events m run now limit s).0.rows
        ≡ count_where (claimed_by run) s.rows
          + min (clamp_zero limit) (count_where (claimable m) s.rows))
      × (count_where (claimable m) (claim_events m run now limit s).0.rows
            + min (clamp_zero limit) (count_where (claimable m) s.rows)
          ≡ count_where (claimable m) s.rows)
claim_events-count a m run now limit s w = rw (claim_events-first_matching a m run now limit s w) (
  walk-claimed m run now (clamp_zero limit) s.rows,
  walk-claimable m run now (clamp_zero limit) s.rows,
)

-- From a well-formed ledger, a claim by one run changes nothing of what another run has claimed.
pub claim_events-exclusive :
    (max_attempts : ℕ) (m : Mailbox) (run other : String) (now : ℕ) (limit : ℤ) (s : Ledger)
    → IsWellFormed max_attempts s
    → run ≢ other
    → claimed_events other (claim_events m run now limit s).0 ≡ claimed_events other s
unfolding claimed_events
claim_events-exclusive a m run other now limit s w h =
    rw (claim_events-first_matching a m run now limit s w)
      (walk-filter_other m run now other (clamp_zero limit) s.rows h)

any-count :
    (p : InboxEvent → Bool) (rows : List InboxEvent)
    → (any p rows ≡ true → 0 < count_where p rows) × (any p rows ≡ false → count_where p rows ≡ 0)
any-count p [] = (λ h. cc, λ h. refl)
any-count p (e ∷ es) = ground (arith, any-count p es)

-- From a well-formed ledger, `has_pending_events` says exactly whether a claim with a positive
-- limit would take at least one row.
has_pending_events-claim :
    (max_attempts : ℕ) (m : Mailbox) (run : String) (now n : ℕ) (s : Ledger)
    → IsWellFormed max_attempts s
    → (has_pending_events m s ≡ true) ↔ (
        count_where (claimed_by run) s.rows
        < count_where (claimed_by run) (claim_events m run now (pos (suc n)) s).0.rows)
unfolding has_pending_events
has_pending_events-claim a m run now n s w =
    let counted = (claim_events-count a m run now (pos (suc n)) s w).0 in
    let found = any-count (claimable m) s.rows in
    (
      λ h. omega (arith, counted, found.0 h),
      λ h. elim (Bool-cases (any (claimable m) s.rows)) [
        | inl y ↦ y
        | inr z ↦ absurd (omega (arith, counted, found.1 z))
      ],
    )

-- A claim gives out no id and writes none.
pub claim_events-next :
    (m : Mailbox) (run : String) (now : ℕ) (limit : ℤ) (s : Ledger)
    → (claim_events m run now limit s).0.next_id ≡ s.next_id
unfolding claim_events
claim_events-next m run now (negsuc k) s = refl
claim_events-next m run now (pos zero) s = refl
claim_events-next m run now (pos (suc n)) s = refl

pub claimable-pending : (m : Mailbox) (e : InboxEvent) → claimable m e ≡ true → e.status ≡ pending
unfolding claimable
claimable-pending m e h = ground arith
