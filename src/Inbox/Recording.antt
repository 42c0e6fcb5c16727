-- ===== src/Inbox/Recording.antt =====
-- `record_events` of ui/backend/db/inbox_events.py, over a whole scan.
use bestteam.Shared.{
  ℕ, suc, ◌<◌, String, Bool, true, false, ◌||◌, none, List, [], ◌∷◌, ◌++◌, any, length, ◌≡◌, ◌≢◌,
  refl, sym, subst, ap, ◌∙◌, ◌⊎◌, inl, inr, arith, All, All-append, Bool-cases, length-append,
}
use bestteam.Inbox.{
  InboxEvent, Ledger, Mailbox, Decisions, same_identity, new_event, insert_row, record_events,
}
use bestteam.Inbox.Rows.{Identity, identity_of, key_of, keys, same_identity_iff}
use bestteam.Inbox.WellFormed.{AreKeys, IsConsistent, IsWellFormed}
use mathlib.Core.List.{append-nil, append_assoc, map-append}

or-false : (a b : Bool) → a || b ≡ false → (a ≡ false) × (b ≡ false)
or-false a b h = ground arith

any-append :
    (p : InboxEvent → Bool) (xs ys : List InboxEvent) → any p xs ≡ true → any p (xs ++ ys) ≡ true
any-append p (x ∷ xs) ys h = ground (arith, any-append p xs ys)
any-append p [] ys h = cc

any-snoc :
    (p : InboxEvent → Bool) (xs : List InboxEvent) (y : InboxEvent)
    → p y ≡ true
    → any p (xs ++ y ∷ []) ≡ true
any-snoc p [] y h = ground arith
any-snoc p (x ∷ xs) y h = ground (arith, any-snoc p xs y h)

module _ (m : Mailbox) (connector : String) where
  -- The scanned id `x` has a row.
  abbrev pub IsKnown : Ledger → String → Type 0
  IsKnown s x = any (same_identity (new_event m connector none 0 0 x)) s.rows ≡ true

  module _ (decisions : Decisions) (now : ℕ) where
    test_irrelevant :
        (id : ℕ) (x : String) (rows : List InboxEvent)
        → any (same_identity (new_event m connector decisions now id x)) rows
          ≡ any (same_identity (new_event m connector none 0 0 x)) rows
    unfolding same_identity new_event
    test_irrelevant id x [] = refl
    test_irrelevant id x (e ∷ es) = ground (arith, test_irrelevant id x es)

    abbrev fresh_event : Ledger → String → InboxEvent
    fresh_event s x = new_event m connector decisions now s.next_id x

    abbrev appended : Ledger → String → Ledger
    appended s x = record { rows = s.rows ++ fresh_event s x ∷ []; next_id = suc s.next_id }

    -- The two outcomes of one inserted row.
    insert_row_cases :
        (s : Ledger) (x : String)
        → (any (same_identity (fresh_event s x)) s.rows ≡ true)
            × (insert_row (fresh_event s x) s ≡ (s, 0))
          ⊎ (any (same_identity (fresh_event s x)) s.rows ≡ false)
            × (insert_row (fresh_event s x) s ≡ (appended s x, 1))
    unfolding insert_row
    insert_row_cases s x = elim (Bool-cases (any (same_identity (fresh_event s x)) s.rows)) [
      | inl old ↦ inl (old, rw old)
      | inr new ↦ inr (new, rw new)
    ]

    same_identity_self :
        (id : ℕ) (x : String)
        → same_identity
            (new_event m connector none 0 0 x)
            (new_event m connector decisions now id x)
          ≡ true
    unfolding new_event
    same_identity_self id x = (same_identity_iff _ _).1 refl

    insert_row_self : (s : Ledger) (x : String) → IsKnown (insert_row (fresh_event s x) s).0 x
    insert_row_self s x = elim (insert_row_cases s x) [
      | inl (old, e) ↦ rw e (sym (test_irrelevant s.next_id x s.rows) ∙ old)
      | inr (new, e) ↦ rw e (any-snoc _ s.rows (fresh_event s x) (same_identity_self s.next_id x))
    ]

    -- Recording appends rows; what is there stays.
    insert_row-append :
        (s : Ledger) (x : String)
        → (new : List InboxEvent) × ((insert_row (fresh_event s x) s).0.rows ≡ s.rows ++ new)
          × (length new ≡ (insert_row (fresh_event s x) s).1)
    insert_row-append s x = elim (insert_row_cases s x) [
      | inl (old, e) ↦ ([], rw e (sym (append-nil s.rows)), rw e)
      | inr (new, e) ↦ (fresh_event s x ∷ [], rw e, rw e)
    ]

    pub record_events-append :
        (xs : List String) (s : Ledger)
        → (new : List InboxEvent) × ((record_events m connector decisions now xs s).0.rows
            ≡ s.rows ++ new)
          × (length new ≡ (record_events m connector decisions now xs s).1)
    unfolding record_events
    record_events-append [] s = ([], sym (append-nil s.rows), refl)
    record_events-append (x ∷ xs) s =
        let (here, at_here, count_here) = insert_row-append s x in
        let (later, at_later, count_later) =
          record_events-append xs (insert_row (fresh_event s x) s).0 in
        (
          here ++ later,
          at_later ∙ ap (λ l. l ++ later) at_here ∙ append_assoc s.rows here later,
          omega (arith, length-append here later, count_here, count_later),
        )

    IsKnown-insert :
        (s : Ledger) (x y : String) → IsKnown s y → IsKnown (insert_row (fresh_event s x) s).0 y
    IsKnown-insert s x y h =
        let (new, e, c) = insert_row-append s x in
        rw e (any-append (same_identity (new_event m connector none 0 0 y)) s.rows new h)

    IsKnown-record :
        (xs : List String) (s : Ledger) (y : String)
        → IsKnown s y
        → IsKnown (record_events m connector decisions now xs s).0 y
    IsKnown-record xs s y h =
        let (new, e, c) = record_events-append xs s in
        rw e (any-append (same_identity (new_event m connector none 0 0 y)) s.rows new h)

    pub record_events-IsKnown :
        (xs : List String) (s : Ledger)
        → All (IsKnown (record_events m connector decisions now xs s).0) xs
    unfolding record_events
    record_events-IsKnown [] s = tt
    record_events-IsKnown (x ∷ xs) s = (
      IsKnown-record xs (insert_row (fresh_event s x) s).0 x (insert_row_self s x),
      record_events-IsKnown xs (insert_row (fresh_event s x) s).0,
    )

    insert_row-known :
        (s : Ledger) (x : String) → IsKnown s x → insert_row (fresh_event s x) s ≡ (s, 0)
    insert_row-known s x h = elim (insert_row_cases s x) [
      | inl (old, e) ↦ e
      | inr (new, e) ↦ cc (test_irrelevant s.next_id x s.rows)
    ]

    pub record_events-noop :
        (xs : List String) (s : Ledger)
        → All (IsKnown s) xs
        → record_events m connector decisions now xs s ≡ (s, 0)
    unfolding record_events
    record_events-noop [] s h = refl
    record_events-noop (x ∷ xs) s h =
        rw (insert_row-known s x h.0) (rw (record_events-noop xs s h.1))

  -- Every scanned id has a row afterwards, the rows there before stay as they were and in front,
  -- and the returned count is the number of rows added.
  pub record_events-durable :
      (decisions : Decisions) (now : ℕ) (xs : List String) (s : Ledger)
      → All (IsKnown (record_events m connector decisions now xs s).0) xs
        × ((new : List InboxEvent) × ((record_events m connector decisions now xs s).0.rows
              ≡ s.rows ++ new)
            × (length new ≡ (record_events m connector decisions now xs s).1))
  record_events-durable decisions now xs s =
      (record_events-IsKnown decisions now xs s, record_events-append decisions now xs s)

  -- Scanning the same ids again, with any filter decisions and at any time, records nothing and
  -- changes nothing.
  record_events-again :
      (decisions decisions' : Decisions) (now now' : ℕ) (xs : List String) (s : Ledger)
      → record_events m connector decisions' now' xs
          (record_events m connector decisions now xs s).0
        ≡ ((record_events m connector decisions now xs s).0, 0)
  record_events-again decisions decisions' now now' xs s =
      record_events-noop decisions' now' xs _ (record_events-IsKnown decisions now xs s)

-- A row inserted with the next id keeps the keys of the table in order.
AreKeys-snoc :
    (next : ℕ) (ks : List (ℕ × Identity)) (i : Identity)
    → AreKeys next ks
    → All (λ k. k.1 ≢ i) ks
    → AreKeys (suc next) (ks ++ (next, i) ∷ [])
AreKeys-snoc next [] i h d = (omega arith, tt, tt)
AreKeys-snoc next (k ∷ ks) i h d = (
  omega (arith, h.0),
  All-append (λ j. (k.0 < j.0) × (k.1 ≢ j.1)) ks ((next, i) ∷ []) h.1 ((h.0, d.0), tt),
  AreKeys-snoc next ks i h.2 d.1,
)

no_conflict :
    (e : InboxEvent) (rows : List InboxEvent)
    → any (same_identity e) rows ≡ false
    → All (λ k. k.1 ≢ identity_of e) (keys rows)
no_conflict e [] h = tt
no_conflict e (x ∷ xs) h = (
  λ p. cc (
    (same_identity_iff e x).1 (sym p),
    (or-false (same_identity e x) (any (same_identity e) xs) h).0,
  ),
  no_conflict e xs (or-false (same_identity e x) (any (same_identity e) xs) h).1,
)

module _ (max_attempts : ℕ) (positive : 0 < max_attempts) (m : Mailbox) (connector : String)
    (decisions : Decisions) (now : ℕ) where
  new_event-IsConsistent :
      (id : ℕ) (x : String) → IsConsistent max_attempts (new_event m connector decisions now id x)
  unfolding new_event
  new_event-IsConsistent id x = ground arith

  insert_row-IsWellFormed :
      (s : Ledger) (x : String)
      → IsWellFormed max_attempts s
      → IsWellFormed max_attempts (insert_row (new_event m connector decisions now s.next_id x) s).0
  insert_row-IsWellFormed s x w = elim (insert_row_cases m connector decisions now s x) [
    | inl (old, e) ↦ rw e w
    | inr (new, e) ↦ rw e (record {
      consistent =
          All-append (IsConsistent max_attempts) s.rows _ w.consistent
            (new_event-IsConsistent s.next_id x, tt);
      keyed = subst (AreKeys (suc s.next_id)) (sym (map-append key_of s.rows _)) (
          unfold new_event in
          AreKeys-snoc s.next_id (keys s.rows) _ w.keyed (no_conflict _ s.rows new));
    })
  ]

  pub record_events-IsWellFormed :
      (xs : List String) (s : Ledger)
      → IsWellFormed max_attempts s
      → IsWellFormed max_attempts (record_events m connector decisions now xs s).0
  unfolding record_events
  record_events-IsWellFormed [] s w = w
  record_events-IsWellFormed (x ∷ xs) s w =
      record_events-IsWellFormed xs _ (insert_row-IsWellFormed s x w)
