-- ===== src/Inbox/Retries.antt =====
-- `resolve_retry_events`, `abandon_superseded_events` and `release_filtered_event` of
-- ui/backend/db/inbox_events.py.
use bestteam.Shared.{
  ℕ, ◌+◌, ◌<◌, String, Bool, false, ◌&&◌, Option, none, some, List, [], ◌∷◌, any, filter,
  count_where, ◌≡◌, ◌≢◌, refl, ◌⊎◌, inl, inr, arith, All, if◌then◌else◌, Bool-cases, nat_beq,
  nat_beq_iff,
}
use bestteam.Shared.Equality.{contains, nat_eq, string_eq}
use bestteam.Inbox.{
  pending, filtered, InboxEvent, Ledger, update, claimable, claimed_by, claimed_events, superseded,
  abandon_row, abandon_superseded_events, failed_in, is_retried, retry_row, resolve_retry_events,
  releasable, release_filtered_event,
}
use bestteam.Inbox.Rows.{Identity, key_of, keys}
use bestteam.Inbox.WellFormed.{AreKeys, IsWellFormed}
use bestteam.Inbox.Outcomes.{is_pending, is_done, is_failed, is_filtered}
use text.Mathlib.TextEquality.{eq_iff}

module _ (from_run to_run : String) (retry done_ids : List String) (now : ℕ) where
  abbrev pub drafted : InboxEvent → Bool
  drafted e = failed_in from_run e && contains e.external_id done_ids

  abbrev retried : List InboxEvent → List InboxEvent
  retried = update (failed_in from_run) (retry_row to_run retry done_ids now)

  retry-count :
      (rows : List InboxEvent)
      → (count_where (claimed_by to_run) (retried rows)
          ≡ count_where (claimed_by to_run) rows
            + count_where (is_retried retry done_ids) (filter (failed_in from_run) rows))
        × (count_where is_done (retried rows) ≡ count_where is_done rows + count_where drafted rows)
  unfolding retry_row failed_in claimed_by is_retried
  retry-count [] = omega arith
  retry-count (e ∷ es) = ground (arith, eq_iff to_run to_run, retry-count es)

  -- A retry claims, for the new run, as many events as it reports to have moved, and makes done
  -- exactly the original run's failed events with a draft: these are never redone.
  resolve_retry_events-count :
      (s : Ledger)
      → (count_where
            (claimed_by to_run)
            (resolve_retry_events from_run to_run retry done_ids now s).0.rows
          ≡ count_where (claimed_by to_run) s.rows
            + (resolve_retry_events from_run to_run retry done_ids now s).1)
        × (count_where is_done (resolve_retry_events from_run to_run retry done_ids now s).0.rows
            ≡ count_where is_done s.rows + count_where drafted s.rows)
  unfolding resolve_retry_events
  resolve_retry_events-count s = retry-count s.rows

module _ (org : ℕ) (identity : String) (generation : Option String) (now : ℕ) where
  abbrev abandoned : List InboxEvent → List InboxEvent
  abandoned = update (superseded org identity generation) (abandon_row now)

  abandon-clears :
      (rows : List InboxEvent) → any (superseded org identity generation) (abandoned rows) ≡ false
  unfolding abandon_row superseded
  abandon-clears [] = refl
  abandon-clears (e ∷ es) = ground (arith, abandon-clears es)

  abandon-count :
      (rows : List InboxEvent)
      → count_where is_failed (abandoned rows)
        ≡ count_where is_failed rows + count_where (superseded org identity generation) rows
  unfolding abandon_row superseded
  abandon-count [] = omega arith
  abandon-count (e ∷ es) = ground (arith, abandon-count es)

  abandon-claimed :
      (run : String) (rows : List InboxEvent)
      → filter (claimed_by run) (abandoned rows) ≡ filter (claimed_by run) rows
  unfolding abandon_row superseded claimed_by
  abandon-claimed run [] = refl
  abandon-claimed run (e ∷ es) = ground (arith, abandon-claimed run es)

  abandon-current :
      (g : String) (rows : List InboxEvent)
      → (generation ≡ none) ⊎ (generation ≡ some g)
      → filter
          (claimable (record { org_id = org; identity = identity; generation = g }))
          (abandoned rows)
        ≡ filter (claimable (record { org_id = org; identity = identity; generation = g })) rows
  unfolding abandon_row superseded claimable
  abandon-current g [] h = refl
  abandon-current g (e ∷ es) (inl h) = ground (arith, abandon-current g es (inl h))
  abandon-current g (e ∷ es) (inr h) = ground (arith, abandon-current g es (inr h))

  -- A row that waits for processing or for an admin.
  abbrev pub IsWaiting : InboxEvent → Type 0
  IsWaiting e = (e.status ≡ pending) ⊎ (e.status ≡ filtered)

  abandon_row-current :
      (e : InboxEvent)
      → any (superseded org identity generation) (e ∷ []) ≡ false
      → e.org_id ≡ org
      → IsWaiting e
      → (e.mailbox_identity ≡ identity)
        × ((generation ≡ none) ⊎ (generation ≡ some e.mailbox_generation))
  unfolding superseded
  abandon_row-current e h o (inl p) = in_mailbox generation h
    where
      in_mailbox :
          (g : Option String)
          → any (superseded org identity g) (e ∷ []) ≡ false
          → (e.mailbox_identity ≡ identity) × ((g ≡ none) ⊎ (g ≡ some e.mailbox_generation))
      in_mailbox none k = ground (arith, eq_iff e.mailbox_identity identity)
      in_mailbox (some x) k =
          ground (arith, eq_iff e.mailbox_identity identity, eq_iff e.mailbox_generation x)
  abandon_row-current e h o (inr p) = in_mailbox generation h
    where
      in_mailbox :
          (g : Option String)
          → any (superseded org identity g) (e ∷ []) ≡ false
          → (e.mailbox_identity ≡ identity) × ((g ≡ none) ⊎ (g ≡ some e.mailbox_generation))
      in_mailbox none k = ground (arith, eq_iff e.mailbox_identity identity)
      in_mailbox (some x) k =
          ground (arith, eq_iff e.mailbox_identity identity, eq_iff e.mailbox_generation x)

  All-current :
      (rows : List InboxEvent)
      → any (superseded org identity generation) rows ≡ false
      → All
          (λ e.
            e.org_id ≡ org
            → IsWaiting e
            → (e.mailbox_identity ≡ identity)
              × ((generation ≡ none) ⊎ (generation ≡ some e.mailbox_generation)))
          rows
  All-current [] h = tt
  All-current (e ∷ es) h =
      (λ o p. abandon_row-current e (ground arith) o p, All-current es (ground arith))

  -- After a mailbox change every waiting event of the organisation is the current mailbox's, and of
  -- the current generation where one is given; the returned number counts the events failed; what
  -- any run has claimed is as before, and so is what can be claimed in the current mailbox, in the
  -- generation given or, where none is, in any.
  abandon_superseded_events-scope :
      (run g : String) (s : Ledger)
      → (generation ≡ none) ⊎ (generation ≡ some g)
      → All
          (λ e.
            e.org_id ≡ org
            → IsWaiting e
            → (e.mailbox_identity ≡ identity)
              × ((generation ≡ none) ⊎ (generation ≡ some e.mailbox_generation)))
          (abandon_superseded_events org identity generation now s).0.rows
        × (count_where is_failed (abandon_superseded_events org identity generation now s).0.rows
            ≡ count_where is_failed s.rows
              + (abandon_superseded_events org identity generation now s).1)
        × (claimed_events run (abandon_superseded_events org identity generation now s).0
            ≡ claimed_events run s)
        × (filter
              (claimable (record { org_id = org; identity = identity; generation = g }))
              (abandon_superseded_events org identity generation now s).0.rows
            ≡ filter
                (claimable (record { org_id = org; identity = identity; generation = g }))
                s.rows)
  unfolding abandon_superseded_events claimed_events
  abandon_superseded_events-scope run g s h = (
    All-current (abandoned s.rows) (abandon-clears s.rows),
    abandon-count s.rows,
    abandon-claimed run s.rows,
    abandon-current g s.rows h,
  )

module _ (org id : ℕ) where
  abbrev unfiltered : List InboxEvent → List InboxEvent
  unfiltered =
      update (releasable org id)
        (λ e. record e { status = pending; decision = none; run_id = none })

  release_count :
      (rows : List InboxEvent)
      → (count_where is_pending (unfiltered rows)
          ≡ count_where is_pending rows + count_where (releasable org id) rows)
        × (count_where is_filtered (unfiltered rows) + count_where (releasable org id) rows
            ≡ count_where is_filtered rows)
  unfolding releasable
  release_count [] = omega arith
  release_count (e ∷ es) = ground (arith, release_count es)

  none_above :
      (k : ℕ × Identity) (rows : List InboxEvent)
      → k.0 ≡ id
      → All (λ j. (k.0 < j.0) × (k.1 ≢ j.1)) (keys rows)
      → (count_where (releasable org id) rows ≡ 0) × (any (releasable org id) rows ≡ false)
  unfolding releasable
  none_above k [] e h = (refl, refl)
  none_above k (x ∷ xs) e h = ground (arith, none_above k xs e h.1, h.0.0)

  at_most_one :
      (next : ℕ) (rows : List InboxEvent)
      → AreKeys next (keys rows)
      → count_where (releasable org id) rows ≡ (if any (releasable org id) rows then 1 else 0)
  unfolding releasable
  at_most_one next [] h = refl
  at_most_one next (e ∷ es) h = elim (Bool-cases (nat_beq e.id id)) [
    | inl same ↦ ground (arith, none_above (key_of e) es ((nat_beq_iff e.id id).0 same) h.1)
    | inr other ↦ ground (arith, at_most_one next es h.2)
  ]

  -- In a well-formed ledger, releasing a filtered event answers true exactly when it turned one
  -- filtered event into a pending one, and otherwise no event changes between these.
  release_filtered_event-count :
      (max_attempts : ℕ) (s : Ledger)
      → IsWellFormed max_attempts s
      → (count_where is_pending (release_filtered_event org id s).0.rows
          ≡ count_where is_pending s.rows + (if (release_filtered_event org id s).1 then 1 else 0))
        × (count_where is_filtered (release_filtered_event org id s).0.rows
              + (if (release_filtered_event org id s).1 then 1 else 0)
            ≡ count_where is_filtered s.rows)
  unfolding release_filtered_event
  release_filtered_event-count a s w =
      rw (← at_most_one s.next_id s.rows w.keyed) (release_count s.rows)
