-- ===== src/Inbox/Outcomes.antt =====
-- `complete_events` and `release_events` of ui/backend/db/inbox_events.py.
use bestteam.Shared.{
  ℕ, ◌+◌, String, Bool, true, false, ◌&&◌, not, Option, List, [], ◌∷◌, filter, count_where, leb,
  ◌≡◌, refl, inl, inr, arith, Bool-cases,
}
use bestteam.Shared.Equality.{contains, nat_eq, string_eq}
use bestteam.Inbox.{
  pending, done, failed, filtered, has_status, InboxEvent, Ledger, update, claimed_by,
  claimed_events, complete_row, complete_events, release_row, release_events,
}

abbrev pub is_pending : InboxEvent → Bool
is_pending e = has_status pending e.status

abbrev pub is_done : InboxEvent → Bool
is_done e = has_status done e.status

abbrev pub is_failed : InboxEvent → Bool
is_failed e = has_status failed e.status

abbrev pub is_filtered : InboxEvent → Bool
is_filtered e = has_status filtered e.status

-- An update after which no hit row passes the test leaves an empty selection.
filter-update_none :
    (p : InboxEvent → Bool) (f : InboxEvent → InboxEvent) (rows : List InboxEvent)
    → ((e : InboxEvent) → p e ≡ true → p (f e) ≡ false)
    → filter p (update p f rows) ≡ []
filter-update_none p f [] h = refl
filter-update_none p f (e ∷ es) h = elim (Bool-cases (p e)) [
  | inl hit ↦ rw (hit, h e hit) (filter-update_none p f es h)
  | inr miss ↦ ground (arith, filter-update_none p f es h)
]

-- An update that the test does not see on the rows it hits leaves the selection as it was.
filter-update_other :
    (p q : InboxEvent → Bool) (f : InboxEvent → InboxEvent) (rows : List InboxEvent)
    → ((e : InboxEvent) → p e ≡ true → (q e ≡ false) × (q (f e) ≡ false))
    → filter q (update p f rows) ≡ filter q rows
filter-update_other p q f [] h = refl
filter-update_other p q f (e ∷ es) h = elim (Bool-cases (p e)) [
  | inl hit ↦ rw (hit, (h e hit).0, (h e hit).1) (filter-update_other p q f es h)
  | inr miss ↦ ground (arith, filter-update_other p q f es h)
]

module _ (run : String) (done_ids : List String) (error : Option String) (now : ℕ) where
  abbrev pub has_evidence : InboxEvent → Bool
  has_evidence e = claimed_by run e && contains e.external_id done_ids

  abbrev pub lacks_evidence : InboxEvent → Bool
  lacks_evidence e = claimed_by run e && not (contains e.external_id done_ids)

  complete-count :
      (rows : List InboxEvent)
      → (count_where is_done (update (claimed_by run) (complete_row done_ids error now) rows)
          ≡ count_where is_done rows + count_where has_evidence rows)
        × (count_where is_failed (update (claimed_by run) (complete_row done_ids error now) rows)
            ≡ count_where is_failed rows + count_where lacks_evidence rows)
  unfolding complete_row claimed_by
  complete-count [] = omega arith
  complete-count (e ∷ es) = ground (arith, complete-count es)

  complete_row-not-claimed :
      (e : InboxEvent)
      → claimed_by run e ≡ true
      → claimed_by run (complete_row done_ids error now e) ≡ false
  unfolding complete_row claimed_by
  complete_row-not-claimed e h = ground arith

  -- After a run that executed the model, none of its events is claimed any more: those with
  -- evidence of a draft are done, and the others are failed.
  pub complete_events-settles :
      (s : Ledger)
      → (claimed_events run (complete_events run done_ids error now s) ≡ [])
        × (count_where is_done (complete_events run done_ids error now s).rows
            ≡ count_where is_done s.rows + count_where has_evidence s.rows)
        × (count_where is_failed (complete_events run done_ids error now s).rows
            ≡ count_where is_failed s.rows + count_where lacks_evidence s.rows)
  unfolding complete_events claimed_events
  complete_events-settles s = (
    filter-update_none (claimed_by run) (complete_row done_ids error now) s.rows
        complete_row-not-claimed,
    (complete-count s.rows).0,
    (complete-count s.rows).1,
  )

-- How many rows the run has claimed whose attempts have reached the limit.
abbrev pub used_up : (run : String) (max_attempts : ℕ) → List InboxEvent → ℕ
used_up run max_attempts rows =
    count_where (λ e. claimed_by run e && leb max_attempts e.attempts) rows

module _ (run : String) (max_attempts : ℕ) (error : Option String) (now : ℕ) where
  abbrev exhausted : InboxEvent → Bool
  exhausted e = leb max_attempts e.attempts

  release-count :
      (rows : List InboxEvent)
      → (count_where is_pending (update (claimed_by run) (release_row max_attempts error now) rows)
            + count_where exhausted (filter (claimed_by run) rows)
          ≡ count_where is_pending rows + count_where (claimed_by run) rows)
        × (count_where is_failed (update (claimed_by run) (release_row max_attempts error now) rows)
            ≡ count_where is_failed rows + count_where exhausted (filter (claimed_by run) rows))
  unfolding release_row claimed_by
  release-count [] = omega arith
  release-count (e ∷ es) = ground (arith, release-count es)

  release_row-not-claimed :
      (e : InboxEvent)
      → claimed_by run e ≡ true
      → claimed_by run (release_row max_attempts error now e) ≡ false
  unfolding release_row claimed_by
  release_row-not-claimed e h = ground arith

  exhausted_of_claimed :
      (rows : List InboxEvent)
      → count_where exhausted (filter (claimed_by run) rows) ≡ used_up run max_attempts rows
  exhausted_of_claimed [] = refl
  exhausted_of_claimed (e ∷ es) = ground (arith, exhausted_of_claimed es)

  -- After a release none of the run's events is claimed any more. The returned number counts those
  -- of them whose attempts were no fewer than the limit: as many rows more are failed, and the
  -- others of the run are pending again.
  pub release_events-settles :
      (s : Ledger)
      → (claimed_events run (release_events run max_attempts error now s).0 ≡ [])
        × ((release_events run max_attempts error now s).1 ≡ used_up run max_attempts s.rows)
        × (count_where is_pending (release_events run max_attempts error now s).0.rows
              + used_up run max_attempts s.rows
            ≡ count_where is_pending s.rows + count_where (claimed_by run) s.rows)
        × (count_where is_failed (release_events run max_attempts error now s).0.rows
            ≡ count_where is_failed s.rows + used_up run max_attempts s.rows)
  unfolding release_events claimed_events
  release_events-settles s = (
    filter-update_none (claimed_by run) (release_row max_attempts error now) s.rows
        release_row-not-claimed,
    exhausted_of_claimed s.rows,
    omega (arith, (release-count s.rows).0, exhausted_of_claimed s.rows),
    omega (arith, (release-count s.rows).1, exhausted_of_claimed s.rows),
  )
