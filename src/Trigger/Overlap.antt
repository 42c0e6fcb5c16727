-- ===== src/Trigger/Overlap.antt =====
-- The overlap guard of ui/backend/email_trigger.py, and the release of a run that hangs.
use bestteam.Shared.{
  ℕ, String, Bool, true, false, Option, none, some, ◌≡◌, refl, sym, ap, subst, [], ◌∷◌, ◌++◌, ◌∙◌,
  ◌⊎◌, inl, inr, Bool-cases, Option-cases, leb, arith,
}
use bestteam.Shared.Equality.{string_eq}
use bestteam.Shared.Dict.{lookup, lookup-put_self}
use bestteam.Runs.{failed, get, is_running, request_cancel, set_cancel, cancel_requested, Run}
use bestteam.Shared.Dict.{lookup_or-put_self}
use bestteam.Shared.Text.{Text}
use bestteam.Trigger.{
  EmailTrigger, RunRow, Limits, Money, Casing, System, with_trigger, apply_health,
}
use bestteam.Trigger.Watchdog.{
  is_active, is_overdue, stop_row, stop_run, hand_back, release_stale_run, overlap_guard,
  stale_message,
}
use bestteam.Trigger.Poll.{Cycle, roll_over, poll_org}
use bestteam.Trigger.Unclaimed.{IsUnclaimed, IsUnclaimed-release_own}

abbrev age : Limits → ℕ → Option RunRow → Bool
age limits now none = false
age limits now (some row) = is_overdue limits now row

-- The run has a row that is older than the timeout.
abbrev pub hangs : Limits → ℕ → String → System → Bool
hangs limits now run_id s = age limits now (lookup run_id s.run_rows)

-- A row of a run that was running is failed with the message on the timeout; another is kept.
abbrev pub IsStopped : RunRow → RunRow → Type 0
IsStopped before after =
    (is_running before.status ≡ true)
      × (after.status ≡ failed)
      × (after.output ≡ some stale_message)
    ⊎ (is_running before.status ≡ false) × (after ≡ before)

-- What the release of a run leaves.
pub record IsReleased (run_id : String) (s t : System) : Type 0 where
  pub before : RunRow
  pub after : RunRow
  pub was_there : lookup run_id s.run_rows ≡ some before
  pub is_there : lookup run_id t.run_rows ≡ some after
  pub stopped : IsStopped before after
  pub unclaimed : IsUnclaimed run_id t.ledger
  pub cancelled : cancel_requested run_id t.registry ≡ true
  pub normalized : t.normalized ≡ s.normalized ++ run_id ∷ []

module _ (limits : Limits) (now : ℕ) (run_id : String) (s : System) where
  pub waits_for :
      hangs limits now run_id s ≡ false → release_stale_run limits now run_id s ≡ (s, false)
  unfolding release_stale_run
  waits_for h = elim (Option-cases (lookup run_id s.run_rows)) [
    | inl missing ↦ rw (missing, release_stale_run) refl
    | inr (row, there) ↦ rw (there, release_stale_run) (rw (at_row row there) refl)
  ]
    where
      at_row :
          (row : RunRow) → lookup run_id s.run_rows ≡ some row → is_overdue limits now row ≡ false
      at_row row there = sym (ap (age limits now) there) ∙ h

  stops :
      (row : RunRow)
      → lookup run_id s.run_rows ≡ some row
      → is_overdue limits now row ≡ true
      → release_stale_run limits now run_id s ≡ (stop_run limits now run_id row s, true)
  unfolding release_stale_run
  stops row there over = rw (there, release_stale_run) (rw over refl)

  cancels :
      (run : Run)
      → get run_id s.registry ≡ some run
      → is_running run.status ≡ true
      → cancel_requested run_id (request_cancel run_id s.registry).0 ≡ true
  unfolding get request_cancel set_cancel cancel_requested
  cancels run there on =
      rw (there, request_cancel)
        (rw on (lookup_or-put_self false run_id true s.registry.cancel_flags))

  IsStopped-row : (row : RunRow) → IsStopped row (stop_row row)
  unfolding stop_row
  IsStopped-row row = elim (Bool-cases (is_running row.status)) [
    | inl at_work ↦ rw at_work (inl (refl, refl, refl))
    | inr ended ↦ rw ended (inr (refl, refl))
  ]

  releases :
      (run : Run) (row : RunRow)
      → get run_id s.registry ≡ some run
      → is_running run.status ≡ true
      → lookup run_id s.run_rows ≡ some row
      → IsReleased run_id s (stop_run limits now run_id row s)
  unfolding stop_run hand_back apply_health
  releases run row there on found = record {
    before = row;
    after = stop_row row;
    was_there = found;
    is_there = lookup-put_self run_id (stop_row row) s.run_rows;
    stopped = IsStopped-row row;
    unclaimed =
        IsUnclaimed-release_own run_id limits.max_event_attempts (some stale_message) now s.ledger;
    cancelled = cancels run there on;
    normalized = refl;
  }

  -- Of a run at work: one that has no row older than the timeout is not released, and nothing
  -- changes. One that has is released: none of its messages is claimed any more, its row is failed
  -- with the message on the timeout if it was running and else as it was, the registry has its
  -- cancellation requested, and its results are normalised.
  pub release_stale_run_lem :
      (run : Run)
      → get run_id s.registry ≡ some run
      → is_running run.status ≡ true
      → ((hangs limits now run_id s ≡ false) × (release_stale_run limits now run_id s ≡ (s, false)))
        ⊎ (hangs limits now run_id s ≡ true)
          × ((release_stale_run limits now run_id s).1 ≡ true)
          × IsReleased run_id s (release_stale_run limits now run_id s).0
  release_stale_run_lem run there on = elim (Bool-cases (hangs limits now run_id s)) [
    | inr fresh ↦ inl (fresh, waits_for fresh)
    | inl hung ↦
        let (row, found, over) = overdue (lookup run_id s.run_rows) hung in
        inr (
          hung,
          ap (λ r. r.1) (stops row found over),
          subst (λ r. IsReleased run_id s r.0) (sym (stops row found over))
              (releases run row there on found),
        )
  ]
    where
      overdue :
          (o : Option RunRow)
          → age limits now o ≡ true
          → (row : RunRow) × (o ≡ some row) × (is_overdue limits now row ≡ true)
      overdue none h = cc
      overdue (some row) h = (row, refl, h)

last_run_id-roll :
    (today : Text) (t : EmailTrigger) → (roll_over today t).last_run_id ≡ t.last_run_id
unfolding roll_over
last_run_id-roll today t = ground arith

guard-waits :
    (limits : Limits) (now : ℕ) (run_id : String) (s : System)
    → s.trigger.last_run_id ≡ some run_id
    → is_active (get run_id s.registry) ≡ true
    → hangs limits now run_id s ≡ false
    → overlap_guard limits now s ≡ (s, false)
unfolding overlap_guard
guard-waits limits now run_id s last active fresh =
    simp (last, overlap_guard) (rw active (waits_for limits now run_id s fresh))

-- While the run that the trigger waits for is at work and has no row older than the timeout, a
-- cycle does nothing but roll the day's counters over: no mailbox is opened, no message is
-- recorded or claimed, and no run is started.
pub poll_org-waits :
    {M : Type 0} ⦃money : Money M⦄ ⦃casing : Casing⦄ (limits : Limits) (c : Cycle M) (s : System)
    (run_id : String)
    → s.trigger.last_run_id ≡ some run_id
    → is_active (get run_id s.registry) ≡ true
    → hangs limits c.now run_id s ≡ false
    → poll_org limits c s ≡ with_trigger (roll_over c.today s.trigger) s
unfolding poll_org
poll_org-waits limits c s run_id last active fresh =
    let rolled = with_trigger (roll_over c.today s.trigger) s in
    rw
      (guard-waits limits c.now run_id rolled (last_run_id-roll c.today s.trigger ∙ last) active
        fresh)
      (elim (Bool-cases (leb limits.daily_cap (roll_over c.today s.trigger).runs_today)) [
        | inl full ↦ rw full refl
        | inr free ↦ rw free refl
      ])
