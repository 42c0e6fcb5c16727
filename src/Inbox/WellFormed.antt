-- ===== src/Inbox/WellFormed.antt =====
-- The shape of a row of ui/backend/db/inbox_events.py in each status, and the keys of the table.
use bestteam.Shared.{
  ℕ, ◌<◌, String, Bool, true, Option, none, List, [], ◌∷◌, ◌≡◌, ◌≢◌, sym, subst, ◌⊎◌, arith, All,
  is_some,
}
use bestteam.Inbox.{
  Status, pending, claimed, done, failed, filtered, InboxEvent, Ledger, update, claim_row,
  abandon_row, complete_row, release_row, retry_row, claimed_by, superseded, failed_in,
}
use bestteam.Inbox.Rows.{Identity, key_of, keys, keys-update, All-update}

-- What the columns hold in each status. `max_attempts` is the dead-letter budget.
abbrev pub HasShape : ℕ → Status → InboxEvent → Type 0
HasShape max_attempts pending e =
    (e.run_id ≡ none)
    × (e.claimed_at ≡ none)
    × (e.completed_at ≡ none)
    × (e.decision ≡ none)
    × (e.attempts < max_attempts)
HasShape max_attempts filtered e =
    (e.run_id ≡ none)
    × (e.claimed_at ≡ none)
    × (e.completed_at ≡ none)
    × (is_some e.decision ≡ true)
    × (e.attempts < max_attempts)
HasShape max_attempts claimed e =
    (is_some e.run_id ≡ true)
    × (is_some e.claimed_at ≡ true)
    × (e.completed_at ≡ none)
    × (e.decision ≡ none)
HasShape max_attempts done e =
    (is_some e.run_id ≡ true)
    × (is_some e.claimed_at ≡ true)
    × (is_some e.completed_at ≡ true)
    × (e.decision ≡ none)
HasShape max_attempts failed e =
    (is_some e.completed_at ≡ true)
    × ((is_some e.run_id ≡ true) × (is_some e.claimed_at ≡ true) × (e.decision ≡ none)
        ⊎ (e.run_id ≡ none) × (e.claimed_at ≡ none))

abbrev pub IsConsistent : ℕ → InboxEvent → Type 0
IsConsistent max_attempts e = HasShape max_attempts e.status e

-- Ids ascend below `next`, and no two rows have one identity.
abbrev pub AreKeys : ℕ → List (ℕ × Identity) → Type 0
AreKeys next [] = Unit
AreKeys next (k ∷ ks) = (k.0 < next) × All (λ j. (k.0 < j.0) × (k.1 ≢ j.1)) ks × AreKeys next ks

pub record IsWellFormed (max_attempts : ℕ) (s : Ledger) : Type 0 where
  pub consistent : All (IsConsistent max_attempts) s.rows
  pub keyed : AreKeys s.next_id (keys s.rows)

module _ (max_attempts : ℕ) where
  -- An update that leaves the keys alone and sends hit rows to rows of the right shape.
  pub update-IsWellFormed :
      (p : InboxEvent → Bool) (f : InboxEvent → InboxEvent) (s : Ledger)
      → ((e : InboxEvent) → key_of (f e) ≡ key_of e)
      → ((e : InboxEvent)
          → p e ≡ true
          → IsConsistent max_attempts e
          → IsConsistent max_attempts (f e))
      → IsWellFormed max_attempts s
      → IsWellFormed max_attempts (record s { rows = update p f s.rows })
  update-IsWellFormed p f s kept shaped w = record {
    consistent = All-update (IsConsistent max_attempts) p f s.rows shaped w.consistent;
    keyed = subst (AreKeys s.next_id) (sym (keys-update p f s.rows kept)) w.keyed;
  }

  pub claim_row-IsConsistent :
      (run : String) (now : ℕ) (e : InboxEvent)
      → e.status ≡ pending
      → IsConsistent max_attempts e
      → IsConsistent max_attempts (claim_row run now e)
  unfolding claim_row
  claim_row-IsConsistent run now e h w = ground arith

  pub abandon_row-IsConsistent :
      (org : ℕ) (identity : String) (generation : Option String) (now : ℕ) (e : InboxEvent)
      → superseded org identity generation e ≡ true
      → IsConsistent max_attempts e
      → IsConsistent max_attempts (abandon_row now e)
  unfolding abandon_row superseded
  abandon_row-IsConsistent org identity generation now e h w = ground arith

  pub complete_row-IsConsistent :
      (run : String) (done_ids : List String) (error : Option String) (now : ℕ) (e : InboxEvent)
      → claimed_by run e ≡ true
      → IsConsistent max_attempts e
      → IsConsistent max_attempts (complete_row done_ids error now e)
  unfolding complete_row claimed_by
  complete_row-IsConsistent run done_ids error now e h w = ground arith

  pub release_row-IsConsistent :
      (run : String) (error : Option String) (now : ℕ) (e : InboxEvent)
      → claimed_by run e ≡ true
      → IsConsistent max_attempts e
      → IsConsistent max_attempts (release_row max_attempts error now e)
  unfolding release_row claimed_by
  release_row-IsConsistent run error now e h w = ground arith

  pub retry_row-IsConsistent :
      (from_run to_run : String) (retry done_ids : List String) (now : ℕ) (e : InboxEvent)
      → failed_in from_run e ≡ true
      → IsConsistent max_attempts e
      → IsConsistent max_attempts (retry_row to_run retry done_ids now e)
  unfolding retry_row failed_in
  retry_row-IsConsistent from_run to_run retry done_ids now e h w = ground arith
