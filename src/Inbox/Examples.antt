-- ===== src/Inbox/Examples.antt =====
-- A ledger through a day of ui/backend/db/inbox_events.py: three scanned messages, one of them
-- filtered, a run that claims two, and what becomes of them.
use bestteam.Shared.{
  ℕ, ◌+◌, min, String, true, Option, none, some, List, [], ◌∷◌, ◌++◌, map, length, count_where, All,
  ◌≡◌, ◌≢◌, refl, arith,
}
use bestteam.Shared.Int.{clamp_zero, pos}
use bestteam.Shared.Equality.{contains, ne_of_==, string_eq}
use bestteam.Inbox.{
  done, failed, filtered, InboxEvent, Ledger, Mailbox, Decisions, decision_for, same_identity,
  new_event, insert_row, record_events, claimable, claimed_by, claimed_events, oldest_pending,
  claim_row, claim_events, abandon_superseded_events, complete_row, complete_events, release_events,
  failed_in, is_retried, retry_row, resolve_retry_events, releasable, release_filtered_event,
}
use bestteam.Inbox.WellFormed.{IsWellFormed}
use bestteam.Inbox.Claims.{
  claim_events-count, first_matching, claim_events-first_matching, claim_events-exclusive,
}
use bestteam.Inbox.Recording.{IsKnown, record_events-durable}
use bestteam.Inbox.Outcomes.{
  is_pending, is_done, is_failed, has_evidence, lacks_evidence, complete_events-settles,
  release_events-settles, used_up,
}
use bestteam.Inbox.Steps.{Reach, here, next, record_scan, claim, complete, Reach-IsWellFormed}
use bestteam.Inbox.Durability.{Extends, Reach-Extends}

abbrev first_run : String
first_run = "run-1"

abbrev second_run : String
second_run = "run-2"

abbrev no_generation : Option String
no_generation = none

abbrev sales : Mailbox
sales = record { org_id = 1; identity = "sales@example.org"; generation = "7" }

abbrev info : Mailbox
info = record { org_id = 1; identity = "info@example.org"; generation = "8" }

abbrev no_rows : Ledger
no_rows = record { rows = []; next_id = 1 }

abbrev rules : Decisions
rules = some (("12", "bulk:list-id") ∷ [])

abbrev ids : List String
ids = "11" ∷ "12" ∷ "13" ∷ []

abbrev scanned : Ledger
scanned = (record_events sales "email" rules 5 ids no_rows).0

abbrev taken : Ledger
taken = (claim_events sales first_run 6 (pos 2) scanned).0

abbrev answered : Ledger
answered = complete_events first_run ("11" ∷ []) (some "no draft") 8 taken

no_rows-IsWellFormed : IsWellFormed 3 no_rows
no_rows-IsWellFormed = record { consistent = tt; keyed = tt }

scanned-Reach : Reach 3 no_rows scanned
scanned-Reach = next here (record_scan sales "email" rules 5 ids)

answered-Reach : Reach 3 no_rows answered
answered-Reach =
    next (next scanned-Reach (claim sales first_run 6 (pos 2)))
      (complete first_run ("11" ∷ []) (some "no draft") 8)

scanned-IsWellFormed : IsWellFormed 3 scanned
scanned-IsWellFormed = Reach-IsWellFormed 3 (omega arith) no_rows-IsWellFormed scanned-Reach

Reach-IsWellFormed_example : IsWellFormed 3 answered
Reach-IsWellFormed_example = Reach-IsWellFormed 3 (omega arith) no_rows-IsWellFormed answered-Reach

Reach-Extends_example : Extends scanned.rows answered.rows
Reach-Extends_example = Reach-Extends 3 (omega arith) scanned-IsWellFormed (
    next (next here (claim sales first_run 6 (pos 2)))
      (complete first_run ("11" ∷ []) (some "no draft") 8))

claim_events-count_example :
    (count_where (claimed_by first_run) taken.rows
      ≡ count_where (claimed_by first_run) scanned.rows
        + min 2 (count_where (claimable sales) scanned.rows))
    × (count_where (claimable sales) taken.rows + min 2 (count_where (claimable sales) scanned.rows)
        ≡ count_where (claimable sales) scanned.rows)
claim_events-count_example =
    claim_events-count 3 sales first_run 6 (pos 2) scanned scanned-IsWellFormed

claim_events-first_matching_example :
    taken.rows
    ≡ first_matching (claimable sales) (claim_row first_run 6) (clamp_zero (pos 2)) scanned.rows
claim_events-first_matching_example =
    claim_events-first_matching 3 sales first_run 6 (pos 2) scanned scanned-IsWellFormed

runs_differ : first_run ≢ second_run
runs_differ = ne_of_== first_run second_run refl

claim_events-exclusive_example : claimed_events second_run taken ≡ claimed_events second_run scanned
claim_events-exclusive_example =
    claim_events-exclusive 3 sales first_run second_run 6 (pos 2) scanned scanned-IsWellFormed
      runs_differ

record_events-durable_example :
    All (IsKnown sales "email" scanned) ids
    × ((new : List InboxEvent) × (scanned.rows ≡ no_rows.rows ++ new)
        × (length new ≡ (record_events sales "email" rules 5 ids no_rows).1))
record_events-durable_example = record_events-durable sales "email" rules 5 ids no_rows

complete_events-settles_example :
    (claimed_events first_run answered ≡ [])
    × (count_where is_done answered.rows
        ≡ count_where is_done taken.rows
          + count_where (has_evidence first_run ("11" ∷ []) (some "no draft") 8) taken.rows)
    × (count_where is_failed answered.rows
        ≡ count_where is_failed taken.rows
          + count_where (lacks_evidence first_run ("11" ∷ []) (some "no draft") 8) taken.rows)
complete_events-settles_example =
    complete_events-settles first_run ("11" ∷ []) (some "no draft") 8 taken

abbrev given_back : Ledger × ℕ
given_back = release_events first_run 3 (some "refused") 8 taken

release_events-settles_example :
    (claimed_events first_run given_back.0 ≡ [])
    × (given_back.1 ≡ used_up first_run 3 taken.rows)
    × (count_where is_pending given_back.0.rows + used_up first_run 3 taken.rows
        ≡ count_where is_pending taken.rows + count_where (claimed_by first_run) taken.rows)
    × (count_where is_failed given_back.0.rows
        ≡ count_where is_failed taken.rows + used_up first_run 3 taken.rows)
release_events-settles_example = release_events-settles first_run 3 (some "refused") 8 taken

abbrev again : Ledger × ℕ
again = resolve_retry_events first_run second_run ids ("11" ∷ []) 9 answered

abbrev moved : Ledger × ℕ
moved = abandon_superseded_events 1 "info@example.org" no_generation 9 scanned

program : Unit {0}
unfolding record_events insert_row new_event decision_for same_identity claim_events oldest_pending
    claimable claim_row complete_events complete_row claimed_by resolve_retry_events is_retried
    retry_row failed_in contains release_filtered_event releasable
program = tt

statuses : map (λ e. e.status) answered.rows ≡ done ∷ filtered ∷ failed ∷ []
unfolding program
statuses = refl

moved_to_retry : again.1 ≡ 1
unfolding program
moved_to_retry = refl

released : (release_filtered_event 1 2 scanned).1 ≡ true
unfolding program
released = refl
