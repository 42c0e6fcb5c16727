-- ===== src/Inbox.antt =====
-- The durable inbox ledger, ui/backend/db/inbox_events.py. The table is the list of its rows in the
-- order of their ids, which are handed out in ascending order; an UPDATE is a map over the rows,
-- and a SELECT ordered by id is a filter. The callers own the transactions, so each operation is
-- one function from ledger to ledger.
pub mod Rows
pub mod WellFormed
pub mod Claims
pub mod Recording
pub mod Outcomes
pub mod Retries
pub mod Steps
pub mod Durability
mod Examples
use bestteam.Shared.{
  ℕ, zero, suc, ◌+◌, String, Option, none, some, Bool, true, false, ◌&&◌, ◌||◌, not, List, [], ◌∷◌,
  ◌++◌, map, filter, any, count_where, take, leb, if◌then◌else◌,
}
use bestteam.Shared.Equality.{Eq, ◌==◌, contains, nat_eq, string_eq}
use bestteam.Shared.Int.{ℤ, pos, negsuc}
use mathlib.Core.List.{reverse}

pub data Status : Type 0 where
  pending claimed done failed filtered : Status

abbrev pub has_status : Status → Status → Bool
has_status pending pending = true
has_status claimed claimed = true
has_status done done = true
has_status failed failed = true
has_status filtered filtered = true
has_status _ _ = false

pub record InboxEvent : Type 0 where
  pub id : ℕ
  pub org_id : ℕ
  pub connector_type : String
  pub mailbox_identity : String
  pub mailbox_generation : String
  pub external_id : String
  pub status : Status
  pub decision : Option String
  pub run_id : Option String
  pub attempts : ℕ
  pub last_error : Option String
  pub detected_at : ℕ
  pub claimed_at : Option ℕ
  pub completed_at : Option ℕ

pub record Ledger : Type 0 where
  pub rows : List InboxEvent
  pub next_id : ℕ

-- The scope of a query: one organisation's mailbox in one generation of its message ids.
pub record Mailbox : Type 0 where
  pub org_id : ℕ
  pub identity : String
  pub generation : String

abbrev pub Decisions : Type 0
Decisions = Option (List (String × String))

-- `(decisions or {}).get(external_id)`
unfoldable pub decision_for : Decisions → String → Option String
decision_for none x = none
decision_for (some []) x = none
decision_for (some ((k, v) ∷ rest)) x =
    let later = decision_for (some rest) x in if k == x then some v else later

abbrev pub update :
    (InboxEvent → Bool) → (InboxEvent → InboxEvent) → List InboxEvent → List InboxEvent
update p f rows = map (λ e. if p e then f e else e) rows

-- The unique key of the table.
unfoldable pub same_identity : InboxEvent → InboxEvent → Bool
same_identity a b =
    a.org_id == b.org_id
    && a.connector_type == b.connector_type
    && a.mailbox_identity == b.mailbox_identity
    && a.mailbox_generation == b.mailbox_generation
    && a.external_id == b.external_id

unfoldable pub new_event : Mailbox → String → Decisions → ℕ → ℕ → String → InboxEvent
new_event m connector decisions now id x = record {
  id = id;
  org_id = m.org_id;
  connector_type = connector;
  mailbox_identity = m.identity;
  mailbox_generation = m.generation;
  external_id = x;
  status = elim (decision_for decisions x) [ none ↦ pending | some d ↦ filtered ];
  decision = decision_for decisions x;
  run_id = none;
  attempts = 0;
  last_error = none;
  detected_at = now;
  claimed_at = none;
  completed_at = none;
}

-- One row of the INSERT: a conflict on the unique key does nothing and counts nothing.
unfoldable pub insert_row : InboxEvent → Ledger → Ledger × ℕ
insert_row e s =
    if any (same_identity e) s.rows
    then (s, 0)
    else (record { rows = s.rows ++ e ∷ []; next_id = suc s.next_id }, 1)

unfoldable pub record_events : Mailbox → String → Decisions → ℕ → List String → Ledger → Ledger × ℕ
record_events m connector decisions now [] s = (s, 0)
record_events m connector decisions now (x ∷ xs) s =
    let (s', n) = insert_row (new_event m connector decisions now s.next_id x) s in
    let (s'', k) = record_events m connector decisions now xs s' in (s'', n + k)

unfoldable pub claimable : Mailbox → InboxEvent → Bool
claimable m e =
    e.org_id == m.org_id
    && has_status pending e.status
    && e.mailbox_identity == m.identity
    && e.mailbox_generation == m.generation

-- A null `run_id` is equal to nothing.
abbrev pub in_run : String → Option String → Bool
in_run run none = false
in_run run (some r) = r == run

unfoldable pub claimed_by : String → InboxEvent → Bool
claimed_by run e = in_run run e.run_id && has_status claimed e.status

unfoldable pub claimed_events : String → Ledger → List InboxEvent
claimed_events run s = filter (claimed_by run) s.rows

unfoldable pub oldest_pending : Mailbox → ℕ → Ledger → List ℕ
oldest_pending m n s = take n (map (λ e. e.id) (filter (claimable m) s.rows))

unfoldable pub claim_row : String → ℕ → InboxEvent → InboxEvent
claim_row run now e = record e { status = claimed; run_id = some run; claimed_at = some now }

unfoldable pub claim_events : Mailbox → String → ℕ → ℤ → Ledger → Ledger × List InboxEvent
claim_events m run now (negsuc k) s = (s, [])
claim_events m run now (pos zero) s = (s, [])
claim_events m run now (pos (suc n)) s =
    let ids = oldest_pending m (suc n) s in
    let s' = record s { rows = update (λ e. contains e.id ids) (claim_row run now) s.rows } in
    (s', claimed_events run s')

unfoldable pub has_pending_events : Mailbox → Ledger → Bool
has_pending_events m s = any (claimable m) s.rows

unfoldable pub superseded : ℕ → String → Option String → InboxEvent → Bool
superseded org identity generation e =
    e.org_id == org
    && (has_status pending e.status || has_status filtered e.status)
    && (not (e.mailbox_identity == identity)
        || elim generation [ none ↦ false | some g ↦ not (e.mailbox_generation == g) ])

abbrev pub superseded_message : String
superseded_message = "The mailbox was replaced or rebuilt before this message was processed."

unfoldable pub abandon_row : ℕ → InboxEvent → InboxEvent
abandon_row now e = record e {
  status = failed;
  last_error = some superseded_message;
  completed_at = some now;
}

unfoldable pub abandon_superseded_events : ℕ → String → Option String → ℕ → Ledger → Ledger × ℕ
abandon_superseded_events org identity generation now s = (
  record s { rows = update (superseded org identity generation) (abandon_row now) s.rows },
  count_where (superseded org identity generation) s.rows,
)

unfoldable pub mark_dispatched : String → Ledger → Ledger
mark_dispatched run s = record s {
  rows = update (claimed_by run) (λ e. record e { attempts = e.attempts + 1 }) s.rows;
}

-- The loop body of `complete_events`.
unfoldable pub complete_row : List String → Option String → ℕ → InboxEvent → InboxEvent
complete_row done_ids error now e =
    if contains e.external_id done_ids
    then record e { status = done; last_error = none; completed_at = some now }
    else record e { status = failed; last_error = error; completed_at = some now }

unfoldable pub complete_events : String → List String → Option String → ℕ → Ledger → Ledger
complete_events run done_ids error now s = record s {
  rows = update (claimed_by run) (complete_row done_ids error now) s.rows;
}

-- The two outcomes of the loop body of `release_events`.
unfoldable pub release_row : ℕ → Option String → ℕ → InboxEvent → InboxEvent
release_row max_attempts error now e =
    if leb max_attempts e.attempts
    then record e { status = failed; last_error = error; completed_at = some now }
    else record e { status = pending; run_id = none; claimed_at = none; last_error = error }

unfoldable pub release_events : String → ℕ → Option String → ℕ → Ledger → Ledger × ℕ
release_events run max_attempts error now s = (
  record s { rows = update (claimed_by run) (release_row max_attempts error now) s.rows },
  count_where (λ e. leb max_attempts e.attempts) (claimed_events run s),
)

unfoldable pub failed_in : String → InboxEvent → Bool
failed_in run e = in_run run e.run_id && has_status failed e.status

unfoldable pub is_retried : List String → List String → InboxEvent → Bool
is_retried retry done_ids e =
    if contains e.external_id done_ids then false else contains e.external_id retry

unfoldable pub retry_row : String → List String → List String → ℕ → InboxEvent → InboxEvent
retry_row to_run retry done_ids now e =
    if contains e.external_id done_ids
    then record e { status = done; last_error = none; completed_at = some now }
    else if contains e.external_id retry
    then record e {
      run_id = some to_run;
      status = claimed;
      claimed_at = some now;
      completed_at = none;
      attempts = 0;
      last_error = none;
    }
    else e

unfoldable pub resolve_retry_events :
    String → String → List String → List String → ℕ → Ledger → Ledger × ℕ
resolve_retry_events from_run to_run retry done_ids now s = (
  record s { rows = update (failed_in from_run) (retry_row to_run retry done_ids now) s.rows },
  count_where (is_retried retry done_ids) (filter (failed_in from_run) s.rows),
)

unfoldable pub list_filtered_events : ℕ → ℕ → Ledger → List InboxEvent
list_filtered_events org limit s =
    take limit (reverse (filter (λ e. e.org_id == org && has_status filtered e.status) s.rows))

unfoldable pub releasable : ℕ → ℕ → InboxEvent → Bool
releasable org id e = e.id == id && e.org_id == org && has_status filtered e.status

unfoldable pub release_filtered_event : ℕ → ℕ → Ledger → Ledger × Bool
release_filtered_event org id s = (
  record s {
    rows =
        update (releasable org id)
          (λ e. record e { status = pending; decision = none; run_id = none }) s.rows;
  },
  any (releasable org id) s.rows,
)
