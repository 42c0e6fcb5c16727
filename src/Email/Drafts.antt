-- ===== src/Email/Drafts.antt =====
-- What became of each draft, `reconcile` of ui/backend/draft_outcomes.py. The mailbox is the
-- interface `MailboxBackend`, what the connection answers during one pass; `window` is 30 days in ticks of
-- the clock. Source keys are unique in the table, so the dictionary by key is the list of rows.
pub mod Verdicts
pub mod Passes
use bestteam.Shared.{
  ℕ, zero, suc, ◌+◌, String, Option, none, some, Bool, true, false, not, ◌&&◌, ◌||◌, List, [], ◌∷◌,
  map, filter, take, drop, length, ltb, leb, nat_beq, if◌then◌else◌,
}
use bestteam.Shared.Equality.{Eq, ◌==◌, contains, nat_eq}
use bestteam.Shared.Dict.{Dict, lookup}
use bestteam.Shared.Text.{Text, text_eq, is_empty, starts_with}

pub data DraftStatus : Type 0 where
  pending sent handled unknown : DraftStatus

pub data Evidence : Type 0 where
  source_key_header in_reply_to : Evidence

pub record DraftOutcome : Type 0 where
  pub id : ℕ
  pub org_id : ℕ
  pub run_id : String
  pub source_key : Text
  pub status : DraftStatus
  pub evidence : Option Evidence
  pub origin_message_id : Option Text
  pub miss_count : ℕ
  pub created_at : ℕ
  pub checked_at : Option ℕ
  pub resolved_at : Option ℕ

-- The connection's methods that a pass calls.
pub record MailboxBackend : Type 0 where
  pub drafts_with_source_keys : List Text → List Text
  pub sent_with_source_keys : List Text → List Text
  pub message_ids_for_uids : List Text → Dict Text Text
  pub sent_replies_to : List Text → List Text

abbrev pub reconcile_batch : ℕ
reconcile_batch = 25

abbrev pub miss_threshold : ℕ
miss_threshold = 2

abbrev pub is_pending : DraftStatus → Bool
is_pending pending = true
is_pending _ = false

unfoldable pub resolve : DraftStatus → Option Evidence → ℕ → DraftOutcome → DraftOutcome
resolve status evidence now row = record row {
  status = status;
  evidence = evidence;
  checked_at = some now;
  resolved_at = some now;
}

-- `ORDER BY checked_at ASC NULLS FIRST, id ASC`
abbrev pub comes_before : DraftOutcome → DraftOutcome → Bool
comes_before a b = earlier a.checked_at b.checked_at
  where
    earlier : Option ℕ → Option ℕ → Bool
    earlier none none = leb a.id b.id
    earlier none (some u) = true
    earlier (some t) none = false
    earlier (some t) (some u) = if nat_beq t u then leb a.id b.id else ltb t u

unfoldable pub insert_ordered : DraftOutcome → List DraftOutcome → List DraftOutcome
insert_ordered r [] = r ∷ []
insert_ordered r (s ∷ rows) =
    let rest = insert_ordered r rows in if comes_before r s then r ∷ s ∷ rows else s ∷ rest

unfoldable pub ordered : List DraftOutcome → List DraftOutcome
unfolding insert_ordered
ordered [] = []
ordered (r ∷ rows) = insert_ordered r (ordered rows)

unfoldable pub is_candidate : ℕ → DraftOutcome → Bool
is_candidate org r = r.org_id == org && is_pending r.status

unfoldable pub selected : ℕ → List DraftOutcome → List DraftOutcome
selected org rows = take reconcile_batch (ordered (filter (is_candidate org) rows))

unfoldable pub is_out_of_scope : Text → ℕ → ℕ → DraftOutcome → Bool
is_out_of_scope prefix window now r =
    not (starts_with prefix r.source_key) || ltb (r.created_at + window) now

-- `not row.origin_message_id`
abbrev pub lacks_message_id : DraftOutcome → Bool
lacks_message_id r = elim r.origin_message_id [ none ↦ true | some t ↦ is_empty t ]

abbrev pub uid_of : Text → DraftOutcome → Text
uid_of prefix r = drop (length prefix) r.source_key

-- What the mailbox answered in one pass.
pub record Answers : Type 0 where
  pub still_drafts : List Text
  pub in_sent : List Text
  pub fetched : Dict Text Text
  pub replied : List Text

unfoldable pub with_message_id : Text → Answers → DraftOutcome → DraftOutcome
with_message_id prefix a r =
    if lacks_message_id r
    then elim (lookup (uid_of prefix r) a.fetched) [
      | none ↦ r
      | some t ↦ if is_empty t then r else record r { origin_message_id = some t }
    ]
    else r

-- `row.origin_message_id and row.origin_message_id in replied`
unfoldable pub is_replied : Answers → DraftOutcome → Bool
is_replied a r = elim r.origin_message_id [
  | none ↦ false
  | some t ↦ not (is_empty t) && contains t a.replied
]

unfoldable pub missed : ℕ → DraftOutcome → DraftOutcome
missed now r =
    let r' : DraftOutcome = record r { checked_at = some now; miss_count = r.miss_count + 1 } in
    if leb miss_threshold (r.miss_count + 1) then resolve handled none now r' else r'

-- The last rung, for a row with the message id that is known.
unfoldable pub reconcile_reply : Answers → ℕ → DraftOutcome → DraftOutcome
reconcile_reply a now r =
    if is_replied a r then resolve sent (some in_reply_to) now r else missed now r

unfoldable pub reconcile_row : Text → ℕ → ℕ → Answers → DraftOutcome → DraftOutcome
reconcile_row prefix window now a r =
    if is_out_of_scope prefix window now r
    then resolve unknown none now r
    else if contains r.source_key a.still_drafts
    then record r { checked_at = some now; miss_count = 0 }
    else if contains r.source_key a.in_sent
    then resolve sent (some source_key_header) now r
    else reconcile_reply a now (with_message_id prefix a r)

abbrev keys_of : List DraftOutcome → List Text
keys_of rows = map (λ r. r.source_key) rows

abbrev message_ids : List DraftOutcome → List Text
message_ids [] = []
message_ids (r ∷ rows) = elim r.origin_message_id [
  | none ↦ message_ids rows
  | some t ↦ if is_empty t then message_ids rows else t ∷ message_ids rows
]

-- The calls of one pass, each made when there is a row that it is for.
unfoldable pub ask : MailboxBackend → Text → List DraftOutcome → Answers
ask box prefix active =
    let still = if is_empty active then [] else box.drafts_with_source_keys (keys_of active) in
    let gone = filter (λ r. not (contains r.source_key still)) active in
    let in_sent = if is_empty gone then [] else box.sent_with_source_keys (keys_of gone) in
    let remaining = filter (λ r. not (contains r.source_key in_sent)) gone in
    let need = filter lacks_message_id remaining in
    let fetched =
      if is_empty need then [] else box.message_ids_for_uids (map (uid_of prefix) need) in
    let partial : Answers = record {
      still_drafts = still;
      in_sent = in_sent;
      fetched = fetched;
      replied = [];
    } in
    let known = message_ids (map (with_message_id prefix partial) remaining) in
    record partial { replied = if is_empty known then [] else box.sent_replies_to known }

unfoldable pub active_rows : Text → ℕ → ℕ → List DraftOutcome → List DraftOutcome
active_rows prefix window now rows = filter (λ r. not (is_out_of_scope prefix window now r)) rows

-- A row is of the batch when it meets the query's condition and its primary key is selected.
unfoldable pub reconcile :
    MailboxBackend → ℕ → Text → (window now : ℕ) → List DraftOutcome → List DraftOutcome
reconcile box org prefix window now rows =
    let batch = selected org rows in
    let answers = ask box prefix (active_rows prefix window now batch) in
    let ids = map (λ r. r.id) batch in
    map
      (λ r.
        if is_candidate org r && contains r.id ids
        then reconcile_row prefix window now answers r
        else r)
      rows
