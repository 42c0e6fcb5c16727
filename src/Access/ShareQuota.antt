-- ===== src/Access/ShareQuota.antt =====
-- Share links and their sessions, ui/backend/db/share_links.py and ui/backend/db/share_sessions.py:
-- the table of links, and the daily quota of turns that both tables keep in the same two columns;
-- with the checks of `send_share_message` in ui/backend/share_chat.py that use it. An UPDATE with a
-- WHERE clause is a map over the rows with the number of rows it matched. The random token, the id
-- and the day are arguments, and so is what the message table answers.
pub mod Tables
pub mod Daily
pub mod Gate
pub mod Charges
use bestteam.Shared.{
  ℕ, suc, ◌+◌, ◌-◌, String, Option, none, some, Bool, true, false, ◌&&◌, not, List, [], ◌∷◌, ◌++◌,
  map, filter, count_where, ltb, if◌then◌else◌,
}
use bestteam.Shared.Equality.{Eq, ◌==◌, nat_eq, string_eq}
use bestteam.Shared.Int.{ℤ, pos, negsuc}

pub record ShareLink : Type 0 where
  pub id : ℕ
  pub pipeline_id : ℕ
  pub org_id : ℕ
  pub created_by : ℕ
  pub token : String
  pub active : Bool
  pub daily_cap : ℤ
  pub expires_at : Option ℕ
  pub turns_today : ℕ
  pub turns_date : Option String

pub record ShareSession : Type 0 where
  pub id : ℕ
  pub share_link_id : ℕ
  pub session_token : String
  pub turns_today : ℕ
  pub turns_date : Option String
  pub last_active_at : ℕ

-- `UPDATE ... WHERE p` with the rows that it matched.
abbrev pub update_where {ℓ} : {A : Type ℓ} → (A → Bool) → (A → A) → List A → List A × ℕ
update_where p f rows = (map (λ r. if p r then f r else r) rows, count_where p rows)

-- `turns_date IS NULL OR turns_date != today`
abbrev pub is_stale : String → Option String → Bool
is_stale today none = true
is_stale today (some d) = not (d == today)

-- `turns_today < daily_cap`
abbrev pub below_cap : ℕ → ℤ → Bool
below_cap n (pos cap) = ltb n cap
below_cap n (negsuc k) = false

unfoldable pub create_share_link :
    ℕ → ℕ → ℕ → ℤ → Option ℕ → String → ℕ → List ShareLink → List ShareLink × ShareLink
create_share_link pipeline org creator cap expires token id rows =
    let link : ShareLink = record {
      id = id;
      pipeline_id = pipeline;
      org_id = org;
      created_by = creator;
      token = token;
      active = true;
      daily_cap = cap;
      expires_at = expires;
      turns_today = 0;
      turns_date = none;
    } in
    (rows ++ link ∷ [], link)

-- `one_or_none()` on a unique column.
abbrev first {ℓ} : {A : Type ℓ} → (A → Bool) → List A → Option A
first p [] = none
first p (x ∷ xs) = let rest = first p xs in if p x then some x else rest

unfoldable pub get_share_link_by_token : String → List ShareLink → Option ShareLink
get_share_link_by_token token rows = first (λ l. l.token == token) rows

unfoldable pub get_share_link : ℕ → ℕ → List ShareLink → Option ShareLink
get_share_link id org rows = first (λ l. l.id == id && l.org_id == org) rows

-- The value that a patch leaves in the column of the expiry.
abbrev patched_expiry : Option ℕ → Option ℕ → Bool → Option ℕ
patched_expiry old new true = none
patched_expiry old none false = old
patched_expiry old (some t) false = some t

abbrev with_default {ℓ} : {A : Type ℓ} → Option A → A → A
with_default none a = a
with_default (some b) a = b

unfoldable pub patch_share_link :
    ℕ → Option Bool → Option ℤ → Option ℕ → Bool → List ShareLink → List ShareLink
patch_share_link id active cap expires clear_expiry rows =
    map
      (λ l.
        if l.id == id
        then record l {
          active = with_default active l.active;
          daily_cap = with_default cap l.daily_cap;
          expires_at = patched_expiry l.expires_at expires clear_expiry;
        }
        else l)
      rows

unfoldable pub count_active_share_links : ℕ → List ShareLink → ℕ
count_active_share_links pipeline rows =
    count_where (λ l. l.pipeline_id == pipeline && l.active) rows

-- The two statements of `try_consume_link_turn`.
unfoldable pub reset_link : ℕ → String → List ShareLink → List ShareLink
reset_link id today rows =
    (update_where (λ l. l.id == id && is_stale today l.turns_date)
      (λ l. record l { turns_today = 0; turns_date = some today }) rows).0

unfoldable pub advance_link : ℕ → ℤ → List ShareLink → List ShareLink × ℕ
advance_link id cap rows =
    update_where (λ l. l.id == id && below_cap l.turns_today cap)
      (λ l. record l { turns_today = suc l.turns_today }) rows

unfoldable pub try_consume_link_turn : ℕ → String → ℤ → List ShareLink → List ShareLink × Bool
try_consume_link_turn id today cap rows =
    let (rows', advanced) = advance_link id cap (reset_link id today rows) in
    (rows', ltb 0 advanced)

-- The two statements of `try_consume_turn`. Every UPDATE of a session writes `last_active_at`, which
-- ui/backend/db/models.py declares with `onupdate`.
unfoldable pub reset_session : ℕ → String → ℕ → List ShareSession → List ShareSession
reset_session id today now rows =
    (update_where (λ s. s.id == id && is_stale today s.turns_date)
      (λ s. record s { turns_today = 0; turns_date = some today; last_active_at = now }) rows).0

unfoldable pub advance_session : ℕ → ℤ → ℕ → List ShareSession → List ShareSession × ℕ
advance_session id cap now rows =
    update_where (λ s. s.id == id && below_cap s.turns_today cap)
      (λ s. record s { turns_today = suc s.turns_today; last_active_at = now }) rows

unfoldable pub try_consume_turn : ℕ → String → ℤ → ℕ → List ShareSession → List ShareSession × Bool
try_consume_turn id today cap now rows =
    let (rows', advanced) = advance_session id cap now (reset_session id today now rows) in
    (rows', ltb 0 advanced)

-- `turns_today > 0`, and the decrement that it guards.
abbrev pub is_charged : ℕ → Bool
is_charged n = ltb 0 n

-- `_refund_link_turn` of ui/backend/share_chat.py
unfoldable pub refund_link_turn : ℕ → List ShareLink → List ShareLink
refund_link_turn id rows =
    (update_where (λ l. l.id == id && is_charged l.turns_today)
      (λ l. record l { turns_today = l.turns_today - 1 }) rows).0

-- The refund of a session's turn in `send_share_message`.
unfoldable pub refund_session_turn : ℕ → ℕ → List ShareSession → List ShareSession
refund_session_turn id now rows =
    (update_where (λ s. s.id == id && is_charged s.turns_today)
      (λ s. record s { turns_today = s.turns_today - 1; last_active_at = now }) rows).0

pub data Verdict : Type 0 where
  accepted link_exhausted turn_pending session_exhausted turn_collided : Verdict

pub record Visit : Type 0 where
  pub link_id : ℕ
  pub session_id : ℕ
  pub today : String
  pub now : ℕ
  pub daily_cap : ℤ
  -- What `_has_pending_turn` answers, and whether `append_message` stores the message.
  pub is_pending : Bool
  pub is_stored : Bool

-- The quota checks of `send_share_message`, from the link's turn to the stored message, with the
-- refunds of its error paths.
unfoldable pub send_gate :
    Visit → List ShareLink → List ShareSession → List ShareLink × List ShareSession × Verdict
send_gate v links sessions =
    let (links', link_ok) = try_consume_link_turn v.link_id v.today v.daily_cap links in
    let (sessions', session_ok) =
      try_consume_turn v.session_id v.today v.daily_cap v.now sessions in
    if not link_ok
    then (links', sessions, link_exhausted)
    else if v.is_pending
    then (refund_link_turn v.link_id links', sessions, turn_pending)
    else if not session_ok
    then (refund_link_turn v.link_id links', sessions', session_exhausted)
    else if v.is_stored
    then (links', sessions', accepted)
    else (
      refund_link_turn v.link_id links',
      refund_session_turn v.session_id v.now sessions',
      turn_collided,
    )
