-- ===== src/Access/Tickets.antt =====
-- Single-use tickets for WebSocket streams, ui/backend/ws_tickets.py. The dictionary has one
-- entry to a key; a lock makes each operation one step, with one reading of the clock. Time is in the
-- ticks of the clock, of which a ticket lives `ttl`. The random string that `issue_ticket` mints
-- is an argument.
pub mod Laws
use bestteam.Shared.{
  ℕ, ◌+◌, String, Option, none, some, Bool, true, false, not, List, [], ◌∷◌, filter, ltb,
  if◌then◌else◌,
}
use bestteam.Shared.Equality.{string_eq}
use bestteam.Shared.Dict.{Dict, lookup, remove, put}

pub record Entry : Type 0 where
  pub username : String
  pub security_stamp : Option String
  pub expires_at : ℕ

abbrev pub Tickets : Type 0
Tickets = Dict String Entry

-- The list of expired keys, then a `pop` of each.
unfoldable pub purge_expired : ℕ → Tickets → Tickets
purge_expired now [] = []
purge_expired now ((j, e) ∷ rest) =
    let left = purge_expired now rest in if ltb e.expires_at now then left else (j, e) ∷ left

unfoldable pub issue_ticket :
    (ttl now : ℕ) (ticket username : String) → Option String → Tickets → Tickets
issue_ticket ttl now ticket username stamp s =
    put ticket (record { username = username; security_stamp = stamp; expires_at = now + ttl })
      (purge_expired now s)

unfoldable pub redeem : ℕ → Option Entry → Option (String × Option String)
redeem now none = none
redeem now (some e) = if ltb e.expires_at now then none else some (e.username, e.security_stamp)

unfoldable pub consume_ticket : ℕ → String → Tickets → Tickets × Option (String × Option String)
consume_ticket now ticket s = (remove ticket s, redeem now (lookup ticket s))
