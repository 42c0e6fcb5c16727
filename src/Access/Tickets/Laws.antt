-- ===== src/Access/Tickets/Laws.antt =====
-- `issue_ticket` and `consume_ticket` of ui/backend/ws_tickets.py, one after the other.
use bestteam.Shared.{
  ℕ, ◌+◌, ◌≤◌, String, Option, none, some, [], ◌∷◌, ◌≡◌, ◌≢◌, refl, arith, ltb, if◌then◌else◌,
}
use bestteam.Shared.Equality.{string_eq, ==-self, ==_of_ne}
use bestteam.Shared.Dict.{
  lookup, lookup-remove, lookup-put, HasDistinctKeys, remove-HasDistinctKeys, put-HasDistinctKeys,
}
use text.Mathlib.TextEquality.{eq_iff}
use bestteam.Access.Tickets.{Entry, Tickets, purge_expired, issue_ticket, redeem, consume_ticket}

-- A purge drops the expired entries and no other.
abbrev live : ℕ → Option Entry → Option Entry
live now none = none
live now (some e) = if ltb e.expires_at now then none else some e

lookup-purge :
    (now : ℕ) (j : String) (s : Tickets)
    → HasDistinctKeys s
    → lookup j (purge_expired now s) ≡ live now (lookup j s)
unfolding lookup purge_expired
lookup-purge now j [] h = refl
lookup-purge now j ((i, e) ∷ rest) h = ground (arith, lookup-purge now j rest h.1, eq_iff i j, h.0)

purge-HasDistinctKeys :
    (now : ℕ) (s : Tickets) → HasDistinctKeys s → HasDistinctKeys (purge_expired now s)
unfolding purge_expired
purge-HasDistinctKeys now [] h = tt
purge-HasDistinctKeys now ((i, e) ∷ rest) h =
    ground (arith, purge-HasDistinctKeys now rest h.1, lookup-purge now i rest h.1)

-- Both operations keep the dictionary one with distinct keys.
pub tickets-HasDistinctKeys :
    (ttl now : ℕ) (ticket username : String) (stamp : Option String) (s : Tickets)
    → HasDistinctKeys s
    → HasDistinctKeys (issue_ticket ttl now ticket username stamp s)
      × HasDistinctKeys (consume_ticket now ticket s).0
unfolding issue_ticket consume_ticket
tickets-HasDistinctKeys ttl now ticket username stamp s h =
    let purged = purge-HasDistinctKeys now s h in
    (put-HasDistinctKeys ticket _ (purge_expired now s) purged, remove-HasDistinctKeys ticket s h)

-- A ticket that was just issued redeems for its user and stamp at any moment up to the end of its
-- life, and for nothing after that.
consume-issue :
    (ttl now later : ℕ) (ticket username : String) (stamp : Option String) (s : Tickets)
    → (consume_ticket later ticket (issue_ticket ttl now ticket username stamp s)).1
      ≡ (if ltb (now + ttl) later then none else some (username, stamp))
unfolding issue_ticket consume_ticket redeem
consume-issue ttl now later ticket username stamp s =
    rw (lookup-put ticket ticket, ==-self ticket) (ground arith)

-- Once looked up, a ticket redeems for nothing, whenever and however often it is tried again.
consume-again :
    (now later : ℕ) (ticket : String) (s : Tickets)
    → (consume_ticket later ticket (consume_ticket now ticket s).0).1 ≡ none
unfolding consume_ticket redeem
consume-again now later ticket s =
    ground (arith, lookup-remove ticket ticket s, eq_iff ticket ticket)

-- When no key has two entries, issuing a ticket and consuming it leave what another ticket redeems
-- for, at the same moment or later, as it was.
other_tickets :
    (ttl now later : ℕ) (ticket other username : String) (stamp : Option String) (s : Tickets)
    → HasDistinctKeys s
    → ticket ≢ other
    → now ≤ later
    → ((consume_ticket later other (issue_ticket ttl now ticket username stamp s)).1
        ≡ (consume_ticket later other s).1)
      × ((consume_ticket later other (consume_ticket now ticket s).0).1
          ≡ (consume_ticket later other s).1)
unfolding issue_ticket consume_ticket redeem
other_tickets ttl now later ticket other username stamp s h d le = (
  rw (lookup-put ticket other, ==_of_ne ticket other d, lookup-purge now other s h) (ground arith),
  ground (arith, lookup-remove ticket other s, eq_iff ticket other),
)
