-- ===== src/Access/Examples.antt =====
-- Small inputs for ui/backend/ws_tickets.py, ui/backend/login_rate_limit.py and the quota of
-- ui/backend/share_chat.py.
use bestteam.Shared.{
  ℕ, ◌-◌, ◌<◌, min, String, true, false, Option, none, some, List, [], ◌∷◌, All, ◌≡◌, ◌≢◌, refl,
  arith, if◌then◌else◌,
}
use bestteam.Shared.Int.{pos}
use bestteam.Shared.Equality.{◌==◌, contains, ne_of_==, string_eq}
use bestteam.Shared.Dict.{lookup, remove, put, HasDistinctKeys}
use bestteam.Access.Tickets.{Tickets, issue_ticket}
use bestteam.Access.Tickets.Laws.{tickets-HasDistinctKeys}
use bestteam.Access.LoginLimiter.{
  Key, user, address, key_eq, Config, Limiter, fresh, limit_for, drop_expired, prune, prune_found,
  wait_of, check_keys, append_attempt, append_all, store_pruned, sweep, prune_all, retry_after,
  reserve, record_success,
}
use bestteam.Access.LoginLimiter.Windows.{live_window}
use bestteam.Access.LoginLimiter.Admission.{AreDistinct}
use bestteam.Access.LoginLimiter.Bounds.{IsBounded, reserve-IsBounded, reserve-retry}
use bestteam.Access.LoginLimiter.Success.{success-reserve}
use bestteam.Access.ShareQuota.{ShareLink, ShareSession, Visit, Verdict, send_gate}
use bestteam.Access.ShareQuota.Tables.{IsKeyed}
use bestteam.Access.ShareQuota.Daily.{used_on, granted, granted_lem}
use bestteam.Access.ShareQuota.Charges.{IsCharged, send_gate-charges}

abbrev no_tickets : Tickets
no_tickets = []

abbrev stamp : Option String
stamp = some "s1"

abbrev one_ticket : Tickets
one_ticket = issue_ticket 30 100 "t1" "ada" stamp no_tickets

one_ticket-HasDistinctKeys : HasDistinctKeys one_ticket
one_ticket-HasDistinctKeys = (tickets-HasDistinctKeys 30 100 "t1" "ada" stamp no_tickets tt).0

tickets_differ : ◌≢◌ {A = String} "t2" "t1"
tickets_differ = ne_of_== {A = String} "t2" "t1" refl

abbrev limits : Config
limits = record { username_limit = 1; ip_limit = 2; window = 600; per_second = 10 }

abbrev attempt : List Key
attempt = user "ada" ∷ address "10.0.0.1" ∷ []

positive : All (λ key. 0 < limit_for limits key) attempt
unfolding limit_for
positive = (omega arith, (omega arith, tt))

distinct : AreDistinct attempt
unfolding contains
distinct = (refl, (refl, tt))

fresh-IsBounded : IsBounded limits fresh
unfolding lookup limit_for
fresh-IsBounded (user d) = omega arith
fresh-IsBounded (address a) = omega arith

abbrev tried : Limiter
tried = (reserve limits attempt 1000 fresh).0

tried-IsBounded : IsBounded limits tried
tried-IsBounded = reserve-IsBounded limits attempt 1000 fresh positive distinct fresh-IsBounded

reserve-IsBounded_example : IsBounded limits (reserve limits attempt 1100 tried).0
reserve-IsBounded_example =
    reserve-IsBounded limits attempt 1100 tried positive distinct tried-IsBounded

refused : (reserve limits attempt 1100 tried).1 ≡ some 50
unfolding reserve check_keys prune prune_found drop_expired lookup put remove store_pruned wait_of
    limit_for append_all append_attempt sweep prune_all retry_after
refused = refl

reserve-retry_example : (reserve limits attempt 1600 (reserve limits attempt 1100 tried).0).1 ≡ none
reserve-retry_example =
    reserve-retry limits attempt 1100 1600 50 tried (omega arith) positive tried-IsBounded refused
      (omega arith)

admitted : (reserve limits attempt 1000 fresh).1 ≡ none
unfolding reserve check_keys prune prune_found lookup wait_of
admitted = refl

success-reserve_example :
    live_window limits 1000 (address "10.0.0.1") (record_success attempt tried).failures ≡ (
      if user "ada" == address "10.0.0.1"
      then []
      else live_window limits 1000 (address "10.0.0.1") fresh.failures)
success-reserve_example =
    success-reserve limits (user "ada") (address "10.0.0.1" ∷ []) 1000 fresh (address "10.0.0.1")
      (omega arith) distinct admitted

abbrev link : ℕ → ℕ → ShareLink
link id used = record {
  id = id;
  pipeline_id = 1;
  org_id = 1;
  created_by = 1;
  token = "tok";
  active = true;
  daily_cap = pos 3;
  expires_at = none;
  turns_today = used;
  turns_date = some "2026-11-26";
}

abbrev session : ShareSession
session = record {
  id = 5;
  share_link_id = 2;
  session_token = "s";
  turns_today = 1;
  turns_date = none;
  last_active_at = 0;
}

abbrev visit : Visit
visit = record {
  link_id = 2;
  session_id = 5;
  today = "2026-11-26";
  now = 7;
  daily_cap = pos 3;
  is_pending = false;
  is_stored = false;
}

link-IsKeyed : IsKeyed (λ l. l.id) 2 (link 1 0 ∷ []) (link 2 1) []
link-IsKeyed = record { above_others = (refl, tt); below_others = tt; keyed = refl }

session-IsKeyed : IsKeyed (λ s. s.id) 5 [] session []
session-IsKeyed = record { above_others = tt; below_others = tt; keyed = refl }

granted_lem_example :
    granted 5 2 "2026-11-26" (pos 3) (link 1 0 ∷ link 2 1 ∷ [])
    ≡ min 5 (3 - used_on "2026-11-26" (link 2 1))
granted_lem_example =
    granted_lem 5 2 (link 1 0 ∷ []) [] "2026-11-26" (pos 3) (link 2 1) link-IsKeyed

send_gate-charges_example :
    (l' : ShareLink) × (s' : ShareSession) × (answer : Verdict) × (send_gate visit
        (link 1 0 ∷ link 2 1 ∷ [])
        (session ∷ [])
      ≡ (link 1 0 ∷ l' ∷ [], s' ∷ [], answer))
    × IsCharged visit (link 2 1) session l' s' answer
send_gate-charges_example =
    send_gate-charges visit (link 1 0 ∷ []) [] [] [] (link 2 1) session link-IsKeyed session-IsKeyed
