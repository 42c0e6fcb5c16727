-- ===== src/Agents/Turn/Bounds.antt =====
-- How many requests `_run_agent` of src/bestteam/adapters/langgraph_adapter.py makes.
use bestteam.Shared.{ℕ, zero, suc, ◌+◌, ◌≤◌, ◌≡◌, if◌then◌else◌}
use bestteam.Shared.Text.{Text}
use bestteam.Agents.Turn.{World, Turn}

-- Of the first looks for a stop, how many see none.
pub clear_looks : World → ℕ → ℕ
clear_looks w zero = 0
clear_looks w (suc n) = clear_looks w n + (if w.stops n then 0 else 1)

-- The tools make no request of the agent's model; the looks for a stop go on.
abbrev Frame : World → Turn → Turn → Type 0
Frame w t u =
    (u.requests ≡ t.requests)
    × (u.unanswered ≡ t.unanswered)
    × (u.gradings ≡ t.gradings)
    × (clear_looks w t.polls ≤ clear_looks w u.polls)

abbrev asked : Turn → ℕ
asked t = t.requests + t.gradings

-- From `t` to `u` at most `a` requests are answered and at most `c` are not, and at most `b`
-- gradings are made; for each answered request and each grading there is a look of its own that
-- sees no stop.
abbrev Spends : World → (a b c : ℕ) → Turn → Turn → Type 0
Spends w a b c t u =
    (u.requests + t.unanswered ≤ t.requests + u.unanswered + a)
    × (u.unanswered ≤ t.unanswered + c)
    × (u.gradings ≤ t.gradings + b)
    × (asked u + t.unanswered + clear_looks w t.polls
        ≤ asked t + u.unanswered + clear_looks w u.polls)

-- At most one request for each reply has no answer.
abbrev Costs : World → (a b : ℕ) → Turn → Turn → Type 0
Costs w a b t u = Spends w a b a t u

-- The bounds on what a turn has asked for.
abbrev pub IsBounded : World → Turn → Type 0
IsBounded w u =
    (u.requests ≤ u.unanswered + 13)
    × (u.unanswered ≤ 15)
    × (u.gradings ≤ 2)
    × (u.requests + u.gradings ≤ u.unanswered + clear_looks w u.polls)
