-- ===== src/Runs/Screens.antt =====
-- What a client that plays its queue of ui/backend/registry.py from the start shows: the reply text
-- so far and the agents at work.
pub mod Replay
use bestteam.Shared.{
  ℕ, String, Option, none, some, Bool, true, false, not, ◌||◌, List, [], ◌∷◌, ◌++◌, filter, is_none,
  is_some, ◌≡◌, ◌≢◌, refl, sym, ap, inl, inr, arith, All, All-append, Bool-cases, Option-cases,
  if◌then◌else◌, ◌∙◌,
}
use bestteam.Shared.Equality.{Eq, ◌==◌, string_eq, eq_of_==}
use bestteam.Shared.Dict.{
  Dict, lookup, remove, put, lookup-remove, lookup-put, HasDistinctKeys, remove-HasDistinctKeys,
  put-HasDistinctKeys,
}
use bestteam.Shared.Text.{Text, text_eq, is_empty}
use bestteam.Shared.Literal.{text}
use bestteam.Runs.{
  Event, run_completed, run_failed, run_cancelled, agent_completed, subagent_completed, reply_delta,
  reply_reset, agent_working, other, Run, Working, given, status_after, is_terminal, finished_agent,
  kind_of, is_completed, set_default, mark, streamed, started, replay,
}
use bestteam.Runs.Slots.{working_after, live_after, milestone_after}

pub record Screen : Type 0 where
  pub reply : Text
  pub at_work : Working

abbrev pub blank : Screen
blank = record { reply = []; at_work = [] }

-- An event that `publish` is for; the others are for `publish_transient`.
abbrev pub is_recorded : Event → Bool
is_recorded (reply_delta words) = false
is_recorded reply_reset = false
is_recorded (agent_working agent state kind) = false
is_recorded _ = true

-- An agent is done when a name is given.
abbrev ends_work : Option Text → Screen → Screen
ends_work agent v = elim (given agent) [
  | none ↦ v
  | some a ↦ record v { at_work = remove a v.at_work }
]

-- A run that ends clears the screen; the first kind that is named for an agent at work counts.
unfoldable pub show : Event → Screen → Screen
show (run_completed words) v = blank
show (run_failed words) v = blank
show (run_cancelled words) v = blank
show (agent_completed agent) v = ends_work agent v
show (subagent_completed agent) v = ends_work agent v
show (reply_delta none) v = v
show (reply_delta (some words)) v = record v { reply = v.reply ++ words }
show reply_reset v = record v { reply = [] }
show (agent_working agent state kind) v = elim (given agent) [
  | none ↦ v
  | some a ↦
      if is_completed state
      then record v { at_work = remove a v.at_work }
      else if is_some (lookup a v.at_work)
      then v
      else record v { at_work = put a (kind_of kind) v.at_work }
]
show (other type agent words) v = v

unfoldable pub play : Screen → List Event → Screen
play v [] = v
play v (event ∷ events) = play (show event v) events

pub play-append : (v : Screen) (es fs : List Event) → play v (es ++ fs) ≡ play (play v es) fs
unfolding play
play-append v [] fs = refl
play-append v (e ∷ es) fs = play-append (show e v) es fs

pub Screen-ext : (v w : Screen) → v.reply ≡ w.reply → v.at_work ≡ w.at_work → v ≡ w
Screen-ext v w p q = λ i. record { reply = p i; at_work = q i }

pub show-recorded :
    (event : Event) (live : Text) (working : Working)
    → is_recorded event ≡ true
    → show event (record { reply = live; at_work = working }) ≡ record {
      reply = if is_terminal event then [] else live;
      at_work = if is_terminal event then [] else working_after event working;
    }
unfolding show is_terminal finished_agent
show-recorded (run_completed words) live working h = refl
show-recorded (run_failed words) live working h = refl
show-recorded (run_cancelled words) live working h = refl
show-recorded (agent_completed agent) live working h = ground arith
show-recorded (subagent_completed agent) live working h = ground arith
show-recorded (reply_delta words) live working h = cc
show-recorded reply_reset live working h = cc
show-recorded (agent_working agent state kind) live working h = cc
show-recorded (other type agent words) live working h = refl

pub show-transient :
    (event : Event) (live : Text) (working : Working)
    → is_recorded event ≡ false
    → show event (record { reply = live; at_work = working })
      ≡ record { reply = live_after event live; at_work = milestone_after event working }
unfolding show mark set_default
show-transient (reply_delta none) live working h = refl
show-transient (reply_delta (some words)) live working h = refl
show-transient reply_reset live working h = refl
show-transient (agent_working agent state kind) live working h = ground arith
show-transient (run_completed words) live working h = cc
show-transient (run_failed words) live working h = cc
show-transient (run_cancelled words) live working h = cc
show-transient (agent_completed agent) live working h = cc
show-transient (subagent_completed agent) live working h = cc
show-transient (other type agent words) live working h = cc
