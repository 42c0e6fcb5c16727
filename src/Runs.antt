-- ===== src/Runs.antt =====
-- `RunRegistry` of ui/backend/registry.py. An event of a run is a tagged union with the fields that
-- the registry reads; a queue is the list of all events ever put on it, and its number stands for
-- its identity. A string of an event is a list of code points.
pub mod Slots
pub mod Screens
pub mod Served
pub mod Eviction
pub mod Steps
mod Examples
use bestteam.Shared.{
  ℕ, String, Option, none, some, Bool, true, false, not, ◌||◌, List, [], ◌∷◌, ◌++◌, map, filter,
  length, leb, nat_beq, is_none, if◌then◌else◌,
}
use bestteam.Shared.Equality.{◌==◌, string_eq}
use bestteam.Shared.Dict.{Dict, lookup, lookup_or, remove, put}
use bestteam.Shared.Text.{Text, text_eq, is_empty}
use bestteam.Shared.Literal.{text}

pub data RunStatus : Type 0 where
  running completed failed cancelled : RunStatus

-- What `event["type"]`, `event.get("agent")` and `event.get("data")` are. A delta carries its text,
-- a milestone its agent and the entries `state` and `kind` of its data, where there are any.
pub data Event : Type 0 where
  run_completed run_failed run_cancelled : (words : Text) → Event
  agent_completed subagent_completed : (agent : Option Text) → Event
  reply_delta : (words : Option Text) → Event
  reply_reset : Event
  agent_working : (agent state kind : Option Text) → Event
  other : (type : String) (agent : Option Text) (words : Text) → Event

pub record Run : Type 0 where
  pub id : String
  pub pipeline : String
  pub input : Text
  pub org_id : Option ℕ
  pub username : Option String
  pub status : RunStatus
  pub events : List Event

pub record Subscriber : Type 0 where
  pub queue_id : ℕ
  pub queue : List Event

-- The agents at work, by name, with their kinds.
abbrev pub Working : Type 0
Working = Dict Text Text

pub record Registry : Type 0 where
  pub runs : Dict String Run
  pub subscribers : Dict String (List Subscriber)
  pub cancel_flags : Dict String Bool
  pub live_text : Dict String Text
  pub live_working : Dict String Working

abbrev pub max_retained_runs : ℕ
max_retained_runs = 1000

abbrev pub empty_registry : Registry
empty_registry = record {
  runs = [];
  subscribers = [];
  cancel_flags = [];
  live_text = [];
  live_working = [];
}

abbrev pub is_running : RunStatus → Bool
is_running running = true
is_running _ = false

-- A name, when it is there and not empty.
abbrev pub given : Option Text → Option Text
given none = none
given (some a) = if is_empty a then none else some a

-- The status that an event gives its run.
unfoldable pub status_after : Event → RunStatus → RunStatus
status_after (run_completed words) status = completed
status_after (run_failed words) status = failed
status_after (run_cancelled words) status = cancelled
status_after _ status = status

unfoldable pub is_terminal : Event → Bool
is_terminal (run_completed words) = true
is_terminal (run_failed words) = true
is_terminal (run_cancelled words) = true
is_terminal _ = false

unfoldable pub finished_agent : Event → Option Text
finished_agent (agent_completed agent) = given agent
finished_agent (subagent_completed agent) = given agent
finished_agent _ = none

unfoldable pub discard : String → Registry → Registry
discard run_id s = record {
  runs = remove run_id s.runs;
  subscribers = remove run_id s.subscribers;
  cancel_flags = remove run_id s.cancel_flags;
  live_text = remove run_id s.live_text;
  live_working = remove run_id s.live_working;
}

-- `run.status == "running" or self._subscribers.get(run_id)`
unfoldable pub is_busy : Run → Option (List Subscriber) → Bool
is_busy run none = is_running run.status
is_busy run (some subscribers) = is_running run.status || not (is_empty subscribers)

-- The loop over the copy of the runs; what it drops of a run is what `discard` drops.
unfoldable pub evict : Dict String Run → Registry → Registry
evict [] s = s
evict ((run_id, run) ∷ items) s =
    let next =
      evict items (if is_busy run (lookup run_id s.subscribers) then s else discard run_id s) in
    if leb (length s.runs) max_retained_runs then s else next

unfoldable pub evict_if_over_bound : Registry → Registry
evict_if_over_bound s = if leb (length s.runs) max_retained_runs then s else evict s.runs s

unfoldable pub new_run : String → String → Text → Option ℕ → Option String → Run
new_run run_id pipeline input org_id username = record {
  id = run_id;
  pipeline = pipeline;
  input = input;
  org_id = org_id;
  username = username;
  status = running;
  events = [];
}

-- The registry with the run of `create`, before the eviction.
unfoldable pub add_run : Run → Registry → Registry
add_run run s = record {
  runs = put run.id run s.runs;
  subscribers = put run.id [] s.subscribers;
  cancel_flags = put run.id false s.cancel_flags;
  live_text = put run.id [] s.live_text;
  live_working = put run.id [] s.live_working;
}

unfoldable pub create :
    (run_id pipeline : String) → Text → Option ℕ → Option String → Registry → Registry × Run
create run_id pipeline input org_id username s =
    let run = new_run run_id pipeline input org_id username in
    (evict_if_over_bound (add_run run s), run)

unfoldable pub get : String → Registry → Option Run
get run_id s = lookup run_id s.runs

-- The entry of a finished run, its content forgotten.
unfoldable pub purge_run : String → Run → Registry → Registry
purge_run run_id run s = record s {
  runs = put run_id (record run { input = []; events = [] }) s.runs;
  live_text = remove run_id s.live_text;
  live_working = remove run_id s.live_working;
}

unfoldable pub purge_content : String → Registry → Registry × Bool
purge_content run_id s = elim (lookup run_id s.runs) [
  | none ↦ (s, false)
  | some run ↦ if is_running run.status then (s, false) else (purge_run run_id run s, true)
]

unfoldable pub set_cancel : String → Registry → Registry
set_cancel run_id s = record s { cancel_flags = put run_id true s.cancel_flags }

unfoldable pub request_cancel : String → Registry → Registry × Bool
request_cancel run_id s = elim (lookup run_id s.runs) [
  | none ↦ (s, false)
  | some run ↦ if is_running run.status then (set_cancel run_id s, true) else (s, false)
]

unfoldable pub cancel_requested : String → Registry → Bool
cancel_requested run_id s = lookup_or false run_id s.cancel_flags

abbrev pub deliver : Event → Subscriber → Subscriber
deliver event q = record q { queue = q.queue ++ event ∷ [] }

-- The event put on the queue of every subscriber of the run.
unfoldable pub fan_out :
    String → Event → Dict String (List Subscriber) → Dict String (List Subscriber)
fan_out run_id event subscribers =
    put run_id (map (deliver event) (lookup_or [] run_id subscribers)) subscribers

-- `self._live_working.get(run_id, {}).pop(agent, None)` for the event that completes an agent
unfoldable pub finish_agent : String → Event → Dict String Working → Dict String Working
finish_agent run_id event working = elim (finished_agent event) [
  | none ↦ working
  | some agent ↦ elim (lookup run_id working) [
    | none ↦ working
    | some agents ↦ put run_id (remove agent agents) working
  ]
]

-- The body of `publish` for the run that is found.
unfoldable pub publish_run : String → Event → Run → Registry → Registry
publish_run run_id event run s =
    let run' : Run = record run {
      status = status_after event run.status;
      events = run.events ++ event ∷ [];
    } in
    let working = finish_agent run_id event s.live_working in
    record s {
      runs = put run_id run' s.runs;
      subscribers = fan_out run_id event s.subscribers;
      live_text = if is_terminal event then remove run_id s.live_text else s.live_text;
      live_working = if is_terminal event then remove run_id working else working;
    }

unfoldable pub publish : String → Event → Registry → Registry
publish run_id event s = elim (lookup run_id s.runs) [
  | none ↦ s
  | some run ↦ publish_run run_id event run s
]

-- `data.get("kind", "agent")`
abbrev pub kind_of : Option Text → Text
kind_of none = text "agent"
kind_of (some kind) = kind

-- `data.get("state") == "completed"`
abbrev pub is_completed : Option Text → Bool
is_completed none = false
is_completed (some state) = state == text "completed"

-- `working.setdefault(agent, kind)`
unfoldable pub set_default : Text → Text → Working → Working
set_default agent kind working =
    if is_none (lookup agent working) then put agent kind working else working

unfoldable pub mark : Text → (state kind : Option Text) → Working → Working
mark agent state kind working =
    if is_completed state then remove agent working else set_default agent (kind_of kind) working

unfoldable pub stream_text : String → Event → Dict String Text → Dict String Text
stream_text run_id (reply_delta none) texts = put run_id (lookup_or [] run_id texts) texts
stream_text run_id (reply_delta (some words)) texts =
    put run_id (lookup_or [] run_id texts ++ words) texts
stream_text run_id reply_reset texts = put run_id [] texts
stream_text run_id _ texts = texts

unfoldable pub stream_working : String → Event → Dict String Working → Dict String Working
stream_working run_id (agent_working agent state kind) working = elim (given agent) [
  | none ↦ working
  | some a ↦ put run_id (mark a state kind (lookup_or [] run_id working)) working
]
stream_working run_id _ working = working

-- The body of `publish_transient` for a run that is there.
unfoldable pub pass_on : String → Event → Registry → Registry
pass_on run_id event s = record s {
  subscribers = fan_out run_id event s.subscribers;
  live_text = stream_text run_id event s.live_text;
  live_working = stream_working run_id event s.live_working;
}

unfoldable pub publish_transient : String → Event → Registry → Registry
publish_transient run_id event s = elim (lookup run_id s.runs) [
  | none ↦ s
  | some run ↦ pass_on run_id event s
]

-- The synthetic events of `subscribe`.
unfoldable pub streamed : Text → List Event
streamed live = if is_empty live then [] else reply_delta (some live) ∷ []

unfoldable pub started : Working → List Event
started [] = []
started ((agent, kind) ∷ working) =
    agent_working (some agent) (some (text "started")) (some kind) ∷ started working

unfoldable pub replay : Run → Text → Working → List Event
replay run live working = run.events ++ streamed live ++ started working

unfoldable pub add_subscriber : String → Subscriber → Registry → Registry
add_subscriber run_id q s = record s {
  subscribers = put run_id (lookup_or [] run_id s.subscribers ++ q ∷ []) s.subscribers;
}

-- The queue that a subscriber of the run is given.
unfoldable pub loaded : (queue_id : ℕ) → String → Run → Registry → Subscriber
loaded queue_id run_id run s = record {
  queue_id = queue_id;
  queue = replay run (lookup_or [] run_id s.live_text) (lookup_or [] run_id s.live_working);
}

-- No queue for an unknown run.
unfoldable pub subscribe : (queue_id : ℕ) → String → Registry → Registry × Option Subscriber
subscribe queue_id run_id s = elim (lookup run_id s.runs) [
  | none ↦ (s, none)
  | some run ↦ let q = loaded queue_id run_id run s in (add_subscriber run_id q s, some q)
]

unfoldable pub unsubscribe : (queue_id : ℕ) → String → Registry → Registry
unsubscribe queue_id run_id s = record s {
  subscribers =
      put run_id
        (filter (λ q. not (nat_beq q.queue_id queue_id)) (lookup_or [] run_id s.subscribers))
        s.subscribers;
}
