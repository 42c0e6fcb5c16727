-- ===== src/Runs/Slots.antt =====
-- What the registry of ui/backend/registry.py holds of one run, and what each operation does to it:
-- a registry is a function from run ids to slots, and an operation on one run changes its slot only.
pub mod Publishing
pub mod Membership
use bestteam.Shared.{
  ℕ, String, Option, none, some, Bool, true, false, not, List, [], ◌∷◌, ◌++◌, map, filter, nat_beq,
  ◌≡◌, refl, inl, inr, arith, Option-cases, ◌∙◌, if◌then◌else◌, Bool-cases,
}
use bestteam.Shared.Equality.{◌==◌, string_eq, ==-self, eq_of_==}
use bestteam.Shared.Dict.{lookup, lookup_or, remove}
use bestteam.Shared.Text.{Text, text_eq}
use bestteam.Runs.{
  Event, Run, Subscriber, Working, Registry, status_after, is_terminal, finished_agent, deliver,
  fan_out, finish_agent, publish_run, pass_on, stream_text, stream_working, mark, given,
  reply_delta, reply_reset, agent_working,
}

pub record Slot : Type 0 where
  pub run : Option Run
  pub queues : Option (List Subscriber)
  pub flag : Option Bool
  pub live : Text
  pub working : Working

abbrev pub slot : Registry → String → Slot
slot s j = record {
  run = lookup j s.runs;
  queues = lookup j s.subscribers;
  flag = lookup j s.cancel_flags;
  live = lookup_or [] j s.live_text;
  working = lookup_or [] j s.live_working;
}

abbrev pub or_nil {ℓ} : {A : Type ℓ} → Option (List A) → List A
or_nil none = []
or_nil (some xs) = xs

-- The agents at work after an event that is recorded.
abbrev pub working_after : Event → Working → Working
working_after event working = elim (finished_agent event) [
  | none ↦ working
  | some a ↦ remove a working
]

-- The slot of a run after an event is recorded, or is passed on only.
abbrev pub published : Event → Run → Slot → Slot
published event run c = record {
  run =
      some
        (record run { status = status_after event run.status; events = run.events ++ event ∷ [] });
  queues = some (map (deliver event) (or_nil c.queues));
  flag = c.flag;
  live = if is_terminal event then [] else c.live;
  working = if is_terminal event then [] else working_after event c.working;
}

-- The reply text and the agents at work after an event that is passed on only.
abbrev pub live_after : Event → Text → Text
live_after (reply_delta none) live = live
live_after (reply_delta (some words)) live = live ++ words
live_after reply_reset live = []
live_after _ live = live

abbrev pub milestone_after : Event → Working → Working
milestone_after (agent_working agent state kind) working = elim (given agent) [
  | none ↦ working
  | some a ↦ mark a state kind working
]
milestone_after _ working = working

abbrev pub passed_on : Event → Slot → Slot
passed_on event c = record c {
  queues = some (map (deliver event) (or_nil c.queues));
  live = live_after event c.live;
  working = milestone_after event c.working;
}

-- The slot of a run with one more subscriber, or with those left that a test keeps.
abbrev pub joined : Subscriber → Slot → Slot
joined q c = record c { queues = some (or_nil c.queues ++ q ∷ []) }

abbrev pub left_by : ℕ → Slot → Slot
left_by queue_id c = record c {
  queues = some (filter (λ q. not (nat_beq q.queue_id queue_id)) (or_nil c.queues));
}

abbrev pub purged : Run → Slot → Slot
purged run c = record c {
  run = some (record run { input = []; events = [] });
  live = [];
  working = [];
}

abbrev pub fresh_slot : Run → Slot
fresh_slot run = record {
  run = some run;
  queues = some [];
  flag = some false;
  live = [];
  working = [];
}

abbrev pub blank_slot : Slot
blank_slot = record { run = none; queues = none; flag = none; live = []; working = [] }

pub Slot-ext :
    (c d : Slot)
    → c.run ≡ d.run
    → c.queues ≡ d.queues
    → c.flag ≡ d.flag
    → c.live ≡ d.live
    → c.working ≡ d.working
    → c ≡ d
Slot-ext c d p q f l w =
    λ i. record { run = p i; queues = q i; flag = f i; live = l i; working = w i }
