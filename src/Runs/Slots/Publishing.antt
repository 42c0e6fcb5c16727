-- ===== src/Runs/Slots/Publishing.antt =====
-- What `publish` and `publish_transient` of ui/backend/registry.py do to the slots of the registry.
use bestteam.Shared.{
  String, none, some, false, List, [], ◌≡◌, refl, inl, inr, arith, Option-cases, ◌∙◌, Bool-cases,
}
use bestteam.Shared.Equality.{◌==◌, string_eq}
use bestteam.Shared.Dict.{
  lookup-put_self, lookup-put_other, lookup_or-put_self, lookup_or-put_other, lookup_or-remove_self,
  lookup_or-remove_other, lookup, lookup_or, remove,
}
use bestteam.Shared.Text.{Text, text_eq}
use bestteam.Runs.{
  Event, Run, Working, Registry, is_terminal, finished_agent, fan_out, finish_agent, publish_run,
  pass_on, stream_text, stream_working, given, reply_delta, reply_reset, agent_working,
}
use bestteam.Runs.Slots.{
  Slot-ext, slot, or_nil, working_after, live_after, milestone_after, published, passed_on,
}

pub lookup_or-or_nil :
    {V : Type 0} (j : String) (d : List (String × List V)) → lookup_or [] j d ≡ or_nil (lookup j d)
unfolding lookup_or
lookup_or-or_nil j d = ground arith

lookup_or-missing :
    {V : Type 0} (i : String) (d : List (String × List V))
    → lookup i d ≡ none
    → lookup_or [] i d ≡ []
unfolding lookup_or
lookup_or-missing i d h = rw (h, lookup_or) refl

lookup_or-found :
    {V : Type 0} (i : String) (v : List V) (d : List (String × List V))
    → lookup i d ≡ some v
    → lookup_or [] i d ≡ v
unfolding lookup_or
lookup_or-found i v d h = rw (h, lookup_or) refl

finish_agent_self :
    (i : String) (event : Event) (d : List (String × Working))
    → lookup_or [] i (finish_agent i event d) ≡ working_after event (lookup_or [] i d)
unfolding finish_agent remove
finish_agent_self i event d = elim (Option-cases (finished_agent event)) [
  | inl nobody ↦ rw (nobody, finish_agent, working_after) refl
  | inr (a, done) ↦ elim (Option-cases (lookup i d)) [
    | inl idle ↦ rw (done, finish_agent, working_after, idle) (rw (lookup_or-missing i d idle) refl)
    | inr (agents, busy) ↦
        rw (done, finish_agent, working_after, busy)
          (rw (lookup_or-found i agents d busy) (lookup_or-put_self [] i (remove a agents) d))
  ]
]

finish_agent_other :
    (i j : String) (event : Event) (d : List (String × Working))
    → (i == j) ≡ false
    → lookup_or [] j (finish_agent i event d) ≡ lookup_or [] j d
unfolding finish_agent
finish_agent_other i j event d h = elim (Option-cases (finished_agent event)) [
  | inl nobody ↦ rw (nobody, finish_agent) refl
  | inr (a, done) ↦ elim (Option-cases (lookup i d)) [
    | inl idle ↦ rw (done, finish_agent, idle) refl
    | inr (agents, busy) ↦
        rw (done, finish_agent, busy) (lookup_or-put_other [] i j (remove a agents) d h)
  ]
]

pub publish_run_self :
    (i : String) (event : Event) (run : Run) (s : Registry)
    → slot (publish_run i event run s) i ≡ published event run (slot s i)
unfolding publish_run fan_out
publish_run_self i event run s = elim (Bool-cases (is_terminal event)) [
  | inl ends ↦
      Slot-ext _ _ (lookup-put_self i _ s.runs)
        (rw (lookup-put_self i) (rw (lookup_or-or_nil i s.subscribers) refl)) refl
        (rw ends (lookup_or-remove_self [] i s.live_text)) (rw ends (lookup_or-remove_self [] i _))
  | inr live ↦
      Slot-ext _ _ (lookup-put_self i _ s.runs)
        (rw (lookup-put_self i) (rw (lookup_or-or_nil i s.subscribers) refl)) refl (rw live refl)
        (rw live (finish_agent_self i event s.live_working))
]

pub publish_run_other :
    (i j : String) (event : Event) (run : Run) (s : Registry)
    → (i == j) ≡ false
    → slot (publish_run i event run s) j ≡ slot s j
unfolding publish_run fan_out
publish_run_other i j event run s h = elim (Bool-cases (is_terminal event)) [
  | inl ends ↦
      Slot-ext _ _ (lookup-put_other i j _ s.runs h) (lookup-put_other i j _ s.subscribers h) refl
        (rw ends (lookup_or-remove_other [] i j s.live_text h))
        (rw ends
          (lookup_or-remove_other [] i j _ h ∙ finish_agent_other i j event s.live_working h))
  | inr live ↦
      Slot-ext _ _ (lookup-put_other i j _ s.runs h) (lookup-put_other i j _ s.subscribers h) refl
        (rw live refl) (rw live (finish_agent_other i j event s.live_working h))
]

stream_text_self :
    (i : String) (event : Event) (d : List (String × Text))
    → lookup_or [] i (stream_text i event d) ≡ live_after event (lookup_or [] i d)
unfolding stream_text
stream_text_self i (reply_delta none) d = lookup_or-put_self [] i _ d
stream_text_self i (reply_delta (some words)) d = lookup_or-put_self [] i _ d
stream_text_self i reply_reset d = lookup_or-put_self [] i _ d
stream_text_self i _ d = refl

stream_text_other :
    (i j : String) (event : Event) (d : List (String × Text))
    → (i == j) ≡ false
    → lookup_or [] j (stream_text i event d) ≡ lookup_or [] j d
unfolding stream_text
stream_text_other i j (reply_delta none) d h = lookup_or-put_other [] i j _ d h
stream_text_other i j (reply_delta (some words)) d h = lookup_or-put_other [] i j _ d h
stream_text_other i j reply_reset d h = lookup_or-put_other [] i j _ d h
stream_text_other i j _ d h = refl

stream_working_self :
    (i : String) (event : Event) (d : List (String × Working))
    → lookup_or [] i (stream_working i event d) ≡ milestone_after event (lookup_or [] i d)
unfolding stream_working
stream_working_self i (agent_working agent state kind) d = elim (Option-cases (given agent)) [
  | inl nobody ↦ rw (nobody, stream_working, milestone_after) refl
  | inr (a, named) ↦ rw (named, stream_working, milestone_after) (lookup_or-put_self [] i _ d)
]
stream_working_self i _ d = refl

stream_working_other :
    (i j : String) (event : Event) (d : List (String × Working))
    → (i == j) ≡ false
    → lookup_or [] j (stream_working i event d) ≡ lookup_or [] j d
unfolding stream_working
stream_working_other i j (agent_working agent state kind) d h = elim (Option-cases (given agent)) [
  | inl nobody ↦ rw (nobody, stream_working) refl
  | inr (a, named) ↦ rw (named, stream_working) (lookup_or-put_other [] i j _ d h)
]
stream_working_other i j _ d h = refl

pub pass_on_self :
    (i : String) (event : Event) (s : Registry)
    → slot (pass_on i event s) i ≡ passed_on event (slot s i)
unfolding pass_on fan_out
pass_on_self i event s =
    Slot-ext _ _ refl (rw (lookup-put_self i) (rw (lookup_or-or_nil i s.subscribers) refl)) refl
      (stream_text_self i event s.live_text) (stream_working_self i event s.live_working)

pub pass_on_other :
    (i j : String) (event : Event) (s : Registry)
    → (i == j) ≡ false
    → slot (pass_on i event s) j ≡ slot s j
unfolding pass_on fan_out
pass_on_other i j event s h =
    Slot-ext _ _ refl (lookup-put_other i j _ s.subscribers h) refl
      (stream_text_other i j event s.live_text h) (stream_working_other i j event s.live_working h)
