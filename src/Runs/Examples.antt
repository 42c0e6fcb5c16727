-- ===== src/Runs/Examples.antt =====
-- Two subscribers of a run in ui/backend/registry.py, one before its reply starts and one after.
use bestteam.Shared.{none, some, [], ◌∷◌, ◌≡◌, refl}
use bestteam.Shared.Equality.{string_eq}
use bestteam.Shared.Dict.{lookup, HasDistinctKeys}
use bestteam.Shared.Literal.{text}
use bestteam.Runs.{
  Registry, Run, empty_registry, running, reply_delta, agent_working, other, create, subscribe,
  publish, publish_transient, evict_if_over_bound, is_busy,
}
use bestteam.Runs.Slots.{slot}
use bestteam.Runs.Served.{IsServed}
use bestteam.Runs.Eviction.{IsBusy, evict_if_over_bound-keeps}
use bestteam.Runs.Steps.{here, next, creates, subscribes, publishes, streams, Reach-IsServed}

abbrev created : Registry
created = (create "r1" "support" (text "hello") none none empty_registry).0

abbrev early : Registry
early = (subscribe 1 "r1" created).0

abbrev logged : Registry
logged = publish "r1" (other "run_started" none []) early

abbrev milestone : Registry
milestone =
    publish_transient "r1" (agent_working (some (text "Ada")) (some (text "started")) none) logged

abbrev streaming : Registry
streaming = publish_transient "r1" (reply_delta (some (text "Hi"))) milestone

abbrev late : Registry
late = (subscribe 2 "r1" streaming).0

Reach-IsServed_example : IsServed late
Reach-IsServed_example = Reach-IsServed late (
    next
      (next
        (next
          (next
            (next (next here (creates "r1" "support" (text "hello") none none)) (subscribes 1 "r1"))
            (publishes "r1" (other "run_started" none []) refl))
          (streams "r1" (agent_working (some (text "Ada")) (some (text "started")) none) refl))
        (streams "r1" (reply_delta (some (text "Hi"))) refl))
      (subscribes 2 "r1"))

abbrev first_run : Run
first_run = record {
  id = "r1";
  pipeline = "support";
  input = text "hello";
  org_id = none;
  username = none;
  status = running;
  events = [];
}

abbrev one_run : Registry
one_run = record empty_registry { runs = ("r1", first_run) ∷ [] }

one_run-IsBusy : IsBusy (slot one_run "r1") first_run
unfolding is_busy lookup
one_run-IsBusy = refl

one_run-found : (slot one_run "r1").run ≡ some first_run
unfolding lookup
one_run-found = refl

one_run-HasDistinctKeys : HasDistinctKeys one_run.runs
unfolding lookup
one_run-HasDistinctKeys = (refl, tt)

evict_if_over_bound-keeps_example : slot (evict_if_over_bound one_run) "r1" ≡ slot one_run "r1"
evict_if_over_bound-keeps_example =
    evict_if_over_bound-keeps "r1" first_run one_run one_run-HasDistinctKeys one_run-found
      one_run-IsBusy
