-- ===== src/Runs/Steps.antt =====
-- The registry of ui/backend/registry.py under any sequence of calls as its clients make them. What
-- ui/backend/runtime.py passes on without recording are the deltas and the milestones.
use bestteam.Shared.{
  ℕ, String, Option, none, some, true, false, [], ◌≡◌, refl, sym, ap, subst, inl, inr, Option-cases,
  Bool-cases, ◌∙◌,
}
use mathlib.Core.Option.{some-injective}
use bestteam.Shared.Equality.{◌==◌, string_eq}
use bestteam.Shared.Dict.{lookup}
use bestteam.Shared.Text.{Text}
use bestteam.Runs.{
  empty_registry, Event, Run, Registry, is_running, discard, evict_if_over_bound, new_run, add_run,
  create, purge_run, purge_content, set_cancel, request_cancel, publish_run, publish, pass_on,
  publish_transient, loaded, add_subscriber, subscribe, unsubscribe,
}
use bestteam.Runs.Slots.{Slot, slot, published, joined, purged, fresh_slot, passed_on}
use bestteam.Runs.Slots.Publishing.{
  publish_run_self, publish_run_other, pass_on_self, pass_on_other,
}
use bestteam.Runs.Slots.Membership.{
  discard_self, discard_other, add_run_self, add_run_other, purge_run_self, purge_run_other,
  set_cancel_self, set_cancel_other, add_subscriber_self, add_subscriber_other, unsubscribe_self,
  unsubscribe_other,
}
use bestteam.Runs.Screens.{is_recorded}
use bestteam.Runs.Served.{
  Serves, IsServed, IsServed-at, with_event, published-Serves, passed_on-Serves, joined-Serves,
  left_by-Serves, fresh_slot-Serves, purged-Serves, cancelled-Serves,
}
use bestteam.Runs.Eviction.{evict_if_over_bound-IsKeptOrGone}

-- One call; the deltas and milestones go to `publish_transient`, all other events to `publish`.
pub data Step (s : Registry) : Registry → Type 0 where
  creates :
      (run_id pipeline : String) (input : Text) (org_id : Option ℕ) (username : Option String)
      → Step s (create run_id pipeline input org_id username s).0
  discards : (run_id : String) → Step s (discard run_id s)
  purges : (run_id : String) → Step s (purge_content run_id s).0
  cancels : (run_id : String) → Step s (request_cancel run_id s).0
  publishes :
      (run_id : String) (event : Event) → is_recorded event ≡ true → Step s (publish run_id event s)
  streams :
      (run_id : String) (event : Event)
      → is_recorded event ≡ false
      → Step s (publish_transient run_id event s)
  subscribes : (queue_id : ℕ) (run_id : String) → Step s (subscribe queue_id run_id s).0
  unsubscribes : (queue_id : ℕ) (run_id : String) → Step s (unsubscribe queue_id run_id s)

pub data Reach (s : Registry) : Registry → Type 0 where
  here : Reach s s
  next : {t u : Registry} → Reach s t → Step t u → Reach s u

module _ (s : Registry) (h : IsServed s) where
  -- An edit of the slot of a run that is there.
  edit :
      (i : String) (run after : Run) (t : Registry) (c : Slot)
      → slot t i ≡ c
      → c.run ≡ some after
      → Serves after c
      → ((j : String) → (i == j) ≡ false → slot t j ≡ slot s j)
      → IsServed t
  edit i run after t c self is_after v other = IsServed-at i s t h other λ r found.
      subst (λ d. Serves r d) (sym self)
        (subst (λ q. Serves q c)
          (some-injective _ _ (sym is_after ∙ sym (ap (λ d. d.run) self) ∙ found)) v)

  discard-IsServed : (i : String) → IsServed (discard i s)
  discard-IsServed i =
      IsServed-at i s (discard i s) h (λ j d. discard_other i j s d)
        λ run found. absurd (gone (sym (ap (λ c. c.run) (discard_self i s)) ∙ found))
    where
      gone : {run : Run} → none ≡ some run → ⊥
      gone e = cc e

  add_run-IsServed : (run : Run) → run.events ≡ [] → IsServed (add_run run s)
  add_run-IsServed run e =
      edit run.id run run (add_run run s) (fresh_slot run) (add_run_self run s) refl
        (fresh_slot-Serves run e) (λ j d. add_run_other run j s d)

  trim-IsServed : IsServed (evict_if_over_bound s)
  trim-IsServed i run found = elim (evict_if_over_bound-IsKeptOrGone s i) [
    | inl same ↦ subst (λ c. Serves run c) (sym same) (h i run (sym (ap (λ c. c.run) same) ∙ found))
    | inr gone ↦ cc (gone, found)
  ]

  purge_content-IsServed : (i : String) → IsServed (purge_content i s).0
  unfolding purge_content
  purge_content-IsServed i = elim (Option-cases (lookup i s.runs)) [
    | inl missing ↦ rw (missing, purge_content) h
    | inr (run, found) ↦ elim (Bool-cases (is_running run.status)) [
      | inl live ↦ rw (found, purge_content, live) h
      | inr ended ↦
          rw (found, purge_content, ended)
            (edit i run (record run { input = []; events = [] }) (purge_run i run s)
              (purged run (slot s i)) (purge_run_self i run s) refl
              (purged-Serves run (slot s i) ended (h i run found))
              (λ j d. purge_run_other i j run s d))
    ]
  ]

  request_cancel-IsServed : (i : String) → IsServed (request_cancel i s).0
  unfolding request_cancel
  request_cancel-IsServed i = elim (Option-cases (lookup i s.runs)) [
    | inl missing ↦ rw (missing, request_cancel) h
    | inr (run, found) ↦ elim (Bool-cases (is_running run.status)) [
      | inr ended ↦ rw (found, request_cancel, ended) h
      | inl live ↦
          rw (found, request_cancel, live)
            (edit i run run (set_cancel i s) (record (slot s i) { flag = some true })
              (set_cancel_self i s) found (cancelled-Serves run (slot s i) (h i run found))
              (λ j d. set_cancel_other i j s d))
    ]
  ]

  publish-IsServed :
      (i : String) (event : Event) → is_recorded event ≡ true → IsServed (publish i event s)
  unfolding publish
  publish-IsServed i event r = elim (Option-cases (lookup i s.runs)) [
    | inl missing ↦ rw (missing, publish) h
    | inr (run, found) ↦
        rw (found, publish)
          (edit i run (with_event event run) (publish_run i event run s)
            (published event run (slot s i)) (publish_run_self i event run s) refl
            (published-Serves event run (slot s i) r (h i run found))
            (λ j d. publish_run_other i j event run s d))
  ]

  publish_transient-IsServed :
      (i : String) (event : Event)
      → is_recorded event ≡ false
      → IsServed (publish_transient i event s)
  unfolding publish_transient
  publish_transient-IsServed i event r = elim (Option-cases (lookup i s.runs)) [
    | inl missing ↦ rw (missing, publish_transient) h
    | inr (run, found) ↦
        rw (found, publish_transient)
          (edit i run run (pass_on i event s) (passed_on event (slot s i)) (pass_on_self i event s)
            found (passed_on-Serves event run (slot s i) r (h i run found))
            (λ j d. pass_on_other i j event s d))
  ]

  subscribe-IsServed : (n : ℕ) (i : String) → IsServed (subscribe n i s).0
  unfolding subscribe loaded
  subscribe-IsServed n i = elim (Option-cases (lookup i s.runs)) [
    | inl missing ↦ rw (missing, subscribe) h
    | inr (run, found) ↦
        rw (found, subscribe)
          (edit i run run (add_subscriber i (loaded n i run s) s)
            (joined (loaded n i run s) (slot s i)) (add_subscriber_self i (loaded n i run s) s)
            found (joined-Serves n run (slot s i) (h i run found))
            (λ j d. add_subscriber_other i j (loaded n i run s) s d))
  ]

  unsubscribe-IsServed : (n : ℕ) (i : String) → IsServed (unsubscribe n i s)
  unsubscribe-IsServed n i =
      IsServed-at i s (unsubscribe n i s) h (λ j d. unsubscribe_other n i j s d)
        λ run found.
          subst (λ c. Serves run c) (sym (unsubscribe_self n i s))
            (left_by-Serves n run (slot s i)
              (h i run (sym (ap (λ c. c.run) (unsubscribe_self n i s)) ∙ found)))

create-IsServed :
    (run_id pipeline : String) (input : Text) (org_id : Option ℕ) (username : Option String)
    (s : Registry)
    → IsServed s
    → IsServed (create run_id pipeline input org_id username s).0
unfolding create new_run
create-IsServed run_id pipeline input org_id username s h =
    let run = new_run run_id pipeline input org_id username in
    trim-IsServed (add_run run s) (add_run-IsServed s h run refl)

Step-IsServed : (s t : Registry) → IsServed s → Step s t → IsServed t
Step-IsServed s t h (creates run_id pipeline input org_id username) =
    create-IsServed run_id pipeline input org_id username s h
Step-IsServed s t h (discards i) = discard-IsServed s h i
Step-IsServed s t h (purges i) = purge_content-IsServed s h i
Step-IsServed s t h (cancels i) = request_cancel-IsServed s h i
Step-IsServed s t h (publishes i event r) = publish-IsServed s h i event r
Step-IsServed s t h (streams i event r) = publish_transient-IsServed s h i event r
Step-IsServed s t h (subscribes n i) = subscribe-IsServed s h n i
Step-IsServed s t h (unsubscribes n i) = unsubscribe-IsServed s h n i

from-IsServed : (s t : Registry) → IsServed s → Reach s t → IsServed t
from-IsServed s t h here = h
from-IsServed s u h (next {t} p q) = Step-IsServed t u (from-IsServed s t h p) q

empty-IsServed : IsServed empty_registry
unfolding lookup
empty-IsServed i run found = cc

-- After any calls on an empty registry, in which `publish` is called with other events than deltas
-- and milestones and `publish_transient` with these only, as runtime.py does, every run has its
-- subscriber list and its flag, its log has recorded events only, and what every subscriber was
-- sent of them ends with the log; while the run is running, that is the log, with nothing missing
-- or twice, and the queue, played from its start, shows the reply text and the agents at work that
-- the registry keeps, whenever the subscriber came.
pub Reach-IsServed : (t : Registry) → Reach empty_registry t → IsServed t
Reach-IsServed t p = from-IsServed empty_registry t empty-IsServed p
