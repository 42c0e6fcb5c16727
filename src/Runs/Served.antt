-- ===== src/Runs/Served.antt =====
-- What holds of every run in the registry of ui/backend/registry.py, and that each operation keeps it.
use bestteam.Shared.{
  ℕ, String, some, Bool, true, false, List, [], ◌∷◌, ◌++◌, filter, is_some, ◌≡◌, refl, sym, ap, ap₂,
  subst, inl, inr, arith, All, All-map, All-imp, All-append, All-filter, Bool-cases, ◌∙◌,
  if◌then◌else◌,
}
use bestteam.Shared.Equality.{◌==◌, string_eq, eq_of_==}
use bestteam.Runs.{
  RunStatus, running, Event, Run, Subscriber, Registry, status_after, is_terminal, is_running,
  deliver, replay, started, streamed, Working,
}
use bestteam.Runs.Slots.{
  Slot, slot, or_nil, published, passed_on, joined, left_by, purged, fresh_slot, working_after,
}
use bestteam.Shared.Text.{Text}
use bestteam.Runs.Screens.{
  Screen, blank, is_recorded, show, play, play-append, show-recorded, show-transient,
}
use bestteam.Runs.Screens.Replay.{
  IsLog, IsNamed, play-replay, working_after-IsNamed, milestone_after-IsNamed,
}
use mathlib.Core.List.{append-nil, append_assoc}

-- The recorded events that a subscriber was sent.
abbrev pub recorded : Subscriber → List Event
recorded q = filter is_recorded q.queue

-- They end with the log of the run.
abbrev pub HasHeard : Run → Subscriber → Type 0
HasHeard run q = (earlier : List Event) × (recorded q ≡ earlier ++ run.events)

abbrev pub screen : Slot → Screen
screen c = record { reply = c.live; at_work = c.working }

-- They are the log, and the queue shows what the registry keeps of the live run.
abbrev pub IsLive : Run → Slot → Subscriber → Type 0
IsLive run c q = (recorded q ≡ run.events) × (play blank q.queue ≡ screen c)

pub record Serves (run : Run) (c : Slot) : Type 0 where
  pub subscribed : is_some c.queues ≡ true
  pub flagged : is_some c.flag ≡ true
  pub logged : IsLog run.events
  pub named : IsNamed c.working
  pub heard : All (HasHeard run) (or_nil c.queues)
  pub live : run.status ≡ running → All (IsLive run c) (or_nil c.queues)

-- Every run that the registry holds is served.
abbrev pub IsServed : Registry → Type 0
IsServed s = (i : String) (run : Run) → (slot s i).run ≡ some run → Serves run (slot s i)

-- An operation on one slot.
pub IsServed-at :
    (i : String) (s t : Registry)
    → IsServed s
    → ((j : String) → (i == j) ≡ false → slot t j ≡ slot s j)
    → ((run : Run) → (slot t i).run ≡ some run → Serves run (slot t i))
    → IsServed t
IsServed-at i s t h other self j run e = elim (Bool-cases (i == j)) [
  | inl same ↦
      subst (λ k. (slot t k).run ≡ some run → Serves run (slot t k)) (eq_of_== i j same) (self run)
        e
  | inr differ ↦ subst (λ c. c.run ≡ some run → Serves run c) (sym (other j differ)) (h j run) e
]

filter-append :
    (p : Event → Bool) (xs ys : List Event) → filter p (xs ++ ys) ≡ filter p xs ++ filter p ys
filter-append p [] ys = refl
filter-append p (x ∷ xs) ys = ground (arith, filter-append p xs ys)

recorded-deliver :
    (e : Event) (q : Subscriber)
    → is_recorded e ≡ true
    → recorded (deliver e q) ≡ recorded q ++ e ∷ []
recorded-deliver e q h = filter-append is_recorded q.queue (e ∷ []) ∙ rw h refl

transient-deliver :
    (e : Event) (q : Subscriber) → is_recorded e ≡ false → recorded (deliver e q) ≡ recorded q
transient-deliver e q h =
    filter-append is_recorded q.queue (e ∷ []) ∙ rw h (append-nil (recorded q))

play-deliver :
    (e : Event) (q : Subscriber) → play blank (deliver e q).queue ≡ show e (play blank q.queue)
unfolding play
play-deliver e q = play-append blank q.queue (e ∷ [])

status-running :
    (e : Event) (status : RunStatus) → status_after e status ≡ running → status ≡ running
unfolding status_after
status-running e status h = ground arith

abbrev pub with_event : Event → Run → Run
with_event e run = record run { status = status_after e run.status; events = run.events ++ e ∷ [] }

with_event-HasHeard :
    (e : Event) (run : Run) (q : Subscriber)
    → is_recorded e ≡ true
    → HasHeard run q
    → HasHeard (with_event e run) (deliver e q)
with_event-HasHeard e run q r (p, eq) =
    (p, recorded-deliver e q r ∙ ap (λ l. l ++ e ∷ []) eq ∙ append_assoc p run.events (e ∷ []))

with_event-IsLive :
    (e : Event) (run : Run) (c : Slot) (q : Subscriber)
    → is_recorded e ≡ true
    → IsLive run c q
    → IsLive (with_event e run) (published e run c) (deliver e q)
with_event-IsLive e run c q r (log, shown) = (
  recorded-deliver e q r ∙ ap (λ l. l ++ e ∷ []) log,
  play-deliver e q ∙ ap (show e) shown ∙ show-recorded e c.live c.working r,
)

pub published-Serves :
    (e : Event) (run : Run) (c : Slot)
    → is_recorded e ≡ true
    → Serves run c
    → Serves (with_event e run) (published e run c)
published-Serves e run c r v = record {
  subscribed = refl;
  flagged = v.flagged;
  logged = All-append _ run.events (e ∷ []) v.logged (r, tt);
  named = elim (is_terminal e) as (λ b. IsNamed (if b then [] else working_after e c.working)) [
    | true ↦ (tt, tt)
    | false ↦ working_after-IsNamed e c.working v.named
  ];
  heard =
      All-map (HasHeard (with_event e run)) (deliver e) (or_nil c.queues)
        (All-imp (or_nil c.queues) (λ q. with_event-HasHeard e run q r) v.heard);
  live = λ live.
      All-map (IsLive (with_event e run) (published e run c)) (deliver e) (or_nil c.queues) (
        All-imp (or_nil c.queues) (λ q. with_event-IsLive e run c q r)
          (v.live (status-running e run.status live)));
}

pub passed_on-Serves :
    (e : Event) (run : Run) (c : Slot)
    → is_recorded e ≡ false
    → Serves run c
    → Serves run (passed_on e c)
passed_on-Serves e run c r v = record {
  subscribed = refl;
  flagged = v.flagged;
  logged = v.logged;
  named = milestone_after-IsNamed e c.working v.named;
  heard =
      All-map (HasHeard run) (deliver e) (or_nil c.queues)
        (All-imp (or_nil c.queues) (λ q (p, eq). (p, transient-deliver e q r ∙ eq)) v.heard);
  live = λ live. All-map (IsLive run (passed_on e c)) (deliver e) (or_nil c.queues) (
      All-imp (or_nil c.queues)
        (λ q (log, shown). (
          transient-deliver e q r ∙ log,
          play-deliver e q ∙ ap (show e) shown ∙ show-transient e c.live c.working r,
        ))
        (v.live live));
}

filter-IsLog : (events : List Event) → IsLog events → filter is_recorded events ≡ events
filter-IsLog [] h = refl
filter-IsLog (e ∷ es) h = rw h.0 (ap (λ l. e ∷ l) (filter-IsLog es h.1))

filter-started : (w : Working) → filter is_recorded (started w) ≡ []
unfolding started
filter-started [] = refl
filter-started ((a, k) ∷ w) = filter-started w

filter-streamed : (live : Text) → filter is_recorded (streamed live) ≡ []
unfolding streamed
filter-streamed [] = refl
filter-streamed (c ∷ live) = refl

-- Of the events that a new queue is loaded with, the log is what was recorded.
recorded-replay :
    (run : Run) (live : Text) (w : Working)
    → IsLog run.events
    → filter is_recorded (replay run live w) ≡ run.events
unfolding replay
recorded-replay run live w h =
    filter-append is_recorded (run.events ++ streamed live) (started w)
    ∙ ap₂ (λ xs ys. xs ++ ys) (filter-append is_recorded run.events (streamed live))
        (filter-started w)
    ∙ append-nil _
    ∙ ap₂ (λ xs ys. xs ++ ys) (filter-IsLog run.events h) (filter-streamed live)
    ∙ append-nil _

pub joined-Serves :
    (n : ℕ) (run : Run) (c : Slot)
    → Serves run c
    → Serves run (joined (record { queue_id = n; queue = replay run c.live c.working }) c)
joined-Serves n run c v =
    let q : Subscriber = record { queue_id = n; queue = replay run c.live c.working } in
    let log = recorded-replay run c.live c.working v.logged in
    record {
      subscribed = refl;
      flagged = v.flagged;
      logged = v.logged;
      named = v.named;
      heard = All-append (HasHeard run) (or_nil c.queues) (q ∷ []) v.heard (([], log), tt);
      live = λ live.
          All-append (IsLive run c) (or_nil c.queues) (q ∷ []) (v.live live)
            ((log, play-replay run c.live c.working v.logged v.named), tt);
    }

pub left_by-Serves : (n : ℕ) (run : Run) (c : Slot) → Serves run c → Serves run (left_by n c)
left_by-Serves n run c v = record {
  subscribed = refl;
  flagged = v.flagged;
  logged = v.logged;
  named = v.named;
  heard = All-filter (HasHeard run) _ (or_nil c.queues) v.heard;
  live = λ live. All-filter (IsLive run c) _ (or_nil c.queues) (v.live live);
}

pub fresh_slot-Serves : (run : Run) → run.events ≡ [] → Serves run (fresh_slot run)
fresh_slot-Serves run e = record {
  subscribed = refl;
  flagged = refl;
  logged = rw e tt;
  named = (tt, tt);
  heard = tt;
  live = λ live. tt;
}

pub purged-Serves :
    (run : Run) (c : Slot)
    → is_running run.status ≡ false
    → Serves run c
    → Serves (record run { input = []; events = [] }) (purged run c)
purged-Serves run c h v = record {
  subscribed = v.subscribed;
  flagged = v.flagged;
  logged = tt;
  named = (tt, tt);
  heard = All-imp (or_nil c.queues) (λ q _. (recorded q, sym (append-nil (recorded q)))) v.heard;
  live = λ live. absurd (not_running run.status live h);
}
  where
    not_running : (status : RunStatus) → status ≡ running → is_running status ≡ false → ⊥
    not_running status live ended = ground arith

pub cancelled-Serves :
    (run : Run) (c : Slot) → Serves run c → Serves run (record c { flag = some true })
cancelled-Serves run c v = record {
  subscribed = v.subscribed;
  flagged = refl;
  logged = v.logged;
  named = v.named;
  heard = v.heard;
  live = v.live;
}
