-- ===== src/Runs/Screens/Replay.antt =====
-- What `subscribe` of ui/backend/registry.py puts on a new queue shows what the registry keeps of the
-- live run.
use bestteam.Shared.{
  Option, none, some, true, false, List, [], ◌∷◌, ◌++◌, is_none, Option-cases, subst, ◌≡◌, refl, ap,
  inl, inr, arith, All, Bool-cases, ◌∙◌,
}
use bestteam.Shared.Dict.{
  lookup, remove, put, lookup-put, HasDistinctKeys, remove-HasDistinctKeys, put-HasDistinctKeys,
}
use bestteam.Shared.Text.{Text, text_eq, is_empty}
use bestteam.Shared.Literal.{text}
use bestteam.Runs.{
  Event, agent_working, Run, Working, is_completed, kind_of, given, finished_agent, set_default,
  mark, streamed, started, replay,
}
use bestteam.Runs.Slots.{working_after, milestone_after}
use mathlib.Core.List.{append-nil, append_assoc}
use bestteam.Runs.Screens.{blank, is_recorded, show, play, Screen-ext, play-append, show-recorded}

abbrev pub IsLog : List Event → Type 0
IsLog events = All (λ e. is_recorded e ≡ true) events

show-blank : (e : Event) → is_recorded e ≡ true → show e blank ≡ blank
unfolding remove
show-blank e h = show-recorded e [] [] h ∙ Screen-ext _ _ (ground arith) (ground arith)

-- Recorded events alone leave a blank screen blank.
pub play-IsLog : (events : List Event) → IsLog events → play blank events ≡ blank
unfolding play
play-IsLog [] h = refl
play-IsLog (e ∷ es) h = rw (show-blank e h.0) (play-IsLog es h.1)

-- Names that are distinct and not empty.
abbrev pub IsNamed : Working → Type 0
IsNamed w = HasDistinctKeys w × All (λ p. is_empty p.0 ≡ false) w

remove-All :
    (a : Text) (w : Working)
    → All (λ p. is_empty p.0 ≡ false) w
    → All (λ p. is_empty p.0 ≡ false) (remove a w)
unfolding remove
remove-All a [] h = tt
remove-All a (p ∷ w) h = ground (arith, remove-All a w h.1)

put-All :
    (a k : Text) (w : Working)
    → is_empty a ≡ false
    → All (λ p. is_empty p.0 ≡ false) w
    → All (λ p. is_empty p.0 ≡ false) (put a k w)
unfolding put
put-All a k [] n h = (n, tt)
put-All a k (p ∷ w) n h = ground (arith, put-All a k w n h.1)

given-nonempty : (agent : Option Text) (a : Text) → given agent ≡ some a → is_empty a ≡ false
given-nonempty agent a h = ground arith

remove-IsNamed : (a : Text) (w : Working) → IsNamed w → IsNamed (remove a w)
remove-IsNamed a w h = (remove-HasDistinctKeys a w h.0, remove-All a w h.1)

put-IsNamed : (a k : Text) (w : Working) → is_empty a ≡ false → IsNamed w → IsNamed (put a k w)
put-IsNamed a k w n h = (put-HasDistinctKeys a k w h.0, put-All a k w n h.1)

pub working_after-IsNamed : (e : Event) (w : Working) → IsNamed w → IsNamed (working_after e w)
working_after-IsNamed e w h =
    elim (finished_agent e) as (λ o. IsNamed (elim o [ none ↦ w | some a ↦ remove a w ])) [
      | none ↦ h
      | some a ↦ remove-IsNamed a w h
    ]

mark-IsNamed :
    (a : Text) (state kind : Option Text) (w : Working)
    → is_empty a ≡ false
    → IsNamed w
    → IsNamed (mark a state kind w)
unfolding mark set_default
mark-IsNamed a state kind w n h = elim (Bool-cases (is_completed state)) [
  | inl ends ↦ rw (mark, ends) (remove-IsNamed a w h)
  | inr runs ↦ elim (Bool-cases (is_none (lookup a w))) [
    | inl new ↦ rw (mark, runs, set_default, new) (put-IsNamed a (kind_of kind) w n h)
    | inr known ↦ rw (mark, runs, set_default, known) h
  ]
]

pub milestone_after-IsNamed : (e : Event) (w : Working) → IsNamed w → IsNamed (milestone_after e w)
milestone_after-IsNamed (agent_working agent state kind) w h = elim (Option-cases (given agent)) [
  | inl nobody ↦ rw (milestone_after, nobody) h
  | inr (a, named) ↦
      rw (milestone_after, named) (mark-IsNamed a state kind w (given-nonempty agent a named) h)
]
milestone_after-IsNamed _ w h = h

-- No key of the second is one of the first.
IsApart : Working → Working → Type 0
IsApart before w = All (λ p. lookup p.0 before ≡ none) w

IsApart-nil : (w : Working) → IsApart [] w
unfolding IsApart lookup
IsApart-nil [] = tt
IsApart-nil (p ∷ w) = (refl, IsApart-nil w)

put-new : (a k : Text) (w : Working) → lookup a w ≡ none → put a k w ≡ w ++ (a, k) ∷ []
unfolding put lookup
put-new a k [] h = refl
put-new a k ((b, l) ∷ w) h = ground (arith, put-new a k w, text_eq.beq_iff b a)

IsApart-put :
    (a k : Text) (before w : Working)
    → is_none (lookup a w) ≡ true
    → IsApart before w
    → IsApart (put a k before) w
unfolding lookup IsApart
IsApart-put a k before [] h p = tt
IsApart-put a k before ((b, l) ∷ w) h p = ground (
  arith,
  lookup-put a b k before,
  text_eq.beq_iff a b,
  text_eq.beq_iff b a,
  IsApart-put a k before w,
)

started-runs : is_completed (some (text "started")) ≡ false
started-runs = refl

show-started :
    (live a k : Text) (before : Working)
    → is_empty a ≡ false
    → lookup a before ≡ none
    → show
        (agent_working (some a) (some (text "started")) (some k))
        (record { reply = live; at_work = before })
      ≡ record { reply = live; at_work = before ++ (a, k) ∷ [] }
unfolding show
show-started live a k before n new = ground (arith, n, new, started-runs, put-new a k before new)

play-started :
    (live : Text) (before w : Working)
    → IsApart before w
    → IsNamed w
    → play (record { reply = live; at_work = before }) (started w)
      ≡ record { reply = live; at_work = before ++ w }
unfolding play started show IsApart
play-started live before [] p h = rw (append-nil before) refl
play-started live before ((a, k) ∷ w) p h =
    ap (λ v. play v (started w)) (show-started live a k before h.1.0 p.0)
    ∙ (play-started live (before ++ (a, k) ∷ []) w (apart) (h.0.1, h.1.1)
        ∙ ap (λ l. record { reply = live; at_work = l }) (append_assoc before ((a, k) ∷ []) w))
  where
    apart : IsApart (before ++ (a, k) ∷ []) w
    apart = subst (λ l. IsApart l w) (put-new a k before p.0) (IsApart-put a k before w h.0.0 p.1)

play-streamed : (live : Text) → play blank (streamed live) ≡ record { reply = live; at_work = [] }
unfolding play streamed show
play-streamed [] = refl
play-streamed (c ∷ live) = refl

-- The queue that a late subscriber is given shows the whole reply so far and the agents at work.
pub play-replay :
    (run : Run) (live : Text) (w : Working)
    → IsLog run.events
    → IsNamed w
    → play blank (replay run live w) ≡ record { reply = live; at_work = w }
unfolding replay
play-replay run live w h n =
    play-append blank (run.events ++ streamed live) (started w)
    ∙ ap (λ v. play v (started w))
        (play-append blank run.events (streamed live)
          ∙ ap (λ v. play v (streamed live)) (play-IsLog run.events h)
          ∙ play-streamed live)
    ∙ play-started live [] w (IsApart-nil w) n
