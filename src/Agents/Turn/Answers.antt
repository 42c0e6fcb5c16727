-- ===== src/Agents/Turn/Answers.antt =====
-- What `_run_agent` of src/bestteam/adapters/langgraph_adapter.py returns under the policy `refuse`
-- of src/bestteam/core/grounding.py.
use bestteam.Shared.{
  String, Bool, true, false, ◌&&◌, if◌then◌else◌, Option, ◌≡◌, refl, sym, ap, subst, ◌∙◌, inl, inr,
  Bool-cases, Option-cases, true-and,
}
use bestteam.Shared.Text.{Text, is_empty}
use bestteam.Agents.Grounding.{Evidence, check_grounding, passes}
use bestteam.Agents.Turn.{
  Reply, World, Config, Turn, TurnEnd, Check, refuse, stopped, exhausted, refused, answered, tick,
  say, asks, ask, first_ask, tool_loop, max_tool_iterations, grade, graded, check_answer, settle,
  judge, check_again, rewrite, ground_answer, finish, wrap, wrap_up, conclude, run_agent,
  check_passes, is_refuse, is_observe, is_silent, instruction_for,
}

-- An answer that is returned passes the check on its citations against the evidence.
abbrev pub IsGrounded : Evidence → TurnEnd → Type 0
IsGrounded e stopped = Unit
IsGrounded e exhausted = Unit
IsGrounded e refused = Unit
IsGrounded e (answered a) = passes (check_grounding a e) ≡ true

abbrev EndsGrounded : TurnEnd × Turn → Type 0
EndsGrounded r = IsGrounded r.1.evidence r.0

module _ (w : World) where
  evidence-ask : (t : Turn) → (ask w t).1.evidence ≡ t.evidence
  unfolding ask
  evidence-ask t = elim (Bool-cases (w.stops t.polls)) [
    | inl stop ↦ rw stop refl
    | inr go ↦ rw go (elim (Bool-cases (w.streams_nothing t.requests)) [
      | inl empty ↦ rw empty refl
      | inr some_chunk ↦ rw some_chunk refl
    ])
  ]

  module _ (cfg : Config) (refusing : is_refuse cfg.policy ≡ true)
      (strict : is_observe cfg.policy ≡ false) where
    evidence-grade : (t : Turn) → (grade w cfg t).1.evidence ≡ t.evidence
    unfolding grade
    evidence-grade t = elim (Bool-cases (w.stops t.polls)) [
      | inl stop ↦ rw stop refl
      | inr go ↦ rw go (elim (Bool-cases cfg.grader_resolves) [
        | inl found ↦ rw found refl
        | inr missing ↦ rw missing refl
      ])
    ]

    -- A check is of the answer, against the evidence that is there and stays.
    IsCheckOf : Option Text → Evidence → Check × Turn → Type 0
    IsCheckOf answer e r = (r.0.result ≡ check_grounding answer e) × (r.1.evidence ≡ e)

    check_answer-IsCheckOf :
        (answer : Option Text) (t : Turn)
        → IsCheckOf answer t.evidence (check_answer w cfg answer t)
    unfolding check_answer graded IsCheckOf
    check_answer-IsCheckOf answer t =
        elim (Bool-cases (cfg.claim_level && passes (check_grounding answer t.evidence))) [
          | inl deep ↦ rw deep (refl, evidence-grade t)
          | inr shallow ↦ rw shallow (refl, refl)
        ]

    passes-check : (c : Check) → check_passes c ≡ true → passes c.result ≡ true
    unfolding check_passes
    passes-check c h = (true-and _ _ h).0

    settle-EndsGrounded :
        (end : TurnEnd) (c : Check) (retried is_refused : Bool) (t : Turn)
        → IsGrounded t.evidence end
        → EndsGrounded (settle w cfg end c retried is_refused t)
    unfolding settle
    settle-EndsGrounded end c retried is_refused t h = elim (Bool-cases (w.stops t.polls)) [
      | inl stop ↦ rw stop tt
      | inr go ↦ rw go h
    ]

    passed :
        (answer : Option Text) (c : Check) (t : Turn)
        → c.result ≡ check_grounding answer t.evidence
        → check_passes c ≡ true
        → IsGrounded t.evidence (answered answer)
    passed answer c t same good = sym (ap passes same) ∙ passes-check c good

    judge-EndsGrounded :
        (answer : Option Text) (c : Check) (t : Turn)
        → c.result ≡ check_grounding answer t.evidence
        → EndsGrounded (judge w cfg answer c t)
    unfolding judge
    judge-EndsGrounded answer c t same = elim (Bool-cases (check_passes c)) [
      | inl good ↦
          rw (refusing, good)
            (settle-EndsGrounded (answered answer) c true false t (passed answer c t same good))
      | inr bad ↦ rw (refusing, bad) (settle-EndsGrounded refused c true true t tt)
    ]

    rewrite-EndsGrounded :
        (reply : Reply) (c : Check) (t : Turn)
        → c.result ≡ check_grounding reply.content t.evidence
        → EndsGrounded (rewrite w cfg reply c t)
    unfolding rewrite check_again IsCheckOf
    rewrite-EndsGrounded reply c t same = elim (Bool-cases (w.stops sent.1.polls)) [
      | inl stop ↦ rw stop tt
      | inr go ↦ rw go (elim (Bool-cases (is_empty sent.0.tool_calls)) [
        | inl answer ↦ rw answer (
            judge-EndsGrounded sent.0.content checked.0 checked.1
              (its.0 ∙ sym (ap (check_grounding sent.0.content) its.1)))
        | inr more ↦ rw more (
            judge-EndsGrounded reply.content c (tick sent.1)
              (same ∙ sym (ap (check_grounding reply.content) (evidence-ask told))))
      ])
    ]
      where
        told : Turn
        told = say (instruction_for c) (say (asks reply) t)

        sent : Reply × Turn
        sent = ask w told

        checked : Check × Turn
        checked = check_answer w cfg sent.0.content (tick sent.1)

        its : IsCheckOf sent.0.content sent.1.evidence checked
        its = check_answer-IsCheckOf sent.0.content (tick sent.1)

    ground-EndsGrounded : (reply : Reply) (t : Turn) → EndsGrounded (ground_answer w cfg reply t)
    unfolding ground_answer IsCheckOf
    ground-EndsGrounded reply t = elim (Bool-cases (check_passes checked.0)) [
      | inl good ↦
          rw (strict, good)
            (settle-EndsGrounded (answered reply.content) checked.0 false false checked.1
              (passed reply.content checked.0 checked.1 same good))
      | inr bad ↦ rw (strict, bad) (rewrite-EndsGrounded reply checked.0 checked.1 same)
    ]
      where
        checked : Check × Turn
        checked = check_answer w cfg reply.content t

        its : IsCheckOf reply.content t.evidence checked
        its = check_answer-IsCheckOf reply.content t

        same : checked.0.result ≡ check_grounding reply.content checked.1.evidence
        same = its.0 ∙ sym (ap (check_grounding reply.content) its.1)

module _ (w : World) (cfg : Config) (searches : cfg.has_kb ≡ true)
    (refusing : is_refuse cfg.policy ≡ true) (strict : is_observe cfg.policy ≡ false) where
  finish-EndsGrounded : (reply : Reply) (t : Turn) → EndsGrounded (finish w cfg reply t)
  unfolding finish
  finish-EndsGrounded reply t =
      subst
        (λ b. EndsGrounded (if b then ground_answer w cfg reply t else (answered reply.content, t)))
        (sym searches) (ground-EndsGrounded w cfg refusing strict reply t)

  conclude-EndsGrounded : (reply : Reply) (t : Turn) → EndsGrounded (conclude w cfg reply t)
  unfolding conclude wrap
  conclude-EndsGrounded reply t = elim (Bool-cases (w.stops t.polls)) [
    | inl stop ↦ rw stop tt
    | inr go ↦ rw go (elim (Bool-cases (is_empty reply.tool_calls)) [
      | inl answer ↦ rw answer (finish-EndsGrounded reply (tick t))
      | inr more ↦ rw more (elim (Bool-cases (is_silent (ask w (say wrap_up (tick t))).0)) [
        | inl nothing ↦ rw nothing tt
        | inr text ↦ rw text (finish-EndsGrounded _ _)
      ])
    ])
  ]

-- For an agent with a knowledge base under the policy `refuse`, whatever the model, the tools and
-- the grader do and however often its answer is written again, an answer that the turn returns
-- passes the check on its citations against all that the turn's searches have returned; the turn
-- may else end with the refusal, the notice of an exhausted loop or, after a stop, nothing.
pub run_agent-IsGrounded :
    (w : World) (cfg : Config) (unknown_words : String → Text) (t : Turn)
    → cfg.has_kb ≡ true
    → cfg.policy ≡ refuse
    → IsGrounded (run_agent w cfg unknown_words t).1.evidence (run_agent w cfg unknown_words t).0
unfolding run_agent
run_agent-IsGrounded w cfg unknown_words t searches refuses = elim (Option-cases looped.0) [
  | inl cut ↦ rw (cut, run_agent) tt
  | inr (reply, e) ↦
      rw (e, run_agent)
        (conclude-EndsGrounded w cfg searches (ap is_refuse refuses) (ap is_observe refuses) reply
          looped.1)
]
  where
    asked : Reply × Turn
    asked = first_ask w cfg.forces_first_call t

    looped : Option Reply × Turn
    looped = tool_loop w unknown_words max_tool_iterations asked.0 asked.1
