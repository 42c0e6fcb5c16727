-- ===== src/Agents/Turn.antt =====
-- `_run_agent` of src/bestteam/adapters/langgraph_adapter.py, without the diagnostic events and
-- the stream of tokens: one agent's turn with its tools. What the model, the tools, the grader and
-- `should_cancel` answer is a `World`, asked in the order of the calls; a streamed answer that a
-- stop cuts off is one of the model's replies, and the looks for a stop within a stream are not
-- numbered. An exception of a model's call, other than the refusal of a forced tool choice that
-- `_first_call` catches, ends the run and is outside this model.
pub mod Bounds
pub mod Answers
use bestteam.Shared.{
  ℕ, zero, suc, ◌+◌, String, Bool, true, false, not, ◌&&◌, Option, none, some, List, [], ◌∷◌, ◌++◌,
  map, length, ltb, is_none, if◌then◌else◌,
}
use bestteam.Shared.Text.{Text, is_empty}
use bestteam.Agents.Grounding.{
  Evidence, GroundingResult, check_grounding, passes, ClaimGrading, grading_passes, GraderAnswer,
  grade_claims, is_blank,
}

-- What `tools_by_name` has of a call's name.
pub data ToolKind : Type 0 where
  unknown delegate knowledge_base plain : ToolKind

pub record Call : Type 0 where
  pub name : String
  pub id : String
  pub kind : ToolKind

-- The tokens that a call was billed for, in and out.
abbrev pub Usage : Type 0
Usage = ℕ × ℕ

-- The content is `none` where it is not a text; `has_blocks` says whether it is then a list of
-- blocks that is not empty.
pub record Reply : Type 0 where
  pub tool_calls : List Call
  pub content : Option Text
  pub has_blocks : Bool
  pub usage : Option Usage

-- `not str(response.content or "").strip()`
unfoldable pub is_silent : Reply → Bool
is_silent r = elim r.content [ none ↦ not r.has_blocks | some t ↦ is_blank t ]

-- What a tool does, and what the calls that it makes itself are billed for.
pub data ToolOutcome : Type 0 where
  raises : (words : Text) → List Usage → ToolOutcome
  returns :
      (words : Text)
      → (hit_count : ℕ) → (citations documents : List Text) → List Usage
      → ToolOutcome

pub data Message : Type 0 where
  asks : Reply → Message
  answers : (words : Text) → (call_id : String) → Message
  wrap_up : Message
  rewrites : (unsupported : List Text) → Message

pub data Policy : Type 0 where
  observe retry refuse : Policy

-- One check of an answer; `failed` says that the grader's check could not be made.
pub record Check : Type 0 where
  pub result : GroundingResult
  pub grading : Option ClaimGrading
  pub failed : Bool

pub data TurnEvent : Type 0 where
  tool_started : String → TurnEvent
  tool_completed : String → (success : Bool) → TurnEvent
  agent_progress : (rounds_left : ℕ) → TurnEvent
  grounding_checked : Check → (retried is_refused : Bool) → TurnEvent

-- `has_kb` says whether one of the agent's own tools is a knowledge base, and `grader_resolves`
-- whether the grader's model can be found; `forces_first_call` is `forced_first_call`, which is
-- false for a model that is known to refuse it.
pub record Config : Type 0 where
  pub forces_first_call : Bool
  pub has_kb : Bool
  pub policy : Policy
  pub claim_level : Bool
  pub grader_resolves : Bool

-- `streams_nothing` says of a request whether it is streamed and no chunk comes, and
-- `refuses_choice` whether the provider refuses it for its forced tool choice.
pub record World : Type 0 where
  pub streams_nothing : ℕ → Bool
  pub refuses_choice : ℕ → Bool
  pub replies : ℕ → Reply
  pub outcomes : ℕ → ToolOutcome
  pub grades : ℕ → GraderAnswer × Option Usage
  pub stops : ℕ → Bool

-- `polls`, `requests`, `tool_runs` and `gradings` count what has been asked of the world, and
-- `unanswered` those of the requests that brought no reply.
pub record Turn : Type 0 where
  pub polls : ℕ
  pub requests : ℕ
  pub unanswered : ℕ
  pub tool_runs : ℕ
  pub gradings : ℕ
  pub messages : List Message
  pub events : List TurnEvent
  pub usage : List Usage
  pub evidence : Evidence

abbrev pub max_tool_iterations : ℕ
max_tool_iterations = 10

-- The answer of `_call` after a stop, for which no request is made.
abbrev pub silence : Reply
silence = record { tool_calls = []; content = some []; has_blocks = false; usage = none }

abbrev pub tick : Turn → Turn
tick t = record t { polls = t.polls + 1 }

abbrev pub say : Message → Turn → Turn
say m t = record t { messages = t.messages ++ m ∷ [] }

abbrev pub emit : TurnEvent → Turn → Turn
emit e t = record t { events = t.events ++ e ∷ [] }

-- `_record_usage`
abbrev pub charged : Option Usage → List Usage → List Usage
charged none used = used
charged (some u) used = used ++ u ∷ []

abbrev pub count_request : Reply → Turn → Turn
count_request reply t = record t { requests = t.requests + 1; usage = charged reply.usage t.usage }

-- A request that brings no reply is billed for nothing.
abbrev pub count_unanswered : Turn → Turn
count_unanswered t = record t { requests = t.requests + 1; unanswered = t.unanswered + 1 }

-- A request that is answered.
abbrev pub invoke : World → Turn → Reply × Turn
invoke w t = (w.replies t.requests, count_request (w.replies t.requests) t)

-- `_call` and `_record_usage`: after a stream without a chunk the request is made again.
unfoldable pub ask : World → Turn → Reply × Turn
ask w t =
    if w.stops t.polls
    then (silence, tick t)
    else if w.streams_nothing t.requests
    then invoke w (count_unanswered (tick t))
    else invoke w (tick t)

-- `_first_call` and `_record_usage`: after the refusal of a forced tool choice the call is made
-- again without it.
unfoldable pub first_ask : World → (forces : Bool) → Turn → Reply × Turn
first_ask w forces t =
    let sent = tick t in
    let again = count_unanswered sent in
    if w.stops t.polls
    then (silence, sent)
    else if forces && w.refuses_choice sent.requests
    then ask w again
    else if not (w.streams_nothing sent.requests)
    then invoke w sent
    else if forces && w.refuses_choice again.requests
    then ask w (count_unanswered again)
    else invoke w again

-- What a knowledge base reports of a search is kept for the check of the answer.
unfoldable pub keep_evidence :
    ToolKind
    → (words : Text) → (hit_count : ℕ) → (citations documents : List Text) → Evidence
    → Evidence
keep_evidence knowledge_base words hits citations documents e = record {
  searches = e.searches + 1;
  hit_count = e.hit_count + hits;
  citations = e.citations ++ citations;
  documents = e.documents ++ documents;
  result_texts = e.result_texts ++ words ∷ [];
}
keep_evidence _ words hits citations documents e = e

unfoldable pub finish_call : Call → ToolOutcome → Turn → Text × Turn
finish_call c (raises words used) t =
    (words, emit (tool_completed c.name false) (record t { usage = t.usage ++ used }))
finish_call c (returns words hits citations documents used) t = (
  words,
  emit (tool_completed c.name true) (record t {
    usage = t.usage ++ used;
    evidence = keep_evidence c.kind words hits citations documents t.evidence;
  }),
)

abbrev pub is_unknown : ToolKind → Bool
is_unknown unknown = true
is_unknown delegate = false
is_unknown knowledge_base = false
is_unknown plain = false

-- `_execute_call`; `unknown_words` is the text of an unknown tool's error.
unfoldable pub execute_call : World → (unknown_words : String → Text) → Call → Turn → Text × Turn
execute_call w unknown_words c t =
    let started = emit (tool_started c.name) (record t { tool_runs = t.tool_runs + 1 }) in
    if is_unknown c.kind
    then (unknown_words c.name, t)
    else finish_call c (w.outcomes t.tool_runs) started

abbrev pub is_delegate : ToolKind → Bool
is_delegate delegate = true
is_delegate _ = false

abbrev pub is_delegation : Call → Bool
is_delegation c = is_delegate c.kind

abbrev pub all_delegations : List Call → Bool
all_delegations [] = true
all_delegations (c ∷ cs) = is_delegation c && all_delegations cs

abbrev pub answer_call : Call → Text → Turn → Turn
answer_call c words t = say (answers words c.id) t

module _ (w : World) (unknown_words : String → Text) where
  -- The calls one after the other, with a look for a stop before each; `none` after a stop.
  unfoldable pub run_serial : List Call → Turn → Option (List Text) × Turn
  run_serial [] t = (some [], t)
  run_serial (c ∷ cs) t =
      let (words, done) = execute_call w unknown_words c (tick t) in
      let (rest, after) = run_serial cs done in
      if w.stops t.polls
      then (none, tick t)
      else (elim rest [ none ↦ none | some ws ↦ some (words ∷ ws) ], after)

  -- The delegations of a batch, which no look for a stop interrupts, in the order of the calls.
  unfoldable pub run_together : List Call → Turn → List Text × Turn
  run_together [] t = ([], t)
  run_together (c ∷ cs) t =
      let (words, done) = execute_call w unknown_words c t in
      let (rest, after) = run_together cs done in (words ∷ rest, after)

  abbrev pub together : List Call → Turn → Option (List Text) × Turn
  together cs t = let (words, after) = run_together cs t in (some words, after)

  unfoldable pub run_batch : List Call → Turn → Option (List Text) × Turn
  run_batch cs t =
      if ltb 1 (length cs) && all_delegations cs
      then (if w.stops t.polls then (none, tick t) else together cs (tick t))
      else run_serial cs t

  unfoldable pub answer_calls : List Call → List Text → Turn → Turn
  answer_calls [] words t = t
  answer_calls (c ∷ cs) [] t = t
  answer_calls (c ∷ cs) (words ∷ rest) t = answer_calls cs rest (answer_call c words t)

  unfoldable pub ask_on : ℕ → List Call → List Text → Turn → Option Reply × Turn
  ask_on left cs words done =
      let (next, asked) = ask w (emit (agent_progress left) (answer_calls cs words done)) in
      (some next, asked)

  -- One round of the loop; `none` after a stop.
  unfoldable pub round : ℕ → Reply → Turn → Option Reply × Turn
  round left reply t =
      let (results, done) = run_batch reply.tool_calls (say (asks reply) (tick t)) in
      if w.stops t.polls then (none, tick t) else elim results [
        | none ↦ (none, done)
        | some words ↦ ask_on left reply.tool_calls words done
      ]

  -- The loop, with the rounds that are left.
  unfoldable pub tool_loop : ℕ → Reply → Turn → Option Reply × Turn
  tool_loop zero reply t = (some reply, t)
  tool_loop (suc left) reply t =
      if is_empty reply.tool_calls
      then (some reply, t)
      else let (next, done) = round left reply t in
        elim next [ none ↦ (none, done) | some r ↦ tool_loop left r done ]

-- How a turn ends: stopped, with the notice of an exhausted loop, with the refusal, or with the
-- content of a reply.
pub data TurnEnd : Type 0 where
  stopped exhausted refused : TurnEnd
  answered : Option Text → TurnEnd

abbrev pub is_refuse : Policy → Bool
is_refuse refuse = true
is_refuse _ = false

abbrev pub is_observe : Policy → Bool
is_observe observe = true
is_observe _ = false

unfoldable pub check_passes : Check → Bool
check_passes c = passes c.result && elim c.grading [ none ↦ true | some g ↦ grading_passes g ]

-- `claim_retry_instruction(grading.unsupported)`, or the instruction on citations, whose list is
-- empty here.
unfoldable pub instruction_for : Check → Message
instruction_for c = elim c.grading [
  | none ↦ rewrites []
  | some g ↦ if passes c.result then rewrites g.unsupported else rewrites []
]

abbrev pub count_grading : Option Usage → Turn → Turn
count_grading used t = record t { gradings = t.gradings + 1; usage = charged used t.usage }

module _ (w : World) (cfg : Config) where
  -- `_grade`: the grading, and whether it could not be made.
  unfoldable pub grade : Turn → (Option ClaimGrading × Bool) × Turn
  grade t =
      let (reply, used) = w.grades t.gradings in
      let grading = grade_claims reply in
      if w.stops t.polls
      then ((none, false), tick t)
      else if cfg.grader_resolves
      then ((grading, is_none grading), count_grading used (tick t))
      else ((none, true), tick t)

  abbrev pub citation_check : Option Text → Turn → Check
  citation_check answer t = record {
    result = check_grounding answer t.evidence;
    grading = none;
    failed = false;
  }

  unfoldable pub graded : Option Text → Turn → Check × Turn
  graded answer t =
      let ((grading, failed), after) = grade t in
      (record (citation_check answer t) { grading = grading; failed = failed }, after)

  unfoldable pub check_answer : Option Text → Turn → Check × Turn
  check_answer answer t =
      if cfg.claim_level && passes (check_grounding answer t.evidence)
      then graded answer t
      else (citation_check answer t, t)

  -- The last look for a stop, and the event.
  unfoldable pub settle : TurnEnd → Check → (retried is_refused : Bool) → Turn → TurnEnd × Turn
  settle end c retried is_refused t =
      if w.stops t.polls
      then (stopped, tick t)
      else (end, emit (grounding_checked c retried is_refused) (tick t))

  unfoldable pub judge : Option Text → Check → Turn → TurnEnd × Turn
  judge answer c t =
      if is_refuse cfg.policy && not (check_passes c)
      then settle refused c true true t
      else settle (answered answer) c true false t

  unfoldable pub check_again : Option Text → Turn → TurnEnd × Turn
  check_again answer t = let (c, after) = check_answer answer t in judge answer c after

  -- The one corrective call, for an answer whose check is `c`.
  unfoldable pub rewrite : Reply → Check → Turn → TurnEnd × Turn
  rewrite reply c t =
      let (again, asked) = ask w (say (instruction_for c) (say (asks reply) t)) in
      if w.stops asked.polls
      then (stopped, tick asked)
      else if is_empty again.tool_calls
      then check_again again.content (tick asked)
      else judge reply.content c (tick asked)

  unfoldable pub ground_answer : Reply → Turn → TurnEnd × Turn
  ground_answer reply t =
      let (c, after) = check_answer reply.content t in
      if not (is_observe cfg.policy) && not (check_passes c)
      then rewrite reply c after
      else settle (answered reply.content) c false false after

  unfoldable pub finish : Reply → Turn → TurnEnd × Turn
  finish reply t = if cfg.has_kb then ground_answer reply t else (answered reply.content, t)

  -- The call without tools when the rounds are used up.
  unfoldable pub wrap : Turn → TurnEnd × Turn
  wrap t =
      let (reply, asked) = ask w (say wrap_up t) in
      if is_silent reply then (exhausted, asked) else finish reply asked

  unfoldable pub conclude : Reply → Turn → TurnEnd × Turn
  conclude reply t =
      if w.stops t.polls
      then (stopped, tick t)
      else if is_empty reply.tool_calls
      then finish reply (tick t)
      else wrap (tick t)

  unfoldable pub run_agent : (unknown_words : String → Text) → Turn → TurnEnd × Turn
  run_agent unknown_words t =
      let (first, asked) = first_ask w cfg.forces_first_call t in
      let (last, done) = tool_loop w unknown_words max_tool_iterations first asked in
      elim last [ none ↦ (stopped, done) | some reply ↦ conclude reply done ]
