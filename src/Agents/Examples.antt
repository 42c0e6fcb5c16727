-- ===== src/Agents/Examples.antt =====
-- The theorems on an agent's turn at concrete inputs, and what some turns do.
use bestteam.Shared.{
  ℕ, zero, suc, leb, ◌+◌, ◌≤◌, ◌<◌, String, Bool, true, false, Option, none, some, List, [], ◌∷◌,
  length, take, count_where, ◌≡◌, ◌↔◌, refl, All,
}
use bestteam.Shared.Text.{Text}
use bestteam.Shared.Literal.{text}
use bestteam.Agents.Grounding.{
  Evidence, ClaimGrading, Entry, malformed, judged, listed, grade_entries, grade_claims,
  grading_passes, check_grounding, passes, labels_of, is_returned, sort_labels, max_unverified,
  normalise,
}
use bestteam.Agents.Grounding.Citations.{check_grounding-passes}
use bestteam.Agents.Grounding.Claims.{read_claims, is_supported, rejected, grade_claims-passes}
use bestteam.Agents.Turn.{
  knowledge_base, Reply, returns, Config, refuse, World, Turn, TurnEnd, run_agent,
}
use bestteam.Agents.Turn.Answers.{IsGrounded, run_agent-IsGrounded}

abbrev no_evidence : Evidence
no_evidence = record {
  searches = 0;
  hit_count = 0;
  citations = [];
  documents = [];
  result_texts = [];
}

abbrev search : Reply
search = record {
  tool_calls = record { name = "search_handbook"; id = "c1"; kind = knowledge_base } ∷ [];
  content = some [];
  has_blocks = false;
  usage = some (120, 9);
}

abbrev answer : Text
answer = text "Refunds take 5 days [source: a.pdf, p.3]."

abbrev wrong_answer : Text
wrong_answer = text "Refunds take 5 days [source: b.pdf]."

abbrev reply_of : Text → Reply
reply_of t = record {
  tool_calls = [];
  content = some t;
  has_blocks = false;
  usage = some (200, 20);
}

-- The first request is refused for its tool choice. The first answer cites a document that no search returned; the second is right.
abbrev replies : ℕ → Reply
replies zero = reply_of []
replies (suc zero) = search
replies (suc (suc zero)) = reply_of wrong_answer
replies (suc (suc (suc n))) = reply_of answer

abbrev world : World
world = record {
  streams_nothing = λ n. false;
  refuses_choice = λ n. leb n 0;
  replies = replies;
  outcomes = λ n. returns (text "...") 1 (text "a.pdf, p.3" ∷ []) (text "a.pdf" ∷ []) [];
  grades = λ n. (listed [], none);
  stops = λ n. false;
}

abbrev config : Config
config = record {
  forces_first_call = true;
  has_kb = true;
  policy = refuse;
  claim_level = false;
  grader_resolves = true;
}

abbrev start : Turn
start = record {
  polls = 0;
  requests = 0;
  unanswered = 0;
  tool_runs = 0;
  gradings = 0;
  messages = [];
  events = [];
  usage = [];
  evidence = no_evidence;
}

abbrev unknown_words : String → Text
unknown_words name = text "Error: unknown tool"

end_of : TurnEnd × ℕ × ℕ
end_of =
    let r = run_agent world config unknown_words start in (r.0, r.1.requests, r.1.evidence.searches)

run_agent-IsGrounded_example :
    IsGrounded
      (run_agent world config unknown_words start).1.evidence
      (run_agent world config unknown_words start).0
run_agent-IsGrounded_example = run_agent-IsGrounded world config unknown_words start refl refl

abbrev entries : List Entry
entries = judged (text "5 days") true ∷ malformed ∷ judged (text "free") false ∷ judged [] true ∷ []

abbrev graded_entries : ClaimGrading
graded_entries = record { claims = 2; supported = 1; unsupported = text "free" ∷ [] }

read_entries : grade_claims (listed entries) ≡ some graded_entries
unfolding grade_claims grade_entries normalise bestteam.Agents.Grounding.words_from
    bestteam.Shared.Text.strip bestteam.Shared.Text.is_space bestteam.Shared.Text.strip_left
    bestteam.Shared.Text.strip_right
read_entries = refl

grade_claims-passes_example :
    (2 ≡ length (read_claims entries))
    × (1 ≡ count_where is_supported (read_claims entries))
    × ((text "free" ∷ []) ≡ take max_unverified (rejected (read_claims entries)))
    × ((grading_passes graded_entries ≡ true)
        ↔ All (λ c. is_supported c ≡ true) (read_claims entries))
grade_claims-passes_example = grade_claims-passes entries graded_entries read_entries

abbrev found : Evidence
found = record no_evidence { citations = text "a.pdf, p.3" ∷ []; documents = text "a.pdf" ∷ [] }

check_grounding-passes_example :
    ((passes (check_grounding (some answer) found) ≡ true) ↔ (
      (0 < length (labels_of (some answer)))
      × All (λ l. is_returned found.citations found.documents l ≡ true) (labels_of (some answer))))
    × ((check_grounding (some answer) found).verified
          + length
              (sort_labels
                (is_returned found.citations found.documents)
                (labels_of (some answer))).1
        ≡ (check_grounding (some answer) found).cited)
check_grounding-passes_example = check_grounding-passes (some answer) found
