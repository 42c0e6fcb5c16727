-- ===== src/Agents/Grounding.antt =====
-- src/bestteam/core/grounding.py: the citations of an answer against what the searches of its turn
-- returned, and the claims of an answer as its grader judged them.
pub mod Citations
pub mod Claims
use Prim.Native.Nat.{◌≤◌}
use bestteam.Shared.{
  ℕ, zero, suc, ◌+◌, ◌-◌, Bool, true, false, not, ◌&&◌, ◌||◌, Option, none, some, List, [], ◌∷◌,
  ◌++◌, map, filter, take, drop, length, nat_beq, leb, ltb, if◌then◌else◌,
}
use bestteam.Shared.Equality.{◌==◌, contains}
use bestteam.Shared.Text.{Text, text_eq, is_empty, is_space, strip, starts_with, join}
use bestteam.Shared.Literal.{text}

abbrev pub max_unverified : ℕ
max_unverified = 10

abbrev pub max_label_chars : ℕ
max_label_chars = 200

abbrev pub max_claims : ℕ
max_claims = 20

-- `t.split()`, with `piece` read of the word at hand.
unfoldable pub words_from : Text → Text → List Text
words_from piece [] = if is_empty piece then [] else piece ∷ []
words_from piece (c ∷ t) =
    let cut = words_from [] t in
    let more = words_from (piece ++ c ∷ []) t in
    if is_space c then (if is_empty piece then cut else piece ∷ cut) else more

unfoldable pub normalise : Text → Text
unfolding words_from
normalise label = join (text " ") (words_from [] label)

abbrev pub tag_start : Text
tag_start = text "[source:"

-- What stands before the first `]`.
unfoldable pub until_close : Text → Option Text
until_close [] = none
until_close (c ∷ t) =
    if nat_beq c b']'
    then some []
    else elim (until_close t) [ none ↦ none | some inside ↦ some (c ∷ inside) ]

-- `CITATION_TAG` at the front of a text: the label, and the length of the match.
unfoldable pub tag_at : Text → Option (Text × ℕ)
tag_at t =
    if starts_with tag_start t
    then elim (until_close (drop (length tag_start) t)) [
      | none ↦ none
      | some inside ↦ some (strip inside, length tag_start + length inside + 1)
    ]
    else none

-- `CITATION_TAG.findall(t)`; `skip` characters of a match are still to be passed over.
unfoldable pub find_tags : ℕ → Text → List Text
find_tags skip [] = []
find_tags (suc skip) (c ∷ t) = find_tags skip t
find_tags zero (c ∷ t) = elim (tag_at (c ∷ t)) [
  | none ↦ find_tags zero t
  | some (label, size) ↦ label ∷ find_tags (size - 1) t
]

-- `dict.fromkeys(labels)`, in front of which `seen` have been met.
unfoldable pub distinct : List Text → List Text → List Text
distinct seen [] = []
distinct seen (l ∷ ls) =
    let old = distinct seen ls in
    let new = l ∷ distinct (l ∷ seen) ls in if contains l seen then old else new

-- The haystack is empty for an answer that is not a text.
abbrev pub haystack : Option Text → Text
haystack none = []
haystack (some t) = t

unfoldable pub labels_of : Option Text → List Text
unfolding find_tags distinct
labels_of answer =
    filter (λ l. not (is_empty l)) (distinct [] (map normalise (find_tags zero (haystack answer))))

pub record GroundingResult : Type 0 where
  pub searches : ℕ
  pub hit_count : ℕ
  pub cited : ℕ
  pub verified : ℕ
  pub unverified : List Text

unfoldable pub passes : GroundingResult → Bool
passes r = ltb 0 r.cited && is_empty r.unverified

-- `label in returned or label in returned_files`
unfoldable pub is_returned : List Text → List Text → Text → Bool
is_returned citations documents label =
    contains label (map normalise citations) || contains label (map normalise documents)

-- The loop over the labels: how many are verified, and the others, cut.
unfoldable pub sort_labels : (Text → Bool) → List Text → ℕ × List Text
sort_labels returned [] = (0, [])
sort_labels returned (l ∷ ls) =
    let (verified, unverified) = sort_labels returned ls in
    if returned l
    then (suc verified, unverified)
    else (verified, take max_label_chars l ∷ unverified)

-- What the searches of a turn have returned.
pub record Evidence : Type 0 where
  pub searches : ℕ
  pub hit_count : ℕ
  pub citations : List Text
  pub documents : List Text
  pub result_texts : List Text

unfoldable pub check_grounding : Option Text → Evidence → GroundingResult
check_grounding answer e =
    let labels = labels_of answer in
    let (verified, unverified) = sort_labels (is_returned e.citations e.documents) labels in
    record {
      searches = e.searches;
      hit_count = e.hit_count;
      cited = length labels;
      verified = verified;
      unverified = take max_unverified unverified;
    }

-- One entry of the grader's list: its text and its verdict, where it has both.
pub data Entry : Type 0 where
  malformed : Entry
  judged : Text → (supported : Bool) → Entry

pub record ClaimGrading : Type 0 where
  pub claims : ℕ
  pub supported : ℕ
  pub unsupported : List Text

unfoldable pub grading_passes : ClaimGrading → Bool
grading_passes g = is_empty g.unsupported

abbrev pub is_blank : Text → Bool
is_blank t = is_empty (strip t)

abbrev pub accept : ClaimGrading → ClaimGrading
accept g = record g { claims = g.claims + 1; supported = g.supported + 1 }

abbrev pub reject : Text → ClaimGrading → ClaimGrading
reject t g = record g {
  claims = g.claims + 1;
  unsupported = g.unsupported ++ take max_label_chars (normalise t) ∷ [];
}

-- The loop over the entries, with what has been counted.
unfoldable pub grade_entries : ClaimGrading → List Entry → ClaimGrading
grade_entries g [] = g
grade_entries g (malformed ∷ rest) =
    let next = grade_entries g rest in if leb max_claims g.claims then g else next
grade_entries g (judged t supported ∷ rest) =
    let skip = grade_entries g rest in
    let good = grade_entries (accept g) rest in
    let bad = grade_entries (reject t g) rest in
    if leb max_claims g.claims
    then g
    else if is_blank t
    then skip
    else if supported
    then good
    else bad

abbrev pub no_claims : ClaimGrading
no_claims = record { claims = 0; supported = 0; unsupported = [] }

-- What the grader's answer is: no answer, an answer without a list of claims, or the list.
pub data GraderAnswer : Type 0 where
  fails unusable : GraderAnswer
  listed : List Entry → GraderAnswer

unfoldable pub grade_claims : GraderAnswer → Option ClaimGrading
grade_claims fails = none
grade_claims unusable = none
grade_claims (listed entries) =
    let g = grade_entries no_claims entries in
    some (record g { unsupported = take max_unverified g.unsupported })
