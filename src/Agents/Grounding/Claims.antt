-- ===== src/Agents/Grounding/Claims.antt =====
-- What src/bestteam/core/grounding.py makes of the claims that a grader reports.
use bestteam.Shared.{
  ℕ, zero, suc, ◌+◌, Bool, true, false, some, List, [], ◌∷◌, ◌++◌, take, length, leb, count_where,
  All, ◌≡◌, ◌↔◌, refl, sym, ap, ◌∙◌, inl, inr, arith, Bool-cases, subst, if◌then◌else◌,
}
use mathlib.Core.List.{append-nil, append_assoc}
use mathlib.Core.Option.{some-injective}
use bestteam.Shared.Text.{Text, is_empty}
use bestteam.Agents.Grounding.{
  Entry, malformed, judged, ClaimGrading, listed, grade_entries, grade_claims, grading_passes,
  is_blank, max_claims, max_unverified, no_claims, max_label_chars, normalise, accept, reject,
}

-- The entries that are claims, a text with a verdict, in the order of the list.
abbrev pub claims_of : List Entry → List (Text × Bool)
claims_of [] = []
claims_of (malformed ∷ rest) = claims_of rest
claims_of (judged t supported ∷ rest) =
    let more = claims_of rest in if is_blank t then more else (t, supported) ∷ more

abbrev pub label_of : Text × Bool → Text
label_of c = take max_label_chars (normalise c.0)

abbrev pub is_supported : Text × Bool → Bool
is_supported c = c.1

-- The labels of the claims that are not supported.
abbrev pub rejected : List (Text × Bool) → List Text
rejected [] = []
rejected (c ∷ cs) = let more = rejected cs in if is_supported c then more else label_of c ∷ more

-- The second grading is the first with the claims counted.
abbrev Reads : ClaimGrading → List (Text × Bool) → ClaimGrading → Type 0
Reads g cs h =
    (h.claims ≡ g.claims + length cs)
    × (h.supported ≡ g.supported + count_where is_supported cs)
    × (h.unsupported ≡ g.unsupported ++ rejected cs)

Reads-none : (g : ClaimGrading) → Reads g [] g
Reads-none g = (omega arith, omega arith, sym (append-nil g.unsupported))

Reads-accept :
    (t : Text) (g : ClaimGrading) (cs : List (Text × Bool)) (h : ClaimGrading)
    → Reads (accept g) cs h
    → Reads g ((t, true) ∷ cs) h
Reads-accept t g cs h (a, b, c) = (omega (arith, a), omega (arith, b), c)

Reads-reject :
    (t : Text) (g : ClaimGrading) (cs : List (Text × Bool)) (h : ClaimGrading)
    → Reads (reject t g) cs h
    → Reads g ((t, false) ∷ cs) h
Reads-reject t g cs h (a, b, c) =
    (omega (arith, a), b, c ∙ append_assoc g.unsupported (label_of (t, false) ∷ []) (rejected cs))

full_of : (g : ClaimGrading) → g.claims + 0 ≡ max_claims → leb max_claims g.claims ≡ true
full_of g h = ground (arith, h)

room_of :
    (g : ClaimGrading) (n : ℕ) → g.claims + suc n ≡ max_claims → leb max_claims g.claims ≡ false
room_of g n h = ground (arith, h)

grade_entries-Reads :
    (entries : List Entry) (g : ClaimGrading) (n : ℕ)
    → g.claims + n ≡ max_claims
    → Reads g (take n (claims_of entries)) (grade_entries g entries)
unfolding grade_entries
grade_entries-Reads [] g zero h = Reads-none g
grade_entries-Reads [] g (suc n) h = Reads-none g
grade_entries-Reads (malformed ∷ rest) g zero h = rw (full_of g h) (Reads-none g)
grade_entries-Reads (malformed ∷ rest) g (suc n) h =
    rw (room_of g n h) (grade_entries-Reads rest g (suc n) h)
grade_entries-Reads (judged t supported ∷ rest) g zero h = rw (full_of g h) (Reads-none g)
grade_entries-Reads (judged t supported ∷ rest) g (suc n) h =
    rw (room_of g n h) (elim (Bool-cases (is_blank t)) [
      | inl blank ↦ rw blank (grade_entries-Reads rest g (suc n) h)
      | inr said ↦ rw said (elim (Bool-cases supported) [
        | inl good ↦
            rw good
              (Reads-accept t g _ _ (grade_entries-Reads rest (accept g) n (omega (arith, h))))
        | inr bad ↦
            rw bad
              (Reads-reject t g _ _ (grade_entries-Reads rest (reject t g) n (omega (arith, h))))
      ])
    ])

-- Of the claims, those with the verdict and the others, whose labels are kept, are all.
rejected-none :
    (cs : List (Text × Bool))
    → (is_empty (rejected cs) ≡ true) ↔ All (λ c. is_supported c ≡ true) cs
rejected-none [] = (λ h. tt, λ h. refl)
rejected-none ((t, true) ∷ cs) =
    (λ h. (refl, (rejected-none cs).0 h), λ h. (rejected-none cs).1 h.1)
rejected-none ((t, false) ∷ cs) = (λ h. cc, λ h. cc)

is_empty-take : {A : Type 0} (k : ℕ) (xs : List A) → is_empty (take (suc k) xs) ≡ is_empty xs
is_empty-take k [] = refl
is_empty-take k (x ∷ xs) = refl

-- The first claims that a grading reads.
abbrev pub read_claims : List Entry → List (Text × Bool)
read_claims entries = take max_claims (claims_of entries)

-- What a grader lists is graded by its first 20 claims, where an entry without a text or a verdict
-- is no claim: they are counted, those that are supported are counted, and of the labels of the
-- others the first 10 are kept, in the order of the list. The grading passes exactly when each of
-- those claims is supported.
pub grade_claims-passes :
    (entries : List Entry) (g : ClaimGrading)
    → grade_claims (listed entries) ≡ some g
    → (g.claims ≡ length (read_claims entries))
      × (g.supported ≡ count_where is_supported (read_claims entries))
      × (g.unsupported ≡ take max_unverified (rejected (read_claims entries)))
      × ((grading_passes g ≡ true) ↔ All (λ c. is_supported c ≡ true) (read_claims entries))
unfolding grade_claims grading_passes
grade_claims-passes entries g h =
    subst
      (λ x.
        (x.claims ≡ length (read_claims entries))
        × (x.supported ≡ count_where is_supported (read_claims entries))
        × (x.unsupported ≡ take max_unverified (rejected (read_claims entries)))
        × ((is_empty x.unsupported ≡ true)
            ↔ All (λ c. is_supported c ≡ true) (read_claims entries)))
      (some-injective _ _ h)
      (
        omega (arith, read.0),
        omega (arith, read.1),
        ap (take max_unverified) read.2,
        (
          λ clean.
              (rejected-none (read_claims entries)).0
                (ap is_empty (sym read.2) ∙ sym (is_empty-take 9 kept) ∙ clean),
          λ good.
              is_empty-take 9 kept
              ∙ ap is_empty read.2
              ∙ (rejected-none (read_claims entries)).1 good,
        ),
      )
  where
    kept : List Text
    kept = (grade_entries no_claims entries).unsupported

    read : Reads no_claims (read_claims entries) (grade_entries no_claims entries)
    read = grade_entries-Reads entries no_claims max_claims refl
