-- ===== src/Agents/Grounding/Citations.antt =====
-- When an answer passes the check of src/bestteam/core/grounding.py on its citations.
use bestteam.Shared.{
  ℕ, suc, ◌+◌, ◌<◌, Bool, true, Option, List, [], ◌∷◌, take, length, ◌≡◌, ◌↔◌, refl, inl, inr,
  arith, All, Bool-cases, ltb→lt, lt→ltb, true-and, sym, ◌∙◌,
}
use bestteam.Shared.Text.{Text, is_empty}
use bestteam.Agents.Grounding.{
  Evidence, labels_of, is_returned, sort_labels, passes, check_grounding,
}

module _ (returned : Text → Bool) where
  sort_labels-count :
      (ls : List Text)
      → (sort_labels returned ls).0 + length (sort_labels returned ls).1 ≡ length ls
  unfolding sort_labels
  sort_labels-count [] = refl
  sort_labels-count (l ∷ ls) = ground (arith, sort_labels-count ls)

  sort_labels-empty :
      (ls : List Text)
      → (is_empty (sort_labels returned ls).1 ≡ true) ↔ All (λ l. returned l ≡ true) ls
  unfolding sort_labels
  sort_labels-empty [] = (λ h. tt, λ h. refl)
  sort_labels-empty (l ∷ ls) = elim (Bool-cases (returned l)) [
    | inl good ↦ (
      λ h. (good, (sort_labels-empty ls).0 (rw good at h)),
      λ h. rw good ((sort_labels-empty ls).1 h.1),
    )
    | inr bad ↦ (λ h. cc (rw bad at h), λ h. cc h.0)
  ]

is_empty-take : {A : Type 0} (k : ℕ) (xs : List A) → is_empty (take (suc k) xs) ≡ is_empty xs
is_empty-take k [] = refl
is_empty-take k (x ∷ xs) = refl

-- An answer passes exactly when it cites something and every label that it cites is, white space
-- apart, a citation or a document that the turn's searches returned; the bound on what is
-- reported hides no failure. Of the labels cited, those reported as verified and the others before
-- that bound make up all.
pub check_grounding-passes :
    (answer : Option Text) (e : Evidence)
    → ((passes (check_grounding answer e) ≡ true) ↔ (
        (0 < length (labels_of answer))
        × All (λ l. is_returned e.citations e.documents l ≡ true) (labels_of answer)))
      × ((check_grounding answer e).verified
            + length (sort_labels (is_returned e.citations e.documents) (labels_of answer)).1
          ≡ (check_grounding answer e).cited)
unfolding passes check_grounding
check_grounding-passes answer e = (
  (
    λ h.
        let (cites, clean) = true-and _ _ h in
        (
          ltb→lt 0 (length labels) cites,
          (sort_labels-empty returned labels).0 (sym (is_empty-take 9 sorted) ∙ clean),
        ),
    λ h.
        rw
          (
            lt→ltb 0 (length labels) h.0,
            is_empty-take 9 sorted,
            (sort_labels-empty returned labels).1 h.1,
          )
          refl,
  ),
  sort_labels-count returned labels,
)
  where
    labels : List Text
    labels = labels_of answer

    returned : Text → Bool
    returned = is_returned e.citations e.documents

    sorted : List Text
    sorted = (sort_labels returned labels).1
