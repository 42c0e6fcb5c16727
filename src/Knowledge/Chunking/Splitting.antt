-- ===== src/Knowledge/Chunking/Splitting.antt =====
-- `str.split` and the separators that src/bestteam/core/knowledge_base.py attaches again.
use bestteam.Shared.{
  ℕ, zero, suc, ◌-◌, true, false, List, [], ◌∷◌, ◌++◌, map, length, drop, flatten, ◌≡◌, refl, sym,
  ap, ◌∙◌, inl, inr, arith, Bool-cases,
}
use bestteam.Shared.Equality.{contains}
use bestteam.Shared.Text.{Text, text_eq, starts_with, scan, split, join, is_empty}
use bestteam.Knowledge.Chunking.{attach_suffix, attach_prefix, pieces_of, prefix_separators}
use mathlib.Core.List.{append-nil, append_assoc}

starts_with-drop : (p t : Text) → starts_with p t ≡ true → p ++ drop (length p) t ≡ t
starts_with-drop [] t h = refl
starts_with-drop (a ∷ p) [] h = cc
starts_with-drop (a ∷ p) (c ∷ t) h = ground (arith, starts_with-drop p t)

-- The pieces of a scan are not empty as a list: this is the join with one more piece in front.
join-scan-cons :
    (sep piece p : Text) (skip : ℕ) (t : Text)
    → join sep (p ∷ scan sep skip piece t) ≡ p ++ sep ++ join sep (scan sep skip piece t)
unfolding scan
join-scan-cons sep piece p skip [] = refl
join-scan-cons sep piece p (suc skip) (c ∷ t) = join-scan-cons sep piece p skip t
join-scan-cons sep piece p zero (c ∷ t) = elim (Bool-cases (starts_with sep (c ∷ t))) [
  | inl here ↦ rw here refl
  | inr not_here ↦ rw not_here (join-scan-cons sep (piece ++ c ∷ []) p zero t)
]

one_less : (rest t : Text) → drop (suc (length rest) - 1) t ≡ drop (length rest) t
one_less rest t = let e : suc (length rest) - 1 ≡ length rest = omega arith in rw e refl

scan-join :
    (first : ℕ) (rest piece : Text) (skip : ℕ) (t : Text)
    → join (first ∷ rest) (scan (first ∷ rest) skip piece t) ≡ piece ++ drop skip t
unfolding scan
scan-join first rest piece zero [] = sym (append-nil piece)
scan-join first rest piece (suc skip) [] = sym (append-nil piece)
scan-join first rest piece (suc skip) (c ∷ t) = scan-join first rest piece skip t
scan-join first rest piece zero (c ∷ t) = elim (Bool-cases (starts_with (first ∷ rest) (c ∷ t))) [
  | inl here ↦ rw here (
      join-scan-cons (first ∷ rest) [] piece (length (first ∷ rest) - 1) t
      ∙ ap (λ x. (piece ++ first ∷ rest) ++ x)
          (scan-join first rest [] (length (first ∷ rest) - 1) t ∙ one_less rest t)
      ∙ append_assoc piece (first ∷ rest) (drop (length rest) t)
      ∙ ap (λ x. piece ++ x) (starts_with-drop (first ∷ rest) (c ∷ t) here))
  | inr not_here ↦
      rw not_here (scan-join first rest (piece ++ c ∷ []) zero t ∙ append_assoc piece (c ∷ []) t)
]

split-join : (first : ℕ) (rest t : Text) → join (first ∷ rest) (split (first ∷ rest) t) ≡ t
unfolding split
split-join first rest t = scan-join first rest [] zero t

flatten-attach_suffix : (sep : Text) (ps : List Text) → flatten (attach_suffix sep ps) ≡ join sep ps
unfolding attach_suffix
flatten-attach_suffix sep [] = refl
flatten-attach_suffix sep (p ∷ []) = append-nil p
flatten-attach_suffix sep (p ∷ q ∷ ps) =
    ap (λ x. (p ++ sep) ++ x) (flatten-attach_suffix sep (q ∷ ps))

flatten-map_prefix :
    (sep p : Text) (ps : List Text) → p ++ flatten (map (λ q. sep ++ q) ps) ≡ join sep (p ∷ ps)
flatten-map_prefix sep p [] = append-nil p
flatten-map_prefix sep p (q ∷ ps) =
    ap (λ x. p ++ x)
      (append_assoc sep q (flatten (map (λ r. sep ++ r) ps))
        ∙ ap (λ x. sep ++ x) (flatten-map_prefix sep q ps))
    ∙ sym (append_assoc p sep (join sep (q ∷ ps)))

flatten-attach_prefix : (sep : Text) (ps : List Text) → flatten (attach_prefix sep ps) ≡ join sep ps
unfolding attach_prefix
flatten-attach_prefix sep [] = refl
flatten-attach_prefix sep (p ∷ ps) = flatten-map_prefix sep p ps

-- Cut at a separator, and with the separator attached again, the pieces make up the text.
pub flatten-pieces_of : (sep t : Text) → is_empty sep ≡ false → flatten (pieces_of sep t) ≡ t
unfolding pieces_of
flatten-pieces_of [] t h = cc
flatten-pieces_of (first ∷ rest) t h =
    elim (Bool-cases (contains (first ∷ rest) prefix_separators)) [
      | inl prefix ↦
          rw prefix (
            flatten-attach_prefix (first ∷ rest) (split (first ∷ rest) t) ∙ split-join first rest t)
      | inr suffix ↦
          rw suffix (
            flatten-attach_suffix (first ∷ rest) (split (first ∷ rest) t) ∙ split-join first rest t)
    ]
