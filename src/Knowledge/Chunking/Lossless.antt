-- ===== src/Knowledge/Chunking/Lossless.antt =====
-- The text of the chunks of src/bestteam/core/knowledge_base.py, put together again.
use bestteam.Shared.{
  ℕ, zero, suc, ◌≤◌, ◌<◌, true, not, ◌&&◌, List, [], ◌∷◌, ◌++◌, filter, length, take, drop, flatten,
  leb, ltb, take-append-drop, length-drop, ◌≡◌, refl, sym, ap, ◌∙◌, inl, inr, arith, Bool-cases,
  if◌then◌else◌,
}
use bestteam.Shared.Text.{Text, is_empty, is_space, strip_left, strip_right, strip}
use bestteam.Knowledge.Chunking.{
  slices, even_slices, pieces_of, Packing, flush, pack_step, pack_from, pack_pieces,
  recursive_split, separators_for_suffix, split_pieces,
}
use bestteam.Knowledge.Chunking.Rounding.{ceil_div-pos}
use bestteam.Knowledge.Chunking.Splitting.{flatten-pieces_of}
use mathlib.Core.List.{append-nil, append_assoc}

pub flatten-append : (xs ys : List Text) → flatten (xs ++ ys) ≡ flatten xs ++ flatten ys
flatten-append [] ys = refl
flatten-append (x ∷ xs) ys =
    ap (λ t. x ++ t) (flatten-append xs ys) ∙ sym (append_assoc x (flatten xs) (flatten ys))

-- With a positive size and enough fuel the slices make up the text.
flatten-slices :
    (fuel size : ℕ) (t : Text) → 0 < size → length t ≤ fuel → flatten (slices fuel size t) ≡ t
unfolding slices
flatten-slices zero size [] h le = refl
flatten-slices zero size (c ∷ t) h le = absurd (omega arith)
flatten-slices (suc fuel) size [] h le = refl
flatten-slices (suc fuel) size (c ∷ t) h le =
    ap (λ x. take size (c ∷ t) ++ x)
      (flatten-slices fuel size (drop size (c ∷ t)) h (omega (arith, length-drop size (c ∷ t))))
    ∙ take-append-drop size (c ∷ t)

flatten-even_slices :
    (chunk_size : ℕ) (t : Text) → 0 < chunk_size → flatten (even_slices chunk_size t) ≡ t
unfolding even_slices
flatten-even_slices chunk_size [] h = refl
flatten-even_slices chunk_size (c ∷ t) h =
    flatten-slices (length (c ∷ t)) _ (c ∷ t)
      (ceil_div-pos (length (c ∷ t)) _ (omega arith)
        (ceil_div-pos (length (c ∷ t)) chunk_size (omega arith) h))
      (omega arith)

flatten-flush : (s : Packing) → flatten (flush s) ≡ flatten s.results ++ s.current
unfolding flush
flatten-flush s = cases s.current refl
  where
    cases :
        (t : Text)
        → s.current ≡ t
        → flatten (if is_empty t then s.results else s.results ++ t ∷ []) ≡ flatten s.results ++ t
    cases [] e = sym (append-nil (flatten s.results))
    cases (c ∷ t) e =
        flatten-append s.results ((c ∷ t) ∷ [])
        ∙ ap (λ x. flatten s.results ++ x) (append-nil (c ∷ t))

module _ (split_further : Text → List Text) (chunk_size : ℕ)
    (further : (t : Text) → flatten (split_further t) ≡ t) where
  pack_step-flatten :
      (s : Packing) (piece : Text)
      → flatten (pack_step split_further chunk_size s piece).results
          ++ (pack_step split_further chunk_size s piece).current
        ≡ (flatten s.results ++ s.current) ++ piece
  unfolding pack_step
  pack_step-flatten s piece = elim (Bool-cases (leb (length (s.current ++ piece)) chunk_size)) [
    | inl fits ↦ rw fits (sym (append_assoc (flatten s.results) s.current piece))
    | inr full ↦ rw full (elim (Bool-cases (ltb chunk_size (length piece))) [
      | inl large ↦ rw large (
          append-nil _
          ∙ flatten-append s.results (split_further (s.current ++ piece))
          ∙ ap (λ x. flatten s.results ++ x) (further (s.current ++ piece))
          ∙ sym (append_assoc (flatten s.results) s.current piece))
      | inr small ↦ rw small (ap (λ x. x ++ piece) (flatten-flush s))
    ])
  ]

  pack_from-flatten :
      (s : Packing) (pieces : List Text)
      → flatten (pack_from split_further chunk_size s pieces)
        ≡ (flatten s.results ++ s.current) ++ flatten pieces
  unfolding pack_from
  pack_from-flatten s [] = flatten-flush s ∙ sym (append-nil (flatten s.results ++ s.current))
  pack_from-flatten s (piece ∷ pieces) =
      pack_from-flatten (pack_step split_further chunk_size s piece) pieces
      ∙ ap (λ x. x ++ flatten pieces) (pack_step-flatten s piece)
      ∙ append_assoc (flatten s.results ++ s.current) piece (flatten pieces)

  pack_pieces-flatten :
      (pieces : List Text) → flatten (pack_pieces split_further chunk_size pieces) ≡ flatten pieces
  unfolding pack_pieces
  pack_pieces-flatten pieces = pack_from-flatten (record { results = []; current = [] }) pieces

whole :
    (chunk_size : ℕ) (t : Text) (split_up : List Text)
    → flatten split_up ≡ t
    → flatten (if leb (length t) chunk_size then (if is_empty t then [] else t ∷ []) else split_up)
      ≡ t
whole chunk_size [] split_up e = elim (Bool-cases (leb 0 chunk_size)) [
  | inl fits ↦ rw fits refl
  | inr large ↦ rw large e
]
whole chunk_size (c ∷ t) split_up e = elim (Bool-cases (leb (length (c ∷ t)) chunk_size)) [
  | inl fits ↦ rw fits (append-nil (c ∷ t))
  | inr large ↦ rw large e
]

-- With a positive chunk size, the chunks put together are the text again, whatever the list of
-- separators.
pub flatten-recursive_split :
    (separators : List Text) (chunk_size : ℕ) (t : Text)
    → 0 < chunk_size
    → flatten (recursive_split separators chunk_size t) ≡ t
unfolding recursive_split
flatten-recursive_split [] chunk_size t h =
    whole chunk_size t (even_slices chunk_size t) (flatten-even_slices chunk_size t h)
flatten-recursive_split (sep ∷ rest) chunk_size t h =
    whole chunk_size t _ (elim (Bool-cases (is_empty sep)) [
      | inl last ↦ rw last (flatten-even_slices chunk_size t h)
      | inr more ↦ rw more (
          pack_pieces-flatten (recursive_split rest chunk_size) chunk_size
            (λ u. flatten-recursive_split rest chunk_size u h) (pieces_of sep t)
          ∙ flatten-pieces_of sep t more)
    ])

-- The characters of a text that are not white space, in order.
abbrev pub visible : Text → Text
visible t = filter (λ c. not (is_space c)) t

visible-append : (s t : Text) → visible (s ++ t) ≡ visible s ++ visible t
visible-append [] t = refl
visible-append (c ∷ s) t = ground (arith, visible-append s t)

visible-strip_left : (t : Text) → visible (strip_left t) ≡ visible t
unfolding strip_left
visible-strip_left [] = refl
visible-strip_left (c ∷ t) = ground (arith, visible-strip_left t)

visible-strip_right : (t : Text) → visible (strip_right t) ≡ visible t
unfolding strip_right
visible-strip_right [] = refl
visible-strip_right (c ∷ t) = cases (strip_right t) refl (visible-strip_right t)
  where
    cases :
        (r : Text)
        → strip_right t ≡ r
        → visible r ≡ visible t
        → visible (if is_empty r && is_space c then [] else c ∷ r) ≡ visible (c ∷ t)
    cases [] e h = elim (Bool-cases (is_space c)) [
      | inl space ↦ rw space h
      | inr mark ↦ rw mark (rw mark (ap (λ x. c ∷ x) h))
    ]
    cases (d ∷ r) e h = ground (arith, h)

visible-strip : (t : Text) → visible (strip t) ≡ visible t
unfolding strip
visible-strip t = visible-strip_right (strip_left t) ∙ visible-strip_left t

visible_of_blank : (t : Text) → is_empty (strip t) ≡ true → visible t ≡ []
visible_of_blank t h = sym (visible-strip t) ∙ empty (strip t) h
  where
    empty : (s : Text) → is_empty s ≡ true → visible s ≡ []
    empty [] h = refl
    empty (c ∷ s) h = cc

visible-drop_blank :
    (ps : List Text)
    → visible (flatten (filter (λ p. not (is_empty (strip p))) ps)) ≡ visible (flatten ps)
visible-drop_blank [] = refl
visible-drop_blank (p ∷ ps) = elim (Bool-cases (is_empty (strip p))) [
  | inl blank ↦ rw blank (
      visible-drop_blank ps
      ∙ sym (
          visible-append p (flatten ps)
          ∙ ap (λ x. x ++ visible (flatten ps)) (visible_of_blank p blank)))
  | inr full ↦ rw full (
      visible-append p (flatten (filter (λ q. not (is_empty (strip q))) ps))
      ∙ ap (λ x. visible p ++ x) (visible-drop_blank ps)
      ∙ sym (visible-append p (flatten ps)))
]

-- With a positive chunk size, the pieces of a document hold, in order, exactly the document's
-- characters that are not white space, whatever the file's suffix.
pub split_pieces-visible :
    (chunk_size : ℕ) (suffix t : Text)
    → 0 < chunk_size
    → visible (flatten (split_pieces chunk_size suffix t)) ≡ visible t
unfolding split_pieces
split_pieces-visible chunk_size suffix t h = elim (Bool-cases (is_empty (strip t))) [
  | inl blank ↦ rw blank (sym (visible_of_blank t blank))
  | inr full ↦ rw full (
      visible-drop_blank (recursive_split (separators_for_suffix suffix) chunk_size (strip t))
      ∙ ap visible (flatten-recursive_split (separators_for_suffix suffix) chunk_size (strip t) h)
      ∙ visible-strip t)
]
