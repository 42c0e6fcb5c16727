-- ===== src/Knowledge/Chunking/Bounds.antt =====
-- The sizes of the chunks of src/bestteam/core/knowledge_base.py.
use bestteam.Shared.{
  ℕ, zero, suc, ◌≤◌, ◌<◌, not, List, [], ◌∷◌, ◌++◌, length, drop, leb, ltb, length-take-le, All,
  All-append, All-filter, inl, inr, arith, Bool-cases, if◌then◌else◌,
}
use bestteam.Shared.Text.{Text, is_empty, strip}
use bestteam.Knowledge.Chunking.{
  slices, even_slices, pieces_of, Packing, flush, pack_step, pack_from, pack_pieces,
  recursive_split, separators_for_suffix, split_pieces,
}
use bestteam.Knowledge.Chunking.Rounding.{ceil_div-pos, ceil_div-ceil_div-le}

abbrev pub Fits : ℕ → Text → Type 0
Fits chunk_size t = (0 < length t) × (length t ≤ chunk_size)

slices-Fits : (fuel size : ℕ) (t : Text) → 0 < size → All (Fits size) (slices fuel size t)
unfolding slices
slices-Fits zero size t h = tt
slices-Fits (suc fuel) size [] h = tt
slices-Fits (suc fuel) (suc size) (c ∷ t) h = (
  (omega arith, omega (arith, length-take-le size t)),
  slices-Fits fuel (suc size) (drop size t) h,
)
slices-Fits (suc fuel) zero (c ∷ t) h = absurd (omega arith)

All-weaken : (a b : ℕ) (ts : List Text) → a ≤ b → All (Fits a) ts → All (Fits b) ts
All-weaken a b [] le h = tt
All-weaken a b (t ∷ ts) le h = ((h.0.0, omega (arith, h.0.1)), All-weaken a b ts le h.1)

even_slices-Fits :
    (chunk_size : ℕ) (t : Text) → 0 < chunk_size → All (Fits chunk_size) (even_slices chunk_size t)
unfolding even_slices slices
even_slices-Fits chunk_size [] h = tt
even_slices-Fits chunk_size (c ∷ t) h =
    All-weaken _ chunk_size (slices (length (c ∷ t)) _ (c ∷ t))
      (ceil_div-ceil_div-le (length (c ∷ t)) chunk_size (omega arith) h)
      (slices-Fits (length (c ∷ t)) _ (c ∷ t) (
        ceil_div-pos (length (c ∷ t)) _ (omega arith)
          (ceil_div-pos (length (c ∷ t)) chunk_size (omega arith) h)))

-- The loop invariant of `_pack_pieces`.
pub record IsPacked (chunk_size : ℕ) (s : Packing) : Type 0 where
  pub closed : All (Fits chunk_size) s.results
  pub open_fits : length s.current ≤ chunk_size

flush-Fits :
    (chunk_size : ℕ) (s : Packing) → IsPacked chunk_size s → All (Fits chunk_size) (flush s)
unfolding flush
flush-Fits chunk_size s w = cases s.current w.open_fits
  where
    cases :
        (t : Text)
        → length t ≤ chunk_size
        → All (Fits chunk_size) (if is_empty t then s.results else s.results ++ t ∷ [])
    cases [] le = w.closed
    cases (c ∷ t) le =
        All-append (Fits chunk_size) s.results ((c ∷ t) ∷ []) w.closed ((omega arith, le), tt)

module _ (split_further : Text → List Text) (chunk_size : ℕ)
    (further : (t : Text) → All (Fits chunk_size) (split_further t)) where
  pack_step-IsPacked :
      (s : Packing) (piece : Text)
      → IsPacked chunk_size s
      → IsPacked chunk_size (pack_step split_further chunk_size s piece)
  unfolding pack_step
  pack_step-IsPacked s piece w = elim (Bool-cases (leb (length (s.current ++ piece)) chunk_size)) [
    | inl fits ↦ rw fits (record { closed = w.closed; open_fits = ground (arith, fits) })
    | inr full ↦ rw full (elim (Bool-cases (ltb chunk_size (length piece))) [
      | inl large ↦ rw large (record {
        closed = All-append (Fits chunk_size) s.results _ w.closed (further (s.current ++ piece));
        open_fits = omega arith;
      })
      | inr small ↦
          rw small
            (record { closed = flush-Fits chunk_size s w; open_fits = ground (arith, small) })
    ])
  ]

  pack_from-Fits :
      (s : Packing) (pieces : List Text)
      → IsPacked chunk_size s
      → All (Fits chunk_size) (pack_from split_further chunk_size s pieces)
  unfolding pack_from
  pack_from-Fits s [] w = flush-Fits chunk_size s w
  pack_from-Fits s (piece ∷ pieces) w =
      pack_from-Fits (pack_step split_further chunk_size s piece) pieces
        (pack_step-IsPacked s piece w)

  pack_pieces-Fits :
      (pieces : List Text) → All (Fits chunk_size) (pack_pieces split_further chunk_size pieces)
  unfolding pack_pieces
  pack_pieces-Fits pieces =
      pack_from-Fits (record { results = []; current = [] }) pieces
        (record { closed = tt; open_fits = omega arith })

whole-Fits :
    (chunk_size : ℕ) (t : Text) (split_up : List Text)
    → All (Fits chunk_size) split_up
    → All
        (Fits chunk_size)
        (if leb (length t) chunk_size then (if is_empty t then [] else t ∷ []) else split_up)
whole-Fits chunk_size [] split_up h = ground (arith, h)
whole-Fits chunk_size (c ∷ t) split_up h = elim (Bool-cases (leb (length (c ∷ t)) chunk_size)) [
  | inl fits ↦ rw fits ((omega arith, ground (arith, fits)), tt)
  | inr large ↦ rw large h
]

-- With a positive chunk size no chunk is empty or longer than the chunk size, whatever the
-- separators.
pub recursive_split-Fits :
    (separators : List Text) (chunk_size : ℕ) (t : Text)
    → 0 < chunk_size
    → All (Fits chunk_size) (recursive_split separators chunk_size t)
unfolding recursive_split
recursive_split-Fits [] chunk_size t h =
    whole-Fits chunk_size t (even_slices chunk_size t) (even_slices-Fits chunk_size t h)
recursive_split-Fits (sep ∷ rest) chunk_size t h =
    whole-Fits chunk_size t _ (elim (Bool-cases (is_empty sep)) [
      | inl last ↦ rw last (even_slices-Fits chunk_size t h)
      | inr more ↦ rw more (
          pack_pieces-Fits (recursive_split rest chunk_size) chunk_size
            (λ u. recursive_split-Fits rest chunk_size u h) (pieces_of sep t))
    ])

pub split_pieces-Fits :
    (chunk_size : ℕ) (suffix t : Text)
    → 0 < chunk_size
    → All (Fits chunk_size) (split_pieces chunk_size suffix t)
unfolding split_pieces
split_pieces-Fits chunk_size suffix t h = elim (Bool-cases (is_empty (strip t))) [
  | inl blank ↦ rw blank tt
  | inr full ↦ rw full (
      All-filter (Fits chunk_size) (λ p. not (is_empty (strip p))) _
        (recursive_split-Fits (separators_for_suffix suffix) chunk_size (strip t) h))
]
