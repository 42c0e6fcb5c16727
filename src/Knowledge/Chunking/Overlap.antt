-- ===== src/Knowledge/Chunking/Overlap.antt =====
-- `_apply_overlap` and `_chunk_text` of src/bestteam/core/knowledge_base.py.
use bestteam.Shared.{
  ℕ, zero, suc, ◌-◌, ◌≤◌, ◌<◌, min, true, List, [], ◌∷◌, ◌++◌, length, take, drop, nat_beq,
  length-drop, length-append, take-append-drop, All, ◌≡◌, refl, sym, inl, inr, arith, Bool-cases,
}
use bestteam.Shared.Int.{ℤ, pos, negsuc, clamp_zero}
use bestteam.Shared.Text.{Text}
use bestteam.Knowledge.Chunking.{
  overlap_with, overlap_from, apply_overlap, split_pieces, chunk_text, chunk_params_valid,
}
use bestteam.Knowledge.Chunking.Bounds.{Fits, split_pieces-Fits}
use mathlib.Core.List.{append-nil}

-- The chunk is the piece behind at most `overlap` characters from the end of the previous piece.
abbrev pub Borrows : ℕ → Text → Text → Text → Type 0
Borrows overlap prev piece chunk =
    (kept : Text) × (borrowed : Text) × (prev ≡ kept ++ borrowed)
    × (chunk ≡ borrowed ++ piece)
    × (length borrowed ≤ overlap)

abbrev BorrowsFrom : ℕ → Text → List Text → List Text → Type 0
BorrowsFrom overlap prev [] [] = Unit
BorrowsFrom overlap prev [] (c ∷ cs) = ⊥
BorrowsFrom overlap prev (p ∷ ps) [] = ⊥
BorrowsFrom overlap prev (p ∷ ps) (c ∷ cs) = Borrows overlap prev p c × BorrowsFrom overlap p ps cs

-- One chunk to a piece: the first as it is, each later one with what it borrows.
abbrev pub AreOverlapped : ℕ → List Text → List Text → Type 0
AreOverlapped overlap [] [] = Unit
AreOverlapped overlap [] (c ∷ cs) = ⊥
AreOverlapped overlap (p ∷ ps) [] = ⊥
AreOverlapped overlap (p ∷ ps) (c ∷ cs) = (c ≡ p) × BorrowsFrom overlap p ps cs

overlap_with-Borrows :
    (overlap chunk_size : ℕ) (prev piece : Text)
    → Borrows overlap prev piece (overlap_with overlap chunk_size prev piece)
unfolding overlap_with
overlap_with-Borrows overlap chunk_size prev piece =
    let available = min overlap (chunk_size - length piece) in
    elim (Bool-cases (nat_beq available 0)) [
      | inl closed ↦ (prev, [], sym (append-nil prev), rw closed refl, omega arith)
      | inr some_room ↦ (
        take (length prev - available) prev,
        drop (length prev - available) prev,
        sym (take-append-drop (length prev - available) prev),
        rw some_room refl,
        omega (arith, length-drop (length prev - available) prev),
      )
    ]

overlap_with-Fits :
    (overlap chunk_size : ℕ) (prev piece : Text)
    → Fits chunk_size piece
    → Fits chunk_size (overlap_with overlap chunk_size prev piece)
unfolding overlap_with
overlap_with-Fits overlap chunk_size prev piece h =
    let available = min overlap (chunk_size - length piece) in
    let borrowed = drop (length prev - available) prev in
    elim (Bool-cases (nat_beq available 0)) [
      | inl closed ↦ rw closed h
      | inr some_room ↦ rw some_room (
        omega (arith, length-append {0} borrowed piece, h.0),
        omega (
          arith,
          length-append {0} borrowed piece,
          length-drop (length prev - available) prev,
          h.1,
        ),
      )
    ]

overlap_from-BorrowsFrom :
    (overlap chunk_size : ℕ) (prev : Text) (ps : List Text)
    → BorrowsFrom overlap prev ps (overlap_from overlap chunk_size prev ps)
unfolding overlap_from
overlap_from-BorrowsFrom overlap chunk_size prev [] = tt
overlap_from-BorrowsFrom overlap chunk_size prev (p ∷ ps) = (
  overlap_with-Borrows overlap chunk_size prev p,
  overlap_from-BorrowsFrom overlap chunk_size p ps,
)

overlap_from-Fits :
    (overlap chunk_size : ℕ) (prev : Text) (ps : List Text)
    → All (Fits chunk_size) ps
    → All (Fits chunk_size) (overlap_from overlap chunk_size prev ps)
unfolding overlap_from
overlap_from-Fits overlap chunk_size prev [] h = tt
overlap_from-Fits overlap chunk_size prev (p ∷ ps) h =
    (overlap_with-Fits overlap chunk_size prev p h.0, overlap_from-Fits overlap chunk_size p ps h.1)

unchanged : (overlap : ℕ) (prev : Text) (ps : List Text) → BorrowsFrom overlap prev ps ps
unchanged overlap prev [] = tt
unchanged overlap prev (p ∷ ps) =
    ((prev, [], sym (append-nil prev), refl, omega arith), unchanged overlap p ps)

apply_overlap-AreOverlapped :
    (overlap : ℤ) (chunk_size : ℕ) (ps : List Text)
    → AreOverlapped (clamp_zero overlap) ps (apply_overlap overlap chunk_size ps)
unfolding apply_overlap
apply_overlap-AreOverlapped overlap chunk_size [] = tt
apply_overlap-AreOverlapped (negsuc n) chunk_size (p ∷ ps) = (refl, unchanged 0 p ps)
apply_overlap-AreOverlapped (pos zero) chunk_size (p ∷ ps) = (refl, unchanged 0 p ps)
apply_overlap-AreOverlapped (pos (suc n)) chunk_size (p ∷ ps) =
    (refl, overlap_from-BorrowsFrom (suc n) chunk_size p ps)

apply_overlap-Fits :
    (overlap : ℤ) (chunk_size : ℕ) (ps : List Text)
    → All (Fits chunk_size) ps
    → All (Fits chunk_size) (apply_overlap overlap chunk_size ps)
unfolding apply_overlap
apply_overlap-Fits overlap chunk_size [] h = tt
apply_overlap-Fits (negsuc n) chunk_size (p ∷ ps) h = h
apply_overlap-Fits (pos zero) chunk_size (p ∷ ps) h = h
apply_overlap-Fits (pos (suc n)) chunk_size (p ∷ ps) h =
    (h.0, overlap_from-Fits (suc n) chunk_size p ps h.1)

positive_size : (size : ℕ) (overlap : ℤ) → chunk_params_valid (pos size) overlap ≡ true → 0 < size
unfolding chunk_params_valid
positive_size size (pos n) h = ground arith
positive_size size (negsuc n) h = cc

-- With accepted parameters every chunk of a document is non-empty and within the chunk size, and
-- the chunks are the pieces of the document, each but the first behind at most the configured
-- number of characters taken from the end of the piece before it.
pub chunk_text-Fits :
    (size : ℕ) (overlap : ℤ) (suffix t : Text)
    → chunk_params_valid (pos size) overlap ≡ true
    → All (Fits size) (chunk_text size overlap suffix t)
      × AreOverlapped
          (clamp_zero overlap)
          (split_pieces size suffix t)
          (chunk_text size overlap suffix t)
unfolding chunk_text
chunk_text-Fits size overlap suffix t valid = (
  apply_overlap-Fits overlap size (split_pieces size suffix t)
      (split_pieces-Fits size suffix t (positive_size size overlap valid)),
  apply_overlap-AreOverlapped overlap size (split_pieces size suffix t),
)
