-- ===== src/Knowledge/Chunking.antt =====
-- Structure-aware splitting of a document, src/bestteam/core/knowledge_base.py. Sizes count code
-- points. `_pack_pieces` and `_recursive_split` call each other; the first takes the second's
-- recursive call as an argument, and the recursion is on the list of separators.
pub mod Rounding
pub mod Splitting
pub mod Lossless
pub mod Bounds
pub mod Overlap
use bestteam.Shared.{
  ℕ, zero, suc, ◌+◌, ◌-◌, ◌/◌, min, Bool, true, false, not, ◌&&◌, List, [], ◌∷◌, ◌++◌, map, filter,
  length, take, drop, leb, ltb, nat_beq, if◌then◌else◌,
}
use bestteam.Shared.Int.{ℤ, pos, negsuc}
use bestteam.Shared.Equality.{Eq, ◌==◌, contains}
use bestteam.Shared.Text.{Text, text_eq, is_empty, strip, split}

abbrev pub newline : ℕ
newline = 10

abbrev pub paragraph_mark : Text
paragraph_mark = newline ∷ newline ∷ []

-- "\n\n", "\n", "。", "！", "？", ". ", " ", ""
abbrev pub default_separators : List Text
default_separators =
    paragraph_mark
    ∷ (newline ∷ [])
    ∷ (0x3002 ∷ [])
    ∷ (0xff01 ∷ [])
    ∷ (0xff1f ∷ [])
    ∷ (b'.' ∷ b' ' ∷ [])
    ∷ (b' ' ∷ [])
    ∷ []
    ∷ []

-- "\n# ", "\n## ", "\n### ", "\n#### "
abbrev pub prefix_separators : List Text
prefix_separators =
    (newline ∷ b'#' ∷ b' ' ∷ [])
    ∷ (newline ∷ b'#' ∷ b'#' ∷ b' ' ∷ [])
    ∷ (newline ∷ b'#' ∷ b'#' ∷ b'#' ∷ b' ' ∷ [])
    ∷ (newline ∷ b'#' ∷ b'#' ∷ b'#' ∷ b'#' ∷ b' ' ∷ [])
    ∷ []

abbrev pub markdown_separators : List Text
markdown_separators = prefix_separators ++ default_separators

-- ".md", ".docx"
abbrev pub markdown_suffixes : List Text
markdown_suffixes = (b'.' ∷ b'm' ∷ b'd' ∷ []) ∷ (b'.' ∷ b'd' ∷ b'o' ∷ b'c' ∷ b'x' ∷ []) ∷ []

unfoldable pub separators_for_suffix : Text → List Text
separators_for_suffix suffix =
    if contains suffix markdown_suffixes then markdown_separators else default_separators

-- `-(-a // b)`
unfoldable pub ceil_div : ℕ → ℕ → ℕ
ceil_div a b = (a + (b - 1)) / b

-- `[text[i : i + size] for i in range(0, length, size)]`; the fuel is the length.
unfoldable pub slices : ℕ → ℕ → Text → List Text
slices zero size t = []
slices (suc fuel) size [] = []
slices (suc fuel) size (c ∷ cs) = take size (c ∷ cs) ∷ slices fuel size (drop size (c ∷ cs))

unfoldable pub even_slices : ℕ → Text → List Text
unfolding slices
even_slices chunk_size t =
    slices (length t) (ceil_div (length t) (ceil_div (length t) chunk_size)) t

-- `[p + sep for p in raw[:-1]] + [raw[-1]]`
unfoldable pub attach_suffix : Text → List Text → List Text
attach_suffix sep [] = []
attach_suffix sep (p ∷ []) = p ∷ []
attach_suffix sep (p ∷ q ∷ ps) = (p ++ sep) ∷ attach_suffix sep (q ∷ ps)

-- `[raw[0]] + [sep + p for p in raw[1:]]`
unfoldable pub attach_prefix : Text → List Text → List Text
attach_prefix sep [] = []
attach_prefix sep (p ∷ ps) = p ∷ map (λ q. sep ++ q) ps

unfoldable pub pieces_of : Text → Text → List Text
unfolding attach_prefix attach_suffix
pieces_of sep t =
    if contains sep prefix_separators
    then attach_prefix sep (split sep t)
    else attach_suffix sep (split sep t)

-- The loop variables of `_pack_pieces`.
pub record Packing : Type 0 where
  pub results : List Text
  pub current : Text

-- `if current: results.append(current)`
unfoldable pub flush : Packing → List Text
flush s = if is_empty s.current then s.results else s.results ++ s.current ∷ []

module _ (split_further : Text → List Text) (chunk_size : ℕ) where
  unfoldable pub pack_step : Packing → Text → Packing
  pack_step s piece =
      if leb (length (s.current ++ piece)) chunk_size
      then record { results = s.results; current = s.current ++ piece }
      else if ltb chunk_size (length piece)
      then record { results = s.results ++ split_further (s.current ++ piece); current = [] }
      else record { results = flush s; current = piece }

  unfoldable pub pack_from : Packing → List Text → List Text
  pack_from s [] = flush s
  pack_from s (piece ∷ pieces) = pack_from (pack_step s piece) pieces

  unfoldable pub pack_pieces : List Text → List Text
  pack_pieces pieces = pack_from (record { results = []; current = [] }) pieces

unfoldable pub recursive_split : List Text → ℕ → Text → List Text
recursive_split [] chunk_size t =
    if leb (length t) chunk_size
    then (if is_empty t then [] else t ∷ [])
    else even_slices chunk_size t
recursive_split (sep ∷ rest) chunk_size t =
    let packed = pack_pieces (recursive_split rest chunk_size) chunk_size (pieces_of sep t) in
    if leb (length t) chunk_size
    then (if is_empty t then [] else t ∷ [])
    else if is_empty sep
    then even_slices chunk_size t
    else packed

-- The body of the loop of `_apply_overlap`: `prev[-available:] + piece`.
unfoldable pub overlap_with : ℕ → ℕ → Text → Text → Text
overlap_with overlap chunk_size prev piece =
    let available = min overlap (chunk_size - length piece) in
    if nat_beq available 0 then piece else drop (length prev - available) prev ++ piece

unfoldable pub overlap_from : ℕ → ℕ → Text → List Text → List Text
overlap_from overlap chunk_size prev [] = []
overlap_from overlap chunk_size prev (piece ∷ pieces) =
    overlap_with overlap chunk_size prev piece ∷ overlap_from overlap chunk_size piece pieces

unfoldable pub apply_overlap : ℤ → ℕ → List Text → List Text
apply_overlap overlap chunk_size [] = []
apply_overlap (negsuc n) chunk_size (p ∷ ps) = p ∷ ps
apply_overlap (pos zero) chunk_size (p ∷ ps) = p ∷ ps
apply_overlap (pos (suc n)) chunk_size (p ∷ ps) = p ∷ overlap_from (suc n) chunk_size p ps

unfoldable pub split_pieces : ℕ → Text → Text → List Text
split_pieces chunk_size suffix t =
    if is_empty (strip t)
    then []
    else filter (λ p. not (is_empty (strip p)))
        (recursive_split (separators_for_suffix suffix) chunk_size (strip t))

unfoldable pub chunk_text : ℕ → ℤ → Text → Text → List Text
chunk_text chunk_size overlap suffix t =
    apply_overlap overlap chunk_size (split_pieces chunk_size suffix t)

-- `_validate_chunk_params`: whether the parameters are accepted.
unfoldable pub chunk_params_valid : ℤ → ℤ → Bool
chunk_params_valid (negsuc n) overlap = false
chunk_params_valid (pos size) (negsuc n) = false
chunk_params_valid (pos size) (pos overlap) = ltb 0 size && ltb overlap size
