-- ===== src/Knowledge/Examples.antt =====
-- A short document through the splitter of src/bestteam/core/knowledge_base.py.
use bestteam.Shared.{true, [], ◌∷◌, All, flatten, ◌≡◌, refl, arith}
use bestteam.Shared.Int.{pos, clamp_zero}
use bestteam.Shared.Text.{Text, split, scan, strip, strip_left, strip_right, is_space}
use bestteam.Shared.Literal.{text}
use bestteam.Shared.Equality.{contains}
use bestteam.Knowledge.Chunking.{
  separators_for_suffix, ceil_div, slices, even_slices, attach_suffix, attach_prefix, pieces_of,
  flush, pack_step, pack_from, pack_pieces, recursive_split, overlap_with, overlap_from,
  apply_overlap, split_pieces, chunk_text, chunk_params_valid,
}
use bestteam.Knowledge.Chunking.Lossless.{visible, split_pieces-visible}
use bestteam.Knowledge.Chunking.Bounds.{Fits}
use bestteam.Knowledge.Chunking.Overlap.{AreOverlapped, chunk_text-Fits}

abbrev document : Text
document = text "# A\nOne two. Three four five.\n## B\nsix"

abbrev suffix : Text
suffix = text ".md"

split_pieces-visible_example :
    visible (flatten (split_pieces 12 suffix document)) ≡ visible document
split_pieces-visible_example = split_pieces-visible 12 suffix document (omega arith)

valid : chunk_params_valid (pos 12) (pos 4) ≡ true
unfolding chunk_params_valid
valid = refl

chunk_text-Fits_example :
    All (Fits 12) (chunk_text 12 (pos 4) suffix document)
    × AreOverlapped
        (clamp_zero (pos 4))
        (split_pieces 12 suffix document)
        (chunk_text 12 (pos 4) suffix document)
chunk_text-Fits_example = chunk_text-Fits 12 (pos 4) suffix document valid

program : Unit {0}
unfolding separators_for_suffix contains ceil_div slices even_slices attach_suffix attach_prefix
    pieces_of flush pack_step pack_from pack_pieces recursive_split overlap_with overlap_from
    apply_overlap split_pieces chunk_text split scan strip strip_left strip_right is_space
program = tt

pieces :
    split_pieces 12 suffix (text "aa bb\ncc dd ee ff") ≡ text "aa bb\n" ∷ text "cc dd ee ff" ∷ []
unfolding program
pieces = refl

chunks :
    chunk_text 12 (pos 4) suffix (text "aa bb\ncc dd ee ff")
    ≡ text "aa bb\n" ∷ text "\ncc dd ee ff" ∷ []
unfolding program
chunks = refl
