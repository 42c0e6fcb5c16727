-- ===== src/Shared/Literal.antt =====
-- A string literal as a list of code points.
use Prim.Native.Char.{code}
use Prim.Native.String.{String, [], ◌∷◌}
use mathlib.Core.List.{[] as nil, ◌∷◌ as ◌⊳◌}
use bestteam.Shared.Text.{Text}

abbrev pub text : String → Text
text [] = nil
text (c ∷ cs) = code c ⊳ text cs
