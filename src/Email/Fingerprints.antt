-- ===== src/Email/Fingerprints.antt =====
-- The outstanding alerts of a trigger, `_parse` and `_encode` of ui/backend/trigger_health.py: a
-- set of texts, kept in ascending order without repetition, and the column that it is stored in.
pub mod Order
pub mod Column
pub mod Sets
use bestteam.Shared.{
  Bool, true, false, Option, none, some, List, [], ◌∷◌, map, filter, not, ◌&&◌, ltb, nat_beq,
  if◌then◌else◌,
}
use bestteam.Shared.Equality.{Eq, ◌==◌, contains}
use bestteam.Shared.Text.{Text, text_eq, is_empty, split, join}

-- The order of Python's strings.
abbrev pub text_lt : Text → Text → Bool
text_lt s [] = false
text_lt [] (b ∷ t) = true
text_lt (a ∷ s) (b ∷ t) = if nat_beq a b then text_lt s t else ltb a b

abbrev pub TextSet : Type 0
TextSet = List Text

-- `s | {x}`
unfoldable pub insert : Text → TextSet → TextSet
insert x [] = x ∷ []
insert x (y ∷ ys) =
    let rest = insert x ys in
    if x == y then y ∷ ys else if text_lt x y then x ∷ y ∷ ys else y ∷ rest

-- `{part for part in parts}`
unfoldable pub to_set : List Text → TextSet
unfolding insert
to_set [] = []
to_set (x ∷ xs) = insert x (to_set xs)

-- `s & clears`
unfoldable pub intersect : TextSet → List Text → TextSet
intersect s others = filter (λ x. contains x others) s

-- `s - others`
unfoldable pub subtract : TextSet → List Text → TextSet
subtract s others = filter (λ x. not (contains x others)) s

abbrev pub comma : Text
comma = b',' ∷ []

abbrev pub or_empty : Option Text → Text
or_empty none = []
or_empty (some t) = t

unfoldable pub parse : Option Text → TextSet
parse column = to_set (filter (λ part. not (is_empty part)) (split comma (or_empty column)))

unfoldable pub encode : TextSet → Option Text
encode outstanding =
    if is_empty (join comma outstanding) then none else some (join comma outstanding)
