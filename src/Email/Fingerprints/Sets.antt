-- ===== src/Email/Fingerprints/Sets.antt =====
-- The sets that `evaluate` of ui/backend/trigger_health.py writes back to the column.
use bestteam.Shared.{
  Bool, ◌&&◌, not, Option, List, [], ◌∷◌, filter, All-filter, ◌≡◌, refl, ap, inl, inr, arith,
  Bool-cases,
}
use bestteam.Shared.Equality.{contains}
use bestteam.Shared.Text.{Text, text_eq, text_beq, text_beq_iff}
use bestteam.Email.Fingerprints.{TextSet, insert, intersect, subtract, parse, encode}
use bestteam.Email.Fingerprints.Order.{insert-IsAscending, filter-IsAscending}
use bestteam.Email.Fingerprints.Column.{
  IsMember, IsCanonical, insert-members, parse-IsCanonical, parse-encode,
}

pub parse-encode-insert :
    (f : Text) (s : TextSet) → IsMember f → IsCanonical s → parse (encode (insert f s)) ≡ insert f s
parse-encode-insert f s m w = parse-encode (insert f s) (record {
  ascending = insert-IsAscending f s w.ascending;
  members = insert-members f s m w.members;
})

pub parse-encode-filter :
    (p : Text → Bool) (s : TextSet) → IsCanonical s → parse (encode (filter p s)) ≡ filter p s
parse-encode-filter p s w = parse-encode (filter p s) (record {
  ascending = filter-IsAscending p s w.ascending;
  members = All-filter IsMember p s w.members;
})

-- A column that is read and written back keeps its members.
pub parse-encode-parse : (column : Option Text) → parse (encode (parse column)) ≡ parse column
parse-encode-parse column = parse-encode (parse column) (parse-IsCanonical column)

pub contains-filter :
    (g : Text) (p : Text → Bool) (s : TextSet) → contains g (filter p s) ≡ (contains g s && p g)
unfolding contains
contains-filter g p [] = refl
contains-filter g p (x ∷ s) = elim (Bool-cases (text_beq g x)) [
  | inl same ↦ ground (arith, contains-filter g p s, ap p ((text_beq_iff g x).0 same))
  | inr differ ↦ ground (arith, contains-filter g p s)
]

pub contains-intersect :
    (g : Text) (s : TextSet) (l : List Text)
    → contains g (intersect s l) ≡ (contains g s && contains g l)
unfolding intersect
contains-intersect g s l = contains-filter g (λ x. contains x l) s

pub contains-subtract :
    (g : Text) (s : TextSet) (l : List Text)
    → contains g (subtract s l) ≡ (contains g s && not (contains g l))
unfolding subtract
contains-subtract g s l = contains-filter g (λ x. not (contains x l)) s

pub parse-encode-subtract :
    (s : TextSet) (l : List Text) → IsCanonical s → parse (encode (subtract s l)) ≡ subtract s l
unfolding subtract
parse-encode-subtract s l w = parse-encode-filter (λ x. not (contains x l)) s w
