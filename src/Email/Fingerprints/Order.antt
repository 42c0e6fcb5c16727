-- ===== src/Email/Fingerprints/Order.antt =====
-- The order of the sets of ui/backend/trigger_health.py.
use bestteam.Shared.{
  Bool, true, false, ◌||◌, List, [], ◌∷◌, filter, All, All-imp, All-filter, ◌≡◌, refl, inl, inr,
  arith, Bool-cases,
}
use bestteam.Shared.Equality.{contains}
use bestteam.Shared.Text.{Text, text_eq, text_beq, text_beq_iff}
use bestteam.Email.Fingerprints.{text_lt, TextSet, insert, to_set}

text_lt_irrefl : (s : Text) → text_lt s s ≡ false
text_lt_irrefl [] = refl
text_lt_irrefl (a ∷ s) = ground (arith, text_lt_irrefl s)

text_lt_trans : (r s t : Text) → text_lt r s ≡ true → text_lt s t ≡ true → text_lt r t ≡ true
text_lt_trans r [] t h k = cc
text_lt_trans r (b ∷ s) [] h k = cc
text_lt_trans [] (b ∷ s) (c ∷ t) h k = refl
text_lt_trans (a ∷ r) (b ∷ s) (c ∷ t) h k = ground (arith, text_lt_trans r s t)

text_lt-total : (s t : Text) → text_beq s t ≡ false → text_lt s t ≡ false → text_lt t s ≡ true
text_lt-total [] [] h k = cc
text_lt-total [] (b ∷ t) h k = cc
text_lt-total (a ∷ s) [] h k = refl
text_lt-total (a ∷ s) (b ∷ t) h k = ground (arith, text_lt-total s t)

text_lt-ne : (s t : Text) → text_lt s t ≡ true → text_beq s t ≡ false
text_lt-ne s [] h = cc
text_lt-ne [] (b ∷ t) h = refl
text_lt-ne (a ∷ s) (b ∷ t) h = ground (arith, text_lt-ne s t)

abbrev pub Below : Text → TextSet → Type 0
Below x ys = All (λ y. text_lt x y ≡ true) ys

abbrev pub IsAscending : TextSet → Type 0
IsAscending [] = Unit
IsAscending (x ∷ xs) = Below x xs × IsAscending xs

insert-Below : (z x : Text) (ys : TextSet) → text_lt z x ≡ true → Below z ys → Below z (insert x ys)
unfolding insert
insert-Below z x [] h b = (h, tt)
insert-Below z x (y ∷ ys) h b = ground (arith, insert-Below z x ys h b.1)

pub insert-IsAscending : (x : Text) (ys : TextSet) → IsAscending ys → IsAscending (insert x ys)
unfolding insert
insert-IsAscending x [] h = (tt, tt)
insert-IsAscending x (y ∷ ys) h = elim (Bool-cases (text_beq x y)) [
  | inl same ↦ rw same h
  | inr differ ↦ rw differ (elim (Bool-cases (text_lt x y)) [
    | inl before ↦ rw before ((before, All-imp ys (λ z b. text_lt_trans x y z before b) h.0), h)
    | inr behind ↦
        rw behind
          (insert-Below y x ys (text_lt-total x y differ behind) h.0, insert-IsAscending x ys h.1)
  ])
]

pub to_set-IsAscending : (xs : List Text) → IsAscending (to_set xs)
unfolding to_set
to_set-IsAscending [] = tt
to_set-IsAscending (x ∷ xs) = insert-IsAscending x (to_set xs) (to_set-IsAscending xs)

insert_front : (x : Text) (ys : TextSet) → Below x ys → insert x ys ≡ x ∷ ys
unfolding insert
insert_front x [] h = refl
insert_front x (y ∷ ys) h = rw (text_lt-ne x y h.0, h.0) refl

-- A list in ascending order is its own set.
pub to_set_of_ascending : (xs : TextSet) → IsAscending xs → to_set xs ≡ xs
unfolding to_set
to_set_of_ascending [] h = refl
to_set_of_ascending (x ∷ xs) h = rw (to_set_of_ascending xs h.1) (insert_front x xs h.0)

pub contains-insert :
    (x z : Text) (ys : TextSet) → contains z (insert x ys) ≡ (text_beq z x || contains z ys)
unfolding insert contains
contains-insert x z [] = refl
contains-insert x z (y ∷ ys) = ground (arith, contains-insert x z ys, text_beq_iff x y)

pub filter-IsAscending :
    (p : Text → Bool) (xs : TextSet) → IsAscending xs → IsAscending (filter p xs)
filter-IsAscending p [] h = tt
filter-IsAscending p (x ∷ xs) h = elim (Bool-cases (p x)) [
  | inl keep ↦ rw keep (All-filter (λ y. text_lt x y ≡ true) p xs h.0, filter-IsAscending p xs h.1)
  | inr skip ↦ rw skip (filter-IsAscending p xs h.1)
]
