-- ===== src/Results/Rows.antt =====
-- The rows that ui/backend/automation_results.py adds for a batch.
use bestteam.Shared.{
  ◌+◌, max, String, some, Bool, true, false, not, ◌&&◌, ◌||◌, List, [], ◌∷◌, ◌++◌, nat_beq, any,
  count_where, All, ◌≡◌, refl, sym, ap, ap₂, inl, inr, arith, Bool-cases, if◌then◌else◌, ◌∙◌,
}
use bestteam.Shared.Equality.{◌==◌, contains, string_eq, ==-self}
use bestteam.Shared.Text.{Text, text_eq}
use bestteam.Results.{AutomationItemResult, is_row, rows_to_add, add_all, existing_keys}
use mathlib.Core.List.{append-nil, append_assoc}

-- No message is listed twice.
abbrev pub IsDistinct : List Text → Type 0
IsDistinct [] = Unit
IsDistinct (u ∷ us) = All (λ v. (u == v) ≡ false) us × IsDistinct us

abbrev pub has_row : String → Text → List AutomationItemResult → Bool
has_row run_id key table = any (is_row run_id key) table

pub any-append :
    {A : Type 0} (p : A → Bool) (xs ys : List A) → any p (xs ++ ys) ≡ any p xs || any p ys
any-append p [] ys = refl
any-append p (x ∷ xs) ys = ground (arith, any-append p xs ys)

count_where-append :
    {A : Type 0} (p : A → Bool) (xs ys : List A)
    → count_where p (xs ++ ys) ≡ count_where p xs + count_where p ys
count_where-append p [] ys = omega arith
count_where-append p (x ∷ xs) ys = ground (arith, count_where-append p xs ys)

pub any-count :
    {A : Type 0} (p : A → Bool) (xs : List A) → any p xs ≡ not (nat_beq (count_where p xs) 0)
any-count p [] = refl
any-count p (x ∷ xs) = ground (arith, any-count p xs)

-- The keys of the run's rows are the keys that have a row.
pub contains-existing_keys :
    (run_id : String) (key : Text) (table : List AutomationItemResult)
    → contains key (existing_keys run_id table) ≡ has_row run_id key table
unfolding existing_keys contains
contains-existing_keys run_id key [] = refl
contains-existing_keys run_id key (r ∷ table) = ground (
  arith,
  contains-existing_keys run_id key table,
  text_eq.beq_iff key r.source_key,
  text_eq.beq_iff r.source_key key,
)

contains-distinct :
    (u : Text) (us : List Text) → All (λ v. (u == v) ≡ false) us → contains u us ≡ false
unfolding contains
contains-distinct u [] d = refl
contains-distinct u (v ∷ us) d = ground (arith, contains-distinct u us d.1)

-- A way to make rows that gives each the run and the key of its message.
abbrev pub IsKeyed : String → (Text → Text) → (Text → AutomationItemResult) → Type 0
IsKeyed run_id key_of row_of =
    (u : Text) → ((row_of u).run_id ≡ run_id) × ((row_of u).source_key ≡ key_of u)

module _ (run_id : String) (key_of : Text → Text) (row_of : Text → AutomationItemResult)
    (keyed : IsKeyed run_id key_of row_of)
    (injective : (u v : Text) → key_of u ≡ key_of v → u ≡ v) where
  is_row-row_of : (u v : Text) → is_row run_id (key_of u) (row_of v) ≡ (v == u)
  is_row-row_of u v = ground (
    arith,
    (keyed v).0,
    (keyed v).1,
    ==-self run_id,
    text_eq.beq_iff (key_of v) (key_of u),
    text_eq.beq_iff v u,
    injective v u,
  )

  -- The messages that are not known to have a row have none.
  abbrev IsOpen : List Text → List AutomationItemResult → List Text → Type 0
  IsOpen existing table us =
      All (λ u. contains (key_of u) existing ≡ false → has_row run_id (key_of u) table ≡ false) us

  still-IsOpen :
      (existing : List Text) (table : List AutomationItemResult) (u : Text) (us : List Text)
      → All (λ v. (u == v) ≡ false) us
      → IsOpen existing table us
      → IsOpen existing (table ++ row_of u ∷ []) us
  still-IsOpen existing table u [] d o = tt
  still-IsOpen existing table u (v ∷ us) d o = (
    λ new.
        any-append (is_row run_id (key_of v)) table (row_of u ∷ [])
        ∙ ground (arith, o.0 new, is_row-row_of v u, d.0),
    still-IsOpen existing table u us d.1 o.1,
  )

  pub add_all-rows_to_add :
      (existing : List Text) (us : List Text) (table : List AutomationItemResult)
      → IsDistinct us
      → IsOpen existing table us
      → add_all table (rows_to_add row_of key_of existing us)
        ≡ some (table ++ rows_to_add row_of key_of existing us)
  unfolding rows_to_add add_all
  add_all-rows_to_add existing [] table d o = ap some (sym (append-nil table))
  add_all-rows_to_add existing (u ∷ us) table d o =
      elim (Bool-cases (contains (key_of u) existing)) [
        | inl known ↦ rw known (add_all-rows_to_add existing us table d.1 o.1)
        | inr new ↦ rw new (
            rw (ap₂ (λ i k. has_row i k table) (keyed u).0 (keyed u).1 ∙ o.0 new) (
              add_all-rows_to_add existing us (table ++ row_of u ∷ []) d.1
                (still-IsOpen existing table u us d.0 o.1)
              ∙ ap some
                  (append_assoc table (row_of u ∷ []) (rows_to_add row_of key_of existing us))))
      ]

  -- How many rows of a message are added.
  count-rows_to_add :
      (existing : List Text) (u : Text) (us : List Text)
      → IsDistinct us
      → count_where (is_row run_id (key_of u)) (rows_to_add row_of key_of existing us)
        ≡ (if contains u us && not (contains (key_of u) existing) then 1 else 0)
  unfolding rows_to_add contains
  count-rows_to_add existing u [] d = refl
  count-rows_to_add existing u (v ∷ us) d = ground (
    arith,
    count-rows_to_add existing u us d.1,
    is_row-row_of u v,
    contains-distinct v us d.0,
    text_eq.beq_iff u v,
    text_eq.beq_iff v u,
  )

  IsOpen-existing_keys :
      (table : List AutomationItemResult) (us : List Text)
      → IsOpen (existing_keys run_id table) table us
  IsOpen-existing_keys table [] = tt
  IsOpen-existing_keys table (u ∷ us) = (
    λ new. sym (contains-existing_keys run_id (key_of u) table) ∙ new,
    IsOpen-existing_keys table us,
  )

  -- The rows of a batch with no message twice are added, and each message has the rows that it had, or one.
  pub add_all-existing_keys :
      (us : List Text) (table : List AutomationItemResult)
      → IsDistinct us
      → let new = rows_to_add row_of key_of (existing_keys run_id table) us in
        (add_all table new ≡ some (table ++ new))
        × ((u : Text)
            → contains u us ≡ true
            → count_where (is_row run_id (key_of u)) (table ++ new)
              ≡ max 1 (count_where (is_row run_id (key_of u)) table))
  add_all-existing_keys us table d = (
    add_all-rows_to_add (existing_keys run_id table) us table d (IsOpen-existing_keys table us),
    λ u member.
        count_where-append (is_row run_id (key_of u)) table _
        ∙ ground (
          arith,
          count-rows_to_add (existing_keys run_id table) u us d,
          contains-existing_keys run_id (key_of u) table,
          any-count (is_row run_id (key_of u)) table,
        ),
  )
