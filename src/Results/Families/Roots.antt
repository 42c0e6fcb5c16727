-- ===== src/Results/Families/Roots.antt =====
-- `_retry_family_run_ids` of ui/backend/automation_results.py as a whole.
use bestteam.Shared.{
  ℕ, zero, suc, ◌≤◌, ◌<◌, String, Option, none, some, Bool, true, List, [], ◌∷◌, length, is_some,
  count_where, ◌≡◌, ◌≢◌, ◌↔◌, refl, sym, ap, subst, inl, inr, arith, Bool-cases, Option-cases, ◌∙◌,
}
use mathlib.Core.Option.{some-injective}
use mathlib.Core.List.{Memᴰ}
use bestteam.Shared.Equality.{◌==◌, contains, string_eq, ==-self, eq_of_==}
use bestteam.Results.{RunRow}
use bestteam.Results.Families.{find_run, root_from, grow, retry_family_run_ids}
use bestteam.Results.Families.Growth.{
  IsClosed, grow_terminates, grow-IsClosed, grow-All, All-contains,
}

find_run_lem :
    (id : String) (runs : List RunRow) (r : RunRow)
    → find_run id runs ≡ some r
    → Memᴰ r runs × (r.id ≡ id)
unfolding find_run
find_run_lem id [] r h = cc
find_run_lem id (q ∷ runs) r h = elim (Bool-cases (q.id == id)) [
  | inl same ↦
      let e = some-injective q r (sym (rw same refl) ∙ h) in
      (Memᴰ.head (sym e), ap (λ k. k.id) (sym e) ∙ eq_of_== q.id id same)
  | inr differ ↦ let (m, e) = find_run_lem id runs r (sym (rw differ refl) ∙ h) in (Memᴰ.tail m, e)
]

-- The run retries the root, or a run that does.
pub data Descends (runs : List RunRow) (root : String) : String → Type 0 where
  itself : Descends runs root root
  retried :
      {r : RunRow} {p : String}
      → Memᴰ r runs
      → r.retry_of_run_id ≡ some p
      → Descends runs root p
      → Descends runs root r.id

pub root_from-Descends :
    (fuel : ℕ) (runs : List RunRow) (run : RunRow) (root : String)
    → Memᴰ run runs
    → root_from fuel runs run ≡ some root
    → Descends runs root run.id
unfolding root_from
root_from-Descends zero runs run root m h = cc
root_from-Descends (suc fuel) runs run root m h = elim (Option-cases run.retry_of_run_id) [
  | inl first ↦
      subst (λ i. Descends runs i run.id)
        (some-injective _ _ (sym (rw (first, root_from) refl) ∙ h)) itself
  | inr (p, retries) ↦ elim (Option-cases (find_run p runs)) [
    | inl lost ↦
        subst (λ i. Descends runs i run.id)
          (some-injective _ _ (sym (rw (retries, root_from) (rw lost refl)) ∙ h)) itself
    | inr (parent, found) ↦
        let (inside, e) = find_run_lem p runs parent found in
        retried m retries (
          subst (Descends runs root) e (
            root_from-Descends fuel runs parent root inside
              (sym (rw (retries, root_from) (rw found refl)) ∙ h)))
  ]
]

find_run-none :
    (p : String) (runs : List RunRow) (q : RunRow) → find_run p runs ≡ none → Memᴰ q runs → q.id ≢ p
unfolding find_run
find_run-none p [] q lost m e = elim m [ ]
find_run-none p (r ∷ runs) q lost (Memᴰ.head same) e = cc (lost, found)
  where
    found : find_run p (r ∷ runs) ≡ some r
    found = rw (ap (λ k. k == p) (ap (λ k. k.id) (sym same) ∙ e) ∙ ==-self p) refl
find_run-none p (r ∷ runs) q lost (Memᴰ.tail inside) e = elim (Bool-cases (r.id == p)) [
  | inl here ↦ cc (lost, there here)
  | inr other ↦ find_run-none p runs q (sym (rw other refl) ∙ lost) inside e
]
  where
    there : (r.id == p) ≡ true → find_run p (r ∷ runs) ≡ some r
    there here = rw here refl

-- The root is a run of the table that retries none of its runs.
abbrev pub IsFirst : List RunRow → String → Type 0
IsFirst runs root =
    (r : RunRow) × Memᴰ r runs
    × (r.id ≡ root)
    × ((p : String) (q : RunRow) → r.retry_of_run_id ≡ some p → Memᴰ q runs → q.id ≢ p)

root_from-IsFirst :
    (fuel : ℕ) (runs : List RunRow) (run : RunRow) (root : String)
    → Memᴰ run runs
    → root_from fuel runs run ≡ some root
    → IsFirst runs root
unfolding root_from
root_from-IsFirst zero runs run root m h = cc
root_from-IsFirst (suc fuel) runs run root m h = elim (Option-cases run.retry_of_run_id) [
  | inl first ↦ (
    run,
    m,
    some-injective _ _ (sym (rw (first, root_from) refl) ∙ h),
    λ p q retries inside same. cc (first, retries),
  )
  | inr (p, retries) ↦ elim (Option-cases (find_run p runs)) [
    | inl lost ↦ (
      run,
      m,
      some-injective _ _ (sym (rw (retries, root_from) (rw lost refl)) ∙ h),
      λ i q says inside same.
          find_run-none p runs q lost inside (same ∙ some-injective _ _ (sym says ∙ retries)),
    )
    | inr (parent, found) ↦
        root_from-IsFirst fuel runs parent root (find_run_lem p runs parent found).0
          (sym (rw (retries, root_from) (rw found refl)) ∙ h)
  ]
]

-- A numbering of the runs below their count in which a run that retries another has the larger
-- number, as the order of creation is.
pub record IsNumbering (rank : String → ℕ) (runs : List RunRow) : Type 0 where
  pub bounded : (r : RunRow) → Memᴰ r runs → rank r.id < length runs
  pub earlier :
      (r : RunRow) (p : String) → Memᴰ r runs → r.retry_of_run_id ≡ some p → rank p < rank r.id

root_from_terminates :
    (rank : String → ℕ) (fuel : ℕ) (runs : List RunRow) (run : RunRow)
    → IsNumbering rank runs
    → Memᴰ run runs
    → rank run.id < fuel
    → is_some (root_from fuel runs run) ≡ true
unfolding root_from
root_from_terminates rank zero runs run n m h = absurd (omega arith)
root_from_terminates rank (suc fuel) runs run n m h = elim (Option-cases run.retry_of_run_id) [
  | inl first ↦ rw (first, root_from) refl
  | inr (p, retries) ↦ elim (Option-cases (find_run p runs)) [
    | inl lost ↦ rw (retries, root_from) (rw lost refl)
    | inr (parent, found) ↦
        let (inside, e) = find_run_lem p runs parent found in
        rw (retries, root_from)
          (rw found (
            root_from_terminates rank fuel runs parent n inside
              (subst (λ i. rank i < fuel) (sym e) (omega (arith, n.earlier run p m retries, h)))))
  ]
]

count_where-le : {A : Type 0} (p : A → Bool) (xs : List A) → count_where p xs ≤ length xs
count_where-le p [] = omega arith
count_where-le p (x ∷ xs) = ground (arith, count_where-le p xs)

-- The runs of the family are those that retry the first one or a run that does, the run among them.
abbrev pub IsFamily : List RunRow → RunRow → List String → Type 0
IsFamily runs run family =
    (root : String) × IsFirst runs root
    × ((i : String) → (contains i family ≡ true) ↔ Descends runs root i)
    × Descends runs root run.id

has_root : (root : String) → contains root (root ∷ []) ≡ true
unfolding contains
has_root root = rw (==-self root) refl

all_of_root :
    (runs : List RunRow) (root : String) (family : List String)
    → IsClosed runs family
    → contains root family ≡ true
    → {i : String} → Descends runs root i
    → contains i family ≡ true
all_of_root runs root family closed has itself = has
all_of_root runs root family closed has (retried {r} {p} m retries d) =
    closed r p m retries (all_of_root runs root family closed has d)

retry_family_run_ids_found :
    (runs : List RunRow) (run : RunRow) (root : String)
    → root_from (suc (length runs)) runs run ≡ some root
    → retry_family_run_ids runs run ≡ grow (suc (length runs)) runs (root ∷ []) (root ∷ [])
unfolding retry_family_run_ids
retry_family_run_ids_found runs run root found = rw (found, retry_family_run_ids) refl

-- Both loops end, for a run of the table and runs that only retry earlier ones, and the family has
-- exactly the runs that retry the first one or a run that does, the run itself among them; the first
-- one is a run of the table that retries no run of it.
pub retry_family_run_ids_terminates :
    (rank : String → ℕ) (runs : List RunRow) (run : RunRow)
    → IsNumbering rank runs
    → Memᴰ run runs
    → (family : List String) × (retry_family_run_ids runs run ≡ some family)
      × IsFamily runs run family
retry_family_run_ids_terminates rank runs run n m =
    let fuel = suc (length runs) in
    let (root, found) =
      is_some_lem _
        (root_from_terminates rank fuel runs run n m (omega (arith, n.bounded run m))) in
    let (family, grown) =
      is_some_lem _ (
        grow_terminates fuel runs (root ∷ []) (root ∷ []) (omega (arith, count_where-le _ runs))) in
    let (closed, kept) =
      grow-IsClosed fuel runs (root ∷ []) (root ∷ []) family (λ r p _ _ inside. inr inside) grown in
    let sound =
      grow-All (Descends runs root) fuel runs (root ∷ []) (root ∷ []) family
        (λ r p inside retries d. retried inside retries d) (itself, tt) (itself, tt) grown in
    (
      family,
      retry_family_run_ids_found runs run root found ∙ grown,
      (
        root,
        root_from-IsFirst fuel runs run root m found,
        λ i. (
          All-contains (Descends runs root) i family sound,
          λ d. all_of_root runs root family closed (kept root (has_root root)) d,
        ),
        root_from-Descends fuel runs run root m found,
      ),
    )
  where
    is_some_lem : {A : Type 0} (o : Option A) → is_some o ≡ true → (a : A) × (o ≡ some a)
    is_some_lem none h = cc
    is_some_lem (some a) h = (a, refl)
