-- ===== src/Results/Families/Growth.antt =====
-- The loop of `_retry_family_run_ids` of ui/backend/automation_results.py over the levels of a family.
use bestteam.Shared.{
  ℕ, zero, suc, ◌+◌, ◌≤◌, ◌<◌, String, none, some, true, false, not, ◌&&◌, ◌||◌, List, [], ◌∷◌,
  ◌++◌, count_where, length, is_some, All, All-append, All-imp, ◌≡◌, ◌⊎◌, refl, sym, ap, subst, inl,
  inr, arith, Bool-cases, Option-cases, true-and, ◌∙◌,
}
use mathlib.Core.Option.{some-injective}
use mathlib.Core.List.{Memᴰ}
use mathlib.Core.List.Memᴰ
use bestteam.Shared.Equality.{◌==◌, contains, string_eq, ==-self, eq_of_==}
use bestteam.Results.{RunRow}
use bestteam.Results.Families.{is_child, next_frontier, grow}

contains-append :
    (i : String) (xs ys : List String) → contains i (xs ++ ys) ≡ contains i xs || contains i ys
unfolding contains
contains-append i [] ys = refl
contains-append i (x ∷ xs) ys = ground (arith, contains-append i xs ys)

pub All-contains :
    (P : String → Type 0) (i : String) (xs : List String) → All P xs → contains i xs ≡ true → P i
unfolding contains
All-contains P i [] h m = cc
All-contains P i (x ∷ xs) h m = elim (Bool-cases (i == x)) [
  | inl same ↦ subst P (sym (eq_of_== i x same)) h.0
  | inr differ ↦ All-contains P i xs h.1 (ground (arith, m))
]

members : (xs : List String) → All (λ i. contains i xs ≡ true) xs
unfolding contains
members [] = tt
members (x ∷ xs) = (rw (==-self x) refl, All-imp xs (λ i m. rw m (ground arith)) (members xs))

-- How many rows are not in the family yet.
abbrev pub left_out : List String → List RunRow → ℕ
left_out family runs = count_where (λ r. not (contains r.id family)) runs

next-child :
    (family frontier : List String) (r : RunRow) (runs : List RunRow)
    → is_child frontier r && not (contains r.id family) ≡ true
    → next_frontier family frontier (r ∷ runs) ≡ r.id ∷ next_frontier family frontier runs
unfolding next_frontier
next-child family frontier r runs h = rw h refl

next-other :
    (family frontier : List String) (r : RunRow) (runs : List RunRow)
    → is_child frontier r && not (contains r.id family) ≡ false
    → next_frontier family frontier (r ∷ runs) ≡ next_frontier family frontier runs
unfolding next_frontier
next-other family frontier r runs h = rw h refl

-- The children that a round adds are out of the family before and in it after.
left_out-next_frontier :
    (family frontier extra : List String) (runs : List RunRow)
    → All (λ i. contains i extra ≡ true) (next_frontier family frontier runs)
    → left_out (family ++ extra) runs + length (next_frontier family frontier runs)
      ≤ left_out family runs
unfolding next_frontier
left_out-next_frontier family frontier extra [] h = omega arith
left_out-next_frontier family frontier extra (r ∷ runs) h =
    elim (Bool-cases (is_child frontier r && not (contains r.id family))) [
      | inl child ↦
          let e = next-child family frontier r runs child in
          let inside = subst (All (λ i. contains i extra ≡ true)) e h in
          rw e (
            ground (
              arith,
              left_out-next_frontier family frontier extra runs inside.1,
              inside.0,
              contains-append r.id family extra,
              child,
            ))
      | inr other ↦
          let e = next-other family frontier r runs other in
          let inside = subst (All (λ i. contains i extra ≡ true)) e h in
          rw e (
            ground (
              arith,
              left_out-next_frontier family frontier extra runs inside,
              contains-append r.id family extra,
            ))
    ]

grow-empty :
    (fuel : ℕ) (runs : List RunRow) (family : List String) → grow fuel runs family [] ≡ some family
unfolding grow
grow-empty zero runs family = refl
grow-empty (suc fuel) runs family = refl

empty_or_long : (xs : List String) → (xs ≡ []) ⊎ (1 ≤ length xs)
empty_or_long [] = inl refl
empty_or_long (x ∷ xs) = inr (omega arith)

-- The loop ends when it has more fuel than there are rows out of the family.
pub grow_terminates :
    (fuel : ℕ) (runs : List RunRow) (family frontier : List String)
    → left_out family runs < fuel
    → is_some (grow fuel runs family frontier) ≡ true
unfolding grow
grow_terminates zero runs family frontier h = absurd (omega arith)
grow_terminates (suc fuel) runs family [] h = refl
grow_terminates (suc fuel) runs family (i ∷ frontier) h =
    let children = next_frontier family (i ∷ frontier) runs in
    elim (empty_or_long children) [
      | inl none_left ↦
          subst (λ l. is_some (grow fuel runs (family ++ l) l) ≡ true) (sym none_left)
            (ap is_some (grow-empty fuel runs (family ++ [])))
      | inr some_left ↦ grow_terminates fuel runs (family ++ children) children (
          omega (
            arith,
            h,
            some_left,
            left_out-next_frontier family (i ∷ frontier) children runs (members children),
          ))
    ]

-- A run that retries one of the family is in the family, or is a child of the frontier.
abbrev pub IsClosedBut : List RunRow → (family frontier : List String) → Type 0
IsClosedBut runs family frontier =
    (r : RunRow) (p : String)
    → Memᴰ r runs
    → r.retry_of_run_id ≡ some p
    → contains p family ≡ true
    → (contains r.id family ≡ true) ⊎ (contains p frontier ≡ true)

-- A run that retries one of the family is in the family.
abbrev pub IsClosed : List RunRow → List String → Type 0
IsClosed runs family =
    (r : RunRow) (p : String)
    → Memᴰ r runs
    → r.retry_of_run_id ≡ some p
    → contains p family ≡ true
    → contains r.id family ≡ true

contains-next_frontier :
    (family frontier : List String) (runs : List RunRow) (r : RunRow)
    → Memᴰ r runs
    → is_child frontier r ≡ true
    → contains r.id family ≡ false
    → contains r.id (next_frontier family frontier runs) ≡ true
unfolding contains
contains-next_frontier family frontier [] r m child out = absurd (Memᴰ.not-nil m)
contains-next_frontier family frontier (q ∷ runs) r (Memᴰ.head e) child out =
    subst (λ l. contains r.id l ≡ true)
      (sym (
        next-child family frontier q runs (
          subst (λ k. is_child frontier k && not (contains k.id family) ≡ true) e
            (rw child (rw out refl)))))
      (rw (ap (λ k. r.id == k.id) (sym e) ∙ ==-self r.id) refl)
contains-next_frontier family frontier (q ∷ runs) r (Memᴰ.tail m) child out =
    let rest = contains-next_frontier family frontier runs r m child out in
    elim (Bool-cases (is_child frontier q && not (contains q.id family))) [
      | inl taken ↦
          subst (λ l. contains r.id l ≡ true) (sym (next-child family frontier q runs taken))
            (rw rest (ground arith))
      | inr passed ↦
          subst (λ l. contains r.id l ≡ true) (sym (next-other family frontier q runs passed)) rest
    ]

child_of :
    (frontier : List String) (r : RunRow) (p : String)
    → r.retry_of_run_id ≡ some p
    → contains p frontier ≡ true
    → is_child frontier r ≡ true
child_of frontier r p h m = rw h m

IsClosedBut-round :
    (runs : List RunRow) (family frontier : List String)
    → IsClosedBut runs family frontier
    → let children = next_frontier family frontier runs in
      IsClosedBut runs (family ++ children) children
IsClosedBut-round runs family frontier h r p m retries inside =
    let children = next_frontier family frontier runs in
    ground (
      arith,
      contains-append p family children,
      contains-append r.id family children,
      h r p m retries,
      child_of frontier r p retries,
      contains-next_frontier family frontier runs r m,
    )

settled :
    (runs : List RunRow) (family result : List String)
    → IsClosedBut runs family []
    → family ≡ result
    → IsClosed runs result × ((i : String) → contains i family ≡ true → contains i result ≡ true)
unfolding contains
settled runs family result h e =
    subst (λ f. IsClosed runs f × ((i : String) → contains i family ≡ true → contains i f ≡ true)) e
      (λ r p m retries inside. ground (arith, h r p m retries inside), λ i m. m)

-- What the loop returns is closed and has the family that it started from.
pub grow-IsClosed :
    (fuel : ℕ) (runs : List RunRow) (family frontier result : List String)
    → IsClosedBut runs family frontier
    → grow fuel runs family frontier ≡ some result
    → IsClosed runs result × ((i : String) → contains i family ≡ true → contains i result ≡ true)
unfolding grow
grow-IsClosed zero runs family [] result h e =
    settled runs family result h (some-injective family result e)
grow-IsClosed zero runs family (i ∷ frontier) result h e = cc
grow-IsClosed (suc fuel) runs family [] result h e =
    settled runs family result h (some-injective family result e)
grow-IsClosed (suc fuel) runs family (i ∷ frontier) result h e =
    let children = next_frontier family (i ∷ frontier) runs in
    let (closed, kept) =
      grow-IsClosed fuel runs (family ++ children) children result
        (IsClosedBut-round runs family (i ∷ frontier) h) e in
    (closed, λ j m. kept j (contains-append j family children ∙ rw m refl))

parent_of :
    (frontier : List String) (r : RunRow)
    → is_child frontier r ≡ true
    → (p : String) × (r.retry_of_run_id ≡ some p) × (contains p frontier ≡ true)
parent_of frontier r h = elim (Option-cases r.retry_of_run_id) [
  | inl first ↦ absurd (
      childless
        (sym (ap (λ o. elim o [ none ↦ false | some id ↦ contains id frontier ]) first) ∙ h))
  | inr (p, retries) ↦ (
    p,
    retries,
    sym (ap (λ o. elim o [ none ↦ false | some id ↦ contains id frontier ]) retries) ∙ h,
  )
]
  where
    childless : false ≡ true → ⊥
    childless e = cc

next_frontier-All :
    (P : String → Type 0) (family frontier : List String) (runs : List RunRow)
    → ((r : RunRow) (p : String) → Memᴰ r runs → r.retry_of_run_id ≡ some p → P p → P r.id)
    → All P frontier
    → All P (next_frontier family frontier runs)
unfolding next_frontier
next_frontier-All P family frontier [] down g = tt
next_frontier-All P family frontier (r ∷ runs) down g =
    let rest = next_frontier-All P family frontier runs (λ q p m. down q p (Memᴰ.tail m)) g in
    elim (Bool-cases (is_child frontier r && not (contains r.id family))) [
      | inl child ↦
          let (p, retries, inside) = parent_of frontier r (true-and _ _ child).0 in
          subst (All P) (sym (next-child family frontier r runs child))
            (down r p (Memᴰ.head refl) retries (All-contains P p frontier g inside), rest)
      | inr other ↦ subst (All P) (sym (next-other family frontier r runs other)) rest
    ]

-- A predicate that every run passes on to those that retry it holds of all that the loop returns.
pub grow-All :
    (P : String → Type 0) (fuel : ℕ) (runs : List RunRow) (family frontier result : List String)
    → ((r : RunRow) (p : String) → Memᴰ r runs → r.retry_of_run_id ≡ some p → P p → P r.id)
    → All P family
    → All P frontier
    → grow fuel runs family frontier ≡ some result
    → All P result
unfolding grow
grow-All P zero runs family [] result down f g e = subst (All P) (some-injective family result e) f
grow-All P zero runs family (i ∷ frontier) result down f g e = cc
grow-All P (suc fuel) runs family [] result down f g e =
    subst (All P) (some-injective family result e) f
grow-All P (suc fuel) runs family (i ∷ frontier) result down f g e =
    let children = next_frontier family (i ∷ frontier) runs in
    let c = next_frontier-All P family (i ∷ frontier) runs down g in
    grow-All P fuel runs (family ++ children) children result down
      (All-append P family children f c) c e
