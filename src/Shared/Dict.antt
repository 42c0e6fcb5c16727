-- ===== src/Shared/Dict.antt =====
-- Python's dictionary as an association list in insertion order.
use mathlib.Core.Path.{◌≡◌, refl}
use mathlib.Core.Bool.{true, false}
use mathlib.Core.Option.{Option, none, some}
use mathlib.Core.List.{List, [], ◌∷◌}
use native.Mathlib.Omega.{arith}
use bestteam.Shared.Tests.{is_none, if◌then◌else◌}
use bestteam.Shared.Equality.{Eq, ◌==◌, ==-self}

abbrev pub Dict {ℓ} : Type ℓ → Type ℓ → Type ℓ
Dict K V = List (K × V)

module _ {ℓ} {K V : Type ℓ} ⦃e : Eq K⦄ where
  -- `d.get(k)`
  unfoldable pub lookup : K → Dict K V → Option V
  lookup k [] = none
  lookup k ((j, v) ∷ rest) = if j == k then some v else lookup k rest

  -- `d.get(k, default)`
  unfoldable pub lookup_or : V → K → Dict K V → V
  lookup_or v k d = elim (lookup k d) [ none ↦ v | some w ↦ w ]

  -- `d.pop(k, None)`, the dictionary that is left
  unfoldable pub remove : K → Dict K V → Dict K V
  remove k [] = []
  remove k ((j, v) ∷ rest) = let left = remove k rest in if j == k then left else (j, v) ∷ left

  -- `d[k] = v`
  unfoldable pub put : K → V → Dict K V → Dict K V
  put k v [] = (k, v) ∷ []
  put k v ((j, w) ∷ rest) = if j == k then (k, v) ∷ rest else (j, w) ∷ put k v rest

  pub lookup-remove :
      (k j : K) (d : Dict K V) → lookup j (remove k d) ≡ (if k == j then none else lookup j d)
  unfolding lookup remove
  lookup-remove k j [] = ground arith
  lookup-remove k j ((i, v) ∷ rest) =
      ground (arith, lookup-remove k j rest, e.beq_iff i k, e.beq_iff i j, e.beq_iff k j)

  pub lookup-put :
      (k j : K) (v : V) (d : Dict K V)
      → lookup j (put k v d) ≡ (if k == j then some v else lookup j d)
  unfolding lookup put
  lookup-put k j v [] = refl
  lookup-put k j v ((i, w) ∷ rest) =
      ground (arith, lookup-put k j v rest, e.beq_iff i k, e.beq_iff i j, e.beq_iff k j)

  -- No key has two entries.
  abbrev pub HasDistinctKeys : Dict K V → Type 0
  HasDistinctKeys [] = Unit
  HasDistinctKeys ((j, v) ∷ rest) = (is_none (lookup j rest) ≡ true) × HasDistinctKeys rest

  pub remove-HasDistinctKeys :
      (k : K) (d : Dict K V) → HasDistinctKeys d → HasDistinctKeys (remove k d)
  unfolding remove
  remove-HasDistinctKeys k [] h = tt
  remove-HasDistinctKeys k ((i, v) ∷ rest) h =
      ground (arith, remove-HasDistinctKeys k rest h.1, lookup-remove k i rest)

  pub put-HasDistinctKeys :
      (k : K) (v : V) (d : Dict K V) → HasDistinctKeys d → HasDistinctKeys (put k v d)
  unfolding put lookup
  put-HasDistinctKeys k v [] h = (refl, tt)
  put-HasDistinctKeys k v ((i, w) ∷ rest) h =
      ground (
        arith,
        put-HasDistinctKeys k v rest h.1,
        lookup-put k i v rest,
        e.beq_iff i k,
        e.beq_iff k i,
      )

  pub lookup_or-remove :
      (v : V) (k j : K) (d : Dict K V)
      → lookup_or v j (remove k d) ≡ (if k == j then v else lookup_or v j d)
  unfolding lookup_or
  lookup_or-remove v k j d = ground (arith, lookup-remove k j d)

  pub lookup_or-put :
      (v : V) (k j : K) (w : V) (d : Dict K V)
      → lookup_or v j (put k w d) ≡ (if k == j then w else lookup_or v j d)
  unfolding lookup_or
  lookup_or-put v k j w d = ground (arith, lookup-put k j w d)

  pub lookup-put_self : (k : K) (v : V) (d : Dict K V) → lookup k (put k v d) ≡ some v
  lookup-put_self k v d = ground (arith, lookup-put k k v d, ==-self k)

  pub lookup-put_other :
      (k j : K) (v : V) (d : Dict K V) → (k == j) ≡ false → lookup j (put k v d) ≡ lookup j d
  lookup-put_other k j v d h = ground (arith, lookup-put k j v d)

  pub lookup-remove_self : (k : K) (d : Dict K V) → lookup k (remove k d) ≡ none
  lookup-remove_self k d = ground (arith, lookup-remove k k d, ==-self k)

  pub lookup-remove_other :
      (k j : K) (d : Dict K V) → (k == j) ≡ false → lookup j (remove k d) ≡ lookup j d
  lookup-remove_other k j d h = ground (arith, lookup-remove k j d)

  pub lookup_or-put_self : (v : V) (k : K) (w : V) (d : Dict K V) → lookup_or v k (put k w d) ≡ w
  lookup_or-put_self v k w d = ground (arith, lookup_or-put v k k w d, ==-self k)

  pub lookup_or-put_other :
      (v : V) (k j : K) (w : V) (d : Dict K V)
      → (k == j) ≡ false
      → lookup_or v j (put k w d) ≡ lookup_or v j d
  lookup_or-put_other v k j w d h = ground (arith, lookup_or-put v k j w d)

  pub lookup_or-remove_self : (v : V) (k : K) (d : Dict K V) → lookup_or v k (remove k d) ≡ v
  lookup_or-remove_self v k d = ground (arith, lookup_or-remove v k k d, ==-self k)

  pub lookup_or-remove_other :
      (v : V) (k j : K) (d : Dict K V)
      → (k == j) ≡ false
      → lookup_or v j (remove k d) ≡ lookup_or v j d
  lookup_or-remove_other v k j d h = ground (arith, lookup_or-remove v k j d)
