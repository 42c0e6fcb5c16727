-- ===== src/Runs/Eviction.antt =====
-- `_evict_if_over_bound` of ui/backend/registry.py.
use bestteam.Shared.{
  String, none, some, true, false, [], ◌∷◌, length, leb, ◌≤◌, ◌≡◌, ◌⊎◌, refl, sym, ap, subst, inl,
  inr, arith, All, Bool-cases, leb→le, ◌∙◌, if◌then◌else◌,
}
use bestteam.Shared.Equality.{◌==◌, string_eq, eq_of_==}
use bestteam.Shared.Dict.{Dict, lookup, HasDistinctKeys}
use bestteam.Runs.{Run, Registry, max_retained_runs, is_busy, discard, evict, evict_if_over_bound}
use bestteam.Runs.Slots.{Slot, slot}
use bestteam.Runs.Slots.Membership.{discard_self, discard_other}

-- The slot is as it was, or its run is gone.
abbrev pub IsKeptOrGone : Slot → Slot → Type 0
IsKeptOrGone before after = (after ≡ before) ⊎ (after.run ≡ none)

discard-IsKeptOrGone :
    (i j : String) (s : Registry) → IsKeptOrGone (slot s j) (slot (discard i s) j)
discard-IsKeptOrGone i j s = elim (Bool-cases (i == j)) [
  | inl same ↦ inr (
      subst (λ k. (slot (discard i s) k).run ≡ none) (eq_of_== i j same)
        (ap (λ c. c.run) (discard_self i s)))
  | inr differ ↦ inl (discard_other i j s differ)
]

IsKeptOrGone-trans : (b c d : Slot) → IsKeptOrGone b c → IsKeptOrGone c d → IsKeptOrGone b d
IsKeptOrGone-trans b c d p (inr gone) = inr gone
IsKeptOrGone-trans b c d (inl p) (inl q) = inl (q ∙ p)
IsKeptOrGone-trans b c d (inr p) (inl q) = inr (ap (λ k. k.run) q ∙ p)

evict-IsKeptOrGone :
    (items : Dict String Run) (s : Registry) (j : String)
    → IsKeptOrGone (slot s j) (slot (evict items s) j)
unfolding evict
evict-IsKeptOrGone [] s j = inl refl
evict-IsKeptOrGone ((i, run) ∷ items) s j =
    elim (Bool-cases (leb (length s.runs) max_retained_runs)) [
      | inl few ↦ rw few (inl refl)
      | inr many ↦ rw many (elim (Bool-cases (is_busy run (lookup i s.subscribers))) [
        | inl busy ↦ rw busy (evict-IsKeptOrGone items s j)
        | inr idle ↦ rw idle (
            IsKeptOrGone-trans _ _ _ (discard-IsKeptOrGone i j s)
              (evict-IsKeptOrGone items (discard i s) j))
      ])
    ]

pub evict_if_over_bound-IsKeptOrGone :
    (s : Registry) (j : String) → IsKeptOrGone (slot s j) (slot (evict_if_over_bound s) j)
unfolding evict_if_over_bound
evict_if_over_bound-IsKeptOrGone s j =
    elim (leb (length s.runs) max_retained_runs)
      as (λ b. IsKeptOrGone (slot s j) (slot (if b then s else evict s.runs s) j)) [
        | true ↦ inl refl
        | false ↦ evict-IsKeptOrGone s.runs s j
      ]

-- The run may not be evicted: it is running or has a subscriber.
abbrev pub IsBusy : Slot → Run → Type 0
IsBusy c run = is_busy run c.queues ≡ true

IsBusy-kept :
    (b c : Slot) (run : Run) → IsKeptOrGone b c → IsBusy b run → c.run ≡ some run → IsBusy c run
IsBusy-kept b c run (inl same) busy found = subst (λ k. IsBusy k run) (sym same) busy
IsBusy-kept b c run (inr gone) busy found = cc

-- The registry is within its bound, or the listed runs that are left are busy.
abbrev IsTrimmed : Dict String Run → Registry → Type 0
IsTrimmed items t =
    (length t.runs ≤ max_retained_runs)
    ⊎ All (λ p. (slot t p.0).run ≡ some p.1 → IsBusy (slot t p.0) p.1) items

evict-few :
    (p : String × Run) (items : Dict String Run) (s : Registry)
    → leb (length s.runs) max_retained_runs ≡ true
    → evict (p ∷ items) s ≡ s
unfolding evict
evict-few p items s few = rw few refl

evict-busy :
    (i : String) (run : Run) (items : Dict String Run) (s : Registry)
    → leb (length s.runs) max_retained_runs ≡ false
    → is_busy run (lookup i s.subscribers) ≡ true
    → evict ((i, run) ∷ items) s ≡ evict items s
unfolding evict
evict-busy i run items s many busy = rw (many, busy) refl

evict-idle :
    (i : String) (run : Run) (items : Dict String Run) (s : Registry)
    → leb (length s.runs) max_retained_runs ≡ false
    → is_busy run (lookup i s.subscribers) ≡ false
    → evict ((i, run) ∷ items) s ≡ evict items (discard i s)
unfolding evict
evict-idle i run items s many idle = rw (many, idle) refl

gone_stays : (b c : Slot) (run : Run) → IsKeptOrGone b c → b.run ≡ none → c.run ≡ some run → ⊥
gone_stays b c run (inl same) gone found = cc
gone_stays b c run (inr lost) gone found = cc

IsTrimmed-cons :
    (p : String × Run) (items : Dict String Run) (t : Registry)
    → ((slot t p.0).run ≡ some p.1 → IsBusy (slot t p.0) p.1)
    → IsTrimmed items t
    → IsTrimmed (p ∷ items) t
IsTrimmed-cons p items t head (inl few) = inl few
IsTrimmed-cons p items t head (inr rest) = inr (head, rest)

evict-IsTrimmed : (items : Dict String Run) (s : Registry) → IsTrimmed items (evict items s)
evict-IsTrimmed [] s = inr tt
evict-IsTrimmed ((i, run) ∷ items) s = elim (Bool-cases (leb (length s.runs) max_retained_runs)) [
  | inl few ↦
      subst (IsTrimmed ((i, run) ∷ items)) (sym (evict-few (i, run) items s few))
        (inl (leb→le _ _ few))
  | inr many ↦ elim (Bool-cases (is_busy run (lookup i s.subscribers))) [
    | inl busy ↦ subst (IsTrimmed ((i, run) ∷ items)) (sym (evict-busy i run items s many busy)) (
        IsTrimmed-cons (i, run) items (evict items s)
          (IsBusy-kept _ _ run (evict-IsKeptOrGone items s i) busy) (evict-IsTrimmed items s))
    | inr idle ↦ subst (IsTrimmed ((i, run) ∷ items)) (sym (evict-idle i run items s many idle)) (
        IsTrimmed-cons (i, run) items (evict items (discard i s))
          (λ found. absurd (
            gone_stays _ _ run (evict-IsKeptOrGone items (discard i s) i)
              (ap (λ c. c.run) (discard_self i s)) found))
          (evict-IsTrimmed items (discard i s)))
  ]
]

lookup-All :
    (P : String × Run → Type 0) (i : String) (run : Run) (d : Dict String Run)
    → All P d
    → lookup i d ≡ some run
    → P (i, run)
unfolding lookup
lookup-All P i run [] h found = cc
lookup-All P i run ((j, r) ∷ d) h found = elim (Bool-cases (j == i)) [
  | inl same ↦ subst (λ v. P (i, v)) (the_run same) (subst (λ k. P (k, r)) (eq_of_== j i same) h.0)
  | inr differ ↦ lookup-All P i run d h.1 (ground (arith, found))
]
  where
    the_run : (j == i) ≡ true → r ≡ run
    the_run same = ground (arith, found)

-- After an eviction, at most 1000 runs are retained, or every retained run is running or has a
-- subscriber.
evict_if_over_bound-retains :
    (s : Registry)
    → let t = evict_if_over_bound s in
      (length t.runs ≤ max_retained_runs)
      ⊎ ((i : String) (run : Run) → (slot t i).run ≡ some run → IsBusy (slot t i) run)
unfolding evict_if_over_bound
evict_if_over_bound-retains s = elim (Bool-cases (leb (length s.runs) max_retained_runs)) [
  | inl few ↦ rw few (inl (leb→le _ _ few))
  | inr many ↦ rw many (elim (evict-IsTrimmed s.runs s) [
    | inl few ↦ inl few
    | inr rest ↦ inr λ i run found. elim (evict-IsKeptOrGone s.runs s i) [
      | inl same ↦
          lookup-All
            (λ p.
              (slot (evict s.runs s) p.0).run ≡ some p.1 → IsBusy (slot (evict s.runs s) p.0) p.1)
            i run s.runs rest (sym (ap (λ c. c.run) same) ∙ found) found
      | inr gone ↦ cc
    ]
  ])
]

evict-keeps :
    (i : String) (run : Run) (items : Dict String Run) (s : Registry)
    → All (λ p. (p.0 == i) ≡ true → p.1 ≡ run) items
    → IsBusy (slot s i) run
    → slot (evict items s) i ≡ slot s i
unfolding evict
evict-keeps i run [] s h busy = refl
evict-keeps i run ((j, r) ∷ items) s h busy =
    elim (Bool-cases (leb (length s.runs) max_retained_runs)) [
      | inl few ↦ rw few refl
      | inr many ↦ rw many (elim (Bool-cases (is_busy r (lookup j s.subscribers))) [
        | inl used ↦ rw used (evict-keeps i run items s h.1 busy)
        | inr idle ↦ rw idle (elim (Bool-cases (j == i)) [
          | inl same ↦ absurd (not_idle same idle)
          | inr differ ↦
              evict-keeps i run items (discard j s) h.1
                (subst (λ c. IsBusy c run) (sym (discard_other j i s differ)) busy)
              ∙ discard_other j i s differ
        ])
      ])
    ]
  where
    not_idle : (j == i) ≡ true → is_busy r (lookup j s.subscribers) ≡ false → ⊥
    not_idle same idle = cc (h.0 same, eq_of_== j i same, idle, busy)

no_entry :
    (i : String) (run : Run) (d : Dict String Run)
    → lookup i d ≡ none
    → All (λ p. (p.0 == i) ≡ true → p.1 ≡ run) d
unfolding lookup
no_entry i run [] h = tt
no_entry i run ((j, r) ∷ d) h = ground (arith, no_entry i run d)

only_entry :
    (i : String) (run : Run) (d : Dict String Run)
    → HasDistinctKeys d
    → lookup i d ≡ some run
    → All (λ p. (p.0 == i) ≡ true → p.1 ≡ run) d
unfolding lookup
only_entry i run [] h found = tt
only_entry i run ((j, r) ∷ d) h found = elim (Bool-cases (j == i)) [
  | inl same ↦ (λ e. ground (arith, found), no_entry i run d (missing same))
  | inr differ ↦ (λ e. cc, only_entry i run d h.1 (ground (arith, found)))
]
  where
    missing : (j == i) ≡ true → lookup i d ≡ none
    missing same = subst (λ k. lookup k d ≡ none) (eq_of_== j i same) (ground (arith, h.0))

-- Where no run id has two entries, a run that is running or has a subscriber keeps, under an
-- eviction, all that the registry has of it.
pub evict_if_over_bound-keeps :
    (i : String) (run : Run) (s : Registry)
    → HasDistinctKeys s.runs
    → (slot s i).run ≡ some run
    → IsBusy (slot s i) run
    → slot (evict_if_over_bound s) i ≡ slot s i
unfolding evict_if_over_bound
evict_if_over_bound-keeps i run s h found busy =
    elim (Bool-cases (leb (length s.runs) max_retained_runs)) [
      | inl few ↦ rw few refl
      | inr many ↦ rw many (evict-keeps i run s.runs s (only_entry i run s.runs h found) busy)
    ]
