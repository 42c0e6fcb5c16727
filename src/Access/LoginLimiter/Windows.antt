-- ===== src/Access/LoginLimiter/Windows.antt =====
-- The attempts of a key that are still in its window, through every piece of `reserve` in
-- ui/backend/login_rate_limit.py.
use bestteam.Shared.{
  ℕ, ◌≤◌, max, Option, none, some, List, [], ◌∷◌, length, ◌≡◌, inl, inr, refl, subst, ◌∙◌,
  if◌then◌else◌, arith, Bool-cases, Option-cases,
}
use bestteam.Shared.Equality.{◌==◌, string_eq, ==-self}
use bestteam.Shared.Dict.{Dict, lookup, lookup-put, lookup-remove}
use bestteam.Access.LoginLimiter.{
  Key, key_eq, key_beq_iff, Config, drop_expired, store_pruned, nonempty, prune_found, prune,
  wait_of, check_keys, prune_all,
}

-- A missing key has no attempts.
abbrev pub attempts : Option (List ℕ) → List ℕ
attempts none = []
attempts (some w) = w

abbrev pub window_of : Key → Dict Key (List ℕ) → List ℕ
window_of key d = attempts (lookup key d)

pub window_of-store :
    (key j : Key) (w : List ℕ) (d : Dict Key (List ℕ))
    → window_of j (store_pruned key w d) ≡ (if key == j then w else window_of j d)
unfolding store_pruned
window_of-store key j [] d = rw (lookup-remove key j d) (ground arith)
window_of-store key j (t ∷ ts) d = rw (lookup-put key j (t ∷ ts) d) (ground arith)

module _ (cfg : Config) where
  -- The attempts of `key` that count at `now`.
  abbrev pub live_window : ℕ → Key → Dict Key (List ℕ) → List ℕ
  live_window now key d = drop_expired cfg now (window_of key d)

  pub drop_expired-again :
      (now : ℕ) (w : List ℕ)
      → drop_expired cfg now (drop_expired cfg now w) ≡ drop_expired cfg now w
  unfolding drop_expired
  drop_expired-again now [] = refl
  drop_expired-again now (t ∷ ts) = ground (arith, drop_expired-again now ts)

  nothing : (now : ℕ) → [] ≡ drop_expired cfg now []
  unfolding drop_expired
  nothing now = refl

  pub length-drop_expired-le : (now : ℕ) (w : List ℕ) → length (drop_expired cfg now w) ≤ length w
  unfolding drop_expired
  length-drop_expired-le now [] = omega arith
  length-drop_expired-le now (t ∷ ts) = ground (arith, length-drop_expired-le now ts)

  -- A prune leaves what counts at `now` alone, for every key.
  pub window_of-prune :
      (key j : Key) (now : ℕ) (d : Dict Key (List ℕ))
      → window_of j (prune cfg key now d).0
        ≡ (if key == j then live_window now j d else window_of j d)
  unfolding prune
  window_of-prune key j now d = elim (Bool-cases (key == j)) [
    | inl same ↦
        subst
          (λ k.
            window_of k (prune cfg key now d).0
            ≡ (if key == k then live_window now k d else window_of k d))
          ((key_beq_iff key j).0 same) (own (lookup key d) refl)
    | inr other ↦ rw other (elim (Option-cases (lookup key d)) [
      | inl e ↦ rw (e, prune_found) refl
      | inr (w, e) ↦
          rw (e, prune_found) (window_of-store key j (drop_expired cfg now w) d ∙ rw other refl)
    ])
  ]
    where
      own :
          (o : Option (List ℕ))
          → lookup key d ≡ o
          → window_of key (prune_found cfg key now (lookup key d) d).0
            ≡ (if key == key then live_window now key d else window_of key d)
      own none e = rw (e, prune_found, ==-self key) (rw e (nothing now))
      own (some w) e =
          rw (e, prune_found, ==-self key)
            (window_of-store key key (drop_expired cfg now w) d ∙ rw (==-self key) refl)

  prune-result :
      (key : Key) (now : ℕ) (d : Dict Key (List ℕ))
      → (prune cfg key now d).1 ≡ nonempty (live_window now key d)
  unfolding prune drop_expired
  prune-result key now d = elim (Option-cases (lookup key d)) [
    | inl e ↦ rw (e, prune_found) refl
    | inr (w, e) ↦ rw (e, prune_found) refl
  ]

  pub live_window-prune :
      (key j : Key) (now : ℕ) (d : Dict Key (List ℕ))
      → live_window now j (prune cfg key now d).0 ≡ live_window now j d
  live_window-prune key j now d = rw (window_of-prune key j now d) (elim (Bool-cases (key == j)) [
    | inl same ↦ rw same (drop_expired-again now (window_of j d))
    | inr other ↦ rw other refl
  ])

  window_of-prune-le :
      (key j : Key) (now : ℕ) (d : Dict Key (List ℕ))
      → length (window_of j (prune cfg key now d).0) ≤ length (window_of j d)
  window_of-prune-le key j now d = rw (window_of-prune key j now d) (elim (Bool-cases (key == j)) [
    | inl same ↦ rw same (length-drop_expired-le now (window_of j d))
    | inr other ↦ rw other (omega arith)
  ])

  pub live_window-prune_all :
      (keys : List Key) (j : Key) (now : ℕ) (d : Dict Key (List ℕ))
      → live_window now j (prune_all cfg keys now d) ≡ live_window now j d
  unfolding prune_all
  live_window-prune_all [] j now d = refl
  live_window-prune_all (key ∷ keys) j now d =
      live_window-prune_all keys j now (prune cfg key now d).0 ∙ live_window-prune key j now d

  pub window_of-prune_all-le :
      (keys : List Key) (j : Key) (now : ℕ) (d : Dict Key (List ℕ))
      → length (window_of j (prune_all cfg keys now d)) ≤ length (window_of j d)
  unfolding prune_all
  window_of-prune_all-le [] j now d = omega arith
  window_of-prune_all-le (key ∷ keys) j now d = omega (
    arith,
    window_of-prune_all-le keys j now (prune cfg key now d).0,
    window_of-prune-le key j now d,
  )

  pub live_window-check :
      (keys : List Key) (j : Key) (now : ℕ) (d : Dict Key (List ℕ))
      → live_window now j (check_keys cfg keys now d).0 ≡ live_window now j d
  unfolding check_keys
  live_window-check [] j now d = refl
  live_window-check (key ∷ keys) j now d =
      live_window-check keys j now (prune cfg key now d).0 ∙ live_window-prune key j now d

  pub window_of-check-le :
      (keys : List Key) (j : Key) (now : ℕ) (d : Dict Key (List ℕ))
      → length (window_of j (check_keys cfg keys now d).0) ≤ length (window_of j d)
  unfolding check_keys
  window_of-check-le [] j now d = omega arith
  window_of-check-le (key ∷ keys) j now d =
      omega (
        arith,
        window_of-check-le keys j now (prune cfg key now d).0,
        window_of-prune-le key j now d,
      )

  -- The first key's window is pruned when the loop is over.
  abbrev pub wait_at : ℕ → Dict Key (List ℕ) → Key → ℕ
  wait_at now d key = wait_of cfg key now (nonempty (live_window now key d))

  abbrev pub worst_wait : List Key → ℕ → Dict Key (List ℕ) → ℕ
  worst_wait [] now d = 0
  worst_wait (key ∷ keys) now d = max (wait_at now d key) (worst_wait keys now d)

  worst_wait-prune :
      (keys : List Key) (key : Key) (now : ℕ) (d : Dict Key (List ℕ))
      → worst_wait keys now (prune cfg key now d).0 ≡ worst_wait keys now d
  worst_wait-prune [] key now d = refl
  worst_wait-prune (k ∷ keys) key now d =
      rw (live_window-prune key k now d, worst_wait-prune keys key now d) refl

  -- The loop's result is the longest wait of any of the keys.
  pub check_keys-worst :
      (keys : List Key) (now : ℕ) (d : Dict Key (List ℕ))
      → (check_keys cfg keys now d).1 ≡ worst_wait keys now d
  unfolding check_keys
  check_keys-worst [] now d = refl
  check_keys-worst (key ∷ keys) now d =
      rw
        (
          prune-result key now d,
          check_keys-worst keys now (prune cfg key now d).0,
          worst_wait-prune keys key now d,
        )
        refl
