-- ===== src/Access/LoginLimiter/Admission.antt =====
-- Admission and counting by `reserve` of ui/backend/login_rate_limit.py.
use bestteam.Shared.{
  ℕ, ◌+◌, ◌≤◌, ◌<◌, Option, none, some, Bool, true, false, ◌&&◌, List, [], ◌∷◌, ◌++◌, map, length,
  leb, ◌↔◌, ◌≡◌, ◌⊎◌, inl, inr, refl, sym, subst, ap, ◌∙◌, if◌then◌else◌, arith, All, Bool-cases,
  is_none,
}
use bestteam.Shared.Equality.{◌==◌, string_eq, ==_of_ne, contains}
use bestteam.Shared.Dict.{Dict, lookup, lookup-put}
use bestteam.Access.LoginLimiter.{
  Key, key_eq, key_beq_iff, Config, Limiter, limit_for, drop_expired, nonempty, prune, wait_of,
  check_keys, append_attempt, append_all, sweep, reserve, retry_after,
}
use bestteam.Access.LoginLimiter.Windows.{
  attempts, window_of, live_window, window_of-prune, live_window-prune, live_window-prune_all,
  window_of-prune_all-le, live_window-check, check_keys-worst, wait_at, worst_wait,
}

pub flip_test : (j key : Key) → (j == key) ≡ (key == j)
flip_test j key = elim (Bool-cases (key == j)) [
  | inl same ↦ rw same ((key_beq_iff j key).1 (sym ((key_beq_iff key j).0 same)))
  | inr other ↦ rw other (==_of_ne j key (λ p. cc ((key_beq_iff key j).1 (sym p))))
]

-- The keys of one attempt are different.
abbrev pub AreDistinct : List Key → Type 0
AreDistinct [] = Unit
AreDistinct (key ∷ keys) = (contains key keys ≡ false) × AreDistinct keys

module _ (cfg : Config) where
  -- The loop prunes the windows of the keys that it visits.
  pub window_of-check :
      (keys : List Key) (j : Key) (now : ℕ) (d : Dict Key (List ℕ))
      → window_of j (check_keys cfg keys now d).0
        ≡ (if contains j keys then live_window cfg now j d else window_of j d)
  unfolding check_keys contains
  window_of-check [] j now d = refl
  window_of-check (key ∷ keys) j now d =
      rw
        (
          window_of-check keys j now (prune cfg key now d).0,
          live_window-prune cfg key j now d,
          window_of-prune cfg key j now d,
          flip_test j key,
        )
        (elim (Bool-cases (key == j)) [
          | inl same ↦ rw same (ground arith)
          | inr other ↦ rw other refl
        ])

  window_of-append :
      (key j : Key) (now : ℕ) (d : Dict Key (List ℕ))
      → window_of j (append_attempt now key d)
        ≡ (if key == j then window_of j d ++ now ∷ [] else window_of j d)
  unfolding append_attempt
  window_of-append key j now d =
      rw (lookup-put key j (elim (lookup key d) [ none ↦ now ∷ [] | some w ↦ w ++ now ∷ [] ]) d)
        (elim (Bool-cases (key == j)) [
          | inl same ↦ rw same (
              subst
                (λ k.
                  elim (lookup key d) [ none ↦ now ∷ [] | some w ↦ w ++ now ∷ [] ]
                  ≡ window_of k d ++ now ∷ [])
                ((key_beq_iff key j).0 same) (appended (lookup key d)))
          | inr other ↦ rw other refl
        ])
    where
      appended :
          (o : Option (List ℕ))
          → elim o [ none ↦ now ∷ [] | some w ↦ w ++ now ∷ [] ] ≡ attempts o ++ now ∷ []
      appended none = refl
      appended (some w) = refl

  pub window_of-append_all :
      (keys : List Key) (j : Key) (now : ℕ) (d : Dict Key (List ℕ))
      → AreDistinct keys
      → window_of j (append_all now keys d)
        ≡ (if contains j keys then window_of j d ++ now ∷ [] else window_of j d)
  unfolding append_all contains
  window_of-append_all [] j now d h = refl
  window_of-append_all (key ∷ keys) j now d h =
      rw
        (
          window_of-append_all keys j now (append_attempt now key d) h.1,
          window_of-append key j now d,
          flip_test j key,
        )
        (elim (Bool-cases (key == j)) [
          | inl same ↦
              rw (same, subst (λ k. contains k keys ≡ false) ((key_beq_iff key j).0 same) h.0) refl
          | inr other ↦ rw other refl
        ])

  head-live : (now t : ℕ) (ts w : List ℕ) → drop_expired cfg now w ≡ t ∷ ts → now < t + cfg.window
  unfolding drop_expired
  head-live now t ts [] e = cc
  head-live now t ts (u ∷ us) e = ground (arith, head-live now t ts us)

  -- A key lets an attempt through exactly when fewer attempts than its limit count.
  wait_at_iff :
      (now : ℕ) (d : Dict Key (List ℕ)) (key : Key)
      → 0 < limit_for cfg key
      → (wait_at cfg now d key ≡ 0) ↔ (length (live_window cfg now key d) < limit_for cfg key)
  unfolding wait_of
  wait_at_iff now d key positive = cases (live_window cfg now key d) refl
    where
      cases :
          (w : List ℕ)
          → live_window cfg now key d ≡ w
          → (wait_of cfg key now (nonempty w) ≡ 0) ↔ (length w < limit_for cfg key)
      cases [] e = (λ h. positive, λ h. refl)
      cases (t ∷ ts) e = (
        λ h. ground (arith, head-live now t ts (window_of key d) e),
        λ h. ground (arith, head-live now t ts (window_of key d) e),
      )

  pub worst_wait_iff :
      (keys : List Key) (now : ℕ) (d : Dict Key (List ℕ))
      → All (λ key. 0 < limit_for cfg key) keys
      → (worst_wait cfg keys now d ≡ 0)
        ↔ All (λ key. length (live_window cfg now key d) < limit_for cfg key) keys
  worst_wait_iff [] now d h = (λ e. tt, λ e. refl)
  worst_wait_iff (key ∷ keys) now d h =
      let here = wait_at_iff now d key h.0 in
      let there = worst_wait_iff keys now d h.1 in
      (
        λ e. (here.0 (omega arith), there.0 (omega arith)),
        λ e. omega (arith, here.1 e.0, there.1 e.1),
      )

  pub reserve-result :
      (keys : List Key) (now : ℕ) (s : Limiter)
      → (reserve cfg keys now s).1 ≡ (
          if leb (worst_wait cfg keys now s.failures) 0
          then none
          else some (retry_after cfg (worst_wait cfg keys now s.failures)))
  unfolding reserve
  reserve-result keys now s = rw (check_keys-worst cfg keys now s.failures) (ground arith)

  -- With positive limits, an attempt is admitted exactly when every one of its keys has fewer
  -- attempts in its window than its limit.
  pub reserve-admits :
      (keys : List Key) (now : ℕ) (s : Limiter)
      → All (λ key. 0 < limit_for cfg key) keys
      → ((reserve cfg keys now s).1 ≡ none)
        ↔ All (λ key. length (live_window cfg now key s.failures) < limit_for cfg key) keys
  reserve-admits keys now s h =
      let exact = worst_wait_iff keys now s.failures h in
      rw (reserve-result keys now s)
        (λ e. exact.0 (ground (arith, e)), λ e. ground (arith, exact.1 e))

  -- The state that the second half of `reserve` sweeps.
  pub sweep-live :
      (now : ℕ) (j : Key) (s : Limiter)
      → live_window cfg now j (sweep cfg now s).failures ≡ live_window cfg now j s.failures
  unfolding sweep
  sweep-live now j s =
      ground (arith, live_window-prune_all cfg (map (λ e. e.0) s.failures) j now s.failures)

  pub sweep-le :
      (now : ℕ) (j : Key) (s : Limiter)
      → length (window_of j (sweep cfg now s).failures) ≤ length (window_of j s.failures)
  unfolding sweep
  sweep-le now j s =
      ground (arith, window_of-prune_all-le cfg (map (λ e. e.0) s.failures) j now s.failures)

  pub drop_expired-snoc :
      (now : ℕ) (w : List ℕ)
      → 0 < cfg.window
      → drop_expired cfg now (w ++ now ∷ []) ≡ drop_expired cfg now w ++ now ∷ []
  unfolding drop_expired
  drop_expired-snoc now [] h = ground arith
  drop_expired-snoc now (t ∷ ts) h = ground (arith, drop_expired-snoc now ts h)

  pub reserve-cases :
      (keys : List Key) (now : ℕ) (s : Limiter)
      → ((reserve cfg keys now s).1 ≡ none)
          × ((reserve cfg keys now s).0
              ≡ sweep cfg now (record s {
                failures = append_all now keys (check_keys cfg keys now s.failures).0;
              }))
        ⊎ (is_none (reserve cfg keys now s).1 ≡ false)
          × ((reserve cfg keys now s).0
              ≡ record s { failures = (check_keys cfg keys now s.failures).0 })
  unfolding reserve
  reserve-cases keys now s = elim (Bool-cases (leb (check_keys cfg keys now s.failures).1 0)) [
    | inl fits ↦ inl (rw fits, rw fits)
    | inr full ↦ inr (rw full, rw full)
  ]

  -- With a positive window and different keys, an admitted attempt is counted once under each of
  -- its keys, and a refused one is not counted; what counts under any other key stays as it was.
  pub reserve-counts :
      (keys : List Key) (now : ℕ) (s : Limiter) (j : Key)
      → 0 < cfg.window
      → AreDistinct keys
      → live_window cfg now j (reserve cfg keys now s).0.failures ≡ (
          if is_none (reserve cfg keys now s).1 && contains j keys
          then live_window cfg now j s.failures ++ now ∷ []
          else live_window cfg now j s.failures)
  reserve-counts keys now s j h distinct = elim (reserve-cases keys now s) [
    | inl (admitted, e) ↦
        rw
          (
            admitted,
            e,
            sweep-live now j _,
            window_of-append_all keys j now (check_keys cfg keys now s.failures).0 distinct,
          )
          (counted (contains j keys))
    | inr (refused, e) ↦ rw (refused, e) (live_window-check cfg keys j now s.failures)
  ]
    where
      counted :
          (b : Bool)
          → drop_expired cfg now (
              if b
              then window_of j (check_keys cfg keys now s.failures).0 ++ now ∷ []
              else window_of j (check_keys cfg keys now s.failures).0)
            ≡ (if b
                then live_window cfg now j s.failures ++ now ∷ []
                else live_window cfg now j s.failures)
      counted true =
          drop_expired-snoc now _ h
          ∙ ap (λ w. w ++ now ∷ []) (live_window-check cfg keys j now s.failures)
      counted false = live_window-check cfg keys j now s.failures
