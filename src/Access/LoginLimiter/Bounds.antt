-- ===== src/Access/LoginLimiter/Bounds.antt =====
-- The limits of ui/backend/login_rate_limit.py as an invariant, and the answer of a refused
-- `reserve`.
use bestteam.Shared.{
  ℕ, ◌+◌, ◌-◌, ◌*◌, ◌/◌, ◌≤◌, ◌<◌, max, none, some, true, List, [], ◌∷◌, ◌++◌, length,
  length-append, ◌≡◌, inl, inr, refl, sym, subst, if◌then◌else◌, arith, All, All-imp, Bool-cases,
}
use native.Mathlib.Nat.{div-add-mod, mod-lt}
use bestteam.Shared.Equality.{◌==◌, string_eq, ==-self, contains}
use bestteam.Shared.Dict.{Dict}
use bestteam.Access.LoginLimiter.{
  Key, key_eq, key_beq_iff, Config, Limiter, limit_for, drop_expired, nonempty, wait_of, check_keys,
  append_all, reserve, retry_after,
}
use bestteam.Access.LoginLimiter.Windows.{
  window_of, live_window, length-drop_expired-le, window_of-check-le, worst_wait,
}
use bestteam.Access.LoginLimiter.Admission.{
  AreDistinct, window_of-check, window_of-append_all, reserve-cases, reserve-result, reserve-admits,
  sweep-le,
}

le_mul : (a b c : ℕ) → a ≤ b → a * c ≤ b * c
le_mul a b c h = grind arith

contains_self : (keys : List Key) → All (λ key. contains key keys ≡ true) keys
unfolding contains
contains_self [] = tt
contains_self (key ∷ keys) =
    (rw (==-self key) refl, All-imp keys (λ j h. ground (arith, h)) (contains_self keys))

module _ (cfg : Config) where
  -- No key holds more attempts than its limit.
  abbrev pub IsBounded : Limiter → Type 0
  IsBounded s = (key : Key) → length (window_of key s.failures) ≤ limit_for cfg key

  member :
      (j : Key) (keys : List Key) (d : Dict Key (List ℕ)) (now : ℕ)
      → All (λ key. length (live_window cfg now key d) < limit_for cfg key) keys
      → contains j keys ≡ true
      → length (live_window cfg now j d) < limit_for cfg j
  unfolding contains
  member j [] d now h e = cc
  member j (key ∷ keys) d now h e = elim (Bool-cases (j == key)) [
    | inl same ↦
        subst (λ k. length (live_window cfg now k d) < limit_for cfg k)
          (sym ((key_beq_iff j key).0 same)) h.0
    | inr other ↦ member j keys d now h.1 (rw other at e)
  ]

  -- The windows that the second half of `reserve` writes.
  abbrev written : List Key → ℕ → Limiter → Dict Key (List ℕ)
  written keys now s = append_all now keys (check_keys cfg keys now s.failures).0

  window_of-written :
      (keys : List Key) (now : ℕ) (s : Limiter) (j : Key)
      → AreDistinct keys
      → window_of j (written keys now s) ≡ (
          if contains j keys
          then live_window cfg now j s.failures ++ now ∷ []
          else window_of j s.failures)
  window_of-written keys now s j h =
      rw
        (
          window_of-append_all cfg keys j now (check_keys cfg keys now s.failures).0 h,
          window_of-check cfg keys j now s.failures,
        )
        (elim (Bool-cases (contains j keys)) [
          | inl mine ↦ rw mine refl
          | inr other ↦ rw other refl
        ])

  written-le :
      (keys : List Key) (now : ℕ) (s : Limiter) (j : Key)
      → AreDistinct keys
      → IsBounded s
      → All (λ key. length (live_window cfg now key s.failures) < limit_for cfg key) keys
      → length (window_of j (written keys now s)) ≤ limit_for cfg j
  written-le keys now s j h bounded below =
      rw (window_of-written keys now s j h) (elim (Bool-cases (contains j keys)) [
        | inl mine ↦ rw mine (
            omega (
              arith,
              length-append {0} (live_window cfg now j s.failures) (now ∷ []),
              member j keys s.failures now below mine,
            ))
        | inr other ↦ rw other (bounded j)
      ])

  -- With positive limits and different keys, when no key has more attempts than its limit, an
  -- attempt leaves it so for every key, whether it is admitted or refused.
  pub reserve-IsBounded :
      (keys : List Key) (now : ℕ) (s : Limiter)
      → All (λ key. 0 < limit_for cfg key) keys
      → AreDistinct keys
      → IsBounded s
      → IsBounded (reserve cfg keys now s).0
  reserve-IsBounded keys now s positive distinct bounded j = elim (reserve-cases cfg keys now s) [
    | inl (admitted, e) ↦
        let below = (reserve-admits cfg keys now s positive).0 admitted in
        rw e (
          omega (
            arith,
            written-le keys now s j distinct bounded below,
            sweep-le cfg now j (record s { failures = written keys now s }),
          ))
    | inr (refused, e) ↦
        rw e (omega (arith, bounded j, window_of-check-le cfg keys j now s.failures))
  ]

  retry_after-enough :
      (worst : ℕ) → 0 < cfg.per_second → worst ≤ retry_after cfg worst * cfg.per_second
  unfolding retry_after
  retry_after-enough worst h =
      let q = (worst + (cfg.per_second - 1)) / cfg.per_second in
      let least = le_mul q (max 1 q) cfg.per_second (omega arith) in
      omega (
        arith,
        least,
        div-add-mod (worst + (cfg.per_second - 1)) cfg.per_second,
        mod-lt (worst + (cfg.per_second - 1)) h,
      )

  -- A window that is no longer than the limit falls below it when its first attempt expires.
  wait_over :
      (now later : ℕ) (key : Key) (w : List ℕ)
      → 0 < limit_for cfg key
      → length w ≤ limit_for cfg key
      → now + wait_of cfg key now (nonempty w) ≤ later
      → length (drop_expired cfg later w) < limit_for cfg key
  unfolding wait_of drop_expired
  wait_over now later key [] positive le h = positive
  wait_over now later key (t ∷ ts) positive le h =
      ground (arith, length-drop_expired-le cfg later ts)

  waits_over :
      (keys : List Key) (now later : ℕ) (d d' : Dict Key (List ℕ))
      → All (λ key. 0 < limit_for cfg key) keys
      → ((key : Key) → length (window_of key d) ≤ limit_for cfg key)
      → now + worst_wait cfg keys now d ≤ later
      → All (λ key. window_of key d' ≡ live_window cfg now key d) keys
      → All (λ key. length (live_window cfg later key d') < limit_for cfg key) keys
  waits_over [] now later d d' positive bounded h same = tt
  waits_over (key ∷ keys) now later d d' positive bounded h same = (
    rw (same.0) (
        wait_over now later key (live_window cfg now key d) positive.0
          (omega (arith, length-drop_expired-le cfg now (window_of key d), bounded key))
          (omega arith)),
    waits_over keys now later d d' positive.1 bounded (omega arith) same.1,
  )

  -- A refusal keeps its promise: with positive limits and a positive clock rate, when no key has
  -- more attempts than its limit, the answer `r` of a refused attempt is such that the next attempt
  -- with the same keys `r` seconds later, or at any later time, is admitted.
  pub reserve-retry :
      (keys : List Key) (now later r : ℕ) (s : Limiter)
      → 0 < cfg.per_second
      → All (λ key. 0 < limit_for cfg key) keys
      → IsBounded s
      → (reserve cfg keys now s).1 ≡ some r
      → now + r * cfg.per_second ≤ later
      → (reserve cfg keys later (reserve cfg keys now s).0).1 ≡ none
  reserve-retry keys now later r s seconds positive bounded e h =
      elim (reserve-cases cfg keys now s) [
        | inl (admitted, _) ↦ cc
        | inr (refused, state) ↦
            (reserve-admits cfg keys later (reserve cfg keys now s).0 positive).1 (
              waits_over keys now later s.failures (reserve cfg keys now s).0.failures positive
                bounded (omega (arith, enough e, h))
                (All-imp keys (λ key mine. rw state (visited key mine)) (contains_self keys)))
      ]
    where
      worst : ℕ
      worst = worst_wait cfg keys now s.failures

      visited :
          (key : Key)
          → contains key keys ≡ true
          → window_of key (check_keys cfg keys now s.failures).0
            ≡ live_window cfg now key s.failures
      visited key mine = rw (window_of-check cfg keys key now s.failures) (rw mine refl)

      enough : (reserve cfg keys now s).1 ≡ some r → worst ≤ r * cfg.per_second
      enough e = ground (arith, reserve-result cfg keys now s, retry_after-enough worst seconds, e)
