-- ===== src/Access/LoginLimiter/Success.antt =====
-- `record_success` of ui/backend/login_rate_limit.py after an admitted `reserve`.
use bestteam.Shared.{
  ℕ, ◌<◌, Option, none, some, true, false, List, [], ◌∷◌, ◌++◌, ◌≡◌, ◌⊎◌, inl, inr, refl, subst, ap,
  ◌∙◌, if◌then◌else◌, arith, Bool-cases,
}
use bestteam.Shared.Equality.{◌==◌, ==-self, contains}
use bestteam.Shared.Dict.{Dict, lookup, remove, lookup-remove}
use bestteam.Access.LoginLimiter.{
  Key, key_eq, key_beq_iff, Config, Limiter, drop_expired, reserve, drop_last, give_back_found,
  give_back, give_back_all, record_success,
}
use bestteam.Access.LoginLimiter.Windows.{attempts, window_of, live_window, window_of-store}
use bestteam.Access.LoginLimiter.Admission.{AreDistinct, reserve-counts, flip_test}

drop_last-snoc : (w : List ℕ) (t : ℕ) → drop_last (w ++ t ∷ []) ≡ w
unfolding drop_last
drop_last-snoc [] t = refl
drop_last-snoc (u ∷ []) t = refl
drop_last-snoc (u ∷ v ∷ w) t = ap (λ l. u ∷ l) (drop_last-snoc (v ∷ w) t)

window_of-give_back :
    (key j : Key) (d : Dict Key (List ℕ))
    → window_of j (give_back key d)
      ≡ (if key == j then drop_last (window_of j d) else window_of j d)
unfolding give_back drop_last
window_of-give_back key j d = elim (Bool-cases (key == j)) [
  | inl same ↦
      subst
        (λ k.
          window_of k (give_back key d)
          ≡ (if key == k then drop_last (window_of k d) else window_of k d))
        ((key_beq_iff key j).0 same) (rw (==-self key) (own (lookup key d) refl))
  | inr other ↦ rw other (foreign (lookup key d) refl other)
]
  where
    own :
        (o : Option (List ℕ))
        → lookup key d ≡ o
        → window_of key (give_back key d) ≡ drop_last (attempts o)
    own none e = rw (e, give_back_found) (rw e refl)
    own (some []) e = rw (e, give_back_found) (rw e refl)
    own (some (t ∷ ts)) e =
        rw (e, give_back_found)
          (window_of-store key key (drop_last (t ∷ ts)) d ∙ rw (==-self key) refl)

    foreign :
        (o : Option (List ℕ))
        → lookup key d ≡ o
        → (key == j) ≡ false
        → window_of j (give_back key d) ≡ window_of j d
    foreign none e other = rw (e, give_back_found) refl
    foreign (some []) e other = rw (e, give_back_found) refl
    foreign (some (t ∷ ts)) e other =
        rw (e, give_back_found) (window_of-store key j (drop_last (t ∷ ts)) d ∙ rw other refl)

window_of-give_back_all :
    (keys : List Key) (j : Key) (d : Dict Key (List ℕ))
    → AreDistinct keys
    → window_of j (give_back_all keys d)
      ≡ (if contains j keys then drop_last (window_of j d) else window_of j d)
unfolding give_back_all contains
window_of-give_back_all [] j d h = refl
window_of-give_back_all (key ∷ keys) j d h =
    rw
      (
        window_of-give_back_all keys j (give_back key d) h.1,
        window_of-give_back key j d,
        flip_test j key,
      )
      (elim (Bool-cases (key == j)) [
        | inl same ↦
            rw (same, subst (λ k. contains k keys ≡ false) ((key_beq_iff key j).0 same) h.0) refl
        | inr other ↦ rw other refl
      ])

other_head :
    (j key : Key) (keys : List Key) → (key == j) ≡ false → contains j (key ∷ keys) ≡ contains j keys
unfolding contains
other_head j key keys other = rw (flip_test j key, other) refl

module _ (cfg : Config) where
  drop_expired-drop_last :
      (now : ℕ) (w : List ℕ)
      → drop_expired cfg now (drop_last w) ≡ drop_last (drop_expired cfg now w)
  unfolding drop_expired drop_last
  drop_expired-drop_last now [] = refl
  drop_expired-drop_last now (t ∷ []) = ground arith
  drop_expired-drop_last now (t ∷ u ∷ w) = ground (arith, drop_expired-drop_last now (u ∷ w))

  nothing_live : (now : ℕ) → drop_expired cfg now [] ≡ []
  unfolding drop_expired
  nothing_live now = refl

  -- With a positive window and different keys, after an admitted attempt and its success, what
  -- counts under the username is nothing, and what counts under any other key is what counted
  -- before the attempt.
  pub success-reserve :
      (user_key : Key) (ip_keys : List Key) (now : ℕ) (s : Limiter) (j : Key)
      → 0 < cfg.window
      → AreDistinct (user_key ∷ ip_keys)
      → (reserve cfg (user_key ∷ ip_keys) now s).1 ≡ none
      → live_window cfg now j
          (record_success (user_key ∷ ip_keys) (reserve cfg (user_key ∷ ip_keys) now s).0).failures
        ≡ (if user_key == j then [] else live_window cfg now j s.failures)
  unfolding record_success
  success-reserve user_key ip_keys now s j h distinct admitted =
      rw
        (
          window_of-give_back_all ip_keys j (remove user_key after) distinct.1,
          lookup-remove user_key j after,
        )
        (elim (Bool-cases (user_key == j)) [
          | inl same ↦
              rw
                (
                  same,
                  subst (λ k. contains k ip_keys ≡ false) ((key_beq_iff user_key j).0 same)
                      distinct.0,
                )
                (nothing_live now)
          | inr other ↦ rw other (remaining other (Bool-cases (contains j ip_keys)))
        ])
    where
      after : Dict Key (List ℕ)
      after = (reserve cfg (user_key ∷ ip_keys) now s).0.failures

      counted : live_window cfg now j after ≡ (
          if contains j (user_key ∷ ip_keys)
          then live_window cfg now j s.failures ++ now ∷ []
          else live_window cfg now j s.failures)
      counted = reserve-counts cfg (user_key ∷ ip_keys) now s j h distinct ∙ rw admitted refl

      remaining :
          (user_key == j) ≡ false
          → (contains j ip_keys ≡ true) ⊎ (contains j ip_keys ≡ false)
          → drop_expired cfg now
              (if contains j ip_keys then drop_last (window_of j after) else window_of j after)
            ≡ live_window cfg now j s.failures
      remaining other (inl mine) = rw mine (
          drop_expired-drop_last now (window_of j after)
          ∙ ap drop_last (counted ∙ rw (other_head j user_key ip_keys other, mine) refl)
          ∙ drop_last-snoc (live_window cfg now j s.failures) now)
      remaining other (inr foreign) =
          rw foreign (counted ∙ rw (other_head j user_key ip_keys other, foreign) refl)
