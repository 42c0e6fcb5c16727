-- ===== src/Access/LoginLimiter.antt =====
-- Login throttling, ui/backend/login_rate_limit.py. The lock makes each method one step from state
-- to state. The clock's readings are numbers of ticks, `per_second` of them to a second. A key is
-- a digest of the username or a client address; the digest of the normalised username is the
-- parameter `digest`, since SHA-256 is not the program's.
pub mod Windows
pub mod Admission
pub mod Bounds
pub mod Success
use bestteam.Shared.{
  ℕ, zero, suc, ◌+◌, ◌-◌, ◌*◌, ◌/◌, max, String, Option, none, some, Bool, true, false, not, List,
  [], ◌∷◌, ◌++◌, map, length, leb, ltb, ◌↔◌, ◌≡◌, if◌then◌else◌, arith,
}
use bestteam.Shared.Equality.{Eq, ◌==◌, string_eq}
use bestteam.Shared.Dict.{Dict, lookup, remove, put}
use text.Mathlib.TextEquality.{eq_iff}

pub data Key : Type 0 where
  user address : String → Key

abbrev pub key_beq : Key → Key → Bool
key_beq (user a) (user b) = a == b
key_beq (address a) (address b) = a == b
key_beq _ _ = false

pub key_beq_iff : (a b : Key) → (key_beq a b ≡ true) ↔ (a ≡ b)
key_beq_iff (user a) (user b) = (λ h. ground (arith, eq_iff a b), λ h. ground (arith, eq_iff a b))
key_beq_iff (user a) (address b) = (λ h. cc, λ h. cc)
key_beq_iff (address a) (address b) =
    (λ h. ground (arith, eq_iff a b), λ h. ground (arith, eq_iff a b))
key_beq_iff (address a) (user b) = (λ h. cc, λ h. cc)

instance abbrev pub key_eq : Eq Key
key_eq = record { beq = key_beq; beq_iff = key_beq_iff }

pub record Config : Type 0 where
  pub username_limit : ℕ
  pub ip_limit : ℕ
  pub window : ℕ
  pub per_second : ℕ

pub record Limiter : Type 0 where
  pub failures : Dict Key (List ℕ)
  pub next_sweep : ℕ

abbrev pub sweep_floor : ℕ
sweep_floor = 64

abbrev pub fresh : Limiter
fresh = record { failures = []; next_sweep = sweep_floor }

-- `_keys`: an empty or missing address gives no second key.
unfoldable pub keys_of : (String → String) → String → Option String → List Key
keys_of digest username none = user (digest username) ∷ []
keys_of digest username (some ip) =
    if ip == "" then user (digest username) ∷ [] else user (digest username) ∷ address ip ∷ []

-- Write a window back, or drop its key when it is empty.
unfoldable pub store_pruned : Key → List ℕ → Dict Key (List ℕ) → Dict Key (List ℕ)
store_pruned key [] d = remove key d
store_pruned key (t ∷ ts) d = put key (t ∷ ts) d

abbrev pub nonempty : List ℕ → Option (List ℕ)
nonempty [] = none
nonempty (t ∷ ts) = some (t ∷ ts)

-- `setdefault(key, deque()).append(now)`
unfoldable pub append_attempt : ℕ → Key → Dict Key (List ℕ) → Dict Key (List ℕ)
append_attempt now key d =
    put key (elim (lookup key d) [ none ↦ now ∷ [] | some w ↦ w ++ now ∷ [] ]) d

unfoldable pub append_all : ℕ → List Key → Dict Key (List ℕ) → Dict Key (List ℕ)
append_all now [] d = d
append_all now (key ∷ keys) d = append_all now keys (append_attempt now key d)

module _ (cfg : Config) where
  unfoldable pub limit_for : Key → ℕ
  limit_for (user d) = cfg.username_limit
  limit_for (address a) = cfg.ip_limit

  -- `while window and window[0] <= cutoff: window.popleft()`
  unfoldable pub drop_expired : ℕ → List ℕ → List ℕ
  drop_expired now [] = []
  drop_expired now (t ∷ ts) =
      let rest = drop_expired now ts in if leb (t + cfg.window) now then rest else t ∷ ts

  unfoldable pub prune_found :
      Key → ℕ → Option (List ℕ) → Dict Key (List ℕ) → Dict Key (List ℕ) × Option (List ℕ)
  prune_found key now none d = (d, none)
  prune_found key now (some w) d =
      (store_pruned key (drop_expired now w) d, nonempty (drop_expired now w))

  unfoldable pub prune : Key → ℕ → Dict Key (List ℕ) → Dict Key (List ℕ) × Option (List ℕ)
  unfolding prune_found
  prune key now d = prune_found key now (lookup key d) d

  -- How long the key refuses, from its pruned window; 0 when it does not.
  unfoldable pub wait_of : Key → ℕ → Option (List ℕ) → ℕ
  wait_of key now none = 0
  wait_of key now (some []) = 0
  wait_of key now (some (t ∷ ts)) =
      if leb (limit_for key) (length (t ∷ ts)) then t + cfg.window - now else 0

  -- The first loop of `reserve`.
  unfoldable pub check_keys : List Key → ℕ → Dict Key (List ℕ) → Dict Key (List ℕ) × ℕ
  check_keys [] now d = (d, 0)
  check_keys (key ∷ keys) now d =
      let (d', window) = prune key now d in
      let (d'', worst) = check_keys keys now d' in (d'', max (wait_of key now window) worst)

  -- The loop of the sweep, over the keys that were there when it began.
  unfoldable pub prune_all : List Key → ℕ → Dict Key (List ℕ) → Dict Key (List ℕ)
  prune_all [] now d = d
  prune_all (key ∷ keys) now d = prune_all keys now (prune key now d).0

  unfoldable pub sweep : ℕ → Limiter → Limiter
  sweep now s =
      if leb s.next_sweep (length s.failures)
      then (let d = prune_all (map (λ e. e.0) s.failures) now s.failures in
          record { failures = d; next_sweep = max sweep_floor (2 * length d) })
      else s

  -- Whole seconds, rounded up, and one at least.
  unfoldable pub retry_after : ℕ → ℕ
  retry_after worst = max 1 ((worst + (cfg.per_second - 1)) / cfg.per_second)

  unfoldable pub reserve : List Key → ℕ → Limiter → Limiter × Option ℕ
  reserve keys now s =
      let (d, worst) = check_keys keys now s.failures in
      if leb worst 0
      then (sweep now (record s { failures = append_all now keys d }), none)
      else (record s { failures = d }, some (retry_after worst))

-- `pop()` from the right end
unfoldable pub drop_last : List ℕ → List ℕ
drop_last [] = []
drop_last (t ∷ []) = []
drop_last (t ∷ u ∷ ts) = t ∷ drop_last (u ∷ ts)

unfoldable pub give_back_found : Key → Option (List ℕ) → Dict Key (List ℕ) → Dict Key (List ℕ)
give_back_found key none d = d
give_back_found key (some []) d = d
give_back_found key (some (t ∷ ts)) d = store_pruned key (drop_last (t ∷ ts)) d

-- One address key of `record_success`: the deque loses its last entry.
unfoldable pub give_back : Key → Dict Key (List ℕ) → Dict Key (List ℕ)
unfolding give_back_found
give_back key d = give_back_found key (lookup key d) d

unfoldable pub give_back_all : List Key → Dict Key (List ℕ) → Dict Key (List ℕ)
give_back_all [] d = d
give_back_all (key ∷ keys) d = give_back_all keys (give_back key d)

unfoldable pub record_success : List Key → Limiter → Limiter
record_success [] s = s
record_success (user_key ∷ ip_keys) s = record s {
  failures = give_back_all ip_keys (remove user_key s.failures);
}

-- `tracked_keys`
unfoldable pub tracked_keys : Limiter → ℕ
tracked_keys s = length s.failures
