-- ===== src/Knowledge/Chunking/Rounding.antt =====
-- Division rounded up, as src/bestteam/core/knowledge_base.py slices with it.
use bestteam.Shared.{ℕ, zero, suc, ◌+◌, ◌-◌, ◌*◌, ◌/◌, ◌≤◌, ◌<◌, arith}
use bestteam.Knowledge.Chunking.{ceil_div}
use native.Mathlib.Nat.{div-add-mod, mod-lt}
use native.Mathlib.Decide.{dec_lt}

mul_mono : (a b c : ℕ) → a ≤ b → a * c ≤ b * c
mul_mono a b c h = grind arith

le-ceil_div-mul : (a b : ℕ) → 0 < b → a ≤ ceil_div a b * b
unfolding ceil_div
le-ceil_div-mul a b h = omega (arith, div-add-mod (a + (b - 1)) b, mod-lt (a + (b - 1)) h)

-- The least number of parts of size `b`.
ceil_div-le : (a b q : ℕ) → 0 < b → a ≤ q * b → ceil_div a b ≤ q
unfolding ceil_div
ceil_div-le a b q h le = elim (dec_lt q ((a + (b - 1)) / b)) [
  | yes more ↦ absurd (
      omega (
        arith,
        mul_mono (suc q) ((a + (b - 1)) / b) b more,
        div-add-mod (a + (b - 1)) b,
        mod-lt (a + (b - 1)) h,
      ))
  | no enough ↦ omega arith
]

pos_of_mul : (x b : ℕ) → 0 < x * b → 0 < x
pos_of_mul zero b h = omega arith
pos_of_mul (suc x) b h = omega arith

pub ceil_div-pos : (a b : ℕ) → 0 < a → 0 < b → 0 < ceil_div a b
ceil_div-pos a b ha hb = pos_of_mul (ceil_div a b) b (omega (arith, le-ceil_div-mul a b hb))

-- An even split into the fewest slices of size `b` at most uses slices of size `b` at most.
pub ceil_div-ceil_div-le : (a b : ℕ) → 0 < a → 0 < b → ceil_div a (ceil_div a b) ≤ b
ceil_div-ceil_div-le a b ha hb =
    ceil_div-le a (ceil_div a b) b (ceil_div-pos a b ha hb) (omega (arith, le-ceil_div-mul a b hb))
