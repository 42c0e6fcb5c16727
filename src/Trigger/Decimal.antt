-- ===== src/Trigger/Decimal.antt =====
-- Python's `str` of a natural number, and `int` of its decimal digits.
use Prim.Native.Nat.{◌/◌, ◌%◌, ◌*◌}
use Prim.Native.Char.{Char, code}
use Prim.Native.String.{[] as nil, ◌∷◌}
use bestteam.Shared.{
  ℕ, zero, suc, ◌+◌, ◌-◌, ◌<◌, String, ◌≡◌, refl, ap, ◌∙◌, inl, inr, arith, Bool-cases, ltb,
  if◌then◌else◌, ltb-le, ltb→lt,
}

unfoldable pub digit : ℕ → Char
digit zero = "0"
digit (suc zero) = "1"
digit (suc (suc zero)) = "2"
digit (suc (suc (suc zero))) = "3"
digit (suc (suc (suc (suc zero)))) = "4"
digit (suc (suc (suc (suc (suc zero))))) = "5"
digit (suc (suc (suc (suc (suc (suc zero)))))) = "6"
digit (suc (suc (suc (suc (suc (suc (suc zero))))))) = "7"
digit (suc (suc (suc (suc (suc (suc (suc (suc zero)))))))) = "8"
digit _ = "9"

-- The digits of `n` before `rest`; `n` is enough fuel, one digit being written in each round.
unfoldable pub digits : ℕ → ℕ → String → String
digits zero n rest = digit n ∷ rest
digits (suc fuel) n rest =
    let more = digits fuel (n / 10) (digit (n % 10) ∷ rest) in
    if ltb n 10 then digit n ∷ rest else more

-- `str(n)`
unfoldable pub str : ℕ → String
unfolding digits digit
str n = digits n n nil

unfoldable pub int_from : ℕ → String → ℕ
int_from n nil = n
int_from n (c ∷ s) = int_from (n * 10 + (code c - 48)) s

-- `int(s)` of decimal digits
unfoldable pub int : String → ℕ
unfolding int_from
int s = int_from 0 s

code-digit : (n : ℕ) → n < 10 → code (digit n) ≡ n + 48
unfolding digit
code-digit zero h = refl
code-digit (suc zero) h = refl
code-digit (suc (suc zero)) h = refl
code-digit (suc (suc (suc zero))) h = refl
code-digit (suc (suc (suc (suc zero)))) h = refl
code-digit (suc (suc (suc (suc (suc zero))))) h = refl
code-digit (suc (suc (suc (suc (suc (suc zero)))))) h = refl
code-digit (suc (suc (suc (suc (suc (suc (suc zero))))))) h = refl
code-digit (suc (suc (suc (suc (suc (suc (suc (suc zero)))))))) h = refl
code-digit (suc (suc (suc (suc (suc (suc (suc (suc (suc zero))))))))) h = refl
code-digit (suc (suc (suc (suc (suc (suc (suc (suc (suc (suc n)))))))))) h = absurd (omega arith)

int_from-digit :
    (a n : ℕ) (rest : String) → n < 10 → int_from a (digit n ∷ rest) ≡ int_from (a * 10 + n) rest
unfolding int_from
int_from-digit a n rest h =
    ap (λ (k : ℕ). int_from (a * 10 + k) rest) (omega (arith, code-digit n h))

from_zero : (n : ℕ) (rest : String) → int_from (0 * 10 + n) rest ≡ int_from n rest
from_zero n rest = ap (λ (k : ℕ). int_from k rest) (omega arith)

int_from-digits :
    (fuel n : ℕ) (rest : String) → n < suc fuel → int_from 0 (digits fuel n rest) ≡ int_from n rest
unfolding digits
int_from-digits zero n rest h = int_from-digit 0 n rest (omega arith) ∙ from_zero n rest
int_from-digits (suc fuel) n rest h = elim (Bool-cases (ltb n 10)) [
  | inl one ↦ rw one (int_from-digit 0 n rest (ltb→lt n 10 one) ∙ from_zero n rest)
  | inr many ↦
      let large = ltb-le n 10 many in
      rw many (
        int_from-digits fuel (n / 10) (digit (n % 10) ∷ rest) (omega arith)
        ∙ int_from-digit (n / 10) (n % 10) rest (omega arith)
        ∙ ap (λ (k : ℕ). int_from k rest) (omega arith))
]

pub int-str : (n : ℕ) → int (str n) ≡ n
unfolding int str int_from
int-str n = int_from-digits n n nil (omega arith)

pub str-injective : (m n : ℕ) → str m ≡ str n → m ≡ n
str-injective m n h = rw (← int-str m) (rw (← int-str n) (ap int h))
