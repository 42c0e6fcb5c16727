-- ===== src/Trigger/Mailbox.antt =====
-- `_parse_status` and `check_mailbox` of ui/backend/email_trigger.py. The server's answers are
-- arguments; what a response that cannot be read raises is `none`.
pub mod Order
use Prim.Native.Nat.{◌*◌}
use bestteam.Shared.{
  ℕ, zero, suc, max, ◌+◌, ◌-◌, Bool, true, false, ◌&&◌, Option, none, some, List, [], ◌∷◌, filter,
  leb, ltb, drop, length, if◌then◌else◌,
}
use bestteam.Shared.Text.{Text, starts_with}
use bestteam.Shared.Literal.{text}

-- One digit of `\d` over bytes.
abbrev pub is_digit : ℕ → Bool
is_digit c = leb b'0' c && leb c b'9'

-- The digits in front of a text, read on from `n`.
unfoldable pub read_digits : ℕ → Text → ℕ
read_digits n [] = n
read_digits n (c ∷ t) = if is_digit c then read_digits (n * 10 + (c - b'0')) t else n

-- `(\d+)` in front of a text
abbrev pub number : Text → Option ℕ
number [] = none
number (c ∷ t) = if is_digit c then some (read_digits 0 (c ∷ t)) else none

abbrev pub number_behind : Text → Text → Option ℕ
number_behind word t = if starts_with word t then number (drop (length word) t) else none

-- The group of `re.search(word + rb"(\d+)", line)`: the first place where it matches.
unfoldable pub search_number : Text → Text → Option ℕ
search_number word [] = none
search_number word (c ∷ t) = elim (number_behind word (c ∷ t)) [
  | none ↦ search_number word t
  | some n ↦ some n
]

abbrev pub uidvalidity_word : Text
uidvalidity_word = text "UIDVALIDITY "

abbrev pub uidnext_word : Text
uidnext_word = text "UIDNEXT "

-- The validity and the highest id in use; the ids of a mailbox start at 1.
unfoldable pub parse_status : Text → Option (ℕ × ℕ)
parse_status line = elim (search_number uidvalidity_word line) [
  | none ↦ none
  | some v ↦ elim (search_number uidnext_word line) [ none ↦ none | some n ↦ some (v, n - 1) ]
]

unfoldable pub insert : ℕ → List ℕ → List ℕ
insert n [] = n ∷ []
insert n (m ∷ ms) = let later = m ∷ insert n ms in if leb n m then n ∷ m ∷ ms else later

-- `sorted(uids)`
unfoldable pub sort : List ℕ → List ℕ
sort [] = []
sort (n ∷ ns) = insert n (sort ns)

-- `max(uids)`, of a list that is not empty
abbrev pub maximum : List ℕ → ℕ
maximum [] = 0
maximum (n ∷ ns) = max n (maximum ns)

pub record Scan : Type 0 where
  pub uidvalidity : ℕ
  pub max_uid : ℕ
  pub new_uids : List ℕ

-- `status` is the line of the STATUS response, or `none` when it is not OK; `found` is what the
-- search for the ids above the last one answers, or `none` when it is not OK.
unfoldable pub check_mailbox : (status : Option Text) (found : Option (List ℕ)) → ℕ → Option Scan
check_mailbox none found last_uid = none
check_mailbox (some line) found last_uid = elim (parse_status line) [
  | none ↦ none
  | some (v, max_uid) ↦
      if leb max_uid last_uid
      then some (record { uidvalidity = v; max_uid = max_uid; new_uids = [] })
      else elim found [
        | none ↦ none
        | some uids ↦ some (record {
          uidvalidity = v;
          max_uid = max_uid;
          new_uids = sort (filter (λ u. ltb last_uid u) uids);
        })
      ]
]
