-- ===== src/Access/ShareQuota/Daily.antt =====
-- The daily quota of a link, `try_consume_link_turn` of ui/backend/db/share_links.py, seen on the
-- one row that it is about.
use bestteam.Shared.{
  ℕ, zero, suc, ◌+◌, ◌-◌, min, String, some, Bool, true, false, List, ◌∷◌, ◌++◌, ltb, if◌then◌else◌,
  ◌≡◌, refl, sym, ap, ◌∙◌, inl, inr, arith, Bool-cases,
}
use bestteam.Shared.Equality.{◌==◌, nat_eq, string_eq, ==-self}
use bestteam.Shared.Int.{ℤ, pos, negsuc, clamp_zero}
use bestteam.Access.ShareQuota.Tables.{IsKeyed, claim_turn-keyed}
use bestteam.Access.ShareQuota.{
  ShareLink, is_stale, below_cap, reset_link, advance_link, try_consume_link_turn,
}

-- The row that stands for a link on the given day: yesterday's count is void.
abbrev pub today_row : String → ShareLink → ShareLink
today_row today l =
    if is_stale today l.turns_date then record l { turns_today = 0; turns_date = some today } else l

abbrev pub used_on : String → ShareLink → ℕ
used_on today l = (today_row today l).turns_today

-- One turn of the quota: the row afterwards and whether the turn is granted.
abbrev pub consume_row : String → ℤ → ShareLink → ShareLink × Bool
consume_row today quota l =
    if below_cap (used_on today l) quota
    then (record (today_row today l) { turns_today = suc (used_on today l) }, true)
    else (today_row today l, false)

-- Where the link's id has one row, the statements of `try_consume_link_turn` claim one turn of that
-- row when the day's count is below the cap, and leave the other rows alone.
pub try_consume_link_turn-row :
    (id : ℕ) (above below : List ShareLink) (today : String) (quota : ℤ) (l : ShareLink)
    → IsKeyed (λ r. r.id) id above l below
    → try_consume_link_turn id today quota (above ++ l ∷ below)
      ≡ (above ++ (consume_row today quota l).0 ∷ below, (consume_row today quota l).1)
unfolding try_consume_link_turn advance_link reset_link
try_consume_link_turn-row id above below today quota l w =
    claim_turn-keyed (λ r. r.id) id (λ r. is_stale today r.turns_date)
      (λ r. below_cap r.turns_today quota)
      (λ r. record r { turns_today = 0; turns_date = some today })
      (λ r. record r { turns_today = suc r.turns_today }) (λ r. refl) above below l w
    ∙ elim (Bool-cases (below_cap (used_on today l) quota)) [
      | inl granted ↦ rw granted refl
      | inr refused ↦ rw refused refl
    ]

-- The turns that `n` requests for one link get on one day.
abbrev pub granted : ℕ → ℕ → String → ℤ → List ShareLink → ℕ
granted zero id today quota rows = 0
granted (suc n) id today quota rows =
    let (rows', ok) = try_consume_link_turn id today quota rows in
    (if ok then 1 else 0) + granted n id today quota rows'

pub consume_row-key :
    (id : ℕ) (today : String) (quota : ℤ) (l : ShareLink)
    → (l.id == id) ≡ true
    → ((consume_row today quota l).0.id == id) ≡ true
consume_row-key id today quota l k = ground arith

pub today_row-current :
    (today : String) (l : ShareLink) → is_stale today (today_row today l).turns_date ≡ false
today_row-current today l = elim (Bool-cases (is_stale today l.turns_date)) [
  | inl stale ↦ rw (stale, ==-self today) refl
  | inr current ↦ rw current current
]

pub used_on-current :
    (today : String) (l : ShareLink)
    → is_stale today l.turns_date ≡ false
    → used_on today l ≡ l.turns_today
used_on-current today l h =
    ap (λ b. (if b then record l { turns_today = 0; turns_date = some today } else l).turns_today) h

pub consume_row-used :
    (today : String) (quota : ℤ) (l : ShareLink)
    → used_on today (consume_row today quota l).0
      ≡ used_on today l + (if (consume_row today quota l).1 then 1 else 0)
consume_row-used today quota l = elim (Bool-cases (below_cap (used_on today l) quota)) [
  | inl granted ↦ rw granted (
      used_on-current today (record (today_row today l) { turns_today = suc (used_on today l) })
        (today_row-current today l)
      ∙ omega arith)
  | inr refused ↦
      rw refused
        (used_on-current today (today_row today l) (today_row-current today l) ∙ omega arith)
]

below_cap-clamp : (n : ℕ) (quota : ℤ) → below_cap n quota ≡ ltb n (clamp_zero quota)
below_cap-clamp n (pos quota) = refl
below_cap-clamp n (negsuc k) = ground arith

consume_row-free :
    (today : String) (quota : ℤ) (l : ShareLink)
    → (consume_row today quota l).1 ≡ ltb (used_on today l) (clamp_zero quota)
consume_row-free today quota l = elim (Bool-cases (below_cap (used_on today l) quota)) [
  | inl granted ↦ rw granted (sym granted ∙ below_cap-clamp (used_on today l) quota)
  | inr refused ↦ rw refused (sym refused ∙ below_cap-clamp (used_on today l) quota)
]

count_down :
    (n quota used used' : ℕ) (b : Bool)
    → b ≡ ltb used quota
    → used' ≡ used + (if b then 1 else 0)
    → (if b then 1 else 0) + min n (quota - used') ≡ min (suc n) (quota - used)
count_down n quota used used' b h k = ground arith

-- Where the link's id has one row, however often the link is used on one day, the turns it is
-- granted are the requests, up to what is left of its cap.
pub granted_lem :
    (n id : ℕ) (above below : List ShareLink) (today : String) (quota : ℤ) (l : ShareLink)
    → IsKeyed (λ r. r.id) id above l below
    → granted n id today quota (above ++ l ∷ below) ≡ min n (clamp_zero quota - used_on today l)
granted_lem zero id above below today quota l w = ground arith
granted_lem (suc n) id above below today quota l w =
    let l' = (consume_row today quota l).0 in
    rw
      (
        try_consume_link_turn-row id above below today quota l w,
        granted_lem n id above below today quota l' (record {
          above_others = w.above_others;
          below_others = w.below_others;
          keyed = consume_row-key id today quota l w.keyed;
        }),
      )
      (count_down n (clamp_zero quota) (used_on today l) (used_on today l')
        (consume_row today quota l).1 (consume_row-free today quota l)
        (consume_row-used today quota l))
