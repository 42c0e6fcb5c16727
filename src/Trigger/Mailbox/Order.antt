-- ===== src/Trigger/Mailbox/Order.antt =====
-- What `check_mailbox` of ui/backend/email_trigger.py answers, and the oldest of its new messages.
use bestteam.Shared.{
  ℕ, zero, suc, ◌≤◌, ◌<◌, max, Bool, true, false, ◌||◌, Option, none, some, List, [], ◌∷◌, filter,
  take, ltb, leb, ◌≡◌, ◌≢◌, refl, inl, inr, arith, All, All-imp, All-zip, Bool-cases, Option-cases,
  subst, ltb→lt, leb→le, leb-lt,
}
use bestteam.Shared.Equality.{contains, nat_eq, ne_of_==, ==-self, ◌==◌}
use bestteam.Shared.Text.{Text}
use bestteam.Trigger.Mailbox.{maximum, insert, sort, Scan, parse_status, check_mailbox}

abbrev pub IsSorted : List ℕ → Type 0
IsSorted [] = Unit
IsSorted (n ∷ ns) = All (λ m. n ≤ m) ns × IsSorted ns

module _ {ℓ} (P : ℕ → Type ℓ) where
  All-insert : (n : ℕ) (ms : List ℕ) → P n → All P ms → All P (insert n ms)
  unfolding insert
  All-insert n [] p h = (p, tt)
  All-insert n (m ∷ ms) p h = elim (Bool-cases (leb n m)) [
    | inl first ↦ rw first (p, h)
    | inr later ↦ rw later (h.0, All-insert n ms p h.1)
  ]

  insert-All : (n : ℕ) (ms : List ℕ) → All P (insert n ms) → P n × All P ms
  unfolding insert
  insert-All n [] h = h
  insert-All n (m ∷ ms) h = elim (Bool-cases (leb n m)) [
    | inl first ↦ subst (All P) (placed first) h
    | inr later ↦
        let h' : P m × All P (insert n ms) = subst (All P) (passed later) h in
        let parts = insert-All n ms h'.1 in (parts.0, (h'.0, parts.1))
  ]
    where
      placed : leb n m ≡ true → insert n (m ∷ ms) ≡ n ∷ m ∷ ms
      placed first = rw first refl

      passed : leb n m ≡ false → insert n (m ∷ ms) ≡ m ∷ insert n ms
      passed later = rw later refl

  pub All-sort : (ns : List ℕ) → All P ns → All P (sort ns)
  unfolding sort
  All-sort [] h = tt
  All-sort (n ∷ ns) h = All-insert n (sort ns) h.0 (All-sort ns h.1)

  pub sort-All : (ns : List ℕ) → All P (sort ns) → All P ns
  unfolding sort
  sort-All [] h = tt
  sort-All (n ∷ ns) h = let parts = insert-All n (sort ns) h in (parts.0, sort-All ns parts.1)

insert-IsSorted : (n : ℕ) (ms : List ℕ) → IsSorted ms → IsSorted (insert n ms)
unfolding insert
insert-IsSorted n [] h = (tt, tt)
insert-IsSorted n (m ∷ ms) h = elim (Bool-cases (leb n m)) [
  | inl first ↦
      rw first ((leb→le n m first, All-imp ms (λ k below. omega (arith, leb→le n m first)) h.0), h)
  | inr later ↦
      rw later (
        All-insert (λ k. m ≤ k) n ms (omega (arith, leb-lt n m later)) h.0,
        insert-IsSorted n ms h.1,
      )
]

pub sort-IsSorted : (ns : List ℕ) → IsSorted (sort ns)
unfolding sort
sort-IsSorted [] = tt
sort-IsSorted (n ∷ ns) = insert-IsSorted n (sort ns) (sort-IsSorted ns)

All-above : (last : ℕ) (uids : List ℕ) → All (λ u. last < u) (filter (λ u. ltb last u) uids)
All-above last [] = tt
All-above last (u ∷ us) = elim (Bool-cases (ltb last u)) [
  | inl new ↦ rw new (ltb→lt last u new, All-above last us)
  | inr old ↦ rw old (All-above last us)
]

abbrev IsNews : ℕ → Option Scan → Type 0
IsNews last none = Unit
IsNews last (some scan) = All (λ u. last < u) scan.new_uids × IsSorted scan.new_uids

check_mailbox-IsNews :
    (status : Option Text) (found : Option (List ℕ)) (last : ℕ)
    → IsNews last (check_mailbox status found last)
unfolding check_mailbox
check_mailbox-IsNews none found last = tt
check_mailbox-IsNews (some line) found last = elim (Option-cases (parse_status line)) [
  | inl bad ↦ rw (bad, check_mailbox) tt
  | inr ((v, max_uid), good) ↦
      rw (good, check_mailbox)
        (elim (Bool-cases (leb max_uid last)) [
          | inl quiet ↦ rw quiet (tt, tt)
          | inr busy ↦
              rw busy
                (elim found
                  as (λ f. IsNews last (elim f [
                    | none ↦ none
                    | some uids ↦ some (record {
                      uidvalidity = v;
                      max_uid = max_uid;
                      new_uids = sort (filter (λ u. ltb last u) uids);
                    })
                  ])) [
                    | none ↦ tt
                    | some uids ↦
                        (All-sort (λ u. last < u) _ (All-above last uids), sort-IsSorted _)
                  ])
        ])
]

-- Whatever the server answers to the search, also an id at or below the last one, the new
-- messages that a check returns are all above the last one and in ascending order.
pub check_mailbox-above :
    (status : Option Text) (found : Option (List ℕ)) (last : ℕ) (scan : Scan)
    → check_mailbox status found last ≡ some scan
    → All (λ u. last < u) scan.new_uids × IsSorted scan.new_uids
check_mailbox-above status found last scan h =
    subst (IsNews last) h (check_mailbox-IsNews status found last)

head_or :
    (u n most : ℕ) (later : Bool)
    → n ≤ u
    → u ≤ max n most
    → (u ≢ n → u ≤ most → later ≡ true)
    → (u == n || later) ≡ true
head_or u n most later low high h = elim (Bool-cases (u == n)) [
  | inl same ↦ rw same refl
  | inr differ ↦ rw (differ, h (ne_of_== u n differ) (omega (arith, ne_of_== u n differ))) refl
]

-- The oldest ids, cut off at a number of them: every id up to the greatest that is kept is kept.
pub take-down_closed :
    (k : ℕ) (ns : List ℕ)
    → IsSorted ns
    → All (λ u. u ≤ maximum (take (suc k) ns) → contains u (take (suc k) ns) ≡ true) ns
unfolding contains
take-down_closed k [] h = tt
take-down_closed zero (n ∷ ns) h = (
  λ le. head_or n n 0 false (omega arith) le (λ ne z. absurd (ne refl)),
  All-imp ns (λ u low le. head_or u n 0 false low le (λ ne z. absurd (omega arith))) h.0,
)
take-down_closed (suc k) (n ∷ ns) h = (
  λ le. ground (arith, ==-self n),
  All-imp ns (λ u both le. head_or u n (maximum (take (suc k) ns)) _ both.0 le (λ ne. both.1))
      (All-zip (λ u. n ≤ u)
        (λ u. u ≤ maximum (take (suc k) ns) → contains u (take (suc k) ns) ≡ true) ns h.0
        (take-down_closed k ns h.1)),
)
