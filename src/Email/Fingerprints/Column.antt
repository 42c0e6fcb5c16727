-- ===== src/Email/Fingerprints/Column.antt =====
-- The column `alerted_fingerprint` and the set of fingerprints that it holds, read and written by
-- `_parse` and `_encode` of ui/backend/trigger_health.py.
use bestteam.Shared.{
  ℕ, Bool, true, false, Option, List, [], ◌∷◌, ◌++◌, filter, not, All, ◌≡◌, refl, sym, ap, ◌∙◌, inl,
  inr, arith, Bool-cases, if◌then◌else◌, nat_beq,
}
use bestteam.Shared.Text.{Text, is_empty, starts_with, scan, split, join}
use bestteam.Email.Fingerprints.{TextSet, to_set, insert, comma, or_empty, parse, encode}
use bestteam.Email.Fingerprints.Order.{IsAscending, to_set-IsAscending, to_set_of_ascending}
use mathlib.Core.List.{append-nil, append_assoc}

-- A fingerprint is not empty and holds no comma.
abbrev pub has_comma : Text → Bool
has_comma [] = false
has_comma (c ∷ t) = if nat_beq c b',' then true else has_comma t

abbrev pub IsMember : Text → Type 0
IsMember t = (has_comma t ≡ false) × (is_empty t ≡ false)

pub record IsCanonical (s : TextSet) : Type 0 where
  pub ascending : IsAscending s
  pub members : All IsMember s

has_comma-snoc :
    (t : Text) (c : ℕ)
    → has_comma t ≡ false
    → nat_beq c b',' ≡ false
    → has_comma (t ++ c ∷ []) ≡ false
has_comma-snoc [] c h k = rw k refl
has_comma-snoc (d ∷ t) c h k = ground (arith, has_comma-snoc t c)

comma_test : (c : ℕ) (t : Text) → starts_with comma (c ∷ t) ≡ nat_beq c b','
comma_test c t = ground arith

scan-no_comma :
    (piece t : Text)
    → has_comma piece ≡ false
    → All (λ p. has_comma p ≡ false) (scan comma 0 piece t)
unfolding scan
scan-no_comma piece [] h = (h, tt)
scan-no_comma piece (c ∷ t) h = elim (Bool-cases (nat_beq c b',')) [
  | inl cut ↦ rw (comma_test c t, cut) (h, scan-no_comma [] t refl)
  | inr more ↦
      rw (comma_test c t, more) (scan-no_comma (piece ++ c ∷ []) t (has_comma-snoc piece c h more))
]

members_of :
    (ps : List Text)
    → All (λ p. has_comma p ≡ false) ps
    → All IsMember (filter (λ p. not (is_empty p)) ps)
members_of [] h = tt
members_of ([] ∷ ps) h = members_of ps h.1
members_of ((c ∷ p) ∷ ps) h = ((h.0, refl), members_of ps h.1)

pub insert-members :
    (x : Text) (ys : TextSet) → IsMember x → All IsMember ys → All IsMember (insert x ys)
unfolding insert
insert-members x [] h hs = (h, tt)
insert-members x (y ∷ ys) h hs = ground (arith, insert-members x ys h hs.1)

to_set-members : (xs : List Text) → All IsMember xs → All IsMember (to_set xs)
unfolding to_set
to_set-members [] h = tt
to_set-members (x ∷ xs) h = insert-members x (to_set xs) h.0 (to_set-members xs h.1)

-- Whatever is stored in the column reads as a set in ascending order, in which no fingerprint is
-- empty or holds a comma.
pub parse-IsCanonical : (column : Option Text) → IsCanonical (parse column)
unfolding parse split
parse-IsCanonical column = record {
  ascending = to_set-IsAscending _;
  members = to_set-members _ (members_of _ (scan-no_comma [] (or_empty column) refl));
}

scan-through :
    (piece p rest : Text)
    → has_comma p ≡ false
    → scan comma 0 piece (p ++ comma ++ rest) ≡ (piece ++ p) ∷ scan comma 0 [] rest
unfolding scan
scan-through piece [] rest h = ap (λ q. q ∷ scan comma 0 [] rest) (sym (append-nil piece))
scan-through piece (c ∷ p) rest h = elim (Bool-cases (nat_beq c b',')) [
  | inl cut ↦ cc (rw cut at h)
  | inr more ↦
      rw (comma_test c (p ++ comma ++ rest), more)
        (scan-through (piece ++ c ∷ []) p rest (rw more at h)
          ∙ ap (λ q. q ∷ scan comma 0 [] rest) (append_assoc piece (c ∷ []) p))
]

scan_last : (piece p : Text) → has_comma p ≡ false → scan comma 0 piece p ≡ (piece ++ p) ∷ []
unfolding scan
scan_last piece [] h = ap (λ q. q ∷ []) (sym (append-nil piece))
scan_last piece (c ∷ p) h = elim (Bool-cases (nat_beq c b',')) [
  | inl cut ↦ cc (rw cut at h)
  | inr more ↦
      rw (comma_test c p, more)
        (scan_last (piece ++ c ∷ []) p (rw more at h)
          ∙ ap (λ q. q ∷ []) (append_assoc piece (c ∷ []) p))
]

split-join_members :
    (p : Text) (ps : List Text) → All IsMember (p ∷ ps) → split comma (join comma (p ∷ ps)) ≡ p ∷ ps
unfolding split
split-join_members p [] h = scan_last [] p h.0.0
split-join_members p (q ∷ ps) h =
    scan-through [] p (join comma (q ∷ ps)) h.0.0 ∙ ap (λ l. p ∷ l) (split-join_members q ps h.1)

keep_members : (ps : List Text) → All IsMember ps → filter (λ p. not (is_empty p)) ps ≡ ps
keep_members [] h = refl
keep_members (p ∷ ps) h = rw h.0.1 (ap (λ l. p ∷ l) (keep_members ps h.1))

join_full :
    (p : Text) (ps : List Text) → is_empty p ≡ false → is_empty (join comma (p ∷ ps)) ≡ false
join_full [] ps h = cc
join_full (c ∷ p) [] h = refl
join_full (c ∷ p) (q ∷ ps) h = refl

parse_nothing : parse (encode []) ≡ []
unfolding parse encode to_set split scan
parse_nothing = refl

-- A set of fingerprints in ascending order, none of them empty or with a comma, is read back from
-- the column as it was written.
pub parse-encode : (s : TextSet) → IsCanonical s → parse (encode s) ≡ s
unfolding parse encode
parse-encode [] w = parse_nothing
parse-encode (p ∷ ps) w =
    rw
      (
        join_full p ps w.members.0.1,
        split-join_members p ps w.members,
        keep_members (p ∷ ps) w.members,
      )
      (to_set_of_ascending (p ∷ ps) w.ascending)
