-- ===== src/Access/ShareQuota/Tables.antt =====
-- UPDATE statements by primary key, as ui/backend/db/share_links.py writes them.
use bestteam.Shared.{
  ℕ, Bool, true, false, ◌&&◌, List, [], ◌∷◌, ◌++◌, map, count_where, All, if◌then◌else◌, ◌≡◌, refl,
  ap, ◌∙◌, inl, inr, Bool-cases, ltb,
}
use bestteam.Shared.Equality.{◌==◌, nat_eq}
use bestteam.Access.ShareQuota.{update_where}

test_of_count : (b : Bool) → ltb 0 (if b then 1 else 0) ≡ b
test_of_count true = refl
test_of_count false = refl

module _ {A : Type 0} (key : A → ℕ) (id : ℕ) where
  abbrev pub Others : List A → Type 0
  Others rows = All (λ r. (key r == id) ≡ false) rows

  module _ (p : A → Bool) (f : A → A) where
    map-Others :
        (rows : List A) → Others rows → map (λ r. if key r == id && p r then f r else r) rows ≡ rows
    map-Others [] h = refl
    map-Others (r ∷ rows) h = rw h.0 (ap (λ l. r ∷ l) (map-Others rows h.1))

    count-Others : (rows : List A) → Others rows → count_where (λ r. key r == id && p r) rows ≡ 0
    count-Others [] h = refl
    count-Others (r ∷ rows) h = rw h.0 (count-Others rows h.1)

    -- An UPDATE by primary key is about the row with the key.
    pub update_keyed :
        (above below : List A) (a : A)
        → Others above
        → Others below
        → (key a == id) ≡ true
        → update_where (λ r. key r == id && p r) f (above ++ a ∷ below)
          ≡ (above ++ (if p a then f a else a) ∷ below, if p a then 1 else 0)
    update_keyed [] below a ha hb k = rw (k, map-Others below hb, count-Others below hb) refl
    update_keyed (r ∷ above) below a ha hb k =
        rw ha.0 (ap (λ s. (r ∷ s.0, s.1)) (update_keyed above below a ha.1 hb k))

  -- The table that holds the row `a` with the primary key `id`.
  pub record IsKeyed (above : List A) (a : A) (below : List A) : Type 0 where
    pub above_others : Others above
    pub below_others : Others below
    pub keyed : (key a == id) ≡ true

  module _ (stale free : A → Bool) (reset advance : A → A)
      (same : (a : A) → (key (reset a) == id) ≡ (key a == id)) where
    -- A row of today, and one turn of it.
    abbrev pub refreshed : A → A
    refreshed a = if stale a then reset a else a

    abbrev pub claimed_row : A → A
    claimed_row a = if free (refreshed a) then advance (refreshed a) else refreshed a

    refreshed-key : (a : A) → (key a == id) ≡ true → (key (refreshed a) == id) ≡ true
    refreshed-key a k = elim (Bool-cases (stale a)) [
      | inl old ↦ rw old (same a ∙ k)
      | inr new ↦ rw new k
    ]

    abbrev pub claim_turn : List A → List A × Bool
    claim_turn rows =
        let rows' = (update_where (λ r. key r == id && stale r) reset rows).0 in
        let (rows'', n) = update_where (λ r. key r == id && free r) advance rows' in
        (rows'', ltb 0 n)

    pub claim_turn-keyed :
        (above below : List A) (a : A)
        → IsKeyed above a below
        → claim_turn (above ++ a ∷ below) ≡ (above ++ claimed_row a ∷ below, free (refreshed a))
    claim_turn-keyed above below a w =
        ap
          (λ s.
            (let (rows'', n) = update_where (λ r. key r == id && free r) advance s.0 in
              (rows'', ltb 0 n)))
          (update_keyed stale reset above below a w.above_others w.below_others w.keyed)
        ∙ ap (λ s. (s.0, ltb 0 s.1))
            (update_keyed free advance above below (refreshed a) w.above_others w.below_others
              (refreshed-key a w.keyed))
        ∙ ap (λ b. (above ++ claimed_row a ∷ below, b)) (test_of_count (free (refreshed a)))
