-- ===== src/Results/Retention/Counting.antt =====
-- The number that a customer is shown before a purge of ui/backend/retention.py, and what is left to purge after.
use bestteam.Shared.{
  ℕ, suc, String, Bool, true, false, ◌||◌, List, [], ◌∷◌, map, filter, length, All, All-imp, ◌≡◌,
  refl, sym, ap, ap₂, subst, inl, inr, arith, Bool-cases, if◌then◌else◌, ◌∙◌,
}
use bestteam.Shared.Equality.{contains, string_eq, ==-self}
use bestteam.Results.Retention.{
  StoredRun, Store, is_refused, clear_run, of_run, purge_content_of, purge_run, is_purgeable,
  purgeable_query, purge_all, purge_org_runs, purgeable_run_count,
}

admitted :
    (day org_id days now : ℕ) (run : StoredRun)
    → is_purgeable day org_id days now run ≡ true
    → is_refused run ≡ false
unfolding is_purgeable is_refused
admitted day org_id days now run h = ground (arith, h)

-- The rows after a purge of runs that are not refused: those with one of their ids are cleared.
cleared : ℕ → List String → List StoredRun → List StoredRun
cleared now ids runs = map (λ r. if contains r.row.id ids then clear_run now r else r) runs

abbrev ids_of : List StoredRun → List String
ids_of runs = map (λ r. r.row.id) runs

cleared-nil : (now : ℕ) (runs : List StoredRun) → cleared now [] runs ≡ runs
unfolding cleared contains
cleared-nil now [] = refl
cleared-nil now (r ∷ runs) = ap (λ l. r ∷ l) (cleared-nil now runs)

clear_either :
    (now : ℕ) (id : String) (ids : List String) (r : StoredRun)
    → let once = if of_run id r then clear_run now r else r in
      (if contains once.row.id ids then clear_run now once else once)
      ≡ (if of_run id r || contains r.row.id ids then clear_run now r else r)
clear_either now id ids r = elim (Bool-cases (of_run id r)) [
  | inr other ↦ rw other refl
  | inl hit ↦ rw hit (elim (Bool-cases (contains r.row.id ids)) [
    | inl again ↦ rw again refl
    | inr once ↦ rw once refl
  ])
]

cleared-cons :
    (now : ℕ) (id : String) (ids : List String) (runs : List StoredRun)
    → cleared now ids (map (λ r. if of_run id r then clear_run now r else r) runs)
      ≡ cleared now (id ∷ ids) runs
unfolding cleared contains
cleared-cons now id ids [] = refl
cleared-cons now id ids (r ∷ runs) =
    ap₂ (λ x l. x ∷ l) (clear_either now id ids r) (cleared-cons now id ids runs)

taken :
    (now : ℕ) (r : StoredRun) (s : Store)
    → is_refused r ≡ false
    → purge_run now r s ≡ (purge_content_of now r.row.id s, true)
unfolding purge_run
taken now r s h = rw h refl

purge_all-count :
    (now : ℕ) (selected : List StoredRun) (s : Store)
    → All (λ r. is_refused r ≡ false) selected
    → ((purge_all now selected s).1 ≡ length selected)
      × ((purge_all now selected s).0.runs ≡ cleared now (ids_of selected) s.runs)
unfolding purge_all purge_content_of
purge_all-count now [] s h = (refl, sym (cleared-nil now s.runs))
purge_all-count now (r ∷ selected) s h =
    let t = purge_content_of now r.row.id s in
    let (count, rows) = purge_all-count now selected t h.1 in
    rw (taken now r s h.0) (ap suc count, rows ∙ cleared-cons now r.row.id (ids_of selected) s.runs)

filter-All : (p : StoredRun → Bool) (runs : List StoredRun) → All (λ r. p r ≡ true) (filter p runs)
filter-All p [] = tt
filter-All p (r ∷ runs) = ground (arith, filter-All p runs)

filter_hit :
    (p : StoredRun → Bool) (r : StoredRun) (runs : List StoredRun)
    → p r ≡ true
    → filter p (r ∷ runs) ≡ r ∷ filter p runs
filter_hit p r runs h = rw h refl

filter_miss :
    (p : StoredRun → Bool) (r : StoredRun) (runs : List StoredRun)
    → p r ≡ false
    → filter p (r ∷ runs) ≡ filter p runs
filter_miss p r runs h = rw h refl

-- The ids of the selected rows are those of the rows that the query selects.
selected_ids :
    (p : StoredRun → Bool) (runs : List StoredRun)
    → All (λ r. p r ≡ true → contains r.row.id (ids_of (filter p runs)) ≡ true) runs
unfolding contains
selected_ids p [] = tt
selected_ids p (r ∷ runs) = elim (Bool-cases (p r)) [
  | inl hit ↦
      subst (λ l. All (λ q. p q ≡ true → contains q.row.id (ids_of l) ≡ true) (r ∷ runs))
        (sym (filter_hit p r runs hit))
        (
          λ _. rw (==-self r.row.id) refl,
          All-imp runs (λ q inside chosen. rw (inside chosen) (ground arith)) (selected_ids p runs),
        )
  | inr miss ↦
      subst (λ l. All (λ q. p q ≡ true → contains q.row.id (ids_of l) ≡ true) (r ∷ runs))
        (sym (filter_miss p r runs miss)) (λ chosen. cc, selected_ids p runs)
]

not_again :
    (day org_id days now at : ℕ) (r : StoredRun)
    → is_purgeable day org_id days now (clear_run at r) ≡ false
unfolding is_purgeable
not_again day org_id days now at r = ground arith

none_left :
    (day org_id days now at : ℕ) (ids : List String) (runs : List StoredRun)
    → All (λ r. is_purgeable day org_id days now r ≡ true → contains r.row.id ids ≡ true) runs
    → filter (is_purgeable day org_id days now) (cleared at ids runs) ≡ []
unfolding cleared
none_left day org_id days now at ids [] h = refl
none_left day org_id days now at ids (r ∷ runs) h =
    let rest = none_left day org_id days now at ids runs h.1 in
    elim (Bool-cases (contains r.row.id ids)) [
      | inl inside ↦ rw inside (rw (not_again day org_id days now at r) rest)
      | inr outside ↦ rw outside (rw (not_purgeable outside) rest)
    ]
  where
    not_purgeable : contains r.row.id ids ≡ false → is_purgeable day org_id days now r ≡ false
    not_purgeable outside = ground (arith, h.0, outside)

-- A purge takes as many runs as the customer is shown before, and with the same arguments nothing is left
-- to take after it.
pub purge_org_runs-count :
    (day org_id older_than_days now : ℕ) (s : Store)
    → let (after, purged) = purge_org_runs day org_id older_than_days now s in
      (purged ≡ purgeable_run_count day org_id older_than_days now s)
      × (purgeable_run_count day org_id older_than_days now after ≡ 0)
unfolding purge_org_runs purgeable_run_count purgeable_query
purge_org_runs-count day org_id days now s =
    let p = is_purgeable day org_id days now in
    let (count, rows) =
      purge_all-count now (filter p s.runs) s
        (All-imp (filter p s.runs) (λ r. admitted day org_id days now r) (filter-All p s.runs)) in
    (
      count,
      ap (λ l. length (filter p l)) rows
          ∙ ap length (
              none_left day org_id days now now (ids_of (filter p s.runs)) s.runs
                (selected_ids p s.runs)),
    )
