-- ===== src/Results/Families.antt =====
-- The runs that retry one another, `_retry_family_run_ids` of ui/backend/automation_results.py: up to the
-- first run, and from there down, level by level. A table of runs is a list of rows; both loops have
-- fuel, one more than the number of rows.
pub mod Growth
pub mod Roots
use bestteam.Shared.{
  ℕ, zero, suc, String, Option, none, some, Bool, true, false, not, ◌&&◌, List, [], ◌∷◌, ◌++◌, map,
  filter, length, if◌then◌else◌,
}
use bestteam.Shared.Equality.{◌==◌, contains, string_eq}
use bestteam.Shared.Text.{is_empty}
use bestteam.Results.{RunRow}

-- `db.get(Run, id)`
unfoldable pub find_run : String → List RunRow → Option RunRow
find_run id [] = none
find_run id (r ∷ runs) = let rest = find_run id runs in if r.id == id then some r else rest

-- The `while` loop up to the root; `none` is out of fuel.
unfoldable pub root_from : ℕ → List RunRow → RunRow → Option String
root_from zero runs current = none
root_from (suc fuel) runs current = elim current.retry_of_run_id [
  | none ↦ some current.id
  | some id ↦ elim (find_run id runs) [
    | none ↦ some current.id
    | some parent ↦ root_from fuel runs parent
  ]
]

abbrev pub is_child : List String → RunRow → Bool
is_child frontier r = elim r.retry_of_run_id [ none ↦ false | some id ↦ contains id frontier ]

unfoldable pub next_frontier : List String → List String → List RunRow → List String
next_frontier family frontier runs =
    map (λ r. r.id) (filter (λ r. is_child frontier r && not (contains r.id family)) runs)

-- The `while` loop over the levels; `none` is out of fuel.
unfoldable pub grow : ℕ → List RunRow → (family frontier : List String) → Option (List String)
grow zero runs family frontier = if is_empty frontier then some family else none
grow (suc fuel) runs family frontier =
    let children = next_frontier family frontier runs in
    let rest = grow fuel runs (family ++ children) children in
    if is_empty frontier then some family else rest

unfoldable pub retry_family_run_ids : List RunRow → RunRow → Option (List String)
retry_family_run_ids runs run = elim (root_from (suc (length runs)) runs run) [
  | none ↦ none
  | some root ↦ grow (suc (length runs)) runs (root ∷ []) (root ∷ [])
]
