-- ===== src/Results/Retention/Forgetting.antt =====
-- What a purge of ui/backend/retention.py keeps of a run, and what a later retry knows of its drafts.
use bestteam.Shared.{
  ℕ, String, some, Bool, false, not, ◌||◌, List, [], ◌∷◌, map, filter, any, ◌≡◌, refl, ap, ap₂, inl,
  inr, arith, Bool-cases, if◌then◌else◌, ◌∙◌,
}
use bestteam.Shared.Equality.{◌==◌, contains, string_eq}
use bestteam.Shared.Text.{Text, text_eq}
use bestteam.Shared.Dict.{lookup}
use bestteam.Runs.{RunStatus, Run, is_running, purge_content}
use bestteam.Runs.Slots.{slot, purged}
use bestteam.Runs.Slots.Membership.{purge_run_self}
use bestteam.Results.{RunRow, TriggerContext, AutomationItemResult}
use bestteam.Results.Families.{retry_family_run_ids}
use bestteam.Results.Drafted.{
  TraceEventRecord, row_confirms, event_confirms, key_in, already_drafted_uids, retry_uids,
  contains-retry_uids,
}
use bestteam.Results.Retention.{StoredRun, Store, clear_run, clear_result, of_run, purge_content_of}

-- The columns of a run, and of a result, that are not content.
abbrev pub run_accounting : StoredRun → RunRow × RunStatus × ℕ
run_accounting r = (r.row, r.status, r.created_at)

abbrev pub result_accounting : AutomationItemResult → String × Text × Text × Bool
result_accounting i = (i.run_id, i.source_key, i.status, i.needs_attention)

map_cleared :
    {A : Type 0} {B : Type 0} (f : A → B) (p : A → Bool) (c : A → A)
    → ((a : A) → f (c a) ≡ f a)
    → (xs : List A) → map f (map (λ a. if p a then c a else a) xs) ≡ map f xs
map_cleared f p c h [] = refl
map_cleared f p c h (x ∷ xs) = ap₂ (λ y l. y ∷ l) kept (map_cleared f p c h xs)
  where
    kept : f (if p x then c x else x) ≡ f x
    kept = elim (Bool-cases (p x)) [ inl hit ↦ rw hit (h x) | inr miss ↦ rw miss refl ]

no_trace_left :
    (id : String) (u : Text) (trace : List TraceEventRecord)
    → any (event_confirms (id ∷ []) u) (filter (λ t. not (t.run_id == id)) trace) ≡ false
unfolding event_confirms contains
no_trace_left id u [] = refl
no_trace_left id u (t ∷ trace) = ground (arith, no_trace_left id u trace)

no_result_left :
    (id : String) (key : Text) (results : List AutomationItemResult)
    → any
        (row_confirms (id ∷ []) key)
        (map (λ i. if i.run_id == id then clear_result i else i) results)
      ≡ false
unfolding row_confirms contains
no_result_left id key [] = refl
no_result_left id key (i ∷ results) = elim (Bool-cases (i.run_id == id)) [
  | inl hit ↦ rw hit (rw (no_result_left id key results) (cleared_row key))
  | inr miss ↦ rw miss (rw (no_result_left id key results) (other_row miss))
]
  where
    cleared_row : (k : Text) → row_confirms (id ∷ []) k (clear_result i) || false ≡ false
    cleared_row k = ground arith

    other_row : (i.run_id == id) ≡ false → row_confirms (id ∷ []) key i || false ≡ false
    other_row miss = ground (arith, miss)

-- A purge that is not refused keeps, of every run and of every result, the columns that are not
-- content, and no trace and no payload says any more that the run has a draft for a message.
purge_content_of-keeps :
    (now : ℕ) (run_id : String) (s : Store)
    → let t = purge_content_of now run_id s in
      (map run_accounting t.runs ≡ map run_accounting s.runs)
      × (map result_accounting t.results ≡ map result_accounting s.results)
      × ((u : Text) → any (event_confirms (run_id ∷ []) u) t.trace ≡ false)
      × ((key : Text) → any (row_confirms (run_id ∷ []) key) t.results ≡ false)
unfolding purge_content_of
purge_content_of-keeps now run_id s = (
  map_cleared run_accounting (of_run run_id) (clear_run now) (λ r. refl) s.runs,
  map_cleared result_accounting (λ i. i.run_id == run_id) clear_result (λ i. refl) s.results,
  λ u. no_trace_left run_id u s.trace,
  λ key. no_result_left run_id key s.results,
)

-- The registry, where it holds the run as a finished one, has its input and its events no more.
purge_content_of-registry :
    (now : ℕ) (run_id : String) (s : Store) (r : Run)
    → lookup run_id s.registry.runs ≡ some r
    → is_running r.status ≡ false
    → slot (purge_content_of now run_id s).registry run_id ≡ purged r (slot s.registry run_id)
unfolding purge_content_of purge_content
purge_content_of-registry now run_id s r found ended =
    rw (found, purge_content) (rw ended (purge_run_self run_id r s.registry))

-- After the purge of a run that is the only one of its family, what the platform's own evidence leaves for a
-- retry of it is the whole batch again, whatever drafts its trace and its results told of before.
pub purge_content_of-forgets :
    (now : ℕ) (run : RunRow) (context : TriggerContext) (s : Store) (drafted : List Text) (u : Text)
    → let t = purge_content_of now run.id s in
      let rows = map (λ r. r.row) t.runs in
      run.trigger_context ≡ some context
      → retry_family_run_ids (map (λ r. r.row) s.runs) run ≡ some (run.id ∷ [])
      → already_drafted_uids rows t.trace t.results run ≡ some drafted
      → contains u (retry_uids context.uids drafted) ≡ contains u context.uids
unfolding purge_content_of
purge_content_of-forgets now run context s drafted u has alone h =
    let rows = map_cleared (λ r. r.row) (of_run run.id) (clear_run now) (λ r. refl) s.runs in
    contains-retry_uids _ _ _ run context (run.id ∷ []) drafted u has
      (ap (λ l. retry_family_run_ids l run) rows ∙ alone) h
    ∙ rw (no_trace_left run.id u s.trace)
        (rw (no_result_left run.id (key_in context u) s.results) (ground arith))
