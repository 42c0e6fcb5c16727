-- ===== src/Trigger/Activity.antt =====
-- Whether the registry of ui/backend/registry.py has a run at work, over the calls that
-- ui/backend/email_trigger.py makes.
use bestteam.Shared.{
  ℕ, String, Bool, true, false, Option, ◌≡◌, refl, ap, ◌∙◌, inl, inr, Bool-cases, Option-cases,
}
use bestteam.Shared.Text.{Text}
use bestteam.Shared.Equality.{string_eq}
use bestteam.Shared.Dict.{lookup, HasDistinctKeys, put-HasDistinctKeys, lookup-put_self}
use bestteam.Runs.{
  Run, Registry, run_failed, get, is_running, new_run, add_run, create, discard, request_cancel,
  set_cancel, publish, is_busy, status_after,
}
use bestteam.Runs.Slots.{slot, fresh_slot}
use bestteam.Runs.Slots.Membership.{add_run_self, discard_self}
use bestteam.Runs.Slots.Publishing.{publish_run_self}
use bestteam.Runs.Eviction.{evict_if_over_bound-keeps}
use bestteam.Trigger.Watchdog.{is_active}
use bestteam.Trigger.Dispatch.{set_input}

-- The registry's part of what is known of a run.
module _ (run_id : String) where
  abbrev pub active_in : Registry → Bool
  active_in r = is_active (get run_id r)

  pub active-create :
      (pipeline : String) (input : Text) (org : Option ℕ) (username : Option String) (r : Registry)
      → HasDistinctKeys r.runs
      → active_in (create run_id pipeline input org username r).0 ≡ true
  unfolding create get new_run add_run is_busy
  active-create pipeline input org username r distinct = ap (λ c. is_active c.run) (kept ∙ added)
    where
      run : Run
      run = new_run run_id pipeline input org username

      added : slot (add_run run r) run_id ≡ fresh_slot run
      added = add_run_self run r

      kept :
          slot (create run_id pipeline input org username r).0 run_id ≡ slot (add_run run r) run_id
      kept =
          evict_if_over_bound-keeps run_id run (add_run run r)
            (put-HasDistinctKeys run_id run r.runs distinct) (ap (λ c. c.run) added)
            (ap (λ c. is_busy run c.queues) added)

  pub active-discard : (r : Registry) → active_in (discard run_id r) ≡ false
  unfolding get
  active-discard r = ap (λ c. is_active c.run) (discard_self run_id r)

  pub active-fail :
      (words : Text) (r : Registry) → active_in (publish run_id (run_failed words) r) ≡ false
  unfolding get publish status_after
  active-fail words r = elim (Option-cases (lookup run_id r.runs)) [
    | inl missing ↦ rw (missing, publish) (rw missing refl)
    | inr (run, there) ↦
        rw (there, publish)
          (ap (λ c. is_active c.run) (publish_run_self run_id (run_failed words) run r))
  ]

  pub active-set_input :
      (input : Text) (r : Registry) → active_in (set_input run_id input r) ≡ active_in r
  unfolding get set_input
  active-set_input input r = elim (Option-cases (lookup run_id r.runs)) [
    | inl missing ↦ rw (missing, set_input) (ap is_active missing)
    | inr (run, there) ↦
        rw (there, set_input)
          (ap is_active (lookup-put_self run_id (record run { input = input }) r.runs))
  ]

-- A request to cancel changes no run.
pub runs-request_cancel : (other : String) (r : Registry) → (request_cancel other r).0.runs ≡ r.runs
unfolding request_cancel set_cancel
runs-request_cancel other r = elim (Option-cases (lookup other r.runs)) [
  | inl missing ↦ rw (missing, request_cancel) refl
  | inr (run, there) ↦
      rw (there, request_cancel)
        (elim (Bool-cases (is_running run.status)) [ inl on ↦ rw on refl | inr off ↦ rw off refl ])
]
