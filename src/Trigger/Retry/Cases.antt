-- ===== src/Trigger/Retry/Cases.antt =====
-- How a manual retry of ui/backend/email_trigger.py ends: refused, or with a new run.
use bestteam.Shared.{
  ℕ, Bool, true, false, Option, none, some, ◌≡◌, refl, leb, inl, inr, Bool-cases, Option-cases,
}
use bestteam.Shared.Text.{is_empty}
use bestteam.Trigger.{Message, TriggerContext, Limits, System, with_trigger}
use bestteam.Trigger.Watchdog.{overlap_guard}
use bestteam.Trigger.Poll.{roll_over, at_daily_cap}
use bestteam.Trigger.Retry.{
  Original, Attempt, RetryResult, refused, dispatched, is_retrying, early_refusal, retry_uids,
  may_retry, commit_retry, submit_retry, committed, dispatch_retry, locked_retry, checked_retry,
  retry_triggered_run,
}

-- What holds where a retry of the run goes out, in the state under the lock.
pub record IsDue (limits : Limits) (a : Attempt) (r : Original) (ctx : TriggerContext)
    (before s : System) : Type 0 where
  pub has_context : r.trigger_context ≡ some ctx
  pub no_refusal : early_refusal a r ctx before ≡ none
  pub guarded :
      overlap_guard limits a.now (with_trigger (roll_over a.today before.trigger) before)
      ≡ (s, true)
  pub has_room : at_daily_cap limits a.today s.trigger ≡ false
  pub not_retrying : is_retrying r.id s.run_rows ≡ false
  pub has_work : is_empty (retry_uids a ctx) ≡ false
  pub may_go : may_retry a s.trigger ≡ true

module _ {ℓ} (limits : Limits) (a : Attempt) (r : Original) (before : System)
    (P : RetryResult × System → Type ℓ)
    (stopped : (words : Message) (t : System) → P (refused words, t)) where
  module _ (ctx : TriggerContext)
      (sent : (s : System) (version : Option ℕ)
        → IsDue limits a r ctx before s
        → P (dispatched a.run_id, submit_retry a r ctx (commit_retry a r ctx version s)))
      (has : r.trigger_context ≡ some ctx) where
    abbrev rolled : System
    rolled = with_trigger (roll_over a.today before.trigger) before

    dispatch_lem :
        (kept s : System)
        → (may_retry a s.trigger ≡ true
            → is_empty (retry_uids a ctx) ≡ false
            → IsDue limits a r ctx before s)
        → P (dispatch_retry a r ctx kept s)
    unfolding dispatch_retry
    dispatch_lem kept s due = elim (Bool-cases (is_empty (retry_uids a ctx))) [
      | inl e ↦ rw e (stopped _ _)
      | inr work ↦ rw work (elim (Option-cases a.build) [
        | inl raises ↦ rw (raises, dispatch_retry) (stopped _ _)
        | inr (version, built) ↦
            rw (built, dispatch_retry)
              (elim (Bool-cases (may_retry a s.trigger)) [
                | inl on ↦ rw on (sent s version (due on work))
                | inr off ↦ rw off (stopped _ _)
              ])
      ])
    ]

    guarded_lem :
        (s : System) (free : Bool)
        → overlap_guard limits a.now rolled ≡ (s, free)
        → early_refusal a r ctx before ≡ none
        → P (locked_retry a r ctx limits before rolled)
    unfolding locked_retry
    guarded_lem s false guard none_early = rw guard (stopped _ _)
    guarded_lem s true guard none_early =
        rw guard (elim (Bool-cases (at_daily_cap limits a.today s.trigger)) [
          | inl full ↦ rw full (stopped _ _)
          | inr below ↦ rw below (elim (Bool-cases (is_retrying r.id s.run_rows)) [
            | inl busy ↦ rw busy (stopped _ _)
            | inr idle ↦ rw idle (
                dispatch_lem (committed before rolled s) s λ on work. record {
                  has_context = has;
                  no_refusal = none_early;
                  guarded = guard;
                  has_room = below;
                  not_retrying = idle;
                  has_work = work;
                  may_go = on;
                })
          ])
        ])

    checked_lem : P (checked_retry a r ctx limits before)
    unfolding checked_retry
    checked_lem = elim (Option-cases (early_refusal a r ctx before)) [
      | inr (words, early) ↦ rw (early, checked_retry) (stopped _ _)
      | inl fine ↦
          rw (fine, checked_retry)
            (elim (Bool-cases a.has_trigger) [
              | inr gone ↦ simp gone (stopped _ _)
              | inl there ↦
                  simp there (elim (Bool-cases (leb limits.daily_cap rolled.trigger.runs_today)) [
                    | inl full ↦ rw full (stopped _ _)
                    | inr below ↦ rw below (guarded_lem _ _ refl fine)
                  ])
            ])
    ]

  -- A retry is refused, or a new run goes out.
  pub retry_cases :
      ((ctx : TriggerContext) (s : System) (version : Option ℕ)
        → IsDue limits a r ctx before s
        → P (dispatched a.run_id, submit_retry a r ctx (commit_retry a r ctx version s)))
      → P (retry_triggered_run limits a r before)
  unfolding retry_triggered_run
  retry_cases sent = elim (Option-cases r.trigger_context) [
    | inl no_batch ↦ rw (no_batch, retry_triggered_run) (stopped _ _)
    | inr (ctx, has) ↦ rw (has, retry_triggered_run) (checked_lem ctx (sent ctx) has)
  ]
