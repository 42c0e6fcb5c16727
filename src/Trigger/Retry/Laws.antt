-- ===== src/Trigger/Retry/Laws.antt =====
-- What a manual retry of ui/backend/email_trigger.py redoes, and that two of them exclude each
-- other.
use bestteam.Shared.{
  ℕ, String, true, false, Option, none, some, List, [], ◌∷◌, ◌≡◌, refl, sym, subst, ◌∙◌, ap, inl,
  inr, Bool-cases, All, All-imp, All-filter, All-zip, arith, ◌++◌,
}
use bestteam.Shared.Equality.{string_eq, nat_eq, contains, ==-self}
use bestteam.Shared.Dict.{Dict, lookup, put, lookup-put_self}
use bestteam.Shared.Text.{is_empty}
use bestteam.Runs.{failed, is_running}
use bestteam.Trigger.{plain, TriggerContext, RunRow, Limits, System}
use bestteam.Trigger.Decimal.{str}
use bestteam.Trigger.Retry.{
  Original, Attempt, RetryResult, refused, dispatched, has_failed, retries, is_retrying,
  early_refusal, undrafted, all_drafted, retry_uids, retry_row, commit_retry, submit_retry,
  advance_retry, retry_message, checked_retry, retrying_words, retry_triggered_run,
}
use bestteam.Trigger.Outcomes.{lookup-fail_row}
use bestteam.Trigger.Drafted.{mailbox_drafted_uids}
use bestteam.Trigger.Retry.Cases.{retry_cases}

-- Whether a retry has started the run, in its answer.
abbrev pub IsSent : String → RetryResult × System → Type 0
IsSent run_id (refused words, s) = ⊥
IsSent run_id (dispatched id, s) = id ≡ run_id

is_retrying-put :
    (id run_id : String) (row : RunRow) (rows : Dict String RunRow)
    → retries id row ≡ true
    → is_retrying id (put run_id row rows) ≡ true
unfolding is_retrying put
is_retrying-put id run_id row [] h = ground (arith, h)
is_retrying-put id run_id row ((j, old) ∷ rest) h =
    ground (arith, h, is_retrying-put id run_id row rest h)

retries-retry_row :
    (a : Attempt) (r : Original) (ctx : TriggerContext) (version : Option ℕ)
    → retries r.id (retry_row a r ctx version) ≡ true
unfolding retry_row
retries-retry_row a r ctx version = rw (==-self r.id) refl

module _ (a : Attempt) (r : Original) (ctx : TriggerContext) (s : System) where
  status_of :
      early_refusal a r ctx s ≡ none → (is_running r.status ≡ false) × (has_failed r.status ≡ true)
  unfolding early_refusal
  status_of h = ground (arith, h)

  early-again :
      is_running r.status ≡ false
      → has_failed r.status ≡ true
      → is_retrying r.id s.run_rows ≡ true
      → early_refusal a r ctx s ≡ some retrying_words
  unfolding early_refusal
  early-again idle broken busy = rw idle (rw broken (rw busy refl))

  retry-again :
      (limits : Limits)
      → r.trigger_context ≡ some ctx
      → early_refusal a r ctx s ≡ some retrying_words
      → retry_triggered_run limits a r s ≡ (refused (plain retrying_words), s)
  unfolding retry_triggered_run checked_retry
  retry-again limits has early = rw (has, retry_triggered_run) (rw (early, checked_retry) refl)

submit_retry-sent :
    (a : Attempt) (r : Original) (ctx : TriggerContext) (s : System)
    → a.submits ≡ true
    → submit_retry a r ctx s ≡ s
unfolding submit_retry
submit_retry-sent a r ctx s sent = rw sent refl

module _ (limits : Limits) (a b : Attempt) (r : Original) where
  -- After a retry of a failed run that the executor has taken, a second retry of that run, on the
  -- state that the first has left and whatever the mailbox and the evidence of drafts are by then,
  -- is refused because a retry is in progress, and changes nothing.
  pub retry_triggered_run-excludes :
      (s : System)
      → a.submits ≡ true
      → IsSent a.run_id (retry_triggered_run limits a r s)
      → retry_triggered_run limits b r (retry_triggered_run limits a r s).1
        ≡ (refused (plain retrying_words), (retry_triggered_run limits a r s).1)
  unfolding commit_retry
  retry_triggered_run-excludes s submits =
      retry_cases limits a r s
        (λ x.
          IsSent a.run_id x
          → retry_triggered_run limits b r x.1 ≡ (refused (plain retrying_words), x.1))
        (λ words t not_sent. absurd not_sent)
        λ ctx t version due sent.
          rw (submit_retry-sent a r ctx (commit_retry a r ctx version t) submits) (
            let (idle, broken) = status_of a r ctx s due.no_refusal in
            retry-again b r ctx (commit_retry a r ctx version t) limits due.has_context (
              early-again b r ctx (commit_retry a r ctx version t) idle broken (
                is_retrying-put r.id a.run_id (retry_row a r ctx version) t.run_rows
                  (retries-retry_row a r ctx version))))

All-contains : (us : List ℕ) → All (λ u. contains u us ≡ true) us
unfolding contains
All-contains [] = tt
All-contains (u ∷ us) =
    (ground (arith, ==-self u), All-imp us (λ v h. ground (arith, h)) (All-contains us))

All-without :
    (drafted : List String) (us : List ℕ)
    → All (λ u. contains (str u) drafted ≡ false) (undrafted drafted us)
unfolding undrafted
All-without drafted [] = tt
All-without drafted (u ∷ us) = elim (Bool-cases (contains (str u) drafted)) [
  | inl there ↦ rw there (All-without drafted us)
  | inr new ↦ rw new (new, All-without drafted us)
]

All-taken :
    (drafted : List String) (uids : List ℕ)
    → All (λ u. contains u uids ≡ true) (undrafted drafted uids)
unfolding undrafted
All-taken drafted uids = All-filter (λ u. contains u uids ≡ true) _ uids (All-contains uids)

contains-append :
    (u : String) (xs ys : List String)
    → contains u (xs ++ ys) ≡ false
    → (contains u xs ≡ false) × (contains u ys ≡ false)
unfolding contains
contains-append u [] ys h = (refl, h)
contains-append u (x ∷ xs) ys h = ground (arith, h, contains-append u xs ys)

module _ (a : Attempt) (ctx : TriggerContext) where
  -- A message of the batch that neither the results nor the mailbox show a draft for.
  abbrev pub IsOpen : ℕ → Type 0
  IsOpen u =
      (contains u ctx.uids ≡ true)
      × (contains (str u) a.drafted ≡ false)
      × (contains (str u) (mailbox_drafted_uids a.scan ctx (undrafted a.drafted ctx.uids)) ≡ false)

  All-IsOpen : All IsOpen (retry_uids a ctx)
  unfolding all_drafted
  All-IsOpen =
      All-imp (retry_uids a ctx)
        (λ u h. let (outside, unseen) = contains-append (str u) _ _ h.1 in (h.0, outside, unseen))
        (All-zip (λ u. contains u ctx.uids ≡ true)
          (λ u. contains (str u) (all_drafted a ctx) ≡ false) (retry_uids a ctx)
          (All-taken (all_drafted a ctx) ctx.uids) (All-without (all_drafted a ctx) ctx.uids))

-- The new run's row, and the trigger that waits for the run.
pub record Redoes (a : Attempt) (r : Original) (ctx : TriggerContext) (t : System) : Type 0 where
  pub row : RunRow
  pub there : lookup a.run_id t.run_rows ≡ some row
  pub of_run : row.retry_of_run_id ≡ some r.id
  pub is_open : All (IsOpen a ctx) row.trigger_context.uids
  pub has_work : is_empty row.trigger_context.uids ≡ false
  pub is_awaited : t.trigger.last_run_id ≡ some a.run_id

submit-Redoes :
    (a : Attempt) (r : Original) (ctx : TriggerContext) (version : Option ℕ) (s : System)
    → is_empty (retry_uids a ctx) ≡ false
    → Redoes a r ctx (submit_retry a r ctx (commit_retry a r ctx version s))
unfolding submit_retry commit_retry advance_retry retry_row
submit-Redoes a r ctx version s work = elim (Bool-cases a.submits) [
  | inl sent ↦
      simp sent
        (of_row (retry_row a r ctx version) (placed (retry_row a r ctx version)) refl refl refl)
  | inr unsent ↦ simp unsent (
      of_row (record (retry_row a r ctx version) { status = failed; output = some retry_message })
        (lookup-fail_row a.run_id retry_message _ _ (placed (retry_row a r ctx version))) refl refl
        refl)
]
  where
    placed : (row : RunRow) → lookup a.run_id (put a.run_id row s.run_rows) ≡ some row
    placed row = lookup-put_self a.run_id row s.run_rows

    of_row :
        {t : System} (row : RunRow)
        → lookup a.run_id t.run_rows ≡ some row
        → row.retry_of_run_id ≡ some r.id
        → row.trigger_context.uids ≡ retry_uids a ctx
        → t.trigger.last_run_id ≡ some a.run_id
        → Redoes a r ctx t
    of_row row found of same last = record {
      row = row;
      there = found;
      of_run = of;
      is_open = subst (All (IsOpen a ctx)) (sym same) (All-IsOpen a ctx);
      has_work = ap is_empty same ∙ work;
      is_awaited = last;
    }

-- A retry that starts a run is of a failed run with a batch. It writes a row for the new run that
-- names the run it retries, and the trigger waits for the new run. The row's batch is not empty,
-- and each message of it is one of the old batch for which neither the results of the run nor the
-- mailbox show a draft.
pub retry_triggered_run-Redoes :
    (limits : Limits) (a : Attempt) (r : Original) (s : System)
    → IsSent a.run_id (retry_triggered_run limits a r s)
    → (ctx : TriggerContext) × (r.trigger_context ≡ some ctx)
      × (has_failed r.status ≡ true)
      × Redoes a r ctx (retry_triggered_run limits a r s).1
retry_triggered_run-Redoes limits a r s =
    retry_cases limits a r s
      (λ x.
        IsSent a.run_id x
        → (ctx : TriggerContext) × (r.trigger_context ≡ some ctx)
          × (has_failed r.status ≡ true)
          × Redoes a r ctx x.1)
      (λ words t not_sent. absurd not_sent)
      λ ctx t version due sent. (
        ctx,
        due.has_context,
        (status_of a r ctx s due.no_refusal).1,
        submit-Redoes a r ctx version t due.has_work,
      )
