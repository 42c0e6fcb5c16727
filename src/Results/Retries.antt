-- ===== src/Results/Retries.antt =====
-- A draft of one run and the retries of its family: ui/backend/automation_results.py from the normalisation
-- of a run's output to the batch of a later retry.
use bestteam.Shared.{
  ℕ, String, some, Bool, true, false, List, [], ◌∷◌, any, All, All-imp, ◌≡◌, sym, ap, arith,
  true-and, ◌∙◌,
}
use mathlib.Core.Option.{some-injective}
use bestteam.Shared.Equality.{◌==◌, contains, string_eq, eq_of_==}
use bestteam.Shared.Text.{Text, text_eq}
use bestteam.Results.{
  RunRow, TriggerContext, Evidence, Output, AutomationItemResult, is_row, normalized_context,
  normalize_run_result,
}
use bestteam.Results.Rows.{IsDistinct, any-count, any-append}
use bestteam.Results.Coverage.{IsDeclared, normalize_run_result-IsCovered, source_key_of-injective}
use bestteam.Results.Additions.{IsAdded, normalize_run_result-IsExtended}
use bestteam.Results.Families.{retry_family_run_ids}
use bestteam.Results.Drafted.{
  TraceEventRecord, row_confirms, key_in, already_drafted_uids, retry_uids, contains-retry_uids,
}

any-imp :
    {A : Type 0} (p q : A → Bool) (xs : List A)
    → All (λ x. p x ≡ true → q x ≡ true) xs
    → any p xs ≡ true
    → any q xs ≡ true
any-imp p q [] h m = cc
any-imp p q (x ∷ xs) h m = ground (arith, h.0, any-imp p q xs h.1, m)

-- A new row of the message says that it has the draft that the trace confirms.
IsAdded-confirms :
    (run : RunRow) (e : Evidence) (family : List String) (org_id : ℕ) (context : TriggerContext)
    (u : Text) (r : AutomationItemResult)
    → normalized_context run ≡ some (org_id, context)
    → contains run.id family ≡ true
    → contains u e.confirmed ≡ true
    → IsAdded run e r
    → is_row run.id (key_in context u) r ≡ true
    → row_confirms family (key_in context u) r ≡ true
unfolding row_confirms
IsAdded-confirms run e family org_id context u r engaged inside sure
      (org, c, v, normal, member, honest) here =
    let (of_run, of_key) = true-and _ _ here in
    rw (eq_of_== r.run_id run.id of_run) (
      rw inside (
        rw of_key (honest.drafted ∙ ap (λ w. contains w e.confirmed) (same_message of_key) ∙ sure)))
  where
    same_context : c ≡ context
    same_context = ap (λ p. p.1) (some-injective (org, c) (org_id, context) (sym normal ∙ engaged))

    same_message : (r.source_key == key_in context u) ≡ true → v ≡ u
    same_message of_key =
        source_key_of-injective context.mailbox_credential_id context.uidvalidity v u (
          ap (λ k. key_in k v) (sym same_context)
          ∙ sym honest.keyed
          ∙ eq_of_== r.source_key (key_in context u) of_key)

All-IsAdded-confirms :
    (run : RunRow) (e : Evidence) (family : List String) (org_id : ℕ) (context : TriggerContext)
    (u : Text) (rows : List AutomationItemResult)
    → normalized_context run ≡ some (org_id, context)
    → contains run.id family ≡ true
    → contains u e.confirmed ≡ true
    → All (IsAdded run e) rows
    → any (is_row run.id (key_in context u)) rows ≡ true
    → any (row_confirms family (key_in context u)) rows ≡ true
All-IsAdded-confirms run e family org_id context u rows engaged inside sure h =
    any-imp (is_row run.id (key_in context u)) (row_confirms family (key_in context u)) rows
      (All-imp rows (λ r. IsAdded-confirms run e family org_id context u r engaged inside sure) h)

-- A message of a declared batch that had no row, and that the trace of its run confirms a draft for, has
-- after the normalisation, whatever the output is, a row that tells every run of the family.
normalize_run_result-confirms :
    (run : RunRow) (e : Evidence) (output : Output) (table : List AutomationItemResult) (org_id : ℕ)
    (context : TriggerContext) (family : List String) (u : Text)
    → normalized_context run ≡ some (org_id, context)
    → IsDeclared context output
    → IsDistinct context.uids
    → contains u context.uids ≡ true
    → contains u e.confirmed ≡ true
    → any (is_row run.id (key_in context u)) table ≡ false
    → contains run.id family ≡ true
    → any (row_confirms family (key_in context u)) (normalize_run_result run e output table) ≡ true
normalize_run_result-confirms run e output table org_id context family u engaged declared distinct
      member sure fresh inside =
    let here = is_row run.id (key_in context u) in
    let after = normalize_run_result run e output table in
    let (new, extended, added) = normalize_run_result-IsExtended run e output table in
    let covered =
      normalize_run_result-IsCovered run e output table org_id context engaged declared distinct u
        member in
    let some_row : any here after ≡ true = any-count here after ∙ ground (arith, covered) in
    let in_new : any here new ≡ true =
      ground (arith, any-append here table new, fresh, sym (ap (any here) extended) ∙ some_row) in
    ap (any (row_confirms family (key_in context u))) extended
    ∙ any-append (row_confirms family (key_in context u)) table new
    ∙ ground (
      arith,
      All-IsAdded-confirms run e family org_id context u new engaged inside sure added in_new,
    )

-- A message of a declared batch, with no message listed twice, that had no row of its run and that the
-- trace of the run confirms a draft for: once the run's output is normalised, whatever it is, no
-- retry of a run of the same family over the same mailbox takes the message, with the exclusions
-- that are computed from the table then.
pub drafted_message_stays :
    (runs : List RunRow) (trace : List TraceEventRecord) (run again : RunRow) (e : Evidence)
    (output : Output) (table : List AutomationItemResult) (org_id : ℕ)
    (context context' : TriggerContext) (family : List String) (drafted : List Text) (u : Text)
    → normalized_context run ≡ some (org_id, context)
    → IsDeclared context output
    → IsDistinct context.uids
    → contains u context.uids ≡ true
    → contains u e.confirmed ≡ true
    → any (is_row run.id (key_in context u)) table ≡ false
    → again.trigger_context ≡ some context'
    → key_in context' u ≡ key_in context u
    → retry_family_run_ids runs again ≡ some family
    → contains run.id family ≡ true
    → already_drafted_uids runs trace (normalize_run_result run e output table) again ≡ some drafted
    → contains u (retry_uids context'.uids drafted) ≡ false
drafted_message_stays runs trace run again e output table org_id context context' family drafted u
      engaged declared distinct member sure fresh has same found inside h =
    let after = normalize_run_result run e output table in
    let confirmed =
      normalize_run_result-confirms run e output table org_id context family u engaged declared
        distinct member sure fresh inside in
    contains-retry_uids runs trace after again context' family drafted u has found h
    ∙ rw (ap (λ k. any (row_confirms family k) after) same ∙ confirmed) (ground arith)
