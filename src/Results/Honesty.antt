-- ===== src/Results/Honesty.antt =====
-- What ui/backend/automation_results.py writes of a message rests on the trace, not on the model.
use bestteam.Shared.{
  some, true, ◌||◌, List, [], ◌∷◌, is_some, All, All-append, ◌≡◌, refl, sym, ap, subst, inl, inr,
  arith, Bool-cases, Option-cases, ◌∙◌,
}
use mathlib.Core.Option.{some-injective}
use bestteam.Shared.Equality.{contains, eq_of_==}
use bestteam.Shared.Dict.{Dict, lookup}
use bestteam.Shared.Text.{Text, text_eq, strip}
use bestteam.Shared.Literal.{text}
use bestteam.Results.{
  EnvelopeItem, Evidence, Batch, AutomationItemResult, Reading, envelope_of, mismatch, unrelated,
  always_needs_attention_priorities, reconciled_action, item_payload, needs_attention_for,
  error_payload, new_row, error_row, item_row, index_items, row_for, row_maker,
}

-- The row is for the message: it says that there is a draft exactly when the trace confirms one, and
-- it needs attention when it is an error, when its status or its priority says so, or when the trace
-- has a failed call for the message.
pub record IsHonest (b : Batch) (e : Evidence) (u : Text) (r : AutomationItemResult) : Type 0 where
  pub keyed : r.source_key ≡ b.key_of u
  pub of_run : r.run_id ≡ b.run_id
  pub of_org : r.org_id ≡ b.org_id
  pub drafted : r.payload.action.draft_created ≡ contains u e.confirmed
  pub flagged :
      contains r.status (text "needs_attention" ∷ text "error" ∷ [])
          || contains r.payload.priority always_needs_attention_priorities
          || contains u e.failed
        ≡ true
      → r.needs_attention ≡ true

error_row-IsHonest :
    (b : Batch) (e : Evidence) (reason u : Text) → IsHonest b e u (error_row b reason e.confirmed u)
unfolding error_row new_row error_payload
error_row-IsHonest b e reason u = record {
  keyed = refl;
  of_run = refl;
  of_org = refl;
  drafted = refl;
  flagged = λ h. refl;
}

reconciled :
    (item : EnvelopeItem) (ids : List Text)
    → (reconciled_action item ids).draft_created ≡ contains (strip item.message_id) ids
unfolding reconciled_action
reconciled item ids = ground arith

item_row-IsHonest :
    (b : Batch) (e : Evidence) (u : Text) (item : EnvelopeItem)
    → strip item.message_id ≡ u
    → IsHonest b e u (item_row b e u item)
unfolding item_row new_row item_payload needs_attention_for
item_row-IsHonest b e u item h = record {
  keyed = refl;
  of_run = refl;
  of_org = refl;
  drafted = reconciled item e.confirmed ∙ ap (λ t. contains t e.confirmed) h;
  flagged = λ flags. needed (
      subst
        (λ t.
          contains item.status (text "needs_attention" ∷ text "error" ∷ [])
            || contains item.priority always_needs_attention_priorities
            || contains t e.failed
          ≡ true)
        (sym h) flags);
}
  where
    needed :
        contains item.status (text "needs_attention" ∷ text "error" ∷ [])
            || contains item.priority always_needs_attention_priorities
            || contains (strip item.message_id) e.failed
          ≡ true
        → needs_attention_for item e ≡ true
    needed flags = ground (arith, flags)

-- Every item stands under its own id.
IsIndexed : Dict Text EnvelopeItem → Type 0
IsIndexed found = All (λ p. strip p.1.message_id ≡ p.0) found

index_items-IsIndexed :
    (uids : List Text) (items : List EnvelopeItem) (found : Dict Text EnvelopeItem)
    → IsIndexed found
    → IsIndexed (index_items uids items found)
unfolding IsIndexed index_items
index_items-IsIndexed uids [] found h = h
index_items-IsIndexed uids (item ∷ items) found h =
    index_items-IsIndexed uids items _ (elim (Bool-cases (contains (strip item.message_id) uids)) [
      | inr outside ↦ rw outside h
      | inl inside ↦ rw inside (elim (Bool-cases (is_some (lookup (strip item.message_id) found))) [
        | inl known ↦ rw known h
        | inr new ↦ rw new (All-append (λ p. strip p.1.message_id ≡ p.0) found _ h (refl, tt))
      ])
    ])

lookup-IsIndexed :
    (u : Text) (item : EnvelopeItem) (found : Dict Text EnvelopeItem)
    → IsIndexed found
    → lookup u found ≡ some item
    → strip item.message_id ≡ u
unfolding IsIndexed lookup
lookup-IsIndexed u item [] h e = cc
lookup-IsIndexed u item ((v, i) ∷ found) h e =
    ground (arith, e, h.0, eq_of_== v u, lookup-IsIndexed u item found h.1)

row_for-IsHonest :
    (b : Batch) (e : Evidence) (uids : List Text) (items : List EnvelopeItem) (u : Text)
    → IsHonest b e u (row_for b e (index_items uids items []) u)
unfolding row_for IsIndexed
row_for-IsHonest b e uids items u = elim (Option-cases (lookup u (index_items uids items []))) [
  | inl missing ↦ rw (missing, row_for) (error_row-IsHonest b e _ u)
  | inr (item, found) ↦
      rw (found, row_for) (item_row-IsHonest b e u item (lookup-IsIndexed u item _ (indexed) found))
]
  where
    indexed : IsIndexed (index_items uids items [])
    indexed = index_items-IsIndexed uids items [] tt

-- However the output reads, a row that is made for a message is honest.
pub row_maker-IsHonest :
    (b : Batch) (e : Evidence) (uids : List Text) (reading : Reading)
    (row_of : Text → AutomationItemResult) (u : Text)
    → row_maker b e uids reading ≡ some row_of
    → IsHonest b e u (row_of u)
unfolding row_maker
row_maker-IsHonest b e uids (envelope_of envelope) row_of u h =
    subst (λ f. IsHonest b e u (f u)) (some-injective _ _ h)
      (row_for-IsHonest b e uids envelope.items u)
row_maker-IsHonest b e uids mismatch row_of u h =
    subst (λ f. IsHonest b e u (f u)) (some-injective _ _ h) (error_row-IsHonest b e _ u)
row_maker-IsHonest b e uids unrelated row_of u h = cc
