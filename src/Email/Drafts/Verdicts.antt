-- ===== src/Email/Drafts/Verdicts.antt =====
-- One row through one pass of `reconcile` in ui/backend/draft_outcomes.py.
use bestteam.Shared.{
  ℕ, ◌+◌, ◌≤◌, ◌<◌, none, some, is_some, true, false, leb, ◌≡◌, ◌⊎◌, inl, inr, refl, sym, subst,
  ◌∙◌, arith, Bool-cases, Option-cases,
}
use bestteam.Shared.Equality.{contains}
use bestteam.Shared.Dict.{lookup}
use bestteam.Shared.Text.{Text, text_eq, is_empty}
use bestteam.Email.Drafts.{
  DraftStatus, pending, sent, handled, unknown, source_key_header, in_reply_to, DraftOutcome,
  Answers, miss_threshold, resolve, is_out_of_scope, lacks_message_id, uid_of, with_message_id,
  is_replied, missed, reconcile_reply, reconcile_row,
}

-- What the columns hold in each status.
abbrev pub HasShape : DraftStatus → DraftOutcome → Type 0
HasShape pending r = (r.evidence ≡ none) × (r.resolved_at ≡ none) × (r.miss_count < miss_threshold)
HasShape sent r = (is_some r.evidence ≡ true) × (is_some r.resolved_at ≡ true)
HasShape handled r =
    (r.evidence ≡ none) × (is_some r.resolved_at ≡ true) × (miss_threshold ≤ r.miss_count)
HasShape unknown r = (r.evidence ≡ none) × (is_some r.resolved_at ≡ true)

abbrev pub IsTracked : DraftOutcome → Type 0
IsTracked r = HasShape r.status r

-- What the mailbox has said of a row that a pass leaves with the status.
abbrev pub IsJustified : Answers → DraftOutcome → DraftOutcome → DraftStatus → Type 0
IsJustified a before after pending =
    (contains before.source_key a.still_drafts ≡ true) × (after.miss_count ≡ 0)
    ⊎ (contains before.source_key a.still_drafts ≡ false)
      × (contains before.source_key a.in_sent ≡ false)
      × (is_replied a after ≡ false)
      × (after.miss_count ≡ before.miss_count + 1)
      × (after.miss_count < miss_threshold)
IsJustified a before after sent =
    (contains before.source_key a.still_drafts ≡ false)
    × ((after.evidence ≡ some source_key_header) × (contains before.source_key a.in_sent ≡ true)
        ⊎ (after.evidence ≡ some in_reply_to) × (is_replied a after ≡ true))
IsJustified a before after handled =
    (contains before.source_key a.still_drafts ≡ false)
    × (contains before.source_key a.in_sent ≡ false)
    × (is_replied a after ≡ false)
    × (miss_threshold ≤ before.miss_count + 1)
IsJustified a before after unknown = ⊥

-- The columns that the search for a message id leaves alone.
abbrev SameBut : DraftOutcome → DraftOutcome → Type 0
SameBut r r' =
    (r'.status ≡ r.status)
    × (r'.evidence ≡ r.evidence)
    × (r'.resolved_at ≡ r.resolved_at)
    × (r'.miss_count ≡ r.miss_count)
    × (r'.source_key ≡ r.source_key)
    × (r'.id ≡ r.id)
    × (r'.org_id ≡ r.org_id)

with_message_id-SameBut :
    (prefix : Text) (a : Answers) (r : DraftOutcome) → SameBut r (with_message_id prefix a r)
unfolding with_message_id
with_message_id-SameBut prefix a r = elim (Bool-cases (lacks_message_id r)) [
  | inr known ↦ rw known (refl, refl, refl, refl, refl, refl, refl)
  | inl lacking ↦ rw lacking (elim (Option-cases (lookup (uid_of prefix r) a.fetched)) [
    | inl e ↦ rw e (refl, refl, refl, refl, refl, refl, refl)
    | inr (t, e) ↦ rw e (elim (Bool-cases (is_empty t)) [
      | inl blank ↦ rw blank (refl, refl, refl, refl, refl, refl, refl)
      | inr full ↦ rw full (refl, refl, refl, refl, refl, refl, refl)
    ])
  ])
]

missed-IsTracked :
    (now : ℕ) (r : DraftOutcome) → r.status ≡ pending → IsTracked r → IsTracked (missed now r)
unfolding missed resolve
missed-IsTracked now r p w = ground (arith, w)

reconcile_reply-IsTracked :
    (a : Answers) (now : ℕ) (r : DraftOutcome)
    → r.status ≡ pending
    → IsTracked r
    → IsTracked (reconcile_reply a now r)
unfolding reconcile_reply resolve
reconcile_reply-IsTracked a now r p w = elim (Bool-cases (is_replied a r)) [
  | inl reply ↦ rw reply (refl, refl)
  | inr none_yet ↦ rw none_yet (missed-IsTracked now r p w)
]

with_message_id-IsTracked :
    (prefix : Text) (a : Answers) (r : DraftOutcome)
    → r.status ≡ pending
    → IsTracked r
    → ((with_message_id prefix a r).status ≡ pending) × IsTracked (with_message_id prefix a r)
with_message_id-IsTracked prefix a r p w =
    let e = with_message_id-SameBut prefix a r in
    let h = subst (λ s. HasShape s r) p w in
    (
      e.0 ∙ p,
      subst (λ s. HasShape s (with_message_id prefix a r)) (sym (e.0 ∙ p))
          (e.1 ∙ h.0, e.2 ∙ h.1, omega (arith, e.3, h.2)),
    )

pub reconcile_row-IsTracked :
    (prefix : Text) (window now : ℕ) (a : Answers) (r : DraftOutcome)
    → r.status ≡ pending
    → IsTracked r
    → IsTracked (reconcile_row prefix window now a r)
unfolding reconcile_row resolve
reconcile_row-IsTracked prefix window now a r p w =
    elim (Bool-cases (is_out_of_scope prefix window now r)) [
      | inl out ↦ rw out (refl, refl)
      | inr scoped ↦ rw scoped (elim (Bool-cases (contains r.source_key a.still_drafts)) [
        | inl still ↦ rw still (
            subst (λ s. HasShape s (record r { miss_count = 0; checked_at = some now })) (sym p)
              (let h = subst (λ s. HasShape s r) p w in (h.0, h.1, omega arith)))
        | inr gone ↦ rw gone (elim (Bool-cases (contains r.source_key a.in_sent)) [
          | inl found ↦ rw found (refl, refl)
          | inr lost ↦ rw lost (
              let (p', w') = with_message_id-IsTracked prefix a r p w in
              reconcile_reply-IsTracked a now (with_message_id prefix a r) p' w')
        ])
      ])
    ]

reply-IsJustified :
    (a : Answers) (now : ℕ) (r r' : DraftOutcome)
    → SameBut r r'
    → r.status ≡ pending
    → contains r.source_key a.still_drafts ≡ false
    → contains r.source_key a.in_sent ≡ false
    → IsJustified a r (reconcile_reply a now r') (reconcile_reply a now r').status
unfolding reconcile_reply missed resolve is_replied
reply-IsJustified a now r r' e p gone lost = elim (Bool-cases (is_replied a r')) [
  | inl reply ↦ rw reply (gone, inr (refl, reply))
  | inr silent ↦ rw silent (elim (Bool-cases (leb miss_threshold (r'.miss_count + 1))) [
    | inl over ↦ rw over (gone, lost, silent, ground (arith, over, e.3))
    | inr under ↦ rw under (
        subst
          (IsJustified a r (record r' { checked_at = some now; miss_count = r'.miss_count + 1 }))
          (sym (e.0 ∙ p)) (inr (gone, lost, silent, omega (arith, e.3), ground (arith, under))))
  ])
]

-- A verdict on a pending row rests on what the mailbox said in the pass.
pub reconcile_row-IsJustified :
    (prefix : Text) (window now : ℕ) (a : Answers) (r : DraftOutcome)
    → r.status ≡ pending
    → is_out_of_scope prefix window now r ≡ false
    → IsJustified a r
        (reconcile_row prefix window now a r)
        (reconcile_row prefix window now a r).status
unfolding reconcile_row resolve reconcile_reply missed
reconcile_row-IsJustified prefix window now a r p scoped =
    rw scoped (elim (Bool-cases (contains r.source_key a.still_drafts)) [
      | inl still ↦ rw still (rw p (inl (still, refl)))
      | inr gone ↦ rw gone (elim (Bool-cases (contains r.source_key a.in_sent)) [
        | inl found ↦ rw found (gone, inl (refl, found))
        | inr lost ↦ rw lost (
            let e = with_message_id-SameBut prefix a r in
            reply-IsJustified a now r (with_message_id prefix a r) e p gone lost)
      ])
    ])
