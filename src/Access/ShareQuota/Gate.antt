-- ===== src/Access/ShareQuota/Gate.antt =====
-- The gate of `send_share_message` in ui/backend/share_chat.py, seen on the link's row and the
-- session's row.
use bestteam.Shared.{
  ℕ, suc, ◌-◌, String, some, Bool, true, false, not, List, ◌∷◌, ◌++◌, if◌then◌else◌, ◌≡◌, refl, ap,
  ◌∙◌, inl, inr, arith, Bool-cases,
}
use bestteam.Shared.Equality.{◌==◌, nat_eq}
use bestteam.Shared.Int.{ℤ}
use bestteam.Access.ShareQuota.Tables.{IsKeyed, claim_turn-keyed, update_keyed}
use bestteam.Access.ShareQuota.Daily.{today_row, used_on, consume_row, try_consume_link_turn-row}
use bestteam.Access.ShareQuota.{
  ShareLink, ShareSession, is_stale, below_cap, is_charged, try_consume_turn, reset_session,
  advance_session, refund_link_turn, refund_session_turn, Verdict, accepted, link_exhausted,
  turn_pending, session_exhausted, turn_collided, Visit, send_gate,
}

abbrev pub today_session : String → ℕ → ShareSession → ShareSession
today_session today now s =
    if is_stale today s.turns_date
    then record s { turns_today = 0; turns_date = some today; last_active_at = now }
    else s

abbrev pub used_by : String → ℕ → ShareSession → ℕ
used_by today now s = (today_session today now s).turns_today

abbrev pub consume_session_row : String → ℤ → ℕ → ShareSession → ShareSession × Bool
consume_session_row today quota now s =
    if below_cap (used_by today now s) quota
    then (
      record (today_session today now s) {
        turns_today = suc (used_by today now s);
        last_active_at = now;
      },
      true,
    )
    else (today_session today now s, false)

pub try_consume_turn-row :
    (id : ℕ) (above below : List ShareSession) (today : String) (quota : ℤ) (now : ℕ)
    (s : ShareSession)
    → IsKeyed (λ r. r.id) id above s below
    → try_consume_turn id today quota now (above ++ s ∷ below) ≡ (
      above ++ (consume_session_row today quota now s).0 ∷ below,
      (consume_session_row today quota now s).1,
    )
unfolding try_consume_turn advance_session reset_session
try_consume_turn-row id above below today quota now s w =
    claim_turn-keyed (λ r. r.id) id (λ r. is_stale today r.turns_date)
      (λ r. below_cap r.turns_today quota)
      (λ r. record r { turns_today = 0; turns_date = some today; last_active_at = now })
      (λ r. record r { turns_today = suc r.turns_today; last_active_at = now }) (λ r. refl) above
      below s w
    ∙ elim (Bool-cases (below_cap (used_by today now s) quota)) [
      | inl granted ↦ rw granted refl
      | inr refused ↦ rw refused refl
    ]

refund_link_turn-row :
    (id : ℕ) (above below : List ShareLink) (l : ShareLink)
    → IsKeyed (λ r. r.id) id above l below
    → refund_link_turn id (above ++ l ∷ below)
      ≡ above
        ++ (if is_charged l.turns_today then record l { turns_today = l.turns_today - 1 } else l)
          ∷ below
unfolding refund_link_turn
refund_link_turn-row id above below l w =
    ap (λ s. s.0)
      (update_keyed (λ r. r.id) id (λ r. is_charged r.turns_today)
        (λ r. record r { turns_today = r.turns_today - 1 }) above below l w.above_others
        w.below_others w.keyed)

refund_session_turn-row :
    (id now : ℕ) (above below : List ShareSession) (s : ShareSession)
    → IsKeyed (λ r. r.id) id above s below
    → refund_session_turn id now (above ++ s ∷ below)
      ≡ above
        ++ (if is_charged s.turns_today
            then record s { turns_today = s.turns_today - 1; last_active_at = now }
            else s)
          ∷ below
unfolding refund_session_turn
refund_session_turn-row id now above below s w =
    ap (λ t. t.0)
      (update_keyed (λ r. r.id) id (λ r. is_charged r.turns_today)
        (λ r. record r { turns_today = r.turns_today - 1; last_active_at = now }) above below s
        w.above_others w.below_others w.keyed)

-- What the gate makes of the link's row and the session's row.
abbrev pub gate_rows : Visit → ShareLink → ShareSession → ShareLink × ShareSession × Verdict
gate_rows v l s =
    let l' = today_row v.today l in
    let s' = today_session v.today v.now s in
    let charged = (consume_session_row v.today v.daily_cap v.now s).0 in
    if not (below_cap (used_on v.today l) v.daily_cap)
    then (l', s, link_exhausted)
    else if v.is_pending
    then (l', s, turn_pending)
    else if not (below_cap (used_by v.today v.now s) v.daily_cap)
    then (l', s', session_exhausted)
    else if v.is_stored
    then ((consume_row v.today v.daily_cap l).0, charged, accepted)
    else (l', record s' { last_active_at = v.now }, turn_collided)

charged_suc : (n : ℕ) → is_charged (suc n) ≡ true
charged_suc n = ground arith

refunded_link :
    (l : ShareLink) (n : ℕ)
    → (if is_charged (suc n)
        then record l { turns_today = suc n - 1 }
        else record l { turns_today = suc n })
      ≡ record l { turns_today = n }
refunded_link l n = rw (charged_suc n) (ap (λ k. record l { turns_today = k }) (omega arith))

refunded_session :
    (s : ShareSession) (n now : ℕ)
    → (if is_charged (suc n)
        then record s { turns_today = suc n - 1; last_active_at = now }
        else record s { turns_today = suc n; last_active_at = now })
      ≡ record s { turns_today = n; last_active_at = now }
refunded_session s n now =
    rw (charged_suc n) (ap (λ k. record s { turns_today = k; last_active_at = now }) (omega arith))

today_row-key :
    (today : String) (l : ShareLink) (id : ℕ)
    → (l.id == id) ≡ true
    → ((today_row today l).id == id) ≡ true
today_row-key today l id k = elim (Bool-cases (is_stale today l.turns_date)) [
  | inl stale ↦ rw stale k
  | inr current ↦ rw current k
]

today_session-key :
    (today : String) (now : ℕ) (s : ShareSession) (id : ℕ)
    → (s.id == id) ≡ true
    → ((today_session today now s).id == id) ≡ true
today_session-key today now s id k = elim (Bool-cases (is_stale today s.turns_date)) [
  | inl stale ↦ rw stale k
  | inr current ↦ rw current k
]

module _ (v : Visit) (links_above links_below : List ShareLink)
    (above below : List ShareSession) where
  refund_link-charged :
      (l : ShareLink)
      → IsKeyed (λ r. r.id) v.link_id links_above l links_below
      → refund_link_turn v.link_id (
          links_above
          ++ record (today_row v.today l) { turns_today = suc (used_on v.today l) } ∷ links_below)
        ≡ links_above ++ today_row v.today l ∷ links_below
  refund_link-charged l w =
      refund_link_turn-row v.link_id links_above links_below
        (record (today_row v.today l) { turns_today = suc (used_on v.today l) })
        (record {
          above_others = w.above_others;
          below_others = w.below_others;
          keyed = today_row-key v.today l v.link_id w.keyed;
        })
      ∙ ap (λ r. links_above ++ r ∷ links_below)
          (refunded_link (today_row v.today l) (used_on v.today l))

  refund_session-charged :
      (s : ShareSession)
      → IsKeyed (λ r. r.id) v.session_id above s below
      → refund_session_turn v.session_id v.now (
          above
          ++ record (today_session v.today v.now s) {
            turns_today = suc (used_by v.today v.now s);
            last_active_at = v.now;
          }
            ∷ below)
        ≡ above ++ record (today_session v.today v.now s) { last_active_at = v.now } ∷ below
  refund_session-charged s w =
      refund_session_turn-row v.session_id v.now above below
        (record (today_session v.today v.now s) {
          turns_today = suc (used_by v.today v.now s);
          last_active_at = v.now;
        })
        (record {
          above_others = w.above_others;
          below_others = w.below_others;
          keyed = today_session-key v.today v.now s v.session_id w.keyed;
        })
      ∙ ap (λ r. above ++ r ∷ below)
          (refunded_session (today_session v.today v.now s) (used_by v.today v.now s) v.now)

  -- The statements of the gate touch no row but the link's and the session's, and make of these what
  -- `gate_rows` says.
  pub send_gate-row :
      (l : ShareLink) (s : ShareSession)
      → IsKeyed (λ r. r.id) v.link_id links_above l links_below
      → IsKeyed (λ r. r.id) v.session_id above s below
      → send_gate v (links_above ++ l ∷ links_below) (above ++ s ∷ below) ≡ (
        links_above ++ (gate_rows v l s).0 ∷ links_below,
        above ++ (gate_rows v l s).1 ∷ below,
        (gate_rows v l s).2,
      )
  unfolding send_gate
  send_gate-row l s wl ws =
      rw
        (
          try_consume_link_turn-row v.link_id links_above links_below v.today v.daily_cap l wl,
          try_consume_turn-row v.session_id above below v.today v.daily_cap v.now s ws,
        )
        (elim (Bool-cases (below_cap (used_on v.today l) v.daily_cap)) [
          | inr full ↦ rw full refl
          | inl free ↦ rw free (elim (Bool-cases v.is_pending) [
            | inl pending ↦ rw (pending, refund_link-charged l wl) refl
            | inr ready ↦
                rw ready (elim (Bool-cases (below_cap (used_by v.today v.now s) v.daily_cap)) [
                  | inr full ↦ rw (full, refund_link-charged l wl) refl
                  | inl spare ↦ rw spare (elim (Bool-cases v.is_stored) [
                    | inl stored ↦ rw stored refl
                    | inr collided ↦
                        rw (collided, refund_link-charged l wl, refund_session-charged s ws) refl
                  ])
                ])
          ])
        ])
