-- ===== src/Access/ShareQuota/Charges.antt =====
-- What a message costs: the turns that the gate of ui/backend/share_chat.py takes from the link and
-- from the session.
use bestteam.Shared.{
  ℕ, suc, ◌+◌, String, some, false, not, List, ◌∷◌, ◌++◌, if◌then◌else◌, ◌≡◌, refl, ap, ◌∙◌, inl,
  inr, arith, Bool-cases,
}
use bestteam.Shared.Equality.{nat_eq, string_eq, ==-self}
use bestteam.Access.ShareQuota.Tables.{IsKeyed}
use bestteam.Access.ShareQuota.Daily.{today_row, used_on, today_row-current, used_on-current}
use bestteam.Access.ShareQuota.Gate.{today_session, used_by, gate_rows, send_gate-row}
use bestteam.Access.ShareQuota.{
  ShareLink, ShareSession, is_stale, below_cap, Verdict, accepted, link_exhausted, turn_pending,
  session_exhausted, turn_collided, Visit, send_gate,
}

-- The answer of the gate, from the turns that the link and the session have used on the day.
abbrev pub verdict : Visit → ℕ → ℕ → Verdict
verdict v link_used session_used =
    if not (below_cap link_used v.daily_cap)
    then link_exhausted
    else if v.is_pending
    then turn_pending
    else if not (below_cap session_used v.daily_cap)
    then session_exhausted
    else if v.is_stored
    then accepted
    else turn_collided

abbrev pub cost : Verdict → ℕ
cost accepted = 1
cost _ = 0

today_session-current :
    (today : String) (now : ℕ) (s : ShareSession)
    → is_stale today (today_session today now s).turns_date ≡ false
today_session-current today now s = elim (Bool-cases (is_stale today s.turns_date)) [
  | inl stale ↦ rw (stale, ==-self today) refl
  | inr current ↦ rw current current
]

used_by-current :
    (today : String) (now : ℕ) (s : ShareSession)
    → is_stale today s.turns_date ≡ false
    → used_by today now s ≡ s.turns_today
used_by-current today now s h =
    ap
      (λ b.
        (if b
          then record s { turns_today = 0; turns_date = some today; last_active_at = now }
          else s).turns_today)
      h

used_on-today :
    (today : String) (l : ShareLink) → used_on today (today_row today l) ≡ used_on today l + 0
used_on-today today l =
    used_on-current today (today_row today l) (today_row-current today l) ∙ omega arith

used_by-today :
    (today : String) (now : ℕ) (s : ShareSession) (t : ℕ)
    → used_by today now (record (today_session today now s) { last_active_at = t })
      ≡ used_by today now s + 0
used_by-today today now s t =
    used_by-current today now (record (today_session today now s) { last_active_at = t })
      (today_session-current today now s)
    ∙ omega arith

-- The rows after the gate, with their verdict and their counts.
abbrev pub IsCharged :
    Visit → ShareLink → ShareSession → ShareLink → ShareSession → Verdict → Type 0
IsCharged v l s l' s' answer =
    (answer ≡ verdict v (used_on v.today l) (used_by v.today v.now s))
    × (used_on v.today l' ≡ used_on v.today l + cost answer)
    × (used_by v.today v.now s' ≡ used_by v.today v.now s + cost answer)

gate_rows-IsCharged :
    (v : Visit) (l : ShareLink) (s : ShareSession)
    → IsCharged v l s (gate_rows v l s).0 (gate_rows v l s).1 (gate_rows v l s).2
gate_rows-IsCharged v l s = elim (Bool-cases (below_cap (used_on v.today l) v.daily_cap)) [
  | inr full ↦ rw full (refl, used_on-today v.today l, omega arith)
  | inl free ↦ rw free (elim (Bool-cases v.is_pending) [
    | inl pending ↦ rw pending (refl, used_on-today v.today l, omega arith)
    | inr ready ↦ rw ready (elim (Bool-cases (below_cap (used_by v.today v.now s) v.daily_cap)) [
      | inr full ↦ rw full (
        refl,
        used_on-today v.today l,
        used_by-current v.today v.now (today_session v.today v.now s)
              (today_session-current v.today v.now s)
            ∙ omega arith,
      )
      | inl spare ↦ rw spare (elim (Bool-cases v.is_stored) [
        | inr collided ↦
            rw collided (refl, used_on-today v.today l, used_by-today v.today v.now s v.now)
        | inl stored ↦ rw stored (
          refl,
          used_on-current v.today
                (record (today_row v.today l) { turns_today = suc (used_on v.today l) })
                (today_row-current v.today l)
              ∙ omega arith,
          used_by-current v.today v.now
                (record (today_session v.today v.now s) {
                  turns_today = suc (used_by v.today v.now s);
                  last_active_at = v.now;
                })
                (today_session-current v.today v.now s)
              ∙ omega arith,
        )
      ])
    ])
  ])
]

-- Where the link's id and the session's id each have one row, a message costs the link and the
-- session one turn each when it is accepted and nothing when it is rejected, whichever check
-- rejects it; it is accepted when both have a turn left, no turn is pending and the message can be
-- stored. No other row changes.
pub send_gate-charges :
    (v : Visit) (links_above links_below : List ShareLink) (above below : List ShareSession)
    (l : ShareLink) (s : ShareSession)
    → IsKeyed (λ r. r.id) v.link_id links_above l links_below
    → IsKeyed (λ r. r.id) v.session_id above s below
    → (l' : ShareLink) × (s' : ShareSession) × (answer : Verdict) × (send_gate v
          (links_above ++ l ∷ links_below)
          (above ++ s ∷ below)
        ≡ (links_above ++ l' ∷ links_below, above ++ s' ∷ below, answer))
      × IsCharged v l s l' s' answer
send_gate-charges v links_above links_below above below l s wl ws = (
  (gate_rows v l s).0,
  (gate_rows v l s).1,
  (gate_rows v l s).2,
  send_gate-row v links_above links_below above below l s wl ws,
  gate_rows-IsCharged v l s,
)
