-- ===== src/Trigger/Unclaimed.antt =====
-- Which rows of ui/backend/db/inbox_events.py a run has claimed, over the operations that
-- ui/backend/email_trigger.py makes.
use bestteam.Shared.{
  ℕ, zero, suc, ◌+◌, String, Bool, true, false, Option, List, [], ◌∷◌, map, filter, length, any,
  count_where, ◌≡◌, refl, ap, inl, inr, arith, All, All-append, Bool-cases,
}
use bestteam.Shared.Int.{pos}
use bestteam.Inbox.{
  InboxEvent, Ledger, Mailbox, Decisions, update, same_identity, new_event, insert_row,
  record_events, claimed_by, claimed_events, claim_events, superseded, abandon_row,
  abandon_superseded_events, mark_dispatched, release_row, release_events,
}
use bestteam.Inbox.Outcomes.{release_events-settles}
use bestteam.Trigger.Decimal.{int}

abbrev pub uids_of : List InboxEvent → List ℕ
uids_of es = map (λ e. int e.external_id) es

module _ (run : String) where
  abbrev pub IsUnclaimed : Ledger → Type 0
  IsUnclaimed l = All (λ e. claimed_by run e ≡ false) l.rows

  none_selected :
      (rows : List InboxEvent)
      → filter (claimed_by run) rows ≡ []
      → All (λ e. claimed_by run e ≡ false) rows
  none_selected [] h = tt
  none_selected (e ∷ es) h = elim (Bool-cases (claimed_by run e)) [
    | inl hit ↦ cc (filter_head e es hit)
    | inr miss ↦ (miss, none_selected es (ground (arith, h)))
  ]
    where
      filter_head :
          (x : InboxEvent) (xs : List InboxEvent)
          → claimed_by run x ≡ true
          → filter (claimed_by run) (x ∷ xs) ≡ x ∷ filter (claimed_by run) xs
      filter_head x xs hit = rw hit refl

  pub IsUnclaimed-of_none : (l : Ledger) → claimed_events run l ≡ [] → IsUnclaimed l
  unfolding claimed_events
  IsUnclaimed-of_none l h = none_selected l.rows h

  IsUnclaimed-update :
      (p : InboxEvent → Bool) (f : InboxEvent → InboxEvent) (rows : List InboxEvent)
      → ((e : InboxEvent) → claimed_by run (f e) ≡ false)
      → All (λ e. claimed_by run e ≡ false) rows
      → All (λ e. claimed_by run e ≡ false) (update p f rows)
  IsUnclaimed-update p f [] h r = tt
  IsUnclaimed-update p f (e ∷ es) h r = elim (Bool-cases (p e)) [
    | inl hit ↦ rw hit (h e, IsUnclaimed-update p f es h r.1)
    | inr miss ↦ rw miss (r.0, IsUnclaimed-update p f es h r.1)
  ]

  -- A release by any run leaves no new claim.
  pub IsUnclaimed-release :
      (other : String) (max_attempts : ℕ) (error : Option String) (now : ℕ) (l : Ledger)
      → IsUnclaimed l
      → IsUnclaimed (release_events other max_attempts error now l).0
  unfolding release_events release_row claimed_by
  IsUnclaimed-release other a error now l h =
      IsUnclaimed-update (claimed_by other) (release_row a error now) l.rows (λ e. ground arith) h

  -- A release by the run itself leaves none of its claims.
  pub IsUnclaimed-release_own :
      (max_attempts : ℕ) (error : Option String) (now : ℕ) (l : Ledger)
      → IsUnclaimed (release_events run max_attempts error now l).0
  IsUnclaimed-release_own a error now l =
      IsUnclaimed-of_none _ (release_events-settles run a error now l).0

  pub IsUnclaimed-abandon :
      (org : ℕ) (identity : String) (generation : Option String) (now : ℕ) (l : Ledger)
      → IsUnclaimed l
      → IsUnclaimed (abandon_superseded_events org identity generation now l).0
  unfolding abandon_superseded_events abandon_row claimed_by
  IsUnclaimed-abandon org identity generation now l h =
      IsUnclaimed-update (superseded org identity generation) (abandon_row now) l.rows
        (λ e. ground arith) h

  new_event-unclaimed :
      (m : Mailbox) (connector : String) (decisions : Decisions) (now id : ℕ) (x : String)
      → claimed_by run (new_event m connector decisions now id x) ≡ false
  unfolding new_event claimed_by
  new_event-unclaimed m connector decisions now id x = refl

  IsUnclaimed-insert :
      (e : InboxEvent) (l : Ledger)
      → claimed_by run e ≡ false
      → IsUnclaimed l
      → IsUnclaimed (insert_row e l).0
  unfolding insert_row
  IsUnclaimed-insert e l free h = elim (Bool-cases (any (same_identity e) l.rows)) [
    | inl old ↦ rw old h
    | inr new ↦ rw new (All-append (λ x. claimed_by run x ≡ false) l.rows (e ∷ []) h (free, tt))
  ]

  pub IsUnclaimed-record :
      (m : Mailbox) (connector : String) (decisions : Decisions) (now : ℕ) (ids : List String)
      (l : Ledger)
      → IsUnclaimed l
      → IsUnclaimed (record_events m connector decisions now ids l).0
  unfolding record_events
  IsUnclaimed-record m connector decisions now [] l h = h
  IsUnclaimed-record m connector decisions now (x ∷ xs) l h =
      IsUnclaimed-record m connector decisions now xs _ (
        IsUnclaimed-insert (new_event m connector decisions now l.next_id x) l
          (new_event-unclaimed m connector decisions now l.next_id x) h)

  pub claim-nothing :
      (m : Mailbox) (now limit : ℕ) (l : Ledger)
      → IsUnclaimed l
      → (claim_events m run now (pos limit) l).1 ≡ []
      → IsUnclaimed (claim_events m run now (pos limit) l).0
  unfolding claim_events
  claim-nothing m now zero l h e = h
  claim-nothing m now (suc n) l h e = IsUnclaimed-of_none _ e

  -- What a claim that takes something returns is what the run has claimed.
  pub claim-returns :
      (m : Mailbox) (now limit : ℕ) (l : Ledger) (e : InboxEvent) (es : List InboxEvent)
      → (claim_events m run now (pos limit) l).1 ≡ e ∷ es
      → claimed_events run (claim_events m run now (pos limit) l).0 ≡ e ∷ es
  unfolding claim_events
  claim-returns m now zero l e es h = cc
  claim-returns m now (suc n) l e es h = h

  pub count-unclaimed :
      (rows : List InboxEvent)
      → All (λ e. claimed_by run e ≡ false) rows
      → count_where (claimed_by run) rows ≡ 0
  count-unclaimed [] h = refl
  count-unclaimed (e ∷ es) h = ground (arith, count-unclaimed es)

  pub length-claimed :
      (l : Ledger) → length (claimed_events run l) ≡ count_where (claimed_by run) l.rows
  unfolding claimed_events
  length-claimed l = selected l.rows
    where
      selected :
          (rows : List InboxEvent)
          → length (filter (claimed_by run) rows) ≡ count_where (claimed_by run) rows
      selected [] = refl
      selected (e ∷ es) = ground (arith, selected es)

  -- Charging the attempts of a run changes none of the ids that it has claimed.
  pub uids-mark :
      (l : Ledger)
      → uids_of (claimed_events run (mark_dispatched run l)) ≡ uids_of (claimed_events run l)
  unfolding claimed_events mark_dispatched claimed_by
  uids-mark l = marked l.rows
    where
      still :
          (e : InboxEvent)
          → claimed_by run (record e { attempts = e.attempts + 1 }) ≡ claimed_by run e
      still e = refl

      marked :
          (rows : List InboxEvent)
          → uids_of (
              filter
                (claimed_by run)
                (update (claimed_by run) (λ e. record e { attempts = e.attempts + 1 }) rows))
            ≡ uids_of (filter (claimed_by run) rows)
      marked [] = refl
      marked (e ∷ es) = elim (Bool-cases (claimed_by run e)) [
        | inl hit ↦ rw (hit, still e, hit) (ap (λ us. int e.external_id ∷ us) (marked es))
        | inr miss ↦ rw (miss, miss) (marked es)
      ]
