-- ===== src/Inbox/Rows.antt =====
-- Rows of ui/backend/db/inbox_events.py: what identifies a row, and updates.
use bestteam.Shared.{
  ℕ, String, Bool, true, false, List, [], ◌∷◌, map, ◌≡◌, refl, ap₂, ◌↔◌, ◌⊎◌, arith, All,
  Bool-cases, if◌then◌else◌, inl, inr,
}
use bestteam.Shared.Equality.{nat_eq}
use bestteam.Inbox.{InboxEvent, same_identity, update}
use text.Mathlib.TextEquality.{eq_iff}

abbrev pub Identity : Type 0
Identity = ℕ × String × String × String × String

abbrev pub identity_of : InboxEvent → Identity
identity_of e =
    (e.org_id, e.connector_type, e.mailbox_identity, e.mailbox_generation, e.external_id)

-- The unique key of the table is equality of these five columns.
pub same_identity_iff :
    (a b : InboxEvent) → (same_identity a b ≡ true) ↔ (identity_of a ≡ identity_of b)
unfolding same_identity
same_identity_iff a b = (
  λ h. ground (
    arith,
    eq_iff a.connector_type b.connector_type,
    eq_iff a.mailbox_identity b.mailbox_identity,
    eq_iff a.mailbox_generation b.mailbox_generation,
    eq_iff a.external_id b.external_id,
  ),
  λ h. ground (
    arith,
    eq_iff a.connector_type b.connector_type,
    eq_iff a.mailbox_identity b.mailbox_identity,
    eq_iff a.mailbox_generation b.mailbox_generation,
    eq_iff a.external_id b.external_id,
  ),
)

-- The columns that no operation writes.
abbrev pub key_of : InboxEvent → ℕ × Identity
key_of e = (e.id, identity_of e)

abbrev pub keys : List InboxEvent → List (ℕ × Identity)
keys = map key_of

pub keys-update :
    (p : InboxEvent → Bool) (f : InboxEvent → InboxEvent) (rows : List InboxEvent)
    → ((e : InboxEvent) → key_of (f e) ≡ key_of e)
    → keys (update p f rows) ≡ keys rows
keys-update p f [] h = refl
keys-update p f (e ∷ es) h = ap₂ (λ k ks. k ∷ ks) (kept (p e)) (keys-update p f es h)
  where
    kept : (b : Bool) → key_of (if b then f e else e) ≡ key_of e
    kept true = h e
    kept false = refl

pub All-update {ℓ} :
    (P : InboxEvent → Type ℓ) (p : InboxEvent → Bool) (f : InboxEvent → InboxEvent)
    (rows : List InboxEvent)
    → ((e : InboxEvent) → p e ≡ true → P e → P (f e))
    → All P rows
    → All P (update p f rows)
All-update P p f [] step h = tt
All-update P p f (e ∷ es) step h = (kept (Bool-cases (p e)), All-update P p f es step h.1)
  where
    kept : (p e ≡ true) ⊎ (p e ≡ false) → P (if p e then f e else e)
    kept (inl hit) = rw hit (step e hit h.0)
    kept (inr miss) = rw miss h.0
