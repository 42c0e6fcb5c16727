-- ===== src/Trigger/Budget.antt =====
-- ui/backend/email_budget.py and the alerts of ui/backend/email_trigger.py on a budget reached.
use bestteam.Shared.{
  ℕ, ◌-◌, String, Bool, false, Option, none, some, List, [], ◌∷◌, ◌++◌, any, min, if◌then◌else◌,
}
use bestteam.Shared.Equality.{◌==◌, nat_eq}
use bestteam.Shared.Text.{Text, text_eq}
use bestteam.Shared.Literal.{text}
use bestteam.Email.Health.{warning, plain, NotificationDraft}
use bestteam.Trigger.{Money, System}

pub record BudgetCaps (M : Type 0) : Type 0 where
  pub daily_message_cap : Option ℕ
  pub monthly_cost_cap : Option M

-- `max(cap - used, 0)`: subtraction stops at 0.
unfoldable pub remaining_messages : Option ℕ → ℕ → Option ℕ
remaining_messages none used = none
remaining_messages (some cap) used = some (cap - used)

-- `batch_size() if remaining is None else min(batch_size(), remaining)`
unfoldable pub claim_limit : ℕ → Option ℕ → ℕ
claim_limit batch none = batch
claim_limit batch (some remaining) = min batch remaining

-- The new message would exceed the budget: `remaining == 0`.
abbrev pub is_used_up : Option ℕ → Bool
is_used_up none = false
is_used_up (some n) = n == 0

module _ {M : Type 0} ⦃money : Money M⦄ where
  -- `spent_this_month or 0.0`
  abbrev pub or_zero : Option M → M
  or_zero none = money.zero_amount
  or_zero (some m) = m

  unfoldable pub cost_exceeded : BudgetCaps M → Option M → Bool
  cost_exceeded caps spent = elim caps.monthly_cost_cap [
    | none ↦ false
    | some cap ↦ money.at_least (or_zero spent) cap
  ]

unfoldable pub budget_fingerprint : Text → Text → Text
budget_fingerprint which period = text "budget_" ++ which ++ text ":" ++ period

unfoldable pub has_fingerprint : Text → List NotificationDraft → Bool
has_fingerprint fingerprint notes = any (λ n. n.fingerprint == fingerprint) notes

abbrev pub budget_alert : Text → String → NotificationDraft
budget_alert fingerprint body = record {
  kind = "budget";
  severity = warning;
  title = "Automatic email runs have paused -- budget reached";
  body = plain body;
  fingerprint = fingerprint;
}

unfoldable pub raise_budget_alert : Text → Text → String → System → System
raise_budget_alert which period body s =
    let fingerprint = budget_fingerprint which period in
    if has_fingerprint fingerprint s.notifications
    then s
    else record s { notifications = s.notifications ++ budget_alert fingerprint body ∷ [] }
