-- ===== src/Trigger/Scope.antt =====
-- `mailbox_identity` of ui/backend/db/inbox_events.py, and the scope in the ledger of a trigger's
-- mailbox.
use Prim.Native.String.{◌++◌}
use bestteam.Shared.{ℕ, String, Option, none, some}
use bestteam.Inbox.{Mailbox}
use bestteam.Trigger.{EmailTrigger, Credential, Casing}
use bestteam.Trigger.Decimal.{str}

-- `str(uidvalidity)`
unfoldable pub generation_of : Option ℕ → String
generation_of none = "None"
generation_of (some v) = str v

module _ ⦃casing : Casing⦄ where
  unfoldable pub mailbox_identity : Credential → String
  mailbox_identity cred = casing.lower (cred.host ++ ":" ++ cred.username)

  unfoldable pub mailbox_of : Credential → EmailTrigger → Mailbox
  mailbox_of cred t = record {
    org_id = t.org_id;
    identity = mailbox_identity cred;
    generation = generation_of t.uidvalidity;
  }
