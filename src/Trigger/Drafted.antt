-- ===== src/Trigger/Drafted.antt =====
-- `draft_marker_prefix` and `_mailbox_drafted_uids` of ui/backend/email_trigger.py.
use Prim.Native.String.{◌++◌}
use bestteam.Shared.{ℕ, String, Option, none, some, List, [], ◌∷◌, map, if◌then◌else◌}
use bestteam.Shared.Equality.{string_eq}
use bestteam.Shared.Dict.{Dict, lookup}
use bestteam.Shared.Text.{is_empty}
use bestteam.Trigger.{TriggerContext}
use bestteam.Trigger.Decimal.{str}
use bestteam.Trigger.Scope.{generation_of}

unfoldable pub draft_marker_prefix : ℕ → Option ℕ → String
draft_marker_prefix credential_id uidvalidity =
    "mailbox:" ++ (str credential_id ++ (":uidvalidity:" ++ (generation_of uidvalidity ++ ":uid:")))

-- `key_to_uid`
unfoldable pub key_to_uid : TriggerContext → List ℕ → Dict String String
key_to_uid ctx [] = []
key_to_uid ctx (u ∷ us) =
    (draft_marker_prefix ctx.mailbox_credential_id ctx.uidvalidity ++ str u, str u)
    ∷ key_to_uid ctx us

unfoldable pub found_uids : Dict String String → (found : List String) → List String
found_uids keys [] = []
found_uids keys (key ∷ found) =
    let rest = found_uids keys found in
    elim (lookup key keys) [ none ↦ rest | some uid ↦ uid ∷ rest ]

-- `scan` is `backend.drafts_with_source_keys`, `none` when it raises.
unfoldable pub mailbox_drafted_uids :
    (scan : List String → Option (List String)) → TriggerContext → List ℕ → List String
mailbox_drafted_uids scan ctx uids =
    let keys = key_to_uid ctx uids in
    if is_empty keys
    then []
    else elim (scan (map (λ p. p.0) keys)) [ none ↦ [] | some found ↦ found_uids keys found ]
