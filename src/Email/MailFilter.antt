-- ===== src/Email/MailFilter.antt =====
-- The filter before the model, ui/backend/email_filter.py. Python's `str.lower` and
-- `email.utils.parseaddr` are the interface `Parsing`; a decision is the text that the code stores.
pub mod Decisions
use bestteam.Shared.{
  ℕ, zero, suc, Option, none, some, Bool, true, false, not, ◌&&◌, ◌||◌, List, [], ◌∷◌, ◌++◌, any,
  length, drop, nat_beq, if◌then◌else◌,
}
use bestteam.Shared.Equality.{Eq, ◌==◌, contains}
use bestteam.Shared.Dict.{Dict}
use bestteam.Shared.Text.{Text, text_eq, is_empty, strip, starts_with, has_infix}
use bestteam.Shared.Literal.{text}
use mathlib.Core.List.{reverse}

-- `lower`, and the address that `parseaddr` finds.
pub record Parsing : Type 0 where
  pub lower : Text → Text
  pub address_of : Text → Text

pub record FilterSettings : Type 0 where
  pub skip_bulk : Bool
  pub sender_blocklist : List Text
  pub sender_allowlist : List Text
  pub subject_blocklist : List Text

abbrev pub Headers : Type 0
Headers = Dict Text Text

abbrev pub bulk_headers : List Text
bulk_headers =
    text "auto-submitted" ∷ text "precedence" ∷ text "list-id" ∷ text "list-unsubscribe" ∷ []

abbrev pub bulk_precedence_values : List Text
bulk_precedence_values = text "bulk" ∷ text "list" ∷ text "junk" ∷ []

-- `t.endswith(p)`
abbrev pub ends_with : Text → Text → Bool
ends_with p t = starts_with (reverse p) (reverse t)

abbrev pub has_at : Text → Bool
has_at t = has_infix (text "@") t

-- The prefixes of the decisions.
abbrev pub blocked_sender : Text
blocked_sender = text "blocked_sender:"

abbrev pub blocked_subject : Text
blocked_subject = text "blocked_subject:"

abbrev pub bulk : Text
bulk = text "bulk:"

abbrev pub not_allowlisted : Text
not_allowlisted = text "not_allowlisted"

-- A loop that returns at the first element with the property.
unfoldable pub first_where : (Text → Bool) → List Text → Option Text
first_where q [] = none
first_where q (t ∷ ts) = let later = first_where q ts in if q t then some t else later

module _ (parsing : Parsing) where
  unfoldable pub header : Headers → Text → Text
  header [] name = []
  header ((k, v) ∷ rest) name =
      let later = header rest name in if parsing.lower k == name then v else later

  unfoldable pub address : Headers → Text
  address headers =
      let found = parsing.address_of (header headers (text "from")) in
      if has_at found then parsing.lower (strip found) else []

  -- `pattern` is stripped and in lower case.
  abbrev pub matches_clean : Text → Text → Bool
  matches_clean addr pattern =
      if is_empty pattern || is_empty addr
      then false
      else if starts_with (text "*@") pattern
      then ends_with (drop 1 pattern) addr
      else addr == pattern

  unfoldable pub matches : Text → Text → Bool
  matches addr pattern = matches_clean addr (parsing.lower (strip pattern))

  -- Whether the header's value, stripped and in lower case, says that the mail is bulk.
  unfoldable pub says_bulk : Text → Text → Bool
  says_bulk name value =
      if is_empty value
      then false
      else if name == text "auto-submitted" && contains value (text "no" ∷ text "none" ∷ [])
      then false
      else if name == text "precedence" && not (contains value bulk_precedence_values)
      then false
      else true

  unfoldable pub is_bulk : Headers → Option Text
  is_bulk headers =
      first_where (λ name. says_bulk name (parsing.lower (strip (header headers name))))
        bulk_headers

  unfoldable pub subject_hit : Text → Text → Bool
  subject_hit subject term =
      not (is_empty (strip term)) && has_infix (parsing.lower (strip term)) subject

  unfoldable pub is_allowlist_miss : Text → List Text → Bool
  is_allowlist_miss addr allowed =
      not (is_empty allowed) && not (is_empty addr) && not (any (matches addr) allowed)

  unfoldable pub evaluate_bulk : Headers → FilterSettings → Option Text
  evaluate_bulk headers settings =
      if settings.skip_bulk
      then elim (is_bulk headers) [ none ↦ none | some name ↦ some (bulk ++ name) ]
      else none

  unfoldable pub evaluate_subject : Headers → FilterSettings → Option Text
  evaluate_subject headers settings =
      let subject = parsing.lower (header headers (text "subject")) in
      let blocked =
        if is_empty subject
        then none
        else first_where (subject_hit subject) settings.subject_blocklist in
      elim blocked [ none ↦ evaluate_bulk headers settings | some t ↦ some (blocked_subject ++ t) ]

  unfoldable pub evaluate : Headers → FilterSettings → Option Text
  evaluate headers settings =
      let addr = address headers in
      elim (first_where (matches addr) settings.sender_blocklist) [
        | some p ↦ some (blocked_sender ++ p)
        | none ↦
            if is_allowlist_miss addr settings.sender_allowlist
            then some not_allowlisted
            else evaluate_subject headers settings
      ]

-- `_BULK_SENTENCES.get(name, "Skipped: bulk mail")`
unfoldable pub bulk_sentence : Text → Text
bulk_sentence name =
    if name == text "list-id"
    then text "Skipped: bulk mail (mailing list)"
    else if name == text "list-unsubscribe"
    then text "Skipped: bulk mail (has an unsubscribe link)"
    else if name == text "precedence"
    then text "Skipped: bulk mail (marked bulk by the sender)"
    else if name == text "auto-submitted"
    then text "Skipped: an automatic message, not written by a person"
    else text "Skipped: bulk mail"

-- `decision.split(':', 1)[1]`
unfoldable pub after_colon : Text → Text
after_colon [] = []
after_colon (c ∷ t) = let later = after_colon t in if nat_beq c b':' then t else later

abbrev pub sender_sentence : Text → Text
sender_sentence p = text "Skipped: the sender matches your blocked list (" ++ p ++ text ")"

abbrev pub subject_sentence : Text → Text
subject_sentence t = text "Skipped: the subject contains a blocked word (" ++ t ++ text ")"

unfoldable pub describe : Text → Text
describe decision =
    if starts_with bulk decision
    then bulk_sentence (drop (length bulk) decision)
    else if starts_with blocked_sender decision
    then sender_sentence (after_colon decision)
    else if starts_with blocked_subject decision
    then subject_sentence (after_colon decision)
    else if decision == not_allowlisted
    then text "Skipped: the sender is not on your allowed list"
    else text "Skipped: " ++ decision
