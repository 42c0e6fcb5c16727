-- ===== src/Results.antt =====
-- Rows of a triggered run's output, ui/backend/automation_results.py. Strings are lists of code
-- points. What `json.loads` and the types of the pydantic models make of the output, before the
-- validators of the models run, is the argument `output`; a moment is not kept, since no rule reads it.
pub mod Rows
pub mod Honesty
pub mod Coverage
pub mod Additions
pub mod Families
pub mod Drafted
pub mod Retries
pub mod Retention
mod Examples
use bestteam.Shared.{
  ℕ, ◌+◌, String, Option, none, some, Bool, true, false, not, ◌&&◌, ◌||◌, List, [], ◌∷◌, ◌++◌, map,
  filter, any, take, length, leb, nat_beq, is_some, is_none, if◌then◌else◌,
}
use bestteam.Shared.Equality.{Eq, ◌==◌, contains, string_eq, nat_eq}
use bestteam.Shared.Dict.{Dict, lookup}
use bestteam.Shared.Text.{Text, text_eq, strip}
use bestteam.Shared.Literal.{text}

abbrev pub result_type_batch_marker : Text
result_type_batch_marker = text "property_maintenance_email_batch"

abbrev pub item_result_type : Text
item_result_type = text "property_maintenance_email"

abbrev pub classifications : List Text
classifications =
    text "maintenance_request"
    ∷ text "maintenance_follow_up"
    ∷ text "owner_or_contractor_message"
    ∷ text "non_maintenance"
    ∷ text "spam_or_automated"
    ∷ text "unknown"
    ∷ []

abbrev pub categories : List Text
categories =
    text "plumbing"
    ∷ text "electrical"
    ∷ text "hot_water"
    ∷ text "locks_security"
    ∷ text "heating_cooling"
    ∷ text "appliance"
    ∷ text "structural"
    ∷ text "water_damage"
    ∷ text "pest"
    ∷ text "garden"
    ∷ text "cleaning"
    ∷ text "other"
    ∷ text "unknown"
    ∷ []

abbrev pub priorities : List Text
priorities = text "routine" ∷ text "priority" ∷ text "possible_emergency" ∷ text "unknown" ∷ []

abbrev pub item_statuses : List Text
item_statuses = text "processed" ∷ text "needs_attention" ∷ text "skipped" ∷ text "error" ∷ []

abbrev pub always_needs_attention_priorities : List Text
always_needs_attention_priorities = text "possible_emergency" ∷ text "unknown" ∷ []

abbrev pub summary_max_chars : ℕ
summary_max_chars = 500

abbrev pub field_max_chars : ℕ
field_max_chars = 300

abbrev pub list_max_items : ℕ
list_max_items = 20

abbrev pub list_item_max_chars : ℕ
list_item_max_chars = 200

-- `_cap` of a string; `text[:limit]` is the whole text when it is not longer.
unfoldable pub cap_text : Text → ℕ → Text
cap_text value limit = if leb (length value) limit then value else take limit value

unfoldable pub cap : Option Text → ℕ → Option Text
cap none limit = none
cap (some value) limit = some (cap_text value limit)

unfoldable pub cap_list : List Text → (limit item_limit : ℕ) → List Text
cap_list values limit item_limit = map (λ v. cap_text v item_limit) (take limit values)

-- A value of `ExtractedFields`.
pub data Field : Type 0 where
  missing : Field
  words : Text → Field
  flag : Bool → Field

pub record DraftAction : Type 0 where
  pub draft_created : Bool
  pub draft_type : Option Text

pub record EnvelopeItem : Type 0 where
  pub message_id : Text
  pub classification : Text
  pub category : Text
  pub priority : Text
  pub status : Text
  pub summary : Text
  pub extracted : Dict Text Field
  pub missing_information : List Text
  pub risk_reasons : List Text
  pub action : DraftAction
  pub needs_human : Bool
  pub human_reason : Option Text

pub record Envelope : Type 0 where
  pub schema_version : ℕ
  pub items : List EnvelopeItem

abbrev pub supported_schema_version : ℕ
supported_schema_version = 1

-- The four validators of an item.
unfoldable pub is_valid_item : EnvelopeItem → Bool
is_valid_item item =
    contains item.classification classifications
    && contains item.category categories
    && contains item.priority priorities
    && contains item.status item_statuses

unfoldable pub is_valid_envelope : Envelope → Bool
is_valid_envelope envelope =
    nat_beq envelope.schema_version supported_schema_version
    && not (any (λ item. not (is_valid_item item)) envelope.items)

-- What is found in the output: no JSON object, or one, with its `result_type` and what the types of
-- the models make of it, if they fit.
pub data Output : Type 0 where
  no_object : Output
  object : (result_type : Option Text) (typed : Option Envelope) → Output

pub record TriggerContext : Type 0 where
  pub trigger_type : Option Text
  pub uids : List Text
  pub mailbox_credential_id : Text
  pub uidvalidity : Text
  pub result_contract : Option Text

pub record RunRow : Type 0 where
  pub id : String
  pub org_id : Option ℕ
  pub trigger_context : Option TriggerContext
  pub retry_of_run_id : Option String

pub record Payload : Type 0 where
  pub classification : Text
  pub category : Text
  pub priority : Text
  pub summary : Text
  pub extracted : Dict Text Field
  pub missing_information : List Text
  pub risk_reasons : List Text
  pub action : DraftAction
  pub human_reason : Option Text

pub record AutomationItemResult : Type 0 where
  pub org_id : ℕ
  pub run_id : String
  pub source_type : Text
  pub source_key : Text
  pub result_type : Text
  pub status : Text
  pub needs_attention : Bool
  pub payload : Payload

unfoldable pub source_key_of : (mailbox_credential_id uidvalidity uid : Text) → Text
source_key_of mailbox_credential_id uidvalidity uid =
    text "mailbox:"
    ++ mailbox_credential_id
    ++ text ":uidvalidity:"
    ++ uidvalidity
    ++ text ":uid:"
    ++ uid

-- The ids of messages that the trace of the run confirms a draft for, or a failed tool call.
pub record Evidence : Type 0 where
  pub confirmed : List Text
  pub failed : List Text

unfoldable pub reconciled_action : EnvelopeItem → List Text → DraftAction
reconciled_action item confirmed_ids =
    let confirmed = contains (strip item.message_id) confirmed_ids in
    record {
      draft_created =
          if item.action.draft_created && not confirmed
          then false
          else if not item.action.draft_created && confirmed
          then true
          else item.action.draft_created;
      draft_type = cap item.action.draft_type field_max_chars;
    }

abbrev pub cap_field : Field → Field
cap_field missing = missing
cap_field (words t) = words (cap_text t field_max_chars)
cap_field (flag b) = flag b

unfoldable pub item_payload : EnvelopeItem → List Text → Payload
item_payload item confirmed_ids = record {
  classification = item.classification;
  category = item.category;
  priority = item.priority;
  summary = cap_text item.summary summary_max_chars;
  extracted = map (λ p. (p.0, cap_field p.1)) item.extracted;
  missing_information = cap_list item.missing_information list_max_items list_item_max_chars;
  risk_reasons = cap_list item.risk_reasons list_max_items list_item_max_chars;
  action = reconciled_action item confirmed_ids;
  human_reason = cap item.human_reason field_max_chars;
}

unfoldable pub needs_attention_for : EnvelopeItem → Evidence → Bool
needs_attention_for item e =
    item.needs_human
    || contains item.status (text "needs_attention" ∷ text "error" ∷ [])
    || contains item.priority always_needs_attention_priorities
    || (item.action.draft_created && not (contains (strip item.message_id) e.confirmed))
    || contains (strip item.message_id) e.failed

unfoldable pub error_payload : Text → Bool → Payload
error_payload reason draft_created = record {
  classification = text "unknown";
  category = text "unknown";
  priority = text "unknown";
  summary = [];
  extracted = [];
  missing_information = [];
  risk_reasons = [];
  action = record { draft_created = draft_created; draft_type = none };
  human_reason = cap (some reason) field_max_chars;
}

-- The batch of a run: whose it is, and the keys of its messages.
pub record Batch : Type 0 where
  pub org_id : ℕ
  pub run_id : String
  pub key_of : Text → Text

unfoldable pub new_row : Batch → Text → Text → Bool → Payload → AutomationItemResult
new_row b uid status needs_attention payload = record {
  org_id = b.org_id;
  run_id = b.run_id;
  source_type = text "email";
  source_key = b.key_of uid;
  result_type = item_result_type;
  status = status;
  needs_attention = needs_attention;
  payload = payload;
}

unfoldable pub error_row : Batch → Text → List Text → Text → AutomationItemResult
error_row b reason confirmed_ids uid =
    new_row b uid (text "error") true (error_payload reason (contains uid confirmed_ids))

unfoldable pub item_row : Batch → Evidence → Text → EnvelopeItem → AutomationItemResult
item_row b e uid item =
    new_row b uid item.status (needs_attention_for item e) (item_payload item e.confirmed)

abbrev pub mismatch_reason : Text
mismatch_reason =
    text "Result normalization failed: the automation's output didn't match the expected format."

abbrev pub missing_reason : Text
missing_reason = text "The automation's output didn't include this message."

-- The first item of each message of the batch.
unfoldable pub index_items :
    (uids : List Text) → List EnvelopeItem → Dict Text EnvelopeItem → Dict Text EnvelopeItem
index_items uids [] found = found
index_items uids (item ∷ items) found =
    let message_id = strip item.message_id in
    index_items uids items (
      if not (contains message_id uids)
      then found
      else if is_some (lookup message_id found)
      then found
      else found ++ (message_id, item) ∷ [])

-- The row of a message by the items.
unfoldable pub row_for : Batch → Evidence → Dict Text EnvelopeItem → Text → AutomationItemResult
row_for b e items uid = elim (lookup uid items) [
  | none ↦ error_row b missing_reason e.confirmed uid
  | some item ↦ item_row b e uid item
]

-- The loop over the batch, which skips the messages that have a row.
unfoldable pub rows_to_add :
    (Text → AutomationItemResult)
    → (Text → Text)
    → (existing : List Text) → List Text
    → List AutomationItemResult
rows_to_add row_of key_of existing [] = []
rows_to_add row_of key_of existing (uid ∷ uids) =
    let rest = rows_to_add row_of key_of existing uids in
    if contains (key_of uid) existing then rest else row_of uid ∷ rest

abbrev pub is_row : String → Text → AutomationItemResult → Bool
is_row run_id source_key row = row.run_id == run_id && row.source_key == source_key

-- `add_all` and `commit` under the unique constraint on run and source key; `none` is the error.
unfoldable pub add_all :
    List AutomationItemResult → List AutomationItemResult → Option (List AutomationItemResult)
add_all table [] = some table
add_all table (row ∷ rows) =
    let rest = add_all (table ++ row ∷ []) rows in
    if any (is_row row.run_id row.source_key) table then none else rest

unfoldable pub existing_keys : String → List AutomationItemResult → List Text
existing_keys run_id table = map (λ r. r.source_key) (filter (λ r. r.run_id == run_id) table)

-- What the output is taken for: rows of a valid envelope, error rows, or nothing of this kind.
pub data Reading : Type 0 where
  envelope_of : Envelope → Reading
  mismatch : Reading
  unrelated : Reading

abbrev pub is_marker : Option Text → Bool
is_marker none = false
is_marker (some t) = t == result_type_batch_marker

unfoldable pub read_output : TriggerContext → Output → Reading
read_output context no_object = if is_marker context.result_contract then mismatch else unrelated
read_output context (object result_type typed) =
    if is_marker result_type
    then elim typed [
      | none ↦ mismatch
      | some envelope ↦ if is_valid_envelope envelope then envelope_of envelope else mismatch
    ]
    else if is_marker context.result_contract
    then mismatch
    else unrelated

abbrev pub batch_of : ℕ → String → TriggerContext → Batch
batch_of org_id run_id context = record {
  org_id = org_id;
  run_id = run_id;
  key_of = source_key_of context.mailbox_credential_id context.uidvalidity;
}

-- How the row of a message is made, when the output is of this kind.
unfoldable pub row_maker :
    Batch → Evidence → List Text → Reading → Option (Text → AutomationItemResult)
row_maker b e uids (envelope_of envelope) = some (row_for b e (index_items uids envelope.items []))
row_maker b e uids mismatch = some (error_row b mismatch_reason e.confirmed)
row_maker b e uids unrelated = none

abbrev pub is_email : Option Text → Bool
is_email none = false
is_email (some t) = t == text "email"

-- The organisation and the context of a run that is normalised. A batch of no message adds no row.
unfoldable pub normalized_context : RunRow → Option (ℕ × TriggerContext)
normalized_context run = elim run.trigger_context [
  | none ↦ none
  | some context ↦ elim run.org_id [
    | none ↦ none
    | some org_id ↦ if is_email context.trigger_type then some (org_id, context) else none
  ]
]

unfoldable pub normalize_batch :
    Batch
    → Evidence
    → TriggerContext
    → Output
    → List AutomationItemResult
    → Option (List AutomationItemResult)
normalize_batch b e context output table =
    elim (row_maker b e context.uids (read_output context output)) [
      | none ↦ some table
      | some row_of ↦
          add_all table (rows_to_add row_of b.key_of (existing_keys b.run_id table) context.uids)
    ]

unfoldable pub normalize :
    RunRow → Evidence → Output → List AutomationItemResult → Option (List AutomationItemResult)
normalize run e output table = elim (normalized_context run) [
  | none ↦ some table
  | some (org_id, context) ↦ normalize_batch (batch_of org_id run.id context) e context output table
]

-- An error is rolled back and goes no further.
unfoldable pub normalize_run_result :
    RunRow → Evidence → Output → List AutomationItemResult → List AutomationItemResult
normalize_run_result run e output table = elim (normalize run e output table) [
  | none ↦ table
  | some rows ↦ rows
]
