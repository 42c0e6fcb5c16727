-- ===== src/Results/Drafted.antt =====
-- `already_drafted_uids` and `_trace_confirmed_uids` of ui/backend/automation_results.py and the messages that
-- ui/backend/email_trigger.py retries. What `json.loads` makes of the data of a trace event is a field of the
-- event; a set is the list of its members in the order of the batch.
use bestteam.Shared.{
  String, Option, none, some, Bool, true, false, not, ◌&&◌, ◌||◌, List, [], ◌∷◌, ◌++◌, filter, any,
  ◌≡◌, refl, sym, ap, arith, if◌then◌else◌, ◌∙◌,
}
use mathlib.Core.Option.{some-injective}
use bestteam.Shared.Equality.{◌==◌, contains, string_eq, ==-self, eq_of_==}
use bestteam.Shared.Text.{Text, text_eq, strip, is_empty}
use bestteam.Shared.Literal.{text}
use bestteam.Results.{RunRow, TriggerContext, AutomationItemResult, source_key_of}
use bestteam.Results.Families.{retry_family_run_ids}

-- The entries that are read of the data, where it is a dictionary, and where they are strings.
pub record TraceData : Type 0 where
  pub tool : Option Text
  pub outcome : Option Text
  pub message_id : Option Text

pub record TraceEventRecord : Type 0 where
  pub run_id : String
  pub type : Text
  pub content : Option TraceData

abbrev pub confirmed_draft_outcomes : List Text
confirmed_draft_outcomes = text "draft_created" ∷ text "draft_exists" ∷ []

abbrev is_value : Text → Option Text → Bool
is_value t none = false
is_value t (some v) = v == t

abbrev is_one_of : List Text → Option Text → Bool
is_one_of ts none = false
is_one_of ts (some v) = contains v ts

abbrev names : Text → Option Text → Bool
names uid none = false
names uid (some v) = strip v == uid

-- The data says that the draft tool wrote, or found, a draft for the message.
unfoldable pub confirms : Text → TraceData → Bool
confirms uid d =
    is_value (text "email_draft_reply") d.tool
    && is_one_of confirmed_draft_outcomes d.outcome
    && names uid d.message_id

unfoldable pub event_confirms : List String → Text → TraceEventRecord → Bool
event_confirms family uid t =
    contains t.run_id family
    && t.type == text "tool_completed"
    && elim t.content [ none ↦ false | some d ↦ confirms uid d ]

unfoldable pub trace_confirmed_uids : List TraceEventRecord → List String → List Text → List Text
trace_confirmed_uids trace family uids = filter (λ u. any (event_confirms family u) trace) uids

unfoldable pub row_confirms : List String → Text → AutomationItemResult → Bool
row_confirms family source_key r =
    contains r.run_id family && r.source_key == source_key && r.payload.action.draft_created

unfoldable pub result_confirmed_uids :
    List AutomationItemResult → List String → (Text → Text) → List Text → List Text
result_confirmed_uids table family key_of uids =
    filter (λ u. any (row_confirms family (key_of u)) table) uids

abbrev pub key_in : TriggerContext → Text → Text
key_in context = source_key_of context.mailbox_credential_id context.uidvalidity

-- `none` is out of fuel in the search for the family.
unfoldable pub already_drafted_uids :
    List RunRow → List TraceEventRecord → List AutomationItemResult → RunRow → Option (List Text)
already_drafted_uids runs trace table run = elim run.trigger_context [
  | none ↦ some []
  | some context ↦ if is_empty context.uids then some [] else elim (retry_family_run_ids runs run) [
    | none ↦ none
    | some family ↦ some (
        result_confirmed_uids table family (key_in context) context.uids
        ++ trace_confirmed_uids trace family context.uids)
  ]
]

-- `retry_uids` of `retry_triggered_run`.
unfoldable pub retry_uids : List Text → (already_drafted : List Text) → List Text
retry_uids uids already_drafted = filter (λ u. not (contains u already_drafted)) uids

contains-filter :
    (p : Text → Bool) (u : Text) (us : List Text) → contains u (filter p us) ≡ contains u us && p u
unfolding contains
contains-filter p u [] = refl
contains-filter p u (v ∷ us) = ground (arith, contains-filter p u us, eq_of_== u v, ==-self u)

contains-append :
    (u : Text) (xs ys : List Text) → contains u (xs ++ ys) ≡ contains u xs || contains u ys
unfolding contains
contains-append u [] ys = refl
contains-append u (x ∷ xs) ys = ground (arith, contains-append u xs ys)

contains-is_empty : (u : Text) (us : List Text) → is_empty us ≡ true → contains u us ≡ false
unfolding contains
contains-is_empty u [] h = refl
contains-is_empty u (v ∷ us) h = cc

drafted_of_family :
    (runs : List RunRow) (trace : List TraceEventRecord) (table : List AutomationItemResult)
    (run : RunRow) (context : TriggerContext) (family : List String)
    → run.trigger_context ≡ some context
    → retry_family_run_ids runs run ≡ some family
    → is_empty context.uids ≡ false
    → already_drafted_uids runs trace table run
      ≡ some (
          result_confirmed_uids table family (key_in context) context.uids
          ++ trace_confirmed_uids trace family context.uids)
unfolding already_drafted_uids
drafted_of_family runs trace table run context family has found some_uid =
    rw (has, already_drafted_uids) (rw some_uid (rw found refl))

contains-already_drafted_uids :
    (runs : List RunRow) (trace : List TraceEventRecord) (table : List AutomationItemResult)
    (run : RunRow) (context : TriggerContext) (family : List String) (drafted : List Text)
    (u : Text)
    → run.trigger_context ≡ some context
    → retry_family_run_ids runs run ≡ some family
    → already_drafted_uids runs trace table run ≡ some drafted
    → contains u context.uids ≡ true
    → contains u drafted
      ≡ any (row_confirms family (key_in context u)) table || any (event_confirms family u) trace
unfolding result_confirmed_uids trace_confirmed_uids
contains-already_drafted_uids runs trace table run context family drafted u has found h member =
    let both =
      result_confirmed_uids table family (key_in context) context.uids
      ++ trace_confirmed_uids trace family context.uids in
    ap (contains u) (
      some-injective drafted both
        (sym h ∙ drafted_of_family runs trace table run context family has found some_uid))
    ∙ contains-append u (result_confirmed_uids table family (key_in context) context.uids)
        (trace_confirmed_uids trace family context.uids)
    ∙ ground (
      arith,
      contains-filter (λ v. any (row_confirms family (key_in context v)) table) u context.uids,
      contains-filter (λ v. any (event_confirms family v) trace) u context.uids,
      member,
    )
  where
    some_uid : is_empty context.uids ≡ false
    some_uid = ground (arith, member, contains-is_empty u context.uids)

-- A message is retried exactly when it is of the batch and neither a row of a run of the family says that
-- it has a draft, nor does the trace of one confirm a draft for it.
pub contains-retry_uids :
    (runs : List RunRow) (trace : List TraceEventRecord) (table : List AutomationItemResult)
    (run : RunRow) (context : TriggerContext) (family : List String) (drafted : List Text)
    (u : Text)
    → run.trigger_context ≡ some context
    → retry_family_run_ids runs run ≡ some family
    → already_drafted_uids runs trace table run ≡ some drafted
    → contains u (retry_uids context.uids drafted)
      ≡ contains u context.uids
        && not (
            any (row_confirms family (key_in context u)) table
            || any (event_confirms family u) trace)
unfolding retry_uids
contains-retry_uids runs trace table run context family drafted u has found h =
    contains-filter (λ v. not (contains v drafted)) u context.uids
    ∙ ground (
      arith,
      contains-already_drafted_uids runs trace table run context family drafted u has found h,
    )
