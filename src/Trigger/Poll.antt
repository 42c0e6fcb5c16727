-- ===== src/Trigger/Poll.antt =====
-- `poll_org` of ui/backend/email_trigger.py, one cycle. Other sessions commit between cycles; what
-- they commit within one is in its `Dispatch`.
use bestteam.Shared.{
  ℕ, ◌*◌, String, Bool, true, false, Option, none, some, List, [], ◌∷◌, map, take, leb, nat_beq,
  if◌then◌else◌,
}
use bestteam.Shared.Equality.{◌==◌}
use bestteam.Shared.Dict.{put}
use bestteam.Shared.Text.{Text, text_eq}
use bestteam.Shared.Literal.{text}
use bestteam.Shared.Equality.{string_eq}
use bestteam.Inbox.{Decisions, record_events, abandon_superseded_events, has_pending_events}
use bestteam.Email.Health.{mailbox_fault, mailbox_ok}
use bestteam.Trigger.{
  Message, plain, counted, quoted, ErrorKind, mailbox_kind, pipeline_kind, EmailTrigger, Credential,
  Limits, Money, Casing, System, with_trigger, with_error, apply_health,
}
use bestteam.Trigger.Decimal.{str}
use bestteam.Trigger.Mailbox.{sort, maximum, Scan, check_mailbox}
use bestteam.Trigger.Scope.{mailbox_identity, mailbox_of}
use bestteam.Trigger.Watchdog.{overlap_guard}
use bestteam.Trigger.Dispatch.{Dispatch, start_triggered_run}

-- What the credentials and the server answer: no credentials, credentials that cannot be decrypted,
-- an exception (the words of a `ConfigurationError`), or the answers that `check_mailbox` reads.
pub data Connection : Type 0 where
  no_mailbox unreadable : Connection
  raised : Option Text → Connection
  connected : Credential → (status : Option Text) → (found : Option (List ℕ)) → Connection

-- `summaries` is what the headers of the new messages are, each with the filter's decision on it;
-- `none` when they cannot be fetched.
pub record Cycle (M : Type 0) : Type 0 where
  pub today : Text
  pub connection : Connection
  pub summaries : Option (List (String × Option String))
  pub dispatch : Dispatch M
  pub open dispatch use {now}

abbrev pub detect_multiplier : ℕ
detect_multiplier = 10

abbrev pub unreadable_message : String
unreadable_message =
    "The mailbox connection can't be read right now -- reconnect it to resume automatic runs."

abbrev pub no_mailbox_message : String
no_mailbox_message = "No mailbox is connected -- reconnect it to resume automatic runs."

abbrev pub check_message : String
check_message = "Couldn't check the mailbox. We'll keep retrying automatically."

unfoldable pub friendly_poll_error : Option Text → Message
friendly_poll_error none = plain check_message
friendly_poll_error (some words) = quoted (take 500 words)

unfoldable pub is_today : Text → Option Text → Bool
is_today today none = false
is_today today (some d) = d == today

unfoldable pub roll_over : Text → EmailTrigger → EmailTrigger
roll_over today t =
    if is_today today t.runs_date
    then t
    else record t { runs_today = 0; messages_today = 0; runs_date = some today }

unfoldable pub at_daily_cap : Limits → Text → EmailTrigger → Bool
at_daily_cap limits today t =
    leb limits.daily_cap (if is_today today t.runs_date then t.runs_today else 0)

unfoldable pub collect_decisions :
    List (String × String) → List (String × Option String) → List (String × String)
collect_decisions decided [] = decided
collect_decisions decided ((id, none) ∷ rest) = collect_decisions decided rest
collect_decisions decided ((id, some d) ∷ rest) = collect_decisions (put id d decided) rest

unfoldable pub filter_decisions : List ℕ → Option (List (String × Option String)) → Decisions
unfolding collect_decisions
filter_decisions [] summaries = some []
filter_decisions (u ∷ us) none = some []
filter_decisions (u ∷ us) (some summaries) = some (collect_decisions [] summaries)

unfoldable pub mailbox_failed : Limits → ℕ → Message → System → System
mailbox_failed limits now message s = apply_health limits mailbox_fault (
    with_trigger
      (record (with_error (some message) (some mailbox_kind) s.trigger) {
        last_checked_at = some now;
      })
      s)

abbrev pub is_mailbox_kind : Option ErrorKind → Bool
is_mailbox_kind (some mailbox_kind) = true
is_mailbox_kind (some pipeline_kind) = false
is_mailbox_kind none = false

unfoldable pub clear_mailbox_error : EmailTrigger → EmailTrigger
clear_mailbox_error t = if is_mailbox_kind t.last_error_kind then with_error none none t else t

unfoldable pub mailbox_checked : Limits → ℕ → System → System
mailbox_checked limits now s =
    apply_health limits mailbox_ok
      (with_trigger (clear_mailbox_error (record s.trigger { last_checked_at = some now })) s)

unfoldable pub is_generation : ℕ → Option ℕ → Bool
is_generation v none = false
is_generation v (some w) = nat_beq w v

abbrev pub rebuilt_error : ℕ → EmailTrigger → EmailTrigger
rebuilt_error abandoned t =
    if nat_beq abandoned 0
    then t
    else with_error
        (some (
          counted "The mailbox was rebuilt, so " abandoned
            " message(s) that were waiting to be processed have been abandoned -- their message numbers no longer refer to the same emails."))
        (some mailbox_kind) t

module _ {M : Type 0} ⦃money : Money M⦄ ⦃casing : Casing⦄ (limits : Limits) (c : Cycle M) where
  -- The mailbox was rebuilt: the baseline is where it is now.
  unfoldable pub rebase : Credential → Scan → System → System
  rebase cred scan s =
      let (ledger, abandoned) =
        abandon_superseded_events s.trigger.org_id (mailbox_identity cred)
          (some (str scan.uidvalidity)) c.now s.ledger in
      record s {
        ledger = ledger;
        trigger =
            rebuilt_error abandoned
              (record s.trigger { uidvalidity = some scan.uidvalidity; last_uid = scan.max_uid });
      }

  abbrev pub detected : List ℕ → List ℕ
  detected new_uids = take (limits.batch_size * detect_multiplier) (sort new_uids)

  -- The durability point: the rows and the cursor.
  unfoldable pub record_scan : Credential → List ℕ → System → System
  record_scan cred new_uids s =
      let uids = detected new_uids in
      let (ledger, inserted) =
        record_events (mailbox_of cred s.trigger) "imap" (filter_decisions uids c.summaries) c.now
          (map str uids) s.ledger in
      record s { ledger = ledger; trigger = record s.trigger { last_uid = maximum uids } }

  unfoldable pub may_start : Credential → System → System
  may_start cred s =
      if at_daily_cap limits c.today s.trigger
      then s
      else start_triggered_run limits c.dispatch cred s

  unfoldable pub take_mail : Credential → List ℕ → System → System
  take_mail cred [] s =
      if has_pending_events (mailbox_of cred s.trigger) s.ledger then may_start cred s else s
  take_mail cred (u ∷ us) s = may_start cred (record_scan cred (u ∷ us) s)

  unfoldable pub on_scan : Credential → Scan → System → System
  on_scan cred scan s =
      if is_generation scan.uidvalidity s.trigger.uidvalidity
      then take_mail cred scan.new_uids s
      else rebase cred scan s

  unfoldable pub visit_mailbox : System → System
  visit_mailbox s = elim c.connection [
    | no_mailbox ↦
        mailbox_failed limits c.now (friendly_poll_error (some (text no_mailbox_message))) s
    | unreadable ↦ mailbox_failed limits c.now (plain unreadable_message) s
    | raised words ↦ mailbox_failed limits c.now (friendly_poll_error words) s
    | connected cred status found ↦ elim (check_mailbox status found s.trigger.last_uid) [
      | none ↦ mailbox_failed limits c.now (friendly_poll_error none) s
      | some scan ↦ on_scan cred scan (mailbox_checked limits c.now s)
    ]
  ]

  unfoldable pub poll_org : System → System
  poll_org s =
      let rolled = with_trigger (roll_over c.today s.trigger) s in
      let (guarded, free) = overlap_guard limits c.now rolled in
      if leb limits.daily_cap rolled.trigger.runs_today
      then rolled
      else if free
      then visit_mailbox guarded
      else guarded
