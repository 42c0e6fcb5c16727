-- ===== src/Email/Examples.antt =====
-- Small columns and outcomes for ui/backend/trigger_health.py, and a pass of
-- ui/backend/draft_outcomes.py over four drafts, and a newsletter for ui/backend/email_filter.py.
use bestteam.Shared.Dict.{lookup}
use bestteam.Shared.{
  true, arith, map, List, All, ℕ, false, Option, none, some, ◌/◌, [], ◌∷◌, ◌≡◌, refl, ltb,
}
use bestteam.Shared.Equality.{contains}
use bestteam.Shared.Int.{pos, clamp_zero}
use bestteam.Shared.Text.{Text, text_eq, split, scan, strip, strip_left, strip_right, is_space}
use bestteam.Shared.Literal.{text}
use bestteam.Email.Fingerprints.{to_set, insert, parse}
use bestteam.Email.Health.{
  mailbox_fault, mailbox_ok, fingerprint_mailbox, fingerprint_pipeline, fault_fingerprint,
  ok_clears, evaluate, Seconds,
}
use bestteam.Email.Health.Faults.{IsFaultReport, evaluate-reports}
use bestteam.Email.MailFilter
use bestteam.Email.MailFilter.{Parsing, FilterSettings, Headers}
use bestteam.Email.MailFilter.Decisions.{Decides, told, evaluate-Decides}
use bestteam.Email.Drafts.{
  pending, sent, handled, unknown, DraftOutcome, MailboxBackend, insert_ordered, ordered,
  is_candidate, selected, is_out_of_scope, with_message_id, is_replied, resolve, missed,
  reconcile_reply, reconcile_row, ask, active_rows, reconcile,
}
use bestteam.Email.Drafts.Verdicts.{IsTracked}
use bestteam.Email.Drafts.Passes.{reconcile-IsTracked}

abbrev parsing : Parsing
parsing = record { lower = λ t. t; address_of = λ t. t }

abbrev headers : Headers
headers = (text "from", text "ada@example.org") ∷ (text "list-id", text "news") ∷ []

abbrev settings : FilterSettings
settings = record {
  skip_bulk = true;
  sender_blocklist = text "*@spam.org" ∷ [];
  sender_allowlist = text "*@example.org" ∷ [];
  subject_blocklist = text "offer" ∷ [];
}

evaluate-Decides_example :
    Decides parsing headers settings
      (MailFilter.evaluate parsing headers settings)
      (told (MailFilter.evaluate parsing headers settings))
evaluate-Decides_example = evaluate-Decides parsing headers settings

abbrev column : Option Text
column = some (text "workflow,mailbox")

abbrev quiet : Option Text
quiet = none

mailbox_faulty : fault_fingerprint mailbox_fault ≡ some fingerprint_mailbox
unfolding fault_fingerprint
mailbox_faulty = refl

evaluate-reports_example :
    IsFaultReport mailbox_fault fingerprint_mailbox
      (clamp_zero (pos 2))
      (pos 3)
      (parse quiet)
      (evaluate mailbox_fault (pos 2) quiet (pos 3))
evaluate-reports_example =
    evaluate-reports mailbox_fault fingerprint_mailbox (pos 2) quiet (pos 3) mailbox_faulty

mailbox_cleared : ok_clears mailbox_ok ≡ some (fingerprint_mailbox ∷ [])
unfolding ok_clears
mailbox_cleared = refl

instance abbrev whole_seconds : Seconds ℕ
whole_seconds = record { exceeds = λ a b. ltb b a; whole_minutes = λ a. pos (a / 60) }

abbrev oldest : Option ℕ
oldest = some 900

abbrev limit : ℕ
limit = 600

not_reported : contains fingerprint_mailbox (parse quiet) ≡ false
unfolding contains parse to_set insert split scan
not_reported = refl

parsed : parse column ≡ fingerprint_mailbox ∷ fingerprint_pipeline ∷ []
unfolding parse to_set insert split scan
parsed = refl

abbrev draft_row : ℕ → Text → ℕ → Option ℕ → DraftOutcome
draft_row id key misses checked = record {
  id = id;
  org_id = 1;
  run_id = "run-1";
  source_key = key;
  status = pending;
  evidence = none;
  origin_message_id = none;
  miss_count = misses;
  created_at = 100;
  checked_at = checked;
  resolved_at = none;
}

abbrev prefix : Text
prefix = text "m:"

abbrev drafts : List DraftOutcome
drafts =
    draft_row 1 (text "m:1") 0 (some 150)
    ∷ draft_row 2 (text "m:2") 1 (some 160)
    ∷ draft_row 3 (text "old:3") 0 none
    ∷ draft_row 4 (text "m:4") 0 none
    ∷ []

-- Draft 4 is still in Drafts, and draft 1 is in Sent.
abbrev box : MailboxBackend
box = record {
  drafts_with_source_keys = λ asked. text "m:4" ∷ [];
  sent_with_source_keys = λ asked. text "m:1" ∷ [];
  message_ids_for_uids = λ uids. [];
  sent_replies_to = λ ids. [];
}

drafts-AreTracked : All IsTracked drafts
drafts-AreTracked = (
  (refl, refl, omega arith),
  ((refl, refl, omega arith), ((refl, refl, omega arith), ((refl, refl, omega arith), tt))),
)

reconcile-IsTracked_example : All IsTracked (reconcile box 1 prefix 1000 200 drafts)
reconcile-IsTracked_example = reconcile-IsTracked box 1 prefix 1000 200 drafts drafts-AreTracked

verdicts :
    map (λ r. r.status) (reconcile box 1 prefix 1000 200 drafts)
    ≡ sent ∷ handled ∷ unknown ∷ pending ∷ []
unfolding reconcile selected ordered insert_ordered is_candidate is_out_of_scope active_rows ask
    reconcile_row reconcile_reply with_message_id is_replied missed resolve contains lookup
verdicts = refl

skipped : MailFilter.evaluate parsing headers settings ≡ some (text "bulk:list-id")
unfolding MailFilter.evaluate MailFilter.evaluate_subject MailFilter.evaluate_bulk
    MailFilter.is_bulk MailFilter.says_bulk MailFilter.first_where MailFilter.matches
    MailFilter.address MailFilter.header MailFilter.is_allowlist_miss MailFilter.subject_hit strip
    strip_left strip_right is_space contains
skipped = refl
