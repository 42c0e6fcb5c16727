-- ===== src/Email/MailFilter/Decisions.antt =====
-- The decisions of `evaluate` in ui/backend/email_filter.py, and the sentences of `describe`.
use bestteam.Shared.{
  Option, none, some, Bool, true, false, not, ◌&&◌, List, [], ◌∷◌, ◌++◌, any, ◌≡◌, ◌⊎◌, inl, inr,
  refl, sym, ap, subst, ◌∙◌, arith, Bool-cases, if◌then◌else◌,
}
use bestteam.Shared.Equality.{contains, ==-self}
use bestteam.Shared.Text.{Text, text_eq, is_empty, strip}
use bestteam.Shared.Literal.{text}
use bestteam.Email.MailFilter.{
  Parsing, FilterSettings, Headers, bulk_headers, blocked_sender, blocked_subject, bulk,
  not_allowlisted, header, address, matches, says_bulk, first_where, is_bulk, subject_hit,
  is_allowlist_miss, evaluate_bulk, evaluate_subject, evaluate, bulk_sentence, after_colon,
  sender_sentence, subject_sentence, describe,
}

abbrev pub told : Option Text → Option Text
told none = none
told (some d) = some (describe d)

told-sender : (p : Text) → told (some (blocked_sender ++ p)) ≡ some (sender_sentence p)
unfolding describe after_colon
told-sender p = refl

told-subject : (t : Text) → told (some (blocked_subject ++ t)) ≡ some (subject_sentence t)
unfolding describe after_colon
told-subject t = refl

told-bulk : (name : Text) → told (some (bulk ++ name)) ≡ some (bulk_sentence name)
unfolding describe
told-bulk name = refl

told-allowlist :
    told (some not_allowlisted) ≡ some (text "Skipped: the sender is not on your allowed list")
unfolding describe
told-allowlist = refl

first_where-cases :
    (q : Text → Bool) (ts : List Text)
    → (first_where q ts ≡ none) × (any q ts ≡ false)
      ⊎ (t : Text) × (first_where q ts ≡ some t) × (contains t ts ≡ true) × (q t ≡ true)
unfolding first_where contains
first_where-cases q [] = inl (refl, refl)
first_where-cases q (t ∷ ts) = elim (Bool-cases (q t)) [
  | inl hit ↦ inr (t, rw hit refl, rw (==-self t) refl, hit)
  | inr miss ↦ elim (first_where-cases q ts) [
    | inl (e, h) ↦ inl (rw miss e, rw miss h)
    | inr (u, e, c, h) ↦ inr (u, rw miss e, ground (arith, c), h)
  ]
]

module _ (parsing : Parsing) (headers : Headers) (settings : FilterSettings) where
  abbrev pub is_blocked : Bool
  is_blocked = any (matches parsing (address parsing headers)) settings.sender_blocklist

  abbrev pub is_miss : Bool
  is_miss = is_allowlist_miss parsing (address parsing headers) settings.sender_allowlist

  abbrev pub subject : Text
  subject = parsing.lower (header parsing headers (text "subject"))

  abbrev pub is_subject_blocked : Bool
  is_subject_blocked =
      not (is_empty subject) && any (subject_hit parsing subject) settings.subject_blocklist

  abbrev pub marks_bulk : Text → Bool
  marks_bulk name = says_bulk parsing name (parsing.lower (strip (header parsing headers name)))

  -- Which rule a decision comes from, with the sentence that the customer reads: each rule
  -- applies only where those before it do not.
  pub data Decides : Option Text → Option Text → Type 0 where
    by_sender :
        (p : Text)
        → contains p settings.sender_blocklist ≡ true
        → matches parsing (address parsing headers) p ≡ true
        → Decides (some (blocked_sender ++ p)) (some (sender_sentence p))
    by_allowlist :
        is_blocked ≡ false
        → is_miss ≡ true
        → Decides
            (some not_allowlisted)
            (some (text "Skipped: the sender is not on your allowed list"))
    by_subject :
        is_blocked ≡ false
        → is_miss ≡ false
        → (t : Text) → contains t settings.subject_blocklist ≡ true
        → subject_hit parsing subject t ≡ true
        → Decides (some (blocked_subject ++ t)) (some (subject_sentence t))
    by_bulk :
        is_blocked ≡ false
        → is_miss ≡ false
        → is_subject_blocked ≡ false
        → settings.skip_bulk ≡ true
        → (name : Text) → contains name bulk_headers ≡ true
        → marks_bulk name ≡ true
        → Decides (some (bulk ++ name)) (some (bulk_sentence name))
    processed :
        is_blocked ≡ false
        → is_miss ≡ false
        → is_subject_blocked ≡ false
        → settings.skip_bulk && any marks_bulk bulk_headers ≡ false
        → Decides none none

  conclude : (r r' s : Option Text) → r ≡ r' → told r' ≡ s → Decides r' s → Decides r (told r)
  conclude r r' s e f d =
      subst (λ x. Decides x (told x)) (sym e) (subst (λ y. Decides r' y) (sym f) d)

  bulk_off : settings.skip_bulk ≡ false → evaluate_bulk parsing headers settings ≡ none
  unfolding evaluate_bulk
  bulk_off off = ground (arith, off)

  bulk_on :
      (o : Option Text)
      → settings.skip_bulk ≡ true
      → first_where marks_bulk bulk_headers ≡ o
      → evaluate_bulk parsing headers settings
        ≡ (elim o [ none ↦ none | some name ↦ some (bulk ++ name) ])
  unfolding evaluate_bulk is_bulk
  bulk_on o on e =
      ap
        (λ c.
          if c
          then (elim (first_where marks_bulk bulk_headers) [
            | none ↦ none
            | some name ↦ some (bulk ++ name)
          ])
          else none)
        on
      ∙ ap (λ r. elim r [ none ↦ none | some name ↦ some (bulk ++ name) ]) e

  bulk-Decides :
      is_blocked ≡ false
      → is_miss ≡ false
      → is_subject_blocked ≡ false
      → Decides
          (evaluate_bulk parsing headers settings)
          (told (evaluate_bulk parsing headers settings))
  bulk-Decides b m s = elim (Bool-cases settings.skip_bulk) [
    | inr off ↦
        conclude _ none none (bulk_off off) refl
          (processed b m s (ap (λ c. c && any marks_bulk bulk_headers) off))
    | inl on ↦ elim (first_where-cases marks_bulk bulk_headers) [
      | inl (e, h) ↦
          conclude _ none none (bulk_on none on e) refl
            (processed b m s (ap (λ c. c && any marks_bulk bulk_headers) on ∙ h))
      | inr (name, e, c, h) ↦
          conclude _ _ _ (bulk_on (some name) on e) (told-bulk name) (by_bulk b m s on name c h)
    ]
  ]

  no_subject :
      is_empty subject ≡ true
      → evaluate_subject parsing headers settings ≡ evaluate_bulk parsing headers settings
  unfolding evaluate_subject
  no_subject blank =
      ap
        (λ c.
          elim (if c
            then none
            else first_where (subject_hit parsing subject) settings.subject_blocklist) [
              | none ↦ evaluate_bulk parsing headers settings
              | some t ↦ some (blocked_subject ++ t)
            ])
        blank

  with_subject :
      (o : Option Text)
      → is_empty subject ≡ false
      → first_where (subject_hit parsing subject) settings.subject_blocklist ≡ o
      → evaluate_subject parsing headers settings ≡ (elim o [
        | none ↦ evaluate_bulk parsing headers settings
        | some t ↦ some (blocked_subject ++ t)
      ])
  unfolding evaluate_subject
  with_subject o full e =
      ap
        (λ c.
          elim (if c
            then none
            else first_where (subject_hit parsing subject) settings.subject_blocklist) [
              | none ↦ evaluate_bulk parsing headers settings
              | some t ↦ some (blocked_subject ++ t)
            ])
        full
      ∙ ap
          (λ r. elim r [
            | none ↦ evaluate_bulk parsing headers settings
            | some t ↦ some (blocked_subject ++ t)
          ])
          e

  subject-Decides :
      is_blocked ≡ false
      → is_miss ≡ false
      → Decides
          (evaluate_subject parsing headers settings)
          (told (evaluate_subject parsing headers settings))
  subject-Decides b m = elim (Bool-cases (is_empty subject)) [
    | inl blank ↦ conclude _ _ _ (no_subject blank) refl (
        bulk-Decides b m
          (ap (λ c. not c && any (subject_hit parsing subject) settings.subject_blocklist) blank))
    | inr full ↦ elim (first_where-cases (subject_hit parsing subject) settings.subject_blocklist) [
      | inl (e, h) ↦ conclude _ _ _ (with_subject none full e) refl (
          bulk-Decides b m (
            ap (λ c. not c && any (subject_hit parsing subject) settings.subject_blocklist) full
            ∙ h))
      | inr (t, e, c, h) ↦
          conclude _ _ _ (with_subject (some t) full e) (told-subject t) (by_subject b m t c h)
    ]
  ]

  sender_first :
      (o : Option Text)
      → first_where (matches parsing (address parsing headers)) settings.sender_blocklist ≡ o
      → evaluate parsing headers settings ≡ (elim o [
        | some p ↦ some (blocked_sender ++ p)
        | none ↦ if is_miss then some not_allowlisted else evaluate_subject parsing headers settings
      ])
  unfolding evaluate
  sender_first o e =
      ap
        (λ r. elim r [
          | some p ↦ some (blocked_sender ++ p)
          | none ↦
              if is_miss then some not_allowlisted else evaluate_subject parsing headers settings
        ])
        e

  -- Every decision of the filter comes from the first rule that applies, in the documented order,
  -- with its pattern, term or header, and the customer's sentence names the same; mail is
  -- processed exactly when no rule applies.
  pub evaluate-Decides :
      Decides (evaluate parsing headers settings) (told (evaluate parsing headers settings))
  evaluate-Decides =
      elim (first_where-cases (matches parsing (address parsing headers))
        settings.sender_blocklist) [
          | inr (p, e, c, h) ↦
              conclude _ _ _ (sender_first (some p) e) (told-sender p) (by_sender p c h)
          | inl (e, b) ↦ elim (Bool-cases is_miss) [
            | inl miss ↦
                conclude _ _ _
                  (sender_first none e
                    ∙ ap
                        (λ c.
                          if c
                          then some not_allowlisted
                          else evaluate_subject parsing headers settings)
                        miss)
                  told-allowlist (by_allowlist b miss)
            | inr allowed ↦
                conclude _ _ _
                  (sender_first none e
                    ∙ ap
                        (λ c.
                          if c
                          then some not_allowlisted
                          else evaluate_subject parsing headers settings)
                        allowed)
                  refl (subject-Decides b allowed)
          ]
        ]
