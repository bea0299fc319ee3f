-- ===== src/Signals/Kinds.antt =====
-- app/signals/detectors.py: the kind and the severity that a payload or a message names.
use jb_wm_backend.Base.{
  arith, String, ◌≡◌, ◌≢◌, refl, ◌∙◌, ◌⊎◌, inl, inr, true, false, some, truthy, strip, contains_any,
  Bool-cases, ◌==◌, eq_iff,
}
use jb_wm_backend.Json.{Json, null, bool, int, float, str, arr, obj, Fields}
use jb_wm_backend.Models.{Severity}
use jb_wm_backend.Environment.{Env}
use jb_wm_backend.Signals.{
  get_or_null, insurance_words, investment_words, cash_words, kind_of_text, severity_of,
  text_or_empty, explicit_kind,
}

-- The kind that a message's words give it; the groups are tried in this order.
pub data HasWords (text : String) : String → Type 0 where
  of_insurance : contains_any insurance_words text ≡ true → HasWords text "insurance_gap"
  of_investment :
      contains_any insurance_words text ≡ false
      → contains_any investment_words text ≡ true
      → HasWords text "portfolio_loss"
  of_cash :
      contains_any insurance_words text ≡ false
      → contains_any investment_words text ≡ false
      → contains_any cash_words text ≡ true
      → HasWords text "upcoming_card_payment_pressure"

-- A message with none of the words.
pub record HasNoWords (text : String) : Type 0 where
  pub no_insurance : contains_any insurance_words text ≡ false
  pub no_investment : contains_any investment_words text ≡ false
  pub no_cash : contains_any cash_words text ≡ false

-- The severity of a signal, from the payload's value.
pub data IsSeverity (v : Json) : Severity → Type 0 where
  is_low : v ≡ str "low" → IsSeverity v Severity.low
  is_high : v ≡ str "high" → IsSeverity v Severity.high
  is_mid : v ≢ str "low" → v ≢ str "high" → IsSeverity v Severity.mid

module _ (env : Env) where
  -- The texts of the payload.
  abbrev pub stated_kind : Fields → String
  stated_kind payload = strip (text_or_empty env (get_or_null "kind" payload))

  abbrev pub message_text : Fields → String
  message_text payload = text_or_empty env (get_or_null "text" payload)

  -- The kind that a payload names: its own, or that of the words of a customer's message.
  pub data Names (source : String) (payload : Fields) : String → Type 0 where
    by_kind : truthy (stated_kind payload) ≡ true → Names source payload (stated_kind payload)
    by_words :
        {kind : String}
        → source ≡ "user_utterance"
        → stated_kind payload ≡ ""
        → HasWords (message_text payload) kind
        → Names source payload kind

  -- A payload that names no kind.
  pub record NamesNone (source : String) (payload : Fields) : Type 0 where
    pub unstated : stated_kind payload ≡ ""
    pub wordless : (source ≢ "user_utterance") ⊎ HasNoWords (message_text payload)

  words_cases :
      (text : String)
      → HasWords text (kind_of_text text) ⊎ (HasNoWords text × (kind_of_text text ≡ ""))
  unfolding kind_of_text
  words_cases text = elim (Bool-cases (contains_any insurance_words text)) [
    | inl a ↦ rw a (inl (of_insurance a))
    | inr na ↦ elim (Bool-cases (contains_any investment_words text)) [
      | inl b ↦ rw (na, b) (inl (of_investment na b))
      | inr nb ↦ elim (Bool-cases (contains_any cash_words text)) [
        | inl c ↦ rw (na, nb, c) (inl (of_cash na nb c))
        | inr nc ↦
            rw (na, nb, nc)
              (inr (record { no_insurance = na; no_investment = nb; no_cash = nc }, refl))
      ]
    ]
  ]

  HasWords-truthy : {text kind : String} → HasWords text kind → truthy kind ≡ true
  HasWords-truthy (of_insurance a) = refl
  HasWords-truthy (of_investment a b) = refl
  HasWords-truthy (of_cash a b c) = refl

  pub Names-truthy :
      {source : String} {payload : Fields} {kind : String}
      → Names source payload kind
      → truthy kind ≡ true
  Names-truthy (by_kind h) = h
  Names-truthy (by_words uttered unstated words) = HasWords-truthy words

  silent : (k : String) → truthy k ≡ false → k ≡ ""
  silent k h = ground (arith, eq_iff k "")

  explicit_stated :
      (source : String) (payload : Fields)
      → truthy (stated_kind payload) ≡ true
      → explicit_kind env source payload ≡ stated_kind payload
  unfolding explicit_kind
  explicit_stated source payload stated = ground arith

  explicit_other :
      (source : String) (payload : Fields)
      → (source == "user_utterance") ≡ false
      → explicit_kind env source payload ≡ stated_kind payload
  unfolding explicit_kind
  explicit_other source payload other = ground arith

  explicit_words :
      (source : String) (payload : Fields)
      → truthy (stated_kind payload) ≡ false
      → (source == "user_utterance") ≡ true
      → explicit_kind env source payload ≡ kind_of_text (message_text payload)
  unfolding explicit_kind
  explicit_words source payload unstated uttered = ground arith

  pub explicit_cases :
      (source : String) (payload : Fields)
      → Names source payload (explicit_kind env source payload)
        ⊎ (NamesNone source payload × (explicit_kind env source payload ≡ ""))
  explicit_cases source payload = elim (Bool-cases (truthy (stated_kind payload))) [
    | inl stated ↦ inl (rw (explicit_stated source payload stated) (by_kind stated))
    | inr unstated ↦ elim (Bool-cases (source == "user_utterance")) [
      | inr other ↦ inr (
        record {
          unstated = silent (stated_kind payload) unstated;
          wordless = inl (λ e. ground (arith, eq_iff source "user_utterance"));
        },
        explicit_other source payload other ∙ silent (stated_kind payload) unstated,
      )
      | inl uttered ↦ elim (words_cases (message_text payload)) [
        | inl words ↦ inl (
            rw (explicit_words source payload unstated uttered) (
              by_words ((eq_iff source "user_utterance").0 uttered)
                (silent (stated_kind payload) unstated) words))
        | inr (none_of_them, empty) ↦ inr (
          record { unstated = silent (stated_kind payload) unstated; wordless = inr none_of_them },
          explicit_words source payload unstated uttered ∙ empty,
        )
      ]
    ]
  ]

  text_severity :
      (text : String) (x : Severity) → severity_of (str text) ≡ some x → IsSeverity (str text) x
  text_severity text x h = elim (Bool-cases (text == "low")) [
    | inl low ↦
        let same : x ≡ Severity.low = ground arith in
        rw same (is_low (rw ((eq_iff text "low").0 low) refl))
    | inr not_low ↦ elim (Bool-cases (text == "high")) [
      | inl high ↦
          let same : x ≡ Severity.high = ground arith in
          rw same (is_high (rw ((eq_iff text "high").0 high) refl))
      | inr not_high ↦
          let same : x ≡ Severity.mid = ground arith in
          rw same (
            is_mid (λ e. ground (arith, eq_iff text "low"))
              (λ e. ground (arith, eq_iff text "high")))
    ]
  ]

  unnamed_severity :
      (v : Json) (x : Severity)
      → v ≢ str "low"
      → v ≢ str "high"
      → some Severity.mid ≡ some x
      → IsSeverity v x
  unnamed_severity v x not_low not_high h =
      let same : x ≡ Severity.mid = ground arith in rw same (is_mid not_low not_high)

  pub severity_of-IsSeverity : (v : Json) (x : Severity) → severity_of v ≡ some x → IsSeverity v x
  severity_of-IsSeverity (str text) x h = text_severity text x h
  severity_of-IsSeverity null x h =
      unnamed_severity null x (λ e. ground arith) (λ e. ground arith) h
  severity_of-IsSeverity (bool b) x h =
      unnamed_severity (bool b) x (λ e. ground arith) (λ e. ground arith) h
  severity_of-IsSeverity (int n) x h =
      unnamed_severity (int n) x (λ e. ground arith) (λ e. ground arith) h
  severity_of-IsSeverity (float y) x h =
      unnamed_severity (float y) x (λ e. ground arith) (λ e. ground arith) h
  severity_of-IsSeverity (arr xs) x h = absurd (ground arith)
  severity_of-IsSeverity (obj fs) x h = absurd (ground arith)
