-- ===== src/Signals.antt =====
-- app/signals/detectors.py: the deterministic signal of a workflow run, from the trigger's payload
-- or from the sanitized context. The sections of the context are dictionaries, as the snapshot
-- builds them. Amounts are compared as integers, which Python's floats hold exactly below 2 ^ 53.
pub mod Kinds
pub mod Laws
use jb_wm_backend.Base.{
  ℕ, String, Bool, true, false, not, ◌&&◌, Option, none, some, List, [], ◌∷◌, ◌==◌, if◌then◌else◌,
  contains_any, strip, truthy,
}
use jb_wm_backend.Integers.{ℤ, pos, ◌+ℤ◌, ltb_ℤ, is_zero}
use jb_wm_backend.Json.{
  Json, null, int, float, str, arr, obj, Items, nil, item, Fields, Float, get, truth, fields, dict,
}
use jb_wm_backend.Models.{SignalEnvelope, SignalSource, event, user_utterance, detector, Severity}
use jb_wm_backend.Environment.{Env}

-- `d.get(key)` with `None`, and `d.get(key, {})`, on dictionaries.
abbrev pub get_or_null : String → Fields → Json
get_or_null k fs = elim (get k fs) [ none ↦ null | some v ↦ v ]

abbrev pub section : String → Fields → Fields
section k fs = fields (get_or_null k fs)

abbrev pub items : Json → Items
items (arr xs) = xs
items _ = nil

-- The words that give a customer's message a kind.
abbrev pub insurance_words : List String
insurance_words = "보험" ∷ "보장" ∷ "특약" ∷ []

abbrev pub investment_words : List String
investment_words = "투자" ∷ "손실" ∷ "리밸런싱" ∷ "포트폴리오" ∷ []

abbrev pub cash_words : List String
cash_words = "카드" ∷ "상환" ∷ "현금" ∷ "생활비" ∷ []

-- `explicit_kind` for a message that names no kind.
unfoldable pub kind_of_text : String → String
kind_of_text text =
    if contains_any insurance_words text
    then "insurance_gap"
    else if contains_any investment_words text
    then "portfolio_loss"
    else if contains_any cash_words text
    then "upcoming_card_payment_pressure"
    else ""

-- `payload.get("severity")` if it is one of the three, and "mid" for anything else. A list or a
-- dictionary is not hashable, so that the test in a set raises: absent.
abbrev pub severity_of : Json → Option Severity
severity_of (str s) =
    some (if s == "low" then Severity.low else if s == "high" then Severity.high else Severity.mid)
severity_of (arr xs) = none
severity_of (obj fs) = none
severity_of _ = some Severity.mid

module _ (env : Env) where
  -- `str(v or "")`
  abbrev pub text_or_empty : Json → String
  text_or_empty (str s) = s
  text_or_empty v = if truth env.numbers.nonzero v then env.numbers.to_text v else ""

  -- `int(v or 0)`, absent where Python raises
  unfoldable pub int_or_zero : Json → Option ℤ
  int_or_zero (int n) = some n
  int_or_zero v = if truth env.numbers.nonzero v then env.numbers.to_int v else some (pos 0)

  -- `float(v or 0)`
  unfoldable pub float_or_zero : Json → Option Float
  float_or_zero v =
      if truth env.numbers.nonzero v
      then env.numbers.to_float v
      else some (env.numbers.hundredths 0)

  -- `sum(int(loan.get("monthly_payment") or 0) for loan in loans)`
  unfoldable pub repayments : Items → Option ℤ
  unfolding int_or_zero
  repayments nil = some (pos 0)
  repayments (item loan rest) = elim (int_or_zero (get_or_null "monthly_payment" (fields loan))) [
    | none ↦ none
    | some n ↦ elim (repayments rest) [ none ↦ none | some m ↦ some (n +ℤ m) ]
  ]

  -- The kind that the payload or the message states, empty for none.
  unfoldable pub explicit_kind : String → Fields → String
  unfolding kind_of_text
  explicit_kind source payload =
      let stated = strip (text_or_empty (get_or_null "kind" payload)) in
      if source == "user_utterance" && not (truthy stated)
      then kind_of_text (text_or_empty (get_or_null "text" payload))
      else stated

  unfoldable pub explicit_signal : String → String → Fields → Option SignalEnvelope
  explicit_signal source kind payload = elim (severity_of (get_or_null "severity" payload)) [
    | none ↦ none
    | some severity ↦ some (record {
      source = if source == "user_utterance" then user_utterance else event;
      kind = kind;
      severity = severity;
      payload = payload;
      rationale = "수동 또는 외부 이벤트 입력으로 전달된 신호입니다.";
    })
  ]

  unfoldable pub portfolio_signal : Json → SignalEnvelope
  portfolio_signal weight = record {
    source = detector;
    kind = "portfolio_loss";
    severity = Severity.high;
    payload = dict (("high_risk_weight", weight) ∷ []);
    rationale = "고위험 투자 비중이 기준을 초과했습니다.";
  }

  unfoldable pub pressure_signal : ℤ → ℤ → ℤ → SignalEnvelope
  pressure_signal cash card repayment = record {
    source = detector;
    kind = "upcoming_card_payment_pressure";
    severity = Severity.mid;
    payload = dict (
        ("available_cash_krw", int cash)
        ∷ ("upcoming_card_payment_krw", int card)
        ∷ ("monthly_repayment_krw", int repayment)
        ∷ []);
    rationale = "카드 청구와 대출 상환이 가용 현금흐름을 압박합니다.";
  }

  unfoldable pub routine_signal : Fields → SignalEnvelope
  routine_signal payload = record {
    source = detector;
    kind = "routine_check";
    severity = Severity.low;
    payload = payload;
    rationale = "강한 자동 신호가 없어 정기 점검으로 분류했습니다.";
  }

  -- `available_cash and upcoming_card + monthly_repayment > available_cash * 0.5`
  abbrev pub is_pressed : ℤ → ℤ → ℤ → Bool
  is_pressed cash card repayment =
      not (is_zero cash) && ltb_ℤ cash ((card +ℤ repayment) +ℤ (card +ℤ repayment))

  -- The second detector, once the three amounts are read.
  unfoldable pub cash_signal : ℤ → ℤ → ℤ → Fields → SignalEnvelope
  unfolding pressure_signal routine_signal
  cash_signal cash card repayment payload =
      if is_pressed cash card repayment
      then pressure_signal cash card repayment
      else routine_signal payload

  abbrev bind {ℓ κ} : {A : Type ℓ} {B : Type κ} → Option A → (A → Option B) → Option B
  bind none f = none
  bind (some a) f = f a

  -- The detectors over the context, absent where Python raises on a malformed amount.
  unfoldable pub detect_in_context : Fields → Fields → Option SignalEnvelope
  detect_in_context payload context =
      let weight = get_or_null "high_risk_weight" (section "portfolio" context) in
      let accounts = section "liquidity_summary" (section "accounts" context) in
      bind (float_or_zero weight) λ high.
        if env.numbers.ge high (env.numbers.hundredths 65)
        then some (portfolio_signal weight)
        else bind (int_or_zero (get_or_null "available_cash_krw" accounts)) λ cash.
          bind
            (int_or_zero (get_or_null "upcoming_card_payment_krw" (section "card_bills" context)))
            λ card.
              bind (repayments (items (get_or_null "loans" (section "loans" context))))
                λ repayment. some (cash_signal cash card repayment payload)

  -- `detect_signal`
  unfoldable pub detect_signal : String → Fields → Fields → Option SignalEnvelope
  detect_signal source payload context =
      let kind = explicit_kind source payload in
      if truthy kind then explicit_signal source kind payload else detect_in_context payload context
