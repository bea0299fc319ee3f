-- ===== src/Signals/Laws.antt =====
-- app/signals/detectors.py: where a signal comes from, and what it says.
use jb_wm_backend.Base.{String, ◌≡◌, ◌≢◌, ◌⊎◌, true, false, some}
use jb_wm_backend.Integers.{ℤ, ◌+ℤ◌, ltb_ℤ, is_zero}
use jb_wm_backend.Json.{Json, Fields, Float}
use jb_wm_backend.Models.{SignalEnvelope, user_utterance, event, Severity}
use jb_wm_backend.Environment.{Env}
use jb_wm_backend.Signals.Kinds.{IsSeverity, Names}
use jb_wm_backend.Signals.{get_or_null, section, items, int_or_zero, float_or_zero, repayments}

module _ (env : Env) where
  -- A signal for a kind that the payload names: it carries the payload, its severity and its source.
  pub record IsNamed (source : String) (payload : Fields) (s : SignalEnvelope) : Type 0 where
    pub named : Names env source payload s.kind
    pub same_payload : s.payload ≡ payload
    pub graded : IsSeverity (get_or_null "severity" payload) s.severity
    pub from :
        ((source ≡ "user_utterance") × (s.source ≡ user_utterance))
        ⊎ ((source ≢ "user_utterance") × (s.source ≡ event))

  -- The weight of the risky holdings that the context shows.
  abbrev pub risky_weight : Fields → Json
  risky_weight context = get_or_null "high_risk_weight" (section "portfolio" context)

  -- The amounts that the context shows: cash, the card bill, and the loan payments of a month.
  pub record HasAmounts (context : Fields) (cash card repayment : ℤ) : Type 0 where
    pub has_cash :
        int_or_zero env (
          get_or_null "available_cash_krw"
            (section "liquidity_summary" (section "accounts" context)))
        ≡ some cash
    pub has_card :
        int_or_zero env (get_or_null "upcoming_card_payment_krw" (section "card_bills" context))
        ≡ some card
    pub has_repayment :
        repayments env (items (get_or_null "loans" (section "loans" context))) ≡ some repayment

  -- What the context alone shows: too many risky holdings, else payments above half of the cash, else
  -- nothing to act on.
  pub data Shows (payload context : Fields) (s : SignalEnvelope) : Type 0 where
    risky :
        (high : Float)
        → float_or_zero env (risky_weight context) ≡ some high
        → env.numbers.ge high (env.numbers.hundredths 65) ≡ true
        → s.kind ≡ "portfolio_loss"
        → s.severity ≡ Severity.high
        → Shows payload context s
    pressed :
        (high : Float) (cash card repayment : ℤ)
        → float_or_zero env (risky_weight context) ≡ some high
        → env.numbers.ge high (env.numbers.hundredths 65) ≡ false
        → HasAmounts context cash card repayment
        → is_zero cash ≡ false
        → ltb_ℤ cash ((card +ℤ repayment) +ℤ (card +ℤ repayment)) ≡ true
        → s.kind ≡ "upcoming_card_payment_pressure"
        → s.severity ≡ Severity.mid
        → Shows payload context s
    calm :
        (high : Float) (cash card repayment : ℤ)
        → float_or_zero env (risky_weight context) ≡ some high
        → env.numbers.ge high (env.numbers.hundredths 65) ≡ false
        → HasAmounts context cash card repayment
        → (is_zero cash ≡ true) ⊎ (ltb_ℤ cash ((card +ℤ repayment) +ℤ (card +ℤ repayment)) ≡ false)
        → s.kind ≡ "routine_check"
        → s.severity ≡ Severity.low
        → s.payload ≡ payload
        → Shows payload context s
