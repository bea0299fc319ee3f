-- ===== src/Tools/Cards.antt =====
-- app/tools/data_tools.py: card bills. The details of a bill are dictionaries from outside, so that
-- their sum can raise.
use jb_wm_backend.Base.{
  String, Bool, false, Option, none, some, List, [], ◌∷◌, ◌==◌, if◌then◌else◌, where_all, map,
}
use jb_wm_backend.Json.{Json, int, str, arr, obj, Items, nil, item, Fields, dict, get, ℤ, pos}
use jb_wm_backend.Integers.{◌+ℤ◌}
use jb_wm_backend.Models.{CardBill}
use jb_wm_backend.Database.{Db}
use jb_wm_backend.Environment.{Env}
use jb_wm_backend.Tools.People.{opt_date}
use jb_wm_backend.Tools.Money.{sum_int, whole}

abbrev pub bills_of : String → Db → List CardBill
bills_of customer_id db = where_all (λ (b : CardBill). b.customer_id == customer_id) db.card_bills

-- `item.get(key) == text`
abbrev pub has_text : String → String → Fields → Bool
has_text key text fs = elim (get key fs) [ some (str s) ↦ s == text | _ ↦ false ]

-- `item.get(key, default)`
abbrev pub get_or : Json → String → Fields → Json
get_or d key fs = elim (get key fs) [ none ↦ d | some v ↦ v ]

module _ (env : Env) where
  -- `a + b`
  abbrev pub add_json : Json → Json → Option Json
  add_json (int a) (int b) = some (int (a +ℤ b))
  add_json a b = env.numbers.plus a b

  -- The sum over the medical items of a bill, absent where Python raises.
  unfoldable pub sum_medical : List Fields → Json → Option Json
  unfolding get
  sum_medical [] total = some total
  sum_medical (d ∷ ds) total =
      if has_text "category_hint" "medical" d
      then elim (add_json total (get_or (int (pos 0)) "amount_krw" d)) [
        | none ↦ none
        | some total' ↦ sum_medical ds total'
      ]
      else sum_medical ds total

  -- `int(v)` of a sum
  abbrev pub int_of : Json → Option ℤ
  int_of (int n) = some n
  int_of v = env.numbers.to_int v

  -- `int(sum(...))` over a bill
  abbrev pub medical_charge : CardBill → Option ℤ
  medical_charge b = elim (sum_medical b.details (int (pos 0))) [
    | none ↦ none
    | some total ↦ int_of total
  ]

  abbrev bill_dict : CardBill → ℤ → Fields
  bill_dict b medical = dict (
      ("card_name", str b.card_name)
      ∷ ("charge_month", str b.charge_month)
      ∷ ("charge_krw", whole env b.charge_krw)
      ∷ ("settlement_date", opt_date env b.settlement_date)
      ∷ ("medical_charge_krw", int medical)
      ∷ [])

  unfoldable pub bill_items : List CardBill → Option Items
  unfolding sum_medical
  bill_items [] = some nil
  bill_items (b ∷ bs) =
      let rest = bill_items bs in
      elim (medical_charge b) [
        | none ↦ none
        | some medical ↦ elim rest [
          | none ↦ none
          | some bs' ↦ some (item (obj (bill_dict b medical)) bs')
        ]
      ]

  -- The dictionary of `get_card_bills`, from the bills.
  unfoldable pub bills_summary : List CardBill → Option Fields
  unfolding bill_items
  bills_summary bills = elim (bill_items bills) [
    | none ↦ none
    | some bs ↦ some (
        dict (
          ("bills", arr bs)
          ∷ (
            "upcoming_card_payment_krw",
            int (sum_int env (map (λ (b : CardBill). env.numbers.float_of_dec b.charge_krw) bills)),
          )
          ∷ []))
  ]

  -- `get_card_bills`, absent where Python raises a `TypeError` or `ValueError`
  unfoldable pub get_card_bills : String → Db → Option Fields
  unfolding bills_summary
  get_card_bills customer_id db = bills_summary (bills_of customer_id db)
