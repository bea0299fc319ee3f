-- ===== src/Tools/Money.antt =====
-- app/tools/data_tools.py: accounts, transactions, card bills, loans and the portfolio. A day is
-- the number of a day since the first that Python has, a time the microseconds since its start.
use jb_wm_backend.Base.{
  ℕ, ◌/◌, ◌-◌, String, Bool, ◌&&◌, ◌||◌, Option, none, some, List, [], ◌∷◌, ◌++◌, ◌==◌,
  if◌then◌else◌, leb, length, where_all, newest_first, take, map,
}
use jb_wm_backend.Json.{Json, null, int, float, str, arr, obj, Fields, dict, Float, Decimal, ℤ, pos}
use jb_wm_backend.Models.{AccountBalance, AccountTransaction, PortfolioAccount, Holding}
use jb_wm_backend.Database.{Db, exception, Exec, pure, gets, raise_if, tick, ◌>>=◌, ◌>>◌}
use jb_wm_backend.Environment.{Env}
use jb_wm_backend.Tools.People.{objects, opt_date}

-- `r.transacted_at.date()`
abbrev pub day_of : ℕ → ℕ
day_of time = time / 86400000000

-- The account kinds that count as cash.
abbrev pub is_cash : AccountBalance → Bool
is_cash a = a.account_type == "checking" || a.account_type == "deposit"

abbrev pub is_outflow : AccountTransaction → Bool
is_outflow r = r.direction == "out"

abbrev pub is_spent_on : String → AccountTransaction → Bool
is_spent_on hint r = r.direction == "out" && r.category_hint == hint

abbrev pub is_high_risk : Holding → Bool
is_high_risk h = h.risk_grade == "high"

-- The rows of one customer.
abbrev pub balances_of : String → Db → List AccountBalance
balances_of customer_id db =
    where_all (λ (a : AccountBalance). a.customer_id == customer_id) db.balances

abbrev pub transactions_of : String → Db → List AccountTransaction
transactions_of customer_id db =
    where_all (λ (r : AccountTransaction). r.customer_id == customer_id) db.transactions

-- The holdings of the accounts, account by account.
unfoldable pub holdings_of : Db → List PortfolioAccount → List Holding
holdings_of db [] = []
holdings_of db (a ∷ accts) =
    where_all (λ (h : Holding). h.account_id == a.id) db.holdings ++ holdings_of db accts

-- The rows of the window, the newest first.
abbrev pub rows_between : ℕ → ℕ → String → Db → List AccountTransaction
rows_between from_date to_date customer_id db =
    where_all (λ r. leb from_date (day_of r.transacted_at) && leb (day_of r.transacted_at) to_date)
      (newest_first (λ (r : AccountTransaction). r.transacted_at) (transactions_of customer_id db))

module _ (env : Env) where
  -- `sum(xs)` of floats, as a value and as a number: the empty sum is the integer 0.
  abbrev pub sum_json : List Float → Json
  sum_json [] = int (pos 0)
  sum_json (x ∷ xs) = float (env.numbers.sum (x ∷ xs))

  abbrev pub sum_float : List Float → Float
  sum_float [] = env.numbers.of_int (pos 0)
  sum_float (x ∷ xs) = env.numbers.sum (x ∷ xs)

  -- `int(sum(xs))`
  abbrev pub sum_int : List Float → ℤ
  sum_int [] = pos 0
  sum_int (x ∷ xs) = env.numbers.trunc (env.numbers.sum (x ∷ xs))

  abbrev pub amounts : List AccountTransaction → List Float
  amounts rows = map (λ (r : AccountTransaction). env.numbers.float_of_dec r.amount_krw) rows

  -- `int(x)` of a decimal, as a value
  abbrev pub whole : Decimal → Json
  whole x = int (env.numbers.int_of_dec x)

  -- `outflow / 3 if rows else 0.0`
  abbrev pub third_of : List AccountTransaction → Float
  third_of [] = env.numbers.hundredths 0
  third_of (r ∷ rows) = env.numbers.div (sum_float (amounts (where_all is_outflow (r ∷ rows)))) 3

  abbrev or_query :
      Option (List AccountTransaction) → List AccountTransaction → List AccountTransaction
  or_query none queried = queried
  or_query (some rows) queried = rows

  -- `_monthly_outflow_krw`
  unfoldable pub monthly_outflow_krw : String → Option (List AccountTransaction) → Db → Float
  monthly_outflow_krw customer_id rows db =
      third_of (or_query rows (transactions_of customer_id db))

  abbrev pub balance_dict : AccountBalance → Fields
  balance_dict a = dict (
      ("account_id", str a.id)
      ∷ ("bank_name", str a.bank_name)
      ∷ ("product_name", str a.product_name)
      ∷ ("account_type", str a.account_type)
      ∷ ("balance_krw", whole a.balance_krw)
      ∷ ("available_krw", whole a.available_krw)
      ∷ ("last_transaction_on", opt_date env a.last_transaction_on)
      ∷ [])

  abbrev pub emergency_months : Float → Float → Json
  emergency_months cash outflow =
      if env.numbers.nonzero outflow then float (env.numbers.ratio cash outflow) else null

  -- `get_account_balances`
  unfoldable pub get_account_balances : String → Db → Fields
  unfolding monthly_outflow_krw
  get_account_balances customer_id db =
      let accounts = balances_of customer_id db in
      let cash =
        map (λ (a : AccountBalance). env.numbers.float_of_dec a.available_krw)
          (where_all is_cash accounts) in
      let monthly_outflow = monthly_outflow_krw customer_id none db in
      dict (
        ("accounts", arr (objects balance_dict accounts))
        ∷ (
          "liquidity_summary",
          obj (
              dict (
                ("available_cash_krw", int (sum_int cash))
                ∷ ("emergency_fund_months", emergency_months (sum_float cash) monthly_outflow)
                ∷ [])),
        )
        ∷ [])

  abbrev pub transaction_dict : AccountTransaction → Fields
  transaction_dict r = dict (
      ("transacted_at", str (env.isoformat r.transacted_at))
      ∷ ("direction", str r.direction)
      ∷ ("description", str r.description)
      ∷ ("amount_krw", whole r.amount_krw)
      ∷ ("category_hint", str r.category_hint)
      ∷ [])

  -- The dictionary of `get_account_transactions`, from the rows of the window.
  unfoldable pub transactions_dict : String → List AccountTransaction → Db → Fields
  unfolding monthly_outflow_krw
  transactions_dict customer_id rows db = dict (
      ("transactions", arr (objects transaction_dict (take 30 rows)))
      ∷ (
        "spending_summary",
        obj (
            dict (
              (
                "monthly_outflow_krw",
                int (env.numbers.trunc (monthly_outflow_krw customer_id (some rows) db)),
              )
              ∷ (
                "medical_spending_krw",
                int (sum_int (amounts (where_all (is_spent_on "medical") rows))),
              )
              ∷ (
                "fixed_cost_krw",
                int (sum_int (amounts (where_all (is_spent_on "fixed_cost") rows))),
              )
              ∷ ("record_count", int (pos (length rows)))
              ∷ [])),
      )
      ∷ [])

  -- `date.today() - timedelta(days=90)`, which raises before the first day that Python has.
  abbrev pub ninety_days_ago : Exec ℕ
  ninety_days_ago = do
    t ← tick
    raise_if (leb (env.today t) 90) (exception "OverflowError")
    pure (env.today t - 90)

  abbrev pub default_to : Option ℕ → Exec ℕ → Exec ℕ
  default_to none m = m
  default_to (some d) m = pure d

  -- `get_account_transactions`
  unfoldable pub get_account_transactions : String → Option ℕ → Option ℕ → Exec Fields
  unfolding transactions_dict
  get_account_transactions customer_id from_date to_date = do
    from_day ← default_to from_date ninety_days_ago
    to_day ← default_to to_date (tick >>= λ t. pure (env.today t))
    gets (λ db. transactions_dict customer_id (rows_between from_day to_day customer_id db) db)
