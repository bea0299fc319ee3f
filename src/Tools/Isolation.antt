-- ===== src/Tools/Isolation.antt =====
-- app/tools/data_tools.py: whose rows reach the context of a customer.
use jb_wm_backend.Base.{
  arith, ◌+◌, ◌-◌, if◌then◌else◌, String, leb, Option-cases, inl, inr, ◌≡◌, refl, ap, ◌∙◌, none,
  List, [], ◌∷◌, ◌==◌, where_all, All,
}
use jb_wm_backend.Json.{Fields}
use jb_wm_backend.Models.{
  HealthRecord, HealthEvent, MedicalDocument, InsurancePolicy, AssetEvent, PortfolioAccount,
  Holding,
}
use jb_wm_backend.Database.{Db, World, Result, ok, err, exception, ◌>>=◌}
use jb_wm_backend.Database.Rows.{get_row}
use jb_wm_backend.Environment.{Env}
use jb_wm_backend.Tools.People.{
  objects, customer_key, memory_key, items_of, policies_of, policy_dict, covered_types,
  get_customer_profile, get_health_data, get_insurance_summary, get_customer_memory,
  get_asset_events, get_population_stat,
}
use jb_wm_backend.Tools.Money.{
  balances_of, transactions_of, holdings_of, monthly_outflow_krw, get_account_balances,
  transactions_dict, rows_between, get_account_transactions,
}
use jb_wm_backend.Tools.Cards.{bills_of, get_card_bills}
use jb_wm_backend.Tools.Context.{
  loans_of, prechecks_of, portfolios_of, get_loan_status, get_loan_switch_precheck, age_band_of,
  get_portfolio_summary, bundle, bundle_from, build_context,
}

-- Two databases hold the same rows of a customer: the rows that carry the customer's identifier,
-- the parts of the customer's policies and portfolios, and the public statistics.
pub record SameCustomer (c : String) (d e : Db) : Type 0 where
  pub profile : get_row customer_key c d.customers ≡ get_row customer_key c e.customers
  pub memory : get_row memory_key c d.memories ≡ get_row memory_key c e.memories
  pub health_records :
      where_all (λ (r : HealthRecord). r.customer_id == c) d.health_records
      ≡ where_all (λ (r : HealthRecord). r.customer_id == c) e.health_records
  pub health_events :
      where_all (λ (r : HealthEvent). r.customer_id == c) d.health_events
      ≡ where_all (λ (r : HealthEvent). r.customer_id == c) e.health_events
  pub documents :
      where_all (λ (r : MedicalDocument). r.customer_id == c) d.medical_documents
      ≡ where_all (λ (r : MedicalDocument). r.customer_id == c) e.medical_documents
  pub policies : policies_of c d ≡ policies_of c e
  pub coverages : All (λ p. items_of d p ≡ items_of e p) (policies_of c d)
  pub balances : balances_of c d ≡ balances_of c e
  pub transactions : transactions_of c d ≡ transactions_of c e
  pub bills : bills_of c d ≡ bills_of c e
  pub loans : loans_of c d ≡ loans_of c e
  pub prechecks : prechecks_of c d ≡ prechecks_of c e
  pub portfolios : portfolios_of c d ≡ portfolios_of c e
  pub holdings :
      All
        (λ (a : PortfolioAccount).
          where_all (λ (h : Holding). h.account_id == a.id) d.holdings
          ≡ where_all (λ (h : Holding). h.account_id == a.id) e.holdings)
        (portfolios_of c d)
  pub asset_events :
      where_all (λ (r : AssetEvent). r.customer_id == c) d.asset_events
      ≡ where_all (λ (r : AssetEvent). r.customer_id == c) e.asset_events
  pub statistics : d.population_stats ≡ e.population_stats

pub objects_cong {ℓ} :
    {A : Type ℓ} (f g : A → Fields) (xs : List A)
    → All (λ a. f a ≡ g a) xs
    → objects f xs ≡ objects g xs
objects_cong f g [] h = refl
objects_cong f g (x ∷ xs) h = rw (h.0, objects_cong f g xs h.1) refl

pub holdings_of-same :
    (d e : Db) (accts : List PortfolioAccount)
    → All
        (λ (a : PortfolioAccount).
          where_all (λ (h : Holding). h.account_id == a.id) d.holdings
          ≡ where_all (λ (h : Holding). h.account_id == a.id) e.holdings)
        accts
    → holdings_of d accts ≡ holdings_of e accts
unfolding holdings_of
holdings_of-same d e [] h = refl
holdings_of-same d e (a ∷ accts) h = rw (h.0, holdings_of-same d e accts h.1) refl

covered_types-same :
    (d e : Db) (ps : List InsurancePolicy)
    → All (λ p. items_of d p ≡ items_of e p) ps
    → covered_types d ps ≡ covered_types e ps
unfolding covered_types
covered_types-same d e [] h = refl
covered_types-same d e (p ∷ ps) h = rw (h.0, covered_types-same d e ps h.1) refl

module _ (env : Env) where
  policy_dicts-same :
      (d e : Db) (ps : List InsurancePolicy)
      → All (λ p. items_of d p ≡ items_of e p) ps
      → objects (policy_dict env d) ps ≡ objects (policy_dict env e) ps
  policy_dicts-same d e [] h = refl
  policy_dicts-same d e (p ∷ ps) h = rw (h.0, policy_dicts-same d e ps h.1) refl

  -- What a read of the transactions returns, with the ends of the window read from the clock.
  pub get_account_transactions_run :
      (c : String) (w : World)
      → (get_account_transactions env c none none w).0 ≡ (
          if leb (env.today w.ticks) 90
          then err (exception "OverflowError")
          else ok (
              transactions_dict env c
                (rows_between (env.today w.ticks - 90) (env.today (w.ticks + 1)) c w.working)
                w.working))
  unfolding get_account_transactions
  get_account_transactions_run c w = ground arith

  -- The read leaves the tables alone.
  get_account_transactions_view :
      (c : String) (w : World) → (get_account_transactions env c none none w).1.working ≡ w.working
  unfolding get_account_transactions
  get_account_transactions_view c w = ground arith

  pub transactions-same :
      (c : String) (w v : World)
      → w.ticks ≡ v.ticks
      → transactions_of c w.working ≡ transactions_of c v.working
      → (get_account_transactions env c none none w).0
        ≡ (get_account_transactions env c none none v).0
  unfolding transactions_dict monthly_outflow_krw
  transactions-same c w v e h =
      rw (get_account_transactions_run c w, get_account_transactions_run c v, e, h) refl

  module _ (c : String) (d e : Db) (h : SameCustomer c d e) where
    pub profile-same : get_customer_profile c d ≡ get_customer_profile c e
    unfolding get_customer_profile
    profile-same = rw (get_customer_profile, h.profile) refl

    pub memory-same : get_customer_memory env c d ≡ get_customer_memory env c e
    unfolding get_customer_memory
    memory-same = rw (get_customer_memory, h.memory) refl

    pub health-same : get_health_data env c d ≡ get_health_data env c e
    unfolding get_health_data
    health-same = rw (h.health_records, h.health_events, h.documents) refl

    pub insurance-same : get_insurance_summary env c d ≡ get_insurance_summary env c e
    unfolding get_insurance_summary
    insurance-same =
        rw
          (
            ← h.policies,
            policy_dicts-same d e (policies_of c d) h.coverages,
            covered_types-same d e (policies_of c d) h.coverages,
          )
          refl

    pub balances-same : get_account_balances env c d ≡ get_account_balances env c e
    unfolding get_account_balances monthly_outflow_krw
    balances-same = rw (h.balances, h.transactions) refl

    pub bills-same : get_card_bills env c d ≡ get_card_bills env c e
    unfolding get_card_bills
    bills-same = rw h.bills refl

    pub loans-same : get_loan_status env c d ≡ get_loan_status env c e
    unfolding get_loan_status
    loans-same = rw h.loans refl

    pub precheck-same :
        get_loan_switch_precheck env c none d ≡ get_loan_switch_precheck env c none e
    unfolding get_loan_switch_precheck
    precheck-same = rw (get_loan_switch_precheck, h.prechecks) refl

    pub portfolio-same : get_portfolio_summary env c d ≡ get_portfolio_summary env c e
    unfolding get_portfolio_summary
    portfolio-same = rw (← h.portfolios, holdings_of-same d e (portfolios_of c d) h.holdings) refl

    events-same : get_asset_events c d ≡ get_asset_events c e
    unfolding get_asset_events
    events-same = rw h.asset_events refl

    stat-same :
        (band metric : String)
        → get_population_stat band metric d ≡ get_population_stat band metric e
    unfolding get_population_stat
    stat-same band metric = rw h.statistics refl

    bundle-same : (ts bs : Fields) → bundle env c ts bs d ≡ bundle env c ts bs e
    unfolding bundle
    bundle-same ts bs =
        rw
          (
            profile-same,
            health-same,
            insurance-same,
            balances-same,
            loans-same,
            precheck-same,
            portfolio-same,
            events-same,
            memory-same,
            stat-same (age_band_of (get_customer_profile c e)) "avg_net_assets",
            stat-same (age_band_of (get_customer_profile c e)) "avg_emergency_fund_months",
            stat-same (age_band_of (get_customer_profile c e)) "cardio_prevalence",
          )
          refl

  view-same :
      (c : String) (w v : World)
      → SameCustomer c w.working v.working
      → SameCustomer c
          (get_account_transactions env c none none w).1.working
          (get_account_transactions env c none none v).1.working
  view-same c w v h = rw (get_account_transactions_view c w, get_account_transactions_view c v) h

  bundle_from-same :
      (c : String) (ts : Fields) (w v : World)
      → SameCustomer c w.working v.working
      → (bundle_from env c ts w).0 ≡ (bundle_from env c ts v).0
  unfolding bundle_from
  bundle_from-same c ts w v h = elim (Option-cases (get_card_bills env c w.working)) [
    | inl e ↦ ground (arith, bills-same c w.working v.working h)
    | inr (bs, e) ↦
        ground
          (arith, bills-same c w.working v.working h, bundle-same c w.working v.working h ts bs)
  ]

  bundled-same :
      (c : String) (r : Result Fields) (w v : World)
      → SameCustomer c w.working v.working
      → (((λ (x : World). (r, w)) >>= bundle_from env c) w).0
        ≡ (((λ (x : World). (r, v)) >>= bundle_from env c) v).0
  bundled-same c (ok ts) w v h = bundle_from-same c ts w v h
  bundled-same c (err e) w v h = refl

  -- Every customer's context is built from that customer's rows, the parts of the customer's
  -- policies and portfolios, and the public statistics: two databases that agree on these give the
  -- same outcome at the same readings of the clock, whatever other rows they hold.
  pub build_context-isolated :
      (c : String) (w v : World)
      → w.ticks ≡ v.ticks
      → SameCustomer c w.working v.working
      → (build_context env c w).0 ≡ (build_context env c v).0
  unfolding build_context
  build_context-isolated c w v e h =
      let (out, w') = get_account_transactions env c none none w in
      let (out', v') = get_account_transactions env c none none v in
      let same = bundled-same c out w' v' (view-same c w v h) in
      same
      ∙ ap (λ r. (((λ (x : World). (r, v')) >>= bundle_from env c) v').0)
          (transactions-same c w v e h.transactions)
