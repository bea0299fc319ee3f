-- ===== src/Tools/Details.antt =====
-- app/tools/data_tools.py, `get_customer_detail_snapshot`: whose rows it shows.
use jb_wm_backend.Base.{String, arith, ◌≡◌, refl, List, [], ◌∷◌, All, Option-cases, inl, inr}
use jb_wm_backend.Json.{Fields}
use jb_wm_backend.Models.{InsurancePolicy}
use jb_wm_backend.Database.{Db, World}
use jb_wm_backend.Environment.{Env}
use jb_wm_backend.Tools.People.{objects, items_of, policies_of}
use jb_wm_backend.Tools.Context.{portfolios_of}
use jb_wm_backend.Tools.Isolation.{SameCustomer, holdings_of-same}
use jb_wm_backend.Tools.Snapshot.{
  policy_body, transactions_body, health_body, portfolio_body, detail_body,
  get_customer_detail_snapshot,
}

transactions_body-same :
    (c : String) (d e : Db) → SameCustomer c d e → transactions_body c d ≡ transactions_body c e
transactions_body-same c d e h = rw h.transactions refl

module _ (env : Env) where
  bodies-same :
      (d e : Db) (ps : List InsurancePolicy)
      → All (λ p. items_of d p ≡ items_of e p) ps
      → objects (policy_body env d) ps ≡ objects (policy_body env e) ps
  bodies-same d e [] h = refl
  bodies-same d e (p ∷ ps) h = rw (h.0, bodies-same d e ps h.1) refl

  health_body-same :
      (c : String) (d e : Db) → SameCustomer c d e → health_body env c d ≡ health_body env c e
  unfolding health_body
  health_body-same c d e h = rw (h.health_records, h.health_events, h.documents) refl

  portfolio_body-same :
      (c : String) (d e : Db) → SameCustomer c d e → portfolio_body env c d ≡ portfolio_body env c e
  unfolding portfolio_body
  portfolio_body-same c d e h =
      rw (← h.portfolios, holdings_of-same d e (portfolios_of c d) h.holdings) refl

  detail_body-same :
      (c : String) (ts : Fields) (d e : Db)
      → SameCustomer c d e
      → detail_body env c ts d ≡ detail_body env c ts e
  unfolding detail_body
  detail_body-same c ts d e h =
      rw
        (
          health_body-same c d e h,
          portfolio_body-same c d e h,
          ← h.policies,
          bodies-same d e (policies_of c d) h.coverages,
          h.balances,
          h.bills,
          h.loans,
          h.prechecks,
        )
        refl

  -- The detailed view of a customer shows that customer's rows only.
  pub get_customer_detail_snapshot-isolated :
      (c : String) (w v : World)
      → SameCustomer c w.working v.working
      → (get_customer_detail_snapshot env c w).0 ≡ (get_customer_detail_snapshot env c v).0
  unfolding get_customer_detail_snapshot
  get_customer_detail_snapshot-isolated c w v h =
      elim (Option-cases (transactions_body c w.working)) [
        | inl e ↦ ground (arith, transactions_body-same c w.working v.working h)
        | inr (ts, e) ↦ ground (
          arith,
          transactions_body-same c w.working v.working h,
          detail_body-same c ts w.working v.working h,
        )
      ]
