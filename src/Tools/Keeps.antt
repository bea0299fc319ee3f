-- ===== src/Tools/Keeps.antt =====
-- app/tools/data_tools.py: the context is read, and nothing is written.
use jb_wm_backend.Base.{ℕ, String, Option, none, some}
use jb_wm_backend.Database.{Db, Exec}
use jb_wm_backend.Database.Keeps.{Keeps, keeps_rules}
use jb_wm_backend.Environment.{Env}
use jb_wm_backend.Tools.Money.{default_to, get_account_transactions}
use jb_wm_backend.Tools.Context.{bundle_from, build_context}

module _ (env : Env) {P : Db → Type 0} where
  default_to-Keeps : (o : Option ℕ) (m : Exec ℕ) → Keeps P m → Keeps P (default_to env o m)
  default_to-Keeps none m h = h
  default_to-Keeps (some d) m h = search keeps_rules

  transactions-Keeps :
      (c : String) (from to : Option ℕ) → Keeps P (get_account_transactions env c from to)
  unfolding get_account_transactions
  transactions-Keeps c from to = search (keeps_rules, default_to-Keeps) depth 20

  pub context-Keeps : (c : String) → Keeps P (build_context env c)
  unfolding build_context bundle_from
  context-Keeps c = search (keeps_rules, transactions-Keeps) depth 20
