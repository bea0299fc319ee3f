-- ===== src/Security.antt =====
-- app/core/auth.py and app/security/scope.py: who may act for which customer, and the customer
-- namespace of a workflow run.
pub mod Access
use jb_wm_backend.Base.{
  ℕ, String, Bool, true, false, ◌&&◌, ◌||◌, Option, none, some, List, [], ◌∷◌, ◌==◌, if◌then◌else◌,
}
use jb_wm_backend.Models.{Role, customer, advisor, operator}
use jb_wm_backend.Environment.{Env}
use jb_wm_backend.Database.{Error, http, Exec, pure, raise}

-- `Principal`
pub record Principal : Type 0 where
  pub subject : String
  pub role : Role
  pub customer_id : Option String

abbrev is_customer : Role → Bool
is_customer customer = true
is_customer _ = false

abbrev is_staff : Role → Bool
is_staff advisor = true
is_staff operator = true
is_staff _ = false

abbrev is_operator : Role → Bool
is_operator operator = true
is_operator _ = false

-- `optional == text`
abbrev pub equals? : Option String → String → Bool
equals? none t = false
equals? (some s) t = s == t

-- `require_customer_access`
unfoldable pub require_customer_access : Principal → String → Exec (Unit {0})
require_customer_access principal customer_id =
    if is_staff principal.role
    then pure tt
    else if is_customer principal.role && equals? principal.customer_id customer_id
    then pure tt
    else raise (http 403)

-- `require_operator`
unfoldable pub require_operator : Principal → Exec (Unit {0})
require_operator principal = if is_operator principal.role then pure tt else raise (http 403)

-- `CustomerScope`
pub record CustomerScope : Type 0 where
  pub tenant_id : String
  pub customer_id : String
  pub agent_session_id : String
  pub graph_thread_id : String

-- `CustomerScope.as_dict`
abbrev pub as_dict : CustomerScope → List (String × String)
as_dict s =
    ("tenant_id", s.tenant_id)
    ∷ ("customer_id", s.customer_id)
    ∷ ("agent_session_id", s.agent_session_id)
    ∷ ("graph_thread_id", s.graph_thread_id)
    ∷ []

-- `require_scope_access`
unfoldable pub require_scope_access : Principal → String → Exec (Unit {0})
unfolding require_customer_access
require_scope_access principal customer_id = require_customer_access principal customer_id

-- `scope_digest`
unfoldable pub scope_digest : Env → CustomerScope → String
scope_digest env scope = env.sha256_texts (as_dict scope)

-- `assert_scope_unchanged`, against another scope.
unfoldable pub assert_scope_unchanged : CustomerScope → CustomerScope → Exec (Unit {0})
assert_scope_unchanged expected actual =
    if actual.tenant_id == expected.tenant_id
      && actual.customer_id == expected.customer_id
      && actual.agent_session_id == expected.agent_session_id
      && actual.graph_thread_id == expected.graph_thread_id
    then pure tt
    else raise (http 403)
