-- ===== src/Security/Access.antt =====
-- Whom the access checks let through.
use jb_wm_backend.Base.{String, Option, ◌≡◌, true, ◌↔◌, ◌⊎◌, none, some, arith, eq_iff}
use jb_wm_backend.Models.{customer, advisor, operator}
use jb_wm_backend.Database.{World, ok, err, http}
use jb_wm_backend.Security.{
  Principal, CustomerScope, equals?, require_customer_access, assert_scope_unchanged,
}

-- The principals who may act for a customer: staff, and the customer.
abbrev pub MayAct : Principal → String → Type 0
MayAct p c =
    ((p.role ≡ advisor) ⊎ (p.role ≡ operator)) ⊎ ((p.role ≡ customer) × (p.customer_id ≡ some c))

pub equals?_sound : (o : Option String) (c : String) → equals? o c ≡ true → o ≡ some c
equals?_sound none c h = cc
equals?_sound (some s) c h = ground (arith, eq_iff s c)

equals?_self : (o : Option String) (c : String) → o ≡ some c → equals? o c ≡ true
equals?_self none c h = cc
equals?_self (some s) c h = ground (arith, eq_iff s c)

-- The owner check passes exactly for staff and for the customer whose data it is.
pub require_customer_access_iff :
    (p : Principal) (c : String) (w : World)
    → (require_customer_access p c w ≡ (ok tt, w)) ↔ MayAct p c
unfolding require_customer_access
require_customer_access_iff p c w = (
  (λ h. ground (arith, equals?_sound p.customer_id c, equals?_self p.customer_id c)),
  (λ h. ground (arith, equals?_sound p.customer_id c, equals?_self p.customer_id c)),
)

-- A principal who may not act for the customer gets 403, and nothing changes.
pub require_customer_access_denied :
    (p : Principal) (c : String) (w : World)
    → ¬ MayAct p c
    → require_customer_access p c w ≡ (err (http 403), w)
unfolding require_customer_access
require_customer_access_denied p c w h = grind (arith, equals?_sound p.customer_id c)

-- The check of a scope passes exactly when all four parts are unchanged.
pub assert_scope_unchanged_iff :
    (s t : CustomerScope) (w : World) → (assert_scope_unchanged s t w ≡ (ok tt, w)) ↔ (t ≡ s)
unfolding assert_scope_unchanged
assert_scope_unchanged_iff s t w = (
  (λ h. ground (
    arith,
    eq_iff t.tenant_id s.tenant_id,
    eq_iff t.customer_id s.customer_id,
    eq_iff t.agent_session_id s.agent_session_id,
    eq_iff t.graph_thread_id s.graph_thread_id,
  )),
  (λ h. ground (
    arith,
    eq_iff t.tenant_id s.tenant_id,
    eq_iff t.customer_id s.customer_id,
    eq_iff t.agent_session_id s.agent_session_id,
    eq_iff t.graph_thread_id s.graph_thread_id,
  )),
)
