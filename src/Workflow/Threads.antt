-- ===== src/Workflow/Threads.antt =====
-- app/workflows/service.py: what the checks before a run of the graph let pass.
use jb_wm_backend.Base.{
  arith, ◌↔◌, ◌+◌, String, ◌≡◌, refl, ◌⊎◌, inl, inr, true, none, some, eq_iff, eq_refl, truthy,
  Bool-cases, Option-cases,
}
use jb_wm_backend.Models.{AgentThread, AgentSession, active, is_active}
use jb_wm_backend.Database.{Db, World, ok, err, http, view}
use jb_wm_backend.Database.Rows.{get_row, get_row-append}
use jb_wm_backend.Environment.{Env}
use jb_wm_backend.Security.{
  equals?, Principal, require_scope_access, require_customer_access, scope_digest,
}
use jb_wm_backend.Security.Access.{MayAct, equals?_sound, require_customer_access_iff}
use jb_wm_backend.Executor.{session_id}
use jb_wm_backend.Workflow.Service.{
  thread_key, scope_for, new_session, new_thread, open_thread, resolve_session, resolve_loaded,
  resolve_thread,
}

-- A thread that a principal may use, with its session.
pub record IsResolved (env : Env) (id : String) (principal : Principal) (d : Db) (t : AgentThread)
    (s : AgentSession) : Type 0 where
  pub found : get_row thread_key id d.threads ≡ some t
  pub is_open : t.status ≡ active
  pub allowed : MayAct principal t.customer_id
  pub in_session : get_row session_id t.agent_session_id d.sessions ≡ some s
  pub same_customer : s.customer_id ≡ t.customer_id
  pub same_scope : truthy t.scope_hash ≡ true → t.scope_hash ≡ scope_digest env (scope_for t)

access_cases :
    (p : Principal) (c : String) (w : World)
    → ((require_customer_access p c w ≡ (ok tt, w)) × MayAct p c)
      ⊎ (require_customer_access p c w ≡ (err (http 403), w))
unfolding require_customer_access
access_cases p c w = elim (Bool-cases (equals? p.customer_id c)) [
  | inl same ↦ ground (arith, equals?_sound p.customer_id c)
  | inr other ↦ ground arith
]

module _ (env : Env) where
  resolve_session_same : (t : AgentThread) (w : World) → (resolve_session env t w).1 ≡ w
  unfolding resolve_session
  resolve_session_same t w = ground arith

  resolve_session_checks :
      (t : AgentThread) (w w' : World) (s : AgentSession)
      → resolve_session env t w ≡ (ok s, w')
      → (w' ≡ w)
        × (get_row session_id t.agent_session_id w.working.sessions ≡ some s)
        × (s.customer_id ≡ t.customer_id)
        × (truthy t.scope_hash ≡ true → t.scope_hash ≡ scope_digest env (scope_for t))
  unfolding resolve_session
  resolve_session_checks t w w' s run =
      elim (Option-cases (get_row session_id t.agent_session_id w.working.sessions)) [
        | inl missing ↦ absurd (ground arith)
        | inr (x, found) ↦ (
          ground arith,
          ground arith,
          ground (arith, eq_iff x.customer_id t.customer_id),
          λ hashed. ground (arith, eq_iff t.scope_hash (scope_digest env (scope_for t))),
        )
      ]

  resolve_loaded_checks :
      (x t : AgentThread) (principal : Principal) (w w' : World) (s : AgentSession)
      → resolve_loaded env x principal w ≡ (ok (t, s), w')
      → (x ≡ t)
        × (x.status ≡ active)
        × MayAct principal x.customer_id
        × (resolve_session env x w ≡ (ok s, w'))
  unfolding resolve_loaded require_scope_access
  resolve_loaded_checks x t principal w w' s run = elim (Bool-cases (is_active x.status)) [
    | inr idle ↦ absurd (ground arith)
    | inl busy ↦ elim (access_cases principal x.customer_id w) [
      | inr denied ↦ absurd (ground arith)
      | inl (passed, may) ↦
          let same : x ≡ t = ground arith in
          let inner : resolve_session env x w ≡ (ok s, w') = ground arith in
          (same, ground arith, may, inner)
    ]
  ]

  -- If a thread resolves, it is stored and active, the principal may act for its customer, its session is
  -- stored and belongs to that customer, its hash, where it has one, is that of its scope, and nothing
  -- has changed.
  pub resolve_thread-IsResolved :
      (id : String) (principal : Principal) (w w' : World) (t : AgentThread) (s : AgentSession)
      → resolve_thread env id principal w ≡ (ok (t, s), w')
      → (w' ≡ w) × IsResolved env id principal w.working t s
  unfolding resolve_thread
  resolve_thread-IsResolved id principal w w' t s run =
      elim (Option-cases (get_row thread_key id w.working.threads)) [
        | inl missing ↦ absurd (ground arith)
        | inr (x, found) ↦
            let (same, opened, may, inner) =
              resolve_loaded_checks x t principal w w' s (rw found at run) in
            let (unchanged, in_session, own, scoped) = resolve_session_checks x w w' s inner in
            (
              unchanged,
              record {
                found = rw same at found;
                is_open = rw same at opened;
                allowed = rw same at may;
                in_session = rw same at in_session;
                same_customer = rw same at own;
                same_scope = rw same at scoped;
              },
            )
      ]

  resolve_loaded_same :
      (x : AgentThread) (principal : Principal) (w : World)
      → (resolve_loaded env x principal w).1 ≡ w
  unfolding resolve_loaded require_scope_access
  resolve_loaded_same x principal w = elim (Bool-cases (is_active x.status)) [
    | inr idle ↦ ground arith
    | inl busy ↦ elim (access_cases principal x.customer_id w) [
      | inr denied ↦ ground arith
      | inl (passed, may) ↦ ground (arith, resolve_session_same x w)
    ]
  ]

  pub resolve_thread_same :
      (id : String) (principal : Principal) (w : World) → (resolve_thread env id principal w).1 ≡ w
  unfolding resolve_thread
  resolve_thread_same id principal w =
      elim (Option-cases (get_row thread_key id w.working.threads)) [
        | inl missing ↦ ground arith
        | inr (x, found) ↦ ground (arith, resolve_loaded_same x principal w)
      ]

module _ (env : Env) where
  open_thread-IsResolved :
      (customer_id : String) (principal : Principal) (w : World)
      → MayAct principal customer_id
      → get_row session_id (env.new_uuid w.ticks) w.working.sessions ≡ none
      → get_row thread_key (env.new_uuid (w.ticks + 1)) w.working.threads ≡ none
      → IsResolved env
          (env.new_uuid (w.ticks + 1))
          principal
          (view (open_thread env customer_id principal w))
          (new_thread env customer_id principal (env.new_uuid w.ticks) (w.ticks + 1))
          (new_session env customer_id w.ticks)
  unfolding open_thread
  open_thread-IsResolved customer_id principal w may new_session_id new_thread_id =
      let sid = env.new_uuid w.ticks in
      let tid = env.new_uuid (w.ticks + 1) in
      record {
        found = ground (
          arith,
          eq_refl tid,
          get_row-append thread_key tid w.working.threads
              (new_thread env customer_id principal sid (w.ticks + 1)),
        );
        is_open = refl;
        allowed = may;
        in_session = ground (
          arith,
          eq_refl sid,
          get_row-append session_id sid w.working.sessions (new_session env customer_id w.ticks),
        );
        same_customer = refl;
        same_scope = λ hashed. refl;
      }

  session_resolves :
      (t : AgentThread) (s : AgentSession) (w : World)
      → get_row session_id t.agent_session_id w.working.sessions ≡ some s
      → s.customer_id ≡ t.customer_id
      → (truthy t.scope_hash ≡ true → t.scope_hash ≡ scope_digest env (scope_for t))
      → resolve_session env t w ≡ (ok s, w)
  unfolding resolve_session
  session_resolves t s w found own scoped = elim (Bool-cases (truthy t.scope_hash)) [
    | inl hashed ↦ ground (
      arith,
      eq_iff s.customer_id t.customer_id,
      eq_iff t.scope_hash (scope_digest env (scope_for t)),
      scoped hashed,
    )
    | inr plain ↦ ground (arith, eq_iff s.customer_id t.customer_id)
  ]

  loaded_resolves :
      (id : String) (principal : Principal) (t : AgentThread) (s : AgentSession) (w : World)
      → IsResolved env id principal w.working t s
      → resolve_loaded env t principal w ≡ (ok (t, s), w)
  unfolding resolve_loaded require_scope_access
  loaded_resolves id principal t s w r =
      let passed = (require_customer_access_iff principal t.customer_id w).1 r.allowed in
      let busy : is_active t.status ≡ true = rw r.is_open refl in
      let inner = session_resolves t s w r.in_session r.same_customer r.same_scope in ground arith

  -- `resolve_thread` answers with a thread and its session exactly if the thread is stored and active, the
  -- principal may act for its customer, the session is stored and belongs to that customer, and the
  -- thread's hash, where it has one, is that of its scope.
  pub resolve_thread_iff :
      (id : String) (principal : Principal) (t : AgentThread) (s : AgentSession) (w : World)
      → (resolve_thread env id principal w ≡ (ok (t, s), w))
        ↔ IsResolved env id principal w.working t s
  unfolding resolve_thread
  resolve_thread_iff id principal t s w = (
    (λ run. (resolve_thread-IsResolved env id principal w w t s run).1),
    (λ r. let found = r.found in let inner = loaded_resolves id principal t s w r in ground arith),
  )

  -- A thread that was just opened resolves for every principal who may act for the customer, if its
  -- identifier and that of its session were not in use.
  pub resolve_thread-open_thread :
      (customer_id : String) (principal : Principal) (w : World)
      → MayAct principal customer_id
      → get_row session_id (env.new_uuid w.ticks) w.working.sessions ≡ none
      → get_row thread_key (env.new_uuid (w.ticks + 1)) w.working.threads ≡ none
      → resolve_thread env
          (env.new_uuid (w.ticks + 1))
          principal
          (open_thread env customer_id principal w).1
        ≡ (
          ok (
            new_thread env customer_id principal (env.new_uuid w.ticks) (w.ticks + 1),
            new_session env customer_id w.ticks,
          ),
          (open_thread env customer_id principal w).1,
        )
  resolve_thread-open_thread customer_id principal w may sid tid =
      (resolve_thread_iff (env.new_uuid (w.ticks + 1)) principal
          (new_thread env customer_id principal (env.new_uuid w.ticks) (w.ticks + 1))
          (new_session env customer_id w.ticks) (open_thread env customer_id principal w).1).1
        (open_thread-IsResolved customer_id principal w may sid tid)
