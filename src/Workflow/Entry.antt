-- ===== src/Workflow/Entry.antt =====
-- app/workflows/service.py: what the checks of `trigger_event` and `submit_decision` let pass.
use jb_wm_backend.Base.{
  arith, String, ◌≡◌, ◌≢◌, refl, inl, inr, Option, some, eq_iff, or_text, Option-cases,
}
use jb_wm_backend.Json.{Fields}
use jb_wm_backend.Models.{AgentThread, AgentSession, monitoring, user_approval}
use jb_wm_backend.Database.{World, Result, ok, err, Exec, ◌>>=◌}
use jb_wm_backend.Environment.{Env}
use jb_wm_backend.Security.{Principal}
use jb_wm_backend.Workflow.Service.{
  resolve_thread, Graph, start_run, trigger_event, checked_decision, resume_run, submit_decision,
  or_empty,
}
use jb_wm_backend.Workflow.Threads.{IsResolved, resolve_thread_same, resolve_thread-IsResolved}

-- A pure check that a change of the world has passed.
passes :
    {A B : Type 0} (r : Result A) (f : A → Exec B) (v w : World)
    → v ≡ w
    → (((λ (x : World). (r, v)) >>= f) w).1 ≢ w
    → (a : A) × (r ≡ ok a) × ((f a w).1 ≢ w)
passes (err e) f v w same changed = absurd (changed same)
passes (ok a) f v w same changed = (a, refl, rw same at changed)

-- The check is passed, on the session that the thread resolves to.
abbrev pub Admits : Env → String → Principal → World → (AgentSession → Type 0) → Type 0
Admits env id principal w P =
    (t : AgentThread) × (s : AgentSession) × IsResolved env id principal w.working t s × P s

-- The session waits for a decision on a proposal, which the given identifier, if any, names.
abbrev pub AwaitsDecision : Option String → AgentSession → Type 0
AwaitsDecision given s =
    (pending : String) × (s.state ≡ user_approval)
    × (s.pending_proposal_id ≡ some pending)
    × (or_text (or_empty given) pending ≡ pending)

module _ (env : Env) (graph : Graph) where
  start_run_checks :
      (principal : Principal) (source : String) (payload : Fields) (t : AgentThread)
      (s : AgentSession) (w : World)
      → (start_run env graph principal source payload (t, s) w).1 ≢ w
      → s.state ≡ monitoring
  unfolding start_run
  start_run_checks principal source payload t s w changed = ground arith

  resume_run_checks :
      (principal : Principal) (decision : String) (given : Option String) (note : String)
      (t : AgentThread) (s : AgentSession) (w : World)
      → (resume_run env graph principal decision given note (t, s) w).1 ≢ w
      → AwaitsDecision given s
  unfolding resume_run checked_decision
  resume_run_checks principal decision given note t s w changed =
      elim (Option-cases s.pending_proposal_id) [
        | inl nothing ↦ absurd (ground arith)
        | inr (pending, found) ↦ (
          pending,
          ground arith,
          found,
          ground (arith, eq_iff (or_text (or_empty given) pending) pending),
        )
      ]

  -- If `trigger_event` changes anything, the thread resolves for the principal and its session is
  -- monitoring: it neither waits for an approval nor is in an unknown state.
  pub trigger_event-Admits :
      (id : String) (principal : Principal) (source : String) (payload : Fields) (w : World)
      → (trigger_event env graph id principal source payload w).1 ≢ w
      → Admits env id principal w (λ s. s.state ≡ monitoring)
  unfolding trigger_event
  trigger_event-Admits id principal source payload w changed =
      let out = resolve_thread env id principal w in
      let same = resolve_thread_same env id principal w in
      let ((t, s), returned, started) =
        passes out.0 (start_run env graph principal source payload) out.1 w same changed in
      (
        t,
        s,
        (resolve_thread-IsResolved env id principal w out.1 t s (cc (returned))).1,
        start_run_checks principal source payload t s w started,
      )

  -- If `submit_decision` changes anything, the thread resolves for the principal, its session waits for
  -- an approval of a proposal, and the identifier that is given, if any, is that proposal's.
  pub submit_decision-Admits :
      (id : String) (principal : Principal) (decision : String) (given : Option String)
      (note : String) (w : World)
      → (submit_decision env graph id principal decision given note w).1 ≢ w
      → Admits env id principal w (AwaitsDecision given)
  unfolding submit_decision
  submit_decision-Admits id principal decision given note w changed =
      let out = resolve_thread env id principal w in
      let same = resolve_thread_same env id principal w in
      let ((t, s), returned, resumed) =
        passes out.0 (resume_run env graph principal decision given note) out.1 w same changed in
      (
        t,
        s,
        (resolve_thread-IsResolved env id principal w out.1 t s (cc (returned))).1,
        resume_run_checks principal decision given note t s w resumed,
      )
