-- ===== src/Workflow/Walk.antt =====
-- app/workflows/wm_graph.py: a run follows the edges from node to node. The decision that resumes a
-- run is used up by the first approval that it meets; the next one interrupts the run.
use jb_wm_backend.Base.{
  ℕ, zero, suc, String, ◌≡◌, refl, ◌⊎◌, inl, inr, true, Option, none, some, truthy?, if◌then◌else◌,
  Bool-cases,
}
use jb_wm_backend.Database.{Error, Result, ok, err, World, Exec, pure, ◌>>=◌}
use jb_wm_backend.Database.Yields.{Yields, pure-Yields, raise-Yields, bind-Yields}
use jb_wm_backend.Environment.{Env}
use jb_wm_backend.Workflow.State.{GraphState, Decision}
use jb_wm_backend.Workflow.Decisions.{interrupt_for, approval_interrupt, update_memory}
use jb_wm_backend.Workflow.Graph.{
  Node, node_data_refresh, node_signal_detect, node_signal_gate, node_build_context,
  node_spawn_agent, node_validate_output, node_policy_check, node_approval_interrupt,
  node_execute_action, node_verify_result, node_update_memory, next_node, run_node,
}

-- The decision that is left once a node has run.
abbrev pub left_after : Node → Option Decision → Option Decision
left_after node_approval_interrupt resume = none
left_after _ resume = resume

abbrev pub go_on :
    (Node → GraphState → Exec (Option GraphState)) → Node → GraphState → Exec (Option GraphState)
go_on walk n s = elim (next_node n s) [ none ↦ pure (some s) | some m ↦ walk m s ]

module _ (env : Env) (subject : String) where
  -- The run from a node on, of at most the given number of nodes; `none` if it has not ended by then.
  unfoldable pub walk : ℕ → Option Decision → Node → GraphState → Exec (Option GraphState)
  unfolding next_node run_node
  walk zero resume n s = pure none
  walk (suc k) resume n s =
      run_node env subject resume n s >>= go_on (walk k (left_after n resume)) n

-- The run has ended: it raised, an approval interrupted it, or it went through its last node.
abbrev pub HasEnded : Result (Option GraphState) → Type 0
HasEnded out =
    ((e : Error) × (out ≡ err e)) ⊎ ((s : GraphState) × (out ≡ ok (some s)) × (s.stage ≡ "Done"))

truthy?-some : (o : Option String) → truthy? o ≡ true → (pending : String) × (o ≡ some pending)
truthy?-some none h = absurd (cc)
truthy?-some (some s) h = (s, refl)

continued :
    (r : Result GraphState) (v : World) (f : GraphState → Exec (Option GraphState))
    → ((s : GraphState) → r ≡ ok s → HasEnded (f s v).0)
    → HasEnded (((λ (w : World). (r, v)) >>= f) v).0
continued (ok s) v f h = h s refl
continued (err e) v f h = inl (e, refl)

module _ (env : Env) (subject : String) where
  abbrev Ends : ℕ → Option Decision → Node → Type 0
  Ends k resume n = (s : GraphState) (w : World) → HasEnded (walk env subject k resume n s w).0

  -- A node with one edge.
  edge-Ends :
      (k : ℕ) (resume : Option Decision) (n m : Node)
      → ((s : GraphState) → next_node n s ≡ some m)
      → Ends k (left_after n resume) m
      → Ends (suc k) resume n
  unfolding walk
  edge-Ends k resume n m edge h s w =
      let (r, v) = run_node env subject resume n s w in
      continued r v (go_on (walk env subject k (left_after n resume)) n)
        (λ s' e. rw (go_on, edge s') (h s' v))

  update_memory-Yields : (s : GraphState) → Yields (λ s'. s'.stage ≡ "Done") (update_memory env s)
  unfolding update_memory
  update_memory-Yields s = search (bind-Yields, pure-Yields) depth 20

  update-Ends : (k : ℕ) (resume : Option Decision) → Ends (suc k) resume node_update_memory
  unfolding walk run_node next_node
  update-Ends k resume s w =
      let (r, v) = update_memory env s w in
      continued r v (go_on (walk env subject k resume) node_update_memory)
        (λ s' e. inr (s', refl, (update_memory-Yields s).at w s' e))

  verify-Ends : (k : ℕ) (resume : Option Decision) → Ends (suc (suc k)) resume node_verify_result
  unfolding next_node
  verify-Ends k resume =
      edge-Ends (suc k) resume node_verify_result node_update_memory (λ s. refl)
        (update-Ends k resume)

  -- An approval without a decision interrupts the run, or fails, if a proposal is pending.
  waiting_raises :
      (pending : String) (s : GraphState) → Yields (λ s'. ⊥) (interrupt_for (some pending) none s)
  unfolding interrupt_for
  waiting_raises pending s = search (bind-Yields, raise-Yields) depth 20

  pending_raises :
      (o : Option String) (pending : String) (s : GraphState)
      → o ≡ some pending
      → Yields (λ s'. ⊥) (interrupt_for o none s)
  pending_raises o pending s e = rw e (waiting_raises pending s)

  ends_waiting :
      (k : ℕ) (pending : String) (s : GraphState) (w : World)
      → s.pending_proposal_id ≡ some pending
      → HasEnded (walk env subject (suc k) none node_approval_interrupt s w).0
  unfolding walk run_node approval_interrupt
  ends_waiting k pending s w e =
      let (r, v) = interrupt_for s.pending_proposal_id none s w in
      continued r v (go_on (walk env subject k none) node_approval_interrupt)
        (λ s' run. absurd ((pending_raises s.pending_proposal_id pending s e).at w s' run))

  -- Where a proposal is pending, the run ends at the approval, else at the last node.
  ends_routed :
      (k : ℕ) (n : Node) (s : GraphState) (w : World)
      → next_node n s
        ≡ some
            (if truthy? s.pending_proposal_id then node_approval_interrupt else node_verify_result)
      → HasEnded (go_on (walk env subject (suc (suc k)) none) n s w).0
  ends_routed k n s w e = elim (Bool-cases (truthy? s.pending_proposal_id)) [
    | inl given ↦
        let (pending, found) = truthy?-some s.pending_proposal_id given in
        rw (go_on, e, given) (ends_waiting (suc k) pending s w found)
    | inr bare ↦ rw (go_on, e, bare) (verify-Ends k none s w)
  ]

  execute-Ends : (k : ℕ) → Ends (suc (suc (suc k))) none node_execute_action
  unfolding walk next_node
  execute-Ends k s w =
      let (r, v) = run_node env subject none node_execute_action s w in
      continued r v (go_on (walk env subject (suc (suc k)) none) node_execute_action)
        (λ s' e. ends_routed k node_execute_action s' v refl)

  approval-Ends :
      (k : ℕ) (resume : Option Decision)
      → Ends (suc (suc (suc (suc k)))) resume node_approval_interrupt
  unfolding next_node
  approval-Ends k resume =
      edge-Ends (suc (suc (suc k))) resume node_approval_interrupt node_execute_action (λ s. refl)
        (execute-Ends k)

  -- The same with a decision that may be at hand.
  ends_branched :
      (k : ℕ) (resume : Option Decision) (n : Node) (s : GraphState) (w : World)
      → next_node n s
        ≡ some
            (if truthy? s.pending_proposal_id then node_approval_interrupt else node_verify_result)
      → HasEnded (go_on (walk env subject (suc (suc (suc (suc k)))) resume) n s w).0
  ends_branched k resume n s w e = elim (Bool-cases (truthy? s.pending_proposal_id)) [
    | inl given ↦ rw (go_on, e, given) (approval-Ends k resume s w)
    | inr bare ↦ rw (go_on, e, bare) (verify-Ends (suc (suc k)) resume s w)
  ]

  branching-Ends :
      (k : ℕ) (resume : Option Decision) (n : Node)
      → ((s : GraphState)
          → next_node n s
            ≡ some (
                if truthy? s.pending_proposal_id
                then node_approval_interrupt
                else node_verify_result))
      → left_after n resume ≡ resume
      → Ends (suc (suc (suc (suc (suc k))))) resume n
  unfolding walk
  branching-Ends k resume n edge same s w =
      let (r, v) = run_node env subject resume n s w in
      rw same (
        continued r v (go_on (walk env subject (suc (suc (suc (suc k)))) resume) n)
          (λ s' e. ends_branched k resume n s' v (edge s')))

  policy-Ends :
      (k : ℕ) (resume : Option Decision)
      → Ends (suc (suc (suc (suc (suc k))))) resume node_policy_check
  unfolding next_node
  policy-Ends k resume = branching-Ends k resume node_policy_check (λ s. refl) refl

  validate-Ends :
      (k : ℕ) (resume : Option Decision)
      → Ends (suc (suc (suc (suc (suc (suc k)))))) resume node_validate_output
  unfolding next_node
  validate-Ends k resume =
      edge-Ends (suc (suc (suc (suc (suc k))))) resume node_validate_output node_policy_check
        (λ s. refl) (policy-Ends k resume)

  spawn-Ends :
      (k : ℕ) (resume : Option Decision)
      → Ends (suc (suc (suc (suc (suc (suc (suc k))))))) resume node_spawn_agent
  unfolding next_node
  spawn-Ends k resume =
      edge-Ends (suc (suc (suc (suc (suc (suc k)))))) resume node_spawn_agent node_validate_output
        (λ s. refl) (validate-Ends k resume)

  context-Ends :
      (k : ℕ) (resume : Option Decision)
      → Ends (suc (suc (suc (suc (suc (suc (suc (suc k)))))))) resume node_build_context
  unfolding next_node
  context-Ends k resume =
      edge-Ends (suc (suc (suc (suc (suc (suc (suc k))))))) resume node_build_context
        node_spawn_agent (λ s. refl) (spawn-Ends k resume)

  gate-Ends :
      (k : ℕ) (resume : Option Decision)
      → Ends (suc (suc (suc (suc (suc (suc (suc (suc (suc k))))))))) resume node_signal_gate
  unfolding next_node
  gate-Ends k resume =
      edge-Ends (suc (suc (suc (suc (suc (suc (suc (suc k)))))))) resume node_signal_gate
        node_build_context (λ s. refl) (context-Ends k resume)

  detect-Ends :
      (k : ℕ) (resume : Option Decision)
      → Ends (suc (suc (suc (suc (suc (suc (suc (suc (suc (suc k)))))))))) resume node_signal_detect
  unfolding next_node
  detect-Ends k resume =
      edge-Ends (suc (suc (suc (suc (suc (suc (suc (suc (suc k))))))))) resume node_signal_detect
        node_signal_gate (λ s. refl) (gate-Ends k resume)

  refresh-Ends :
      (k : ℕ) (resume : Option Decision)
      → Ends
          (suc (suc (suc (suc (suc (suc (suc (suc (suc (suc (suc k)))))))))))
          resume
          node_data_refresh
  unfolding next_node
  refresh-Ends k resume =
      edge-Ends (suc (suc (suc (suc (suc (suc (suc (suc (suc (suc k)))))))))) resume
        node_data_refresh node_signal_detect (λ s. refl) (detect-Ends k resume)

  -- A run from any node, with or without a decision, ends within eleven nodes: it raises, an approval
  -- interrupts it, or it goes through its last node and is done.
  pub walk-ends :
      (resume : Option Decision) (n : Node) (s : GraphState) (w : World)
      → HasEnded (walk env subject 11 resume n s w).0
  unfolding next_node
  walk-ends resume node_update_memory = update-Ends 10 resume
  walk-ends resume node_verify_result = verify-Ends 9 resume
  walk-ends resume node_execute_action =
      branching-Ends 6 resume node_execute_action (λ s. refl) refl
  walk-ends resume node_approval_interrupt = approval-Ends 7 resume
  walk-ends resume node_policy_check = policy-Ends 6 resume
  walk-ends resume node_validate_output = validate-Ends 5 resume
  walk-ends resume node_spawn_agent = spawn-Ends 4 resume
  walk-ends resume node_build_context = context-Ends 3 resume
  walk-ends resume node_signal_gate = gate-Ends 2 resume
  walk-ends resume node_signal_detect = detect-Ends 1 resume
  walk-ends resume node_data_refresh = refresh-Ends 0 resume
