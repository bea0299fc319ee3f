-- ===== src/Executor/Frame.antt =====
-- What a handler leaves alone: it writes only the mock tables of insurance and holdings, and where
-- it raises it has written nothing.
use jb_wm_backend.Base.{◌≡◌, arith}
use jb_wm_backend.Models.{ActionProposal}
use jb_wm_backend.Database.{Db, World, Result, ok, err, view}
use jb_wm_backend.Environment.{Env}
use jb_wm_backend.Executor.Handlers.{apply_mock_insurance_review, apply_mock_rebalance, handle}

-- The tables of the workflow are the same.
pub record KeepsWorkflow (d d' : Db) : Type 0 where
  pub sessions : d'.sessions ≡ d.sessions
  pub proposals : d'.proposals ≡ d.proposals
  pub decisions : d'.decisions ≡ d.decisions
  pub executions : d'.executions ≡ d.executions
  pub threads : d'.threads ≡ d.threads
  pub events : d'.events ≡ d.events
  pub messages : d'.messages ≡ d.messages

-- An action that raises leaves the state as it was.
abbrev pub IsAtomic {ℓ} : {A : Type ℓ} → World → Result A × World → Type 0
IsAtomic w (ok _, w') = Unit
IsAtomic w (err _, w') = w' ≡ w

module _ (env : Env) where
  review-Keeps :
      (p : ActionProposal) (w : World)
      → KeepsWorkflow w.working (view (apply_mock_insurance_review env p w))
  unfolding apply_mock_insurance_review
  review-Keeps p w = ground arith

  rebalance-Keeps :
      (p : ActionProposal) (w : World)
      → KeepsWorkflow w.working (view (apply_mock_rebalance env p w))
  unfolding apply_mock_rebalance
  rebalance-Keeps p w = ground arith

  -- Whatever its kind, a proposal's handler leaves the tables of the workflow alone.
  pub handle-Keeps :
      (p : ActionProposal) (w : World) → KeepsWorkflow w.working (view (handle env p w))
  unfolding handle
  handle-Keeps p w = ground (arith, review-Keeps p w, rebalance-Keeps p w)

  review-IsAtomic :
      (p : ActionProposal) (w : World) → IsAtomic w (apply_mock_insurance_review env p w)
  unfolding apply_mock_insurance_review
  review-IsAtomic p w = ground arith

  rebalance-IsAtomic : (p : ActionProposal) (w : World) → IsAtomic w (apply_mock_rebalance env p w)
  unfolding apply_mock_rebalance
  rebalance-IsAtomic p w = ground arith

  -- A handler that raises has written nothing.
  pub handle-IsAtomic : (p : ActionProposal) (w : World) → IsAtomic w (handle env p w)
  unfolding handle
  handle-IsAtomic p w = ground (arith, review-IsAtomic p w, rebalance-IsAtomic p w)
