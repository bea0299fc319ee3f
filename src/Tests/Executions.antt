-- ===== src/Tests/Executions.antt =====
-- The theorems on the executor at concrete inputs.
use jb_wm_backend.Base.{arith, ◌≡◌, ◌≢◌, refl, true, false, [], ◌∷◌}
use jb_wm_backend.Planning.{parse_kind}
use jb_wm_backend.Policy.{evaluate}
use jb_wm_backend.Models.{ActionExecution, proposed, approved}
use jb_wm_backend.Database.{World, Result, ok, view}
use jb_wm_backend.Json.{get, dict, str, null, arr, nil}
use jb_wm_backend.Executor.{
  execute_scoped, execute_owned, execute_routed, execute, route, schema_of, handle, schema_of,
}
use jb_wm_backend.Executor.Frame.{IsAtomic}
use jb_wm_backend.Executor.Gate.{IsAuthorised, execute_scoped-IsAuthorised}
use jb_wm_backend.Executor.Runs.{IsReturned, execute_scoped-IsAtomic, execute_scoped-IsReturned}
use jb_wm_backend.Executor.Settled.{IsSettled, execute_scoped-IsSettled, execute_scoped_twice}
use jb_wm_backend.Tests.Samples.{environment, proposal, world}

-- A hospital booking that the customer has approved.
abbrev booked : World
booked = world (proposal "p1" "book_hospital" approved ∷ [])

-- A report, which needs no approval.
abbrev reported : World
reported = world (proposal "p1" "report" proposed ∷ [])

abbrev report_run : Result ActionExecution × World
report_run = execute_scoped environment "p1" "c1" false reported

abbrev report_execution : ActionExecution
report_execution = record {
  id = "uuid";
  proposal_id = "p1";
  executor = "ReportHandler";
  status = "success";
  result =
      dict (("report", str "") ∷ ("execution_summary", null) ∷ ("execution_steps", arr nil) ∷ []);
  executed_at = 0;
}

booking_executes :
    (view (execute_scoped environment "p1" "c1" true booked)).executions ≢ booked.working.executions
unfolding execute_scoped execute_owned execute_routed execute route schema_of evaluate handle
    parse_kind
booking_executes = λ e. ground arith

report_returns : report_run ≡ (ok report_execution, report_run.1)
unfolding execute_scoped execute_owned execute_routed execute route schema_of evaluate handle
    parse_kind get
report_returns = refl

reported-IsSettled : IsSettled reported.working
reported-IsSettled = record { unexecuted = λ pid p found open_status. refl }

execute_scoped-IsAuthorised_example : IsAuthorised booked.working "p1" "c1" true
execute_scoped-IsAuthorised_example =
    execute_scoped-IsAuthorised environment "p1" "c1" true booked booking_executes

execute_scoped-IsAtomic_example : IsAtomic booked (execute_scoped environment "p1" "c2" true booked)
execute_scoped-IsAtomic_example = execute_scoped-IsAtomic environment "p1" "c2" true booked

execute_scoped-IsReturned_example :
    IsReturned environment "p1" "c1" reported report_execution report_run.1
execute_scoped-IsReturned_example =
    execute_scoped-IsReturned environment "p1" "c1" false reported report_run.1 report_execution
      report_returns

execute_scoped-IsSettled_example :
    IsSettled (view (execute_scoped environment "p1" "c1" false reported))
execute_scoped-IsSettled_example =
    execute_scoped-IsSettled environment "p1" "c1" false reported reported-IsSettled

execute_scoped_twice_example :
    execute_scoped environment "p1" "c1" true report_run.1 ≡ (ok report_execution, report_run.1)
execute_scoped_twice_example =
    execute_scoped_twice environment "p1" "c1" false true reported report_run.1 report_execution
      reported-IsSettled report_returns refl
