-- ===== src/Database/Task/Outcome.antt =====
-- What a database job's status says of its transfer (services/worker/tasks.py, `execute_db_transfer`).
use tmask_tt.Base.{ℕ, ◌≡◌, ◌⊎◌, inl, inr, String, List, [], arith}
use tmask_tt.Base.Text.{Text}
use tmask_tt.Worker.{World, Level, Result, ok}
use tmask_tt.Worker.Params.{Tools}
use tmask_tt.Transfers.{done}
use tmask_tt.Database.Params.{Drivers}
use tmask_tt.Database.Mssql as Mssql
use tmask_tt.Database.Retries.{HasEnded, execute_ok}
use tmask_tt.Database.Task.{
  postgres, mysql, DbTransferJob, RuleRow, conclude, mark_running, run_handler,
  build_db_transfer_params, execute_db_transfer, logs_of,
}

conclude_done :
    (now : ℕ) (j : DbTransferJob) (logs : List (Level × Text)) (r : Result (Unit {0}))
    → (conclude now j logs r).1.job.status ≡ done
    → r ≡ ok tt
unfolding conclude
conclude_done now j logs r h = ground arith

-- A job of PostgreSQL or MySQL that the task leaves as done had a run of the pipe in which both the
-- dump and the client ended with exit code 0.
pub execute_db_transfer_done :
    (T : Tools) (D : Drivers) (S : Mssql.Server) (rows : List RuleRow) (task : String)
    (now later : ℕ) (j : DbTransferJob) (w : World)
    → (j.engine ≡ postgres) ⊎ (j.engine ≡ mysql)
    → (execute_db_transfer T D S rows task now later j w).1.job.status ≡ done
    → HasEnded D
unfolding execute_db_transfer run_handler
execute_db_transfer_done T D S rows task now later j w engine h =
    let p = build_db_transfer_params rows j in
    let w0 : World = record w { events = [] } in
    let (result, w') = run_handler T D S j.engine p w0 in
    let returned : (run_handler T D S j.engine p w0).0 ≡ ok tt =
      conclude_done later (mark_running task now j) (logs_of w'.events) result h in
    elim engine [
      | inl e ↦ execute_ok D p w0 (inl (rw e at returned))
      | inr e ↦ execute_ok D p w0 (inr (rw e at returned))
    ]
