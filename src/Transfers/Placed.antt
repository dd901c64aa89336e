-- ===== src/Transfers/Placed.antt =====
-- What a file job's status says of its transfer (services/worker/tasks.py, `execute_transfer` with
-- `_run_transfer`).
use tmask_tt.Base.{List}
