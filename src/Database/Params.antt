-- ===== src/Database/Params.antt =====
-- The parameters of a transfer between databases (services/worker/tasks.py,
-- `_build_db_transfer_params`), and what the handlers ask of the drivers and programs around them.
use tmask_tt.Base.{ℕ, String, Bool, false, Option, none, some, List, ◌∷◌, truthy}
use tmask_tt.Base.Text.{Text}
use tmask_tt.Masking.{Faker, Length, Rules, Profile}
use tmask_tt.Worker.{
  World, Result, Exn, driver_error, operational_error, Eff, pure, raise, ◌>>◌, catch, emit, ask,
  opened, closed,
}
use tmask_tt.Worker.Params.{ExitCode}

pub record DbParams : Type 0 where
  pub source_host : String
  pub source_port : ℕ
  pub source_username : String
  pub source_password : String
  pub source_db_name : String
  pub dest_host : String
  pub dest_port : ℕ
  pub dest_username : String
  pub dest_password : String
  pub dest_db_name : String
  pub table_name : Option String
  pub verify_row_count : Bool
  pub masking_rules : Profile

-- The two servers of a transfer.
pub data Side : Type 0 where
  source dest : Side

-- The drivers and programs that the handlers call. Each answer may depend on all that happened
-- before, which the world holds; an error of a driver is a `driver_error`
-- or an `operational_error`.
pub record Drivers : Type 0 where
  -- `connect` to a server, with its parameters
  pub connect : World → Side → Result (Unit {0})
  -- the column lengths of a table of the source: the rows of `cur.fetchall()`
  pub max_lengths : World → Text → Rules → Result (List (Text × Option Length))
  -- the first column of the rows that a query on the source gives, with the query's arguments
  pub names : World → String → List String → Result (List String)
  -- the one number that a query gives
  pub count : World → Side → String → Result ℕ
  -- the text of a table's name as psycopg2's `sql.Identifier` writes it
  pub identifier : String → String
  -- the answer to `SELECT VERSION()`
  pub version : World → Result Text
  -- `subprocess.Popen(cmd)`, or what it raises
  pub launch : World → List String → Result (Unit {0})
  -- the lines of the dump, what a write of a line to the client raises, the lines that both
  -- processes write to their standard errors, in the order in which they are read, and the codes
  pub dump : World → List Text
  pub write : World → Text → Result (Unit {0})
  pub messages : World → List String
  pub exits : World → ExitCode × ExitCode
  -- the generators of masked values
  pub faker : Faker

abbrev pub host_of : DbParams → Side → String
host_of p source = p.source_host
host_of p dest = p.dest_host

-- `not self.params.get('table_name')`: a name that is empty is no name.
abbrev pub has_table : DbParams → Bool
has_table p = elim p.table_name [ none ↦ false | some t ↦ truthy t ]

-- `except psycopg2.Error as e: handle(str(e))`, and so for the other drivers.
abbrev pub on_driver_error : {A : Type 0} → (String → Eff A) → Exn → Eff A
on_driver_error handle (driver_error m) = handle m
on_driver_error handle (operational_error m) = handle m
on_driver_error handle e = raise e

abbrev pub catch_driver : {A : Type 0} → Eff A → (String → Eff A) → Eff A
catch_driver m handle = catch m (on_driver_error handle)

-- `conn.close()`
abbrev pub close : World → World
close w = record w { events = closed ∷ w.events }

module _ (D : Drivers) (p : DbParams) where
  unfoldable pub connect : Side → Eff (Unit {0})
  connect side = do ask (λ w. D.connect w side); emit (opened (host_of p side))

  -- The text of the error, if the driver raised one.
  unfoldable pub try_connect : Side → Eff (Option String)
  unfolding connect
  try_connect side = catch_driver (do connect side; pure none) (λ m. pure (some m))
