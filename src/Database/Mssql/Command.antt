-- ===== src/Database/Mssql/Command.antt =====
-- The connection strings and the commands of the handler of SQL Server
-- (services/worker/modules/mssql/handler.py).
use tmask_tt.Base.{ℕ, String, ◌<>◌, Bool, List, [], ◌∷◌, if◌then◌else◌}
use tmask_tt.Base.Str.{show}
use tmask_tt.Database.Params.{DbParams}

-- `_conn_string`, `_source_conn_string`, `_dest_conn_string`
unfoldable pub conn_string : String → ℕ → String → String → String → String
conn_string host port db user password =
    "DRIVER={ODBC Driver 18 for SQL Server};SERVER="
    <> (host
        <> (","
            <> (show port
                <> (";DATABASE="
                    <> (db
                        <> (";UID="
                            <> (user
                                <> (";PWD=" <> (password <> ";TrustServerCertificate=yes;")))))))))

unfoldable pub source_conn_string : DbParams → String
unfolding conn_string
source_conn_string p =
    conn_string p.source_host p.source_port p.source_db_name p.source_username p.source_password

unfoldable pub dest_conn_string : DbParams → String
unfolding conn_string
dest_conn_string p =
    conn_string p.dest_host p.dest_port p.dest_db_name p.dest_username p.dest_password

-- `f'{host},{port}'`
abbrev address : String → ℕ → String
address host port = host <> ("," <> show port)

-- `_build_sqlcmd_cmd`
unfoldable pub build_sqlcmd_cmd : DbParams → String → List String
build_sqlcmd_cmd p ddl_path =
    "sqlcmd"
    ∷ "-S"
    ∷ address p.dest_host p.dest_port
    ∷ "-d"
    ∷ p.dest_db_name
    ∷ "-U"
    ∷ p.dest_username
    ∷ "-P"
    ∷ p.dest_password
    ∷ "-i"
    ∷ ddl_path
    ∷ "-b"
    ∷ []

abbrev mode_flag : Bool → String
mode_flag native = if native then "-n" else "-c"

-- `_build_bcp_out_cmd`
unfoldable pub build_bcp_out_cmd : DbParams → String → String → Bool → List String
build_bcp_out_cmd p table_name out_path native =
    "bcp"
    ∷ table_name
    ∷ "out"
    ∷ out_path
    ∷ "-S"
    ∷ address p.source_host p.source_port
    ∷ "-U"
    ∷ p.source_username
    ∷ "-P"
    ∷ p.source_password
    ∷ "-d"
    ∷ p.source_db_name
    ∷ mode_flag native
    ∷ []

-- `_build_bcp_in_cmd`
unfoldable pub build_bcp_in_cmd : DbParams → String → String → Bool → List String
build_bcp_in_cmd p table_name in_path native =
    "bcp"
    ∷ table_name
    ∷ "in"
    ∷ in_path
    ∷ "-S"
    ∷ address p.dest_host p.dest_port
    ∷ "-U"
    ∷ p.dest_username
    ∷ "-P"
    ∷ p.dest_password
    ∷ "-d"
    ∷ p.dest_db_name
    ∷ mode_flag native
    ∷ []
