-- ===== src/Connections/Portability.antt =====
-- Export and import of connections and flows (services/web/apps/connections/portability.py).
use tmask_tt.Base.{
  ℕ, ◌+◌, String, Bool, false, ◌||◌, not, Option, none, some, List, [], ◌∷◌, map, ◌==◌, any, str_eq,
  truthy, if◌then◌else◌,
}
use tmask_tt.Worker.{Result, ok, err, Exn, value_error, other_error}
use tmask_tt.Database.Task.{Kind, ssh}

-- CONNECTION_FIELDS of a connection.
pub record Fields : Type 0 where
  pub name : String
  pub host : String
  pub port : ℕ
  pub username : String
  pub protocol : String
  pub compress : Bool
  pub encrypt : Bool
  pub strict_host_key_checking : Bool
  pub known_host_key : String
  pub dry_run_before_transfer : Bool
  pub verify_checksum : Bool

-- A row of `Connection`, but for its key and its owner and the columns that its health checks write. The
-- kind and the name of the database are no CONNECTION_FIELDS.
pub record Stored : Type 0 where
  pub fields : Fields
  pub password : Option String
  pub ssh_key : Option String
  pub ssh_key_passphrase : String
  pub kind : Kind
  pub db_name : String

-- A row of `Flow`; its connections are rows of the owner.
pub record StoredFlow : Type 0 where
  pub name : String
  pub source_conn : Stored
  pub source_path : String
  pub dest_conn : Stored
  pub dest_path : String
  pub verify_checksum : Bool

-- The dictionaries of a file.
pub record ConnectionRow : Type 0 where
  pub fields : Fields
  pub password_enc : Option String
  pub ssh_key_enc : Option String
  pub ssh_key_passphrase_enc : Option String

pub record FlowRow : Type 0 where
  pub name : String
  pub source_conn : String
  pub source_path : String
  pub dest_conn : String
  pub dest_path : String
  pub verify_checksum : Bool

pub record Config : Type 0 where
  pub format : String
  pub version : ℕ
  pub iterations : ℕ
  pub salt : String
  pub check : String
  pub connections : List ConnectionRow
  pub flows : List FlowRow

-- The counts of `ImportResult`.
pub record Counts : Type 0 where
  pub conn_added : ℕ
  pub conn_skipped : ℕ
  pub flow_added : ℕ
  pub flow_skipped : ℕ
  pub flow_unresolved : ℕ

-- What the code asks of `cryptography`: the key that a passphrase, a salt and a number of iterations
-- give, `encrypt`, whose token depends on the clock and on chance, here a number, and `decrypt`, which
-- has no result where it raises `InvalidToken`. The salt stands in the file in base 64.
pub record Fernet : Type 0 where
  pub derive : String → String → ℕ → String
  pub encrypt : String → ℕ → String → String
  pub decrypt : String → String → Option String

abbrev pub format_name : String
format_name = "tmask-transporter-config"

abbrev pub format_version : ℕ
format_version = 1

abbrev pub kdf_iterations : ℕ
kdf_iterations = 600_000

abbrev pub check_marker : String
check_marker = "tmask-config-v1"

abbrev truthy_option : Option String → Bool
truthy_option none = false
truthy_option (some s) = truthy s

-- `or ''`
abbrev pub text_or_empty : Option String → String
text_or_empty none = ""
text_or_empty (some s) = s

-- The owner's data.
pub record Account : Type 0 where
  pub connections : List Stored
  pub flows : List StoredFlow

-- `PassphraseError`
abbrev pub passphrase_error : Exn
passphrase_error = other_error "Błędne hasło lub uszkodzony plik"

abbrev pub flow_row : StoredFlow → FlowRow
flow_row f = record {
  name = f.name;
  source_conn = f.source_conn.fields.name;
  source_path = f.source_path;
  dest_conn = f.dest_conn.fields.name;
  dest_path = f.dest_path;
  verify_checksum = f.verify_checksum;
}

module _ (F : Fernet) where
  -- `_encrypt_secret`; the number stands for the chance that the token depends on.
  unfoldable pub encrypt_secret : String → ℕ → Option String → Option String
  encrypt_secret key n none = none
  encrypt_secret key n (some s) = if truthy s then some (F.encrypt key n s) else none

  unfoldable pub connection_row : String → ℕ → Stored → ConnectionRow
  unfolding encrypt_secret
  connection_row key n c = record {
    fields = c.fields;
    password_enc = encrypt_secret key n c.password;
    ssh_key_enc = encrypt_secret key (n + 1) c.ssh_key;
    ssh_key_passphrase_enc = encrypt_secret key (n + 2) (some c.ssh_key_passphrase);
  }

  unfoldable pub connection_rows : String → ℕ → List Stored → List ConnectionRow
  unfolding connection_row
  connection_rows key n [] = []
  connection_rows key n (c ∷ cs) = connection_row key n c ∷ connection_rows key (n + 3) cs

  -- `export_config`, with the salt that `os.urandom` gives.
  unfoldable pub export_config : String → String → Account → Config
  unfolding connection_rows
  export_config passphrase salt a =
      let key = F.derive passphrase salt kdf_iterations in
      record {
        format = format_name;
        version = format_version;
        iterations = kdf_iterations;
        salt = salt;
        check = F.encrypt key 0 check_marker;
        connections = connection_rows key 1 a.connections;
        flows = map flow_row a.flows;
      }

  -- `_decrypt_secret`, which raises `InvalidToken`.
  unfoldable pub decrypt_secret : String → Option String → Result (Option String)
  decrypt_secret key none = ok none
  decrypt_secret key (some token) = elim (F.decrypt key token) [
    | none ↦ err passphrase_error
    | some s ↦ ok (some s)
  ]

  -- The columns of a new connection; the first error ends the import. The kind and the name of the database
  -- are the defaults of the columns.
  unfoldable pub read_row : String → ConnectionRow → Result Stored
  unfolding decrypt_secret
  read_row key row = elim (decrypt_secret key row.password_enc) [
    | err e ↦ err e
    | ok password ↦ elim (decrypt_secret key row.ssh_key_enc) [
      | err e ↦ err e
      | ok ssh_key ↦ elim (decrypt_secret key row.ssh_key_passphrase_enc) [
        | err e ↦ err e
        | ok passphrase ↦ ok (record {
          fields = row.fields;
          password = password;
          ssh_key = ssh_key;
          ssh_key_passphrase = text_or_empty passphrase;
          kind = ssh;
          db_name = "";
        })
      ]
    ]
  ]

  -- `_import_connections`: the rows of the owner (the newest first) and the counts, from the names that
  -- exist.
  unfoldable pub import_connections :
      String
      → List ConnectionRow
      → List String
      → List Stored
      → Counts
      → Result (List Stored × Counts)
  unfolding read_row
  import_connections key [] existing cs n = ok (cs, n)
  import_connections key (row ∷ rows) existing cs n =
      if any (str_eq row.fields.name) existing
      then import_connections key rows existing cs (record n { conn_skipped = n.conn_skipped + 1 })
      else elim (read_row key row) [
        | err e ↦ err e
        | ok c ↦
            import_connections key rows (row.fields.name ∷ existing) (c ∷ cs)
              (record n { conn_added = n.conn_added + 1 })
      ]

-- `{c.name: c for c in …}.get(name)`: the last connection of a name.
unfoldable pub find_last : String → List Stored → Option Stored
find_last name [] = none
find_last name (c ∷ cs) = elim (find_last name cs) [
  | some later ↦ some later
  | none ↦ if str_eq c.fields.name name then some c else none
]

abbrev pub linked : FlowRow → Option Stored → Option Stored → Option StoredFlow
linked row (some src) (some dst) = some (record {
  name = row.name;
  source_conn = src;
  source_path = row.source_path;
  dest_conn = dst;
  dest_path = row.dest_path;
  verify_checksum = row.verify_checksum;
})
linked row (some src) none = none
linked row none dst = none

-- `_import_flows`: the rows of the owner (the newest first) and the counts.
unfoldable pub import_flows :
    List Stored → List FlowRow → List String → List StoredFlow → Counts → List StoredFlow × Counts
unfolding find_last
import_flows cs [] existing flows n = (flows, n)
import_flows cs (row ∷ rows) existing flows n =
    if any (str_eq row.name) existing
    then import_flows cs rows existing flows (record n { flow_skipped = n.flow_skipped + 1 })
    else elim (linked row (find_last row.source_conn cs) (find_last row.dest_conn cs)) [
      | none ↦
          import_flows cs rows existing flows (record n { flow_unresolved = n.flow_unresolved + 1 })
      | some f ↦
          import_flows cs rows (row.name ∷ existing) (f ∷ flows)
            (record n { flow_added = n.flow_added + 1 })
    ]

abbrev pub no_counts : Counts
no_counts = record {
  conn_added = 0;
  conn_skipped = 0;
  flow_added = 0;
  flow_skipped = 0;
  flow_unresolved = 0;
}

abbrev pub name_of : Stored → String
name_of c = c.fields.name

abbrev pub flow_name_of : StoredFlow → String
flow_name_of f = f.name

unfoldable pub with_flows :
    Account → List FlowRow → Result (List Stored × Counts) → Result (Account × Counts)
unfolding import_flows
with_flows a rows (err e) = err e
with_flows a rows (ok (cs, n)) =
    let (flows, n') = import_flows cs rows (map flow_name_of a.flows) a.flows n in
    ok (record { connections = cs; flows = flows }, n')

-- `import_config`: the owner's data and the counts. On an error the transaction leaves the data as
-- they were.
unfoldable pub import_config : Fernet → Account → Config → String → Result (Account × Counts)
unfolding import_connections with_flows
import_config F a config passphrase =
    if not (str_eq config.format format_name) || not (config.version == format_version)
    then err (value_error "Nieprawidłowy format pliku")
    else let key = F.derive passphrase config.salt config.iterations in
      elim (F.decrypt key config.check) [
        | none ↦ err passphrase_error
        | some marker ↦ with_flows a config.flows (
            import_connections F key config.connections (map name_of a.connections) a.connections
              no_counts)
      ]
