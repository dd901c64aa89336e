-- ===== src/Connections/Managed.antt =====
-- The pages of connections (services/web/apps/connections/views.py, forms.py): creating, editing and deleting
-- them, with their entries in the audit log.
use tmask_tt.Base.{
  ℕ, String, ◌<>◌, Bool, false, ◌&&◌, not, Option, none, some, List, [], ◌∷◌, str_eq, truthy,
  if◌then◌else◌,
}
use tmask_tt.Base.Str.{show}
use tmask_tt.Accounts.{User, admin}
use tmask_tt.Audit.{
  text, flag, number, null, Instance, Entry, Subject, diff_fields, log_created, log_updated,
  log_deleted,
}
use tmask_tt.Database.Task.{Kind, ssh, database, postgres, mysql, mssql}
use tmask_tt.Pages.{
  Method, Answer, done, form_page, page_error, with_role, post_only, or_404, find_row, save_row,
  delete_row,
}
use tmask_tt.Scheduler.{FormRequest, shown, invalid, filled}
use tmask_tt.Connections.{Connection, unknown, is_database}

-- A row of `Connection` with the columns of its protocol.
pub record StoredConnection : Type 0 where
  pub base : Connection
  pub protocol : String
  pub compress : Bool
  pub encrypt : Bool
  pub dry_run_before_transfer : Bool
  pub verify_checksum : Bool

-- `ConnectionForm`, where Django's own checks of the fields pass.
pub record ConnectionForm : Type 0 where
  pub name : String
  pub kind : Kind
  pub host : String
  pub port : ℕ
  pub username : String
  pub password : String
  pub db_name : String
  pub ssh_key : String
  pub ssh_key_passphrase : String
  pub protocol : String
  pub compress : Bool
  pub encrypt : Bool
  pub strict_host_key_checking : Bool
  pub known_host_key : String
  pub dry_run_before_transfer : Bool
  pub verify_checksum : Bool

-- `ConnectionForm.clean`: the message of its `ValidationError`.
unfoldable pub form_error : ConnectionForm → Option String
form_error f =
    if is_database f.kind
    then (if not (truthy f.password)
        then some "Podaj hasło do bazy danych."
        else if not (truthy f.db_name)
        then some "Podaj nazwę bazy danych (DB NAME)."
        else none)
    else if not (truthy f.password) && not (truthy f.ssh_key)
    then some "Podaj hasło lub klucz SSH."
    else none

-- `clean_dry_run_before_transfer`
unfoldable pub dry_run_error : ConnectionForm → Option String
dry_run_error f =
    if f.dry_run_before_transfer && not (str_eq f.protocol "rsync")
    then some "Dry-run jest dostępny tylko dla protokołu rsync."
    else none

-- `form.save()`: the columns of the form; the others stay.
unfoldable pub write_form : ConnectionForm → StoredConnection → StoredConnection
write_form f r = record {
  base = record (r.base) {
    name = f.name;
    kind = f.kind;
    host = f.host;
    port = f.port;
    username = f.username;
    password = f.password;
    db_name = f.db_name;
    ssh_key = f.ssh_key;
    ssh_key_passphrase = f.ssh_key_passphrase;
    strict_host_key_checking = f.strict_host_key_checking;
    known_host_key = f.known_host_key;
  };
  protocol = f.protocol;
  compress = f.compress;
  encrypt = f.encrypt;
  dry_run_before_transfer = f.dry_run_before_transfer;
  verify_checksum = f.verify_checksum;
}

-- A row with the defaults of its columns.
abbrev blank : ℕ → ℕ → StoredConnection
blank pk owner = record {
  base = record {
    pk = pk;
    owner = owner;
    name = "";
    host = "";
    port = 22;
    username = "";
    password = "";
    ssh_key = "";
    ssh_key_passphrase = "";
    strict_host_key_checking = false;
    known_host_key = "";
    kind = ssh;
    db_name = "";
    health_status = unknown;
    health_checked_at = none;
    health_error = "";
  };
  protocol = "sftp";
  compress = false;
  encrypt = false;
  dry_run_before_transfer = false;
  verify_checksum = false;
}

abbrev kind_text : Kind → String
kind_text ssh = "ssh"
kind_text (database postgres) = "postgres"
kind_text (database mysql) = "mysql"
kind_text (database mssql) = "mssql"

-- `getattr` of CONNECTION_TRACKED_FIELDS.
unfoldable pub connection_values : StoredConnection → Instance
connection_values r field =
    if str_eq field "name"
    then text r.base.name
    else if str_eq field "host"
    then text r.base.host
    else if str_eq field "port"
    then number r.base.port
    else if str_eq field "username"
    then text r.base.username
    else if str_eq field "password"
    then text r.base.password
    else if str_eq field "ssh_key"
    then text r.base.ssh_key
    else if str_eq field "ssh_key_passphrase"
    then text r.base.ssh_key_passphrase
    else if str_eq field "protocol"
    then text r.protocol
    else if str_eq field "compress"
    then flag r.compress
    else if str_eq field "encrypt"
    then flag r.encrypt
    else if str_eq field "strict_host_key_checking"
    then flag r.base.strict_host_key_checking
    else if str_eq field "known_host_key"
    then text r.base.known_host_key
    else if str_eq field "dry_run_before_transfer"
    then flag r.dry_run_before_transfer
    else if str_eq field "verify_checksum"
    then flag r.verify_checksum
    else if str_eq field "kind"
    then text (kind_text r.base.kind)
    else if str_eq field "db_name"
    then text r.base.db_name
    else null

-- CONNECTION_TRACKED_FIELDS and CONNECTION_SECRET_FIELDS
abbrev pub connection_tracked_fields : List String
connection_tracked_fields =
    "name" ∷ "host" ∷ "port" ∷ "username" ∷ "password" ∷ "ssh_key" ∷ "ssh_key_passphrase"
    ∷ "protocol" ∷ "compress" ∷ "encrypt" ∷ "strict_host_key_checking" ∷ "known_host_key"
    ∷ "dry_run_before_transfer" ∷ "verify_checksum" ∷ "kind" ∷ "db_name" ∷ []

abbrev pub connection_secret_fields : List String
connection_secret_fields = "password" ∷ "ssh_key" ∷ "ssh_key_passphrase" ∷ "known_host_key" ∷ []

-- `str(connection)`
unfoldable pub connection_subject : StoredConnection → Subject
connection_subject r = record {
  model = "Connection";
  pk = r.base.pk;
  repr = r.base.name <> (" (" <> (r.base.host <> (":" <> (show r.base.port <> ")"))));
}

abbrev pub connection_key : StoredConnection → ℕ
connection_key r = r.base.pk

pub record ConnectionTables : Type 0 where
  pub rows : List StoredConnection
  pub log : List Entry

-- `form.is_valid()` behind Django's own checks, with the view behind it.
unfoldable pub with_connection_form :
    FormRequest ConnectionForm
    → ConnectionTables
    → (ConnectionForm → Answer × ConnectionTables)
    → Answer × ConnectionTables
unfolding form_error dry_run_error
with_connection_form shown s view = (form_page, s)
with_connection_form invalid s view = (form_page, s)
with_connection_form (filled f) s view = elim (dry_run_error f) [
  | some m ↦ (page_error m, s)
  | none ↦ elim (form_error f) [ some m ↦ (page_error m, s) | none ↦ view f ]
]

-- A valid form of `connection_edit`.
unfoldable pub edit_connection :
    User → ConnectionForm → StoredConnection → ConnectionTables → Answer × ConnectionTables
unfolding write_form save_row diff_fields log_updated connection_values connection_subject
edit_connection u f before s =
    let conn = write_form f before in
    let changes =
      diff_fields (connection_values before) (connection_values conn) connection_tracked_fields
        connection_secret_fields in
    (
      done,
      record {
        rows = save_row connection_key conn s.rows;
        log = log_updated u.pk (connection_subject conn) changes s.log;
      },
    )

unfoldable pub connection_create :
    Option User → ℕ → FormRequest ConnectionForm → ConnectionTables → Answer × ConnectionTables
unfolding with_role with_connection_form write_form log_created connection_subject
connection_create actor new request s = with_role admin actor s (λ u.
    with_connection_form request s (λ f.
      let conn = write_form f (blank new u.pk) in
      (
        done,
        record { rows = conn ∷ s.rows; log = log_created u.pk (connection_subject conn) s.log },
      )))

unfoldable pub connection_edit :
    Option User → ℕ → FormRequest ConnectionForm → ConnectionTables → Answer × ConnectionTables
unfolding with_role with_connection_form edit_connection find_row
connection_edit actor pk request s = with_role admin actor s (λ u.
    or_404 (find_row connection_key pk s.rows) s
      (λ before. with_connection_form request s (λ f. edit_connection u f before s)))

-- `connection_delete`; the rows that refer to the connection are Django's to remove.
unfoldable pub connection_delete :
    Option User → Method → ℕ → ConnectionTables → Answer × ConnectionTables
unfolding with_role find_row delete_row log_deleted connection_subject
connection_delete actor method pk s = with_role admin actor s (λ u. post_only method s (
    or_404 (find_row connection_key pk s.rows) s (λ conn. (
      done,
      record {
        rows = delete_row connection_key conn.base.pk s.rows;
        log = log_deleted u.pk (connection_subject conn) s.log;
      },
    ))))
