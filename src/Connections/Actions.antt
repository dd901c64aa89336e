-- ===== src/Connections/Actions.antt =====
-- What the pages of connections do with a connection or with a file (services/web/apps/connections/views.py):
-- the test, the scan of a host key, the export and the import.
use tmask_tt.Base.{ℕ, ◌*◌, String, ◌<>◌, not, Option, none, some, ltb, truthy, if◌then◌else◌}
use tmask_tt.Accounts.{User, admin}
use tmask_tt.Pages.{Method, Answer, done, page_error, failed, with_role, post_only}
use tmask_tt.Worker.{
  World, Result, ok, err, auth_error, ssh_error, timeout_error, value_error, other_error, opened,
  Eff, ◌>>=◌, ◌>>◌, emit, lift, ask, attempt, finally,
}
use tmask_tt.Worker.Params.{Tools, none_if_empty}
use tmask_tt.Worker.Files.{load_private_key}
use tmask_tt.Connections.{Connection}
use tmask_tt.Connections.Testers.{TestResult, Probe, Secret, by_key, by_password}
use tmask_tt.Connections.Health.{test_by_kind}
use tmask_tt.Connections.Browse.{close_one}
use tmask_tt.Connections.Portability.{Fernet, Account, Config, Counts, import_config, export_config}

-- `connection_test` of a connection that is found.
unfoldable pub connection_test : Probe → ℕ → Connection → Result TestResult
unfolding test_by_kind
connection_test P now c = test_by_kind P now c.kind c

-- What paramiko is asked for a host key: `connect` with a secret or with none, and the key of the server as
-- its name and its text in base 64, if there is a transport.
pub record Scanner : Type 0 where
  pub connect : World → Connection → Option Secret → Result (Unit {0})
  pub server_key : World → Result (Option (String × String))

-- The answer of `connection_scan_hostkey`.
pub data ScanAnswer : Type 0 where
  scanned : (known_host_key : String) → ScanAnswer
  not_scanned : (message : String) → ScanAnswer

abbrev secret_of : Result String → Result (Option Secret)
secret_of (ok key) = ok (some (by_key key))
secret_of (err e) = err e

-- `except paramiko.AuthenticationException: pass`
unfoldable pub pass_auth_error : Result (Unit {0}) → Result (Unit {0})
pass_auth_error (err (auth_error m)) = ok tt
pass_auth_error (err e) = err e
pass_auth_error (ok _) = ok tt

-- The `except` clauses and what follows them.
unfoldable pub scan_answer : Connection → Result (Option (String × String)) → Result ScanAnswer
scan_answer c (ok (some (name, key))) = ok (scanned (c.host <> (" " <> (name <> (" " <> key)))))
scan_answer c (ok none) = ok (not_scanned "Nie udało się pobrać klucza hosta")
scan_answer c (err (timeout_error m)) =
    ok (not_scanned ("CONNECTION TIMEOUT — " <> (c.host <> " nieosiągalny")))
scan_answer c (err (ssh_error m)) = ok (not_scanned ("SSH ERROR — " <> m))
scan_answer c (err (auth_error m)) = ok (not_scanned ("SSH ERROR — " <> m))
scan_answer c (err e) = err e

module _ (T : Tools) (S : Scanner) (c : Connection) where
  unfoldable pub scan_secret : Result (Option Secret)
  unfolding load_private_key
  scan_secret =
      if truthy c.ssh_key
      then secret_of (load_private_key T c.ssh_key (none_if_empty c.ssh_key_passphrase))
      else if truthy c.password
      then ok (some (by_password c.password))
      else ok none

  -- The `try` block.
  unfoldable pub scan_body : Eff (Option (String × String))
  unfolding scan_secret pass_auth_error
  scan_body = do
    secret ← lift scan_secret
    ask (λ w. pass_auth_error (S.connect w c secret))
    ask S.server_key

  -- `connection_scan_hostkey` of a connection that is found.
  unfoldable pub connection_scan_hostkey : Eff ScanAnswer
  unfolding scan_body scan_answer
  connection_scan_hostkey = do
    emit (opened c.host)
    r ← attempt (finally scan_body close_one)
    lift (scan_answer c r)

-- _MAX_IMPORT_BYTES
abbrev pub max_import_bytes : ℕ
max_import_bytes = 1024 * 1024

-- A file of a request: its size, and what `json.loads` makes of its text, if it is JSON of the form of an
-- export.
pub record ImportFile : Type 0 where
  pub size : ℕ
  pub content : Option Config

-- The `except` clauses around `import_config`: `PassphraseError`, `ValueError` and `KeyError`.
abbrev import_answer : Account → Result (Account × Counts) → Answer × Account
import_answer a (ok (a', counts)) = (done, a')
import_answer a (err (value_error m)) = (page_error "Nieprawidłowy plik konfiguracji.", a)
import_answer a (err (other_error m)) = (page_error "Błędne hasło lub uszkodzony plik.", a)
import_answer a (err e) = (failed, a)

abbrev import_content : Fernet → Account → String → Option Config → Answer × Account
import_content F a passphrase none = (page_error "Nieprawidłowy plik konfiguracji.", a)
import_content F a passphrase (some config) = import_answer a (import_config F a config passphrase)

abbrev import_file : Fernet → Account → String → ImportFile → Answer × Account
import_file F a passphrase f =
    if ltb max_import_bytes f.size
    then (page_error "Plik jest za duży (limit 1 MB).", a)
    else import_content F a passphrase f.content

-- `connection_import`, with the user's data.
unfoldable pub connection_import :
    Fernet → Option User → Method → String → Option ImportFile → Account → Answer × Account
unfolding with_role import_config
connection_import F actor method passphrase upload a = with_role admin actor a (λ u.
    post_only method a (elim upload [
      | none ↦ (page_error "Wybierz plik i podaj hasło.", a)
      | some f ↦
          if not (truthy passphrase)
          then (page_error "Wybierz plik i podaj hasło.", a)
          else import_file F a passphrase f
    ]))

-- `connection_export`: the file, with the salt that is drawn for it.
unfoldable pub connection_export :
    Fernet → Option User → Method → String → String → Account → Answer × Option Config
unfolding with_role export_config
connection_export F actor method passphrase salt a = with_role admin actor none (λ u.
    post_only method none (
      if not (truthy passphrase)
      then (page_error "Podaj hasło do zaszyfrowania eksportu.", none)
      else (done, some (export_config F passphrase salt a))))
