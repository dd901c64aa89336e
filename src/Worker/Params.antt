-- ===== src/Worker/Params.antt =====
-- The parameters that a task hands to a handler (services/worker/tasks.py, `_build_params`), and what
-- the handlers ask of the processes and libraries around them.
use tmask_tt.Base.{
  ℕ, String, Bool, true, false, Option, none, some, List, ◌==◌, ◌<>◌, truthy, if◌then◌else◌,
}
use tmask_tt.Base.Str.{show}
use tmask_tt.Worker.{World, Result, Exn, ssh_error, auth_error}

-- A set of parameters: the keys that the handlers read.
pub record Params : Type 0 where
  pub host : String
  pub port : ℕ
  pub username : String
  pub password : String
  pub ssh_key : String
  pub ssh_key_passphrase : String
  pub source_path : String
  pub destination_path : String
  pub compress : Bool
  pub encrypt : Bool
  pub gpg_passphrase : Option String
  pub strict_host_key_checking : Bool
  pub known_host_key : String
  pub dry_run : Bool
  pub verify_checksum : Bool

-- What a finished process leaves: its lines and its exit code. A process that a signal ended has a
-- negative code, which is `killed`.
pub data ExitCode : Type 0 where
  exited : ℕ → ExitCode
  killed : ℕ → ExitCode

pub record Finished : Type 0 where
  pub lines : List String
  pub code : ExitCode

-- KEY_CLASSES
pub data KeyClass : Type 0 where
  rsa ed25519 ecdsa dss : KeyClass

-- The programs and libraries that the handlers call. Each answer may depend on all that happened
-- before, which the world holds.
pub record Tools : Type 0 where
  -- `subprocess.Popen(cmd)` read to its end, or what it raises
  pub run : World → List String → Result Finished
  -- the name that `tempfile` picks for a suffix
  pub temp_name : World → String → String
  -- `subprocess.run(cmd, capture_output=True)`: the exit code, the output and the errors
  pub capture : World → List String → Result (ExitCode × String × String)
  -- a text written to the file of a path that `tempfile` made, or what writing it raises; for a key it is
  -- `write_private_key`
  pub write_temp : World → String → String → Result (Unit {0})
  -- `key_class.from_private_key(key, passphrase)`: the key, by the text that `write_private_key` writes
  pub from_private_key : KeyClass → String → Option String → Result String
  -- `gpg` on a source file with a passphrase, into an output file: the exit code and its stderr
  pub gpg : World → String → String → String → Result (ExitCode × String)
  -- the SHA-256 of a local file, or what reading it raises
  pub local_sha256 : World → String → Result String

-- `str(code)`
abbrev pub show_code : ExitCode → String
show_code (exited n) = show n
show_code (killed n) = "-" <> show n

abbrev pub is_code : ℕ → ExitCode → Bool
is_code n (exited m) = m == n
is_code n (killed m) = false

-- `override or value`
abbrev pub or_text : Option String → String → String
or_text none value = value
or_text (some s) value = if truthy s then s else value

-- `isinstance(e, paramiko.SSHException)`
abbrev pub is_ssh_error : Exn → Bool
is_ssh_error (ssh_error m) = true
is_ssh_error (auth_error m) = true
is_ssh_error _ = false

-- `value or None`
abbrev pub none_if_empty : String → Option String
none_if_empty s = if truthy s then some s else none

-- `gpg_passphrase` as `bool` sees it.
abbrev pub is_given : Option String → Bool
is_given none = false
is_given (some s) = truthy s
