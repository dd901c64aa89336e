-- ===== src/Worker.antt =====
-- What the worker's handlers do to the world, and the exceptions that they raise. A handler is a
-- function of the world: it returns its result, or what it raised, and the world after it.
-- The sources are under services/worker.
pub mod Params
pub mod Progress
pub mod Files
pub mod Effects
pub mod Starts
pub mod TempFiles
pub mod Rsync
pub mod Sftp
pub mod Relay
mod Tests
use tmask_tt.Base.{
  ℕ, suc, ◌+◌, ◌<◌, ◌≡◌, ◌⊎◌, inl, inr, refl, String, ◌<>◌, Bool, true, false, ◌&&◌, Option, none,
  some, List, [], ◌∷◌, str_eq, truthy, if◌then◌else◌,
}
use tmask_tt.Base.Text.{Text}

-- The level of a row of the log: 'info', 'warn', 'error'.
pub data Level : Type 0 where
  info warn error : Level

-- What a handler does that others can see.
pub data Event : Type 0 where
  -- `log_callback(level, message)` and `progress_callback(percent)`
  logged : Level → String → Event
  progressed : ℕ → Event
  -- a process started with its arguments
  started : List String → Event
  -- `time.sleep(seconds)`
  slept : ℕ → Event
  -- a text written to a file, by the file's path
  wrote : String → String → Event
  -- an SSH client or a connection of a database made for a host, and one closed
  opened : String → Event
  closed : Event
  -- `log_callback(level, message)` with a message that holds a part of a dump
  logged_text : Level → Text → Event
  -- a line written to the standard input of a process
  relayed : Text → Event
  -- a line of data written to a file, by the file's path
  wrote_line : String → Text → Event

-- An exception with the text that `str` gives of it. `TransferError` is the error class of the
-- handler at hand, the only one that its task expects.
pub data Exn : Type 0 where
  transfer_error : String → Exn
  gpg_error : String → Exn
  checksum_error : String → Exn
  -- `paramiko.AuthenticationException`, a subclass of `paramiko.SSHException`, and the latter
  auth_error : String → Exn
  ssh_error : String → Exn
  -- `TimeoutError`, `socket.timeout` and `socket.gaierror`; `FileNotFoundError`; any other `OSError`
  timeout_error : String → Exn
  file_not_found : String → Exn
  os_error : String → Exn
  timeout_expired : String → Exn
  value_error : String → Exn
  -- the `Error` class of the database's driver
  driver_error : String → Exn
  -- its subclass `OperationalError`
  operational_error : String → Exn
  other_error : String → Exn

-- `str(e)`
abbrev pub message : Exn → String
message (transfer_error m) = m
message (gpg_error m) = m
message (checksum_error m) = m
message (auth_error m) = m
message (ssh_error m) = m
message (timeout_error m) = m
message (file_not_found m) = m
message (os_error m) = m
message (timeout_expired m) = m
message (value_error m) = m
message (driver_error m) = m
message (operational_error m) = m
message (other_error m) = m

pub data Result {ℓ} (A : Type ℓ) : Type ℓ where
  ok : A → Result A
  err : Exn → Result A

pub Result-cases : {A : Type 0} (r : Result A) → ((a : A) × (r ≡ ok a)) ⊎ ((e : Exn) × (r ≡ err e))
Result-cases (ok a) = inl (a, refl)
Result-cases (err e) = inr (e, refl)

-- The events so far, the last one first; the temporary files that exist; and the variables of the
-- running handler that its `finally` block reads (`tmp_paths` with the last one first).
pub record World : Type 0 where
  pub events : List Event
  pub temps : List String
  pub encrypted_path : Option String
  pub known_hosts_path : Option String
  pub ssh_key_path : Option String
  pub tmp_paths : List String

abbrev pub Eff : Type 0 → Type 0
Eff A = World → Result A × World

unfoldable pub pure : {A : Type 0} → A → Eff A
pure a w = (ok a, w)

unfoldable pub raise : {A : Type 0} → Exn → Eff A
raise e w = (err e, w)

infixl 5 ◌>>=◌ ◌>>◌
unfoldable pub ◌>>=◌ : {A B : Type 0} → Eff A → (A → Eff B) → Eff B
◌>>=◌ m f w = let (r, w') = m w in elim r [ ok a ↦ f a w' | err e ↦ (err e, w') ]

abbrev pub ◌>>◌ : {B : Type 0} → Eff (Unit {0}) → Eff B → Eff B
m >> k = m >>= λ _. k

-- `if c: raise e`
unfoldable pub raise_if : Bool → Exn → Eff (Unit {0})
raise_if c e w = (if c then err e else ok tt, w)

-- `if c: …`
unfoldable pub when : Bool → Eff (Unit {0}) → Eff (Unit {0})
when true m = m
when false m = pure tt

-- `try: m except …: handle(e)`
unfoldable pub catch : {A : Type 0} → Eff A → (Exn → Eff A) → Eff A
catch m handle w = let (r, w') = m w in elim r [ ok a ↦ (ok a, w') | err e ↦ handle e w' ]

-- The result of a step as a value, for code that returns from an `except` clause.
unfoldable pub attempt : {A : Type 0} → Eff A → Eff (Result A)
attempt m w = let (r, w') = m w in (ok r, w')

-- `try: m finally: clean`, where `clean` raises nothing.
unfoldable pub finally : {A : Type 0} → Eff A → (World → World) → Eff A
finally m clean w = let (r, w') = m w in (r, clean w')

unfoldable pub emit : Event → Eff (Unit {0})
emit e w = (ok tt, record w { events = e ∷ w.events })

-- A computed result, and an answer of the tools about the world as it is.
unfoldable pub lift : {A : Type 0} → Result A → Eff A
lift r w = (r, w)

unfoldable pub ask : {A : Type 0} → (World → Result A) → Eff A
ask f w = (f w, w)

-- An assignment to a variable that the `finally` block reads.
unfoldable pub assign : (World → World) → Eff (Unit {0})
assign f w = (ok tt, f w)

abbrev pub log : Level → String → Eff (Unit {0})
log level text = emit (logged level text)

-- `os.unlink(path)` of a temporary file: the first entry of the path goes.
unfoldable pub remove : String → List String → List String
remove p [] = []
remove p (q ∷ ps) = if str_eq q p then ps else q ∷ remove p ps

-- `if path and os.path.exists(path): os.unlink(path)`; a path that no file has removes nothing.
unfoldable pub unlink_held : Option String → List String → List String
unfolding remove
unlink_held none ps = ps
unlink_held (some p) ps = if truthy p then remove p ps else ps
