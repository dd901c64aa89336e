-- ===== src/Worker/Relay.antt =====
-- The relay handler, which copies from one host to another through the worker
-- (services/worker/modules/relay/handler.py, config.py beside it), and the checksum it asks for
-- (services/worker/modules/checksum/handler.py, `verify_relay`).
pub mod Cleanup
pub mod Outcome
use tmask_tt.Base.{
  ℕ, ◌+◌, String, ◌<>◌, Bool, true, false, not, Option, none, some, List, [], ◌∷◌, ltb, ◌*◌,
  non_empty, length, if◌then◌else◌,
}
use tmask_tt.Base.Str.{rstrip_char, show, shell_quote}
use tmask_tt.Worker.{
  World, Result, ok, err, Exn, transfer_error, checksum_error, auth_error, timeout_error,
  file_not_found, os_error, message, Eff, pure, raise, ◌>>=◌, ◌>>◌, when, catch, finally, ask, emit,
  log, info, opened, closed, remove,
}
use tmask_tt.Worker.Params.{Params, Tools}
use tmask_tt.Worker.Files.{make_temp, compare_hashes}
use tmask_tt.Worker.Sftp.{Client, Ssh, hash_output}
use tmask_tt.Worker.Sftp

-- What the code reads of an `SFTPAttributes`; the size is `st_size or 0`.
pub record Stat : Type 0 where
  pub is_dir : Bool
  pub is_file : Bool
  pub size : ℕ

-- The bytes of a file.
abbrev pub Bytes : Type 0
Bytes = List ℕ

-- What the SFTP sessions and the system answer, beside the clients.
pub record Remote : Type 0 where
  pub open_sftp : World → Client → Result (Unit {0})
  pub stat : World → Client → String → Result Stat
  pub listdir_attr : World → Client → String → Result (List (String × Stat))
  -- `get` and `put` by a path of the worker, `getfo` and `putfo` by the bytes
  pub get : World → Client → String → String → Result (Unit {0})
  pub put : World → Client → String → String → Result (Unit {0})
  pub getfo : World → Client → String → Result Bytes
  pub putfo : World → Client → Bytes → String → Result (Unit {0})
  -- `os.path.basename`
  pub basename : String → String

-- RELAY_STREAM_THRESHOLD
abbrev pub stream_threshold : ℕ
stream_threshold = 100 * 1024 * 1024

-- `except OSError as e: raise RelayTransferError(f'DEST ERROR — {e}')`; a timeout and a missing file
-- are an `OSError` too.
abbrev pub dest_error : Exn → Exn
dest_error (os_error m) = transfer_error ("DEST ERROR — " <> m)
dest_error (timeout_error m) = transfer_error ("DEST ERROR — " <> m)
dest_error (file_not_found m) = transfer_error ("DEST ERROR — " <> m)
dest_error e = e

-- The `except` clauses of each `stat`.
abbrev pub stat_error : String → Exn → Exn
stat_error path (file_not_found m) = transfer_error ("SOURCE ERROR — FILE NOT FOUND: " <> path)
stat_error path (os_error m) = transfer_error ("SOURCE ERROR — " <> m)
stat_error path (timeout_error m) = transfer_error ("SOURCE ERROR — " <> m)
stat_error path e = e

-- `except IOError` of the listing.
abbrev pub list_error : String → Exn → Exn
list_error dir (os_error m) = transfer_error ("SOURCE ERROR — cannot list " <> (dir <> (": " <> m)))
list_error dir (timeout_error m) =
    transfer_error ("SOURCE ERROR — cannot list " <> (dir <> (": " <> m)))
list_error dir (file_not_found m) =
    transfer_error ("SOURCE ERROR — cannot list " <> (dir <> (": " <> m)))
list_error dir e = e

-- The `except` clauses of each `_connect` in `execute`, which take every exception.
abbrev pub side_error : String → Exn → Exn
side_error side (auth_error m) = transfer_error (side <> " ERROR — AUTH FAILED")
side_error side e = transfer_error (side <> (" ERROR — " <> message e))

-- `except ChecksumVerificationError as e: raise RelayTransferError(str(e))`
abbrev pub verify_error : Exn → Exn
verify_error (checksum_error m) = transfer_error m
verify_error e = e

-- `[e for e in entries if stat_module.S_ISREG(e.st_mode)]`
unfoldable pub regular_files : List (String × Stat) → List (String × Stat)
regular_files [] = []
regular_files ((name, st) ∷ entries) =
    let rest = regular_files entries in if st.is_file then (name, st) ∷ rest else rest

module _ (T : Tools) (S : Ssh) (R : Remote) where
  -- `_build_client` and `_connect`, which are written as in the SFTP handler.
  abbrev pub build_client : Params → Eff Client
  build_client p = Sftp.build_client T S p

  abbrev pub connect : Client → Params → Eff (Unit {0})
  connect client p = Sftp.connect T S p client

  -- `verify_relay`
  unfoldable pub verify_relay : Client → String → Client → String → Eff (Unit {0})
  unfolding hash_output compare_hashes
  verify_relay src src_path dst dst_path = do
    answer ← ask (λ w. S.exec_command w src ("sha256sum " <> shell_quote src_path))
    here ← hash_output answer
    answer' ← ask (λ w. S.exec_command w dst ("sha256sum " <> shell_quote dst_path))
    there ← hash_output answer'
    compare_hashes "source" "dest" here there

  abbrev pub verify_if : Bool → Client → String → Client → String → Eff (Unit {0})
  verify_if verify src src_path dst dst_path =
      when verify (catch (verify_relay src src_path dst dst_path) (λ e. raise (verify_error e)))

  -- The two ways of a file: through a temporary file, and through memory.
  unfoldable pub copy_large : Bool → Client → Client → String → String → ℕ → String → Eff (Unit {0})
  unfolding verify_relay
  copy_large verify src dst src_path dst_path size path = do
    ask (λ w. R.get w src src_path path)
    log info (R.basename src_path <> (": " <> (show size <> " bytes (tempfile)")))
    ask (λ w. R.put w dst path dst_path)
    verify_if verify src src_path dst dst_path

  unfoldable pub copy_small : Bool → Client → Client → String → String → Eff (Unit {0})
  unfolding verify_relay
  copy_small verify src dst src_path dst_path = do
    bytes ← ask (λ w. R.getfo w src src_path)
    log info (R.basename src_path <> (": " <> (show (length bytes) <> " bytes")))
    ask (λ w. R.putfo w dst bytes dst_path)
    verify_if verify src src_path dst dst_path

  unfoldable pub find_stat : Client → String → Option Stat → Eff Stat
  find_stat src path (some st) = pure st
  find_stat src path none = catch (ask (λ w. R.stat w src path)) (λ e. raise (stat_error path e))

  -- The `try` block of `_transfer_file` with its `finally` block, which removes the temporary file.
  unfoldable pub transfer_large : Bool → Client → Client → String → String → ℕ → Eff (Unit {0})
  unfolding make_temp remove copy_large
  transfer_large verify src dst src_path dst_path size = do
    path ← make_temp T ""
    finally
        (catch (copy_large verify src dst src_path dst_path size path) (λ e. raise (dest_error e)))
        (λ w. record w { temps = remove path w.temps })

  unfoldable pub transfer_small : Bool → Client → Client → String → String → Eff (Unit {0})
  unfolding copy_small
  transfer_small verify src dst src_path dst_path =
      catch (copy_small verify src dst src_path dst_path) (λ e. raise (dest_error e))

  -- `_transfer_file`
  unfoldable pub transfer_file :
      Bool → Client → Client → String → String → Option Stat → Eff (Unit {0})
  unfolding transfer_large transfer_small
  transfer_file verify src dst src_path dst_path given = do
    st ← find_stat src src_path given
    let large = transfer_large verify src dst src_path dst_path st.size
    let small = transfer_small verify src dst src_path dst_path
    if ltb stream_threshold st.size then large else small

  -- The loop of `_transfer_directory`, from the number of the next file.
  unfoldable pub transfer_files :
      Bool → Client → Client → String → String → ℕ → ℕ → List (String × Stat) → Eff (Unit {0})
  unfolding transfer_file
  transfer_files verify src dst source_dir dest_dir total i [] = pure tt
  transfer_files verify src dst source_dir dest_dir total i ((name, st) ∷ files) = do
    log info ("[" <> (show i <> ("/" <> (show total <> ("] " <> name)))))
    transfer_file verify src dst (source_dir <> ("/" <> name)) (dest_dir <> ("/" <> name)) (some st)
    transfer_files verify src dst source_dir dest_dir total (i + 1) files

  -- The rest of `_transfer_directory` on the regular files.
  unfoldable pub transfer_listed :
      Bool → Client → Client → String → String → List (String × Stat) → Eff ℕ
  unfolding transfer_files
  transfer_listed verify src dst source_dir dest_dir files = do
    log info ("Found " <> (show (length files) <> (" file(s) in " <> source_dir)))
    transfer_files verify src dst (rstrip_char b'/' source_dir) (rstrip_char b'/' dest_dir)
        (length files) 1 files
    pure (length files)

  -- `_transfer_directory`
  unfoldable pub transfer_directory : Bool → Client → Client → String → String → Eff ℕ
  unfolding transfer_listed
  transfer_directory verify src dst source_dir dest_dir = do
    entries ←
        catch (ask (λ w. R.listdir_attr w src source_dir)) (λ e. raise (list_error source_dir e))
    let files = regular_files entries
    let empty = log info ("Source directory is empty: " <> source_dir) >> pure 0
    let listed = transfer_listed verify src dst source_dir dest_dir files
    if non_empty files then listed else empty

  -- The two branches of `execute` on the source.
  unfoldable pub relay_directory : Params → Params → Client → Client → Eff (Unit {0})
  unfolding transfer_directory
  relay_directory sp dp src dst = do
    count ← transfer_directory sp.verify_checksum src dst sp.source_path dp.destination_path
    log info ("RELAY: " <> (show count <> " file(s) transferred"))

  unfoldable pub relay_file : Params → Params → Client → Client → Stat → Eff (Unit {0})
  unfolding transfer_file
  relay_file sp dp src dst st = do
    transfer_file sp.verify_checksum src dst sp.source_path dp.destination_path (some st)
    log info "RELAY: Transfer complete"

  -- The part of `execute` under `with … open_sftp()`.
  unfoldable pub copy_all : Params → Params → Client → Client → Eff (Unit {0})
  unfolding relay_directory relay_file
  copy_all sp dp src dst = do
    ask (λ w. R.open_sftp w src)
    ask (λ w. R.open_sftp w dst)
    st ← catch (ask (λ w. R.stat w src sp.source_path)) (λ e. raise (stat_error sp.source_path e))
    let directory = relay_directory sp dp src dst
    let file = relay_file sp dp src dst st
    if st.is_dir then directory else file

  -- The `try` block of `execute`.
  unfoldable pub relay : Params → Params → Client → Client → Eff (Unit {0})
  unfolding copy_all
  relay sp dp src dst = do
    log info ("SOURCE: Connecting to " <> (sp.host <> (":" <> show sp.port)))
    catch (connect src sp) (λ e. raise (side_error "SOURCE" e))
    log info ("DEST: Connecting to " <> (dp.host <> (":" <> show dp.port)))
    catch (connect dst dp) (λ e. raise (side_error "DEST" e))
    copy_all sp dp src dst

  unfoldable pub execute : Params → Params → Eff (Unit {0})
  unfolding relay
  execute sp dp = do
    src ← build_client sp
    emit (opened sp.host)
    dst ← build_client dp
    emit (opened dp.host)
    finally (relay sp dp src dst) (λ w. record w { events = closed ∷ closed ∷ w.events })
