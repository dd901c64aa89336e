-- ===== src/Worker/Relay/Outcome.antt =====
-- What a relayed directory that is reported as complete has done
-- (services/worker/modules/relay/handler.py, `_transfer_file`, `_transfer_directory`).
use tmask_tt.Base.{
  ℕ, ◌+◌, ◌≡◌, ◌⊎◌, refl, ap, sym, ◌∙◌, String, ◌<>◌, Bool, true, false, some, List, [], ◌∷◌, arith,
  length, inl, inr, ltb, non_empty, if◌then◌else◌, Bool-cases,
}
use tmask_tt.Base.Str.{rstrip_char, strip, first_part, shell_quote}
use tmask_tt.Worker.{
  World, Result, ok, raise, catch, finally, ask, emit, when, pure, ◌>>=◌, ◌>>◌, log, info,
}
use tmask_tt.Worker.Params.{Tools, ExitCode}
use tmask_tt.Worker.Effects.{bind_inv}
use tmask_tt.Worker.Files.{make_temp}
use tmask_tt.Worker.Sftp.{Client, Ssh, hash_output}
use tmask_tt.Worker.Sftp.Outcome.{catch_inv, hash_output_ok, compare_hashes_ok}
use tmask_tt.Worker.Relay.{
  Remote, Stat, Bytes, verify_relay, verify_if, verify_error, dest_error, list_error, regular_files,
  copy_large, copy_small, find_stat, transfer_large, transfer_small, transfer_file, transfer_files,
  transfer_listed, transfer_directory, stream_threshold,
}

ask_inv : {A : Type 0} (f : World → Result A) (w : World) (a : A) → (ask f w).0 ≡ ok a → f w ≡ ok a
unfolding ask
ask_inv f w a h = h

module _ (T : Tools) (S : Ssh) (R : Remote) (verify : Bool) (src dst : Client) where
  -- The file was read from the source and written to the destination: through a file of the worker, or
  -- through memory with the same bytes.
  abbrev pub HasMoved : String → String → Type 0
  HasMoved from to =
      ((v w : World) × (path : String) × (R.get v src from path ≡ ok tt)
        × (R.put w dst path to ≡ ok tt))
      ⊎ ((v w : World) × (bytes : Bytes) × (R.getfo v src from ≡ ok bytes)
          × (R.putfo w dst bytes to ≡ ok tt))

  -- Both hosts gave the same hash.
  abbrev pub HasSameHash : String → String → Type 0
  HasSameHash from to =
      (v w : World) × (c c' : ExitCode) × (out out' errors errors' : String) × (S.exec_command v src
          ("sha256sum " <> shell_quote from)
        ≡ ok (c, out, errors))
      × (S.exec_command w dst ("sha256sum " <> shell_quote to) ≡ ok (c', out', errors'))
      × (first_part (strip out) ≡ first_part (strip out'))

  abbrev pub IsDelivered : String → String → Type 0
  IsDelivered from to = HasMoved from to × ((verify ≡ false) ⊎ HasSameHash from to)

  verify_relay_ok :
      (from to : String) (w : World)
      → (verify_relay T S R src from dst to w).0 ≡ ok tt
      → HasSameHash from to
  unfolding verify_relay ask
  verify_relay_ok from to w h =
      let ((c, out, errors), w1, e1, h1) =
        bind_inv (ask (λ v. S.exec_command v src ("sha256sum " <> shell_quote from))) _ w tt h in
      let (here, w2, e2, h2) = bind_inv (hash_output (c, out, errors)) _ w1 tt h1 in
      let ((c', out', errors'), w3, e3, h3) =
        bind_inv (ask (λ v. S.exec_command v dst ("sha256sum " <> shell_quote to))) _ w2 tt h2 in
      let (there, w4, e4, h4) = bind_inv (hash_output (c', out', errors')) _ w3 tt h3 in
      let (_, same) = hash_output_ok c out errors here w1 w2 e2 in
      let (_, same') = hash_output_ok c' out' errors' there w3 w4 e4 in
      (
        w,
        w2,
        c,
        c',
        out,
        out',
        errors,
        errors',
        ap (λ x. x.0) e1,
        ap (λ x. x.0) e3,
        same ∙ (compare_hashes_ok "source" "dest" here there w4 h4 ∙ sym same'),
      )

  verify_if_ok :
      (b : Bool) (from to : String) (w : World)
      → (verify_if T S R b src from dst to w).0 ≡ ok tt
      → (b ≡ false) ⊎ HasSameHash from to
  unfolding when
  verify_if_ok false from to w h = inl refl
  verify_if_ok true from to w h = inr (
      verify_relay_ok from to w
        (catch_inv (verify_relay T S R src from dst to) verify_error w tt h))

  copy_large_ok :
      (from to : String) (size : ℕ) (path : String) (w : World)
      → (copy_large T S R verify src dst from to size path w).0 ≡ ok tt
      → IsDelivered from to
  unfolding copy_large ask
  copy_large_ok from to size path w h =
      let (_, w1, e1, h1) = bind_inv (ask (λ v. R.get v src from path)) _ w tt h in
      let (_, w2, e2, h2) = bind_inv (log info _) _ w1 tt h1 in
      let (_, w3, e3, h3) = bind_inv (ask (λ v. R.put v dst path to)) _ w2 tt h2 in
      (inl (w, w2, path, ap (λ x. x.0) e1, ap (λ x. x.0) e3), verify_if_ok verify from to w3 h3)

  copy_small_ok :
      (from to : String) (w : World)
      → (copy_small T S R verify src dst from to w).0 ≡ ok tt
      → IsDelivered from to
  unfolding copy_small ask
  copy_small_ok from to w h =
      let (bytes, w1, e1, h1) = bind_inv (ask (λ v. R.getfo v src from)) _ w tt h in
      let (_, w2, e2, h2) = bind_inv (log info _) _ w1 tt h1 in
      let (_, w3, e3, h3) = bind_inv (ask (λ v. R.putfo v dst bytes to)) _ w2 tt h2 in
      (inr (w, w2, bytes, ap (λ x. x.0) e1, ap (λ x. x.0) e3), verify_if_ok verify from to w3 h3)

  transfer_small_ok :
      (from to : String) (w : World)
      → (transfer_small T S R verify src dst from to w).0 ≡ ok tt
      → IsDelivered from to
  unfolding transfer_small
  transfer_small_ok from to w h =
      copy_small_ok from to w
        (catch_inv (copy_small T S R verify src dst from to) dest_error w tt h)

  transfer_large_ok :
      (from to : String) (size : ℕ) (w : World)
      → (transfer_large T S R verify src dst from to size w).0 ≡ ok tt
      → IsDelivered from to
  unfolding transfer_large finally
  transfer_large_ok from to size w h =
      let (path, w1, e1, h1) = bind_inv (make_temp T "") _ w tt h in
      copy_large_ok from to size path w1
        (catch_inv (copy_large T S R verify src dst from to size path) dest_error w1 tt h1)

  transfer_file_ok :
      (from to : String) (st : Stat) (w : World)
      → (transfer_file T S R verify src dst from to (some st) w).0 ≡ ok tt
      → IsDelivered from to
  unfolding transfer_file
  transfer_file_ok from to st w h =
      let (found, w1, e1, h1) = bind_inv (find_stat T S R src from (some st)) _ w tt h in
      elim (Bool-cases (ltb stream_threshold found.size)) [
        | inl large ↦ transfer_large_ok from to found.size w1 (rw large at h1)
        | inr small ↦ transfer_small_ok from to w1 (rw small at h1)
      ]

  -- Each of the files was delivered under its own name.
  abbrev pub AllDelivered : String → String → List (String × Stat) → Type 0
  AllDelivered from to [] = Unit {0}
  AllDelivered from to ((name, st) ∷ files) =
      IsDelivered (from <> ("/" <> name)) (to <> ("/" <> name)) × AllDelivered from to files

  transfer_files_ok :
      (from to : String) (total i : ℕ) (files : List (String × Stat)) (w : World)
      → (transfer_files T S R verify src dst from to total i files w).0 ≡ ok tt
      → AllDelivered from to files
  unfolding transfer_files
  transfer_files_ok from to total i [] w h = tt
  transfer_files_ok from to total i ((name, st) ∷ files) w h =
      let (_, w1, e1, h1) = bind_inv (log info _) _ w tt h in
      let (_, w2, e2, h2) =
        bind_inv
          (transfer_file T S R verify src dst (from <> ("/" <> name)) (to <> ("/" <> name))
            (some st))
          _ w1 tt h1 in
      (
        transfer_file_ok (from <> ("/" <> name)) (to <> ("/" <> name)) st w1 (ap (λ x. x.0) e2),
        transfer_files_ok from to total (i + 1) files w2 h2,
      )

  transfer_listed_ok :
      (from to : String) (files : List (String × Stat)) (n : ℕ) (w : World)
      → (transfer_listed T S R verify src dst from to files w).0 ≡ ok n
      → (length files ≡ n) × AllDelivered (rstrip_char b'/' from) (rstrip_char b'/' to) files
  unfolding transfer_listed pure
  transfer_listed_ok from to files n w h =
      let (_, w1, e1, h1) = bind_inv (log info _) _ w n h in
      let (_, w2, e2, h2) =
        bind_inv
          (transfer_files T S R verify src dst (rstrip_char b'/' from) (rstrip_char b'/' to)
            (length files) 1 files)
          _ w1 n h1 in
      (
        ground arith,
        transfer_files_ok (rstrip_char b'/' from) (rstrip_char b'/' to) (length files) 1 files w1
            (ap (λ x. x.0) e2),
      )

  directory_ok :
      (from to : String) (files : List (String × Stat)) (n : ℕ) (w : World)
      → ((if non_empty files
            then transfer_listed T S R verify src dst from to files
            else (log info ("Source directory is empty: " <> from) >> pure 0))
          w).0
        ≡ ok n
      → (length files ≡ n) × AllDelivered (rstrip_char b'/' from) (rstrip_char b'/' to) files
  unfolding pure ◌>>=◌ emit
  directory_ok from to [] n w h = (ground arith, tt)
  directory_ok from to (f ∷ files) n w h = transfer_listed_ok from to (f ∷ files) n w h

  -- A directory that the handler reports with a number of files was listed at the source, the number
  -- is that of its regular files, and each of them was read from the source and written to the
  -- destination under its own name, with equal hashes where a checksum is asked for.
  pub transfer_directory_ok :
      (from to : String) (n : ℕ) (w : World)
      → (transfer_directory T S R verify src dst from to w).0 ≡ ok n
      → (v : World) × (entries : List (String × Stat)) × (R.listdir_attr v src from ≡ ok entries)
        × (length (regular_files entries) ≡ n)
        × AllDelivered (rstrip_char b'/' from) (rstrip_char b'/' to) (regular_files entries)
  unfolding transfer_directory
  transfer_directory_ok from to n w h =
      let (entries, w1, e1, h1) =
        bind_inv (catch (ask (λ v. R.listdir_attr v src from)) (λ e. raise (list_error from e))) _ w
          n h in
      let listed =
        catch_inv (ask (λ v. R.listdir_attr v src from)) (list_error from) w entries
          (ap (λ x. x.0) e1) in
      let (counted, delivered) = directory_ok from to (regular_files entries) n w1 h1 in
      (w, entries, ask_inv _ w entries listed, counted, delivered)
