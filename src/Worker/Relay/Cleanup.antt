-- ===== src/Worker/Relay/Cleanup.antt =====
-- The temporary files of the relay handler (services/worker/modules/relay/handler.py): whatever
-- happens, `execute` leaves none that was written.
use tmask_tt.Base.{ℕ, ◌+◌, ap, refl, String, Bool, Option, none, some, List, [], ◌∷◌, arith}
use tmask_tt.Worker.{World, finally, ◌>>=◌, remove}
use tmask_tt.Worker.Params.{Params, Tools}
use tmask_tt.Worker.Effects.{
  KeepsFiles, bind-KeepsFiles, pure-KeepsFiles, raise-KeepsFiles, emit-KeepsFiles, catch-KeepsFiles,
  keeping,
}
use tmask_tt.Worker.TempFiles.{Leftover, str_eq_refl}
use tmask_tt.Worker.Files.{make_temp}
use tmask_tt.Worker.Sftp.{Client, Ssh}
use tmask_tt.Worker.Sftp.Cleanup.{
  finally-KeepsFiles, hash_output-KeepsFiles, compare_hashes-KeepsFiles, build_client-Leaves,
  LeavesFailed, bind-Leaves, keeps-Leaves, connect-KeepsFiles,
}
use tmask_tt.Worker.Relay.{
  Remote, Stat, verify_relay, copy_large, copy_small, find_stat, transfer_large, transfer_small,
  transfer_file, transfer_files, transfer_listed, transfer_directory, relay_directory, relay_file,
  copy_all, relay, execute, dest_error,
}

module _ (T : Tools) (S : Ssh) (R : Remote) where
  verify_relay-KeepsFiles :
      (src : Client) (a : String) (dst : Client) (b : String)
      → KeepsFiles (verify_relay T S R src a dst b)
  unfolding verify_relay
  verify_relay-KeepsFiles src a dst b =
      search (keeping, hash_output-KeepsFiles, compare_hashes-KeepsFiles) depth 10

  copy_large-KeepsFiles :
      (v : Bool) (src dst : Client) (a b : String) (size : ℕ) (path : String)
      → KeepsFiles (copy_large T S R v src dst a b size path)
  unfolding copy_large
  copy_large-KeepsFiles v src dst a b size path = search (keeping, verify_relay-KeepsFiles) depth 10

  copy_small-KeepsFiles :
      (v : Bool) (src dst : Client) (a b : String) → KeepsFiles (copy_small T S R v src dst a b)
  unfolding copy_small
  copy_small-KeepsFiles v src dst a b = search (keeping, verify_relay-KeepsFiles) depth 10

  find_stat-KeepsFiles :
      (src : Client) (a : String) (st : Option Stat) → KeepsFiles (find_stat T S R src a st)
  unfolding find_stat
  find_stat-KeepsFiles src a none = search keeping
  find_stat-KeepsFiles src a (some st) = search keeping

  transfer_large-KeepsFiles :
      (v : Bool) (src dst : Client) (a b : String) (size : ℕ)
      → KeepsFiles (transfer_large T S R v src dst a b size)
  unfolding transfer_large make_temp finally ◌>>=◌ remove
  transfer_large-KeepsFiles v src dst a b size = record {
    keep = λ w.
        let path = T.temp_name w "" in
        let w1 : World = record w { temps = path ∷ w.temps } in
        let copy =
          catch-KeepsFiles (copy_large-KeepsFiles v src dst a b size path)
            (λ e. raise-KeepsFiles (dest_error e)) in
        ground (arith, copy.keep w1, str_eq_refl path);
  }

  transfer_file-KeepsFiles :
      (v : Bool) (src dst : Client) (a b : String) (st : Option Stat)
      → KeepsFiles (transfer_file T S R v src dst a b st)
  unfolding transfer_file transfer_small
  transfer_file-KeepsFiles v src dst a b st =
      search (keeping, find_stat-KeepsFiles, transfer_large-KeepsFiles, copy_small-KeepsFiles) depth
        10

  transfer_files-KeepsFiles :
      (v : Bool) (src dst : Client) (a b : String) (total i : ℕ) (fs : List (String × Stat))
      → KeepsFiles (transfer_files T S R v src dst a b total i fs)
  unfolding transfer_files
  transfer_files-KeepsFiles v src dst a b total i [] = pure-KeepsFiles tt
  transfer_files-KeepsFiles v src dst a b total i ((name, st) ∷ fs) =
      bind-KeepsFiles (emit-KeepsFiles _) λ _.
        bind-KeepsFiles (transfer_file-KeepsFiles v src dst _ _ (some st))
          λ _. transfer_files-KeepsFiles v src dst a b total (i + 1) fs

  transfer_directory-KeepsFiles :
      (v : Bool) (src dst : Client) (a b : String)
      → KeepsFiles (transfer_directory T S R v src dst a b)
  unfolding transfer_directory transfer_listed
  transfer_directory-KeepsFiles v src dst a b = search (keeping, transfer_files-KeepsFiles) depth 10

  relay-KeepsFiles : (sp dp : Params) (src dst : Client) → KeepsFiles (relay T S R sp dp src dst)
  unfolding relay copy_all relay_directory relay_file
  relay-KeepsFiles sp dp src dst =
      search (keeping, transfer_directory-KeepsFiles, transfer_file-KeepsFiles, connect-KeepsFiles)
        depth 14

  execute-Leaves : (sp dp : Params) → LeavesFailed T (execute T S R sp dp)
  unfolding execute
  execute-Leaves sp dp = bind-Leaves T (build_client-Leaves T S sp) (λ src.
      bind-Leaves T (keeps-Leaves T (emit-KeepsFiles _)) (λ _.
        bind-Leaves T (build_client-Leaves T S dp) (λ dst. keeps-Leaves T (
          bind-KeepsFiles (emit-KeepsFiles _)
            λ _. finally-KeepsFiles _ (relay-KeepsFiles sp dp src dst) (λ w. refl)))))

  -- Whatever the two hosts answer, and on every error, the temporary files after the relay are those that
  -- were there before it, with nothing in front of them but files whose own text could not be written, also
  -- after a directory with large files.
  relay_leaves_no_files :
      (sp dp : Params) (w : World) → Leftover T w.temps (execute T S R sp dp w).1.temps
  relay_leaves_no_files sp dp w =
      let (left, failed, e) = (execute-Leaves sp dp).leaves w in (left, failed, ap (λ f. f.0) e)
