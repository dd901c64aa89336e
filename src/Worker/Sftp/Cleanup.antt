-- ===== src/Worker/Sftp/Cleanup.antt =====
-- The temporary files of the SFTP handler (services/worker/modules/sftp/handler.py): whatever
-- happens, `execute` leaves none that was written.
use mathlib.Core.List.{append_assoc}
use tmask_tt.Base.{
  true, false, sym, ◌++◌, ℕ, zero, suc, ◌+◌, ◌≡◌, refl, ap, ◌∙◌, String, Bool, ◌&&◌, none, List, [],
  ◌∷◌, arith, truthy, inl, inr, Bool-cases, if◌then◌else◌,
}
use tmask_tt.Worker.{
  World, Result, Result-cases, logged, ok, err, Eff, raise, pure, catch, finally, attempt, assign,
  ask, ◌>>=◌, info, warn, emit, when, remove,
}
use tmask_tt.Worker.Params.{Params, Tools, ExitCode}
use tmask_tt.Worker.Effects.{
  Files, files, KeepsFiles, bind-KeepsFiles, pure-KeepsFiles, raise-KeepsFiles, emit-KeepsFiles,
  catch-KeepsFiles, keeping, outcome_cases, bind_ok, bind_err,
}
use tmask_tt.Worker.TempFiles.{
  NamesFiles, str_eq_refl, with_file, is_named, AreFailed, AreFailed-append, Leftover,
  unlink_held_behind,
}
use tmask_tt.Worker.Files.{compare_hashes, encrypt_file, make_temp}
use tmask_tt.Worker.Sftp.{
  Client, Ssh, hash_output, load_known_hosts, build_client, connect, verify_sftp,
  verify_checksum_sftp, report_calls, put_file, transfer_connected, transfer_once, attempts,
  prepare, execute_body, execute, clean_up, forget_path, is_timeout, max_retries, close,
}

-- A `finally` block that only adds events.
pub finally-KeepsFiles :
    {A : Type 0} {m : Eff A} (f : World → World)
    → KeepsFiles m
    → ((w : World) → files (f w) ≡ files w)
    → KeepsFiles (finally m f)
unfolding finally
finally-KeepsFiles {m = m} f h k = record { keep = λ w. k (m w).1 ∙ h.keep w }

pub hash_output-KeepsFiles : (answer : ExitCode × String × String) → KeepsFiles (hash_output answer)
unfolding hash_output
hash_output-KeepsFiles answer = search keeping

pub compare_hashes-KeepsFiles :
    (here there local remote : String) → KeepsFiles (compare_hashes here there local remote)
unfolding compare_hashes
compare_hashes-KeepsFiles here there local remote = search keeping

-- The files of a world are those of another with nothing in front of them but files that could not be
-- written.
abbrev pub LeftBy : Tools → World → World → Type 0
LeftBy T w v =
    (left : List String) × AreFailed T left
    × (files v ≡ (left ++ w.temps, w.encrypted_path, w.known_hosts_path, w.ssh_key_path))

pub record LeavesFailed (T : Tools) {A : Type 0} (m : Eff A) : Type 0 where
  pub leaves : (w : World) → LeftBy T w (m w).1

module _ (T : Tools) where
  LeftBy-trans : (u v w : World) → LeftBy T u v → LeftBy T v w → LeftBy T u w
  LeftBy-trans u v w (left, failed, e) (left', failed', e') = (
    left' ++ left,
    AreFailed-append T left' left failed' failed,
    e'
        ∙ ap (λ (f : Files). (left' ++ f.0, f.1, f.2, f.3)) e
        ∙ ap (λ ps. (ps, u.encrypted_path, u.known_hosts_path, u.ssh_key_path))
            (sym (append_assoc left' left u.temps)),
  )

  pub keeps-Leaves : {A : Type 0} {m : Eff A} → KeepsFiles m → LeavesFailed T m
  keeps-Leaves h = record { leaves = λ w. ([], tt, h.keep w) }

  if-Leaves :
      {A : Type 0} (b : Bool) {m m' : Eff A}
      → LeavesFailed T m
      → LeavesFailed T m'
      → LeavesFailed T (if b then m else m')
  if-Leaves true h h' = h
  if-Leaves false h h' = h'

  attempt-Leaves : {A : Type 0} {m : Eff A} → LeavesFailed T m → LeavesFailed T (attempt m)
  unfolding attempt
  attempt-Leaves h = record { leaves = λ w. h.leaves w }

  pub bind-Leaves :
      {A B : Type 0} {m : Eff A} {f : A → Eff B}
      → LeavesFailed T m
      → ((a : A) → LeavesFailed T (f a))
      → LeavesFailed T (m >>= f)
  unfolding ◌>>=◌
  bind-Leaves {A} {B} {m} {f} hm hf = record { leaves = λ w. go (m w).0 (m w).1 w (hm.leaves w) }
    where
      go :
          (r : Result A) (w' w : World)
          → LeftBy T w w'
          → LeftBy T w (elim r as (λ _. Result B × World) [ ok a ↦ f a w' | err e ↦ (err e, w') ]).1
      go (ok a) w' w k = LeftBy-trans w w' (f a w').1 k ((hf a).leaves w')
      go (err e) w' w k = k

  again-Leaves :
      (r : Result (Unit {0})) {again : Eff (Unit {0})}
      → LeavesFailed T again
      → LeavesFailed T (elim r as (λ _. Eff (Unit {0})) [
        | ok done ↦ pure tt
        | err e ↦ if is_timeout e then again else raise e
      ])
  again-Leaves (ok done) h = keeps-Leaves (pure-KeepsFiles tt)
  again-Leaves (err e) h = if-Leaves (is_timeout e) h (keeps-Leaves (raise-KeepsFiles e))

module _ (T : Tools) (S : Ssh) (p : Params) where
  pub connect-KeepsFiles : (client : Client) → KeepsFiles (connect T S p client)
  unfolding connect
  connect-KeepsFiles client = search keeping

  verify_checksum_sftp-KeepsFiles :
      (client : Client) (source dest : String) (use_gpg : Bool)
      → KeepsFiles (verify_checksum_sftp T S p client source dest use_gpg)
  unfolding verify_checksum_sftp verify_sftp
  verify_checksum_sftp-KeepsFiles client source dest use_gpg =
      search (keeping, hash_output-KeepsFiles, compare_hashes-KeepsFiles) depth 10

  report_calls-KeepsFiles : (calls : List (ℕ × ℕ)) → KeepsFiles (report_calls T S p calls)
  unfolding report_calls
  report_calls-KeepsFiles [] = search keeping
  report_calls-KeepsFiles ((done, total) ∷ calls) =
      bind-KeepsFiles (search keeping) λ _. report_calls-KeepsFiles calls

  put_file-KeepsFiles :
      (client : Client) (source dest : String) → KeepsFiles (put_file T S p client source dest)
  unfolding put_file
  put_file-KeepsFiles client source dest = search (keeping, report_calls-KeepsFiles) depth 8

  transfer_connected-KeepsFiles :
      (client : Client) (source dest : String) (use_gpg : Bool)
      → KeepsFiles (transfer_connected T S p client source dest use_gpg)
  unfolding transfer_connected
  transfer_connected-KeepsFiles client source dest use_gpg =
      search (keeping, connect-KeepsFiles, put_file-KeepsFiles, verify_checksum_sftp-KeepsFiles)
        depth 12

  load_known_hosts-Leaves : LeavesFailed T (load_known_hosts T S p)
  unfolding load_known_hosts make_temp remove finally ◌>>=◌ emit ask
  load_known_hosts-Leaves = record {
    leaves = λ w.
        let path = T.temp_name w "_known_hosts" in
        let w1 : World = record w { temps = path ∷ w.temps } in
        elim (Result-cases (T.write_temp w1 path p.known_host_key)) [
          | inl (done, fine) ↦
              rw (fine, load_known_hosts) ([], tt, ground (arith, str_eq_refl path))
          | inr (e, failed) ↦
              rw (failed, load_known_hosts)
                (path ∷ [], ((w1, p.known_host_key, e, failed), tt), refl)
        ];
  }

  pub build_client-Leaves : LeavesFailed T (build_client T S p)
  unfolding build_client
  build_client-Leaves =
      if-Leaves T _
        (if-Leaves T _ (keeps-Leaves T (raise-KeepsFiles _))
          (bind-Leaves T load_known_hosts-Leaves (λ _. keeps-Leaves T (pure-KeepsFiles _))))
        (keeps-Leaves T (pure-KeepsFiles _))

  transfer_once-Leaves :
      (source dest : String) (use_gpg : Bool)
      → LeavesFailed T (transfer_once T S p source dest use_gpg)
  unfolding transfer_once
  transfer_once-Leaves source dest use_gpg = bind-Leaves T build_client-Leaves (λ client.
      keeps-Leaves T (
        bind-KeepsFiles (emit-KeepsFiles _) λ _.
          finally-KeepsFiles (close T S p)
            (catch-KeepsFiles (transfer_connected-KeepsFiles client source dest use_gpg)
              λ e. raise-KeepsFiles _)
            (λ w. refl)))

  attempts-Leaves :
      (source dest : String) (use_gpg : Bool) (left n : ℕ)
      → LeavesFailed T (attempts T S p source dest use_gpg left n)
  unfolding attempts
  attempts-Leaves source dest use_gpg zero n = keeps-Leaves T (raise-KeepsFiles _)
  attempts-Leaves source dest use_gpg (suc left) n =
      bind-Leaves T (attempt-Leaves T (transfer_once-Leaves source dest use_gpg)) (λ result.
        again-Leaves T result (
          bind-Leaves T (keeps-Leaves T (search keeping))
            (λ _. attempts-Leaves source dest use_gpg left (n + 1))))

  -- The copy that `prepare` made is held, and no other file is made.
  prepare_held :
      (w : World)
      → w.encrypted_path ≡ none
      → NamesFiles T
      → let w' = (prepare T S p w).1 in
        (w'.temps ≡ with_file w'.encrypted_path w.temps) × (is_named w'.encrypted_path ≡ true)
  unfolding prepare encrypt_file remove ◌>>=◌ emit pure raise catch assign
  prepare_held w fresh law =
      let w' : World = record w { events = logged info "GPG: szyfrowanie pliku..." ∷ w.events } in
      ground (arith, law.names w' ".gpg", str_eq_refl (T.temp_name w' ".gpg"))

  -- What the `finally` block leaves behind a step that leaves files that could not be written.
  clean_up_held :
      (base : List String) (w v : World)
      → w.temps ≡ with_file w.encrypted_path base
      → is_named w.encrypted_path ≡ true
      → LeftBy T w v
      → Leftover T base (clean_up v).temps
  unfolding clean_up
  clean_up_held base w v held named (left, failed, e) =
      rw (ap (λ f. f.0) e, ap (λ f. f.1) e, held)
        (unlink_held_behind T left w.encrypted_path base failed named)

  execute_body_held :
      (w : World)
      → w.encrypted_path ≡ none
      → NamesFiles T
      → Leftover T w.temps (clean_up (execute_body T S p w).1).temps
  unfolding execute_body
  execute_body_held w fresh law =
      let (held, named) = prepare_held w fresh law in
      elim (outcome_cases (prepare T S p w)) [
        | inr (x, w1, e1) ↦
            rw (bind_err _ _ w w1 x e1)
              (clean_up_held w.temps w1 w1 (rw e1 at held) (rw e1 at named) ([], tt, refl))
        | inl ((use_gpg, source, dest), w1, e1) ↦ rw (bind_ok _ _ w w1 (use_gpg, source, dest) e1) (
            clean_up_held w.temps w1 _ (rw e1 at held) (rw e1 at named)
              ((attempts-Leaves source dest use_gpg max_retries 1).leaves w1))
      ]

  -- Whatever paramiko and the tools answer, and on every error, the temporary files after `execute` are
  -- those that were there before it, with nothing in front of them but files whose own text could not be
  -- written: the encrypted copy, and the known hosts that were written, are removed.
  pub execute_leaves_no_copy :
      NamesFiles T → (w : World) → Leftover T w.temps (execute T S p w).1.temps
  unfolding execute finally ◌>>=◌ assign when emit pure
  execute_leaves_no_copy law w =
      elim (Bool-cases (p.strict_host_key_checking && truthy p.known_host_key)) [
        | inl checked ↦ rw (checked, execute) (execute_body_held (forget_path w) refl law)
        | inr unchecked ↦
            rw (unchecked, execute)
              (execute_body_held
                (forget_path
                  (emit
                    (logged warn
                      "Host key verification DISABLED — connection is vulnerable to MITM")
                    w).1)
                refl law)
      ]
