-- ===== src/Worker/Rsync/Cleanup.antt =====
-- The temporary files of the rsync handler (services/worker/modules/rsync/handler.py): whatever
-- happens, `execute` leaves none that was written.
use tmask_tt.Base.{
  ◌⊎◌, ◌&&◌, ℕ, zero, suc, ◌+◌, ◌≡◌, refl, String, Bool, true, Option, none, some, List, [], ◌∷◌,
  arith, truthy, inl, inr, Bool-cases, eq_iff,
}
use tmask_tt.Base.Text.{codes}
use tmask_tt.Worker.{
  World, Result, Exn, Result-cases, ask, logged, ok, err, Eff, raise, pure, catch, finally, assign,
  ◌>>=◌, log, info, emit, when, progressed, unlink_held, remove,
}
use tmask_tt.Worker.Params.{Params, Tools, ExitCode, exited, or_text}
use tmask_tt.Worker.TempFiles.{with_file, is_named, NamesFiles, str_eq_refl, unlink_held_head}
use tmask_tt.Worker.Effects.{
  Files, files, KeepsFiles, bind-KeepsFiles, pure-KeepsFiles, lift-KeepsFiles, emit-KeepsFiles,
  when-KeepsFiles, if-KeepsFiles, keeping, outcome_cases, bind_ok, bind_err,
}
use tmask_tt.Worker.Files.{compare_hashes, remote_hash, verify_rsync, encrypt_file, make_temp}
use tmask_tt.Worker.Rsync.{
  report_line, report_lines, run_attempt, check_rsync_output, run_dry_run_precheck,
  verify_checksum_if_needed, retry_loop, max_retries, transfer_with_retries, transfer_prepared,
  set_up, setup_known_hosts, write_key, setup_ssh_key, encrypt_source_if_needed,
  gpg_as_transfer_error, execute_body, execute, clean_up, forget_paths,
}
use tmask_tt.Worker.Progress.{parse_progress}

report_line-KeepsFiles : (b : Bool) (line : String) → KeepsFiles (report_line b line)
unfolding report_line
report_line-KeepsFiles b line = go (parse_progress (codes line))
  where
    go :
        (percent : Option ℕ)
        → KeepsFiles (elim percent as (λ _. Eff (Unit {0})) [
          | some n ↦ when b (emit (progressed n))
          | none ↦ when (truthy line) (log info line)
        ])
    go none = search keeping
    go (some n) = search keeping

report_lines-KeepsFiles : (b : Bool) (lines : List String) → KeepsFiles (report_lines b lines)
unfolding report_lines
report_lines-KeepsFiles b [] = pure-KeepsFiles []
report_lines-KeepsFiles b (line ∷ lines) =
    bind-KeepsFiles (report_line-KeepsFiles b _)
      λ _. bind-KeepsFiles (report_lines-KeepsFiles b lines) λ kept. pure-KeepsFiles _

remote_hash-KeepsFiles : (answer : ExitCode × String × String) → KeepsFiles (remote_hash answer)
unfolding remote_hash
remote_hash-KeepsFiles answer = search keeping

compare_hashes-KeepsFiles :
    (here there local remote : String) → KeepsFiles (compare_hashes here there local remote)
unfolding compare_hashes
compare_hashes-KeepsFiles here there local remote = search keeping

verify_rsync-KeepsFiles :
    (T : Tools) (source : String) (prefix : List String) (remote : String)
    → KeepsFiles (verify_rsync T source prefix remote)
unfolding verify_rsync
verify_rsync-KeepsFiles T source prefix remote =
    search (keeping, remote_hash-KeepsFiles, compare_hashes-KeepsFiles) depth 8

module _ (T : Tools) (p : Params) where
  run_attempt-KeepsFiles : (cmd : List String) (b : Bool) → KeepsFiles (run_attempt T p cmd b)
  unfolding run_attempt
  run_attempt-KeepsFiles cmd b = search (keeping, report_lines-KeepsFiles) depth 8

  check_rsync_output-KeepsFiles :
      (code : ExitCode) (output : String) → KeepsFiles (check_rsync_output T p code output)
  unfolding check_rsync_output
  check_rsync_output-KeepsFiles code output = search keeping depth 8

  run_dry_run_precheck-KeepsFiles :
      (source dest known key : Option String)
      → KeepsFiles (run_dry_run_precheck T p source dest known key)
  unfolding run_dry_run_precheck
  run_dry_run_precheck-KeepsFiles source dest known key =
      search (keeping, run_attempt-KeepsFiles, check_rsync_output-KeepsFiles) depth 10

  retry_loop-KeepsFiles :
      (cmd : List String) (left attempt : ℕ) (last : ExitCode)
      → KeepsFiles (retry_loop T p cmd left attempt last)
  unfolding retry_loop
  retry_loop-KeepsFiles cmd zero attempt last = search keeping
  retry_loop-KeepsFiles cmd (suc left) attempt last = bind-KeepsFiles (emit-KeepsFiles _) λ _.
      bind-KeepsFiles (run_attempt-KeepsFiles cmd true) λ done.
        bind-KeepsFiles (check_rsync_output-KeepsFiles done.0 done.1) λ _.
          if-KeepsFiles _ (emit-KeepsFiles _)
            (bind-KeepsFiles (search keeping) λ _. retry_loop-KeepsFiles cmd left (attempt + 1) _)

  verify_checksum_if_needed-KeepsFiles :
      (use_gpg : Bool) (source dest known key : Option String)
      → KeepsFiles (verify_checksum_if_needed T p use_gpg source dest known key)
  unfolding verify_checksum_if_needed
  verify_checksum_if_needed-KeepsFiles use_gpg source dest known key =
      search (keeping, verify_rsync-KeepsFiles) depth 10

  transfer_prepared-KeepsFiles :
      (known key : Option String) (enc : Bool × Option String × Option String)
      → KeepsFiles (transfer_prepared T p known key enc)
  unfolding transfer_prepared transfer_with_retries
  transfer_prepared-KeepsFiles known key (use_gpg, source, dest) =
      bind-KeepsFiles (when-KeepsFiles _ (run_dry_run_precheck-KeepsFiles source dest known key))
        λ _. bind-KeepsFiles (lift-KeepsFiles _) λ cmd.
          bind-KeepsFiles (retry_loop-KeepsFiles cmd max_retries 1 (exited 0))
            λ _. verify_checksum_if_needed-KeepsFiles use_gpg source dest known key

-- The files that a run has made and holds: the encrypted copy before the key before the known hosts.
abbrev held_over : List String → Option String → Option String → Option String → List String
held_over base known key enc = with_file enc (with_file key (with_file known base))

record IsHeld (base : List String) (f : Files) : Type 0 where
  temps : f.0 ≡ held_over base f.2 f.3 f.1
  named_enc : is_named f.1 ≡ true
  named_known : is_named f.2 ≡ true
  named_key : is_named f.3 ≡ true

unlink_held_two :
    (k s : String) (ps : List String)
    → truthy k ≡ true
    → truthy s ≡ true
    → unlink_held (some s) (unlink_held (some k) (s ∷ k ∷ ps)) ≡ ps
unfolding unlink_held
unlink_held_two k s ps hk hs = ground (arith, str_eq_refl k, str_eq_refl s, eq_iff s k, eq_iff k s)

unlink_held_base :
    (base : List String) (known key : Option String)
    → is_named known ≡ true
    → is_named key ≡ true
    → unlink_held key (unlink_held known (with_file key (with_file known base))) ≡ base
unfolding unlink_held
unlink_held_base base none none hk hs = refl
unlink_held_base base none (some s) hk hs = unlink_held_head s base hs
unlink_held_base base (some k) none hk hs = unlink_held_head k base hk
unlink_held_base base (some k) (some s) hk hs = unlink_held_two k s base hk hs

unlink_held_enc :
    (enc : Option String) (ps : List String)
    → is_named enc ≡ true
    → unlink_held enc (with_file enc ps) ≡ ps
unfolding unlink_held
unlink_held_enc none ps h = refl
unlink_held_enc (some e) ps h = unlink_held_head e ps h

clean_up-IsHeld :
    (base : List String) (w : World) → IsHeld base (files w) → (clean_up w).temps ≡ base
unfolding clean_up
clean_up-IsHeld base w h =
    simp (h.temps, unlink_held_enc w.encrypted_path _ h.named_enc)
      (unlink_held_base base w.known_hosts_path w.ssh_key_path h.named_known h.named_key)

-- The files of a run whose set-up made the file of a path, in front of the known hosts, and could not
-- write it.
record IsStuck (base : List String) (path : String) (f : Files) : Type 0 where
  temps : f.0 ≡ path ∷ with_file f.2 base
  no_enc : f.1 ≡ none
  no_key : f.3 ≡ none
  named_known : is_named f.2 ≡ true

unlink_held_under :
    (path : String) (known : Option String) (base : List String)
    → is_named known ≡ true
    → unlink_held known (path ∷ with_file known base) ≡ path ∷ base
unfolding unlink_held
unlink_held_under path none base h = refl
unlink_held_under path (some k) base h = ground (arith, str_eq_refl k, eq_iff path k)

clean_up-IsStuck :
    (base : List String) (path : String) (w : World)
    → IsStuck base path (files w)
    → (clean_up w).temps ≡ path ∷ base
unfolding clean_up unlink_held
clean_up-IsStuck base path w h =
    simp (h.temps, h.no_enc, h.no_key)
      (unlink_held_under path w.known_hosts_path base h.named_known)

module _ (T : Tools) where
  -- A file whose text could not be written, for this reason.
  abbrev pub FailedWith : String → Exn → Type 0
  FailedWith path e = (v : World) × (text : String) × (T.write_temp v path text ≡ err e)

  -- A step that raised from files `f` left them as they were, or raised what the writing of one more did.
  abbrev Raises : Files → Exn → World → Type 0
  Raises f e w =
      (files w ≡ f)
      ⊎ ((path : String) × FailedWith path e × (files w ≡ (path ∷ f.0, f.1, f.2, f.3)))

  -- A step of the set-up from files `f` either returns with the files `after` what it returned, or raises.
  abbrev Steps : {A : Type 0} → Files → (A → Files) → (A → Bool) → Result A × World → Type 0
  Steps f after named (ok a, w) = (files w ≡ after a) × (named a ≡ true)
  Steps f after named (err e, w) = Raises f e w

  -- The step that makes the encrypted copy: it raises with the files as they were.
  abbrev Made : {A : Type 0} → World → (A → List String) → (A → Bool) → Result A × World → Type 0
  Made w after named (ok a, w') =
      (files w' ≡ (after a, w.encrypted_path, w.known_hosts_path, w.ssh_key_path))
      × (named a ≡ true)
  Made w after named (err e, w') = files w' ≡ files w

  -- What the set-up came to: each of its files is held, or it raised what the writing of one did.
  abbrev AreMade : {A : Type 0} → List String → Result A × World → Type 0
  AreMade base (r, w) =
      IsHeld base (files w)
      ⊎ ((path : String) × (e : Exn) × FailedWith path e
          × (r ≡ err e)
          × IsStuck base path (files w))

module _ (T : Tools) (law : NamesFiles T) (p : Params) where
  setup_known_hosts-Steps :
      (w : World)
      → Steps T
          (files w)
          (λ k. (with_file k w.temps, w.encrypted_path, w.known_hosts_path, w.ssh_key_path))
          is_named
          (setup_known_hosts T p w)
  unfolding setup_known_hosts make_temp ◌>>=◌ pure emit ask
  setup_known_hosts-Steps w =
      elim (Bool-cases (p.strict_host_key_checking && truthy p.known_host_key)) [
        | inr off ↦ rw (off, setup_known_hosts) (refl, refl)
        | inl checked ↦
            let path = T.temp_name w "_known_hosts" in
            let w1 : World = record w { temps = path ∷ w.temps } in
            elim (Result-cases (T.write_temp w1 path p.known_host_key)) [
              | inl (done, fine) ↦
                  rw (checked, setup_known_hosts, fine) (refl, law.names w "_known_hosts")
              | inr (e, failed) ↦
                  rw (checked, setup_known_hosts, failed)
                    (inr (path, (w1, p.known_host_key, failed), refl))
            ]
      ]

  write_key-Steps :
      (r : Result String) (w : World)
      → Steps T
          (files w)
          (λ k. (with_file k w.temps, w.encrypted_path, w.known_hosts_path, w.ssh_key_path))
          is_named
          (write_key T p r w)
  unfolding write_key make_temp ◌>>=◌ pure emit raise ask
  write_key-Steps (err e) w = inl refl
  write_key-Steps (ok key) w =
      let path = T.temp_name w "_ssh_key" in
      let w1 : World = record w { temps = path ∷ w.temps } in
      elim (Result-cases (T.write_temp w1 path key)) [
        | inl (done, fine) ↦ rw (fine, write_key) (refl, law.names w "_ssh_key")
        | inr (e, failed) ↦ rw (failed, write_key) (inr (path, (w1, key, failed), refl))
      ]

  setup_ssh_key-Steps :
      (w : World)
      → Steps T
          (files w)
          (λ k. (with_file k w.temps, w.encrypted_path, w.known_hosts_path, w.ssh_key_path))
          is_named
          (setup_ssh_key T p w)
  unfolding setup_ssh_key pure
  setup_ssh_key-Steps w = elim (Bool-cases (truthy p.ssh_key)) [
    | inl given ↦ rw (given, setup_ssh_key) (write_key-Steps _ w)
    | inr none_given ↦ rw (none_given, setup_ssh_key) (refl, refl)
  ]

  -- gpg's copy is removed again where gpg fails, so this step leaves nothing.
  encrypt_file-Keeps :
      (source passphrase : String) (w : World)
      → Made T w (λ e. e ∷ w.temps) truthy (encrypt_file T source passphrase w)
  unfolding encrypt_file remove
  encrypt_file-Keeps source passphrase w =
      ground (arith, law.names w ".gpg", str_eq_refl (T.temp_name w ".gpg"))

  encrypt_source-Keeps :
      (w : World)
      → Made T w
          (λ (use_gpg, e, d). with_file e w.temps)
          (λ (use_gpg, e, d). is_named e)
          (catch (encrypt_source_if_needed T p) (λ e. raise (gpg_as_transfer_error e)) w)
  unfolding encrypt_source_if_needed ◌>>=◌ pure emit raise catch
  encrypt_source-Keeps w =
      let w' : World = record w { events = logged info "GPG: szyfrowanie pliku..." ∷ w.events } in
      ground (arith, encrypt_file-Keeps p.source_path (or_text p.gpg_passphrase "") w')

  -- The set-up ends with its files made and held, or with one that could not be written.
  set_up-AreMade :
      (w : World)
      → w.encrypted_path ≡ none
      → w.known_hosts_path ≡ none
      → w.ssh_key_path ≡ none
      → AreMade T w.temps (set_up T p w)
  unfolding set_up ◌>>=◌ assign pure
  set_up-AreMade w he hk hs = elim (outcome_cases (setup_known_hosts T p w)) [
    | inr (x, w1, e1) ↦ elim (rw e1 at (setup_known_hosts-Steps w)) [
      | inl same ↦ inl (ground arith)
      | inr (path, failed, made) ↦ inr (path, x, failed, ground arith, ground arith)
    ]
    | inl (known, w1, e1) ↦
        let s1 = rw e1 at (setup_known_hosts-Steps w) in
        let v1 : World = record w1 { known_hosts_path = known } in
        elim (outcome_cases (setup_ssh_key T p v1)) [
          | inr (x, w2, e2) ↦ elim (rw e2 at (setup_ssh_key-Steps v1)) [
            | inl same ↦ inl (ground arith)
            | inr (path, failed, made) ↦ inr (path, x, failed, ground arith, ground arith)
          ]
          | inl (key, w2, e2) ↦
              let s2 = rw e2 at (setup_ssh_key-Steps v1) in
              let v2 : World = record w2 { ssh_key_path = key } in
              inl (ground (arith, encrypt_source-Keeps v2))
        ]
  ]

  -- An error is raised by a step and by what runs it alike.
  raised :
      {A B : Type 0} (x e : Exn)
      → ◌≡◌ {A = Result A} (err x) (err e)
      → ◌≡◌ {A = Result B} (err x) (err e)
  raised x e h = ground arith

  execute_body-AreMade : (w : World) → AreMade T w.temps (execute_body T p (forget_paths w))
  unfolding execute_body
  execute_body-AreMade w =
      let w0 = forget_paths w in
      let made = set_up-AreMade w0 refl refl refl in
      elim (outcome_cases (set_up T p w0)) [
        | inr (x, w1, e1) ↦ rw (bind_err _ _ w0 w1 x e1) (elim (rw e1 at made) [
          | inl held ↦ inl held
          | inr (path, e, failed, same, stuck) ↦ inr (path, e, failed, raised x e same, stuck)
        ])
        | inl ((known, key, enc), w1, e1) ↦ elim (rw e1 at made) [
          | inr (path, e, failed, same, stuck) ↦ absurd (ground arith)
          | inl held ↦ inl (
              rw
                (
                  bind_ok _ _ w0 w1 (known, key, enc) e1,
                  (transfer_prepared-KeepsFiles T p known key enc).keep w1,
                )
                held)
        ]
      ]

  -- Whatever the tools answer, and on every error, `execute` leaves the temporary files that were there
  -- before it and no other; or it raised what the writing of a temporary file did, and leaves that file too.
  -- The encrypted copy, and the known hosts and the key that were written, are removed.
  pub execute_leaves_no_files :
      (w : World)
      → ((execute T p w).1.temps ≡ w.temps)
        ⊎ ((path : String) × (e : Exn) × FailedWith T path e
            × ((execute T p w).0 ≡ err e)
            × ((execute T p w).1.temps ≡ path ∷ w.temps))
  unfolding execute finally
  execute_leaves_no_files w = elim (execute_body-AreMade w) [
    | inl held ↦ inl (clean_up-IsHeld w.temps _ held)
    | inr (path, e, failed, same, stuck) ↦
        inr (path, e, failed, same, clean_up-IsStuck w.temps path _ stuck)
  ]
