-- ===== src/Worker/Sftp/Progress.antt =====
-- A transfer over SFTP with a host that answers, or that times out
-- (services/worker/modules/sftp/handler.py).
use tmask_tt.Base.{
  ℕ, zero, suc, ◌+◌, ◌≡◌, refl, String, ◌<>◌, Bool, true, false, ◌&&◌, not, none, List, [], ◌∷◌,
  arith, truthy, ◌==◌,
}
use tmask_tt.Worker.{
  World, Event, logged, warn, Result, ok, err, Exn, transfer_error, timeout_error, Eff, raise, pure,
  catch, finally, attempt, assign, ask, lift, emit, when, ◌>>=◌,
}
use tmask_tt.Worker.Params.{Params, Tools, is_given}
use tmask_tt.Worker.Sftp.{
  Client, ConnectArgs, Ssh, build_client, connect_args, connect, verify_checksum_sftp, report_calls,
  put_file, transfer_connected, transfer_once, attempts, prepare, execute_body, execute,
  forget_path, max_retries, pause, once_error, connect_error,
}

-- A transfer with neither gpg, nor a key, nor a host key to check, nor a checksum.
pub record IsPlain (p : Params) : Type 0 where
  pub no_gpg : is_given p.gpg_passphrase ≡ false
  pub no_key : truthy p.ssh_key ≡ false
  pub lax : p.strict_host_key_checking ≡ false
  pub no_checksum : p.verify_checksum ≡ false

-- A host that lets every client in and takes every file, after any number of progress calls.
pub record Answers (S : Ssh) : Type 0 where
  pub connects : (w : World) (c : Client) (args : ConnectArgs) → S.connect w c args ≡ ok tt
  pub puts : (w : World) (c : Client) (source dest : String) → (S.put w c source dest).1 ≡ ok tt

-- A host that no client reaches in time.
abbrev pub IsUnreachable : Ssh → Type 0
IsUnreachable S =
    (w : World) (c : Client) (args : ConnectArgs)
    → (text : String) × (S.connect w c args ≡ err (timeout_error text))

-- A step that returns a value, and one that times out, in every world.
record Returns {A : Type 0} (m : Eff A) (a : A) : Type 0 where
  at : (w : World) → (m w).0 ≡ ok a

record TimesOut {A : Type 0} (m : Eff A) : Type 0 where
  at : (w : World) → (text : String) × ((m w).0 ≡ err (timeout_error text))

module _ {A B : Type 0} {m : Eff A} (f : A → Eff B) where
  bind-Returns : {a : A} {b : B} → Returns m a → Returns (f a) b → Returns (m >>= f) b
  unfolding ◌>>=◌
  bind-Returns {a} h k = record { at = λ w. ground (arith, h.at w, k.at (m w).1) }

  bind-TimesOut : {a : A} → Returns m a → TimesOut (f a) → TimesOut (m >>= f)
  unfolding ◌>>=◌
  bind-TimesOut {a} h k = record {
    at = λ w. let (text, late) = k.at (m w).1 in (text, ground (arith, h.at w, late));
  }

  bind-TimesOut_first : TimesOut m → TimesOut (m >>= f)
  unfolding ◌>>=◌
  bind-TimesOut_first h = record {
    at = λ w. let (text, late) = h.at w in (text, ground (arith, late));
  }

when-Returns : (b : Bool) (e : Event) → Returns (when b (emit e)) tt
unfolding when emit pure
when-Returns true e = record { at = λ w. refl }
when-Returns false e = record { at = λ w. refl }

emit-Returns : (e : Event) → Returns (emit e) tt
unfolding emit
emit-Returns e = record { at = λ w. refl }

pure-Returns : {A : Type 0} (a : A) → Returns (pure a) a
unfolding pure
pure-Returns a = record { at = λ w. refl }

module _ {A : Type 0} {m : Eff A} where
  catch-Returns : {a : A} (h : Exn → Eff A) → Returns m a → Returns (catch m h) a
  unfolding catch
  catch-Returns h r = record { at = λ w. ground (arith, r.at w) }

  catch-TimesOut :
      (f : Exn → Exn)
      → ((text : String) → f (timeout_error text) ≡ timeout_error text)
      → TimesOut m
      → TimesOut (catch m (λ e. raise (f e)))
  unfolding catch raise
  catch-TimesOut f same r = record {
    at = λ w. let (text, late) = r.at w in (text, ground (arith, late, same text));
  }

finally-Returns :
    {A : Type 0} {m : Eff A} {a : A} (clean : World → World)
    → Returns m a
    → Returns (finally m clean) a
unfolding finally
finally-Returns clean r = record { at = λ w. r.at w }

finally-TimesOut :
    {A : Type 0} {m : Eff A} (clean : World → World) → TimesOut m → TimesOut (finally m clean)
unfolding finally
finally-TimesOut clean r = record { at = λ w. r.at w }

module _ (T : Tools) (S : Ssh) (p : Params) where
  report_calls-Returns : (calls : List (ℕ × ℕ)) → Returns (report_calls T S p calls) tt
  unfolding report_calls
  report_calls-Returns [] = pure-Returns tt
  report_calls-Returns ((done, total) ∷ calls) =
      bind-Returns _ (when-Returns (not (total == 0)) _) (report_calls-Returns calls)

  connect_args-ok : IsPlain p → (args : ConnectArgs) × (connect_args T S p ≡ ok args)
  unfolding connect_args
  connect_args-ok plain = go (connect_args T S p) refl
    where
      go :
          (r : Result ConnectArgs)
          → connect_args T S p ≡ r
          → (args : ConnectArgs) × (connect_args T S p ≡ ok args)
      go (ok args) e = (args, e)
      go (err x) e = absurd (ground (arith, plain.no_key))

  connect-Returns : IsPlain p → Answers S → (c : Client) → Returns (connect T S p c) tt
  unfolding connect ◌>>=◌ lift ask
  connect-Returns plain answers c =
      let (args, e) = connect_args-ok plain in
      record { at = λ w. rw (e, connect) (answers.connects w c args) }

  connect-TimesOut : IsPlain p → IsUnreachable S → (c : Client) → TimesOut (connect T S p c)
  unfolding connect ◌>>=◌ lift ask
  connect-TimesOut plain away c =
      let (args, e) = connect_args-ok plain in
      record { at = λ w. let (text, late) = away w c args in (text, rw (e, connect) late) }

  put_file-Returns :
      Answers S → (c : Client) (source dest : String) → Returns (put_file T S p c source dest) tt
  unfolding put_file ◌>>=◌ ask lift
  put_file-Returns answers c source dest = record {
    at = λ w. ground (
      arith,
      (report_calls-Returns (S.put w c source dest).0).at w,
      answers.puts w c source dest,
    );
  }

  build_client-Returns :
      IsPlain p
      → Returns (build_client T S p) (record { host_keys = none; rejects_unknown = false })
  unfolding build_client pure
  build_client-Returns plain = record { at = λ w. rw (plain.lax, build_client) refl }

  verify_checksum_sftp-Returns :
      IsPlain p
      → (c : Client) (source dest : String)
      → Returns (verify_checksum_sftp T S p c source dest false) tt
  unfolding verify_checksum_sftp pure
  verify_checksum_sftp-Returns plain c source dest = record {
    at = λ w. rw (plain.no_checksum, verify_checksum_sftp) refl;
  }

  transfer_once-Returns :
      IsPlain p
      → Answers S
      → (source dest : String) → Returns (transfer_once T S p source dest false) tt
  unfolding transfer_once transfer_connected
  transfer_once-Returns plain answers source dest = bind-Returns _ (build_client-Returns plain) (
      bind-Returns _ (emit-Returns _) (
        finally-Returns _ (
          catch-Returns _ (
            bind-Returns _ (emit-Returns _) (
              bind-Returns _ (catch-Returns _ (connect-Returns plain answers _)) (
                bind-Returns _ (emit-Returns _) (
                  bind-Returns _ (emit-Returns _) (
                    bind-Returns _ (put_file-Returns answers _ source dest) (
                      bind-Returns _ (verify_checksum_sftp-Returns plain _ source dest)
                        (emit-Returns _))))))))))

  transfer_once-TimesOut :
      IsPlain p
      → IsUnreachable S
      → (source dest : String) → TimesOut (transfer_once T S p source dest false)
  unfolding transfer_once transfer_connected
  transfer_once-TimesOut plain away source dest = bind-TimesOut _ (build_client-Returns plain) (
      bind-TimesOut _ (emit-Returns _) (
        finally-TimesOut _ (
          catch-TimesOut (once_error source) (λ text. refl)
            (bind-TimesOut _ (emit-Returns _) (
              bind-TimesOut_first _
                (catch-TimesOut connect_error (λ text. refl) (connect-TimesOut plain away _)))))))

  pause-Returns : (n : ℕ) → Returns (pause T S p n) tt
  unfolding when emit pure ◌>>=◌
  pause-Returns n = record { at = λ w. ground arith }

  attempts-Returns :
      IsPlain p
      → Answers S
      → (source dest : String) (left n : ℕ) (w : World)
      → (attempts T S p source dest false (suc left) n w).0 ≡ ok tt
  unfolding attempts ◌>>=◌ attempt pure
  attempts-Returns plain answers source dest left n w =
      ground (arith, (transfer_once-Returns plain answers source dest).at w)

  -- What a host that cannot be reached comes to.
  abbrev pub timeout_failure : Exn
  timeout_failure = transfer_error ("CONNECTION TIMEOUT — " <> (p.host <> " unreachable"))

  attempts_gives_up :
      IsPlain p
      → IsUnreachable S
      → (source dest : String) (left n : ℕ) (w : World)
      → (attempts T S p source dest false left n w).0 ≡ err timeout_failure
  unfolding attempts ◌>>=◌ attempt raise
  attempts_gives_up plain away source dest zero n w = refl
  attempts_gives_up plain away source dest (suc left) n w =
      let (text, late) = (transfer_once-TimesOut plain away source dest).at w in
      let w1 = (transfer_once T S p source dest false w).1 in
      let w2 = (pause T S p n w1).1 in
      ground (
        arith,
        late,
        (pause-Returns n).at w1,
        attempts_gives_up plain away source dest left (n + 1) w2,
      )

  execute_plain :
      IsPlain p
      → (r : Result (Unit {0}))
      → ((w : World)
          → (attempts T S p p.source_path p.destination_path false max_retries 1 w).0 ≡ r)
      → (w : World) → (execute T S p w).0 ≡ r
  unfolding execute execute_body prepare ◌>>=◌ when emit pure assign finally
  execute_plain plain r h w =
      let w1 =
        (when (not (p.strict_host_key_checking && truthy p.known_host_key))
          (emit (logged warn "Host key verification DISABLED — connection is vulnerable to MITM"))
          w).1 in
      ground (arith, plain.lax, plain.no_gpg, h (forget_path w1))

  -- With no gpg, key, host key and checksum to fail, a host that lets every client in and takes every
  -- file makes a transfer that the handler reports as complete.
  pub execute_completes : IsPlain p → Answers S → (w : World) → (execute T S p w).0 ≡ ok tt
  execute_completes plain answers w =
      execute_plain plain (ok tt)
        (attempts-Returns plain answers p.source_path p.destination_path 2 1) w

  -- With no gpg, key, host key and checksum to fail first, a host that no client reaches in time makes
  -- the handler raise its own error, which names the host.
  pub execute_gives_up :
      IsPlain p → IsUnreachable S → (w : World) → (execute T S p w).0 ≡ err timeout_failure
  execute_gives_up plain away w =
      execute_plain plain (err timeout_failure)
        (attempts_gives_up plain away p.source_path p.destination_path max_retries 1) w
