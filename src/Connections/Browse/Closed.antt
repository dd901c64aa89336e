-- ===== src/Connections/Browse/Closed.antt =====
-- The browser closes what it opens (services/web/apps/connections/sftp_utils.py).
use tmask_tt.Base.{ℕ, ◌+◌, ◌≡◌, refl, ◌∙◌, String, Bool, List, [], ◌∷◌, arith}
use tmask_tt.Base.Text.{Text}
use tmask_tt.Worker.{
  World, Result, ok, err, Exn, Event, opened, closed, Eff, ◌>>=◌, ◌>>◌, pure, raise_if, emit, lift,
  ask, finally, remove,
}
use tmask_tt.Worker.Params.{Tools}
use tmask_tt.Worker.Files.{make_temp}
use tmask_tt.Worker.TempFiles.{str_eq_refl}
use tmask_tt.Connections.{Connection}
use tmask_tt.Connections.Browse.{
  Lister, close_one, build_client, list_opened, list_connected, list_attrs, list_directory,
}

-- How many clients and sessions are open: those opened less those closed, of the events of a world.
abbrev opens : Event → ℕ
opens (opened host) = 1
opens _ = 0

abbrev closes : Event → ℕ
closes closed = 1
closes _ = 0

pub opened_in : List Event → ℕ
opened_in [] = 0
opened_in (e ∷ es) = opens e + opened_in es

pub closed_in : List Event → ℕ
closed_in [] = 0
closed_in (e ∷ es) = closes e + closed_in es

-- As many were closed as were opened, and the temporary files are those that were there.
abbrev pub Settled : World → World → Type 0
Settled w w' =
    (opened_in w'.events + closed_in w.events ≡ closed_in w'.events + opened_in w.events)
    × (w'.temps ≡ w.temps)

record Settles {A : Type 0} (m : Eff A) : Type 0 where
  settled : (w : World) → Settled w (m w).1

Settled-trans : (u v w : World) → Settled u v → Settled v w → Settled u w
Settled-trans u v w (a, b) (c, d) = (omega (arith, a, c), d ∙ b)

module _ {A : Type 0} where
  pure-Settles : (a : A) → Settles (pure a)
  unfolding pure
  pure-Settles a = record { settled = λ w. (omega arith, refl) }

  lift-Settles : (r : Result A) → Settles (lift r)
  unfolding lift
  lift-Settles r = record { settled = λ w. (omega arith, refl) }

  ask-Settles : (f : World → Result A) → Settles (ask f)
  unfolding ask
  ask-Settles f = record { settled = λ w. (omega arith, refl) }

  -- What is opened before a `try` block is closed by its `finally`, however the block ends.
  finally-Settles :
      (host : String) (m : Eff A) → Settles m → Settles (emit (opened host) >> finally m close_one)
  unfolding finally emit ◌>>=◌ opened_in closed_in
  finally-Settles host m h = record {
    settled = λ w.
        let (a, b) = h.settled (record w { events = opened host ∷ w.events }) in
        (omega (arith, a), b);
  }

raise_if-Settles : (b : Bool) (e : Exn) → Settles (raise_if b e)
unfolding raise_if
raise_if-Settles b e = record { settled = λ w. (omega arith, refl) }

bind-Settles :
    {A B : Type 0} {m : Eff A} {f : A → Eff B}
    → Settles m
    → ((a : A) → Settles (f a))
    → Settles (m >>= f)
unfolding ◌>>=◌
bind-Settles {A} {B} {m} {f} hm hf = record { settled = λ w. go (m w).0 (m w).1 w (hm.settled w) }
  where
    go :
        (r : Result A) (w' w : World)
        → Settled w w'
        → Settled w (elim r as (λ _. Result B × World) [ ok a ↦ f a w' | err e ↦ (err e, w') ]).1
    go (ok a) w' w k = Settled-trans w w' (f a w').1 k ((hf a).settled w')
    go (err e) w' w k = k

-- Where the text of a temporary file can be written.
module _ (T : Tools) (L : Lister) (c : Connection)
    (writes : (w : World) (path text : String) → T.write_temp w path text ≡ ok tt) where
  build_client-Settles : Settles (build_client T L c)
  unfolding build_client make_temp remove finally ◌>>=◌ emit ask raise_if pure opened_in closed_in
  build_client-Settles = record {
    settled = λ w.
        let path = T.temp_name w "_known_hosts" in
        let w1 : World = record w { temps = path ∷ w.temps } in
        ground (arith, str_eq_refl path, writes w1 path c.known_host_key);
  }

  list_attrs-Settles : (rejects : Bool) (path : Text) → Settles (list_attrs T L c rejects path)
  unfolding list_attrs list_connected list_opened
  list_attrs-Settles rejects path = finally-Settles c.host _ (
      bind-Settles (lift-Settles _) (λ secret.
        bind-Settles (ask-Settles _)
          (λ _. bind-Settles (ask-Settles _) (λ _. finally-Settles c.host _ (ask-Settles _)))))

  -- However a directory is listed, and on every error but of writing a temporary file, as many clients and sessions are closed as were opened,
  -- and no temporary file is left or lost.
  pub list_directory-Settled : (path : Text) (w : World) → Settled w (list_directory T L c path w).1
  unfolding list_directory
  list_directory-Settled path w =
      (bind-Settles (raise_if-Settles _ _) (λ _. bind-Settles build_client-Settles (λ rejects.
          bind-Settles (list_attrs-Settles rejects path) (λ attrs. pure-Settles _)))).settled
        w
