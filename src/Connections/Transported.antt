-- ===== src/Connections/Transported.antt =====
-- An export that is imported again (services/web/apps/connections/portability.py).
use tmask_tt.Base.{
  ℕ, ◌≡◌, String, false, Option, none, some, List, [], ◌∷◌, any, str_eq, truthy, if◌then◌else◌,
}
use tmask_tt.Database.Task.{ssh}
use tmask_tt.Connections.Portability.{Stored, StoredFlow, Fernet, flow_row, find_last, linked}

-- What documents Fernet: a token decrypts to its text under its key, whatever chance it was made with.
pub record Decrypts (F : Fernet) : Type 0 where
  pub decrypts : (key : String) (n : ℕ) (s : String) → F.decrypt key (F.encrypt key n s) ≡ some s

-- An empty secret comes back as none.
abbrev pub or_none : Option String → Option String
or_none none = none
or_none (some s) = if truthy s then some s else none

-- A connection as it comes back: of kind SSH and without a database.
abbrev pub returned : Stored → Stored
returned c = record c {
  password = or_none c.password;
  ssh_key = or_none c.ssh_key;
  kind = ssh;
  db_name = "";
}

-- Each name is new: it is none of those that exist, and none that comes before it.
abbrev pub AreNew : List String → List String → Type 0
AreNew existing [] = Unit {0}
AreNew existing (n ∷ ns) = (any (str_eq n) existing ≡ false) × AreNew (n ∷ existing) ns

abbrev pub names_of : List Stored → List String
names_of [] = []
names_of (c ∷ cs) = c.fields.name ∷ names_of cs

abbrev pub flow_names_of : List StoredFlow → List String
flow_names_of [] = []
flow_names_of (f ∷ fs) = f.name ∷ flow_names_of fs

-- Both connections of each flow are found by their names among these, and these are the flows then.
abbrev pub AreLinked : List Stored → List StoredFlow → List StoredFlow → Type 0
AreLinked cs [] [] = Unit {0}
AreLinked cs [] (f' ∷ fs') = ⊥
AreLinked cs (f ∷ fs) [] = ⊥
AreLinked cs (f ∷ fs) (f' ∷ fs') =
    (linked (flow_row f) (find_last f.source_conn.fields.name cs)
        (find_last f.dest_conn.fields.name cs)
      ≡ some f')
    × AreLinked cs fs fs'
