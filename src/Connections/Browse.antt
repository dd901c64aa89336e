-- ===== src/Connections/Browse.antt =====
-- The browser of remote directories (services/web/apps/connections/sftp_utils.py, and `browse_directory` of
-- connections/views.py).
pub mod Walked
pub mod Closed
use mathlib.Core.List.{reverse}
use tmask_tt.Base.{
  ℕ, suc, ◌+◌, String, ◌<>◌, Bool, true, false, ◌&&◌, ◌||◌, not, Option, none, some, List, [], ◌∷◌,
  ◌++◌, map, leb, ltb, ◌==◌, all, truthy, non_empty, length, if◌then◌else◌,
}
use tmask_tt.Base.Text.{
  Text, text_eq, has_prefix, drop_while, strip_right, lower, split_on, join_with,
}
use tmask_tt.Worker.{
  World, Result, ok, err, Exn, message, value_error, auth_error, ssh_error, wrote, opened, closed,
  Eff, ◌>>=◌, ◌>>◌, pure, raise, raise_if, emit, lift, ask, finally, remove,
}
use tmask_tt.Worker.Params.{Tools, none_if_empty}
use tmask_tt.Worker.Files.{make_temp, load_private_key}
use tmask_tt.Transfers.Paths.{slash, is_dots}
use tmask_tt.Connections.{Connection}
use tmask_tt.Connections.Testers.{Secret, by_key, by_password}

-- The components that `posixpath.normpath` keeps, the last one first, for a path from the root or not.
unfoldable pub norm_step : Bool → List Text → Text → List Text
norm_step rooted [] w =
    if text_eq w [] || text_eq w (b'.' ∷ []) then [] else if is_dots w && rooted then [] else w ∷ []
norm_step rooted (v ∷ kept) w =
    if text_eq w [] || text_eq w (b'.' ∷ [])
    then v ∷ kept
    else if is_dots w && not (is_dots v)
    then kept
    else w ∷ v ∷ kept

unfoldable pub norm_loop : Bool → List Text → List Text → List Text
unfolding norm_step
norm_loop rooted kept [] = kept
norm_loop rooted kept (w ∷ ws) = norm_loop rooted (norm_step rooted kept w) ws

abbrev pub is_rooted : Text → Bool
is_rooted path = has_prefix (slash ∷ []) path

-- The slashes that a path begins with, of which two stay two.
unfoldable pub leading : Text → Text
leading path =
    if has_prefix (slash ∷ slash ∷ []) path && not (has_prefix (slash ∷ slash ∷ slash ∷ []) path)
    then slash ∷ slash ∷ []
    else if is_rooted path
    then slash ∷ []
    else []

abbrev or_dot : Text → Text
or_dot [] = b'.' ∷ []
or_dot (c ∷ s) = c ∷ s

-- `posixpath.normpath`
unfoldable pub normpath : Text → Text
unfolding norm_loop leading
normpath path =
    let kept = norm_loop (is_rooted path) [] (split_on slash path) in
    or_dot (leading path ++ join_with slash (reverse kept))

abbrev is_slash : ℕ → Bool
is_slash c = c == slash

-- The path that `browse_directory` lists.
unfoldable pub browse_path : Text → Text
unfolding normpath drop_while
browse_path raw = slash ∷ drop_while is_slash (normpath raw)

-- What `listdir_attr` tells of an entry.
pub record Attr : Type 0 where
  pub filename : Text
  pub is_dir : Bool
  pub size : ℕ

pub record DirEntry : Type 0 where
  pub name : Text
  pub is_dir : Bool
  pub full_path : Text
  pub size : Option ℕ

-- What paramiko is asked in a world; the Boolean tells `RejectPolicy` from `AutoAddPolicy`.
pub record Lister : Type 0 where
  pub load_host_keys : World → String → Result (Unit {0})
  pub connect : World → Connection → Bool → Secret → Result (Unit {0})
  pub open_sftp : World → Result (Unit {0})
  pub listdir_attr : World → Text → Result (List Attr)

unfoldable pub entry_of : Text → Attr → DirEntry
unfolding strip_right
entry_of path a = record {
  name = a.filename;
  is_dir = a.is_dir;
  full_path = strip_right is_slash path ++ (slash ∷ a.filename);
  size = if a.is_dir then none else some a.size;
}

-- `<=` on texts.
unfoldable pub text_le : Text → Text → Bool
text_le [] t = true
text_le (c ∷ s) [] = false
text_le (c ∷ s) (d ∷ t) = ltb c d || ((c == d) && text_le s t)

-- The order of the keys `(not e.is_dir, e.name.lower())`.
unfoldable pub entry_le : DirEntry → DirEntry → Bool
unfolding text_le lower
entry_le a b =
    if a.is_dir
    then (if b.is_dir then text_le (lower a.name) (lower b.name) else true)
    else (if b.is_dir then false else text_le (lower a.name) (lower b.name))

unfoldable pub insert_entry : DirEntry → List DirEntry → List DirEntry
insert_entry e [] = e ∷ []
insert_entry e (d ∷ ds) =
    let rest = insert_entry e ds in if entry_le e d then e ∷ d ∷ ds else d ∷ rest

-- `sorted(entries, key=…)`, which is stable.
unfoldable pub sort_entries : List DirEntry → List DirEntry
unfolding insert_entry entry_le
sort_entries [] = []
sort_entries (e ∷ es) = insert_entry e (sort_entries es)

-- `load_private_key` with its `except` clause.
unfoldable pub key_or_value_error : Result String → Result Secret
key_or_value_error (ok key) = ok (by_key key)
key_or_value_error (err (ssh_error m)) = err (value_error ("Błąd klucza SSH: " <> m))
key_or_value_error (err (auth_error m)) = err (value_error ("Błąd klucza SSH: " <> m))
key_or_value_error (err e) = err e

-- `client.close()` and `sftp.close()`
abbrev pub close_one : World → World
close_one w = record w { events = closed ∷ w.events }

module _ (T : Tools) (L : Lister) (c : Connection) where
  -- `_build_client`: whether unknown hosts are rejected.
  unfoldable pub build_client : Eff Bool
  unfolding make_temp remove
  build_client =
      if c.strict_host_key_checking
      then (do
        raise_if (not (truthy c.known_host_key))
            (value_error "strict_host_key_checking wymaga known_host_key")
        path ← make_temp T "_known_hosts"
        ask (λ w. T.write_temp w path c.known_host_key)
        emit (wrote path c.known_host_key)
        finally (ask (λ w. L.load_host_keys w c.known_host_key))
            (λ w. record w { temps = remove path w.temps })
        pure true)
      else pure false

  -- The key or the password that the client logs in with.
  unfoldable pub login_secret : Result Secret
  unfolding key_or_value_error load_private_key
  login_secret =
      if truthy c.ssh_key
      then key_or_value_error (load_private_key T c.ssh_key (none_if_empty c.ssh_key_passphrase))
      else ok (by_password c.password)

  -- The inner `try` block, behind `open_sftp`.
  unfoldable pub list_opened : Text → Eff (List Attr)
  list_opened path = do emit (opened c.host); finally (ask (λ w. L.listdir_attr w path)) close_one

  -- The outer `try` block.
  unfoldable pub list_connected : Bool → Text → Eff (List Attr)
  unfolding login_secret list_opened
  list_connected rejects path = do
    secret ← lift login_secret
    ask (λ w. L.connect w c rejects secret)
    ask (λ w. L.open_sftp w)
    list_opened path

  -- The client from its making to its `finally` block.
  unfoldable pub list_attrs : Bool → Text → Eff (List Attr)
  unfolding list_connected
  list_attrs rejects path = do emit (opened c.host); finally (list_connected rejects path) close_one

  -- `list_directory`
  unfoldable pub list_directory : Text → Eff (List DirEntry)
  unfolding build_client list_attrs sort_entries entry_of
  list_directory path = do
    raise_if (not (truthy c.password) && not (truthy c.ssh_key))
        (value_error "Brak danych uwierzytelniania")
    rejects ← build_client
    attrs ← list_attrs rejects path
    pure (sort_entries (map (entry_of path) attrs))

-- A crumb of `build_breadcrumbs`.
pub record Crumb : Type 0 where
  pub label : Text
  pub path : Text

-- `[p for p in path.split('/') if p]`
unfoldable pub keep_parts : List Text → List Text
keep_parts [] = []
keep_parts (w ∷ ws) = let rest = keep_parts ws in if non_empty w then w ∷ rest else rest

-- The loop over the parts, behind those that came before, the last one first.
unfoldable pub crumbs_from : List Text → List Text → List Crumb
crumbs_from before [] = []
crumbs_from before (w ∷ ws) =
    record { label = w; path = slash ∷ join_with slash (reverse (w ∷ before)) }
    ∷ crumbs_from (w ∷ before) ws

unfoldable pub build_breadcrumbs : Text → List Crumb
unfolding keep_parts crumbs_from
build_breadcrumbs path =
    record { label = slash ∷ []; path = slash ∷ [] }
    ∷ crumbs_from [] (keep_parts (split_on slash path))

-- `[A-Za-z0-9_-]{1,64}`; `$` also takes an end of line behind it.
abbrev is_field_char : ℕ → Bool
is_field_char c =
    (leb b'A' c && leb c b'Z')
    || (leb b'a' c && leb c b'z')
    || (leb b'0' c && leb c b'9')
    || (c == b'_')
    || (c == b'-')

abbrev drop_end_of_line : Text → Text
drop_end_of_line [] = []
drop_end_of_line (c ∷ []) = if c == 10 then [] else c ∷ []
drop_end_of_line (c ∷ d ∷ s) = c ∷ drop_end_of_line (d ∷ s)

unfoldable pub clean_field_id : Text → Text
clean_field_id s =
    let body = drop_end_of_line s in
    if leb 1 (length body) && leb (length body) 64 && all is_field_char body then s else []

-- What the page of the browser shows.
pub record Fragment : Type 0 where
  pub entries : List DirEntry
  pub breadcrumbs : List Crumb
  pub error : Option String
  pub current_path : Text
  pub field_id : Text

abbrev fragment : Text → Text → List DirEntry → Option String → Fragment
fragment path field entries error = record {
  entries = entries;
  breadcrumbs = build_breadcrumbs path;
  error = error;
  current_path = path;
  field_id = clean_field_id field;
}

-- What `except Exception as e` makes of the listing.
abbrev show_listing : Text → Text → Result (List DirEntry) → Fragment
show_listing path field (ok entries) = fragment path field entries none
show_listing path field (err e) = fragment path field [] (some (message e))

-- `browse_directory` of a connection that is found.
unfoldable pub browse_directory :
    Tools → Lister → Connection → Text → Text → World → Fragment × World
unfolding browse_path list_directory build_breadcrumbs clean_field_id
browse_directory T L c raw field w =
    let (r, w') = list_directory T L c (browse_path raw) w in
    (show_listing (browse_path raw) field r, w')
