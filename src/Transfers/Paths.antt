-- ===== src/Transfers/Paths.antt =====
-- The checks on the paths of a transfer (services/web/apps/transfers/forms.py,
-- `_validate_transfer_path`, `_validate_source_filename`), on texts as lists of code points.
use tmask_tt.Base.{
  ℕ, ◌≡◌, refl, ◌∙◌, String, Bool, true, false, ◌||◌, Option, none, some, List, [], ◌∷◌, ◌++◌,
  arith, leb, any, Bool-cases, inl, inr, if◌then◌else◌,
}
use tmask_tt.Base.Text.{Text, text_eq, has_char, has_prefix, replace_char, split_on, extend}

-- `[\x00-\x1f]`
abbrev pub is_control : ℕ → Bool
is_control c = leb c 31

-- `'..'`
abbrev pub is_dots : Text → Bool
is_dots w = text_eq w (b'.' ∷ b'.' ∷ [])

abbrev pub slash : ℕ
slash = b'/'

abbrev pub backslash : ℕ
backslash = 92

-- `value.replace('\\', '/').split('/')`
unfoldable pub parts : Text → List Text
unfolding replace_char split_on
parts value = split_on slash (replace_char backslash (slash ∷ []) value)

-- `_validate_transfer_path`: the message of its `ValidationError`, and `none` of a valid path.
unfoldable pub validate_transfer_path : Text → Option String
validate_transfer_path value =
    if has_prefix (b'-' ∷ []) value
    then some "Ścieżka nie może zaczynać się od \"-\"."
    else if any is_control value
    then some "Ścieżka zawiera niedozwolone znaki kontrolne."
    else if any is_dots (parts value)
    then some "Ścieżka nie może zawierać sekwencji \"..\"."
    else none

-- `_validate_source_filename`
unfoldable pub validate_source_filename : Text → Option String
validate_source_filename value =
    if text_eq value [] || text_eq value (b'.' ∷ []) || is_dots value
    then some "Nieprawidłowa nazwa pliku."
    else if has_char slash value || has_char backslash value
    then some "Podaj tylko nazwę pliku bez ścieżki, np. plik.tar.gz"
    else if has_prefix (b'-' ∷ []) value
    then some "Nazwa pliku nie może zaczynać się od \"-\"."
    else if any is_control value
    then some "Nazwa pliku zawiera niedozwolone znaki kontrolne."
    else none

-- How a system of directories takes one component of a path, from a directory given by its own
-- components, the last one first; above the root is the root.
abbrev pub up : List Text → List Text
up [] = []
up (d ∷ ds) = ds

abbrev pub enter : List Text → Text → List Text
enter dir w =
    if text_eq w [] || text_eq w (b'.' ∷ []) then dir else if is_dots w then up dir else w ∷ dir

unfoldable pub walk : List Text → List Text → List Text
walk dir [] = dir
walk dir (w ∷ ws) = walk (enter dir w) ws

-- A walk that ends in a directory or below it.
abbrev pub StaysBelow : List Text → List Text → Type 0
StaysBelow dir end = (below : List Text) × (end ≡ below ++ dir)

enter-StaysBelow :
    (w : Text) (above dir : List Text) → is_dots w ≡ false → StaysBelow dir (enter (above ++ dir) w)
enter-StaysBelow w above dir h = elim (Bool-cases (text_eq w [] || text_eq w (b'.' ∷ []))) [
  | inl stays ↦ (above, rw (stays) refl)
  | inr enters ↦ (w ∷ above, rw (enters, h) refl)
]

walk-StaysBelow :
    (ws : List Text) (above dir : List Text)
    → any is_dots ws ≡ false
    → StaysBelow dir (walk (above ++ dir) ws)
unfolding walk
walk-StaysBelow [] above dir h = (above, refl)
walk-StaysBelow (w ∷ ws) above dir h =
    let (above', e) = enter-StaysBelow w above dir (ground arith) in
    rw e (walk-StaysBelow ws above' dir (ground arith))

abbrev first_of : List Text → Text
first_of [] = []
first_of (w ∷ ws) = w

abbrev rest_of : List Text → List Text
rest_of [] = []
rest_of (w ∷ ws) = ws

split_on-cons : (k : ℕ) (s : Text) → split_on k s ≡ first_of (split_on k s) ∷ rest_of (split_on k s)
unfolding split_on
split_on-cons k [] = refl
split_on-cons k (c ∷ s) = ground (arith, split_on-cons k s)

-- Turning the backslashes into separators keeps the components: the first one where it has none, and
-- each later one that is `..`.
parts_first :
    (s : Text)
    → has_char backslash (first_of (split_on slash s)) ≡ false
    → first_of (parts s) ≡ first_of (split_on slash s)
unfolding parts
parts_first [] h = refl
parts_first (c ∷ s) h = ground (
  arith,
  parts_first s,
  split_on-cons slash s,
  split_on-cons slash (replace_char backslash (slash ∷ []) s),
)

dots_plain : (w : Text) → is_dots w ≡ true → has_char backslash w ≡ false
dots_plain [] h = ground arith
dots_plain (a ∷ []) h = ground arith
dots_plain (a ∷ b ∷ []) h = ground arith
dots_plain (a ∷ b ∷ c ∷ w) h = ground arith

parts_rest :
    (s : Text)
    → any is_dots (rest_of (split_on slash s)) ≡ true
    → any is_dots (rest_of (parts s)) ≡ true
unfolding parts
parts_rest [] h = h
parts_rest (c ∷ s) h = ground (
  arith,
  parts_rest s,
  parts_first s,
  dots_plain (first_of (split_on slash s)),
  split_on-cons slash s,
  split_on-cons slash (replace_char backslash (slash ∷ []) s),
)

dots_parts : (s : Text) → any is_dots (parts s) ≡ false → any is_dots (split_on slash s) ≡ false
unfolding parts
dots_parts s h = ground (
  arith,
  parts_rest s,
  parts_first s,
  dots_plain (first_of (split_on slash s)),
  split_on-cons slash s,
  split_on-cons slash (replace_char backslash (slash ∷ []) s),
)

validate_transfer_path_dots :
    (value : Text) → validate_transfer_path value ≡ none → any is_dots (parts value) ≡ false
unfolding validate_transfer_path
validate_transfer_path_dots value h = ground arith

-- A path that the form accepts never leads out of the directory that it is taken from, neither where
-- the slash alone separates components nor where the backslash does too.
pub validate_transfer_path_stays :
    (value : Text) (dir : List Text)
    → validate_transfer_path value ≡ none
    → StaysBelow dir (walk dir (split_on slash value)) × StaysBelow dir (walk dir (parts value))
validate_transfer_path_stays value dir h =
    let no_dots = validate_transfer_path_dots value h in
    (
      walk-StaysBelow (split_on slash value) [] dir (dots_parts value no_dots),
      walk-StaysBelow (parts value) [] dir no_dots,
    )

split_on_none : (k : ℕ) (v : Text) → has_char k v ≡ false → split_on k v ≡ v ∷ []
unfolding split_on
split_on_none k [] h = refl
split_on_none k (c ∷ v) h = ground (arith, split_on_none k v)

append-extend :
    (c : ℕ) (ws : List Text) (v : Text)
    → ws ≡ first_of ws ∷ rest_of ws
    → extend c ws ++ (v ∷ []) ≡ extend c (ws ++ (v ∷ []))
append-extend c [] v h = absurd (ground arith)
append-extend c (w ∷ ws) v h = refl

pub split_on_last :
    (k : ℕ) (path v : Text)
    → has_char k v ≡ false
    → split_on k (path ++ (k ∷ v)) ≡ split_on k path ++ (v ∷ [])
unfolding split_on
split_on_last k [] v h = ground (arith, split_on_none k v h)
split_on_last k (c ∷ path) v h =
    ground
      (arith, split_on_last k path v h, append-extend c (split_on k path) v (split_on-cons k path))

pub walk-append :
    (ws : List Text) (dir : List Text) (v : Text)
    → walk dir (ws ++ (v ∷ [])) ≡ enter (walk dir ws) v
unfolding walk
walk-append [] dir v = refl
walk-append (w ∷ ws) dir v = walk-append ws (enter dir w) v

-- A file name that the form accepts names an entry of whatever directory it is appended to: it is one
-- component, and neither the directory itself nor its parent.
pub validate_source_filename_enters :
    (value path : Text) (dir : List Text)
    → validate_source_filename value ≡ none
    → walk dir (split_on slash (path ++ (slash ∷ value))) ≡ value ∷ walk dir (split_on slash path)
unfolding validate_source_filename
validate_source_filename_enters value path dir h =
    rw (split_on_last slash path value (ground arith))
      (walk-append (split_on slash path) dir value ∙ ground arith)
