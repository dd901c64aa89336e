-- ===== src/Base/Str.antt =====
-- Methods of Python's `str` on native texts, as the worker's handlers call them.
use Prim.Native.Char.{Char, code}
use Prim.Native.Nat.{ℕ, zero, suc, ◌/◌, ◌%◌}
use Prim.Native.String.{String, ◌++◌}
use mathlib.Core.Bool.{Bool, true, false, ◌&&◌, ◌||◌}
use mathlib.Core.List.{List, [], ◌∷◌}
use tmask_tt.Base.Tests.{leb, ltb, ◌==◌, str_eq, if◌then◌else◌}

-- `s.startswith(prefix)`
unfoldable pub starts : String → String → Bool
starts s String.[] = true
starts String.[] (String.◌∷◌ p ps) = false
starts (String.◌∷◌ c s) (String.◌∷◌ p ps) = (code c == code p) && starts s ps

-- `part in s`
unfoldable pub has_part : String → String → Bool
unfolding starts
has_part part String.[] = starts String.[] part
has_part part (String.◌∷◌ c s) = starts (String.◌∷◌ c s) part || has_part part s

-- `s.endswith('/')` and its like, for one character.
unfoldable pub ends_with_char : ℕ → String → Bool
ends_with_char k String.[] = false
ends_with_char k (String.◌∷◌ c String.[]) = code c == k
ends_with_char k (String.◌∷◌ c (String.◌∷◌ d s)) = ends_with_char k (String.◌∷◌ d s)

-- The characters that `shlex.quote` leaves as they are.
unfoldable pub is_shell_safe : String → Bool
is_shell_safe String.[] = true
is_shell_safe (String.◌∷◌ c s) =
    let k = code c in
    ((leb b'a' k && leb k b'z')
      || (leb b'A' k && leb k b'Z')
      || (leb b'+' k && leb k b':')
      || (k == b'@')
      || (k == b'%')
      || (k == b'=')
      || (k == b'_'))
    && is_shell_safe s

unfoldable pub escape_quotes : String → String
escape_quotes String.[] = ""
escape_quotes (String.◌∷◌ c s) =
    let rest = escape_quotes s in if code c == 39 then "'\"'\"'" ++ rest else String.◌∷◌ c rest

-- `s.replace(c, c + c)` for one character.
unfoldable pub double_char : ℕ → String → String
double_char k String.[] = ""
double_char k (String.◌∷◌ c s) =
    let rest = double_char k s in
    if code c == k then String.◌∷◌ c (String.◌∷◌ c rest) else String.◌∷◌ c rest

-- `shlex.quote`
unfoldable pub shell_quote : String → String
unfolding is_shell_safe escape_quotes
shell_quote s =
    if str_eq s "" then "''" else if is_shell_safe s then s else "'" ++ (escape_quotes s ++ "'")

-- `sep.join(words)`
unfoldable pub join : String → List String → String
join sep [] = ""
join sep (w ∷ []) = w
join sep (w ∷ v ∷ ws) = w ++ (sep ++ join sep (v ∷ ws))

abbrev pub digit : ℕ → String
digit d =
    if d == 0
    then "0"
    else if d == 1
    then "1"
    else if d == 2
    then "2"
    else if d == 3
    then "3"
    else if d == 4
    then "4"
    else if d == 5
    then "5"
    else if d == 6
    then "6"
    else if d == 7
    then "7"
    else if d == 8
    then "8"
    else "9"

-- The decimal digits, on one unit of fuel for each digit: a number has fewer digits than its size.
unfoldable pub digits : ℕ → ℕ → String
digits zero n = ""
digits (suc fuel) n =
    let higher = digits fuel (n / 10) in if ltb n 10 then digit n else higher ++ digit (n % 10)

-- `str(n)`
unfoldable pub show : ℕ → String
unfolding digits
show n = digits (suc n) n

abbrev is_blank : Char → Bool
is_blank c = let k = code c in (leb 9 k && leb k 13) || (leb 28 k && leb k 31) || (k == 32)

abbrev keep_unless : Bool → Char → String → String
keep_unless drops c String.[] = if drops then "" else String.◌∷◌ c ""
keep_unless drops c (String.◌∷◌ d s) = String.◌∷◌ c (String.◌∷◌ d s)

-- `s.rstrip(c)` for one character.
unfoldable pub rstrip_char : ℕ → String → String
rstrip_char k String.[] = ""
rstrip_char k (String.◌∷◌ c s) = keep_unless (code c == k) c (rstrip_char k s)

-- `s.lstrip()`, `s.rstrip()` and `s.strip()`, for the white space of ASCII
unfoldable pub lstrip : String → String
lstrip String.[] = ""
lstrip (String.◌∷◌ c s) = let rest = lstrip s in if is_blank c then rest else String.◌∷◌ c s

abbrev cons_kept : Char → String → String
cons_kept c String.[] = if is_blank c then "" else String.◌∷◌ c ""
cons_kept c (String.◌∷◌ d s) = String.◌∷◌ c (String.◌∷◌ d s)

unfoldable pub rstrip : String → String
rstrip String.[] = ""
rstrip (String.◌∷◌ c s) = cons_kept c (rstrip s)

unfoldable pub strip : String → String
unfolding lstrip rstrip
strip s = rstrip (lstrip s)

-- The characters before the first white space.
unfoldable pub first_part : String → String
first_part String.[] = ""
first_part (String.◌∷◌ c s) =
    let rest = first_part s in if is_blank c then "" else String.◌∷◌ c rest

-- `s[:n]`
unfoldable pub take_text : ℕ → String → String
take_text zero s = ""
take_text (suc n) String.[] = ""
take_text (suc n) (String.◌∷◌ c s) = String.◌∷◌ c (take_text n s)
