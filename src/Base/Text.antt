-- ===== src/Base/Text.antt =====
-- Texts as lists of code points, for code that walks characters, with the methods of Python's `str`
-- that the program calls on them.
use Prim.Native.Char.{code}
use Prim.Native.Nat.{ℕ, ◌+◌, ◌-◌}
use Prim.Native.String.{String}
use mathlib.Core.Bool.{Bool, true, false, ◌&&◌, ◌||◌}
use mathlib.Core.List.{List, [], ◌∷◌, ◌++◌, map, reverse}
use mathlib.Core.Option.{Option, none, some}
use mathlib.Core.Path.{◌≡◌}
use native.Mathlib.Omega.{arith}
use tmask_tt.Base.Tests.{leb, ◌==◌, if◌then◌else◌}

abbrev pub Text : Type 0
Text = List ℕ

-- The code points of a text. `String` has its own `[]` and `∷`.
abbrev pub codes : String → Text
codes String.[] = []
codes (String.◌∷◌ c s) = code c ∷ codes s

-- `==` on texts.
abbrev pub text_eq : Text → Text → Bool
text_eq [] [] = true
text_eq [] (d ∷ t) = false
text_eq (c ∷ s) [] = false
text_eq (c ∷ s) (d ∷ t) = (c == d) && text_eq s t

-- `c in s` for one character.
abbrev pub has_char : ℕ → Text → Bool
has_char k [] = false
has_char k (c ∷ s) = (c == k) || has_char k s

-- `s.startswith(prefix)`
abbrev pub has_prefix : Text → Text → Bool
has_prefix [] s = true
has_prefix (p ∷ ps) [] = false
has_prefix (p ∷ ps) (c ∷ s) = (p == c) && has_prefix ps s

-- The white space of ASCII: tab to carriage return, the separators 28 to 31, and the space.
abbrev pub is_space : ℕ → Bool
is_space c = (leb 9 c && leb c 13) || (leb 28 c && leb c 31) || (c == 32)

unfoldable pub drop_while : (ℕ → Bool) → Text → Text
drop_while p [] = []
drop_while p (c ∷ s) = let rest = drop_while p s in if p c then rest else c ∷ s

-- The longest beginning whose characters the test takes.
unfoldable pub take_while : (ℕ → Bool) → Text → Text
take_while p [] = []
take_while p (c ∷ s) = let rest = take_while p s in if p c then c ∷ rest else []

-- `part in s`
unfoldable pub has_sub : Text → Text → Bool
has_sub part [] = has_prefix part []
has_sub part (c ∷ s) = has_prefix part (c ∷ s) || has_sub part s

-- What follows a prefix.
unfoldable pub after_prefix : Text → Text → Option Text
after_prefix [] s = some s
after_prefix (p ∷ ps) [] = none
after_prefix (p ∷ ps) (c ∷ s) = let rest = after_prefix ps s in if p == c then rest else none

-- What follows the first occurrence of a character: `s.split(c, 1)[1]` where there is one.
unfoldable pub after_char : ℕ → Text → Text
after_char k [] = []
after_char k (c ∷ s) = let rest = after_char k s in if c == k then s else rest

-- `s.rstrip(…)` of the characters that the test takes.
unfoldable pub strip_right : (ℕ → Bool) → Text → Text
unfolding drop_while
strip_right p s = reverse (drop_while p (reverse s))

-- `s.strip(…)`
unfoldable pub strip_of : (ℕ → Bool) → Text → Text
unfolding strip_right drop_while
strip_of p s = strip_right p (drop_while p s)

unfoldable pub strip : Text → Text
unfolding strip_of
strip s = strip_of is_space s

-- `s.replace(c, new)` for one character.
unfoldable pub replace_char : ℕ → Text → Text → Text
replace_char k new [] = []
replace_char k new (c ∷ s) =
    let rest = replace_char k new s in if c == k then new ++ rest else c ∷ rest

abbrev pub upper_char : ℕ → ℕ
upper_char c = if leb b'a' c && leb c b'z' then c - 32 else c

-- `s.upper()` on ASCII.
unfoldable pub upper : Text → Text
upper s = map upper_char s

abbrev pub lower_char : ℕ → ℕ
lower_char c = if leb b'A' c && leb c b'Z' then c + 32 else c

-- `s.lower()` on ASCII.
unfoldable pub lower : Text → Text
lower s = map lower_char s

abbrev pub extend : ℕ → List Text → List Text
extend c [] = (c ∷ []) ∷ []
extend c (w ∷ ws) = (c ∷ w) ∷ ws

-- `s.split(c)`: never empty.
unfoldable pub split_on : ℕ → Text → List Text
split_on k [] = [] ∷ []
split_on k (c ∷ s) = let rest = split_on k s in if c == k then [] ∷ rest else extend c rest

-- `c.join(words)` for a separator of one character.
unfoldable pub join_with : ℕ → List Text → Text
join_with k [] = []
join_with k (w ∷ []) = w
join_with k (w ∷ v ∷ ws) = w ++ (k ∷ join_with k (v ∷ ws))

pub text_eq_sound : (s t : Text) → text_eq s t ≡ true → s ≡ t
text_eq_sound [] [] h = ground arith
text_eq_sound [] (d ∷ t) h = ground arith
text_eq_sound (c ∷ s) [] h = ground arith
text_eq_sound (c ∷ s) (d ∷ t) h = ground (arith, text_eq_sound s t)
