-- ===== src/Worker/Progress.antt =====
-- The progress lines of rsync (services/worker/modules/rsync/handler.py, PROGRESS_LINE_RE):
-- `^\s*[\d,]+\s+(\d{1,3})%\s+\S+/s\s`, read by runs of characters of one class. The classes that
-- follow one another in the pattern are disjoint, so each run is as long as it can be.
use tmask_tt.Base.{
  ℕ, ◌+◌, ◌-◌, ◌*◌, Bool, true, false, ◌&&◌, ◌||◌, not, Option, none, some, [], ◌∷◌, leb, ◌==◌,
  length, if◌then◌else◌,
}
use tmask_tt.Base.Text.{Text, is_space, drop_while}

abbrev pub is_digit : ℕ → Bool
is_digit c = leb b'0' c && leb c b'9'

-- `[\d,]` and `\S`
abbrev is_count : ℕ → Bool
is_count c = is_digit c || c == b','

abbrev is_solid : ℕ → Bool
is_solid c = not (is_space c)

unfoldable pub take_while : (ℕ → Bool) → Text → Text
take_while p [] = []
take_while p (c ∷ s) = let rest = take_while p s in if p c then c ∷ rest else []

-- One or more characters of a class, and what follows them.
unfoldable pub run : (ℕ → Bool) → Text → Option (Text × Text)
unfolding take_while drop_while
run p [] = none
run p (c ∷ s) = if p c then some (c ∷ take_while p s, drop_while p s) else none

abbrev expect : ℕ → Text → Option Text
expect k [] = none
expect k (c ∷ s) = if c == k then some s else none

unfoldable pub number_of : ℕ → Text → ℕ
number_of n [] = n
number_of n (c ∷ s) = number_of (n * 10 + (c - b'0')) s

-- `\S+/s`: a word of three characters or more that ends so.
unfoldable pub is_rate : Text → Bool
is_rate [] = false
is_rate (c ∷ []) = false
is_rate (c ∷ d ∷ []) = false
is_rate (c ∷ d ∷ e ∷ []) = d == b'/' && e == b's'
is_rate (c ∷ d ∷ e ∷ f ∷ s) = is_rate (d ∷ e ∷ f ∷ s)

infixl 5 ◌>>=◌ ◌>>◌
abbrev ◌>>=◌ : {A B : Type 0} → Option A → (A → Option B) → Option B
none >>= f = none
some a >>= f = f a

abbrev ◌>>◌ : {B : Type 0} → Option (Unit {0}) → Option B → Option B
m >> k = m >>= λ _. k

abbrev guard : Bool → Option (Unit {0})
guard true = some tt
guard false = none

-- The percentage of a progress line, and `none` of any other line.
unfoldable pub parse_progress : Text → Option ℕ
unfolding run number_of is_rate
parse_progress line = do
  counted ← run is_count (drop_while is_space line)
  spaces ← run is_space counted.1
  percent ← run is_digit spaces.1
  guard (leb (length percent.0) 3)
  rest ← expect b'%' percent.1
  gap ← run is_space rest
  word ← run is_solid gap.1
  guard (is_rate word.0)
  after ← run is_space word.1
  some (number_of 0 percent.0)
