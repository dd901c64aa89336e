-- ===== src/Database/Postgres/Stream.antt =====
-- The relay of a dump of pg_dump (`_relay_lines` of services/worker/modules/postgres/handler.py).
use tmask_tt.Base.{
  ℕ, Bool, not, ◌&&◌, ◌||◌, Option, none, some, List, [], ◌∷◌, ◌++◌, map, ◌==◌, any, non_empty,
  if◌then◌else◌,
}
use tmask_tt.Base.Text.{
  Text, codes, text_eq, has_char, has_prefix, is_space, strip, strip_of, strip_right, split_on,
  join_with, take_while, drop_while, after_prefix, after_char,
}
use tmask_tt.Masking.{Faker, Rules, Profile, Lengths, mask_columns, length_of, rules_for}
use tmask_tt.Worker.{Result, ok, err}
use tmask_tt.Database.Pipe.{Yield, goes_on}

-- The variables of the generator: those of the table that is being copied, the tables warned of, and
-- the number of values drawn.
pub record Stream : Type 0 where
  pub current_table : Option Text
  pub current_columns : List Text
  pub current_rules : Rules
  pub warned_tables : List Text
  pub drawn : ℕ

abbrev pub empty_stream : Stream
empty_stream = record {
  current_table = none;
  current_columns = [];
  current_rules = [];
  warned_tables = [];
  drawn = 0;
}

abbrev pub terminator : Text
terminator = codes "\\.\n"

abbrev pub incompatible_set : Text
incompatible_set = codes "SET transaction_timeout"

-- `\n?$`
abbrev is_line_end : Text → Bool
is_line_end s = text_eq s [] || text_eq s (b'\n' ∷ []) || text_eq s (b'\n' ∷ b'\n' ∷ [])

abbrev close_header : Text → Text → Text → Option (Text × Text)
close_header name cols rest = elim (after_prefix (codes ") FROM stdin;") rest) [
  | none ↦ none
  | some end ↦ if non_empty name && is_line_end end then some (name, cols) else none
]

abbrev not_close : ℕ → Bool
not_close c = not (c == b')')

abbrev header_columns : Text → Text → Option (Text × Text)
unfolding take_while drop_while
header_columns name rest = elim (after_prefix (codes " (") rest) [
  | none ↦ none
  | some cols ↦ close_header name (take_while not_close cols) (drop_while not_close cols)
]

abbrev not_space : ℕ → Bool
not_space c = not (is_space c)

-- `_COPY_HEADER_RE.match(line)`: its two groups. Each group is as long as it can be, since what
-- follows it starts with a character that it cannot hold.
unfoldable pub copy_header : Text → Option (Text × Text)
unfolding take_while drop_while header_columns after_prefix
copy_header line = elim (after_prefix (codes "COPY ") line) [
  | none ↦ none
  | some rest ↦ header_columns (take_while not_space rest) (drop_while not_space rest)
]

-- The table of the first group, without its schema and without quotes at its ends.
unfoldable pub table_of : Text → Text
unfolding strip_of after_char
table_of name =
    strip_of (λ c. c == b'"') (if has_char b'.' name then after_char b'.' name else name)

-- The columns of the second group.
unfoldable pub columns_of : Text → List Text
unfolding split_on strip
columns_of cols = map strip (split_on b',' cols)

abbrev pub same : Text → Text
same v = v

-- The values of a line of data, and the line of values.
unfoldable pub values_of : Text → List Text
unfolding strip_right split_on
values_of line = split_on b'\t' (strip_right (λ c. c == b'\n') line)

unfoldable pub line_of : List Text → Text
unfolding join_with
line_of values = join_with b'\t' values ++ (b'\n' ∷ [])

abbrev pub put_row : Stream → Result (List Text × ℕ) → Result (Stream × Yield)
unfolding line_of
put_row s (ok (values, n)) = ok (record s { drawn = n }, goes_on (line_of values))
put_row s (err e) = err e

abbrev pub end_table : Stream → Stream
end_table s = record s { current_table = none; current_columns = []; current_rules = [] }

-- Any other line.
abbrev pub pass_line : Stream → Text → Result (Stream × Yield)
pass_line s line = ok (if text_eq line terminator then end_table s else s, goes_on line)

module _ (F : Faker) (profile : Profile) (lengths : Lengths) (whole_db_scope : Bool) where
  -- A line that opens the data of a table.
  unfoldable pub open_table : Stream → Text → Text → Text → Stream × Yield
  unfolding table_of columns_of rules_for
  open_table s line name cols =
      let table = table_of name in
      let rules = rules_for profile table in
      let warns =
        not (non_empty rules) && whole_db_scope && not (any (text_eq table) s.warned_tables) in
      (
        record s {
          current_table = some table;
          current_columns = columns_of cols;
          current_rules = rules;
          warned_tables = if warns then table ∷ s.warned_tables else s.warned_tables;
        },
        record { warned_of = if warns then some table else none; line = some line },
      )

  -- A line of data of a table with rules.
  unfoldable pub mask_row : Stream → Text → Text → Result (Stream × Yield)
  unfolding mask_columns values_of length_of put_row
  mask_row s table line = put_row s (
      mask_columns F same s.current_rules (length_of lengths table) s.drawn s.current_columns
        (values_of line))

  -- `if current_table and line != '\\.\n' and current_rules`
  unfoldable pub data_line : Stream → Option Text → Text → Result (Stream × Yield)
  unfolding mask_row
  data_line s none line = pass_line s line
  data_line s (some table) line =
      if non_empty table && not (text_eq line terminator) && non_empty s.current_rules
      then mask_row s table line
      else pass_line s line

  -- The body of the loop of `_relay_lines`.
  unfoldable pub relay_line : Stream → Text → Result (Stream × Yield)
  unfolding copy_header open_table data_line
  relay_line s line =
      if has_prefix incompatible_set line
      then ok (s, record { warned_of = none; line = none })
      else elim (copy_header line) [
        | some (name, cols) ↦ ok (open_table s line name cols)
        | none ↦ data_line s s.current_table line
      ]
