-- ===== src/Database/Mysql/Values.antt =====
-- The values of an INSERT statement (`_split_values`, `_quote_mysql_value` of
-- services/worker/modules/mysql/handler.py) and the statement itself (`_INSERT_RE`).
use tmask_tt.Base.{
  ℕ, zero, suc, ◌-◌, Bool, false, not, ◌&&◌, ◌||◌, Option, none, some, List, [], ◌∷◌, ◌++◌, map,
  ◌==◌, length, non_empty, if◌then◌else◌,
}
use tmask_tt.Base.Text.{
  Text, codes, text_eq, has_prefix, strip, strip_of, split_on, replace_char, take_while, drop_while,
  after_prefix,
}

-- The loop of `_split_values`: whether it is in quotes, whether the character before is a backslash,
-- the value that is being read and the characters that follow.
unfoldable pub split_from : Bool → Bool → Text → Text → List Text
split_from in_quotes escaped current [] = current ∷ []
split_from in_quotes escaped current (c ∷ s) =
    let toggled = split_from (not in_quotes) false (current ++ (c ∷ [])) s in
    let ended = split_from in_quotes false [] s in
    let read = split_from in_quotes (c == b'\\') (current ++ (c ∷ [])) s in
    if (c == b'\'') && not escaped
    then toggled
    else if (c == b',') && not in_quotes
    then current ∷ ended
    else read

-- `_split_values`
unfoldable pub split_values : Text → List Text
unfolding split_from
split_values s = split_from false false [] s

-- `value.replace('\\', '\\\\').replace("'", "\\'")`
unfoldable pub escape_value : Text → Text
unfolding replace_char
escape_value value =
    replace_char b'\'' (b'\\' ∷ b'\'' ∷ []) (replace_char b'\\' (b'\\' ∷ b'\\' ∷ []) value)

-- `_quote_mysql_value`
unfoldable pub quote_mysql_value : Text → Text
unfolding escape_value
quote_mysql_value value = b'\'' ∷ (escape_value value ++ (b'\'' ∷ []))

-- The end of the statement: `);`, and `\n?$`.
abbrev is_statement_end : Text → Bool
is_statement_end s =
    text_eq s (codes ");") || text_eq s (codes ");\n") || text_eq s (codes ");\n\n")

abbrev put_first : ℕ → Option Text → Option Text
put_first c none = none
put_first c (some s) = some (c ∷ s)

-- `(.*)` up to the end of the statement; it holds no end of line.
unfoldable pub statement_body : Text → Option Text
statement_body [] = none
statement_body (c ∷ s) =
    let rest = statement_body s in
    if is_statement_end (c ∷ s) then some [] else if c == b'\n' then none else put_first c rest

abbrev insert_values : Text → Text → Text → Option (Text × Text × Text)
unfolding statement_body
insert_values table cols rest = elim (after_prefix (codes ") VALUES (") rest) [
  | none ↦ none
  | some rest ↦ elim (statement_body rest) [
    | none ↦ none
    | some body ↦ if non_empty table then some (table, cols, body) else none
  ]
]

abbrev not_close : ℕ → Bool
not_close c = not (c == b')')

abbrev not_backtick : ℕ → Bool
not_backtick c = not (c == b'`')

abbrev insert_columns : Text → Text → Option (Text × Text × Text)
unfolding take_while drop_while after_prefix insert_values
insert_columns table rest = elim (after_prefix (codes "` (") rest) [
  | none ↦ none
  | some cols ↦ insert_values table (take_while not_close cols) (drop_while not_close cols)
]

-- `_INSERT_RE.match(line)`: its three groups.
unfoldable pub insert_groups : Text → Option (Text × Text × Text)
unfolding take_while drop_while after_prefix insert_columns
insert_groups line = elim (after_prefix (codes "INSERT INTO `") line) [
  | none ↦ none
  | some rest ↦ insert_columns (take_while not_backtick rest) (drop_while not_backtick rest)
]

abbrev strip_name : Text → Text
unfolding strip strip_of
strip_name c = strip_of (λ k. k == b'`') (strip c)

-- `[c.strip().strip('`') for c in columns_str.split(',')]`
unfoldable pub column_names : Text → List Text
unfolding split_on strip_name
column_names cols = map strip_name (split_on b',' cols)

-- `s.replace(part, '')` for a part that is not empty: `skipped` counts the characters of an occurrence
-- that are still to be left out.
unfoldable pub remove_from : Text → ℕ → Text → Text
remove_from part skipped [] = []
remove_from part (suc skipped) (c ∷ s) = remove_from part skipped s
remove_from part zero (c ∷ s) =
    let left_out = remove_from part (length part - 1) s in
    let kept = remove_from part zero s in if has_prefix part (c ∷ s) then left_out else c ∷ kept

abbrev pub collation : Text
collation = codes " COLLATE utf8mb4_0900_ai_ci"

-- `line.replace(' COLLATE utf8mb4_0900_ai_ci', '')`
unfoldable pub strip_collation : Text → Text
unfolding remove_from
strip_collation line = remove_from collation zero line
