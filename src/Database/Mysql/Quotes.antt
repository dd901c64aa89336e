-- ===== src/Database/Mysql/Quotes.antt =====
-- Reading back the values that the relay of a mysqldump writes (`_split_values`,
-- `_quote_mysql_value` of services/worker/modules/mysql/handler.py).
use mathlib.Core.List.{append_assoc, append-nil}
use tmask_tt.Base.{
  ℕ, ◌≡◌, refl, ap, ◌∙◌, Bool, true, false, List, [], ◌∷◌, ◌++◌, map, arith, ◌==◌, if◌then◌else◌,
}
use tmask_tt.Base.Text.{Text, join_with, replace_char}
use tmask_tt.Database.Mysql.Values.{split_from, split_values, escape_value, quote_mysql_value}

-- The last character of a text is a backslash; `before` stands for that of no text.
abbrev pub ends_in_backslash : Bool → Text → Bool
ends_in_backslash before [] = before
ends_in_backslash before (c ∷ s) = ends_in_backslash (c == b'\\') s

-- The characters that stand for one of a value.
abbrev escape_char : ℕ → Text
escape_char c =
    if c == b'\\' then b'\\' ∷ b'\\' ∷ [] else if c == b'\'' then b'\\' ∷ b'\'' ∷ [] else c ∷ []

escape_value_cons : (c : ℕ) (s : Text) → escape_value (c ∷ s) ≡ escape_char c ++ escape_value s
unfolding escape_value replace_char
escape_value_cons c s = ground arith

read_escape_char :
    (escaped : Bool) (c : ℕ) (current rest : Text)
    → split_from true escaped current (escape_char c ++ rest)
      ≡ split_from true (c == b'\\') (current ++ escape_char c) rest
unfolding split_from
read_escape_char escaped c current rest = ground (
  arith,
  append_assoc current (b'\\' ∷ []) (b'\\' ∷ []),
  append_assoc current (b'\\' ∷ []) (b'\'' ∷ []),
)

-- In quotes, an escaped value is read to its end, whatever stands before it.
split_from_escaped :
    (escaped : Bool) (value current rest : Text)
    → ends_in_backslash escaped value ≡ false
    → split_from true escaped current (escape_value value ++ (b'\'' ∷ rest))
      ≡ split_from false false (current ++ (escape_value value ++ (b'\'' ∷ []))) rest
unfolding split_from escape_value replace_char
split_from_escaped escaped [] current rest h = rw h refl
split_from_escaped escaped (c ∷ s) current rest h =
    let end : Text = escape_value s ++ (b'\'' ∷ []) in
    let read =
      read_escape_char escaped c current (escape_value s ++ (b'\'' ∷ rest))
      ∙ split_from_escaped (c == b'\\') s (current ++ escape_char c) rest h in
    rw
      (
        escape_value_cons c s,
        append_assoc (escape_char c) (escape_value s) (b'\'' ∷ rest),
        append_assoc (escape_char c) (escape_value s) (b'\'' ∷ []),
        ← append_assoc current (escape_char c) end,
      )
      read

-- A quoted value, from its first quote to its last.
split_from_quoted :
    (value rest : Text)
    → ends_in_backslash false value ≡ false
    → split_from false false [] (quote_mysql_value value ++ rest)
      ≡ split_from false false (quote_mysql_value value) rest
unfolding split_from quote_mysql_value
split_from_quoted value rest h =
    rw (append_assoc (escape_value value) (b'\'' ∷ []) rest)
      (split_from_escaped false value (b'\'' ∷ []) rest h)

-- Every value ends in another character than a backslash.
abbrev pub NoneEndsInBackslash : List Text → Type 0
NoneEndsInBackslash [] = Unit {0}
NoneEndsInBackslash (v ∷ vs) = (ends_in_backslash false v ≡ false) × NoneEndsInBackslash vs

-- Splitting a row that was written from at least one value, none of which ends in a backslash, gives
-- the quoted values that it was written from: neither a comma, a quote nor a backslash inside a value
-- moves a column.
pub split_values-join_with :
    (v : Text) (vs : List Text)
    → NoneEndsInBackslash (v ∷ vs)
    → split_values (join_with b',' (map quote_mysql_value (v ∷ vs)))
      ≡ map quote_mysql_value (v ∷ vs)
unfolding split_values split_from join_with
split_values-join_with v [] (h, none_more) =
    rw (append-nil (quote_mysql_value v)) at (split_from_quoted v [] h)
split_values-join_with v (u ∷ us) (h, hs) =
    split_from_quoted v (b',' ∷ join_with b',' (map quote_mysql_value (u ∷ us))) h
    ∙ ap (λ rest. quote_mysql_value v ∷ rest) (split_values-join_with u us hs)
