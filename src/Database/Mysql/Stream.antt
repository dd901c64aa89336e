-- ===== src/Database/Mysql/Stream.antt =====
-- The relay of a dump of mysqldump (`_relay_lines` of services/worker/modules/mysql/handler.py).
use tmask_tt.Base.{
  ℕ, Bool, not, ◌&&◌, none, some, List, [], ◌∷◌, ◌++◌, any, non_empty, if◌then◌else◌,
}
use tmask_tt.Base.Text.{Text, codes, text_eq, join_with}
use tmask_tt.Masking.{Faker, Rules, Profile, Lengths, mask_columns, length_of, rules_for}
use tmask_tt.Worker.{Result, ok, err}
use tmask_tt.Database.Pipe.{Yield, goes_on}
use tmask_tt.Database.Mysql.Values.{
  split_values, quote_mysql_value, insert_groups, column_names, strip_collation,
}

-- The tables warned of, and the number of values drawn.
pub record Stream : Type 0 where
  pub warned_tables : List Text
  pub drawn : ℕ

abbrev pub empty_stream : Stream
empty_stream = record { warned_tables = []; drawn = 0 }

-- The statement that takes the place of the line.
unfoldable pub insert_line : Text → Text → List Text → Text
unfolding join_with
insert_line table cols values =
    codes "INSERT INTO `"
    ++ (table
        ++ (codes "` ("
            ++ (cols ++ (codes ") VALUES (" ++ (join_with b',' values ++ codes ");\n")))))

module _ (F : Faker) (profile : Profile) (lengths : Lengths) (whole_db_scope strips : Bool) where
  abbrev put_insert : Stream → Text → Text → Result (List Text × ℕ) → Result (Stream × Yield)
  unfolding insert_line
  put_insert s table cols (ok (values, n)) =
      ok (record s { drawn = n }, goes_on (insert_line table cols values))
  put_insert s table cols (err e) = err e

  -- A statement on a table with rules.
  unfoldable pub mask_insert : Stream → Rules → Text → Text → Text → Result (Stream × Yield)
  unfolding mask_columns split_values column_names length_of quote_mysql_value put_insert
  mask_insert s rules table cols body = put_insert s table cols (
      mask_columns F quote_mysql_value rules (length_of lengths table) s.drawn (column_names cols)
        (split_values body))

  -- A statement on a table without rules.
  unfoldable pub pass_insert : Stream → Text → Text → Stream × Yield
  pass_insert s table line =
      let warns = whole_db_scope && not (any (text_eq table) s.warned_tables) in
      (
        record s { warned_tables = if warns then table ∷ s.warned_tables else s.warned_tables },
        record { warned_of = if warns then some table else none; line = some line },
      )

  -- A line that matches, and its groups.
  unfoldable pub insert_statement : Stream → Text → Text → Text → Text → Result (Stream × Yield)
  unfolding rules_for mask_insert pass_insert
  insert_statement s line table cols body =
      if non_empty (rules_for profile table)
      then mask_insert s (rules_for profile table) table cols body
      else ok (pass_insert s table line)

  unfoldable pub relay_stripped : Stream → Text → Result (Stream × Yield)
  unfolding insert_groups insert_statement
  relay_stripped s line = elim (insert_groups line) [
    | none ↦ ok (s, goes_on line)
    | some (table, cols, body) ↦ insert_statement s line table cols body
  ]

  -- The body of the loop of `_relay_lines`.
  unfoldable pub relay_line : Stream → Text → Result (Stream × Yield)
  unfolding strip_collation relay_stripped
  relay_line s line = relay_stripped s (if strips then strip_collation line else line)
