-- ===== src/Database/Postgres/Dump.antt =====
-- What becomes of a table's block in a dump of pg_dump (services/worker/modules/postgres/handler.py,
-- `_relay_lines`).
use tmask_tt.Base.{
  ℕ, ◌≡◌, inl, inr, refl, ap, ◌∙◌, Bool, true, false, none, some, List, [], ◌∷◌, ◌++◌, map, arith,
  non_empty,
}
use tmask_tt.Base.Text.{Text, text_eq, has_prefix, after_prefix}
use tmask_tt.Masking.{Faker, Rules, Profile, Lengths, mask_columns, length_of, rules_for}
use tmask_tt.Worker.{Result, ok, err, Result-cases}
use tmask_tt.Database.Pipe.{goes_on}
use tmask_tt.Database.Written.{prepend, lines_through, lines_through_cons}
use tmask_tt.Database.Postgres.Stream.{
  Stream, terminator, incompatible_set, copy_header, table_of, columns_of, same, values_of, line_of,
  relay_line, open_table, put_row, end_table, mask_row, data_line,
}

ok_pair :
    (a c : List (List Text)) (b d : ℕ)
    → ◌≡◌ {A = Result (List (List Text) × ℕ)} (ok (a, b)) (ok (c, d))
    → (c ≡ a) × (d ≡ b)
ok_pair a c b d h = (ground arith, ground arith)

-- The lines of a block: the header, the rows and the terminator.
abbrev pub block : Text → List (List Text) → List Text
block header rows = header ∷ (map line_of rows ++ (terminator ∷ []))

-- The rows of a table masked one after another, from the values drawn so far.
module _ (F : Faker) (rules : Rules) (lengths : Lengths) (table : Text) (columns : List Text) where
  abbrev cons_row : List Text → Result (List (List Text) × ℕ) → Result (List (List Text) × ℕ)
  cons_row row (ok (rows, n)) = ok (row ∷ rows, n)
  cons_row row (err e) = err e

  unfoldable pub mask_rows : ℕ → List (List Text) → Result (List (List Text) × ℕ)
  mask_rows n [] = ok ([], n)
  mask_rows n (row ∷ rows) =
      elim (mask_columns F same rules (length_of lengths table) n columns row) [
        | err e ↦ err e
        | ok (masked, n') ↦ cons_row masked (mask_rows n' rows)
      ]

  cons_row_inv :
      (row : List Text) (rows' : List (List Text)) (n : ℕ) (rest : Result (List (List Text) × ℕ))
      → cons_row row rest ≡ ok (rows', n)
      → (rs : List (List Text)) × (rest ≡ ok (rs, n)) × (rows' ≡ row ∷ rs)
  cons_row_inv row rows' n (ok (rs, k)) h = (rs, ground arith, ground arith)
  cons_row_inv row rows' n (err e) h = absurd (ground arith)

  mask_rows_inv :
      (n m : ℕ) (row : List Text) (rows rows' : List (List Text))
      → mask_rows n (row ∷ rows) ≡ ok (rows', m)
      → (masked : List Text) × (k : ℕ) × (rs : List (List Text)) × (mask_columns F same rules
            (length_of lengths table)
            n
            columns
            row
          ≡ ok (masked, k))
        × (mask_rows k rows ≡ ok (rs, m))
        × (rows' ≡ masked ∷ rs)
  unfolding mask_rows
  mask_rows_inv n m row rows rows' h =
      elim (Result-cases (mask_columns F same rules (length_of lengths table) n columns row)) [
        | inr (e, raised) ↦ absurd (ground arith)
        | inl ((masked, k), done) ↦
            let (rs, more, same_rows) =
              cons_row_inv masked rows' m (mask_rows k rows) (rw (mask_rows, done) at h) in
            (masked, k, rs, done, more, same_rows)
      ]

-- A row whose line is read as data and holds its values.
pub record IsData (row : List Text) : Type 0 where
  pub is_kept : has_prefix incompatible_set (line_of row) ≡ false
  pub no_header : copy_header (line_of row) ≡ none
  pub no_end : text_eq (line_of row) terminator ≡ false
  pub read_back : values_of (line_of row) ≡ row

abbrev pub AllData : List (List Text) → Type 0
AllData [] = Unit {0}
AllData (row ∷ rows) = IsData row × AllData rows

module _ (F : Faker) (profile : Profile) (lengths : Lengths) (whole_db_scope : Bool) where
  abbrev closed_at : Stream → ℕ → Stream
  closed_at s n = record s {
    current_table = none;
    current_columns = [];
    current_rules = [];
    drawn = n;
  }

  relay_line_row :
      (s : Stream) (table : Text) (row : List Text)
      → s.current_table ≡ some table
      → non_empty table ≡ true
      → non_empty s.current_rules ≡ true
      → IsData row
      → relay_line F profile lengths whole_db_scope s (line_of row)
        ≡ put_row s (
            mask_columns F same s.current_rules
              (length_of lengths table)
              s.drawn
              s.current_columns
              row)
  unfolding relay_line data_line mask_row
  relay_line_row s table row opened named ruled d =
      rw (d.is_kept, d.no_header, opened, d.no_end, named, ruled, d.read_back) refl

  relay_line_end :
      (s : Stream) (table : Text)
      → s.current_table ≡ some table
      → non_empty table ≡ true
      → relay_line F profile lengths whole_db_scope s terminator
        ≡ ok (end_table s, goes_on terminator)
  unfolding relay_line data_line copy_header after_prefix
  relay_line_end s table opened named = rw (opened, named) refl

  -- The lines of the rows and the terminator, inside a table.
  lines_through_rows :
      (s : Stream) (table : Text) (rows rows' : List (List Text)) (n : ℕ)
      → s.current_table ≡ some table
      → non_empty table ≡ true
      → non_empty s.current_rules ≡ true
      → AllData rows
      → mask_rows F s.current_rules lengths table s.current_columns s.drawn rows ≡ ok (rows', n)
      → lines_through
          (relay_line F profile lengths whole_db_scope)
          s
          (map line_of rows ++ (terminator ∷ []))
        ≡ ok (closed_at s n, map line_of rows' ++ (terminator ∷ []))
  unfolding lines_through mask_rows relay_line
  lines_through_rows s table [] rows' n opened named ruled ds h =
      lines_through_cons (relay_line F profile lengths whole_db_scope) s (end_table s) terminator
        (goes_on terminator) [] (relay_line_end s table opened named)
      ∙ (let (no_rows, drawn) = ok_pair [] rows' s.drawn n h in rw (no_rows, drawn) refl)
  lines_through_rows s table (row ∷ rows) rows' n opened named ruled (d, ds) h =
      let (masked, k, rs, done, more, same_rows) =
        mask_rows_inv F s.current_rules lengths table s.current_columns s.drawn n row rows rows'
          h in
      let step : relay_line F profile lengths whole_db_scope s (line_of row)
          ≡ ok (record s { drawn = k }, goes_on (line_of masked)) =
        relay_line_row s table row opened named ruled d ∙ ap (put_row s) done in
      rw same_rows (
        lines_through_cons (relay_line F profile lengths whole_db_scope) s (record s { drawn = k })
          (line_of row) (goes_on (line_of masked)) (map line_of rows ++ (terminator ∷ [])) step
        ∙ ap (prepend (goes_on (line_of masked))) (
            lines_through_rows (record s { drawn = k }) table rows rs n opened named ruled ds more))

  -- Inside a dump, the block of a table with masking rules comes out as the same block with each row
  -- masked, and the generator is ready for the next one: where the header is recognised, is no `SET
  -- transaction_timeout` and names a table, each row is read as data, and the rows can be masked.
  pub relay_line-block :
      (s : Stream) (header name cols : Text) (rows rows' : List (List Text)) (n : ℕ)
      → has_prefix incompatible_set header ≡ false
      → copy_header header ≡ some (name, cols)
      → non_empty (table_of name) ≡ true
      → non_empty (rules_for profile (table_of name)) ≡ true
      → AllData rows
      → mask_rows F
          (rules_for profile (table_of name))
          lengths
          (table_of name)
          (columns_of cols)
          s.drawn
          rows
        ≡ ok (rows', n)
      → lines_through (relay_line F profile lengths whole_db_scope) s (block header rows)
        ≡ ok (closed_at s n, block header rows')
  unfolding relay_line open_table
  relay_line-block s header name cols rows rows' n kept header_read named ruled ds h =
      let inside : Stream = record s {
        current_table = some (table_of name);
        current_columns = columns_of cols;
        current_rules = rules_for profile (table_of name);
      } in
      let step : relay_line F profile lengths whole_db_scope s header
          ≡ ok (inside, goes_on header) =
        rw (kept, header_read, ruled) refl in
      lines_through_cons (relay_line F profile lengths whole_db_scope) s inside header
        (goes_on header) (map line_of rows ++ (terminator ∷ [])) step
      ∙ ap (prepend (goes_on header))
          (lines_through_rows inside (table_of name) rows rows' n refl named ruled ds h)
