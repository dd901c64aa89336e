-- ===== src/Database/Counts.antt =====
-- The comparison of the numbers of rows (`_verify_row_counts` of the handlers under
-- services/worker/modules/postgres, mysql and mssql) and the lengths of the masked columns
-- (`_fetch_column_lengths`).
use tmask_tt.Base.{
  ℕ, String, ◌<>◌, Option, none, some, List, [], ◌∷◌, ◌==◌, non_empty, truthy, if◌then◌else◌,
}
use tmask_tt.Base.Str.{show}
use tmask_tt.Masking.{Profile, Lengths}
use tmask_tt.Worker.{Eff, pure, ◌>>=◌, ◌>>◌, finally, emit, ask, closed, log, info, warn}
use tmask_tt.Database.Params.{DbParams, source, dest, Drivers, catch_driver, close, try_connect}

-- The message on one table, with its two counts.
unfoldable pub report_counts : String → ℕ → ℕ → Eff (Unit {0})
report_counts table src_count dst_count =
    if src_count == dst_count
    then log info ("ROW COUNT OK w \"" <> (table <> ("\": " <> show src_count)))
    else log warn (
        "ROW COUNT MISMATCH w \""
        <> (table <> ("\": source=" <> (show src_count <> (" dest=" <> show dst_count)))))

module _ (D : Drivers) (p : DbParams) where
  -- The loop over the tables; `query` writes the count of a table.
  unfoldable pub compare_counts : (String → String) → List String → Eff (Unit {0})
  unfolding report_counts
  compare_counts query [] = pure tt
  compare_counts query (table ∷ tables) = do
    src_count ← ask (λ w. D.count w source (query table))
    dst_count ← ask (λ w. D.count w dest (query table))
    report_counts table src_count dst_count
    compare_counts query tables

  -- The body behind the two connections: the tables are those that `tables` gives.
  unfoldable pub compare_tables : (String → String) → Eff (List String) → Eff (Unit {0})
  unfolding compare_counts
  compare_tables query tables =
      finally
        (catch_driver (do names ← tables; compare_counts query names)
          (λ m. log warn ("ROW COUNT VERIFICATION FAILED — " <> m)))
        (λ w. close (close w))

  unfoldable pub compare_if_connected :
      (String → String) → Eff (List String) → Option String → Eff (Unit {0})
  unfolding compare_tables
  compare_if_connected query tables (some m) = do
    emit closed
    log warn ("ROW COUNT VERIFICATION SKIPPED — nie udało się połączyć z celem: " <> m)
  compare_if_connected query tables none = compare_tables query tables

  unfoldable pub compare_from_source :
      (String → String) → Eff (List String) → Option String → Eff (Unit {0})
  unfolding compare_if_connected try_connect
  compare_from_source query tables (some m) =
      log warn ("ROW COUNT VERIFICATION SKIPPED — nie udało się połączyć ze źródłem: " <> m)
  compare_from_source query tables none = do
    no_dest ← try_connect D p dest
    compare_if_connected query tables no_dest

  -- `_verify_row_counts`
  unfoldable pub verify_counts : (String → String) → Eff (List String) → Eff (Unit {0})
  unfolding compare_from_source try_connect
  verify_counts query tables = do
    no_source ← try_connect D p source
    compare_from_source query tables no_source

  -- `tables = [p['table_name']]`, or what a query on the source gives.
  unfoldable pub tables_by : String → List String → Eff (List String)
  tables_by query args = elim p.table_name [
    | none ↦ ask (λ w. D.names w query args)
    | some t ↦ if truthy t then pure (t ∷ []) else ask (λ w. D.names w query args)
  ]

  -- The loop of `_fetch_column_lengths` over the tables with rules.
  unfoldable pub fetch_lengths : Profile → Eff Lengths
  fetch_lengths [] = pure []
  fetch_lengths ((table, rules) ∷ rest) = do
    found ← ask (λ w. D.max_lengths w table rules)
    others ← fetch_lengths rest
    pure ((table, found) ∷ others)

  abbrev lengths_if_connected : Option String → Eff Lengths
  unfolding fetch_lengths
  lengths_if_connected (some m) = pure []
  lengths_if_connected none =
      finally (catch_driver (fetch_lengths p.masking_rules) (λ m. pure [])) close

  -- `_fetch_column_lengths`: no lengths on an error.
  unfoldable pub fetch_column_lengths : Eff Lengths
  unfolding try_connect lengths_if_connected
  fetch_column_lengths =
      if non_empty p.masking_rules then try_connect D p source >>= lengths_if_connected else pure []
