-- ===== src/Database/Mssql/Cleanup.antt =====
-- The temporary files of the handler of SQL Server (services/worker/modules/mssql/handler.py,
-- `_transfer_once`).
use tmask_tt.Base.{
  ℕ, ◌≡◌, refl, ap, sym, ◌∙◌, String, Bool, true, false, Option, none, some, List, [], ◌∷◌, ◌++◌,
  truthy, inl, inr, if◌then◌else◌,
}
use tmask_tt.Base.Text.{Text}
use tmask_tt.Masking.{Rules}
use tmask_tt.Worker.{
  World, Result, ok, err, Event, Eff, pure, ◌>>=◌, when, finally, emit, ask, lift, assign, remove,
}
use tmask_tt.Worker.Params.{Tools}
use tmask_tt.Worker.Effects.{
  KeepsFiles, keeping, if-KeepsFiles, pure-KeepsFiles, outcome_cases, bind_ok, bind_err,
}
use tmask_tt.Worker.Files.{make_temp}
use tmask_tt.Worker.TempFiles.{str_eq_refl}
use tmask_tt.Database.Params.{DbParams, Drivers, source, connect}
use tmask_tt.Database.Pipe.{drain}
use tmask_tt.Database.Mssql.Schema.{Column, TableSchema}
use tmask_tt.Database.Mssql.{
  Server, unlink_all, source_table_names, introspect_table, rules_of, mask_lines, mask_dat_file,
  run_step, hold_temp, write_tables, load_table, transfer_table, transfer_tables, transfer_steps,
  transfer_named, transfer_once, query_names, table_names_of, remove_temps,
}

-- The temporary files of a world are those in `tmp_paths` before others.
abbrev Holds : List String → World → Type 0
Holds others w = w.temps ≡ w.tmp_paths ++ others

-- A step that keeps it so.
record KeepsHeld {A : Type 0} (m : Eff A) : Type 0 where
  pub keep : (others : List String) (w : World) → Holds others w → Holds others (m w).1

module _ {A : Type 0} where
  pure-KeepsHeld : (a : A) → KeepsHeld (pure a)
  unfolding pure
  pure-KeepsHeld a = record { keep = λ others w h. h }

  lift-KeepsHeld : (r : Result A) → KeepsHeld (lift r)
  unfolding lift
  lift-KeepsHeld r = record { keep = λ others w h. h }

  ask-KeepsHeld : (f : World → Result A) → KeepsHeld (ask f)
  unfolding ask
  ask-KeepsHeld f = record { keep = λ others w h. h }

  if-KeepsHeld :
      (b : Bool) {m n : Eff A} → KeepsHeld m → KeepsHeld n → KeepsHeld (if b then m else n)
  if-KeepsHeld true hm hn = hm
  if-KeepsHeld false hm hn = hn

emit-KeepsHeld : (e : Event) → KeepsHeld (emit e)
unfolding emit
emit-KeepsHeld e = record { keep = λ others w h. h }

when-KeepsHeld : (b : Bool) {m : Eff (Unit {0})} → KeepsHeld m → KeepsHeld (when b m)
unfolding when pure
when-KeepsHeld true h = h
when-KeepsHeld false h = record { keep = λ others w h. h }

bind-KeepsHeld :
    {A B : Type 0} {m : Eff A} {f : A → Eff B}
    → KeepsHeld m
    → ((a : A) → KeepsHeld (f a))
    → KeepsHeld (m >>= f)
unfolding ◌>>=◌
bind-KeepsHeld {A} {B} {m} {f} hm hf = record {
  keep = λ others w h. go (m w).0 (m w).1 others (hm.keep others w h);
}
  where
    go :
        (r : Result A) (w' : World) (others : List String)
        → Holds others w'
        → Holds others (elim r as (λ _. Result B × World) [ ok a ↦ f a w' | err e ↦ (err e, w') ]).1
    go (ok a) w' others k = (hf a).keep others w' k
    go (err e) w' others k = k

ruleset holding = (
  bind-KeepsHeld, pure-KeepsHeld, lift-KeepsHeld, ask-KeepsHeld, if-KeepsHeld, when-KeepsHeld,
  emit-KeepsHeld,
)

drain-KeepsHeld : (ls : List String) → KeepsHeld (drain ls)
unfolding drain
drain-KeepsHeld [] = search (holding) depth 8
drain-KeepsHeld (l ∷ ls) =
    bind-KeepsHeld (when-KeepsHeld _ (emit-KeepsHeld _))
      λ _. bind-KeepsHeld (drain-KeepsHeld ls) λ kept. pure-KeepsHeld _

module _ (T : Tools) (D : Drivers) (S : Server) (p : DbParams) where
  hold_temp-KeepsHeld : (suffix : String) → KeepsHeld (hold_temp T D S p suffix)
  unfolding hold_temp make_temp ◌>>=◌ assign pure
  hold_temp-KeepsHeld suffix = record {
    keep = λ others w h. ap (λ ps. T.temp_name w suffix ∷ ps) h;
  }

  connect-KeepsHeld : KeepsHeld (connect D p source)
  unfolding connect
  connect-KeepsHeld = search (holding) depth 10

  introspect_table-KeepsHeld : (t : String) → KeepsHeld (introspect_table T D S p t)
  unfolding introspect_table
  introspect_table-KeepsHeld t = search (holding, connect-KeepsHeld) depth 12

  run_step-KeepsHeld : (cmd : List String) → KeepsHeld (run_step T D S p cmd)
  unfolding run_step
  run_step-KeepsHeld cmd = search (holding, drain-KeepsHeld) depth 12

  mask_lines-KeepsHeld :
      (rules : Rules) (cs : List Column) (path : String) (n : ℕ) (ls : List Text)
      → KeepsHeld (mask_lines T D S p rules cs path n ls)
  unfolding mask_lines
  mask_lines-KeepsHeld rules cs path n [] = search (holding) depth 8
  mask_lines-KeepsHeld rules cs path n (l ∷ ls) =
      bind-KeepsHeld (lift-KeepsHeld _)
        λ _. bind-KeepsHeld (emit-KeepsHeld _) λ _. mask_lines-KeepsHeld rules cs path _ ls

  mask_dat_file-KeepsHeld :
      (path t : String) (schema : TableSchema) → KeepsHeld (mask_dat_file T D S p path t schema)
  unfolding mask_dat_file
  mask_dat_file-KeepsHeld path t schema = search (holding, mask_lines-KeepsHeld) depth 12

  rules_of-KeepsHeld : (t : String) → KeepsHeld (rules_of T D S p t)
  unfolding rules_of
  rules_of-KeepsHeld t = search holding depth 12

  write_tables-KeepsHeld :
      (path : String) (names : List String) → KeepsHeld (write_tables T D S p path names)
  unfolding write_tables
  write_tables-KeepsHeld path [] = pure-KeepsHeld tt
  write_tables-KeepsHeld path (t ∷ ts) =
      bind-KeepsHeld (introspect_table-KeepsHeld t)
        λ _. bind-KeepsHeld (emit-KeepsHeld _) λ _. write_tables-KeepsHeld path ts

  load_table-KeepsHeld :
      (t path : String) (masks : Bool) → KeepsHeld (load_table T D S p t path masks)
  unfolding load_table
  load_table-KeepsHeld t path masks =
      search (holding, introspect_table-KeepsHeld, mask_dat_file-KeepsHeld, run_step-KeepsHeld)
        depth 14

  transfer_table-KeepsHeld : (t : String) → KeepsHeld (transfer_table T D S p t)
  unfolding transfer_table
  transfer_table-KeepsHeld t =
      search
        (holding, hold_temp-KeepsHeld, rules_of-KeepsHeld, run_step-KeepsHeld, load_table-KeepsHeld)
        depth 14

  transfer_tables-KeepsHeld : (names : List String) → KeepsHeld (transfer_tables T D S p names)
  unfolding transfer_tables
  transfer_tables-KeepsHeld [] = pure-KeepsHeld true
  transfer_tables-KeepsHeld (t ∷ ts) =
      bind-KeepsHeld (transfer_table-KeepsHeld t)
        λ went. if-KeepsHeld went (transfer_tables-KeepsHeld ts) (pure-KeepsHeld false)

  transfer_steps-KeepsHeld : (names : List String) → KeepsHeld (transfer_steps T D S p names)
  unfolding transfer_steps
  transfer_steps-KeepsHeld names =
      search
        (
          holding, hold_temp-KeepsHeld, write_tables-KeepsHeld, run_step-KeepsHeld,
          transfer_tables-KeepsHeld,
        )
        depth 14

  unlink_all-append : (ps others : List String) → unlink_all ps (ps ++ others) ≡ others
  unfolding unlink_all remove
  unlink_all-append [] others = refl
  unlink_all-append (q ∷ ps) others = rw (str_eq_refl q) (unlink_all-append ps others)

  query_names-KeepsFiles : KeepsFiles (query_names T D S p)
  unfolding connect
  query_names-KeepsFiles = search keeping depth 12

  table_names_of-KeepsFiles : (o : Option String) → KeepsFiles (table_names_of T D S p o)
  table_names_of-KeepsFiles none = query_names-KeepsFiles
  table_names_of-KeepsFiles (some t) =
      if-KeepsFiles (truthy t) (pure-KeepsFiles (t ∷ [])) query_names-KeepsFiles

  source_table_names-KeepsFiles : KeepsFiles (source_table_names T D S p)
  unfolding source_table_names
  source_table_names-KeepsFiles = table_names_of-KeepsFiles p.table_name

  transfer_named_leaves_no_files :
      (names : List String) (w : World) → (transfer_named T D S p names w).1.temps ≡ w.temps
  unfolding transfer_named finally remove_temps assign ◌>>=◌
  transfer_named_leaves_no_files names w =
      let w' = (transfer_steps T D S p names (record w { tmp_paths = [] })).1 in
      rw ((transfer_steps-KeepsHeld names).keep w.temps (record w { tmp_paths = [] }) refl)
        (unlink_all-append w'.tmp_paths w.temps)

  -- An attempt leaves just the temporary files that it found, however it ends.
  pub transfer_once_leaves_no_files : (w : World) → (transfer_once T D S p w).1.temps ≡ w.temps
  unfolding transfer_once
  transfer_once_leaves_no_files w = elim (outcome_cases (source_table_names T D S p w)) [
    | inr (e, w', raised) ↦
        ap (λ x. x.1.temps)
          (bind_err (source_table_names T D S p) (transfer_named T D S p) w w' e raised)
        ∙ ap (λ x. x.1.temps) (sym raised)
        ∙ ap (λ x. x.0) (source_table_names-KeepsFiles.keep w)
    | inl (names, w', named) ↦
        ap (λ x. x.1.temps)
          (bind_ok (source_table_names T D S p) (transfer_named T D S p) w w' names named)
        ∙ transfer_named_leaves_no_files names w'
        ∙ ap (λ x. x.1.temps) (sym named)
        ∙ ap (λ x. x.0) (source_table_names-KeepsFiles.keep w)
  ]
