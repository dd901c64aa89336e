-- ===== src/Flows/Stored.antt =====
-- What the pages of flows keep of every flow, and what a removed flow leaves
-- (services/web/apps/flows/views.py, forms.py).
use tmask_tt.Base.{
  ℕ, ◌≡◌, true, false, ◌&&◌, Option, some, List, arith, ◌==◌, inl, inr, Bool-cases, Option-cases,
  str_eq,
}
use tmask_tt.Accounts.{User, admin, operator}
use tmask_tt.Worker.{Result-cases}
use tmask_tt.Pages.{
  Method, Answer, with_role_keeps, post_only_keeps, or_404, find_row, find_row_own,
  find_row-save_row, find_row-delete_row,
}
use tmask_tt.Scheduler.{FormRequest, shown, invalid, filled}
use tmask_tt.Flows.{
  Host, FlowRow, FlowForm, FlowTables, Broker, flow_key, is_choice, is_path, is_same_file, is_valid,
  with_flow_form, write_flow, flow_create, flow_edit, flow_delete, run_flow, flow_run,
}

-- A flow between two hosts that exist and are reached by SSH, with paths that are empty or valid, and not
-- from a file to itself.
pub record IsSound (hosts : List Host) (f : FlowRow) : Type 0 where
  pub from_host : is_choice hosts f.source_conn ≡ true
  pub to_host : is_choice hosts f.dest_conn ≡ true
  pub from_path : is_path f.source_path ≡ true
  pub to_path : is_path f.dest_path ≡ true
  pub apart : ((f.source_conn == f.dest_conn) && str_eq f.source_path f.dest_path) ≡ false

-- Every flow of the table is one.
pub record AreSound (t : FlowTables) : Type 0 where
  pub sound : (k : ℕ) (f : FlowRow) → find_row flow_key k t.flows ≡ some f → IsSound t.hosts f

write_flow-IsSound :
    (hosts : List Host) (f : FlowForm) (r : FlowRow)
    → is_valid hosts f ≡ true
    → IsSound hosts (write_flow f r)
unfolding is_valid is_same_file write_flow
write_flow-IsSound hosts f r h = record {
  from_host = ground arith;
  to_host = ground arith;
  from_path = ground arith;
  to_path = ground arith;
  apart = ground arith;
}

module _ (t : FlowTables) (h : AreSound t) where
  with_flow_form-AreSound :
      (request : FormRequest FlowForm) (view : FlowForm → Answer × FlowTables)
      → ((f : FlowForm) → is_valid t.hosts f ≡ true → AreSound (view f).1)
      → AreSound (with_flow_form request t view).1
  unfolding with_flow_form
  with_flow_form-AreSound shown view step = h
  with_flow_form-AreSound invalid view step = h
  with_flow_form-AreSound (filled f) view step = elim (Bool-cases (is_valid t.hosts f)) [
    | inl good ↦ rw good (step f good)
    | inr bad ↦ rw bad h
  ]

  or_404-AreSound :
      (pk : ℕ) (view : FlowRow → Answer × FlowTables)
      → ((f : FlowRow) → find_row flow_key f.pk t.flows ≡ some f → AreSound (view f).1)
      → AreSound (or_404 (find_row flow_key pk t.flows) t view).1
  or_404-AreSound pk view step = elim (Option-cases (find_row flow_key pk t.flows)) [
    | inl absent ↦ rw absent h
    | inr (f, found) ↦ rw found (step f (find_row_own flow_key pk t.flows f found))
  ]

  flow_create-AreSound :
      (actor : Option User) (new : ℕ) (request : FormRequest FlowForm)
      → AreSound (flow_create actor new request t).1
  unfolding flow_create find_row
  flow_create-AreSound actor new request = with_role_keeps AreSound admin actor t _ h (λ u.
      with_flow_form-AreSound request _ (λ f valid. record {
        sound = λ k g found. ground (arith, h.sound k g, write_flow-IsSound t.hosts f);
      }))

  flow_edit-AreSound :
      (actor : Option User) (pk : ℕ) (request : FormRequest FlowForm)
      → AreSound (flow_edit actor pk request t).1
  unfolding flow_edit
  flow_edit-AreSound actor pk request = with_role_keeps AreSound admin actor t _ h (λ u.
      or_404-AreSound pk _ (λ before found. with_flow_form-AreSound request _ (λ f valid. record {
        sound = λ k g there. ground (
          arith,
          h.sound k g,
          write_flow-IsSound t.hosts f before valid,
          find_row-save_row flow_key k (write_flow f before) before t.flows found,
        );
      })))

  flow_delete-AreSound :
      (actor : Option User) (method : Method) (pk : ℕ) → AreSound (flow_delete actor method pk t).1
  unfolding flow_delete
  flow_delete-AreSound actor method pk = with_role_keeps AreSound admin actor t _ h (λ u.
      post_only_keeps AreSound method t _ h (
        or_404-AreSound pk _ (λ flow found. record {
          sound = λ k g there.
              ground (arith, h.sound k g, find_row-delete_row flow_key k flow.pk t.flows);
        })))

  run_flow-AreSound :
      (B : Broker) (now : ℕ) (u : User) (f : FlowRow) → AreSound (run_flow B now u f t).1
  unfolding run_flow
  run_flow-AreSound B now u f = elim (Result-cases (B.send_task t.sent (B.new_pk t.jobs))) [
    | inl (task, went) ↦ rw (went, run_flow) (record { sound = h.sound })
    | inr (e, broken) ↦ rw (broken, run_flow) (record { sound = h.sound })
  ]

  flow_run-AreSound :
      (B : Broker) (now : ℕ) (actor : Option User) (method : Method) (pk : ℕ)
      → AreSound (flow_run B now actor method pk t).1
  unfolding flow_run
  flow_run-AreSound B now actor method pk = with_role_keeps AreSound operator actor t _ h (λ u.
      post_only_keeps AreSound method t _ h
        (or_404-AreSound pk _ (λ f found. run_flow-AreSound B now u f)))

-- A request to one of the four views that write, by anyone.
pub data Step : FlowTables → FlowTables → Type 0 where
  create :
      (actor : Option User) (new : ℕ) (request : FormRequest FlowForm) (t : FlowTables)
      → Step t (flow_create actor new request t).1
  edit :
      (actor : Option User) (pk : ℕ) (request : FormRequest FlowForm) (t : FlowTables)
      → Step t (flow_edit actor pk request t).1
  delete :
      (actor : Option User) (method : Method) (pk : ℕ) (t : FlowTables)
      → Step t (flow_delete actor method pk t).1
  run :
      (B : Broker) (now : ℕ) (actor : Option User) (method : Method) (pk : ℕ) (t : FlowTables)
      → Step t (flow_run B now actor method pk t).1

pub data Steps (start : FlowTables) : FlowTables → Type 0 where
  here : Steps start start
  next : {a b : FlowTables} → Steps start a → Step a b → Steps start b

Step-AreSound : {a b : FlowTables} → Step a b → AreSound a → AreSound b
Step-AreSound (create actor new request t) h = flow_create-AreSound t h actor new request
Step-AreSound (edit actor pk request t) h = flow_edit-AreSound t h actor pk request
Step-AreSound (delete actor method pk t) h = flow_delete-AreSound t h actor method pk
Step-AreSound (run B now actor method pk t) h = flow_run-AreSound t h B now actor method pk

-- Through every sequence of requests to the pages of flows each flow stays one between two connections that
-- exist and are of kind SSH, with paths that are empty or valid, and not from a file to itself, where that
-- holds at the start.
pub Steps-AreSound : {a b : FlowTables} → Steps a b → AreSound a → AreSound b
Steps-AreSound here h = h
Steps-AreSound (next r st) h = Step-AreSound st (Steps-AreSound r h)
