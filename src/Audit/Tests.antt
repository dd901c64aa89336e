-- ===== src/Audit/Tests.antt =====
-- Runs of the comparison of two states of a connection.
use tmask_tt.Base.{true, false, arith, ◌≡◌, String, if◌then◌else◌, List, [], ◌∷◌, str_eq}
use tmask_tt.Audit.{text, Instance, is_unchanged, normalize, value_eq, diff_fields}
use tmask_tt.Audit.Changes.{get, IsLogged, Alike, get-diff_fields, diff_fields-Alike}

abbrev stored : String → String → Instance
stored host password = λ f. if str_eq "password" f then text password else text host

abbrev tracked : List String
tracked = "host" ∷ "password" ∷ []

get-diff_fields_example :
    IsLogged true false
      (text "a")
      (text "b")
      (get "host" (diff_fields (stored "a" "x") (stored "b" "y") tracked ("password" ∷ [])))
get-diff_fields_example =
    get-diff_fields (stored "a" "x") (stored "b" "y") tracked ("password" ∷ []) "host"

Alike-stored :
    Alike (stored "a" "x") (stored "b" "y") (stored "a" "p") (stored "b" "q") ("password" ∷ [])
unfolding is_unchanged normalize value_eq
Alike-stored = record {
  same_old = λ f h. ground arith;
  same_new = λ f h. ground arith;
  same_test = λ f. ground arith;
}

diff_fields-Alike_example :
    diff_fields (stored "a" "x") (stored "b" "y") tracked ("password" ∷ [])
    ≡ diff_fields (stored "a" "p") (stored "b" "q") tracked ("password" ∷ [])
diff_fields-Alike_example =
    diff_fields-Alike (stored "a" "x") (stored "b" "y") (stored "a" "p") (stored "b" "q") tracked
      ("password" ∷ []) Alike-stored
