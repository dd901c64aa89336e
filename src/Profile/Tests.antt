-- ===== src/Profile/Tests.antt =====
-- Runs of the tokens of the profile page.
use tmask_tt.Base.{◌≡◌, refl, arith, none, some, [], ◌∷◌, ◌++◌}
use tmask_tt.Base.Text.{codes}
use tmask_tt.Accounts.{find_user}
use tmask_tt.Accounts.Tests.{ann}
use tmask_tt.Worker.{ok}
use tmask_tt.Api.{ApiToken, Server, Tables, get_user_from_token}
use tmask_tt.Profile.{
  TokenState, Mint, count_tokens, generate_api_token, find_token, revoke_api_token,
}
use tmask_tt.Profile.Tokens.{
  AreKept, here, next, generate, with_tokens, Steps-AreKept, get_user_from_token-generate,
  get_user_from_token-revoke,
}

abbrev server : Server
server = record { sha256 = λ key. "digest"; new_pk = λ jobs. 7; send_task = λ sent pk. ok "task" }

abbrev mint : Mint
mint = record { raw_key = codes "k3y"; pk = 4 }

abbrev no_tokens : TokenState
no_tokens = record { tokens = []; new_api_token = none }

abbrev token : ApiToken
token = record { pk = 4; user = 1; label = "ci"; key_hash = "digest"; last_used_at = none }

abbrev one_token : TokenState
one_token = record { tokens = token ∷ []; new_api_token = none }

abbrev tables : Tables
tables = record {
  users = ann ∷ [];
  tokens = [];
  connections = [];
  flows = [];
  jobs = [];
  sent = [];
  db_jobs = [];
}

AreKept-empty : AreKept []
unfolding count_tokens
AreKept-empty = record { distinct = tt; capped = λ k. omega arith }

AreKept-one : AreKept (token ∷ [])
unfolding count_tokens
AreKept-one = record { distinct = (refl, tt); capped = λ k. ground arith }

Steps-AreKept_example : AreKept (generate_api_token server mint 1 "ci" no_tokens).1.tokens
Steps-AreKept_example =
    Steps-AreKept (next here (generate server mint 1 "ci" no_tokens)) AreKept-empty

get_user_from_token-generate_example :
    (get_user_from_token server 5
      (codes "Token " ++ codes "k3y")
      (with_tokens (generate_api_token server mint 1 "ci" no_tokens).1 tables)).0
    ≡ some ann
unfolding generate_api_token find_user count_tokens
get_user_from_token-generate_example =
    get_user_from_token-generate server mint 5 ann "ci" no_tokens tables (codes "k3y") refl refl
      refl

get_user_from_token-revoke_example :
    (get_user_from_token server 5
      (codes "Token " ++ codes "k3y")
      (with_tokens (revoke_api_token 4 1 one_token).1 tables)).0
    ≡ none
unfolding find_token
get_user_from_token-revoke_example =
    get_user_from_token-revoke server 4 1 5 token one_token tables (codes "k3y") AreKept-one refl
      refl
