-- ===== src/Profile.antt =====
-- The profile page of a user (services/web/apps/accounts/views.py, `profile_view`, `test_webhook`,
-- `generate_api_token`, `revoke_api_token`; accounts/forms.py, `ProfileForm`; api/models.py, `ApiToken`).
-- The views are for the user who is signed in.
pub mod Tokens
pub mod Hook
mod Tests
use tmask_tt.Base.{
  ℕ, ◌+◌, String, Bool, true, false, ◌&&◌, Option, none, some, List, [], ◌∷◌, leb, any, ◌==◌,
  str_eq, truthy, if◌then◌else◌,
}
use tmask_tt.Base.Str.{strip, take_text}
use tmask_tt.Base.Text.{Text}
use tmask_tt.Accounts.{User}
use tmask_tt.Api.{ApiToken, Server}

-- MAX_TOKENS_PER_USER
abbrev pub max_tokens : ℕ
max_tokens = 5

-- The rows of the tokens, the newest first, and the key of the session that these views use.
pub record TokenState : Type 0 where
  pub tokens : List ApiToken
  pub new_api_token : Option Text

-- What making a token draws: `secrets.token_hex(32)`, and the key of the new row.
pub record Mint : Type 0 where
  pub raw_key : Text
  pub pk : ℕ

pub data TokenAnswer : Type 0 where
  -- 'Limit 5 tokenów osiągnięty.', 'Etykieta tokenu jest wymagana.'
  limit_reached label_required : TokenAnswer
  issued : TokenAnswer
  -- the database refuses a hash that it has
  integrity_error : TokenAnswer
  deleted not_found : TokenAnswer

-- `user.api_tokens.count()`
unfoldable pub count_tokens : ℕ → List ApiToken → ℕ
count_tokens k [] = 0
count_tokens k (t ∷ ts) = (if t.user == k then 1 else 0) + count_tokens k ts

abbrev pub has_hash : String → List ApiToken → Bool
has_hash h tokens = any (λ t. str_eq t.key_hash h) tokens

-- `ApiToken.generate`, where the database takes the row.
unfoldable pub new_token : Server → Mint → ℕ → String → ApiToken
new_token S G user label = record {
  pk = G.pk;
  user = user;
  label = label;
  key_hash = S.sha256 G.raw_key;
  last_used_at = none;
}

-- `generate_api_token`, with the label that was posted.
unfoldable pub generate_api_token :
    Server → Mint → ℕ → String → TokenState → TokenAnswer × TokenState
unfolding new_token count_tokens strip take_text
generate_api_token S G user posted s =
    let label = take_text 100 (strip posted) in
    if leb max_tokens (count_tokens user s.tokens)
    then (limit_reached, s)
    else if str_eq label ""
    then (label_required, s)
    else if has_hash (S.sha256 G.raw_key) s.tokens
    then (integrity_error, s)
    else (
      issued,
      record { tokens = new_token S G user label ∷ s.tokens; new_api_token = some G.raw_key },
    )

-- `get_object_or_404(ApiToken, pk=…, user=…)`
unfoldable pub find_token : ℕ → ℕ → List ApiToken → Option ApiToken
find_token pk user [] = none
find_token pk user (t ∷ ts) =
    let rest = find_token pk user ts in if (t.pk == pk) && (t.user == user) then some t else rest

-- `token.delete()`
unfoldable pub drop_token : ℕ → List ApiToken → List ApiToken
drop_token pk [] = []
drop_token pk (t ∷ ts) = let rest = drop_token pk ts in if t.pk == pk then rest else t ∷ rest

-- `revoke_api_token`
unfoldable pub revoke_api_token : ℕ → ℕ → TokenState → TokenAnswer × TokenState
unfolding find_token drop_token
revoke_api_token pk user s = elim (find_token pk user s.tokens) [
  | none ↦ (not_found, s)
  | some t ↦ (deleted, record s { tokens = drop_token pk s.tokens })
]
