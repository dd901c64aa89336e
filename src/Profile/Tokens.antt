-- ===== src/Profile/Tokens.antt =====
-- The tokens of the REST API from their making to their removal (services/web/apps/accounts/views.py,
-- api/models.py, api/auth.py).
use tmask_tt.Base.{
  ℕ, ◌≤◌, ◌≡◌, refl, String, true, false, none, some, List, [], ◌∷◌, ◌++◌, arith, eq_iff, inl, inr,
  Option-cases,
}
use tmask_tt.Base.Text.{Text, codes}
use tmask_tt.Accounts.{User, find_user}
use tmask_tt.Api.{ApiToken, Server, Tables, use_token, get_user_from_token}
use tmask_tt.Profile.{
  max_tokens, TokenState, Mint, issued, count_tokens, has_hash, generate_api_token, find_token,
  drop_token, revoke_api_token,
}

-- No two tokens have one hash, and no user has more than five.
abbrev AreDistinct : List ApiToken → Type 0
AreDistinct [] = Unit
AreDistinct (t ∷ ts) = (has_hash t.key_hash ts ≡ false) × AreDistinct ts

pub record AreKept (tokens : List ApiToken) : Type 0 where
  pub distinct : AreDistinct tokens
  pub capped : (k : ℕ) → count_tokens k tokens ≤ max_tokens

-- What the program does to the tokens: the two views of any user, and the uses by the API.
pub data Step : List ApiToken → List ApiToken → Type 0 where
  generate :
      (S : Server) (G : Mint) (user : ℕ) (label : String) (s : TokenState)
      → Step s.tokens (generate_api_token S G user label s).1.tokens
  revoke : (pk user : ℕ) (s : TokenState) → Step s.tokens (revoke_api_token pk user s).1.tokens
  authenticate :
      (hash : String) (now : ℕ) (tokens : List ApiToken) → Step tokens (use_token hash now tokens).1

pub data Steps (start : List ApiToken) : List ApiToken → Type 0 where
  here : Steps start start
  next : {a b : List ApiToken} → Steps start a → Step a b → Steps start b

generate-AreKept :
    (S : Server) (G : Mint) (user : ℕ) (label : String) (s : TokenState)
    → AreKept s.tokens
    → AreKept (generate_api_token S G user label s).1.tokens
unfolding generate_api_token count_tokens
generate-AreKept S G user label s h = record {
  distinct = ground arith;
  capped = λ k. ground (arith, h.capped k);
}

count_tokens-drop_token :
    (k pk : ℕ) (tokens : List ApiToken)
    → count_tokens k (drop_token pk tokens) ≤ count_tokens k tokens
unfolding count_tokens drop_token
count_tokens-drop_token k pk [] = omega arith
count_tokens-drop_token k pk (t ∷ ts) = ground (arith, count_tokens-drop_token k pk ts)

has_hash-drop_token :
    (h : String) (pk : ℕ) (tokens : List ApiToken)
    → has_hash h tokens ≡ false
    → has_hash h (drop_token pk tokens) ≡ false
unfolding drop_token
has_hash-drop_token h pk [] none_has = refl
has_hash-drop_token h pk (t ∷ ts) none_has = ground (arith, has_hash-drop_token h pk ts)

drop_token-AreDistinct :
    (pk : ℕ) (tokens : List ApiToken) → AreDistinct tokens → AreDistinct (drop_token pk tokens)
unfolding drop_token
drop_token-AreDistinct pk [] h = tt
drop_token-AreDistinct pk (t ∷ ts) h =
    ground (arith, has_hash-drop_token t.key_hash pk ts h.0, drop_token-AreDistinct pk ts h.1)

revoke-AreKept :
    (pk user : ℕ) (s : TokenState)
    → AreKept s.tokens
    → AreKept (revoke_api_token pk user s).1.tokens
unfolding revoke_api_token
revoke-AreKept pk user s h = elim (Option-cases (find_token pk user s.tokens)) [
  | inl absent ↦ rw (absent, revoke_api_token) h
  | inr (t, found) ↦
      rw (found, revoke_api_token)
        (record {
          distinct = drop_token-AreDistinct pk s.tokens h.distinct;
          capped = λ k. omega (arith, count_tokens-drop_token k pk s.tokens, h.capped k);
        })
]

count_tokens-use_token :
    (k : ℕ) (hash : String) (now : ℕ) (tokens : List ApiToken)
    → count_tokens k (use_token hash now tokens).1 ≡ count_tokens k tokens
unfolding count_tokens use_token
count_tokens-use_token k hash now [] = refl
count_tokens-use_token k hash now (t ∷ ts) = ground (arith, count_tokens-use_token k hash now ts)

has_hash-use_token :
    (h hash : String) (now : ℕ) (tokens : List ApiToken)
    → has_hash h (use_token hash now tokens).1 ≡ has_hash h tokens
unfolding use_token
has_hash-use_token h hash now [] = refl
has_hash-use_token h hash now (t ∷ ts) = ground (arith, has_hash-use_token h hash now ts)

use_token-AreDistinct :
    (hash : String) (now : ℕ) (tokens : List ApiToken)
    → AreDistinct tokens
    → AreDistinct (use_token hash now tokens).1
unfolding use_token
use_token-AreDistinct hash now [] h = tt
use_token-AreDistinct hash now (t ∷ ts) h =
    ground (arith, has_hash-use_token t.key_hash hash now ts, use_token-AreDistinct hash now ts h.1)

Step-AreKept : {a b : List ApiToken} → Step a b → AreKept a → AreKept b
Step-AreKept (generate S G user label s) h = generate-AreKept S G user label s h
Step-AreKept (revoke pk user s) h = revoke-AreKept pk user s h
Step-AreKept (authenticate hash now tokens) h = record {
  distinct = use_token-AreDistinct hash now tokens h.distinct;
  capped = λ k. omega (arith, count_tokens-use_token k hash now tokens, h.capped k);
}

-- Through every sequence of tokens made, removed and used no user has more than five tokens, and no two
-- tokens have one hash, where that holds at the start.
pub Steps-AreKept : {a b : List ApiToken} → Steps a b → AreKept a → AreKept b
Steps-AreKept here h = h
Steps-AreKept (next r st) h = Step-AreKept st (Steps-AreKept r h)

abbrev pub with_tokens : TokenState → Tables → Tables
with_tokens s t = record t { tokens = s.tokens }

use_token-generate :
    (S : Server) (G : Mint) (now user : ℕ) (label : String) (s : TokenState) (key : Text)
    → (generate_api_token S G user label s).0 ≡ issued
    → (generate_api_token S G user label s).1.new_api_token ≡ some key
    → (use_token (S.sha256 key) now (generate_api_token S G user label s).1.tokens).0 ≡ some user
unfolding generate_api_token use_token
use_token-generate S G now user label s key done shown =
    ground (arith, eq_iff (S.sha256 G.raw_key) (S.sha256 G.raw_key))

-- The key that a user is shown is one that the API takes for that user.
pub get_user_from_token-generate :
    (S : Server) (G : Mint) (now : ℕ) (u : User) (label : String) (s : TokenState) (t : Tables)
    (key : Text)
    → find_user u.pk t.users ≡ some u
    → (generate_api_token S G u.pk label s).0 ≡ issued
    → (generate_api_token S G u.pk label s).1.new_api_token ≡ some key
    → (get_user_from_token S now
        (codes "Token " ++ key)
        (with_tokens (generate_api_token S G u.pk label s).1 t)).0
      ≡ some u
unfolding get_user_from_token
get_user_from_token-generate S G now u label s t key found done shown =
    rw (use_token-generate S G now u.pk label s key done shown) found

use_token_absent :
    (hash : String) (now : ℕ) (tokens : List ApiToken)
    → has_hash hash tokens ≡ false
    → (use_token hash now tokens).0 ≡ none
unfolding use_token
use_token_absent hash now [] h = refl
use_token_absent hash now (t ∷ ts) h = ground (arith, use_token_absent hash now ts)

find_token-has_hash :
    (pk user : ℕ) (tokens : List ApiToken) (t : ApiToken)
    → find_token pk user tokens ≡ some t
    → has_hash t.key_hash tokens ≡ true
unfolding find_token
find_token-has_hash pk user [] t h = cc
find_token-has_hash pk user (r ∷ ts) t h =
    ground (arith, find_token-has_hash pk user ts t, eq_iff t.key_hash t.key_hash)

-- A user's token that is removed is no longer taken: no two tokens have one hash.
use_token-drop_token :
    (pk user : ℕ) (now : ℕ) (tokens : List ApiToken) (t : ApiToken)
    → AreDistinct tokens
    → find_token pk user tokens ≡ some t
    → (use_token t.key_hash now (drop_token pk tokens)).0 ≡ none
unfolding use_token drop_token find_token
use_token-drop_token pk user now [] t h found = cc
use_token-drop_token pk user now (r ∷ ts) t h found = ground (
  arith,
  has_hash-drop_token t.key_hash pk ts,
  use_token_absent t.key_hash now (drop_token pk ts),
  find_token-has_hash pk user ts t,
  eq_iff r.key_hash t.key_hash,
  use_token-drop_token pk user now ts t h.1,
)

-- The key of a token that its user has removed is refused, where no two tokens have one hash.
pub get_user_from_token-revoke :
    (S : Server) (pk user now : ℕ) (t : ApiToken) (s : TokenState) (tables : Tables) (key : Text)
    → AreKept s.tokens
    → find_token pk user s.tokens ≡ some t
    → S.sha256 key ≡ t.key_hash
    → (get_user_from_token S now
        (codes "Token " ++ key)
        (with_tokens (revoke_api_token pk user s).1 tables)).0
      ≡ none
unfolding get_user_from_token revoke_api_token
get_user_from_token-revoke S pk user now t s tables key kept found hashed =
    rw
      (
        found,
        revoke_api_token,
        hashed,
        use_token-drop_token pk user now s.tokens t kept.distinct found,
      )
      refl
