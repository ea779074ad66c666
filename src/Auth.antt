-- ===== src/Auth.antt =====
-- src/api/middleware/auth.ts
-- `jsonwebtoken` and `bcryptjs` are parameters. The middleware ends with an answer, or calls `next`
-- with the user attached; the time of last use that it writes is not read anywhere.
pub mod Sound
pub mod Token
mod Tests
use Prim.Native.String.{◌++◌ as join}
use backend_task_orchestrati.Prelude.{
  ℕ, Bool, true, false, not, ◌&&◌, ◌||◌, String, Option, none, some, List, [], ◌∷◌, ltb,
  if◌then◌else◌, or_else, length, filter,
}
use backend_task_orchestrati.Prelude.Eq.{◌==◌, nat_eq, string_eq, elem}
use backend_task_orchestrati.Prelude.Text.{take_units, unit_length, strip_prefix}

pub data AuthType : Type 0 where
  jwt apikey : AuthType

pub record AuthUser : Type 0 where
  pub user_id : String
  pub organization_id : String
  pub email : String
  pub role : String
  pub scopes : List String
  pub auth_type : AuthType

-- What a token carries. `scopes` may be missing.
pub record Claims : Type 0 where
  pub sub : String
  pub organization_id : String
  pub email : String
  pub role : String
  pub scopes : Option (List String)

-- What `jwt.verify` returns, or throws.
pub data Verification : Type 0 where
  decoded : Claims → Verification
  token_expired json_web_token_error other_error : Verification

-- A row of the keys, joined with its user.
pub record ApiKey : Type 0 where
  pub id : String
  pub key_prefix : String
  pub key_hash : String
  pub scopes : List String
  pub organization_id : String
  pub is_active : Bool
  pub expires_at : Option ℕ
  pub user_id : String
  pub email : String
  pub role : String

-- The user, or the name of the error that was thrown.
pub data Identity : Type 0 where
  identified : AuthUser → Identity
  expired_token invalid_token failed_check : Identity

pub data Outcome : Type 0 where
  responds : (status : ℕ) (error : String) → Outcome
  next : AuthUser → Outcome

abbrev pub user_of_claims : Claims → AuthUser
user_of_claims c = record {
  user_id = c.sub;
  organization_id = c.organization_id;
  email = c.email;
  role = c.role;
  scopes = or_else c.scopes ("jobs:read" ∷ "jobs:write" ∷ []);
  auth_type = jwt;
}

abbrev pub user_of_key : ApiKey → AuthUser
user_of_key row = record {
  user_id = row.user_id;
  organization_id = row.organization_id;
  email = row.email;
  role = row.role;
  scopes = row.scopes;
  auth_type = apikey;
}

abbrev pub unexpired : ℕ → Option ℕ → Bool
unexpired now none = true
unexpired now (some at) = ltb now at

-- The rows of the query of `verifyApiKey`.
unfoldable pub api_key_rows : ℕ → String → List ApiKey → List ApiKey
api_key_rows now prefix keys =
    filter (λ row. row.key_prefix == prefix && row.is_active && unexpired now row.expires_at) keys

unfoldable pub first_match : (compare : String → String → Bool) → String → List ApiKey → Identity
first_match compare raw_key [] = failed_check
first_match compare raw_key (row ∷ rows) =
    if compare raw_key row.key_hash
    then identified (user_of_key row)
    else first_match compare raw_key rows

unfoldable pub verify_api_key :
    (compare : String → String → Bool) → ℕ → String → List ApiKey → Identity
verify_api_key compare now raw_key keys =
    if ltb (unit_length raw_key) 8
    then failed_check
    else first_match compare raw_key (api_key_rows now (take_units 8 raw_key) keys)

abbrev pub identity_of : Verification → Identity
identity_of (decoded c) = identified (user_of_claims c)
identity_of token_expired = expired_token
identity_of json_web_token_error = invalid_token
identity_of other_error = failed_check

abbrev pub verify_jwt : (verify : String → String → Verification) → String → String → Identity
verify_jwt verify secret token = identity_of (verify token secret)

-- `requiredScopes.every((s) => user.scopes.includes(s))`
unfoldable pub has_all_scopes : List String → List String → Bool
has_all_scopes [] scopes = true
has_all_scopes (s ∷ required) scopes = elem s scopes && has_all_scopes required scopes

abbrev pub answer : List String → Identity → Outcome
answer required (identified user) =
    if ltb 0 (length required) && not (has_all_scopes required user.scopes)
    then responds 403 "Insufficient permissions"
    else next user
answer required expired_token = responds 401 "Token expired"
answer required invalid_token = responds 401 "Invalid token"
answer required failed_check = responds 401 "Authentication failed"

module _ (verify : String → String → Verification) (compare : String → String → Bool)
    (jwt_secret : String) where
  -- The identity that a header stands for, `none` for another scheme.
  unfoldable pub identify : ℕ → List ApiKey → String → Option Identity
  identify now keys header = elim (strip_prefix "Bearer " header) [
    | some token ↦ some (verify_jwt verify jwt_secret token)
    | none ↦ elim (strip_prefix "ApiKey " header) [
      | some raw_key ↦ some (verify_api_key compare now raw_key keys)
      | none ↦ none
    ]
  ]

  abbrev answer_or_refuse : List String → Option Identity → Outcome
  answer_or_refuse required none =
      responds 401 "Invalid authorization scheme (use Bearer or ApiKey)"
  answer_or_refuse required (some identity) = answer required identity

  unfoldable pub authenticate : ℕ → List ApiKey → List String → Option String → Outcome
  authenticate now keys required none = responds 401 "Missing Authorization header"
  authenticate now keys required (some header) =
      if header == ""
      then responds 401 "Missing Authorization header"
      else answer_or_refuse required (identify now keys header)

abbrev pub claims_of : AuthUser → Claims
claims_of user = record {
  sub = user.user_id;
  organization_id = user.organization_id;
  email = user.email;
  role = user.role;
  scopes = some user.scopes;
}

-- `sign` is `jwt.sign`, of the claims, the secret and the time that the token lasts.
unfoldable pub generate_token :
    (sign : Claims → String → String → String) → String → String → AuthUser → String
generate_token sign jwt_secret expires_in user = sign (claims_of user) jwt_secret expires_in
