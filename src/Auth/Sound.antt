-- ===== src/Auth/Sound.antt =====
-- src/api/middleware/auth.ts: who gets past the middleware.
use mathlib.Core.Option.{some-injective}
use backend_task_orchestrati.Prelude.{
  ℕ, ◌≡◌, ◌⊎◌, ◌≤◌, refl, sym, ap, ◌∙◌, subst, Bool, true, String, Option, none, some, List, [],
  ◌∷◌, arith, Bool-cases, Option-cases, inl, inr, All, filter, length, ltb,
}
use backend_task_orchestrati.Prelude.Eq.{◌==◌, string_eq, elem}
use backend_task_orchestrati.Prelude.Text.{take_units, unit_length, strip_prefix}
use backend_task_orchestrati.Auth.{
  AuthUser, Claims, Verification, decoded, token_expired, json_web_token_error, other_error, ApiKey,
  Identity, identified, expired_token, invalid_token, failed_check, Outcome, next, user_of_claims,
  user_of_key, unexpired, api_key_rows, first_match, verify_api_key, has_all_scopes, identity_of,
  answer, identify, authenticate,
}

all_scopes :
    (required scopes : List String)
    → has_all_scopes required scopes ≡ true
    → All (λ s. elem s scopes ≡ true) required
unfolding has_all_scopes
all_scopes [] scopes h = tt
all_scopes (s ∷ required) scopes h =
    (ground (arith, h), all_scopes required scopes (ground (arith, h)))

-- What two identities name, to compare them.
abbrev name_of : AuthUser → Identity → AuthUser
name_of default (identified user) = user
name_of default _ = default

identified-injective : (a b : AuthUser) → identified a ≡ identified b → a ≡ b
identified-injective a b e = ap (name_of a) e

abbrev user_next : AuthUser → Outcome → AuthUser
user_next default (next user) = user
user_next default _ = default

next-injective : (a b : AuthUser) → next a ≡ next b → a ≡ b
next-injective a b e = ap (user_next a) e

-- The row is one of the list.
abbrev pub IsRow : List ApiKey → ApiKey → Type 0
IsRow [] row = ⊥
IsRow (k ∷ keys) row = (k ≡ row) ⊎ IsRow keys row

IsRow-filter :
    (p : ApiKey → Bool) (keys : List ApiKey) (row : ApiKey)
    → IsRow (filter p keys) row
    → IsRow keys row × (p row ≡ true)
unfolding filter
IsRow-filter p [] row h = absurd h
IsRow-filter p (k ∷ keys) row h = elim (Bool-cases (p k)) [
  | inr out ↦ let (found, holds) = IsRow-filter p keys row (rw out at h) in (inr found, holds)
  | inl inn ↦ elim (rw inn at h) [
    | inl is ↦ (inl is, subst (λ r. p r ≡ true) is inn)
    | inr rest ↦ let (found, holds) = IsRow-filter p keys row rest in (inr found, holds)
  ]
]

first_match-IsRow :
    (compare : String → String → Bool) (raw_key : String) (rows : List ApiKey) (user : AuthUser)
    → first_match compare raw_key rows ≡ identified user
    → (row : ApiKey) × IsRow rows row
      × (compare raw_key row.key_hash ≡ true)
      × (user ≡ user_of_key row)
unfolding first_match
first_match-IsRow compare raw_key [] user h = absurd (ground (arith, h))
first_match-IsRow compare raw_key (row ∷ rows) user h =
    elim (Bool-cases (compare raw_key row.key_hash)) [
      | inl fits ↦
          (row, inl refl, fits, sym (identified-injective (user_of_key row) user (rw fits at h)))
      | inr other ↦
          let (found, at, fits, is) = first_match-IsRow compare raw_key rows user (rw other at h) in
          (found, inr at, fits, is)
    ]

module _ (verify : String → String → Verification) (compare : String → String → Bool)
    (jwt_secret : String) (now : ℕ) (keys : List ApiKey) where
  -- The key of a row that is stored, active and not expired, with the prefix of what was sent, and
  -- whose hash fits it.
  abbrev pub IsKeyOf : String → ApiKey → Type 0
  IsKeyOf raw_key row =
      IsRow keys row
      × (row.is_active ≡ true)
      × (unexpired now row.expires_at ≡ true)
      × (row.key_prefix ≡ take_units 8 raw_key)
      × (compare raw_key row.key_hash ≡ true)

  -- What the header proves of the user: a token that verifies, or a key.
  abbrev pub IsProven : String → AuthUser → Type 0
  IsProven header user =
      ((token : String) × (claims : Claims) × (strip_prefix "Bearer " header ≡ some token)
        × (verify token jwt_secret ≡ decoded claims)
        × (user ≡ user_of_claims claims))
      ⊎ ((raw_key : String) × (row : ApiKey) × (strip_prefix "ApiKey " header ≡ some raw_key)
          × (8 ≤ unit_length raw_key)
          × IsKeyOf raw_key row
          × (user ≡ user_of_key row))

  verify_api_key-IsKeyOf :
      (raw_key : String) (user : AuthUser)
      → verify_api_key compare now raw_key keys ≡ identified user
      → (row : ApiKey) × (8 ≤ unit_length raw_key) × IsKeyOf raw_key row × (user ≡ user_of_key row)
  unfolding verify_api_key api_key_rows
  verify_api_key-IsKeyOf raw_key user h = elim (Bool-cases (ltb (unit_length raw_key) 8)) [
    | inl short ↦ absurd (ground (arith, rw (short, verify_api_key) at h))
    | inr enough ↦
        let (row, at, fits, is) =
          first_match-IsRow compare raw_key (api_key_rows now (take_units 8 raw_key) keys) user
            (rw (enough, verify_api_key) at h) in
        let (found, holds) = IsRow-filter _ keys row at in
        (
          row,
          ground (arith, enough),
          (
            found,
            ground (arith, holds),
            ground (arith, holds),
            (string_eq.equal_iff row.key_prefix (take_units 8 raw_key)).0 (ground (arith, holds)),
            fits,
          ),
          is,
        )
  ]

  identify-IsProven :
      (header : String) (user : AuthUser)
      → identify verify compare jwt_secret now keys header ≡ some (identified user)
      → IsProven header user
  unfolding identify
  identify-IsProven header user h = elim (Option-cases (strip_prefix "Bearer " header)) [
    | inr (token, bearer) ↦
        go token bearer (verify token jwt_secret) refl (rw (bearer, identify) at h)
    | inl none_there ↦ elim (Option-cases (strip_prefix "ApiKey " header)) [
      | inl other ↦ absurd (ground (arith, rw (none_there, other, identify) at h))
      | inr (raw_key, key) ↦
          (let (row, long, is_key, is) = verify_api_key-IsKeyOf raw_key user (
              some-injective (verify_api_key compare now raw_key keys) (identified user)
                (rw (none_there, key, identify) at h)) in
            inr (raw_key, row, key, long, is_key, is))
    ]
  ]
    where
      go :
          (token : String)
          → strip_prefix "Bearer " header ≡ some token
          → (v : Verification) → verify token jwt_secret ≡ v
          → some (identity_of v) ≡ some (identified user)
          → IsProven header user
      go token bearer (decoded claims) e h = inl (
        token,
        claims,
        bearer,
        e,
        sym (
            identified-injective (user_of_claims claims) user
              (some-injective (identified (user_of_claims claims)) (identified user) h)),
      )
      go token bearer token_expired e h = absurd (ground (arith, h))
      go token bearer json_web_token_error e h = absurd (ground (arith, h))
      go token bearer other_error e h = absurd (ground (arith, h))

  answer-next :
      (required : List String) (identity : Identity) (user : AuthUser)
      → answer required identity ≡ next user
      → (identity ≡ identified user) × All (λ s. elem s user.scopes ≡ true) required
  answer-next [] (identified found) user h = (ap identified (next-injective found user h), tt)
  answer-next (s ∷ required) (identified found) user h =
      let asked : ltb 0 (length (s ∷ required)) ≡ true = ground arith in
      elim (Bool-cases (has_all_scopes (s ∷ required) found.scopes)) [
        | inr missing ↦ absurd (ground (arith, rw (asked, missing) at h))
        | inl all ↦
            let same = next-injective found user (rw (asked, all) at h) in
            (
              ap identified same,
              subst (λ (u : AuthUser). All (λ s. elem s u.scopes ≡ true) (s ∷ required)) same
                  (all_scopes (s ∷ required) found.scopes all),
            )
      ]
  answer-next required expired_token user h = absurd (ground (arith, h))
  answer-next required invalid_token user h = absurd (ground (arith, h))
  answer-next required failed_check user h = absurd (ground (arith, h))

  -- A request that gets past the middleware has every scope that it asks for, and its user is proven by
  -- the header: either by a token that verifies, of whose claims the user is made, or by a key of at
  -- least eight characters that fits the hash of a stored row with its prefix, active and not expired,
  -- of which the user is made.
  pub authenticate_sound :
      (required : List String) (header : Option String) (user : AuthUser)
      → authenticate verify compare jwt_secret now keys required header ≡ next user
      → (text : String) × (header ≡ some text)
        × IsProven text user
        × All (λ s. elem s user.scopes ≡ true) required
  unfolding authenticate
  authenticate_sound required none user h = absurd (ground (arith, h))
  authenticate_sound required (some text) user h = elim (Bool-cases (text == "")) [
    | inl blank ↦ absurd (ground (arith, rw blank at h))
    | inr given ↦ elim (Option-cases (identify verify compare jwt_secret now keys text)) [
      | inl other ↦ absurd (ground (arith, rw (given, other) at h))
      | inr (identity, found) ↦
          let (is, scopes) = answer-next required identity user (rw (given, found) at h) in
          (text, refl, identify-IsProven text user (found ∙ ap some is), scopes)
    ]
  ]
