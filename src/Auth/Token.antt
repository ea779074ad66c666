-- ===== src/Auth/Token.antt =====
-- src/api/middleware/auth.ts: a token that `generateToken` made gets its user past the middleware.
use Prim.Native.String.{◌++◌ as join}
use backend_task_orchestrati.Prelude.{
  ℕ, ◌≡◌, refl, sym, ◌∙◌, subst, Bool, true, false, String, some, List, [], ◌∷◌, arith, Bool-cases,
  inl, inr, All,
}
use backend_task_orchestrati.Prelude.Eq.{◌==◌, string_eq, elem}
use backend_task_orchestrati.Prelude.Text.{strip_prefix, strip_prefix-append}
use backend_task_orchestrati.Auth.{
  AuthUser, jwt, Verification, decoded, ApiKey, Claims, next, has_all_scopes, identify,
  authenticate, claims_of, generate_token,
}

all-has_all_scopes :
    (required scopes : List String)
    → All (λ s. elem s scopes ≡ true) required
    → has_all_scopes required scopes ≡ true
unfolding has_all_scopes
all-has_all_scopes [] scopes h = refl
all-has_all_scopes (s ∷ required) scopes h =
    ground (arith, h.0, all-has_all_scopes required scopes h.1)

bearer_given : (token : String) → (join "Bearer " token == "") ≡ false
unfolding strip_prefix
bearer_given token = elim (Bool-cases (join "Bearer " token == "")) [
  | inr given ↦ given
  | inl blank ↦
      let same = (string_eq.equal_iff (join "Bearer " token) "").0 blank in
      absurd (
        ground (
          arith,
          sym (strip_prefix-append "Bearer " token)
              ∙ subst
                  (λ t. strip_prefix "Bearer " (join "Bearer " token) ≡ strip_prefix "Bearer " t)
                  same refl,
        ))
]

-- For a token that verifies as what it was made of: a request with a token that was made for a user, for
-- scopes that the user has, gets past the middleware as that user, whatever keys are stored.
pub generate_token_accepted :
    (sign : Claims → String → String → String) (verify : String → String → Verification)
    (compare : String → String → Bool) (jwt_secret expires_in : String) (now : ℕ)
    (keys : List ApiKey) (required : List String) (user : AuthUser)
    → verify (sign (claims_of user) jwt_secret expires_in) jwt_secret ≡ decoded (claims_of user)
    → All (λ s. elem s user.scopes ≡ true) required
    → authenticate verify compare jwt_secret now keys required
        (some (join "Bearer " (generate_token sign jwt_secret expires_in user)))
      ≡ next (record user { auth_type = jwt })
unfolding authenticate identify generate_token
generate_token_accepted sign verify compare jwt_secret expires_in now keys required user verifies
      granted =
    let token = sign (claims_of user) jwt_secret expires_in in
    rw
      (
        bearer_given token,
        strip_prefix-append "Bearer " token,
        identify,
        verifies,
        all-has_all_scopes required user.scopes granted,
      )
      (ground arith)
