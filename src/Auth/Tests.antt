-- ===== src/Auth/Tests.antt =====
-- The theorems on the middleware at one user and one key.
use Prim.Native.String.{◌++◌ as join}
use backend_task_orchestrati.Prelude.{
  ◌≡◌, refl, Bool, true, false, String, Option, none, some, List, [], ◌∷◌, All, take,
}
use backend_task_orchestrati.Prelude.Eq.{string_eq, elem}
use backend_task_orchestrati.Prelude.Text.{strip_prefix, unit_length, take_units}
use backend_task_orchestrati.Auth.{
  AuthUser, jwt, Claims, Verification, decoded, ApiKey, next, authenticate, generate_token,
  claims_of, user_of_key, identify, verify_api_key, api_key_rows, first_match, has_all_scopes,
}
use backend_task_orchestrati.Auth.Sound.{IsProven, authenticate_sound}
use backend_task_orchestrati.Auth.Token.{generate_token_accepted}

abbrev reader : AuthUser
reader = record {
  user_id = "u";
  organization_id = "o";
  email = "u@o";
  role = "viewer";
  scopes = "jobs:read" ∷ [];
  auth_type = jwt;
}

abbrev sign_reader : Claims → String → String → String
sign_reader claims secret expires_in = "t"

abbrev verify_reader : String → String → Verification
verify_reader token secret = decoded (claims_of reader)

abbrev same_text : String → String → Bool
same_text raw_key hash = true

abbrev one_key : ApiKey
one_key = record {
  id = "k";
  key_prefix = "12345678";
  key_hash = "h";
  scopes = "jobs:read" ∷ [];
  organization_id = "o";
  is_active = true;
  expires_at = some 9;
  user_id = "u";
  email = "u@o";
  role = "viewer";
}

key_accepted :
    authenticate verify_reader same_text "s" 5
      (one_key ∷ [])
      ("jobs:read" ∷ [])
      (some "ApiKey 1234567890")
    ≡ next (user_of_key one_key)
unfolding authenticate identify strip_prefix verify_api_key unit_length take_units api_key_rows
    first_match has_all_scopes elem backend_task_orchestrati.Prelude.filter
key_accepted = refl

may_read : All (λ s. elem s reader.scopes ≡ true) ("jobs:read" ∷ [])
unfolding elem
may_read = (refl, tt)

authenticate_sound_example :
    (text : String) × (some "ApiKey 1234567890" ≡ some text)
    × IsProven verify_reader same_text "s" 5 (one_key ∷ []) text (user_of_key one_key)
    × All (λ s. elem {A = String} s ("jobs:read" ∷ []) ≡ true) ("jobs:read" ∷ [])
authenticate_sound_example =
    authenticate_sound verify_reader same_text "s" 5 (one_key ∷ []) ("jobs:read" ∷ [])
      (some "ApiKey 1234567890") (user_of_key one_key) key_accepted

generate_token_accepted_example :
    authenticate verify_reader same_text "s" 5 []
      ("jobs:read" ∷ [])
      (some (join "Bearer " (generate_token sign_reader "s" "1h" reader)))
    ≡ next (record reader { auth_type = jwt })
generate_token_accepted_example =
    generate_token_accepted sign_reader verify_reader same_text "s" "1h" 5 [] ("jobs:read" ∷ [])
      reader refl may_read
