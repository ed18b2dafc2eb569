-- ===== src/Tokens/Tests.antt =====
-- Two registered tokens, one of them expired.
use mathlib.Core.Logic.{inr}
use whaloc.Base.{String, [], ◌∷◌, some, true, ◌≡◌, refl, get}
use whaloc.Tokens.{
  ExpiredTokens, find_expired_at, expire, Registry, TokenChange, to_state, new_registry,
  authenticate, set_expired,
}
use whaloc.Tokens.Gate.{verdict, authenticate-new_registry}

-- ids that are the tokens themselves are distinct for distinct tokens
abbrev as_id : String → String
as_id token = token

abbrev registry : Registry
registry = record { tokens = ("alpha", "alpha") ∷ ("beta", "beta") ∷ []; strict = true }

abbrev expired_beta : ExpiredTokens
expired_beta = ("beta", "monday") ∷ []

abbrev expired_both : ExpiredTokens
expired_both = ("beta", "monday") ∷ ("alpha", "tuesday") ∷ []

abbrev alpha_expired : TokenChange
alpha_expired = record {
  table = expired_both;
  state = to_state "alpha" "alpha" (some "tuesday");
  announced = to_state "alpha" "alpha" (some "tuesday") ∷ [];
}

authenticate-new_registry_example :
    authenticate as_id as_id "now" "beta"
      (new_registry as_id (some ("alpha" ∷ "beta" ∷ [])))
      expired_beta
    ≡ verdict as_id (λ s t e. e) as_id "now" "beta" expired_beta (some ("alpha" ∷ "beta" ∷ []))
authenticate-new_registry_example =
    authenticate-new_registry as_id (λ s t e. e) as_id "now" "beta" expired_beta
      (some ("alpha" ∷ "beta" ∷ []))

expires_alpha : set_expired "alpha" true "tuesday" registry expired_beta ≡ inr alpha_expired
unfolding set_expired expire find_expired_at get
expires_alpha = refl
