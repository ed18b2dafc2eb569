-- ===== src/Tokens/Gate.antt =====
-- packages/server/src/domain/token-registry.ts: which tokens the gate accepts.
use whaloc.Base.{
  String, List, [], ◌∷◌, Option, none, some, ◌≡◌, refl, ap, arith, ◌==◌, if◌then◌else◌, any, Assoc,
  Bool-cases, inl, inr, get, put, get-put, eq_iff,
}
use whaloc.GraphError.{GraphApiError, invalid_access_token_error}
use whaloc.Tokens.{
  ExpiredTokens, find_expired_at, add_tokens, new_registry, expiry_error, authenticate,
}

module _ (token_id : String → String)
    (injective : (s t : String) → token_id s ≡ token_id t → s ≡ t) where
  same_id : (s t : String) → s ≡ t → token_id s ≡ token_id t
  same_id s t e = ap token_id e

  get-add_tokens :
      (t : String) (m : Assoc String) (tokens : List String)
      → get (token_id t) (add_tokens token_id m tokens)
        ≡ (if any (λ u. u == t) tokens then some t else get (token_id t) m)
  unfolding add_tokens get
  get-add_tokens t m [] = refl
  get-add_tokens t m (u ∷ tokens) = ground (
    arith,
    get-add_tokens t (put (token_id u) u m) tokens,
    get-put (token_id u) (token_id t) u m,
    eq_iff u t,
    eq_iff (token_id u) (token_id t),
    injective u t,
    same_id u t,
  )

  -- what a request with a token is told, by what was configured
  abbrev pub verdict :
      (String → String)
      → String
      → String
      → ExpiredTokens
      → Option (List String)
      → Option GraphApiError
  verdict format now t table none = none
  verdict format now t table (some tokens) =
      if any (λ u. u == t) tokens
      then expiry_error format now (find_expired_at (token_id t) table)
      else some invalid_access_token_error

  -- Where no two tokens share an id: without a configured list every token passes; with one,
  -- exactly its tokens pass that are not expired, and every other token is told why not.
  pub authenticate-new_registry :
      (format : (String → String)) (now t : String) (table : ExpiredTokens)
      (tokens : Option (List String))
      → authenticate token_id format now t (new_registry token_id tokens) table
        ≡ verdict format now t table tokens
  unfolding new_registry authenticate get
  authenticate-new_registry format now t table none = refl
  authenticate-new_registry format now t table (some tokens) =
      elim (Bool-cases (any (λ u. u == t) tokens)) [
        | inl listed ↦ rw listed (rw (get-add_tokens t [] tokens) (rw listed refl))
        | inr other ↦ rw other (rw (get-add_tokens t [] tokens) (rw other refl))
      ]
