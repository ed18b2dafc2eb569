-- ===== src/Tokens.antt =====
-- packages/server/src/domain/token-registry.ts: bearer tokens, with the table of expired ones of
-- db/repositories/expired-token-repository.ts, a list of token ids and expiry times.
pub mod Masks
pub mod Gate
mod Tests
use Prim.Native.String
use whaloc.Base.{
  String, List, [], ◌∷◌, Bool, true, false, Option, none, some, ◌⊎◌, inl, inr, Assoc, get, put,
  delete, from_entries, is_some, ◌++◌,
}
use whaloc.Shared.Entities.{TokenState}
use whaloc.GraphError.{GraphApiError, invalid_access_token_error, expired_access_token_error}
use whaloc.ControlPlaneError.{ControlPlaneError, control_not_found}
use Masks.{mask_token, last_part, visible_suffix}

abbrev pub ExpiredTokens : Type 0
ExpiredTokens = Assoc String

unfoldable pub find_expired_at : String → ExpiredTokens → Option String
find_expired_at id table = get id table

-- an already expired token keeps the moment it first expired
abbrev expire_at : String → String → Option String → ExpiredTokens → ExpiredTokens × String
expire_at id now (some existing) table = (table, existing)
expire_at id now none table = (table ++ (id, now) ∷ [], now)

unfoldable pub expire : String → String → ExpiredTokens → ExpiredTokens × String
unfolding find_expired_at
expire id now table = expire_at id now (find_expired_at id table) table

-- the table, and whether there was a row
unfoldable pub restore : String → ExpiredTokens → ExpiredTokens × Bool
restore id table = (delete id table, is_some (get id table))

-- `#tokens` and `#strict`
pub record Registry : Type 0 where
  pub tokens : Assoc String
  pub strict : Bool

-- the new table, the state that is returned, and what is published
pub record TokenChange : Type 0 where
  pub table : ExpiredTokens
  pub state : TokenState
  pub announced : List TokenState

abbrev pub to_state : String → String → Option String → TokenState
to_state id token expired_at = record {
  id = id;
  masked = mask_token token;
  last4 = last_part visible_suffix token;
  expired = is_some expired_at;
  expired_at = expired_at;
}

-- what the gate says of a registered token
abbrev pub expiry_error : (String → String) → String → Option String → Option GraphApiError
expiry_error format now none = none
expiry_error format now (some expired_at) = some (expired_access_token_error format expired_at now)

abbrev gate : (String → String) → String → Option String → Option String → Option GraphApiError
gate format now none expired_at = some invalid_access_token_error
gate format now (some token) expired_at = expiry_error format now expired_at

-- `token_id` is the head of the token's SHA-256 digest.
module _ (token_id : String → String) where
  add_tokens : Assoc String → List String → Assoc String
  add_tokens m [] = m
  add_tokens m (token ∷ tokens) = add_tokens (put (token_id token) token m) tokens

  -- the constructor, over `WHALOC_TOKENS`
  unfoldable pub new_registry : Option (List String) → Registry
  unfolding add_tokens
  new_registry none = record { tokens = []; strict = false }
  new_registry (some tokens) = record { tokens = add_tokens [] tokens; strict = true }

  -- `none` lets the request pass
  unfoldable pub authenticate :
      (String → String) → String → String → Registry → ExpiredTokens → Option GraphApiError
  authenticate format now token registry table = elim registry.strict [
    | false ↦ none
    | true ↦
        gate format now (get (token_id token) registry.tokens)
          (find_expired_at (token_id token) table)
  ]

states : Assoc String → Assoc String → List TokenState
states [] expired = []
states ((id, token) ∷ tokens) expired = to_state id token (get id expired) ∷ states tokens expired

-- `list`, in the order of the registry
unfoldable pub list : Registry → ExpiredTokens → List TokenState
unfolding states
list registry table = states registry.tokens (from_entries table)

change : String → String → ExpiredTokens → Option String → TokenChange
change id token table expired_at =
    let state = to_state id token expired_at in
    record { table = table; state = state; announced = state ∷ [] }

change_known :
    String → Bool → String → Option String → ExpiredTokens → ControlPlaneError ⊎ TokenChange
unfolding change
change_known id is_expired now none table = inl (
    control_not_found (Prim.Native.String.◌++◌ "no registered token with id " id)
      (some "unknown_token"))
change_known id true now (some token) table =
    let (table', expired_at) = expire id now table in inr (change id token table' (some expired_at))
change_known id false now (some token) table = inr (change id token (restore id table).0 none)

unfoldable pub set_expired :
    String → Bool → String → Registry → ExpiredTokens → ControlPlaneError ⊎ TokenChange
unfolding change_known
set_expired id is_expired now registry table =
    change_known id is_expired now (get id registry.tokens) table
