-- ===== src/Dependencies/Defs.antt =====
-- The dependencies of `core/dependencies.py`. A request carries credentials or none; the session of the
-- request is the state, which these functions only read.
use civio.Base.{
  ℕ, ◌+◌, Bool, ◌&&◌, Option, none, some, List, [], ◌∷◌, map, Text, codes, text_eq, leb, not, any,
  keep, ◌==◌, if◌then◌else◌,
}
use civio.Errors.Classes.{
  text, texts, raised, raised_with, authentication_error, authorization_error,
}
use civio.Errors.Outcome.{Outcome, ok, err}
use civio.Action.{Action, ◌>>=◌, ◌>>◌, pure, throw, gets, lift, or_throw}
use civio.Config.{Settings}
use civio.Models.Enums.{
  AuthStatus, verified, auth_status_value, UserRole, owner, tenant, family, admin, staff,
  role_value,
}
use civio.Models.User.{User}
use civio.Repositories.UserRepo
use civio.Security.Tokens.{TokenType, TokenPayload, access, refresh, decode_token}
use civio.AuthService.Data.{Platform}

-- `HTTPAuthorizationCredentials`
pub record Credentials (Token : Type 0) : Type 0 where
  pub scheme : Text
  pub credentials : Token

-- `str.lower` on ASCII; no other character has a letter of `bearer` as its lower case.
abbrev pub lower : Text → Text
lower = map (λ c. if leb b'A' c && leb c b'Z' then c + 32 else c)

abbrev role_rank : UserRole → ℕ
role_rank owner = 0
role_rank tenant = 1
role_rank family = 2
role_rank admin = 3
role_rank staff = 4

unfoldable pub same_role : UserRole → UserRole → Bool
same_role a b = role_rank a == role_rank b

-- `role in allowed`
unfoldable pub is_allowed : List UserRole → UserRole → Bool
unfolding same_role
is_allowed roles r = any (same_role r) roles

-- `sorted(r.value for r in allowed)`: the roles of the set in the order of their values.
abbrev pub sorted_roles : List UserRole → List UserRole
sorted_roles roles = keep (is_allowed roles) (admin ∷ family ∷ owner ∷ staff ∷ tenant ∷ [])

module _ (P : Platform) (settings : Settings) where
  open P use {Token, session, uuid, jwt, validator}

  abbrev pub require_bearer : Option (Credentials Token) → Action session.State Token
  require_bearer none = throw (raised authentication_error "missing or malformed bearer token")
  require_bearer (some c) =
      if not (text_eq (lower c.scheme) (codes "bearer"))
      then throw (raised authentication_error "missing or malformed bearer token")
      else pure c.credentials

  abbrev pub require_access : TokenType → Action session.State (Unit {0})
  require_access access = pure tt
  require_access refresh =
      throw (raised authentication_error "refresh token cannot authorise requests")

  abbrev pub require_verified : AuthStatus → Action session.State (Unit {0})
  require_verified verified = pure tt
  require_verified status = throw (
      raised_with authentication_error "user is not verified"
        (("auth_status", text (auth_status_value status)) ∷ []))

  -- The end of `get_current_user`, for what `UserRepository.get` returned.
  unfoldable pub admit : Option User → Action session.State User
  admit none = throw (raised authentication_error "user not found")
  admit (some user) = require_verified user.auth_status >> pure user

  unfoldable pub identify : TokenPayload → Action session.State User
  unfolding admit
  identify payload = do
    require_access payload.type
    user_id ←
        or_throw (uuid.parse payload.sub) (raised authentication_error "invalid token subject")
    found ← gets (λ s. UserRepo.get session s user_id)
    admit found

  -- `get_current_user`; `decode_at` is the time at which the token is decoded.
  unfoldable pub get_current_user : Option (Credentials Token) → ℕ → Action session.State User
  unfolding identify
  get_current_user credentials decode_at = do
    token ← require_bearer credentials
    payload ← lift (decode_token jwt validator settings token decode_at)
    identify payload

-- The dependency that `require_role` returns, on the current user.
unfoldable pub require_role : List UserRole → User → Outcome User
unfolding is_allowed
require_role roles user =
    if not (is_allowed roles user.role)
    then err (
        raised_with authorization_error "role not permitted for this endpoint" (
          ("required", texts (map role_value (sorted_roles roles)))
          ∷ ("actual", text (role_value user.role))
          ∷ []))
    else ok user

-- `get_current_community_id`
unfoldable pub get_current_community_id : User → ℕ
get_current_community_id user = user.community_id
