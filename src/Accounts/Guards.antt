-- ===== src/Accounts/Guards.antt =====
-- The guards of apps/api/src/modules/auth/presentation/guards. What they read of a request is an
-- argument; `isPublic` and the accepted roles stand in the route's metadata.
use Prim.Native.String.{len, slice}
use text.Mathlib.Text.{starts_with}
use elonew.Base.{
  ℕ, String, Bool, true, not, ◌&&◌, ◌||◌, List, [], ◌∷◌, Option, none, some, same, any, truthy,
  or_else, if◌then◌else◌,
}
use elonew.Common.Errors.{
  Result, ok, err, authentication_required, insufficient_permissions, internal_api_key_required,
  invalid_internal_api_key,
}
use elonew.Common.Action.{Action, ◌>>=◌, pure, attempt}
use elonew.Accounts.Store.{Accounts}
use elonew.Accounts.AccessToken.{role_text}
use elonew.Accounts.UseCases.{Services, AuthenticatedUser, authenticate}

-- `getBearerToken`
unfoldable pub get_bearer_token : Services → Option String → Result String
get_bearer_token v none = err authentication_required
get_bearer_token v (some authorization) =
    if starts_with authorization "Bearer "
    then ok (v.trim (slice authorization 7 (len authorization)))
    else err authentication_required

-- `JwtAuthGuard.canActivate`: the user that the request carries from then on.
unfoldable pub jwt_auth_guard :
    Services
    → (String → List String)
    → Bool
    → Bool
    → Option String
    → ℕ
    → Action Accounts (Option AuthenticatedUser)
unfolding get_bearer_token authenticate
jwt_auth_guard v split is_http is_public authorization now =
    if not is_http || is_public then pure none else (do
      token ← attempt (get_bearer_token v authorization)
      user ← authenticate v (split token) now
      pure (some user))

-- `RolesGuard.canActivate`
unfoldable pub roles_guard : Bool → List String → Option AuthenticatedUser → Result Bool
roles_guard is_http [] user = ok true
roles_guard is_http (r ∷ roles) none = if is_http then err insufficient_permissions else ok true
roles_guard is_http (r ∷ roles) (some (id, role)) =
    if is_http && not (any (same (role_text role)) (r ∷ roles))
    then err insufficient_permissions
    else ok true

-- `InternalApiKeyGuard.canActivate`
unfoldable pub internal_api_key_guard : String → Option String → Result Bool
internal_api_key_guard expected provided =
    if not (truthy provided)
    then err internal_api_key_required
    else (if same expected (or_else provided "") then ok true else err invalid_internal_api_key)
