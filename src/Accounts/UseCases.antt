-- ===== src/Accounts/UseCases.antt =====
-- The use cases of apps/api/src/modules/users/application/use-cases and
-- auth/application/use-cases. Texts, hashes and the password check are parameters; a generated token
-- comes with the call, as do new ids and the time.
use elonew.Base.{
  ℕ, ◌+◌, ◌*◌, String, Bool, false, not, ◌&&◌, List, ◌∷◌, Option, none, some, same, is_some,
  if◌then◌else◌, ltb,
}
use elonew.Common.Errors.{
  user_email_already_in_use, username_already_in_use, user_email_confirmation_token_invalid,
  user_password_reset_token_invalid, auth_invalid_credentials, auth_user_inactive,
  auth_user_blocked, auth_refresh_token_invalid, auth_refresh_token_revoked,
}
use elonew.Common.Action.{Action, ◌>>=◌, ◌>>◌, pure, modify, attempt, or_throw, throw_if}
use elonew.Tickets.Entity.{Role}
use elonew.Accounts.User.{
  User, create_pending, can_confirm_email, confirm_email, can_set_password, set_password,
}
use elonew.Accounts.Store.{
  Accounts, find_by_id, find_by_email, find_by_username, find_by_email_confirmation_token_hash,
  find_by_password_reset_token_hash, create_user, save_user, find_by_refresh_token_hash,
  create_session, save_session,
}
use elonew.Accounts.AccessToken.{Codec, SignedToken, sign, verify}

-- What the use cases call, and the settings they read.
pub record Services : Type 0 where
  -- `email.trim().toLowerCase()`
  pub normalize_email : String → String
  -- `trim()`
  pub trim : String → String
  -- `PasswordHasherPort`
  pub hash_password : String → String
  pub verify_password : String → String → Bool
  -- the HMACs of hmac-email-confirmation-token.service.ts and hmac-refresh-token.service.ts
  pub hash_confirmation : String → String
  pub hash_refresh : String → String
  pub codec : Codec
  pub access_token_ttl_minutes : ℕ
  pub refresh_token_ttl_days : ℕ
  pub email_confirmation_token_ttl_minutes : ℕ

-- A generated token: its text, its hash and its end.
pub record GeneratedToken : Type 0 where
  pub raw_token : String
  pub token_hash : String
  pub expires_at : ℕ

-- `HmacEmailConfirmationTokenService.generate`, of the random text.
unfoldable pub generate_confirmation : Services → String → ℕ → GeneratedToken
generate_confirmation v raw_token now = record {
  raw_token = raw_token;
  token_hash = v.hash_confirmation raw_token;
  expires_at = now + v.email_confirmation_token_ttl_minutes * 60000;
}

-- `HmacRefreshTokenService.generate`
unfoldable pub generate_refresh : Services → String → ℕ → GeneratedToken
generate_refresh v raw_token now = record {
  raw_token = raw_token;
  token_hash = v.hash_refresh raw_token;
  expires_at = now + v.refresh_token_ttl_days * 86400000;
}

-- `emailSender.send`, whose failure is caught: the mail is sent, or it is not.
unfoldable pub send_mail : Bool → String → String → Action Accounts (Unit {0})
send_mail delivered to token =
    modify (λ a. if delivered then record a { mails = (to, token) ∷ a.mails } else a)

-- sign-up.use-case.ts
unfoldable pub sign_up :
    Services → String → String → Bool → String → String → String → ℕ → Action Accounts User
unfolding find_by_email find_by_username create_user generate_confirmation send_mail
sign_up v id raw_token delivered username email password now = do
  let normalized_email = v.normalize_email email
  existing_user ← find_by_email normalized_email
  throw_if (is_some existing_user) user_email_already_in_use
  existing_username ← find_by_username username
  throw_if (is_some existing_username) username_already_in_use
  let token = generate_confirmation v raw_token now
  created ← create_user id now (
      create_pending username normalized_email (v.hash_password password) token.token_hash
        token.expires_at now)
  send_mail delivered created.email token.raw_token
  pure created

abbrev pub when_allowed : (User → Bool) → Option User → Option User
when_allowed allowed none = none
when_allowed allowed (some u) = if allowed u then some u else none

-- confirm-email.use-case.ts
unfoldable pub confirm_email_with : Services → String → ℕ → Action Accounts User
unfolding find_by_email_confirmation_token_hash save_user
confirm_email_with v token now = do
  found ← find_by_email_confirmation_token_hash (v.hash_confirmation token)
  user ← or_throw (when_allowed (can_confirm_email now) found) user_email_confirmation_token_invalid
  save_user now (confirm_email now user)
  pure (confirm_email now user)

-- set-password.use-case.ts
unfoldable pub set_password_with : Services → String → String → ℕ → Action Accounts (Unit {0})
unfolding find_by_password_reset_token_hash save_user
set_password_with v token password now = do
  found ← find_by_password_reset_token_hash (v.hash_confirmation token)
  user ← or_throw (when_allowed (can_set_password now) found) user_password_reset_token_invalid
  save_user now (set_password (v.hash_password password) now user)

-- `LoginOutput` and `RefreshSessionOutput`, with the user whole.
pub record SessionTokens : Type 0 where
  pub access_token : SignedToken
  pub refresh_token : String
  pub user : User

-- `!passwordHash`, and the password against it.
abbrev pub password_matches : Services → String → User → Bool
password_matches v password u = elim u.password_hash [
  | none ↦ false
  | some hash ↦ not (same hash "") && v.verify_password password hash
]

-- login.use-case.ts
unfoldable pub login :
    Services → String → String → String → String → ℕ → Action Accounts SessionTokens
unfolding find_by_email create_session generate_refresh
login v id raw_token email password now = do
  found ← find_by_email (v.normalize_email email)
  user ← or_throw found auth_invalid_credentials
  throw_if (not (password_matches v password user)) auth_invalid_credentials
  throw_if (not user.is_active) auth_user_inactive
  throw_if user.is_blocked auth_user_blocked
  let token = generate_refresh v raw_token now
  create_session id now user.id token.token_hash token.expires_at
  pure (record {
    access_token = sign v.codec v.access_token_ttl_minutes user.id user.role now;
    refresh_token = token.raw_token;
    user = user;
  })

-- refresh-session.use-case.ts
unfoldable pub refresh_session : Services → String → String → ℕ → Action Accounts SessionTokens
unfolding find_by_refresh_token_hash find_by_id save_session generate_refresh
refresh_session v raw_token token now = do
  found ← find_by_refresh_token_hash (v.hash_refresh token)
  session ← or_throw found auth_refresh_token_invalid
  throw_if (is_some session.revoked_at) auth_refresh_token_revoked
  throw_if (ltb session.expires_at now) auth_refresh_token_invalid
  found_user ← find_by_id session.user_id
  user ← or_throw found_user auth_refresh_token_invalid
  throw_if user.is_blocked auth_user_blocked
  let next = generate_refresh v raw_token now
  save_session now (record session {
    refresh_token_hash = next.token_hash;
    expires_at = next.expires_at;
    last_used_at = some now;
    updated_at = now;
  })
  pure (record {
    access_token = sign v.codec v.access_token_ttl_minutes user.id user.role now;
    refresh_token = next.raw_token;
    user = user;
  })

-- logout.use-case.ts
unfoldable pub logout : Services → String → ℕ → Action Accounts (Unit {0})
unfolding find_by_refresh_token_hash save_session
logout v token now = do
  found ← find_by_refresh_token_hash (v.hash_refresh token)
  session ← or_throw found auth_refresh_token_invalid
  throw_if (is_some session.revoked_at) auth_refresh_token_revoked
  save_session now (record session { revoked_at = some now; updated_at = now })

-- `AuthenticatedUser`
abbrev pub AuthenticatedUser : Type 0
AuthenticatedUser = String × Role

-- authenticate-access-token.use-case.ts: `ensureUsable` and `execute`
unfoldable pub ensure_usable : String → Action Accounts AuthenticatedUser
unfolding find_by_id
ensure_usable user_id = do
  found ← find_by_id user_id
  user ← or_throw (when_allowed (λ u. u.is_active) found) auth_user_inactive
  throw_if user.is_blocked auth_user_blocked
  pure (user.id, user.role)

unfoldable pub authenticate : Services → List String → ℕ → Action Accounts AuthenticatedUser
unfolding ensure_usable
authenticate v token now = do
  (user_id, role) ← attempt (verify v.codec token now)
  ensure_usable user_id
