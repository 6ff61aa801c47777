-- ===== src/Accounts/Access.antt =====
-- Blocking, changing a role and logging in, as the bearer of a token sees them.
-- Code: apps/api/src/modules/auth, users and admin
use elonew.Base.{
  ℕ, ◌+◌, ◌*◌, ◌/◌, ◌<◌, String, true, false, not, ◌&&◌, List, [], ◌∷◌, none, some, same, is_some,
  if◌then◌else◌, inl, inr, ◌≡◌, refl, arith, eq_iff, Bool-cases, Option-cases, lookup, insert,
  lookup-insert_self, Dict,
}
use elonew.Common.Errors.{
  ok, err, is_ok, auth_refresh_token_revoked, auth_user_blocked, auth_user_inactive,
}
use elonew.Tickets.Entity.{Role}
use elonew.Accounts.User.{User, block, change_role}
use elonew.Accounts.Store.{
  Accounts, AuthSession, find_row, create_session, save_user, record_action,
  update_user_and_record_action, revoke_sessions,
}
use elonew.Accounts.Columns.{IsUnique, row_of, row_of-row, row_of-lookup, updated}
use elonew.Accounts.AccessToken.{sign, verify}
use elonew.Accounts.UseCases.{
  Services, SessionTokens, AuthenticatedUser, login, refresh_session, ensure_usable, authenticate,
  password_matches,
}
use elonew.Accounts.Governance.{block_admin_user, same_role, change_user_role, update_admin_user}
use elonew.Accounts.Sessions.{IsCodec, issued, sign_round_trip}
use elonew.Accounts.Rotation.{session_of}
use elonew.Accounts.Onboarding.{user_id, user_email}

-- Who is let in with a token: the stored user that it names, if active and not blocked, with the role
-- that is stored now, whichever role the token was signed with.
pub authenticate-stored :
    (v : Services) (token : List String) (now : ℕ) (a : Accounts) {w : AuthenticatedUser} {u : User}
    → verify v.codec token now ≡ ok w
    → lookup w.0 a.users ≡ some u
    → (authenticate v token now a).0 ≡ (
        if u.is_active
        then (if u.is_blocked then err auth_user_blocked else ok (u.id, u.role))
        else err auth_user_inactive)
unfolding authenticate ensure_usable
authenticate-stored v token now a {w} {u} signed found =
    ground (arith, Bool-cases u.is_active, Bool-cases u.is_blocked)

refresh-blocked :
    (v : Services) (raw_token token : String) (now : ℕ) (a : Accounts) {s : AuthSession} {u : User}
    → session_of (v.hash_refresh token) a.sessions ≡ some s
    → lookup s.user_id a.users ≡ some u
    → u.is_blocked ≡ true
    → is_ok (refresh_session v raw_token token now a).0 ≡ false
unfolding refresh_session
refresh-blocked v raw_token token now a found row blocked = ground arith

login-blocked :
    (v : Services) (id raw_token email password : String) (now : ℕ) (a : Accounts) {u : User}
    → row_of user_id user_email (v.normalize_email email) a.users ≡ some u
    → u.is_blocked ≡ true
    → is_ok (login v id raw_token email password now a).0 ≡ false
unfolding login
login-blocked v id raw_token email password now a {u} found blocked =
    ground (arith, Bool-cases (password_matches v password u), Bool-cases u.is_active)

block-writes :
    (v : Services) (admin_id reason : String) (now : ℕ) (a : Accounts) {u : User}
    → lookup u.id a.users ≡ some u
    → (block_admin_user v admin_id u.id reason now a).0 ≡ ok tt
    → ((block_admin_user v admin_id u.id reason now a).1.users ≡ insert u.id (block now u) a.users)
      × ((block_admin_user v admin_id u.id reason now a).1.sessions ≡ a.sessions)
unfolding block_admin_user save_user record_action block
block-writes v admin_id reason now a {u} row returned = ground arith

-- A block takes effect at once: once an administrator has blocked a user, no access token that names the
-- user is accepted, no session of the user is refreshed, and no login under the user's email succeeds,
-- whatever the password. Emails are unique and rows stand under their ids.
pub block_locks_out :
    (v : Services) (admin_id reason raw_token token email password : String) (bearer : List String)
    (now later : ℕ) (a : Accounts) {u : User} {role : Role} {s : AuthSession}
    → lookup u.id a.users ≡ some u
    → IsUnique user_id user_email a.users
    → (block_admin_user v admin_id u.id reason now a).0 ≡ ok tt
    → verify v.codec bearer later ≡ ok (u.id, role)
    → session_of (v.hash_refresh token) a.sessions ≡ some s
    → s.user_id ≡ u.id
    → v.normalize_email email ≡ u.email
    → let a' = (block_admin_user v admin_id u.id reason now a).1 in
      (is_ok (authenticate v bearer later a').0 ≡ false)
      × (is_ok (refresh_session v raw_token token later a').0 ≡ false)
      × (is_ok (login v "" raw_token email password later a').0 ≡ false)
unfolding block
block_locks_out v admin_id reason raw_token token email password bearer now later a {u} {role} {s}
      row unique returned signed session own mail =
    let (users, sessions) = block-writes v admin_id reason now a row returned in
    let a' = (block_admin_user v admin_id u.id reason now a).1 in
    let blocked : lookup u.id a'.users ≡ some (block now u) =
      rw users (lookup-insert_self u.id (block now u) a.users) in
    let by_email : row_of user_id user_email (v.normalize_email email) a'.users
        ≡ some (block now u) =
      rw (users, mail)
        (updated user_id user_email u.email a.users (block now u) unique
          (row_of-row user_id user_email u.email a.users u unique row refl) refl) in
    (
      rw (authenticate-stored v bearer later a' signed blocked) (ground arith),
      refresh-blocked v raw_token token later a' {s = s} {u = block now u} (rw sessions session)
          (rw own blocked) refl,
      login-blocked v "" raw_token email password later a' by_email refl,
    )

revoked_row : String → ℕ → AuthSession → AuthSession
revoked_row user_id now s =
    if same s.user_id user_id && not (is_some s.revoked_at)
    then record s { revoked_at = some now; updated_at = now }
    else s

session_of-revoke :
    (hash user_id : String) (now : ℕ) (d : Dict AuthSession) {s : AuthSession}
    → session_of hash d ≡ some s
    → session_of hash (revoke_sessions user_id now d) ≡ some (revoked_row user_id now s)
unfolding find_row revoke_sessions revoked_row
session_of-revoke hash user_id now [] found = cc found
session_of-revoke hash user_id now ((k, r) ∷ d) {s} found =
    ground (arith, session_of-revoke hash user_id now d {s = s})

refresh-revoked :
    (v : Services) (raw_token token : String) (now : ℕ) (a : Accounts) {s : AuthSession}
    → session_of (v.hash_refresh token) a.sessions ≡ some s
    → is_some s.revoked_at ≡ true
    → refresh_session v raw_token token now a ≡ (err auth_refresh_token_revoked, a)
unfolding refresh_session
refresh-revoked v raw_token token now a found revoked = ground arith

-- After the sweep every session of the user is revoked, by it or before.
revoked_row-revoked :
    (user : String) (now : ℕ) (s : AuthSession)
    → s.user_id ≡ user
    → is_some (revoked_row user now s).revoked_at ≡ true
unfolding revoked_row
revoked_row-revoked user now s own = ground (arith, eq_iff s.user_id user)

role-writes :
    (v : Services) (admin_id : String) (role : Role) (now : ℕ) (a : Accounts) {u : User}
    → lookup u.id a.users ≡ some u
    → same_role role u.role ≡ false
    → (update_admin_user v admin_id u.id none (some role) now a).0 ≡ ok tt
    → ((update_admin_user v admin_id u.id none (some role) now a).1.users
        ≡ insert u.id (change_role role now u) a.users)
      × ((update_admin_user v admin_id u.id none (some role) now a).1.sessions
          ≡ revoke_sessions u.id now a.sessions)
unfolding update_admin_user change_user_role update_user_and_record_action change_role
role-writes v admin_id role now a {u} row other returned = ground arith

-- A change of role takes effect at once: the access tokens of an active user that were signed before
-- count with the new role, and every session of the user is revoked, so that its refresh token is
-- refused. Rows stand under their ids; the new role is another one.
pub role_change_takes_effect :
    (v : Services) (admin_id raw_token token : String) (bearer : List String) (role old : Role)
    (now later : ℕ) (a : Accounts) {u : User} {s : AuthSession}
    → lookup u.id a.users ≡ some u
    → u.is_active ≡ true
    → u.is_blocked ≡ false
    → same_role role u.role ≡ false
    → (update_admin_user v admin_id u.id none (some role) now a).0 ≡ ok tt
    → verify v.codec bearer later ≡ ok (u.id, old)
    → session_of (v.hash_refresh token) a.sessions ≡ some s
    → s.user_id ≡ u.id
    → let a' = (update_admin_user v admin_id u.id none (some role) now a).1 in
      ((authenticate v bearer later a').0 ≡ ok (u.id, role))
      × (refresh_session v raw_token token later a' ≡ (err auth_refresh_token_revoked, a'))
unfolding change_role
role_change_takes_effect v admin_id raw_token token bearer role old now later a {u} {s} row active
      free other returned signed session own =
    let (users, sessions) = role-writes v admin_id role now a row other returned in
    let a' = (update_admin_user v admin_id u.id none (some role) now a).1 in
    let changed : lookup u.id a'.users ≡ some (change_role role now u) =
      rw users (lookup-insert_self u.id (change_role role now u) a.users) in
    let revoked : session_of (v.hash_refresh token) a'.sessions ≡ some (revoked_row u.id now s) =
      rw sessions (session_of-revoke (v.hash_refresh token) u.id now a.sessions session) in
    (
      rw (authenticate-stored v bearer later a' signed changed, active, free) refl,
      refresh-revoked v raw_token token later a' revoked (revoked_row-revoked u.id now s own),
    )

login-returns :
    (v : Services) (id raw_token email password : String) (now : ℕ) (a : Accounts)
    {out : SessionTokens}
    → (login v id raw_token email password now a).0 ≡ ok out
    → (row_of user_id user_email (v.normalize_email email) a.users ≡ some out.user)
      × (out.user.is_active ≡ true)
      × (out.user.is_blocked ≡ false)
      × (out.access_token ≡ sign v.codec v.access_token_ttl_minutes out.user.id out.user.role now)
      × ((login v id raw_token email password now a).1.users ≡ a.users)
unfolding login create_session
login-returns v id raw_token email password now a {out} returned =
    elim (Option-cases (row_of user_id user_email (v.normalize_email email) a.users)) [
      | inl absent ↦ absurd (ground arith)
      | inr (u, found) ↦ ground (
        arith,
        Bool-cases (password_matches v password u),
        Bool-cases u.is_active,
        Bool-cases u.is_blocked,
      )
    ]

-- A login hands out an access token that stands for its user until it expires, as long as the tables
-- stay as they are. Emails are unique and rows stand under their ids; the parameters decode what they
-- encode.
pub login_authenticates :
    (v : Services) (id raw_token email password : String) (now later : ℕ) (a : Accounts)
    {out : SessionTokens}
    → IsUnique user_id user_email a.users
    → (login v id raw_token email password now a).0 ≡ ok out
    → IsCodec v.codec (issued v.access_token_ttl_minutes out.user.id out.user.role now)
    → later / 1000 < now / 1000 + v.access_token_ttl_minutes * 60
    → (authenticate v out.access_token.token later (login v id raw_token email password now a).1).0
      ≡ ok (out.user.id, out.user.role)
login_authenticates v id raw_token email password now later a {out} unique returned codec fresh =
    let (found, active, free, token, users) =
      login-returns v id raw_token email password now a returned in
    let row = row_of-lookup user_id user_email (v.normalize_email email) a.users unique found in
    let round_trip =
      sign_round_trip v.codec v.access_token_ttl_minutes out.user.id out.user.role now later
        codec in
    let signed : verify v.codec out.access_token.token later ≡ ok (out.user.id, out.user.role) =
      rw (token, round_trip) (ground arith) in
    rw
      (
        authenticate-stored v out.access_token.token later
            (login v id raw_token email password now a).1 {u = out.user} signed (rw users row),
        active,
        free,
      )
      refl
