-- ===== src/Accounts/Rotation.antt =====
-- A refresh token serves once, and after a logout it serves no more.
-- Code: apps/api/src/modules/auth/application/use-cases
use elonew.Base.{
  ℕ, ◌+◌, ◌*◌, ◌≤◌, String, true, false, Option, none, some, same, inl, inr, ◌≡◌, ◌≢◌, refl, arith,
  eq_iff, Option-cases, lookup, insert, lookup-insert_self, Dict,
}
use elonew.Common.Errors.{ok, err, is_ok, auth_refresh_token_invalid, auth_refresh_token_revoked}
use elonew.Accounts.User.{User}
use elonew.Accounts.Store.{Accounts, AuthSession, save_session}
use elonew.Accounts.Columns.{
  IsUnique, row_of, row_of-col, row_of-lookup, replaced, taken, updated, undisturbed,
}
use elonew.Accounts.AccessToken.{sign}
use elonew.Accounts.UseCases.{Services, SessionTokens, refresh_session, logout, generate_refresh}

abbrev pub session_id : AuthSession → String
session_id s = s.id

abbrev pub session_hash : AuthSession → Option String
session_hash s = some s.refresh_token_hash

-- Sessions stand under their ids, and no two have one hash.
abbrev pub IsSessions : Dict AuthSession → Type 0
IsSessions d = IsUnique session_id session_hash d

abbrev pub session_of : String → Dict AuthSession → Option AuthSession
session_of hash d = row_of session_id session_hash hash d

-- The session after a refresh that returns: what the caller had, and what takes its place.
abbrev pub refreshed : Services → String → ℕ → AuthSession → AuthSession
refreshed v raw_token now s = record s {
  refresh_token_hash = v.hash_refresh raw_token;
  expires_at = now + v.refresh_token_ttl_days * 86400000;
  last_used_at = some now;
  updated_at = now;
}

-- What a session needs for a refresh, and its user for the answer.
pub record MayRefresh (v : Services) (token : String) (now : ℕ) (a : Accounts) (s : AuthSession)
    (u : User) : Type 0 where
  pub found : session_of (v.hash_refresh token) a.sessions ≡ some s
  pub valid : s.revoked_at ≡ none
  pub in_time : now ≤ s.expires_at
  pub user : lookup s.user_id a.users ≡ some u
  pub not_blocked : u.is_blocked ≡ false

pub refresh_session-may :
    (v : Services) (raw_token token : String) (now : ℕ) (a : Accounts) {s : AuthSession} {u : User}
    → lookup s.id a.sessions ≡ some s
    → MayRefresh v token now a s u
    → refresh_session v raw_token token now a ≡ (
      ok (record {
        access_token = sign v.codec v.access_token_ttl_minutes u.id u.role now;
        refresh_token = raw_token;
        user = u;
      }),
      record a { sessions = insert s.id (refreshed v raw_token now s) a.sessions },
    )
unfolding refresh_session generate_refresh save_session
refresh_session-may v raw_token token now a {s} {u} row may =
    ground (arith, row, may.found, may.valid, may.in_time, may.user, may.not_blocked)

-- A refresh that returns had such a session.
pub refresh_session-needs :
    (v : Services) (raw_token token : String) (now : ℕ) (a : Accounts) {out : SessionTokens}
    → (refresh_session v raw_token token now a).0 ≡ ok out
    → (s : AuthSession) × (u : User) × MayRefresh v token now a s u
unfolding refresh_session
refresh_session-needs v raw_token token now a {out} returned =
    elim (Option-cases (session_of (v.hash_refresh token) a.sessions)) [
      | inl none_found ↦ absurd (ground arith)
      | inr (s, found) ↦ elim (Option-cases (lookup s.user_id a.users)) [
        | inl no_user ↦ absurd (ground arith)
        | inr (u, user) ↦ (
          s,
          u,
          record {
            found = found;
            valid = ground arith;
            in_time = ground arith;
            user = user;
            not_blocked = ground arith;
          },
        )
      ]
    ]

unknown_token :
    (v : Services) (raw_token token : String) (now : ℕ) (a : Accounts)
    → session_of (v.hash_refresh token) a.sessions ≡ none
    → (refresh_session v raw_token token now a ≡ (err auth_refresh_token_invalid, a))
      × (logout v token now a ≡ (err auth_refresh_token_invalid, a))
unfolding refresh_session logout
unknown_token v raw_token token now a unknown = ground arith

-- A refresh token serves once: after a refresh that returns, the old token is unknown to a refresh and
-- to a logout, neither of which changes anything, and the new one is good for another refresh until it
-- expires. The new hash is another one and free, and no two sessions share a hash at the start.
pub refresh_rotates :
    (v : Services) (raw_token next token : String) (now later : ℕ) (a : Accounts)
    {out : SessionTokens}
    → IsSessions a.sessions
    → (refresh_session v raw_token token now a).0 ≡ ok out
    → v.hash_refresh raw_token ≢ v.hash_refresh token
    → session_of (v.hash_refresh raw_token) a.sessions ≡ none
    → later ≤ now + v.refresh_token_ttl_days * 86400000
    → let a' = (refresh_session v raw_token token now a).1 in
      (refresh_session v next token later a' ≡ (err auth_refresh_token_invalid, a'))
      × (logout v token later a' ≡ (err auth_refresh_token_invalid, a'))
      × (is_ok (refresh_session v next raw_token later a').0 ≡ true)
refresh_rotates v raw_token next token now later a {out} h returned differs free in_time =
    let (s, u, may) = refresh_session-needs v raw_token token now a returned in
    let s' = refreshed v raw_token now s in
    let row = row_of-lookup session_id session_hash (v.hash_refresh token) a.sessions h may.found in
    let a' : Accounts = record a { sessions = insert s.id s' a.sessions } in
    let gone =
      replaced session_id session_hash (v.hash_refresh token) a.sessions s' h may.found
        (ground (arith, eq_iff (v.hash_refresh raw_token) (v.hash_refresh token))) in
    let again : MayRefresh v raw_token later a' s' u = record {
      found = taken session_id session_hash (v.hash_refresh raw_token) s.id a.sessions s' free refl;
      valid = may.valid;
      in_time = in_time;
      user = may.user;
      not_blocked = may.not_blocked;
    } in
    let old = unknown_token v next token later a' gone in
    rw (refresh_session-may v raw_token token now a row may) (
      old.0,
      old.1,
      rw
          (refresh_session-may v next raw_token later a' (lookup-insert_self s.id s' a.sessions)
            again)
          refl,
    )

revoked_token :
    (v : Services) (raw_token token : String) (now at : ℕ) (a : Accounts) {s : AuthSession}
    → session_of (v.hash_refresh token) a.sessions ≡ some s
    → s.revoked_at ≡ some at
    → (refresh_session v raw_token token now a ≡ (err auth_refresh_token_revoked, a))
      × (logout v token now a ≡ (err auth_refresh_token_revoked, a))
unfolding refresh_session logout
revoked_token v raw_token token now at a found revoked = ground arith

logout-needs :
    (v : Services) (token : String) (now : ℕ) (a : Accounts)
    → IsSessions a.sessions
    → (logout v token now a).0 ≡ ok tt
    → (s : AuthSession) × (session_of (v.hash_refresh token) a.sessions ≡ some s)
      × ((logout v token now a).1 ≡ record a {
        sessions = insert s.id (record s { revoked_at = some now; updated_at = now }) a.sessions;
      })
unfolding logout save_session
logout-needs v token now a h returned =
    elim (Option-cases (session_of (v.hash_refresh token) a.sessions)) [
      | inl none_found ↦ absurd (ground arith)
      | inr (s, found) ↦ (
        s,
        found,
        ground (
          arith,
          row_of-lookup session_id session_hash (v.hash_refresh token) a.sessions {s = s} h found,
        ),
      )
    ]

-- After a logout that returns, the token is revoked, for a refresh and for another logout, and neither
-- changes anything; the sessions of other tokens are as they were. No two sessions share a hash.
pub logout_revokes :
    (v : Services) (next token other : String) (now later : ℕ) (a : Accounts)
    → IsSessions a.sessions
    → (logout v token now a).0 ≡ ok tt
    → v.hash_refresh token ≢ v.hash_refresh other
    → let a' = (logout v token now a).1 in
      (refresh_session v next token later a' ≡ (err auth_refresh_token_revoked, a'))
      × (logout v token later a' ≡ (err auth_refresh_token_revoked, a'))
      × (session_of (v.hash_refresh other) a'.sessions
          ≡ session_of (v.hash_refresh other) a.sessions)
logout_revokes v next token other now later a h returned differs =
    let (s, found, e) = logout-needs v token now a h returned in
    let s' : AuthSession = record s { revoked_at = some now; updated_at = now } in
    let hash = row_of-col session_id session_hash (v.hash_refresh token) a.sessions found in
    let row = row_of-lookup session_id session_hash (v.hash_refresh token) a.sessions h found in
    let apart : same s.refresh_token_hash (v.hash_refresh other) ≡ false =
      ground (arith, hash, eq_iff s.refresh_token_hash (v.hash_refresh other)) in
    let a' : Accounts = record a { sessions = insert s.id s' a.sessions } in
    let old =
      revoked_token v next token later now a'
        (updated session_id session_hash (v.hash_refresh token) a.sessions s' h found hash) refl in
    rw e (
      old.0,
      old.1,
      undisturbed session_id session_hash (v.hash_refresh other) a.sessions s s' h row apart apart,
    )
