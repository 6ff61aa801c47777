-- ===== src/Accounts/Onboarding.antt =====
-- From the form to the first login.
-- Code: apps/api/src/modules/users/application/use-cases and auth/application/use-cases/login
use elonew.Base.{
  ℕ, ◌+◌, ◌*◌, ◌≤◌, String, Bool, true, false, ◌||◌, [], ◌∷◌, Option, none, some, same, inl, inr,
  ◌≡◌, ◌≢◌, refl, arith, eq_iff, Option-cases, lookup, insert, lookup-insert_self, insert-insert,
  Dict,
}
use elonew.Common.Errors.{ok, err, is_ok, auth_user_inactive, user_email_confirmation_token_invalid}
use elonew.Accounts.User.{User, create_pending, can_confirm_email, confirm_email}
use elonew.Accounts.Store.{Accounts, find_row, same_text, create_user, save_user, create_session}
use elonew.Accounts.Columns.{row_of, taken, still_free}
use elonew.Accounts.AccessToken.{sign}
use elonew.Accounts.UseCases.{
  Services, password_matches, generate_refresh, sign_up, confirm_email_with, login,
}

abbrev pub user_id : User → String
user_id u = u.id

abbrev pub user_email : User → Option String
user_email u = some u.email

abbrev pub user_token : User → Option String
user_token u = u.email_confirmation_token_hash

-- The row that a sign-up writes.
abbrev pub signed_up : Services → String → String → String → String → String → ℕ → User
signed_up v id raw_token username email password now =
    let u =
      create_pending username (v.normalize_email email) (v.hash_password password)
        (v.hash_confirmation raw_token) (now + v.email_confirmation_token_ttl_minutes * 60000)
        now in
    record u { id = id }

-- The test of the unique columns finds the token's.
free_column :
    (h : String) (d : Dict User)
    → find_row
        (λ u.
          same_text u.email_confirmation_token_hash (some h)
          || same_text u.password_reset_token_hash none)
        d
      ≡ none
    → row_of user_id user_token h d ≡ none
unfolding find_row
free_column h [] free = refl
free_column h ((k, u) ∷ d) free = elim (Option-cases u.email_confirmation_token_hash) [
  | inl e ↦ ground (arith, free_column h d)
  | inr (t, e) ↦ ground (arith, eq_iff t h, eq_iff h t, free_column h d)
]

sign_up-returns :
    (v : Services) (id raw_token : String) (delivered : Bool) (username email password : String)
    (now : ℕ) (a : Accounts) {u : User}
    → (sign_up v id raw_token delivered username email password now a).0 ≡ ok u
    → (row_of user_id user_email (v.normalize_email email) a.users ≡ none)
      × (row_of user_id user_token (v.hash_confirmation raw_token) a.users ≡ none)
      × ((sign_up v id raw_token delivered username email password now a).1.users
          ≡ insert id (signed_up v id raw_token username email password now) a.users)
unfolding sign_up create_user create_pending
sign_up-returns v id raw_token delivered username email password now a {u} returned =
    let e = row_of user_id user_email (v.normalize_email email) a.users in
    let n = find_row (λ u. same u.username username) a.users in
    let h = v.hash_confirmation raw_token in
    let t =
      find_row
        (λ u.
          same_text u.email_confirmation_token_hash (some h)
          || same_text u.password_reset_token_hash none)
        a.users in
    elim (Option-cases e) [
      | inr (x, taken_email) ↦ absurd (ground arith)
      | inl free_email ↦ elim (Option-cases n) [
        | inr (x, taken_name) ↦ absurd (ground arith)
        | inl free_name ↦ elim (Option-cases t) [
          | inr (x, taken_token) ↦ absurd (ground arith)
          | inl free_token ↦ (free_email, free_column h a.users free_token, ground arith)
        ]
      ]
    ]

-- A confirmation in time activates the row.
confirm-row :
    (v : Services) (token : String) (now : ℕ) (a : Accounts) {u : User}
    → row_of user_id user_token (v.hash_confirmation token) a.users ≡ some u
    → lookup u.id a.users ≡ some u
    → can_confirm_email now u ≡ true
    → confirm_email_with v token now a ≡ (
      ok (confirm_email now u),
      record a {
        users =
            insert u.id
              (record (confirm_email now u) { created_at = u.created_at; updated_at = now })
              a.users;
      },
    )
unfolding confirm_email_with save_user confirm_email
confirm-row v token now a {u} found row may = ground arith

no_token :
    (v : Services) (token : String) (now : ℕ) (a : Accounts)
    → row_of user_id user_token (v.hash_confirmation token) a.users ≡ none
    → confirm_email_with v token now a ≡ (err user_email_confirmation_token_invalid, a)
unfolding confirm_email_with
no_token v token now a free = ground arith

-- A login with the right password goes by the state of the account.
login-inactive :
    (v : Services) (id raw_token email password : String) (now : ℕ) (a : Accounts) {u : User}
    → row_of user_id user_email (v.normalize_email email) a.users ≡ some u
    → password_matches v password u ≡ true
    → u.is_active ≡ false
    → login v id raw_token email password now a ≡ (err auth_user_inactive, a)
unfolding login
login-inactive v id raw_token email password now a found right off = ground arith

pub login-active :
    (v : Services) (id raw_token email password : String) (now : ℕ) (a : Accounts) {u : User}
    → row_of user_id user_email (v.normalize_email email) a.users ≡ some u
    → password_matches v password u ≡ true
    → u.is_active ≡ true
    → u.is_blocked ≡ false
    → (login v id raw_token email password now a).0
      ≡ ok (record {
        access_token = sign v.codec v.access_token_ttl_minutes u.id u.role now;
        refresh_token = raw_token;
        user = u;
      })
unfolding login create_session generate_refresh
login-active v id raw_token email password now a found right on free = ground arith

-- After a sign-up that returns, a login with its password is refused as of an inactive account; a
-- confirmation with the mailed token that comes in time succeeds; the same token then does not succeed
-- again; and a login with the email and the password succeeds. The password check accepts what the hash
-- was made of, and no hash is empty.
pub onboarding :
    (v : Services) (id raw_token : String) (delivered : Bool) (username email password : String)
    (now later : ℕ) (session next : String) (a : Accounts) {u : User}
    → (sign_up v id raw_token delivered username email password now a).0 ≡ ok u
    → v.verify_password password (v.hash_password password) ≡ true
    → v.hash_password password ≢ ""
    → later ≤ now + v.email_confirmation_token_ttl_minutes * 60000
    → let a' = (sign_up v id raw_token delivered username email password now a).1 in
      let a'' = (confirm_email_with v raw_token later a').1 in
      (login v session next email password later a' ≡ (err auth_user_inactive, a'))
      × (is_ok (confirm_email_with v raw_token later a').0 ≡ true)
      × (confirm_email_with v raw_token later a''
          ≡ (err user_email_confirmation_token_invalid, a''))
      × (is_ok (login v session next email password later a'').0 ≡ true)
unfolding create_pending confirm_email can_confirm_email
onboarding v id raw_token delivered username email password now later session next a returned checks
      whole in_time =
    let (free_email, free_token, users) =
      sign_up-returns v id raw_token delivered username email password now a returned in
    let a' = (sign_up v id raw_token delivered username email password now a).1 in
    let u' = signed_up v id raw_token username email password now in
    let c : User = record (confirm_email later u') {
      created_at = u'.created_at;
      updated_at = later;
    } in
    let right : password_matches v password u' ≡ true =
      ground (arith, eq_iff (v.hash_password password) "") in
    let by_token : row_of user_id user_token (v.hash_confirmation raw_token) a'.users ≡ some u' =
      rw users
        (taken user_id user_token (v.hash_confirmation raw_token) id a.users u' free_token refl) in
    let by_email : row_of user_id user_email (v.normalize_email email) a'.users ≡ some u' =
      rw users (taken user_id user_email (v.normalize_email email) id a.users u' free_email refl) in
    let row : lookup id a'.users ≡ some u' = rw users (lookup-insert_self id u' a.users) in
    let after : insert id c a'.users ≡ insert id c a.users =
      rw users (insert-insert id c u' a.users) in
    let a'' : Accounts = record a' { users = insert id c a'.users } in
    let gone : row_of user_id user_token (v.hash_confirmation raw_token) a''.users ≡ none =
      rw after (
        still_free user_id user_token (v.hash_confirmation raw_token) id a.users c free_token
          refl) in
    let active : row_of user_id user_email (v.normalize_email email) a''.users ≡ some c =
      rw after (taken user_id user_email (v.normalize_email email) id a.users c free_email refl) in
    let may : can_confirm_email later u' ≡ true = ground arith in
    rw (confirm-row v raw_token later a' by_token row may) (
      login-inactive v session next email password later a' by_email right refl,
      refl,
      no_token v raw_token later a'' gone,
      rw (login-active v session next email password later a'' active right refl refl) refl,
    )
