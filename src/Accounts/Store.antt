-- ===== src/Accounts/Store.antt =====
-- The tables of users, sessions and governance actions, with the calls of
-- apps/api/src/modules/users/infrastructure/repositories/prisma-user.repository.ts,
-- auth/infrastructure/repositories/prisma-auth-session.repository.ts and
-- admin/infrastructure/repositories/prisma-admin-governance.repository.ts. New ids and the times that
-- the database sets (`@default(now())`, `@updatedAt`) are arguments. When a new row clashes on several
-- unique columns the database leaves open which it names; here they come in the repository's order.
use elonew.Base.{
  ℕ, String, Bool, false, not, ◌&&◌, ◌||◌, List, [], ◌∷◌, Option, none, some, same, holds_text,
  is_some, if◌then◌else◌, Dict, lookup, insert,
}
use elonew.Common.Errors.{
  ok, err, user_email_already_in_use, username_already_in_use, admin_username_already_in_use,
  record_to_update_not_found, plain_error,
}
use elonew.Common.Action.{Action, gets, modify}
use elonew.Accounts.User.{User}

pub record AuthSession : Type 0 where
  pub id : String
  pub user_id : String
  pub refresh_token_hash : String
  pub expires_at : ℕ
  pub revoked_at : Option ℕ
  pub last_used_at : Option ℕ
  pub created_at : ℕ
  pub updated_at : ℕ

pub data AdminGovernanceActionType : Type 0 where
  user_create user_block user_unblock user_rename user_role_change : AdminGovernanceActionType

-- `AdminGovernanceActionInput` of an action on a user, without its list of changes.
pub record AdminGovernanceAction : Type 0 where
  pub admin_user_id : String
  pub action_type : AdminGovernanceActionType
  pub reason : String
  pub target_user_id : String
  pub created_at : ℕ

-- The tables, and the mails that were sent: to whom, and with which token.
pub record Accounts : Type 0 where
  pub users : Dict User
  pub sessions : Dict AuthSession
  pub actions : List AdminGovernanceAction
  pub mails : List (String × String)

-- `findUnique` on a column that is no primary key.
unfoldable pub find_row {ℓ} : {V : Type ℓ} → (V → Bool) → Dict V → Option V
find_row p [] = none
find_row p ((k, v) ∷ d) = if p v then some v else find_row p d

unfoldable pub find_by_id : String → Action Accounts (Option User)
find_by_id id = gets (λ a. lookup id a.users)

unfoldable pub find_by_email : String → Action Accounts (Option User)
find_by_email email = gets (λ a. find_row (λ u. same u.email email) a.users)

unfoldable pub find_by_username : String → Action Accounts (Option User)
find_by_username username = gets (λ a. find_row (λ u. same u.username username) a.users)

unfoldable pub find_by_email_confirmation_token_hash : String → Action Accounts (Option User)
find_by_email_confirmation_token_hash token_hash =
    gets (λ a. find_row (λ u. holds_text u.email_confirmation_token_hash token_hash) a.users)

unfoldable pub find_by_password_reset_token_hash : String → Action Accounts (Option User)
find_by_password_reset_token_hash token_hash =
    gets (λ a. find_row (λ u. holds_text u.password_reset_token_hash token_hash) a.users)

-- Both columns hold the same text.
abbrev pub same_text : Option String → Option String → Bool
same_text none b = false
same_text (some a) b = holds_text b a

-- `create`, with the unique columns of the table.
unfoldable pub create_user : String → ℕ → User → Action Accounts User
create_user id now user a =
    if is_some (find_row (λ u. same u.email user.email) a.users)
    then (err user_email_already_in_use, a)
    else (if is_some (find_row (λ u. same u.username user.username) a.users)
        then (err username_already_in_use, a)
        else (if is_some (
              find_row
                (λ u.
                  same_text u.email_confirmation_token_hash user.email_confirmation_token_hash
                  || same_text u.password_reset_token_hash user.password_reset_token_hash)
                a.users)
            then (err plain_error, a)
            else (let row = record user { id = id; created_at = now; updated_at = now } in
                (ok row, record a { users = insert id row a.users }))))

-- `save`: every column but the id and the times.
unfoldable pub save_user : ℕ → User → Action Accounts (Unit {0})
save_user now user a = elim (lookup user.id a.users) [
  | none ↦ (err record_to_update_not_found, a)
  | some row ↦ (
    ok tt,
    record a {
      users =
          insert user.id (record user { created_at = row.created_at; updated_at = now }) a.users;
    },
  )
]

unfoldable pub find_by_refresh_token_hash : String → Action Accounts (Option AuthSession)
find_by_refresh_token_hash token_hash =
    gets (λ a. find_row (λ s. same s.refresh_token_hash token_hash) a.sessions)

unfoldable pub create_session : String → ℕ → String → String → ℕ → Action Accounts (Unit {0})
create_session id now user_id refresh_token_hash expires_at = modify (λ a. record a {
  sessions =
      insert id
        (record {
          id = id;
          user_id = user_id;
          refresh_token_hash = refresh_token_hash;
          expires_at = expires_at;
          revoked_at = none;
          last_used_at = none;
          created_at = now;
          updated_at = now;
        })
        a.sessions;
})

-- `PrismaAuthSessionRepository.save`: four columns of the row.
unfoldable pub save_session : ℕ → AuthSession → Action Accounts (Unit {0})
save_session now session a = elim (lookup session.id a.sessions) [
  | none ↦ (err record_to_update_not_found, a)
  | some row ↦ (
    ok tt,
    record a {
      sessions =
          insert session.id
            (record row {
              refresh_token_hash = session.refresh_token_hash;
              expires_at = session.expires_at;
              revoked_at = session.revoked_at;
              last_used_at = session.last_used_at;
              updated_at = now;
            })
            a.sessions;
    },
  )
]

unfoldable pub record_action : AdminGovernanceAction → Action Accounts (Unit {0})
record_action action = modify (λ a. record a { actions = action ∷ a.actions })

-- `updateMany({ where: { userId, revokedAt: null }, data: { revokedAt } })`
unfoldable pub revoke_sessions : String → ℕ → Dict AuthSession → Dict AuthSession
revoke_sessions user_id now [] = []
revoke_sessions user_id now ((id, s) ∷ d) =
    (
      id,
      if same s.user_id user_id && not (is_some s.revoked_at)
          then record s { revoked_at = some now; updated_at = now }
          else s,
    )
    ∷ revoke_sessions user_id now d

abbrev clashes : User → User → Bool
clashes user u = same u.username user.username && not (same u.id user.id)

-- `updateUserAndRecordAction`: one transaction.
unfoldable pub update_user_and_record_action :
    User → AdminGovernanceAction → Action Accounts (Unit {0})
update_user_and_record_action user action a = elim (lookup user.id a.users) [
  | none ↦ (err record_to_update_not_found, a)
  | some row ↦
      if is_some (find_row (clashes user) a.users)
      then (err admin_username_already_in_use, a)
      else (
        ok tt,
        record a {
          users =
              insert user.id
                (record row {
                  username = user.username;
                  role = user.role;
                  updated_at = user.updated_at;
                })
                a.users;
          actions = action ∷ a.actions;
          sessions = revoke_sessions user.id action.created_at a.sessions;
        },
      )
]
