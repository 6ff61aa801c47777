-- ===== src/Accounts/Governance.antt =====
-- The use cases of apps/api/src/modules/admin/application/use-cases on users. Their log lines are not
-- kept.
use elonew.Base.{
  ℕ, String, Bool, true, false, not, ◌||◌, Option, none, some, same, is_some, if◌then◌else◌,
}
use elonew.Common.Errors.{
  DomainError, ok, err, user_email_already_in_use, username_already_in_use,
  admin_governance_reason_required, admin_self_block, admin_self_role_change, admin_user_not_found,
  admin_user_email_already_in_use, admin_username_already_in_use,
  admin_user_password_setup_unavailable,
}
use elonew.Common.Action.{Action, ◌>>=◌, ◌>>◌, pure, or_throw, throw_if}
use elonew.Tickets.Entity.{Role, client, booster, admin}
use elonew.Accounts.User.{
  User, block, unblock, rename, change_role, create_pending_from_admin, issue_password_reset,
}
use elonew.Accounts.Store.{
  Accounts, user_create, user_block, user_unblock, user_rename, user_role_change, find_by_id,
  find_by_email, find_by_username, create_user, save_user, record_action,
  update_user_and_record_action,
}
use elonew.Accounts.UseCases.{Services, generate_confirmation, send_mail}

-- block-admin-user.use-case.ts
unfoldable pub block_admin_user :
    Services → String → String → String → ℕ → Action Accounts (Unit {0})
unfolding find_by_id save_user record_action
block_admin_user v admin_id target_id reason now = do
  throw_if (same (v.trim reason) "") admin_governance_reason_required
  throw_if (same admin_id target_id) admin_self_block
  found ← find_by_id target_id
  user ← or_throw found admin_user_not_found
  save_user now (block now user)
  record_action (record {
    admin_user_id = admin_id;
    action_type = user_block;
    reason = v.trim reason;
    target_user_id = user.id;
    created_at = now;
  })

-- unblock-admin-user.use-case.ts
unfoldable pub unblock_admin_user :
    Services → String → String → String → ℕ → Action Accounts (Unit {0})
unfolding find_by_id save_user record_action
unblock_admin_user v admin_id target_id reason now = do
  throw_if (same (v.trim reason) "") admin_governance_reason_required
  found ← find_by_id target_id
  user ← or_throw found admin_user_not_found
  save_user now (unblock now user)
  record_action (record {
    admin_user_id = admin_id;
    action_type = user_unblock;
    reason = v.trim reason;
    target_user_id = user.id;
    created_at = now;
  })

-- The errors of the repository as `createUser` passes them on.
abbrev pub as_admin_error : DomainError → DomainError
as_admin_error user_email_already_in_use = admin_user_email_already_in_use
as_admin_error username_already_in_use = admin_username_already_in_use
as_admin_error e = e

abbrev pub catch_as_admin : {A : Type 0} → Action Accounts A → Action Accounts A
catch_as_admin m a =
    let (r, a') = m a in elim r [ ok x ↦ (ok x, a') | err e ↦ (err (as_admin_error e), a') ]

-- create-admin-user.use-case.ts: the user, and whether the mail was sent.
unfoldable pub create_admin_user :
    Services
    → String
    → String
    → Bool
    → String
    → String
    → String
    → Role
    → ℕ
    → Action Accounts (User × Bool)
unfolding find_by_email find_by_username create_user generate_confirmation record_action send_mail
create_admin_user v id raw_token delivered admin_id username email role now = do
  let normalized_email = v.normalize_email email
  same_email ← find_by_email normalized_email
  throw_if (is_some same_email) admin_user_email_already_in_use
  same_name ← find_by_username username
  throw_if (is_some same_name) admin_username_already_in_use
  let token = generate_confirmation v raw_token now
  user ← catch_as_admin (
      create_user id now (
        create_pending_from_admin username normalized_email role token.token_hash token.expires_at
          now))
  record_action (record {
    admin_user_id = admin_id;
    action_type = user_create;
    reason = "admin_user_create";
    target_user_id = user.id;
    created_at = now;
  })
  send_mail delivered user.email token.raw_token
  pure (user, delivered)

-- resend-admin-user-password-setup.use-case.ts
unfoldable pub resend_admin_user_password_setup :
    Services → String → Bool → String → ℕ → Action Accounts Bool
unfolding find_by_id save_user generate_confirmation send_mail
resend_admin_user_password_setup v raw_token delivered target_id now = do
  found ← find_by_id target_id
  user ← or_throw found admin_user_not_found
  throw_if (user.is_active || is_some user.email_confirmed_at) admin_user_password_setup_unavailable
  let token = generate_confirmation v raw_token now
  save_user now (issue_password_reset token.token_hash token.expires_at now user)
  send_mail delivered user.email token.raw_token
  pure delivered

-- Whether a role is another than the user's.
abbrev pub same_role : Role → Role → Bool
same_role client client = true
same_role booster booster = true
same_role admin admin = true
same_role client booster = false
same_role client admin = false
same_role booster client = false
same_role booster admin = false
same_role admin client = false
same_role admin booster = false

abbrev pub belongs_to_other : String → Option User → Bool
belongs_to_other id none = false
belongs_to_other id (some u) = not (same u.id id)

-- The branch of `input.username !== undefined`.
unfoldable pub rename_user : Services → String → String → User → ℕ → Action Accounts (Unit {0})
unfolding find_by_username update_user_and_record_action
rename_user v admin_id name user now = do
  let username = v.trim name
  existing ← find_by_username username
  throw_if (belongs_to_other user.id existing) admin_username_already_in_use
  if same username user.username
      then pure tt
      else update_user_and_record_action (rename username now user) (record {
        admin_user_id = admin_id;
        action_type = user_rename;
        reason = "admin_user_rename";
        target_user_id = user.id;
        created_at = now;
      })

unfoldable pub change_user_role : String → String → Role → User → ℕ → Action Accounts (Unit {0})
unfolding update_user_and_record_action
change_user_role admin_id target_id role user now = do
  throw_if (same admin_id target_id) admin_self_role_change
  if same_role role user.role
      then pure tt
      else update_user_and_record_action (change_role role now user) (record {
        admin_user_id = admin_id;
        action_type = user_role_change;
        reason = "admin_user_role_change";
        target_user_id = user.id;
        created_at = now;
      })

-- update-admin-user.use-case.ts
unfoldable pub update_admin_user :
    Services → String → String → Option String → Option Role → ℕ → Action Accounts (Unit {0})
unfolding find_by_id rename_user change_user_role
update_admin_user v admin_id target_id username role now = do
  found ← find_by_id target_id
  user ← or_throw found admin_user_not_found
  elim username [
    | some name ↦ rename_user v admin_id name user now
    | none ↦ elim role [ none ↦ pure tt | some r ↦ change_user_role admin_id target_id r user now ]
  ]
