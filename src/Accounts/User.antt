-- ===== src/Accounts/User.antt =====
-- apps/api/src/modules/users/domain/user.entity.ts: the `User` class. A row of the table is one too:
-- `rehydrate` copies it. `new Date()` is an argument.
use elonew.Base.{ℕ, String, Bool, true, false, not, ◌&&◌, Option, none, some, is_some, leb}
use elonew.Tickets.Entity.{Role, client}

pub record User : Type 0 where
  pub id : String
  pub username : String
  pub email : String
  pub password_hash : Option String
  pub role : Role
  pub is_active : Bool
  pub is_blocked : Bool
  pub email_confirmed_at : Option ℕ
  pub email_confirmation_token_hash : Option String
  pub email_confirmation_token_expires_at : Option ℕ
  pub password_reset_token_hash : Option String
  pub password_reset_token_expires_at : Option ℕ
  pub created_at : ℕ
  pub updated_at : ℕ

unfoldable pub create_pending : String → String → String → String → ℕ → ℕ → User
create_pending username email password_hash token_hash expires_at now = record {
  id = "";
  username = username;
  email = email;
  password_hash = some password_hash;
  role = client;
  is_active = false;
  is_blocked = false;
  email_confirmed_at = none;
  email_confirmation_token_hash = some token_hash;
  email_confirmation_token_expires_at = some expires_at;
  password_reset_token_hash = none;
  password_reset_token_expires_at = none;
  created_at = now;
  updated_at = now;
}

unfoldable pub create_pending_from_admin : String → String → Role → String → ℕ → ℕ → User
create_pending_from_admin username email role token_hash expires_at now = record {
  id = "";
  username = username;
  email = email;
  password_hash = none;
  role = role;
  is_active = false;
  is_blocked = false;
  email_confirmed_at = none;
  email_confirmation_token_hash = none;
  email_confirmation_token_expires_at = none;
  password_reset_token_hash = some token_hash;
  password_reset_token_expires_at = some expires_at;
  created_at = now;
  updated_at = now;
}

-- `expiresAt !== null && expiresAt >= referenceDate`
abbrev pub not_past : ℕ → Option ℕ → Bool
not_past now none = false
not_past now (some at) = leb now at

unfoldable pub can_confirm_email : ℕ → User → Bool
can_confirm_email now u =
    not u.is_active
    && is_some u.email_confirmation_token_hash
    && not_past now u.email_confirmation_token_expires_at

unfoldable pub confirm_email : ℕ → User → User
confirm_email now u = record u {
  is_active = true;
  email_confirmed_at = some now;
  email_confirmation_token_hash = none;
  email_confirmation_token_expires_at = none;
  updated_at = now;
}

unfoldable pub can_set_password : ℕ → User → Bool
can_set_password now u =
    not u.is_active
    && not (is_some u.email_confirmed_at)
    && is_some u.password_reset_token_hash
    && not_past now u.password_reset_token_expires_at

unfoldable pub set_password : String → ℕ → User → User
set_password password_hash now u = record u {
  password_hash = some password_hash;
  is_active = true;
  email_confirmed_at = some now;
  email_confirmation_token_hash = none;
  email_confirmation_token_expires_at = none;
  password_reset_token_hash = none;
  password_reset_token_expires_at = none;
  updated_at = now;
}

unfoldable pub issue_password_reset : String → ℕ → ℕ → User → User
issue_password_reset token_hash expires_at now u = record u {
  password_reset_token_hash = some token_hash;
  password_reset_token_expires_at = some expires_at;
  updated_at = now;
}

unfoldable pub block : ℕ → User → User
block now u = record u { is_blocked = true; updated_at = now }

unfoldable pub unblock : ℕ → User → User
unblock now u = record u { is_blocked = false; updated_at = now }

unfoldable pub rename : String → ℕ → User → User
rename username now u = record u { username = username; updated_at = now }

unfoldable pub change_role : Role → ℕ → User → User
change_role role now u = record u { role = role; updated_at = now }
