-- ===== src/Accounts/Tests.antt =====
-- Runs of the use cases on users and sessions, and the theorems at concrete inputs.
-- Code: apps/api/src/modules/users, auth and admin
use elonew.Accounts.User.{block, change_role}
use elonew.Base.{true, false, [], ◌∷◌, none, some, ◌≡◌, refl, arith, eq_iff, lookup}
use elonew.Common.Errors.{
  wallet_order_completion_already_released, ok, err, is_ok, auth_user_inactive,
  auth_refresh_token_invalid, auth_refresh_token_revoked, user_email_confirmation_token_invalid,
  invalid_access_token,
}
use elonew.Tickets.Entity.{client, booster}
use elonew.Accounts.User.{User}
use elonew.Accounts.Store.{Accounts, AuthSession, find_row}
use elonew.Accounts.Columns.{IsUnique}
use elonew.Accounts.AccessToken.{Codec, AccessTokenPayload, to_parsed, sign, verify}
use elonew.Accounts.UseCases.{
  Services, sign_up, confirm_email_with, login, refresh_session, logout, authenticate,
}
use elonew.Accounts.Governance.{block_admin_user, update_admin_user}
use elonew.Accounts.Sessions.{IsCodec, issued, sign_round_trip}
use elonew.Accounts.Rotation.{IsSessions, refresh_rotates}
use elonew.Accounts.Onboarding.{user_id, user_email, onboarding}
use elonew.Base.Int.{◌+ℤ◌}
use elonew.Orders.Repository.{map_order_from_record, map_extras_from_record}
use elonew.Orders.Status.{completed}
use elonew.Payments.Status.{awaiting_confirmation}
use elonew.Platform.Samples.{row, world}
use elonew.Platform.World.{World}
use elonew.Wallet.Entity.{
  Wallet, force_release_order_completion_funds, find_order_completion_credit, release_credits,
  release_loop, is_releasable, release_amount, subtract_cents, add_cents,
}
use elonew.Money.Amount.{from_cents, subtract, add}
use elonew.Wallet.Tests.{bobs, bobs-IsBalanced}
use elonew.Wallet.UseCases.{skipped, already_released, release_matured_wallet_funds, force_release}
use elonew.Accounts.Interventions.{release_admin_order_booster_payment}
use elonew.Accounts.Payout.{payout_once}
use elonew.Accounts.Access.{block_locks_out, role_change_takes_effect}

abbrev payload : AccessTokenPayload
payload = issued 15 "u1" client 1000000

-- Stand-ins for the digests and the encodings.
abbrev codec : Codec
codec = record {
  mac = λ s. "digest";
  to_base64url = λ s. s;
  from_base64url = λ s. s;
  print_json = λ p. "payload";
  parse_json = λ s. some (to_parsed payload);
  header = "header";
}

abbrev services : Services
services = record {
  normalize_email = λ s. s;
  trim = λ s. s;
  hash_password = λ s. "hashed";
  verify_password = λ p h. true;
  hash_confirmation = λ s. s;
  hash_refresh = λ s. s;
  codec = codec;
  access_token_ttl_minutes = 15;
  refresh_token_ttl_days = 7;
  email_confirmation_token_ttl_minutes = 60;
}

abbrev ann : User
ann = record {
  id = "u1";
  username = "ann";
  email = "ann@x.com";
  password_hash = some "hashed";
  role = client;
  is_active = true;
  is_blocked = false;
  email_confirmed_at = some 5;
  email_confirmation_token_hash = none;
  email_confirmation_token_expires_at = none;
  password_reset_token_hash = none;
  password_reset_token_expires_at = none;
  created_at = 1;
  updated_at = 5;
}

abbrev session : AuthSession
session = record {
  id = "s1";
  user_id = "u1";
  refresh_token_hash = "t1";
  expires_at = 5000000;
  revoked_at = none;
  last_used_at = none;
  created_at = 10;
  updated_at = 10;
}

abbrev accounts : Accounts
accounts = record {
  users = ("u1", ann) ∷ [];
  sessions = ("s1", session) ∷ [];
  actions = [];
  mails = [];
}

abbrev nobody : Accounts
nobody = record { users = []; sessions = []; actions = []; mails = [] }

codec-IsCodec : IsCodec codec payload
codec-IsCodec = record {
  decode = λ s. refl;
  header = ground (arith, eq_iff "header" "");
  payload = ground (arith, eq_iff "payload" "");
  digest = ground (arith, eq_iff "digest" "");
  parse = refl;
}

accounts-IsSessions : IsSessions accounts.sessions
unfolding IsUnique find_row lookup
accounts-IsSessions = (refl, refl, refl, tt)

accounts-IsUnique : IsUnique user_id user_email accounts.users
unfolding IsUnique find_row lookup
accounts-IsUnique = (refl, refl, refl, tt)

sign_round_trip_example :
    verify codec (sign codec 15 "u1" client 1000000).token 2000000 ≡ err invalid_access_token
sign_round_trip_example = sign_round_trip codec 15 "u1" client 1000000 2000000 codec-IsCodec

refresh_rotates_example :
    let a' = (refresh_session services "t2" "t1" 2000 accounts).1 in
    (refresh_session services "t3" "t1" 3000 a' ≡ (err auth_refresh_token_invalid, a'))
    × (logout services "t1" 3000 a' ≡ (err auth_refresh_token_invalid, a'))
    × (is_ok (refresh_session services "t3" "t2" 3000 a').0 ≡ true)
unfolding refresh_session find_row lookup
refresh_rotates_example =
    refresh_rotates services "t2" "t3" "t1" 2000 3000 accounts accounts-IsSessions refl
      (ground (arith, eq_iff "t2" "t1")) refl (omega arith)

onboarding_example :
    let a' = (sign_up services "u1" "mailed" true "ann" "ann@x.com" "secret" 100 nobody).1 in
    let a'' = (confirm_email_with services "mailed" 200 a').1 in
    (login services "s1" "t1" "ann@x.com" "secret" 200 a' ≡ (err auth_user_inactive, a'))
    × (is_ok (confirm_email_with services "mailed" 200 a').0 ≡ true)
    × (confirm_email_with services "mailed" 200 a''
        ≡ (err user_email_confirmation_token_invalid, a''))
    × (is_ok (login services "s1" "t1" "ann@x.com" "secret" 200 a'').0 ≡ true)
unfolding sign_up find_row
onboarding_example =
    onboarding services "u1" "mailed" true "ann" "ann@x.com" "secret" 100 200 "s1" "t1" nobody refl
      refl (ground (arith, eq_iff "hashed" "")) (omega arith)

block_locks_out_example :
    let a' = (block_admin_user services "root" "u1" "abuse" 2000 accounts).1 in
    (is_ok (authenticate services (sign codec 15 "u1" client 1000000).token 1000000 a').0 ≡ false)
    × (is_ok (refresh_session services "t2" "t1" 1000000 a').0 ≡ false)
    × (is_ok (login services "" "t2" "ann@x.com" "secret" 1000000 a').0 ≡ false)
unfolding lookup block_admin_user find_row block
block_locks_out_example =
    block_locks_out services "root" "abuse" "t2" "t1" "ann@x.com" "secret"
      (sign codec 15 "u1" client 1000000).token 2000 1000000 accounts {u = ann} refl
      accounts-IsUnique refl (sign_round_trip codec 15 "u1" client 1000000 1000000 codec-IsCodec)
      refl refl refl

role_change_takes_effect_example :
    let a' = (update_admin_user services "root" "u1" none (some booster) 2000 accounts).1 in
    ((authenticate services (sign codec 15 "u1" client 1000000).token 1000000 a').0
      ≡ ok ("u1", booster))
    × (refresh_session services "t2" "t1" 1000000 a' ≡ (err auth_refresh_token_revoked, a'))
unfolding lookup update_admin_user find_row change_role
role_change_takes_effect_example =
    role_change_takes_effect services "root" "t2" "t1" (sign codec 15 "u1" client 1000000).token
      booster client 2000 1000000 accounts {u = ann} refl refl refl refl refl
      (sign_round_trip codec 15 "u1" client 1000000 1000000 codec-IsCodec) refl refl

-- A completed order whose booster's earnings are still locked.
abbrev ledger : World
ledger = record (world (row completed (some "bob") none) awaiting_confirmation) {
  wallets = ("bob", bobs) ∷ [];
}

ledger_pays : (release_admin_order_booster_payment services "root" "o1" "asked" 12 ledger).0 ≡ ok tt
unfolding release_admin_order_booster_payment force_release lookup map_order_from_record
    map_extras_from_record force_release_order_completion_funds find_order_completion_credit
    release_credits release_loop is_releasable release_amount subtract_cents from_cents subtract
    elonew.Base.Int.◌-ℤ◌ add_cents add ◌+ℤ◌
ledger_pays = refl

payout_once_example :
    let w' = (release_admin_order_booster_payment services "root" "o1" "asked" 12 ledger).1 in
    (completed ≡ completed)
    × ((o : Wallet) × (lookup "bob" w'.wallets ≡ some o)
        × (o.balance_locked +ℤ o.balance_withdrawable
            ≡ bobs.balance_locked +ℤ bobs.balance_withdrawable))
    × (release_admin_order_booster_payment services "boss" "o1" "again" 20 w'
        ≡ (err wallet_order_completion_already_released, w'))
    × (release_matured_wallet_funds "bob" "o1" 20 w' ≡ (ok (skipped already_released), w'))
unfolding lookup
payout_once_example =
    payout_once services "root" "boss" "asked" "again" 12 20 ledger refl refl refl bobs-IsBalanced
      ledger_pays refl
