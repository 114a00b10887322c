-- ===== src/Auth/Tests.antt =====
-- Sessions and tokens on a small repository.
use split_bill_app.Prelude.{ℕ, suc, ◌+◌, ◌≡◌, refl, [], none, some, true, ◌==◌}
use split_bill_app.Errors.{infrastructure}
use split_bill_app.Effects.{ok, World, throw}
use split_bill_app.Records.{SafeUser}
use split_bill_app.Auth.{
  User, password_reset, RefreshTokenRecord, AuthTokenRecord, AuthRepository, Crypto, EmailService,
  AuthConfig, AuthResult,
}
use split_bill_app.Auth.Sessions.{refresh}
use split_bill_app.Auth.Sessions.Laws.{Refreshed, refresh-Refreshed}
use split_bill_app.Auth.Profile.{
  ProfileInput, update_current_user, ProfileUpdated, update_current_user-ProfileUpdated,
}
use split_bill_app.Auth.Tokens.{reset_user_password}
use split_bill_app.Auth.Tokens.Laws.{PasswordReset, reset_user_password-PasswordReset}

abbrev anna : SafeUser
anna = record { id = 2; name = "Anna"; email = "anna@example.org" }

abbrev account : User
account = record { safe = anna; password_hash = some 77; email_verified_at = none }

abbrev session : RefreshTokenRecord
session = record {
  id = 5;
  user_id = 2;
  token_hash = 11;
  expires_at = 500;
  revoked_at = none;
  user = anna;
}

abbrev reset_token : AuthTokenRecord
reset_token = record {
  id = 6;
  user_id = 2;
  purpose = password_reset;
  token_hash = 11;
  expires_at = 500;
  consumed_at = none;
}

-- The store counts the writes.
abbrev small : AuthRepository ℕ
small = record {
  find_by_email = λ email db. ok (some account);
  find_by_id = λ id db. ok (some account);
  create_user_with_auth_data = λ d db. (ok anna, suc db);
  update = λ id d db. (ok (some anna), suc db);
  create_refresh_token = λ d db. (ok tt, suc db);
  find_refresh_token_by_hash = λ h db. ok (some session);
  rotate_refresh_token = λ id d db. (ok true, suc db);
  revoke_refresh_token_by_id = λ id db. (ok tt, suc db);
  create_auth_token = λ d db. (ok tt, suc db);
  find_auth_token_by_hash = λ h db. ok (some reset_token);
  consume_verification_token_and_verify_user = λ id u now db. (ok true, suc db);
  consume_password_reset_token_and_update_password = λ id u h now db. (ok true, suc db);
}

abbrev crypto : Crypto
crypto = record {
  bcrypt_hash = λ salt password. salt + password;
  bcrypt_compare = λ password hash. password == hash;
  hash_token = λ token. token + 1;
  sign_token = λ id email. id;
}

-- No email can be delivered.
abbrev no_mail : EmailService ℕ
no_mail = record {
  send_verification_email = λ user token. throw (infrastructure 0);
  send_password_reset_email = λ user token. throw (infrastructure 0);
}

abbrev config : AuthConfig
config = record {
  refresh_token_ttl_days = 30;
  email_verification_token_ttl_minutes = 60;
  password_reset_token_ttl_minutes = 30;
}

abbrev at_writes : ℕ → World ℕ
at_writes n = record { db = n; metrics = [] }

abbrev answer : AuthResult
answer = record { user = anna; token = 2; refresh_token = 20 }

refreshed : refresh small crypto no_mail config 100 10 20 (at_writes 0) ≡ (ok answer, at_writes 1)
unfolding refresh
refreshed = refl

refresh-Refreshed_example :
    Refreshed small crypto no_mail config 100 10 20 (at_writes 0) answer (at_writes 1)
refresh-Refreshed_example =
    refresh-Refreshed small crypto no_mail config 100 10 20 (at_writes 0) answer (at_writes 1)
      refreshed

password_changed :
    reset_user_password small crypto no_mail config 100 10 3 4 (at_writes 0) ≡ (ok tt, at_writes 1)
unfolding reset_user_password
password_changed = refl

reset_user_password-PasswordReset_example :
    PasswordReset small crypto no_mail config 100 10 3 4 (at_writes 0) (at_writes 1)
reset_user_password-PasswordReset_example =
    reset_user_password-PasswordReset small crypto no_mail config 100 10 3 4 (at_writes 0)
      (at_writes 1) password_changed

abbrev new_address : ProfileInput
new_address = record { name = none; email = some "anna@new.example.org" }

address_changed :
    update_current_user small (λ text. text) 2 new_address (at_writes 0) ≡ (ok anna, at_writes 1)
unfolding update_current_user
address_changed = refl

update_current_user-ProfileUpdated_example :
    ProfileUpdated small (λ text. text) 2 new_address (at_writes 0) anna (at_writes 1)
update_current_user-ProfileUpdated_example =
    update_current_user-ProfileUpdated small (λ text. text) 2 new_address (at_writes 0) anna
      (at_writes 1) address_changed
