-- ===== src/Auth/Tokens.antt =====
-- The tokens that are sent by email (`AuthService`): verifying an address and resetting a password,
-- and the change of an address. The raw tokens that the methods generate are arguments.
use split_bill_app.Prelude.{
  ℕ, Option, none, some, String, Bool, true, false, not, leb, ◌==◌, is_some, ◌&&◌, if◌then◌else◌,
}
use split_bill_app.Errors.{
  Code, app, conflict_error, unauthorized_error, not_found_error, email_in_use, user_not_found,
  verification_token_invalid, verification_token_used, verification_token_expired,
  reset_token_invalid, reset_token_used, reset_token_expired,
}
use split_bill_app.Effects.{
  Result, ok, err, Action, pure, lift, or_throw, require, ◌>>=◌, ◌>>◌, World, query, command,
}
use split_bill_app.Records.{SafeUser}
use split_bill_app.Auth.{
  User, AuthTokenPurpose, email_verification, password_reset, same_purpose, AuthTokenRecord,
  AuthRepository, Crypto, EmailService, AuthConfig, verification_token_expiry,
  password_reset_token_expiry, best_effort,
}
pub mod Laws

-- The three tests of a presented token, with the errors for their failures.
abbrev pub usable :
    AuthTokenPurpose
    → (invalid used expired : Code) → ℕ
    → Option AuthTokenRecord
    → Result AuthTokenRecord
usable purpose invalid used expired now none = err (app (unauthorized_error invalid))
usable purpose invalid used expired now (some token) =
    if not (same_purpose token.purpose purpose)
    then err (app (unauthorized_error invalid))
    else if is_some token.consumed_at
    then err (app (unauthorized_error used))
    else if leb token.expires_at now
    then err (app (unauthorized_error expired))
    else ok token

-- Is the address taken by another user?
abbrev pub taken_by_other : ℕ → Option User → Bool
taken_by_other user_id none = false
taken_by_other user_id (some user) = not (user.id == user_id)

module _ {Db : Type 0} (repository : AuthRepository Db) (crypto : Crypto) (emails : EmailService Db)
    (config : AuthConfig) (now : ℕ) where
  open repository use {
    find_by_email, create_auth_token, find_auth_token_by_hash,
    consume_verification_token_and_verify_user, consume_password_reset_token_and_update_password,
  }
  open crypto use {bcrypt_hash, hash_token}

  unfoldable pub verify_email_address : ℕ → Action (World Db) (Unit {0})
  verify_email_address token = do
    found ← query (find_auth_token_by_hash (hash_token token))
    stored ← lift (
        usable email_verification verification_token_invalid verification_token_used
          verification_token_expired now found)
    verified ← command (consume_verification_token_and_verify_user stored.id stored.user_id now)
    require verified (app (unauthorized_error verification_token_used))

  unfoldable pub reset_user_password : (token salt new_password : ℕ) → Action (World Db) (Unit {0})
  reset_user_password token salt new_password = do
    found ← query (find_auth_token_by_hash (hash_token token))
    stored ←
        lift
          (usable password_reset reset_token_invalid reset_token_used reset_token_expired now found)
    updated ← command (
        consume_password_reset_token_and_update_password stored.id stored.user_id
          (bcrypt_hash salt new_password) now)
    require updated (app (unauthorized_error reset_token_used))

  -- The branch of a known address; an unknown one only spends time.
  abbrev pub send_reset : ℕ → Option User → Action (World Db) (Unit {0})
  send_reset token none = pure tt
  send_reset token (some user) = do
    command (
        create_auth_token (record {
          user_id = user.id;
          purpose = password_reset;
          token_hash = hash_token token;
          expires_at = password_reset_token_expiry config now;
        }))
    best_effort (emails.send_password_reset_email user.safe token)

  -- The answer is one fixed text, whoever asks.
  unfoldable pub request_password_reset : String → ℕ → Action (World Db) (Unit {0})
  request_password_reset email token = do
    found ← query (find_by_email email)
    send_reset token found

  abbrev pub send_verification : ℕ → Option User → Action (World Db) (Unit {0})
  send_verification token none = pure tt
  send_verification token (some user) = elim user.email_verified_at [
    | some verified_at ↦ pure tt
    | none ↦
        command (
          create_auth_token (record {
            user_id = user.id;
            purpose = email_verification;
            token_hash = hash_token token;
            expires_at = verification_token_expiry config now;
          }))
        >> best_effort (emails.send_verification_email user.safe token)
  ]

  unfoldable pub resend_verification : String → ℕ → Action (World Db) (Unit {0})
  resend_verification email token = do
    found ← query (find_by_email email)
    send_verification token found
