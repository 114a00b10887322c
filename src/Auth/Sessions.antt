-- ===== src/Auth/Sessions.antt =====
-- Registration, login and the rotation of refresh tokens (`AuthService`). The raw tokens that the
-- methods generate are arguments.
use split_bill_app.Prelude.{
  ℕ, Option, none, some, String, Bool, true, false, not, leb, is_some, ◌&&◌, ◌||◌,
}
use split_bill_app.Errors.{
  app, conflict_error, unauthorized_error, not_found_error, email_in_use, invalid_credentials,
  refresh_token_invalid, user_not_found,
}
use split_bill_app.Effects.{
  Result, ok, err, Action, pure, throw, lift, or_throw, require, ◌>>=◌, ◌>>◌, World, query, command,
  increment, users_registered_total,
}
use split_bill_app.Records.{SafeUser}
use split_bill_app.Auth.{
  User, RefreshTokenRecord, CreateRefreshTokenData, AuthRepository, Crypto, EmailService,
  AuthConfig, AuthResult, refresh_token_expiry, verification_token_expiry, best_effort,
}
pub mod Laws

abbrev pub is_active : ℕ → RefreshTokenRecord → Bool
is_active now token = not (is_some token.revoked_at || leb token.expires_at now)

-- The record, if it is there, not revoked and not expired.
abbrev pub active : ℕ → Option RefreshTokenRecord → Result RefreshTokenRecord
active now none = err (app (unauthorized_error refresh_token_invalid))
active now (some token) = elim (is_active now token) [
  | true ↦ ok token
  | false ↦ err (app (unauthorized_error refresh_token_invalid))
]

-- The user with the hash of the password; both may be missing.
abbrev pub with_password : Option User → Result (User × ℕ)
with_password none = err (app (unauthorized_error invalid_credentials))
with_password (some user) = elim user.password_hash [
  | none ↦ err (app (unauthorized_error invalid_credentials))
  | some password_hash ↦ ok (user, password_hash)
]

module _ {Db : Type 0} (repository : AuthRepository Db) (crypto : Crypto) (emails : EmailService Db)
    (config : AuthConfig) (now : ℕ) where
  open repository use {
    find_by_email, find_by_id, create_user_with_auth_data, create_refresh_token,
    find_refresh_token_by_hash, rotate_refresh_token, revoke_refresh_token_by_id,
  }
  open crypto use {bcrypt_hash, bcrypt_compare, hash_token, sign_token}

  abbrev pub token_data : ℕ → ℕ → CreateRefreshTokenData
  token_data user_id raw_token = record {
    user_id = user_id;
    token_hash = hash_token raw_token;
    expires_at = refresh_token_expiry config now;
  }

  abbrev pub auth_result : SafeUser → ℕ → AuthResult
  auth_result user raw_token = record {
    user = user;
    token = sign_token user.id user.email;
    refresh_token = raw_token;
  }

  unfoldable pub register :
      (name email : String) (salt password refresh_token verification_token : ℕ)
      → Action (World Db) AuthResult
  register name email salt password refresh_token verification_token = do
    existing ← query (find_by_email email)
    require (not (is_some existing)) (app (conflict_error email_in_use))
    user ← command (
        create_user_with_auth_data (record {
          name = name;
          email = email;
          password_hash = bcrypt_hash salt password;
          refresh_token_hash = hash_token refresh_token;
          refresh_token_expires_at = refresh_token_expiry config now;
          verification_token_hash = hash_token verification_token;
          verification_token_expires_at = verification_token_expiry config now;
        }))
    increment users_registered_total
    best_effort (emails.send_verification_email user verification_token)
    pure (auth_result user refresh_token)

  unfoldable pub login :
      (email : String) (password refresh_token : ℕ) → Action (World Db) AuthResult
  login email password refresh_token = do
    found ← query (find_by_email email)
    known ← lift (with_password found)
    require (bcrypt_compare password known.1) (app (unauthorized_error invalid_credentials))
    command (create_refresh_token (token_data known.0.id refresh_token))
    pure (auth_result known.0.safe refresh_token)

  unfoldable pub refresh : (refresh_token next_token : ℕ) → Action (World Db) AuthResult
  refresh refresh_token next_token = do
    found ← query (find_refresh_token_by_hash (hash_token refresh_token))
    token ← lift (active now found)
    rotated ← command (rotate_refresh_token token.id (token_data token.user_id next_token))
    require rotated (app (unauthorized_error refresh_token_invalid))
    pure (auth_result token.user next_token)

  abbrev pub revoke_found : Option RefreshTokenRecord → Action (World Db) (Unit {0})
  revoke_found none = pure tt
  revoke_found (some token) = command (revoke_refresh_token_by_id token.id)

  unfoldable pub logout : ℕ → Action (World Db) (Unit {0})
  logout refresh_token = do
    found ← query (find_refresh_token_by_hash (hash_token refresh_token))
    revoke_found found

  unfoldable pub get_me : ℕ → Action (World Db) SafeUser
  get_me user_id = do
    found ← query (find_by_id user_id)
    user ← or_throw found (app (not_found_error user_not_found))
    pure user.safe
