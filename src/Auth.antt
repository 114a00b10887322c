-- ===== src/Auth.antt =====
-- backend/src/modules/auth: the data of accounts, sessions and tokens, the repository and the
-- services outside of the program that `AuthService` (auth.service.ts) is built over.
pub mod Repository
pub mod Profile
pub mod Sessions
pub mod Tokens
mod Tests
use split_bill_app.Prelude.{ℕ, ◌+◌, ◌*◌, Option, String, Bool, true, false}
use split_bill_app.Effects.{Result, ok, Action, World}
use split_bill_app.Records.{SafeUser}

pub record User : Type 0 where
  pub safe : SafeUser
  pub open safe use *
  pub password_hash : Option ℕ
  pub email_verified_at : Option ℕ

pub data AuthTokenPurpose : Type 0 where
  email_verification password_reset : AuthTokenPurpose

abbrev pub same_purpose : AuthTokenPurpose → AuthTokenPurpose → Bool
same_purpose email_verification email_verification = true
same_purpose password_reset password_reset = true
same_purpose a b = false

pub record CreateRefreshTokenData : Type 0 where
  pub user_id : ℕ
  pub token_hash : ℕ
  pub expires_at : ℕ

pub record RefreshTokenRecord : Type 0 where
  pub id : ℕ
  pub user_id : ℕ
  pub token_hash : ℕ
  pub expires_at : ℕ
  pub revoked_at : Option ℕ
  pub user : SafeUser

pub record AuthTokenRecord : Type 0 where
  pub id : ℕ
  pub user_id : ℕ
  pub purpose : AuthTokenPurpose
  pub token_hash : ℕ
  pub expires_at : ℕ
  pub consumed_at : Option ℕ

pub record CreateAuthTokenData : Type 0 where
  pub user_id : ℕ
  pub purpose : AuthTokenPurpose
  pub token_hash : ℕ
  pub expires_at : ℕ

pub record CreateUserWithAuthData : Type 0 where
  pub name : String
  pub email : String
  pub password_hash : ℕ
  pub refresh_token_hash : ℕ
  pub refresh_token_expires_at : ℕ
  pub verification_token_hash : ℕ
  pub verification_token_expires_at : ℕ

-- A field that is `none` is left alone; `clear_verification` is `emailVerifiedAt: null`.
pub record UserUpdate : Type 0 where
  pub name : Option String
  pub email : Option String
  pub clear_verification : Bool

-- `AuthRepository`. A nullable result of which the service only tests whether it is null is a Bool.
pub record AuthRepository (Db : Type 0) : Type 0 where
  pub find_by_email : String → Db → Result (Option User)
  pub find_by_id : ℕ → Db → Result (Option User)
  pub create_user_with_auth_data : CreateUserWithAuthData → Db → Result SafeUser × Db
  pub update : ℕ → UserUpdate → Db → Result (Option SafeUser) × Db
  pub create_refresh_token : CreateRefreshTokenData → Db → Result (Unit {0}) × Db
  pub find_refresh_token_by_hash : ℕ → Db → Result (Option RefreshTokenRecord)
  pub rotate_refresh_token : ℕ → CreateRefreshTokenData → Db → Result Bool × Db
  pub revoke_refresh_token_by_id : ℕ → Db → Result (Unit {0}) × Db
  pub create_auth_token : CreateAuthTokenData → Db → Result (Unit {0}) × Db
  pub find_auth_token_by_hash : ℕ → Db → Result (Option AuthTokenRecord)
  pub consume_verification_token_and_verify_user : ℕ → ℕ → ℕ → Db → Result Bool × Db
  pub consume_password_reset_token_and_update_password : ℕ → ℕ → ℕ → ℕ → Db → Result Bool × Db

-- bcrypt, the SHA-256 of tokens and the signature of a JWT. A password, a token and a hash is a
-- number. `bcrypt_hash` has the salt of its call for its first argument.
pub record Crypto : Type 0 where
  pub bcrypt_hash : ℕ → ℕ → ℕ
  pub bcrypt_compare : ℕ → ℕ → Bool
  pub hash_token : ℕ → ℕ
  pub sign_token : ℕ → String → ℕ

-- `EmailService`: what it does to the store and to the counters, and it may throw.
pub record EmailService (Db : Type 0) : Type 0 where
  pub send_verification_email : SafeUser → ℕ → Action (World Db) (Unit {0})
  pub send_password_reset_email : SafeUser → ℕ → Action (World Db) (Unit {0})

pub record AuthConfig : Type 0 where
  pub refresh_token_ttl_days : ℕ
  pub email_verification_token_ttl_minutes : ℕ
  pub password_reset_token_ttl_minutes : ℕ

pub record AuthResult : Type 0 where
  pub user : SafeUser
  pub token : ℕ
  pub refresh_token : ℕ

abbrev pub refresh_token_expiry : AuthConfig → ℕ → ℕ
refresh_token_expiry config now = now + config.refresh_token_ttl_days * (24 * 60 * 60 * 1000)

abbrev pub verification_token_expiry : AuthConfig → ℕ → ℕ
verification_token_expiry config now =
    now + config.email_verification_token_ttl_minutes * (60 * 1000)

abbrev pub password_reset_token_expiry : AuthConfig → ℕ → ℕ
password_reset_token_expiry config now = now + config.password_reset_token_ttl_minutes * (60 * 1000)

-- `try { … } catch { … }` about an email: a failed delivery is only logged.
abbrev pub best_effort : {Db : Type 0} → Action (World Db) (Unit {0}) → Action (World Db) (Unit {0})
best_effort send w = (ok tt, (send w).1)
