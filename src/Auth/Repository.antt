-- ===== src/Auth/Repository.antt =====
-- `AuthRepository` (backend/src/modules/auth/auth.repository.ts) over the calls of the Prisma client
-- that it makes, as the repository that the service is built over. `now` is the value of
-- `new Date()`; where a method takes a date of its caller, that is its last argument.
pub mod Tables
pub mod Ends
pub mod Life
pub mod Marks
pub mod Consumed
pub mod Once
mod Tests
use split_bill_app.Prelude.{ℕ, Option, none, some, is_some, Bool, true, false, not, ◌&&◌, ◌==◌}
use split_bill_app.Effects.{Result, ok, err, Action, pure, ◌>>=◌, ◌>>◌}
use split_bill_app.Records.{SafeUser}
use split_bill_app.Database.{Transactions, reading}
use split_bill_app.Auth.{
  User, AuthTokenRecord, AuthTokenPurpose, same_purpose, email_verification, CreateRefreshTokenData,
  CreateAuthTokenData, CreateUserWithAuthData, UserUpdate, AuthRepository,
}
use Tables.{AuthClient, CreateUserData, SessionRow}

abbrev pub to_auth_token : AuthTokenRecord → AuthTokenRecord
to_auth_token stored = record {
  id = stored.id;
  user_id = stored.user_id;
  purpose = stored.purpose;
  token_hash = stored.token_hash;
  expires_at = stored.expires_at;
  consumed_at = stored.consumed_at;
}

abbrev pub found_token : Result (Option AuthTokenRecord) → Result (Option AuthTokenRecord)
found_token (ok none) = ok none
found_token (ok (some stored)) = ok (some (to_auth_token stored))
found_token (err e) = err e

abbrev pub to_auth_user : User → SafeUser
to_auth_user user = record { id = user.id; name = user.name; email = user.email }

-- The `where` of the calls that take one.
abbrev pub is_live_session : ℕ → SessionRow → Bool
is_live_session id t = t.id == id && not (is_some t.revoked_at)

abbrev pub is_live_session_of : ℕ → SessionRow → Bool
is_live_session_of user_id t = t.user_id == user_id && not (is_some t.revoked_at)

abbrev pub is_unused_token : ℕ → AuthTokenRecord → Bool
is_unused_token id t = t.id == id && not (is_some t.consumed_at)

abbrev pub is_token_for : ℕ → AuthTokenPurpose → AuthTokenRecord → Bool
is_token_for user_id purpose t = t.user_id == user_id && same_purpose t.purpose purpose

-- What follows the count of the rows changed: 0 makes the callback return null.
abbrev pub unless_none : {Db A : Type 0} → ℕ → A → Action Db A → Action Db A
unless_none count nothing rest = elim (count == 0) [ true ↦ pure nothing | false ↦ rest ]

module _ {Db : Type 0} (client : AuthClient Db) (transactions : Transactions Db) (now : ℕ) where
  open client use {
    find_user_by_email, find_user, find_user_or_throw, create_user_row, update_user_row,
    set_email_verified, set_password_hash, find_refresh_token, create_refresh_token_row,
    revoke_sessions, find_auth_token, create_auth_token_row, delete_auth_tokens,
    consume_auth_tokens,
  }
  open transactions use {transaction}

  abbrev pub create : CreateUserData → Action Db SafeUser
  create d = do user ← create_user_row d; pure (to_auth_user user)

  abbrev pub update_found : ℕ → UserUpdate → Option User → Action Db (Option SafeUser)
  update_found id d none = pure none
  update_found id d (some existing) = do
    user ← update_user_row id d
    pure (some (to_auth_user user))

  unfoldable pub update : ℕ → UserUpdate → Action Db (Option SafeUser)
  update id d = do existing ← reading (find_user id); update_found id d existing

  unfoldable pub revoke_refresh_token_by_id : ℕ → Action Db (Unit {0})
  revoke_refresh_token_by_id id = do revoked ← revoke_sessions (is_live_session id) now; pure tt

  -- The callbacks of the transactions.
  unfoldable pub rotating : ℕ → CreateRefreshTokenData → Action Db Bool
  rotating old_id d = do
    revoked ← revoke_sessions (is_live_session old_id) now
    unless_none revoked false (create_refresh_token_row d >> pure true)

  unfoldable pub registering : CreateUserWithAuthData → Action Db SafeUser
  registering d = do
    user ←
        create_user_row (record { name = d.name; email = d.email; password_hash = d.password_hash })
    create_refresh_token_row (record {
      user_id = user.id;
      token_hash = d.refresh_token_hash;
      expires_at = d.refresh_token_expires_at;
    })
    verification ← create_auth_token_row (record {
      user_id = user.id;
      purpose = email_verification;
      token_hash = d.verification_token_hash;
      expires_at = d.verification_token_expires_at;
    })
    pure (to_auth_user user)

  unfoldable pub reissuing : CreateAuthTokenData → Action Db AuthTokenRecord
  reissuing d = do
    deleted ← delete_auth_tokens (is_token_for d.user_id d.purpose)
    created ← create_auth_token_row d
    pure (to_auth_token created)

  unfoldable pub verifying : ℕ → ℕ → ℕ → Action Db Bool
  verifying token_id user_id at = do
    consumed ← consume_auth_tokens (is_unused_token token_id) at
    unless_none consumed false (set_email_verified user_id at >> pure true)

  abbrev pub ending_sessions : ℕ → ℕ → Action Db Bool
  ending_sessions user_id at = do
    revoked ← revoke_sessions (is_live_session_of user_id) at
    user ← reading (find_user_or_throw user_id)
    pure true

  abbrev pub replacing_password : ℕ → ℕ → ℕ → Action Db Bool
  replacing_password user_id password_hash at = do
    user_updated ← set_password_hash user_id password_hash
    unless_none user_updated false (ending_sessions user_id at)

  unfoldable pub resetting : ℕ → ℕ → ℕ → ℕ → Action Db Bool
  resetting token_id user_id password_hash at = do
    consumed ← consume_auth_tokens (is_unused_token token_id) at
    unless_none consumed false (replacing_password user_id password_hash at)

  abbrev pub auth_repository : AuthRepository Db
  auth_repository = record {
    find_by_email = find_user_by_email;
    find_by_id = find_user;
    create_user_with_auth_data = λ d. transaction (registering d);
    update = update;
    create_refresh_token = create_refresh_token_row;
    find_refresh_token_by_hash = find_refresh_token;
    rotate_refresh_token = λ id d. transaction (rotating id d);
    revoke_refresh_token_by_id = revoke_refresh_token_by_id;
    create_auth_token = λ d. transaction (reissuing d) >> pure tt;
    find_auth_token_by_hash = λ hash db. found_token (find_auth_token hash db);
    consume_verification_token_and_verify_user = λ t u at. transaction (verifying t u at);
    consume_password_reset_token_and_update_password =
        λ t u hash at. transaction (resetting t u hash at);
  }
