-- ===== src/Auth/Repository/Tables.antt =====
-- The Prisma client as far as backend/src/modules/auth/auth.repository.ts uses it: a parameter, with
-- what Prisma and PostgreSQL document of these calls.
use split_bill_app.Prelude.{
  ℕ, ◌≡◌, ◌≢◌, Option, none, some, String, Bool, true, false, ◌||◌, ◌==◌, if◌then◌else◌,
}
use mathlib.Core.Option
use split_bill_app.Effects.{Result, ok, Action}
use split_bill_app.Effects.Inversion.{RollsBack}
use split_bill_app.Auth.{
  User, CreateRefreshTokenData, RefreshTokenRecord, AuthTokenRecord, CreateAuthTokenData,
  UserUpdate,
}

pub record CreateUserData : Type 0 where
  pub name : String
  pub email : String
  pub password_hash : ℕ

-- A row of the sessions, without the user that `include` joins to it.
pub record SessionRow : Type 0 where
  pub id : ℕ
  pub user_id : ℕ
  pub token_hash : ℕ
  pub expires_at : ℕ
  pub revoked_at : Option ℕ

abbrev pub row_of : RefreshTokenRecord → SessionRow
row_of t = record {
  id = t.id;
  user_id = t.user_id;
  token_hash = t.token_hash;
  expires_at = t.expires_at;
  revoked_at = t.revoked_at;
}

-- An `updateMany` and a `deleteMany` are given their `where` as a test of a row, and return the
-- number of rows that passed it.
pub record AuthClient (Db : Type 0) : Type 0 where
  pub find_user_by_email : String → Db → Result (Option User)
  pub find_user : ℕ → Db → Result (Option User)
  pub find_user_or_throw : ℕ → Db → Result User
  pub create_user_row : CreateUserData → Action Db User
  pub update_user_row : ℕ → UserUpdate → Action Db User
  pub set_email_verified : ℕ → ℕ → Action Db User
  pub set_password_hash : ℕ → ℕ → Action Db ℕ
  -- with `include: { user }`
  pub find_refresh_token : ℕ → Db → Result (Option RefreshTokenRecord)
  pub create_refresh_token_row : CreateRefreshTokenData → Action Db (Unit {0})
  -- `refreshToken.updateMany({ where, data: { revokedAt } })`
  pub revoke_sessions : (SessionRow → Bool) → (revoked_at : ℕ) → Action Db ℕ
  pub find_auth_token : ℕ → Db → Result (Option AuthTokenRecord)
  pub create_auth_token_row : CreateAuthTokenData → Action Db AuthTokenRecord
  -- `authToken.deleteMany({ where })`
  pub delete_auth_tokens : (AuthTokenRecord → Bool) → Action Db ℕ
  -- `authToken.updateMany({ where, data: { consumedAt } })`
  pub consume_auth_tokens : (AuthTokenRecord → Bool) → (consumed_at : ℕ) → Action Db ℕ
  -- The rows of a state by id, and the ids that the tables have given out so far.
  pub session_of : ℕ → Db → Option SessionRow
  pub token_of : ℕ → Db → Option AuthTokenRecord
  pub given : ℕ → Db → Bool

-- What the `updateMany` and the `deleteMany` do to a row.
abbrev pub revoked_if : (SessionRow → Bool) → ℕ → SessionRow → SessionRow
revoked_if hit now t = if hit t then record t { revoked_at = some now } else t

abbrev pub consumed_if : (AuthTokenRecord → Bool) → ℕ → AuthTokenRecord → AuthTokenRecord
consumed_if hit now t = if hit t then record t { consumed_at = some now } else t

abbrev pub dropped_if : (AuthTokenRecord → Bool) → Option AuthTokenRecord → Option AuthTokenRecord
dropped_if hit none = none
dropped_if hit (some t) = if hit t then none else some t

module _ {Db : Type 0} (client : AuthClient Db) where
  open client use {
    create_user_row, update_user_row, set_email_verified, set_password_hash, find_refresh_token,
    create_refresh_token_row, revoke_sessions, create_auth_token_row, delete_auth_tokens,
    consume_auth_tokens, session_of, token_of, given,
  }

  pub record SameSessions (db db' : Db) : Type 0 where
    pub same : (id : ℕ) → session_of id db' ≡ session_of id db

  pub record SameTokens (db db' : Db) : Type 0 where
    pub same : (id : ℕ) → token_of id db' ≡ token_of id db
    pub same_given : (id : ℕ) → given id db' ≡ given id db

  pub record AuthRules : Type 0 where
    -- A session is read as its row, with the user of the moment; a row has its id as the key, and a
    -- hash of its own.
    pub session_read :
        (hash : ℕ) (t : RefreshTokenRecord) (db : Db)
        → find_refresh_token hash db ≡ ok (some t)
        → (session_of t.id db ≡ some (row_of t)) × (t.token_hash ≡ hash)
    pub session_keyed : (id : ℕ) (t : SessionRow) (db : Db) → session_of id db ≡ some t → t.id ≡ id
    pub unique_hash :
        (i j : ℕ) (a b : SessionRow) (db : Db)
        → session_of i db ≡ some a
        → session_of j db ≡ some b
        → a.token_hash ≡ b.token_hash
        → i ≡ j
    -- A token has its id as the key, which was given out.
    pub token_keyed :
        (id : ℕ) (t : AuthTokenRecord) (db : Db)
        → token_of id db ≡ some t
        → (t.id ≡ id) × (given id db ≡ true)
    -- The rows of the sessions and the tokens are not those of the users.
    pub user_created :
        (d : CreateUserData) (u : User) (db db' : Db)
        → create_user_row d db ≡ (ok u, db')
        → SameSessions db db' × SameTokens db db'
    pub user_updated :
        (id : ℕ) (d : UserUpdate) (u : User) (db db' : Db)
        → update_user_row id d db ≡ (ok u, db')
        → SameSessions db db' × SameTokens db db'
    pub email_verified :
        (id now : ℕ) (u : User) (db db' : Db)
        → set_email_verified id now db ≡ (ok u, db')
        → SameSessions db db' × SameTokens db db'
    pub password_set :
        (id hash n : ℕ) (db db' : Db)
        → set_password_hash id hash db ≡ (ok n, db')
        → SameSessions db db' × SameTokens db db'
    -- A new row leaves the others as they are.
    pub session_created :
        (d : CreateRefreshTokenData) (db db' : Db)
        → create_refresh_token_row d db ≡ (ok tt, db')
        → ((id : ℕ) (t : SessionRow) → session_of id db ≡ some t → session_of id db' ≡ some t)
          × SameTokens db db'
    -- An `updateMany` changes the rows that pass its test, and a number that is not 0 means that
    -- there is one.
    pub sessions_revoked :
        (hit : SessionRow → Bool) (now n : ℕ) (db db' : Db)
        → revoke_sessions hit now db ≡ (ok n, db')
        → ((j : ℕ) → session_of j db' ≡ Option.map (revoked_if hit now) (session_of j db))
          × SameTokens db db'
    pub sessions_counted :
        (hit : SessionRow → Bool) (now n : ℕ) (db db' : Db)
        → revoke_sessions hit now db ≡ (ok n, db')
        → n ≢ 0
        → (j : ℕ) × (t : SessionRow) × (session_of j db ≡ some t) × (hit t ≡ true)
    -- The id of a new token was never given out before.
    pub token_created :
        (d : CreateAuthTokenData) (t : AuthTokenRecord) (db db' : Db)
        → create_auth_token_row d db ≡ (ok t, db')
        → (given t.id db ≡ false)
          × ((j : ℕ) → given j db' ≡ (j == t.id || given j db))
          × ((j : ℕ) → token_of j db' ≡ (if j == t.id then some t else token_of j db))
          × SameSessions db db'
    pub tokens_deleted :
        (hit : AuthTokenRecord → Bool) (n : ℕ) (db db' : Db)
        → delete_auth_tokens hit db ≡ (ok n, db')
        → ((j : ℕ) → token_of j db' ≡ dropped_if hit (token_of j db))
          × ((j : ℕ) → given j db' ≡ given j db)
          × SameSessions db db'
    pub tokens_consumed :
        (hit : AuthTokenRecord → Bool) (now n : ℕ) (db db' : Db)
        → consume_auth_tokens hit now db ≡ (ok n, db')
        → ((j : ℕ) → token_of j db' ≡ Option.map (consumed_if hit now) (token_of j db))
          × ((j : ℕ) → given j db' ≡ given j db)
          × SameSessions db db'
    pub tokens_counted :
        (hit : AuthTokenRecord → Bool) (now n : ℕ) (db db' : Db)
        → consume_auth_tokens hit now db ≡ (ok n, db')
        → n ≢ 0
        → (j : ℕ) × (t : AuthTokenRecord) × (token_of j db ≡ some t) × (hit t ≡ true)
    -- A single call that throws has written nothing.
    pub update_rolls_back : (id : ℕ) (d : UserUpdate) → RollsBack (update_user_row id d)
    pub session_rolls_back : (d : CreateRefreshTokenData) → RollsBack (create_refresh_token_row d)
    pub revoke_rolls_back :
        (hit : SessionRow → Bool) (now : ℕ) → RollsBack (revoke_sessions hit now)
