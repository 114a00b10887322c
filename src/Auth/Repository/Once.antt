-- ===== src/Auth/Repository/Once.antt =====
-- Rotations, verifications and resets work once, also through `AuthService`, whatever happens to the
-- accounts in between.
use split_bill_app.Prelude.{ℕ, ◌≡◌, sym, ◌∙◌, some, true, arith}
use split_bill_app.Effects.{ok, World}
use split_bill_app.Database.{Transactions, TransactionRules}
use split_bill_app.Auth.{
  RefreshTokenRecord, AuthTokenRecord, Crypto, EmailService, AuthConfig, AuthResult,
}
use split_bill_app.Auth.Sessions.{refresh}
use split_bill_app.Auth.Sessions.Laws.{refresh-Refreshed}
use split_bill_app.Auth.Tokens.{reset_user_password}
use split_bill_app.Auth.Tokens.Laws.{reset_user_password-PasswordReset}
use split_bill_app.Auth.Repository.Tables.{AuthClient, AuthRules, row_of}
use split_bill_app.Auth.Repository.{auth_repository}
use split_bill_app.Auth.Repository.Ends.{Ended}
use split_bill_app.Auth.Repository.Marks.{rotating-Ended}
use split_bill_app.Auth.Repository.Consumed.{
  resetting-AfterReset, Spent-not_reset, verifying-Spent, Spent-not_verified,
}
use split_bill_app.Auth.Repository.Life.{Reach, Reach-Keeps}

module _ {Db : Type 0} (client : AuthClient Db) (transactions : Transactions Db)
    (commits : TransactionRules transactions) (rules : AuthRules client) where
  -- If `consumeVerificationTokenAndVerifyUser` has verified a user with a token, then after any
  -- sequence of writes of the repository neither it nor a password reset succeeds with that token.
  -- It is assumed that a transaction commits or rolls back, and that the client has the rules of
  -- `AuthRules`.
  pub verification_once :
      (now now' token_id user_id user_id' hash at at' : ℕ) (db db' later end : Db)
      → (auth_repository client transactions now).consume_verification_token_and_verify_user
          token_id user_id at db
        ≡ (ok true, db')
      → Reach client transactions db' later
      → ¬ (
          (auth_repository client transactions now').consume_verification_token_and_verify_user
            token_id user_id' at' later
          ≡ (ok true, end))
        × ¬ (
            (auth_repository client transactions
                now').consume_password_reset_token_and_update_password
              token_id user_id' hash at' later
            ≡ (ok true, end))
  verification_once now now' t u u' hash at at' db db' later end h run =
      let spent =
        verifying-Spent client rules transactions now t u at db db'
          (commits.commits _ true db db' h) in
      let still = (Reach-Keeps client transactions commits rules run).spent t spent in
      (
        λ again.
            Spent-not_verified client rules transactions now' t u' at' later end still
              (commits.commits _ true later end again),
        λ again.
            Spent-not_reset client rules transactions now' t u' hash at' later end still
              (commits.commits _ true later end again),
      )

  -- If `consumePasswordResetTokenAndUpdatePassword` has succeeded with a token, then after any
  -- sequence of writes of the repository it does not succeed with that token again. The
  -- assumptions are those on transactions and on the client.
  pub reset_once :
      (now now' token_id user_id user_id' hash hash' at at' : ℕ) (db db' later end : Db)
      → (auth_repository client transactions now).consume_password_reset_token_and_update_password
          token_id user_id hash at db
        ≡ (ok true, db')
      → Reach client transactions db' later
      → ¬ (
          (auth_repository client transactions
              now').consume_password_reset_token_and_update_password
            token_id user_id' hash' at' later
          ≡ (ok true, end))
  reset_once now now' t u u' hash hash' at at' db db' later end h run again =
      let spent =
        (resetting-AfterReset client rules transactions now t u hash at db db'
          (commits.commits _ true db db' h)).spent in
      let still = (Reach-Keeps client transactions commits rules run).spent t spent in
      Spent-not_reset client rules transactions now' t u' hash' at' later end still
        (commits.commits _ true later end again)

  module _ (crypto : Crypto) (emails emails' : EmailService Db) (config config' : AuthConfig) where
    -- The token of a session that is over is refused.
    Ended-not_refreshed :
        (now raw next id hash : ℕ) (result : AuthResult) (w w' : World Db)
        → Ended client id hash w.db
        → hash ≡ crypto.hash_token raw
        → ¬ (
            refresh (auth_repository client transactions now) crypto emails' config' now raw next w
            ≡ (ok result, w'))
    Ended-not_refreshed now raw next id hash result w w' over same h =
        let r =
          refresh-Refreshed (auth_repository client transactions now) crypto emails' config' now raw
            next w result w' h in
        let (found, same_hash) = rules.session_read _ r.token w.db r.token_found in
        let same_id =
          rules.unique_hash id r.token.id over.row (row_of r.token) w.db over.found found
            (over.same_hash ∙ same ∙ sym same_hash) in
        over.revoked (ground (arith, over.found, r.not_revoked))

    -- If `refresh` has returned for a refresh token, then after any sequence of writes of the
    -- repository it does not return for the same raw token again, whatever token it is to hand out.
    -- The assumptions are those on transactions and on the client.
    pub refresh_once :
        (now now' raw next next' : ℕ) (result result' : AuthResult) (w w' later end : World Db)
        → refresh (auth_repository client transactions now) crypto emails config now raw next w
          ≡ (ok result, w')
        → Reach client transactions w'.db later.db
        → ¬ (
            refresh
              (auth_repository client transactions now')
              crypto
              emails'
              config'
              now'
              raw
              next'
              later
            ≡ (ok result', end))
    refresh_once now now' raw next next' result result' w w' later end h run =
        let r =
          refresh-Refreshed (auth_repository client transactions now) crypto emails config now raw
            next w result w' h in
        let (found, same_hash) = rules.session_read _ r.token w.db r.token_found in
        let (t, was, over) =
          rotating-Ended client rules transactions now r.token.id _ w.db w'.db
            (commits.commits _ true w.db w'.db r.rotated) in
        let still = (Reach-Keeps client transactions commits rules run).ended r.token.id _ over in
        Ended-not_refreshed now' raw next' r.token.id t.token_hash result' later end still
          (ground (arith, was, found, same_hash))

    -- If `resetUserPassword` has returned, then every session that was stored for the user of the
    -- reset token is over: after any sequence of writes of the repository `refresh` does not return
    -- for the raw token of that session. The assumptions are those on transactions and on the client.
    pub reset_ends_sessions :
        (now now' token salt new_password raw next : ℕ) (stored : AuthTokenRecord)
        (session : RefreshTokenRecord) (result : AuthResult) (w w' later end : World Db)
        → (auth_repository client transactions now).find_auth_token_by_hash
            (crypto.hash_token token)
            w.db
          ≡ ok (some stored)
        → client.find_refresh_token (crypto.hash_token raw) w.db ≡ ok (some session)
        → session.user_id ≡ stored.user_id
        → reset_user_password
            (auth_repository client transactions now)
            crypto
            emails
            config
            now
            token
            salt
            new_password
            w
          ≡ (ok tt, w')
        → Reach client transactions w'.db later.db
        → ¬ (
            refresh
              (auth_repository client transactions now')
              crypto
              emails'
              config'
              now'
              raw
              next
              later
            ≡ (ok result, end))
    reset_ends_sessions now now' token salt new_password raw next stored session result w w' later
          end known held owned h run =
        let r =
          reset_user_password-PasswordReset (auth_repository client transactions now) crypto emails
            config now token salt new_password w w' h in
        let same : r.stored ≡ stored = ground (arith, r.token_found) in
        let after =
          resetting-AfterReset client rules transactions now r.stored.id r.stored.user_id
            (crypto.bcrypt_hash salt new_password) now w.db w'.db
            (commits.commits _ true w.db w'.db r.updated) in
        let (found, same_hash) = rules.session_read _ session w.db held in
        let over = after.ended session.id (row_of session) found (ground (arith, same)) in
        let still = (Reach-Keeps client transactions commits rules run).ended session.id _ over in
        Ended-not_refreshed now' raw next session.id _ result later end still same_hash
