-- ===== src/Auth/Tokens/Laws.antt =====
-- What holds when a token was used, and what the answers tell of an address.
use split_bill_app.Prelude.{ℕ, ◌<◌, ◌≡◌, inl, inr, Option, none, some, true, String, arith}
use split_bill_app.Effects.{ok, World}
use split_bill_app.Effects.Inversion.{Write-cases}
use split_bill_app.Auth.{
  User, password_reset, AuthTokenRecord, AuthRepository, Crypto, EmailService, AuthConfig,
  CreateAuthTokenData, password_reset_token_expiry,
}
use split_bill_app.Auth.Tokens.{reset_user_password, request_password_reset}

module _ {Db : Type 0} (repository : AuthRepository Db) (crypto : Crypto) (emails : EmailService Db)
    (config : AuthConfig) (now : ℕ) where
  module _ (token salt new_password : ℕ) (w w' : World Db) where
    pub record PasswordReset : Type 0 where
      pub stored : AuthTokenRecord
      pub token_found :
          repository.find_auth_token_by_hash (crypto.hash_token token) w.db ≡ ok (some stored)
      pub for_reset : stored.purpose ≡ password_reset
      pub not_consumed : stored.consumed_at ≡ none
      pub not_expired : now < stored.expires_at
      pub updated :
          repository.consume_password_reset_token_and_update_password stored.id stored.user_id
            (crypto.bcrypt_hash salt new_password)
            now
            w.db
          ≡ (ok true, w'.db)

    module _
        (h : reset_user_password repository crypto emails config now token salt new_password w
          ≡ (ok tt, w')) where
      token_known :
          (t : AuthTokenRecord) × (repository.find_auth_token_by_hash (crypto.hash_token token) w.db
            ≡ ok (some t))
      unfolding reset_user_password
      token_known = ground arith

      reset_lem :
          (t : AuthTokenRecord)
          → repository.find_auth_token_by_hash (crypto.hash_token token) w.db ≡ ok (some t)
          → PasswordReset
      unfolding reset_user_password
      reset_lem t found =
          let write =
            repository.consume_password_reset_token_and_update_password t.id t.user_id
              (crypto.bcrypt_hash salt new_password) now w.db in
          elim (Write-cases write) [
            | inl (b, db', written) ↦ record {
              stored = t;
              token_found = found;
              for_reset = ground arith;
              not_consumed = ground arith;
              not_expired = ground arith;
              updated = ground arith;
            }
            | inr (e, db', failed) ↦ absurd (ground arith)
          ]

    -- If `resetUserPassword` returns, the presented token was stored for a password reset, neither
    -- consumed nor expired, and the repository has consumed it and stored the hash of the new
    -- password for the user of the token.
    pub reset_user_password-PasswordReset :
        reset_user_password repository crypto emails config now token salt new_password w
          ≡ (ok tt, w')
        → PasswordReset
    reset_user_password-PasswordReset h = let (t, found) = token_known h in reset_lem h t found

  -- As long as the database answers, a request for a password reset is answered alike for a known
  -- and an unknown address, also when the email cannot be delivered.
  pub request_password_reset_alike :
      (email : String) (token : ℕ) (w : World Db) (o : Option User)
      → repository.find_by_email email w.db ≡ ok o
      → ((d : CreateAuthTokenData) → (repository.create_auth_token d w.db).0 ≡ ok tt)
      → (request_password_reset repository crypto emails config now email token w).0 ≡ ok tt
  unfolding request_password_reset
  request_password_reset_alike email token w none found stored = ground arith
  request_password_reset_alike email token w (some user) found stored = ground (
    arith,
    stored (record {
      user_id = user.id;
      purpose = password_reset;
      token_hash = crypto.hash_token token;
      expires_at = password_reset_token_expiry config now;
    }),
  )
