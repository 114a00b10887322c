-- ===== src/Auth/Sessions/Laws.antt =====
-- What holds when a refresh token was exchanged.
use split_bill_app.Prelude.{ℕ, ◌<◌, ◌≡◌, inl, inr, none, some, true, arith}
use split_bill_app.Effects.{ok, World}
use split_bill_app.Effects.Inversion.{Write-cases}
use split_bill_app.Auth.{
  RefreshTokenRecord, AuthRepository, Crypto, EmailService, AuthConfig, AuthResult,
}
use split_bill_app.Auth.Sessions.{token_data, auth_result, refresh}

module _ {Db : Type 0} (repository : AuthRepository Db) (crypto : Crypto) (emails : EmailService Db)
    (config : AuthConfig) (now : ℕ) (refresh_token next_token : ℕ) (w : World Db) where
  pub record Refreshed (result : AuthResult) (w' : World Db) : Type 0 where
    pub token : RefreshTokenRecord
    pub token_found :
        repository.find_refresh_token_by_hash (crypto.hash_token refresh_token) w.db
        ≡ ok (some token)
    pub not_revoked : token.revoked_at ≡ none
    pub not_expired : now < token.expires_at
    pub rotated :
        repository.rotate_refresh_token token.id
          (token_data repository crypto emails config now token.user_id next_token)
          w.db
        ≡ (ok true, w'.db)
    pub answered : result ≡ auth_result repository crypto emails config now token.user next_token
    pub not_counted : w'.metrics ≡ w.metrics

  module _ (result : AuthResult) (w' : World Db)
      (h : refresh repository crypto emails config now refresh_token next_token w
        ≡ (ok result, w')) where
    token_known :
        (t : RefreshTokenRecord) × (repository.find_refresh_token_by_hash
            (crypto.hash_token refresh_token)
            w.db
          ≡ ok (some t))
    unfolding refresh
    token_known = ground arith

    refreshed_lem :
        (t : RefreshTokenRecord)
        → repository.find_refresh_token_by_hash (crypto.hash_token refresh_token) w.db ≡ ok (some t)
        → Refreshed result w'
    unfolding refresh
    refreshed_lem t found =
        let next = token_data repository crypto emails config now t.user_id next_token in
        elim (Write-cases (repository.rotate_refresh_token t.id next w.db)) [
          | inl (b, db', written) ↦ record {
            token = t;
            token_found = found;
            not_revoked = ground arith;
            not_expired = ground arith;
            rotated = ground arith;
            answered = ground arith;
            not_counted = ground arith;
          }
          | inr (e, db', failed) ↦ absurd (ground arith)
        ]

  -- If `refresh` returns, the presented token was stored, neither revoked nor expired, the
  -- repository has rotated it to a token of the same user, and the answer is for that user.
  pub refresh-Refreshed :
      (result : AuthResult) (w' : World Db)
      → refresh repository crypto emails config now refresh_token next_token w ≡ (ok result, w')
      → Refreshed result w'
  refresh-Refreshed result w' h =
      let (t, found) = token_known result w' h in refreshed_lem result w' h t found
