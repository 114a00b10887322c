-- ===== src/Auth/Repository/Consumed.antt =====
-- What a verification and a password reset leave behind, and what that excludes.
use split_bill_app.Prelude.{ℕ, ◌≡◌, refl, ◌∙◌, inl, inr, some, true, Option-cases, arith}
use split_bill_app.Effects.{ok, pure, ◌>>◌}
use split_bill_app.Effects.Inversion.{Write-cases, Result-cases}
use split_bill_app.Database.{Transactions}
use split_bill_app.Auth.Repository.Tables.{AuthClient, AuthRules, SessionRow}
use split_bill_app.Auth.Repository.{
  verifying, resetting, ending_sessions, replacing_password, is_live_session_of, is_unused_token,
}
use split_bill_app.Auth.Repository.Ends.{
  Ended, Spent, Preserves, email_verified-Preserves, password_set-Preserves,
  sessions_revoked-Preserves,
}
use split_bill_app.Auth.Repository.Marks.{went_on, hit-Ended, consumed-Spent, Spent-not_consumed}

module _ {Db : Type 0} (client : AuthClient Db) (rules : AuthRules client) where
  -- What a reset leaves: a spent token, and no session of the user.
  pub record AfterReset (token_id user_id : ℕ) (db db' : Db) : Type 0 where
    pub spent : Spent client token_id db'
    pub ended :
        (j : ℕ) (t : SessionRow)
        → client.session_of j db ≡ some t
        → t.user_id ≡ user_id
        → Ended client j t.token_hash db'

  ending_sessions-AfterReset :
      (transactions : Transactions Db) (now token_id user_id at : ℕ) (db db' : Db)
      → ending_sessions client transactions now user_id at db ≡ (ok true, db')
      → Spent client token_id db
      → AfterReset token_id user_id db db'
  unfolding Preserves
  ending_sessions-AfterReset transactions now token_id user_id at db db' h s =
      elim (Write-cases (client.revoke_sessions (is_live_session_of user_id) at db)) [
        | inr (x, t, failed) ↦ absurd (ground arith)
        | inl (n, a, revoked) ↦ elim (Result-cases (client.find_user_or_throw user_id a)) [
          | inr (x, failed) ↦ absurd (ground arith)
          | inl (user, found) ↦
              let last : a ≡ db' = ground arith in
              let (changed, kept) = rules.sessions_revoked _ at n db a revoked in
              let k = sessions_revoked-Preserves client rules _ at db a n revoked in
              rw (← last) (record {
                spent = k.spent token_id s;
                ended = λ j t was owned. elim (Option-cases t.revoked_at) [
                  | inl never ↦ hit-Ended client rules j at _ t db a (ground arith) (changed j) was
                  | inr (before, revoked) ↦ k.ended j t.token_hash (record {
                    row = t;
                    found = was;
                    same_hash = refl;
                    revoked = λ q. ground arith;
                  })
                ];
              })
        ]
      ]

  replacing_password-AfterReset :
      (transactions : Transactions Db) (now token_id user_id hash at : ℕ) (db db' : Db)
      → replacing_password client transactions now user_id hash at db ≡ (ok true, db')
      → Spent client token_id db
      → AfterReset token_id user_id db db'
  unfolding Preserves
  replacing_password-AfterReset transactions now token_id user_id hash at db db' h s =
      elim (Write-cases (client.set_password_hash user_id hash db)) [
        | inr (x, t, failed) ↦ absurd (ground arith)
        | inl (n, a, set) ↦
            let (counted, rest) =
              went_on n (ending_sessions client transactions now user_id at) a db' (ground arith) in
            let (same, kept) = rules.password_set user_id hash n db a set in
            let k = password_set-Preserves client rules user_id hash db a n set in
            let r =
              ending_sessions-AfterReset transactions now token_id user_id at a db' rest
                (k.spent token_id s) in
            record {
              spent = r.spent;
              ended = λ j t was owned. r.ended j t (same.same j ∙ was) owned;
            }
      ]

  pub resetting-AfterReset :
      (transactions : Transactions Db) (now token_id user_id hash at : ℕ) (db db' : Db)
      → resetting client transactions now token_id user_id hash at db ≡ (ok true, db')
      → AfterReset token_id user_id db db'
  unfolding resetting
  resetting-AfterReset transactions now token_id user_id hash at db db' h =
      elim (Write-cases (client.consume_auth_tokens (is_unused_token token_id) at db)) [
        | inr (x, t, failed) ↦ absurd (ground arith)
        | inl (n, a, consumed) ↦
            let (counted, rest) =
              went_on n (replacing_password client transactions now user_id hash at) a db'
                (ground arith) in
            let (changed, given, same) = rules.tokens_consumed _ at n db a consumed in
            let r =
              replacing_password-AfterReset transactions now token_id user_id hash at a db' rest
                (consumed-Spent client rules token_id at n db a consumed counted) in
            record {
              spent = r.spent;
              ended = λ j t was owned. r.ended j t (same.same j ∙ was) owned;
            }
      ]

  pub Spent-not_reset :
      (transactions : Transactions Db) (now token_id user_id hash at : ℕ) (db db' : Db)
      → Spent client token_id db
      → ¬ (resetting client transactions now token_id user_id hash at db ≡ (ok true, db'))
  unfolding resetting
  Spent-not_reset transactions now token_id user_id hash at db db' s h =
      elim (Write-cases (client.consume_auth_tokens (is_unused_token token_id) at db)) [
        | inr (x, t, failed) ↦ ground arith
        | inl (n, a, consumed) ↦
            let (counted, rest) =
              went_on n (replacing_password client transactions now user_id hash at) a db'
                (ground arith) in
            Spent-not_consumed client rules token_id at n db a s consumed counted
      ]

  pub verifying-Spent :
      (transactions : Transactions Db) (now token_id user_id at : ℕ) (db db' : Db)
      → verifying client transactions now token_id user_id at db ≡ (ok true, db')
      → Spent client token_id db'
  unfolding verifying Preserves
  verifying-Spent transactions now token_id user_id at db db' h =
      elim (Write-cases (client.consume_auth_tokens (is_unused_token token_id) at db)) [
        | inr (x, t, failed) ↦ absurd (ground arith)
        | inl (n, a, consumed) ↦
            let (counted, rest) =
              went_on n (client.set_email_verified user_id at >> pure true) a db' (ground arith) in
            let s = consumed-Spent client rules token_id at n db a consumed counted in
            elim (Write-cases (client.set_email_verified user_id at a)) [
              | inr (x, v, failed) ↦ absurd (ground arith)
              | inl (u, b, verified) ↦
                  let last : b ≡ db' = ground arith in
                  let k = email_verified-Preserves client rules user_id at a b u verified in
                  rw (← last) (k.spent token_id s)
            ]
      ]

  pub Spent-not_verified :
      (transactions : Transactions Db) (now token_id user_id at : ℕ) (db db' : Db)
      → Spent client token_id db
      → ¬ (verifying client transactions now token_id user_id at db ≡ (ok true, db'))
  unfolding verifying
  Spent-not_verified transactions now token_id user_id at db db' s h =
      elim (Write-cases (client.consume_auth_tokens (is_unused_token token_id) at db)) [
        | inr (x, t, failed) ↦ ground arith
        | inl (n, a, consumed) ↦
            let (counted, rest) =
              went_on n (client.set_email_verified user_id at >> pure true) a db' (ground arith) in
            Spent-not_consumed client rules token_id at n db a s consumed counted
      ]
