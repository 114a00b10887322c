-- ===== src/Auth/Repository/Marks.antt =====
-- What a rotation and the consumption of a token leave behind, and what that excludes.
use split_bill_app.Prelude.{
  ℕ, ◌≡◌, ◌≢◌, sym, subst, ap, ◌∙◌, inl, inr, none, some, Bool, true, false, ◌==◌, Bool-cases,
  Option-cases, arith,
}
use mathlib.Core.Option
use split_bill_app.Effects.{ok, Action, pure, ◌>>◌}
use split_bill_app.Effects.Inversion.{Write-cases}
use split_bill_app.Database.{Transactions}
use split_bill_app.Auth.{AuthTokenRecord, CreateRefreshTokenData}
use split_bill_app.Auth.Repository.Tables.{
  AuthClient, AuthRules, SessionRow, revoked_if, consumed_if,
}
use split_bill_app.Auth.Repository.{rotating, unless_none, is_live_session, is_unused_token}
use split_bill_app.Auth.Repository.Ends.{
  Ended, Spent, Preserves, revoked-hash, session_created-Preserves,
}

-- A callback that has not returned null has changed a row, and has gone on.
pub went_on :
    {Db : Type 0} (n : ℕ) (m : Action Db Bool) (db db' : Db)
    → unless_none n false m db ≡ (ok true, db')
    → (n ≢ 0) × (m db ≡ (ok true, db'))
went_on n m db db' h = elim (Bool-cases (n == 0)) [
  | inl zero ↦ absurd (ground arith)
  | inr some_rows ↦ (λ q. ground arith, ground arith)
]

some_now-revoked :
    (hit : SessionRow → Bool) (now : ℕ) (t : SessionRow)
    → hit t ≡ true
    → (revoked_if hit now t).revoked_at ≢ none
some_now-revoked hit now t h q = absurd (ground arith)

some_now-consumed :
    (hit : AuthTokenRecord → Bool) (now : ℕ) (t : AuthTokenRecord)
    → hit t ≡ true
    → (consumed_if hit now t).consumed_at ≢ none
some_now-consumed hit now t h q = absurd (ground arith)

-- The rows that pass the tests of the repository.
live_lem :
    (id : ℕ) (t : SessionRow) → is_live_session id t ≡ true → (t.id ≡ id) × (t.revoked_at ≡ none)
live_lem id t h = elim (Option-cases t.revoked_at) [
  | inl never ↦ (ground arith, never)
  | inr (at, revoked) ↦ absurd (ground (arith, revoked))
]

unused_lem :
    (id : ℕ) (t : AuthTokenRecord)
    → is_unused_token id t ≡ true
    → (t.id ≡ id) × (t.consumed_at ≡ none)
unused_lem id t h = elim (Option-cases t.consumed_at) [
  | inl never ↦ (ground arith, never)
  | inr (at, consumed) ↦ absurd (ground (arith, consumed))
]

module _ {Db : Type 0} (client : AuthClient Db) (rules : AuthRules client) where
  -- A session that an `updateMany` has hit is over.
  pub hit-Ended :
      (id now : ℕ) (hit : SessionRow → Bool) (t : SessionRow) (db db' : Db)
      → hit t ≡ true
      → client.session_of id db' ≡ Option.map (revoked_if hit now) (client.session_of id db)
      → client.session_of id db ≡ some t
      → Ended client id t.token_hash db'
  hit-Ended id now hit t db db' passed changed found = record {
    row = revoked_if hit now t;
    found = ground (arith, found);
    same_hash = revoked-hash hit now t;
    revoked = some_now-revoked hit now t passed;
  }

  -- The session that a call has revoked was stored under the id, and it was not revoked.
  pub live_session :
      (id now n : ℕ) (db db' : Db)
      → client.revoke_sessions (is_live_session id) now db ≡ (ok n, db')
      → n ≢ 0
      → (t : SessionRow) × (client.session_of id db ≡ some t)
        × (t.revoked_at ≡ none)
        × (is_live_session id t ≡ true)
  live_session id now n db db' h counted =
      let (j, t, found, passed) = rules.sessions_counted _ now n db db' h counted in
      let (same, never) = live_lem id t passed in
      let key = sym (rules.session_keyed j t db found) ∙ same in
      (t, subst (λ (k : ℕ). client.session_of k db ≡ some t) key found, never, passed)

  pub unused_token :
      (id now n : ℕ) (db db' : Db)
      → client.consume_auth_tokens (is_unused_token id) now db ≡ (ok n, db')
      → n ≢ 0
      → (t : AuthTokenRecord) × (client.token_of id db ≡ some t)
        × (t.consumed_at ≡ none)
        × (is_unused_token id t ≡ true)
  unused_token id now n db db' h counted =
      let (j, t, found, passed) = rules.tokens_counted _ now n db db' h counted in
      let (same, never) = unused_lem id t passed in
      let (keyed, given) = rules.token_keyed j t db found in
      (t, subst (λ (k : ℕ). client.token_of k db ≡ some t) (sym keyed ∙ same) found, never, passed)

  -- After a rotation the old session is over.
  pub rotating-Ended :
      (transactions : Transactions Db) (now id : ℕ) (d : CreateRefreshTokenData) (db db' : Db)
      → rotating client transactions now id d db ≡ (ok true, db')
      → (t : SessionRow) × (client.session_of id db ≡ some t) × Ended client id t.token_hash db'
  unfolding rotating Preserves
  rotating-Ended transactions now id d db db' h =
      elim (Write-cases (client.revoke_sessions (is_live_session id) now db)) [
        | inr (x, t, failed) ↦ absurd (ground arith)
        | inl (n, u, revoked) ↦
            let (counted, rest) =
              went_on n (client.create_refresh_token_row d >> pure true) u db' (ground arith) in
            let (t, found, live, passed) = live_session id now n db u revoked counted in
            let (changed, kept) = rules.sessions_revoked _ now n db u revoked in
            let over = hit-Ended id now _ t db u passed (changed id) found in
            elim (Write-cases (client.create_refresh_token_row d u)) [
              | inr (x, v, failed) ↦ absurd (ground arith)
              | inl (v, s, created) ↦
                  let after =
                    (session_created-Preserves client rules d u s tt created).ended id _ over in
                  let last : db' ≡ s = ground arith in
                  (t, found, subst (Ended client id t.token_hash) (sym last) after)
            ]
      ]

  -- A session that is over is not rotated.
  pub Ended-not_rotated :
      (transactions : Transactions Db) (now id hash : ℕ) (d : CreateRefreshTokenData) (db db' : Db)
      → Ended client id hash db
      → ¬ (rotating client transactions now id d db ≡ (ok true, db'))
  unfolding rotating
  Ended-not_rotated transactions now id hash d db db' e h =
      elim (Write-cases (client.revoke_sessions (is_live_session id) now db)) [
        | inr (x, t, failed) ↦ ground arith
        | inl (n, u, revoked) ↦
            let (counted, rest) =
              went_on n (client.create_refresh_token_row d >> pure true) u db' (ground arith) in
            let (t, found, live, passed) = live_session id now n db u revoked counted in
            e.revoked (ground (arith, e.found))
      ]

  pub consumed-Spent :
      (id now n : ℕ) (db db' : Db)
      → client.consume_auth_tokens (is_unused_token id) now db ≡ (ok n, db')
      → n ≢ 0
      → Spent client id db'
  consumed-Spent id now n db db' h counted =
      let (t, found, never, passed) = unused_token id now n db db' h counted in
      let (keyed, given) = rules.token_keyed id t db found in
      let (changed, same, s) = rules.tokens_consumed _ now n db db' h in
      let test : AuthTokenRecord → Bool = is_unused_token id in
      record {
        was_given = same id ∙ given;
        consumed = λ u f q.
            let made : consumed_if test now t ≡ u = ground (arith, changed id, found) in
            some_now-consumed test now t passed
              (ap (λ (x : AuthTokenRecord). x.consumed_at) made ∙ q);
      }

  pub Spent-not_consumed :
      (id now n : ℕ) (db db' : Db)
      → Spent client id db
      → client.consume_auth_tokens (is_unused_token id) now db ≡ (ok n, db')
      → ¬ (n ≢ 0)
  Spent-not_consumed id now n db db' s h counted =
      let (t, found, never, passed) = unused_token id now n db db' h counted in
      s.consumed t found never
