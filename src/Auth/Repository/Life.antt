-- ===== src/Auth/Repository/Life.antt =====
-- The store of accounts over time: any sequence of the writes of `AuthRepository`, each of which
-- returns or throws.
use split_bill_app.Prelude.{ℕ, ◌≡◌, inl, inr, Option, none, some, Bool, arith}
use split_bill_app.Effects.{Result, ok, err, Action}
use split_bill_app.Effects.Inversion.{Write-cases, Result-cases, RollsBack}
use split_bill_app.Records.{SafeUser}
use split_bill_app.Database.{Transactions, TransactionRules}
use split_bill_app.Auth.{
  User, CreateRefreshTokenData, CreateAuthTokenData, CreateUserWithAuthData, UserUpdate,
}
use split_bill_app.Auth.Repository.Tables.{AuthClient, AuthRules}
use split_bill_app.Auth.Repository.{
  auth_repository, update, update_found, revoke_refresh_token_by_id, rotating, registering,
  reissuing, verifying, resetting, is_live_session,
}
use split_bill_app.Auth.Repository.Ends.{
  Keeps, Preserves, stays, follows, session_created-Preserves, ends_rules,
}

module _ {Db : Type 0} (client : AuthClient Db) (transactions : Transactions Db) where
  -- One write at the time `now`, however it ends.
  pub data Step (db : Db) : Db → Type 0 where
    registers :
        (now : ℕ) (d : CreateUserWithAuthData) (r : Result SafeUser) (db' : Db)
        → (auth_repository client transactions now).create_user_with_auth_data d db ≡ (r, db')
        → Step db db'
    updates :
        (now id : ℕ) (d : UserUpdate) (r : Result (Option SafeUser)) (db' : Db)
        → (auth_repository client transactions now).update id d db ≡ (r, db')
        → Step db db'
    opens :
        (now : ℕ) (d : CreateRefreshTokenData) (r : Result (Unit {0})) (db' : Db)
        → (auth_repository client transactions now).create_refresh_token d db ≡ (r, db')
        → Step db db'
    rotates :
        (now id : ℕ) (d : CreateRefreshTokenData) (r : Result Bool) (db' : Db)
        → (auth_repository client transactions now).rotate_refresh_token id d db ≡ (r, db')
        → Step db db'
    revokes :
        (now id : ℕ) (r : Result (Unit {0})) (db' : Db)
        → (auth_repository client transactions now).revoke_refresh_token_by_id id db ≡ (r, db')
        → Step db db'
    issues :
        (now : ℕ) (d : CreateAuthTokenData) (r : Result (Unit {0})) (db' : Db)
        → (auth_repository client transactions now).create_auth_token d db ≡ (r, db')
        → Step db db'
    verifies :
        (now token_id user_id at : ℕ) (r : Result Bool) (db' : Db)
        → (auth_repository client transactions now).consume_verification_token_and_verify_user
            token_id user_id at db
          ≡ (r, db')
        → Step db db'
    resets :
        (now token_id user_id hash at : ℕ) (r : Result Bool) (db' : Db)
        → (auth_repository client transactions now).consume_password_reset_token_and_update_password
            token_id user_id hash at db
          ≡ (r, db')
        → Step db db'

  pub data Reach (start : Db) : Db → Type 0 where
    here : Reach start start
    later : {db db' : Db} → Reach start db → Step db db' → Reach start db'

  module _ (commits : TransactionRules transactions) (rules : AuthRules client) where
    -- A call that returns keeps what has ended, and one that throws has written nothing.
    call-Keeps :
        {A : Type 0} (m : Action Db A)
        → Preserves client m
        → RollsBack m
        → (r : Result A) (db db' : Db) → m db ≡ (r, db')
        → Keeps client db db'
    unfolding Preserves
    call-Keeps m k back (ok a) db db' h = k db db' a h
    call-Keeps m k back (err e) db db' h = rw (back db db' e h) (stays client db)

    transaction-Keeps :
        {A : Type 0} (m : Action Db A)
        → Preserves client m
        → (r : Result A) (db db' : Db) → transactions.transaction m db ≡ (r, db')
        → Keeps client db db'
    unfolding Preserves
    transaction-Keeps m k (ok a) db db' h = k db db' a (commits.commits m a db db' h)
    transaction-Keeps m k (err e) db db' h = rw (commits.rolls_back m e db db' h) (stays client db)

    registering-Preserves :
        (now : ℕ) (d : CreateUserWithAuthData)
        → Preserves client (registering client transactions now d)
    unfolding registering
    registering-Preserves now d = search (ends_rules, rules) depth 15

    rotating-Preserves :
        (now id : ℕ) (d : CreateRefreshTokenData)
        → Preserves client (rotating client transactions now id d)
    unfolding rotating
    rotating-Preserves now id d = search (ends_rules, rules) depth 15

    reissuing-Preserves :
        (now : ℕ) (d : CreateAuthTokenData) → Preserves client (reissuing client transactions now d)
    unfolding reissuing
    reissuing-Preserves now d = search (ends_rules, rules) depth 15

    verifying-Preserves :
        (now token_id user_id at : ℕ)
        → Preserves client (verifying client transactions now token_id user_id at)
    unfolding verifying
    verifying-Preserves now token_id user_id at = search (ends_rules, rules) depth 15

    resetting-Preserves :
        (now token_id user_id hash at : ℕ)
        → Preserves client (resetting client transactions now token_id user_id hash at)
    unfolding resetting
    resetting-Preserves now token_id user_id hash at = search (ends_rules, rules) depth 15

    revoke-Preserves :
        (now id : ℕ) → Preserves client (revoke_refresh_token_by_id client transactions now id)
    unfolding revoke_refresh_token_by_id
    revoke-Preserves now id = search (ends_rules, rules) depth 15

    update_found-Preserves :
        (now id : ℕ) (d : UserUpdate) (o : Option User)
        → Preserves client (update_found client transactions now id d o)
    update_found-Preserves now id d none = search ends_rules depth 15
    update_found-Preserves now id d (some u) = search (ends_rules, rules) depth 15

    update-Preserves :
        (now id : ℕ) (d : UserUpdate) → Preserves client (update client transactions now id d)
    unfolding update
    update-Preserves now id d = search (ends_rules, update_found-Preserves) depth 15

    revoke-RollsBack :
        (now id : ℕ) → RollsBack (revoke_refresh_token_by_id client transactions now id)
    unfolding revoke_refresh_token_by_id
    revoke-RollsBack now id db db' e h =
        elim (Write-cases (client.revoke_sessions (is_live_session id) now db)) [
          | inl (n, t, done) ↦ absurd (ground arith)
          | inr (x, t, failed) ↦
              rules.revoke_rolls_back (is_live_session id) now db db' e (ground arith)
        ]

    update_found-RollsBack :
        (now id : ℕ) (d : UserUpdate) (o : Option User)
        → RollsBack (update_found client transactions now id d o)
    update_found-RollsBack now id d none db db' e h = absurd (ground arith)
    update_found-RollsBack now id d (some u) db db' e h =
        elim (Write-cases (client.update_user_row id d db)) [
          | inl (n, t, done) ↦ absurd (ground arith)
          | inr (x, t, failed) ↦ rules.update_rolls_back id d db db' e (ground arith)
        ]

    update-RollsBack :
        (now id : ℕ) (d : UserUpdate) → RollsBack (update client transactions now id d)
    unfolding update
    update-RollsBack now id d db db' e h = elim (Result-cases (client.find_user id db)) [
      | inl (o, found) ↦ update_found-RollsBack now id d o db db' e (ground arith)
      | inr (x, failed) ↦ ground arith
    ]

    issue-Keeps :
        (now : ℕ) (d : CreateAuthTokenData) (r : Result (Unit {0})) (db db' : Db)
        → (auth_repository client transactions now).create_auth_token d db ≡ (r, db')
        → Keeps client db db'
    issue-Keeps now d r db db' h =
        let run = transactions.transaction (reissuing client transactions now d) in
        elim (Write-cases (run db)) [
          | inl (n, t, done) ↦
              transaction-Keeps _ (reissuing-Preserves now d) (ok n) db db' (ground arith)
          | inr (x, t, failed) ↦
              transaction-Keeps _ (reissuing-Preserves now d) (err x) db db' (ground arith)
        ]

    Step-Keeps : {db db' : Db} → Step db db' → Keeps client db db'
    Step-Keeps {db} (registers now d r db' h) =
        transaction-Keeps _ (registering-Preserves now d) r db db' h
    Step-Keeps {db} (updates now id d r db' h) =
        call-Keeps _ (update-Preserves now id d) (update-RollsBack now id d) r db db' h
    Step-Keeps {db} (opens now d r db' h) =
        call-Keeps _ (session_created-Preserves client rules d) (rules.session_rolls_back d) r db
          db' h
    Step-Keeps {db} (rotates now id d r db' h) =
        transaction-Keeps _ (rotating-Preserves now id d) r db db' h
    Step-Keeps {db} (revokes now id r db' h) =
        call-Keeps _ (revoke-Preserves now id) (revoke-RollsBack now id) r db db' h
    Step-Keeps {db} (issues now d r db' h) = issue-Keeps now d r db db' h
    Step-Keeps {db} (verifies now t u at r db' h) =
        transaction-Keeps _ (verifying-Preserves now t u at) r db db' h
    Step-Keeps {db} (resets now t u hash at r db' h) =
        transaction-Keeps _ (resetting-Preserves now t u hash at) r db db' h

    pub Reach-Keeps : {start db : Db} → Reach start db → Keeps client start db
    Reach-Keeps here = stays client _
    Reach-Keeps (later run s) = follows client (Reach-Keeps run) (Step-Keeps s)
