-- ===== src/Auth/Repository/Ends.antt =====
-- Sessions that have ended and tokens that are spent, and that no method of `AuthRepository` brings
-- one back.
use split_bill_app.Prelude.{
  ℕ, ◌≡◌, ◌≢◌, refl, sym, subst, ◌∙◌, inl, inr, Option, none, some, if◌then◌else◌, ◌||◌, Bool, true,
  false, ◌==◌, Bool-cases, arith,
}
use mathlib.Core.Option
use split_bill_app.Effects.{Result, ok, Action, pure, ◌>>=◌}
use split_bill_app.Effects.Inversion.{Write-cases}
use split_bill_app.Database.{reading}
use split_bill_app.Auth.{AuthTokenRecord, UserUpdate, CreateRefreshTokenData, CreateAuthTokenData}
use split_bill_app.Auth.Repository.Tables.{
  AuthClient, AuthRules, SameSessions, SameTokens, SessionRow, CreateUserData, revoked_if,
  consumed_if, dropped_if,
}
use split_bill_app.Auth.Repository.{unless_none}

pub revoked_stays :
    (hit : SessionRow → Bool) (now : ℕ) (t : SessionRow)
    → t.revoked_at ≢ none
    → (revoked_if hit now t).revoked_at ≢ none
revoked_stays hit now t h q = elim (Bool-cases (hit t)) [
  | inl changed ↦ absurd (ground arith)
  | inr same ↦ h (ground arith)
]

pub revoked-hash :
    (hit : SessionRow → Bool) (now : ℕ) (t : SessionRow)
    → (revoked_if hit now t).token_hash ≡ t.token_hash
revoked-hash hit now t = ground arith

pub consumed_stays :
    (hit : AuthTokenRecord → Bool) (now : ℕ) (t : AuthTokenRecord)
    → t.consumed_at ≢ none
    → (consumed_if hit now t).consumed_at ≢ none
consumed_stays hit now t h q = elim (Bool-cases (hit t)) [
  | inl changed ↦ absurd (ground arith)
  | inr same ↦ h (ground arith)
]

mapped_from :
    {A : Type 0} (f : A → A) (o : Option A) (b : A)
    → Option.map f o ≡ some b
    → (a : A) × (o ≡ some a) × (f a ≡ b)
mapped_from f none b h = absurd (ground arith)
mapped_from f (some a) b h = (a, refl, ground arith)

dropped_from :
    (hit : AuthTokenRecord → Bool) (o : Option AuthTokenRecord) (t : AuthTokenRecord)
    → dropped_if hit o ≡ some t
    → o ≡ some t
dropped_from hit none t h = h
dropped_from hit (some u) t h = elim (Bool-cases (hit u)) [
  | inl dropped ↦ absurd (ground arith)
  | inr left ↦ ground arith
]

module _ {Db : Type 0} (client : AuthClient Db) where
  -- The session with the id and the hash is over: its row is revoked.
  pub record Ended (id hash : ℕ) (db : Db) : Type 0 where
    pub row : SessionRow
    pub found : client.session_of id db ≡ some row
    pub same_hash : row.token_hash ≡ hash
    pub revoked : row.revoked_at ≢ none

  -- The token is spent: its id was given out, and its row is consumed as long as it is there.
  pub record Spent (id : ℕ) (db : Db) : Type 0 where
    pub was_given : client.given id db ≡ true
    pub consumed : (t : AuthTokenRecord) → client.token_of id db ≡ some t → t.consumed_at ≢ none

  pub record Keeps (db db' : Db) : Type 0 where
    pub ended : (id hash : ℕ) → Ended id hash db → Ended id hash db'
    pub spent : (id : ℕ) → Spent id db → Spent id db'

  same-Ended :
      (db db' : Db)
      → SameSessions client db db'
      → (id hash : ℕ) → Ended id hash db
      → Ended id hash db'
  same-Ended db db' k id hash e = record {
    row = e.row;
    found = k.same id ∙ e.found;
    same_hash = e.same_hash;
    revoked = e.revoked;
  }

  same-Spent : (db db' : Db) → SameTokens client db db' → (id : ℕ) → Spent id db → Spent id db'
  same-Spent db db' k id s = record {
    was_given = k.same_given id ∙ s.was_given;
    consumed = λ t f. s.consumed t (sym (k.same id) ∙ f);
  }

  same-Keeps : (db db' : Db) → SameSessions client db db' → SameTokens client db db' → Keeps db db'
  same-Keeps db db' s t = record { ended = same-Ended db db' s; spent = same-Spent db db' t }

  -- An `updateMany` leaves a revoked session revoked.
  changed-Ended :
      (hit : SessionRow → Bool) (now : ℕ) (db db' : Db) (id hash : ℕ)
      → client.session_of id db' ≡ Option.map (revoked_if hit now) (client.session_of id db)
      → Ended id hash db
      → Ended id hash db'
  changed-Ended hit now db db' id hash changed e = record {
    row = revoked_if hit now e.row;
    found = ground (arith, e.found);
    same_hash = revoked-hash hit now e.row ∙ e.same_hash;
    revoked = revoked_stays hit now e.row e.revoked;
  }

  -- A token that an `updateMany` leaves consumed, and one that a `deleteMany` leaves.
  consumed-Spent :
      (hit : AuthTokenRecord → Bool) (now : ℕ) (db db' : Db) (id : ℕ)
      → client.token_of id db' ≡ Option.map (consumed_if hit now) (client.token_of id db)
      → client.given id db' ≡ client.given id db
      → Spent id db
      → Spent id db'
  consumed-Spent hit now db db' id changed given s = record {
    was_given = given ∙ s.was_given;
    consumed = λ t f.
        let (u, had, made) = mapped_from (consumed_if hit now) _ t (sym changed ∙ f) in
        let kept = consumed_stays hit now u (s.consumed u had) in
        subst (λ (x : AuthTokenRecord). x.consumed_at ≢ none) made kept;
  }

  dropped-Spent :
      (hit : AuthTokenRecord → Bool) (db db' : Db) (id : ℕ)
      → client.token_of id db' ≡ dropped_if hit (client.token_of id db)
      → client.given id db' ≡ client.given id db
      → Spent id db
      → Spent id db'
  dropped-Spent hit db db' id changed given s = record {
    was_given = given ∙ s.was_given;
    consumed = λ t f. s.consumed t (dropped_from hit _ t (sym changed ∙ f));
  }

  created-Spent :
      (new id : ℕ) (t : AuthTokenRecord) (db db' : Db)
      → client.given new db ≡ false
      → client.given id db' ≡ (id == new || client.given id db)
      → client.token_of id db' ≡ (if id == new then some t else client.token_of id db)
      → Spent id db
      → Spent id db'
  created-Spent new id t db db' fresh now_given stored s = record {
    was_given = ground (arith, s.was_given);
    consumed = λ u f. elim (Bool-cases (id == new)) [
      | inl same ↦ absurd (ground (arith, s.was_given))
      | inr differ ↦ s.consumed u (ground arith)
    ];
  }

-- A method that keeps what has ended, if it returns.
unfoldable pub Preserves : {Db A : Type 0} → AuthClient Db → Action Db A → Type 0
Preserves {Db} {A} client m = (db db' : Db) (a : A) → m db ≡ (ok a, db') → Keeps client db db'

module _ {Db : Type 0} (client : AuthClient Db) where
  pub stays : (db : Db) → Keeps client db db
  stays db = record { ended = λ id hash e. e; spent = λ id s. s }

  pub follows : {a b c : Db} → Keeps client a b → Keeps client b c → Keeps client a c
  follows k l = record {
    ended = λ id hash e. l.ended id hash (k.ended id hash e);
    spent = λ id s. l.spent id (k.spent id s);
  }

  pub pure-Preserves : {A : Type 0} (a : A) → Preserves client (pure {S = Db} a)
  unfolding Preserves
  pure-Preserves a db db' b h = let same : db' ≡ db = ground arith in rw same (stays db)

  pub reading-Preserves : {A : Type 0} (read : Db → Result A) → Preserves client (reading read)
  unfolding Preserves
  reading-Preserves read db db' b h = let same : db' ≡ db = ground arith in rw same (stays db)

  pub bind-Preserves :
      {A B : Type 0} (m : Action Db A) (f : A → Action Db B)
      → Preserves client m
      → ((a : A) → Preserves client (f a))
      → Preserves client (m >>= f)
  unfolding Preserves
  bind-Preserves m f k l db db' b h = elim (Write-cases (m db)) [
    | inl (a, t, made) ↦ follows (k db t a made) (l a t db' b (ground arith))
    | inr (e, t, failed) ↦ absurd (ground arith)
  ]

  pub unless_none-Preserves :
      {A : Type 0} (n : ℕ) (a : A) (m : Action Db A)
      → Preserves client m
      → Preserves client (unless_none n a m)
  unfolding Preserves
  unless_none-Preserves n a m k db db' b h = elim (Bool-cases (n == 0)) [
    | inl zero ↦ let same : db' ≡ db = ground arith in rw same (stays db)
    | inr some_rows ↦ k db db' b (ground arith)
  ]

module _ {Db : Type 0} (client : AuthClient Db) (rules : AuthRules client) where
  open client use {
    create_user_row, update_user_row, set_email_verified, set_password_hash,
    create_refresh_token_row, revoke_sessions, create_auth_token_row, delete_auth_tokens,
    consume_auth_tokens,
  }

  pub user_created-Preserves : (d : CreateUserData) → Preserves client (create_user_row d)
  unfolding Preserves
  user_created-Preserves d db db' u h =
      let (s, t) = rules.user_created d u db db' h in same-Keeps client db db' s t

  pub user_updated-Preserves : (id : ℕ) (d : UserUpdate) → Preserves client (update_user_row id d)
  unfolding Preserves
  user_updated-Preserves id d db db' u h =
      let (s, t) = rules.user_updated id d u db db' h in same-Keeps client db db' s t

  pub email_verified-Preserves : (id now : ℕ) → Preserves client (set_email_verified id now)
  unfolding Preserves
  email_verified-Preserves id now db db' u h =
      let (s, t) = rules.email_verified id now u db db' h in same-Keeps client db db' s t

  pub password_set-Preserves : (id hash : ℕ) → Preserves client (set_password_hash id hash)
  unfolding Preserves
  password_set-Preserves id hash db db' n h =
      let (s, t) = rules.password_set id hash n db db' h in same-Keeps client db db' s t

  pub session_created-Preserves :
      (d : CreateRefreshTokenData) → Preserves client (create_refresh_token_row d)
  unfolding Preserves
  session_created-Preserves d db db' u h =
      let (kept, t) = rules.session_created d db db' h in
      record {
        ended = λ id hash e. record {
          row = e.row;
          found = kept id e.row e.found;
          same_hash = e.same_hash;
          revoked = e.revoked;
        };
        spent = same-Spent client db db' t;
      }

  pub sessions_revoked-Preserves :
      (hit : SessionRow → Bool) (now : ℕ) → Preserves client (revoke_sessions hit now)
  unfolding Preserves
  sessions_revoked-Preserves hit now db db' n h =
      let (changed, t) = rules.sessions_revoked hit now n db db' h in
      record {
        ended = λ j hash. changed-Ended client hit now db db' j hash (changed j);
        spent = same-Spent client db db' t;
      }

  pub token_created-Preserves :
      (d : CreateAuthTokenData) → Preserves client (create_auth_token_row d)
  unfolding Preserves
  token_created-Preserves d db db' t h =
      let (fresh, now_given, stored, s) = rules.token_created d t db db' h in
      record {
        ended = same-Ended client db db' s;
        spent = λ id. created-Spent client t.id id t db db' fresh (now_given id) (stored id);
      }

  pub tokens_deleted-Preserves :
      (hit : AuthTokenRecord → Bool) → Preserves client (delete_auth_tokens hit)
  unfolding Preserves
  tokens_deleted-Preserves hit db db' n h =
      let (changed, given, s) = rules.tokens_deleted hit n db db' h in
      record {
        ended = same-Ended client db db' s;
        spent = λ id. dropped-Spent client hit db db' id (changed id) (given id);
      }

  pub tokens_consumed-Preserves :
      (hit : AuthTokenRecord → Bool) (now : ℕ) → Preserves client (consume_auth_tokens hit now)
  unfolding Preserves
  tokens_consumed-Preserves hit now db db' n h =
      let (changed, given, s) = rules.tokens_consumed hit now n db db' h in
      record {
        ended = same-Ended client db db' s;
        spent = λ j. consumed-Spent client hit now db db' j (changed j) (given j);
      }

pub ruleset ends_rules = (
  pure-Preserves, reading-Preserves, bind-Preserves, unless_none-Preserves, user_created-Preserves,
  user_updated-Preserves, email_verified-Preserves, password_set-Preserves,
  session_created-Preserves, sessions_revoked-Preserves, token_created-Preserves,
  tokens_deleted-Preserves, tokens_consumed-Preserves,
)
