-- ===== src/Auth/Repository/Tests.antt =====
-- A store of accounts whose calls have the rules of the Prisma client: the id of a session is its
-- hash. Tokens are used in it.
use split_bill_app.Prelude.{
  ℕ, zero, suc, ◌≡◌, ◌≢◌, refl, sym, ap, ◌∙◌, [], Option, none, some, Bool, true, false, ◌||◌, ◌==◌,
  ltb, Bool-cases, inl, inr, if◌then◌else◌, arith,
}
use mathlib.Core.Option
use split_bill_app.Errors.{infrastructure}
use split_bill_app.Effects.{ok, err, Action, World, throw}
use split_bill_app.Effects.Inversion.{RollsBack}
use split_bill_app.Records.{SafeUser}
use split_bill_app.Database.Atomic.{settle, atomic, atomic-TransactionRules}
use split_bill_app.Auth.{
  User, password_reset, RefreshTokenRecord, AuthTokenRecord, CreateRefreshTokenData,
  CreateAuthTokenData, UserUpdate, Crypto, EmailService, AuthConfig, AuthRepository,
}
use split_bill_app.Auth.Sessions.{refresh}
use split_bill_app.Auth.Tokens.{reset_user_password}
use split_bill_app.Auth.Repository.Tables.{
  AuthClient, AuthRules, SameSessions, SameTokens, SessionRow, row_of, revoked_if, consumed_if,
  dropped_if,
}
use split_bill_app.Auth.Repository.{auth_repository, rotating, resetting}
use split_bill_app.Auth.Repository.Life.{here}
use split_bill_app.Auth.Repository.Once.{reset_once, refresh_once, reset_ends_sessions}

abbrev anna : SafeUser
anna = record { id = 2; name = "Anna"; email = "anna@example.org" }

abbrev account : User
account = record { safe = anna; password_hash = some 77; email_verified_at = none }

-- A session without its hash.
record Cell : Type 0 where
  user_id : ℕ
  expires_at : ℕ
  revoked_at : Option ℕ

-- Sessions with the hashes below `room`, of one user.
record Accounts : Type 0 where
  profile : User
  sessions : ℕ → Option Cell
  tokens : ℕ → Option AuthTokenRecord
  next_id : ℕ

abbrev room : ℕ
room = 20

abbrev row : ℕ → Cell → SessionRow
row hash c = record {
  id = hash;
  user_id = c.user_id;
  token_hash = hash;
  expires_at = c.expires_at;
  revoked_at = c.revoked_at;
}

abbrev with_user : SafeUser → SessionRow → RefreshTokenRecord
with_user user t = record {
  id = t.id;
  user_id = t.user_id;
  token_hash = t.token_hash;
  expires_at = t.expires_at;
  revoked_at = t.revoked_at;
  user = user;
}

abbrev row_at : ℕ → Accounts → Option SessionRow
row_at hash db = Option.map (row hash) (db.sessions hash)

-- A token has the id under which it is stored, and ids below `next_id` only.
abbrev keyed : ℕ → AuthTokenRecord → AuthTokenRecord
keyed id t = record t { id = id }

abbrev token_at : ℕ → Accounts → Option AuthTokenRecord
token_at id db = if ltb id db.next_id then Option.map (keyed id) (db.tokens id) else none

abbrev revoking : (SessionRow → Bool) → ℕ → ℕ → Cell → Cell
revoking hit now hash c = if hit (row hash c) then record c { revoked_at = some now } else c

abbrev passes : {A : Type 0} → (A → Bool) → Option A → Bool
passes hit none = false
passes hit (some a) = hit a

-- How many of the rows below a bound pass a test.
unfoldable count_below : {A : Type 0} → (A → Bool) → (ℕ → Option A) → ℕ → ℕ
count_below hit rows zero = 0
count_below hit rows (suc n) =
    let rest = count_below hit rows n in if passes hit (rows n) then suc rest else rest

abbrev new_token : ℕ → CreateAuthTokenData → AuthTokenRecord
new_token id d = record {
  id = id;
  user_id = d.user_id;
  purpose = d.purpose;
  token_hash = d.token_hash;
  expires_at = d.expires_at;
  consumed_at = none;
}

abbrev opening : CreateRefreshTokenData → Option Cell → Action Accounts (Unit {0})
opening d (some c) db = (err (infrastructure 0), db)
opening d none db = (
  ok tt,
  record db {
    sessions = λ j.
        if j == d.token_hash
        then some (record { user_id = d.user_id; expires_at = d.expires_at; revoked_at = none })
        else db.sessions j;
  },
)

-- A hash has to be new, and below `room`.
abbrev opening_if : Bool → CreateRefreshTokenData → Action Accounts (Unit {0})
opening_if true d db = opening d (db.sessions d.token_hash) db
opening_if false d db = (err (infrastructure 0), db)

abbrev renamed : UserUpdate → User → User
renamed d user = record user {
  safe = record user.safe { name = elim d.name [ none ↦ user.safe.name | some name ↦ name ] };
}

abbrev store : AuthClient Accounts
store = record {
  find_user_by_email = λ email db. ok (some db.profile);
  find_user = λ id db. ok (some db.profile);
  find_user_or_throw = λ id db. ok db.profile;
  create_user_row = λ d db. (ok db.profile, db);
  update_user_row =
      λ id d db. (ok (renamed d db.profile), record db { profile = renamed d db.profile });
  set_email_verified = λ id at db. (ok db.profile, db);
  set_password_hash = λ id hash db. (ok 1, db);
  find_refresh_token = λ hash db. ok (Option.map (with_user db.profile.safe) (row_at hash db));
  create_refresh_token_row = λ d db. opening_if (ltb d.token_hash room) d db;
  revoke_sessions = λ hit now db. (
    ok (count_below hit (λ j. row_at j db) room),
    record db { sessions = λ j. Option.map (revoking hit now j) (db.sessions j) },
  );
  find_auth_token = λ hash db. ok (token_at hash db);
  create_auth_token_row = λ d db. (
    ok (new_token db.next_id d),
    record db {
      tokens = λ j. if j == db.next_id then some (new_token db.next_id d) else db.tokens j;
      next_id = suc db.next_id;
    },
  );
  delete_auth_tokens = λ hit db. (
    ok (count_below hit (λ j. token_at j db) db.next_id),
    record db { tokens = λ j. dropped_if hit (token_at j db) },
  );
  consume_auth_tokens = λ hit now db. (
    ok (count_below hit (λ j. token_at j db) db.next_id),
    record db { tokens = λ j. Option.map (consumed_if hit now) (token_at j db) },
  );
  session_of = row_at;
  token_of = token_at;
  given = λ id db. ltb id db.next_id;
}

passes_from :
    {A : Type 0} (hit : A → Bool) (o : Option A)
    → passes hit o ≡ true
    → (a : A) × (o ≡ some a) × (hit a ≡ true)
passes_from hit none h = absurd (ground arith)
passes_from hit (some a) h = (a, refl, h)

count_below-found :
    {A : Type 0} (hit : A → Bool) (rows : ℕ → Option A) (n : ℕ)
    → count_below hit rows n ≢ 0
    → (j : ℕ) × (a : A) × (rows j ≡ some a) × (hit a ≡ true)
unfolding count_below
count_below-found hit rows zero h = absurd (h refl)
count_below-found hit rows (suc n) h = elim (Bool-cases (passes hit (rows n))) [
  | inl found ↦ let (a, at_n, passed) = passes_from hit (rows n) found in (n, a, at_n, passed)
  | inr not_here ↦ count_below-found hit rows n (λ q. h (ground arith))
]

same_lem :
    (db db' : Accounts)
    → db'.sessions ≡ db.sessions
    → db'.tokens ≡ db.tokens
    → db'.next_id ≡ db.next_id
    → SameSessions store db db' × SameTokens store db db'
same_lem db db' e f g = (
  record { same = λ id. rw e refl },
  record { same = λ id. rw (f, g) refl; same_given = λ id. rw g refl },
)

tokens_lem :
    (db db' : Accounts)
    → db'.tokens ≡ db.tokens
    → db'.next_id ≡ db.next_id
    → SameTokens store db db'
tokens_lem db db' f g = record { same = λ id. rw (f, g) refl; same_given = λ id. rw g refl }

sessions_lem : (db db' : Accounts) → db'.sessions ≡ db.sessions → SameSessions store db db'
sessions_lem db db' e = record { same = λ id. rw e refl }

row_keyed : (id : ℕ) (o : Option Cell) (t : SessionRow) → Option.map (row id) o ≡ some t → t.id ≡ id
row_keyed id none t h = absurd (ground arith)
row_keyed id (some c) t h =
    let same : row id c ≡ t = ground arith in ap (λ (r : SessionRow). r.id) (sym same)

hash_lem :
    (i : ℕ) (o : Option Cell) (a : SessionRow) → Option.map (row i) o ≡ some a → a.token_hash ≡ i
hash_lem i none a h = absurd (ground arith)
hash_lem i (some c) a h =
    let same : row i c ≡ a = ground arith in ap (λ (r : SessionRow). r.token_hash) (sym same)

session_read_lem :
    (hash : ℕ) (user : SafeUser) (o : Option Cell) (t : RefreshTokenRecord) (db : Accounts)
    → db.sessions hash ≡ o
    → Option.map (with_user user) (Option.map (row hash) o) ≡ some t
    → (row_at t.id db ≡ some (row_of t)) × (t.token_hash ≡ hash)
session_read_lem hash user none t db e h = absurd (ground arith)
session_read_lem hash user (some c) t db e h =
    let same : with_user user (row hash c) ≡ t = ground arith in
    rw (← same) (ap (Option.map (row hash)) e, refl)

opening_lem :
    (d : CreateRefreshTokenData) (o : Option Cell) (db db' : Accounts)
    → db.sessions d.token_hash ≡ o
    → opening d o db ≡ (ok tt, db')
    → ((id : ℕ) (t : SessionRow) → row_at id db ≡ some t → row_at id db' ≡ some t)
      × SameTokens store db db'
opening_lem d (some c) db db' e h = absurd (ground arith)
opening_lem d none db db' e h = (
  λ id t f. elim (Bool-cases (id == d.token_hash)) [
    | inl same ↦ absurd (ground arith)
    | inr differ ↦ ground arith
  ],
  tokens_lem db db' (ground arith) (ground arith),
)

opening_if_lem :
    (small : Bool) (d : CreateRefreshTokenData) (db db' : Accounts)
    → opening_if small d db ≡ (ok tt, db')
    → ((id : ℕ) (t : SessionRow) → row_at id db ≡ some t → row_at id db' ≡ some t)
      × SameTokens store db db'
opening_if_lem true d db db' h = opening_lem d (db.sessions d.token_hash) db db' refl h
opening_if_lem false d db db' h = absurd (ground arith)

opening-RollsBack : (d : CreateRefreshTokenData) (o : Option Cell) → RollsBack (opening d o)
opening-RollsBack d none db db' e h = absurd (ground arith)
opening-RollsBack d (some c) db db' e h = ground arith

opening_if-RollsBack : (small : Bool) (d : CreateRefreshTokenData) → RollsBack (opening_if small d)
opening_if-RollsBack true d db db' e h = opening-RollsBack d (db.sessions d.token_hash) db db' e h
opening_if-RollsBack false d db db' e h = ground arith

revoking_lem :
    (hit : SessionRow → Bool) (now hash : ℕ) (o : Option Cell)
    → Option.map (row hash) (Option.map (revoking hit now hash) o)
      ≡ Option.map (revoked_if hit now) (Option.map (row hash) o)
revoking_lem hit now hash none = refl
revoking_lem hit now hash (some c) = ground arith

token_keyed_lem :
    (id next : ℕ) (o : Option AuthTokenRecord) (t : AuthTokenRecord)
    → (if ltb id next then Option.map (keyed id) o else none) ≡ some t
    → (t.id ≡ id) × (ltb id next ≡ true)
token_keyed_lem id next none t h = absurd (ground arith)
token_keyed_lem id next (some u) t h = elim (Bool-cases (ltb id next)) [
  | inl old ↦
      let same : keyed id u ≡ t = ground arith in
      (ap (λ (r : AuthTokenRecord). r.id) (sym same), old)
  | inr fresh ↦ absurd (ground arith)
]

ltb-suc_lem : (j n : ℕ) → ltb j (suc n) ≡ (j == n || ltb j n)
ltb-suc_lem j n = ground arith

consumed_lem :
    (hit : AuthTokenRecord → Bool) (now id : ℕ) (old : Bool) (o : Option AuthTokenRecord)
    → (if old
        then Option.map
            (keyed id)
            (Option.map (consumed_if hit now) (if old then Option.map (keyed id) o else none))
        else none)
      ≡ Option.map (consumed_if hit now) (if old then Option.map (keyed id) o else none)
consumed_lem hit now id false o = refl
consumed_lem hit now id true none = refl
consumed_lem hit now id true (some t) = ground arith

dropped_lem :
    (hit : AuthTokenRecord → Bool) (id : ℕ) (old : Bool) (o : Option AuthTokenRecord)
    → (if old
        then Option.map (keyed id) (dropped_if hit (if old then Option.map (keyed id) o else none))
        else none)
      ≡ dropped_if hit (if old then Option.map (keyed id) o else none)
dropped_lem hit id false o = refl
dropped_lem hit id true none = refl
dropped_lem hit id true (some t) = ground arith

created_token_lem :
    (d : CreateAuthTokenData) (j : ℕ) (db : Accounts)
    → (if ltb j (suc db.next_id)
        then Option.map
            (keyed j)
            (if j == db.next_id then some (new_token db.next_id d) else db.tokens j)
        else none)
      ≡ (if j == db.next_id then some (new_token db.next_id d) else token_at j db)
created_token_lem d j db = elim (Bool-cases (j == db.next_id)) [
  | inl same ↦
      let e : j ≡ db.next_id = ground arith in
      let old : ltb j (suc db.next_id) ≡ true = ground arith in
      rw (same, old) (ap (λ (i : ℕ). some (new_token i d)) e)
  | inr differ ↦
      let old : ltb j (suc db.next_id) ≡ ltb j db.next_id = ground arith in rw (differ, old) refl
]

store-AuthRules : AuthRules store
store-AuthRules = record {
  session_read = λ hash t db h.
      session_read_lem hash db.profile.safe (db.sessions hash) t db refl (ground arith);
  session_keyed = λ id t db f. row_keyed id (db.sessions id) t f;
  unique_hash =
      λ i j a b db f g h. sym (hash_lem i (db.sessions i) a f) ∙ h ∙ hash_lem j (db.sessions j) b g;
  token_keyed = λ id t db f. token_keyed_lem id db.next_id (db.tokens id) t f;
  user_created = λ d u db db' h. same_lem db db' (ground arith) (ground arith) (ground arith);
  user_updated = λ id d u db db' h. same_lem db db' (ground arith) (ground arith) (ground arith);
  email_verified =
      λ id now u db db' h. same_lem db db' (ground arith) (ground arith) (ground arith);
  password_set = λ id hash n db db' h. same_lem db db' (ground arith) (ground arith) (ground arith);
  session_created = λ d db db' h. opening_if_lem (ltb d.token_hash room) d db db' h;
  sessions_revoked = λ hit now n db db' h. (
    λ j. ground (arith, revoking_lem hit now j (db.sessions j)),
    tokens_lem db db' (ground arith) (ground arith),
  );
  sessions_counted = λ hit now n db db' h some_rows.
      count_below-found hit (λ j. row_at j db) room (λ q. some_rows (ground arith));
  token_created = λ d t db db' h.
      let made : new_token db.next_id d ≡ t = ground arith in
      rw (← made) (
        ground arith,
        λ j. ground (arith, ltb-suc_lem j db.next_id),
        λ j. ground (arith, created_token_lem d j db),
        sessions_lem db db' (ground arith),
      );
  tokens_deleted = λ hit n db db' h. (
    λ j. ground (arith, dropped_lem hit j (ltb j db.next_id) (db.tokens j)),
    λ j. ground arith,
    sessions_lem db db' (ground arith),
  );
  tokens_consumed = λ hit now n db db' h. (
    λ j. ground (arith, consumed_lem hit now j (ltb j db.next_id) (db.tokens j)),
    λ j. ground arith,
    sessions_lem db db' (ground arith),
  );
  tokens_counted = λ hit now n db db' h some_rows.
      count_below-found hit (λ j. token_at j db) db.next_id (λ q. some_rows (ground arith));
  update_rolls_back = λ id d db db' e h. absurd (ground arith);
  session_rolls_back = λ d db db' e h. opening_if-RollsBack (ltb d.token_hash room) d db db' e h;
  revoke_rolls_back = λ hit now db db' e h. absurd (ground arith);
}

abbrev crypto : Crypto
crypto = record {
  bcrypt_hash = λ salt password. password;
  bcrypt_compare = λ password hash. password == hash;
  hash_token = λ token. token;
  sign_token = λ id email. id;
}

-- No email can be delivered.
abbrev no_mail : EmailService Accounts
no_mail = record {
  send_verification_email = λ user token. throw (infrastructure 0);
  send_password_reset_email = λ user token. throw (infrastructure 0);
}

abbrev config : AuthConfig
config = record {
  refresh_token_ttl_days = 30;
  email_verification_token_ttl_minutes = 60;
  password_reset_token_ttl_minutes = 60;
}

-- User 2 has the session 11, and a token for a reset under 6 (its hash and its id).
abbrev reset_token : AuthTokenRecord
reset_token = record {
  id = 6;
  user_id = 2;
  purpose = password_reset;
  token_hash = 6;
  expires_at = 500;
  consumed_at = none;
}

abbrev before : World Accounts
before = record {
  db = record {
    profile = account;
    sessions = λ j.
        if j == 11
        then some (record { user_id = 2; expires_at = 500; revoked_at = none })
        else none;
    tokens = λ j. if j == 6 then some reset_token else none;
    next_id = 7;
  };
  metrics = [];
}

abbrev repository_at : ℕ → AuthRepository Accounts
repository_at now = auth_repository store atomic now

abbrev after_refresh : World Accounts
after_refresh = (refresh (repository_at 100) crypto no_mail config 100 11 12 before).1

refresh_once_example : ¬ (
    refresh (repository_at 200) crypto no_mail config 200 11 13 after_refresh
    ≡ (ok (record { user = anna; token = 2; refresh_token = 13 }), after_refresh))
unfolding refresh rotating settle count_below
refresh_once_example =
    refresh_once store atomic atomic-TransactionRules store-AuthRules crypto no_mail no_mail config
      config 100 200 11 12 13 _ _ before after_refresh after_refresh after_refresh refl here

abbrev after_reset : World Accounts
after_reset = (reset_user_password (repository_at 100) crypto no_mail config 100 6 1 88 before).1

reset_ends_sessions_example : ¬ (
    refresh (repository_at 200) crypto no_mail config 200 11 13 after_reset
    ≡ (ok (record { user = anna; token = 2; refresh_token = 13 }), after_reset))
unfolding reset_user_password resetting settle count_below
reset_ends_sessions_example =
    reset_ends_sessions store atomic atomic-TransactionRules store-AuthRules crypto no_mail no_mail
      config config 100 200 6 1 88 11 13 reset_token _ _ before after_reset after_reset after_reset
      refl refl refl refl here

abbrev reset_db : Accounts
reset_db =
    ((repository_at 100).consume_password_reset_token_and_update_password 6 2 88 100 before.db).1

reset_once_example : ¬ (
    (repository_at 200).consume_password_reset_token_and_update_password 6 2 99 200 reset_db
    ≡ (ok true, reset_db))
unfolding resetting settle count_below
reset_once_example =
    reset_once store atomic atomic-TransactionRules store-AuthRules 100 200 6 2 2 88 99 100 200
      before.db reset_db reset_db reset_db refl here
