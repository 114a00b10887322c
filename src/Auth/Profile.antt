-- ===== src/Auth/Profile.antt =====
-- The profile of the signed-in user and the check of a JWT (`AuthService`).
use split_bill_app.Prelude.{
  ℕ, ◌≡◌, ◌≢◌, ◌↔◌, refl, sym, ap, ◌∙◌, subst, inl, inr, Option, none, some, String, Bool, true,
  false, not, ◌||◌, if◌then◌else◌, Bool-cases, Option-cases, arith,
}
use text.Mathlib.Text.{◌==◌}
use text.Mathlib.TextEquality.{eq_iff}
use split_bill_app.Errors.{
  app, conflict_error, not_found_error, unauthorized_error, email_in_use, user_not_found,
  token_invalid, token_expired,
}
use split_bill_app.Effects.{
  Result, ok, err, Action, pure, or_throw, require, ◌>>=◌, ◌>>◌, World, query, command,
}
use split_bill_app.Effects.Inversion.{Result-cases, Write-cases}
use split_bill_app.Records.{SafeUser}
use split_bill_app.Auth.{User, UserUpdate, AuthRepository}
use split_bill_app.Auth.Tokens.{taken_by_other}

abbrev pub is_empty : String → Bool
is_empty String.[] = true
is_empty (String.◌∷◌ c s) = false

pub record ProfileInput : Type 0 where
  pub name : Option String
  pub email : Option String

-- What `jwt.verify` does: it returns the claims `sub` and `email`, as far as they are texts, or
-- throws a TokenExpiredError or another error.
pub data JwtOutcome : Type 0 where
  verified : Option String → Option String → JwtOutcome
  expired rejected : JwtOutcome

pub record JwtPayload : Type 0 where
  pub sub : String
  pub email : String

unfoldable pub verify_token : JwtOutcome → Result JwtPayload
verify_token (verified (some sub) (some email)) =
    if is_empty sub || is_empty email
    then err (app (unauthorized_error token_invalid))
    else ok (record { sub = sub; email = email })
verify_token (verified sub email) = err (app (unauthorized_error token_invalid))
verify_token expired = err (app (unauthorized_error token_expired))
verify_token rejected = err (app (unauthorized_error token_invalid))

-- `to_lower` is `toLowerCase`.
abbrev pub email_changed : (String → String) → Option String → User → Bool
email_changed to_lower none user = false
email_changed to_lower (some email) user = not (to_lower email == to_lower user.email)

email_changed_iff :
    (to_lower : String → String) (given : Option String) (user : User)
    → (email_changed to_lower given user ≡ true)
      ↔ ((email : String) × (given ≡ some email) × (to_lower email ≢ to_lower user.email))
email_changed_iff to_lower none user =
    (λ h. absurd (ground arith), λ (e, q, r). absurd (ground arith))
email_changed_iff to_lower (some email) user =
    let compared = eq_iff (to_lower email) (to_lower user.email) in
    (
      λ h. (email, refl, λ q. absurd (ground (arith, compared.1 q))),
      λ (e, q, r). elim (Bool-cases (to_lower email == to_lower user.email)) [
        | inl same ↦
            let given : email ≡ e = ground arith in
            absurd (r (ap to_lower (sym given) ∙ compared.0 same))
        | inr differ ↦ ground arith
      ],
    )

abbrev pub profile_update : (String → String) → ProfileInput → User → UserUpdate
profile_update to_lower input user = record {
  name = input.name;
  email = input.email;
  clear_verification = email_changed to_lower input.email user;
}

module _ {Db : Type 0} (repository : AuthRepository Db) (to_lower : String → String) where
  -- The address must not be that of another user. An empty one is not looked up.
  abbrev pub check_email : ℕ → Option String → Action (World Db) (Unit {0})
  check_email user_id none = pure tt
  check_email user_id (some email) = elim (is_empty email) [
    | true ↦ pure tt
    | false ↦ query (repository.find_by_email email) >>= λ existing.
        require (not (taken_by_other user_id existing)) (app (conflict_error email_in_use))
  ]

  unfoldable pub update_current_user : ℕ → ProfileInput → Action (World Db) SafeUser
  update_current_user user_id input = do
    found ← query (repository.find_by_id user_id)
    user ← or_throw found (app (not_found_error user_not_found))
    check_email user_id input.email
    updated ← command (repository.update user_id (profile_update to_lower input user))
    or_throw updated (app (not_found_error user_not_found))

  -- What a successful change of the profile has done.
  pub record ProfileUpdated (user_id : ℕ) (input : ProfileInput) (w : World Db) (answer : SafeUser)
      (w' : World Db) : Type 0 where
    pub user : User
    pub user_found : repository.find_by_id user_id w.db ≡ ok (some user)
    pub change : UserUpdate
    pub written : repository.update user_id change w.db ≡ (ok (some answer), w'.db)
    pub same_name : change.name ≡ input.name
    pub same_email : change.email ≡ input.email
    pub cleared_iff :
        (change.clear_verification ≡ true)
        ↔ ((email : String) × (input.email ≡ some email) × (to_lower email ≢ to_lower user.email))
    pub address_free :
        (email : String) (existing : Option User)
        → input.email ≡ some email
        → is_empty email ≡ false
        → repository.find_by_email email w.db ≡ ok existing
        → taken_by_other user_id existing ≡ false
    pub not_counted : w'.metrics ≡ w.metrics

  check_email_keeps :
      (user_id : ℕ) (email : Option String) (w w' : World Db)
      → check_email user_id email w ≡ (ok tt, w')
      → w' ≡ w
  check_email_keeps user_id none w w' h = ground arith
  check_email_keeps user_id (some email) w w' h = elim (Bool-cases (is_empty email)) [
    | inl blank ↦ ground arith
    | inr given ↦ elim (Result-cases (repository.find_by_email email w.db)) [
      | inl (o, known) ↦ ground arith
      | inr (x, failed) ↦ absurd (ground arith)
    ]
  ]

  email_free :
      (user_id : ℕ) (email : Option String) (given : String) (existing : Option User)
      (w w' : World Db)
      → check_email user_id email w ≡ (ok tt, w')
      → email ≡ some given
      → is_empty given ≡ false
      → repository.find_by_email given w.db ≡ ok existing
      → taken_by_other user_id existing ≡ false
  email_free user_id none given existing w w' h same full known = absurd (ground arith)
  email_free user_id (some email) given existing w w' h same full known =
      let e : email ≡ given = ground arith in
      let checked = subst (λ (x : String). check_email user_id (some x) w ≡ (ok tt, w')) e h in
      ground (arith, checked)

  updated_lem :
      (user_id : ℕ) (input : ProfileInput) (user : User) (w : World Db) (answer : SafeUser)
      (w' : World Db)
      → repository.find_by_id user_id w.db ≡ ok (some user)
      → update_current_user user_id input w ≡ (ok answer, w')
      → ProfileUpdated user_id input w answer w'
  unfolding update_current_user
  updated_lem user_id input user w answer w' found h =
      elim (Write-cases (check_email user_id input.email w)) [
        | inr (x, a, failed) ↦ absurd (ground arith)
        | inl (u, a, free) ↦
            let same = check_email_keeps user_id input.email w a free in
            let change = profile_update to_lower input user in
            elim (Write-cases (repository.update user_id change w.db)) [
              | inr (x, db', failed) ↦ absurd (ground (arith, same))
              | inl (o, db', written) ↦ record {
                user = user;
                user_found = found;
                change = change;
                written = ground (arith, same);
                same_name = refl;
                same_email = refl;
                cleared_iff = email_changed_iff to_lower input.email user;
                address_free =
                    λ email existing. email_free user_id input.email email existing w a free;
                not_counted = ground (arith, same);
              }
            ]
      ]

  -- If `updateCurrentUser` returns, the user was there, the repository has stored exactly the given
  -- name and address, with the verification cleared if the address differs from the old one in more
  -- than case, the answer is what the repository returned, and an address that is not empty did not
  -- belong to another user.
  pub update_current_user-ProfileUpdated :
      (user_id : ℕ) (input : ProfileInput) (w : World Db) (answer : SafeUser) (w' : World Db)
      → update_current_user user_id input w ≡ (ok answer, w')
      → ProfileUpdated user_id input w answer w'
  unfolding update_current_user
  update_current_user-ProfileUpdated user_id input w answer w' h =
      elim (Result-cases (repository.find_by_id user_id w.db)) [
        | inr (x, failed) ↦ absurd (ground arith)
        | inl (o, found) ↦ elim (Option-cases o) [
          | inl missing ↦ absurd (ground arith)
          | inr (user, there) ↦ updated_lem user_id input user w answer w' (ground arith) h
        ]
      ]
