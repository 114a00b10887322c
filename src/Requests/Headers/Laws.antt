-- ===== src/Requests/Headers/Laws.antt =====
-- Which keys are let through, and that they are let through unchanged.
use split_bill_app.Prelude.{
  ℕ, ◌≡◌, ◌≤◌, ◌↔◌, ◌⊎◌, All, refl, sym, ap, subst, ◌∙◌, [], ◌∷◌, some, true, false, length,
  if◌then◌else◌, arith,
}
use split_bill_app.Effects.{ok}
use split_bill_app.Metrics.Table.{Text}
use split_bill_app.Requests.Headers.{
  is_space, is_safe, all_safe, trim, trim_start, trim_end, require_idempotency_key,
}

-- A letter, a digit, `.`, `_` or `-`, by its code unit.
abbrev pub IsSafeUnit : ℕ → Type 0
IsSafeUnit c =
    ((97 ≤ c) × (c ≤ 122))
    ⊎ ((65 ≤ c) × (c ≤ 90))
    ⊎ ((48 ≤ c) × (c ≤ 57))
    ⊎ (c ≡ 46)
    ⊎ (c ≡ 95)
    ⊎ (c ≡ 45)

safe_unit : (c : ℕ) → is_safe c ≡ true → IsSafeUnit c
safe_unit c h = ground arith

unit_safe : (c : ℕ) → IsSafeUnit c → is_safe c ≡ true
unit_safe c h = ground arith

all_safe_units : (t : Text) → all_safe t ≡ true → All IsSafeUnit t
all_safe_units [] h = tt
all_safe_units (c ∷ cs) h = (safe_unit c (ground arith), all_safe_units cs (ground arith))

units_all_safe : (t : Text) → All IsSafeUnit t → all_safe t ≡ true
units_all_safe [] h = refl
units_all_safe (c ∷ cs) (u, us) = ground (arith, unit_safe c u, units_all_safe cs us)

-- 8 to 128 such code units.
pub record IsKey (key : Text) : Type 0 where
  pub long_enough : 8 ≤ length key
  pub short_enough : length key ≤ 128
  pub safe : All IsSafeUnit key

safe_no_space : (c : ℕ) → is_safe c ≡ true → is_space c ≡ false
unfolding is_space
safe_no_space c h = ground arith

trim_start_safe : (t : Text) → all_safe t ≡ true → trim_start t ≡ t
trim_start_safe [] h = refl
trim_start_safe (c ∷ cs) h = ground (arith, safe_no_space c)

trim_end_safe : (t : Text) → all_safe t ≡ true → trim_end t ≡ t
trim_end_safe [] h = refl
trim_end_safe (c ∷ []) h = ground (arith, safe_no_space c)
trim_end_safe (c ∷ d ∷ ds) h =
    let rest : trim_end (d ∷ ds) ≡ d ∷ ds = trim_end_safe (d ∷ ds) (ground arith) in
    ap (λ t. elim t [ [] ↦ if is_space c then [] else c ∷ [] | ◌∷◌ e es ↦ c ∷ e ∷ es ]) rest

trim_safe : (t : Text) → all_safe t ≡ true → trim t ≡ t
trim_safe t h = ap trim_end (trim_start_safe t h) ∙ trim_end_safe t h

accepted-IsKey :
    (raw key : Text) → require_idempotency_key (some raw) ≡ ok key → (key ≡ trim raw) × IsKey key
unfolding require_idempotency_key
accepted-IsKey raw key h =
    let same : trim raw ≡ key = ground arith in
    (
      sym same,
      rw (← same) (record {
        long_enough = ground arith;
        short_enough = ground arith;
        safe = all_safe_units (trim raw) (ground arith);
      }),
    )

key_accepted : (raw : Text) → IsKey (trim raw) → require_idempotency_key (some raw) ≡ ok (trim raw)
unfolding require_idempotency_key
key_accepted raw k = ground (arith, k.long_enough, k.short_enough, units_all_safe (trim raw) k.safe)

-- A header is let through as `key` exactly if `key` is the header without the white space around it
-- and has 8 to 128 characters, all of them letters, digits, `.`, `_` or `-`.
pub require_idempotency_key-eq-ok_iff :
    (raw key : Text)
    → (require_idempotency_key (some raw) ≡ ok key) ↔ ((key ≡ trim raw) × IsKey key)
require_idempotency_key-eq-ok_iff raw key =
    (accepted-IsKey raw key, λ (e, k). rw e (key_accepted raw (subst IsKey e k)))

-- A key that was let through is let through again unchanged.
pub require_idempotency_key_again :
    (raw key : Text)
    → require_idempotency_key (some raw) ≡ ok key
    → require_idempotency_key (some key) ≡ ok key
require_idempotency_key_again raw key h =
    let (e, k) = accepted-IsKey raw key h in
    let same = trim_safe key (units_all_safe key k.safe) in
    key_accepted key (subst IsKey (sym same) k) ∙ ap ok same
