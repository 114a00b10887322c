-- ===== src/Records.antt =====
-- Records that several modules of backend/src/modules share: the safe user fields, the columns that
-- `findGroupById` selects, the activity event that accompanies a write, and a page of a list.
mod Tests
use split_bill_app.Prelude.{
  ℕ, zero, suc, ◌+◌, ◌*◌, ◌/◌, ◌%◌, ◌^◌, ◌<◌, ◌≤◌, ◌≡◌, refl, ap, subst, ◌∙◌, ◌⊎◌, inl, inr,
  Bool-cases, Option, String, true, false, ltb, ◌==◌, ◌&&◌, ◌||◌, if◌then◌else◌, arith,
}
use native.Mathlib.Nat.{
  pow-suc, mul_assoc, div-add-mod', mod-lt, add-mul, one-mul, div-lt_iff_lt-mul,
}

pub record SafeUser : Type 0 where
  pub id : ℕ
  pub name : String
  pub email : String

pub record GroupRef : Type 0 where
  pub id : ℕ
  pub name : String
  pub created_by_id : ℕ

pub data ActivityType : Type 0 where
  expense_added expense_updated expense_deleted settlement_added : ActivityType
  group_created group_updated member_added member_removed : ActivityType

pub record ActivityEventInput : Type 0 where
  pub user_id : ℕ
  pub type : ActivityType
  pub message : String

-- `CreateActivityEventData` of backend/src/modules/activity/activity.repository.ts
pub record ActivityEventData : Type 0 where
  pub group_id : ℕ
  pub event : ActivityEventInput
  pub amount_minor_units : Option ℕ
  pub currency_code : Option String
  pub occurred_at : ℕ

pub record Pagination : Type 0 where
  pub page : ℕ
  pub limit : ℕ

-- The spacing of the doubles about `n`: the least power of two `s` with `n < 2 ^ 53 * s`.
spacing : ℕ → ℕ → ℕ → ℕ
spacing zero n s = s
spacing (suc fuel) n s = elim (ltb n (2 ^ 53 * s)) [ true ↦ s | false ↦ spacing fuel n (2 * s) ]

-- To the nearest multiple of `s`, ties to an even quotient.
round_to : ℕ → ℕ → ℕ
round_to n s =
    let q = n / s in
    let r = n % s in if ltb s (2 * r) || (2 * r == s && q % 2 == 1) then (q + 1) * s else q * s

-- `Number(value)` of a non-negative bigint: the nearest double. The fuel serves below 2 ^ 117, far
-- beyond a BIGINT column and any sum of them.
pub to_num : ℕ → ℕ
unfolding spacing round_to
to_num value = if ltb value (2 ^ 53) then value else round_to value (spacing 64 value 1)

-- `Number(value)` of a safe integer is that integer.
pub to_num_exact : (n : ℕ) → n < 2 ^ 53 → to_num n ≡ n
unfolding to_num
to_num_exact n h = ground arith

-- The search for the spacing has found it: the fuel was enough.
spacing_found : (fuel n s : ℕ) → n < 2 ^ 53 * (2 ^ fuel * s) → n < 2 ^ 53 * spacing fuel n s
unfolding spacing
spacing_found zero n s h = ground (arith, h)
spacing_found (suc fuel) n s h = elim (Bool-cases (ltb n (2 ^ 53 * s))) [
  | inl found ↦ ground (arith, found)
  | inr not_yet ↦
      let same : 2 ^ suc fuel * s ≡ 2 ^ fuel * (2 * s) =
        ap (λ p. p * s) (pow-suc 2 fuel) ∙ mul_assoc (2 ^ fuel) 2 s in
      let later = spacing_found fuel n (2 * s) (subst (λ p. n < 2 ^ 53 * p) same h) in
      ground (arith, later)
]

positive_spacing : (fuel n s : ℕ) → 0 < s → 0 < spacing fuel n s
unfolding spacing
positive_spacing zero n s h = h
positive_spacing (suc fuel) n s h =
    ground (arith, positive_spacing fuel n (2 * s) (omega (arith, h)))

-- Half a spacing is the most by which rounding is off: `a` is the multiple below, `r` the rest.
round_to_near : (n s : ℕ) → 0 < s → (2 * round_to n s ≤ 2 * n + s) × (2 * n ≤ 2 * round_to n s + s)
unfolding round_to
round_to_near n s h =
    let parts = div-add-mod' n s in
    let rest = mod-lt n h in
    let up : (n / s + 1) * s ≡ n / s * s + s =
      add-mul (n / s) 1 s ∙ ap (λ p. n / s * s + p) (one-mul s) in
    (ground (arith, parts, rest, up), ground (arith, parts, rest, up))

-- The spacing is not too wide.
spacing_small : (fuel n s : ℕ) → 2 ^ 52 * s ≤ n → 2 ^ 52 * spacing fuel n s ≤ n
unfolding spacing
spacing_small zero n s h = h
spacing_small (suc fuel) n s h = elim (Bool-cases (ltb n (2 ^ 53 * s))) [
  | inl found ↦ ground (arith, h)
  | inr not_yet ↦
      let wide : 2 ^ 52 * (2 * s) ≤ n = ground (arith, not_yet) in
      ground (arith, spacing_small fuel n (2 * s) wide)
]

spacing_power : (fuel n s k : ℕ) → s ≡ 2 ^ k → (j : ℕ) × (spacing fuel n s ≡ 2 ^ j)
unfolding spacing
spacing_power zero n s k h = (k, h)
spacing_power (suc fuel) n s k h = elim (Bool-cases (ltb n (2 ^ 53 * s))) [
  | inl found ↦ (k, ground (arith, h))
  | inr not_yet ↦
      let twice : 2 * s ≡ 2 ^ suc k = omega (arith, h, pow-suc 2 k) in
      let (j, e) = spacing_power fuel n (2 * s) (suc k) twice in (j, ground (arith, e))
]

-- The quotient of the rounded number has at most 53 bits, or is 2 ^ 53.
round_to_quotient :
    (n s : ℕ) → 0 < s → n < 2 ^ 53 * s → (q : ℕ) × (round_to n s ≡ q * s) × (q ≤ 2 ^ 53)
unfolding round_to
round_to_quotient n s h fits =
    let small : n / s < 2 ^ 53 = (div-lt_iff_lt-mul h).1 fits in
    elim (Bool-cases (ltb s (2 * (n % s)) || (2 * (n % s) == s && (n / s) % 2 == 1))) [
      | inl up ↦ (n / s + 1, ground arith, omega (arith, small))
      | inr down ↦ (n / s, ground arith, omega (arith, small))
    ]

-- `Number(value)` of a bigint below 2 ^ 117 is the product of a power of two and a number of at most
-- 2 ^ 53, as a double is, and differs from the value by at most one part in 2 ^ 53.
pub to_num_near :
    (n : ℕ)
    → n < 2 ^ 117
    → ((q : ℕ) × (k : ℕ) × (to_num n ≡ q * 2 ^ k) × (q ≤ 2 ^ 53))
      × (2 ^ 53 * to_num n ≤ 2 ^ 53 * n + n)
      × (2 ^ 53 * n ≤ 2 ^ 53 * to_num n + n)
unfolding to_num
to_num_near n h = elim (Bool-cases (ltb n (2 ^ 53))) [
  | inl safe ↦ ((n, 0, ground arith, ground arith), ground arith, ground arith)
  | inr wide ↦
      let s = spacing 64 n 1 in
      let positive = positive_spacing 64 n 1 (omega arith) in
      let (above, below) = round_to_near n s positive in
      let small = spacing_small 64 n 1 (ground (arith, wide)) in
      let (q, made, bits) =
        round_to_quotient n s positive (spacing_found 64 n 1 (omega (arith, h))) in
      let (k, power) = spacing_power 64 n 1 0 refl in
      (
        (q, k, ground (arith, made, power), bits),
        ground (arith, above, small),
        ground (arith, below, small),
      )
]
