-- ===== src/Cosmwasm/Arithmetic.antt =====
-- The arithmetic of `cosmwasm_std::Uint128`, whose code is not part of the repository: its
-- operations are a parameter, and `IsUint128` is what their documentation says of them.
use mrgnd_perpetuals.Base.{
  ℕ, ◌+◌, ◌-◌, ◌*◌, ◌/◌, ◌^◌, ◌≡◌, refl, String, Outcome, ok, err, panic, ltb, leb, ◌==◌,
  if◌then◌else◌,
}

pub data StdError : Type 0 where
  generic_err : String → StdError
  not_found overflow divide_by_zero : StdError

abbrev pub StdResult : Type 0 → Type 0
StdResult = Outcome StdError

-- `checked_*` return an error that `?` turns into a `StdError`; the operators panic.
pub record Uint128 : Type 0 where
  pub checked_add : ℕ → ℕ → StdResult ℕ
  pub checked_sub : ℕ → ℕ → StdResult ℕ
  pub checked_mul : ℕ → ℕ → StdResult ℕ
  pub checked_div : ℕ → ℕ → StdResult ℕ
  pub sub : ℕ → ℕ → StdResult ℕ
  pub mul : ℕ → ℕ → StdResult ℕ
  pub div : ℕ → ℕ → StdResult ℕ

-- The arithmetic of `u128`: a result outside the type is an error, or a panic.
abbrev pub documented : Uint128
documented = record {
  checked_add = λ a b. if ltb (a + b) (2 ^ 128) then ok (a + b) else err overflow;
  checked_sub = λ a b. if leb b a then ok (a - b) else err overflow;
  checked_mul = λ a b. if ltb (a * b) (2 ^ 128) then ok (a * b) else err overflow;
  checked_div = λ a b. if b == 0 then err divide_by_zero else ok (a / b);
  sub = λ a b. if leb b a then ok (a - b) else panic;
  mul = λ a b. if ltb (a * b) (2 ^ 128) then ok (a * b) else panic;
  div = λ a b. if b == 0 then panic else ok (a / b);
}

pub record IsUint128 (u : Uint128) : Type 0 where
  pub checked_add_lem : (a b : ℕ) → u.checked_add a b ≡ documented.checked_add a b
  pub checked_sub_lem : (a b : ℕ) → u.checked_sub a b ≡ documented.checked_sub a b
  pub checked_mul_lem : (a b : ℕ) → u.checked_mul a b ≡ documented.checked_mul a b
  pub checked_div_lem : (a b : ℕ) → u.checked_div a b ≡ documented.checked_div a b
  pub sub_lem : (a b : ℕ) → u.sub a b ≡ documented.sub a b
  pub mul_lem : (a b : ℕ) → u.mul a b ≡ documented.mul a b
  pub div_lem : (a b : ℕ) → u.div a b ≡ documented.div a b

-- The documentation leaves one arithmetic, so a theorem rewrites its parameter by this equation.
pub eq-documented : (u : Uint128) → IsUint128 u → u ≡ documented
eq-documented u laws = λ i. record {
  checked_add = λ a b. laws.checked_add_lem a b i;
  checked_sub = λ a b. laws.checked_sub_lem a b i;
  checked_mul = λ a b. laws.checked_mul_lem a b i;
  checked_div = λ a b. laws.checked_div_lem a b i;
  sub = λ a b. laws.sub_lem a b i;
  mul = λ a b. laws.mul_lem a b i;
  div = λ a b. laws.div_lem a b i;
}

pub documented-IsUint128 : IsUint128 documented
documented-IsUint128 = record {
  checked_add_lem = λ a b. refl;
  checked_sub_lem = λ a b. refl;
  checked_mul_lem = λ a b. refl;
  checked_div_lem = λ a b. refl;
  sub_lem = λ a b. refl;
  mul_lem = λ a b. refl;
  div_lem = λ a b. refl;
}
