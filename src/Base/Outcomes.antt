-- ===== src/Base/Outcomes.antt =====
-- How a call of a contract ends: `Ok`, `Err`, or a panic (`unwrap` of a failure, an overflow in
-- plain arithmetic; the release profile of `Cargo.toml` keeps the overflow checks on).
use Prim.Native.Nat.{ℕ, ◌+◌, ◌-◌, ◌^◌}
use mathlib.Core.Path.{◌≡◌, refl, subst}
use mathlib.Core.Bool.{Bool, true, false}
use mathlib.Core.Option.{Option, none, some}
use mrgnd_perpetuals.Base.Tests.{ltb, leb, if◌then◌else◌}

pub data Outcome (E A : Type 0) : Type 0 where
  ok : A → Outcome E A
  err : E → Outcome E A
  panic : Outcome E A

infixl 5 ◌>>=◌ ◌>>◌
abbrev pub ◌>>=◌ : {E A B : Type 0} → Outcome E A → (A → Outcome E B) → Outcome E B
ok a >>= f = f a
err e >>= f = err e
panic >>= f = panic

abbrev pub ◌>>◌ : {E A B : Type 0} → Outcome E A → Outcome E B → Outcome E B
m >> k = m >>= λ _. k

-- `if !test { return Err(e); }`
abbrev pub guard : {E : Type 0} → Bool → E → Outcome E (Unit {0})
guard true e = ok tt
guard false e = err e

-- `?` where the error type changes.
abbrev pub map_err : {E F A : Type 0} → (E → F) → Outcome E A → Outcome F A
map_err f (ok a) = ok a
map_err f (err e) = err (f e)
map_err f panic = panic

-- `.unwrap()` of a `Result`, and of an `Option`.
abbrev pub unwrap : {E F A : Type 0} → Outcome E A → Outcome F A
unwrap (ok a) = ok a
unwrap (err e) = panic
unwrap panic = panic

abbrev pub unwrap_some : {E A : Type 0} → Option A → Outcome E A
unwrap_some (some a) = ok a
unwrap_some none = panic

-- `a.checked_sub(b).unwrap()` and `a + b` at `u64`, `10u128.pow(n)`.
abbrev pub u64_sub : {E : Type 0} → ℕ → ℕ → Outcome E ℕ
u64_sub a b = if leb b a then ok (a - b) else panic

abbrev pub u64_add : {E : Type 0} → ℕ → ℕ → Outcome E ℕ
u64_add a b = if ltb (a + b) (2 ^ 64) then ok (a + b) else panic

abbrev pub u128_pow10 : {E : Type 0} → ℕ → Outcome E ℕ
u128_pow10 n = if ltb n 39 then ok (10 ^ n) else panic

-- Inversion of a successful step.
pub >>=-eq-ok :
    {E A B : Type 0} (step : Outcome E A) (rest : A → Outcome E B) {result : B}
    → (step >>= rest) ≡ ok result
    → (given : A) × (step ≡ ok given) × (rest given ≡ ok result)
>>=-eq-ok panic rest h = cc
>>=-eq-ok (err why) rest h = cc
>>=-eq-ok (ok given) rest h = (given, refl, h)

pub map_err-eq-ok :
    {E F A : Type 0} (f : E → F) (m : Outcome E A) {a : A} → map_err f m ≡ ok a → m ≡ ok a
map_err-eq-ok f (ok a) h = cc
map_err-eq-ok f (err e) h = cc
map_err-eq-ok f panic h = cc

pub ok-injective : {E A : Type 0} {a b : A} → ◌≡◌ {A = Outcome E A} (ok a) (ok b) → a ≡ b
ok-injective h = cc

-- What holds of the result if there is one.
pub record Ensures {E A : Type 0} (P : A → Type 0) (m : Outcome E A) : Type 0 where
  pub holds : (a : A) → m ≡ ok a → P a

pub Ensures-ok : {E A : Type 0} (P : A → Type 0) (a : A) → P a → Ensures {E = E} P (ok a)
Ensures-ok P a h = record { holds = λ b e. subst P (ok-injective e) h }

pub Ensures->>= :
    {E A B : Type 0} (P : B → Type 0) (m : Outcome E A) (f : A → Outcome E B)
    → ((a : A) → m ≡ ok a → Ensures P (f a))
    → Ensures P (m >>= f)
Ensures->>= P m f h = record {
  holds = λ b e. let (a, given, e') = >>=-eq-ok m f e in (h a given).holds b e';
}

pub Ensures-err : {E A : Type 0} (P : A → Type 0) (e : E) → Ensures P (err e)
Ensures-err P e = record { holds = λ a h. absurd (cc) }

pub Ensures-panic : {E A : Type 0} (P : A → Type 0) → Ensures {E = E} P panic
Ensures-panic P = record { holds = λ a h. absurd (cc) }

pub Ensures-mono :
    {E A : Type 0} (P Q : A → Type 0) (m : Outcome E A)
    → Ensures P m
    → ((a : A) → P a → Q a)
    → Ensures Q m
Ensures-mono P Q m h k = record { holds = λ a e. k a (h.holds a e) }
