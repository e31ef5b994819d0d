-- ===== src/Common/Words.antt =====
-- Machine words as native numbers. `u128` arithmetic wraps at 2 ^ 128, as in the release build that
-- the repository ships (no `overflow-checks` in Cargo.toml); `U256` arithmetic wraps at 2 ^ 256, as
-- that type documents. A division by zero panics: `none`.
use Prim.Native.Nat.{ℕ, ◌+◌, ◌-◌, ◌*◌, ◌/◌, ◌%◌, ◌^◌}
use mathlib.Core.Option.{Option, none, some}
use mathlib.Core.Path.{◌≡◌, refl}
use reth_exex_liquidity.Common.Tests.{◌==◌, if◌then◌else◌}

abbrev pub u128_mod : ℕ
u128_mod = 2 ^ 128

abbrev pub u256_mod : ℕ
u256_mod = 2 ^ 256

abbrev pub add128 : ℕ → ℕ → ℕ
add128 a b = (a + b) % u128_mod

abbrev pub sub128 : ℕ → ℕ → ℕ
sub128 a b = (a + u128_mod - b) % u128_mod

abbrev pub mul128 : ℕ → ℕ → ℕ
mul128 a b = a * b % u128_mod

abbrev pub add256 : ℕ → ℕ → ℕ
add256 a b = (a + b) % u256_mod

abbrev pub sub256 : ℕ → ℕ → ℕ
sub256 a b = (a + u256_mod - b) % u256_mod

abbrev pub mul256 : ℕ → ℕ → ℕ
mul256 a b = a * b % u256_mod

-- `x >> k` and `x & (2 ^ w - 1)` on values below the word's size.
abbrev pub bits : ℕ → ℕ → ℕ → ℕ
bits x k w = x / 2 ^ k % 2 ^ w

-- A computation that may panic.
infixl 5 ◌>>=◌
abbrev pub ◌>>=◌ {ℓ κ} : {A : Type ℓ} {B : Type κ} → Option A → (A → Option B) → Option B
none >>= f = none
some a >>= f = f a

-- Where such a computation comes from.
pub bind_some {ℓ κ} :
    {A : Type ℓ} {B : Type κ} (o : Option A) (f : A → Option B) {b : B}
    → (o >>= f) ≡ some b
    → (a : A) × (o ≡ some a) × (f a ≡ some b)
bind_some none f e = cc
bind_some (some a) f e = (a, refl, e)

abbrev pub div : ℕ → ℕ → Option ℕ
div a b = if b == 0 then none else some (a / b)
