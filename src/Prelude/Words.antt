-- ===== src/Prelude/Words.antt =====
-- Unsigned machine integers. Plain operators wrap round, as in a release build of the workspace
-- (its manifests do not turn `overflow-checks` on); `saturating_*` stop at the ends.
use Prim.Native.Nat.{ℕ, ◌+◌, ◌-◌, ◌*◌, ◌%◌, ◌^◌, min}

abbrev pub u64_mod : ℕ
u64_mod = 2 ^ 64

abbrev pub u128_mod : ℕ
u128_mod = 2 ^ 128

-- `x as u64` of a `u128`
abbrev pub as_u64 : ℕ → ℕ
as_u64 x = x % u64_mod

abbrev pub add_u128 : ℕ → ℕ → ℕ
add_u128 a b = (a + b) % u128_mod

abbrev pub sub_u128 : ℕ → ℕ → ℕ
sub_u128 a b = (a + u128_mod - b) % u128_mod

abbrev pub mul_u128 : ℕ → ℕ → ℕ
mul_u128 a b = a * b % u128_mod

abbrev pub saturating_sub : ℕ → ℕ → ℕ
saturating_sub a b = a - b

abbrev pub saturating_add_u128 : ℕ → ℕ → ℕ
saturating_add_u128 a b = min (a + b) (u128_mod - 1)

abbrev pub saturating_mul_u128 : ℕ → ℕ → ℕ
saturating_mul_u128 a b = min (a * b) (u128_mod - 1)

abbrev pub saturating_add_u64 : ℕ → ℕ → ℕ
saturating_add_u64 a b = min (a + b) (u64_mod - 1)
