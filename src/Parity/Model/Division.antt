-- ===== src/Parity/Model/Division.antt =====
-- `div_round` of crates/parity/src/model.rs against the real quotient.
use solana_audit_toolkit.Prelude.{ℕ, ◌+◌, ◌*◌, ◌/◌, ◌%◌, ◌≤◌, ◌<◌, ◌≡◌, ◌≢◌, arith, u128_mod}
use native.Mathlib.Decide.{ℕ_discrete}
use solana_audit_toolkit.Parity.Model.{down, up, div_round}

-- Rounding down gives the largest quotient whose product does not pass the numerator.
pub div_round-down :
    (n d : ℕ) → 0 < d → (div_round n d down * d ≤ n) × (n < (div_round n d down + 1) * d)
unfolding div_round
div_round-down n d h = ground arith

pub div_le : (n d : ℕ) → n / d ≤ n
div_le n d = grind arith

pub quotient_room : (n d : ℕ) → 0 < d → n % d ≢ 0 → n / d + 1 ≤ n
quotient_room n d h r = grind arith

div_round_exact : (n d : ℕ) → 0 < d → n < u128_mod → n % d ≡ 0 → div_round n d up ≡ n / d
unfolding div_round
div_round_exact n d h k r = ground (arith, div_le n d)

pub div_round_inexact : (n d : ℕ) → 0 < d → n < u128_mod → n % d ≢ 0 → div_round n d up ≡ n / d + 1
unfolding div_round
div_round_inexact n d h k r = ground (arith, quotient_room n d h r)

-- For a positive divisor and a numerator below 2 ^ 128, rounding up gives the least quotient
-- whose product covers the numerator.
pub div_round-up :
    (n d : ℕ) → 0 < d → n < u128_mod → (n ≤ div_round n d up * d) × (div_round n d up * d < n + d)
div_round-up n d h k = elim (ℕ_discrete (n % d) 0) [
  | yes r ↦ rw (div_round_exact n d h k r) (grind arith)
  | no r ↦ rw (div_round_inexact n d h k r) (grind arith)
]
