-- ===== src/Parity/Model/Price.antt =====
-- The price of a share of the lending model (crates/parity/src/model.rs) is the quotient of
-- `total_deposits` by `total_shares`; two prices are compared by cross products.
use solana_audit_toolkit.Prelude.{
  ℕ, ◌+◌, ◌-◌, ◌*◌, ◌/◌, ◌%◌, ◌≤◌, ◌<◌, ◌≡◌, ◌≢◌, arith, u128_mod, saturating_add_u128, Text, ok,
}
use native.Mathlib.Decide.{dec_le, ℕ_discrete}
use solana_audit_toolkit.Parity.Scenario.{Op, deposit, withdraw, borrow, repay, accrue, set_price}
use solana_audit_toolkit.Parity.Model.{
  LendingModel, down, up, apply, shares_for_deposit, shares_for_withdraw, div_round,
}
use solana_audit_toolkit.Parity.Model.Division.{div_round-down, div_round-up}

-- `m'` has at least the share price of `m`.
abbrev pub PriceAtLeast : LendingModel → LendingModel → Type 0
PriceAtLeast m m' = m.total_deposits * m'.total_shares ≤ m'.total_deposits * m.total_shares

-- The sums and products of the operation stay below 2 ^ 128.
abbrev pub ShareMathFits : Op → LendingModel → Type 0
ShareMathFits (deposit u a) m =
    (a * m.total_shares < u128_mod)
    × (m.total_deposits + a < u128_mod)
    × (m.total_shares + shares_for_deposit m a < u128_mod)
ShareMathFits (withdraw u a) m = a * m.total_shares < u128_mod
ShareMathFits _ m = Unit {0}

-- The reference model's rounding, with shares outstanding that cover the user's.
pub record IsReference (m : LendingModel) : Type 0 where
  pub burns_up : m.withdraw_rounding ≡ up
  pub mints_down : m.deposit_rounding ≡ down
  pub outstanding : 0 < m.total_shares
  pub covered : m.user_shares ≤ m.total_shares
  pub shares_fit : m.total_shares < u128_mod
  pub deposits_fit : m.total_deposits < u128_mod

-- The shares burned on a withdrawal cover its value.
burn_covers :
    (m : LendingModel) (a : ℕ)
    → IsReference m
    → 0 < m.total_deposits
    → a * m.total_shares < u128_mod
    → a * m.total_shares ≤ shares_for_withdraw m a * m.total_deposits
unfolding shares_for_withdraw
burn_covers m a r d f =
    rw r.burns_up
      (ground (arith, div_round-up (a * m.total_shares) m.total_deposits, r.outstanding))

-- The shares minted on a deposit are covered by its value.
mint_covered :
    (m : LendingModel) (a : ℕ)
    → IsReference m
    → 0 < m.total_deposits
    → a * m.total_shares < u128_mod
    → shares_for_deposit m a * m.total_deposits ≤ a * m.total_shares
unfolding shares_for_deposit
mint_covered m a r d f =
    rw r.mints_down
      (ground (arith, div_round-down (a * m.total_shares) m.total_deposits, r.outstanding))

value_le_deposits : (D S s a : ℕ) → a * S ≤ s * D → s ≤ S → 0 < S → a ≤ D
value_le_deposits D S s a c k p = elim (dec_le a D) [ yes h ↦ h | no h ↦ absurd (grind arith) ]

burn_in_parts : (a e s t : ℕ) → a * (s + t) ≤ s * (a + e) → (a + e) * t ≤ e * (s + t)
burn_in_parts a e s t h = omega arith

-- The cross products of a price before and after a burn of `s` for `a`.
burn_keeps_price : (D S s a : ℕ) → a * S ≤ s * D → s ≤ S → 0 < S → D * (S - s) ≤ (D - a) * S
burn_keeps_price D S s a c k p =
    let D_parts : a + (D - a) ≡ D = omega (arith, value_le_deposits D S s a c k p) in
    let S_parts : s + (S - s) ≡ S = omega arith in
    rw (D_parts, S_parts) at (burn_in_parts a (D - a) s (S - s) (rw (D_parts, S_parts) c))

mint_keeps_price : (D S s a : ℕ) → s * D ≤ a * S → D * (S + s) ≤ (D + a) * S
mint_keeps_price D S s a c = grind arith

withdraw-PriceAtLeast :
    (u : Text) (a : ℕ) (m : LendingModel)
    → IsReference m
    → a * m.total_shares < u128_mod
    → PriceAtLeast m (apply (withdraw u a) m).1
unfolding apply
withdraw-PriceAtLeast u a m r f = elim (ℕ_discrete m.total_deposits 0) [
  | yes z ↦ rw z (ground arith)
  | no d ↦ ground (
    arith,
    burn_covers m a r (omega arith) f,
    burn_keeps_price m.total_deposits m.total_shares (shares_for_withdraw m a) a,
    r.outstanding,
    r.covered,
    r.shares_fit,
  )
]

deposit-PriceAtLeast :
    (u : Text) (a : ℕ) (m : LendingModel)
    → IsReference m
    → ShareMathFits (deposit u a) m
    → PriceAtLeast m (apply (deposit u a) m).1
unfolding apply
deposit-PriceAtLeast u a m r (f, g, k) = elim (ℕ_discrete m.total_deposits 0) [
  | yes z ↦ rw z (ground arith)
  | no d ↦ ground (
    arith,
    mint_covered m a r (omega arith) f,
    mint_keeps_price m.total_deposits m.total_shares (shares_for_deposit m a) a,
  )
]

interest_keeps_price : (D S i : ℕ) → D < u128_mod → D * S ≤ saturating_add_u128 D i * S
interest_keeps_price D S i h = grind arith

-- No operation of the reference model lowers the price of a share, as long as shares are
-- outstanding, they cover the user's, and the operation's share arithmetic stays below 2 ^ 128.
pub apply-PriceAtLeast :
    (op : Op) (m : LendingModel)
    → IsReference m
    → ShareMathFits op m
    → PriceAtLeast m (apply op m).1
unfolding apply
apply-PriceAtLeast (deposit u a) m r f = deposit-PriceAtLeast u a m r f
apply-PriceAtLeast (withdraw u a) m r f = withdraw-PriceAtLeast u a m r f
apply-PriceAtLeast (borrow u a) m r f = ground arith
apply-PriceAtLeast (repay u a) m r f = omega arith
apply-PriceAtLeast (accrue t) m r f =
    interest_keeps_price m.total_deposits m.total_shares _ r.deposits_fit
apply-PriceAtLeast (set_price p) m r f = omega arith

floor_in_parts : (a e s t : ℕ) → s * (a + e) < a * (s + t) → e * (s + t) < (a + e) * t
floor_in_parts a e s t h = omega arith

floor_lowers_price : (D S s a : ℕ) → s * D < a * S → s ≤ S → a ≤ D → (D - a) * S < D * (S - s)
floor_lowers_price D S s a c k p =
    let D_parts : a + (D - a) ≡ D = omega arith in
    let S_parts : s + (S - s) ≡ S = omega arith in
    rw (D_parts, S_parts) at (floor_in_parts a (D - a) s (S - s) (rw (D_parts, S_parts) c))

quotient_falls_short : (x y : ℕ) → 0 < y → x % y ≢ 0 → x / y * y < x
quotient_falls_short x y h r = grind arith

deposits_pos : (a S D : ℕ) → a ≤ D → a * S % D ≢ 0 → 0 < D
deposits_pos a S D h n = grind arith

burn_falls_short :
    (m : LendingModel) (a : ℕ)
    → m.withdraw_rounding ≡ down
    → 0 < m.total_deposits
    → 0 < m.total_shares
    → a * m.total_shares < u128_mod
    → a * m.total_shares % m.total_deposits ≢ 0
    → shares_for_withdraw m a * m.total_deposits < a * m.total_shares
unfolding shares_for_withdraw div_round
burn_falls_short m a w d p f n =
    rw w (ground (arith, quotient_falls_short (a * m.total_shares) m.total_deposits))

-- With shares burned by rounding down, every accepted withdrawal of at most the deposits whose
-- value is not a whole number of shares lowers the price of the shares that are left, where
-- shares are outstanding, they cover the user's, and they and their product with the amount stay
-- below 2 ^ 128.
pub withdraw_down_lowers_price :
    (u : Text) (a : ℕ) (m : LendingModel)
    → m.withdraw_rounding ≡ down
    → 0 < m.total_shares
    → m.user_shares ≤ m.total_shares
    → m.total_shares < u128_mod
    → a ≤ m.total_deposits
    → a * m.total_shares < u128_mod
    → a * m.total_shares % m.total_deposits ≢ 0
    → (apply (withdraw u a) m).0 ≡ ok tt
    → (apply (withdraw u a) m).1.total_deposits * m.total_shares
      < m.total_deposits * (apply (withdraw u a) m).1.total_shares
unfolding apply
withdraw_down_lowers_price u a m w p c f d g n accepted =
    let D_pos : 0 < m.total_deposits = deposits_pos a m.total_shares m.total_deposits d n in
    ground (
      arith,
      burn_falls_short m a w D_pos p g n,
      floor_lowers_price m.total_deposits m.total_shares (shares_for_withdraw m a) a,
    )
