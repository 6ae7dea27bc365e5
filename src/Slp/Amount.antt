-- ===== src/Slp/Amount.antt =====
-- bitcoinsuite-slp/src/slp_amount.rs: `SlpAmount`, an amount of base tokens in 128 signed bits. The
-- arithmetic wraps around, as an optimised build of the source does, and `none` is a division that
-- panics. `Display` is not modelled.
pub mod Sums
pub mod Decimals
use bitcoinsuite.Base.{
  suc, ◌+◌, ◌/◌, ◌^◌, Option, none, some, and_then, leb, ◌==◌, if◌then◌else◌, List, [], ◌∷◌, Bool,
  not, ◌&&◌,
}
use bitcoinsuite.Base.Int.{ℤ, pos, ◌+ℤ◌, ◌-ℤ◌, ◌*ℤ◌, negsuc, pos_part, neg_part, ltb_ℤ}
use bitcoinsuite.Bytes.Endian.{to_pattern, from_pattern}

pub record SlpAmount : Type 0 where
  pub base_amount : ℤ

-- `SlpAmount::new`
abbrev pub mk_amount : ℤ → SlpAmount
mk_amount n = record { base_amount = n }

abbrev pub zero_amount : SlpAmount
zero_amount = mk_amount (pos 0)

-- An i128 after an operation: 16 bytes, in two's complement.
unfoldable pub wrap : ℤ → ℤ
wrap z = from_pattern 16 (to_pattern 16 z)

unfoldable pub add : SlpAmount → SlpAmount → SlpAmount
add a b = mk_amount (wrap (a.base_amount +ℤ b.base_amount))

unfoldable pub sub : SlpAmount → SlpAmount → SlpAmount
sub a b = mk_amount (wrap (a.base_amount -ℤ b.base_amount))

-- `Neg::neg`, which gives the amount itself.
unfoldable pub neg : SlpAmount → SlpAmount
neg a = mk_amount a.base_amount

-- `Mul<i128> for SlpAmount`, and `Mul<SlpAmount> for i128`.
unfoldable pub mul : SlpAmount → ℤ → SlpAmount
mul a rhs = mk_amount (wrap (a.base_amount *ℤ rhs))

unfoldable pub mul_amount : ℤ → SlpAmount → SlpAmount
mul_amount n rhs = mk_amount (wrap (n *ℤ rhs.base_amount))

-- `a / b` on i128, which rounds towards zero and panics for 0 and where the quotient is no i128.
abbrev pub quot_i128 : ℤ → ℤ → ℤ
quot_i128 (pos a) (pos b) = pos (a / b)
quot_i128 (pos a) (negsuc b) = pos 0 -ℤ pos (a / suc b)
quot_i128 (negsuc a) (pos b) = pos 0 -ℤ pos (suc a / b)
quot_i128 (negsuc a) (negsuc b) = pos (suc a / suc b)

abbrev pub divide : ℤ → ℤ → Option ℤ
divide a b =
    if pos_part b + neg_part b == 0
    then none
    else if leb (256 ^ 16 / 2) (pos_part (quot_i128 a b))
    then none
    else some (quot_i128 a b)

unfoldable pub div : SlpAmount → ℤ → Option SlpAmount
div a rhs = and_then (divide a.base_amount rhs) (λ n. some (mk_amount n))

unfoldable pub div_amount : ℤ → SlpAmount → Option SlpAmount
div_amount n rhs = and_then (divide n rhs.base_amount) (λ q. some (mk_amount q))

-- `Ord::cmp`, as the test `a < b`.
unfoldable pub lt_amount : SlpAmount → SlpAmount → Bool
lt_amount a b = ltb_ℤ a.base_amount b.base_amount

unfoldable pub eq_amount : SlpAmount → SlpAmount → Bool
eq_amount a b = not (ltb_ℤ a.base_amount b.base_amount) && not (ltb_ℤ b.base_amount a.base_amount)

-- `Sum::sum`: the loop over the amounts behind the first.
unfoldable pub sum_loop : SlpAmount → List SlpAmount → SlpAmount
sum_loop acc [] = acc
sum_loop acc (a ∷ more) = sum_loop (add acc a) more

unfoldable pub sum : List SlpAmount → SlpAmount
unfolding sum_loop
sum [] = zero_amount
sum (a ∷ more) = sum_loop a more
