-- ===== src/Tests/Amounts.antt =====
-- Amounts in decimal text, and the order of hashes, at concrete inputs.
use Prim.Native.Nat.{Ordering, compare}
use bitcoinsuite.Base.{◌≡◌, ◌↔◌, refl, [], ◌∷◌, ◌++◌, none, some, ok, err, arith}
use bitcoinsuite.Base.Int.{pos, negsuc, ◌+ℤ◌, ◌-ℤ◌, ◌*ℤ◌}
use bitcoinsuite.Bytes.{Bytes}
use bitcoinsuite.Bytes.Endian.{to_pattern, from_pattern, from_le_bytes}
use bitcoinsuite.Errors.{number_parse_error}
use bitcoinsuite.Hash.Order.{cmp, cmp-eq}
use bitcoinsuite.Slp.Amount.{mk_amount, wrap, mul, div}
use bitcoinsuite.Slp.Amount.Sums.{mk_count}
use bitcoinsuite.Slp.Amount.Decimals.{find_dot, from_str_decimals, parse_digits}
use bitcoinsuite.Slp.Amount.Decimals.Values.{from_str_decimals-digits}
use bitcoinsuite.Slp.Amount.Decimals.Excess.{from_str_decimals-excess}

-- "12" and "05"
abbrev twelve : Bytes
twelve = 49 ∷ 50 ∷ []

no_dot : find_dot twelve ≡ none
unfolding find_dot
no_dot = refl

abbrev five_hundredths : Bytes
five_hundredths = 48 ∷ 53 ∷ []

-- "12.05" with three decimals
from_str_decimals-digits_example :
    from_str_decimals (twelve ++ (46 ∷ five_hundredths)) 3 ≡ ok (mk_count 12050)
from_str_decimals-digits_example =
    from_str_decimals-digits twelve five_hundredths 3 (omega arith)
      ((omega arith, omega arith), ((omega arith, omega arith), tt))
      ((omega arith, omega arith), ((omega arith, omega arith), tt)) (omega arith) (omega arith)
      (omega arith)

-- "12.05" with one decimal
excess_refused : from_str_decimals (twelve ++ (46 ∷ five_hundredths)) 1 ≡ err number_parse_error
excess_refused = from_str_decimals-excess twelve five_hundredths 1 no_dot (omega arith)

-- "-1.5" is read as -1 and a half more.
from_str_decimals_negative :
    from_str_decimals (45 ∷ 49 ∷ 46 ∷ 53 ∷ []) 1 ≡ ok (mk_amount (negsuc 4))
unfolding from_str_decimals parse_digits wrap from_pattern to_pattern ◌+ℤ◌ ◌*ℤ◌
from_str_decimals_negative = refl

div_negative : div (mk_amount (negsuc 6)) (pos 2) ≡ some (mk_amount (negsuc 2))
unfolding div ◌-ℤ◌
div_negative = refl

mul_negative : mul (mk_amount (negsuc 6)) (negsuc 1) ≡ mk_amount (pos 14)
unfolding mul wrap from_pattern to_pattern ◌*ℤ◌
mul_negative = refl

abbrev low_hash : Bytes
low_hash = 2 ∷ 1 ∷ []

abbrev high_hash : Bytes
high_hash = 1 ∷ 3 ∷ []

-- The last byte weighs most.
cmp-eq_example :
    (cmp high_hash low_hash ≡ compare (from_le_bytes high_hash) (from_le_bytes low_hash))
    × ((cmp high_hash low_hash ≡ Ordering.eq) ↔ (high_hash ≡ low_hash))
cmp-eq_example =
    cmp-eq high_hash low_hash refl (omega arith, (omega arith, tt)) (omega arith, (omega arith, tt))

cmp_high : cmp high_hash low_hash ≡ Ordering.gt
unfolding cmp
cmp_high = refl
