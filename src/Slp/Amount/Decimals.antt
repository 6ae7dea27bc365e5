-- ===== src/Slp/Amount/Decimals.antt =====
-- `SlpAmount::from_str_decimals` of bitcoinsuite-slp/src/slp_amount.rs: an amount from a text with a
-- decimal point. Texts are lists of characters' bytes.
pub mod Values
pub mod Excess
use bitcoinsuite.Base.{
  ℕ, suc, ◌+◌, ◌-◌, ◌*◌, ◌/◌, ◌^◌, List, [], ◌∷◌, Bool, ◌&&◌, Option, none, some, Result, ok, err,
  ◌>>=◌, ok_or, and_then, ltb, leb, ◌==◌, if◌then◌else◌, length, take, drop,
}
use bitcoinsuite.Base.Int.{ℤ, pos, negsuc, ◌+ℤ◌, ◌*ℤ◌}
use bitcoinsuite.Bytes.{Bytes}
use bitcoinsuite.Errors.{BitcoinSuiteError, number_parse_error}
use bitcoinsuite.Slp.Amount.{SlpAmount, mk_amount, wrap}

-- '0' to '9'
abbrev pub is_digit : ℕ → Bool
is_digit c = leb 48 c && leb c 57

-- The digits of `parse`, read behind a number.
unfoldable pub parse_digits : ℕ → Bytes → Option ℕ
parse_digits acc [] = some acc
parse_digits acc (c ∷ text) =
    let rest = parse_digits (acc * 10 + (c - 48)) text in if is_digit c then rest else none

-- A sign is followed by a digit, and the number has to be an i128.
abbrev pub positive : Bytes → Option ℤ
positive [] = none
positive (c ∷ text) =
    and_then (parse_digits 0 (c ∷ text)) (λ n. if ltb n (256 ^ 16 / 2) then some (pos n) else none)

abbrev pub negated : ℕ → ℤ
negated n = if n == 0 then pos 0 else negsuc (n - 1)

abbrev pub negative : Bytes → Option ℤ
negative [] = none
negative (c ∷ text) =
    and_then (parse_digits 0 (c ∷ text))
      (λ n. if leb n (256 ^ 16 / 2) then some (negated n) else none)

-- `parse::<i128>()`
unfoldable pub parse_i128 : Bytes → Option ℤ
parse_i128 [] = none
parse_i128 (c ∷ text) =
    if c == 45 then negative text else if c == 43 then positive text else positive (c ∷ text)

-- `s.find('.')`
unfoldable pub find_dot : Bytes → Option ℕ
find_dot [] = none
find_dot (c ∷ text) =
    let rest = find_dot text in if c == 46 then some 0 else and_then rest (λ i. some (suc i))

-- `chars().take_while(|c| *c == '0').count()`
unfoldable pub count_zeros : Bytes → ℕ
count_zeros [] = 0
count_zeros (c ∷ text) = let rest = count_zeros text in if c == 48 then suc rest else 0

-- `(10i128).pow(exponent)`
unfoldable pub pow10 : ℕ → ℤ
pow10 exponent = wrap (pos (10 ^ exponent))

abbrev pub parse_part : Bytes → Result BitcoinSuiteError ℤ
parse_part text = ok_or (parse_i128 text) number_parse_error

-- The part behind the point, less its leading zeros.
unfoldable pub add_fraction : ℤ → ℕ → Bytes → Result BitcoinSuiteError ℤ
unfolding pow10 parse_i128
add_fraction integer_part exponent [] = ok integer_part
add_fraction integer_part exponent (c ∷ text) = parse_part (c ∷ text) >>= λ fract_part.
    ok (wrap (integer_part +ℤ wrap (fract_part *ℤ pow10 exponent)))

unfoldable pub with_fraction : ℤ → ℕ → Bytes → Result BitcoinSuiteError ℤ
unfolding add_fraction count_zeros
with_fraction integer_part decimals fract_part_str =
    if ltb decimals (length fract_part_str)
    then err number_parse_error
    else add_fraction integer_part (decimals - length fract_part_str)
        (drop (count_zeros fract_part_str) fract_part_str)

-- The arms of the `match`.
unfoldable pub base_amount_of : Option ℕ → Bytes → ℕ → Result BitcoinSuiteError ℤ
unfolding with_fraction parse_i128 pow10
base_amount_of (some dot_idx) s decimals = parse_part (take dot_idx s) >>= λ integer_part.
    with_fraction (wrap (integer_part *ℤ pow10 decimals)) decimals (drop (suc dot_idx) s)
base_amount_of none s decimals = parse_part s >>= λ n. ok (wrap (n *ℤ pow10 decimals))

unfoldable pub from_str_decimals : Bytes → ℕ → Result BitcoinSuiteError SlpAmount
unfolding base_amount_of find_dot
from_str_decimals s decimals =
    base_amount_of (find_dot s) s decimals >>= λ base_amount. ok (mk_amount base_amount)
