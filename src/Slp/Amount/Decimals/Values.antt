-- ===== src/Slp/Amount/Decimals/Values.antt =====
-- The value of a decimal number, digit by digit, and the parsed amount.
use native.Mathlib.Nat.{
  add-mul, mul_assoc, mul_comm, mul_right_comm, pow-suc, one-le-pow, pow-le-pow_right,
  le-mul_of_pos_right,
}
use bitcoinsuite.Base.{
  ℕ, zero, suc, ◌+◌, ◌-◌, ◌*◌, ◌^◌, ◌≤◌, ◌<◌, ◌≡◌, ap, refl, sym, ◌∙◌, [], ◌∷◌, ◌++◌, none, some,
  ok, arith, length, length-append, All, All-drop, drop, replicate, length-replicate, take-append,
  ge→ltb,
}
use bitcoinsuite.Bytes.{Bytes}
use bitcoinsuite.Base.Int.{pos, ◌*ℤ◌}
use bitcoinsuite.Slp.Amount.{wrap}
use bitcoinsuite.Slp.Amount.Sums.{amount_bound, mk_count, +ℤ-pos, wrap-pos}
use bitcoinsuite.Slp.Amount.Decimals.{
  parse_digits, parse_i128, find_dot, count_zeros, pow10, add_fraction, with_fraction,
  base_amount_of, from_str_decimals,
}

abbrev pub IsDigit : ℕ → Type 0
IsDigit c = (48 ≤ c) × (c ≤ 57)

-- The value of a decimal number: every digit counts the power of ten of its place.
abbrev pub value : Bytes → ℕ
value [] = 0
value (c ∷ text) = (c - 48) * 10 ^ length text + value text

suc_add : (m n : ℕ) → suc m + n ≡ suc (m + n)
suc_add m n = omega arith

pow10-add : (m n : ℕ) → 10 ^ (m + n) ≡ 10 ^ m * 10 ^ n
pow10-add zero n = grind arith
pow10-add (suc m) n =
    rw (suc_add m n, pow-suc 10 (m + n), pow-suc 10 m, pow10-add m n)
      (mul_right_comm (10 ^ m) (10 ^ n) 10)

value-append : (a b : Bytes) → value (a ++ b) ≡ value a * 10 ^ length b + value b
value-append [] b = omega arith
value-append (c ∷ a) b =
    rw (length-append a b, value-append a b, pow10-add (length a) (length b))
      (grind (
        arith,
        add-mul ((c - 48) * 10 ^ length a) (value a) (10 ^ length b),
        mul_assoc (c - 48) (10 ^ length a) (10 ^ length b),
      ))

value-zeros : (n : ℕ) → value (replicate n 48) ≡ 0
value-zeros zero = refl
value-zeros (suc n) = omega (arith, value-zeros n)

shift : (acc d p : ℕ) → (acc * 10 + d) * p ≡ acc * (p * 10) + d * p
shift acc d p =
    rw (add-mul (acc * 10) d p, mul_assoc acc 10 p) (ap (λ q. acc * q + d * p) (mul_comm 10 p))

pub parse_digits-value :
    (acc : ℕ) (text : Bytes)
    → All IsDigit text
    → parse_digits acc text ≡ some (acc * 10 ^ length text + value text)
unfolding parse_digits
parse_digits-value acc [] h = ap some (omega arith)
parse_digits-value acc (c ∷ text) h =
    let rest = parse_digits-value (acc * 10 + (c - 48)) text h.1 in
    ground (arith, rest, shift acc (c - 48) (10 ^ length text))

find_dot-append :
    (digits rest : Bytes)
    → All IsDigit digits
    → find_dot (digits ++ (46 ∷ rest)) ≡ some (length digits)
unfolding find_dot
find_dot-append [] rest h = refl
find_dot-append (c ∷ digits) rest h = ground (arith, find_dot-append digits rest)

pub drop-append_suc : (a b : Bytes) (x : ℕ) → drop (suc (length a)) (a ++ (x ∷ b)) ≡ b
drop-append_suc [] b x = refl
drop-append_suc (y ∷ a) b x = drop-append_suc a b x

*ℤ-pos : (a b : ℕ) → pos a *ℤ pos b ≡ pos (a * b)
unfolding ◌*ℤ◌
*ℤ-pos a b = ground arith

-- Leading zeros add nothing to the value.
value-drop : (text : Bytes) → value (drop (count_zeros text) text) ≡ value text
unfolding count_zeros
value-drop [] = refl
value-drop (c ∷ text) = ground (arith, value-drop text)

parse_i128-value :
    (c : ℕ) (text : Bytes)
    → All IsDigit (c ∷ text)
    → value (c ∷ text) < amount_bound
    → parse_i128 (c ∷ text) ≡ some (pos (value (c ∷ text)))
unfolding parse_i128
parse_i128-value c text h fits = ground (arith, parse_digits-value 0 (c ∷ text) h)

pow10_lem : (e : ℕ) → 10 ^ e < amount_bound → pow10 e ≡ pos (10 ^ e)
unfolding pow10
pow10_lem e fits = wrap-pos (10 ^ e) fits

-- A product of counts that fits.
times :
    (n e : ℕ)
    → 10 ^ e < amount_bound
    → n * 10 ^ e < amount_bound
    → wrap (pos n *ℤ pow10 e) ≡ pos (n * 10 ^ e)
times n e small fits = rw (pow10_lem e small, *ℤ-pos n (10 ^ e)) (wrap-pos (n * 10 ^ e) fits)

below_product : (n e : ℕ) → n * 10 ^ e < amount_bound → n < amount_bound
below_product n e h = omega (arith, le-mul_of_pos_right n (one-le-pow e 10 (omega arith)))

sub_le : (a b : ℕ) → a - b ≤ a
sub_le a b = omega arith

add_fraction-value :
    (n e : ℕ) (text : Bytes)
    → All IsDigit text
    → 10 ^ e < amount_bound
    → n + value text * 10 ^ e < amount_bound
    → add_fraction (pos n) e text ≡ ok (pos (n + value text * 10 ^ e))
unfolding add_fraction
add_fraction-value n e [] h small fits = ap (λ m. ok (pos m)) (omega arith)
add_fraction-value n e (c ∷ text) h small fits =
    rw
      (
        parse_i128-value c text h (below_product (value (c ∷ text)) e (omega arith)),
        times (value (c ∷ text)) e small (omega arith),
        +ℤ-pos n (value (c ∷ text) * 10 ^ e),
        wrap-pos (n + value (c ∷ text) * 10 ^ e) fits,
      )
      refl

digits_count : (a b e d : ℕ) → e ≡ d → a * 10 ^ e + b + 0 ≡ a * 10 ^ d + b
digits_count a b e d same = rw same (omega arith)

-- The whole value, shifted by the digits that are missing.
value-digits :
    (int fract : Bytes) (d : ℕ)
    → length fract ≤ d
    → value (int ++ fract ++ replicate (d - length fract) 48)
      ≡ value int * 10 ^ d + value fract * 10 ^ (d - length fract)
value-digits int fract d h =
    let k = d - length fract in
    rw
      (
        value-append (int ++ fract) (replicate k 48),
        value-zeros k,
        value-append int fract,
        length-replicate {A = ℕ} k 48,
        add-mul (value int * 10 ^ length fract) (value fract) (10 ^ k),
        mul_assoc (value int) (10 ^ length fract) (10 ^ k),
        sym (pow10-add (length fract) k),
      )
      (digits_count (value int) (value fract * 10 ^ k) (length fract + k) d (omega arith))

parse_i128-digits :
    (text : Bytes)
    → 0 < length text
    → All IsDigit text
    → value text < amount_bound
    → parse_i128 text ≡ some (pos (value text))
parse_i128-digits [] some_digit h fits = absurd (omega arith)
parse_i128-digits (c ∷ text) some_digit h fits = parse_i128-value c text h fits

with_fraction-value :
    (int fract : Bytes) (decimals : ℕ)
    → All IsDigit fract
    → length fract ≤ decimals
    → 10 ^ decimals < amount_bound
    → value (int ++ fract ++ replicate (decimals - length fract) 48) < amount_bound
    → with_fraction (pos (value int * 10 ^ decimals)) decimals fract
      ≡ ok (pos (value (int ++ fract ++ replicate (decimals - length fract) 48)))
unfolding with_fraction
with_fraction-value int fract decimals h short small fits =
    let k = decimals - length fract in
    let stripped = drop (count_zeros fract) fract in
    let sum_eq : value int * 10 ^ decimals + value stripped * 10 ^ k
        ≡ value (int ++ fract ++ replicate k 48) =
      ap (λ v. value int * 10 ^ decimals + v * 10 ^ k) (value-drop fract)
      ∙ sym (value-digits int fract decimals short) in
    let power = pow-le-pow_right {n = 10} (omega arith) (sub_le decimals (length fract)) in
    rw (ge→ltb decimals (length fract) short) (
      add_fraction-value (value int * 10 ^ decimals) k stripped
        (All-drop IsDigit (count_zeros fract) fract h) (omega arith) (omega arith)
      ∙ ap (λ m. ok (pos m)) sum_eq)

-- A text of digits, a point and at most as many digits as the token has decimals is read as the number
-- that all the digits write, with zeros for the decimals that are missing. There is a digit before the
-- point, and the power of ten of the decimals and the number itself are below 2^127.
pub from_str_decimals-digits :
    (int fract : Bytes) (decimals : ℕ)
    → 0 < length int
    → All IsDigit int
    → All IsDigit fract
    → length fract ≤ decimals
    → 10 ^ decimals < amount_bound
    → value (int ++ fract ++ replicate (decimals - length fract) 48) < amount_bound
    → from_str_decimals (int ++ (46 ∷ fract)) decimals
      ≡ ok (mk_count (value (int ++ fract ++ replicate (decimals - length fract) 48)))
unfolding from_str_decimals base_amount_of
from_str_decimals-digits int fract decimals some_digit h k short small fits =
    let total = value-digits int fract decimals short in
    let whole_fits : value int * 10 ^ decimals < amount_bound = omega arith in
    rw
      (
        find_dot-append int fract h,
        take-append int (46 ∷ fract),
        drop-append_suc int fract 46,
        parse_i128-digits int some_digit h (below_product (value int) decimals whole_fits),
        times (value int) decimals small whole_fits,
        with_fraction-value int fract decimals k short small fits,
      )
      refl

find_dot-digits : (digits : Bytes) → All IsDigit digits → find_dot digits ≡ none
unfolding find_dot
find_dot-digits [] h = refl
find_dot-digits (c ∷ digits) h = ground (arith, find_dot-digits digits)

-- Without a point the number counts the power of ten of the decimals.
pub from_str_decimals-whole :
    (int : Bytes) (decimals : ℕ)
    → 0 < length int
    → All IsDigit int
    → 10 ^ decimals < amount_bound
    → value int * 10 ^ decimals < amount_bound
    → from_str_decimals int decimals ≡ ok (mk_count (value int * 10 ^ decimals))
unfolding from_str_decimals base_amount_of
from_str_decimals-whole int decimals some_digit h small fits =
    rw
      (
        find_dot-digits int h,
        parse_i128-digits int some_digit h (below_product (value int) decimals fits),
        times (value int) decimals small fits,
      )
      refl
