-- ===== src/Slp/Amount/Sums.antt =====
-- Amounts that are counts, and sums of them that stay within 128 signed bits.
use bitcoinsuite.Base.{
  ℕ, ◌+◌, ◌-◌, ◌/◌, ◌^◌, ◌<◌, ◌≤◌, ◌≡◌, refl, ap, ◌∙◌, List, [], ◌∷◌, true, arith, All, ltb,
}
use bitcoinsuite.Base.Int.{ℤ, pos, ◌+ℤ◌, ◌-ℤ◌, pos_part, neg_part}
use bitcoinsuite.Bytes.Endian.{from_pattern-to_pattern}
use bitcoinsuite.Slp.Amount.{
  SlpAmount, mk_amount, wrap, add, sub, lt_amount, eq_amount, sum, sum_loop,
}

-- One above the greatest i128.
abbrev pub amount_bound : ℕ
amount_bound = 256 ^ 16 / 2

abbrev pub count : SlpAmount → ℕ
count a = pos_part a.base_amount

abbrev pub IsCount : SlpAmount → Type 0
IsCount a = neg_part a.base_amount ≡ 0

abbrev pub total : List SlpAmount → ℕ
total [] = 0
total (a ∷ more) = count a + total more

abbrev pub mk_count : ℕ → SlpAmount
mk_count n = mk_amount (pos n)

pos_of_part : (z : ℤ) → neg_part z ≡ 0 → z ≡ pos (pos_part z)
pos_of_part z h = ground arith

pub count_eq : (a : SlpAmount) → IsCount a → a ≡ mk_count (count a)
count_eq a h = ap mk_amount (pos_of_part a.base_amount h)

pub wrap-pos : (n : ℕ) → n < amount_bound → wrap (pos n) ≡ pos n
unfolding wrap
wrap-pos n h = from_pattern-to_pattern 16 (pos n) (h, omega arith)

pub +ℤ-pos : (a b : ℕ) → pos a +ℤ pos b ≡ pos (a + b)
unfolding ◌+ℤ◌
+ℤ-pos a b = ground arith

-ℤ-pos : (a b : ℕ) → b ≤ a → pos a -ℤ pos b ≡ pos (a - b)
unfolding ◌-ℤ◌
-ℤ-pos a b h = ground arith

pub add-mk_count :
    (a b : ℕ) → a + b < amount_bound → add (mk_count a) (mk_count b) ≡ mk_count (a + b)
unfolding add
add-mk_count a b h = ap mk_amount (ap wrap (+ℤ-pos a b) ∙ wrap-pos (a + b) h)

pub sub-mk_count :
    (a b : ℕ) → b ≤ a → a < amount_bound → sub (mk_count a) (mk_count b) ≡ mk_count (a - b)
unfolding sub
sub-mk_count a b h k = ap mk_amount (ap wrap (-ℤ-pos a b h) ∙ wrap-pos (a - b) (omega arith))

pub lt_amount-mk_count : (a b : ℕ) → lt_amount (mk_count a) (mk_count b) ≡ ltb a b
unfolding lt_amount
lt_amount-mk_count a b = ground arith

zero_right : (n : ℕ) → n ≡ n + 0
zero_right n = omega arith

pub plus_assoc : (a b c : ℕ) → a + b + c ≡ a + (b + c)
plus_assoc a b c = omega arith

pub sum_loop-total :
    (n : ℕ) (xs : List SlpAmount)
    → All IsCount xs
    → n + total xs < amount_bound
    → sum_loop (mk_count n) xs ≡ mk_count (n + total xs)
unfolding sum_loop
sum_loop-total n [] h fits = ap mk_count (zero_right n)
sum_loop-total n (a ∷ more) h fits =
    rw (count_eq a h.0, add-mk_count n (count a) (omega arith))
      (sum_loop-total (n + count a) more h.1 (omega arith)
        ∙ ap mk_count (plus_assoc n (count a) (total more)))

-- The sum of counts that fit is the count of their total.
pub sum-total :
    (xs : List SlpAmount) → All IsCount xs → total xs < amount_bound → sum xs ≡ mk_count (total xs)
unfolding sum
sum-total [] h fits = refl
sum-total (a ∷ more) h fits = rw (count_eq a h.0) (sum_loop-total (count a) more h.1 fits)

pub eq_amount-mk_count : (a b : ℕ) → eq_amount (mk_count a) (mk_count (0 + b)) ≡ true → b ≡ a
unfolding eq_amount
eq_amount-mk_count a b h = ground arith
