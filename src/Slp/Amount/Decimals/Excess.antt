-- ===== src/Slp/Amount/Decimals/Excess.antt =====
-- Texts with more digits behind the point than the token has decimals.
use bitcoinsuite.Base.{
  ℕ, ◌<◌, ◌≡◌, ap, refl, [], ◌∷◌, ◌++◌, Option, none, some, Result, ok, err, ◌>>=◌, ok_or, arith,
  length, lt→ltb, Option-cases, take-append, inl, inr,
}
use bitcoinsuite.Base.Int.{ℤ}
use bitcoinsuite.Bytes.{Bytes}
use bitcoinsuite.Errors.{BitcoinSuiteError, number_parse_error}
use bitcoinsuite.Slp.Amount.{mk_amount}
use bitcoinsuite.Slp.Amount.Decimals.Values.{drop-append_suc}
use bitcoinsuite.Slp.Amount.Decimals.{
  find_dot, with_fraction, base_amount_of, from_str_decimals, parse_i128,
}

-- The point that is found is the first one.
find_dot-first :
    (front rest : Bytes)
    → find_dot front ≡ none
    → find_dot (front ++ (46 ∷ rest)) ≡ some (length front)
unfolding find_dot
find_dot-first [] rest h = refl
find_dot-first (c ∷ front) rest h = elim (Option-cases (find_dot front)) [
  | inl e ↦ ground (arith, find_dot-first front rest e)
  | inr found ↦ ground (arith, found.1)
]

with_fraction-excess :
    (n : ℤ) (decimals : ℕ) (fract : Bytes)
    → decimals < length fract
    → with_fraction n decimals fract ≡ err number_parse_error
unfolding with_fraction
with_fraction-excess n decimals fract h = rw (lt→ltb decimals (length fract) h) refl

>>=-err :
    (part : Option ℤ) (next : ℤ → Result BitcoinSuiteError ℤ)
    → ((n : ℤ) → next n ≡ err number_parse_error)
    → (ok_or part number_parse_error >>= next) ≡ err number_parse_error
>>=-err none next h = refl
>>=-err (some n) next h = h n

-- Such a text gives an error, whatever stands before its first point.
pub from_str_decimals-excess :
    (front fract : Bytes) (decimals : ℕ)
    → find_dot front ≡ none
    → decimals < length fract
    → from_str_decimals (front ++ (46 ∷ fract)) decimals ≡ err number_parse_error
unfolding from_str_decimals base_amount_of
from_str_decimals-excess front fract decimals h long =
    rw
      (find_dot-first front fract h, take-append front (46 ∷ fract), drop-append_suc front fract 46)
      (ap (λ r. r >>= λ n. ok (mk_amount n))
        (>>=-err (parse_i128 front) _ (λ n. with_fraction-excess _ decimals fract long)))
