-- ===== src/Address/Cash/Groups.antt =====
-- Groups of bits are determined by their bits: for the proofs about cashaddress.rs.
use native.Mathlib.Nat.{pow-suc}
use bitcoinsuite.Base.{
  ℕ, zero, suc, ◌*◌, ◌/◌, ◌%◌, ◌^◌, ◌≤◌, ◌<◌, ◌≡◌, refl, sym, ap, ◌∙◌, List, [], ◌∷◌, ◌++◌,
  append_assoc, arith, length, length-append, append_injective, take,
}
use bitcoinsuite.Address.Cash.ConvertBits.{bits_of, expand, IsGroups}

pub length-bits_of : (w n : ℕ) → length (bits_of w n) ≡ w
unfolding bits_of
length-bits_of zero n = refl
length-bits_of (suc w) n =
    omega (arith, length-append (bits_of w (n / 2)) (n % 2 ∷ []), length-bits_of w (n / 2))

pub length-expand : (w : ℕ) (values : List ℕ) → length (expand w values) ≡ w * length values
unfolding expand
length-expand w [] = omega arith
length-expand w (v ∷ values) = grind (
  arith,
  length-append (bits_of w v) (expand w values),
  length-bits_of w v,
  length-expand w values,
)

bits_of-injective : (w a b : ℕ) → a < 2 ^ w → b < 2 ^ w → bits_of w a ≡ bits_of w b → a ≡ b
unfolding bits_of
bits_of-injective zero a b h k e = omega arith
bits_of-injective (suc w) a b h k e =
    let (halves, ends) =
      append_injective (bits_of w (a / 2)) (bits_of w (b / 2))
        (length-bits_of w (a / 2) ∙ sym (length-bits_of w (b / 2))) e in
    let last : a % 2 ≡ b % 2 = cc in
    omega (
      arith,
      last,
      bits_of-injective w (a / 2) (b / 2) (omega (arith, pow-suc 2 w)) (omega (arith, pow-suc 2 w))
          halves,
    )

-- Groups whose bits begin with those of other groups begin with these.
pub take-expand :
    (w : ℕ) (xs ys : List ℕ) (rest : List ℕ)
    → length xs ≤ length ys
    → IsGroups w xs
    → IsGroups w ys
    → expand w ys ≡ expand w xs ++ rest
    → take (length xs) ys ≡ xs
unfolding expand
take-expand w [] ys rest h p q e = refl
take-expand w (x ∷ xs) [] rest h p q e = absurd (omega arith)
take-expand w (x ∷ xs) (y ∷ ys) rest h p q e =
    let (first, others) =
      append_injective (bits_of w y) (bits_of w x) (length-bits_of w y ∙ sym (length-bits_of w x))
        (e ∙ append_assoc (bits_of w x) (expand w xs) rest) in
    ap (λ z. z ∷ take (length xs) ys) (bits_of-injective w y x q.0 p.0 first)
    ∙ ap (λ zs. x ∷ zs) (take-expand w xs ys rest (omega arith) p.1 q.1 others)
