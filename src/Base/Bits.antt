-- ===== src/Base/Bits.antt =====
-- `^` and `|` of unsigned integers at variables: the laws of exclusive or, and fields of bits as sums.
use Prim.Native.Nat.{
  ℕ, zero, suc, ◌+◌, ◌*◌, ◌/◌, ◌%◌, ◌^◌, ◌≤◌, ◌<◌, max, digits, differ, bit_xor, bit_or,
  bit_xor-bitwise, bit_or-bitwise,
}
use mathlib.Core.Path.{◌≡◌, refl, sym, ap, ◌∙◌}
use native.Mathlib.Nat.{pow-suc, one-le-pow}
use native.Mathlib.Omega.{arith}

-- More fuel than digits changes nothing.
module _ (z : ℕ → ℕ) (f : ℕ → ℕ → ℕ) where
  digits-fuel : (m n a b : ℕ) → a ≤ m → a ≤ n → digits z f m a b ≡ digits z f n a b
  digits-fuel m n zero b h k = digits-zero m ∙ sym (digits-zero n)
    where
      digits-zero : (n : ℕ) → digits z f n zero b ≡ z b
      digits-zero zero = refl
      digits-zero (suc n) = refl
  digits-fuel zero n (suc a) b h k = absurd (omega arith)
  digits-fuel (suc m) zero (suc a) b h k = absurd (omega arith)
  digits-fuel (suc m) (suc n) (suc a) b h k =
      ap (λ q. q * 2 + f (suc a % 2) (b % 2))
        (digits-fuel m n (suc a / 2) (b / 2) (omega arith) (omega arith))

differ-parity : (a b : ℕ) → a < 2 → b < 2 → differ a b ≡ (a + b) % 2
differ-parity zero b h k = omega arith
differ-parity (suc zero) zero h k = refl
differ-parity (suc zero) (suc zero) h k = refl
differ-parity (suc zero) (suc (suc b)) h k = absurd (omega arith)
differ-parity (suc (suc a)) b h k = absurd (omega arith)

xor-last : (a b : ℕ) → bit_xor a b ≡ bit_xor (a / 2) (b / 2) * 2 + differ (a % 2) (b % 2)
xor-last zero b = omega (arith, bit_xor-bitwise 0 b, bit_xor-bitwise 0 (b / 2))
xor-last (suc a) b = omega (
  arith,
  bit_xor-bitwise (suc a) b,
  bit_xor-bitwise (suc a / 2) (b / 2),
  digits-fuel (λ y. y) differ a (suc a / 2) (suc a / 2) (b / 2) (omega arith) (omega arith),
)

-- Exclusive or by the lowest bit.
pub xor-step : (a b : ℕ) → bit_xor a b ≡ bit_xor (a / 2) (b / 2) * 2 + (a + b) % 2
xor-step a b =
    omega (arith, xor-last a b, differ-parity (a % 2) (b % 2) (omega arith) (omega arith))

or-last : (a b : ℕ) → bit_or a b ≡ bit_or (a / 2) (b / 2) * 2 + max (a % 2) (b % 2)
or-last zero b = omega (arith, bit_or-bitwise 0 b, bit_or-bitwise 0 (b / 2))
or-last (suc a) b = omega (
  arith,
  bit_or-bitwise (suc a) b,
  bit_or-bitwise (suc a / 2) (b / 2),
  digits-fuel (λ y. y) max a (suc a / 2) (suc a / 2) (b / 2) (omega arith) (omega arith),
)

xor-zero_left : (b : ℕ) → bit_xor 0 b ≡ b
xor-zero_left b = bit_xor-bitwise 0 b

xor_comm_below : (n a b : ℕ) → a + b ≤ n → bit_xor a b ≡ bit_xor b a
xor_comm_below n zero zero h = refl
xor_comm_below zero a b h = absurd (omega arith)
xor_comm_below (suc n) a b h =
    omega (arith, xor-step a b, xor-step b a, xor_comm_below n (a / 2) (b / 2) (omega arith))

pub xor_comm : (a b : ℕ) → bit_xor a b ≡ bit_xor b a
xor_comm a b = xor_comm_below (a + b) a b (omega arith)

pub xor-zero : (a : ℕ) → bit_xor a 0 ≡ a
xor-zero a = xor_comm a 0 ∙ xor-zero_left a

xor_self_below : (n a : ℕ) → a ≤ n → bit_xor a a ≡ 0
xor_self_below n zero h = refl
xor_self_below zero (suc a) h = absurd (omega arith)
xor_self_below (suc n) (suc a) h =
    omega (arith, xor-step (suc a) (suc a), xor_self_below n (suc a / 2) (omega arith))

pub xor_self : (a : ℕ) → bit_xor a a ≡ 0
xor_self a = xor_self_below a a (omega arith)

xor-half : (a b : ℕ) → bit_xor a b / 2 ≡ bit_xor (a / 2) (b / 2)
xor-half a b = omega (arith, xor-step a b)

xor_assoc_below : (n a b c : ℕ) → a ≤ n → bit_xor (bit_xor a b) c ≡ bit_xor a (bit_xor b c)
xor_assoc_below n zero b c h =
    ap (λ x. bit_xor x c) (xor-zero_left b) ∙ sym (xor-zero_left (bit_xor b c))
xor_assoc_below zero (suc a) b c h = absurd (omega arith)
xor_assoc_below (suc n) (suc a) b c h = omega (
  arith,
  xor-step (bit_xor (suc a) b) c,
  xor-step (suc a) (bit_xor b c),
  xor-step (suc a) b,
  xor-step b c,
  ap (λ x. bit_xor x (c / 2)) (xor-half (suc a) b),
  ap (λ x. bit_xor (suc a / 2) x) (xor-half b c),
  xor_assoc_below n (suc a / 2) (b / 2) (c / 2) (omega arith),
)

pub xor_assoc : (a b c : ℕ) → bit_xor (bit_xor a b) c ≡ bit_xor a (bit_xor b c)
xor_assoc a b c = xor_assoc_below a a b c (omega arith)

-- What is taken twice cancels.
pub xor_cancel : (a b : ℕ) → bit_xor (bit_xor a b) b ≡ a
xor_cancel a b = xor_assoc a b b ∙ ap (λ x. bit_xor a x) (xor_self b) ∙ xor-zero a

-- The two inner terms change places.
pub xor_swap :
    (a b c d : ℕ) → bit_xor (bit_xor a b) (bit_xor c d) ≡ bit_xor (bit_xor a c) (bit_xor b d)
xor_swap a b c d =
    xor_assoc a b (bit_xor c d)
    ∙ ap (λ x. bit_xor a x)
        (sym (xor_assoc b c d) ∙ ap (λ x. bit_xor x d) (xor_comm b c) ∙ xor_assoc c b d)
    ∙ sym (xor_assoc a c (bit_xor b d))

pub field-half : (a k u : ℕ) → (a * 2 ^ suc k + u) / 2 ≡ a * 2 ^ k + u / 2
field-half a k u = omega (arith, ap (λ p. a * p) (pow-suc 2 k))

pub field-parity : (a k u : ℕ) → (a * 2 ^ suc k + u) % 2 ≡ u % 2
field-parity a k u = omega (arith, ap (λ p. a * p) (pow-suc 2 k))

no-shift : (a : ℕ) → a * 2 ^ 0 + 0 ≡ a
no-shift a = omega arith

-- Exclusive or of two fields each, the lower one of `k` bits.
pub xor_fields :
    (k a b u v : ℕ)
    → u < 2 ^ k
    → v < 2 ^ k
    → bit_xor (a * 2 ^ k + u) (b * 2 ^ k + v) ≡ bit_xor a b * 2 ^ k + bit_xor u v
xor_fields zero a b zero zero h l =
    ap (λ x. bit_xor x (b * 2 ^ 0 + 0)) (no-shift a)
    ∙ ap (λ x. bit_xor a x) (no-shift b)
    ∙ sym (no-shift (bit_xor a b))
xor_fields zero a b (suc u) v h l = absurd (omega arith)
xor_fields zero a b zero (suc v) h l = absurd (omega arith)
xor_fields (suc k) a b u v h l = omega (
  arith,
  xor-step (a * 2 ^ suc k + u) (b * 2 ^ suc k + v),
  xor-step u v,
  field-parity a k u,
  field-parity b k v,
  ap (λ x. bit_xor x ((b * 2 ^ suc k + v) / 2)) (field-half a k u),
  ap (λ x. bit_xor (a * 2 ^ k + u / 2) x) (field-half b k v),
  xor_fields k a b (u / 2) (v / 2) (omega (arith, pow-suc 2 k)) (omega (arith, pow-suc 2 k)),
  ap (λ p. bit_xor a b * p) (pow-suc 2 k),
)

shift-half : (a k : ℕ) → a * 2 ^ suc k / 2 ≡ a * 2 ^ k
shift-half a k = omega (arith, ap (λ p. a * p) (pow-suc 2 k))

or-zero_below : (n a : ℕ) → a ≤ n → bit_or a 0 ≡ a
or-zero_below n zero h = refl
or-zero_below zero (suc a) h = absurd (omega arith)
or-zero_below (suc n) (suc a) h =
    omega (arith, or-last (suc a) 0, or-zero_below n (suc a / 2) (omega arith))

-- `a << k | u` is a sum.
pub or_fields : (k a u : ℕ) → u < 2 ^ k → bit_or (a * 2 ^ k) u ≡ a * 2 ^ k + u
or_fields zero a zero h = or-zero_below (a * 2 ^ 0) (a * 2 ^ 0) (omega arith) ∙ omega arith
or_fields zero a (suc u) h = absurd (omega arith)
or_fields (suc k) a u h = omega (
  arith,
  or-last (a * 2 ^ suc k) u,
  ap (λ x. bit_or x (u / 2)) (shift-half a k),
  ap (λ p. a * p) (pow-suc 2 k),
  or_fields k a (u / 2) (omega (arith, pow-suc 2 k)),
)

-- Exclusive or stays within a number of bits.
pub xor-lt : (k u v : ℕ) → u < 2 ^ k → v < 2 ^ k → bit_xor u v < 2 ^ k
xor-lt zero zero zero h l = omega arith
xor-lt zero u (suc v) h l = absurd (omega arith)
xor-lt zero (suc u) v h l = absurd (omega arith)
xor-lt (suc k) u v h l = omega (
  arith,
  xor-step u v,
  xor-lt k (u / 2) (v / 2) (omega (arith, pow-suc 2 k)) (omega (arith, pow-suc 2 k)),
  pow-suc 2 k,
)

-- A number is its two fields.
pub fields : (k a : ℕ) → a ≡ a / 2 ^ k * 2 ^ k + a % 2 ^ k
fields k a = ground (arith, one-le-pow k 2)

pub field-high : (k a u : ℕ) → u < 2 ^ k → (a * 2 ^ k + u) / 2 ^ k ≡ a
field-high k a u h = grind (arith, one-le-pow k 2)

pub field-low : (k a u : ℕ) → u < 2 ^ k → (a * 2 ^ k + u) % 2 ^ k ≡ u
field-low k a u h = grind (arith, one-le-pow k 2)

field-lt : (k a : ℕ) → a % 2 ^ k < 2 ^ k
field-lt k a = ground (arith, one-le-pow k 2)

-- Exclusive or of the parts that a shift and a mask take.
module _ (k a b : ℕ) where
  xor-parts :
      bit_xor a b ≡ bit_xor (a / 2 ^ k) (b / 2 ^ k) * 2 ^ k + bit_xor (a % 2 ^ k) (b % 2 ^ k)
  xor-parts =
      ap (λ x. bit_xor x b) (fields k a)
      ∙ ap (λ x. bit_xor (a / 2 ^ k * 2 ^ k + a % 2 ^ k) x) (fields k b)
      ∙ xor_fields k (a / 2 ^ k) (b / 2 ^ k) (a % 2 ^ k) (b % 2 ^ k) (field-lt k a) (field-lt k b)

  low-lt : bit_xor (a % 2 ^ k) (b % 2 ^ k) < 2 ^ k
  low-lt = xor-lt k (a % 2 ^ k) (b % 2 ^ k) (field-lt k a) (field-lt k b)

  pub xor-high : bit_xor a b / 2 ^ k ≡ bit_xor (a / 2 ^ k) (b / 2 ^ k)
  xor-high =
      ap (λ x. x / 2 ^ k) xor-parts
      ∙ field-high k (bit_xor (a / 2 ^ k) (b / 2 ^ k)) (bit_xor (a % 2 ^ k) (b % 2 ^ k)) low-lt

  pub xor-low : bit_xor a b % 2 ^ k ≡ bit_xor (a % 2 ^ k) (b % 2 ^ k)
  xor-low =
      ap (λ x. x % 2 ^ k) xor-parts
      ∙ field-low k (bit_xor (a / 2 ^ k) (b / 2 ^ k)) (bit_xor (a % 2 ^ k) (b % 2 ^ k)) low-lt

  pub xor-shift : bit_xor (a * 2 ^ k) (b * 2 ^ k) ≡ bit_xor a b * 2 ^ k
  xor-shift =
      ap (λ x. bit_xor x (b * 2 ^ k)) (plus-zero (a * 2 ^ k))
      ∙ ap (λ x. bit_xor (a * 2 ^ k + 0) x) (plus-zero (b * 2 ^ k))
      ∙ xor_fields k a b 0 0 (one-le-pow k 2 (omega arith)) (one-le-pow k 2 (omega arith))
      ∙ sym (plus-zero (bit_xor a b * 2 ^ k))
    where
      plus-zero : (n : ℕ) → n ≡ n + 0
      plus-zero n = omega arith
