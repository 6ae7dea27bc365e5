-- ===== src/Bytes/Endian.antt =====
-- `to_le_bytes`, `from_le_bytes`, `to_be_bytes` and `from_be_bytes` of the integer types.
use mathlib.Core.List.{reverse, reverse-cons, reverse-reverse}
use bitcoinsuite.Base.{
  ℕ, zero, suc, ◌+◌, ◌-◌, ◌*◌, ◌/◌, ◌%◌, ◌^◌, ◌≤◌, ◌<◌, ◌≡◌, refl, List, [], ◌∷◌, arith, length,
  length-append, All, All-append, ltb, if◌then◌else◌, All-append, ◌∙◌,
}
use bitcoinsuite.Base.Int.{ℤ, pos, negsuc, pos_part, neg_part}

-- The `w` lowest bytes of `n`, lowest first.
unfoldable pub to_le_bytes : ℕ → ℕ → List ℕ
to_le_bytes zero n = []
to_le_bytes (suc w) n = (n % 256) ∷ to_le_bytes w (n / 256)

unfoldable pub from_le_bytes : List ℕ → ℕ
from_le_bytes [] = 0
from_le_bytes (b ∷ bs) = b + 256 * from_le_bytes bs

unfoldable pub to_be_bytes : ℕ → ℕ → List ℕ
unfolding to_le_bytes
to_be_bytes w n = reverse (to_le_bytes w n)

unfoldable pub from_be_bytes : List ℕ → ℕ
unfolding from_le_bytes
from_be_bytes bs = from_le_bytes (reverse bs)

small_mod : (n m : ℕ) → n < m → n % m ≡ n
small_mod n m h = grind arith

pub length-to_le_bytes : (w n : ℕ) → length (to_le_bytes w n) ≡ w
unfolding to_le_bytes
length-to_le_bytes zero n = refl
length-to_le_bytes (suc w) n = omega (arith, length-to_le_bytes w (n / 256))

pub to_le_bytes-IsByte : (w n : ℕ) → All (λ b. b < 2 ^ 8) (to_le_bytes w n)
unfolding to_le_bytes
to_le_bytes-IsByte zero n = tt
to_le_bytes-IsByte (suc w) n = (omega arith, to_le_bytes-IsByte w (n / 256))

-- A number below 256 ^ w is read back from its `w` bytes.
pub from_le_bytes-to_le_bytes : (w n : ℕ) → n < 256 ^ w → from_le_bytes (to_le_bytes w n) ≡ n
unfolding to_le_bytes from_le_bytes
from_le_bytes-to_le_bytes zero n h = omega arith
from_le_bytes-to_le_bytes (suc w) n h =
    omega (arith, from_le_bytes-to_le_bytes w (n / 256) (omega arith))

-- The value of `w` bytes is below 256 ^ w, and its bytes are those.
pub from_le_bytes-lt :
    (w : ℕ) (bs : List ℕ) → length bs ≡ w → All (λ b. b < 2 ^ 8) bs → from_le_bytes bs < 256 ^ w
unfolding from_le_bytes
from_le_bytes-lt zero [] e h = omega arith
from_le_bytes-lt zero (b ∷ bs) e h = absurd (omega arith)
from_le_bytes-lt (suc w) [] e h = absurd (omega arith)
from_le_bytes-lt (suc w) (b ∷ bs) e h = omega (arith, from_le_bytes-lt w bs (omega arith) h.1, h.0)

low_byte : (b r : ℕ) → b < 2 ^ 8 → ((b + 256 * r) % 256 ≡ b) × ((b + 256 * r) / 256 ≡ r)
low_byte b r h = omega arith

pub to_le_bytes-from_le_bytes :
    (w : ℕ) (bs : List ℕ)
    → length bs ≡ w
    → All (λ b. b < 2 ^ 8) bs
    → to_le_bytes w (from_le_bytes bs) ≡ bs
unfolding from_le_bytes to_le_bytes
to_le_bytes-from_le_bytes zero [] e h = refl
to_le_bytes-from_le_bytes zero (b ∷ bs) e h = absurd (omega arith)
to_le_bytes-from_le_bytes (suc w) [] e h = absurd (omega arith)
to_le_bytes-from_le_bytes (suc w) (b ∷ bs) e h =
    let (low, high) = low_byte b (from_le_bytes bs) h.0 in
    rw (low, high, to_le_bytes-from_le_bytes w bs (omega arith) h.1)

pub length-reverse : (bs : List ℕ) → length (reverse bs) ≡ length bs
length-reverse [] = refl
length-reverse (b ∷ bs) =
    rw (reverse-cons b bs) (omega (arith, length-append (reverse bs) (b ∷ []), length-reverse bs))

pub reverse-IsByte : (bs : List ℕ) → All (λ b. b < 2 ^ 8) bs → All (λ b. b < 2 ^ 8) (reverse bs)
reverse-IsByte [] h = tt
reverse-IsByte (b ∷ bs) h =
    rw (reverse-cons b bs)
      (All-append (λ b'. b' < 2 ^ 8) (reverse bs) (b ∷ []) (reverse-IsByte bs h.1) (h.0, tt))

pub to_be_bytes-IsByte : (w n : ℕ) → All (λ b. b < 2 ^ 8) (to_be_bytes w n)
unfolding to_be_bytes
to_be_bytes-IsByte w n = reverse-IsByte (to_le_bytes w n) (to_le_bytes-IsByte w n)

pub length-to_be_bytes : (w n : ℕ) → length (to_be_bytes w n) ≡ w
unfolding to_be_bytes
length-to_be_bytes w n = length-reverse (to_le_bytes w n) ∙ length-to_le_bytes w n

-- A number below 256 ^ w is read back from its `w` bytes in big-endian order.
pub from_be_bytes-to_be_bytes : (w n : ℕ) → n < 256 ^ w → from_be_bytes (to_be_bytes w n) ≡ n
unfolding to_be_bytes from_be_bytes
from_be_bytes-to_be_bytes w n h =
    rw (reverse-reverse (to_le_bytes w n)) (from_le_bytes-to_le_bytes w n h)

-- Two's complement: the pattern of a `w`-byte integer, and the integer of a pattern.
unfoldable pub to_pattern : ℕ → ℤ → ℕ
to_pattern w (pos n) = n % 256 ^ w
to_pattern w (negsuc n) = 256 ^ w - 1 - n % 256 ^ w

unfoldable pub from_pattern : ℕ → ℕ → ℤ
from_pattern w u = if ltb u (256 ^ w / 2) then pos u else negsuc (256 ^ w - 1 - u)

-- The range of a signed integer of `w` bytes.
abbrev pub IsSigned : ℕ → ℤ → Type 0
IsSigned w z = (pos_part z < 256 ^ w / 2) × (neg_part z ≤ 256 ^ w / 2)

pub to_pattern-lt : (w : ℕ) (z : ℤ) → 0 < 256 ^ w → to_pattern w z < 256 ^ w
unfolding to_pattern
to_pattern-lt w (pos n) h = omega arith
to_pattern-lt w (negsuc n) h = omega arith

-- A signed integer in range is the one that its pattern stands for.
pub from_pattern-to_pattern : (w : ℕ) (z : ℤ) → IsSigned w z → from_pattern w (to_pattern w z) ≡ z
unfolding to_pattern from_pattern
from_pattern-to_pattern w (pos n) h = ground (arith, small_mod n (256 ^ w))
from_pattern-to_pattern w (negsuc n) h = ground (arith, small_mod n (256 ^ w))
