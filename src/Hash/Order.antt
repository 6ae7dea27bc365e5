-- ===== src/Hash/Order.antt =====
-- The order of hashes, `Ord::cmp` of bitcoinsuite-core/src/hash.rs, by which the transactions of a block
-- are sorted.
use Prim.Native.Nat.{compare, Ordering}
use mathlib.Core.List.{reverse, reverse-cons}
use bitcoinsuite.Base.{
  ℕ, ◌+◌, ◌*◌, ◌^◌, ◌<◌, ◌≡◌, refl, sym, ap, ◌∙◌, ◌↔◌, [], ◌∷◌, ◌++◌, length, arith,
}
use bitcoinsuite.Bytes.{Bytes, IsBytes}
use bitcoinsuite.Bytes.Endian.{
  from_le_bytes, to_le_bytes, to_le_bytes-from_le_bytes, length-reverse,
}

-- `match byte1.cmp(&byte2)`: `Equal` continues with the rest.
abbrev pub next : Ordering → Ordering → Ordering
next Ordering.lt rest = Ordering.lt
next Ordering.eq rest = rest
next Ordering.gt rest = Ordering.gt

-- `for (&byte1, &byte2) in a.zip(b)`
unfoldable pub cmp_loop : Bytes → Bytes → Ordering
cmp_loop [] b = Ordering.eq
cmp_loop (byte1 ∷ a) [] = Ordering.eq
cmp_loop (byte1 ∷ a) (byte2 ∷ b) = let rest = cmp_loop a b in next (compare byte1 byte2) rest

unfoldable pub cmp : Bytes → Bytes → Ordering
unfolding cmp_loop
cmp a b = cmp_loop (reverse a) (reverse b)

next_assoc : (a b c : Ordering) → next (next a b) c ≡ next a (next b c)
next_assoc Ordering.lt b c = refl
next_assoc Ordering.eq b c = refl
next_assoc Ordering.gt b c = refl

-- The last bytes decide when the ones before are equal.
cmp_loop-append :
    (a b : Bytes) (x y : ℕ)
    → length a ≡ length b
    → cmp_loop (a ++ (x ∷ [])) (b ++ (y ∷ [])) ≡ next (cmp_loop a b) (compare x y)
unfolding cmp_loop
cmp_loop-append [] [] x y e = ground arith
cmp_loop-append [] (b ∷ b_rest) x y e = absurd (omega arith)
cmp_loop-append (a ∷ a_rest) [] x y e = absurd (omega arith)
cmp_loop-append (a ∷ a_rest) (b ∷ b_rest) x y e =
    ap (next (compare a b)) (cmp_loop-append a_rest b_rest x y (omega arith))
    ∙ sym (next_assoc (compare a b) (cmp_loop a_rest b_rest) (compare x y))

-- The lowest digit decides when the rest of two numbers is equal.
next-compare :
    (x y a b : ℕ)
    → x < 2 ^ 8
    → y < 2 ^ 8
    → next (compare a b) (compare x y) ≡ compare (x + 256 * a) (y + 256 * b)
next-compare x y a b h k = ground arith

-- The order of two hashes of one size is that of the numbers that their bytes are in little-endian
-- order.
pub cmp-compare :
    (a b : Bytes)
    → length a ≡ length b
    → IsBytes a
    → IsBytes b
    → cmp a b ≡ compare (from_le_bytes a) (from_le_bytes b)
unfolding cmp from_le_bytes
cmp-compare [] [] e h k = ground arith
cmp-compare [] (b ∷ b_rest) e h k = absurd (omega arith)
cmp-compare (a ∷ a_rest) [] e h k = absurd (omega arith)
cmp-compare (a ∷ a_rest) (b ∷ b_rest) e h k =
    rw (reverse-cons a a_rest, reverse-cons b b_rest)
      (cmp_loop-append (reverse a_rest) (reverse b_rest) a b
          (omega (arith, length-reverse a_rest, length-reverse b_rest))
        ∙ ap (λ o. next o (compare a b)) (cmp-compare a_rest b_rest (omega arith) h.1 k.1)
        ∙ next-compare a b (from_le_bytes a_rest) (from_le_bytes b_rest) h.0 k.0)

compare_eq : (a b : ℕ) → compare a b ≡ Ordering.eq → a ≡ b
compare_eq a b h = ground arith

compare_refl : (a : ℕ) → compare a a ≡ Ordering.eq
compare_refl a = ground arith

from_le_bytes_injective :
    (a b : Bytes)
    → length a ≡ length b
    → IsBytes a
    → IsBytes b
    → from_le_bytes a ≡ from_le_bytes b
    → a ≡ b
from_le_bytes_injective a b e h k same =
    sym (to_le_bytes-from_le_bytes (length b) a e h)
    ∙ ap (to_le_bytes (length b)) same
    ∙ to_le_bytes-from_le_bytes (length b) b refl k

-- For byte strings of one length the order of hashes is that of the numbers that the bytes are in
-- little-endian order, and hashes are equal in it only when they are the same.
pub cmp-eq :
    (a b : Bytes)
    → length a ≡ length b
    → IsBytes a
    → IsBytes b
    → (cmp a b ≡ compare (from_le_bytes a) (from_le_bytes b)) × ((cmp a b ≡ Ordering.eq) ↔ (a ≡ b))
cmp-eq a b e h k =
    let order = cmp-compare a b e h k in
    let lower = from_le_bytes a in
    (
      order,
      (
        λ same.
            from_le_bytes_injective a b e h k
              (compare_eq lower (from_le_bytes b) (sym order ∙ same)),
        λ equal. order ∙ ap (λ c. compare lower (from_le_bytes c)) (sym equal) ∙ compare_refl lower,
      ),
    )
