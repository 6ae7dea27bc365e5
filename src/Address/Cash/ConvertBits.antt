-- ===== src/Address/Cash/ConvertBits.antt =====
-- `_convert_bits` of bitcoinsuite-core/src/address/cashaddress.rs against the string of bits that its
-- groups stand for.
use native.Mathlib.Nat.{div-eq_of_lt, pow-suc, one-le-pow, pow-le-pow_right}
use bitcoinsuite.Base.{
  ℕ, zero, suc, ◌+◌, ◌-◌, ◌*◌, ◌/◌, ◌%◌, ◌^◌, ◌≤◌, ◌<◌, ◌≡◌, refl, sym, ap, subst, ◌∙◌, List, [],
  ◌∷◌, ◌++◌, append_assoc, append-nil, true, false, some, and_then, arith, replicate, All,
  All-append, leb, leb→le, ◌==◌, ==_iff, Bool-cases, inl, inr,
}
use bitcoinsuite.Base.Bits.{field-half, field-parity, or_fields, fields}
use bitcoinsuite.Address.Base32.{convert_bits, convert_loop, drain, finish_bits, push_value}

-- The `w` lowest bits of a number, the highest first.
unfoldable pub bits_of : ℕ → ℕ → List ℕ
bits_of zero n = []
bits_of (suc w) n = bits_of w (n / 2) ++ (n % 2 ∷ [])

-- The bits of groups of `w` bits.
unfoldable pub expand : ℕ → List ℕ → List ℕ
unfolding bits_of
expand w [] = []
expand w (v ∷ values) = bits_of w v ++ expand w values

-- Groups of `w` bits.
abbrev pub IsGroups : ℕ → List ℕ → Type 0
IsGroups w values = All (λ v. v < 2 ^ w) values

bits_of-fields :
    (k w n a u : ℕ) → n ≡ w + k → u < 2 ^ k → bits_of n (a * 2 ^ k + u) ≡ bits_of w a ++ bits_of k u
unfolding bits_of
bits_of-fields zero w n a u e h =
    let same : a * 2 ^ 0 + u ≡ a = omega arith in
    let len : n ≡ w = omega arith in rw (same, len, append-nil (bits_of w a)) refl
bits_of-fields (suc k) w zero a u e h = absurd (omega arith)
bits_of-fields (suc k) w (suc n) a u e h =
    rw (field-half a k u, field-parity a k u)
      (ap (λ bs. bs ++ (u % 2 ∷ []))
          (bits_of-fields k w n a (u / 2) (omega arith) (omega (arith, pow-suc 2 k)))
        ∙ append_assoc (bits_of w a) (bits_of k (u / 2)) (u % 2 ∷ []))

bits_of-low : (w m a u : ℕ) → w ≤ m → bits_of w (a * 2 ^ m + u) ≡ bits_of w u
unfolding bits_of
bits_of-low zero m a u h = refl
bits_of-low (suc w) zero a u h = absurd (omega arith)
bits_of-low (suc w) (suc m) a u h =
    rw (field-half a m u, field-parity a m u, bits_of-low w m a (u / 2) (omega arith)) refl

bits_of-mod : (w m n : ℕ) → w ≤ m → bits_of w (n % 2 ^ m) ≡ bits_of w n
bits_of-mod w m n h = sym (ap (bits_of w) (fields m n) ∙ bits_of-low w m (n / 2 ^ m) (n % 2 ^ m) h)

abbrev pub zeros : ℕ → List ℕ
zeros k = replicate k 0

zeros-snoc : (w : ℕ) → zeros w ++ (0 ∷ []) ≡ zeros (suc w)
zeros-snoc zero = refl
zeros-snoc (suc w) = ap (λ (bs : List ℕ). 0 ∷ bs) (zeros-snoc w)

bits_of-zero : (w : ℕ) → bits_of w 0 ≡ zeros w
unfolding bits_of
bits_of-zero zero = refl
bits_of-zero (suc w) = ap (λ bs. bs ++ (0 ∷ [])) (bits_of-zero w) ∙ zeros-snoc w

shift-lt : (k i n a : ℕ) → i + k ≤ n → a < 2 ^ i → a * 2 ^ k < 2 ^ n
shift-lt zero i n a e h =
    omega (arith, h, pow-le-pow_right {n = 2} (omega arith) {i = i} {j = n} (omega arith))
shift-lt (suc k) i zero a e h = absurd (omega arith)
shift-lt (suc k) i (suc n) a e h =
    omega (arith, shift-lt k i n a (omega arith) h, pow-suc 2 n, ap (λ p. a * p) (pow-suc 2 k))

mod-small : (n m : ℕ) → n < m → n % m ≡ n
mod-small n m h = grind arith

no_high : (n m : ℕ) → n < m → (n / m == 0) ≡ true
no_high n m h = (==_iff (n / m) 0).1 (div-eq_of_lt h)

-- A value is put behind the bits that are kept.
push_value-bits :
    (from to acc bits value : ℕ)
    → 2 * from + to ≤ 33
    → 0 < to
    → bits < to
    → acc < 2 ^ (from + to - 1)
    → value < 2 ^ from
    → bits_of (bits + from) (push_value from to acc value) ≡ bits_of bits acc ++ bits_of from value
unfolding push_value
push_value-bits from to acc bits value wide pos few low fits =
    let whole : acc * 2 ^ from % 2 ^ 32 ≡ acc * 2 ^ from =
      mod-small (acc * 2 ^ from) (2 ^ 32)
        (shift-lt from (from + to - 1) 32 acc (omega arith) low) in
    let sum = or_fields from acc value fits in
    rw whole (
      rw sum (
        bits_of-mod (bits + from) (from + to - 1) (acc * 2 ^ from + value) (omega arith)
        ∙ bits_of-fields from bits (bits + from) acc value refl fits))

push_value-lt : (from to acc value : ℕ) → push_value from to acc value < 2 ^ (from + to - 1)
unfolding push_value
push_value-lt from to acc value = ground (arith, one-le-pow (from + to - 1) 2)

group-lt : (to n : ℕ) → n % 2 ^ to < 2 ^ to
group-lt to n = ground (arith, one-le-pow to 2)

-- A group of at most eight bits is a byte.
as_u8-group : (to n : ℕ) → to ≤ 8 → n % 2 ^ to % 2 ^ 8 ≡ n % 2 ^ to
as_u8-group to n h =
    mod-small (n % 2 ^ to) (2 ^ 8)
      (omega (arith, group-lt to n, pow-le-pow_right {n = 2} (omega arith) {i = to} {j = 8} h))

-- What one loop over the bits leaves of them.
abbrev Drained : ℕ → ℕ → ℕ → List ℕ × ℕ → Type 0
Drained to acc bits r =
    (r.1 < to) × IsGroups to r.0 × (bits_of bits acc ≡ expand to r.0 ++ bits_of r.1 acc)

drain-Drained :
    (fuel to acc bits : ℕ)
    → 0 < to
    → to ≤ 8
    → bits ≤ fuel
    → Drained to acc bits (drain fuel to acc bits)
unfolding drain expand
drain-Drained zero to acc bits pos narrow h = let e : bits ≡ 0 = omega arith in rw e (pos, tt, refl)
drain-Drained (suc fuel) to acc bits pos narrow h = elim (Bool-cases (leb to bits)) [
  | inl more ↦
      let le : to ≤ bits = leb→le to bits more in
      let b = bits - to in
      let (few, valid, same) = drain-Drained fuel to acc b pos narrow (omega arith) in
      let head : bits_of bits acc ≡ bits_of to (acc / 2 ^ b % 2 ^ to) ++ bits_of b acc =
        ap (bits_of bits) (fields b acc)
        ∙ bits_of-fields b to bits (acc / 2 ^ b) (acc % 2 ^ b) (omega arith)
            (ground (arith, one-le-pow b 2))
        ∙ ap (λ bs. bs ++ bits_of b (acc % 2 ^ b))
            (sym (bits_of-mod to to (acc / 2 ^ b) (omega arith)))
        ∙ ap (λ bs. bits_of to (acc / 2 ^ b % 2 ^ to) ++ bs) (bits_of-mod b b acc (omega arith)) in
      rw (more, as_u8-group to (acc / 2 ^ b) narrow)
        (
          few,
          (ground (arith, one-le-pow to 2), valid),
          head
              ∙ ap (λ bs. bits_of to (acc / 2 ^ b % 2 ^ to) ++ bs) same
              ∙ sym (
                  append_assoc (bits_of to (acc / 2 ^ b % 2 ^ to))
                    (expand to (drain fuel to acc b).0) (bits_of (drain fuel to acc b).1 acc)),
        )
  | inr done ↦ rw done (ground (arith, done), tt, refl)
]

-- The groups of `to` bits that bits are cut into: the same bits, and zeros behind them, fewer than a
-- group has.
abbrev pub Regroups : ℕ → List ℕ → List ℕ → Type 0
Regroups to bs ret = IsGroups to ret × (k : ℕ) × (k < to) × (expand to ret ≡ bs ++ zeros k)

finish_bits-Regroups :
    (from to acc bits : ℕ)
    → from + 2 * to ≤ 33
    → 0 < to
    → to ≤ 8
    → bits < to
    → acc < 2 ^ (from + to - 1)
    → (ret : List ℕ) × (finish_bits from to true acc bits ≡ some ret)
      × Regroups to (bits_of bits acc) ret
unfolding finish_bits expand bits_of
finish_bits-Regroups from to acc zero wide pos narrow few low = ([], refl, (tt, 0, pos, refl))
finish_bits-Regroups from to acc (suc b) wide pos narrow few low =
    let k = to - suc b in
    let whole : acc * 2 ^ k % 2 ^ 32 ≡ acc * 2 ^ k =
      mod-small (acc * 2 ^ k) (2 ^ 32) (shift-lt k (from + to - 1) 32 acc (omega arith) low) in
    let same : acc * 2 ^ k ≡ acc * 2 ^ k + 0 = omega arith in
    let u8 = as_u8-group to (acc * 2 ^ k % 2 ^ 32) narrow in
    let some_bits : (suc b == 0) ≡ false = ground arith in
    let padded : bits_of to (acc * 2 ^ k % 2 ^ 32 % 2 ^ to) ≡ bits_of (suc b) acc ++ zeros k =
      bits_of-mod to to (acc * 2 ^ k % 2 ^ 32) (omega arith)
      ∙ ap (bits_of to) (whole ∙ same)
      ∙ bits_of-fields k (suc b) to acc 0 (omega arith) (one-le-pow k 2 (omega arith))
      ∙ ap (λ bs. bits_of (suc b) acc ++ bs) (bits_of-zero k) in
    (
      acc * 2 ^ k % 2 ^ 32 % 2 ^ to ∷ [],
      rw (some_bits, u8) refl,
      (
        (ground (arith, one-le-pow to 2), tt),
        k,
        omega arith,
        append-nil (bits_of to (acc * 2 ^ k % 2 ^ 32 % 2 ^ to)) ∙ padded,
      ),
    )

pub expand-append : (w : ℕ) (xs ys : List ℕ) → expand w (xs ++ ys) ≡ expand w xs ++ expand w ys
unfolding expand
expand-append w [] ys = refl
expand-append w (x ∷ xs) ys =
    ap (λ bs. bits_of w x ++ bs) (expand-append w xs ys)
    ∙ sym (append_assoc (bits_of w x) (expand w xs) (expand w ys))

convert_loop-Regroups :
    (from to acc bits : ℕ) (data' : List ℕ)
    → 2 * from + to ≤ 33
    → from + 2 * to ≤ 33
    → 0 < to
    → to ≤ 8
    → bits < to
    → acc < 2 ^ (from + to - 1)
    → IsGroups from data'
    → (ret : List ℕ) × (convert_loop from to true acc bits data' ≡ some ret)
      × Regroups to (bits_of bits acc ++ expand from data') ret
unfolding convert_loop expand
convert_loop-Regroups from to acc bits [] w1 w2 pos narrow few low valid =
    let (ret, e, r) = finish_bits-Regroups from to acc bits w2 pos narrow few low in
    (ret, e, subst (λ bs. Regroups to bs ret) (sym (append-nil (bits_of bits acc))) r)
convert_loop-Regroups from to acc bits (v ∷ data') w1 w2 pos narrow few low valid =
    let acc' = push_value from to acc v in
    let r = drain (bits + from) to acc' (bits + from) in
    let (left, groups, same) =
      drain-Drained (bits + from) to acc' (bits + from) pos narrow (omega arith) in
    let (ret, e, (more, k, short, all)) =
      convert_loop-Regroups from to acc' r.1 data' w1 w2 pos narrow left
        (push_value-lt from to acc v) valid.1 in
    let pushed = push_value-bits from to acc bits v w1 pos few low valid.0 in
    let small : (v / 2 ^ from == 0) ≡ true = no_high v (2 ^ from) valid.0 in
    let bs = bits_of bits acc in
    let bits_v = bits_of from v in
    let tail = expand from data' in
    let bits_eq : expand to (r.0 ++ ret) ≡ (bs ++ (bits_v ++ tail)) ++ zeros k =
      expand-append to r.0 ret
      ∙ ap (λ xs. expand to r.0 ++ xs) (all ∙ append_assoc (bits_of r.1 acc') tail (zeros k))
      ∙ sym (append_assoc (expand to r.0) (bits_of r.1 acc') (tail ++ zeros k))
      ∙ ap (λ xs. xs ++ (tail ++ zeros k)) (sym same ∙ pushed)
      ∙ sym (append_assoc (bs ++ bits_v) tail (zeros k))
      ∙ ap (λ xs. xs ++ zeros k) (append_assoc bs bits_v tail) in
    (
      r.0 ++ ret,
      rw small (ap (λ o. and_then o (λ xs. some (r.0 ++ xs))) e),
      (All-append (λ x. x < 2 ^ to) r.0 ret groups more, k, short, bits_eq),
    )

-- Groups of `from` bits are converted without an error to the same bits in groups of `to`, with zeros behind
-- them to fill the last group. The sizes are positive and small enough for 32 bits, and `to` is at most 8.
pub convert_bits-Regroups :
    (from to : ℕ) (data' : List ℕ)
    → 2 * from + to ≤ 33
    → from + 2 * to ≤ 33
    → 0 < to
    → to ≤ 8
    → IsGroups from data'
    → (ret : List ℕ) × (convert_bits data' from to true ≡ some ret)
      × Regroups to (expand from data') ret
unfolding convert_bits bits_of
convert_bits-Regroups from to data' w1 w2 pos narrow valid =
    convert_loop-Regroups from to 0 0 data' w1 w2 pos narrow pos
      (one-le-pow (from + to - 1) 2 (omega arith)) valid
