-- ===== src/ScriptNum.antt =====
-- `ser_script_num` of bitcoinsuite-core/src/build_block.rs: a number as a script pushes it, with its
-- magnitude in little-endian bytes and its sign in the top bit of the last byte.
pub mod Push
use bitcoinsuite.Base.{
  ℕ, zero, suc, ◌+◌, ◌-◌, ◌*◌, ◌/◌, ◌%◌, ◌^◌, ◌<◌, ◌≤◌, ◌≡◌, ◌≢◌, refl, sym, ◌∙◌, ap, List, [], ◌∷◌,
  ◌++◌, Bool, true, false, Option, none, some, and_then, if◌then◌else◌, ◌==◌, leb, arith, length,
  append_assoc, append-nil, length-append, Bool-cases, Option-cases, inl, inr,
}
use bitcoinsuite.Base.Int.{ℤ, pos, negsuc}
use bitcoinsuite.Bytes.{Bytes, IsBytes, put_slice}
use bitcoinsuite.Bytes.Endian.{from_le_bytes}

-- The `while` loop. The fuel is the number of rounds; `none` stands for a loop that ran out of it.
unfoldable pub num_loop : ℕ → ℕ → Bytes → Option Bytes
unfolding put_slice
num_loop zero abs_val bs = if abs_val == 0 then some bs else none
num_loop (suc fuel) abs_val bs =
    let more = num_loop fuel (abs_val / 2 ^ 8) (put_slice bs ((abs_val % 2 ^ 8) ∷ [])) in
    if abs_val == 0 then some bs else more

-- What is done with the last byte; `none` is the panic of the `unwrap` where there is none.
unfoldable pub put_sign : Bool → Bytes → Option Bytes
put_sign is_neg [] = none
put_sign is_neg (b ∷ []) =
    if leb 0x80 b
    then some (b ∷ (if is_neg then 0x80 else 0) ∷ [])
    else some ((if is_neg then b + 0x80 else b) ∷ [])
put_sign is_neg (b ∷ c ∷ bs) = and_then (put_sign is_neg (c ∷ bs)) (λ rest. some (b ∷ rest))

-- `value.abs()` of an i32. The least one wraps around to itself, which is not positive.
abbrev pub abs_i32 : ℤ → ℕ
abs_i32 (pos n) = n
abs_i32 (negsuc n) = if n == 2 ^ 31 - 1 then 0 else suc n

abbrev pub is_negative : ℤ → Bool
is_negative (pos n) = false
is_negative (negsuc n) = true

abbrev pub is_zero : ℤ → Bool
is_zero (pos n) = n == 0
is_zero (negsuc n) = false

-- `none` is a panic. An i32 has four bytes.
unfoldable pub ser_script_num : ℤ → Option Bytes
ser_script_num value =
    let bytes = and_then (num_loop 4 (abs_i32 value) []) (put_sign (is_negative value)) in
    if is_zero value then some [] else bytes

-- The number that a script reads from such bytes.
abbrev pub magnitude : Bytes → ℕ
magnitude [] = 0
magnitude (b ∷ []) = if leb 0x80 b then b - 0x80 else b
magnitude (b ∷ c ∷ bs) = b + 256 * magnitude (c ∷ bs)

abbrev pub sign_bit : Bytes → Bool
sign_bit [] = false
sign_bit (b ∷ []) = leb 0x80 b
sign_bit (b ∷ c ∷ bs) = sign_bit (c ∷ bs)

abbrev pub signed : Bool → ℕ → ℤ
signed true (suc n) = negsuc n
signed is_neg n = pos n

abbrev pub read_script_num : Bytes → ℤ
read_script_num bs = signed (sign_bit bs) (magnitude bs)

-- What `put_sign` shows to a reader.
abbrev pub Shows : Bool → Bytes → Bytes → Type 0
Shows is_neg bs num = (magnitude num ≡ from_le_bytes bs) × (sign_bit num ≡ is_neg) × (num ≢ [])

magnitude-cons : (b : ℕ) (num : Bytes) → num ≢ [] → magnitude (b ∷ num) ≡ b + 256 * magnitude num
magnitude-cons b [] h = absurd (h refl)
magnitude-cons b (c ∷ num) h = refl

sign_bit-cons : (b : ℕ) (num : Bytes) → num ≢ [] → sign_bit (b ∷ num) ≡ sign_bit num
sign_bit-cons b [] h = absurd (h refl)
sign_bit-cons b (c ∷ num) h = refl

put_sign-Shows :
    (is_neg : Bool) (b : ℕ) (bs : Bytes)
    → IsBytes (b ∷ bs)
    → (num : Bytes) × (put_sign is_neg (b ∷ bs) ≡ some num) × Shows is_neg (b ∷ bs) num
unfolding put_sign from_le_bytes
put_sign-Shows true b [] h = elim (Bool-cases (leb 0x80 b)) [
  | inl high ↦ (b ∷ 0x80 ∷ [], rw (high, put_sign) refl, (ground arith, refl, λ e. cc))
  | inr low ↦ (
    (b + 0x80) ∷ [],
    rw (low, put_sign) refl,
    (ground (arith, low), ground (arith, low), λ e. cc),
  )
]
put_sign-Shows false b [] h = elim (Bool-cases (leb 0x80 b)) [
  | inl high ↦ (b ∷ 0 ∷ [], rw (high, put_sign) refl, (ground arith, refl, λ e. cc))
  | inr low ↦ (b ∷ [], rw (low, put_sign) refl, (ground (arith, low), low, λ e. cc))
]
put_sign-Shows is_neg b (c ∷ bs) h =
    let (num, signs, (is_magnitude, is_sign, filled)) = put_sign-Shows is_neg c bs h.1 in
    (
      b ∷ num,
      rw (signs, put_sign) refl,
      (
        magnitude-cons b num filled ∙ ap (λ n. b + 256 * n) is_magnitude,
        sign_bit-cons b num filled ∙ is_sign,
        λ e. cc,
      ),
    )

-- The loop writes the bytes of the number.
num_loop-from_le_bytes :
    (fuel n : ℕ) (bs : Bytes)
    → n < 256 ^ fuel
    → (digits : Bytes) × (num_loop fuel n bs ≡ some (bs ++ digits))
      × (from_le_bytes digits ≡ n)
      × IsBytes digits
unfolding num_loop from_le_bytes put_slice
num_loop-from_le_bytes zero n bs h =
    let none_left : n ≡ 0 = omega arith in
    ([], rw (none_left, num_loop) (ap some (sym (append-nil bs))), sym none_left, tt)
num_loop-from_le_bytes (suc fuel) n bs h = elim (Bool-cases (n == 0)) [
  | inl done ↦ ([], rw (done, num_loop) (ap some (sym (append-nil bs))), ground arith, tt)
  | inr more ↦
      let (digits, loops, is_number, are_bytes) =
        num_loop-from_le_bytes fuel (n / 256) (bs ++ (n % 256 ∷ [])) (omega arith) in
      (
        n % 256 ∷ digits,
        rw (more, num_loop) (loops ∙ ap some (append_assoc bs (n % 256 ∷ []) digits)),
        omega (arith, is_number),
        (omega arith, are_bytes),
      )
]

-- An i32, without the least one.
abbrev pub IsNegatable : ℤ → Type 0
IsNegatable (pos n) = n < 2 ^ 31
IsNegatable (negsuc n) = n < 2 ^ 31 - 1

empty_number : (n : ℕ) → 0 < n → from_le_bytes [] ≡ n → ⊥
unfolding from_le_bytes
empty_number n h e = omega arith

-- A number and its sign give the bytes that a script reads them from.
signed_bytes :
    (is_neg : Bool) (n : ℕ)
    → 0 < n
    → n < 256 ^ 4
    → (num : Bytes) × (and_then (num_loop 4 n []) (put_sign is_neg) ≡ some num)
      × (read_script_num num ≡ signed is_neg n)
signed_bytes is_neg n h k =
    let (digits, loops, is_number, are_bytes) = num_loop-from_le_bytes 4 n [] k in
    go digits is_number are_bytes loops
  where
    go :
        (digits : Bytes)
        → from_le_bytes digits ≡ n
        → IsBytes digits
        → num_loop 4 n [] ≡ some digits
        → (num : Bytes) × (and_then (num_loop 4 n []) (put_sign is_neg) ≡ some num)
          × (read_script_num num ≡ signed is_neg n)
    go [] is_number are_bytes loops = absurd (empty_number n h is_number)
    go (b ∷ digits) is_number are_bytes loops =
        let (num, signs, (is_magnitude, is_sign, filled)) =
          put_sign-Shows is_neg b digits are_bytes in
        (
          num,
          ap (λ o. and_then o (put_sign is_neg)) loops ∙ signs,
          ap (λ t. signed t (magnitude num)) is_sign
              ∙ ap (signed is_neg) (is_magnitude ∙ is_number),
        )

-- Every i32 but the least one is read back from the bytes of `ser_script_num`.
pub read-ser_script_num :
    (value : ℤ)
    → IsNegatable value
    → (num : Bytes) × (ser_script_num value ≡ some num) × (read_script_num num ≡ value)
unfolding ser_script_num
read-ser_script_num (pos zero) h = ([], refl, refl)
read-ser_script_num (pos (suc n)) h =
    let positive : (suc n == 0) ≡ false = ground arith in
    let (num, serializes, reads) = signed_bytes false (suc n) (omega arith) (omega arith) in
    (
      num,
      ap
            (λ (test : Bool).
              if test then some [] else and_then (num_loop 4 (suc n) []) (put_sign false))
            positive
          ∙ serializes,
      reads,
    )
read-ser_script_num (negsuc n) h =
    let not_least : (n == 2 ^ 31 - 1) ≡ false = ground arith in
    let (num, serializes, reads) = signed_bytes true (suc n) (omega arith) (omega arith) in
    (
      num,
      ap (λ (test : Bool). and_then (num_loop 4 (if test then 0 else suc n) []) (put_sign true))
            not_least
          ∙ serializes,
      reads,
    )

-- The least i32 makes `ser_script_num` panic: its absolute value wraps around.
pub ser_script_num-least : ser_script_num (negsuc (2 ^ 31 - 1)) ≡ none
unfolding ser_script_num num_loop put_sign
ser_script_num-least = refl

put_sign-length :
    (is_neg : Bool) (bs num : Bytes) → put_sign is_neg bs ≡ some num → length num ≤ length bs + 1
unfolding put_sign
put_sign-length is_neg [] num e = cc
put_sign-length is_neg (b ∷ []) num e = ground arith
put_sign-length is_neg (b ∷ c ∷ bs) num e = elim (Option-cases (put_sign is_neg (c ∷ bs))) [
  | inl panics ↦ let e' = rw (panics, put_sign) at e in cc
  | inr (rest, signs) ↦
      let e' = rw (signs, put_sign) at e in
      let same : b ∷ rest ≡ num = cc in
      rw (sym same) (omega (arith, put_sign-length is_neg (c ∷ bs) rest signs))
]

num_loop-length :
    (fuel n : ℕ) (bs num : Bytes) → num_loop fuel n bs ≡ some num → length num ≤ length bs + fuel
unfolding num_loop put_slice
num_loop-length zero n bs num e = ground arith
num_loop-length (suc fuel) n bs num e = elim (Bool-cases (n == 0)) [
  | inl done ↦ ground (arith, done)
  | inr more ↦
      let e' = rw (more, num_loop) at e in
      omega (
        arith,
        num_loop-length fuel (n / 2 ^ 8) (bs ++ (n % 2 ^ 8 ∷ [])) num e',
        length-append bs (n % 2 ^ 8 ∷ []),
      )
]

-- A script number has five bytes at most.
pub ser_script_num-length :
    (value : ℤ) (num : Bytes) → ser_script_num value ≡ some num → length num ≤ 5
unfolding ser_script_num
ser_script_num-length value num e = elim (Bool-cases (is_zero value)) [
  | inl nil ↦
      let e' = rw (nil, ser_script_num) at e in
      let same : [] ≡ num = cc in rw (sym same) (omega arith)
  | inr filled ↦
      let e' = rw (filled, ser_script_num) at e in
      elim (Option-cases (num_loop 4 (abs_i32 value) [])) [
        | inl endless ↦ let e'' = rw endless at e' in cc
        | inr (digits, loops) ↦
            let e'' = rw loops at e' in
            omega (
              arith,
              num_loop-length 4 (abs_i32 value) [] digits loops,
              put_sign-length (is_negative value) digits num e'',
            )
      ]
]
