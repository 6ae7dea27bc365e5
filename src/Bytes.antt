-- ===== src/Bytes.antt =====
-- bitcoinsuite-core/src/bytes.rs, bytes_mut.rs and byte_array.rs: byte strings that are read from
-- the front and written at the back. A byte string is a list of numbers, and `&mut Bytes` is passed
-- along: a read returns what it took and what it left. What a failed read leaves is not modelled.
pub mod Endian
use bitcoinsuite.Base.{
  ℕ, ◌<◌, ◌≡◌, refl, Bool, true, false, ◌&&◌, ◌==◌, List, [], ◌∷◌, ◌++◌, arith, ltb, if◌then◌else◌,
  length, take, drop, Result, ok, err, ◌>>=◌, take-append, drop-append, take-append-drop,
  length-take, length-append, ge→ltb, All, All-take, ◌^◌, Bool-cases, inl, inr,
}
use Endian.{
  to_le_bytes, from_le_bytes, length-to_le_bytes, from_le_bytes-to_le_bytes, from_le_bytes-lt,
  to_le_bytes-from_le_bytes,
}
use bitcoinsuite.Errors.{BytesError, invalid_split, BitcoinSuiteError, invalid_size}

abbrev pub Bytes : Type 0
Bytes = List ℕ

abbrev pub IsByte : ℕ → Type 0
IsByte b = b < 2 ^ 8

abbrev pub IsBytes : Bytes → Type 0
IsBytes bs = All IsByte bs

-- `[u8; N]` and `ByteArray<N>`
abbrev pub IsArray : ℕ → Bytes → Type 0
IsArray n bs = length bs ≡ n

-- `==` on slices.
abbrev pub eq_bytes : Bytes → Bytes → Bool
eq_bytes [] [] = true
eq_bytes (x ∷ xs) (y ∷ ys) = (x == y) && eq_bytes xs ys
eq_bytes xs ys = false

-- `self.data.split_to(at)` of the `bytes` crate panics past the end, which the test rules out.
unfoldable pub split_to : Bytes → ℕ → Result BytesError (Bytes × Bytes)
split_to bs at =
    if ltb (length bs) at then err (invalid_split at (length bs)) else ok (take at bs, drop at bs)

unfoldable pub split_to_array : ℕ → Bytes → Result BytesError (Bytes × Bytes)
split_to_array n bs =
    if ltb (length bs) n then err (invalid_split n (length bs)) else ok (take n bs, drop n bs)

-- `ByteArray::<N>::from_slice`
unfoldable pub array_from_slice : ℕ → Bytes → Result BitcoinSuiteError Bytes
array_from_slice n slice =
    if ltb (length slice) n
    then err (invalid_size n (length slice))
    else if ltb n (length slice)
    then err (invalid_size n (length slice))
    else ok slice

-- `put_slice`, `put_bytes` and `put_byte_array` of `BytesMut`; `freeze` keeps the bytes.
unfoldable pub put_slice : Bytes → Bytes → Bytes
put_slice bs slice = bs ++ slice

long_enough : (front back : Bytes) → ltb (length (front ++ back)) (length front) ≡ false
long_enough front back =
    ge→ltb (length (front ++ back)) (length front) (omega (arith, length-append front back))

pub split_to-append :
    (n : ℕ) (front back : Bytes) → length front ≡ n → split_to (front ++ back) n ≡ ok (front, back)
unfolding split_to
split_to-append n front back h = rw (← h, long_enough front back, take-append, drop-append)

pub split_to_array-append :
    (n : ℕ) (front back : Bytes)
    → length front ≡ n
    → split_to_array n (front ++ back) ≡ ok (front, back)
unfolding split_to_array
split_to_array-append n front back h = rw (← h, long_enough front back, take-append, drop-append)

pub split_to-one : (b : ℕ) (rest : Bytes) → split_to (b ∷ rest) 1 ≡ ok (b ∷ [], rest)
split_to-one b rest = split_to-append 1 (b ∷ []) rest refl

-- `uN::from_le_bytes(data.split_to_array::<W>()?.array())`, at a width of `w` bytes.
unfoldable pub read_le : ℕ → Bytes → Result BytesError (ℕ × Bytes)
read_le w bs = do (array, rest) ← split_to_array w bs; ok (from_le_bytes array, rest)

-- A number below 256 ^ w is read back from its `w` bytes, and what follows is left.
pub read_le-to_le_bytes :
    (w n : ℕ) (rest : Bytes) → n < 256 ^ w → read_le w (to_le_bytes w n ++ rest) ≡ ok (n, rest)
unfolding read_le
read_le-to_le_bytes w n rest h = rw (
  split_to_array-append w (to_le_bytes w n) rest (length-to_le_bytes w n),
  from_le_bytes-to_le_bytes w n h,
)

-- What a read takes and what it leaves are the input, and it takes as much as it was asked for.
pub split_to_parts :
    (bs : Bytes) (at : ℕ) (front back : Bytes)
    → split_to bs at ≡ ok (front, back)
    → (bs ≡ front ++ back) × (length front ≡ at)
unfolding split_to
split_to_parts bs at front back h = ground (arith, take-append-drop at bs, length-take at bs)

-- A number that was read is below 256 ^ w, and its bytes and the rest are the input.
pub read_le_parts :
    (w : ℕ) (bs : Bytes) (n : ℕ) (rest : Bytes)
    → IsBytes bs
    → read_le w bs ≡ ok (n, rest)
    → (bs ≡ to_le_bytes w n ++ rest) × (n < 256 ^ w)
unfolding read_le split_to_array
read_le_parts w bs n rest h e = elim (Bool-cases (ltb (length bs) w)) [
  | inl short ↦ ground (arith, short)
  | inr long ↦
      let front_length : length (take w bs) ≡ w = ground (arith, length-take w bs) in
      let front_bytes : IsBytes (take w bs) = All-take IsByte w bs h in
      ground (
        arith,
        take-append-drop w bs,
        to_le_bytes-from_le_bytes w (take w bs) front_length front_bytes,
        from_le_bytes-lt w (take w bs) front_length front_bytes,
      )
]
