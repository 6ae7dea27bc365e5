-- ===== src/Code.antt =====
-- bitcoinsuite-core/src/bitcoin_code.rs: the trait `BitcoinCode` and its implementations for byte
-- strings, arrays, vectors, Booleans and integers.
pub mod Lawful
pub mod Instances
pub mod Vectors
use bitcoinsuite.Base.{
  ℕ, zero, suc, ◌*◌, ◌-◌, ◌^◌, ◌≡◌, List, [], ◌∷◌, ◌++◌, Bool, true, false, not, Result, ok, panic,
  ◌>>=◌, ltb, if◌then◌else◌, ◌==◌, length,
}
use bitcoinsuite.Base.Int.{ℤ}
use bitcoinsuite.Errors.{BitcoinSuiteError, from_bytes_error}
use bitcoinsuite.Bytes.{Bytes, split_to, split_to_array, read_le, put_slice}
use bitcoinsuite.Bytes.Endian.{to_le_bytes, from_le_bytes, to_pattern, from_pattern}
use bitcoinsuite.Encoding.{read_compact_size, write_compact_size, first}

pub record BitcoinCode (A : Type 0) : Type 0 where
  pub ser_to : A → Bytes → Bytes
  pub deser : Bytes → Result BitcoinSuiteError (A × Bytes)

-- The provided method `ser`.
unfoldable pub ser : {A : Type 0} → BitcoinCode A → A → Bytes
ser c a = c.ser_to a []

unfoldable pub bytes_ser_to : Bytes → Bytes → Bytes
unfolding put_slice
bytes_ser_to a bs = put_slice (write_compact_size bs (length a)) a

unfoldable pub bytes_deser : Bytes → Result BitcoinSuiteError (Bytes × Bytes)
bytes_deser bs = do
  (size, bs) ← from_bytes_error (read_compact_size bs)
  from_bytes_error (split_to bs size)

abbrev pub bytes_code : BitcoinCode Bytes
bytes_code = record { ser_to = bytes_ser_to; deser = bytes_deser }

unfoldable pub array_ser_to : Bytes → Bytes → Bytes
unfolding put_slice
array_ser_to a bs = put_slice bs a

unfoldable pub array_deser : ℕ → Bytes → Result BitcoinSuiteError (Bytes × Bytes)
array_deser n bs = from_bytes_error (split_to_array n bs)

-- `ByteArray<N>`
abbrev pub array_code : ℕ → BitcoinCode Bytes
array_code n = record { ser_to = array_ser_to; deser = array_deser n }

unfoldable pub bool_ser_to : Bool → Bytes → Bytes
unfolding put_slice
bool_ser_to a bs = put_slice bs ((if a then 1 else 0) ∷ [])

unfoldable pub bool_deser : Bytes → Result BitcoinSuiteError (Bool × Bytes)
bool_deser bs = do (head, bs) ← from_bytes_error (split_to bs 1); ok (not (first head == 0), bs)

abbrev pub bool_code : BitcoinCode Bool
bool_code = record { ser_to = bool_ser_to; deser = bool_deser }

-- The unsigned integers of `w` bytes.
unfoldable pub uint_ser_to : ℕ → ℕ → Bytes → Bytes
unfolding put_slice
uint_ser_to w a bs = put_slice bs (to_le_bytes w a)

unfoldable pub uint_deser : ℕ → Bytes → Result BitcoinSuiteError (ℕ × Bytes)
uint_deser w bs = from_bytes_error (read_le w bs)

abbrev pub uint_code : ℕ → BitcoinCode ℕ
uint_code w = record { ser_to = uint_ser_to w; deser = uint_deser w }

-- The signed integers of `w` bytes.
unfoldable pub int_ser_to : ℕ → ℤ → Bytes → Bytes
unfolding put_slice
int_ser_to w a bs = put_slice bs (to_le_bytes w (to_pattern w a))

unfoldable pub int_deser : ℕ → Bytes → Result BitcoinSuiteError (ℤ × Bytes)
int_deser w bs = do (u, bs) ← from_bytes_error (read_le w bs); ok (from_pattern w u, bs)

abbrev pub int_code : ℕ → BitcoinCode ℤ
int_code w = record { ser_to = int_ser_to w; deser = int_deser w }

-- `isize::MAX`, on a platform of 64 bits.
abbrev pub isize_max : ℕ
isize_max = 2 ^ 63 - 1

module _ {A : Type 0} (c : BitcoinCode A) where
  -- for part in self { part.ser_to(bytes); }
  unfoldable pub ser_parts : List A → Bytes → Bytes
  ser_parts [] bs = bs
  ser_parts (part ∷ parts) bs = ser_parts parts (c.ser_to part bs)

  unfoldable pub vec_ser_to : List A → Bytes → Bytes
  unfolding ser_parts
  vec_ser_to a bs = ser_parts a (write_compact_size bs (length a))

  -- for _ in 0..size { vec.push(T::deser(data)?); }
  unfoldable pub deser_parts : ℕ → Bytes → Result BitcoinSuiteError (List A × Bytes)
  deser_parts zero bs = ok ([], bs)
  deser_parts (suc size) bs = do
    (item, bs) ← c.deser bs
    (items, bs) ← deser_parts size bs
    ok (item ∷ items, bs)

  -- `Vec::with_capacity(size)` panics if the buffer would have more than `isize::MAX` bytes;
  -- `item_size` is the size of an item in memory.
  unfoldable pub vec_deser : ℕ → Bytes → Result BitcoinSuiteError (List A × Bytes)
  unfolding deser_parts
  vec_deser item_size bs = do
    (size, bs) ← from_bytes_error (read_compact_size bs)
    if ltb isize_max (size * item_size) then panic else deser_parts size bs

abbrev pub vec_code : {A : Type 0} → ℕ → BitcoinCode A → BitcoinCode (List A)
vec_code item_size c = record { ser_to = vec_ser_to c; deser = vec_deser c item_size }
