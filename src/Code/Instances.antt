-- ===== src/Code/Instances.antt =====
-- The implementations for arrays, byte strings, Booleans and integers are lawful.
use bitcoinsuite.Base.{ℕ, ◌^◌, ◌<◌, refl, [], ◌++◌, true, false, length, append_assoc}
use bitcoinsuite.Bytes.{
  IsArray, split_to_array-append, split_to-append, split_to-one, read_le-to_le_bytes,
}
use bitcoinsuite.Bytes.Endian.{from_pattern-to_pattern, to_pattern, to_pattern-lt, IsSigned}
use bitcoinsuite.Encoding.{write_compact_size}
use bitcoinsuite.Encoding.RoundTrip.{write_compact_size-append, read-write_compact_size}
use bitcoinsuite.Code.{
  ser, bytes_code, bytes_ser_to, bytes_deser, array_code, array_ser_to, array_deser, bool_code,
  bool_ser_to, bool_deser, uint_code, uint_ser_to, uint_deser, int_code, int_ser_to, int_deser,
}
use bitcoinsuite.Code.Lawful.{IsLawful}

pub array_code-IsLawful : (n : ℕ) → IsLawful (array_code n) (IsArray n)
unfolding ser array_ser_to array_deser
array_code-IsLawful n = record {
  appends = λ a bs. refl;
  reads = λ a rest h. rw (split_to_array-append n a rest h);
}

-- A byte string that a u64 can measure.
pub bytes_code-IsLawful : IsLawful bytes_code (λ a. length a < 2 ^ 64)
unfolding ser bytes_ser_to bytes_deser
bytes_code-IsLawful = record {
  appends = λ a bs. rw (write_compact_size-append bs (length a), append_assoc);
  reads = λ a rest h. rw (
    append_assoc (write_compact_size [] (length a)) a rest,
    read-write_compact_size (length a) (a ++ rest) h,
    split_to-append (length a) a rest refl,
  );
}

pub bool_code-IsLawful : IsLawful bool_code (λ _. Unit)
unfolding ser bool_ser_to bool_deser
bool_code-IsLawful = record {
  appends = λ a bs. refl;
  reads = elim [
    | true ↦ λ rest _. rw (split_to-one 1 rest)
    | false ↦ λ rest _. rw (split_to-one 0 rest)
  ];
}

pub uint_code-IsLawful : (w : ℕ) → IsLawful (uint_code w) (λ a. a < 256 ^ w)
unfolding ser uint_ser_to uint_deser
uint_code-IsLawful w = record {
  appends = λ a bs. refl;
  reads = λ a rest h. rw (read_le-to_le_bytes w a rest h);
}

pub int_code-IsLawful : (w : ℕ) → 0 < 256 ^ w → IsLawful (int_code w) (IsSigned w)
unfolding ser int_ser_to int_deser
int_code-IsLawful w pos_w = record {
  appends = λ a bs. refl;
  reads = λ a rest h. rw (
    read_le-to_le_bytes w (to_pattern w a) rest (to_pattern-lt w a pos_w),
    from_pattern-to_pattern w a h,
  );
}
