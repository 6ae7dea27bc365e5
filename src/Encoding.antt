-- ===== src/Encoding.antt =====
-- bitcoinsuite-core/src/encoding.rs: the compact size, a number in 1, 3, 5 or 9 bytes.
pub mod RoundTrip
use bitcoinsuite.Base.{
  ℕ, ◌%◌, ◌^◌, ◌<◌, List, [], ◌∷◌, Result, ok, ◌>>=◌, Option, none, some, ltb, leb, if◌then◌else◌,
  ◌==◌, length, take, drop, ◌-◌, get_elem?,
}
use bitcoinsuite.Errors.{BytesError}
use bitcoinsuite.Bytes.{Bytes, split_to, read_le, put_slice}
use bitcoinsuite.Bytes.Endian.{to_le_bytes, from_le_bytes}

-- `data.split_to(n)?[0]`: the index is in range for every n above 0.
abbrev pub first : Bytes → ℕ
first [] = 0
first (b ∷ bs) = b

unfoldable pub read_compact_size : Bytes → Result BytesError (ℕ × Bytes)
read_compact_size bs = do
  (head, bs) ← split_to bs 1
  let first_byte = first head
  if leb first_byte 0xfc
      then ok (first_byte, bs)
      else if first_byte == 0xfd
      then read_le 2 bs
      else if first_byte == 0xfe
      then read_le 4 bs
      else read_le 8 bs

-- `slice.get(from..to)` for from ≤ to
unfoldable pub get_range : Bytes → ℕ → ℕ → Option Bytes
get_range slice from to =
    if ltb (length slice) to then none else some (take (to - from) (drop from slice))

-- The two numbers of a prefix of `size` bytes behind the first.
unfoldable pub prefixed : ℕ → Option Bytes → Option (ℕ × ℕ)
prefixed size none = none
prefixed size (some array) = some (size, from_le_bytes array)

unfoldable pub read_compact_size_slice : Bytes → Option (ℕ × ℕ)
unfolding get_range prefixed
read_compact_size_slice [] = none
read_compact_size_slice (first_byte ∷ rest) =
    let slice : Bytes = first_byte ∷ rest in
    if leb first_byte 0xfc
    then some (1, first_byte)
    else if first_byte == 0xfd
    then prefixed 2 (get_range slice 1 3)
    else if first_byte == 0xfe
    then prefixed 4 (get_range slice 1 5)
    else prefixed 8 (get_range slice 1 9)

unfoldable pub write_compact_size : Bytes → ℕ → Bytes
unfolding put_slice
write_compact_size bs size =
    if leb size 0xfc
    then put_slice bs ((size % 2 ^ 8) ∷ [])
    else if leb size 0xffff
    then put_slice (put_slice bs (0xfd ∷ [])) (to_le_bytes 2 (size % 2 ^ 16))
    else if leb size 0xffff_ffff
    then put_slice (put_slice bs (0xfe ∷ [])) (to_le_bytes 4 (size % 2 ^ 32))
    else put_slice (put_slice bs (0xff ∷ [])) (to_le_bytes 8 size)
