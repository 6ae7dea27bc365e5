-- ===== src/Encoding/RoundTrip.antt =====
-- Writing and reading compact sizes (bitcoinsuite-core/src/encoding.rs).
use bitcoinsuite.Base.{
  ℕ, ◌%◌, ◌^◌, ◌≤◌, ◌<◌, ◌≡◌, [], ◌∷◌, ◌++◌, ok, ◌⊎◌, arith, leb, if◌then◌else◌, length,
  append_assoc,
}
use bitcoinsuite.Bytes.{Bytes, split_to-one, read_le-to_le_bytes}
use bitcoinsuite.Bytes.Endian.{to_le_bytes, length-to_le_bytes}
use bitcoinsuite.Encoding.{read_compact_size, write_compact_size}

pub write_compact_size-append :
    (bs : Bytes) (size : ℕ) → write_compact_size bs size ≡ bs ++ write_compact_size [] size
unfolding write_compact_size
write_compact_size-append bs size = ground (
  arith,
  append_assoc bs (0xfd ∷ []) (to_le_bytes 2 (size % 2 ^ 16)),
  append_assoc bs (0xfe ∷ []) (to_le_bytes 4 (size % 2 ^ 32)),
  append_assoc bs (0xff ∷ []) (to_le_bytes 8 size),
)

read_small :
    (size : ℕ) (rest : Bytes) → size ≤ 0xfc → read_compact_size (size ∷ rest) ≡ ok (size, rest)
unfolding read_compact_size
read_small size rest h = ground (arith, split_to-one size rest)

-- The forms that are read.
read_form :
    (b w n : ℕ) (rest : Bytes)
    → (b ≡ 0xfd) × (w ≡ 2) ⊎ (b ≡ 0xfe) × (w ≡ 4) ⊎ (b ≡ 0xff) × (w ≡ 8)
    → n < 256 ^ w
    → read_compact_size (b ∷ (to_le_bytes w n ++ rest)) ≡ ok (n, rest)
unfolding read_compact_size
read_form b w n rest h lt =
    ground (arith, split_to-one b (to_le_bytes w n ++ rest), read_le-to_le_bytes w n rest lt)

-- `read_compact_size` reads back every u64 that `write_compact_size` wrote, and leaves what follows.
pub read-write_compact_size :
    (size : ℕ) (rest : Bytes)
    → size < 2 ^ 64
    → read_compact_size (write_compact_size [] size ++ rest) ≡ ok (size, rest)
unfolding write_compact_size
read-write_compact_size size rest h = ground (
  arith,
  read_small size rest,
  read_form 0xfd 2 size rest,
  read_form 0xfe 4 size rest,
  read_form 0xff 8 size rest,
)

-- The encoding takes 1, 3, 5 or 9 bytes, each a byte.
pub length-write_compact_size :
    (size : ℕ)
    → length (write_compact_size [] size) ≡ (
        if leb size 0xfc
        then 1
        else if leb size 0xffff
        then 3
        else if leb size 0xffff_ffff
        then 5
        else 9)
unfolding write_compact_size
length-write_compact_size size = ground (
  arith,
  length-to_le_bytes 2 (size % 2 ^ 16),
  length-to_le_bytes 4 (size % 2 ^ 32),
  length-to_le_bytes 8 size,
)
