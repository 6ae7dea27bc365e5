-- ===== src/Block/RoundTrip.antt =====
-- Writing and reading headers and blocks (bitcoinsuite-core/src/block.rs).
use bitcoinsuite.Base.{ℕ, ◌^◌, ◌<◌, ◌≡◌, refl, [], ◌∷◌, ◌++◌, ok, arith, take, append_assoc}
use bitcoinsuite.Base.Int.{ℤ, pos, negsuc}
use bitcoinsuite.Bytes.{Bytes, IsArray}
use bitcoinsuite.Bytes.Endian.{
  IsSigned, to_le_bytes, from_le_bytes, to_pattern, from_pattern, from_le_bytes-to_le_bytes,
  length-to_le_bytes,
}
use bitcoinsuite.Code.{ser, array_code, uint_code, int_code}
use bitcoinsuite.Code.Lawful.{IsLawful, lawful_by}
use bitcoinsuite.Code.Instances.{array_code-IsLawful, uint_code-IsLawful}
use bitcoinsuite.Tx.RoundTrip.{u32, i32, hash32}
use bitcoinsuite.Block.{
  BitcoinHeader, LotusHeader, bitcoin_header_code, bitcoin_header_ser_to, bitcoin_header_deser,
  timestamp_code, timestamp_ser_to, timestamp_deser, size_code, size_ser_to, size_deser,
  lotus_header_code, lotus_header_ser_to, lotus_header_deser,
}

pub record IsBitcoinHeader (h : BitcoinHeader) : Type 0 where
  pub version : IsSigned 4 h.version
  pub prev_block : IsArray 32 h.prev_block
  pub merkle_root : IsArray 32 h.merkle_root
  pub timestamp : h.timestamp < 256 ^ 4
  pub bits : h.bits < 256 ^ 4
  pub nonce : h.nonce < 256 ^ 4

pub bitcoin_header_code-IsLawful : IsLawful bitcoin_header_code IsBitcoinHeader
bitcoin_header_code-IsLawful =
    lawful_by bitcoin_header_code IsBitcoinHeader
      (λ h.
        ser (int_code 4) h.version
        ++ (ser (array_code 32) h.prev_block
            ++ (ser (array_code 32) h.merkle_root
                ++ (ser (uint_code 4) h.timestamp
                    ++ (ser (uint_code 4) h.bits ++ ser (uint_code 4) h.nonce)))))
      (λ h bs.
        unfold bitcoin_header_ser_to in
        simp (u32.appends, hash32.appends, i32.appends, append_assoc))
      (λ h rest p.
        unfold bitcoin_header_deser in
        simp (
          append_assoc,
          i32.reads h.version _ p.version,
          hash32.reads h.prev_block _ p.prev_block,
          hash32.reads h.merkle_root _ p.merkle_root,
          u32.reads h.timestamp _ p.timestamp,
          u32.reads h.bits _ p.bits,
          u32.reads h.nonce rest p.nonce,
        ))

from_le_bytes-zeros :
    (bs zeros : Bytes) → from_le_bytes zeros ≡ 0 → from_le_bytes (bs ++ zeros) ≡ from_le_bytes bs
unfolding from_le_bytes
from_le_bytes-zeros [] zeros h = h
from_le_bytes-zeros (b ∷ bs) zeros h = omega (arith, from_le_bytes-zeros bs zeros h)

-- A timestamp that six bytes hold.
abbrev pub IsTimestamp : ℤ → Type 0
IsTimestamp (pos n) = n < 256 ^ 6
IsTimestamp (negsuc n) = ⊥

low_bytes-6 : (n : ℕ) → take 6 (to_le_bytes 8 n) ≡ to_le_bytes 6 n
unfolding to_le_bytes
low_bytes-6 n = refl

low_bytes-7 : (n : ℕ) → take 7 (to_le_bytes 8 n) ≡ to_le_bytes 7 n
unfolding to_le_bytes
low_bytes-7 n = refl

small_pattern : (n : ℕ) → n < 256 ^ 6 → to_pattern 8 (pos n) ≡ n
unfolding to_pattern
small_pattern n h = omega arith

pattern_of : (n : ℕ) → n < 256 ^ 6 → from_pattern 8 n ≡ pos n
unfolding from_pattern
pattern_of n h = ground arith

two_zeros : from_le_bytes (0 ∷ 0 ∷ []) ≡ 0
unfolding from_le_bytes
two_zeros = refl

one_zero : from_le_bytes (0 ∷ []) ≡ 0
unfolding from_le_bytes
one_zero = refl

abbrev array6 : IsLawful (array_code 6) (IsArray 6)
array6 = array_code-IsLawful 6

abbrev array7 : IsLawful (array_code 7) (IsArray 7)
array7 = array_code-IsLawful 7

timestamp_bytes : ℤ → Bytes
timestamp_bytes t = ser (array_code 6) (take 6 (to_le_bytes 8 (to_pattern 8 t)))

timestamp_deser-pos :
    (n : ℕ) (rest : Bytes)
    → n < 256 ^ 6
    → timestamp_deser (timestamp_bytes (pos n) ++ rest) ≡ ok (pos n, rest)
unfolding timestamp_deser timestamp_bytes
timestamp_deser-pos n rest h =
    rw
      (
        small_pattern n h,
        low_bytes-6 n,
        array6.reads (to_le_bytes 6 n) rest (length-to_le_bytes 6 n),
        from_le_bytes-zeros (to_le_bytes 6 n) (0 ∷ 0 ∷ []) two_zeros,
        from_le_bytes-to_le_bytes 6 n h,
        pattern_of n h,
      )
      refl

timestamp_code-reads :
    (t : ℤ) (rest : Bytes)
    → IsTimestamp t
    → timestamp_deser (timestamp_bytes t ++ rest) ≡ ok (t, rest)
timestamp_code-reads (pos n) rest h = timestamp_deser-pos n rest h
timestamp_code-reads (negsuc n) rest h = absurd h

pub timestamp_code-IsLawful : IsLawful timestamp_code IsTimestamp
unfolding timestamp_bytes
timestamp_code-IsLawful =
    lawful_by timestamp_code IsTimestamp timestamp_bytes
      (λ t bs. unfold timestamp_ser_to in array6.appends _ bs) timestamp_code-reads

size_code-reads :
    (n : ℕ) (rest : Bytes)
    → n < 256 ^ 7
    → size_deser (ser (array_code 7) (take 7 (to_le_bytes 8 n)) ++ rest) ≡ ok (n, rest)
unfolding size_deser
size_code-reads n rest h =
    rw
      (
        low_bytes-7 n,
        array7.reads (to_le_bytes 7 n) rest (length-to_le_bytes 7 n),
        from_le_bytes-zeros (to_le_bytes 7 n) (0 ∷ []) one_zero,
        from_le_bytes-to_le_bytes 7 n h,
      )
      refl

pub size_code-IsLawful : IsLawful size_code (λ n. n < 256 ^ 7)
size_code-IsLawful =
    lawful_by size_code (λ n. n < 256 ^ 7) (λ n. ser (array_code 7) (take 7 (to_le_bytes 8 n)))
      (λ n bs. unfold size_ser_to in array7.appends _ bs) size_code-reads

pub record IsLotusHeader (h : LotusHeader) : Type 0 where
  pub prev_block : IsArray 32 h.prev_block
  pub bits : h.bits < 256 ^ 4
  pub timestamp : IsTimestamp h.timestamp
  pub reserved : h.reserved < 256 ^ 2
  pub nonce : h.nonce < 256 ^ 8
  pub version : h.version < 256 ^ 1
  pub size : h.size < 256 ^ 7
  pub height : IsSigned 4 h.height
  pub epoch_hash : IsArray 32 h.epoch_hash
  pub merkle_root : IsArray 32 h.merkle_root
  pub extended_metadata_hash : IsArray 32 h.extended_metadata_hash

abbrev pub u8 : IsLawful (uint_code 1) (λ n. n < 256 ^ 1)
u8 = uint_code-IsLawful 1

abbrev pub u16 : IsLawful (uint_code 2) (λ n. n < 256 ^ 2)
u16 = uint_code-IsLawful 2

abbrev pub u64 : IsLawful (uint_code 8) (λ n. n < 256 ^ 8)
u64 = uint_code-IsLawful 8

-- The eleven fields, one after the other.
unfoldable pub lotus_header_body : LotusHeader → Bytes
lotus_header_body h =
    ser (array_code 32) h.prev_block
    ++ (ser (uint_code 4) h.bits
        ++ (ser timestamp_code h.timestamp
            ++ (ser (uint_code 2) h.reserved
                ++ (ser (uint_code 8) h.nonce
                    ++ (ser (uint_code 1) h.version
                        ++ (ser size_code h.size
                            ++ (ser (int_code 4) h.height
                                ++ (ser (array_code 32) h.epoch_hash
                                    ++ (ser (array_code 32) h.merkle_root
                                        ++ ser (array_code 32) h.extended_metadata_hash)))))))))

pub lotus_header_ser_to-append :
    (h : LotusHeader) (bs : Bytes) → lotus_header_ser_to h bs ≡ bs ++ lotus_header_body h
unfolding lotus_header_ser_to lotus_header_body
lotus_header_ser_to-append h bs = simp (
  hash32.appends, u32.appends, timestamp_code-IsLawful.appends, u16.appends, u64.appends,
  u8.appends, size_code-IsLawful.appends, i32.appends, append_assoc,
)

pub lotus_header_deser-append :
    (h : LotusHeader) (rest : Bytes)
    → IsLotusHeader h
    → lotus_header_deser (lotus_header_body h ++ rest) ≡ ok (h, rest)
unfolding lotus_header_deser lotus_header_body
lotus_header_deser-append h rest p = simp (
  append_assoc,
  hash32.reads h.prev_block _ p.prev_block,
  u32.reads h.bits _ p.bits,
  timestamp_code-IsLawful.reads h.timestamp _ p.timestamp,
  u16.reads h.reserved _ p.reserved,
  u64.reads h.nonce _ p.nonce,
  u8.reads h.version _ p.version,
  size_code-IsLawful.reads h.size _ p.size,
  i32.reads h.height _ p.height,
  hash32.reads h.epoch_hash _ p.epoch_hash,
  hash32.reads h.merkle_root _ p.merkle_root,
  hash32.reads h.extended_metadata_hash rest p.extended_metadata_hash,
)

-- A Lotus header in range is written behind what the buffer holds, and it is read back. Its timestamp is
-- below 2^48 and not negative, and its size is below 2^56: six and seven bytes are written of them.
pub lotus_header_code-IsLawful : IsLawful lotus_header_code IsLotusHeader
lotus_header_code-IsLawful =
    lawful_by lotus_header_code IsLotusHeader lotus_header_body lotus_header_ser_to-append
      lotus_header_deser-append
