-- ===== src/Block.antt =====
-- bitcoinsuite-core/src/block.rs: the blocks and headers of Bitcoin and Lotus, how they are written,
-- and the hashes that a header holds.
pub mod RoundTrip
pub mod WithTxs
pub mod Update
pub mod Mining
pub mod Prepare
use bitcoinsuite.Base.{ℕ, List, [], ◌∷◌, ◌++◌, Result, ok, ◌>>=◌, length, take, drop}
use bitcoinsuite.Base.Int.{ℤ}
use bitcoinsuite.Errors.{BitcoinSuiteError}
use bitcoinsuite.Bytes.{Bytes, put_slice}
use bitcoinsuite.Bytes.Endian.{to_le_bytes, from_le_bytes, to_pattern, from_pattern}
use bitcoinsuite.Code.{
  BitcoinCode, array_ser_to, array_deser, uint_ser_to, uint_deser, uint_code, int_ser_to, int_deser,
  vec_ser_to, vec_deser, vec_code,
}
use bitcoinsuite.Hash.{Digests, sha256d}
use bitcoinsuite.Tx.{Tx, Layout, tx_code}

pub record BitcoinHeader : Type 0 where
  pub version : ℤ
  pub prev_block : Bytes
  pub merkle_root : Bytes
  pub timestamp : ℕ
  pub bits : ℕ
  pub nonce : ℕ

pub record BitcoinBlock : Type 0 where
  pub header : BitcoinHeader
  pub txs : List Tx

pub record LotusHeader : Type 0 where
  pub prev_block : Bytes
  pub bits : ℕ
  pub timestamp : ℤ
  pub reserved : ℕ
  pub nonce : ℕ
  pub version : ℕ
  pub size : ℕ
  pub height : ℤ
  pub epoch_hash : Bytes
  pub merkle_root : Bytes
  pub extended_metadata_hash : Bytes

pub record LotusMetadataField : Type 0 where
  pub field_id : ℕ
  pub field_value : List ℕ

pub record LotusBlock : Type 0 where
  pub header : LotusHeader
  pub metadata : List LotusMetadataField
  pub txs : List Tx

unfoldable pub bitcoin_header_ser_to : BitcoinHeader → Bytes → Bytes
bitcoin_header_ser_to h bs =
    let bs = int_ser_to 4 h.version bs in
    let bs = array_ser_to h.prev_block bs in
    let bs = array_ser_to h.merkle_root bs in
    let bs = uint_ser_to 4 h.timestamp bs in
    let bs = uint_ser_to 4 h.bits bs in uint_ser_to 4 h.nonce bs

unfoldable pub bitcoin_header_deser : Bytes → Result BitcoinSuiteError (BitcoinHeader × Bytes)
bitcoin_header_deser bs = do
  (version, bs) ← int_deser 4 bs
  (prev_block, bs) ← array_deser 32 bs
  (merkle_root, bs) ← array_deser 32 bs
  (timestamp, bs) ← uint_deser 4 bs
  (bits, bs) ← uint_deser 4 bs
  (nonce, bs) ← uint_deser 4 bs
  ok (
    record {
      version = version;
      prev_block = prev_block;
      merkle_root = merkle_root;
      timestamp = timestamp;
      bits = bits;
      nonce = nonce;
    },
    bs,
  )

abbrev pub bitcoin_header_code : BitcoinCode BitcoinHeader
bitcoin_header_code = record { ser_to = bitcoin_header_ser_to; deser = bitcoin_header_deser }

-- The six low bytes of the timestamp; `from_slice` of six bytes does not fail.
unfoldable pub timestamp_ser_to : ℤ → Bytes → Bytes
timestamp_ser_to t bs = array_ser_to (take 6 (to_le_bytes 8 (to_pattern 8 t))) bs

unfoldable pub timestamp_deser : Bytes → Result BitcoinSuiteError (ℤ × Bytes)
timestamp_deser bs = do
  (timestamp, bs) ← array_deser 6 bs
  ok (from_pattern 8 (from_le_bytes (timestamp ++ (0 ∷ 0 ∷ []))), bs)

-- The seven low bytes of the size.
unfoldable pub size_ser_to : ℕ → Bytes → Bytes
size_ser_to size bs = array_ser_to (take 7 (to_le_bytes 8 size)) bs

unfoldable pub size_deser : Bytes → Result BitcoinSuiteError (ℕ × Bytes)
size_deser bs = do (size, bs) ← array_deser 7 bs; ok (from_le_bytes (size ++ (0 ∷ [])), bs)

abbrev pub timestamp_code : BitcoinCode ℤ
timestamp_code = record { ser_to = timestamp_ser_to; deser = timestamp_deser }

abbrev pub size_code : BitcoinCode ℕ
size_code = record { ser_to = size_ser_to; deser = size_deser }

unfoldable pub lotus_header_ser_to : LotusHeader → Bytes → Bytes
lotus_header_ser_to h bs =
    let bs = array_ser_to h.prev_block bs in
    let bs = uint_ser_to 4 h.bits bs in
    let bs = timestamp_ser_to h.timestamp bs in
    let bs = uint_ser_to 2 h.reserved bs in
    let bs = uint_ser_to 8 h.nonce bs in
    let bs = uint_ser_to 1 h.version bs in
    let bs = size_ser_to h.size bs in
    let bs = int_ser_to 4 h.height bs in
    let bs = array_ser_to h.epoch_hash bs in
    let bs = array_ser_to h.merkle_root bs in array_ser_to h.extended_metadata_hash bs

unfoldable pub lotus_header_deser : Bytes → Result BitcoinSuiteError (LotusHeader × Bytes)
lotus_header_deser bs = do
  (prev_block, bs) ← array_deser 32 bs
  (bits, bs) ← uint_deser 4 bs
  (timestamp, bs) ← timestamp_deser bs
  (reserved, bs) ← uint_deser 2 bs
  (nonce, bs) ← uint_deser 8 bs
  (version, bs) ← uint_deser 1 bs
  (size, bs) ← size_deser bs
  (height, bs) ← int_deser 4 bs
  (epoch_hash, bs) ← array_deser 32 bs
  (merkle_root, bs) ← array_deser 32 bs
  (extended_metadata_hash, bs) ← array_deser 32 bs
  ok (
    record {
      prev_block = prev_block;
      bits = bits;
      timestamp = timestamp;
      reserved = reserved;
      nonce = nonce;
      version = version;
      size = size;
      height = height;
      epoch_hash = epoch_hash;
      merkle_root = merkle_root;
      extended_metadata_hash = extended_metadata_hash;
    },
    bs,
  )

abbrev pub lotus_header_code : BitcoinCode LotusHeader
lotus_header_code = record { ser_to = lotus_header_ser_to; deser = lotus_header_deser }

-- A `Vec<u8>` is written as a vector of bytes.
unfoldable pub metadata_field_ser_to : LotusMetadataField → Bytes → Bytes
metadata_field_ser_to f bs = vec_ser_to (uint_code 1) f.field_value (uint_ser_to 4 f.field_id bs)

unfoldable pub metadata_field_deser : Bytes → Result BitcoinSuiteError (LotusMetadataField × Bytes)
metadata_field_deser bs = do
  (field_id, bs) ← uint_deser 4 bs
  (field_value, bs) ← vec_deser (uint_code 1) 1 bs
  ok (record { field_id = field_id; field_value = field_value }, bs)

abbrev pub metadata_field_code : BitcoinCode LotusMetadataField
metadata_field_code = record { ser_to = metadata_field_ser_to; deser = metadata_field_deser }

module _ (d : Digests) (layout : Layout) where
  unfoldable pub bitcoin_block_ser_to : BitcoinBlock → Bytes → Bytes
  bitcoin_block_ser_to b bs =
      vec_ser_to (tx_code d layout) b.txs (bitcoin_header_ser_to b.header bs)

  unfoldable pub bitcoin_block_deser : Bytes → Result BitcoinSuiteError (BitcoinBlock × Bytes)
  bitcoin_block_deser bs = do
    (header, bs) ← bitcoin_header_deser bs
    (txs, bs) ← vec_deser (tx_code d layout) layout.tx_size bs
    ok (record { header = header; txs = txs }, bs)

  abbrev pub bitcoin_block_code : BitcoinCode BitcoinBlock
  bitcoin_block_code = record { ser_to = bitcoin_block_ser_to; deser = bitcoin_block_deser }

  unfoldable pub lotus_block_ser_to : LotusBlock → Bytes → Bytes
  lotus_block_ser_to b bs =
      vec_ser_to (tx_code d layout) b.txs
        (vec_ser_to metadata_field_code b.metadata (lotus_header_ser_to b.header bs))

  unfoldable pub lotus_block_deser : Bytes → Result BitcoinSuiteError (LotusBlock × Bytes)
  lotus_block_deser bs = do
    (header, bs) ← lotus_header_deser bs
    (metadata, bs) ← vec_deser metadata_field_code layout.metadata_field_size bs
    (txs, bs) ← vec_deser (tx_code d layout) layout.tx_size bs
    ok (record { header = header; metadata = metadata; txs = txs }, bs)

  abbrev pub lotus_block_code : BitcoinCode LotusBlock
  lotus_block_code = record { ser_to = lotus_block_ser_to; deser = lotus_block_deser }

module _ (d : Digests) where
  -- `BitcoinHeader::calc_hash`
  unfoldable pub bitcoin_calc_hash : BitcoinHeader → Bytes
  bitcoin_calc_hash h = sha256d d (bitcoin_header_ser_to h [])

  -- `LotusHeader::calc_hash`: three layers, the inner ones hashed into the outer.
  unfoldable pub lotus_calc_hash : LotusHeader → Bytes
  unfolding put_slice
  lotus_calc_hash h =
      let header = lotus_header_ser_to h [] in
      let layer3 = drop 52 header in
      let layer2 = put_slice (put_slice [] (take 20 (drop 32 header))) (d.sha256 layer3) in
      let layer1 = put_slice (put_slice [] (take 32 header)) (d.sha256 layer2) in d.sha256 layer1
