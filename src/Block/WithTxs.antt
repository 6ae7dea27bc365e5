-- ===== src/Block/WithTxs.antt =====
-- Writing and reading whole blocks, with their metadata and transactions (bitcoinsuite-core/src/block.rs).
use bitcoinsuite.Base.{◌^◌, ◌<◌, ◌≡◌, ◌++◌, append_assoc}
use bitcoinsuite.Bytes.{Bytes}
use bitcoinsuite.Code.{ser, uint_code, vec_code}
use bitcoinsuite.Code.Lawful.{IsLawful, lawful_by}
use bitcoinsuite.Code.Vectors.{FitsIn, vec_code-IsLawful}
use bitcoinsuite.Hash.{Digests}
use bitcoinsuite.Tx.{Layout, tx_code}
use bitcoinsuite.Tx.RoundTrip.{u32, tx_code-IsLawful}
use bitcoinsuite.Block.{
  BitcoinBlock, LotusMetadataField, LotusBlock, bitcoin_header_code, metadata_field_code,
  metadata_field_ser_to, metadata_field_deser, bitcoin_block_code, bitcoin_block_ser_to,
  bitcoin_block_deser, lotus_block_code, lotus_block_ser_to, lotus_block_deser,
}
use bitcoinsuite.Block.RoundTrip.{
  IsBitcoinHeader, bitcoin_header_code-IsLawful, IsLotusHeader, u8, lotus_header_body,
  lotus_header_ser_to-append, lotus_header_deser-append,
}

abbrev pub byte_vec : IsLawful (vec_code 1 (uint_code 1)) (FitsIn u8 1)
byte_vec = vec_code-IsLawful u8 1

pub record IsMetadataField (f : LotusMetadataField) : Type 0 where
  pub field_id : f.field_id < 256 ^ 4
  pub field_value : FitsIn u8 1 f.field_value

pub metadata_field_code-IsLawful : IsLawful metadata_field_code IsMetadataField
metadata_field_code-IsLawful =
    lawful_by metadata_field_code IsMetadataField
      (λ f. ser (uint_code 4) f.field_id ++ ser (vec_code 1 (uint_code 1)) f.field_value)
      (λ f bs. unfold metadata_field_ser_to in simp (byte_vec.appends, u32.appends, append_assoc))
      (λ f rest h.
        unfold metadata_field_deser in
        simp (
          append_assoc,
          u32.reads f.field_id _ h.field_id,
          byte_vec.reads f.field_value rest h.field_value,
        ))

module _ (d : Digests) (layout : Layout) where
  txs_code-IsLawful :
      IsLawful
        (vec_code layout.tx_size (tx_code d layout))
        (FitsIn (tx_code-IsLawful layout d) layout.tx_size)
  txs_code-IsLawful = vec_code-IsLawful (tx_code-IsLawful layout d) layout.tx_size

  metadata_code-IsLawful :
      IsLawful
        (vec_code layout.metadata_field_size metadata_field_code)
        (FitsIn metadata_field_code-IsLawful layout.metadata_field_size)
  metadata_code-IsLawful = vec_code-IsLawful metadata_field_code-IsLawful layout.metadata_field_size

  pub record IsBitcoinBlock (b : BitcoinBlock) : Type 0 where
    pub header : IsBitcoinHeader b.header
    pub txs : FitsIn (tx_code-IsLawful layout d) layout.tx_size b.txs

  pub record IsLotusBlock (b : LotusBlock) : Type 0 where
    pub header : IsLotusHeader b.header
    pub metadata : FitsIn metadata_field_code-IsLawful layout.metadata_field_size b.metadata
    pub txs : FitsIn (tx_code-IsLawful layout d) layout.tx_size b.txs

  -- A Bitcoin block in range, with hashed transactions, is written behind what the buffer holds, and it is
  -- read back with what follows it left over.
  pub bitcoin_block_code-IsLawful : IsLawful (bitcoin_block_code d layout) IsBitcoinBlock
  bitcoin_block_code-IsLawful =
      lawful_by (bitcoin_block_code d layout) IsBitcoinBlock
        (λ b.
          ser bitcoin_header_code b.header
          ++ ser (vec_code layout.tx_size (tx_code d layout)) b.txs)
        (λ b bs.
          unfold bitcoin_block_ser_to in
          simp (txs_code-IsLawful.appends, bitcoin_header_code-IsLawful.appends, append_assoc))
        (λ b rest h.
          unfold bitcoin_block_deser in
          simp (
            append_assoc,
            bitcoin_header_code-IsLawful.reads b.header _ h.header,
            txs_code-IsLawful.reads b.txs rest h.txs,
          ))

  -- The encodings of the three parts, one after the other.
  unfoldable pub lotus_block_body : LotusBlock → Bytes
  lotus_block_body b =
      lotus_header_body b.header
      ++ (ser (vec_code layout.metadata_field_size metadata_field_code) b.metadata
          ++ ser (vec_code layout.tx_size (tx_code d layout)) b.txs)

  pub lotus_block_ser_to-append :
      (b : LotusBlock) (bs : Bytes) → lotus_block_ser_to d layout b bs ≡ bs ++ lotus_block_body b
  unfolding lotus_block_ser_to lotus_block_body
  lotus_block_ser_to-append b bs = simp (
    txs_code-IsLawful.appends, metadata_code-IsLawful.appends, lotus_header_ser_to-append,
    append_assoc,
  )

  -- A Lotus block in range, with its metadata and hashed transactions, is written behind what the buffer
  -- holds, and it is read back with what follows it left over.
  pub lotus_block_code-IsLawful : IsLawful (lotus_block_code d layout) IsLotusBlock
  unfolding lotus_block_body
  lotus_block_code-IsLawful =
      lawful_by (lotus_block_code d layout) IsLotusBlock lotus_block_body lotus_block_ser_to-append
        (λ b rest h.
          unfold lotus_block_deser in
          simp (
            append_assoc,
            lotus_header_deser-append b.header _ h.header,
            metadata_code-IsLawful.reads b.metadata _ h.metadata,
            txs_code-IsLawful.reads b.txs rest h.txs,
          ))
