-- ===== src/Nng/Tables.antt =====
-- The tables of bitcoinsuite-bitcoind-nng/src/nng_interface_generated.rs, as records of what the accessors
-- return that the crate calls. A field that a message leaves out is `none`.
use bitcoinsuite.Base.{ℕ, List, Bool, Option}
use bitcoinsuite.Base.Int.{ℤ}
use bitcoinsuite.Bytes.{Bytes}

pub record TxIdTable : Type 0 where
  pub hash : Option Bytes

pub record BlockHashTable : Type 0 where
  pub hash : Option Bytes

pub record TxOutTable : Type 0 where
  pub amount : ℕ
  pub script : Option Bytes

pub record CoinTable : Type 0 where
  pub tx_out : Option TxOutTable
  pub is_coinbase : Bool
  pub height : ℤ

pub record TxTable : Type 0 where
  pub txid : Option TxIdTable
  pub raw : Option Bytes
  pub spent_coins : Option (List CoinTable)

pub record BlockTxTable : Type 0 where
  pub tx : Option TxTable
  pub data_pos : ℕ
  pub undo_pos : ℕ
  pub undo_size : ℕ

pub record MempoolTxTable : Type 0 where
  pub tx : Option TxTable
  pub time : ℤ

pub record BlockHeaderTable : Type 0 where
  pub raw : Option Bytes
  pub block_hash : Option BlockHashTable
  pub prev_block_hash : Option BlockHashTable
  pub n_bits : ℕ
  pub timestamp : ℕ

pub record BlockMetadataTable : Type 0 where
  pub field_id : ℕ
  pub field_value : Option Bytes

pub record BlockTable : Type 0 where
  pub header : Option BlockHeaderTable
  pub metadata : Option (List BlockMetadataTable)
  pub txs : Option (List BlockTxTable)
  pub file_num : ℕ
  pub data_pos : ℕ
  pub undo_pos : ℕ
