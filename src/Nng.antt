-- ===== src/Nng.antt =====
-- bitcoinsuite-bitcoind-nng/src/structs.rs, field.rs and map_from_fbs.rs: what a node publishes, and how
-- it is read from the tables of the generated code. A table is a record of what its accessors return.
pub mod Tables
pub mod Publish
use Prim.Native.String.{String}
use bitcoinsuite.Base.{
  ℕ, List, [], ◌∷◌, Bool, Option, none, some, Result, ok, ◌>>=◌, ok_or, ◌==◌, if◌then◌else◌,
}
use bitcoinsuite.Base.Int.{ℤ, pos, negsuc}
use bitcoinsuite.Bytes.{Bytes}
use bitcoinsuite.Bytes.Endian.{from_pattern}
use bitcoinsuite.Script.{mk_script}
use bitcoinsuite.Tx.{Coin}
use bitcoinsuite.Nng.Tables.{
  TxIdTable, BlockHashTable, CoinTable, TxTable, BlockHeaderTable, BlockMetadataTable, BlockTxTable,
  BlockTable, MempoolTxTable,
}

pub record Tx : Type 0 where
  pub txid : Bytes
  pub raw : Bytes
  pub spent_coins : Option (List Coin)

pub record BlockHeader : Type 0 where
  pub raw : Bytes
  pub hash : Bytes
  pub prev_hash : Bytes
  pub n_bits : ℕ
  pub timestamp : ℕ

pub record BlockTx : Type 0 where
  pub tx : Tx
  pub data_pos : ℕ
  pub undo_pos : ℕ
  pub undo_size : ℕ

pub record BlockMetadata : Type 0 where
  pub field_id : ℕ
  pub field_value : Bytes

pub record Block : Type 0 where
  pub header : BlockHeader
  pub metadata : List BlockMetadata
  pub txs : List BlockTx
  pub file_num : ℕ
  pub data_pos : ℕ
  pub undo_pos : ℕ

pub record MempoolTx : Type 0 where
  pub tx : Tx
  pub time : ℤ

pub data FlatbufferFieldError : Type 0 where
  missing_field : String → FlatbufferFieldError

abbrev pub field {ℓ} : {A : Type ℓ} → Option A → String → Result FlatbufferFieldError A
field value name = ok_or value (missing_field name)

-- `iter().map(from_fbs).collect::<Result<_>>()`
abbrev pub from_all {ℓ κ} :
    {A : Type ℓ} {B : Type κ}
    → (A → Result FlatbufferFieldError B)
    → List A
    → Result FlatbufferFieldError (List B)
from_all from_fbs [] = ok []
from_all from_fbs (table ∷ more) = do
  value ← from_fbs table
  values ← from_all from_fbs more
  ok (value ∷ values)

unfoldable pub hash_from_block_hash : BlockHashTable → Result FlatbufferFieldError Bytes
hash_from_block_hash fbs = field fbs.hash "BlockHash.hash"

unfoldable pub hash_from_txid : TxIdTable → Result FlatbufferFieldError Bytes
hash_from_txid fbs = field fbs.hash "TxId.hash"

-- A height of -1 is that of no block.
abbrev pub height_from : ℤ → Option ℤ
height_from (pos n) = some (pos n)
height_from (negsuc n) = if n == 0 then none else some (negsuc n)

unfoldable pub coin_from_fbs : CoinTable → Result FlatbufferFieldError Coin
coin_from_fbs coin = do
  tx_out ← field coin.tx_out "Coin.tx_out"
  script ← field tx_out.script "TxOut.script"
  ok (record {
    tx_output = record { value = from_pattern 8 tx_out.amount; script = mk_script script };
    height = height_from coin.height;
    is_coinbase = coin.is_coinbase;
  })

-- `map(…).transpose()?`
abbrev pub spent_coins_from :
    Option (List CoinTable) → Result FlatbufferFieldError (Option (List Coin))
spent_coins_from none = ok none
spent_coins_from (some outputs) = from_all coin_from_fbs outputs >>= λ coins. ok (some coins)

unfoldable pub tx_from_fbs : TxTable → Result FlatbufferFieldError Tx
unfolding coin_from_fbs
tx_from_fbs fbs = do
  table ← field fbs.txid "Tx.txid"
  txid ← field table.hash "Tx.txid.hash"
  raw ← field fbs.raw "Tx.raw"
  spent_coins ← spent_coins_from fbs.spent_coins
  ok (record { txid = txid; raw = raw; spent_coins = spent_coins })

unfoldable pub header_from_fbs : BlockHeaderTable → Result FlatbufferFieldError BlockHeader
unfolding hash_from_block_hash
header_from_fbs fbs = do
  raw ← field fbs.raw "BlockHeader.raw"
  block_hash ← field fbs.block_hash "BlockHeader.block_hash"
  hash ← hash_from_block_hash block_hash
  prev_block_hash ← field fbs.prev_block_hash "BlockHeader.prev_block_hash"
  prev_hash ← hash_from_block_hash prev_block_hash
  ok (record {
    raw = raw;
    hash = hash;
    prev_hash = prev_hash;
    n_bits = fbs.n_bits;
    timestamp = fbs.timestamp;
  })

unfoldable pub metadata_from_fbs : BlockMetadataTable → Result FlatbufferFieldError BlockMetadata
metadata_from_fbs fbs = do
  value ← field fbs.field_value "BlockMetadata.field_value"
  ok (record { field_id = fbs.field_id; field_value = value })

unfoldable pub block_tx_from_fbs : BlockTxTable → Result FlatbufferFieldError BlockTx
unfolding tx_from_fbs
block_tx_from_fbs fbs = do
  table ← field fbs.tx "BlockTx.tx"
  tx ← tx_from_fbs table
  ok (record {
    tx = tx;
    data_pos = fbs.data_pos;
    undo_pos = fbs.undo_pos;
    undo_size = fbs.undo_size;
  })

unfoldable pub mempool_tx_from_fbs : MempoolTxTable → Result FlatbufferFieldError MempoolTx
unfolding tx_from_fbs
mempool_tx_from_fbs fbs = do
  table ← field fbs.tx "MempoolTx.tx"
  tx ← tx_from_fbs table
  ok (record { tx = tx; time = fbs.time })

unfoldable pub block_from_fbs : BlockTable → Result FlatbufferFieldError Block
unfolding header_from_fbs metadata_from_fbs block_tx_from_fbs
block_from_fbs fbs = do
  table ← field fbs.header "Block.header"
  header ← header_from_fbs table
  metadata_tables ← field fbs.metadata "Block.metadata"
  metadata ← from_all metadata_from_fbs metadata_tables
  tx_tables ← field fbs.txs "Block.txs"
  txs ← from_all block_tx_from_fbs tx_tables
  ok (record {
    header = header;
    metadata = metadata;
    txs = txs;
    file_num = fbs.file_num;
    data_pos = fbs.data_pos;
    undo_pos = fbs.undo_pos;
  })
