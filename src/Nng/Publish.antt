-- ===== src/Nng/Publish.antt =====
-- `PubInterface::parse_msg` of bitcoinsuite-bitcoind-nng/src/pub_interface.rs: the messages that a node
-- publishes, a prefix of 12 letters and a table. Reading the table is the crate flatbuffers, and a
-- parameter.
pub mod Written
use bitcoinsuite.Base.{
  ℕ, List, [], ◌∷◌, Option, none, some, Result, err, ◌>>=◌, map_err, ltb, if◌then◌else◌, length,
  take, drop,
}
use bitcoinsuite.Bytes.{Bytes, eq_bytes}
use bitcoinsuite.Nng.Tables.{TxIdTable, BlockHashTable, BlockTable, MempoolTxTable}
use bitcoinsuite.Nng.{
  Block, MempoolTx, FlatbufferFieldError, missing_field, field, hash_from_block_hash,
  hash_from_txid, mempool_tx_from_fbs, block_from_fbs,
}

-- The messages' structs have one field each.
pub data Message : Type 0 where
  updated_block_tip : Bytes → Message
  transaction_added_to_mempool : MempoolTx → Message
  transaction_removed_from_mempool : Bytes → Message
  block_connected block_disconnected : Block → Message
  chain_state_flushed : Bytes → Message

pub data MessageKind : Type 0 where
  tip_kind added_kind removed_kind connected_kind disconnected_kind flushed_kind : MessageKind

-- The one field of a message's table.
abbrev pub TableOf : MessageKind → Type 0
TableOf tip_kind = BlockHashTable
TableOf added_kind = MempoolTxTable
TableOf removed_kind = TxIdTable
TableOf connected_kind = BlockTable
TableOf disconnected_kind = BlockTable
TableOf flushed_kind = BlockHashTable

-- `flatbuffers::root_with_opts`
pub record Flatbuffers : Type 1 where
  pub Error : Type 0
  pub root : (kind : MessageKind) → Bytes → Result Error (Option (TableOf kind))

pub data PubError (E : Type 0) : Type 0 where
  invalid_pub_message : Bytes → PubError E
  flatbuffer : E → PubError E
  missing : FlatbufferFieldError → PubError E

-- "updateblktip", "mempooltxadd", "mempooltxrem", "blkconnected", "blkdisconctd" and "chainstflush"
abbrev pub prefix_of : MessageKind → Bytes
prefix_of tip_kind = 117 ∷ 112 ∷ 100 ∷ 97 ∷ 116 ∷ 101 ∷ 98 ∷ 108 ∷ 107 ∷ 116 ∷ 105 ∷ 112 ∷ []
prefix_of added_kind = 109 ∷ 101 ∷ 109 ∷ 112 ∷ 111 ∷ 111 ∷ 108 ∷ 116 ∷ 120 ∷ 97 ∷ 100 ∷ 100 ∷ []
prefix_of removed_kind = 109 ∷ 101 ∷ 109 ∷ 112 ∷ 111 ∷ 111 ∷ 108 ∷ 116 ∷ 120 ∷ 114 ∷ 101 ∷ 109 ∷ []
prefix_of connected_kind = 98 ∷ 108 ∷ 107 ∷ 99 ∷ 111 ∷ 110 ∷ 110 ∷ 101 ∷ 99 ∷ 116 ∷ 101 ∷ 100 ∷ []
prefix_of disconnected_kind =
    98 ∷ 108 ∷ 107 ∷ 100 ∷ 105 ∷ 115 ∷ 99 ∷ 111 ∷ 110 ∷ 99 ∷ 116 ∷ 100 ∷ []
prefix_of flushed_kind = 99 ∷ 104 ∷ 97 ∷ 105 ∷ 110 ∷ 115 ∷ 116 ∷ 102 ∷ 108 ∷ 117 ∷ 115 ∷ 104 ∷ []

-- `match prefix`
unfoldable pub kind_of : Bytes → Option MessageKind
kind_of prefix =
    if eq_bytes prefix (prefix_of tip_kind)
    then some tip_kind
    else if eq_bytes prefix (prefix_of added_kind)
    then some added_kind
    else if eq_bytes prefix (prefix_of removed_kind)
    then some removed_kind
    else if eq_bytes prefix (prefix_of connected_kind)
    then some connected_kind
    else if eq_bytes prefix (prefix_of disconnected_kind)
    then some disconnected_kind
    else if eq_bytes prefix (prefix_of flushed_kind)
    then some flushed_kind
    else none

abbrev pub message_of :
    (kind : MessageKind) → Option (TableOf kind) → Result FlatbufferFieldError Message
message_of tip_kind fbs = field fbs "UpdatedBlockTip.block_hash" >>= hash_from_block_hash >>= λ h.
    Result.ok (updated_block_tip h)
message_of added_kind fbs =
    field fbs "TransactionAddedToMempool.mempool_tx" >>= mempool_tx_from_fbs >>= λ tx.
    Result.ok (transaction_added_to_mempool tx)
message_of removed_kind fbs =
    field fbs "TransactionRemovedFromMempool.txid" >>= hash_from_txid >>= λ txid.
    Result.ok (transaction_removed_from_mempool txid)
message_of connected_kind fbs =
    field fbs "BlockConnected.block" >>= block_from_fbs >>= λ b. Result.ok (block_connected b)
message_of disconnected_kind fbs =
    field fbs "BlockDisconnected.block" >>= block_from_fbs >>= λ b. Result.ok (block_disconnected b)
message_of flushed_kind fbs =
    field fbs "ChainStateFlushed.block_hash" >>= hash_from_block_hash >>= λ h.
    Result.ok (chain_state_flushed h)

module _ (f : Flatbuffers) where
  -- The arms of the `match`.
  abbrev pub parse_payload : Bytes → Option MessageKind → Result (PubError f.Error) Message
  parse_payload msg none = err (invalid_pub_message msg)
  parse_payload msg (some kind) = map_err flatbuffer (f.root kind (drop 12 msg)) >>= λ fbs.
      map_err missing (message_of kind fbs)

  unfoldable pub parse_msg : Bytes → Result (PubError f.Error) Message
  unfolding kind_of
  parse_msg msg =
      if ltb (length msg) 12
      then err (invalid_pub_message msg)
      else parse_payload msg (kind_of (take 12 msg))
