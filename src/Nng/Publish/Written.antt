-- ===== src/Nng/Publish/Written.antt =====
-- The tables that a node fills in, and the messages that are read from them.
use mathlib.Core.List.{map}
use bitcoinsuite.Base.{
  ℕ, ◌≡◌, ◌≢◌, refl, ap, List, [], ◌∷◌, ◌++◌, All, Option, none, some, Result, ok, arith, length,
  take, drop, take-append, drop-append, length-append, subst, ge→ltb, ℕ_discrete,
}
use bitcoinsuite.Base.Int.{ℤ, pos, negsuc}
use bitcoinsuite.Bytes.{Bytes}
use bitcoinsuite.Bytes.Endian.{to_pattern, IsSigned, from_pattern-to_pattern}
use bitcoinsuite.Tx.{Coin}
use bitcoinsuite.Nng.Tables.{
  TxIdTable, BlockHashTable, CoinTable, TxTable, BlockHeaderTable, BlockMetadataTable, BlockTxTable,
  BlockTable, MempoolTxTable,
}
use bitcoinsuite.Nng.{
  Tx, BlockHeader, BlockMetadata, BlockTx, Block, MempoolTx, FlatbufferFieldError, from_all,
  spent_coins_from, hash_from_block_hash, hash_from_txid, height_from, coin_from_fbs, tx_from_fbs,
  header_from_fbs, metadata_from_fbs, block_tx_from_fbs, mempool_tx_from_fbs, block_from_fbs,
}
use bitcoinsuite.Nng.Publish.{
  Message, MessageKind, TableOf, Flatbuffers, prefix_of, kind_of, parse_msg, message_of,
  updated_block_tip, transaction_added_to_mempool, transaction_removed_from_mempool,
  block_connected, block_disconnected, chain_state_flushed, tip_kind, added_kind, removed_kind,
  connected_kind, disconnected_kind, flushed_kind,
}

abbrev block_hash_table : Bytes → BlockHashTable
block_hash_table h = record { hash = some h }

abbrev txid_table : Bytes → TxIdTable
txid_table h = record { hash = some h }

abbrev height_field : Option ℤ → ℤ
height_field none = negsuc 0
height_field (some h) = h

abbrev coin_table : Coin → CoinTable
coin_table coin = record {
  tx_out = some (record {
    amount = to_pattern 8 coin.tx_output.value;
    script = some coin.tx_output.script.bytecode;
  });
  is_coinbase = coin.is_coinbase;
  height = height_field coin.height;
}

abbrev coins_table : Option (List Coin) → Option (List CoinTable)
coins_table none = none
coins_table (some coins) = some (map coin_table coins)

abbrev tx_table : Tx → TxTable
tx_table tx = record {
  txid = some (txid_table tx.txid);
  raw = some tx.raw;
  spent_coins = coins_table tx.spent_coins;
}

abbrev mempool_tx_table : MempoolTx → MempoolTxTable
mempool_tx_table m = record { tx = some (tx_table m.tx); time = m.time }

abbrev block_tx_table : BlockTx → BlockTxTable
block_tx_table b = record {
  tx = some (tx_table b.tx);
  data_pos = b.data_pos;
  undo_pos = b.undo_pos;
  undo_size = b.undo_size;
}

abbrev metadata_table : BlockMetadata → BlockMetadataTable
metadata_table m = record { field_id = m.field_id; field_value = some m.field_value }

abbrev header_table : BlockHeader → BlockHeaderTable
header_table h = record {
  raw = some h.raw;
  block_hash = some (block_hash_table h.hash);
  prev_block_hash = some (block_hash_table h.prev_hash);
  n_bits = h.n_bits;
  timestamp = h.timestamp;
}

abbrev block_table : Block → BlockTable
block_table b = record {
  header = some (header_table b.header);
  metadata = some (map metadata_table b.metadata);
  txs = some (map block_tx_table b.txs);
  file_num = b.file_num;
  data_pos = b.data_pos;
  undo_pos = b.undo_pos;
}

-- A coin has a value of 64 signed bits, and its height is not the -1 that stands for none.
abbrev IsCoin : Coin → Type 0
IsCoin coin = IsSigned 8 coin.tx_output.value × (coin.height ≢ some (negsuc 0))

abbrev AreCoins : Option (List Coin) → Type 0
AreCoins none = Unit
AreCoins (some coins) = All IsCoin coins

abbrev IsTx : Tx → Type 0
IsTx tx = AreCoins tx.spent_coins

abbrev IsBlock : Block → Type 0
IsBlock b = All (λ t. IsTx t.tx) b.txs

from_all-map {ℓ κ} :
    {A : Type ℓ} {B : Type κ} (from : B → Result FlatbufferFieldError A) (to : A → B)
    (P : A → Type 0) (xs : List A)
    → ((x : A) → P x → from (to x) ≡ ok x)
    → All P xs
    → from_all from (map to xs) ≡ ok xs
from_all-map from to P [] each h = refl
from_all-map from to P (x ∷ xs) each h = rw (each x h.0, from_all-map from to P xs each h.1) refl

height_lem : (h : Option ℤ) → h ≢ some (negsuc 0) → height_from (height_field h) ≡ h
height_lem none ne = refl
height_lem (some (pos n)) ne = refl
height_lem (some (negsuc n)) ne = elim (ℕ_discrete n 0) [
  | yes e ↦ absurd (ne (ap (λ m. some (negsuc m)) e))
  | no other ↦ ground arith
]

coin_lem : (coin : Coin) → IsCoin coin → coin_from_fbs (coin_table coin) ≡ ok coin
unfolding coin_from_fbs
coin_lem coin h =
    rw (from_pattern-to_pattern 8 coin.tx_output.value h.0, height_lem coin.height h.1) refl

spent_coins_lem :
    (coins : Option (List Coin)) → AreCoins coins → spent_coins_from (coins_table coins) ≡ ok coins
spent_coins_lem none h = refl
spent_coins_lem (some coins) h =
    rw (from_all-map coin_from_fbs coin_table IsCoin coins coin_lem h) refl

tx_lem : (tx : Tx) → IsTx tx → tx_from_fbs (tx_table tx) ≡ ok tx
unfolding tx_from_fbs
tx_lem tx h = rw (spent_coins_lem tx.spent_coins h) refl

mempool_tx_lem : (m : MempoolTx) → IsTx m.tx → mempool_tx_from_fbs (mempool_tx_table m) ≡ ok m
unfolding mempool_tx_from_fbs
mempool_tx_lem m h = rw (tx_lem m.tx h) refl

block_tx_lem : (b : BlockTx) → IsTx b.tx → block_tx_from_fbs (block_tx_table b) ≡ ok b
unfolding block_tx_from_fbs
block_tx_lem b h = rw (tx_lem b.tx h) refl

metadata_lem : (m : BlockMetadata) → Unit {0} → metadata_from_fbs (metadata_table m) ≡ ok m
unfolding metadata_from_fbs
metadata_lem m h = refl

All-metadata : (xs : List BlockMetadata) → All (λ m. Unit {0}) xs
All-metadata [] = tt
All-metadata (x ∷ xs) = (tt, All-metadata xs)

block_lem : (b : Block) → IsBlock b → block_from_fbs (block_table b) ≡ ok b
unfolding block_from_fbs header_from_fbs hash_from_block_hash
block_lem b h =
    rw
      (
        from_all-map metadata_from_fbs metadata_table (λ m. Unit {0}) b.metadata metadata_lem
            (All-metadata b.metadata),
        from_all-map block_tx_from_fbs block_tx_table (λ t. IsTx t.tx) b.txs block_tx_lem h,
      )
      refl

-- What a node publishes for a message: the kind and the one field of the table.
abbrev pub message_kind : Message → MessageKind
message_kind (updated_block_tip h) = tip_kind
message_kind (transaction_added_to_mempool tx) = added_kind
message_kind (transaction_removed_from_mempool txid) = removed_kind
message_kind (block_connected b) = connected_kind
message_kind (block_disconnected b) = disconnected_kind
message_kind (chain_state_flushed h) = flushed_kind

abbrev pub message_table : (m : Message) → TableOf (message_kind m)
message_table (updated_block_tip h) = block_hash_table h
message_table (transaction_added_to_mempool tx) = mempool_tx_table tx
message_table (transaction_removed_from_mempool txid) = txid_table txid
message_table (block_connected b) = block_table b
message_table (block_disconnected b) = block_table b
message_table (chain_state_flushed h) = block_hash_table h

abbrev pub IsMessage : Message → Type 0
IsMessage (updated_block_tip h) = Unit
IsMessage (transaction_added_to_mempool m) = IsTx m.tx
IsMessage (transaction_removed_from_mempool txid) = Unit
IsMessage (block_connected b) = IsBlock b
IsMessage (block_disconnected b) = IsBlock b
IsMessage (chain_state_flushed h) = Unit

message_of-table :
    (m : Message) → IsMessage m → message_of (message_kind m) (some (message_table m)) ≡ ok m
unfolding hash_from_block_hash hash_from_txid
message_of-table (updated_block_tip h) valid = refl
message_of-table (transaction_added_to_mempool m) valid = rw (mempool_tx_lem m valid) refl
message_of-table (transaction_removed_from_mempool txid) valid = refl
message_of-table (block_connected b) valid = rw (block_lem b valid) refl
message_of-table (block_disconnected b) valid = rw (block_lem b valid) refl
message_of-table (chain_state_flushed h) valid = refl

kind_of-prefix_of : (kind : MessageKind) → kind_of (prefix_of kind) ≡ some kind
unfolding kind_of
kind_of-prefix_of tip_kind = refl
kind_of-prefix_of added_kind = refl
kind_of-prefix_of removed_kind = refl
kind_of-prefix_of connected_kind = refl
kind_of-prefix_of disconnected_kind = refl
kind_of-prefix_of flushed_kind = refl

length-prefix_of : (kind : MessageKind) → length (prefix_of kind) ≡ 12
length-prefix_of tip_kind = refl
length-prefix_of added_kind = refl
length-prefix_of removed_kind = refl
length-prefix_of connected_kind = refl
length-prefix_of disconnected_kind = refl
length-prefix_of flushed_kind = refl

take_lem : (n : ℕ) (a b : Bytes) → length a ≡ n → take n (a ++ b) ≡ a
take_lem n a b e = subst (λ k. take k (a ++ b) ≡ a) e (take-append a b)

drop_lem : (n : ℕ) (a b : Bytes) → length a ≡ n → drop n (a ++ b) ≡ b
drop_lem n a b e = subst (λ k. drop k (a ++ b) ≡ b) e (drop-append a b)

-- The prefix of a kind of message, and behind it bytes that the reader of tables reads as the table of a
-- message of that kind, are parsed as that message, every field as it was. The coins of its transactions
-- have values of 64 signed bits and no height -1.
pub parse_msg-Message :
    (f : Flatbuffers) (m : Message) (payload : Bytes)
    → IsMessage m
    → f.root (message_kind m) payload ≡ ok (some (message_table m))
    → parse_msg f (prefix_of (message_kind m) ++ payload) ≡ ok m
unfolding parse_msg
parse_msg-Message f m payload valid reads =
    let prefix = prefix_of (message_kind m) in
    let len = length-prefix_of (message_kind m) in
    rw
      (
        ge→ltb (length (prefix ++ payload)) 12 (omega (arith, length-append prefix payload)),
        take_lem 12 prefix payload len,
        kind_of-prefix_of (message_kind m),
        drop_lem 12 prefix payload len,
        reads,
        message_of-table m valid,
      )
      refl
