-- ===== src/Tests/Publishing.antt =====
-- A message of a node at a concrete input.
use bitcoinsuite.Base.{
  ℕ, ◌≡◌, refl, [], ◌∷◌, ◌++◌, none, some, Option, Result, ok, err, arith, true, replicate,
}
use bitcoinsuite.Base.Int.{pos}
use bitcoinsuite.Bytes.{Bytes}
use bitcoinsuite.Script.{mk_script}
use bitcoinsuite.Tx.{Coin}
use bitcoinsuite.Nng.{MempoolTx}
use bitcoinsuite.Nng.Publish.{
  MessageKind, TableOf, Flatbuffers, transaction_added_to_mempool, added_kind, prefix_of, parse_msg,
}
use bitcoinsuite.Nng.Publish.Written.{message_table, parse_msg-Message}

abbrev coin : Coin
coin = record {
  tx_output = record { value = pos 546; script = mk_script (0x51 ∷ []) };
  height = none;
  is_coinbase = true;
}

abbrev added : MempoolTx
added = record {
  tx = record { txid = replicate 32 7; raw = 1 ∷ 2 ∷ []; spent_coins = some (coin ∷ []) };
  time = pos 1600000000;
}

-- A reader that knows one table, under any payload of one byte.
abbrev read_added : (kind : MessageKind) → Bytes → Result ℕ (Option (TableOf kind))
read_added added_kind (b ∷ []) = ok (some (message_table (transaction_added_to_mempool added)))
read_added kind payload = err 1

abbrev one_table : Flatbuffers
one_table = record { Error = ℕ; root = read_added }

parse_msg-Message_example :
    parse_msg one_table (prefix_of added_kind ++ (9 ∷ [])) ≡ ok (transaction_added_to_mempool added)
parse_msg-Message_example =
    parse_msg-Message one_table (transaction_added_to_mempool added) (9 ∷ [])
      (((omega arith, omega arith), λ same. cc), tt) refl
