-- ===== src/Tx.antt =====
-- bitcoinsuite-core/src/tx.rs, sequence.rs and utxo.rs: transactions and how they are written. `Layout`
-- holds the sizes of the items of vectors in memory, which the compiler chooses.
pub mod RoundTrip
pub mod TxId
use bitcoinsuite.Base.{
  ℕ, ◌^◌, List, [], ◌∷◌, Bool, true, false, ◌&&◌, Option, none, some, Result, ok, ◌>>=◌,
  if◌then◌else◌, ◌==◌, length,
}
use bitcoinsuite.Base.Int.{ℤ}
use bitcoinsuite.Errors.{BitcoinSuiteError}
use bitcoinsuite.Bytes.{Bytes}
use bitcoinsuite.Code.{
  BitcoinCode, ser, array_ser_to, array_deser, uint_ser_to, uint_deser, int_ser_to, int_deser,
  vec_ser_to, vec_deser,
}
use bitcoinsuite.Hash.{Digests, sha256d, null_hash}
use bitcoinsuite.Script.{Script, script_ser_to, script_deser}
use bitcoinsuite.SignData.{SignData}

pub record SequenceNo : Type 0 where
  pub num : ℕ

abbrev pub finalized : SequenceNo
finalized = record { num = 0xffff_ffff }

pub record OutPoint : Type 0 where
  pub txid : Bytes
  pub out_idx : ℕ

pub record TxInput : Type 0 where
  pub prev_out : OutPoint
  pub script : Script
  pub sequence : SequenceNo
  pub sign_data : Option SignData

pub record TxOutput : Type 0 where
  pub value : ℤ
  pub script : Script

pub record UnhashedTx : Type 0 where
  pub version : ℤ
  pub inputs : List TxInput
  pub outputs : List TxOutput
  pub lock_time : ℕ

pub record Tx : Type 0 where
  pub unhashed_tx : UnhashedTx
  pub hash : Bytes
  pub raw : Bytes

pub record Coin : Type 0 where
  pub tx_output : TxOutput
  pub height : Option ℤ
  pub is_coinbase : Bool

pub record Layout : Type 0 where
  pub tx_input_size : ℕ
  pub tx_output_size : ℕ
  pub tx_size : ℕ
  pub metadata_field_size : ℕ

unfoldable pub sequence_ser_to : SequenceNo → Bytes → Bytes
sequence_ser_to s bs = uint_ser_to 4 s.num bs

unfoldable pub sequence_deser : Bytes → Result BitcoinSuiteError (SequenceNo × Bytes)
sequence_deser bs = do (num, bs) ← uint_deser 4 bs; ok (record { num = num }, bs)

abbrev pub sequence_code : BitcoinCode SequenceNo
sequence_code = record { ser_to = sequence_ser_to; deser = sequence_deser }

unfoldable pub out_point_ser_to : OutPoint → Bytes → Bytes
out_point_ser_to o bs = uint_ser_to 4 o.out_idx (array_ser_to o.txid bs)

unfoldable pub out_point_deser : Bytes → Result BitcoinSuiteError (OutPoint × Bytes)
out_point_deser bs = do
  (txid, bs) ← array_deser 32 bs
  (out_idx, bs) ← uint_deser 4 bs
  ok (record { txid = txid; out_idx = out_idx }, bs)

abbrev pub out_point_code : BitcoinCode OutPoint
out_point_code = record { ser_to = out_point_ser_to; deser = out_point_deser }

-- The sign data is no part of what is written, and a reader leaves it empty.
unfoldable pub tx_input_ser_to : TxInput → Bytes → Bytes
tx_input_ser_to i bs =
    sequence_ser_to i.sequence (script_ser_to i.script (out_point_ser_to i.prev_out bs))

unfoldable pub tx_input_deser : Bytes → Result BitcoinSuiteError (TxInput × Bytes)
tx_input_deser bs = do
  (prev_out, bs) ← out_point_deser bs
  (script, bs) ← script_deser bs
  (sequence, bs) ← sequence_deser bs
  ok (record { prev_out = prev_out; script = script; sequence = sequence; sign_data = none }, bs)

abbrev pub tx_input_code : BitcoinCode TxInput
tx_input_code = record { ser_to = tx_input_ser_to; deser = tx_input_deser }

unfoldable pub tx_output_ser_to : TxOutput → Bytes → Bytes
tx_output_ser_to o bs = script_ser_to o.script (int_ser_to 8 o.value bs)

unfoldable pub tx_output_deser : Bytes → Result BitcoinSuiteError (TxOutput × Bytes)
tx_output_deser bs = do
  (value, bs) ← int_deser 8 bs
  (script, bs) ← script_deser bs
  ok (record { value = value; script = script }, bs)

abbrev pub tx_output_code : BitcoinCode TxOutput
tx_output_code = record { ser_to = tx_output_ser_to; deser = tx_output_deser }

unfoldable pub unhashed_tx_ser_to : UnhashedTx → Bytes → Bytes
unhashed_tx_ser_to t bs =
    let bs = int_ser_to 4 t.version bs in
    let bs = vec_ser_to tx_input_code t.inputs bs in
    let bs = vec_ser_to tx_output_code t.outputs bs in uint_ser_to 4 t.lock_time bs

unfoldable pub unhashed_tx_deser : Layout → Bytes → Result BitcoinSuiteError (UnhashedTx × Bytes)
unhashed_tx_deser layout bs = do
  (version, bs) ← int_deser 4 bs
  (inputs, bs) ← vec_deser tx_input_code layout.tx_input_size bs
  (outputs, bs) ← vec_deser tx_output_code layout.tx_output_size bs
  (lock_time, bs) ← uint_deser 4 bs
  ok (record { version = version; inputs = inputs; outputs = outputs; lock_time = lock_time }, bs)

abbrev pub unhashed_tx_code : Layout → BitcoinCode UnhashedTx
unhashed_tx_code layout = record { ser_to = unhashed_tx_ser_to; deser = unhashed_tx_deser layout }

-- `UnhashedTx::hashed`
unfoldable pub hashed : Digests → UnhashedTx → Tx
hashed d t =
    let raw = unhashed_tx_ser_to t [] in record { unhashed_tx = t; hash = sha256d d raw; raw = raw }

unfoldable pub tx_ser_to : Tx → Bytes → Bytes
tx_ser_to t bs = unhashed_tx_ser_to t.unhashed_tx bs

unfoldable pub tx_deser : Digests → Layout → Bytes → Result BitcoinSuiteError (Tx × Bytes)
tx_deser d layout bs = do (t, bs) ← unhashed_tx_deser layout bs; ok (hashed d t, bs)

abbrev pub tx_code : Digests → Layout → BitcoinCode Tx
tx_code d layout = record { ser_to = tx_ser_to; deser = tx_deser d layout }
