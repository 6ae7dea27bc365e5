-- ===== src/Tx/TxId.antt =====
-- `lotus_txid` of bitcoinsuite-core/src/tx.rs: the transaction id of Lotus, over Merkle roots of the
-- inputs and of the outputs.
use bitcoinsuite.Base.{ℕ, ◌%◌, ◌^◌, List, [], map, Option, none, some}
use bitcoinsuite.Bytes.{Bytes}
use bitcoinsuite.Code.{array_ser_to, uint_ser_to, int_ser_to}
use bitcoinsuite.Hash.{Digests, sha256d, null_hash}
use bitcoinsuite.Merkle.{Hashed, lotus, get_merkle_root_and_height}
use bitcoinsuite.Tx.{
  TxInput, TxOutput, UnhashedTx, out_point_ser_to, sequence_ser_to, tx_output_ser_to,
}

-- The implementation of `Hashed` for `Sha256d`.
abbrev pub sha256d_hashed : Digests → Hashed Bytes
sha256d_hashed d = record { digest = sha256d d; as_slice = λ h. h; default = null_hash 32 }

module _ (d : Digests) where
  unfoldable pub input_leaf : TxInput → Bytes
  input_leaf i = sha256d d (sequence_ser_to i.sequence (out_point_ser_to i.prev_out []))

  unfoldable pub output_leaf : TxOutput → Bytes
  output_leaf o = sha256d d (tx_output_ser_to o [])

  unfoldable pub lotus_tx_inputs_merkle_root : List TxInput → Option (Bytes × ℕ)
  lotus_tx_inputs_merkle_root inputs =
      get_merkle_root_and_height (sha256d_hashed d) (map input_leaf inputs) lotus

  unfoldable pub lotus_tx_outputs_merkle_root : List TxOutput → Option (Bytes × ℕ)
  lotus_tx_outputs_merkle_root outputs =
      get_merkle_root_and_height (sha256d_hashed d) (map output_leaf outputs) lotus

  -- What `lotus_txid` hashes, given the roots and the heights.
  unfoldable pub lotus_txid_preimage : UnhashedTx → Bytes × ℕ → Bytes × ℕ → Bytes
  lotus_txid_preimage t (inputs_hash, inputs_height) (outputs_hash, outputs_height) =
      let bs = int_ser_to 4 t.version [] in
      let bs = array_ser_to inputs_hash bs in
      let bs = uint_ser_to 1 (inputs_height % 2 ^ 8) bs in
      let bs = array_ser_to outputs_hash bs in
      let bs = uint_ser_to 1 (outputs_height % 2 ^ 8) bs in uint_ser_to 4 t.lock_time bs

  -- `none` only if the loop over the layers of a tree runs out of fuel.
  unfoldable pub lotus_txid : UnhashedTx → Option Bytes
  lotus_txid t = elim (lotus_tx_inputs_merkle_root t.inputs) [
    | none ↦ none
    | some inputs ↦ elim (lotus_tx_outputs_merkle_root t.outputs) [
      | none ↦ none
      | some outputs ↦ some (sha256d d (lotus_txid_preimage t inputs outputs))
    ]
  ]
