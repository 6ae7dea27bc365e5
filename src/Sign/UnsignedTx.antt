-- ===== src/Sign/UnsignedTx.antt =====
-- bitcoinsuite-core/src/sign/unsigned_tx.rs: a transaction with the hashes that its signatures share.
-- The mutable view of one input (`UnsignedTxInput`) is the transaction with the input's index, and
-- what is done through the view returns the changed transaction.
use bitcoinsuite.Base.{
  ℕ, ◌≡◌, refl, List, [], ◌∷◌, Bool, true, false, ◌&&◌, Option, none, some, Result, ok, err, panic,
  ◌>>=◌, ◌>>◌, guard, ok_or, if◌then◌else◌, get_elem?, set,
}
use bitcoinsuite.Base.Int.{ℤ}
use bitcoinsuite.Errors.{
  BitcoinSuiteError, SignError, invalid_script_encoding, no_sign_data, invalid_sig_hash_type,
}
use bitcoinsuite.Bytes.{Bytes, put_slice}
use bitcoinsuite.Code.{ser, uint_code, int_code}
use bitcoinsuite.Hash.{Digests, sha256d, null_hash}
use bitcoinsuite.SigHashType.{
  SigHashTypeInputs, fixed, anyone_can_pay, SigHashTypeOutputs, all, nothing, single,
  SigHashTypeVariant, legacy, bip143, SigHashType,
}
use bitcoinsuite.SigHashType.Flags.{to_u32}
use bitcoinsuite.Script.{Script, script_code}
use bitcoinsuite.Script.Codesep.{cut_out_codesep}
use bitcoinsuite.SignData.{find_script_code, find_value}
use bitcoinsuite.Tx.{TxInput, TxOutput, UnhashedTx, out_point_code, sequence_code, tx_output_code}

pub record UnsignedTx : Type 0 where
  pub prevouts_hash : Bytes
  pub sequences_hash : Bytes
  pub outputs_hash : Bytes
  pub tx : UnhashedTx

pub record SighashPreimage : Type 0 where
  pub bytes : Bytes
  pub script_code : Script
  pub redeem_script : Script

-- The loops that fill the buffer of each hash.
unfoldable pub put_prevouts : Bytes → List TxInput → Bytes
unfolding put_slice
put_prevouts bs [] = bs
put_prevouts bs (input ∷ inputs) =
    put_prevouts (put_slice bs (ser out_point_code input.prev_out)) inputs

unfoldable pub put_sequences : Bytes → List TxInput → Bytes
unfolding put_slice
put_sequences bs [] = bs
put_sequences bs (input ∷ inputs) =
    put_sequences (put_slice bs (ser sequence_code input.sequence)) inputs

unfoldable pub put_outputs : Bytes → List TxOutput → Bytes
unfolding put_slice
put_outputs bs [] = bs
put_outputs bs (output ∷ outputs) = put_outputs (put_slice bs (ser tx_output_code output)) outputs

abbrev pub is_bip143 : SigHashTypeVariant → Bool
is_bip143 legacy = false
is_bip143 bip143 = true

abbrev pub is_fixed : SigHashTypeInputs → Bool
is_fixed fixed = true
is_fixed anyone_can_pay = false

abbrev pub is_all : SigHashTypeOutputs → Bool
is_all all = true
is_all outputs = false

-- The panic of an index out of bounds.
abbrev pub at_index {κ} : {E : Type 0} {A : Type κ} → List A → ℕ → Result E A
at_index xs i = elim (get_elem? xs i) [ none ↦ panic | some x ↦ ok x ]

pub at_index-ok :
    {E A : Type 0} (xs : List A) (i : ℕ) (x : A)
    → get_elem? xs i ≡ some x
    → at_index {E = E} xs i ≡ ok x
at_index-ok xs i x e = rw (e, at_index) refl

-- The `map_err` of `sighash_preimage`. The errors behind `unreachable!()` are a panic.
unfoldable pub codesep_error : Result BitcoinSuiteError Script → Result SignError Script
codesep_error (ok s) = ok s
codesep_error (err (BitcoinSuiteError.bytes e)) = err invalid_script_encoding
codesep_error (err (BitcoinSuiteError.codesep_not_found idx)) =
    err (SignError.codesep_not_found idx)
codesep_error r = panic

module _ (d : Digests) where
  unfoldable pub calc_prevouts_hash : UnhashedTx → Bytes
  unfolding put_prevouts
  calc_prevouts_hash tx = sha256d d (put_prevouts [] tx.inputs)

  unfoldable pub calc_sequences_hash : UnhashedTx → Bytes
  unfolding put_sequences
  calc_sequences_hash tx = sha256d d (put_sequences [] tx.inputs)

  unfoldable pub calc_outputs_hash : UnhashedTx → Bytes
  unfolding put_outputs
  calc_outputs_hash tx = sha256d d (put_outputs [] tx.outputs)

  -- `UnsignedTx::new`
  unfoldable pub new : UnhashedTx → UnsignedTx
  new tx = record {
    prevouts_hash = calc_prevouts_hash tx;
    sequences_hash = calc_sequences_hash tx;
    outputs_hash = calc_outputs_hash tx;
    tx = tx;
  }

  -- The `match` on the output type.
  unfoldable pub signed_outputs_hash : UnsignedTx → ℕ → SigHashTypeOutputs → Bytes
  signed_outputs_hash u idx all = u.outputs_hash
  signed_outputs_hash u idx single = elim (get_elem? u.tx.outputs idx) [
    | some output ↦ sha256d d (ser tx_output_code output)
    | none ↦ null_hash 32
  ]
  signed_outputs_hash u idx nothing = null_hash 32

  -- What `sighash_preimage` writes, for the script code and the value that it finds.
  unfoldable pub preimage_bytes : UnsignedTx → ℕ → SigHashType → TxInput → Script → ℤ → Bytes
  unfolding put_slice
  preimage_bytes u idx t input code value =
      let bs = put_slice [] (ser (int_code 4) u.tx.version) in
      let bs = put_slice bs (if is_fixed t.input_type then u.prevouts_hash else null_hash 32) in
      let bs = put_slice bs (
        if is_fixed t.input_type && is_all t.output_type then u.sequences_hash else null_hash 32) in
      let bs = put_slice bs (ser out_point_code input.prev_out) in
      let bs = put_slice bs (ser script_code code) in
      let bs = put_slice bs (ser (int_code 8) value) in
      let bs = put_slice bs (ser sequence_code input.sequence) in
      let bs = put_slice bs (signed_outputs_hash u idx t.output_type) in
      let bs = put_slice bs (ser (uint_code 4) u.tx.lock_time) in
      put_slice bs (ser (uint_code 4) (to_u32 t))

  unfoldable pub sighash_preimage :
      UnsignedTx → ℕ → SigHashType → Option ℕ → Result SignError SighashPreimage
  sighash_preimage u idx t codesep_idx = do
    guard (is_bip143 t.variant) (invalid_sig_hash_type t)
    input ← at_index u.tx.inputs idx
    sign_data ← ok_or input.sign_data no_sign_data
    redeem ← find_script_code sign_data
    code ← codesep_error (cut_out_codesep redeem codesep_idx)
    value ← find_value sign_data
    ok (record {
      bytes = preimage_bytes u idx t input code value;
      script_code = code;
      redeem_script = redeem;
    })

-- `UnsignedTx::new_dummy`
unfoldable pub new_dummy : UnhashedTx → UnsignedTx
new_dummy tx = record {
  prevouts_hash = null_hash 32;
  sequences_hash = null_hash 32;
  outputs_hash = null_hash 32;
  tx = tx;
}

-- `*input.input_script_mut() = script`
unfoldable pub set_input_script : {E : Type 0} → UnsignedTx → ℕ → Script → Result E UnsignedTx
set_input_script u idx script = do
  input ← at_index u.tx.inputs idx
  ok (record u {
    tx = record u.tx { inputs = set u.tx.inputs idx (record input { script = script }) };
  })
