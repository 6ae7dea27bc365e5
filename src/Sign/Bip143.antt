-- ===== src/Sign/Bip143.antt =====
-- BIP 143, which `sighash_preimage` of bitcoinsuite-core/src/sign/unsigned_tx.rs follows.
use bitcoinsuite.Base.{
  ℕ, ◌≡◌, refl, sym, ◌∙◌, ap, List, [], ◌∷◌, ◌++◌, Option, none, some, Result, ok, append_assoc,
  append-nil, get_elem?, ok_or, >>=-ok, if◌then◌else◌, ◌&&◌, Option-cases, inl, inr,
}
use bitcoinsuite.Base.Int.{ℤ}
use bitcoinsuite.Errors.{BitcoinSuiteError, no_sign_data}
use bitcoinsuite.Bytes.{Bytes, put_slice}
use bitcoinsuite.Code.{ser, uint_code, int_code}
use bitcoinsuite.Hash.{Digests, sha256d, null_hash}
use bitcoinsuite.SigHashType.{
  SigHashTypeInputs, fixed, anyone_can_pay, SigHashTypeOutputs, all, nothing, single, bip143,
  SigHashType,
}
use bitcoinsuite.SigHashType.Flags.{to_u32}
use bitcoinsuite.Script.{Script, script_code}
use bitcoinsuite.Script.Codesep.{cut_out_codesep}
use bitcoinsuite.SignData.{SignData, find_script_code, find_value}
use bitcoinsuite.Tx.{TxInput, TxOutput, UnhashedTx, out_point_code, sequence_code, tx_output_code}
use bitcoinsuite.Sign.UnsignedTx.{
  put_prevouts, put_sequences, put_outputs, calc_prevouts_hash, calc_sequences_hash,
  calc_outputs_hash, new, signed_outputs_hash, sighash_preimage, codesep_error, at_index-ok,
  preimage_bytes, is_fixed, is_all,
}

-- What BIP 143 concatenates of all inputs and outputs.
abbrev pub prevouts : List TxInput → Bytes
prevouts [] = []
prevouts (i ∷ inputs) = ser out_point_code i.prev_out ++ prevouts inputs

abbrev pub sequences : List TxInput → Bytes
sequences [] = []
sequences (i ∷ inputs) = ser sequence_code i.sequence ++ sequences inputs

abbrev pub outputs_of : List TxOutput → Bytes
outputs_of [] = []
outputs_of (o ∷ outputs) = ser tx_output_code o ++ outputs_of outputs

put_prevouts-append :
    (inputs : List TxInput) (bs : Bytes) → put_prevouts bs inputs ≡ bs ++ prevouts inputs
unfolding put_prevouts put_slice
put_prevouts-append [] bs = sym (append-nil bs)
put_prevouts-append (i ∷ inputs) bs =
    put_prevouts-append inputs (bs ++ ser out_point_code i.prev_out)
    ∙ append_assoc bs (ser out_point_code i.prev_out) (prevouts inputs)

put_sequences-append :
    (inputs : List TxInput) (bs : Bytes) → put_sequences bs inputs ≡ bs ++ sequences inputs
unfolding put_sequences put_slice
put_sequences-append [] bs = sym (append-nil bs)
put_sequences-append (i ∷ inputs) bs =
    put_sequences-append inputs (bs ++ ser sequence_code i.sequence)
    ∙ append_assoc bs (ser sequence_code i.sequence) (sequences inputs)

put_outputs-append :
    (outputs : List TxOutput) (bs : Bytes) → put_outputs bs outputs ≡ bs ++ outputs_of outputs
unfolding put_outputs put_slice
put_outputs-append [] bs = sym (append-nil bs)
put_outputs-append (o ∷ outputs) bs =
    put_outputs-append outputs (bs ++ ser tx_output_code o)
    ∙ append_assoc bs (ser tx_output_code o) (outputs_of outputs)

-- What an input of a transaction is signed for: the input, its sign data, the script code and value
-- found there, and the script code behind the separator.
pub record Signs (tx : UnhashedTx) (idx : ℕ) (codesep_idx : Option ℕ) : Type 0 where
  pub input : TxInput
  pub sign_data : SignData
  pub redeem : Script
  pub code : Script
  pub amount : ℤ
  pub is_input : get_elem? tx.inputs idx ≡ some input
  pub is_sign_data : input.sign_data ≡ some sign_data
  pub is_redeem : find_script_code sign_data ≡ ok redeem
  pub is_code : cut_out_codesep redeem codesep_idx ≡ ok code
  pub is_amount : find_value sign_data ≡ ok amount

abbrev pub bip143_type : SigHashTypeInputs → SigHashTypeOutputs → SigHashType
bip143_type i o = record { variant = bip143; input_type = i; output_type = o }

abbrev moved :
    (tx tx' : UnhashedTx) (idx idx' : ℕ) (codesep_idx : Option ℕ) (s : Signs tx idx codesep_idx)
    → get_elem? tx'.inputs idx' ≡ some s.input
    → Signs tx' idx' codesep_idx
moved tx tx' idx idx' codesep_idx s e = record {
  input = s.input;
  sign_data = s.sign_data;
  redeem = s.redeem;
  code = s.code;
  amount = s.amount;
  is_input = e;
  is_sign_data = s.is_sign_data;
  is_redeem = s.is_redeem;
  is_code = s.is_code;
  is_amount = s.is_amount;
}

module _ (d : Digests) where
  -- The three hashes, by the type of the signature.
  unfoldable pub hash_prevouts : UnhashedTx → SigHashTypeInputs → Bytes
  hash_prevouts tx fixed = sha256d d (prevouts tx.inputs)
  hash_prevouts tx anyone_can_pay = null_hash 32

  unfoldable pub hash_sequence : UnhashedTx → SigHashTypeInputs → SigHashTypeOutputs → Bytes
  hash_sequence tx fixed all = sha256d d (sequences tx.inputs)
  hash_sequence tx i o = null_hash 32

  unfoldable pub hash_outputs : UnhashedTx → ℕ → SigHashTypeOutputs → Bytes
  hash_outputs tx idx all = sha256d d (outputs_of tx.outputs)
  hash_outputs tx idx nothing = null_hash 32
  hash_outputs tx idx single = elim (get_elem? tx.outputs idx) [
    | none ↦ null_hash 32
    | some o ↦ sha256d d (outputs_of (o ∷ []))
  ]

  -- The ten items that are signed.
  unfoldable pub bip143_bytes : UnhashedTx → ℕ → SigHashType → TxInput → Script → ℤ → Bytes
  unfolding hash_prevouts hash_sequence hash_outputs
  bip143_bytes tx idx t input code v =
      ser (int_code 4) tx.version
      ++ (hash_prevouts tx t.input_type
          ++ (hash_sequence tx t.input_type t.output_type
              ++ (ser out_point_code input.prev_out
                  ++ (ser script_code code
                      ++ (ser (int_code 8) v
                          ++ (ser sequence_code input.sequence
                              ++ (hash_outputs tx idx t.output_type
                                  ++ (ser (uint_code 4) tx.lock_time
                                      ++ ser (uint_code 4) (to_u32 t)))))))))

  new_tx : (tx : UnhashedTx) → (new d tx).tx ≡ tx
  unfolding new
  new_tx tx = refl

  fixed_prevouts :
      (tx : UnhashedTx) (i : SigHashTypeInputs)
      → (if is_fixed i then (new d tx).prevouts_hash else null_hash 32) ≡ hash_prevouts tx i
  unfolding hash_prevouts new calc_prevouts_hash
  fixed_prevouts tx fixed = ap (sha256d d) (put_prevouts-append tx.inputs [])
  fixed_prevouts tx anyone_can_pay = refl

  fixed_sequences :
      (tx : UnhashedTx) (i : SigHashTypeInputs) (o : SigHashTypeOutputs)
      → (if is_fixed i && is_all o then (new d tx).sequences_hash else null_hash 32)
        ≡ hash_sequence tx i o
  unfolding hash_sequence new calc_sequences_hash
  fixed_sequences tx fixed all = ap (sha256d d) (put_sequences-append tx.inputs [])
  fixed_sequences tx fixed nothing = refl
  fixed_sequences tx fixed single = refl
  fixed_sequences tx anyone_can_pay o = refl

  signed_outputs :
      (tx : UnhashedTx) (idx : ℕ) (o : SigHashTypeOutputs)
      → signed_outputs_hash d (new d tx) idx o ≡ hash_outputs tx idx o
  unfolding signed_outputs_hash hash_outputs new calc_outputs_hash
  signed_outputs tx idx all = ap (sha256d d) (put_outputs-append tx.outputs [])
  signed_outputs tx idx nothing = refl
  signed_outputs tx idx single = elim (Option-cases (get_elem? tx.outputs idx)) [
    | inl absent ↦ rw (absent, hash_outputs) refl
    | inr (o, present) ↦ rw (present, hash_outputs, append-nil (ser tx_output_code o)) refl
  ]

  preimage_bytes-bip143_bytes :
      (tx : UnhashedTx) (idx : ℕ) (i : SigHashTypeInputs) (o : SigHashTypeOutputs) (input : TxInput)
      (code : Script) (v : ℤ)
      → preimage_bytes d (new d tx) idx (bip143_type i o) input code v
        ≡ bip143_bytes tx idx (bip143_type i o) input code v
  unfolding preimage_bytes bip143_bytes put_slice
  preimage_bytes-bip143_bytes tx idx i o input code v =
      rw (fixed_prevouts tx i, fixed_sequences tx i o, signed_outputs tx idx o, new_tx tx)
        (simp append_assoc)

  codesep_error-ok :
      {r : Result BitcoinSuiteError Script} {code : Script}
      → r ≡ ok code
      → codesep_error r ≡ ok code
  unfolding codesep_error
  codesep_error-ok e = ap codesep_error e

  -- For an input with sign data, a script code and a value, `sighash_preimage` returns the bytes that
  -- BIP 143 says are signed: the hashes it covers by the type of the signature, in its order.
  pub sighash_preimage-bip143_bytes :
      (tx : UnhashedTx) (idx : ℕ) (i : SigHashTypeInputs) (o : SigHashTypeOutputs)
      (codesep_idx : Option ℕ) (s : Signs tx idx codesep_idx)
      → sighash_preimage d (new d tx) idx (bip143_type i o) codesep_idx
        ≡ ok (record {
          bytes = bip143_bytes tx idx (bip143_type i o) s.input s.code s.amount;
          script_code = s.code;
          redeem_script = s.redeem;
        })
  unfolding sighash_preimage
  sighash_preimage-bip143_bytes tx idx i o codesep_idx s =
      >>=-ok _ (at_index-ok (new d tx).tx.inputs idx s.input (rw (new_tx tx) s.is_input))
      ∙ >>=-ok _ (ap (λ x. ok_or x no_sign_data) s.is_sign_data)
      ∙ >>=-ok _ s.is_redeem
      ∙ >>=-ok _ (codesep_error-ok s.is_code)
      ∙ >>=-ok _ s.is_amount
      ∙ ap (λ bs. ok (record { bytes = bs; script_code = s.code; redeem_script = s.redeem }))
          (preimage_bytes-bip143_bytes tx idx i o s.input s.code s.amount)

  -- What an input signs as `ANYONECANPAY | NONE` is the same in every transaction that has the input,
  -- at whatever index, with the same version and lock time: no other input and no output matters. The
  -- input has sign data, a script code and a value.
  pub sighash_preimage-moved :
      (tx tx' : UnhashedTx) (idx idx' : ℕ) (codesep_idx : Option ℕ) (s : Signs tx idx codesep_idx)
      → get_elem? tx'.inputs idx' ≡ some s.input
      → tx'.version ≡ tx.version
      → tx'.lock_time ≡ tx.lock_time
      → sighash_preimage d (new d tx') idx' (bip143_type anyone_can_pay nothing) codesep_idx
        ≡ sighash_preimage d (new d tx) idx (bip143_type anyone_can_pay nothing) codesep_idx
  unfolding bip143_bytes hash_prevouts hash_sequence hash_outputs
  sighash_preimage-moved tx tx' idx idx' codesep_idx s here same_version same_time =
      sighash_preimage-bip143_bytes tx' idx' anyone_can_pay nothing codesep_idx
        (moved tx tx' idx idx' codesep_idx s here)
      ∙ rw (same_version, same_time) refl
      ∙ sym (sighash_preimage-bip143_bytes tx idx anyone_can_pay nothing codesep_idx s)
