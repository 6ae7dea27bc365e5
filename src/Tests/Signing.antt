-- ===== src/Tests/Signing.antt =====
-- Concrete inputs for the theorems about signing.
use bitcoinsuite.Base.{
  ℕ, ◌≡◌, ◌≢◌, refl, [], ◌∷◌, none, some, ok, panic, replicate, length-replicate, arith, get_elem?,
}
use bitcoinsuite.Base.Int.{pos}
use bitcoinsuite.Hash.{sha256d}
use bitcoinsuite.SigHashType.{fixed, anyone_can_pay, all, nothing}
use bitcoinsuite.Script.{Script, mk_script}
use bitcoinsuite.Script.Parse.{is_p2sh}
use bitcoinsuite.Script.Codesep.{cut_out_codesep, parse_p2pkh_spend}
use bitcoinsuite.SignData.{SignData, value, output_script, find_script_code, find_value}
use bitcoinsuite.Tx.{TxInput, TxOutput, UnhashedTx, finalized}
use bitcoinsuite.Ecc.{dummy_ecc}
use bitcoinsuite.Sign.UnsignedTx.{SighashPreimage, new, sighash_preimage}
use bitcoinsuite.Sign.Bip143.{
  Signs, bip143_type, bip143_bytes, sighash_preimage-bip143_bytes, sighash_preimage-moved,
}
use bitcoinsuite.Sign.NoPanic.{sighash_preimage-ne-panic}
use bitcoinsuite.Sign.Signatory.{
  P2pkhSignatory, p2pkh_sign_input, sig_flagged, with_script, p2pkh_sign_input-parse_p2pkh_spend,
}
use bitcoinsuite.Tests.Core.{flat_digests}

-- An input with 10000 base units on a P2PKH output.
abbrev pub spent : Script
spent = mk_script (0x51 ∷ [])

abbrev pub spent_data : SignData
spent_data = record { fields = value (pos 10000) ∷ output_script spent ∷ [] }

abbrev pub one_input : TxInput
one_input = record {
  prev_out = record { txid = replicate 32 7; out_idx = 1 };
  script = mk_script [];
  sequence = finalized;
  sign_data = some spent_data;
}

abbrev pub one_output : TxOutput
one_output = record { value = pos 2000; script = mk_script [] }

abbrev pub one_tx : UnhashedTx
one_tx = record {
  version = pos 1;
  inputs = one_input ∷ [];
  outputs = one_output ∷ [];
  lock_time = 0;
}

-- The same input behind another one, and other outputs.
abbrev two_inputs : UnhashedTx
two_inputs = record {
  version = pos 1;
  inputs = record one_input { sign_data = none } ∷ one_input ∷ [];
  outputs = [];
  lock_time = 0;
}

one_signs : Signs one_tx 0 none
unfolding find_script_code find_value cut_out_codesep is_p2sh
one_signs = record {
  input = one_input;
  sign_data = spent_data;
  redeem = spent;
  code = spent;
  amount = pos 10000;
  is_input = refl;
  is_sign_data = refl;
  is_redeem = refl;
  is_code = refl;
  is_amount = refl;
}

abbrev one_preimage : SighashPreimage
one_preimage = record {
  bytes =
      bip143_bytes flat_digests one_tx 0 (bip143_type fixed all) one_signs.input one_signs.code
        one_signs.amount;
  script_code = one_signs.code;
  redeem_script = one_signs.redeem;
}

sighash_preimage-bip143_bytes_example :
    sighash_preimage flat_digests (new flat_digests one_tx) 0 (bip143_type fixed all) none
    ≡ ok one_preimage
sighash_preimage-bip143_bytes_example =
    sighash_preimage-bip143_bytes flat_digests one_tx 0 fixed all none one_signs

sighash_preimage-moved_example :
    sighash_preimage flat_digests
      (new flat_digests two_inputs)
      1
      (bip143_type anyone_can_pay nothing)
      none
    ≡ sighash_preimage flat_digests
        (new flat_digests one_tx)
        0
        (bip143_type anyone_can_pay nothing)
        none
unfolding one_signs
sighash_preimage-moved_example =
    sighash_preimage-moved flat_digests one_tx two_inputs 0 1 none one_signs refl refl refl

new_input : get_elem? (new flat_digests one_tx).tx.inputs 0 ≡ some one_input
unfolding new
new_input = refl

sighash_preimage-ne-panic_example :
    sighash_preimage flat_digests (new flat_digests one_tx) 0 (bip143_type fixed all) (some 3)
    ≢ panic
sighash_preimage-ne-panic_example =
    sighash_preimage-ne-panic flat_digests (new flat_digests one_tx) 0 one_input
      (bip143_type fixed all) (some 3) new_input (tt, ((omega arith, tt), tt))

one_preimage_eq :
    sighash_preimage flat_digests (new flat_digests one_tx) 0 (bip143_type fixed all) none
    ≡ ok one_preimage
one_preimage_eq = sighash_preimage-bip143_bytes flat_digests one_tx 0 fixed all none one_signs

abbrev pub one_key : P2pkhSignatory
one_key = record {
  seckey = replicate 32 1;
  pubkey = replicate 33 2;
  sig_hash_type = bip143_type fixed all;
}

p2pkh_sign_input-parse_p2pkh_spend_example :
    (spend : Script) × (p2pkh_sign_input flat_digests one_key dummy_ecc (new flat_digests one_tx) 0
      ≡ ok (with_script (new flat_digests one_tx) 0 one_input spend))
    × (parse_p2pkh_spend spend
        ≡ some (
          one_key.pubkey,
          sig_flagged
              (dummy_ecc.schnorr_sign one_key.seckey (sha256d flat_digests one_preimage.bytes))
              one_key.sig_hash_type,
        ))
p2pkh_sign_input-parse_p2pkh_spend_example =
    p2pkh_sign_input-parse_p2pkh_spend flat_digests one_key dummy_ecc (new flat_digests one_tx) 0
      one_input one_preimage new_input one_preimage_eq refl (length-replicate {A = ℕ} 64 0)
