-- ===== src/Sign/Signatory.antt =====
-- bitcoinsuite-core/src/sign/signatory.rs: the trait `Signatory`, and the signatory of P2PKH outputs.
-- A signatory gets the transaction and the index of its input, and returns the changed transaction.
use bitcoinsuite.Base.{
  ℕ, ◌+◌, ◌%◌, ◌^◌, ◌≡◌, ◌∙◌, ap, [], ◌∷◌, none, some, Result, ok, ◌>>=◌, map_err, arith, length,
  get_elem?, set, length-append, >>=-ok,
}
use bitcoinsuite.Errors.{BitcoinSuiteError, sign}
use bitcoinsuite.Bytes.{Bytes, IsArray, put_slice}
use bitcoinsuite.Hash.{Digests, sha256d}
use bitcoinsuite.SigHashType.{SigHashType}
use bitcoinsuite.SigHashType.Flags.{to_u32}
use bitcoinsuite.Script.{Script, p2pkh_spend, pubkey_length}
use bitcoinsuite.Script.Codesep.{parse_p2pkh_spend, parse_p2pkh_spend-p2pkh_spend}
use bitcoinsuite.Ecc.{Ecc, schnorr_signature_size}
use bitcoinsuite.Tx.{TxInput}
use bitcoinsuite.Sign.UnsignedTx.{
  UnsignedTx, SighashPreimage, sighash_preimage, set_input_script, at_index-ok,
}

pub record Signatory : Type 0 where
  pub sign_input : Ecc → UnsignedTx → ℕ → Result BitcoinSuiteError UnsignedTx

pub record P2pkhSignatory : Type 0 where
  pub seckey : Bytes
  pub pubkey : Bytes
  pub sig_hash_type : SigHashType

-- `put_bytes(sig)` and the flag behind it.
abbrev pub sig_flagged : Bytes → SigHashType → Bytes
sig_flagged sig t = put_slice (put_slice [] sig) ((to_u32 t % 2 ^ 8) ∷ [])

unfoldable pub p2pkh_sign_input :
    Digests → P2pkhSignatory → Ecc → UnsignedTx → ℕ → Result BitcoinSuiteError UnsignedTx
p2pkh_sign_input d key ecc u idx = do
  preimage ← map_err sign (sighash_preimage d u idx key.sig_hash_type none)
  let sighash = sha256d d preimage.bytes
  let sig = ecc.schnorr_sign key.seckey sighash
  set_input_script u idx (p2pkh_spend key.pubkey (sig_flagged sig key.sig_hash_type))

abbrev pub p2pkh_signatory : Digests → P2pkhSignatory → Signatory
p2pkh_signatory d key = record { sign_input = p2pkh_sign_input d key }

-- The transaction with another script in one input.
abbrev pub with_script : UnsignedTx → ℕ → TxInput → Script → UnsignedTx
with_script u idx input script = record u {
  tx = record u.tx { inputs = set u.tx.inputs idx (record input { script = script }) };
}

set_input_script-ok :
    {E : Type 0} (u : UnsignedTx) (idx : ℕ) (input : TxInput) (script : Script)
    → get_elem? u.tx.inputs idx ≡ some input
    → set_input_script {E = E} u idx script ≡ ok (with_script u idx input script)
unfolding set_input_script
set_input_script-ok u idx input script e = >>=-ok _ (at_index-ok u.tx.inputs idx input e)

length-sig_flagged : (sig : Bytes) (t : SigHashType) → length (sig_flagged sig t) ≡ length sig + 1
unfolding put_slice
length-sig_flagged sig t = length-append sig ((to_u32 t % 2 ^ 8) ∷ [])

-- Signing an input for which there is a preimage changes the script of that input and nothing else. The new
-- script is a P2PKH spend that reads back as the public key and the signature with its flag byte.
-- The key has 33 bytes and the signature 64.
pub p2pkh_sign_input-parse_p2pkh_spend :
    (d : Digests) (key : P2pkhSignatory) (ecc : Ecc) (u : UnsignedTx) (idx : ℕ) (input : TxInput)
    (preimage : SighashPreimage)
    → get_elem? u.tx.inputs idx ≡ some input
    → sighash_preimage d u idx key.sig_hash_type none ≡ ok preimage
    → IsArray pubkey_length key.pubkey
    → IsArray schnorr_signature_size (ecc.schnorr_sign key.seckey (sha256d d preimage.bytes))
    → (spend : Script) × (p2pkh_sign_input d key ecc u idx ≡ ok (with_script u idx input spend))
      × (parse_p2pkh_spend spend
          ≡ some (
            key.pubkey,
            sig_flagged (ecc.schnorr_sign key.seckey (sha256d d preimage.bytes)) key.sig_hash_type,
          ))
unfolding p2pkh_sign_input
p2pkh_sign_input-parse_p2pkh_spend d key ecc u idx input preimage is_input signs is_key is_sig =
    let sig = ecc.schnorr_sign key.seckey (sha256d d preimage.bytes) in
    let flagged = sig_flagged sig key.sig_hash_type in
    let long = length-sig_flagged sig key.sig_hash_type in
    let spend = p2pkh_spend key.pubkey flagged in
    (
      spend,
      >>=-ok _ (ap (map_err sign) signs) ∙ set_input_script-ok u idx input spend is_input,
      parse_p2pkh_spend-p2pkh_spend key.pubkey flagged is_key (omega (arith, long, is_sig))
          (omega (arith, long, is_sig)),
    )
