-- ===== src/Ecc.antt =====
-- bitcoinsuite-core/src/ecc/mod.rs: the trait `Ecc`, and `DummyEcc`, which signs with zeros. The
-- curve itself is behind the trait, and any implementation of it is a value of the record. A public key
-- is an array of 33 bytes and a secret key one of 32. `panic` stands for `unimplemented!()`.
use bitcoinsuite.Base.{ℕ, Result, ok, panic, length, replicate}
use bitcoinsuite.Base.Int.{ℤ, pos}
use bitcoinsuite.Errors.{EccError}
use bitcoinsuite.Bytes.{Bytes}
use bitcoinsuite.Script.{pubkey_length}

abbrev pub max_ecdsa_signature_size : ℕ
max_ecdsa_signature_size = 71

abbrev pub schnorr_signature_size : ℕ
schnorr_signature_size = 64

pub data VerifySignatureError : Type 0 where
  invalid_format incorrect_signature : VerifySignatureError

-- `recover_sig` takes the data, the recovery id and the message.
pub record Ecc : Type 0 where
  pub pubkey_from_array : Bytes → Result EccError Bytes
  pub seckey_from_array : Bytes → Result EccError Bytes
  pub sign : Bytes → Bytes → Bytes
  pub schnorr_sign : Bytes → Bytes → Bytes
  pub verify : Bytes → Bytes → Bytes → Result VerifySignatureError (Unit {0})
  pub schnorr_verify : Bytes → Bytes → Bytes → Result VerifySignatureError (Unit {0})
  pub derive_pubkey : Bytes → Bytes
  pub serialize_pubkey_uncompressed : Bytes → Bytes
  pub normalize_sig : Bytes → Result EccError Bytes
  pub sign_recoverable : Bytes → Bytes → ℤ × Bytes
  pub recover_sig : Bytes → ℤ → Bytes → Result EccError Bytes

abbrev pub dummy_ecc : Ecc
dummy_ecc = record {
  pubkey_from_array = λ pubkey. ok (replicate pubkey_length 0);
  seckey_from_array = λ seckey. ok (replicate 32 0);
  sign = λ seckey msg. replicate max_ecdsa_signature_size 0;
  schnorr_sign = λ seckey msg. replicate schnorr_signature_size 0;
  verify = λ pubkey msg sig. panic;
  schnorr_verify = λ pubkey msg sig. panic;
  derive_pubkey = λ seckey. replicate pubkey_length 0;
  serialize_pubkey_uncompressed = λ pubkey. replicate 65 0;
  normalize_sig = λ sig. ok (replicate (length sig) 0);
  sign_recoverable = λ seckey msg. (pos 0, replicate 64 0);
  recover_sig = λ data' recover_id msg. panic;
}
