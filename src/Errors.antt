-- ===== src/Errors.antt =====
-- The error types: bitcoinsuite-core/src/error.rs, src/bytes.rs, src/sign/error.rs and src/ecc/mod.rs.
-- Texts carried by an error are kept; the error of the `hex` crate has no content here.
use Prim.Native.String.{String}
use bitcoinsuite.Base.{ℕ, Result, map_err}
use bitcoinsuite.Base.Int.{ℤ}
use bitcoinsuite.SigHashType.{SigHashType}

pub data BytesError : Type 0 where
  invalid_split : ℕ → ℕ → BytesError

pub data EccError : Type 0 where
  invalid_signature_format invalid_public_key invalid_secret_key : EccError
  invalid_pub_key_len : ℕ → EccError
  invalid_recovery_id : ℤ → EccError
  recovery_failed : EccError
  hex : EccError

-- The fields of `insufficient_inputs_for_fee` are `input_sum`, `max_fee` and `required_fee`.
pub data SignError : Type 0 where
  no_sign_data missing_script_code missing_script_code_p2sh missing_value : SignError
  invalid_sig_hash_type : SigHashType → SignError
  invalid_script_encoding multiple_leftover : SignError
  insufficient_inputs_for_fee : ℤ → ℤ → ℤ → SignError
  codesep_not_found : ℕ → SignError

-- The fields of `invalid_size` are `expected` and `actual`.
pub data BitcoinSuiteError : Type 0 where
  bytes : BytesError → BitcoinSuiteError
  invalid_size : ℕ → ℕ → BitcoinSuiteError
  inconsistent_op_push : ℕ → BitcoinSuiteError
  number_parse_error invalid_var_int : BitcoinSuiteError
  unknown_network : String → BitcoinSuiteError
  codesep_not_found : ℕ → BitcoinSuiteError
  hex : BitcoinSuiteError
  sign : SignError → BitcoinSuiteError
  ecc : EccError → BitcoinSuiteError

-- The conversion that `?` makes on the result of a read.
abbrev pub from_bytes_error {κ} : {A : Type κ} → Result BytesError A → Result BitcoinSuiteError A
from_bytes_error r = map_err bytes r
