-- ===== src/SignData.antt =====
-- bitcoinsuite-core/src/sign/sign_data.rs: what a signer is told of the output that an input spends.
pub mod Lookup
use bitcoinsuite.Base.{Bool, true, false, List, [], ◌∷◌, Result, ok, err, if◌then◌else◌}
use bitcoinsuite.Base.Int.{ℤ}
use bitcoinsuite.Errors.{SignError, missing_script_code, missing_script_code_p2sh, missing_value}
use bitcoinsuite.Script.{Script}
use bitcoinsuite.Script.Parse.{is_p2sh}

pub data SignField : Type 0 where
  output_script : Script → SignField
  redeem_script : Script → SignField
  value : ℤ → SignField

pub record SignData : Type 0 where
  pub fields : List SignField

-- The loop of `find_script_code`, with its flag `is_p2sh`.
unfoldable pub script_code_loop : Bool → List SignField → Result SignError Script
script_code_loop true [] = err missing_script_code_p2sh
script_code_loop false [] = err missing_script_code
script_code_loop p2sh (output_script s ∷ fields) =
    let rest = script_code_loop true fields in if is_p2sh s then rest else ok s
script_code_loop p2sh (redeem_script s ∷ fields) = ok s
script_code_loop p2sh (value v ∷ fields) = script_code_loop p2sh fields

unfoldable pub find_script_code : SignData → Result SignError Script
unfolding script_code_loop
find_script_code d = script_code_loop false d.fields

unfoldable pub value_loop : List SignField → Result SignError ℤ
value_loop [] = err missing_value
value_loop (output_script s ∷ fields) = value_loop fields
value_loop (redeem_script s ∷ fields) = value_loop fields
value_loop (value v ∷ fields) = ok v

unfoldable pub find_value : SignData → Result SignError ℤ
unfolding value_loop
find_value d = value_loop d.fields
