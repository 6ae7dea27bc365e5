-- ===== src/Sign/NoPanic.antt =====
-- Signing never panics: `sighash_preimage` of bitcoinsuite-core/src/sign/unsigned_tx.rs.
use bitcoinsuite.Base.{
  ℕ, ◌≡◌, ◌≢◌, List, [], ◌∷◌, Bool, true, false, Option, none, some, Result, ok, err, panic,
  bind-ne-panic, get_elem?, arith, ok_or, guard, All, subst, inl, inr,
}
use bitcoinsuite.Errors.{BitcoinSuiteError, SignError, no_sign_data}
use bitcoinsuite.Bytes.{IsBytes}
use bitcoinsuite.Hash.{Digests}
use bitcoinsuite.SigHashType.{SigHashType}
use bitcoinsuite.Script.{Script}
use bitcoinsuite.Script.Codesep.{cut_out_codesep, IsCut, cut_out_codesep-IsCut}
use bitcoinsuite.SignData.{
  SignField, output_script, redeem_script, value, SignData, find_script_code, find_value,
  script_code_loop, value_loop,
}
use bitcoinsuite.SignData.Lookup.{Holds, find_script_code-IsScriptCode}
use bitcoinsuite.Tx.{TxInput}
use bitcoinsuite.Sign.UnsignedTx.{
  UnsignedTx, sighash_preimage, codesep_error, is_bip143, at_index-ok,
}

-- Sign data whose scripts are byte strings.
abbrev pub IsField : SignField → Type 0
IsField (output_script s) = IsBytes s.bytecode
IsField (redeem_script s) = IsBytes s.bytecode
IsField (value v) = Unit

abbrev pub IsSignData : Option SignData → Type 0
IsSignData none = Unit
IsSignData (some sign_data) = All IsField sign_data.fields

held :
    (fields : List SignField) (field : SignField)
    → Holds fields field
    → All IsField fields
    → IsField field
held [] field h all_fields = absurd h
held (x ∷ fields) field (inl e) all_fields = subst IsField e all_fields.0
held (x ∷ fields) field (inr h) all_fields = held fields field h all_fields.1

found-IsBytes :
    (sign_data : SignData) (s : Script)
    → All IsField sign_data.fields
    → find_script_code sign_data ≡ ok s
    → IsBytes s.bytecode
found-IsBytes sign_data s h e = elim (find_script_code-IsScriptCode sign_data s e) [
  | inl held_redeem ↦ held sign_data.fields (redeem_script s) held_redeem h
  | inr held_output ↦ held sign_data.fields (output_script s) held_output.0 h
]

script_code_loop-ne-panic :
    (p2sh : Bool) (fields : List SignField) → script_code_loop p2sh fields ≢ panic
unfolding script_code_loop
script_code_loop-ne-panic true [] = λ e. cc
script_code_loop-ne-panic false [] = λ e. cc
script_code_loop-ne-panic p2sh (output_script s ∷ fields) =
    ground (arith, script_code_loop-ne-panic true fields)
script_code_loop-ne-panic p2sh (redeem_script s ∷ fields) = λ e. cc
script_code_loop-ne-panic p2sh (value v ∷ fields) = script_code_loop-ne-panic p2sh fields

find_script_code-ne-panic : (sign_data : SignData) → find_script_code sign_data ≢ panic
unfolding find_script_code
find_script_code-ne-panic sign_data = script_code_loop-ne-panic false sign_data.fields

value_loop-ne-panic : (fields : List SignField) → value_loop fields ≢ panic
unfolding value_loop
value_loop-ne-panic [] = λ e. cc
value_loop-ne-panic (output_script s ∷ fields) = value_loop-ne-panic fields
value_loop-ne-panic (redeem_script s ∷ fields) = value_loop-ne-panic fields
value_loop-ne-panic (value v ∷ fields) = λ e. cc

pub find_value-ne-panic : (sign_data : SignData) → find_value sign_data ≢ panic
unfolding find_value
find_value-ne-panic sign_data = value_loop-ne-panic sign_data.fields

codesep_error-ne-panic : (r : Result BitcoinSuiteError Script) → IsCut r → codesep_error r ≢ panic
unfolding codesep_error
codesep_error-ne-panic (ok s) h = λ e. cc
codesep_error-ne-panic (err (BitcoinSuiteError.bytes e)) h = λ e. cc
codesep_error-ne-panic (err (BitcoinSuiteError.codesep_not_found n)) h = λ e. cc
codesep_error-ne-panic (err (BitcoinSuiteError.invalid_size e a)) h = absurd h
codesep_error-ne-panic (err (BitcoinSuiteError.inconsistent_op_push op)) h = absurd h
codesep_error-ne-panic (err BitcoinSuiteError.number_parse_error) h = absurd h
codesep_error-ne-panic (err BitcoinSuiteError.invalid_var_int) h = absurd h
codesep_error-ne-panic (err (BitcoinSuiteError.unknown_network name)) h = absurd h
codesep_error-ne-panic (err BitcoinSuiteError.hex) h = absurd h
codesep_error-ne-panic (err (BitcoinSuiteError.sign e)) h = absurd h
codesep_error-ne-panic (err (BitcoinSuiteError.ecc e)) h = absurd h
codesep_error-ne-panic panic h = absurd h

ok_or-ne-panic : {A E : Type 0} (o : Option A) (e : E) → ok_or o e ≢ panic
ok_or-ne-panic none e = λ p. cc
ok_or-ne-panic (some a) e = λ p. cc

guard-ne-panic : {E : Type 0} (test : Bool) (e : E) → guard test e ≢ panic
guard-ne-panic true e = λ p. cc
guard-ne-panic false e = λ p. cc

given_fields :
    (o : Option SignData) (sign_data : SignData)
    → IsSignData o
    → ok_or {E = SignError} o no_sign_data ≡ ok sign_data
    → All IsField sign_data.fields
given_fields none sign_data h e = cc
given_fields (some given) sign_data h e =
    let same : given ≡ sign_data = cc in subst (λ (x : SignData). All IsField x.fields) same h

-- For an input that exists, whose sign data holds byte strings, `sighash_preimage` returns a preimage
-- or an error: the arm that the source marks unreachable is never reached, whatever the flags and
-- the separator.
pub sighash_preimage-ne-panic :
    (d : Digests) (u : UnsignedTx) (idx : ℕ) (input : TxInput) (t : SigHashType)
    (codesep_idx : Option ℕ)
    → get_elem? u.tx.inputs idx ≡ some input
    → IsSignData input.sign_data
    → sighash_preimage d u idx t codesep_idx ≢ panic
unfolding sighash_preimage
sighash_preimage-ne-panic d u idx input t codesep_idx e h =
    bind-ne-panic (guard (is_bip143 t.variant) _) _ (guard-ne-panic (is_bip143 t.variant) _) (λ _ _.
      rw (at_index-ok u.tx.inputs idx input e) (
        bind-ne-panic (ok_or input.sign_data _) _ (ok_or-ne-panic input.sign_data _)
          (λ sign_data given.
            bind-ne-panic (find_script_code sign_data) _ (find_script_code-ne-panic sign_data)
              (λ redeem found.
                bind-ne-panic (codesep_error (cut_out_codesep redeem codesep_idx)) _
                  (codesep_error-ne-panic (cut_out_codesep redeem codesep_idx) (
                    cut_out_codesep-IsCut redeem codesep_idx (
                      found-IsBytes sign_data redeem
                        (given_fields input.sign_data sign_data h given) found)))
                  (λ code cut.
                    bind-ne-panic (find_value sign_data) _ (find_value-ne-panic sign_data)
                      (λ v _ p. cc))))))
