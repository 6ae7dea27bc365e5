-- ===== src/Sign/TxBuilder.antt =====
-- bitcoinsuite-core/src/sign/tx_builder.rs: a transaction whose inputs are signed, and whose leftover
-- output gets what the inputs leave after the other outputs and the fee. Arithmetic on i64 and usize
-- wraps around, as an optimised build of the source does.
pub mod Fees
pub mod Outputs
pub mod Pays
use bitcoinsuite.Base.{
  ℕ, zero, suc, ◌+◌, ◌-◌, ◌%◌, ◌/◌, ◌^◌, List, [], ◌∷◌, ◌++◌, Option, none, some, Result, ok, err,
  panic, ◌>>=◌, map_err, if◌then◌else◌, length, get_elem?, set, map,
}
use bitcoinsuite.Base.Int.{ℤ, pos, negsuc, ◌+ℤ◌, ◌-ℤ◌, ◌*ℤ◌, ltb_ℤ}
use bitcoinsuite.Errors.{
  BitcoinSuiteError, SignError, missing_value, multiple_leftover, insufficient_inputs_for_fee, sign,
}
use bitcoinsuite.Bytes.Endian.{from_pattern, to_pattern}
use bitcoinsuite.Code.{ser}
use bitcoinsuite.Hash.{Digests}
use bitcoinsuite.Script.{Script}
use bitcoinsuite.Ecc.{Ecc, dummy_ecc}
use bitcoinsuite.SignData.{SignData, find_value}
use bitcoinsuite.Tx.{TxInput, TxOutput, UnhashedTx, tx_output_code, unhashed_tx_ser_to}
use bitcoinsuite.Sign.UnsignedTx.{UnsignedTx, new, new_dummy, at_index}
use bitcoinsuite.Sign.Signatory.{Signatory}

pub record TxBuilderInput : Type 0 where
  pub input : TxInput
  pub signatory : Option Signatory

pub data TxBuilderOutput : Type 0 where
  fixed : TxOutput → TxBuilderOutput
  leftover : Script → TxBuilderOutput

pub record TxBuilder : Type 0 where
  pub version : ℤ
  pub inputs : List TxBuilderInput
  pub outputs : List TxBuilderOutput
  pub lock_time : ℕ

-- The i64 that a sum or product wraps to.
unfoldable pub wrap_i64 : ℤ → ℤ
wrap_i64 z = from_pattern 8 (to_pattern 8 z)

-- `a / b` on i64, which rounds towards zero.
abbrev pub quot : ℤ → ℕ → ℤ
quot (pos n) b = pos (n / b)
quot (negsuc n) b = pos 0 -ℤ pos (suc n / b)

abbrev pub from_input : TxInput → TxBuilderInput
from_input input = record { input = input; signatory = none }

unfoldable pub from_tx : UnhashedTx → TxBuilder
from_tx tx = record {
  version = tx.version;
  inputs = map from_input tx.inputs;
  outputs = map fixed tx.outputs;
  lock_time = tx.lock_time;
}

-- The two matches of the loop of `input_sum`; `ok none` is its `return None`.
abbrev pub found_value : Result SignError ℤ → Result SignError (Option ℤ)
found_value (ok v) = ok (some v)
found_value (err missing_value) = ok none
found_value r = panic

abbrev pub input_value : Option SignData → Result SignError (Option ℤ)
input_value none = ok none
input_value (some sign_data) = found_value (find_value sign_data)

unfoldable pub input_sum_loop : ℤ → List TxBuilderInput → Result SignError (Option ℤ)
input_sum_loop sum [] = ok (some sum)
input_sum_loop sum (i ∷ inputs) = do
  v ← input_value i.input.sign_data
  elim v [ none ↦ ok none | some v ↦ input_sum_loop (wrap_i64 (sum +ℤ v)) inputs ]

unfoldable pub input_sum : TxBuilder → Result SignError (Option ℤ)
unfolding input_sum_loop
input_sum b = input_sum_loop (pos 0) b.inputs

-- The loop of `prepare_outputs`, with its index.
unfoldable pub prepare_loop :
    ℕ
    → ℤ
    → Option ℕ
    → List TxOutput
    → List TxBuilderOutput
    → Result SignError (ℤ × Option ℕ × List TxOutput)
prepare_loop output_idx sum leftover_idx outputs [] = ok (sum, leftover_idx, outputs)
prepare_loop output_idx sum leftover_idx outputs (fixed output ∷ rest) =
    prepare_loop (output_idx + 1) (wrap_i64 (sum +ℤ output.value)) leftover_idx
      (outputs ++ (output ∷ [])) rest
prepare_loop output_idx sum (some idx) outputs (leftover script ∷ rest) = err multiple_leftover
prepare_loop output_idx sum none outputs (leftover script ∷ rest) =
    prepare_loop (output_idx + 1) sum (some output_idx)
      (outputs ++ (record { value = pos 0; script = script } ∷ [])) rest

unfoldable pub prepare_outputs :
    List TxBuilderOutput → Result SignError (ℤ × Option ℕ × List TxOutput)
unfolding prepare_loop
prepare_outputs builder_outputs = prepare_loop 0 (pos 0) none [] builder_outputs

-- The loops that let every input be signed.
unfoldable pub sign_loop :
    Ecc → UnsignedTx → ℕ → List (Option Signatory) → Result BitcoinSuiteError UnsignedTx
sign_loop ecc u input_idx [] = ok u
sign_loop ecc u input_idx (none ∷ signatories) = sign_loop ecc u (input_idx + 1) signatories
sign_loop ecc u input_idx (some signatory ∷ signatories) = do
  u ← signatory.sign_input ecc u input_idx
  sign_loop ecc u (input_idx + 1) signatories

-- `tx_size as i64 * fee_per_kb / 1000`
unfoldable pub tx_fee : ℕ → ℤ → ℤ
unfolding wrap_i64
tx_fee tx_size fee_per_kb = quot (wrap_i64 (from_pattern 8 tx_size *ℤ fee_per_kb)) 1000

-- `new_outputs.remove(idx)`, which panics out of bounds: the output, and the others.
abbrev pub remove : List TxOutput → ℕ → Result SignError (TxOutput × List TxOutput)
remove [] i = panic
remove (x ∷ xs) zero = ok (x, xs)
remove (x ∷ xs) (suc i) = do (removed, rest) ← remove xs i; ok (removed, x ∷ rest)

-- The test at the end of the block.
abbrev pub check_fee : ℤ → ℤ → ℤ → List TxOutput → Result SignError (List TxOutput)
check_fee input_sum fixed_output_sum fee outputs =
    if ltb_ℤ input_sum (wrap_i64 (fixed_output_sum +ℤ fee))
    then err (insufficient_inputs_for_fee input_sum (wrap_i64 (input_sum -ℤ fixed_output_sum)) fee)
    else ok outputs

-- What is done with the leftover output, once the size of the dummy transaction is known.
unfoldable pub settle : ℤ → ℤ → ℤ → ℤ → ℕ → ℕ → List TxOutput → Result SignError (List TxOutput)
settle input_sum fixed_output_sum fee_per_kb dust_limit leftover_idx tx_size outputs =
    let fee = tx_fee tx_size fee_per_kb in
    let leftover_value = wrap_i64 (input_sum -ℤ wrap_i64 (fixed_output_sum +ℤ fee)) in
    if ltb_ℤ leftover_value dust_limit
    then (do
      (output, outputs) ← remove outputs leftover_idx
      let size = (tx_size + 2 ^ 64 - length (ser tx_output_code output)) % 2 ^ 64
      check_fee input_sum fixed_output_sum (tx_fee size fee_per_kb) outputs)
    else (do
      output ← at_index outputs leftover_idx
      check_fee input_sum fixed_output_sum fee
          (set outputs leftover_idx (record output { value = leftover_value })))

-- The transaction with the inputs of the builder and some outputs.
abbrev pub builder_tx : TxBuilder → List TxOutput → UnhashedTx
builder_tx b outputs = record {
  version = b.version;
  inputs = map (λ i. i.input) b.inputs;
  outputs = outputs;
  lock_time = b.lock_time;
}

abbrev pub signatories : TxBuilder → List (Option Signatory)
signatories b = map (λ i. i.signatory) b.inputs

module _ (d : Digests) where
  -- The block of `sign` that adjusts the outputs.
  unfoldable pub adjust :
      TxBuilder
      → ℤ
      → ℤ
      → Option ℤ
      → ℤ
      → Option ℕ
      → List TxOutput
      → Result BitcoinSuiteError (List TxOutput)
  adjust b fee_per_kb dust_limit input_sum fixed_output_sum none outputs = ok outputs
  adjust b fee_per_kb dust_limit none fixed_output_sum (some leftover_idx) outputs =
      err (sign missing_value)
  adjust b fee_per_kb dust_limit (some input_sum) fixed_output_sum (some leftover_idx) outputs = do
    dummy ← sign_loop dummy_ecc (new_dummy (builder_tx b outputs)) 0 (signatories b)
    let tx_size = length (unhashed_tx_ser_to dummy.tx [])
    map_err sign (
        settle input_sum fixed_output_sum fee_per_kb dust_limit leftover_idx tx_size
          dummy.tx.outputs)

  -- `TxBuilder::sign`
  unfoldable pub sign_tx : TxBuilder → Ecc → ℤ → ℤ → Result BitcoinSuiteError UnhashedTx
  sign_tx b ecc fee_per_kb dust_limit = do
    sum ← map_err sign (input_sum b)
    (fixed_output_sum, leftover_idx, outputs) ← map_err sign (prepare_outputs b.outputs)
    outputs ← adjust b fee_per_kb dust_limit sum fixed_output_sum leftover_idx outputs
    u ← sign_loop ecc (new d (builder_tx b outputs)) 0 (signatories b)
    ok u.tx
