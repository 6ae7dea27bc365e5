-- ===== src/Tests/Builder.antt =====
-- A run of `TxBuilder::sign` with a leftover output.
use bitcoinsuite.Base.{
  ok_injective, ◌^◌, ◌<◌, ◌≡◌, refl, sym, ◌∙◌, ap, subst, List, [], ◌∷◌, ◌++◌, some, ok, >>=-ok,
  length, replicate, arith, map_err,
}
use bitcoinsuite.Base.Int.{pos, ◌+ℤ◌, ◌-ℤ◌, ◌*ℤ◌}
use bitcoinsuite.Errors.{sign}
use bitcoinsuite.Script.{Script, mk_script, p2pkh_spend}
use bitcoinsuite.Ecc.{dummy_ecc}
use bitcoinsuite.Tx.{
  TxOutput, UnhashedTx, unhashed_tx_ser_to, tx_input_ser_to, tx_output_ser_to, sequence_ser_to,
  out_point_ser_to,
}
use bitcoinsuite.Code.{vec_ser_to, ser_parts, int_ser_to, uint_ser_to, array_ser_to, bytes_ser_to}
use bitcoinsuite.Encoding.{write_compact_size}
use bitcoinsuite.Script.{script_ser_to}
use bitcoinsuite.Sign.UnsignedTx.{
  UnsignedTx, new, new_dummy, sighash_preimage, codesep_error, set_input_script,
}
use bitcoinsuite.Sign.Signatory.{p2pkh_signatory, p2pkh_sign_input}
use bitcoinsuite.Sign.TxBuilder.{
  TxBuilder, fixed, leftover, input_sum, input_sum_loop, prepare_outputs, prepare_loop, sign_loop,
  sign_tx, builder_tx, signatories, wrap_i64, settle, adjust, tx_fee,
}
use bitcoinsuite.Sign.TxBuilder.Outputs.{p2pkh_signatory-KeepsOutputs}
use bitcoinsuite.Sign.TxBuilder.Pays.{HasLeftover, Balances, sign_tx-Balances}
use bitcoinsuite.Bytes.{put_slice}
use bitcoinsuite.Bytes.Endian.{from_pattern, to_pattern, to_le_bytes}
use bitcoinsuite.SignData.{find_value, find_script_code}
use bitcoinsuite.Script.Codesep.{cut_out_codesep}
use bitcoinsuite.Script.Parse.{is_p2sh}
use bitcoinsuite.SigHashType.Flags.{to_u32}
use bitcoinsuite.Tests.Core.{flat_digests}
use bitcoinsuite.Tests.Signing.{one_input, one_output, one_key}

abbrev one_leftover : TxOutput
one_leftover = record { value = pos 0; script = mk_script (0x52 ∷ []) }

abbrev one_builder : TxBuilder
one_builder = record {
  version = pos 1;
  inputs =
      record { input = one_input; signatory = some (p2pkh_signatory flat_digests one_key) } ∷ [];
  outputs = fixed one_output ∷ leftover (mk_script (0x52 ∷ [])) ∷ [];
  lock_time = 0;
}

one_leftover_given : HasLeftover flat_digests one_builder (pos 1000) (pos 500)
unfolding input_sum input_sum_loop find_value prepare_outputs prepare_loop wrap_i64 from_pattern
    to_pattern ◌+ℤ◌
one_leftover_given = record {
  sum = pos 10000;
  fixed_sum = pos 2000;
  idx = 1;
  outputs = one_output ∷ one_leftover ∷ [];
  is_sum = refl;
  is_prepared = refl;
  small_sum = (omega arith, omega arith);
  small_outputs = ((omega arith, omega arith), (omega arith, omega arith));
  small_fixed = (omega arith, omega arith);
  keep = (p2pkh_signatory-KeepsOutputs flat_digests one_key, tt);
}

abbrev spend : Script
spend = mk_script (0x41 ∷ (replicate 64 0 ++ (0x41 ∷ 0x21 ∷ replicate 33 2)))

-- The fee is 170 for 170 bytes.
abbrev signed_tx : List TxOutput → UnhashedTx
signed_tx outputs = record {
  version = pos 1;
  inputs = record one_input { script = spend } ∷ [];
  outputs = outputs;
  lock_time = 0;
}

abbrev one_dummy : UnsignedTx
one_dummy = record {
  prevouts_hash = replicate 32 0;
  sequences_hash = replicate 32 0;
  outputs_hash = replicate 32 0;
  tx = signed_tx (one_output ∷ one_leftover ∷ []);
}

signs_input :
    (u : UnsignedTx)
    → u.tx.inputs ≡ one_input ∷ []
    → p2pkh_sign_input flat_digests one_key dummy_ecc u 0
      ≡ ok (record u { tx = record u.tx { inputs = record one_input { script = spend } ∷ [] } })
unfolding p2pkh_sign_input sighash_preimage find_script_code find_value cut_out_codesep is_p2sh
    codesep_error set_input_script p2pkh_spend put_slice to_u32
signs_input u e = rw e refl

is_dummy :
    sign_loop dummy_ecc
      (new_dummy (builder_tx one_builder (one_output ∷ one_leftover ∷ [])))
      0
      (signatories one_builder)
    ≡ ok one_dummy
unfolding sign_loop new_dummy
is_dummy =
    >>=-ok _
      (signs_input (new_dummy (builder_tx one_builder (one_output ∷ one_leftover ∷ []))) refl)

abbrev paid : List TxOutput
paid = one_output ∷ record one_leftover { value = pos 7830 } ∷ []

settles :
    settle
      (pos 10000)
      (pos 2000)
      (pos 1000)
      (pos 500)
      1
      (length (unhashed_tx_ser_to one_dummy.tx []))
      one_dummy.tx.outputs
    ≡ ok paid
unfolding settle tx_fee wrap_i64 from_pattern to_pattern ◌+ℤ◌ ◌-ℤ◌ ◌*ℤ◌ unhashed_tx_ser_to
    vec_ser_to ser_parts tx_input_ser_to tx_output_ser_to sequence_ser_to script_ser_to
    out_point_ser_to int_ser_to uint_ser_to array_ser_to bytes_ser_to put_slice write_compact_size
    to_le_bytes
settles = refl

signs : sign_tx flat_digests one_builder dummy_ecc (pos 1000) (pos 500) ≡ ok (signed_tx paid)
unfolding sign_tx adjust input_sum input_sum_loop find_value prepare_outputs prepare_loop wrap_i64
    from_pattern to_pattern ◌+ℤ◌ sign_loop new
signs =
    >>=-ok _ (>>=-ok _ is_dummy ∙ ap (map_err sign) settles)
    ∙ >>=-ok _ (>>=-ok _ (signs_input (new flat_digests (builder_tx one_builder paid)) refl))

short : length (unhashed_tx_ser_to one_dummy.tx []) < 2 ^ 64
unfolding unhashed_tx_ser_to vec_ser_to ser_parts tx_input_ser_to tx_output_ser_to sequence_ser_to
    script_ser_to out_point_ser_to int_ser_to uint_ser_to array_ser_to bytes_ser_to put_slice
    write_compact_size to_le_bytes to_pattern
short = omega arith

fits :
    (dummy : UnsignedTx)
    → sign_loop dummy_ecc
        (new_dummy (builder_tx one_builder (one_output ∷ one_leftover ∷ [])))
        0
        (signatories one_builder)
      ≡ ok dummy
    → length (unhashed_tx_ser_to dummy.tx []) < 2 ^ 64
fits dummy e =
    let same : one_dummy ≡ dummy = ok_injective (sym is_dummy ∙ e) in
    subst (λ (u : UnsignedTx). length (unhashed_tx_ser_to u.tx []) < 2 ^ 64) same short

sign_tx-Balances_example :
    Balances flat_digests one_builder (pos 1000) (pos 500) one_leftover_given (signed_tx paid)
unfolding one_leftover_given
sign_tx-Balances_example =
    sign_tx-Balances flat_digests one_builder (pos 1000) (pos 500) dummy_ecc (signed_tx paid)
      one_leftover_given fits signs
