-- ===== src/Tx/RoundTrip.antt =====
-- Writing and reading transactions and their parts (bitcoinsuite-core/src/tx.rs).
use bitcoinsuite.Base.{◌^◌, ◌<◌, ◌≡◌, ap, sym, ◌++◌, none, ok, arith, length, append_assoc}
use bitcoinsuite.Bytes.{Bytes, IsArray}
use bitcoinsuite.Bytes.Endian.{IsSigned}
use bitcoinsuite.Code.{ser, array_code, uint_code, int_code, bytes_code, vec_code}
use bitcoinsuite.Code.Lawful.{IsLawful, lawful_by}
use bitcoinsuite.Code.Instances.{
  array_code-IsLawful, uint_code-IsLawful, int_code-IsLawful, bytes_code-IsLawful,
}
use bitcoinsuite.Code.Vectors.{FitsIn, vec_code-IsLawful}
use bitcoinsuite.Hash.{Digests}
use bitcoinsuite.Script.{Script, script_code, script_ser_to, script_deser}
use bitcoinsuite.Tx.{
  SequenceNo, OutPoint, TxInput, TxOutput, UnhashedTx, Tx, Layout, sequence_code, sequence_ser_to,
  sequence_deser, out_point_code, out_point_ser_to, out_point_deser, tx_input_code, tx_input_ser_to,
  tx_input_deser, tx_output_code, tx_output_ser_to, tx_output_deser, unhashed_tx_code,
  unhashed_tx_ser_to, unhashed_tx_deser, hashed, tx_code, tx_ser_to, tx_deser,
}

-- A 32-bit number, and a script that a u64 can measure.
abbrev pub u32 : IsLawful (uint_code 4) (λ n. n < 256 ^ 4)
u32 = uint_code-IsLawful 4

abbrev pub hash32 : IsLawful (array_code 32) (IsArray 32)
hash32 = array_code-IsLawful 32

abbrev pub IsScript : Script → Type 0
IsScript s = length s.bytecode < 2 ^ 64

pub script_code-IsLawful : IsLawful script_code IsScript
script_code-IsLawful =
    lawful_by script_code IsScript (λ s. ser bytes_code s.bytecode)
      (λ s bs. unfold script_ser_to in bytes_code-IsLawful.appends s.bytecode bs)
      (λ s rest h. unfold script_deser in rw (bytes_code-IsLawful.reads s.bytecode rest h))

abbrev pub IsSequence : SequenceNo → Type 0
IsSequence s = s.num < 256 ^ 4

pub sequence_code-IsLawful : IsLawful sequence_code IsSequence
sequence_code-IsLawful =
    lawful_by sequence_code IsSequence (λ s. ser (uint_code 4) s.num)
      (λ s bs. unfold sequence_ser_to in u32.appends s.num bs)
      (λ s rest h. unfold sequence_deser in rw (u32.reads s.num rest h))

abbrev pub IsOutPoint : OutPoint → Type 0
IsOutPoint o = IsArray 32 o.txid × (o.out_idx < 256 ^ 4)

pub out_point_code-IsLawful : IsLawful out_point_code IsOutPoint
out_point_code-IsLawful =
    lawful_by out_point_code IsOutPoint
      (λ o. ser (array_code 32) o.txid ++ ser (uint_code 4) o.out_idx)
      (λ o bs. unfold out_point_ser_to in simp (u32.appends, hash32.appends, append_assoc))
      (λ o rest h.
        unfold out_point_deser in
        simp (append_assoc, hash32.reads o.txid _ h.0, u32.reads o.out_idx rest h.1))

-- An input as a reader returns it: the sign data is not written.
pub record IsTxInput (i : TxInput) : Type 0 where
  pub prev_out : IsOutPoint i.prev_out
  pub script : IsScript i.script
  pub sequence : IsSequence i.sequence
  pub unsigned : i.sign_data ≡ none

input_without : (i : TxInput) → i.sign_data ≡ none → record i { sign_data = none } ≡ i
input_without i e = λ k. record i { sign_data = sym e k }

pub tx_input_code-IsLawful : IsLawful tx_input_code IsTxInput
tx_input_code-IsLawful =
    lawful_by tx_input_code IsTxInput
      (λ i.
        ser out_point_code i.prev_out ++ (ser script_code i.script ++ ser sequence_code i.sequence))
      (λ i bs.
        unfold tx_input_ser_to in
        simp (
          sequence_code-IsLawful.appends, script_code-IsLawful.appends,
          out_point_code-IsLawful.appends, append_assoc,
        ))
      (λ i rest h.
        unfold tx_input_deser in
        simp
          (
            append_assoc,
            out_point_code-IsLawful.reads i.prev_out _ h.prev_out,
            script_code-IsLawful.reads i.script _ h.script,
            sequence_code-IsLawful.reads i.sequence rest h.sequence,
          )
          (ap (λ (t : TxInput). ok (t, rest)) (input_without i h.unsigned)))

abbrev pub i64 : IsLawful (int_code 8) (IsSigned 8)
i64 = int_code-IsLawful 8 (omega arith)

abbrev pub i32 : IsLawful (int_code 4) (IsSigned 4)
i32 = int_code-IsLawful 4 (omega arith)

abbrev pub IsTxOutput : TxOutput → Type 0
IsTxOutput o = IsSigned 8 o.value × IsScript o.script

pub tx_output_code-IsLawful : IsLawful tx_output_code IsTxOutput
tx_output_code-IsLawful =
    lawful_by tx_output_code IsTxOutput (λ o. ser (int_code 8) o.value ++ ser script_code o.script)
      (λ o bs.
        unfold tx_output_ser_to in simp (script_code-IsLawful.appends, i64.appends, append_assoc))
      (λ o rest h.
        unfold tx_output_deser in
        simp (append_assoc, i64.reads o.value _ h.0, script_code-IsLawful.reads o.script rest h.1))

module _ (layout : Layout) where
  pub inputs_code-IsLawful :
      IsLawful
        (vec_code layout.tx_input_size tx_input_code)
        (FitsIn tx_input_code-IsLawful layout.tx_input_size)
  inputs_code-IsLawful = vec_code-IsLawful tx_input_code-IsLawful layout.tx_input_size

  pub outputs_code-IsLawful :
      IsLawful
        (vec_code layout.tx_output_size tx_output_code)
        (FitsIn tx_output_code-IsLawful layout.tx_output_size)
  outputs_code-IsLawful = vec_code-IsLawful tx_output_code-IsLawful layout.tx_output_size

  -- A transaction whose fields are in range, whose vectors fit in memory and which is not signed.
  pub record IsUnhashedTx (t : UnhashedTx) : Type 0 where
    pub version : IsSigned 4 t.version
    pub inputs : FitsIn tx_input_code-IsLawful layout.tx_input_size t.inputs
    pub outputs : FitsIn tx_output_code-IsLawful layout.tx_output_size t.outputs
    pub lock_time : t.lock_time < 256 ^ 4

  unhashed_tx_body : UnhashedTx → Bytes
  unhashed_tx_body t =
      ser (int_code 4) t.version
      ++ (ser (vec_code layout.tx_input_size tx_input_code) t.inputs
          ++ (ser (vec_code layout.tx_output_size tx_output_code) t.outputs
              ++ ser (uint_code 4) t.lock_time))

  pub unhashed_tx_code-IsLawful : IsLawful (unhashed_tx_code layout) IsUnhashedTx
  unfolding unhashed_tx_body
  unhashed_tx_code-IsLawful =
      lawful_by (unhashed_tx_code layout) IsUnhashedTx unhashed_tx_body
        (λ t bs.
          unfold unhashed_tx_ser_to in
          simp (
            u32.appends, outputs_code-IsLawful.appends, inputs_code-IsLawful.appends, i32.appends,
            append_assoc,
          ))
        (λ t rest h.
          unfold unhashed_tx_deser in
          simp (
            append_assoc,
            i32.reads t.version _ h.version,
            inputs_code-IsLawful.reads t.inputs _ h.inputs,
            outputs_code-IsLawful.reads t.outputs _ h.outputs,
            u32.reads t.lock_time rest h.lock_time,
          ))

  module _ (d : Digests) where
    -- A transaction with the hash and the bytes that belong to it.
    pub record IsTx (t : Tx) : Type 0 where
      pub body : IsUnhashedTx t.unhashed_tx
      pub is_hashed : t ≡ hashed d t.unhashed_tx

    -- A transaction in range is written behind what the buffer holds. It is read back with its hash
    -- and its bytes, and what follows it is left.
    pub tx_code-IsLawful : IsLawful (tx_code d layout) IsTx
    tx_code-IsLawful =
        lawful_by (tx_code d layout) IsTx (λ t. ser (unhashed_tx_code layout) t.unhashed_tx)
          (λ t bs. unfold tx_ser_to in unhashed_tx_code-IsLawful.appends t.unhashed_tx bs)
          (λ t rest h.
            unfold tx_deser in
            rw (unhashed_tx_code-IsLawful.reads t.unhashed_tx rest h.body)
              (ap (λ (u : Tx). ok (u, rest)) (sym h.is_hashed)))
