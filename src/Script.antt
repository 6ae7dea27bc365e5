-- ===== src/Script.antt =====
-- bitcoinsuite-core/src/script.rs: scripts, the standard scripts, and the operations in a script.
-- A public key is an array of 33 bytes and a `ShaRmd160` one of 20. The hexadecimal text of a script
-- and its assembly text (`Display`) are not modelled.
pub mod Ops
pub mod Parse
pub mod Slices
pub mod Codesep
pub mod Variants
use bitcoinsuite.Base.{
  ℕ, zero, suc, ◌+◌, ◌%◌, ◌^◌, List, [], ◌∷◌, ◌++◌, Bool, true, false, ◌&&◌, Option, none, some,
  Result, ok, err, panic, ◌>>=◌, map_err, ltb, leb, if◌then◌else◌, ◌==◌, length, take, drop,
}
use bitcoinsuite.Errors.{BytesError, BitcoinSuiteError, codesep_not_found, from_bytes_error}
use bitcoinsuite.Bytes.{Bytes, put_slice}
use bitcoinsuite.Encoding.{first}
use bitcoinsuite.Code.{BitcoinCode, bytes_ser_to, bytes_deser}
use bitcoinsuite.Opcode.{
  op_return, op_pushdata1, op_checksig, op_dup, op_hash160, op_equalverify, op_equal,
  op_checkmultisig, op_scripttype, op_1, op_codeseparator,
}
use bitcoinsuite.Op.{Op, code, push, deser_op, ser_op}

pub record Script : Type 0 where
  pub bytecode : Bytes

-- `PUBKEY_LENGTH` of src/ecc/pubkey.rs
abbrev pub pubkey_length : ℕ
pubkey_length = 33

pub data ScriptVariant : Type 0 where
  p2pk_variant : Bytes → ScriptVariant
  p2pk_legacy_variant : Bytes → ScriptVariant
  p2pkh_variant : Bytes → ScriptVariant
  p2sh_variant : Bytes → ScriptVariant
  p2tr_variant : Bytes → Option Bytes → ScriptVariant
  other_variant : Script → ScriptVariant

abbrev pub mk_script : Bytes → Script
mk_script bs = record { bytecode = bs }

unfoldable pub script_ser_to : Script → Bytes → Bytes
script_ser_to s bs = bytes_ser_to s.bytecode bs

unfoldable pub script_deser : Bytes → Result BitcoinSuiteError (Script × Bytes)
script_deser bs = do (bytecode, bs) ← bytes_deser bs; ok (mk_script bytecode, bs)

abbrev pub script_code : BitcoinCode Script
script_code = record { ser_to = script_ser_to; deser = script_deser }

-- One round of the loop of `opreturn`.
unfoldable pub opreturn_item : Bytes → Bytes → Bytes
unfolding put_slice
opreturn_item bs item =
    if length item == 0
    then put_slice bs (op_pushdata1 ∷ 0 ∷ [])
    else if ltb (length item) op_pushdata1
    then put_slice (put_slice bs ((length item % 2 ^ 8) ∷ [])) item
    else put_slice (put_slice (put_slice bs (op_pushdata1 ∷ [])) ((length item % 2 ^ 8) ∷ [])) item

unfoldable pub opreturn_loop : Bytes → List Bytes → Bytes
unfolding opreturn_item
opreturn_loop bs [] = bs
opreturn_loop bs (item ∷ items) = opreturn_loop (opreturn_item bs item) items

unfoldable pub opreturn : List Bytes → Script
unfolding opreturn_loop put_slice
opreturn items = mk_script (opreturn_loop (put_slice [] (op_return ∷ [])) items)

unfoldable pub p2pk : Bytes → Script
unfolding put_slice
p2pk pubkey = mk_script (put_slice (put_slice (put_slice [] (0x21 ∷ [])) pubkey) (op_checksig ∷ []))

unfoldable pub p2pk_legacy : Bytes → Script
unfolding put_slice
p2pk_legacy pubkey =
    mk_script (put_slice (put_slice (put_slice [] (0x41 ∷ [])) pubkey) (op_checksig ∷ []))

unfoldable pub p2pkh : Bytes → Script
unfolding put_slice
p2pkh hash = mk_script (
    put_slice (put_slice (put_slice [] (op_dup ∷ op_hash160 ∷ 0x14 ∷ [])) hash)
      (op_equalverify ∷ op_checksig ∷ []))

unfoldable pub p2pkh_spend : Bytes → Bytes → Script
unfolding put_slice
p2pkh_spend pubkey sig =
    let bs = put_slice (put_slice [] ((length sig % 2 ^ 8) ∷ [])) sig in
    mk_script (put_slice (put_slice bs ((pubkey_length % 2 ^ 8) ∷ [])) pubkey)

unfoldable pub p2sh : Bytes → Script
unfolding put_slice
p2sh hash =
    mk_script (put_slice (put_slice (put_slice [] (op_hash160 ∷ 0x14 ∷ [])) hash) (op_equal ∷ []))

-- The loop over the keys, with the number of keys so far.
unfoldable pub multisig_keys : Bytes → ℕ → List Bytes → Bytes × ℕ
unfolding put_slice
multisig_keys bs num_keys [] = (bs, num_keys)
multisig_keys bs num_keys (key ∷ keys) =
    multisig_keys (put_slice (put_slice bs ((length key % 2 ^ 8) ∷ [])) key) (num_keys + 1) keys

-- `none` is the panic of a failed `assert!`.
unfoldable pub multisig : ℕ → List Bytes → Option Script
unfolding multisig_keys put_slice
multisig num_signers public_keys =
    let (bs, num_keys) = multisig_keys (put_slice [] ((0x50 + num_signers) ∷ [])) 0 public_keys in
    if num_signers == 0
    then none
    else if ltb 16 num_signers
    then none
    else if num_keys == 0
    then none
    else if ltb 16 num_keys
    then none
    else some (mk_script (put_slice bs ((0x50 + num_keys % 2 ^ 8) ∷ op_checkmultisig ∷ [])))

unfoldable pub p2tr_state : Bytes → Option Bytes → Bytes
unfolding put_slice
p2tr_state bs none = bs
p2tr_state bs (some state) = put_slice (put_slice bs (0x20 ∷ [])) state

unfoldable pub p2tr : Bytes → Option Bytes → Script
unfolding p2tr_state put_slice
p2tr commitment state =
    mk_script
      (p2tr_state (put_slice (put_slice [] (op_scripttype ∷ op_1 ∷ 0x21 ∷ [])) commitment) state)

unfoldable pub is_opreturn : Script → Bool
is_opreturn s = elim s.bytecode [ [] ↦ false | opcode ∷ _ ↦ opcode == op_return ]
