-- ===== src/Script/Parse.antt =====
-- Slice patterns, and `Script::is_p2sh` and `Script::parse_variant` of bitcoinsuite-core/src/script.rs.
use mathlib.Core.List.{reverse}
use bitcoinsuite.Base.{
  ℕ, [], ◌∷◌, Bool, true, false, Option, none, some, leb, if◌then◌else◌, ◌==◌, length, take, drop,
}
use bitcoinsuite.Bytes.{Bytes}
use bitcoinsuite.Opcode.{
  op_checksig, op_dup, op_hash160, op_equalverify, op_equal, op_scripttype, op_1,
}
use bitcoinsuite.Script.{
  Script, ScriptVariant, p2pk_variant, p2pk_legacy_variant, p2pkh_variant, p2sh_variant,
  p2tr_variant, other_variant, pubkey_length,
}

-- The middle of a slice that matches `[p₁, …, pₙ, middle @ .., s₁, …, sₘ]`.
unfoldable pub strip_prefix : Bytes → Bytes → Option Bytes
strip_prefix [] slice = some slice
strip_prefix (p ∷ ps) [] = none
strip_prefix (p ∷ ps) (b ∷ bs) = elim (p == b) [ true ↦ strip_prefix ps bs | false ↦ none ]

unfoldable pub strip_suffix : Bytes → Bytes → Option Bytes
unfolding strip_prefix
strip_suffix suffix slice = elim (strip_prefix (reverse suffix) (reverse slice)) [
  | none ↦ none
  | some r ↦ some (reverse r)
]

unfoldable pub middle : Bytes → Bytes → Bytes → Option Bytes
unfolding strip_suffix
middle prefix suffix slice = elim (strip_prefix prefix slice) [
  | none ↦ none
  | some r ↦ strip_suffix suffix r
]

-- The guard `if middle.len() == n`.
unfoldable pub of_length : ℕ → Option Bytes → Option Bytes
of_length n none = none
of_length n (some bs) = if length bs == n then some bs else none

unfoldable pub is_p2sh : Script → Bool
unfolding of_length middle
is_p2sh s = elim (of_length 20 (middle (op_hash160 ∷ 0x14 ∷ []) (op_equal ∷ []) s.bytecode)) [
  | none ↦ false
  | some _ ↦ true
]

-- The arm for the state behind the commitment of a P2TR script.
unfoldable pub p2tr_rest : Script → Bytes → Bytes → ScriptVariant
unfolding of_length strip_prefix
p2tr_rest s commitment [] = p2tr_variant commitment none
p2tr_rest s commitment (b ∷ bs) = elim (of_length 32 (strip_prefix (0x20 ∷ []) (b ∷ bs))) [
  | none ↦ other_variant s
  | some state ↦ p2tr_variant commitment (some state)
]

unfoldable pub p2tr_arm : Script → ScriptVariant
unfolding p2tr_rest strip_prefix
p2tr_arm s = elim (strip_prefix (op_scripttype ∷ op_1 ∷ 0x21 ∷ []) s.bytecode) [
  | none ↦ other_variant s
  | some rest ↦
      if leb pubkey_length (length rest)
      then p2tr_rest s (take pubkey_length rest) (drop pubkey_length rest)
      else other_variant s
]

-- The arms of the `match` of `parse_variant`, from the second on, then the whole.
unfoldable pub p2sh_arm : Script → ScriptVariant
unfolding p2tr_arm of_length middle
p2sh_arm s = elim (of_length 20 (middle (op_hash160 ∷ 0x14 ∷ []) (op_equal ∷ []) s.bytecode)) [
  | some hash ↦ p2sh_variant hash
  | none ↦ p2tr_arm s
]

unfoldable pub p2pkh_arm : Script → ScriptVariant
unfolding p2sh_arm of_length middle
p2pkh_arm s =
    elim (of_length 20
      (middle (op_dup ∷ op_hash160 ∷ 0x14 ∷ []) (op_equalverify ∷ op_checksig ∷ []) s.bytecode)) [
        | some hash ↦ p2pkh_variant hash
        | none ↦ p2sh_arm s
      ]

unfoldable pub p2pk_legacy_arm : Script → ScriptVariant
unfolding p2pkh_arm of_length middle
p2pk_legacy_arm s = elim (of_length 65 (middle (0x41 ∷ []) (op_checksig ∷ []) s.bytecode)) [
  | some pubkey ↦ p2pk_legacy_variant pubkey
  | none ↦ p2pkh_arm s
]

unfoldable pub parse_variant : Script → ScriptVariant
unfolding p2pk_legacy_arm of_length middle
parse_variant s =
    elim (of_length pubkey_length (middle (0x21 ∷ []) (op_checksig ∷ []) s.bytecode)) [
      | some pubkey ↦ p2pk_variant pubkey
      | none ↦ p2pk_legacy_arm s
    ]
