-- ===== src/SigHashType/Flags.antt =====
-- `SigHashType::to_u32` and `SigHashType::from_u32` of bitcoinsuite-core/src/sighashtype.rs.
use Prim.Native.Nat.{bit_and, bit_or}
use bitcoinsuite.Base.{
  ℕ, zero, suc, ◌*◌, ◌/◌, ◌^◌, ◌<◌, ◌≡◌, ◌↔◌, refl, subst, Bool, true, false, Option, none, some,
  arith, if◌then◌else◌, ◌==◌, Bool-cases, inl, inr,
}
use bitcoinsuite.SigHashType.{
  SigHashTypeInputs, fixed, anyone_can_pay, SigHashTypeOutputs, all, nothing, single,
  SigHashTypeVariant, legacy, bip143, SigHashType,
}

unfoldable pub inputs_to_u32 : SigHashTypeInputs → ℕ
inputs_to_u32 fixed = 0x00
inputs_to_u32 anyone_can_pay = 0x80

unfoldable pub outputs_to_u32 : SigHashTypeOutputs → ℕ
outputs_to_u32 all = 1
outputs_to_u32 nothing = 2
outputs_to_u32 single = 3

unfoldable pub variant_to_u32 : SigHashTypeVariant → ℕ
variant_to_u32 legacy = 0x00
variant_to_u32 bip143 = 0x40

unfoldable pub to_u32 : SigHashType → ℕ
unfolding inputs_to_u32 outputs_to_u32 variant_to_u32
to_u32 t =
    bit_or (bit_or (inputs_to_u32 t.input_type) (outputs_to_u32 t.output_type))
      (variant_to_u32 t.variant)

-- The three matches of `from_u32`; `none` is the `return None` of each. The arms that the source
-- marks `unreachable!()` are those behind the last test.
unfoldable pub variant_of : ℕ → Option SigHashTypeVariant
variant_of bits = if bits == 0 then some legacy else if bits == 0x40 then some bip143 else none

unfoldable pub input_type_of : ℕ → SigHashTypeInputs
input_type_of bits = if bits == 0 then fixed else anyone_can_pay

unfoldable pub output_type_of : ℕ → Option SigHashTypeOutputs
output_type_of bits =
    if bits == 0
    then none
    else if bits == 1
    then some all
    else if bits == 2
    then some nothing
    else some single

unfoldable pub assemble :
    Option SigHashTypeVariant → SigHashTypeInputs → Option SigHashTypeOutputs → Option SigHashType
assemble none i o = none
assemble (some v) i none = none
assemble (some v) i (some o) = some (record { variant = v; input_type = i; output_type = o })

-- `flags & 0xffff_ff00` is `flags / 2 ^ 8 * 2 ^ 8` for a u32.
unfoldable pub from_u32 : ℕ → Option SigHashType
unfolding variant_of input_type_of output_type_of assemble
from_u32 flags =
    if flags / 2 ^ 8 * 2 ^ 8 == 0
    then assemble (variant_of (bit_and flags 0x7c)) (input_type_of (bit_and flags 0x80))
        (output_type_of (bit_and flags 0x03))
    else none

-- Every type is read back from its flags.
from_u32-to_u32 : (t : SigHashType) → from_u32 (to_u32 t) ≡ some t
unfolding from_u32 to_u32
from_u32-to_u32 t = go t.variant t.input_type t.output_type
  where
    go :
        (v : SigHashTypeVariant) (i : SigHashTypeInputs) (o : SigHashTypeOutputs)
        → from_u32 (to_u32 (record { variant = v; input_type = i; output_type = o }))
          ≡ some (record { variant = v; input_type = i; output_type = o })
    go legacy fixed all = refl
    go legacy fixed nothing = refl
    go legacy fixed single = refl
    go legacy anyone_can_pay all = refl
    go legacy anyone_can_pay nothing = refl
    go legacy anyone_can_pay single = refl
    go bip143 fixed all = refl
    go bip143 fixed nothing = refl
    go bip143 fixed single = refl
    go bip143 anyone_can_pay all = refl
    go bip143 anyone_can_pay nothing = refl
    go bip143 anyone_can_pay single = refl

-- Whether the type that the flags give has those flags.
agrees : ℕ → Bool
agrees flags = elim (from_u32 flags) [ none ↦ true | some t ↦ to_u32 t == flags ]

-- The flags below a bound all agree.
checked : ℕ → Bool
checked zero = true
checked (suc bound) = if agrees bound then checked bound else false

checked-agrees : (flags bound : ℕ) → flags < bound → checked bound ≡ true → agrees flags ≡ true
unfolding checked
checked-agrees flags zero below h = absurd (omega arith)
checked-agrees flags (suc bound) below h = ground (arith, checked-agrees flags bound)

one_byte : checked 256 ≡ true
unfolding checked agrees from_u32 to_u32
one_byte = refl

from_u32-small : (flags : ℕ) (t : SigHashType) → from_u32 flags ≡ some t → flags < 256
unfolding from_u32
from_u32-small flags t e = elim (Bool-cases (flags / 2 ^ 8 * 2 ^ 8 == 0)) [
  | inl low ↦ ground (arith, low)
  | inr high ↦ ground (arith, high)
]

to_u32-from_u32 : (flags : ℕ) (t : SigHashType) → from_u32 flags ≡ some t → to_u32 t ≡ flags
unfolding agrees
to_u32-from_u32 flags t e =
    ground (arith, checked-agrees flags 256 (from_u32-small flags t e) one_byte)

-- Flags are read as a type exactly when they are the flags of that type.
pub from_u32-eq-some :
    (flags : ℕ) (t : SigHashType) → (from_u32 flags ≡ some t) ↔ (to_u32 t ≡ flags)
from_u32-eq-some flags t =
    (to_u32-from_u32 flags t, λ e. subst (λ n. from_u32 n ≡ some t) e (from_u32-to_u32 t))
