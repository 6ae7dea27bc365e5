-- ===== src/Address/Cash/Short.antt =====
-- The panic of `_from_cash_addr` in bitcoinsuite-core/src/address/cashaddress.rs.
use bitcoinsuite.Base.{
  ℕ, ◌+◌, ◌-◌, ◌*◌, ◌≤◌, ◌≡◌, ◌≢◌, refl, sym, ap, ◌∙◌, List, [], ◌∷◌, Bool, true, false, ok, panic,
  guard, bind-ne-panic, arith, length, length-append, length-replicate, leb, lt→ltb, ge→ltb, leb→le,
  take, ◌==◌, Bool-cases, inl, inr,
}
use bitcoinsuite.Bytes.{Bytes}
use bitcoinsuite.Address.Base32.{
  CashAddressError, map_from_b32, verify_checksum, invalid_payload_length,
}
use bitcoinsuite.Address.Cash.{from_parts, split_payload, type_of_byte}
use bitcoinsuite.Address.Cash.ConvertBits.{expand, zeros, convert_bits-Regroups}
use bitcoinsuite.Address.Cash.Groups.{length-expand}
use bitcoinsuite.Address.Cash.Letters.{map_from_b32-IsGroups}
use bitcoinsuite.Address.Cash.RoundTrip.{from_parts-verified}

type_of_byte-ne-panic : (version : ℕ) → type_of_byte version ≢ panic
unfolding type_of_byte
type_of_byte-ne-panic version = elim (Bool-cases (version == 0)) [
  | inl p ↦ rw p (λ e. cc)
  | inr q ↦ elim (Bool-cases (version == 8)) [
    | inl p ↦ rw (q, p) (λ e. cc)
    | inr r ↦ rw (q, r) (λ e. cc)
  ]
]

guard-ne-panic : (b : Bool) (e : CashAddressError) → guard b e ≢ panic
guard-ne-panic true e h = cc
guard-ne-panic false e h = cc

split_payload-short :
    (converted prefix : Bytes) → length converted ≤ 6 → split_payload converted prefix ≡ panic
unfolding split_payload
split_payload-short [] prefix h = refl
split_payload-short (v ∷ converted) prefix h = rw (lt→ltb (length converted) 6 (omega arith)) refl

split_payload-long :
    (converted prefix : Bytes) → 7 ≤ length converted → split_payload converted prefix ≢ panic
unfolding split_payload
split_payload-long [] prefix h = absurd (omega arith)
split_payload-long (v ∷ converted) prefix h =
    let hash = take (length converted - 6) converted in
    rw (ge→ltb (length converted) 6 (omega arith)) (
      bind-ne-panic (guard (length hash == 20) (invalid_payload_length (length hash))) _
        (guard-ne-panic (length hash == 20) _)
        (λ _ _. bind-ne-panic (type_of_byte v) _ (type_of_byte-ne-panic v) (λ t _ e. cc)))

-- Whether the parser panics, by whether there are at most nine letters.
abbrev pub Panics : Bytes → Bytes → Bool → Type 0
Panics prefix letters true = from_parts prefix letters ≡ panic
Panics prefix letters false = from_parts prefix letters ≢ panic

-- When the letters behind a prefix stand for values that verify, parsing the address panics if there are
-- at most nine values, and otherwise it returns an address or an error.
pub from_parts-Panics :
    (prefix letters : Bytes) (values : List ℕ)
    → map_from_b32 0 letters ≡ ok values
    → verify_checksum prefix values ≡ true
    → Panics prefix letters (leb (length values) 9)
from_parts-Panics prefix letters values reads verified =
    let (converted, converts, (valid, padding, few, same_bits)) =
      convert_bits-Regroups 5 8 values (omega arith) (omega arith) (omega arith) (omega arith)
        (map_from_b32-IsGroups 0 letters values reads) in
    let whole = from_parts-verified prefix letters values converted reads verified converts in
    let count : 8 * length converted ≡ 5 * length values + padding = omega (
      arith,
      ap (λ (bs : List ℕ). length bs) same_bits,
      length-expand 8 converted,
      length-append (expand 5 values) (zeros padding),
      length-expand 5 values,
      length-replicate {A = ℕ} padding 0,
    ) in
    elim (Bool-cases (leb (length values) 9)) [
      | inl short ↦
          let h = leb→le (length values) 9 short in
          rw short (whole ∙ split_payload-short converted prefix (omega (arith, h, count, few)))
      | inr long ↦
          rw long
            (λ e. split_payload-long converted prefix (ground (arith, long, count)) (sym whole ∙ e))
    ]
