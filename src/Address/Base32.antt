-- ===== src/Address/Base32.antt =====
-- bitcoinsuite-core/src/address/cashaddress.rs: the 32 letters, groups of bits, and the checksum.
use Prim.Native.Nat.{bit_and, bit_or, bit_xor}
use bitcoinsuite.Base.{
  ℕ, zero, suc, ◌+◌, ◌-◌, ◌*◌, ◌/◌, ◌%◌, ◌^◌, List, [], ◌∷◌, ◌++◌, ◌||◌, Bool, not, Option, none,
  some, Result, ok, panic, ◌>>=◌, ok_or, and_then, leb, if◌then◌else◌, ◌==◌, get_elem?, map,
}
use bitcoinsuite.Bytes.{Bytes}

pub data CashAddressError : Type 0 where
  invalid_checksum : CashAddressError
  invalid_base32_letter : ℕ → ℕ → CashAddressError
  invalid_address_type : ℕ → CashAddressError
  missing_prefix : CashAddressError
  invalid_payload_length : ℕ → CashAddressError

-- b"qpzry9x8gf2tvdw0s3jn54khce6mua7l"
abbrev pub charset : Bytes
charset =
    113 ∷ 112 ∷ 122 ∷ 114 ∷ 121 ∷ 57 ∷ 120 ∷ 56 ∷ 103 ∷ 102 ∷ 50 ∷ 116 ∷ 118 ∷ 100 ∷ 119 ∷ 48 ∷ 115
    ∷ 51 ∷ 106 ∷ 110 ∷ 53 ∷ 52 ∷ 107 ∷ 104 ∷ 99 ∷ 101 ∷ 54 ∷ 109 ∷ 117 ∷ 97 ∷ 55 ∷ 108 ∷ []

-- `option.unwrap()`, and an index that is in range
abbrev pub unwrap {ℓ} : {A : Type ℓ} → Option A → Result CashAddressError A
unwrap none = panic
unwrap (some a) = ok a

-- `CHARSET[x as usize]`, which panics out of range.
unfoldable pub letter : ℕ → Result CashAddressError ℕ
letter x = unwrap (get_elem? charset x)

-- `_map_to_b32`
unfoldable pub map_to_b32 : List ℕ → Result CashAddressError Bytes
unfolding letter
map_to_b32 [] = ok []
map_to_b32 (x ∷ data') = letter x >>= λ c. map_to_b32 data' >>= λ letters. ok (c ∷ letters)

-- `CHARSET.iter().position(|c| x == c)`
unfoldable pub position : List ℕ → ℕ → Option ℕ
position [] x = none
position (c ∷ more) x =
    let rest = position more x in
    if x == c then some 0 else elim rest [ none ↦ none | some i ↦ some (suc i) ]

-- `_map_from_b32`, from the letter with index `i` on.
unfoldable pub map_from_b32 : ℕ → Bytes → Result CashAddressError (List ℕ)
unfolding position
map_from_b32 i [] = ok []
map_from_b32 i (x ∷ letters) = do
  value ← ok_or (position charset x) (invalid_base32_letter i x)
  values ← map_from_b32 (suc i) letters
  ok (value ∷ values)

-- `as u8`
abbrev pub as_u8 : ℕ → ℕ
as_u8 n = n % 2 ^ 8

-- `while bits >= to_bits`: what is pushed, and the bits that stay. A round takes `to_bits` of the bits.
unfoldable pub drain : ℕ → ℕ → ℕ → ℕ → List ℕ × ℕ
drain zero to_bits acc bits = ([], bits)
drain (suc fuel) to_bits acc bits =
    let (pushed, left) = drain fuel to_bits acc (bits - to_bits) in
    if leb to_bits bits
    then (as_u8 (acc / 2 ^ (bits - to_bits) % 2 ^ to_bits) ∷ pushed, left)
    else ([], bits)

-- What comes behind the loop; `1 << k` is `2 ^ k`, and a mask of `k` ones takes the remainder by it.
unfoldable pub finish_bits : ℕ → ℕ → Bool → ℕ → ℕ → Option (List ℕ)
finish_bits from_bits to_bits pad acc bits =
    let padding = acc * 2 ^ (to_bits - bits) % 2 ^ 32 % 2 ^ to_bits in
    if pad
    then some (if bits == 0 then [] else as_u8 padding ∷ [])
    else if leb from_bits bits || not (padding == 0)
    then none
    else some []

-- `((acc << from_bits) | value) & max_acc`, in 32 bits.
unfoldable pub push_value : ℕ → ℕ → ℕ → ℕ → ℕ
push_value from_bits to_bits acc value =
    bit_or (acc * 2 ^ from_bits % 2 ^ 32) value % 2 ^ (from_bits + to_bits - 1)

-- The loop of `_convert_bits`.
unfoldable pub convert_loop : ℕ → ℕ → Bool → ℕ → ℕ → List ℕ → Option (List ℕ)
unfolding drain finish_bits push_value
convert_loop from_bits to_bits pad acc bits [] = finish_bits from_bits to_bits pad acc bits
convert_loop from_bits to_bits pad acc bits (value ∷ data') =
    let acc' = push_value from_bits to_bits acc value in
    let (pushed, left) = drain (bits + from_bits) to_bits acc' (bits + from_bits) in
    let rest = convert_loop from_bits to_bits pad acc' left data' in
    if value / 2 ^ from_bits == 0 then and_then rest (λ ret. some (pushed ++ ret)) else none

-- `_convert_bits`
unfoldable pub convert_bits : List ℕ → ℕ → ℕ → Bool → Option (List ℕ)
unfolding convert_loop
convert_bits data' from_bits to_bits pad = convert_loop from_bits to_bits pad 0 0 data'

-- `if c0 & mask != 0 { c ^= generator }`
unfoldable pub mix : ℕ → ℕ → ℕ → ℕ → ℕ
mix c0 mask generator c = if bit_and c0 mask == 0 then c else bit_xor c generator

-- A round of `_poly_mod`, in 64 bits; `c & 0x07_ffff_ffff` is `c % 2 ^ 35`.
unfoldable pub poly_step : ℕ → ℕ → ℕ
unfolding mix
poly_step c value =
    let c0 = c / 2 ^ 35 % 2 ^ 8 in
    mix c0 0x10 0x1e_4f43_e470 (
      mix c0 0x08 0xae_2eab_e2a8 (
        mix c0 0x04 0xf3_3e5f_b3c4 (
          mix c0 0x02 0x79_b76d_99e2
            (mix c0 0x01 0x98_f2bc_8e61 (bit_xor (c % 2 ^ 35 * 2 ^ 5) value)))))

unfoldable pub poly_loop : ℕ → List ℕ → ℕ
unfolding poly_step
poly_loop c [] = c
poly_loop c (value ∷ values) = poly_loop (poly_step c value) values

unfoldable pub poly_mod : List ℕ → ℕ
unfolding poly_loop
poly_mod values = bit_xor (poly_loop 1 values) 1

-- `prefix.as_bytes().iter().map(|x| *x & 0x1f).chain([0])`
abbrev pub prefix_values : Bytes → List ℕ
prefix_values prefix = map (λ x. x % 2 ^ 5) prefix ++ (0 ∷ [])

abbrev pub eight_zeros : List ℕ
eight_zeros = 0 ∷ 0 ∷ 0 ∷ 0 ∷ 0 ∷ 0 ∷ 0 ∷ 0 ∷ []

-- `(poly >> (5 * (7 - i))) & 0x1f`, for the last `n` of the values of `i`.
unfoldable pub groups : ℕ → ℕ → List ℕ
groups zero poly = []
groups (suc n) poly = poly / 2 ^ (5 * n) % 2 ^ 5 ∷ groups n poly

unfoldable pub calculate_checksum : Bytes → List ℕ → List ℕ
unfolding poly_mod groups
calculate_checksum prefix payload =
    groups 8 (poly_mod (prefix_values prefix ++ payload ++ eight_zeros))

unfoldable pub verify_checksum : Bytes → List ℕ → Bool
unfolding poly_mod
verify_checksum prefix payload = poly_mod (prefix_values prefix ++ payload) == 0
