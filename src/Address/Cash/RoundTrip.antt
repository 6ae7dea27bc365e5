-- ===== src/Address/Cash/RoundTrip.antt =====
-- A cash address is read back: bitcoinsuite-core/src/address/cashaddress.rs.
use bitcoinsuite.Base.{
  ℕ, ◌-◌, ◌^◌, ◌<◌, ◌≡◌, refl, sym, ap, ◌∙◌, List, [], ◌∷◌, ◌++◌, append_assoc, true, some, ok,
  >>=-ok, guard, arith, length, length-append, length-replicate, map, All-append, take, ge→ltb,
  ==_iff,
}
use bitcoinsuite.Bytes.{Bytes, IsBytes, IsArray}
use bitcoinsuite.Address.Base32.{
  map_from_b32, verify_checksum, invalid_checksum, calculate_checksum, convert_bits, unwrap,
}
use bitcoinsuite.Address.Cash.{
  AddressType, p2pkh_address, p2sh_address, type_byte, CashAddress, to_cash_addr, from_cash_addr,
  from_parts, from_split, split_colon, split_payload, from_hash, parse_cow, lower, type_of_byte,
}
use bitcoinsuite.Address.Cash.ConvertBits.{
  expand, expand-append, IsGroups, zeros, convert_bits-Regroups,
}
use bitcoinsuite.Address.Cash.Groups.{length-expand, take-expand}
use bitcoinsuite.Address.Cash.Checksum.{calculate_checksum-IsGroups, verify_checksum_iff}
use bitcoinsuite.Address.Cash.Letters.{
  IsPrefix, map_from-to_b32, map-lower-IsPrefix, split_colon-IsPrefix, map-append,
}

-- What `_to_cash_addr` makes of a version and a hash: the groups of 5 bits, with their checksum.
record Encoded (prefix : Bytes) (version : ℕ) (hash : Bytes) : Type 0 where
  payload : List ℕ
  converts : convert_bits (version ∷ hash) 8 5 true ≡ some payload
  valid : IsGroups 5 payload
  padding : ℕ
  few : padding < 5
  same_bits : expand 5 payload ≡ expand 8 (version ∷ hash) ++ zeros padding

encode :
    (prefix : Bytes) (version : ℕ) (hash : Bytes)
    → IsBytes (version ∷ hash)
    → Encoded prefix version hash
encode prefix version hash bytes =
    let (payload, converts, (valid, padding, few, same_bits)) =
      convert_bits-Regroups 8 5 (version ∷ hash) (omega arith) (omega arith) (omega arith)
        (omega arith) bytes in
    record {
      payload = payload;
      converts = converts;
      valid = valid;
      padding = padding;
      few = few;
      same_bits = same_bits;
    }

length-payload :
    (prefix : Bytes) (version : ℕ) (hash : Bytes) (e : Encoded prefix version hash)
    → IsArray 20 hash
    → length e.payload ≡ 34
length-payload prefix version hash e size =
    let count = ap (λ (bs : List ℕ). length bs) e.same_bits in
    omega (
      arith,
      count,
      e.few,
      length-expand 5 e.payload,
      length-append (expand 8 (version ∷ hash)) (zeros e.padding),
      length-expand 8 (version ∷ hash),
      length-replicate {A = ℕ} e.padding 0,
    )

-- The groups that are decoded are converted back to bytes that begin with the version and the hash.
decode :
    (prefix : Bytes) (version : ℕ) (hash checksum : List ℕ) (e : Encoded prefix version hash)
    → IsBytes (version ∷ hash)
    → IsArray 20 hash
    → IsGroups 5 checksum
    → length checksum ≡ 8
    → (converted : List ℕ) × (convert_bits (e.payload ++ checksum) 5 8 true ≡ some converted)
      × (length converted ≡ 27)
      × (take 21 converted ≡ version ∷ hash)
decode prefix version hash checksum e bytes size valid eight =
    let (converted, converts, (valid', padding, few, same_bits)) =
      convert_bits-Regroups 5 8 (e.payload ++ checksum) (omega arith) (omega arith) (omega arith)
        (omega arith) (All-append (λ v. v < 2 ^ 5) e.payload checksum e.valid valid) in
    let count = ap (λ (bs : List ℕ). length bs) same_bits in
    let long : length converted ≡ 27 = omega (
      arith,
      count,
      few,
      eight,
      length-payload prefix version hash e size,
      length-expand 8 converted,
      length-append (expand 5 (e.payload ++ checksum)) (zeros padding),
      length-expand 5 (e.payload ++ checksum),
      length-append e.payload checksum,
      length-replicate {A = ℕ} padding 0,
    ) in
    let x = expand 8 (version ∷ hash) in
    let tail = expand 5 checksum ++ zeros padding in
    let begins : expand 8 converted ≡ x ++ (zeros e.padding ++ tail) =
      same_bits
      ∙ ap (λ bs. bs ++ zeros padding) (expand-append 5 e.payload checksum)
      ∙ append_assoc (expand 5 e.payload) (expand 5 checksum) (zeros padding)
      ∙ ap (λ bs. bs ++ tail) e.same_bits
      ∙ append_assoc x (zeros e.padding) tail in
    let n : length (version ∷ hash) ≡ 21 = omega arith in
    (
      converted,
      converts,
      long,
      ap (λ k. take k converted) (sym n)
          ∙ take-expand 8 (version ∷ hash) converted (zeros e.padding ++ tail) (omega arith) bytes
              valid' begins,
    )

split_payload-take :
    (converted prefix : Bytes) (version : ℕ) (hash : Bytes) (addr_type : AddressType)
    → length converted ≡ 27
    → take 21 converted ≡ version ∷ hash
    → IsArray 20 hash
    → type_of_byte version ≡ ok addr_type
    → split_payload converted prefix ≡ ok (hash, addr_type, prefix)
unfolding split_payload
split_payload-take [] prefix version hash addr_type long same size h = absurd (omega arith)
split_payload-take (v ∷ converted) prefix version hash addr_type long same size h =
    let head : v ≡ version = cc in
    let tail : take 20 converted ≡ hash = cc in
    let count : length converted - 6 ≡ 20 = omega arith in
    let hash_eq = ap (λ k. take k converted) count ∙ tail in
    let low = ge→ltb (length converted) 6 (omega arith) in
    let sized = (==_iff (length hash) 20).1 size in rw (low, hash_eq, head, sized, h) refl

type_byte-lt : (t : AddressType) → type_byte t < 2 ^ 8
type_byte-lt p2pkh_address = omega arith
type_byte-lt p2sh_address = omega arith

type_of_byte-type_byte : (t : AddressType) → type_of_byte (type_byte t) ≡ ok t
unfolding type_of_byte
type_of_byte-type_byte p2pkh_address = refl
type_of_byte-type_byte p2sh_address = refl

-- What is left to do when the letters are groups that verify.
pub from_parts-verified :
    (prefix letters : Bytes) (values converted : List ℕ)
    → map_from_b32 0 letters ≡ ok values
    → verify_checksum prefix values ≡ true
    → convert_bits values 5 8 true ≡ some converted
    → from_parts prefix letters ≡ split_payload converted prefix
unfolding from_parts
from_parts-verified prefix letters values converted reads verified converts =
    >>=-ok _ reads
    ∙ >>=-ok _ (ap (λ b. guard b invalid_checksum) verified)
    ∙ >>=-ok _ (ap unwrap converts)

-- `_from_cash_addr` reads what `_to_cash_addr` writes.
from_to_cash_addr :
    (prefix : Bytes) (addr_type : AddressType) (hash : Bytes)
    → IsPrefix prefix
    → IsArray 20 hash
    → IsBytes hash
    → (text : Bytes) × (to_cash_addr prefix (type_byte addr_type) hash ≡ ok text)
      × (from_cash_addr text ≡ ok (hash, addr_type, prefix))
unfolding to_cash_addr from_cash_addr
from_to_cash_addr prefix addr_type hash plain size bytes =
    let version = type_byte addr_type in
    let all_bytes : IsBytes (version ∷ hash) = (type_byte-lt addr_type, bytes) in
    let e = encode prefix version hash all_bytes in
    let checksum = calculate_checksum prefix e.payload in
    let (valid, eight) = calculate_checksum-IsGroups prefix e.payload in
    let values = e.payload ++ checksum in
    let (letters, to, from, low) =
      map_from-to_b32 0 values (All-append (λ v. v < 2 ^ 5) e.payload checksum e.valid valid) in
    let (converted, converts, long, begins) =
      decode prefix version hash checksum e all_bytes size valid eight in
    let verified = (verify_checksum_iff prefix e.payload checksum e.valid eight valid).1 refl in
    let split =
      split_payload-take converted prefix version hash addr_type long begins size
        (type_of_byte-type_byte addr_type) in
    let same_text : map lower (prefix ++ 58 ∷ letters) ≡ prefix ++ 58 ∷ letters =
      map-append lower prefix (58 ∷ letters)
      ∙ ap (λ bs. bs ++ map lower (58 ∷ letters)) (map-lower-IsPrefix prefix plain)
      ∙ ap (λ bs. prefix ++ 58 ∷ bs) low in
    (
      prefix ++ 58 ∷ letters,
      >>=-ok _ (ap unwrap e.converts) ∙ >>=-ok _ to,
      ap (λ t. from_split (split_colon t)) same_text
          ∙ ap from_split (split_colon-IsPrefix prefix letters plain)
          ∙ from_parts-verified prefix letters values converted from verified converts
          ∙ split,
    )

-- An address that is made of a prefix, a type and a hash of 20 bytes is parsed as it was made. The prefix
-- has no colon and no capital letter.
pub parse_cow-from_hash :
    (prefix : Bytes) (addr_type : AddressType) (hash : Bytes)
    → IsPrefix prefix
    → IsArray 20 hash
    → IsBytes hash
    → (address : CashAddress) × (from_hash prefix addr_type hash ≡ ok address)
      × (parse_cow address.cash_addr ≡ ok address)
unfolding from_hash parse_cow
parse_cow-from_hash prefix addr_type hash plain size bytes =
    let (text, to, from) = from_to_cash_addr prefix addr_type hash plain size bytes in
    (
      record { addr_type = addr_type; hash = hash; cash_addr = text; prefix = prefix },
      >>=-ok _ to,
      >>=-ok _ from,
    )
