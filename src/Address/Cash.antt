-- ===== src/Address/Cash.antt =====
-- bitcoinsuite-core/src/address/mod.rs and cashaddress.rs: cash addresses, a prefix and 5-bit groups in
-- 32 letters, the last eight of which are a checksum.
pub mod ConvertBits
pub mod PolyMod
pub mod Checksum
pub mod Letters
pub mod Groups
pub mod RoundTrip
pub mod Short
use Prim.Native.Nat.{bit_and, bit_or, bit_xor}
use bitcoinsuite.Base.{
  ℕ, zero, suc, ◌+◌, ◌-◌, ◌*◌, ◌/◌, ◌%◌, ◌^◌, List, [], ◌∷◌, ◌++◌, ◌&&◌, ◌||◌, Bool, true, false,
  not, Option, none, some, Result, ok, err, panic, ◌>>=◌, ◌>>◌, guard, ok_or, and_then, ltb, leb,
  if◌then◌else◌, ◌==◌, length, get_elem?, take, drop, map,
}
use bitcoinsuite.Bytes.{Bytes}
use bitcoinsuite.Hash.{Digests, sha_rmd160}
use bitcoinsuite.Address.Base32.{
  CashAddressError, charset, unwrap, letter, map_to_b32, position, map_from_b32, drain, finish_bits,
  push_value, convert_loop, convert_bits, mix, poly_step, poly_loop, poly_mod, prefix_values,
  eight_zeros, groups, calculate_checksum, verify_checksum, invalid_checksum, invalid_base32_letter,
  invalid_address_type, missing_prefix, invalid_payload_length,
}
use bitcoinsuite.Script.{Script, p2pkh, p2sh}

pub data AddressType : Type 0 where
  p2pkh_address p2sh_address : AddressType

-- `addr_type as u8`
abbrev pub type_byte : AddressType → ℕ
type_byte p2pkh_address = 0
type_byte p2sh_address = 8

pub record CashAddress : Type 0 where
  pub addr_type : AddressType
  pub hash : Bytes
  pub cash_addr : Bytes
  pub prefix : Bytes

-- `_to_cash_addr`
unfoldable pub to_cash_addr : Bytes → ℕ → Bytes → Result CashAddressError Bytes
unfolding convert_bits calculate_checksum map_to_b32
to_cash_addr prefix version addr_bytes = do
  payload ← unwrap (convert_bits (version ∷ addr_bytes) 8 5 true)
  letters ← map_to_b32 (payload ++ calculate_checksum prefix payload)
  ok (prefix ++ 58 ∷ letters)

-- `u8::to_ascii_lowercase`
unfoldable pub lower : ℕ → ℕ
lower c = if leb 65 c && leb c 90 then c + 32 else c

-- What stands before the first ':' and what follows it.
unfoldable pub split_colon : Bytes → Option (Bytes × Bytes)
split_colon [] = none
split_colon (c ∷ text) =
    let rest = split_colon text in
    if c == 58
    then some ([], text)
    else and_then rest (λ (parts : Bytes × Bytes). some (c ∷ parts.0, parts.1))

-- `match converted[0]`
unfoldable pub type_of_byte : ℕ → Result CashAddressError AddressType
type_of_byte version =
    if version == 0
    then ok p2pkh_address
    else if version == 8
    then ok p2sh_address
    else err (invalid_address_type version)

-- What is taken from `converted`; the range `1..converted.len() - 6` panics if it ends before it starts.
unfoldable pub split_payload :
    List ℕ → Bytes → Result CashAddressError (Bytes × AddressType × Bytes)
unfolding type_of_byte
split_payload [] prefix = panic
split_payload (version ∷ converted) prefix =
    let hash = take (length converted - 6) converted in
    if ltb (length converted) 6 then panic else (do
      guard (length hash == 20) (invalid_payload_length (length hash))
      addr_type ← type_of_byte version
      ok (hash, addr_type, prefix))

-- `_from_cash_addr`, behind the search for the colon.
unfoldable pub from_parts : Bytes → Bytes → Result CashAddressError (Bytes × AddressType × Bytes)
unfolding map_from_b32 verify_checksum convert_bits split_payload
from_parts prefix payload_base32 = do
  decoded ← map_from_b32 0 payload_base32
  guard (verify_checksum prefix decoded) invalid_checksum
  converted ← unwrap (convert_bits decoded 5 8 true)
  split_payload converted prefix

-- `match addr_string.find(':')`
abbrev pub from_split :
    Option (Bytes × Bytes) → Result CashAddressError (Bytes × AddressType × Bytes)
from_split none = err missing_prefix
from_split (some parts) = from_parts parts.0 parts.1

unfoldable pub from_cash_addr : Bytes → Result CashAddressError (Bytes × AddressType × Bytes)
unfolding lower split_colon from_parts
from_cash_addr addr_string = from_split (split_colon (map lower addr_string))

-- `CashAddress::from_hash`
unfoldable pub from_hash : Bytes → AddressType → Bytes → Result CashAddressError CashAddress
unfolding to_cash_addr
from_hash prefix addr_type hash = do
  cash_addr ← to_cash_addr prefix (type_byte addr_type) hash
  ok (record { addr_type = addr_type; hash = hash; cash_addr = cash_addr; prefix = prefix })

-- `CashAddress::parse_cow`
unfoldable pub parse_cow : Bytes → Result CashAddressError CashAddress
unfolding from_cash_addr
parse_cow cash_addr = do
  (hash, addr_type, prefix) ← from_cash_addr cash_addr
  ok (record { addr_type = addr_type; hash = hash; cash_addr = cash_addr; prefix = prefix })

-- `CashAddress::from_redeem_script`
unfoldable pub from_redeem_script : Digests → Bytes → Script → Result CashAddressError CashAddress
unfolding from_hash
from_redeem_script d prefix redeem_script =
    from_hash prefix p2sh_address (sha_rmd160 d redeem_script.bytecode)

-- `CashAddress::with_prefix`
unfoldable pub with_prefix : CashAddress → Bytes → Result CashAddressError CashAddress
unfolding from_hash
with_prefix address prefix = from_hash prefix address.addr_type address.hash

-- `CashAddress::to_script`
unfoldable pub address_to_script : CashAddress → Script
unfolding p2pkh p2sh
address_to_script address = elim address.addr_type [
  | p2pkh_address ↦ p2pkh address.hash
  | p2sh_address ↦ p2sh address.hash
]
