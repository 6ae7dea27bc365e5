-- ===== src/Tests/Addresses.antt =====
-- Addresses at concrete texts.
use bitcoinsuite.Base.{
  ◌≡◌, ◌↔◌, refl, List, [], ◌∷◌, ◌++◌, true, some, ok, panic, arith, replicate, ℕ,
}
use bitcoinsuite.Bytes.{Bytes}
use bitcoinsuite.Network.{regtest}
use bitcoinsuite.Script.{mk_script}
use bitcoinsuite.Address.Base32.{convert_bits, map_from_b32, verify_checksum, calculate_checksum}
use bitcoinsuite.Address.Cash.{
  p2pkh_address, CashAddress, to_cash_addr, from_hash, parse_cow, from_parts, lower,
}
use bitcoinsuite.Address.Cash.ConvertBits.{expand, Regroups, convert_bits-Regroups}
use bitcoinsuite.Address.Cash.Checksum.{verify_checksum_iff}
use bitcoinsuite.Address.Cash.Letters.{IsPrefix}
use bitcoinsuite.Address.Cash.RoundTrip.{parse_cow-from_hash}
use bitcoinsuite.Address.Cash.Short.{from_parts-Panics}
use bitcoinsuite.Address.Lotus.{Base58, new_lotus_address, parse_lotus_address, is_prefix_char}
use bitcoinsuite.Address.Lotus.RoundTrip.{IsLotusPrefix, parse-new_lotus_address}
use bitcoinsuite.Tests.Core.{flat_digests}

-- "bitcoincash"
abbrev bitcoincash : Bytes
bitcoincash = 98 ∷ 105 ∷ 116 ∷ 99 ∷ 111 ∷ 105 ∷ 110 ∷ 99 ∷ 97 ∷ 115 ∷ 104 ∷ []

-- "bitcoincash:qqqqqqqqqqqqqqqqqqqqqqqqqqqqqqqqqqfnhks603"
abbrev zero_address : Bytes
zero_address =
    bitcoincash
    ++ (58 ∷ 113 ∷ 113 ∷ 113 ∷ 113 ∷ 113 ∷ 113 ∷ 113 ∷ 113 ∷ 113 ∷ 113 ∷ 113 ∷ 113 ∷ 113 ∷ 113 ∷ 113
        ∷ 113 ∷ 113 ∷ 113 ∷ 113 ∷ 113 ∷ 113 ∷ 113 ∷ 113 ∷ 113 ∷ 113 ∷ 113 ∷ 113 ∷ 113 ∷ 113 ∷ 113
        ∷ 113 ∷ 113 ∷ 113 ∷ 113 ∷ 102 ∷ 110 ∷ 104 ∷ 107 ∷ 115 ∷ 54 ∷ 48 ∷ 51 ∷ [])

-- The test `test_from_hash1`.
zero_address_run : to_cash_addr bitcoincash 0 (replicate 20 0) ≡ ok zero_address
unfolding to_cash_addr
zero_address_run = refl

bitcoincash-IsPrefix : IsPrefix bitcoincash
unfolding lower
bitcoincash-IsPrefix = ground arith

parse_cow-from_hash_example :
    (address : CashAddress) × (from_hash bitcoincash p2pkh_address (replicate 20 0) ≡ ok address)
    × (parse_cow address.cash_addr ≡ ok address)
parse_cow-from_hash_example =
    parse_cow-from_hash bitcoincash p2pkh_address (replicate 20 0) bitcoincash-IsPrefix refl
      (omega arith)

convert_bits-Regroups_example :
    (ret : List ℕ) × (convert_bits (0x12 ∷ 0xff ∷ []) 8 5 true ≡ some ret)
    × Regroups 5 (expand 8 (0x12 ∷ 0xff ∷ [])) ret
convert_bits-Regroups_example =
    convert_bits-Regroups 8 5 (0x12 ∷ 0xff ∷ []) (omega arith) (omega arith) (omega arith)
      (omega arith) (omega arith)

-- "ecash"
abbrev ecash : Bytes
ecash = 101 ∷ 99 ∷ 97 ∷ 115 ∷ 104 ∷ []

abbrev bare_checksum : List ℕ
bare_checksum = 26 ∷ 28 ∷ 28 ∷ 19 ∷ 0 ∷ 8 ∷ 23 ∷ 24 ∷ []

verify_checksum_iff_example :
    (verify_checksum ecash ([] ++ bare_checksum) ≡ true)
    ↔ (bare_checksum ≡ calculate_checksum ecash [])
verify_checksum_iff_example = verify_checksum_iff ecash [] bare_checksum tt refl (omega arith)

-- "6uunqghc"
abbrev bare_letters : Bytes
bare_letters = 54 ∷ 117 ∷ 117 ∷ 110 ∷ 113 ∷ 103 ∷ 104 ∷ 99 ∷ []

bare_letters_run : map_from_b32 0 bare_letters ≡ ok bare_checksum
unfolding map_from_b32
bare_letters_run = refl

bare_checksum_run : verify_checksum ecash bare_checksum ≡ true
unfolding verify_checksum
bare_checksum_run = refl

-- The address "ecash:6uunqghc", which has no payload.
from_parts-Panics_example : from_parts ecash bare_letters ≡ panic
from_parts-Panics_example =
    from_parts-Panics ecash bare_letters bare_checksum bare_letters_run bare_checksum_run

abbrev plain58 : Base58
plain58 = record { Error = ℕ; encode = λ bs. bs; decode = λ bs. ok bs; decode-encode = λ bs. refl }

-- "lotus"
abbrev lotus : Bytes
lotus = 108 ∷ 111 ∷ 116 ∷ 117 ∷ 115 ∷ []

lotus-IsLotusPrefix : IsLotusPrefix lotus
unfolding is_prefix_char
lotus-IsLotusPrefix = (omega arith, (refl, (refl, (refl, (refl, (refl, tt))))))

parse-new_lotus_address_example :
    parse_lotus_address flat_digests plain58
      (new_lotus_address flat_digests plain58 lotus regtest (mk_script (0x6a ∷ []))).lotus_addr
    ≡ ok (new_lotus_address flat_digests plain58 lotus regtest (mk_script (0x6a ∷ [])))
parse-new_lotus_address_example =
    parse-new_lotus_address flat_digests plain58 lotus regtest (mk_script (0x6a ∷ []))
      lotus-IsLotusPrefix
