-- ===== src/Address/Lotus.antt =====
-- bitcoinsuite-core/src/address/lotusaddress.rs: addresses of Lotus, a prefix, a letter for the net, and in
-- base 58 a script with a checksum. The crate bs58 is the parameter `Base58`.
pub mod RoundTrip
use bitcoinsuite.Base.{
  ℕ, ◌+◌, ◌-◌, List, [], ◌∷◌, ◌++◌, ◌&&◌, ◌||◌, Bool, true, false, not, Option, none, some, Result,
  ok, err, ◌≡◌, ◌>>=◌, ◌>>◌, guard, ok_or, map_err, ltb, leb, if◌then◌else◌, ◌==◌, length,
  get_elem?, take, drop,
}
use bitcoinsuite.Bytes.{Bytes, eq_bytes}
use bitcoinsuite.Hash.{Digests}
use bitcoinsuite.Network.{Net, mainnet, regtest}
use bitcoinsuite.Script.{Script, mk_script}

-- `bs58::encode(data).into_string()` and `bs58::decode(text).into_vec()`; what is encoded is decoded
-- to what it was.
pub record Base58 : Type 1 where
  pub Error : Type 0
  pub encode : Bytes → Bytes
  pub decode : Bytes → Result Error Bytes
  pub decode-encode : (bs : Bytes) → decode (encode bs) ≡ ok bs

pub record LotusAddress : Type 0 where
  pub prefix : Bytes
  pub net : Net
  pub lotus_addr : Bytes
  pub script : Script

-- The two checksums of the last error are written in hexadecimal digits by the source.
pub data LotusAddressError (E : Type 0) : Type 0 where
  missing_prefix missing_checksum missing_net_char : LotusAddressError E
  unsupported_net : ℕ → LotusAddressError E
  invalid_base58 : E → LotusAddressError E
  missing_base58 missing_payload : LotusAddressError E
  invalid_payload_type : ℕ → LotusAddressError E
  invalid_checksum : Bytes → Bytes → LotusAddressError E

-- '_' and 'R'
abbrev pub net_char : Net → ℕ
net_char mainnet = 95
net_char regtest = 82

-- `LOTUS_ADDRESS_CHECKSUM_LEN`
abbrev pub lotus_address_checksum_len : ℕ
lotus_address_checksum_len = 4

-- `c.is_ascii_alphabetic() && c.is_lowercase() || c.is_ascii_digit()`
unfoldable pub is_prefix_char : ℕ → Bool
is_prefix_char c = (leb 97 c && leb c 122) || (leb 48 c && leb c 57)

-- `take_while`
unfoldable pub take_prefix : Bytes → Bytes
unfolding is_prefix_char
take_prefix [] = []
take_prefix (c ∷ text) = let rest = take_prefix text in if is_prefix_char c then c ∷ rest else []

-- `match net_char`
unfoldable pub net_of : {E : Type 0} → ℕ → Result (LotusAddressError E) Net
net_of c = if c == 95 then ok mainnet else if c == 82 then ok regtest else err (unsupported_net c)

-- `data.get(1..checksum_end_idx)`
abbrev pub get_payload : Bytes → ℕ → Option Bytes
get_payload data' end = if leb 1 end then some (take (end - 1) (drop 1 data')) else none

-- `data.len().checked_sub(LOTUS_ADDRESS_CHECKSUM_LEN)`
abbrev pub checksum_end : Bytes → Option ℕ
checksum_end data' =
    if leb lotus_address_checksum_len (length data')
    then some (length data' - lotus_address_checksum_len)
    else none

module _ (d : Digests) where
  -- `calc_checksum`
  unfoldable pub calc_checksum : Bytes → ℕ → ℕ → Bytes → Bytes
  calc_checksum prefix net_char payload_type payload =
      take lotus_address_checksum_len
        (d.sha256 (prefix ++ (net_char ∷ payload_type ∷ []) ++ payload))

  -- The bytes that `LotusAddress::new` encodes.
  unfoldable pub lotus_data : Bytes → Net → Script → Bytes
  unfolding calc_checksum
  lotus_data prefix net script =
      0 ∷ (script.bytecode ++ calc_checksum prefix (net_char net) 0 script.bytecode)

  module _ (base58 : Base58) where
    -- `LotusAddress::new`
    unfoldable pub new_lotus_address : Bytes → Net → Script → LotusAddress
    unfolding lotus_data
    new_lotus_address prefix net script = record {
      prefix = prefix;
      net = net;
      lotus_addr = prefix ++ (net_char net ∷ base58.encode (lotus_data prefix net script));
      script = script;
    }

    -- `from_str`, behind the decoding.
    unfoldable pub parse_data : Bytes → ℕ → Bytes → Result (LotusAddressError base58.Error) Script
    unfolding calc_checksum
    parse_data prefix net_char data' = do
      payload_type ← ok_or (get_elem? data' 0) missing_base58
      guard (payload_type == 0) (invalid_payload_type payload_type)
      checksum_end_idx ← ok_or (checksum_end data') missing_checksum
      payload ← ok_or (get_payload data' checksum_end_idx) missing_checksum
      guard (not (length payload == 0)) missing_payload
      let expected = drop (length data' - lotus_address_checksum_len) data' in
          let actual = calc_checksum prefix net_char payload_type payload in
          do
            guard (eq_bytes expected actual) (invalid_checksum expected actual)
            ok (mk_script payload)

    -- `from_str`, behind the prefix.
    unfoldable pub parse_behind :
        Bytes → Bytes → Result (LotusAddressError base58.Error) LotusAddress
    unfolding net_of parse_data
    parse_behind prefix text = do
      guard (not (length prefix == 0)) missing_prefix
      net_char ← ok_or (get_elem? text (length prefix)) missing_net_char
      net ← net_of net_char
      data' ← map_err invalid_base58 (base58.decode (drop (length prefix + 1) text))
      script ← parse_data prefix net_char data'
      ok (record { prefix = prefix; net = net; lotus_addr = text; script = script })

    -- `LotusAddress::from_str`
    unfoldable pub parse_lotus_address :
        Bytes → Result (LotusAddressError base58.Error) LotusAddress
    unfolding take_prefix parse_behind
    parse_lotus_address text = parse_behind (take_prefix text) text
