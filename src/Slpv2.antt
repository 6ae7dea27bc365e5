-- ===== src/Slpv2.antt =====
-- bitcoinsuite-slpv2/src: token_id.rs, structs.rs and build.rs, the sections of the second token protocol
-- and the script that holds them.
pub mod Encoding
pub mod Injective
pub mod Sizes
pub mod OpReturn
use bitcoinsuite.Base.{
  ℕ, ◌+◌, ◌%◌, ◌^◌, List, [], ◌∷◌, ◌++◌, Option, none, some, Result, ok, err, panic, and_then,
  length, take,
}
use bitcoinsuite.Base.Int.{ℤ}
use bitcoinsuite.Bytes.{Bytes, put_slice}
use bitcoinsuite.Bytes.Endian.{to_le_bytes, to_pattern}
use bitcoinsuite.Op.{Op, code, push_bytes}
use bitcoinsuite.Script.{Script}
use bitcoinsuite.Script.Ops.{from_ops}

-- `TokenId`, the hash of a transaction.
abbrev pub TokenId : Type 0
TokenId = Bytes

-- `type Amount = i64`
abbrev pub Amount : Type 0
Amount = ℤ

-- b"SLP2"
abbrev pub slpv2_lokad_id : Bytes
slpv2_lokad_id = 0x53 ∷ 0x4c ∷ 0x50 ∷ 0x32 ∷ []

-- b"GENESIS", b"MINT", b"SEND" and b"BURN"
abbrev pub genesis_tag : Bytes
genesis_tag = 0x47 ∷ 0x45 ∷ 0x4e ∷ 0x45 ∷ 0x53 ∷ 0x49 ∷ 0x53 ∷ []

abbrev pub mint_tag : Bytes
mint_tag = 0x4d ∷ 0x49 ∷ 0x4e ∷ 0x54 ∷ []

abbrev pub send_tag : Bytes
send_tag = 0x53 ∷ 0x45 ∷ 0x4e ∷ 0x44 ∷ []

abbrev pub burn_tag : Bytes
burn_tag = 0x42 ∷ 0x55 ∷ 0x52 ∷ 0x4e ∷ []

pub data TokenType : Type 0 where
  standard : TokenType

-- `token_type as u8`
abbrev pub token_type_byte : TokenType → ℕ
token_type_byte standard = 0

pub record GenesisInfo : Type 0 where
  pub token_ticker : Bytes
  pub token_name : Bytes
  pub url : Bytes
  pub data' : Bytes
  pub auth_pubkey : Bytes
  pub decimals : ℕ

pub record MintData : Type 0 where
  pub amounts : List Amount
  pub num_batons : ℕ

-- `MintData::amounts_range` and `MintData::batons_range`: the first index and the one behind the last.
abbrev pub amounts_range : MintData → ℕ × ℕ
amounts_range m = (1, 1 + length m.amounts)

abbrev pub batons_range : MintData → ℕ × ℕ
batons_range m = let start = 1 + length m.amounts in (start, start + m.num_batons)

-- `section.put_slice(&[n as u8])`
abbrev pub put_byte : Bytes → ℕ → Bytes
put_byte section n = put_slice section (n % 2 ^ 8 ∷ [])

-- The length of a field as a byte, and the field.
abbrev pub put_field : Bytes → Bytes → Bytes
put_field section field = put_slice (put_byte section (length field)) field

unfoldable pub put_amount : Bytes → Amount → Bytes
put_amount section amount = put_slice section (take 6 (to_le_bytes 8 (to_pattern 8 amount)))

-- `for &amount in amounts { put_amount(section, amount); }`
unfoldable pub put_amounts : Bytes → List Amount → Bytes
unfolding put_amount
put_amounts section [] = section
put_amounts section (amount ∷ amounts) = put_amounts (put_amount section amount) amounts

unfoldable pub put_mint_data : Bytes → MintData → Bytes
unfolding put_amounts
put_mint_data section m =
    let section = put_byte section (length m.amounts) in
    let section = put_amounts section m.amounts in put_byte section m.num_batons

-- How each section begins.
abbrev pub put_head : TokenType → Bytes → Bytes
put_head token_type tag =
    let section = put_slice [] slpv2_lokad_id in
    let section = put_byte section (token_type_byte token_type) in put_field section tag

unfoldable pub genesis_section : TokenType → GenesisInfo → MintData → Bytes
unfolding put_mint_data
genesis_section token_type info mint_data =
    let section = put_head token_type genesis_tag in
    let section = put_field section info.token_ticker in
    let section = put_field section info.token_name in
    let section = put_field section info.url in
    let section = put_field section info.data' in
    let section = put_field section info.auth_pubkey in
    let section = put_slice section (info.decimals ∷ []) in put_mint_data section mint_data

unfoldable pub mint_section : TokenId → TokenType → MintData → Bytes
unfolding put_mint_data
mint_section token_id token_type mint_data =
    put_mint_data (put_slice (put_head token_type mint_tag) token_id) mint_data

unfoldable pub burn_section : TokenId → TokenType → Amount → Bytes
unfolding put_amount
burn_section token_id token_type amount =
    put_amount (put_slice (put_head token_type burn_tag) token_id) amount

unfoldable pub send_section : TokenId → TokenType → List Amount → Bytes
unfolding put_amounts
send_section token_id token_type send_amounts =
    let section = put_slice (put_head token_type send_tag) token_id in
    put_amounts (put_byte section (length send_amounts)) send_amounts

-- `sections.into_iter().map(Op::push_bytes)`; `none` is a panic.
unfoldable pub push_sections : List Bytes → Option (List Op)
unfolding push_bytes
push_sections [] = some []
push_sections (section ∷ sections) =
    and_then (push_bytes section) λ op. and_then (push_sections sections) λ ops. some (op ∷ ops)

-- `.unwrap()`
abbrev pub unwrap_script {ℓ} : {E : Type ℓ} → Result E Script → Option Script
unwrap_script (ok script) = some script
unwrap_script (err e) = none
unwrap_script panic = none

-- `sections_opreturn`; `none` is a panic.
unfoldable pub sections_opreturn : List Bytes → Option Script
unfolding push_sections from_ops
sections_opreturn sections =
    and_then (push_sections sections) λ ops. unwrap_script (from_ops (code 0x6a ∷ code 0x50 ∷ ops))
