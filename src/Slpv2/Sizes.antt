-- ===== src/Slpv2/Sizes.antt =====
-- How long the sections of bitcoinsuite-slpv2/src/build.rs are.
use bitcoinsuite.Base.{
  ℕ, ◌+◌, ◌*◌, ◌%◌, ◌^◌, ◌≤◌, ◌≡◌, ap, ◌∙◌, List, [], ◌∷◌, arith, length, length-append,
}
use bitcoinsuite.Bytes.{Bytes}
use bitcoinsuite.Slpv2.{Amount, GenesisInfo, MintData}
use bitcoinsuite.Slpv2.Encoding.{amounts_bytes, amount_bytes, length-amount_bytes, mint_data, info}
use bitcoinsuite.Slpv2.Injective.{
  SectionCall, genesis_call, mint_call, burn_call, send_call, section_of, call_bytes, IsCall,
  section_of-call_bytes,
}

-- The sizes of the parts of a section.
abbrev pub mint_data_size : MintData → ℕ
mint_data_size m = 2 + 6 * length m.amounts

abbrev pub info_size : GenesisInfo → ℕ
info_size i =
    6
    + length i.token_ticker
    + length i.token_name
    + length i.url
    + length i.data'
    + length i.auth_pubkey

abbrev pub section_size : SectionCall → ℕ
section_size (genesis_call i m) = 13 + info_size i + mint_data_size m
section_size (mint_call id m) = 10 + length id + mint_data_size m
section_size (burn_call id a) = 10 + length id + 6
section_size (send_call id amounts) = 10 + length id + 1 + 6 * length amounts

length-amounts_bytes : (amounts : List Amount) → length (amounts_bytes amounts) ≡ 6 * length amounts
unfolding amounts_bytes
length-amounts_bytes [] = omega arith
length-amounts_bytes (a ∷ amounts) = omega (
  arith,
  length-append (amount_bytes a) (amounts_bytes amounts),
  length-amount_bytes a,
  length-amounts_bytes amounts,
)

length-mint_data : (m : MintData) → length (mint_data.bytes m) ≡ mint_data_size m
length-mint_data m = omega (
  arith,
  length-append (amounts_bytes m.amounts) (m.num_batons % 2 ^ 8 ∷ []),
  length-amounts_bytes m.amounts,
)

length-info : (i : GenesisInfo) → length (info.bytes i) ≡ info_size i
length-info i = simp length-append (omega arith)

length-call_bytes : (c : SectionCall) → length (call_bytes c) ≡ section_size c
unfolding call_bytes
length-call_bytes (genesis_call i m) =
    omega
      (arith, length-append (info.bytes i) (mint_data.bytes m), length-info i, length-mint_data m)
length-call_bytes (mint_call id m) =
    omega (arith, length-append id (mint_data.bytes m), length-mint_data m)
length-call_bytes (burn_call id a) =
    omega (arith, length-append id (amount_bytes a), length-amount_bytes a)
length-call_bytes (send_call id amounts) = simp (length-append, length-amounts_bytes) (omega arith)

size-bound : (c : SectionCall) → IsCall c → (16 ≤ section_size c) × (section_size c ≤ 2826)
size-bound (genesis_call i m) h = omega (arith, h)
size-bound (mint_call id m) h = omega (arith, h)
size-bound (burn_call id a) h = omega (arith, h)
size-bound (send_call id amounts) h = omega (arith, h)

-- A section has the size that its kind, its fields and its amounts say, at least 16 bytes and at most 2826.
pub length-section_of :
    (c : SectionCall)
    → IsCall c
    → (length (section_of c) ≡ section_size c)
      × (16 ≤ length (section_of c))
      × (length (section_of c) ≤ 2826)
length-section_of c h =
    let e = ap (λ (bs : Bytes). length bs) (section_of-call_bytes c) ∙ length-call_bytes c in
    let (low, high) = size-bound c h in (e, omega (arith, e, low), omega (arith, e, high))
