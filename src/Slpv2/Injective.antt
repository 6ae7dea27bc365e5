-- ===== src/Slpv2/Injective.antt =====
-- A section of bitcoinsuite-slpv2/src/build.rs shows what it was built from.
use bitcoinsuite.Base.{
  ℕ, ◌^◌, ◌<◌, ◌≡◌, sym, ap, ◌∙◌, List, [], ◌∷◌, ◌++◌, append_assoc, append-nil, arith, drop,
  get_or,
}
use bitcoinsuite.Bytes.{Bytes, IsArray, put_slice}
use bitcoinsuite.Slpv2.{
  TokenId, Amount, standard, GenesisInfo, MintData, slpv2_lokad_id, genesis_tag, mint_tag, send_tag,
  burn_tag, put_amount, put_amounts, genesis_section, mint_section, burn_section, send_section,
}
use bitcoinsuite.Slpv2.Encoding.{
  seq, array, field, amount, vector, mint_data, info, IsField, IsAmount, IsAmounts, amount_bytes,
  amounts_bytes,
}

-- What the builders of sections are called with, for the one token type.
pub data SectionCall : Type 0 where
  genesis_call : GenesisInfo → MintData → SectionCall
  mint_call : TokenId → MintData → SectionCall
  burn_call : TokenId → Amount → SectionCall
  send_call : TokenId → List Amount → SectionCall

unfoldable pub section_of : SectionCall → Bytes
unfolding genesis_section mint_section burn_section send_section
section_of (genesis_call i m) = genesis_section standard i m
section_of (mint_call id m) = mint_section id standard m
section_of (burn_call id a) = burn_section id standard a
section_of (send_call id amounts) = send_section id standard amounts

abbrev pub IsMintData : MintData → Type 0
IsMintData m = IsAmounts m.amounts × (m.num_batons < 2 ^ 8)

abbrev pub IsInfo : GenesisInfo → Type 0
IsInfo i =
    IsField i.token_ticker
    × (IsField i.token_name
        × (IsField i.url × (IsField i.data' × (IsField i.auth_pubkey × (i.decimals < 2 ^ 8)))))

-- Fields of less than 256 bytes, ids of 32 bytes, less than 256 amounts of 48 bits, and less than 256
-- batons.
abbrev pub IsCall : SectionCall → Type 0
IsCall (genesis_call i m) = IsInfo i × IsMintData m
IsCall (mint_call id m) = IsArray 32 id × IsMintData m
IsCall (burn_call id a) = IsArray 32 id × IsAmount a
IsCall (send_call id amounts) = IsArray 32 id × IsAmounts amounts

abbrev pub head_bytes : Bytes → Bytes
head_bytes tag = slpv2_lokad_id ++ (0 ∷ field.bytes tag)

-- What the builders write, piece by piece.
unfoldable pub call_bytes : SectionCall → Bytes
call_bytes (genesis_call i m) = head_bytes genesis_tag ++ (seq info mint_data).bytes (i, m)
call_bytes (mint_call id m) = head_bytes mint_tag ++ (seq (array 32) mint_data).bytes (id, m)
call_bytes (burn_call id a) = head_bytes burn_tag ++ (seq (array 32) amount).bytes (id, a)
call_bytes (send_call id amounts) =
    head_bytes send_tag ++ (seq (array 32) vector).bytes (id, amounts)

put_amounts-amounts_bytes :
    (section : Bytes) (amounts : List Amount)
    → put_amounts section amounts ≡ section ++ amounts_bytes amounts
unfolding put_amounts put_amount put_slice amounts_bytes
put_amounts-amounts_bytes section [] = sym (append-nil section)
put_amounts-amounts_bytes section (a ∷ amounts) =
    put_amounts-amounts_bytes (section ++ amount_bytes a) amounts
    ∙ append_assoc section (amount_bytes a) (amounts_bytes amounts)

pub section_of-call_bytes : (c : SectionCall) → section_of c ≡ call_bytes c
unfolding section_of call_bytes genesis_section mint_section burn_section send_section put_slice
    put_amount
section_of-call_bytes (genesis_call i m) = simp (put_amounts-amounts_bytes, append_assoc)
section_of-call_bytes (mint_call id m) = simp (put_amounts-amounts_bytes, append_assoc)
section_of-call_bytes (burn_call id a) = simp append_assoc
section_of-call_bytes (send_call id amounts) = simp (put_amounts-amounts_bytes, append_assoc)

-- The first letter of the tag.
abbrev letter_at : Bytes → ℕ
letter_at bs = get_or bs 6 0

call_bytes-unambiguous :
    (a b : SectionCall) (r s : Bytes)
    → IsCall a
    → IsCall b
    → call_bytes a ++ r ≡ call_bytes b ++ s
    → (a ≡ b) × (r ≡ s)
unfolding call_bytes
call_bytes-unambiguous (genesis_call i m) (genesis_call j n) r s h k e =
    let (same, end) =
      (seq info mint_data).unambiguous (i, m) (j, n) r s h k (ap (λ bs. drop 13 bs) e) in
    (ap (λ p. genesis_call p.0 p.1) same, end)
call_bytes-unambiguous (mint_call i m) (mint_call j n) r s h k e =
    let (same, end) =
      (seq (array 32) mint_data).unambiguous (i, m) (j, n) r s h k (ap (λ bs. drop 10 bs) e) in
    (ap (λ p. mint_call p.0 p.1) same, end)
call_bytes-unambiguous (burn_call i m) (burn_call j n) r s h k e =
    let (same, end) =
      (seq (array 32) amount).unambiguous (i, m) (j, n) r s h k (ap (λ bs. drop 10 bs) e) in
    (ap (λ p. burn_call p.0 p.1) same, end)
call_bytes-unambiguous (send_call i m) (send_call j n) r s h k e =
    let (same, end) =
      (seq (array 32) vector).unambiguous (i, m) (j, n) r s h k (ap (λ bs. drop 10 bs) e) in
    (ap (λ p. send_call p.0 p.1) same, end)
call_bytes-unambiguous a b r s h k e = absurd (omega (arith, ap letter_at e))

-- Of two byte strings that begin with sections, equal ones begin with the same section, built from the same
-- values, and go on with the same bytes. The values fit the bytes that they are given.
pub section_of-unambiguous :
    (a b : SectionCall) (r s : Bytes)
    → IsCall a
    → IsCall b
    → section_of a ++ r ≡ section_of b ++ s
    → (a ≡ b) × (r ≡ s)
section_of-unambiguous a b r s h k e = call_bytes-unambiguous a b r s h k (
    ap (λ bs. bs ++ r) (sym (section_of-call_bytes a))
    ∙ e
    ∙ ap (λ bs. bs ++ s) (section_of-call_bytes b))
