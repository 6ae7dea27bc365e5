-- ===== src/Slp/Validate/Children.antt =====
-- The branch GENESIS of `validate_slp_tx` for the child of an NFT group.
use bitcoinsuite.Base.{
  ◌≡◌, sym, ap, subst, ◌∙◌, List, [], ◌∷◌, ◌||◌, Bool, true, false, not, Option, none, some, ok,
  >>=-eq-ok, set, arith, Bool-cases, inl, inr,
}
use bitcoinsuite.Slp.Amount.{eq_amount, zero_amount}
use bitcoinsuite.Slp.Types.{
  genesis, SlpParseData, SlpSpentOutput, SlpValidTxData, SlpGenesisInfo, nft1_child, nft1_group,
  eq_token_type,
}
use bitcoinsuite.Slp.Validate.{
  find_group, burn_all, validate_genesis, validate_as, validate_slp_tx, finish,
}

-- An output that holds tokens of an NFT group.
abbrev pub IsGroup : SlpSpentOutput → Type 0
IsGroup s =
    (eq_token_type s.token_type nft1_group ≡ true) × (eq_amount s.token.amount zero_amount ≡ false)

both : (a b : Bool) → (not a || b) ≡ false → (a ≡ true) × (b ≡ false)
both a b h = ground arith

find_group-IsGroup :
    (spent : List (Option SlpSpentOutput)) (s : SlpSpentOutput)
    → find_group spent ≡ ok s
    → IsGroup s × ((rest : List (Option SlpSpentOutput)) × (spent ≡ some s ∷ rest))
unfolding find_group
find_group-IsGroup [] s h = cc
find_group-IsGroup (none ∷ spent) s h = cc
find_group-IsGroup (some x ∷ spent) s h =
    elim (Bool-cases
      (not (eq_token_type x.token_type nft1_group) || eq_amount x.token.amount zero_amount)) [
        | inl bad ↦ let h' = rw bad at h in cc
        | inr good ↦
            let h' = rw good at h in
            let e : x ≡ s = cc in
            let is_group : IsGroup x =
              both (eq_token_type x.token_type nft1_group) (eq_amount x.token.amount zero_amount)
                good in
            (subst IsGroup e is_group, (spent, ap (λ (y : SlpSpentOutput). some y ∷ spent) e))
      ]

-- The GENESIS of an NFT child is valid only when the first input holds tokens of a group, an amount
-- that is not zero; that input is then spent and not burnt, and its token id is recorded as the group.
pub validate_slp_tx-child :
    (p : SlpParseData) (info : SlpGenesisInfo) (spent : List (Option SlpSpentOutput))
    (d : SlpValidTxData)
    → p.slp_tx_type ≡ genesis info
    → p.slp_token_type ≡ nft1_child
    → validate_slp_tx p spent ≡ ok d
    → (s : SlpSpentOutput) × (rest : List (Option SlpSpentOutput)) × (spent ≡ some s ∷ rest)
      × IsGroup s
      × (d.slp_tx_data.input_tokens ≡ s.token ∷ (burn_all rest).input_tokens)
      × (d.slp_burns ≡ none ∷ (burn_all rest).slp_burns)
      × (d.slp_tx_data.group_token_id ≡ some s.token_id)
unfolding validate_slp_tx validate_as validate_genesis burn_all
validate_slp_tx-child p info spent d is_genesis is_child h =
    let h1 = ap (λ k. validate_as k p spent) (sym is_genesis) ∙ h in
    let child = ap (λ t. eq_token_type t nft1_child) is_child in
    let (s, found, done) = >>=-eq-ok (find_group spent) _ (rw child at h1) in
    let (is_group, (rest, first_input)) = find_group-IsGroup spent s found in
    let t = burn_all spent in
    let e : finish p (set t.input_tokens 0 s.token) (set t.slp_burns 0 none) (some s.token_id) ≡ d =
      cc in
    (
      s,
      rest,
      first_input,
      is_group,
      ap (λ (v : SlpValidTxData). v.slp_tx_data.input_tokens) (sym e)
          ∙ ap (λ sp. set (burn_all sp).input_tokens 0 s.token) first_input,
      ap (λ (v : SlpValidTxData). v.slp_burns) (sym e)
          ∙ ap (λ sp. set (burn_all sp).slp_burns 0 none) first_input,
      ap (λ (v : SlpValidTxData). v.slp_tx_data.group_token_id) (sym e),
    )
