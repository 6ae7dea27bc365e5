-- ===== src/Slp/Validate/Mints.antt =====
-- The branch MINT of `validate_slp_tx`.
use bitcoinsuite.Base.{
  ◌≡◌, ◌↔◌, refl, sym, ap, ◌∙◌, List, [], ◌∷◌, ◌&&◌, ◌||◌, Bool, true, false, Option, none, some,
  ok, >>=-eq-ok, guard, arith, Bool-cases, inl, inr,
}
use bitcoinsuite.Slp.Types.{mint, SlpParseData, SlpSpentOutput, SlpValidTxData, has_no_mint_baton}
use bitcoinsuite.Slp.Validate.Lengths.{guard_lem}
use bitcoinsuite.Slp.Validate.{
  mint_loop, validate_mint, validate_as, validate_slp_tx, same_token, finish,
}

-- An input holds a mint baton of the token.
abbrev pub has_baton : SlpParseData → List (Option SlpSpentOutput) → Bool
has_baton p [] = false
has_baton p (none ∷ spent) = has_baton p spent
has_baton p (some s ∷ spent) = (same_token p s && s.token.is_mint_baton) || has_baton p spent

mint_loop-has_baton :
    (p : SlpParseData) (found : Bool) (spent : List (Option SlpSpentOutput))
    → (mint_loop p found spent).1 ≡ (found || has_baton p spent)
unfolding mint_loop
mint_loop-has_baton p found [] = ground arith
mint_loop-has_baton p found (none ∷ spent) = mint_loop-has_baton p found spent
mint_loop-has_baton p found (some s ∷ spent) =
    elim (Bool-cases (same_token p s && s.token.is_mint_baton)) [
      | inl valid ↦ rw (valid, mint_loop-has_baton p true spent) (ground arith)
      | inr other ↦ rw (other, mint_loop-has_baton p found spent) refl
    ]

-- A MINT transaction is valid exactly when an input holds a mint baton of its token.
pub validate_slp_tx-mints :
    (p : SlpParseData) (spent : List (Option SlpSpentOutput))
    → p.slp_tx_type ≡ mint
    → ((d : SlpValidTxData) × (validate_slp_tx p spent ≡ ok d)) ↔ (has_baton p spent ≡ true)
unfolding validate_slp_tx validate_as validate_mint
validate_slp_tx-mints p spent is_mint =
    let r = mint_loop p false spent in
    let flag = mint_loop-has_baton p false spent in
    let as_mint = ap (λ k. validate_as k p spent) is_mint in
    (
      λ v.
          let (u, found, done) = >>=-eq-ok (guard r.1 has_no_mint_baton) _ (sym as_mint ∙ v.1) in
          sym flag ∙ guard_lem r.1 has_no_mint_baton found,
      λ baton. (finish p r.0.input_tokens r.0.slp_burns none, as_mint ∙ rw (flag, baton) refl),
    )
