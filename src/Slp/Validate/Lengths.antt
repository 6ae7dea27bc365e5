-- ===== src/Slp/Validate/Lengths.antt =====
-- How many tokens and burns `validate_slp_tx` records, and the sum of a BURN.
use bitcoinsuite.Base.{
  ℕ, suc, ◌≡◌, refl, sym, ap, ◌∙◌, List, [], ◌∷◌, ◌&&◌, Bool, true, false, not, Option, none, some,
  Result, ok, >>=-eq-ok, guard, if◌then◌else◌, arith, All, ◌<◌, length, set, length-set, Bool-cases,
  inl, inr,
}
use bitcoinsuite.Base.Int.{pos}
use bitcoinsuite.Slp.Amount.{
  SlpAmount, zero_amount, add, sum, sum_loop, lt_amount, eq_amount, mk_amount,
}
use bitcoinsuite.Slp.Amount.Sums.{amount_bound, IsCount, total, sum_loop-total, eq_amount-mk_count}
use bitcoinsuite.Slp.Types.{
  TokenId, SlpTxType, genesis, send, mint, burn, unknown_tx, SlpToken, SlpBurn, SlpParseData,
  SlpSpentOutput, SlpError, SlpValidTxData, eq_token, eq_token_id, wrong_burn_token_id,
  wrong_burn_mint_baton, has_no_mint_baton, output_sum_exceed_input_sum, wrong_burn_invalid_amount,
  empty_token, nft1_child, eq_token_type,
}
use bitcoinsuite.Slp.Validate.{
  Tally, burn_all, find_group, mint_loop, send_loop, burn_loop, validate_genesis, validate_mint,
  validate_send, validate_burn, validate_as, validate_slp_tx, same_token, or_else, push_input,
  finish, token_amounts, no_inputs,
}

-- As many items in both lists of a tally as there are inputs.
abbrev Aligned : List (Option SlpSpentOutput) → Tally → Type 0
Aligned spent t = (length t.input_tokens ≡ length spent) × (length t.slp_burns ≡ length spent)

burn_all-Aligned : (spent : List (Option SlpSpentOutput)) → Aligned spent (burn_all spent)
unfolding burn_all
burn_all-Aligned [] = (refl, refl)
burn_all-Aligned (none ∷ spent) = let (a, b) = burn_all-Aligned spent in (ap suc a, ap suc b)
burn_all-Aligned (some s ∷ spent) = let (a, b) = burn_all-Aligned spent in (ap suc a, ap suc b)

mint_loop-Aligned :
    (p : SlpParseData) (found : Bool) (spent : List (Option SlpSpentOutput))
    → Aligned spent (mint_loop p found spent).0
unfolding mint_loop
mint_loop-Aligned p found [] = (refl, refl)
mint_loop-Aligned p found (none ∷ spent) =
    let (a, b) = mint_loop-Aligned p found spent in (ap suc a, ap suc b)
mint_loop-Aligned p found (some s ∷ spent) =
    elim (Bool-cases (same_token p s && s.token.is_mint_baton)) [
      | inl valid ↦ let (a, b) = mint_loop-Aligned p true spent in rw valid (ap suc a, ap suc b)
      | inr other ↦ let (a, b) = mint_loop-Aligned p found spent in rw other (ap suc a, ap suc b)
    ]

send_loop-Aligned :
    (p : SlpParseData) (out sum_in : SlpAmount) (group : Option TokenId)
    (spent : List (Option SlpSpentOutput))
    → Aligned spent (send_loop p out sum_in group spent).tally
unfolding send_loop
send_loop-Aligned p out sum_in group [] = (refl, refl)
send_loop-Aligned p out sum_in group (none ∷ spent) =
    let (a, b) = send_loop-Aligned p out sum_in group spent in (ap suc a, ap suc b)
send_loop-Aligned p out sum_in group (some s ∷ spent) =
    elim (Bool-cases (same_token p s && not s.token.is_mint_baton)) [
      | inl valid ↦
          let (a, b) =
            send_loop-Aligned p out (add sum_in s.token.amount) (or_else group s.group_token_id)
              spent in
          rw valid (ap suc a, ap suc b)
      | inr other ↦
          let (a, b) = send_loop-Aligned p out sum_in group spent in rw other (ap suc a, ap suc b)
    ]

-- The tokens that the inputs hold; an input without a token and an empty token hold none.
abbrev pub held : List (Option SlpSpentOutput) → List SlpToken
held [] = []
held (none ∷ spent) = held spent
held (some s ∷ spent) = if eq_token s.token empty_token then held spent else s.token ∷ held spent

-- The push of one round without a token.
abbrev push_burn : Option SlpBurn → Tally → Tally
push_burn b t = record { input_tokens = t.input_tokens; slp_burns = b ∷ t.slp_burns }

-- A run of the loop of BURN that ends well.
abbrev Burnt : List (Option SlpSpentOutput) → SlpAmount → Tally × SlpAmount → Type 0
Burnt spent actual r =
    (r.0.input_tokens ≡ held spent)
    × (length r.0.slp_burns ≡ length spent)
    × (r.1 ≡ sum_loop actual (token_amounts (held spent)))

pub burn_loop-Burnt :
    (p : SlpParseData) (actual : SlpAmount) (spent : List (Option SlpSpentOutput))
    (r : Tally × SlpAmount)
    → burn_loop p actual spent ≡ ok r
    → Burnt spent actual r
unfolding burn_loop sum_loop
burn_loop-Burnt p actual [] r h = let e : r ≡ (no_inputs, actual) = cc in rw e (refl, refl, refl)
burn_loop-Burnt p actual (none ∷ spent) r h =
    let (one, run, done) = >>=-eq-ok (burn_loop p actual spent) _ h in
    let (a, b, c) = burn_loop-Burnt p actual spent one run in
    let e : r ≡ (push_burn none one.0, one.1) = cc in rw e (a, ap suc b, c)
burn_loop-Burnt p actual (some s ∷ spent) r h = elim (Bool-cases (eq_token s.token empty_token)) [
  | inl skipped ↦
      let h' = rw skipped at h in
      let (one, run, done) = >>=-eq-ok (burn_loop p actual spent) _ h' in
      let (a, b, c) = burn_loop-Burnt p actual spent one run in
      let e : r ≡ (push_burn none one.0, one.1) = cc in rw (e, skipped) (a, ap suc b, c)
  | inr kept ↦
      let h' = rw kept at h in
      let (u, same, h'') =
        >>=-eq-ok (guard (eq_token_id s.token_id p.token_id) wrong_burn_token_id) _ h' in
      let (v, plain, h3) =
        >>=-eq-ok (guard (not s.token.is_mint_baton) wrong_burn_mint_baton) _ h'' in
      let (one, run, done) = >>=-eq-ok (burn_loop p (add actual s.token.amount) spent) _ h3 in
      let (a, b, c) = burn_loop-Burnt p (add actual s.token.amount) spent one run in
      let e : r ≡ (push_input s.token none one.0, one.1) = cc in
      rw (e, kept) (ap (λ (ts : List SlpToken). s.token ∷ ts) a, ap suc b, c)
]

-- How many tokens a valid transaction records for its inputs.
abbrev pub recorded : SlpTxType → List (Option SlpSpentOutput) → ℕ
recorded (burn quantity) spent = length (held spent)
recorded tx_type spent = length spent

pub guard_lem : (b : Bool) (e : SlpError) {u : Unit {0}} → guard b e ≡ ok u → b ≡ true
guard_lem true e h = refl
guard_lem false e h = cc

abbrev Sized : ℕ → List (Option SlpSpentOutput) → SlpValidTxData → Type 0
Sized n spent d = (length d.slp_burns ≡ length spent) × (length d.slp_tx_data.input_tokens ≡ n)

abbrev all_burnt : SlpParseData → List (Option SlpSpentOutput) → Result SlpError SlpValidTxData
all_burnt p spent = ok (finish p (burn_all spent).input_tokens (burn_all spent).slp_burns none)

all_burnt-Sized :
    (p : SlpParseData) (spent : List (Option SlpSpentOutput)) (d : SlpValidTxData)
    → all_burnt p spent ≡ ok d
    → Sized (length spent) spent d
all_burnt-Sized p spent d h =
    let e : d ≡ finish p (burn_all spent).input_tokens (burn_all spent).slp_burns none = cc in
    let (a, b) = burn_all-Aligned spent in rw e (b, a)

genesis-Sized :
    (p : SlpParseData) (spent : List (Option SlpSpentOutput)) (d : SlpValidTxData)
    → validate_genesis p spent ≡ ok d
    → Sized (length spent) spent d
unfolding validate_genesis
genesis-Sized p spent d h = elim (Bool-cases (eq_token_type p.slp_token_type nft1_child)) [
  | inl child ↦
      let (s, found, done) = >>=-eq-ok (find_group spent) _ (rw child at h) in
      let t = burn_all spent in
      let e : d
          ≡ finish p (set t.input_tokens 0 s.token) (set t.slp_burns 0 none) (some s.token_id) =
        cc in
      let (a, b) = burn_all-Aligned spent in
      rw e (length-set t.slp_burns 0 none ∙ b, length-set t.input_tokens 0 s.token ∙ a)
  | inr other ↦ all_burnt-Sized p spent d (rw other at h)
]

mint-Sized :
    (p : SlpParseData) (spent : List (Option SlpSpentOutput)) (d : SlpValidTxData)
    → validate_mint p spent ≡ ok d
    → Sized (length spent) spent d
unfolding validate_mint
mint-Sized p spent d h =
    let r = mint_loop p false spent in
    let (u, found, done) = >>=-eq-ok (guard r.1 has_no_mint_baton) _ h in
    let e : d ≡ finish p r.0.input_tokens r.0.slp_burns none = cc in
    let (a, b) = mint_loop-Aligned p false spent in rw e (b, a)

send-Sized :
    (p : SlpParseData) (spent : List (Option SlpSpentOutput)) (d : SlpValidTxData)
    → validate_send p spent ≡ ok d
    → Sized (length spent) spent d
unfolding validate_send
send-Sized p spent d h =
    let out = sum (token_amounts p.output_tokens) in
    let r = send_loop p out zero_amount none spent in
    let (u, covered, done) =
      >>=-eq-ok
        (guard (not (lt_amount r.input_sum out)) (output_sum_exceed_input_sum out r.input_sum)) _
        h in
    let e : d ≡ finish p r.tally.input_tokens r.tally.slp_burns r.group_token_id = cc in
    let (a, b) = send_loop-Aligned p out zero_amount none spent in rw e (b, a)

-- What a BURN that is valid has checked of the sum.
pub burn_lem :
    (p : SlpParseData) (quantity : ℕ) (spent : List (Option SlpSpentOutput)) (d : SlpValidTxData)
    → validate_burn p quantity spent ≡ ok d
    → (d.slp_tx_data.input_tokens ≡ held spent)
      × (length d.slp_burns ≡ length spent)
      × (eq_amount (mk_amount (pos quantity)) (sum_loop zero_amount (token_amounts (held spent)))
          ≡ true)
unfolding validate_burn
burn_lem p quantity spent d h =
    let (r, run, h') = >>=-eq-ok (burn_loop p zero_amount spent) _ h in
    let expected = mk_amount (pos quantity) in
    let (u, equal, done) =
      >>=-eq-ok (guard (eq_amount expected r.1) (wrong_burn_invalid_amount expected r.1)) _ h' in
    let e : d ≡ finish p r.0.input_tokens r.0.slp_burns none = cc in
    let (a, b, c) = burn_loop-Burnt p zero_amount spent r run in
    rw e (a, b, ap (eq_amount expected) (sym c) ∙ guard_lem (eq_amount expected r.1) _ equal)

by_type :
    (k : SlpTxType) (p : SlpParseData) (spent : List (Option SlpSpentOutput)) (d : SlpValidTxData)
    → validate_as k p spent ≡ ok d
    → Sized (recorded k spent) spent d
unfolding validate_as
by_type (genesis info) p spent d h = genesis-Sized p spent d h
by_type mint p spent d h = mint-Sized p spent d h
by_type send p spent d h = send-Sized p spent d h
by_type unknown_tx p spent d h = all_burnt-Sized p spent d h
by_type (burn quantity) p spent d h =
    let (a, b, c) = burn_lem p quantity spent d h in (b, ap length a)

-- A valid transaction has one entry for burns for each input. It has one token for each input, but a
-- BURN has only one for each input that holds a token.
pub validate_slp_tx-length :
    (p : SlpParseData) (spent : List (Option SlpSpentOutput)) (d : SlpValidTxData)
    → validate_slp_tx p spent ≡ ok d
    → (length d.slp_burns ≡ length spent)
      × (length d.slp_tx_data.input_tokens ≡ recorded p.slp_tx_type spent)
unfolding validate_slp_tx
validate_slp_tx-length p spent d h = by_type p.slp_tx_type p spent d h

-- A BURN that is valid, on inputs whose amounts are counts that fit an i128 together, spends the
-- tokens that the inputs hold, and their total is the quantity that the transaction announces.
pub validate_slp_tx-burns :
    (p : SlpParseData) (quantity : ℕ) (spent : List (Option SlpSpentOutput)) (d : SlpValidTxData)
    → p.slp_tx_type ≡ burn quantity
    → All IsCount (token_amounts (held spent))
    → total (token_amounts (held spent)) < amount_bound
    → validate_slp_tx p spent ≡ ok d
    → (d.slp_tx_data.input_tokens ≡ held spent) × (total (token_amounts (held spent)) ≡ quantity)
unfolding validate_slp_tx validate_as
validate_slp_tx-burns p quantity spent d is_burn counted fits h =
    let as_burn : validate_burn p quantity spent ≡ ok d =
      ap (λ k. validate_as k p spent) (sym is_burn) ∙ h in
    let (a, b, c) = burn_lem p quantity spent d as_burn in
    let same = rw (sum_loop-total 0 (token_amounts (held spent)) counted (omega arith)) at c in
    (a, eq_amount-mk_count quantity (total (token_amounts (held spent))) same)
