-- ===== src/Slp/SlpTx/RichTx/Views.antt =====
-- `RichTx::inputs` and `RichTx::outputs` against the lists that a transaction consists of.
use bitcoinsuite.Base.{
  ℕ, zero, suc, ◌<◌, ◌≡◌, refl, ap, ◌∙◌, List, [], ◌∷◌, Option, none, some, ok, >>=-ok, >>=-eq-ok,
  arith, length, get_elem?, length-map, replicate, map, ok_injective,
}
use bitcoinsuite.Slp.SlpTx.{input_tokens_of, output_tokens_of}
use bitcoinsuite.Slp.SlpTx.RichTx.{
  RichTx, RichTxInput, RichTxOutput, at, spent_coin_at, rich_input, rich_output, rich_inputs,
  rich_outputs,
}
use bitcoinsuite.Tx.{Coin}
use bitcoinsuite.Slp.SlpTx.RichTx.Collect.{
  at-some, at-get_elem?, get_elem?-replicate, collect-ok, collect-map, padded, length-padded,
  get_elem?-padded,
}

-- The coins that a transaction spends, one for each of `n` inputs, if they are known.
abbrev pub coins_of : ℕ → Option (List Coin) → List (Option Coin)
coins_of n none = replicate n none
coins_of n (some coins) = map some coins

-- As many burns, spent coins (if known) and spends as inputs and outputs.
abbrev pub Fits : RichTx → Type 0
Fits r =
    (length r.slp_burns ≡ length r.tx.unhashed_tx.inputs)
    × (length (coins_of (length r.tx.unhashed_tx.inputs) r.spent_coins)
        ≡ length r.tx.unhashed_tx.inputs)
    × (length r.spends ≡ length r.tx.unhashed_tx.outputs)

coin-ok :
    (coins : Option (List Coin)) (n i : ℕ)
    → i < n
    → length (coins_of n coins) ≡ n
    → (c : Option Coin) × (spent_coin_at coins i ≡ ok c)
unfolding spent_coin_at
coin-ok none n i h e = (none, refl)
coin-ok (some coins) n i h e =
    let (c, found) = at-some coins i (omega (arith, h, e, length-map coins some)) in
    (some c, >>=-ok _ found)

get_elem?-map :
    (coins : List Coin) (i : ℕ) (c : Coin)
    → get_elem? coins i ≡ some c
    → get_elem? (map some coins) i ≡ some (some c)
get_elem?-map [] i c h = cc
get_elem?-map (x ∷ coins) zero c h = ap some h
get_elem?-map (x ∷ coins) (suc i) c h = get_elem?-map coins i c h

coin-get_elem? :
    (coins : Option (List Coin)) (n i : ℕ) (c : Option Coin)
    → i < n
    → spent_coin_at coins i ≡ ok c
    → get_elem? (coins_of n coins) i ≡ some c
unfolding spent_coin_at
coin-get_elem? none n i c h e = get_elem?-replicate n i none h ∙ ap some (ok_injective e)
coin-get_elem? (some coins) n i c h e =
    let (x, found, last) = >>=-eq-ok (at coins i) _ e in
    get_elem?-map coins i x (at-get_elem? coins i x found) ∙ ap some (ok_injective last)

rich_input-ok :
    (r : RichTx)
    → Fits r
    → (i : ℕ) → i < length r.tx.unhashed_tx.inputs
    → (x : RichTxInput) × (rich_input r i ≡ ok x)
unfolding rich_input
rich_input-ok r (burns, coins, spends) i h =
    let (_, e1) = at-some r.tx.unhashed_tx.inputs i h in
    let (_, e2) = at-some r.slp_burns i (omega (arith, h, burns)) in
    let (_, e3) = coin-ok r.spent_coins (length r.tx.unhashed_tx.inputs) i h coins in
    (_, >>=-ok _ e1 ∙ >>=-ok _ e2 ∙ >>=-ok _ e3)

rich_output-ok :
    (r : RichTx)
    → Fits r
    → (i : ℕ) → i < length r.tx.unhashed_tx.outputs
    → (x : RichTxOutput) × (rich_output r i ≡ ok x)
unfolding rich_output
rich_output-ok r (burns, coins, spends) i h =
    let (_, e1) = at-some r.tx.unhashed_tx.outputs i h in
    let (_, e2) = at-some r.spends i (omega (arith, h, spends)) in (_, >>=-ok _ e1 ∙ >>=-ok _ e2)

-- What an item of the inputs is made of.
rich_input_lem :
    (r : RichTx) (i : ℕ) (x : RichTxInput)
    → i < length r.tx.unhashed_tx.inputs
    → rich_input r i ≡ ok x
    → (get_elem? r.tx.unhashed_tx.inputs i ≡ some x.tx_input)
      × (get_elem? r.slp_burns i ≡ some x.slp_burn)
      × (get_elem? (padded (length r.tx.unhashed_tx.inputs) (input_tokens_of r.slp_tx_data)) i
          ≡ some x.slp_token)
      × (get_elem? (coins_of (length r.tx.unhashed_tx.inputs) r.spent_coins) i ≡ some x.spent_coin)
unfolding rich_input
rich_input_lem r i x h e =
    let n = length r.tx.unhashed_tx.inputs in
    let (_, e1, k1) = >>=-eq-ok (at r.tx.unhashed_tx.inputs i) _ e in
    let (_, e2, k2) = >>=-eq-ok (at r.slp_burns i) _ k1 in
    let (_, e3, k3) = >>=-eq-ok (spent_coin_at r.spent_coins i) _ k2 in
    let same = ok_injective k3 in
    (
      at-get_elem? r.tx.unhashed_tx.inputs i _ e1 ∙ ap (λ y. some y.tx_input) same,
      at-get_elem? r.slp_burns i _ e2 ∙ ap (λ y. some y.slp_burn) same,
      get_elem?-padded n i (input_tokens_of r.slp_tx_data) h ∙ ap (λ y. some y.slp_token) same,
      coin-get_elem? r.spent_coins n i _ h e3 ∙ ap (λ y. some y.spent_coin) same,
    )

rich_output_lem :
    (r : RichTx) (i : ℕ) (x : RichTxOutput)
    → i < length r.tx.unhashed_tx.outputs
    → rich_output r i ≡ ok x
    → (get_elem? r.tx.unhashed_tx.outputs i ≡ some x.tx_output)
      × (get_elem? (padded (length r.tx.unhashed_tx.outputs) (output_tokens_of r.slp_tx_data)) i
          ≡ some x.slp_token)
      × (get_elem? r.spends i ≡ some x.spent_by)
unfolding rich_output
rich_output_lem r i x h e =
    let n = length r.tx.unhashed_tx.outputs in
    let (_, e1, k1) = >>=-eq-ok (at r.tx.unhashed_tx.outputs i) _ e in
    let (_, e2, k2) = >>=-eq-ok (at r.spends i) _ k1 in
    let same = ok_injective k2 in
    (
      at-get_elem? r.tx.unhashed_tx.outputs i _ e1 ∙ ap (λ y. some y.tx_output) same,
      get_elem?-padded n i (output_tokens_of r.slp_tx_data) h ∙ ap (λ y. some y.slp_token) same,
      at-get_elem? r.spends i _ e2 ∙ ap (λ y. some y.spent_by) same,
    )

-- The inputs are listed, each with its burn, its token, and its spent coin.
abbrev pub ListsInputs : RichTx → Type 0
ListsInputs r =
    let n = length r.tx.unhashed_tx.inputs in
    (xs : List RichTxInput) × (rich_inputs r ≡ ok xs)
    × (map (λ (x : RichTxInput). x.tx_input) xs ≡ r.tx.unhashed_tx.inputs)
    × (map (λ (x : RichTxInput). x.slp_burn) xs ≡ r.slp_burns)
    × (map (λ (x : RichTxInput). x.slp_token) xs ≡ padded n (input_tokens_of r.slp_tx_data))
    × (map (λ (x : RichTxInput). x.spent_coin) xs ≡ coins_of n r.spent_coins)

-- The outputs are listed, each with its token and what spends it.
abbrev pub ListsOutputs : RichTx → Type 0
ListsOutputs r =
    let n = length r.tx.unhashed_tx.outputs in
    (xs : List RichTxOutput) × (rich_outputs r ≡ ok xs)
    × (map (λ (x : RichTxOutput). x.tx_output) xs ≡ r.tx.unhashed_tx.outputs)
    × (map (λ (x : RichTxOutput). x.slp_token) xs ≡ padded n (output_tokens_of r.slp_tx_data))
    × (map (λ (x : RichTxOutput). x.spent_by) xs ≡ r.spends)

rich_inputs-ListsInputs : (r : RichTx) → Fits r → ListsInputs r
unfolding rich_inputs
rich_inputs-ListsInputs r (burns, coins, spends) =
    let n = length r.tx.unhashed_tx.inputs in
    let f = rich_input r in
    let tokens = length-padded n (input_tokens_of r.slp_tx_data) in
    let (xs, e) =
      collect-ok f n 0 (λ i h. rich_input-ok r (burns, coins, spends) i (omega (arith, h))) in
    (
      xs,
      e,
      collect-map f (λ x. x.tx_input) r.tx.unhashed_tx.inputs n 0 xs
          (λ i x h k. (rich_input_lem r i x h k).0) (omega arith) e,
      collect-map f (λ x. x.slp_burn) r.slp_burns n 0 xs
          (λ i x h k. (rich_input_lem r i x (omega (arith, h, burns)) k).1) (omega (arith, burns))
          e,
      collect-map f (λ x. x.slp_token) (padded n (input_tokens_of r.slp_tx_data)) n 0 xs
          (λ i x h k. (rich_input_lem r i x (omega (arith, h, tokens)) k).2) (omega (arith, tokens))
          e,
      collect-map f (λ x. x.spent_coin) (coins_of n r.spent_coins) n 0 xs
          (λ i x h k. (rich_input_lem r i x (omega (arith, h, coins)) k).3) (omega (arith, coins))
          e,
    )

rich_outputs-ListsOutputs : (r : RichTx) → Fits r → ListsOutputs r
unfolding rich_outputs
rich_outputs-ListsOutputs r (burns, coins, spends) =
    let n = length r.tx.unhashed_tx.outputs in
    let f = rich_output r in
    let tokens = length-padded n (output_tokens_of r.slp_tx_data) in
    let (xs, e) =
      collect-ok f n 0 (λ i h. rich_output-ok r (burns, coins, spends) i (omega (arith, h))) in
    (
      xs,
      e,
      collect-map f (λ x. x.tx_output) r.tx.unhashed_tx.outputs n 0 xs
          (λ i x h k. (rich_output_lem r i x h k).0) (omega arith) e,
      collect-map f (λ x. x.slp_token) (padded n (output_tokens_of r.slp_tx_data)) n 0 xs
          (λ i x h k. (rich_output_lem r i x (omega (arith, h, tokens)) k).1)
          (omega (arith, tokens)) e,
      collect-map f (λ x. x.spent_by) r.spends n 0 xs
          (λ i x h k. (rich_output_lem r i x (omega (arith, h, spends)) k).2)
          (omega (arith, spends)) e,
    )

-- With as many burns, spent coins (where they are known) and spends as inputs and outputs, no index of
-- `inputs` and `outputs` is out of range. They list each input with its burn, token and coin, and each
-- output with its token and what spends it, in order; missing tokens are empty, surplus ones are left out.
pub rich_inputs-Fits : (r : RichTx) → Fits r → ListsInputs r × ListsOutputs r
rich_inputs-Fits r h = (rich_inputs-ListsInputs r h, rich_outputs-ListsOutputs r h)
