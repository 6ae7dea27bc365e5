-- ===== src/Slp/SlpTx/Validated.antt =====
-- `SlpTx::new` on what `validate_slp_tx` returns.
use bitcoinsuite.Base.{
  ◌≡◌, refl, ap, ◌∙◌, List, [], ◌∷◌, ◌&&◌, Bool, true, false, not, Option, none, some, ok, panic,
  arith, ◌<◌, ◌≤◌, length, map, Bool-cases, inl, inr,
}
use bitcoinsuite.Tx.{TxInput, UnhashedTx}
use bitcoinsuite.Slp.Types.{
  SlpTxType, genesis, send, mint, burn, unknown_tx, SlpToken, SlpParseData, SlpSpentOutput,
  SlpValidTxData, eq_token, empty_token,
}
use bitcoinsuite.Slp.Validate.{validate_slp_tx}
use bitcoinsuite.Slp.Validate.Lengths.{held, recorded, validate_slp_tx-length}
use bitcoinsuite.Slp.SlpTx.{SlpTx, SlpTxInput, new_slp_tx, zip_inputs, slp_tx_inputs, slp_tx_of}

-- Whether every input holds a token.
abbrev pub all_held : List (Option SlpSpentOutput) → Bool
all_held [] = true
all_held (none ∷ spent) = false
all_held (some s ∷ spent) = not (eq_token s.token empty_token) && all_held spent

-- Whether each input of a valid transaction has a token recorded.
abbrev pub covers : SlpTxType → List (Option SlpSpentOutput) → Bool
covers (burn quantity) spent = all_held spent
covers tx_type spent = true

length-held : (spent : List (Option SlpSpentOutput)) → length (held spent) ≤ length spent
length-held [] = omega arith
length-held (none ∷ spent) = omega (arith, length-held spent)
length-held (some s ∷ spent) = ground (arith, length-held spent)

held-all :
    (spent : List (Option SlpSpentOutput))
    → all_held spent ≡ true
    → length (held spent) ≡ length spent
held-all [] h = refl
held-all (none ∷ spent) h = cc
held-all (some s ∷ spent) h = ground (arith, held-all spent)

held-some :
    (spent : List (Option SlpSpentOutput))
    → all_held spent ≡ false
    → length (held spent) < length spent
held-some [] h = cc
held-some (none ∷ spent) h = omega (arith, length-held spent)
held-some (some s ∷ spent) h = ground (arith, held-some spent, length-held spent)

covers-recorded :
    (k : SlpTxType) (spent : List (Option SlpSpentOutput))
    → covers k spent ≡ true
    → recorded k spent ≡ length spent
covers-recorded (burn quantity) spent h = held-all spent h
covers-recorded (genesis info) spent h = refl
covers-recorded send spent h = refl
covers-recorded mint spent h = refl
covers-recorded unknown_tx spent h = refl

covers-short :
    (k : SlpTxType) (spent : List (Option SlpSpentOutput))
    → covers k spent ≡ false
    → recorded k spent < length spent
covers-short (burn quantity) spent h = held-some spent h
covers-short (genesis info) spent h = cc
covers-short send spent h = cc
covers-short mint spent h = cc
covers-short unknown_tx spent h = cc

zip_inputs-same :
    (inputs : List TxInput) (tokens : List SlpToken)
    → length tokens ≡ length inputs
    → (map (λ (i : SlpTxInput). i.input) (zip_inputs inputs tokens) ≡ inputs)
      × (map (λ (i : SlpTxInput). i.token) (zip_inputs inputs tokens) ≡ tokens)
unfolding zip_inputs
zip_inputs-same [] [] h = (refl, refl)
zip_inputs-same [] (t ∷ tokens) h = absurd (omega arith)
zip_inputs-same (i ∷ inputs) [] h = absurd (omega arith)
zip_inputs-same (i ∷ inputs) (t ∷ tokens) h =
    let (a, b) = zip_inputs-same inputs tokens (omega arith) in
    (ap (λ (is : List TxInput). i ∷ is) a, ap (λ (ts : List SlpToken). t ∷ ts) b)

-- The transaction is built, and lists each of its inputs with the token that is recorded for it.
abbrev pub IsBuilt : UnhashedTx → SlpValidTxData → Type 0
IsBuilt tx d =
    (t : SlpTx) × (new_slp_tx tx (some d.slp_tx_data) d.slp_burns ≡ ok t)
    × (map (λ (i : SlpTxInput). i.input) (slp_tx_inputs t) ≡ tx.inputs)
    × (map (λ (i : SlpTxInput). i.token) (slp_tx_inputs t) ≡ d.slp_tx_data.input_tokens)

-- What `SlpTx::new` makes of valid data, by whether they cover the inputs.
abbrev pub Outcome : UnhashedTx → SlpValidTxData → Bool → Type 0
Outcome tx d true = IsBuilt tx d
Outcome tx d false = new_slp_tx tx (some d.slp_tx_data) d.slp_burns ≡ panic

new_slp_tx-IsBuilt :
    (tx : UnhashedTx) (d : SlpValidTxData)
    → length d.slp_tx_data.input_tokens ≡ length tx.inputs
    → IsBuilt tx d
unfolding new_slp_tx slp_tx_inputs
new_slp_tx-IsBuilt tx d h =
    let (inputs, tokens) = zip_inputs-same tx.inputs d.slp_tx_data.input_tokens h in
    (slp_tx_of tx (some d.slp_tx_data) d.slp_burns, ground (arith, h), inputs, tokens)

new_slp_tx-panics :
    (tx : UnhashedTx) (d : SlpValidTxData)
    → length d.slp_tx_data.input_tokens < length tx.inputs
    → new_slp_tx tx (some d.slp_tx_data) d.slp_burns ≡ panic
unfolding new_slp_tx
new_slp_tx-panics tx d h = ground (arith, h)

-- For a transaction that is valid, with one spent output for each input, `SlpTx::new` lists each
-- input with the token that is recorded for it, unless the transaction is a BURN with an input that
-- holds no token: then it panics.
pub new_slp_tx-validate_slp_tx :
    (tx : UnhashedTx) (p : SlpParseData) (spent : List (Option SlpSpentOutput)) (d : SlpValidTxData)
    → length spent ≡ length tx.inputs
    → validate_slp_tx p spent ≡ ok d
    → Outcome tx d (covers p.slp_tx_type spent)
new_slp_tx-validate_slp_tx tx p spent d same valid =
    let (_, sized) = validate_slp_tx-length p spent d valid in
    elim (Bool-cases (covers p.slp_tx_type spent)) [
      | inl all ↦
          rw all (new_slp_tx-IsBuilt tx d (sized ∙ covers-recorded p.slp_tx_type spent all ∙ same))
      | inr short ↦ rw short (
          new_slp_tx-panics tx d
            (omega (arith, same, sized, covers-short p.slp_tx_type spent short)))
    ]
