-- ===== src/Slp/Validate/Conserves.antt =====
-- The sums of the branch SEND of `validate_slp_tx`. An amount is a count when it is not negative, as the
-- amounts are that `from_u64_be` reads.
use bitcoinsuite.Base.{
  ℕ, ◌+◌, ◌-◌, ◌<◌, ◌≤◌, ◌≡◌, refl, ap, ◌∙◌, List, [], ◌∷◌, ◌&&◌, Bool, true, false, not, Option,
  none, some, ok, err, if◌then◌else◌, arith, All, ltb, ge→ltb, lt→ltb, Bool-cases, inl, inr,
}
use bitcoinsuite.Slp.Amount.{SlpAmount, add, lt_amount, sum}
use bitcoinsuite.Slp.Amount.Sums.{
  amount_bound, count, IsCount, total, mk_count, count_eq, add-mk_count, sub-mk_count,
  lt_amount-mk_count, sum-total, plus_assoc,
}
use bitcoinsuite.Slp.Types.{
  TokenId, send, SlpBurn, SlpParseData, SlpSpentOutput, output_sum_exceed_input_sum, SlpValidTxData,
}
use bitcoinsuite.Slp.Validate.{
  SendTally, same_token, excess_burn, send_loop, validate_send, validate_as, validate_slp_tx,
  token_amounts, or_else, finish,
}

-- An input that counts: it holds the token that is sent, and it is not a mint baton.
abbrev pub counts : SlpParseData → SlpSpentOutput → Bool
counts p s = same_token p s && not s.token.is_mint_baton

-- What the inputs that count bring.
abbrev pub moved : SlpParseData → List (Option SlpSpentOutput) → ℕ
moved p [] = 0
moved p (none ∷ spent) = moved p spent
moved p (some s ∷ spent) = (if counts p s then count s.token.amount else 0) + moved p spent

abbrev pub burnt : Option SlpBurn → ℕ
burnt none = 0
burnt (some b) = count b.token.amount

-- What is burnt of the inputs that count.
abbrev pub excess : SlpParseData → List (Option SlpSpentOutput) → List (Option SlpBurn) → ℕ
excess p [] burns = 0
excess p (o ∷ spent) [] = 0
excess p (none ∷ spent) (b ∷ burns) = excess p spent burns
excess p (some s ∷ spent) (b ∷ burns) = (if counts p s then burnt b else 0) + excess p spent burns

-- The amount that an input spends is a count.
abbrev pub Spends : Option SlpSpentOutput → Type 0
Spends none = Unit {0}
Spends (some s) = IsCount s.token.amount

-- The burn of one input makes up for what its amount adds to the surplus.
burnt-excess_burn :
    (o a n : ℕ) (s : SlpSpentOutput)
    → s.token.amount ≡ mk_count n
    → a + n < amount_bound
    → (a - o) + burnt (excess_burn (mk_count o) (mk_count (a + n)) s) ≡ (a + n) - o
unfolding excess_burn
burnt-excess_burn o a n s eq fits = elim (Bool-cases (ltb o (a + n))) [
  | inl less ↦
      rw
        (
          lt_amount-mk_count o (a + n),
          less,
          eq,
          sub-mk_count (a + n) o (ground arith) fits,
          lt_amount-mk_count (a + n - o) n,
        )
        (ground arith)
  | inr more ↦ rw (lt_amount-mk_count o (a + n), more) (ground arith)
]

-- The loop: `input_sum` counts what is moved, and the burns hold the surplus over the outputs.
abbrev Settled : SlpParseData → ℕ → ℕ → List (Option SlpSpentOutput) → SendTally → Type 0
Settled p o a spent r =
    (r.input_sum ≡ mk_count (a + moved p spent))
    × ((a - o) + excess p spent r.tally.slp_burns ≡ (a + moved p spent) - o)

zero_only : (a : ℕ) → 0 + a ≡ a
zero_only a = omega arith

zero_left : (a b : ℕ) → a + b ≡ a + (0 + b)
zero_left a b = omega arith

send_loop-Settled :
    (p : SlpParseData) (o a : ℕ) (group : Option TokenId) (spent : List (Option SlpSpentOutput))
    → All Spends spent
    → a + moved p spent < amount_bound
    → Settled p o a spent (send_loop p (mk_count o) (mk_count a) group spent)
unfolding send_loop
send_loop-Settled p o a group [] h fits = (ap mk_count (omega arith), omega arith)
send_loop-Settled p o a group (none ∷ spent) h fits =
    let r = send_loop-Settled p o a group spent h.1 fits in (r.0, r.1)
send_loop-Settled p o a group (some s ∷ spent) h fits = elim (Bool-cases (counts p s)) [
  | inl valid ↦
      let n = count s.token.amount in
      let fits' : a + (n + moved p spent) < amount_bound = rw valid at fits in
      let room : a + n < amount_bound = omega arith in
      let eq = count_eq s.token.amount h.0 in
      let sum_eq : add (mk_count a) s.token.amount ≡ mk_count (a + n) =
        ap (add (mk_count a)) eq ∙ add-mk_count a n room in
      let r =
        send_loop-Settled p o (a + n) (or_else group s.group_token_id) spent h.1 (omega arith) in
      let one = burnt-excess_burn o a n s eq room in
      rw (valid, sum_eq, counts, valid)
        ((r.0 ∙ ap mk_count (plus_assoc a n (moved p spent)), omega (arith, r.1, one)))
  | inr other ↦
      let fits' : a + (0 + moved p spent) < amount_bound = rw other at fits in
      let r = send_loop-Settled p o a group spent h.1 (omega arith) in
      rw (other, counts, other)
        (r.0 ∙ ap mk_count (zero_left a (moved p spent)), omega (arith, r.1))
]

-- The sum of the outputs, as the branch takes it.
outputs_sum :
    (p : SlpParseData)
    → All IsCount (token_amounts p.output_tokens)
    → total (token_amounts p.output_tokens) < amount_bound
    → sum (token_amounts p.output_tokens) ≡ mk_count (total (token_amounts p.output_tokens))
outputs_sum p h fits = sum-total (token_amounts p.output_tokens) h fits

-- When the inputs that count bring at least what the outputs take, a SEND transaction is valid, and
-- what they bring is what the outputs take and what is burnt of them, together. The amounts are counts,
-- and both totals fit an i128.
pub validate_slp_tx-conserves :
    (p : SlpParseData) (spent : List (Option SlpSpentOutput))
    → p.slp_tx_type ≡ send
    → All Spends spent
    → All IsCount (token_amounts p.output_tokens)
    → moved p spent < amount_bound
    → total (token_amounts p.output_tokens) ≤ moved p spent
    → (d : SlpValidTxData) × (validate_slp_tx p spent ≡ ok d)
      × (moved p spent ≡ total (token_amounts p.output_tokens) + excess p spent d.slp_burns)
unfolding validate_slp_tx validate_as validate_send
validate_slp_tx-conserves p spent is_send h counted fits covered =
    let o = total (token_amounts p.output_tokens) in
    let r = send_loop p (mk_count o) (mk_count 0) none spent in
    let (sum_in, surplus) = send_loop-Settled p o 0 none spent h (omega arith) in
    let sum_out = outputs_sum p counted (omega arith) in
    let passes : lt_amount r.input_sum (mk_count o) ≡ false =
      ap (λ (x : SlpAmount). lt_amount x (mk_count o)) sum_in
      ∙ lt_amount-mk_count (0 + moved p spent) o
      ∙ ge→ltb (0 + moved p spent) o (omega arith) in
    (
      finish p r.tally.input_tokens r.tally.slp_burns r.group_token_id,
      rw (is_send, sum_out, passes) refl,
      omega (arith, surplus),
    )

-- When the inputs that count bring less than the outputs take, a SEND transaction is refused with the
-- two totals. The amounts are counts, and both totals fit an i128.
pub validate_slp_tx-refuses :
    (p : SlpParseData) (spent : List (Option SlpSpentOutput))
    → p.slp_tx_type ≡ send
    → All Spends spent
    → All IsCount (token_amounts p.output_tokens)
    → total (token_amounts p.output_tokens) < amount_bound
    → moved p spent < total (token_amounts p.output_tokens)
    → validate_slp_tx p spent
      ≡ err (
          output_sum_exceed_input_sum
            (mk_count (total (token_amounts p.output_tokens)))
            (mk_count (moved p spent)))
unfolding validate_slp_tx validate_as validate_send
validate_slp_tx-refuses p spent is_send h counted fits short =
    let o = total (token_amounts p.output_tokens) in
    let r = send_loop p (mk_count o) (mk_count 0) none spent in
    let sum_in =
      (send_loop-Settled p o 0 none spent h (omega arith)).0
      ∙ ap mk_count (zero_only (moved p spent)) in
    let sum_out = outputs_sum p counted fits in
    let fails : lt_amount r.input_sum (mk_count o) ≡ true =
      ap (λ (x : SlpAmount). lt_amount x (mk_count o)) sum_in
      ∙ lt_amount-mk_count (moved p spent) o
      ∙ lt→ltb (moved p spent) o short in
    rw (is_send, sum_out, fails, sum_in) refl
