-- ===== src/Block/Mining.antt =====
-- `BitcoinHeader::solve` and `LotusHeader::solve` of bitcoinsuite-core/src/block.rs: the search for a
-- nonce whose hash has its top bit clear.
use Prim.Native.Nat.{bit_and}
use native.Mathlib.Nat.{mod-add-mod, mod-lt, mod-eq_of_lt, add-mod_left}
use bitcoinsuite.Base.{
  ℕ, zero, suc, ◌+◌, ◌-◌, ◌%◌, ◌^◌, ◌<◌, ◌≡◌, refl, sym, ◌∙◌, ap, Bool, true, Option, none, some,
  if◌then◌else◌, ◌==◌, get_or, ltb, ltb→lt, Bool-cases, inl, inr, arith,
}
use bitcoinsuite.Bytes.{Bytes}
use bitcoinsuite.Hash.{Digests}
use bitcoinsuite.Block.{BitcoinHeader, LotusHeader, bitcoin_calc_hash, lotus_calc_hash}

-- `hash.as_slice()[31] & 0x80 == 0`, for a hash of 32 bytes.
abbrev pub is_solved : Bytes → Bool
is_solved hash = bit_and (get_or hash 31 0) 0x80 == 0

-- The loop of both `solve` methods, on the nonce of the header; `limit` is the number of nonces, to
-- which `wrapping_add` wraps. The fuel is the number of rounds, and `none` stands for a loop that ran out
-- of it.
unfoldable pub solve_loop : ℕ → (ℕ → Bool) → ℕ → ℕ → Option ℕ
solve_loop limit solves zero nonce = none
solve_loop limit solves (suc fuel) nonce =
    let more = solve_loop limit solves fuel ((nonce + 1) % limit) in
    if solves nonce then some nonce else more

-- The header with the nonce at which the loop stops.
abbrev pub set_found : {H : Type 0} → (ℕ → H) → Option ℕ → Option H
set_found header none = none
set_found header (some nonce) = some (header nonce)

abbrev pub with_nonce : BitcoinHeader → ℕ → BitcoinHeader
with_nonce h nonce = record h { nonce = nonce }

abbrev pub lotus_with_nonce : LotusHeader → ℕ → LotusHeader
lotus_with_nonce h nonce = record h { nonce = nonce }

module _ (d : Digests) where
  abbrev pub bitcoin_solves : BitcoinHeader → ℕ → Bool
  bitcoin_solves h nonce = is_solved (bitcoin_calc_hash d (with_nonce h nonce))

  abbrev pub lotus_solves : LotusHeader → ℕ → Bool
  lotus_solves h nonce = is_solved (lotus_calc_hash d (lotus_with_nonce h nonce))

  unfoldable pub bitcoin_solve : ℕ → BitcoinHeader → Option BitcoinHeader
  bitcoin_solve fuel h =
      set_found (with_nonce h) (solve_loop (2 ^ 32) (bitcoin_solves h) fuel h.nonce)

  unfoldable pub lotus_solve : ℕ → LotusHeader → Option LotusHeader
  lotus_solve fuel h =
      set_found (lotus_with_nonce h) (solve_loop (2 ^ 64) (lotus_solves h) fuel h.nonce)

-- The loop stops at a nonce that solves, if one is less than the fuel away.
solve_loop-stops :
    (limit : ℕ) (solves : ℕ → Bool) (fuel nonce away : ℕ)
    → nonce < limit
    → away < fuel
    → solves ((nonce + away) % limit) ≡ true
    → (found : ℕ) × (solve_loop limit solves fuel nonce ≡ some found)
      × (solves found ≡ true)
      × (found < limit)
unfolding solve_loop
solve_loop-stops limit solves zero nonce away h near e = elim near [ ]
solve_loop-stops limit solves (suc fuel) nonce zero h near e =
    let plus_0 : nonce + 0 ≡ nonce = omega arith in
    let here : (nonce + 0) % limit ≡ nonce = ap (λ n. n % limit) plus_0 ∙ mod-eq_of_lt h in
    let solved : solves nonce ≡ true = ap solves (sym here) ∙ e in
    (nonce, rw (solved, solve_loop) refl, solved, h)
solve_loop-stops limit solves (suc fuel) nonce (suc away) h near e =
    elim (Bool-cases (solves nonce)) [
      | inl solved ↦ (nonce, rw (solved, solve_loop) refl, solved, h)
      | inr unsolved ↦
          let shift : nonce + 1 + away ≡ nonce + suc away = omega arith in
          let step : ((nonce + 1) % limit + away) % limit ≡ (nonce + suc away) % limit =
            mod-add-mod (nonce + 1) limit away ∙ ap (λ n. n % limit) shift in
          let (found, finds, solved, low) =
            solve_loop-stops limit solves fuel ((nonce + 1) % limit) away
              (mod-lt (nonce + 1) (omega arith)) (omega (arith, near)) (ap solves step ∙ e) in
          (found, rw (unsolved, solve_loop) finds, solved, low)
    ]

-- How far a nonce is from another one, going up and around.
distance :
    (limit from to : ℕ)
    → from < limit
    → to < limit
    → (away : ℕ) × (away < limit) × ((from + away) % limit ≡ to)
distance limit from to h k = elim (Bool-cases (ltb to from)) [
  | inl below ↦
      let under = ltb→lt to from below in
      let around : from + (limit + to - from) ≡ limit + to = omega arith in
      (
        limit + to - from,
        omega arith,
        ap (λ n. n % limit) around ∙ add-mod_left limit to ∙ mod-eq_of_lt k,
      )
  | inr above ↦
      let up : from + (to - from) ≡ to = ground (arith, above) in
      (to - from, omega arith, ap (λ n. n % limit) up ∙ mod-eq_of_lt k)
]

solve_loop-finds :
    (limit : ℕ) (solves : ℕ → Bool) (nonce solution : ℕ)
    → nonce < limit
    → solution < limit
    → solves solution ≡ true
    → (found : ℕ) × (solve_loop limit solves limit nonce ≡ some found)
      × (solves found ≡ true)
      × (found < limit)
solve_loop-finds limit solves nonce solution h k e =
    let (away, near, reaches) = distance limit nonce solution h k in
    solve_loop-stops limit solves limit nonce away h near (ap solves reaches ∙ e)

-- If some nonce of 32 bits gives a header a hash with its top bit clear, then `BitcoinHeader::solve`
-- ends, within one round for each nonce, and the header it leaves is the same but for its nonce and has
-- such a hash.
pub bitcoin_solve-is_solved :
    (d : Digests) (h : BitcoinHeader) (solution : ℕ)
    → h.nonce < 2 ^ 32
    → solution < 2 ^ 32
    → is_solved (bitcoin_calc_hash d (with_nonce h solution)) ≡ true
    → (nonce : ℕ) × (bitcoin_solve d (2 ^ 32) h ≡ some (with_nonce h nonce))
      × (is_solved (bitcoin_calc_hash d (with_nonce h nonce)) ≡ true)
      × (nonce < 2 ^ 32)
unfolding bitcoin_solve
bitcoin_solve-is_solved d h solution low low' e =
    let (nonce, finds, solved, small) =
      solve_loop-finds (2 ^ 32) (bitcoin_solves d h) h.nonce solution low low' e in
    (nonce, ap (set_found (with_nonce h)) finds, solved, small)

-- The same for the 64 bits of the nonce of a Lotus header.
pub lotus_solve-is_solved :
    (d : Digests) (h : LotusHeader) (solution : ℕ)
    → h.nonce < 2 ^ 64
    → solution < 2 ^ 64
    → is_solved (lotus_calc_hash d (lotus_with_nonce h solution)) ≡ true
    → (nonce : ℕ) × (lotus_solve d (2 ^ 64) h ≡ some (lotus_with_nonce h nonce))
      × (is_solved (lotus_calc_hash d (lotus_with_nonce h nonce)) ≡ true)
      × (nonce < 2 ^ 64)
unfolding lotus_solve
lotus_solve-is_solved d h solution low low' e =
    let (nonce, finds, solved, small) =
      solve_loop-finds (2 ^ 64) (lotus_solves d h) h.nonce solution low low' e in
    (nonce, ap (set_found (lotus_with_nonce h)) finds, solved, small)
