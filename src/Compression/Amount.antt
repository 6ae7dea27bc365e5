-- ===== src/Compression/Amount.antt =====
-- `compress_amount` and `decompress_amount` of bitcoinsuite-core/src/compression.rs.
-- Arithmetic on u64 is written with its wrap-around where it can pass 2 ^ 64.
use native.Mathlib.Numerals.{towards_suc, add-one}
use bitcoinsuite.Base.{
  ℕ, zero, suc, ◌+◌, ◌-◌, ◌*◌, ◌/◌, ◌%◌, ◌^◌, ◌≤◌, ◌<◌, ◌≡◌, ◌≢◌, ◌⊎◌, inl, inr, refl, ◌&&◌, ltb,
  leb, if◌then◌else◌, ◌==◌, arith, Option, some, none, Bool-cases, ==_iff, dec_lt, subst, ap, sym,
  ◌∙◌,
}

abbrev pub u64_mod : ℕ
u64_mod = 2 ^ 64

-- while ((amount % 10) == 0) && e < 9 { amount /= 10; e += 1; } with `rounds` = 9 - e
unfoldable pub strip_zeros : ℕ → ℕ → ℕ → ℕ × ℕ
strip_zeros zero amount e = (amount, e)
strip_zeros (suc rounds) amount e =
    let rest = strip_zeros rounds (amount / 10) (e + 1) in
    if amount % 10 == 0 then rest else (amount, e)

-- `none` is the panic of the `assert!`.
unfoldable pub compress_stripped : ℕ → ℕ → Option ℕ
compress_stripped amount e =
    if ltb e 9
    then (let d = amount % 10 in
        if leb 1 d && leb d 9
        then some ((1 + (amount / 10 * 9 + d - 1) * 10 % u64_mod + e) % u64_mod)
        else none)
    else some ((1 + (amount - 1) * 10 % u64_mod + 9) % u64_mod)

unfoldable pub compress_amount : ℕ → Option ℕ
compress_amount amount =
    let (stripped, e) = strip_zeros 9 amount 0 in
    if amount == 0 then some 0 else compress_stripped stripped e

-- while e != 0 { n *= 10; e -= 1; }
unfoldable pub scale : ℕ → ℕ → ℕ
scale zero n = n
scale (suc e) n = scale e (n * 10 % u64_mod)

unfoldable pub decompress_amount : ℕ → ℕ
unfolding scale
decompress_amount x =
    if x == 0
    then 0
    else let y = x - 1 in
      let e = y % 10 in
      let z = y / 10 in scale e (if ltb e 9 then z / 9 * 10 + (z % 9 + 1) else z + 1)

-- What the first loop leaves: no zero to strip, or as many stripped as there were rounds.
record IsStripped (rounds amount e : ℕ) (r : ℕ × ℕ) : Type 0 where
  whole : r.0 * 10 ^ r.1 ≡ amount * 10 ^ e
  bound : r.1 ≤ e + rounds
  done : (r.0 % 10 ≢ 0) ⊎ (r.1 ≡ e + rounds)
  positive : 0 < amount → 0 < r.0

next_power : (e : ℕ) → 10 ^ (e + 1) ≡ 10 * 10 ^ e
next_power e = simp towards_suc (omega arith)

one_zero : (amount e : ℕ) → amount % 10 ≡ 0 → amount / 10 * 10 ^ (e + 1) ≡ amount * 10 ^ e
one_zero amount e h =
    let tens : amount ≡ 10 * (amount / 10) = omega arith in
    omega (arith, ap (λ (t : ℕ). t * 10 ^ e) tens, ap (λ (t : ℕ). amount / 10 * t) (next_power e))

strip_zeros-IsStripped :
    (rounds amount e : ℕ) → IsStripped rounds amount e (strip_zeros rounds amount e)
unfolding strip_zeros
strip_zeros-IsStripped zero amount e = record {
  whole = refl;
  bound = omega arith;
  done = inr (omega arith);
  positive = λ h. h;
}
strip_zeros-IsStripped (suc rounds) amount e = elim (Bool-cases (amount % 10 == 0)) [
  | inl more ↦
      let zero_last : amount % 10 ≡ 0 = (==_iff (amount % 10) 0).0 more in
      let ih = strip_zeros-IsStripped rounds (amount / 10) (e + 1) in
      rw more (record {
        whole = ih.whole ∙ one_zero amount e zero_last;
        bound = omega (arith, ih.bound);
        done = elim ih.done [ inl a ↦ inl a | inr b ↦ inr (omega (arith, b)) ];
        positive = λ h. ih.positive (omega arith);
      })
  | inr less ↦
      rw less
        (record { whole = refl; bound = omega arith; done = inl (ground arith); positive = λ h. h })
]

suc_power : (e : ℕ) → 10 ^ suc e ≡ 10 * 10 ^ e
suc_power e = ap (λ (t : ℕ). 10 ^ t) (sym (add-one e)) ∙ next_power e

power_pos : (e : ℕ) → 0 < 10 ^ e
power_pos zero = omega arith
power_pos (suc e) = omega (arith, power_pos e, suc_power e)

scale_lem : (e n : ℕ) → n * 10 ^ e < u64_mod → scale e n ≡ n * 10 ^ e
unfolding scale
scale_lem zero n h = omega arith
scale_lem (suc e) n h =
    let grouped : n * 10 * 10 ^ e ≡ n * 10 ^ suc e =
      omega (arith, ap (λ (t : ℕ). n * t) (suc_power e)) in
    let below : n * 10 ≤ n * 10 * 10 ^ e = grind (arith, power_pos e) in
    let kept : n * 10 % u64_mod ≡ n * 10 = omega arith in
    rw kept (scale_lem e (n * 10) (omega arith) ∙ grouped)

-- The encoding of `s` with `e` zeros behind it, and what is decoded from it.
few_zeros :
    (s e : ℕ)
    → e < 9
    → s % 10 ≢ 0
    → s * 9 + 10 < u64_mod
    → (x : ℕ) × (compress_stripped s e ≡ some x) × (decompress_amount x ≡ scale e s)
unfolding compress_stripped decompress_amount
few_zeros s e few last fits =
    let z = s / 10 * 9 + s % 10 - 1 in
    let x = 1 + z * 10 + e in
    let parts : ((x - 1) % 10 ≡ e) × ((x - 1) / 10 ≡ z) × (z / 9 * 10 + (z % 9 + 1) ≡ s) =
      omega arith in
    (x, ground arith, ground (arith, parts.0, parts.1, parts.2))

nine_zeros :
    (s : ℕ)
    → 0 < s
    → s * 10 < u64_mod
    → (x : ℕ) × (compress_stripped s 9 ≡ some x) × (decompress_amount x ≡ scale 9 s)
unfolding compress_stripped decompress_amount
nine_zeros s h fits =
    let x = 1 + (s - 1) * 10 + 9 in
    let parts : ((x - 1) % 10 ≡ 9) × ((x - 1) / 10 + 1 ≡ s) = omega arith in
    (x, ground arith, ground (arith, parts.0, parts.1))

stripped_le : (s e amount : ℕ) → s * 10 ^ e ≡ amount → s ≤ amount
stripped_le s e amount h = grind (arith, power_pos e)

compress_amount-pos :
    (a : ℕ)
    → compress_amount (suc a)
      ≡ compress_stripped (strip_zeros 9 (suc a) 0).0 (strip_zeros 9 (suc a) 0).1
unfolding compress_amount
compress_amount-pos a = ground arith

-- Every amount whose ninefold leaves room for 10 in a u64 is compressed without a panic, and
-- decompressing gives it back.
pub decompress-compress_amount :
    (amount : ℕ)
    → amount * 9 + 10 < u64_mod
    → (x : ℕ) × (compress_amount amount ≡ some x) × (decompress_amount x ≡ amount)
decompress-compress_amount zero fits =
    (0, unfold compress_amount in refl, unfold decompress_amount in refl)
decompress-compress_amount (suc a) fits =
    let r = strip_zeros 9 (suc a) 0 in
    let inv = strip_zeros-IsStripped 9 (suc a) 0 in
    let whole : r.0 * 10 ^ r.1 ≡ suc a = omega (arith, inv.whole) in
    let small = stripped_le r.0 r.1 (suc a) whole in
    let scaled : scale r.1 r.0 ≡ suc a = scale_lem r.1 r.0 (omega arith) ∙ whole in
    elim (dec_lt r.1 9) [
      | yes few ↦
          let last : r.0 % 10 ≢ 0 = elim inv.done [ inl h ↦ h | inr h ↦ absurd (omega arith) ] in
          let (x, encoded, decoded) = few_zeros r.0 r.1 few last (omega arith) in
          (x, compress_amount-pos a ∙ encoded, decoded ∙ scaled)
      | no many ↦
          let nine : r.1 ≡ 9 = omega (arith, inv.bound) in
          let shown : r.0 * 10 ^ 9 ≡ suc a = subst (λ e. r.0 * 10 ^ e ≡ suc a) nine whole in
          let (x, encoded, decoded) = nine_zeros r.0 (inv.positive (omega arith)) (omega arith) in
          (
            x,
            compress_amount-pos a ∙ ap (compress_stripped r.0) nine ∙ encoded,
            decoded ∙ ap (λ (e : ℕ). scale e r.0) (sym nine) ∙ scaled,
          )
    ]
