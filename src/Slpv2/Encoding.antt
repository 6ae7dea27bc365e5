-- ===== src/Slpv2/Encoding.antt =====
-- What the fields of a section of bitcoinsuite-slpv2/src/build.rs are written as.
use bitcoinsuite.Base.{
  ℕ, ◌%◌, ◌^◌, ◌<◌, ◌≡◌, refl, sym, ap, ◌∙◌, List, [], ◌∷◌, ◌++◌, append_assoc, arith, length, All,
  take, cons_injective, append_injective,
}
use bitcoinsuite.Base.Int.{pos, negsuc}
use bitcoinsuite.Bytes.{Bytes, IsArray}
use bitcoinsuite.Bytes.Endian.{to_le_bytes, to_pattern, from_le_bytes}
use bitcoinsuite.Slpv2.{Amount, GenesisInfo, MintData}

-- How values of a type are written. Of two byte strings that begin with valid values, the values are the
-- same, and so is what follows them, if the byte strings are.
pub record Encoding (A : Type 0) : Type 1 where
  pub Valid : A → Type 0
  pub bytes : A → Bytes
  pub unambiguous :
      (x y : A) (r s : Bytes) → Valid x → Valid y → bytes x ++ r ≡ bytes y ++ s → (x ≡ y) × (r ≡ s)

-- One value behind another.
abbrev pub seq : {A B : Type 0} → Encoding A → Encoding B → Encoding (A × B)
seq first second = record {
  Valid = λ p. first.Valid p.0 × second.Valid p.1;
  bytes = λ p. first.bytes p.0 ++ second.bytes p.1;
  unambiguous = λ x y r s h k e.
      let (same, rest) =
        first.unambiguous x.0 y.0 (second.bytes x.1 ++ r) (second.bytes y.1 ++ s) h.0 k.0 (
          sym (append_assoc (first.bytes x.0) (second.bytes x.1) r)
          ∙ e
          ∙ append_assoc (first.bytes y.0) (second.bytes y.1) s) in
      let (same', end) = second.unambiguous x.1 y.1 r s h.1 k.1 rest in
      (ap (λ z. (z, x.1)) same ∙ ap (λ z. (y.0, z)) same', end);
}

-- A value by what it is made of.
abbrev pub view :
    {A B : Type 0} (parts : B → A) (build : A → B)
    → ((b : B) → build (parts b) ≡ b)
    → Encoding A
    → Encoding B
view parts build back enc = record {
  Valid = λ b. enc.Valid (parts b);
  bytes = λ b. enc.bytes (parts b);
  unambiguous = λ x y r s h k e.
      let (same, rest) = enc.unambiguous (parts x) (parts y) r s h k e in
      (sym (back x) ∙ ap build same ∙ back y, rest);
}

abbrev pub byte : Encoding ℕ
byte = record {
  Valid = λ n. n < 2 ^ 8;
  bytes = λ n. n % 2 ^ 8 ∷ [];
  unambiguous = λ x y r s h k e.
      let (head, rest) = cons_injective e in
      let same : x % 256 ≡ y % 256 = head in (omega arith, rest);
}

-- `decimals`, which is a `u8`.
abbrev pub plain_byte : Encoding ℕ
plain_byte = record {
  Valid = λ n. n < 2 ^ 8;
  bytes = λ n. n ∷ [];
  unambiguous = λ x y r s h k e. cons_injective e;
}

abbrev pub array : ℕ → Encoding Bytes
array n = record {
  Valid = IsArray n;
  bytes = λ bs. bs;
  unambiguous = λ x y r s h k e. append_injective x y (h ∙ sym k) e;
}

abbrev pub IsField : Bytes → Type 0
IsField bs = length bs < 2 ^ 8

abbrev pub field : Encoding Bytes
field = record {
  Valid = IsField;
  bytes = λ bs. length bs % 2 ^ 8 ∷ bs;
  unambiguous = λ x y r s h k e.
      let (head, rest) = cons_injective e in
      let same : length x % 256 ≡ length y % 256 = head in append_injective x y (omega arith) rest;
}

-- Amounts are counts of 48 bits.
abbrev pub IsAmount : Amount → Type 0
IsAmount (pos n) = n < 2 ^ 48
IsAmount (negsuc n) = ⊥

abbrev pub amount_bytes : Amount → Bytes
amount_bytes a = take 6 (to_le_bytes 8 (to_pattern 8 a))

amount_number : (n : ℕ) → n < 2 ^ 48 → from_le_bytes (amount_bytes (pos n)) ≡ n
unfolding to_le_bytes to_pattern from_le_bytes
amount_number n h = omega arith

pub length-amount_bytes : (a : Amount) → length (amount_bytes a) ≡ 6
unfolding to_le_bytes
length-amount_bytes a = refl

pub amount-unambiguous :
    (x y : Amount) (r s : Bytes)
    → IsAmount x
    → IsAmount y
    → amount_bytes x ++ r ≡ amount_bytes y ++ s
    → (x ≡ y) × (r ≡ s)
amount-unambiguous (pos n) (pos m) r s h k e =
    let (same, rest) =
      append_injective (amount_bytes (pos n)) (amount_bytes (pos m))
        (length-amount_bytes (pos n) ∙ sym (length-amount_bytes (pos m))) e in
    (ap pos (sym (amount_number n h) ∙ ap from_le_bytes same ∙ amount_number m k), rest)
amount-unambiguous (pos n) (negsuc m) r s h k e = absurd k
amount-unambiguous (negsuc n) y r s h k e = absurd h

unfoldable pub amounts_bytes : List Amount → Bytes
amounts_bytes [] = []
amounts_bytes (a ∷ amounts) = amount_bytes a ++ amounts_bytes amounts

pub amounts-unambiguous :
    (xs ys : List Amount) (r s : Bytes)
    → length xs ≡ length ys
    → All IsAmount xs
    → All IsAmount ys
    → amounts_bytes xs ++ r ≡ amounts_bytes ys ++ s
    → (xs ≡ ys) × (r ≡ s)
unfolding amounts_bytes
amounts-unambiguous [] [] r s n h k e = (refl, e)
amounts-unambiguous [] (y ∷ ys) r s n h k e = absurd (omega arith)
amounts-unambiguous (x ∷ xs) [] r s n h k e = absurd (omega arith)
amounts-unambiguous (x ∷ xs) (y ∷ ys) r s n h k e =
    let e' =
      sym (append_assoc (amount_bytes x) (amounts_bytes xs) r)
      ∙ e
      ∙ append_assoc (amount_bytes y) (amounts_bytes ys) s in
    let (first, rest) =
      amount-unambiguous x y (amounts_bytes xs ++ r) (amounts_bytes ys ++ s) h.0 k.0 e' in
    let (others, end) = amounts-unambiguous xs ys r s (omega arith) h.1 k.1 rest in
    (ap (λ z. z ∷ xs) first ∙ ap (λ zs. y ∷ zs) others, end)

abbrev pub IsAmounts : List Amount → Type 0
IsAmounts amounts = (length amounts < 2 ^ 8) × All IsAmount amounts

abbrev pub amount : Encoding Amount
amount = record { Valid = IsAmount; bytes = amount_bytes; unambiguous = amount-unambiguous }

-- Amounts, with their number in front.
abbrev pub vector : Encoding (List Amount)
vector = record {
  Valid = IsAmounts;
  bytes = λ amounts. length amounts % 2 ^ 8 ∷ amounts_bytes amounts;
  unambiguous = λ xs ys r s h k e.
      let (head, rest) = cons_injective e in
      let same : length xs % 256 ≡ length ys % 256 = head in
      amounts-unambiguous xs ys r s (omega (arith, same, h.0, k.0)) h.1 k.1 rest;
}

abbrev pub mint_data : Encoding MintData
mint_data =
    view (λ (m : MintData). (m.amounts, m.num_batons))
      (λ p. record { amounts = p.0; num_batons = p.1 }) (λ m. refl) (seq vector byte)

abbrev pub info : Encoding GenesisInfo
info =
    view
      (λ (i : GenesisInfo).
        (i.token_ticker, (i.token_name, (i.url, (i.data', (i.auth_pubkey, i.decimals))))))
      (λ p. record {
        token_ticker = p.0;
        token_name = p.1.0;
        url = p.1.1.0;
        data' = p.1.1.1.0;
        auth_pubkey = p.1.1.1.1.0;
        decimals = p.1.1.1.1.1;
      })
      (λ i. refl) (seq field (seq field (seq field (seq field (seq field plain_byte)))))
