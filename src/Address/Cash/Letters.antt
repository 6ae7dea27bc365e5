-- ===== src/Address/Cash/Letters.antt =====
-- The letters of cash addresses, in bitcoinsuite-core/src/address/cashaddress.rs.
use bitcoinsuite.Base.{
  ℕ, suc, ◌<◌, ◌≡◌, ◌≢◌, refl, ap, subst, ◌∙◌, List, [], ◌∷◌, ◌++◌, ◌&&◌, Bool, true, false, Option,
  none, some, ok, >>=-ok, ok_or, ok_injective, some_injective, and_then, arith, length, map, All,
  ◌==◌, ==_iff, get_elem?, all_below, all_below_lem, Option-cases, Bool-cases, inl, inr, >>=-eq-ok,
}
use bitcoinsuite.Bytes.{Bytes}
use bitcoinsuite.Address.Base32.{
  CashAddressError, invalid_base32_letter, unwrap, charset, letter, map_to_b32, position,
  map_from_b32,
}
use bitcoinsuite.Address.Cash.{lower, split_colon}
use bitcoinsuite.Address.Cash.ConvertBits.{IsGroups}

-- A text that a prefix can be: no colon, and no capital letter.
abbrev pub IsPrefix : Bytes → Type 0
IsPrefix prefix = All (λ c. (c ≢ 58) × (lower c ≡ c)) prefix

is_some : Option ℕ → ℕ → Bool
is_some none x = false
is_some (some i) x = i == x

is_some_lem : (o : Option ℕ) (x : ℕ) → is_some o x ≡ true → o ≡ some x
unfolding is_some
is_some_lem none x h = cc
is_some_lem (some i) x h = ap some ((==_iff i x).0 h)

-- The letter for a group of bits is small, and it is read back.
is_letter : Option ℕ → ℕ → Bool
unfolding is_some
is_letter none x = false
is_letter (some c) x = is_some (position charset c) x && (lower c == c)

letters_table : all_below 32 (λ x. is_letter (get_elem? charset x) x) ≡ true
unfolding all_below position lower is_letter
letters_table = refl

and_lem : (a b : Bool) → (a && b) ≡ true → (a ≡ true) × (b ≡ true)
and_lem true true h = (refl, refl)
and_lem true false h = cc
and_lem false b h = cc

is_letter_lem :
    (o : Option ℕ) (x : ℕ)
    → is_letter o x ≡ true
    → (c : ℕ) × (o ≡ some c) × (position charset c ≡ some x) × (lower c ≡ c)
unfolding is_letter
is_letter_lem none x h = cc
is_letter_lem (some c) x h =
    let (reads, small) = and_lem (is_some (position charset c) x) (lower c == c) h in
    (c, refl, is_some_lem (position charset c) x reads, (==_iff (lower c) c).0 small)

-- Each group of five bits has a small letter that is read back.
letter_lem :
    (x : ℕ) → x < 32 → (c : ℕ) × (letter x ≡ ok c) × (position charset c ≡ some x) × (lower c ≡ c)
unfolding letter
letter_lem x h =
    let (c, found, reads, small) =
      is_letter_lem (get_elem? charset x) x
        (all_below_lem 32 x (λ y. is_letter (get_elem? charset y) y) letters_table h) in
    (c, ap unwrap found, reads, small)

pub map_from-to_b32 :
    (i : ℕ) (values : List ℕ)
    → IsGroups 5 values
    → (letters : Bytes) × (map_to_b32 values ≡ ok letters)
      × (map_from_b32 i letters ≡ ok values)
      × (map lower letters ≡ letters)
unfolding map_to_b32 map_from_b32
map_from-to_b32 i [] valid = ([], refl, refl, refl)
map_from-to_b32 i (x ∷ values) valid =
    let (c, has, reads', small) = letter_lem x valid.0 in
    let (letters, to, from, low) = map_from-to_b32 (suc i) values valid.1 in
    (
      c ∷ letters,
      >>=-ok _ has ∙ >>=-ok _ to,
      >>=-ok _ (ap (λ o. ok_or o (invalid_base32_letter i c)) reads') ∙ >>=-ok _ from,
      ap (λ y. y ∷ map lower letters) small ∙ ap (λ ys. c ∷ ys) low,
    )

pub map-lower-IsPrefix : (prefix : Bytes) → IsPrefix prefix → map lower prefix ≡ prefix
map-lower-IsPrefix [] h = refl
map-lower-IsPrefix (c ∷ prefix) h =
    ap (λ x. x ∷ map lower prefix) h.0.1 ∙ ap (λ xs. c ∷ xs) (map-lower-IsPrefix prefix h.1)

pub split_colon-IsPrefix :
    (prefix text : Bytes)
    → IsPrefix prefix
    → split_colon (prefix ++ 58 ∷ text) ≡ some (prefix, text)
unfolding split_colon
split_colon-IsPrefix [] text h = refl
split_colon-IsPrefix (c ∷ prefix) text h =
    let other : (c == 58) ≡ false = ground (arith, h.0.0) in
    rw other (
      ap (λ o. and_then o (λ parts. some (c ∷ parts.0, parts.1)))
        (split_colon-IsPrefix prefix text h.1))

pub map-append : (f : ℕ → ℕ) (xs ys : Bytes) → map f (xs ++ ys) ≡ map f xs ++ map f ys
map-append f [] ys = refl
map-append f (x ∷ xs) ys = ap (λ zs. f x ∷ zs) (map-append f xs ys)

ok_or_lem : (e : CashAddressError) (o : Option ℕ) {v : ℕ} → ok_or o e ≡ ok v → o ≡ some v
ok_or_lem e none h = cc
ok_or_lem e (some u) h = ap some (ok_injective h)

pub position-lt : (cs : List ℕ) (x i : ℕ) → position cs x ≡ some i → i < length cs
unfolding position
position-lt [] x i h = cc
position-lt (c ∷ cs) x i h = elim (Bool-cases (x == c)) [
  | inl here ↦ let h' = rw here at h in omega (arith, some_injective h')
  | inr other ↦ elim (Option-cases (position cs x)) [
    | inl absent ↦ absurd (let h' = rw (other, absent) at h in cc)
    | inr (j, e) ↦
        let h' = rw (other, e) at h in omega (arith, some_injective h', position-lt cs x j e)
  ]
]

-- What is read from letters are groups of five bits.
pub map_from_b32-IsGroups :
    (i : ℕ) (letters : Bytes) (values : List ℕ)
    → map_from_b32 i letters ≡ ok values
    → IsGroups 5 values
unfolding map_from_b32
map_from_b32-IsGroups i [] values h = subst (IsGroups 5) (ok_injective h) tt
map_from_b32-IsGroups i (x ∷ letters) values h =
    let (v, read, h') = >>=-eq-ok (ok_or (position charset x) (invalid_base32_letter i x)) _ h in
    let (vs, more, h2) = >>=-eq-ok (map_from_b32 (suc i) letters) _ h' in
    subst (IsGroups 5) (ok_injective h2) (
      position-lt charset x v (ok_or_lem _ (position charset x) read),
      map_from_b32-IsGroups (suc i) letters vs more,
    )
