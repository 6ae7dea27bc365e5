-- ===== src/Script/Slices.antt =====
-- What the slice patterns of `parse_variant` (bitcoinsuite-core/src/script.rs) take from a byte string.
use mathlib.Core.List.{reverse, reverse-append, reverse-reverse}
use mathlib.Core.Path.{ap₂}
use bitcoinsuite.Base.{
  ℕ, ◌≡◌, refl, sym, ap, ◌∙◌, [], ◌∷◌, ◌++◌, none, some, ==_refl, length, arith, Option-cases, ◌≢◌,
  inl, inr,
}
use bitcoinsuite.Bytes.{Bytes}
use bitcoinsuite.Script.Parse.{strip_prefix, strip_suffix, middle, of_length}

pub strip_prefix-append : (p bs : Bytes) → strip_prefix p (p ++ bs) ≡ some bs
unfolding strip_prefix
strip_prefix-append [] bs = refl
strip_prefix-append (p ∷ ps) bs = rw (==_refl p, strip_prefix) (strip_prefix-append ps bs)

pub strip_prefix_parts : (p bs r : Bytes) → strip_prefix p bs ≡ some r → bs ≡ p ++ r
unfolding strip_prefix
strip_prefix_parts [] bs r e = ground arith
strip_prefix_parts (p ∷ ps) [] r e = cc
strip_prefix_parts (p ∷ ps) (b ∷ bs) r e = ground (arith, strip_prefix_parts ps bs r)

strip_suffix-append : (s bs : Bytes) → strip_suffix s (bs ++ s) ≡ some bs
unfolding strip_suffix
strip_suffix-append s bs =
    rw (reverse-append bs s, strip_prefix-append (reverse s) (reverse bs), strip_suffix)
      (ap some (reverse-reverse bs))

strip_suffix_parts : (s bs r : Bytes) → strip_suffix s bs ≡ some r → bs ≡ r ++ s
unfolding strip_suffix
strip_suffix_parts s bs r e = elim (Option-cases (strip_prefix (reverse s) (reverse bs))) [
  | inl absent ↦ ground (arith, absent)
  | inr (t, found) ↦
      let back : reverse t ≡ r = ground (arith, found) in
      sym (reverse-reverse bs)
      ∙ ap reverse (strip_prefix_parts (reverse s) (reverse bs) t found)
      ∙ reverse-append (reverse s) t
      ∙ ap₂ (λ (u v : Bytes). u ++ v) back (reverse-reverse s)
]

middle-append : (p s m : Bytes) → middle p s (p ++ (m ++ s)) ≡ some m
unfolding middle
middle-append p s m = rw (strip_prefix-append p (m ++ s), middle) (strip_suffix-append s m)

middle_parts : (p s bs m : Bytes) → middle p s bs ≡ some m → bs ≡ p ++ (m ++ s)
unfolding middle
middle_parts p s bs m e = elim (Option-cases (strip_prefix p bs)) [
  | inl absent ↦ ground (arith, absent)
  | inr (t, found) ↦
      strip_prefix_parts p bs t found
      ∙ ap (λ (u : Bytes). p ++ u) (strip_suffix_parts s t m (ground (arith, found)))
]

-- The guarded pattern as a whole.
pub guarded-append :
    (n : ℕ) (p s m : Bytes) → length m ≡ n → of_length n (middle p s (p ++ (m ++ s))) ≡ some m
unfolding of_length
guarded-append n p s m h = rw (middle-append p s m) (ground arith)

pub guarded_parts :
    (n : ℕ) (p s bs m : Bytes)
    → of_length n (middle p s bs) ≡ some m
    → (bs ≡ p ++ (m ++ s)) × (length m ≡ n)
unfolding of_length
guarded_parts n p s bs m e = elim (Option-cases (middle p s bs)) [
  | inl absent ↦ ground (arith, absent)
  | inr (t, found) ↦ ground (arith, found, middle_parts p s bs m)
]

pub guarded_head :
    (n b c : ℕ) (p s bs : Bytes) → b ≢ c → of_length n (middle (b ∷ p) s (c ∷ bs)) ≡ none
unfolding of_length middle strip_prefix
guarded_head n b c p s bs h = ground arith
