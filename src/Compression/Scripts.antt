-- ===== src/Compression/Scripts.antt =====
-- `compress_script`, `decompress_script` and the readers of coins of
-- bitcoinsuite-core/src/compression.rs.
use bitcoinsuite.Base.{
  ℕ, ◌+◌, ◌-◌, ◌/◌, ◌%◌, ◌^◌, ◌<◌, ◌≡◌, refl, sym, ◌∙◌, ap, subst, [], ◌∷◌, ◌++◌, ◌⊎◌, inl, inr,
  Bool, true, false, not, ◌&&◌, ◌||◌, Option, none, some, Result, ok, ◌>>=◌, >>=-ok, map_err,
  if◌then◌else◌, ◌==◌, ltb, get_or, take, drop, length, arith,
}
use bitcoinsuite.Errors.{BitcoinSuiteError, ecc, from_bytes_error}
use bitcoinsuite.Bytes.{Bytes, split_to, split_to_array, split_to_array-append}
use bitcoinsuite.Bytes.Endian.{from_pattern}
use bitcoinsuite.Op.{push}
use bitcoinsuite.Ecc.{Ecc}
use bitcoinsuite.Script.{
  Script, mk_script, ScriptVariant, p2pk_variant, p2pk_legacy_variant, p2pkh_variant, p2sh_variant,
  p2tr_variant, other_variant, p2pk, p2pkh, p2sh,
}
use bitcoinsuite.Script.Ops.{from_ops}
use bitcoinsuite.Script.Parse.{parse_variant}
use bitcoinsuite.Script.Variants.{script_of, IsVariant, parse_variant-script_of}
use bitcoinsuite.Compression.Amount.{decompress_amount}
use bitcoinsuite.Compression.VarInt.{read_var_int, read_var_int_loop}
use bitcoinsuite.Tx.{Coin}

-- The arms of `compress_script`. The bit of the last byte that is kept is its parity.
abbrev pub compress_variant : ScriptVariant → Option Bytes
compress_variant (p2pkh_variant hash) = some (0x00 ∷ hash)
compress_variant (p2sh_variant hash) = some (0x01 ∷ hash)
compress_variant (p2pk_variant pk) = some pk
compress_variant (p2pk_legacy_variant pk) = some ((0x04 + get_or pk 64 0 % 2) ∷ take 32 (drop 1 pk))
compress_variant v = none

unfoldable pub compress_script : Script → Option Bytes
compress_script s = compress_variant (parse_variant s)

-- `split_to_array` with the error converted.
abbrev pub take_array : ℕ → Bytes → Result BitcoinSuiteError (Bytes × Bytes)
take_array n bs = from_bytes_error (split_to_array n bs)

module _ (curve : Ecc) where
  -- The arm of a compressed key, and that of an uncompressed one.
  unfoldable pub decompress_p2pk : ℕ → Bytes → Result BitcoinSuiteError (Script × Bytes)
  decompress_p2pk head bs = do
    (x_coords, bs) ← take_array 32 bs
    pubkey ← map_err ecc (curve.pubkey_from_array (head ∷ x_coords))
    ok (p2pk pubkey, bs)

  unfoldable pub decompress_p2pk_legacy : ℕ → Bytes → Result BitcoinSuiteError (Script × Bytes)
  decompress_p2pk_legacy head bs = do
    (x_coords, bs) ← take_array 32 bs
    pubkey ←
        map_err ecc (curve.pubkey_from_array ((if head == 0x04 then 0x02 else 0x03) ∷ x_coords))
    script ← from_ops (push 65 (curve.serialize_pubkey_uncompressed pubkey) ∷ [])
    ok (script, bs)

  -- The `match` on the head.
  unfoldable pub decompress_head : ℕ → Bytes → Result BitcoinSuiteError (Script × Bytes)
  decompress_head head bs =
      if head == 0x00
      then (do (hash, bs) ← take_array 20 bs; ok (p2pkh hash, bs))
      else if head == 0x01
      then (do (hash, bs) ← take_array 20 bs; ok (p2sh hash, bs))
      else if (head == 0x02) || (head == 0x03)
      then decompress_p2pk head bs
      else if (head == 0x04) || (head == 0x05)
      then decompress_p2pk_legacy head bs
      else (do (script, bs) ← from_bytes_error (split_to bs (head - 6)); ok (mk_script script, bs))

  unfoldable pub decompress_script : Bytes → Result BitcoinSuiteError (Script × Bytes)
  decompress_script bs = do (head, bs) ← read_var_int bs; decompress_head head bs

  abbrev pub skip_version : Bool → Bytes → Result BitcoinSuiteError Bytes
  skip_version test bs =
      let skipped = (do (version, rest) ← read_var_int bs; ok rest) in
      if test then skipped else ok bs

  -- `amount as i64` and `height as i32` wrap around.
  unfoldable pub read_coin_as : Bool → Bytes → Result BitcoinSuiteError (Coin × Bytes)
  read_coin_as is_undo bs = do
    (height_and_is_coinbase, bs) ← read_var_int bs
    let height = height_and_is_coinbase / 2
    let is_coinbase = not (height_and_is_coinbase % 2 == 0)
    bs ← skip_version (is_undo && ltb 0 height) bs
    (amount_compressed, bs) ← read_var_int bs
    (script, bs) ← decompress_script bs
    ok (
      record {
        tx_output = record {
          value = from_pattern 8 (decompress_amount amount_compressed);
          script = script;
        };
        height = some (from_pattern 4 (height % 2 ^ 32));
        is_coinbase = is_coinbase;
      },
      bs,
    )

  unfoldable pub read_undo_coin : Bytes → Result BitcoinSuiteError (Coin × Bytes)
  read_undo_coin bs = read_coin_as true bs

  unfoldable pub read_coin : Bytes → Result BitcoinSuiteError (Coin × Bytes)
  read_coin bs = read_coin_as false bs

pub small_head : (b : ℕ) (rest : Bytes) → b < 0x80 → read_var_int (b ∷ rest) ≡ ok (b, rest)
unfolding read_var_int read_var_int_loop
small_head b rest h = ground arith

-- A variant that the compression keeps: a key script needs a key that starts with 2 or 3 and that the
-- curve accepts as it is.
abbrev pub IsKept : Ecc → ScriptVariant → Type 0
IsKept curve (p2pkh_variant hash) = Unit
IsKept curve (p2sh_variant hash) = Unit
IsKept curve (p2pk_variant pk) =
    (head : ℕ) × (x_coords : Bytes) × (pk ≡ head ∷ x_coords)
    × ((head ≡ 2) ⊎ (head ≡ 3))
    × (curve.pubkey_from_array pk ≡ ok pk)
IsKept curve v = ⊥

-- What `compress_script` writes for a script and `decompress_script` reads back.
abbrev pub Restores : Ecc → Script → Type 0
Restores curve s =
    (bs : Bytes) × (compress_script s ≡ some bs)
    × ((rest : Bytes) → decompress_script curve (bs ++ rest) ≡ ok (s, rest))

pub take_array-append :
    (n : ℕ) (front back : Bytes)
    → length front ≡ n
    → take_array n (front ++ back) ≡ ok (front, back)
take_array-append n front back h = ap from_bytes_error (split_to_array-append n front back h)

key_head :
    (curve : Ecc) (head : ℕ) (bs : Bytes)
    → (head ≡ 2) ⊎ (head ≡ 3)
    → decompress_head curve head bs ≡ decompress_p2pk curve head bs
unfolding decompress_head
key_head curve head bs (inl e) = rw e refl
key_head curve head bs (inr e) = rw e refl

decompress_p2pk-append :
    (curve : Ecc) (head : ℕ) (x_coords rest : Bytes)
    → length x_coords ≡ 32
    → curve.pubkey_from_array (head ∷ x_coords) ≡ ok (head ∷ x_coords)
    → decompress_p2pk curve head (x_coords ++ rest) ≡ ok (p2pk (head ∷ x_coords), rest)
unfolding decompress_p2pk
decompress_p2pk-append curve head x_coords rest h k =
    >>=-ok _ (take_array-append 32 x_coords rest h) ∙ >>=-ok _ (ap (map_err ecc) k)

-- The compression of a P2PKH or P2SH script, or of one with a compressed key that the curve accepts, is
-- decompressed to that script, with what follows it left over.
pub decompress-compress_script :
    (curve : Ecc) (v : ScriptVariant) → IsVariant v → IsKept curve v → Restores curve (script_of v)
unfolding decompress_script decompress_head compress_script IsVariant script_of
decompress-compress_script curve (p2pkh_variant hash) h k = (
  0x00 ∷ hash,
  ap compress_variant (parse_variant-script_of (p2pkh_variant hash) h),
  λ rest.
      >>=-ok _ (small_head 0x00 (hash ++ rest) (omega arith))
      ∙ >>=-ok _ (take_array-append 20 hash rest h),
)
decompress-compress_script curve (p2sh_variant hash) h k = (
  0x01 ∷ hash,
  ap compress_variant (parse_variant-script_of (p2sh_variant hash) h),
  λ rest.
      >>=-ok _ (small_head 0x01 (hash ++ rest) (omega arith))
      ∙ >>=-ok _ (take_array-append 20 hash rest h),
)
decompress-compress_script curve (p2pk_variant pk) h k =
    let (head, x_coords, is_pk, starts, accepted) = k in
    let is_key = subst (λ (key : Bytes). curve.pubkey_from_array key ≡ ok key) is_pk accepted in
    let size : length x_coords ≡ 32 = omega (arith, h, ap length is_pk) in
    (
      pk,
      ap compress_variant (parse_variant-script_of (p2pk_variant pk) h),
      λ rest.
          ap (λ (key : Bytes). decompress_script curve (key ++ rest)) is_pk
          ∙ >>=-ok _ (
              small_head head (x_coords ++ rest)
                (elim starts [ inl e ↦ omega arith | inr e ↦ omega arith ]))
          ∙ key_head curve head (x_coords ++ rest) starts
          ∙ decompress_p2pk-append curve head x_coords rest size is_key
          ∙ ap (λ (key : Bytes). ok (p2pk key, rest)) (sym is_pk),
    )
decompress-compress_script curve (p2pk_legacy_variant pk) h k = absurd k
decompress-compress_script curve (p2tr_variant commitment state) h k = absurd k
decompress-compress_script curve (other_variant s) h k = absurd k
