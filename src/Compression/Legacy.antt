-- ===== src/Compression/Legacy.antt =====
-- What `decompress_script` of bitcoinsuite-core/src/compression.rs makes of a script with an uncompressed
-- key.
use bitcoinsuite.Base.{
  some_injective, ok_injective, map_err-eq-ok, append-nil, length-take, length-drop, ℕ, ◌+◌, ◌%◌,
  ◌<◌, ◌≡◌, ◌≢◌, sym, ◌∙◌, ap, [], ◌∷◌, ◌++◌, inl, some, ok, >>=-ok, >>=-eq-ok, map_err,
  if◌then◌else◌, ◌==◌, get_or, take, drop, length, arith, length-append,
}
use bitcoinsuite.Errors.{ecc}
use bitcoinsuite.Bytes.{Bytes, IsArray, put_slice}
use bitcoinsuite.Op.{push}
use bitcoinsuite.Op.RoundTrip.{IsOp, op_bytes, length_bytes}
use bitcoinsuite.Ecc.{Ecc}
use bitcoinsuite.Script.{Script, mk_script, p2pk_legacy_variant, p2pk_legacy}
use bitcoinsuite.Script.Ops.{from_ops, ops_bytes, from_ops-ops_bytes}
use bitcoinsuite.Opcode.{op_checksig}
use bitcoinsuite.Script.Parse.{parse_variant}
use bitcoinsuite.Script.Variants.{script_of, IsVariant, parse_variant-script_of}
use bitcoinsuite.Compression.Scripts.{
  compress_variant, compress_script, decompress_p2pk_legacy, decompress_head, decompress_script,
  small_head, take_array-append,
}

legacy_head :
    (curve : Ecc) (parity : ℕ) (bs : Bytes)
    → parity < 2
    → decompress_head curve (0x04 + parity) bs ≡ decompress_p2pk_legacy curve (0x04 + parity) bs
unfolding decompress_head
legacy_head curve parity bs h = ground arith

length-p2pk_legacy : (pk : Bytes) → IsArray 65 pk → length (p2pk_legacy pk).bytecode ≡ 67
unfolding p2pk_legacy put_slice
length-p2pk_legacy pk h = omega (arith, h, length-append (0x41 ∷ pk) (op_checksig ∷ []))

legacy_variant :
    (pk : Bytes) → IsArray 65 pk → parse_variant (p2pk_legacy pk) ≡ p2pk_legacy_variant pk
unfolding script_of IsVariant
legacy_variant pk h = parse_variant-script_of (p2pk_legacy_variant pk) h

key_push :
    (key : Bytes) → IsArray 65 key → from_ops (push 65 key ∷ []) ≡ ok (mk_script (65 ∷ (key ++ [])))
unfolding IsOp ops_bytes op_bytes length_bytes
key_push key h = from_ops-ops_bytes (push 65 key ∷ []) (inl (omega arith, omega arith, h), tt)

-- The key of the curve, pushed, and nothing behind it.
abbrev pub key_alone : Ecc → Bytes → Script
key_alone curve pubkey = mk_script (65 ∷ curve.serialize_pubkey_uncompressed pubkey)

legacy_push :
    (curve : Ecc) (head : ℕ) (x_coords rest rest' : Bytes) (s : Script)
    → ((pubkey : Bytes) → IsArray 65 (curve.serialize_pubkey_uncompressed pubkey))
    → IsArray 32 x_coords
    → decompress_p2pk_legacy curve head (x_coords ++ rest) ≡ ok (s, rest')
    → (pubkey : Bytes) × (curve.pubkey_from_array ((if head == 0x04 then 0x02 else 0x03) ∷ x_coords)
        ≡ ok pubkey)
      × (s ≡ key_alone curve pubkey)
      × (rest' ≡ rest)
unfolding decompress_p2pk_legacy
legacy_push curve head x_coords rest rest' s sizes len e =
    let accepts = sym (>>=-ok _ (take_array-append 32 x_coords rest len)) ∙ e in
    let (pubkey, accepted, pushes) =
      >>=-eq-ok
        (map_err ecc (curve.pubkey_from_array ((if head == 0x04 then 0x02 else 0x03) ∷ x_coords))) _
        accepts in
    let key = curve.serialize_pubkey_uncompressed pubkey in
    let done = ok_injective (sym (>>=-ok _ (key_push key (sizes pubkey))) ∙ pushes) in
    (
      pubkey,
      map_err-eq-ok ecc _ pubkey accepted,
      sym (ap (λ (r : Script × Bytes). r.0) done)
          ∙ ap (λ (bs : Bytes). mk_script (65 ∷ bs)) (append-nil key),
      sym (ap (λ (r : Script × Bytes). r.1) done),
    )

-- The parity of a key is in its last byte, and the head of a compressed key says it.
parity_head : (n : ℕ) → n < 2 → (if 0x04 + n == 0x04 then 0x02 else 0x03) ≡ 0x02 + n
parity_head n h = ground arith

-- A script with an uncompressed key is not what its compression is decompressed to: the result is
-- the push of the 65 bytes of the key that the curve has for the x coordinate and the parity, and nothing
-- behind it, so no `OP_CHECKSIG`. What follows the compressed script is left. The curve serializes
-- uncompressed keys to 65 bytes.
pub decompress-compress_script-lost :
    (curve : Ecc) (pk bs rest rest' : Bytes) (s : Script)
    → IsArray 65 pk
    → ((pubkey : Bytes) → IsArray 65 (curve.serialize_pubkey_uncompressed pubkey))
    → compress_script (p2pk_legacy pk) ≡ some bs
    → decompress_script curve (bs ++ rest) ≡ ok (s, rest')
    → (pubkey : Bytes) × (curve.pubkey_from_array
          ((0x02 + get_or pk 64 0 % 2) ∷ take 32 (drop 1 pk))
        ≡ ok pubkey)
      × (s ≡ key_alone curve pubkey)
      × (rest' ≡ rest)
      × (s ≢ p2pk_legacy pk)
unfolding decompress_script decompress_p2pk_legacy compress_script
decompress-compress_script-lost curve pk bs rest rest' s h sizes compresses decompresses =
    let parity = get_or pk 64 0 % 2 in
    let low : parity < 2 = omega arith in
    let x_coords = take 32 (drop 1 pk) in
    let len : length x_coords ≡ 32 =
      omega (arith, length-take 32 (drop 1 pk), length-drop 1 pk, h) in
    let kept : (0x04 + parity) ∷ x_coords ≡ bs =
      some_injective (sym (ap compress_variant (legacy_variant pk h)) ∙ compresses) in
    let reads : decompress_script curve ((0x04 + parity) ∷ (x_coords ++ rest))
        ≡ decompress_p2pk_legacy curve (0x04 + parity) (x_coords ++ rest) =
      >>=-ok _ (small_head (0x04 + parity) (x_coords ++ rest) (omega (arith, low)))
      ∙ legacy_head curve parity (x_coords ++ rest) low in
    let legacy =
      sym reads ∙ ap (λ (b : Bytes). decompress_script curve (b ++ rest)) kept ∙ decompresses in
    let (pubkey, accepted, is_push, left) =
      legacy_push curve (0x04 + parity) x_coords rest rest' s sizes len legacy in
    (
      pubkey,
      ap (λ n. curve.pubkey_from_array (n ∷ x_coords)) (sym (parity_head parity low)) ∙ accepted,
      is_push,
      left,
      λ same. absurd (
          omega (
            arith,
            sizes pubkey,
            ap (λ (x : Script). length x.bytecode) (sym is_push ∙ same),
            length-p2pk_legacy pk h,
          )),
    )
