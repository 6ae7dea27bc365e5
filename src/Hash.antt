-- ===== src/Hash.antt =====
-- bitcoinsuite-core/src/hash.rs: the hash types. A hash of a size is an array of that many bytes.
-- The digest functions are those of the crates sha1, sha2 and ripemd, and parameters here.
pub mod Order
use mathlib.Core.List.{reverse}
use bitcoinsuite.Base.{ℕ, Option, none, some, Result, ok_or, ltb, if◌then◌else◌, length, replicate}
use bitcoinsuite.Errors.{BitcoinSuiteError, invalid_size}
use bitcoinsuite.Bytes.{Bytes, IsArray}

-- What the digests return: arrays of bytes.
pub record Digests : Type 0 where
  pub sha256 : Bytes → Bytes
  pub ripemd160 : Bytes → Bytes
  pub sha256_size : (bs : Bytes) → IsArray 32 (sha256 bs)
  pub ripemd160_size : (bs : Bytes) → IsArray 20 (ripemd160 bs)

module _ (d : Digests) where
  -- `Sha256d::digest`
  unfoldable pub sha256d : Bytes → Bytes
  sha256d bs = d.sha256 (d.sha256 bs)

  -- `ShaRmd160::digest`
  unfoldable pub sha_rmd160 : Bytes → Bytes
  sha_rmd160 bs = d.ripemd160 (d.sha256 bs)

  pub sha256d-IsArray : (bs : Bytes) → IsArray 32 (sha256d bs)
  unfolding sha256d
  sha256d-IsArray bs = d.sha256_size (d.sha256 bs)

-- `hash.try_into().ok()?`
unfoldable pub from_slice_optional : ℕ → Bytes → Option Bytes
from_slice_optional size hash =
    if ltb (length hash) size then none else if ltb size (length hash) then none else some hash

unfoldable pub from_slice : ℕ → Bytes → Result BitcoinSuiteError Bytes
unfolding from_slice_optional
from_slice size hash = ok_or (from_slice_optional size hash) (invalid_size size (length hash))

unfoldable pub from_slice_be : ℕ → Bytes → Result BitcoinSuiteError Bytes
unfolding from_slice
from_slice_be size hash = from_slice size (reverse hash)

abbrev pub null_hash : ℕ → Bytes
null_hash size = replicate size 0

unfoldable pub from_slice_or_null : ℕ → Bytes → Bytes
unfolding from_slice_optional
from_slice_or_null size hash = elim (from_slice_optional size hash) [
  | none ↦ null_hash size
  | some h ↦ h
]

unfoldable pub from_slice_be_or_null : ℕ → Bytes → Bytes
unfolding from_slice_or_null
from_slice_be_or_null size hash = from_slice_or_null size (reverse hash)

unfoldable pub to_vec_be : Bytes → Bytes
to_vec_be hash = reverse hash
