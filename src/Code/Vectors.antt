-- ===== src/Code/Vectors.antt =====
-- A vector is read back, item by item; a hostile length makes the reader panic.
use bitcoinsuite.Base.{
  ℕ, ◌*◌, ◌^◌, ◌<◌, ◌≤◌, ◌≡◌, refl, sym, ◌∙◌, List, [], ◌∷◌, ◌++◌, ok, panic, length, append_assoc,
  append-nil, All, ge→ltb, lt→ltb,
}
use bitcoinsuite.Bytes.{Bytes}
use bitcoinsuite.Encoding.{write_compact_size}
use bitcoinsuite.Encoding.RoundTrip.{write_compact_size-append, read-write_compact_size}
use bitcoinsuite.Code.{
  BitcoinCode, ser, ser_parts, vec_ser_to, deser_parts, vec_deser, vec_code, isize_max,
}
use bitcoinsuite.Code.Lawful.{IsLawful}

module _ {A : Type 0} {c : BitcoinCode A} {P : A → Type 0} (lc : IsLawful c P) where
  -- The items' encodings, one after the other.
  parts : List A → Bytes
  parts [] = []
  parts (a ∷ as') = ser c a ++ parts as'

  ser_parts-append : (as' : List A) (bs : Bytes) → ser_parts c as' bs ≡ bs ++ parts as'
  unfolding ser_parts parts
  ser_parts-append [] bs = sym (append-nil bs)
  ser_parts-append (a ∷ as') bs =
      ser_parts-append as' (c.ser_to a bs)
      ∙ rw (lc.appends a bs) (append_assoc bs (ser c a) (parts as'))

  deser_parts-append :
      (as' : List A) (rest : Bytes)
      → All P as'
      → deser_parts c (length as') (parts as' ++ rest) ≡ ok (as', rest)
  unfolding deser_parts parts
  deser_parts-append [] rest h = refl
  deser_parts-append (a ∷ as') rest h = rw (
    append_assoc (ser c a) (parts as') rest,
    lc.reads a (parts as' ++ rest) h.0,
    deser_parts-append as' rest h.1,
  )

  -- A vector of values in range that fits in memory.
  abbrev pub FitsIn : ℕ → List A → Type 0
  FitsIn item_size as' = All P as' × (length as' < 2 ^ 64) × (length as' * item_size ≤ isize_max)

  -- When the codec of the items is lawful, that of vectors is, on vectors in range: what is written goes
  -- behind the buffer, and it is read back, with what follows left over.
  pub vec_code-IsLawful : (item_size : ℕ) → IsLawful (vec_code item_size c) (FitsIn item_size)
  unfolding ser vec_ser_to vec_deser
  vec_code-IsLawful item_size = record {
    appends = λ as' bs. rw (
      ser_parts-append as' (write_compact_size bs (length as')),
      ser_parts-append as' (write_compact_size [] (length as')),
      write_compact_size-append bs (length as'),
      append_assoc,
    );
    reads = λ as' rest h. rw (
      ser_parts-append as' (write_compact_size [] (length as')),
      append_assoc (write_compact_size [] (length as')) (parts as') rest,
      read-write_compact_size (length as') (parts as' ++ rest) h.1,
      ge→ltb isize_max (length as' * item_size) h.2,
      deser_parts-append as' rest h.0,
    );
  }

-- A length whose buffer would pass `isize::MAX` bytes makes the reader of a vector panic, whatever
-- follows the length.
pub vec_deser_panics :
    {A : Type 0} (c : BitcoinCode A) (item_size size : ℕ) (rest : Bytes)
    → size < 2 ^ 64
    → isize_max < size * item_size
    → vec_deser c item_size (write_compact_size [] size ++ rest) ≡ panic
unfolding vec_deser
vec_deser_panics c item_size size rest h big =
    rw (read-write_compact_size size rest h, lt→ltb isize_max (size * item_size) big)
