-- ===== src/Code/Lawful.antt =====
-- What a client may rely on of an implementation of `BitcoinCode`.
use bitcoinsuite.Base.{◌≡◌, refl, [], ◌++◌, ok, ◌∙◌}
use bitcoinsuite.Bytes.{Bytes}
use bitcoinsuite.Code.{BitcoinCode, ser}

-- `ser_to` writes behind what the buffer holds, and `deser` reads back what was written for a value
-- in range, whatever follows it.
pub record IsLawful {A : Type 0} (c : BitcoinCode A) (InRange : A → Type 0) : Type 0 where
  pub appends : (a : A) (bs : Bytes) → c.ser_to a bs ≡ bs ++ ser c a
  pub reads : (a : A) (rest : Bytes) → InRange a → c.deser (ser c a ++ rest) ≡ ok (a, rest)

pub ser_lem : {A : Type 0} (c : BitcoinCode A) (a : A) → ser c a ≡ c.ser_to a []
unfolding ser
ser_lem c a = refl

-- An implementation is lawful if some byte string for each value is written behind the buffer and
-- read back from the front.
pub lawful_by :
    {A : Type 0} (c : BitcoinCode A) (InRange : A → Type 0) (body : A → Bytes)
    → ((a : A) (bs : Bytes) → c.ser_to a bs ≡ bs ++ body a)
    → ((a : A) (rest : Bytes) → InRange a → c.deser (body a ++ rest) ≡ ok (a, rest))
    → IsLawful c InRange
lawful_by {A} c InRange body writes reads =
    let is_body : (a : A) → ser c a ≡ body a = λ a. ser_lem c a ∙ writes a [] in
    record {
      appends = λ a bs. rw (is_body a) (writes a bs);
      reads = λ a rest h. rw (is_body a) (reads a rest h);
    }
