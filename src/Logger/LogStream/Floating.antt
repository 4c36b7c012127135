-- ===== src/Logger/LogStream/Floating.antt =====
-- src/logger/LogStream.cpp: a double in a buffer.
use tiny_network.Prelude.{
  ℕ, ◌-◌, ◌^◌, ◌≤◌, ◌<◌, ◌≡◌, refl, List, [], ◌∷◌, ◌++◌, some, arith, length, length-append,
  take_all, splice_fits, lt→ltb, le→leb, add_size_exact,
}
use tiny_network.Logger.FixedBuffer.{FixedBuffer, IsValid, add}
use tiny_network.Logger.FixedBuffer.Laws.{avail_lem}
use tiny_network.Logger.LogStream.{max_numeric_size, put_double, put_float}
use tiny_network.Logger.LogStream.Format.{placed, placed-IsValid, text-placed}
use tiny_network.Logger.LogStream.Items.{Extended}

-- On a valid array with 48 bytes free, a double or a float whose text `snprintf` need not cut is
-- added as this text, inside the array.
module _ (D S : Type 0) (show : D → List ℕ) (widen : S → D) where
  pub put_double-Extended :
      (b : FixedBuffer) (v : D)
      → IsValid b
      → max_numeric_size ≤ b.size - b.cur
      → length (show v) < max_numeric_size
      → (b' : FixedBuffer) × (put_double D S show widen b v ≡ some b') × Extended b (show v) b'
  unfolding put_double placed add
  put_double-Extended b v valid room short = (
    placed b (show v),
    rw
        (
          avail_lem b valid,
          lt→ltb (b.size - b.cur) (2 ^ 63) (omega (arith, valid.small)),
          le→leb max_numeric_size (b.size - b.cur) room,
          take_all 47 (show v) (omega (arith, short)),
          splice_fits b.bytes b.cur (show v ++ (0 ∷ []))
              (omega (arith, length-append (show v) (0 ∷ []), valid.sized)),
          add_size_exact b.cur (length (show v)) (omega (arith, valid.small)),
        )
        refl,
    record {
      valid = placed-IsValid b (show v) valid (omega arith);
      extended = text-placed b (show v) valid;
      same_size = refl;
    },
  )

  pub put_float-Extended :
      (b : FixedBuffer) (v : S)
      → IsValid b
      → max_numeric_size ≤ b.size - b.cur
      → length (show (widen v)) < max_numeric_size
      → (b' : FixedBuffer) × (put_float D S show widen b v ≡ some b')
        × Extended b (show (widen v)) b'
  unfolding put_float
  put_float-Extended b v = put_double-Extended b (widen v)
