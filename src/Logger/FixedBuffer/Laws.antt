-- ===== src/Logger/FixedBuffer/Laws.antt =====
-- include/logger/FixedBuffer.h: appending keeps the text, and what `toString` makes of it.
use native.Mathlib.Decide.{dec_lt}
use tiny_network.Prelude.{
  ℕ, ◌+◌, ◌-◌, ◌≤◌, ◌<◌, ◌≡◌, refl, sym, ◌∙◌, ap, List, [], ◌++◌, some, arith, ltb, if◌then◌else◌,
  length, take, length-take, drop, slice, read_range_fits, splice_fits, length-splice,
  slice_extended, take_all, take-append-drop, length-drop, append-nil, lt→ltb, ge→ltb,
  add_size_exact, sub_size_exact,
}
use tiny_network.Logger.FixedBuffer.{
  FixedBuffer, IsValid, text, avail, append, to_string, length_of,
}

pub avail_lem : (b : FixedBuffer) → IsValid b → avail b ≡ b.size - b.cur
unfolding avail
avail_lem b v = sub_size_exact b.size b.cur v.within (omega (arith, v.small))

-- The array with a line written at the position.
unfoldable pub written : FixedBuffer → List ℕ → FixedBuffer
written b line = record b {
  bytes = take b.cur b.bytes ++ (line ++ drop (b.cur + length line) b.bytes);
  cur = b.cur + length line;
}

pub written-IsValid :
    (b : FixedBuffer) (line : List ℕ)
    → IsValid b
    → b.cur + length line ≤ b.size
    → IsValid (written b line)
unfolding written
written-IsValid b line v room = omega (
  arith,
  length-splice b.bytes b.cur (b.cur + length line) line refl (omega (arith, v.sized)),
  v.sized,
)

pub text-written :
    (b : FixedBuffer) (line : List ℕ) → IsValid b → text (written b line) ≡ text b ++ line
unfolding text written slice
text-written b line v =
    slice_extended 0 b.cur b.cur (b.cur + length line) b.bytes line
      (drop (b.cur + length line) b.bytes) (omega arith) (omega (arith, v.sized, v.within)) refl

pub size-written : (b : FixedBuffer) (line : List ℕ) → (written b line).size ≡ b.size
unfolding written
size-written b line = refl

-- `append` of a whole line.
append_fits :
    (b : FixedBuffer) (line : List ℕ)
    → IsValid b
    → length line < b.size - b.cur
    → append b line (length line) ≡ some (written b line)
unfolding append written
append_fits b line v h =
    rw
      (
        avail_lem b v,
        lt→ltb (length line) (b.size - b.cur) h,
        read_range_fits line (length line) (omega arith),
        take_all (length line) line (omega arith),
        splice_fits b.bytes b.cur line (omega (arith, v.sized)),
        add_size_exact b.cur (length line) (omega (arith, v.small)),
      )
      refl

append_full :
    (b : FixedBuffer) (line : List ℕ)
    → IsValid b
    → b.size - b.cur ≤ length line
    → append b line (length line) ≡ some b
unfolding append
append_full b line v h = rw (avail_lem b v, ge→ltb (length line) (b.size - b.cur) h) refl

-- An array and a length give what a string of that length gives.
pub append_template :
    (b : FixedBuffer) (chars : List ℕ) (len : ℕ)
    → len ≤ length chars
    → append b chars len ≡ append b (take len chars) (length (take len chars))
unfolding append
append_template b chars len h =
    let same : length (take len chars) ≡ len = omega (arith, length-take len chars, h) in
    rw
      (
        same,
        read_range_fits chars len h,
        read_range_fits (take len chars) len (omega (arith, same)),
        take_all len (take len chars) (omega (arith, same)),
      )
      refl

-- The line that `append` keeps: the whole of it if less than the free space, else nothing.
abbrev pub kept : FixedBuffer → List ℕ → List ℕ
kept b line = if ltb (length line) (b.size - b.cur) then line else []

-- On a valid array `append` never writes outside it, keeps it valid and of its size, and adds the
-- line whole or not at all: whole exactly if it is shorter than the free space.
pub append-text :
    (b : FixedBuffer) (line : List ℕ)
    → IsValid b
    → (b' : FixedBuffer) × (append b line (length line) ≡ some b')
      × IsValid b'
      × (text b' ≡ text b ++ kept b line)
      × (b'.size ≡ b.size)
append-text b line v = elim (dec_lt (length line) (b.size - b.cur)) [
  | yes fits ↦ (
    written b line,
    append_fits b line v fits,
    written-IsValid b line v (omega (arith, v.within)),
    rw (lt→ltb _ _ fits) (text-written b line v),
    same_size,
  )
  | no full ↦ (
    b,
    append_full b line v (omega arith),
    v,
    rw (ge→ltb (length line) (b.size - b.cur) (omega arith)) (sym (append-nil (text b))),
    refl,
  )
]
  where
    same_size : (written b line).size ≡ b.size
    same_size = size-written b line

-- On a valid array `toString` gives the whole of it: behind the text come as many bytes as are
-- free.
pub to_string_whole :
    (b : FixedBuffer)
    → IsValid b
    → (rest : List ℕ) × (to_string b ≡ some (text b ++ rest)) × (length rest ≡ b.size - b.cur)
unfolding to_string length_of text
to_string_whole b v = (
  drop b.cur b.bytes,
  read_range_fits b.bytes b.size (omega (arith, v.sized))
      ∙ ap some
          (take_all b.size b.bytes (omega (arith, v.sized)) ∙ sym (take-append-drop b.cur b.bytes)),
  omega (arith, length-drop b.cur b.bytes, v.sized),
)
