-- ===== src/Logger/LogStream/Format.antt =====
-- src/logger/LogStream.cpp: `formatInteger` on a buffer.
use mathlib.Core.List.{reverse, reverse-cons, reverse-append}
use tiny_network.Prelude.Decimal.{length-reverse}
use tiny_network.Prelude.{
  ℕ, suc, ◌+◌, ◌-◌, ◌/◌, ◌^◌, ◌≤◌, ◌<◌, ◌≡◌, refl, List, [], ◌∷◌, ◌++◌, some, arith, if◌then◌else◌,
  length, length-append, append-nil, append_assoc, take, drop, slice, slice_extended, splice_fits,
  length-splice, lt→ltb, le→leb, add_size_exact,
}
use tiny_network.Prelude.Int.{ℤ, pos, negsuc, nat_abs}
use tiny_network.Logger.FixedBuffer.{FixedBuffer, IsValid, text, add}
use tiny_network.Logger.FixedBuffer.Laws.{avail_lem}
use tiny_network.Logger.LogStream.{
  is_negative, digit_loop, digit_fuel, format_integer, max_numeric_size,
}
use tiny_network.Logger.LogStream.Integer.{
  IsDigits, digit_loop-IsDigits, value, value-reverse, read_integer,
}

abbrev AllDigits : List ℕ → Type 0
AllDigits [] = Unit
AllDigits (c ∷ cs) = (b'0' ≤ c) × AllDigits cs

AllDigits-snoc : (xs : List ℕ) (c : ℕ) → AllDigits xs → b'0' ≤ c → AllDigits (xs ++ (c ∷ []))
AllDigits-snoc [] c a h = (h, tt)
AllDigits-snoc (x ∷ xs) c a h = (a.0, AllDigits-snoc xs c a.1 h)

AllDigits-reverse : (xs : List ℕ) → AllDigits xs → AllDigits (reverse xs)
AllDigits-reverse [] a = tt
AllDigits-reverse (x ∷ xs) a =
    rw (reverse-cons x xs) (AllDigits-snoc (reverse xs) x (AllDigits-reverse xs a.1) a.0)

IsDigits-AllDigits : (n : ℕ) (ds : List ℕ) → IsDigits n ds → AllDigits ds
IsDigits-AllDigits n [] i = tt
IsDigits-AllDigits n (d ∷ []) i = (omega (arith, i.1), tt)
IsDigits-AllDigits n (d ∷ (k ∷ ds)) i =
    (omega (arith, i.1), IsDigits-AllDigits (n / 10) (k ∷ ds) i.2)

read_unsigned : (cs : List ℕ) → AllDigits cs → read_integer cs ≡ pos (value 0 cs)
unfolding read_integer value
read_unsigned [] a = refl
read_unsigned (c ∷ cs) a = ground arith

-- The characters as the loop leaves them, with the sign at the end.
abbrev sign_of : ℤ → List ℕ
sign_of num = if is_negative num then b'-' ∷ [] else []

read-reverse :
    (num : ℤ) (ds : List ℕ)
    → IsDigits (nat_abs num) ds
    → read_integer (reverse (ds ++ sign_of num)) ≡ num
unfolding read_integer
read-reverse (pos n) ds i =
    rw
      (
        append-nil ds,
        read_unsigned (reverse ds) (AllDigits-reverse ds (IsDigits-AllDigits n ds i)),
        value-reverse ds n i,
      )
      refl
read-reverse (negsuc n) ds i = rw (reverse-append ds (b'-' ∷ []), value-reverse ds (suc n) i) refl

-- What `formatInteger` must do to a buffer with room.
pub record Formatted (b : FixedBuffer) (num : ℤ) (b' : FixedBuffer) (str : List ℕ) : Type 0 where
  pub valid : IsValid b'
  pub extended : text b' ≡ text b ++ str
  pub reads_back : read_integer str ≡ num
  pub same_size : b'.size ≡ b.size
  pub short : length str ≤ 21

-- The text written at the position, with the zero byte behind it.
unfoldable pub placed : FixedBuffer → List ℕ → FixedBuffer
placed b str = record b {
  bytes =
      take b.cur b.bytes ++ ((str ++ (0 ∷ [])) ++ drop (b.cur + length (str ++ (0 ∷ []))) b.bytes);
  cur = b.cur + length str;
}

pub placed-IsValid :
    (b : FixedBuffer) (str : List ℕ)
    → IsValid b
    → b.cur + length str < b.size
    → IsValid (placed b str)
unfolding placed
placed-IsValid b str v room =
    let more = length-append str (0 ∷ []) in
    omega (
      arith,
      length-splice b.bytes b.cur (b.cur + length (str ++ (0 ∷ []))) (str ++ (0 ∷ [])) refl
          (omega (arith, more, v.sized)),
      v.sized,
    )

pub text-placed : (b : FixedBuffer) (str : List ℕ) → IsValid b → text (placed b str) ≡ text b ++ str
unfolding placed text slice
text-placed b str v =
    rw (append_assoc str (0 ∷ []) (drop (b.cur + length (str ++ (0 ∷ []))) b.bytes)) (
      slice_extended 0 b.cur b.cur (b.cur + length str) b.bytes str
        (0 ∷ drop (b.cur + length (str ++ (0 ∷ []))) b.bytes) (omega arith)
        (omega (arith, v.sized, v.within)) refl)

placed-Formatted :
    (b : FixedBuffer) (num : ℤ) (str : List ℕ)
    → IsValid b
    → b.cur + length str < b.size
    → read_integer str ≡ num
    → length str ≤ 21
    → Formatted b num (placed b str) str
unfolding placed
placed-Formatted b num str v room reads short = record {
  valid = placed-IsValid b str v room;
  extended = text-placed b str v;
  reads_back = reads;
  same_size = refl;
  short = short;
}

-- The run of `formatInteger` once its loop has given the digits.
format_integer_run :
    (b : FixedBuffer) (num : ℤ) (ds : List ℕ)
    → IsValid b
    → max_numeric_size ≤ b.size - b.cur
    → digit_loop digit_fuel num ≡ some ds
    → length (reverse (ds ++ sign_of num)) ≤ 21
    → format_integer b num ≡ some (placed b (reverse (ds ++ sign_of num)))
unfolding format_integer placed add
format_integer_run b num ds v room run short =
    let same = length-reverse (ds ++ sign_of num) in
    let str = reverse (ds ++ sign_of num) in
    rw
      (
        avail_lem b v,
        lt→ltb (b.size - b.cur) (2 ^ 63) (omega (arith, v.small)),
        le→leb max_numeric_size (b.size - b.cur) room,
        run,
        splice_fits b.bytes b.cur (str ++ (0 ∷ []))
            (omega (arith, length-append str (0 ∷ []), v.sized)),
        ← same,
        add_size_exact b.cur (length str) (omega (arith, v.small)),
      )
      refl

pub format_integer-Formatted :
    (b : FixedBuffer) (num : ℤ)
    → IsValid b
    → max_numeric_size ≤ b.size - b.cur
    → nat_abs num < 10 ^ 20
    → (b' : FixedBuffer) × (str : List ℕ) × (format_integer b num ≡ some b')
      × Formatted b num b' str
format_integer-Formatted b num v room fits =
    let (ds, run, is_digits, short) = digit_loop-IsDigits digit_fuel num (omega arith) fits in
    let str = reverse (ds ++ sign_of num) in
    let size : length str ≤ 21 =
      omega (
        arith,
        length-reverse (ds ++ sign_of num),
        length-append ds (sign_of num),
        sign_short num,
      ) in
    (
      placed b str,
      str,
      format_integer_run b num ds v room run size,
      placed-Formatted b num str v (omega (arith, size)) (read-reverse num ds is_digits) size,
    )
  where
    sign_short : (k : ℤ) → length (sign_of k) ≤ 1
    sign_short (pos n) = omega arith
    sign_short (negsuc n) = omega arith
