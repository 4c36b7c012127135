-- ===== src/Logger/LogStream.antt =====
-- include/logger/LogStream.h and src/logger/LogStream.cpp: formatting into a buffer of one line.
-- A number of any C++ integer type is the integer that it stands for.
pub mod Integer
pub mod Format
pub mod Items
pub mod Floating
mod Tests
use mathlib.Core.List.{reverse}
use tiny_network.Prelude.{
  ℕ, zero, suc, ◌+◌, ◌-◌, ◌/◌, ◌%◌, ◌^◌, Bool, true, false, List, [], ◌∷◌, ◌++◌, Option, none, some,
  ltb, leb, ◌&&◌, ◌==◌, if◌then◌else◌, ◌>>=◌, length, get_elem?, splice, replicate, take,
}
use tiny_network.Prelude.Int.{ℤ, pos, negsuc, nat_abs, neg_of_nat}
use tiny_network.Logger.FixedBuffer
use tiny_network.Logger.FixedBuffer.{FixedBuffer, avail}

abbrev pub small_buffer : ℕ
small_buffer = 4000

abbrev pub max_numeric_size : ℕ
max_numeric_size = 48

-- The static table; `zero` points at its tenth entry.
abbrev pub digits : List ℕ
digits =
    b'9' ∷ b'8' ∷ b'7' ∷ b'6' ∷ b'5' ∷ b'4' ∷ b'3' ∷ b'2' ∷ b'1' ∷ b'0' ∷ b'1' ∷ b'2' ∷ b'3' ∷ b'4'
    ∷ b'5' ∷ b'6' ∷ b'7' ∷ b'8' ∷ b'9' ∷ []

-- C++ division and remainder by ten go towards zero, so a remainder has the sign of the number.
abbrev pub quotient_ten : ℤ → ℤ
quotient_ten (pos n) = pos (n / 10)
quotient_ten (negsuc n) = neg_of_nat (suc n / 10)

-- `zero[num % 10]`, as an index into `digits`.
abbrev pub digit_index : ℤ → ℕ
digit_index (pos n) = 9 + n % 10
digit_index (negsuc n) = 9 - suc n % 10

abbrev pub is_zero : ℤ → Bool
is_zero num = nat_abs num == 0

abbrev pub is_negative : ℤ → Bool
is_negative (pos n) = false
is_negative (negsuc n) = true

-- The `do … while(num)` loop: the characters in the order in which it writes them. `none` is a
-- read outside `digits`, or the end of the fuel.
unfoldable pub digit_loop : ℕ → ℤ → Option (List ℕ)
digit_loop zero num = none
digit_loop (suc fuel) num =
    let rest = digit_loop fuel (quotient_ten num) in
    do
      digit ← get_elem? digits (digit_index num)
      if is_zero (quotient_ten num)
          then some (digit ∷ [])
          else (do more ← rest; some (digit ∷ more))

-- No integer type has more digits.
abbrev pub digit_fuel : ℕ
digit_fuel = 20

-- `avail() >= kMaxNumericSize`, between values of type int.
abbrev pub has_numeric_room : FixedBuffer → Bool
has_numeric_room b = ltb (avail b) (2 ^ 63) && leb max_numeric_size (avail b)

-- The text is written backwards with a zero byte behind it, and then reversed in place.
unfoldable pub format_integer : FixedBuffer → ℤ → Option FixedBuffer
format_integer b num =
    if has_numeric_room b
    then (do
      chars ← digit_loop digit_fuel num
      let signed = chars ++ (if is_negative num then b'-' ∷ [] else [])
      bytes ← splice b.bytes b.cur (reverse signed ++ (0 ∷ []))
      some (FixedBuffer.add (record b { bytes = bytes }) (length signed)))
    else some b

-- `operator<<` for `char`, and for `const char *`, where a null pointer is `none`.
unfoldable pub put_char : FixedBuffer → ℕ → Option FixedBuffer
put_char b c = FixedBuffer.append b (c ∷ []) 1

-- "(null)"
abbrev pub null_text : List ℕ
null_text = b'(' ∷ b'n' ∷ b'u' ∷ b'l' ∷ b'l' ∷ b')' ∷ []

unfoldable pub put_c_string : FixedBuffer → Option (List ℕ) → Option FixedBuffer
put_c_string b (some str) = FixedBuffer.append b str (length str)
put_c_string b none = FixedBuffer.append b null_text 6

unfoldable pub put_string : FixedBuffer → List ℕ → Option FixedBuffer
put_string b str = FixedBuffer.append b str (length str)

-- `operator<<(const GeneralTemplate &)`: a pointer and a length.
unfoldable pub put_template : FixedBuffer → List ℕ → ℕ → Option FixedBuffer
put_template b chars len = FixedBuffer.append b chars len

unfoldable pub put_buffer : FixedBuffer → FixedBuffer → Option FixedBuffer
put_buffer b other = do str ← FixedBuffer.to_string other; put_string b str

unfoldable pub reset_buffer : FixedBuffer → FixedBuffer
reset_buffer b = FixedBuffer.reset b

-- `operator<<` for `const unsigned char *`, and for `const void *`, which takes the memory at the
-- pointer for a C string.
unfoldable pub put_unsigned_string : FixedBuffer → Option (List ℕ) → Option FixedBuffer
put_unsigned_string b str = put_c_string b str

unfoldable pub put_pointer : FixedBuffer → Option (List ℕ) → Option FixedBuffer
put_pointer b memory = put_c_string b memory

-- `operator<<` for `double` and `float`, which are values of types D and S: `show` is what
-- `snprintf` makes of a double by "%.12g", and `widen` the conversion.
module _ (D S : Type 0) (show : D → List ℕ) (widen : S → D) where
  unfoldable pub put_double : FixedBuffer → D → Option FixedBuffer
  put_double b v =
      let chars = show v in
      if has_numeric_room b
      then (do
        bytes ← splice b.bytes b.cur (take (max_numeric_size - 1) chars ++ (0 ∷ []))
        some (FixedBuffer.add (record b { bytes = bytes }) (length chars)))
      else some b

  unfoldable pub put_float : FixedBuffer → S → Option FixedBuffer
  put_float b v = put_double b (widen v)
