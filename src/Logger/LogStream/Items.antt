-- ===== src/Logger/LogStream/Items.antt =====
-- include/logger/LogStream.h and src/logger/LogStream.cpp: a chain of `operator<<`.
use tiny_network.Prelude.{
  ℕ, ◌+◌, ◌-◌, ◌^◌, ◌≤◌, ◌<◌, ◌≡◌, refl, sym, ◌∙◌, ap, List, [], ◌∷◌, ◌++◌, Option, none, some,
  arith, ◌>>=◌, length, length-append, take, length-take, append-nil, append_assoc, lt→ltb,
}
use tiny_network.Prelude.Int.{ℤ, nat_abs}
use tiny_network.Logger.FixedBuffer.{FixedBuffer, IsValid, text}
use tiny_network.Logger.FixedBuffer
use tiny_network.Logger.FixedBuffer.Laws.{append-text, append_template}
use tiny_network.Logger.LogStream.{
  put_char, put_c_string, put_string, put_template, format_integer, null_text,
}
use tiny_network.Logger.LogStream.Integer.{read_integer}
use tiny_network.Logger.LogStream.Format.{format_integer-Formatted}

-- What `<<` takes: the overloads for the integer types, for `char`, for the two pointers to
-- characters, for `std::string` and for `GeneralTemplate`.
pub data Item : Type 0 where
  integer : ℤ → Item
  char : ℕ → Item
  c_string : Option (List ℕ) → Item
  string : List ℕ → Item
  template : List ℕ → ℕ → Item

unfoldable pub put : Item → FixedBuffer → Option FixedBuffer
put (integer num) b = format_integer b num
put (char c) b = put_char b c
put (c_string str) b = put_c_string b str
put (string str) b = put_string b str
put (template chars len) b = put_template b chars len

-- `stream << a << b << …`
unfoldable pub put_all : List Item → FixedBuffer → Option FixedBuffer
put_all [] b = some b
put_all (item ∷ items) b = do b' ← put item b; put_all items b'

-- What C++ asks of an item: 64 bits, and a length inside the characters.
abbrev pub IsPrintable : Item → Type 0
IsPrintable (integer num) = nat_abs num < 10 ^ 20
IsPrintable (char c) = Unit
IsPrintable (c_string str) = Unit
IsPrintable (string str) = Unit
IsPrintable (template chars len) = len ≤ length chars

abbrev pub ArePrintable : List Item → Type 0
ArePrintable [] = Unit
ArePrintable (item ∷ items) = IsPrintable item × ArePrintable items

-- The bytes that an item asks for.
abbrev pub need : Item → ℕ
need (integer num) = 48
need (char c) = 1
need (c_string none) = 6
need (c_string (some str)) = length str
need (string str) = length str
need (template chars len) = len

abbrev pub need_all : List Item → ℕ
need_all [] = 0
need_all (item ∷ items) = need item + need_all items

-- The text of an item: for an integer any that reads back as it.
abbrev pub Shows : Item → List ℕ → Type 0
Shows (integer num) str = read_integer str ≡ num
Shows (char c) str = str ≡ (c ∷ [])
Shows (c_string none) str = str ≡ null_text
Shows (c_string (some chars)) str = str ≡ chars
Shows (string chars) str = str ≡ chars
Shows (template chars len) str = str ≡ take len chars

abbrev pub ShowsAll : List Item → List ℕ → Type 0
ShowsAll [] str = str ≡ []
ShowsAll (item ∷ items) str =
    (first : List ℕ) × (rest : List ℕ) × (str ≡ first ++ rest)
    × Shows item first
    × ShowsAll items rest

-- A buffer that took a text.
pub record Extended (b : FixedBuffer) (str : List ℕ) (b' : FixedBuffer) : Type 0 where
  pub valid : IsValid b'
  pub extended : text b' ≡ text b ++ str
  pub same_size : b'.size ≡ b.size

pub length-text : (b : FixedBuffer) → IsValid b → length (text b) ≡ b.cur
unfolding text
length-text b v = omega (arith, length-take b.cur b.bytes, v.sized, v.within)

pub cur-Extended :
    (b : FixedBuffer) (str : List ℕ) (b' : FixedBuffer)
    → IsValid b
    → Extended b str b'
    → b'.cur ≡ b.cur + length str
cur-Extended b str b' v e =
    sym (length-text b' e.valid)
    ∙ ap length e.extended
    ∙ omega (arith, length-append (text b) str, length-text b v)

append-Extended :
    (b : FixedBuffer) (str : List ℕ)
    → IsValid b
    → length str < b.size - b.cur
    → (b' : FixedBuffer) × (FixedBuffer.append b str (length str) ≡ some b') × Extended b str b'
append-Extended b str v h =
    let (b', run, valid, extended, size) = append-text b str v in
    (
      b',
      run,
      record {
        valid = valid;
        extended = extended ∙ rw (lt→ltb (length str) (b.size - b.cur) h) refl;
        same_size = size;
      },
    )

-- What a chain must do to a buffer with room.
pub record Printed (items : List Item) (b : FixedBuffer) (b' : FixedBuffer) (str : List ℕ)
    : Type 0 where
  pub extended : Extended b str b'
  pub shown : ShowsAll items str
  pub short : length str ≤ need_all items

put-Shows :
    (item : Item) (b : FixedBuffer)
    → IsValid b
    → IsPrintable item
    → need item < b.size - b.cur
    → (b' : FixedBuffer) × (str : List ℕ) × (put item b ≡ some b')
      × Extended b str b'
      × Shows item str
      × (length str ≤ need item)
unfolding put put_char put_c_string put_string put_template
put-Shows (integer num) b v p h =
    let (b', str, run, f) = format_integer-Formatted b num v (omega (arith, h)) p in
    (
      b',
      str,
      run,
      record { valid = f.valid; extended = f.extended; same_size = f.same_size },
      f.reads_back,
      omega (arith, f.short),
    )
put-Shows (char c) b v p h =
    let (b', run, e) = append-Extended b (c ∷ []) v h in (b', c ∷ [], run, e, refl, omega arith)
put-Shows (c_string (some str)) b v p h =
    let (b', run, e) = append-Extended b str v h in (b', str, run, e, refl, omega arith)
put-Shows (c_string none) b v p h =
    let (b', run, e) = append-Extended b null_text v h in (b', null_text, run, e, refl, omega arith)
put-Shows (string str) b v p h =
    let (b', run, e) = append-Extended b str v h in (b', str, run, e, refl, omega arith)
put-Shows (template chars len) b v p h =
    let size : length (take len chars) ≡ len = omega (arith, length-take len chars, p) in
    let (b', run, e) = append-Extended b (take len chars) v (omega (arith, size, h)) in
    (b', take len chars, append_template b chars len p ∙ run, e, refl, omega (arith, size))

-- On a valid buffer with more room than a chain of printable items asks for, `<<` never writes
-- outside it and adds the texts of all the items, in their order.
pub put_all-Printed :
    (items : List Item) (b : FixedBuffer)
    → IsValid b
    → ArePrintable items
    → need_all items < b.size - b.cur
    → (b' : FixedBuffer) × (str : List ℕ) × (put_all items b ≡ some b') × Printed items b b' str
unfolding put_all
put_all-Printed [] b v p h = (
  b,
  [],
  refl,
  record {
    extended = record { valid = v; extended = sym (append-nil (text b)); same_size = refl };
    shown = refl;
    short = omega arith;
  },
)
put_all-Printed (item ∷ items) b v p h =
    let (b', first, run, e, shows, short) = put-Shows item b v p.0 (omega (arith, h)) in
    let moved = cur-Extended b first b' v e in
    let (b'', rest, runs, q) =
      put_all-Printed items b' e.valid p.1 (omega (arith, h, moved, e.same_size, short)) in
    (
      b'',
      first ++ rest,
      rw run runs,
      record {
        extended = record {
          valid = q.extended.valid;
          extended =
              q.extended.extended ∙ ap (◌++ rest) e.extended ∙ append_assoc (text b) first rest;
          same_size = q.extended.same_size ∙ e.same_size;
        };
        shown = (first, rest, refl, shows, q.shown);
        short = omega (arith, length-append first rest, short, q.short);
      },
    )
