-- ===== src/Net/Buffer/Append.antt =====
-- include/net/Buffer.h: the writing side.
use tiny_network.Prelude.{
  ℕ, ◌+◌, ◌-◌, ◌≤◌, ◌≡◌, refl, ◌∙◌, ap, List, ◌++◌, some, arith, length, take, drop,
  read_range_fits, splice_fits, length-splice, slice_extended, take_all, add_size_exact,
  length-take, subst,
}
use tiny_network.Net.Buffer.{Buffer, IsValid, contents, append, append_string}
use tiny_network.Net.Buffer.Room.{Fits, ensure_writable_bytes-MakesRoom}

-- What writing `data` at the end of the contents gives.
pub record Appended (b : Buffer) (bytes : List ℕ) (b' : Buffer) : Type 0 where
  pub valid : IsValid b'
  pub extended : contents b' ≡ contents b ++ bytes
  pub growth : length b'.buffer ≤ length b.buffer + length bytes

unfoldable pub written : Buffer → List ℕ → Buffer
written b bytes = record b {
  buffer = take b.writer_index b.buffer ++ (bytes ++ drop (b.writer_index + length bytes) b.buffer);
  writer_index = b.writer_index + length bytes;
}

pub length-written :
    (b : Buffer) (bytes : List ℕ)
    → b.writer_index + length bytes ≤ length b.buffer
    → length (written b bytes).buffer ≡ length b.buffer
unfolding written
length-written b bytes room =
    length-splice b.buffer b.writer_index (b.writer_index + length bytes) bytes refl room

pub contents-written :
    (b : Buffer) (bytes : List ℕ) → IsValid b → contents (written b bytes) ≡ contents b ++ bytes
unfolding written contents
contents-written b bytes v =
    slice_extended b.reader_index b.writer_index (b.writer_index - b.reader_index)
      (b.writer_index + length bytes - b.reader_index) b.buffer bytes
      (drop (b.writer_index + length bytes) b.buffer) (omega arith) v.within (omega arith)

pub written-IsValid :
    (b : Buffer) (bytes : List ℕ)
    → IsValid b
    → b.writer_index + length bytes ≤ length b.buffer
    → IsValid (written b bytes)
unfolding written
written-IsValid b bytes v room = let size = length-written b bytes room in omega (arith, size)

-- `append(data, len)` on a valid buffer, with at least `len` bytes behind `data`, a `len` that an
-- int holds and a vector that can grow by it, does not fault: it keeps the buffer valid, adds
-- exactly the first `len` bytes behind the contents, and grows the vector by at most `len`.
pub append-Appended :
    (b : Buffer) (source : List ℕ) (len : ℕ)
    → IsValid b
    → Fits b len
    → len ≤ length source
    → (b' : Buffer) × (append b source len ≡ some b') × Appended b (take len source) b'
unfolding append written
append-Appended b source len v fits enough =
    let (ready, run, space) = ensure_writable_bytes-MakesRoom b len v fits in
    let taken : length (take len source) ≡ len = omega (arith, length-take len source) in
    let room : ready.writer_index + length (take len source) ≤ length ready.buffer =
      omega (arith, space.room) in
    (
      written ready (take len source),
      rw
          (
            run,
            read_range_fits source len enough,
            splice_fits ready.buffer ready.writer_index (take len source) room,
            add_size_exact ready.writer_index len (omega (arith, space.room, space.valid.small)),
            taken,
          )
          refl,
      record {
        valid = written-IsValid ready (take len source) space.valid room;
        extended =
            contents-written ready (take len source) space.valid
            ∙ ap (λ c. c ++ take len source) space.kept;
        growth = omega (arith, length-written ready (take len source) room, space.growth);
      },
    )

-- `append(str)` on a valid buffer, for a string whose length an int holds and by which the vector
-- can grow, does not fault, and adds the whole string behind the contents.
pub append_string-Appended :
    (b : Buffer) (str : List ℕ)
    → IsValid b
    → Fits b (length str)
    → (b' : Buffer) × (append_string b str ≡ some b') × Appended b str b'
unfolding append_string
append_string-Appended b str v fits =
    let (b', run, done) = append-Appended b str (length str) v fits (omega arith) in
    (b', run, subst (λ d. Appended b d b') (take_all (length str) str (omega arith)) done)
