-- ===== src/Net/Buffer/Room.antt =====
-- include/net/Buffer.h: making room.
use tiny_network.Prelude.{
  ℕ, ◌+◌, ◌-◌, ◌≤◌, ◌<◌, ◌^◌, ◌≡◌, refl, ◌++◌, some, arith, length, take, drop, slice, read_range,
  splice, read_range_fits, splice_fits, length-splice, length-drop, slice_extended, slice-append,
  add_size, add_size_exact, through_int_small, lt→ltb, ge→ltb, replicate,
}
use native.Mathlib.Decide.{dec_lt}
use tiny_network.Net.Buffer.{
  Buffer, IsValid, contents, cheap_prepend, vector_max, prependable_bytes, resize, make_space,
  ensure_writable_bytes,
}
use tiny_network.Net.Buffer.Contents.{
  readable_bytes_lem, writeable_bytes_lem, length-contents, resize_grows,
}

-- What making room for `len` bytes may do: everything but the contents and validity can change.
pub record MakesRoom (b : Buffer) (len : ℕ) (b' : Buffer) : Type 0 where
  pub valid : IsValid b'
  pub kept : contents b' ≡ contents b
  pub room : b'.writer_index + len ≤ length b'.buffer
  pub growth : length b'.buffer ≤ length b.buffer + len

-- An `int` holds the requested size, and the vector can grow by it.
abbrev pub Fits : Buffer → ℕ → Type 0
Fits b len = (len < 2 ^ 31) × (length b.buffer + len ≤ vector_max)

grown : Buffer → ℕ → Buffer
grown b len = record b { buffer = b.buffer ++ replicate (b.writer_index + len - length b.buffer) 0 }

grown-MakesRoom :
    (b : Buffer) (len : ℕ)
    → IsValid b
    → Fits b len
    → length b.buffer ≤ b.writer_index + len
    → MakesRoom b len (grown b len)
      × (resize b.buffer (b.writer_index + len) ≡ some (grown b len).buffer)
unfolding grown contents
grown-MakesRoom b len v fits more =
    let (run, size) = resize_grows b.buffer (b.writer_index + len) more (omega arith) in
    (
      record {
        valid = omega (arith, size);
        kept =
            slice-append b.reader_index (b.writer_index - b.reader_index) b.buffer
              (replicate (b.writer_index + len - length b.buffer) 0) (omega arith);
        room = omega (arith, size);
        growth = omega (arith, size);
      },
      run,
    )

-- The contents moved to the front.
compacted : Buffer → Buffer
unfolding contents
compacted b = record {
  buffer =
      take cheap_prepend b.buffer
      ++ (contents b ++ drop (cheap_prepend + length (contents b)) b.buffer);
  reader_index = cheap_prepend;
  writer_index = cheap_prepend + (b.writer_index - b.reader_index);
}

compacted-contents :
    (b : Buffer) → IsValid b → cheap_prepend ≤ length b.buffer → contents (compacted b) ≡ contents b
unfolding compacted contents slice
compacted-contents b v h =
    slice_extended cheap_prepend cheap_prepend 0
      (cheap_prepend + (b.writer_index - b.reader_index) - cheap_prepend) b.buffer (contents b)
      (drop (cheap_prepend + length (contents b)) b.buffer) (omega arith) h
      (omega (arith, length-contents b v))

compacted-MakesRoom :
    (b : Buffer) (len : ℕ)
    → IsValid b
    → len + (b.writer_index - b.reader_index) + cheap_prepend ≤ length b.buffer
    → MakesRoom b len (compacted b)
unfolding compacted
compacted-MakesRoom b len v h =
    let n = length-contents b v in
    let size =
      length-splice b.buffer cheap_prepend (cheap_prepend + length (contents b)) (contents b) refl
        (omega (arith, n)) in
    record {
      valid = omega (arith, n, size);
      kept = compacted-contents b v (omega arith);
      room = omega (arith, n, size);
      growth = omega (arith, size);
    }

-- The copy that `make_space` makes is that of `compacted`.
compacted_run :
    (b : Buffer)
    → IsValid b
    → cheap_prepend + (b.writer_index - b.reader_index) ≤ length b.buffer
    → (read_range (drop b.reader_index b.buffer) (b.writer_index - b.reader_index)
        ≡ some (contents b))
      × (splice b.buffer cheap_prepend (contents b) ≡ some (compacted b).buffer)
unfolding compacted contents slice
compacted_run b v h = (
  read_range_fits (drop b.reader_index b.buffer) (b.writer_index - b.reader_index)
      (omega (arith, length-drop b.reader_index b.buffer)),
  splice_fits b.buffer cheap_prepend (contents b) (omega (arith, length-contents b v)),
)

-- With enough room in front or behind the contents move, else the vector grows: no fault.
make_space-MakesRoom :
    (b : Buffer) (len : ℕ)
    → IsValid b
    → Fits b len
    → length b.buffer < b.writer_index + len
    → (b' : Buffer) × (make_space b len ≡ some b') × MakesRoom b len b'
unfolding make_space prependable_bytes grown compacted
make_space-MakesRoom b len v fits more =
    let exact = through_int_small len (omega arith) in
    let free = writeable_bytes_lem b v in
    let used = readable_bytes_lem b v in
    let sum : add_size (length b.buffer - b.writer_index) b.reader_index
        ≡ length b.buffer - b.writer_index + b.reader_index =
      add_size_exact (length b.buffer - b.writer_index) b.reader_index (omega arith) in
    let need = add_size_exact len cheap_prepend (omega arith) in
    elim (dec_lt (length b.buffer - b.writer_index + b.reader_index) (len + cheap_prepend)) [
      | yes tight ↦
          let (room, run) = grown-MakesRoom b len v fits (omega arith) in
          (
            grown b len,
            rw
                (
                  exact,
                  free,
                  sum,
                  need,
                  lt→ltb _ _ tight,
                  add_size_exact b.writer_index len (omega arith),
                  run,
                )
                refl,
            room,
          )
      | no loose ↦
          let (copied, moved) = compacted_run b v (omega arith) in
          (
            compacted b,
            rw
                (
                  exact,
                  free,
                  sum,
                  need,
                  ge→ltb (length b.buffer - b.writer_index + b.reader_index) (len + cheap_prepend)
                      (omega arith),
                  used,
                  copied,
                  moved,
                  add_size_exact cheap_prepend (b.writer_index - b.reader_index) (omega arith),
                )
                refl,
            compacted-MakesRoom b len v (omega arith),
          )
    ]

-- `ensureWritableBytes(len)` on a valid buffer, for a `len` that an int holds and by which the
-- vector can grow, does not fault, keeps the buffer valid and its contents, makes room for `len`
-- bytes, and grows the vector by at most `len`.
pub ensure_writable_bytes-MakesRoom :
    (b : Buffer) (len : ℕ)
    → IsValid b
    → Fits b len
    → (b' : Buffer) × (ensure_writable_bytes b len ≡ some b') × MakesRoom b len b'
unfolding ensure_writable_bytes
ensure_writable_bytes-MakesRoom b len v fits =
    elim (dec_lt (length b.buffer - b.writer_index) len) [
      | yes tight ↦
          rw (writeable_bytes_lem b v, lt→ltb _ _ tight)
            (make_space-MakesRoom b len v fits (omega arith))
      | no loose ↦
          rw (writeable_bytes_lem b v, ge→ltb (length b.buffer - b.writer_index) len (omega arith))
            (b, refl, record { valid = v; kept = refl; room = omega arith; growth = omega arith })
    ]
