-- ===== src/Net/Buffer/Contents.antt =====
-- include/net/Buffer.h: sizes and the reading side, against the queue of bytes `contents`.
use tiny_network.Prelude.{
  ℕ, ◌+◌, ◌-◌, ◌≤◌, ◌<◌, ◌≡◌, refl, sym, ◌∙◌, ap, List, [], ◌++◌, some, ltb, arith, length, take,
  drop, slice, read_range_fits, length-slice, length-drop, drop-slice, drop_all, take-take,
  take_all, add_size_exact, sub_size_exact, replicate, length-replicate, length-append, Bool-cases,
  ge→ltb, inl, inr,
}
use tiny_network.Net.Buffer.{
  Buffer, IsValid, contents, create, cheap_prepend, vector_max, readable_bytes, writeable_bytes,
  prependable_bytes, peek, retrieve, retrieve_all, retrieve_as_string, retrieve_all_as_string,
  resize,
}

pub readable_bytes_lem :
    (b : Buffer) → IsValid b → readable_bytes b ≡ b.writer_index - b.reader_index
unfolding readable_bytes
readable_bytes_lem b v = sub_size_exact b.writer_index b.reader_index v.ordered (omega arith)

pub writeable_bytes_lem :
    (b : Buffer) → IsValid b → writeable_bytes b ≡ length b.buffer - b.writer_index
unfolding writeable_bytes
writeable_bytes_lem b v = sub_size_exact (length b.buffer) b.writer_index v.within (omega arith)

pub length-contents :
    (b : Buffer) → IsValid b → length (contents b) ≡ b.writer_index - b.reader_index
unfolding contents
length-contents b v =
    length-slice b.buffer b.reader_index (b.writer_index - b.reader_index) (omega arith)

-- The three areas of a valid buffer make up its storage, `readableBytes` counts its contents, and
-- at least `kCheapPrepend` bytes stand in front of them.
pub areas_partition :
    (b : Buffer)
    → IsValid b
    → (prependable_bytes b + readable_bytes b + writeable_bytes b ≡ length b.buffer)
      × (readable_bytes b ≡ length (contents b))
      × (cheap_prepend ≤ prependable_bytes b)
unfolding prependable_bytes
areas_partition b v =
    omega (arith, readable_bytes_lem b v, writeable_bytes_lem b v, length-contents b v)

contents-empty : (b : Buffer) → b.reader_index ≡ b.writer_index → contents b ≡ []
unfolding contents slice
contents-empty b e =
    let none_left : b.writer_index - b.reader_index ≡ 0 = omega arith in rw none_left

pub retrieve_all-IsValid : (b : Buffer) → IsValid b → IsValid (retrieve_all b)
unfolding retrieve_all
retrieve_all-IsValid b v = omega arith

pub contents-retrieve_all : (b : Buffer) → contents (retrieve_all b) ≡ []
unfolding retrieve_all contents slice
contents-retrieve_all b = refl

pub retrieve-IsValid : (b : Buffer) (len : ℕ) → IsValid b → IsValid (retrieve b len)
unfolding retrieve
retrieve-IsValid b len v =
    ground
      (arith, readable_bytes_lem b v, retrieve_all-IsValid b v, add_size_exact b.reader_index len)

pub buffer-retrieve : (b : Buffer) (len : ℕ) → (retrieve b len).buffer ≡ b.buffer
unfolding retrieve retrieve_all
buffer-retrieve b len = ground arith

contents-advance :
    (b : Buffer) (len : ℕ)
    → IsValid b
    → len ≤ b.writer_index - b.reader_index
    → contents (record b { reader_index = b.reader_index + len }) ≡ drop len (contents b)
unfolding contents
contents-advance b len v h = sym (
    drop-slice b.reader_index len (b.reader_index + len) (b.writer_index - b.reader_index)
      (b.writer_index - (b.reader_index + len)) b.buffer (omega arith) refl)

-- On a valid buffer `retrieve` drops that many bytes from the front, all of them where fewer are
-- left.
pub retrieve-drop :
    (b : Buffer) (len : ℕ) → IsValid b → contents (retrieve b len) ≡ drop len (contents b)
unfolding retrieve
retrieve-drop b len v = elim (Bool-cases (ltb len (readable_bytes b))) [
  | inl short ↦
      let fits : len < b.writer_index - b.reader_index = ground (arith, readable_bytes_lem b v) in
      rw (short, add_size_exact b.reader_index len (omega arith))
        (contents-advance b len v (omega arith))
  | inr long ↦ rw long (
      contents-retrieve_all b
      ∙ sym
          (drop_all len (contents b) (ground (arith, length-contents b v, readable_bytes_lem b v))))
]

pub take-peek :
    (b : Buffer) (len : ℕ)
    → IsValid b
    → len ≤ readable_bytes b
    → (len ≤ length (peek b)) × (take len (peek b) ≡ take len (contents b))
unfolding peek contents slice
take-peek b len v h = (
  omega (arith, readable_bytes_lem b v, length-drop b.reader_index b.buffer),
  sym (
      take-take len (b.writer_index - b.reader_index) (drop b.reader_index b.buffer)
        (omega (arith, readable_bytes_lem b v))),
)

-- On a valid buffer `retrieveAsString(len)` with at most the readable bytes does not fault: it
-- returns the first `len` bytes, drops exactly these and keeps the buffer valid.
pub retrieve_as_string-take :
    (b : Buffer) (len : ℕ)
    → IsValid b
    → len ≤ readable_bytes b
    → (b' : Buffer) × (retrieve_as_string b len ≡ some (take len (contents b), b'))
      × (contents b' ≡ drop len (contents b))
      × IsValid b'
unfolding retrieve_as_string
retrieve_as_string-take b len v h =
    let (fits, same) = take-peek b len v h in
    (
      retrieve b len,
      rw (read_range_fits (peek b) len fits, same),
      retrieve-drop b len v,
      retrieve-IsValid b len v,
    )

-- On a valid buffer `retrieveAllAsString` does not fault, returns the contents and leaves the
-- buffer valid and empty.
pub retrieve_all_as_string-contents :
    (b : Buffer)
    → IsValid b
    → (b' : Buffer) × (retrieve_all_as_string b ≡ some (contents b, b'))
      × (contents b' ≡ [])
      × IsValid b'
unfolding retrieve_all_as_string
retrieve_all_as_string-contents b v =
    let (b', run, rest, valid) = retrieve_as_string-take b (readable_bytes b) v (omega arith) in
    let exact : readable_bytes b ≡ length (contents b) = (areas_partition b v).1 in
    (
      b',
      run ∙ ap (λ t. some (t, b')) (take_all (readable_bytes b) (contents b) (omega arith)),
      rest ∙ drop_all (readable_bytes b) (contents b) (omega arith),
      valid,
    )

-- `resize` to a larger size within the limit adds zeros at the end.
pub resize_grows :
    (xs : List ℕ) (n : ℕ)
    → length xs ≤ n
    → n ≤ vector_max
    → (resize xs n ≡ some (xs ++ replicate (n - length xs) 0))
      × (length (xs ++ replicate (n - length xs) 0) ≡ n)
unfolding resize
resize_grows xs n h k = (
  rw
      (
        ge→ltb vector_max n k,
        take_all n (xs ++ replicate (n - length xs) 0) (omega (arith, grown_length)),
      )
      refl,
  grown_length,
)
  where
    grown_length : length (xs ++ replicate (n - length xs) 0) ≡ n
    grown_length = omega (
      arith,
      length-append xs (replicate (n - length xs) 0),
      length-replicate {A = ℕ} (n - length xs) 0,
    )

-- A buffer of any initial size up to the vector's limit starts valid and empty, with that size
-- writable behind the prepend area.
pub create-IsValid :
    (initial_size : ℕ)
    → cheap_prepend + initial_size ≤ vector_max
    → (b : Buffer) × (create initial_size ≡ some b)
      × IsValid b
      × (contents b ≡ [])
      × (writeable_bytes b ≡ initial_size)
      × (length b.buffer ≡ cheap_prepend + initial_size)
unfolding create
create-IsValid initial_size h = (
  fresh,
  rw (add_size_exact cheap_prepend initial_size (omega arith), grown.0),
  valid,
  empty,
  omega (arith, writeable_bytes_lem fresh valid, grown.1),
  grown.1,
)
  where
    storage : List ℕ
    storage = [] ++ replicate (cheap_prepend + initial_size - length {A = ℕ} []) 0

    grown :
        (resize [] (cheap_prepend + initial_size) ≡ some storage)
        × (length storage ≡ cheap_prepend + initial_size)
    grown = resize_grows [] (cheap_prepend + initial_size) (omega arith) h

    fresh : Buffer
    fresh = record { buffer = storage; reader_index = cheap_prepend; writer_index = cheap_prepend }

    valid : IsValid fresh
    valid = omega (arith, grown.1)

    empty : contents fresh ≡ []
    empty = contents-empty fresh refl
