-- ===== src/Net/Buffer/Descriptor.antt =====
-- src/net/Buffer.cpp: reading a descriptor into the buffer, and writing the contents to one.
use mathlib.Core.Path.{ap₂}
use native.Mathlib.Decide.{dec_le}
use tiny_network.Prelude.{
  ℕ, ◌+◌, ◌-◌, ◌≤◌, ◌<◌, ◌^◌, ◌≡◌, refl, sym, ◌∙◌, ap, List, [], ◌++◌, Option, none, some, ◌>>=◌,
  arith, length, take, drop, splice, read_range_beyond, splice_fits, take_all, take-append-drop,
  take_prefix, length-splice, length-take, length-drop, length-append, length-replicate, sub_size,
  add_size_exact, sub_size_exact, replicate, append_assoc, inl, inr, le→leb, gt→leb, ge→ltb,
  Option-cases,
}
use tiny_network.Net.Buffer.{
  Buffer, IsValid, contents, vector_max, extra_size, writeable_bytes, append, ensure_writable_bytes,
  delivered, read_failed, read_room, read_fd, extra_buffer,
}
use tiny_network.Net.Buffer.Contents.{writeable_bytes_lem}
use tiny_network.Net.Buffer.Append.{
  written, length-written, contents-written, written-IsValid, append-Appended,
}

-- `append` faults where fewer than `len` bytes stand behind `data`.
append_beyond :
    (b : Buffer) (source : List ℕ) (len : ℕ) → length source < len → append b source len ≡ none
unfolding append
append_beyond b source len short = elim (Option-cases (ensure_writable_bytes b len)) [
  | inl e ↦ rw e
  | inr (ready, e) ↦ rw (e, read_range_beyond source len short)
]

-- What a successful read does to the buffer.
pub record Received (b : Buffer) (bytes : List ℕ) (b' : Buffer) : Type 0 where
  pub valid : IsValid b'
  pub extended : contents b' ≡ contents b ++ bytes
  pub growth : length b'.buffer ≤ length b.buffer + length bytes

-- All delivered bytes fit into the writable part.
read_fd_direct :
    (b : Buffer) (bytes : List ℕ) (saved_errno : ℕ)
    → IsValid b
    → length bytes ≤ length b.buffer - b.writer_index
    → read_fd b (delivered bytes) saved_errno ≡ some (written b bytes, saved_errno, length bytes)
unfolding read_fd written
read_fd_direct b bytes saved_errno v fits =
    rw
      (
        writeable_bytes_lem b v,
        take_all (length b.buffer - b.writer_index) bytes fits,
        splice_fits b.buffer b.writer_index bytes (omega arith),
        le→leb _ _ fits,
        add_size_exact b.writer_index (length bytes) (omega arith),
        ge→ltb (length bytes) 0 (omega arith),
      )
      refl

-- The writable part filled to its end.
filled : Buffer → List ℕ → Buffer
filled b bytes = written b (take (length b.buffer - b.writer_index) bytes)

-- More bytes than the writable part holds: the rest comes through `extrabuff`.
read_fd_extra :
    (b : Buffer) (bytes : List ℕ) (saved_errno : ℕ)
    → IsValid b
    → length b.buffer - b.writer_index < length bytes
    → length bytes < 2 ^ 64
    → read_fd b (delivered bytes) saved_errno ≡ (
        append
          (filled b bytes)
          (extra_buffer (drop (length b.buffer - b.writer_index) bytes))
          (length bytes - (length b.buffer - b.writer_index))
        >>= λ grown. some (grown, saved_errno, length bytes))
unfolding read_fd filled written
read_fd_extra b bytes saved_errno v more small =
    let taken : length (take (length b.buffer - b.writer_index) bytes)
        ≡ length b.buffer - b.writer_index =
      omega (arith, length-take (length b.buffer - b.writer_index) bytes) in
    let end : b.writer_index + length (take (length b.buffer - b.writer_index) bytes)
        ≡ length b.buffer =
      omega (arith, taken) in
    rw
      (
        writeable_bytes_lem b v,
        splice_fits b.buffer b.writer_index (take (length b.buffer - b.writer_index) bytes)
            (omega (arith, taken)),
        gt→leb _ _ more,
        ge→ltb (length bytes) 0 (omega arith),
        sub_size_exact (length bytes) (length b.buffer - b.writer_index) (omega arith) small,
        length-splice b.buffer b.writer_index
            (b.writer_index + length (take (length b.buffer - b.writer_index) bytes))
            (take (length b.buffer - b.writer_index) bytes) refl (omega (arith, end)),
        end,
      )
      refl

length-extra_buffer :
    (rest : List ℕ) → length rest ≤ extra_size → length (extra_buffer rest) ≡ extra_size
length-extra_buffer rest h = omega (
  arith,
  length-append rest (replicate (extra_size - length rest) 0),
  length-replicate {A = ℕ} (extra_size - length rest) 0,
)

-- The two steps of a long read together.
read_fd_grown :
    (b : Buffer) (bytes : List ℕ) (saved_errno : ℕ)
    → IsValid b
    → length b.buffer + extra_size ≤ vector_max
    → length b.buffer - b.writer_index < length bytes
    → length bytes ≤ length b.buffer - b.writer_index + extra_size
    → (b' : Buffer) × (read_fd b (delivered bytes) saved_errno
        ≡ some (b', saved_errno, length bytes))
      × Received b bytes b'
unfolding filled
read_fd_grown b bytes saved_errno v space more room =
    let w = length b.buffer - b.writer_index in
    let rest = drop w bytes in
    let taken : length (take w bytes) ≡ w = omega (arith, length-take w bytes) in
    let left : length rest ≡ length bytes - w = omega (arith, length-drop w bytes) in
    let size = length-written b (take w bytes) (omega (arith, taken)) in
    let covers = length-extra_buffer rest (omega (arith, left)) in
    let (b', run, done) =
      append-Appended (filled b bytes) (extra_buffer rest) (length bytes - w)
        (written-IsValid b (take w bytes) v (omega (arith, taken))) (omega (arith, size))
        (omega (arith, covers)) in
    (
      b',
      read_fd_extra b bytes saved_errno v more (omega arith)
          ∙ ap (λ (o : Option Buffer). o >>= λ grown. some (grown, saved_errno, length bytes)) run,
      record {
        valid = done.valid;
        extended =
            done.extended
            ∙ ap₂ ◌++◌ (contents-written b (take w bytes) v) (
                take_prefix (length bytes - w) rest (replicate (extra_size - length rest) 0)
                  (sym left))
            ∙ append_assoc (contents b) (take w bytes) rest
            ∙ ap (◌++◌ (contents b)) (take-append-drop w bytes);
        growth =
            omega (arith, done.growth, size, length-take (length bytes - w) (extra_buffer rest));
      },
    )

-- A read into a valid buffer, whose vector can grow by the size of `extrabuff`, that delivers as
-- many bytes as there was room for at most does not fault: the bytes follow the contents, the
-- buffer stays valid, their count is returned, and the saved error stays.
pub read_fd-Received :
    (b : Buffer) (bytes : List ℕ) (saved_errno : ℕ)
    → IsValid b
    → length b.buffer + extra_size ≤ vector_max
    → length bytes ≤ read_room b
    → (b' : Buffer) × (read_fd b (delivered bytes) saved_errno
        ≡ some (b', saved_errno, length bytes))
      × Received b bytes b'
unfolding read_room
read_fd-Received b bytes saved_errno v space room =
    elim (dec_le (length bytes) (length b.buffer - b.writer_index)) [
      | yes fits ↦ (
        written b bytes,
        read_fd_direct b bytes saved_errno v fits,
        record {
          valid = written-IsValid b bytes v (omega arith);
          extended = contents-written b bytes v;
          growth = omega (arith, length-written b bytes (omega arith));
        },
      )
      | no more ↦
          let w = writeable_bytes_lem b v in
          read_fd_grown b bytes saved_errno v space (omega arith) (ground (arith, w))
    ]

-- There is always room for as much as `extrabuff` holds.
pub read_room-ge : (b : Buffer) → IsValid b → extra_size ≤ read_room b
unfolding read_room
read_room-ge b v = ground arith

pub read_room-le : (b : Buffer) → IsValid b → read_room b ≤ length b.buffer + extra_size
unfolding read_room
read_room-le b v = ground (arith, writeable_bytes_lem b v)

-- A failed read into a valid buffer is not reported: its count of -1 is a huge `size_t`, and
-- `readFd` faults, since it copies from behind the end of `extrabuff`.
pub read_fd_failed :
    (b : Buffer) (e saved_errno : ℕ) → IsValid b → read_fd b (read_failed e) saved_errno ≡ none
unfolding read_fd
read_fd_failed b e saved_errno v =
    rw (gt→leb (2 ^ 64 - 1) (writeable_bytes b) (omega (arith, writeable_bytes_lem b v)))
      (elim (Option-cases (splice b.buffer b.writer_index (take (writeable_bytes b) []))) [
        | inl out ↦ rw out
        | inr (storage, run) ↦
            rw
              (
                run,
                append_beyond (record b { buffer = storage; writer_index = length storage })
                    (extra_buffer (drop (writeable_bytes b) []))
                    (sub_size (2 ^ 64 - 1) (writeable_bytes b))
                    (short (writeable_bytes b) (writeable_bytes_lem b v)),
              )
              refl
      ])
  where
    short :
        (w : ℕ)
        → w ≡ length b.buffer - b.writer_index
        → length (extra_buffer (drop w [])) < sub_size (2 ^ 64 - 1) w
    short w exact = omega (
      arith,
      exact,
      sub_size_exact (2 ^ 64 - 1) w (omega (arith, exact)) (omega arith),
      length-extra_buffer (drop w []) (omega (arith, length-drop {A = ℕ} w [])),
    )
