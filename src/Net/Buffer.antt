-- ===== src/Net/Buffer.antt =====
-- include/net/Buffer.h and src/net/Buffer.cpp: the byte buffer of a connection.
-- A byte is a number. `none` is an access outside an array, or `std::length_error` of a vector
-- that would be larger than `vector_max`; memory itself does not run out.
pub mod Contents
pub mod Room
pub mod Append
pub mod Descriptor
pub mod Queue
mod Tests
use tiny_network.Prelude.{
  ℕ, ◌+◌, ◌-◌, ◌≤◌, ◌<◌, ◌^◌, List, [], ◌++◌, Option, none, some, ltb, leb, if◌then◌else◌, ◌>>=◌,
  length, take, drop, replicate, slice, read_range, splice, add_size, sub_size, through_int,
}

abbrev pub cheap_prepend : ℕ
cheap_prepend = 8

-- `max_size()` of a vector of char.
abbrev pub vector_max : ℕ
vector_max = 2 ^ 63 - 1

pub record Buffer : Type 0 where
  pub buffer : List ℕ
  pub reader_index : ℕ
  pub writer_index : ℕ

-- `std::vector<char>(n)` and `resize(n)`: new items are zero.
pub resize : List ℕ → ℕ → Option (List ℕ)
resize xs n = if ltb vector_max n then none else some (take n (xs ++ replicate (n - length xs) 0))

pub create : ℕ → Option Buffer
create initial_size = do
  storage ← resize [] (add_size cheap_prepend initial_size)
  some (record { buffer = storage; reader_index = cheap_prepend; writer_index = cheap_prepend })

unfoldable pub readable_bytes : Buffer → ℕ
readable_bytes b = sub_size b.writer_index b.reader_index

unfoldable pub writeable_bytes : Buffer → ℕ
writeable_bytes b = sub_size (length b.buffer) b.writer_index

pub prependable_bytes : Buffer → ℕ
prependable_bytes b = b.reader_index

-- The memory of the vector from `peek()` on.
pub peek : Buffer → List ℕ
peek b = drop b.reader_index b.buffer

pub retrieve_all : Buffer → Buffer
retrieve_all b = record b { reader_index = cheap_prepend; writer_index = cheap_prepend }

pub retrieve : Buffer → ℕ → Buffer
retrieve b len =
    if ltb len (readable_bytes b)
    then record b { reader_index = add_size b.reader_index len }
    else retrieve_all b

-- `end` is given by its index in the vector.
pub retrieve_until : Buffer → ℕ → Buffer
retrieve_until b end_index = retrieve b (sub_size end_index b.reader_index)

pub get_buffer_all_as_string : Buffer → Option (List ℕ)
get_buffer_all_as_string b = read_range (peek b) (readable_bytes b)

pub retrieve_as_string : Buffer → ℕ → Option (List ℕ × Buffer)
retrieve_as_string b len = do result ← read_range (peek b) len; some (result, retrieve b len)

pub retrieve_all_as_string : Buffer → Option (List ℕ × Buffer)
retrieve_all_as_string b = retrieve_as_string b (readable_bytes b)

-- The parameter is an `int`. The copied range is read whole before it is written: `std::copy`
-- goes forward, and its target lies in front of the range.
pub make_space : Buffer → ℕ → Option Buffer
make_space b size =
    let len = through_int size in
    if ltb (add_size (writeable_bytes b) (prependable_bytes b)) (add_size len cheap_prepend)
    then (do
      storage ← resize b.buffer (add_size b.writer_index len)
      some (record b { buffer = storage }))
    else (do
      let readable = readable_bytes b
      moved ← read_range (drop b.reader_index b.buffer) readable
      storage ← splice b.buffer cheap_prepend moved
      some (record {
        buffer = storage;
        reader_index = cheap_prepend;
        writer_index = add_size cheap_prepend readable;
      }))

pub ensure_writable_bytes : Buffer → ℕ → Option Buffer
ensure_writable_bytes b len = if ltb (writeable_bytes b) len then make_space b len else some b

-- `append(data, len)`: `bytes` is the memory that `data` points to.
pub append : Buffer → List ℕ → ℕ → Option Buffer
append b bytes len = do
  ready ← ensure_writable_bytes b len
  source ← read_range bytes len
  storage ← splice ready.buffer ready.writer_index source
  some (record ready { buffer = storage; writer_index = add_size ready.writer_index len })

pub append_string : Buffer → List ℕ → Option Buffer
append_string b str = append b str (length str)

-- The outcome of a read or write on a descriptor. A read delivers bytes.
pub data ReadResult : Type 0 where
  delivered : List ℕ → ReadResult
  read_failed : ℕ → ReadResult

pub data WriteResult : Type 0 where
  wrote : ℕ → WriteResult
  write_failed : ℕ → WriteResult

abbrev pub extra_size : ℕ
extra_size = 65536

-- The room that `readv` is given.
unfoldable pub read_room : Buffer → ℕ
read_room b =
    let writable = writeable_bytes b in
    if ltb writable extra_size then writable + extra_size else writable

-- The count that `readv` returns, kept in a `size_t`: -1 is the largest value.
abbrev read_count : ReadResult → ℕ
read_count (delivered bytes) = length bytes
read_count (read_failed e) = 2 ^ 64 - 1

-- The bytes that `readv` puts into memory: none if it fails.
abbrev read_bytes : ReadResult → List ℕ
read_bytes (delivered bytes) = bytes
read_bytes (read_failed e) = []

-- `extrabuff` behind its first bytes is zero.
abbrev extra_buffer : List ℕ → List ℕ
extra_buffer bytes = bytes ++ replicate (extra_size - length bytes) 0

abbrev error_of : ReadResult → ℕ → ℕ
error_of (delivered bytes) saved = saved
error_of (read_failed e) saved = e

-- `readFd`: the buffer, `*saveErrno` and the count returned. `readv` fills the writable part
-- first and `extrabuff` behind it.
pub read_fd : Buffer → ReadResult → ℕ → Option (Buffer × ℕ × ℕ)
read_fd b result saved_errno =
    let writable = writeable_bytes b in
    let n = read_count result in
    let bytes = read_bytes result in
    do
      storage ← splice b.buffer b.writer_index (take writable bytes)
      let filled = record b { buffer = storage }
      if ltb n 0
          then some (filled, error_of result saved_errno, n)
          else if leb n writable
          then some (record filled { writer_index = add_size b.writer_index n }, saved_errno, n)
          else (do
            grown ←
                append (record filled { writer_index = length storage })
                  (extra_buffer (drop writable bytes)) (sub_size n writable)
            some (grown, saved_errno, n))

-- `writeFd`: `*saveErrno` and the count returned, `none` for -1. The buffer does not change.
unfoldable pub write_fd : Buffer → WriteResult → ℕ → ℕ × Option ℕ
write_fd b (wrote n) saved_errno = (saved_errno, some n)
write_fd b (write_failed e) saved_errno = (e, none)

-- Indices in order, and a vector below the largest size.
pub record IsValid (b : Buffer) : Type 0 where
  pub prepend_kept : cheap_prepend ≤ b.reader_index
  pub ordered : b.reader_index ≤ b.writer_index
  pub within : b.writer_index ≤ length b.buffer
  pub small : length b.buffer ≤ vector_max

-- The bytes that a reader sees, oldest first.
unfoldable pub contents : Buffer → List ℕ
contents b = slice b.buffer b.reader_index (b.writer_index - b.reader_index)
