-- ===== src/Logger/FixedBuffer.antt =====
-- include/logger/FixedBuffer.h: an array of SIZE bytes with a write position. `none` is a write
-- outside the array.
pub mod Laws
use tiny_network.Prelude.{
  ℕ, ◌+◌, ◌-◌, ◌≤◌, ◌<◌, ◌^◌, ◌≡◌, Bool, List, ◌++◌, Option, none, some, ltb, leb, ◌&&◌,
  if◌then◌else◌, ◌>>=◌, length, take, replicate, read_range, splice, add_size, sub_size,
}

-- `bytes` is `data_`, whose length is SIZE, and `cur` the offset of `cur_`.
pub record FixedBuffer : Type 0 where
  pub size : ℕ
  pub bytes : List ℕ
  pub cur : ℕ

-- `end() - cur_`, as a 64-bit pattern.
unfoldable pub avail : FixedBuffer → ℕ
avail b = sub_size b.size b.cur

unfoldable pub append : FixedBuffer → List ℕ → ℕ → Option FixedBuffer
append b source len =
    if ltb len (avail b)
    then (do
      line ← read_range source len
      bytes ← splice b.bytes b.cur line
      some (record b { bytes = bytes; cur = add_size b.cur len }))
    else some b

-- `end() - data_`.
unfoldable pub length_of : FixedBuffer → ℕ
length_of b = b.size

unfoldable pub add : FixedBuffer → ℕ → FixedBuffer
add b len = record b { cur = add_size b.cur len }

unfoldable pub reset : FixedBuffer → FixedBuffer
reset b = record b { cur = 0 }

unfoldable pub bzero : FixedBuffer → FixedBuffer
bzero b = record b { bytes = replicate b.size 0 }

unfoldable pub to_string : FixedBuffer → Option (List ℕ)
to_string b = read_range b.bytes (length_of b)

pub record IsValid (b : FixedBuffer) : Type 0 where
  pub sized : length b.bytes ≡ b.size
  pub within : b.cur ≤ b.size
  pub small : b.size < 2 ^ 31

-- What was appended since the last `reset`.
unfoldable pub text : FixedBuffer → List ℕ
text b = take b.cur b.bytes
