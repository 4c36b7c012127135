-- ===== src/Base/Timestamp.antt =====
-- include/base/Timestamp.h and src/base/Timestamp.cpp: microseconds since 1970.
-- `toString` has no definition.
pub mod Now
pub mod Formatted
mod Tests
use tiny_network.Prelude.{
  ℕ, ◌+◌, ◌-◌, ◌*◌, ◌/◌, ◌^◌, Bool, ltb, ◌==◌, if◌then◌else◌, Option, some, none,
}
use tiny_network.Prelude.Int.{ℤ, pos, negsuc}

pub record Timestamp : Type 0 where
  pub micro_seconds_since_epoch : ℕ

abbrev pub micro_seconds_per_second : ℕ
micro_seconds_per_second = 1000000

unfoldable pub invalid : Timestamp
invalid = record { micro_seconds_since_epoch = 0 }

-- `now`, with what `gettimeofday` stores.
unfoldable pub now : ℕ → ℕ → Timestamp
now tv_sec tv_usec = record {
  micro_seconds_since_epoch = tv_sec * micro_seconds_per_second + tv_usec;
}

unfoldable pub seconds_since_epoch : Timestamp → ℕ
seconds_since_epoch t = t.micro_seconds_since_epoch / micro_seconds_per_second

-- `operator<` and `operator==`.
unfoldable pub is_before : Timestamp → Timestamp → Bool
is_before l r = ltb l.micro_seconds_since_epoch r.micro_seconds_since_epoch

unfoldable pub is_same : Timestamp → Timestamp → Bool
is_same l r = l.micro_seconds_since_epoch == r.micro_seconds_since_epoch

-- `addTime`; `delta` is the number of seconds as microseconds, which is computed with doubles.
-- `none` is a sum that no `int64_t` holds, or a time before 1970, which stands for no value here.
unfoldable pub add_time : Timestamp → ℤ → Option Timestamp
add_time t (pos delta) =
    if ltb (t.micro_seconds_since_epoch + delta) (2 ^ 63)
    then some (record { micro_seconds_since_epoch = t.micro_seconds_since_epoch + delta })
    else none
add_time t (negsuc delta) =
    if ltb delta t.micro_seconds_since_epoch
    then some (record { micro_seconds_since_epoch = t.micro_seconds_since_epoch - (delta + 1) })
    else none
