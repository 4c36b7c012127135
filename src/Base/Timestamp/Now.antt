-- ===== src/Base/Timestamp/Now.antt =====
-- include/base/Timestamp.h: seconds and order of timestamps.
use tiny_network.Prelude.{ℕ, ◌<◌, ◌^◌, ◌≡◌, true, some, ltb, arith}
use tiny_network.Prelude.Int.{pos, negsuc}
use tiny_network.Base.Timestamp.{Timestamp, now, seconds_since_epoch, is_before, add_time}

-- `gettimeofday` stores less than a million microseconds; its seconds come back.
pub seconds_since_epoch-now :
    (tv_sec tv_usec : ℕ) → tv_usec < 1000000 → seconds_since_epoch (now tv_sec tv_usec) ≡ tv_sec
unfolding seconds_since_epoch now
seconds_since_epoch-now tv_sec tv_usec h = omega arith

-- Adding a time keeps an `int64_t`, and moves the timestamp forwards exactly if it is positive.
pub add_time-is_before :
    (t u : Timestamp) (delta : ℕ)
    → t.micro_seconds_since_epoch < 2 ^ 63
    → (add_time t (pos delta) ≡ some u
        → (u.micro_seconds_since_epoch < 2 ^ 63) × (is_before t u ≡ ltb 0 delta))
      × (add_time t (negsuc delta) ≡ some u
          → (u.micro_seconds_since_epoch < 2 ^ 63) × (is_before u t ≡ true))
unfolding add_time is_before
add_time-is_before t u delta small = (λ h. forwards h, λ h. backwards h)
  where
    forwards :
        add_time t (pos delta) ≡ some u
        → (u.micro_seconds_since_epoch < 2 ^ 63) × (is_before t u ≡ ltb 0 delta)
    forwards h = ground arith

    backwards :
        add_time t (negsuc delta) ≡ some u
        → (u.micro_seconds_since_epoch < 2 ^ 63) × (is_before u t ≡ true)
    backwards h = ground arith
