-- ===== src/Timer.antt =====
-- include/timer/Timer.h and src/timer/Timer.cpp: a timer and its restart. An interval is a value of
-- a type D, for the doubles: `is_positive` is `> 0.0`, and `micros` the conversion in `addTime`.
-- The callback is left out.
use tiny_network.Prelude.{Bool, if◌then◌else◌, Option, some, ◌>>=◌}
use tiny_network.Prelude.Int.{ℤ}
use tiny_network.Base.Timestamp.{Timestamp, invalid, add_time}

module _ (D : Type 0) (is_positive : D → Bool) (micros : D → ℤ) where
  pub record Timer : Type 0 where
    pub expiration : Timestamp
    pub interval : D
    pub repeat : Bool

  unfoldable pub create : Timestamp → D → Timer
  create when interval = record {
    expiration = when;
    interval = interval;
    repeat = is_positive interval;
  }

  -- `none` as in `addTime`.
  unfoldable pub restart : Timestamp → Timer → Option Timer
  restart now t =
      if t.repeat
      then (do when ← add_time now (micros t.interval); some (record t { expiration = when }))
      else some (record t { expiration = invalid })
