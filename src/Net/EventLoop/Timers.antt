-- ===== src/Net/EventLoop/Timers.antt =====
-- include/net/Eventloop.h: what `runAt`, `runAfter` and `runEvery` ask of the
-- timer queue, which has no implementation. An interval is a value of a type D, for the doubles:
-- `zero_interval` is 0.0, and `micros` the conversion in `addTime`.
use tiny_network.Prelude.{Option, some, ◌>>=◌}
use tiny_network.Prelude.Int.{ℤ}
use tiny_network.Base.Timestamp.{Timestamp, add_time}

module _ (D : Type 0) (zero_interval : D) (micros : D → ℤ) where
  -- The arguments of `addTimer` but for the callback.
  pub record TimerCall : Type 0 where
    pub when_ : Timestamp
    pub interval : D

  unfoldable pub run_at : Timestamp → TimerCall
  run_at timestamp = record { when_ = timestamp; interval = zero_interval }

  -- `now` is the time of the call; `none` as in `addTime`.
  unfoldable pub run_after : Timestamp → D → Option TimerCall
  run_after now wait_time = do when ← add_time now (micros wait_time); some (run_at when)

  unfoldable pub run_every : Timestamp → D → Option TimerCall
  run_every now interval = do
    when ← add_time now (micros interval)
    some (record { when_ = when; interval = interval })
