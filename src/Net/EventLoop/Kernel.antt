-- ===== src/Net/EventLoop/Kernel.antt =====
-- The kernel's event descriptor, as eventfd(2) documents it: what src/net/EventLoop.cpp relies on.
use tiny_network.Prelude.{◌≡◌, Bool, true, false}

-- After a write the descriptor is readable, whether the write succeeded or the counter was full; a
-- read sets the counter back.
pub record EventFd : Type 1 where
  pub State : Type 0
  pub readable : State → Bool
  pub write_ok : State → Bool
  pub write_one : State → State
  pub read_ok : State → Bool
  pub read_all : State → State
  pub write_readable : (s : State) → readable (write_one s) ≡ true
  pub read_reset : (s : State) → readable (read_all s) ≡ false
