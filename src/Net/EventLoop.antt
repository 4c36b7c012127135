-- ===== src/Net/EventLoop.antt =====
-- include/net/Eventloop.h and src/net/EventLoop.cpp: one loop, and the functions that other
-- threads hand to it. A function is a value of a type F; the loop is a machine whose steps are the
-- parts of its code between which other threads can act.
pub mod Kernel
pub mod Run
pub mod Awake
pub mod Wakeup
pub mod Drain
pub mod Object
pub mod Lifetime
pub mod Timers
pub mod Dispatch
mod Tests
use tiny_network.Prelude.{
  ℕ, zero, suc, ◌+◌, Bool, true, false, not, ◌&&◌, ◌||◌, List, [], ◌∷◌, ◌++◌, Option, none, some,
  if◌then◌else◌,
}
use Kernel.{EventFd}

pub data Message : Type 0 where
  wakeup_failed read_failed : Message

-- A channel that `poll` reported: the one of the wakeup descriptor, or any other.
pub data Active : Type 0 where
  wakeup_channel other_channel : Active

-- Where the thread of the loop stands: outside `loop()`, at the condition of its `while`, in
-- `poll`, at the handlers of the channels that are left, between setting
-- `callingPendingFunctors_` and the swap, and at the functors that are left.
pub data Phase (F : Type 0) : Type 0 where
  idle checking polling : Phase F
  handling : List Active → Phase F
  calling : Phase F
  running : List F → Phase F

module _ (e : EventFd) (F : Type 0) where
  open e use {State, write_one, write_ok, read_all, read_ok}

  -- `unwoken` counts other threads that are in `queueInLoop` behind its locked block, and
  -- `mid_queue` tells whether the thread of the loop is. `queued` and `executed` are what was ever
  -- queued and run from the queue, and `direct` what `runInLoop` called at once.
  pub record Loop : Type 0 where
    pub phase : Phase F
    pub looping : Bool
    pub quit : Bool
    pub calling_pending : Bool
    pub pending : List F
    pub wakeup_fd : State
    pub unwoken : ℕ
    pub mid_queue : Bool
    pub queued : List F
    pub executed : List F
    pub direct : List F
    pub log : List Message

  unfoldable pub create : State → Loop
  create s = record {
    phase = idle;
    looping = false;
    quit = false;
    calling_pending = false;
    pending = [];
    wakeup_fd = s;
    unwoken = 0;
    mid_queue = false;
    queued = [];
    executed = [];
    direct = [];
    log = [];
  }

  unfoldable pub wakeup : Loop → Loop
  wakeup s = record s {
    wakeup_fd = write_one s.wakeup_fd;
    log = if write_ok s.wakeup_fd then s.log else s.log ++ (wakeup_failed ∷ []);
  }

  unfoldable pub handle_read : Loop → Loop
  handle_read s = record s {
    wakeup_fd = read_all s.wakeup_fd;
    log = if read_ok s.wakeup_fd then s.log else s.log ++ (read_failed ∷ []);
  }

  -- The two parts of `queueInLoop`: the locked block, and the test behind it.
  unfoldable pub push : F → Loop → Loop
  push f s = record s { pending = s.pending ++ (f ∷ []); queued = s.queued ++ (f ∷ []) }

  unfoldable pub notify : Bool → Loop → Loop
  notify in_loop s = if not in_loop || s.calling_pending then wakeup s else s

  pub queue_in_loop : F → Bool → Loop → Loop
  queue_in_loop f in_loop s = notify in_loop (push f s)

  pub run_in_loop : F → Bool → Loop → Loop
  run_in_loop f in_loop s =
      if in_loop then record s { direct = s.direct ++ (f ∷ []) } else queue_in_loop f false s

  pub quits : Bool → Loop → Loop
  quits in_loop s = let s' = record s { quit = true } in if in_loop then wakeup s' else s'

  -- `doPendingFunctors` up to the swap, the swap, and the loop over `functors` with its end.
  unfoldable pub start_calling : Loop → Loop
  start_calling s = record s { phase = calling; calling_pending = true }

  unfoldable pub swap_pending : Loop → Loop
  swap_pending s = record s { phase = running s.pending; pending = [] }

  unfoldable pub run_functors : List F → Loop → Loop
  run_functors [] s = record s { phase = checking; calling_pending = false }
  run_functors (f ∷ fs) s = record s { phase = running fs; executed = s.executed ++ (f ∷ []) }

  -- `handleEvent` of the next active channel. What a handler of a user does is actions of its own.
  unfoldable pub handle_active : List Active → Loop → Loop
  handle_active [] s = start_calling s
  handle_active (wakeup_channel ∷ cs) s = record (handle_read s) { phase = handling cs }
  handle_active (other_channel ∷ cs) s = record s { phase = handling cs }

  -- One step of `loop()`; `active` is what `poll` gives if that is the step.
  unfoldable pub loop_step : Phase F → List Active → Loop → Loop
  loop_step idle active s = record s { phase = checking; looping = true; quit = false }
  loop_step checking active s =
      if s.quit then record s { phase = idle; looping = false } else record s { phase = polling }
  loop_step polling active s = record s { phase = handling active }
  loop_step (handling cs) active s = handle_active cs s
  loop_step calling active s = swap_pending s
  loop_step (running fs) active s = run_functors fs s
