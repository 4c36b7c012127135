-- ===== src/Net/EventLoopThread.antt =====
-- include/net/EventLoopThread.h and src/net/EventLoopThread.cpp: a thread hands its loop to the one
-- that starts it. A loop is a value of a type L, and `mine` is that of the thread.
pub mod Handshake
pub mod Ending
mod Tests
use tiny_network.Prelude.{
  ℕ, Bool, true, false, List, [], ◌∷◌, ◌++◌, Option, none, some, if◌then◌else◌,
}

-- Where `startLoop` stands: in front of `thread_.start()`, at the test of its `while` under the
-- mutex, in `wait`, or behind its return.
pub data Starter (L : Type 0) : Type 0 where
  calling checking asleep : Starter L
  returned : L → Starter L

-- Where `threadFunc` stands: not started, in front of the callback, in front of the block that
-- publishes the loop, in `loop.loop()`, in front of the last lock, or behind the function.
pub data Place : Type 0 where
  absent initialising publishing looping clearing gone : Place

module _ (L : Type 0) (mine : L) where
  pub record EventLoopThread : Type 0 where
    pub loop : Option L
    pub has_callback : Bool
    pub starter : Starter L
    pub thread : Place
    pub init_calls : List L

  unfoldable pub create : Bool → EventLoopThread
  create has_callback = record {
    loop = none;
    has_callback = has_callback;
    starter = calling;
    thread = absent;
    init_calls = [];
  }

  -- The body of the `while` under the mutex.
  unfoldable pub check_loop : Option L → Starter L
  check_loop none = asleep
  check_loop (some l) = returned l

  -- One step of `startLoop`. It can wake up at any time, notified or not.
  unfoldable pub start_step : Starter L → EventLoopThread → EventLoopThread
  start_step calling s = record s { starter = checking; thread = initialising }
  start_step checking s = record s { starter = check_loop s.loop }
  start_step asleep s = record s { starter = checking }
  start_step (returned l) s = s

  -- One step of `threadFunc`; at `looping` it is the return of `loop.loop()`.
  unfoldable pub thread_step : Place → EventLoopThread → EventLoopThread
  thread_step absent s = s
  thread_step initialising s = record s {
    init_calls = if s.has_callback then s.init_calls ++ (mine ∷ []) else s.init_calls;
    thread = publishing;
  }
  thread_step publishing s = record s { loop = some mine; thread = looping }
  thread_step looping s = record s { thread = clearing }
  thread_step clearing s = record s { loop = none; thread = gone }
  thread_step gone s = s

  pub data Action : Type 0 where
    starts threads : Action

  unfoldable pub act : Action → EventLoopThread → EventLoopThread
  act starts s = start_step s.starter s
  act threads s = thread_step s.thread s

  unfoldable pub run : List Action → EventLoopThread → EventLoopThread
  run [] s = s
  run (a ∷ rest) s = run rest (act a s)

  -- What the destructor does to the loop and to the thread.
  pub data Farewell : Type 0 where
    quits : L → Farewell
    joins detaches : Farewell

  -- The destructor, by the value of `loop_` that it reads, which no lock guards, and then that of
  -- `thread_`, which detaches a thread that was started and not joined.
  unfoldable pub destroy : EventLoopThread → List Farewell
  destroy s = elim s.loop [ some l ↦ quits l ∷ joins ∷ [] | none ↦ detaches_started s.thread ]
    where
      detaches_started : Place → List Farewell
      detaches_started absent = []
      detaches_started _ = detaches ∷ []
