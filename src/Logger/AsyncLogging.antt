-- ===== src/Logger/AsyncLogging.antt =====
-- include/logger/AsyncLogging.h and src/logger/AsyncLogging.cpp: lines go into buffers in front of
-- a mutex, and a thread of its own takes full buffers to the log file. An empty `unique_ptr` is
-- `none`; the fault of using one, or of `back()` on an empty vector, is `none` for the whole call.
pub mod Inv
pub mod Delivery
pub mod Recycle
pub mod Rounds
mod Tests
use tiny_network.Prelude.{
  ℕ, zero, suc, ◌+◌, Bool, true, false, List, [], ◌∷◌, ◌++◌, Option, none, some, ltb, if◌then◌else◌,
  ◌>>=◌, length, take,
}
use tiny_network.Logger.FixedBuffer
use tiny_network.Logger.FixedBuffer.{FixedBuffer, avail}

-- Where `ThreadFunc` stands: at the condition of its `while`, in front of or in `wait_for`, at the
-- buffers that are left to write, or behind the loop.
pub data Phase : Type 0 where
  testing collecting : Phase
  writing : List FixedBuffer → Phase
  ended : Phase

-- The members, the local variables of `ThreadFunc`, and the buffers given to the log file so far.
pub record Logging : Type 0 where
  pub current : Option FixedBuffer
  pub next : Option FixedBuffer
  pub buffers : List FixedBuffer
  pub running : Bool
  pub new1 : Option FixedBuffer
  pub new2 : Option FixedBuffer
  pub to_write : List FixedBuffer
  pub phase : Phase
  pub output : List FixedBuffer

-- `back()` and `pop_back()`.
unfoldable pub pop_back {ℓ} : {A : Type ℓ} → List A → Option (A × List A)
pop_back [] = none
pop_back (x ∷ []) = some (x, [])
pop_back (x ∷ (y ∷ ys)) = pop_back (y ∷ ys) >>= λ r. some (r.0, x ∷ r.1)

-- `if(!newBuffer) { … }`: the last of the written buffers is used again.
unfoldable pub refill :
    Option FixedBuffer → List FixedBuffer → Option (Option FixedBuffer × List FixedBuffer)
refill (some b) written = some (some b, written)
refill none written = pop_back written >>= λ r. some (some (FixedBuffer.reset r.0), r.1)

-- `if(buffersToWrite.size() > 2) buffersToWrite.resize(2)`
unfoldable pub keep_two : List FixedBuffer → List FixedBuffer
keep_two written = if ltb 2 (length written) then take 2 written else written

-- A new buffer has the bytes that the memory held, as many as its size.
module _ (memory : List ℕ) where
  unfoldable pub new_buffer : FixedBuffer
  new_buffer = record { size = length memory; bytes = memory; cur = 0 }

  -- The constructor; there is no thread yet.
  unfoldable pub create : Logging
  create = record {
    current = some (FixedBuffer.bzero new_buffer);
    next = some (FixedBuffer.bzero new_buffer);
    buffers = [];
    running = false;
    new1 = none;
    new2 = none;
    to_write = [];
    phase = ended;
    output = [];
  }

  -- `start`, with the first lines of `ThreadFunc`.
  unfoldable pub start : Logging → Logging
  start s = record s {
    running = true;
    new1 = some (FixedBuffer.bzero new_buffer);
    new2 = some (FixedBuffer.bzero new_buffer);
    to_write = [];
    phase = testing;
  }

  -- A log that was made and started.
  unfoldable pub started : Logging
  started = start create

  -- The buffer that takes the place of a full one.
  unfoldable pub next_or_new : Option FixedBuffer → FixedBuffer
  next_or_new (some b) = b
  next_or_new none = new_buffer

  -- `append`, which holds the mutex from its start to its end, by its `currentBuffer_`.
  unfoldable pub append_to : Option FixedBuffer → List ℕ → Logging → Option Logging
  append_to none line s = none
  append_to (some c) line s =
      if ltb (length line) (avail c)
      then (do c' ← FixedBuffer.append c line (length line); some (record s { current = some c' }))
      else (do
        c' ← FixedBuffer.append (next_or_new s.next) line (length line)
        some (record s { current = some c'; next = none; buffers = s.buffers ++ (c ∷ []) }))

  unfoldable pub append : List ℕ → Logging → Option Logging
  append line s = append_to s.current line s

  unfoldable pub stop : Logging → Logging
  stop s = record s { running = false }

  -- The destructor, up to joining the thread.
  unfoldable pub destroy : Logging → Logging
  destroy s = if s.running then stop s else s

  -- The locked block of `ThreadFunc`, behind its wait, by `currentBuffer_` and `nextBuffer_`. The
  -- vector that it swaps in is `to_write`.
  unfoldable pub collect_from : Option FixedBuffer → Option FixedBuffer → Logging → Option Logging
  collect_from none next s = none
  collect_from (some c) none s =
      let filled = s.buffers ++ (c ∷ []) in
      some (record s {
        current = s.new1;
        new1 = none;
        buffers = s.to_write;
        to_write = filled;
        next = s.new2;
        new2 = none;
        phase = writing filled;
      })
  collect_from (some c) (some b) s =
      let filled = s.buffers ++ (c ∷ []) in
      some (record s {
        current = s.new1;
        new1 = none;
        buffers = s.to_write;
        to_write = filled;
        phase = writing filled;
      })

  unfoldable pub collect : Logging → Option Logging
  collect s = collect_from s.current s.next s

  -- The end of the round: spare buffers, and the vector is cleared.
  unfoldable pub recycle_with :
      Option FixedBuffer → Option FixedBuffer → List FixedBuffer → Logging → Option Logging
  recycle_with new1 new2 written s = do
    first ← refill new1 (keep_two written)
    second ← refill new2 first.1
    some (record s { new1 = first.0; new2 = second.0; to_write = []; phase = testing })

  unfoldable pub recycle : Logging → Option Logging
  recycle s = recycle_with s.new1 s.new2 s.to_write s

  -- One step of `ThreadFunc`.
  unfoldable pub thread_step : Phase → Logging → Option Logging
  thread_step testing s =
      some (if s.running then record s { phase = collecting } else record s { phase = ended })
  thread_step collecting s = collect s
  thread_step (writing (b ∷ bs)) s =
      some (record s { output = s.output ++ (b ∷ []); phase = writing bs })
  thread_step (writing []) s = recycle s
  thread_step ended s = some s

  -- What threads do, one at a time: append a line, stop the log, or one step of its thread.
  pub data Action : Type 0 where
    appends : List ℕ → Action
    stops works : Action

  unfoldable pub act : Action → Logging → Option Logging
  act (appends line) s = append line s
  act stops s = some (stop s)
  act works s = thread_step s.phase s

  unfoldable pub run : List Action → Logging → Option Logging
  run [] s = some s
  run (a ∷ rest) s = act a s >>= run rest
