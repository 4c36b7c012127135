-- ===== src/Base/ThreadPool.antt =====
-- include/base/ThreadPool.h and src/base/ThreadPool.cpp: threads that take tasks from one queue.
-- A task is an `Option`: an empty `std::function` is `none`, any other a value of a type F.
pub mod Queue
pub mod Idle
pub mod Stranded
pub mod Drain
mod Tests
use tiny_network.Prelude.{
  ℕ, zero, suc, ◌+◌, ◌≡◌, Bool, true, false, ◌&&◌, List, [], ◌∷◌, ◌++◌, Option, none, some, ◌==◌,
  if◌then◌else◌, ◌>>=◌, length, get_elem?, set, replicate,
}

-- Where a thread stands in `runInThread`: in front of the init callback, in front of taking the
-- mutex, in `wait`, at the task that it took, or behind the function.
pub data Worker (F : Type 0) : Type 0 where
  starting testing waiting : Worker F
  running : Option F → Worker F
  gone : Worker F

module _ (F : Type 0) where
  -- `added` and `taken` are what ever went into the queue and out of it, `executed` the functions
  -- that were called, in the order of the calls.
  pub record Pool : Type 0 where
    pub queue : List (Option F)
    pub is_running : Bool
    pub thread_size : ℕ
    pub has_init : Bool
    pub init_calls : ℕ
    pub workers : List (Worker F)
    pub added : List (Option F)
    pub taken : List (Option F)
    pub executed : List F

  -- The constructor, which leaves the size unset: `size` is what the memory held.
  unfoldable pub create : ℕ → Pool
  create size = record {
    queue = [];
    is_running = false;
    thread_size = size;
    has_init = false;
    init_calls = 0;
    workers = [];
    added = [];
    taken = [];
    executed = [];
  }

  unfoldable pub set_thread_size : ℕ → Pool → Pool
  set_thread_size num p = record p { thread_size = num }

  unfoldable pub set_thread_init_callback : Pool → Pool
  set_thread_init_callback p = record p { has_init = true }

  -- `start`, for a pool that has no thread yet.
  unfoldable pub start : Pool → Pool
  start p = record p {
    is_running = false;
    workers = p.workers ++ replicate p.thread_size starting;
    init_calls = if p.thread_size == 0 && p.has_init then p.init_calls + 1 else p.init_calls;
  }

  unfoldable pub stop : Pool → Pool
  stop p = record p { is_running = false }

  -- The destructor, up to joining the threads.
  unfoldable pub destroy : Pool → Pool
  destroy p = stop p

  unfoldable pub queue_size : Pool → ℕ
  queue_size p = length p.queue

  unfoldable pub add : Option F → Pool → Pool
  add task p = record p { queue = p.queue ++ (task ∷ []); added = p.added ++ (task ∷ []) }

  -- `while(queue_.empty())` under the mutex, up to the wait, the return or the task.
  unfoldable pub take_task : List (Option F) → Pool → Worker F × Pool
  take_task [] p = (if p.is_running then waiting else gone, p)
  take_task (task ∷ rest) p =
      (running task, record p { queue = rest; taken = p.taken ++ (task ∷ []) })

  -- One step of `runInThread`; `throws` tells whether the callback or task that it calls throws.
  unfoldable pub worker_step : Bool → Worker F → Pool → Worker F × Pool
  worker_step throws starting p =
      if p.has_init
      then (if throws then gone else testing, record p { init_calls = p.init_calls + 1 })
      else (testing, p)
  worker_step throws testing p = take_task p.queue p
  worker_step throws waiting p = take_task p.queue p
  worker_step throws (running none) p = (testing, p)
  worker_step throws (running (some f)) p =
      (if throws then gone else testing, record p { executed = p.executed ++ (f ∷ []) })
  worker_step throws gone p = (gone, p)

  -- What can happen, one at a time: setting the init callback, `start`, `stop`, `add`, or a step of
  -- a thread. A thread in `wait` can go on at any time, notified or not.
  pub data Action : Type 0 where
    inits starts stops : Action
    adds : Option F → Action
    works : ℕ → Bool → Action

  unfoldable pub work : ℕ → Bool → Pool → Option Pool
  work i throws p = do
    w ← get_elem? p.workers i
    let (w', p') = worker_step throws w p
    some (record p' { workers = set p.workers i w' })

  -- `none` is an action that is not possible: a second `start`, or a step of no thread.
  unfoldable pub act : Action → Pool → Option Pool
  act inits p = some (set_thread_init_callback p)
  act starts p = if length p.workers == 0 then some (start p) else none
  act stops p = some (stop p)
  act (adds task) p = some (add task p)
  act (works i throws) p = work i throws p

  -- What a pool can become.
  pub data Reaches (p : Pool) : Pool → Type 0 where
    here : Reaches p p
    next : {q r : Pool} (a : Action) → Reaches p q → act a q ≡ some r → Reaches p r
