-- ===== src/Net/EventLoopThreadPool.antt =====
-- include/net/EventLoopThreadPool.h and src/net/EventLoopThreadPool.cpp: the loops of a server, one
-- per thread, and the choice of the next one. A loop is a value of a type L.
pub mod Robin
mod Tests
use tiny_network.Prelude.{
  ℕ, zero, suc, ◌+◌, ◌^◌, Bool, true, false, ◌&&◌, List, [], ◌∷◌, ◌++◌, Option, none, some, leb,
  ◌==◌, if◌then◌else◌, ◌>>=◌, length, get_elem?, add_size,
}

module _ (L : Type 0) where
  -- `init_calls` are the loops that the callback of `start` was called with, in this thread.
  pub record Pool : Type 0 where
    pub base_loop : L
    pub is_started : Bool
    pub num_threads : ℕ
    pub next : ℕ
    pub loops : List L
    pub init_calls : List L

  unfoldable pub create : L → Pool
  create base = record {
    base_loop = base;
    is_started = false;
    num_threads = 0;
    next = 0;
    loops = [];
    init_calls = [];
  }

  unfoldable pub set_thread_num : ℕ → Pool → Pool
  set_thread_num n p = record p { num_threads = n }

  -- The loops that the first threads give; `start_loop i` is what `startLoop` of thread `i` gives.
  unfoldable pub start_loops : (ℕ → L) → ℕ → List L
  start_loops start_loop zero = []
  start_loops start_loop (suc n) = start_loops start_loop n ++ (start_loop n ∷ [])

  -- `has_callback` is `cb` as a condition.
  unfoldable pub start : (ℕ → L) → Bool → Pool → Pool
  start start_loop has_callback p = record p {
    is_started = true;
    loops = p.loops ++ start_loops start_loop p.num_threads;
    init_calls =
        if p.num_threads == 0 && has_callback
        then p.init_calls ++ (p.base_loop ∷ [])
        else p.init_calls;
  }

  -- `loops_[next_]`, and the step of `next_`; `none` is an index outside `loops_`.
  unfoldable pub next_in_turn : Pool → Option (L × Pool)
  next_in_turn p = do
    loop ← get_elem? p.loops p.next
    let next = add_size p.next 1
    some (loop, record p { next = if leb (length p.loops) next then 0 else next })

  unfoldable pub get_next_loop : Pool → Option (L × Pool)
  get_next_loop p = if length p.loops == 0 then some (p.base_loop, p) else next_in_turn p

  unfoldable pub get_all_loops : Pool → List L
  get_all_loops p = if length p.loops == 0 then p.base_loop ∷ [] else p.loops

  -- Several choices in a row.
  unfoldable pub get_loops : ℕ → Pool → Option (List L × Pool)
  get_loops zero p = some ([], p)
  get_loops (suc n) p = do
    first ← get_next_loop p
    rest ← get_loops n first.1
    some (first.0 ∷ rest.0, rest.1)
