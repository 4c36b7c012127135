-- ===== src/Base/ThreadPool/Tests.antt =====
-- src/base/ThreadPool.cpp: two threads and three tasks.
use tiny_network.Prelude.{ℕ, ◌≡◌, refl, false, [], ◌∷◌, none, some, arith}
use tiny_network.Base.ThreadPool.{
  Pool, create, start, add, starts, adds, works, act, work, worker_step, take_task, Reaches, here,
  next, testing, running,
}
use tiny_network.Base.ThreadPool.Queue.{Conserved, Reaches-Conserved}
use tiny_network.Base.ThreadPool.Idle.{AllGone}
use tiny_network.Base.ThreadPool.Stranded.{start_strands}
use tiny_network.Base.ThreadPool.Drain.{work_times, calls, Drained, work_times-Drained}

-- The first thread has taken function 7, the second has not begun.
abbrev busy : Pool ℕ
busy = record {
  queue = none ∷ [];
  is_running = false;
  thread_size = 1;
  has_init = false;
  init_calls = 0;
  workers = running (some 7) ∷ [];
  added = some 7 ∷ none ∷ [];
  taken = some 7 ∷ [];
  executed = [];
}

busy_reached : Reaches ℕ (create ℕ 1) busy
unfolding act work worker_step take_task create start add
busy_reached =
    next (works 0 false)
      (next (works 0 false)
        (next (adds none) (next (adds (some 7)) (next starts here refl) refl) refl) refl)
      refl

Reaches-Conserved_example : Conserved busy
Reaches-Conserved_example = Reaches-Conserved 1 busy busy_reached

start_strands_example :
    (p : Pool ℕ) × Reaches ℕ (create ℕ 4) p
    × AllGone ℕ p.workers
    × ((q : Pool ℕ) → Reaches ℕ p q → q.executed ≡ [])
start_strands_example = start_strands ℕ 4 (omega arith)

abbrev loaded : Pool ℕ
loaded = record busy { workers = testing ∷ []; queue = some 7 ∷ none ∷ some 8 ∷ []; taken = [] }

work_times-Drained_example :
    (p' : Pool ℕ) × (work_times ℕ 7 0 loaded ≡ some p')
    × Drained ℕ 0 (calls ℕ (some 7 ∷ none ∷ some 8 ∷ [])) p'
work_times-Drained_example = work_times-Drained ℕ 0 loaded refl refl
