-- ===== src/Net/EventLoopThreadPool/Tests.antt =====
-- src/net/EventLoopThreadPool.cpp: three loops, the second of which is next.
use tiny_network.Prelude.{ℕ, ◌+◌, ◌≡◌, true, List, [], ◌∷◌, some, arith}
use tiny_network.Net.EventLoopThreadPool.{Pool, create, set_thread_num, start, get_next_loop}
use tiny_network.Net.EventLoopThreadPool.Robin.{Turn, Rotates, get_next_loop-Rotates}

abbrev three : Pool ℕ
three = record {
  base_loop = 100;
  is_started = true;
  num_threads = 3;
  next = 1;
  loops = 101 ∷ 102 ∷ 103 ∷ [];
  init_calls = [];
}

three-Turn : Turn ℕ three
three-Turn = omega arith

get_next_loop-Rotates_example :
    (x : ℕ) × (rest : List ℕ) × (p' : Pool ℕ) × (get_next_loop ℕ three ≡ some (x, p'))
    × Rotates ℕ three x rest p'
get_next_loop-Rotates_example = get_next_loop-Rotates ℕ three three-Turn

abbrev fresh : Pool ℕ
fresh = start ℕ (λ i. 101 + i) true (set_thread_num ℕ 4 (create ℕ 100))
