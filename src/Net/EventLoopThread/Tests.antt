-- ===== src/Net/EventLoopThread/Tests.antt =====
-- src/net/EventLoopThread.cpp: a thread whose loop is 100.
use tiny_network.Prelude.{ℕ, ◌≡◌, refl, true, false, List, [], ◌∷◌}
use tiny_network.Net.EventLoopThread.{
  create, returned, run, act, start_step, thread_step, check_loop, Action, starts, threads,
}
use tiny_network.Net.EventLoopThread.Handshake.{is_published, start_loop-Published}
use tiny_network.Net.EventLoopThread.Ending.{early_end, is_returned, start_loop_stuck}

-- The starter finds no loop, waits, and finds it when the thread is in it.
abbrev schedule : List (Action ℕ 100)
schedule = starts ∷ threads ∷ starts ∷ threads ∷ starts ∷ starts ∷ threads ∷ []

schedule_returns : (run ℕ 100 schedule (create ℕ 100 true)).starter ≡ returned 100
unfolding create run act start_step thread_step check_loop
schedule_returns = refl

start_loop-Published_example :
    (◌≡◌ {A = ℕ} 100 100)
    × (is_published (run ℕ 100 schedule (create ℕ 100 true)).thread ≡ true)
    × ((run ℕ 100 schedule (create ℕ 100 true)).init_calls ≡ 100 ∷ [])
start_loop-Published_example = start_loop-Published ℕ 100 true schedule 100 schedule_returns

start_loop_stuck_example :
    is_returned ℕ 100
      (run ℕ 100 schedule (run ℕ 100 (early_end ℕ 100) (create ℕ 100 false))).starter
    ≡ false
start_loop_stuck_example = start_loop_stuck ℕ 100 false schedule
