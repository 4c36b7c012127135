-- ===== src/Net/TcpServer/Shutdown.antt =====
-- src/net/TcpServer.cpp: starting more than once.
use tiny_network.Prelude.{ℕ, zero, suc, ◌+◌, ◌-◌, ◌%◌, ◌^◌, ne→==, ◌<◌, ◌≡◌, refl, ◌∙◌, ap, arith}
use tiny_network.Net.TcpServer.{Server, emit, start, start_times}

module _ (L F : Type 0) where
  started_again :
      (start_loop : ℕ → L) (n : ℕ) (s : Server L F)
      → 0 < s.started
      → s.started + n < 2 ^ 32
      → start_times L F start_loop n s ≡ record s { started = s.started + n }
  unfolding start_times start
  started_again start_loop zero s h small =
      let same : s.started ≡ s.started + 0 = omega arith in ap (λ k. record s { started = k }) same
  started_again start_loop (suc n) s h small =
      let next : (s.started + 1) % 2 ^ 32 ≡ s.started + 1 = omega (arith, small) in
      rw (ne→== s.started 0 (λ e. omega (arith, h, e))) (
        started_again start_loop n (record s { started = (s.started + 1) % 2 ^ 32 })
          (omega (arith, next)) (omega (arith, next, small))
        ∙ ap (λ k. record s { started = k }) (omega (arith, next)))

  counts_first :
      (start_loop : ℕ → L) (s : Server L F) → s.started ≡ 0 → (start L F start_loop s).started ≡ 1
  unfolding start emit
  counts_first start_loop s fresh = rw fresh refl

  -- However often `start` of a server that was not started is called, from once to 2 ^ 32 - 1 times: the
  -- server is as after one call but for the count, so that the threads are started and the listening
  -- is scheduled once.
  pub start_times_lem :
      (start_loop : ℕ → L) (n : ℕ) (s : Server L F)
      → s.started ≡ 0
      → n < 2 ^ 32 - 1
      → start_times L F start_loop (suc n) s ≡ record (start L F start_loop s) { started = suc n }
  unfolding start_times
  start_times_lem start_loop n s fresh small =
      let first = counts_first start_loop s fresh in
      started_again start_loop n (start L F start_loop s) (omega (arith, first))
        (omega (arith, first, small))
      ∙ ap (λ k. record (start L F start_loop s) { started = k }) (omega (arith, first))
