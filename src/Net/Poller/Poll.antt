-- ===== src/Net/Poller/Poll.antt =====
-- src/net/poller/EpollPoller.cpp: what `poll` makes of the result of `epoll_wait`.
use tiny_network.Prelude.{
  ℕ, ◌*◌, ◌%◌, ◌^◌, ◌≤◌, ◌<◌, ◌≡◌, List, [], ◌∷◌, ◌++◌, arith, ◌==◌, if◌then◌else◌, length, map,
  take_all, lt→ltb, ne→==,
}
use tiny_network.Net.Poller.Kernel.{Epoll}
use tiny_network.Net.Channel.{Channel}
use tiny_network.Net.Poller.{
  Poller, poll, fill_active_channels, mark_all, handle_at, ready, wait_failed, timeout,
}

module _ (e : Epoll) where
  -- Events that fit a non-empty event list of fewer than 2 ^ 31 entries all become active channels,
  -- in their order, and each channel gets its `revents_`; the list doubles exactly when it was
  -- full; a wait with no event logs the timeout, and nothing else is logged.
  pub poll_ready :
      (p : Poller e) (events : List (ℕ × ℕ)) (cs : List Channel)
      → 0 < p.capacity
      → length events ≤ p.capacity
      → p.capacity < 2 ^ 31
      → let (active, cs', p') = poll e (ready events) cs p in
        (active ≡ map handle_at events)
        × (cs' ≡ mark_all events cs)
        × (p'.capacity ≡ (if length events == p.capacity then p.capacity * 2 else p.capacity))
        × (p'.log ≡ (if length events == 0 then p.log ++ (timeout ∷ []) else p.log))
  unfolding poll fill_active_channels mark_all
  poll_ready p [] cs pos fits small = ground arith
  poll_ready p (x ∷ xs) cs pos fits small =
      let n = length (x ∷ xs) in
      let low : n % 2 ^ 32 ≡ n = omega arith in
      rw
        (
          low,
          lt→ltb n (2 ^ 31) (omega arith),
          lt→ltb 0 n (omega arith),
          take_all (length xs) xs (omega arith),
          ne→== n 0 (omega arith),
        )
        (ground arith)

  -- With an event list of fewer than 2 ^ 31 entries, a failed wait gives no active channel and
  -- changes no channel and nothing of the poller, whatever its error number: nothing is logged.
  pub poll_failed_silent :
      (cs : List Channel) (p : Poller e) (err : ℕ)
      → p.capacity < 2 ^ 31
      → poll e (wait_failed err) cs p ≡ ([], cs, p)
  unfolding poll fill_active_channels
  poll_failed_silent cs p err small = ground arith
