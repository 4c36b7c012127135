-- ===== src/Net/TcpServer/Balance.antt =====
-- src/net/TcpServer.cpp with src/net/EventLoopThreadPool.cpp: which loops new connections go to.
use tiny_network.Prelude.{
  true, ℕ, ◌+◌, ◌≤◌, ◌<◌, ◌≡◌, refl, sym, ◌∙◌, ap, subst, List, [], ◌∷◌, map, Option, none, some,
  bind_inv, arith, lt→ltb, length,
}
use mathlib.Core.Option.{some-injective}
use tiny_network.Net.InetAddress.{InetAddress}
use tiny_network.Net.EventLoopThreadPool.{Pool, get_next_loop, get_loops}
use tiny_network.Net.EventLoopThreadPool.Robin.{Turn, turns, get_loops_cycle}
use tiny_network.Net.TcpServer.{
  Server, Connection, int_max, new_connection, accept_all, emit, log_local,
}

module _ (L F : Type 0) where
  abbrev pub loop_of : Connection L F → L
  loop_of conn = conn.loop

  log_local-pool :
      (s : Server L F) (local : Option InetAddress)
      → (log_local L F local s).thread_pool ≡ s.thread_pool
  unfolding log_local emit
  log_local-pool s (some addr) = refl
  log_local-pool s none = refl

  log_local-next :
      (s : Server L F) (local : Option InetAddress)
      → (log_local L F local s).next_conn_id ≡ s.next_conn_id
  unfolding log_local emit
  log_local-next s (some addr) = refl
  log_local-next s none = refl

  -- What one new connection does to the pool.
  pub new_connection_runs :
      (s : Server L F) (sockfd : ℕ) (peer : InetAddress) (local : Option InetAddress) (x : L)
      (pool : Pool L)
      → s.next_conn_id < int_max
      → get_next_loop L s.thread_pool ≡ some (x, pool)
      → (conn : Connection L F) × (u : Server L F) × (new_connection L F sockfd peer local s
          ≡ some (conn, u))
        × (conn.loop ≡ x)
        × (u.thread_pool ≡ pool)
        × (u.next_conn_id ≡ s.next_conn_id + 1)
        × (conn.sockfd ≡ sockfd)
        × (conn.connection_callback ≡ s.connection_callback)
        × (conn.message_callback ≡ s.message_callback)
        × (conn.closes_by_server ≡ true)
  unfolding new_connection emit
  new_connection_runs s sockfd peer local x pool small chosen =
      rw (lt→ltb s.next_conn_id int_max small, chosen)
        (_, _, refl, refl, log_local-pool _ local, log_local-next _ local, refl, refl, refl, refl)

  accept_all_loops :
      (sockets : List (ℕ × InetAddress × Option InetAddress)) (s : Server L F) (xs : List L)
      (pool : Pool L)
      → s.next_conn_id + length sockets ≤ int_max
      → get_loops L (length sockets) s.thread_pool ≡ some (xs, pool)
      → (conns : List (Connection L F)) × (u : Server L F) × (accept_all L F sockets s
          ≡ some (conns, u))
        × (map loop_of conns ≡ xs)
        × (u.thread_pool ≡ pool)
  unfolding accept_all get_loops
  accept_all_loops [] s xs pool small h =
      ([], s, refl, ap (λ o. o.0) (some-injective _ _ h), ap (λ o. o.1) (some-injective _ _ h))
  accept_all_loops ((sockfd, peer, local) ∷ sockets) s xs pool small h =
      let (first, chosen, h1) = bind_inv (get_next_loop L s.thread_pool) _ _ h in
      let (rest, others, done) = bind_inv (get_loops L (length sockets) first.1) _ _ h1 in
      let (conn, t, run, at, moved, next, _, _, _, _) =
        new_connection_runs s sockfd peer local first.0 first.1 (omega (arith, small)) chosen in
      let (conns, u, runs, loops, left) =
        accept_all_loops sockets t rest.0 rest.1 (omega (arith, next, small))
          (subst (λ p. get_loops L (length sockets) p ≡ some rest) (sym moved) others) in
      (
        conn ∷ conns,
        u,
        rw (run, runs) refl,
        rw (at, loops) (ap (λ o. o.0) (some-injective _ _ done)),
        left ∙ ap (λ o. o.1) (some-injective _ _ done),
      )

  -- For a pool of fewer than 2 ^ 63 loops whose next index is that of a loop: as many new connections as
  -- there are loops, with numbers up to the largest int, are each given a loop of their own, in the
  -- order of the pool, and leave the pool where it was.
  pub accept_all-turns :
      (sockets : List (ℕ × InetAddress × Option InetAddress)) (s : Server L F)
      → Turn L s.thread_pool
      → length sockets ≡ length s.thread_pool.loops
      → s.next_conn_id + length sockets ≤ int_max
      → (conns : List (Connection L F)) × (u : Server L F) × (accept_all L F sockets s
          ≡ some (conns, u))
        × (map loop_of conns ≡ turns L s.thread_pool)
        × (turns L u.thread_pool ≡ turns L s.thread_pool)
  accept_all-turns sockets s turn sized small =
      let (pool, cycle, again, same) = get_loops_cycle L s.thread_pool turn in
      let (conns, u, runs, loops, left) =
        accept_all_loops sockets s (turns L s.thread_pool) pool small (rw sized cycle) in
      (conns, u, runs, loops, ap (turns L) left ∙ again)
