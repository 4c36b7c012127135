-- ===== src/Net/TcpServer/Visit.antt =====
-- src/net/Acceptor.cpp, src/net/TcpServer.cpp and src/net/TcpConnection.cpp together: one connection,
-- from `accept` to the end of its channel. Each queued call runs when it is queued.
use tiny_network.Prelude.{
  ℕ, ◌≤◌, ◌<◌, ◌^◌, ◌≡◌, refl, sym, ◌∙◌, ap, true, List, [], ◌∷◌, ◌++◌, Option, none, some, ◌>>=◌,
  arith, length, ==_refl, ne→==,
}
use mathlib.Core.List.Memᴰ
use tiny_network.Net.Acceptor
use tiny_network.Net.Acceptor.{Acceptor, AcceptResult, accepted, Event, socket_accept}
use tiny_network.Net.Buffer.{contents}
use tiny_network.Net.EventLoopThreadPool.{Pool, get_next_loop}
use tiny_network.Net.InetAddress.{InetAddress}
use tiny_network.Net.Poller.{Poller}
use tiny_network.Net.Poller.Kernel.{Epoll}
use tiny_network.Net.Poller.Synced.{Left}
use tiny_network.Net.TcpConnection
use tiny_network.Net.TcpConnection.{Effect, Callbacks}
use tiny_network.Net.TcpConnection.Invariant.{stream}
use tiny_network.Net.TcpConnection.Life.{attend, attend-Left, goodbye, all_callbacks}
use tiny_network.Net.TcpConnection.Service.{Request, messages, received, AreCalm}
use tiny_network.Net.TcpServer.{
  Server, Connection, int_max, new_connection, remove_connection, remove_in_loop, emit, is_set,
}
use tiny_network.Net.TcpServer.Balance.{new_connection_runs}
use tiny_network.Net.TcpServer.Named.{Numbered, without, held, AreNamed}
use tiny_network.Net.TcpServer.Live.{Reaches, accepts, removes, Reaches-Holds}

module _ (L F : Type 0) where
  -- The callback that the server gave the acceptor, called as often as the acceptor calls it.
  unfoldable pub announce :
      List Event → Option InetAddress → Server L F → Option (List (Connection L F) × Server L F)
  announce [] local s = some ([], s)
  announce (Event.new_connection fd peer ∷ xs) local s = do
    (conn, s') ← new_connection L F fd peer local s
    (conns, s'') ← announce xs local s'
    some (conn ∷ conns, s'')
  announce (_ ∷ xs) local s = announce xs local s

  -- `Acceptor::handleRead` of an acceptor that calls `TcpServer::newConnection`.
  unfoldable pub accept_connections :
      AcceptResult
      → Option InetAddress
      → Acceptor
      → Server L F
      → Option (List (Connection L F) × Server L F)
  accept_connections result local a s = announce (Acceptor.handle_read result a) local s

  -- The callbacks of a connection of the server.
  unfoldable pub callbacks_of : Connection L F → Callbacks
  callbacks_of conn = record {
    connection = is_set L F conn.connection_callback;
    message = is_set L F conn.message_callback;
    close = conn.closes_by_server;
  }

  -- What the close callback of a connection does in the loop of the server.
  unfoldable pub close : Connection L F → Server L F → Server L F
  close conn s = remove_in_loop L F conn (remove_connection L F conn s)

  -- One answer of `accept4`: the connection lives on its loop until it ends, and then leaves the
  -- map. Without a connection there is nothing to attend to.
  unfoldable pub visit :
      (e : Epoll)
      → AcceptResult
      → Option InetAddress
      → ℕ
      → List Request
      → Acceptor
      → Server L F
      → Poller e
      → Option (Server L F × TcpConnection.Connection e)
  visit e result local handle requests a s p = do
    (conns, u) ← accept_connections result local a s
    elim conns [
      | [] ↦ none
      | conn ∷ _ ↦ do
        c ←
            attend e handle conn.sockfd (callbacks_of conn)
              (is_set L F conn.write_complete_callback) requests p
        some (close conn u, c)
    ]

  without_new :
      (s : Server L F) (n : ℕ) (conn : Connection L F) (live : List (Numbered L F))
      → AreNamed L F s n live
      → without L F n (live ++ ((n, conn) ∷ [])) ≡ live
  without_new s n conn [] a = rw (==_refl n) refl
  without_new s n conn ((i, c) ∷ live) (below, named, a) =
      rw (ne→== i n (λ same. omega (arith, below, same)), without_new s n conn live a) refl

  -- The map after a connection was taken up and removed again.
  close-connections :
      (s t u : Server L F) (live : List (Numbered L F)) (sockfd : ℕ) (peer : InetAddress)
      (local : Option InetAddress) (conn : Connection L F)
      → length s.ip_port ≤ 21
      → s.next_conn_id ≤ int_max
      → ((key : List ℕ) → s.connections key ≡ none)
      → Reaches L F s live t
      → new_connection L F sockfd peer local t ≡ some (conn, u)
      → (key : List ℕ) → (close conn u).connections key ≡ t.connections key
  unfolding close remove_in_loop remove_connection emit
  close-connections s t u live sockfd peer local conn short within empty r run key =
      let joined = accepts sockfd peer local conn r run in
      let member = Memᴰ.append_right live {t = (t.next_conn_id, conn) ∷ []} (Memᴰ.head refl) in
      let before = Reaches-Holds L F s t live short within empty r in
      let after =
        Reaches-Holds L F s (remove_in_loop L F conn u) _ short within empty
          (removes t.next_conn_id conn joined member) in
      after.keyed key
      ∙ ap (λ live. held L F s live key) (without_new s t.next_conn_id conn live before.named)
      ∙ sym (before.keyed key)

  -- A server that has a connection callback and a message callback, has taken up and removed any
  -- connections and has a loop and a number to give takes up one more, through its acceptor, on a
  -- poller that does not know the new socket. The connection serves any requests, which are messages
  -- to send, writable events and reads, until a read gives no bytes, without a fault; in the end the
  -- map of the server holds what it did, the poller does not know the socket and has every other
  -- descriptor as before, what the socket took and what still waited is exactly the messages, in
  -- order, the input holds exactly what was read, in order, and the last callbacks were those of the
  -- end of the connection. The address of the server has at most 21 characters, the messages and the
  -- bytes that are read are fewer than 2 ^ 30 each, and no error of `write` tells that the peer is
  -- gone.
  pub visit-Left :
      (e : Epoll) (s t : Server L F) (live : List (Numbered L F)) (fd handle : ℕ)
      (peer : InetAddress) (local : Option InetAddress) (requests : List Request) (a : Acceptor)
      (p : Poller e) (loop : L) (pool : Pool L)
      → length s.ip_port ≤ 21
      → s.next_conn_id ≤ int_max
      → ((key : List ℕ) → s.connections key ≡ none)
      → Reaches L F s live t
      → t.next_conn_id < int_max
      → is_set L F t.connection_callback ≡ true
      → is_set L F t.message_callback ≡ true
      → get_next_loop L t.thread_pool ≡ some (loop, pool)
      → a.has_callback ≡ true
      → Epoll.registered e p.epoll fd ≡ none
      → p.channels fd ≡ none
      → AreCalm requests
      → length (messages requests) < 2 ^ 30
      → length (received requests) < 2 ^ 30
      → (u : Server L F) × (c : TcpConnection.Connection e) × (before : List Effect) × (visit e
            (accepted fd peer)
            local
            handle
            requests
            a
            t
            p
          ≡ some (u, c))
        × ((key : List ℕ) → u.connections key ≡ t.connections key)
        × (stream e c ≡ messages requests)
        × (contents c.input ≡ received requests)
        × (c.effects ≡ before ++ goodbye)
        × Left e fd p c.poller
  unfolding visit accept_connections announce callbacks_of Acceptor.handle_read socket_accept
  visit-Left e s t live fd handle peer local requests a p loop pool short within empty r small
        greets tells chosen called absent unmapped calm few fewer =
      let (conn, u, run, _, _, _, its_fd, its_greeting, its_message, closes) =
        new_connection_runs L F t fd peer local loop pool small chosen in
      let every : callbacks_of conn ≡ all_callbacks =
        rw (its_greeting, its_message, closes, greets, tells) refl in
      let (c, before, attends, streamed, read, effects, left) =
        attend-Left e handle fd (callbacks_of conn) (is_set L F conn.write_complete_callback)
          requests p absent unmapped every calm few fewer in
      (
        close conn u,
        c,
        before,
        rw (called, run, its_fd, attends) refl,
        close-connections s t u live fd peer local conn short within empty r run,
        streamed,
        read,
        effects,
        left,
      )
