-- ===== src/Net/TcpServer/Tests.antt =====
-- src/net/TcpServer.cpp: a server with the name "s" at "h:1".
use mathlib.Core.List.Memᴰ
use tiny_network.Prelude.{
  sym, ◌∙◌, ap, subst, true, ℕ, suc, ◌≡◌, refl, Option, List, [], ◌∷◌, ◌++◌, map, none, some, arith,
  length,
}
use tiny_network.Net.InetAddress.{InetAddress}
use tiny_network.Prelude.Decimal.{decimal}
use tiny_network.Net.EventLoopThreadPool.{Pool, get_next_loop}
use tiny_network.Net.EventLoopThreadPool.Robin.{turns}
use tiny_network.Net.Acceptor.{Acceptor, accepted}
use tiny_network.Net.Buffer.{wrote, contents}
use tiny_network.Net.Channel
use tiny_network.Net.Poller.{Poller}
use tiny_network.Net.Poller.Synced.{Left}
use tiny_network.Net.Poller.Table.{table}
use tiny_network.Net.TcpConnection
use tiny_network.Net.TcpConnection.Invariant.{stream}
use tiny_network.Net.TcpConnection.Life.{goodbye}
use tiny_network.Net.TcpConnection.Service.{Request, sends, writable, receives, messages, received}
use tiny_network.Net.TcpServer.Visit.{visit, visit-Left}
use tiny_network.Net.TcpServer.{
  Server, Connection, runs_in_loop, connection_established, new_connection, remove_in_loop, destroy,
  erase, accept_all, log_local, start, start_times, emit, insert, conn_name,
}
use tiny_network.Net.TcpServer.Named.{Numbered, held}
use tiny_network.Net.TcpServer.Live.{Reaches, begins, accepts, removes, Holds, Reaches-Holds}
use tiny_network.Net.TcpServer.Balance.{loop_of, accept_all-turns}
use tiny_network.Net.TcpServer.Shutdown.{start_times_lem}
use tiny_network.Net.TcpServer.Ending.{
  Entry, hands_over, Iterates, AreOnceNamed, AreGiven, AreAlive, held-member, destroy-Reaches,
}
use mathlib.Core.Path.{ap₂}
use mathlib.Core.List.{Memᴰ}

abbrev pool : List ℕ → Pool ℕ
pool loops = record {
  base_loop = 100;
  is_started = true;
  num_threads = length loops;
  next = 0;
  loops = loops;
  init_calls = [];
}

abbrev server : List ℕ → Server ℕ ℕ
server loops = record {
  loop = 100;
  ip_port = b'h' ∷ b':' ∷ b'1' ∷ [];
  name = b's' ∷ [];
  thread_pool = pool loops;
  connection_callback = some 1;
  message_callback = some 2;
  write_complete_callback = none;
  thread_init_callback = none;
  started = 0;
  next_conn_id = 1;
  connections = λ key. none;
  effects = [];
}

abbrev peer : InetAddress
peer = record { sin_family = 2; sin_port = 80; s_addr = 1 }

abbrev conn : ℕ → ℕ → Connection ℕ ℕ
conn digit fd = record {
  loop = 100;
  name = b's' ∷ b'-' ∷ b'h' ∷ b':' ∷ b'1' ∷ b'#' ∷ digit ∷ [];
  sockfd = fd;
  local_addr = peer;
  peer_addr = peer;
  connection_callback = some 1;
  message_callback = some 2;
  write_complete_callback = none;
  closes_by_server = true;
}

abbrev after_one : Server ℕ ℕ
after_one = record (server []) {
  next_conn_id = 2;
  connections = insert (conn b'1' 7).name (conn b'1' 7) (λ key. none);
  effects = runs_in_loop 100 (connection_established (conn b'1' 7)) ∷ [];
}

abbrev after_two : Server ℕ ℕ
after_two = record (server []) {
  next_conn_id = 3;
  connections = insert (conn b'2' 8).name (conn b'2' 8) after_one.connections;
  effects =
      runs_in_loop 100 (connection_established (conn b'1' 7))
      ∷ runs_in_loop 100 (connection_established (conn b'2' 8))
      ∷ [];
}

first_run : new_connection ℕ ℕ 7 peer (some peer) (server []) ≡ some (conn b'1' 7, after_one)
unfolding new_connection get_next_loop insert conn_name decimal emit log_local
first_run = refl

second_run : new_connection ℕ ℕ 8 peer (some peer) after_one ≡ some (conn b'2' 8, after_two)
unfolding new_connection get_next_loop insert conn_name decimal emit log_local
second_run = refl

abbrev live : List (Numbered ℕ ℕ)
live = (2, conn b'2' 8) ∷ []

-- Both are accepted, and the first is removed.
removed : Reaches ℕ ℕ (server []) live (remove_in_loop ℕ ℕ (conn b'1' 7) after_two)
removed =
    removes 1 (conn b'1' 7)
      (accepts 8 peer (some peer) (conn b'2' 8)
        (accepts 7 peer (some peer) (conn b'1' 7) begins first_run) second_run)
      (Memᴰ.head refl)

Reaches-Holds_example : Holds ℕ ℕ (server []) live (remove_in_loop ℕ ℕ (conn b'1' 7) after_two)
Reaches-Holds_example =
    Reaches-Holds ℕ ℕ (server []) (remove_in_loop ℕ ℕ (conn b'1' 7) after_two) live (omega arith)
      (omega arith) (λ key. refl) removed

abbrev entries : List (Entry ℕ ℕ)
entries = ((conn b'2' 8).name, conn b'2' 8) ∷ []

entries-Iterates : Iterates ℕ ℕ (remove_in_loop ℕ ℕ (conn b'1' 7) after_two).connections entries
unfolding remove_in_loop emit insert erase conn_name decimal
entries-Iterates = record {
  once = (tt, tt);
  all_of = λ key c h. found key c (sym (Reaches-Holds_example.keyed key) ∙ h);
  none_else = λ key c m. back key c m;
}
  where
    only :
        (key : List ℕ) (c : Connection ℕ ℕ) (id : ℕ)
        → key ≡ conn_name ℕ ℕ (server []) id
        → Memᴰ (id, c) live
        → Memᴰ (key, c) entries
    only key c id named (Memᴰ.head e) =
        Memᴰ.head (
          ap₂ (λ k x. (k, x)) (named ∙ ap (λ x. conn_name ℕ ℕ (server []) x.0) e) (ap (λ x. x.1) e))
    only key c id named (Memᴰ.tail m) = absurd (Memᴰ.not-nil m)

    found :
        (key : List ℕ) (c : Connection ℕ ℕ)
        → held ℕ ℕ (server []) live key ≡ some c
        → Memᴰ (key, c) entries
    found key c h =
        let (id, named, m) = held-member ℕ ℕ (server []) live key c h in only key c id named m

    back :
        (key : List ℕ) (c : Connection ℕ ℕ)
        → Memᴰ (key, c) entries
        → (remove_in_loop ℕ ℕ (conn b'1' 7) after_two).connections key ≡ some c
    back key c (Memᴰ.head e) =
        subst (λ x. (remove_in_loop ℕ ℕ (conn b'1' 7) after_two).connections x.0 ≡ some x.1) (sym e)
          refl
    back key c (Memᴰ.tail m) = absurd (Memᴰ.not-nil m)

destroy-Reaches_example :
    ((destroy ℕ ℕ entries (remove_in_loop ℕ ℕ (conn b'1' 7) after_two)).effects
      ≡ (remove_in_loop ℕ ℕ (conn b'1' 7) after_two).effects ++ map (hands_over ℕ ℕ) entries)
    × AreOnceNamed ℕ ℕ entries
    × AreGiven ℕ ℕ (server []) entries live
    × AreAlive ℕ ℕ (server []) live entries
destroy-Reaches_example =
    destroy-Reaches ℕ ℕ (server []) (remove_in_loop ℕ ℕ (conn b'1' 7) after_two) live entries
      (omega arith) (omega arith) (λ key. refl) removed entries-Iterates

abbrev sockets : List (ℕ × InetAddress × Option InetAddress)
sockets = (7, peer, some peer) ∷ (8, peer, none) ∷ (9, peer, some peer) ∷ []

abbrev three : List ℕ
three = 101 ∷ 102 ∷ 103 ∷ []

accept_all-turns_example :
    (conns : List (Connection ℕ ℕ)) × (u : Server ℕ ℕ) × (accept_all ℕ ℕ sockets (server three)
      ≡ some (conns, u))
    × (map (loop_of ℕ ℕ) conns ≡ turns ℕ (pool three))
    × (turns ℕ u.thread_pool ≡ turns ℕ (pool three))
accept_all-turns_example =
    accept_all-turns ℕ ℕ sockets (server three) (omega arith) refl (omega arith)

start_times_lem_example :
    start_times ℕ ℕ suc 3 (server []) ≡ record (start ℕ ℕ suc (server [])) { started = 3 }
start_times_lem_example = start_times_lem ℕ ℕ suc 2 (server []) refl (omega arith)

abbrev acceptor : Acceptor
acceptor = record {
  accept_fd = 6;
  channel = Channel.create 40 6;
  has_callback = true;
  listenning = true;
}

-- A poller that knows no socket.
abbrev poller : Poller table
poller = record { epoll = λ k. none; channels = λ k. none; capacity = 16; log = [] }

-- Two bytes of which `write` takes one, and then the other; one byte is read between.
abbrev requests : List Request
requests = sends (104 ∷ 105 ∷ []) (wrote 1) ∷ receives (33 ∷ []) ∷ writable (wrote 5) ∷ []

first_loop : get_next_loop ℕ (pool []) ≡ some (100, pool [])
unfolding get_next_loop
first_loop = refl

visit-Left_example :
    (u : Server ℕ ℕ) × (c : TcpConnection.Connection table) × (before : List TcpConnection.Effect)
    × (visit ℕ ℕ table (accepted 7 peer) (some peer) 41 requests acceptor (server []) poller
        ≡ some (u, c))
    × ((key : List ℕ) → u.connections key ≡ none)
    × (stream table c ≡ messages requests)
    × (contents c.input ≡ received requests)
    × (c.effects ≡ before ++ goodbye)
    × Left table 7 poller c.poller
visit-Left_example =
    visit-Left ℕ ℕ table (server []) (server []) [] 7 41 peer (some peer) requests acceptor poller
      100 (pool []) (omega arith) (omega arith) (λ key. refl) begins (omega arith) refl refl
      first_loop refl refl refl (tt, ((λ h. cc), omega arith, (tt, tt))) (omega arith) (omega arith)
