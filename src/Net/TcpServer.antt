-- ===== src/Net/TcpServer.antt =====
-- include/net/TcpServer.h and src/net/TcpServer.cpp: the connections of a server, by their names.
-- A loop is a value of a type L and a callback of a type F, where an empty one is `none`. Calls on
-- loops are kept in order in `effects`; LOG_INFO is left out.
pub mod Names
pub mod Named
pub mod Live
pub mod Balance
pub mod Shutdown
pub mod Ending
pub mod Visit
mod Tests
use tiny_network.Prelude.{
  ℕ, zero, suc, ◌+◌, ◌-◌, ◌%◌, ◌^◌, ◌≡◌, Bool, true, false, not, ◌&&◌, List, [], ◌∷◌, ◌++◌, Option,
  none, some, map, ltb, ◌==◌, if◌then◌else◌, ◌>>=◌, take,
}
use tiny_network.Prelude.Decimal.{decimal}
use tiny_network.Net.InetAddress
use tiny_network.Net.InetAddress.{InetAddress}
use tiny_network.Net.EventLoopThreadPool
use tiny_network.Net.EventLoopThreadPool.{Pool}

-- `==` of two `std::string`s.
abbrev pub same_chars : List ℕ → List ℕ → Bool
same_chars [] [] = true
same_chars [] (y ∷ ys) = false
same_chars (x ∷ xs) [] = false
same_chars (x ∷ xs) (y ∷ ys) = x == y && same_chars xs ys

-- `std::unordered_map` with names for keys: what is found under a key. It has no order of its own.
module _ {A : Type 0} where
  unfoldable pub insert : List ℕ → A → (List ℕ → Option A) → List ℕ → Option A
  insert name value m key = if same_chars name key then some value else m key

  unfoldable pub erase : List ℕ → (List ℕ → Option A) → List ℕ → Option A
  erase name m key = if same_chars name key then none else m key

-- The address that `getsockname` leaves in a structure of zeroes, if it fails.
abbrev pub no_address : InetAddress
no_address = record { sin_family = 0; sin_port = 0; s_addr = 0 }

abbrev pub local_address : Option InetAddress → InetAddress
local_address (some addr) = addr
local_address none = no_address

abbrev pub int_max : ℕ
int_max = 2 ^ 31 - 1

module _ (L F : Type 0) where
  -- The members of a `TcpConnection` that the server gives it.
  pub record Connection : Type 0 where
    pub loop : L
    pub name : List ℕ
    pub sockfd : ℕ
    pub local_addr : InetAddress
    pub peer_addr : InetAddress
    pub connection_callback : Option F
    pub message_callback : Option F
    pub write_complete_callback : Option F
    pub closes_by_server : Bool

  -- What is bound and handed to a loop.
  pub data Task : Type 0 where
    listens : Task
    connection_established connect_destroyed remove_connection_in_loop : Connection → Task

  pub data Effect : Type 0 where
    runs_in_loop queues_in_loop : L → Task → Effect
    log_get_local_addr : Effect

  pub record Server : Type 0 where
    pub loop : L
    pub ip_port : List ℕ
    pub name : List ℕ
    pub thread_pool : Pool L
    pub connection_callback : Option F
    pub message_callback : Option F
    pub write_complete_callback : Option F
    pub thread_init_callback : Option F
    pub started : ℕ
    pub next_conn_id : ℕ
    pub connections : List ℕ → Option Connection
    pub effects : List Effect

  unfoldable pub emit : Effect → Server → Server
  emit x s = record s { effects = s.effects ++ (x ∷ []) }

  -- The constructor; `none` is the loop that is null, or an address without a text.
  unfoldable pub create : (ℕ → List ℕ) → Option L → InetAddress → List ℕ → Option Server
  create ntop loop listen_addr name_arg = do
    base ← loop
    ip_port ← InetAddress.to_ip_port ntop listen_addr
    some (record {
      loop = base;
      ip_port = ip_port;
      name = name_arg;
      thread_pool = EventLoopThreadPool.create L base;
      connection_callback = none;
      message_callback = none;
      write_complete_callback = none;
      thread_init_callback = none;
      started = 0;
      next_conn_id = 1;
      connections = λ key. none;
      effects = [];
    })

  unfoldable pub set_thread_init_callback : Option F → Server → Server
  set_thread_init_callback cb s = record s { thread_init_callback = cb }

  unfoldable pub set_connection_callback : Option F → Server → Server
  set_connection_callback cb s = record s { connection_callback = cb }

  unfoldable pub set_message_callback : Option F → Server → Server
  set_message_callback cb s = record s { message_callback = cb }

  unfoldable pub set_write_complete_callback : Option F → Server → Server
  set_write_complete_callback cb s = record s { write_complete_callback = cb }

  unfoldable pub set_thread_num : ℕ → Server → Server
  set_thread_num n s = record s {
    thread_pool = EventLoopThreadPool.set_thread_num L n s.thread_pool;
  }

  abbrev pub is_set : Option F → Bool
  is_set (some cb) = true
  is_set none = false

  -- `start_loop i` is the loop of thread `i`.
  unfoldable pub start : (ℕ → L) → Server → Server
  start start_loop s =
      let counted = record s { started = (s.started + 1) % 2 ^ 32 } in
      if s.started == 0
      then emit (runs_in_loop s.loop listens) (record counted {
        thread_pool =
            EventLoopThreadPool.start L start_loop (is_set s.thread_init_callback) s.thread_pool;
      })
      else counted

  -- `name_ + buf`, where `buf` has 64 bytes.
  unfoldable pub conn_name : Server → ℕ → List ℕ
  conn_name s id = s.name ++ take 63 (b'-' ∷ (s.ip_port ++ (b'#' ∷ decimal id)))

  unfoldable pub log_local : Option InetAddress → Server → Server
  log_local (some addr) s = s
  log_local none s = emit log_get_local_addr s

  -- `local` is what `getsockname` gives. `none` is an index outside the loops, or an overflow of
  -- the int `nextConnId_`.
  unfoldable pub new_connection :
      ℕ → InetAddress → Option InetAddress → Server → Option (Connection × Server)
  new_connection sockfd peer_addr local s = if not (ltb s.next_conn_id int_max) then none else (do
    (io_loop, thread_pool) ← EventLoopThreadPool.get_next_loop L s.thread_pool
    let name = conn_name s s.next_conn_id
    let conn : Connection = record {
      loop = io_loop;
      name = name;
      sockfd = sockfd;
      local_addr = local_address local;
      peer_addr = peer_addr;
      connection_callback = s.connection_callback;
      message_callback = s.message_callback;
      write_complete_callback = s.write_complete_callback;
      closes_by_server = true;
    }
    let chosen = record s {
      thread_pool = thread_pool;
      next_conn_id = s.next_conn_id + 1;
      connections = insert name conn s.connections;
    }
    some (conn, emit (runs_in_loop io_loop (connection_established conn)) (log_local local chosen)))

  unfoldable pub remove_connection : Connection → Server → Server
  remove_connection conn s = emit (runs_in_loop s.loop (remove_connection_in_loop conn)) s

  unfoldable pub remove_in_loop : Connection → Server → Server
  remove_in_loop conn s =
      emit (queues_in_loop conn.loop (connect_destroyed conn))
        (record s { connections = erase conn.name s.connections })

  -- The destructor; `entries` are those of the map, in the order in which it gives them.
  unfoldable pub destroy : List (List ℕ × Connection) → Server → Server
  destroy [] s = s
  destroy ((key, conn) ∷ entries) s =
      destroy entries (emit (runs_in_loop conn.loop (connect_destroyed conn)) s)

  -- Several sockets in a row with their peers and what `getsockname` gives, and the connections that
  -- they gave.
  unfoldable pub accept_all :
      List (ℕ × InetAddress × Option InetAddress) → Server → Option (List Connection × Server)
  accept_all [] s = some ([], s)
  accept_all ((sockfd, peer, local) ∷ sockets) s = do
    (conn, s') ← new_connection sockfd peer local s
    (conns, s'') ← accept_all sockets s'
    some (conn ∷ conns, s'')

  -- `start`, several times.
  unfoldable pub start_times : (ℕ → L) → ℕ → Server → Server
  start_times start_loop zero s = s
  start_times start_loop (suc n) s = start_times start_loop n (start start_loop s)
