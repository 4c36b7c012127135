-- ===== src/Net/Acceptor.antt =====
-- include/net/Acceptor.h, include/net/Socket.h, src/net/Acceptor.cpp and src/net/Socket.cpp: the
-- socket that listens. What the kernel answers is an argument, and `none` is LOG_FATAL or a fault.
pub mod Listening
use tiny_network.Prelude.{
  ℕ, Bool, true, false, List, [], ◌∷◌, ◌++◌, Option, none, some, ◌==◌, if◌then◌else◌, ◌>>=◌,
}
use tiny_network.Net.Channel
use tiny_network.Net.Channel.{Channel}
use tiny_network.Net.Poller
use tiny_network.Net.Poller.{Poller}
use tiny_network.Net.Poller.Kernel.{Epoll}
use tiny_network.Net.InetAddress.{InetAddress}
use tiny_network.Net.InetAddress

-- What `accept4` gives: a descriptor and the address of the peer, or an error.
pub data AcceptResult : Type 0 where
  accepted : ℕ → InetAddress → AcceptResult
  accept_failed : ℕ → AcceptResult

abbrev pub emfile : ℕ
emfile = 24

-- The calls that a socket and an acceptor make.
pub data Event : Type 0 where
  sets_tcp_no_delay sets_reuse_addr sets_reuse_port sets_keep_alive : ℕ → Event
  shuts_down_write log_shutdown_write_failed : Event
  binds : InetAddress → Event
  closes : ℕ → Event
  new_connection : ℕ → InetAddress → Event
  log_accept4_failed log_accept_failed log_over_limit log_no_callback : Event

-- `Socket::accept`: the descriptor, the address in `*peeraddr` afterwards, and the messages.
unfoldable pub socket_accept : AcceptResult → InetAddress → Option ℕ × InetAddress × List Event
socket_accept (accepted connfd addr) peer = (some connfd, addr, [])
socket_accept (accept_failed err) peer = (none, peer, log_accept4_failed ∷ [])

-- The destructor of a socket, and `shutdownWrite` with the answer of `shutdown`.
unfoldable pub destroy_socket : ℕ → List Event
destroy_socket sockfd = closes sockfd ∷ []

unfoldable pub shutdown_write : Bool → List Event
shutdown_write succeeds =
    shuts_down_write ∷ (if succeeds then [] else log_shutdown_write_failed ∷ [])

-- The options of a socket; what `setsockopt` answers is not looked at.
abbrev optval : Bool → ℕ
optval on = if on then 1 else 0

unfoldable pub set_tcp_no_delay : Bool → List Event
set_tcp_no_delay on = sets_tcp_no_delay (optval on) ∷ []

unfoldable pub set_reuse_addr : Bool → List Event
set_reuse_addr on = sets_reuse_addr (optval on) ∷ []

unfoldable pub set_reuse_port : Bool → List Event
set_reuse_port on = sets_reuse_port (optval on) ∷ []

unfoldable pub set_keep_alive : Bool → List Event
set_keep_alive on = sets_keep_alive (optval on) ∷ []

-- `Socket::bindAddress` and `Socket::listen`, which end the program if the call fails.
unfoldable pub socket_bind : Bool → Option (Unit {0})
socket_bind succeeds = if succeeds then some tt else none

unfoldable pub socket_listen : Bool → Option (Unit {0})
socket_listen succeeds = if succeeds then some tt else none

-- `createNonblocking`: the answer of `socket`.
unfoldable pub create_nonblocking : Option ℕ → Option ℕ
create_nonblocking (some sockfd) = some sockfd
create_nonblocking none = none

pub record Acceptor : Type 0 where
  pub accept_fd : ℕ
  pub channel : Channel
  pub has_callback : Bool
  pub listenning : Bool

unfoldable pub set_new_connection_callback : Acceptor → Acceptor
set_new_connection_callback a = record a { has_callback = true }

-- The constructor; `handle` is the address of the channel.
unfoldable pub create : Option ℕ → Bool → ℕ → InetAddress → Bool → Option (Acceptor × List Event)
create socket bind_succeeds handle listen_addr reuseport = do
  sockfd ← create_nonblocking socket
  _ ← socket_bind bind_succeeds
  some (
    record {
      accept_fd = sockfd;
      channel = Channel.set_read_callback (Channel.create handle sockfd);
      has_callback = false;
      listenning = false;
    },
    set_reuse_addr reuseport ++ (set_reuse_port true ++ (binds listen_addr ∷ [])),
  )

-- `handleRead`, with the answer of `accept4`.
unfoldable pub handle_read : AcceptResult → Acceptor → List Event
handle_read result a =
    let (connfd, peer, messages) = socket_accept result (InetAddress.create 0 []) in
    messages ++ (elim connfd [
      | some fd ↦
          if a.has_callback then new_connection fd peer ∷ [] else log_no_callback ∷ closes fd ∷ []
      | none ↦ log_accept_failed ∷ over_limit result
    ])
  where
    over_limit : AcceptResult → List Event
    over_limit (accept_failed err) = if err == emfile then log_over_limit ∷ [] else []
    over_limit (accepted fd addr) = []

module _ (e : Epoll) where
  unfoldable pub listen : Bool → Acceptor → Poller e → Option (Acceptor × Poller e)
  listen succeeds a p = do
    _ ← socket_listen succeeds
    (channel, p') ← Poller.enable_reading e a.channel p
    some (record a { listenning = true; channel = channel }, p')

  -- The destructor, with that of the socket.
  unfoldable pub destroy : Acceptor → Poller e → Option (List Event × Poller e)
  destroy a p = do
    (channel, p') ← Poller.disable_all e a.channel p
    (channel', p'') ← Poller.remove e channel p'
    some (destroy_socket a.accept_fd, p'')
