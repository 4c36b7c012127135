-- ===== src/Net/TcpConnection.antt =====
-- include/net/TcpConnection.h and src/net/TcpConnection.cpp: one connection on its event loop.
-- What a call does outside the object is kept in order in `effects`. A callback of the user is an
-- effect, and what it does in turn is a later call. `none` is a fault of a buffer, LOG_FATAL, or the
-- exception of an empty callback that is called.
pub mod Invariant
pub mod Stream
pub mod Send
pub mod Flush
pub mod Creation
pub mod Calls
pub mod Service
pub mod Life
pub mod Posted
pub mod Lifecycle
pub mod Destruction
pub mod Reading
pub mod HalfClose
mod Tests
use tiny_network.Prelude.{
  ℕ, ◌+◌, ◌*◌, ◌^◌, Bool, true, false, not, ◌&&◌, ◌||◌, List, [], ◌∷◌, ◌++◌, Option, none, some,
  ltb, leb, ◌==◌, if◌then◌else◌, ◌>>=◌, length, take, drop, read_range, add_size, sub_size,
}
use tiny_network.Net.Buffer
use tiny_network.Net.Buffer.{Buffer, readable_bytes, ReadResult, WriteResult, wrote, write_failed}
use tiny_network.Net.Channel
use tiny_network.Net.Channel.{Channel, is_writing, tie}
use tiny_network.Net.Poller
use tiny_network.Net.Poller.{Poller}
use tiny_network.Net.Poller.Kernel.{Epoll}

-- `StateE`, whose values are used as numbers.
pub data StateE : Type 0 where
  disconnected connecting connected disconnecting : StateE

abbrev pub to_int : StateE → ℕ
to_int disconnected = 0
to_int connecting = 1
to_int connected = 2
to_int disconnecting = 3

abbrev pub ewouldblock : ℕ
ewouldblock = 11

abbrev pub epipe : ℕ
epipe = 32

abbrev pub econnreset : ℕ
econnreset = 104

-- Queued calls carry what they were bound to: `send` of a buffer a string of its own, `send` of a
-- string only where the bytes of the caller stand, and how many they are.
pub data Effect : Type 0 where
  socket_write : List ℕ → Effect
  shutdown_write set_keep_alive : Effect
  queue_write_complete : Effect
  queue_high_water : ℕ → Effect
  queue_send : List ℕ → Effect
  queue_send_at : ℕ → ℕ → Effect
  queue_shutdown : Effect
  connection_callback close_callback : Effect
  message_callback : Effect
  log_send_disconnected log_send_failed log_read_failed log_write_failed log_not_writing : Effect
  log_socket_error : ℕ → Effect

-- The errors that tell that the peer is gone.
pub is_fault : ℕ → Bool
is_fault err = err == epipe || err == econnreset

-- `!state_ == kDisconnecting`: the negation comes first, and gives 0 or 1.
pub shutdown_due : StateE → Bool
shutdown_due s = (if to_int s == 0 then 1 else 0) == to_int disconnecting

-- Which of the callbacks that are called untested are not empty.
pub record Callbacks : Type 0 where
  pub connection : Bool
  pub message : Bool
  pub close : Bool

abbrev pub no_callbacks : Callbacks
no_callbacks = record { connection = false; message = false; close = false }

module _ (e : Epoll) where
  pub record Connection : Type 0 where
    pub state : StateE
    pub channel : Channel
    pub input : Buffer
    pub output : Buffer
    pub callbacks : Callbacks
    pub has_write_complete : Bool
    pub has_high_water : Bool
    pub high_water_mark : ℕ
    pub poller : Poller e
    pub effects : List Effect

  pub emit : Effect → Connection → Connection
  emit x c = record c { effects = c.effects ++ (x ∷ []) }

  abbrev emit_if : Bool → Effect → Connection → Connection
  emit_if b x c = if b then emit x c else c

  -- A call of a callback; an empty `std::function` throws.
  abbrev pub call : Bool → Effect → Connection → Option Connection
  call set x c = if set then some (emit x c) else none

  pub set_state : StateE → Connection → Connection
  set_state s c = record c { state = s }

  -- A call of a member of the channel that reaches the poller.
  pub on_channel :
      (Channel → Poller e → Option (Channel × Poller e)) → Connection → Option Connection
  on_channel f c = do r ← f c.channel c.poller; some (record c { channel = r.0; poller = r.1 })

  -- The constructor, on a new socket; the callbacks of the channel are those of the connection.
  pub create : ℕ → ℕ → Poller e → Option Connection
  create handle fd p = do
    input ← Buffer.create 1024
    output ← Buffer.create 1024
    some (record {
      state = connecting;
      channel = Channel.set_error_callback (
          Channel.set_close_callback
            (Channel.set_write_callback (Channel.set_read_callback (Channel.create handle fd))));
      input = input;
      output = output;
      callbacks = no_callbacks;
      has_write_complete = false;
      has_high_water = false;
      high_water_mark = 64 * 1024 * 1024;
      poller = p;
      effects = set_keep_alive ∷ [];
    })

  unfoldable pub set_connection_callback : Bool → Connection → Connection
  set_connection_callback cb c = record c { callbacks = record c.callbacks { connection = cb } }

  unfoldable pub set_message_callback : Bool → Connection → Connection
  set_message_callback cb c = record c { callbacks = record c.callbacks { message = cb } }

  unfoldable pub set_close_callback : Bool → Connection → Connection
  set_close_callback cb c = record c { callbacks = record c.callbacks { close = cb } }

  unfoldable pub set_write_complete_callback : Bool → Connection → Connection
  set_write_complete_callback cb c = record c { has_write_complete = cb }

  unfoldable pub set_high_water_mark_callback : Bool → Connection → Connection
  set_high_water_mark_callback cb c = record c { has_high_water = cb }

  -- `connected()`
  unfoldable pub is_connected : Connection → Bool
  is_connected c = to_int c.state == to_int connected

  -- The local variables of `sendInLoop` after its first part.
  pub record Attempt : Type 0 where
    pub conn : Connection
    pub nwrote : ℕ
    pub remaining : ℕ
    pub fault_error : Bool

  -- `write` returned in the direct attempt.
  pub attempt_write : Connection → List ℕ → WriteResult → Attempt
  attempt_write c bytes (wrote n) =
      let remaining = sub_size (length bytes) n in
      record {
        conn =
            emit_if (remaining == 0 && c.has_write_complete) queue_write_complete
              (emit (socket_write (take n bytes)) c);
        nwrote = n;
        remaining = remaining;
        fault_error = false;
      }
  attempt_write c bytes (write_failed err) = record {
    conn = emit_if (not (err == ewouldblock)) log_send_failed c;
    nwrote = 0;
    remaining = length bytes;
    fault_error = not (err == ewouldblock) && is_fault err;
  }

  -- The first part of `sendInLoop`: nothing is written directly while output waits.
  pub first_write : Connection → List ℕ → WriteResult → Attempt
  first_write c bytes result =
      if not (is_writing c.channel) && readable_bytes c.output == 0
      then attempt_write c bytes result
      else record { conn = c; nwrote = 0; remaining = length bytes; fault_error = false }

  -- Whether the output crosses the mark with this much more.
  pub crosses_mark : Connection → ℕ → ℕ → Bool
  crosses_mark c oldlen remaining =
      leb c.high_water_mark (add_size oldlen remaining)
      && (ltb oldlen c.high_water_mark && c.has_high_water)

  -- The second part: what was not written goes to the output buffer.
  pub buffer_rest : Attempt → List ℕ → Option Connection
  buffer_rest a bytes =
      let c = a.conn in
      if not a.fault_error && ltb 0 a.remaining
      then (do
        let oldlen = readable_bytes c.output
        let noted =
            emit_if (crosses_mark c oldlen a.remaining)
              (queue_high_water (add_size oldlen a.remaining)) c
        output ← Buffer.append c.output (drop a.nwrote bytes) a.remaining
        let buffered = record noted { output = output }
        if is_writing c.channel
            then some buffered
            else on_channel (Poller.enable_writing e) buffered)
      else some c

  pub send_in_loop : Connection → List ℕ → WriteResult → Option Connection
  send_in_loop c bytes result = elim c.state [
    | disconnected ↦ some (emit log_send_disconnected c)
    | _ ↦ buffer_rest (first_write c bytes result) bytes
  ]

  -- `send(const std::string &)`; `address` is `buf.c_str()`, and `in_loop` is `isInLoopThread()`.
  pub send_string : Connection → ℕ → List ℕ → Bool → WriteResult → Option Connection
  send_string c address bytes in_loop result = elim c.state [
    | connected ↦
        if in_loop
        then send_in_loop c bytes result
        else some (emit (queue_send_at address (length bytes)) c)
    | _ ↦ some c
  ]

  -- `send(Buffer *)`: the buffer of the caller is emptied.
  pub send_buffer : Connection → Buffer → Bool → WriteResult → Option (Connection × Buffer)
  send_buffer c buf in_loop result = elim c.state [
    | connected ↦
        if in_loop
        then (do
          bytes ← read_range (Buffer.peek buf) (readable_bytes buf)
          c' ← send_in_loop c bytes result
          some (c', Buffer.retrieve_all buf))
        else (do r ← Buffer.retrieve_all_as_string buf; some (emit (queue_send r.0) c, r.1))
    | _ ↦ some (c, buf)
  ]

  pub shutdown_in_loop : Connection → Connection
  shutdown_in_loop c = if is_writing c.channel then c else emit shutdown_write c

  pub shutdown : Connection → Bool → Connection
  shutdown c in_loop = elim c.state [
    | connected ↦
        let closing = set_state disconnecting c in
        if in_loop then shutdown_in_loop closing else emit queue_shutdown closing
    | _ ↦ c
  ]

  pub connection_established : Connection → Option Connection
  connection_established c = do
    let up = set_state connected c
    c' ← on_channel (Poller.enable_reading e) (record up { channel = tie up.channel })
    call c'.callbacks.connection connection_callback c'

  pub connect_destroyed : Connection → Option Connection
  connect_destroyed c = do
    down ← (elim c.state [
      | connected ↦ do
        c' ← on_channel (Poller.disable_all e) (set_state disconnected c)
        call c'.callbacks.connection connection_callback c'
      | _ ↦ some c
    ])
    on_channel (Poller.remove e) down

  pub handle_close : Connection → Option Connection
  handle_close c = do
    c' ← on_channel (Poller.disable_all e) (set_state disconnected c)
    told ← call c'.callbacks.connection connection_callback c'
    call told.callbacks.close close_callback told

  -- `getsockopt` failed with an error number, or gave the error of the socket: both end in the log.
  pub handle_error : Connection → ℕ → Connection
  handle_error c err = emit (log_socket_error err) c

  -- `readFd` returns a `size_t`, which is read as an `ssize_t`.
  pub handle_read : Connection → ReadResult → ℕ → Option Connection
  handle_read c result socket_error = do
    r ← Buffer.read_fd c.input result 0
    let c' = record c { input = r.0 }
    if r.2 == 0
        then handle_close c'
        else if ltb r.2 (2 ^ 63)
        then call c'.callbacks.message message_callback c'
        else some (handle_error (emit log_read_failed c') socket_error)

  -- The output after `n` bytes were written, with what follows when it is empty.
  pub output_written : Connection → ℕ → Option Connection
  output_written c n =
      let c' = record c { output = Buffer.retrieve c.output n } in
      if readable_bytes c'.output == 0
      then (do
        idle ← on_channel (Poller.disable_writing e) c'
        let told = emit_if idle.has_write_complete queue_write_complete idle
        some (if shutdown_due told.state then shutdown_in_loop told else told))
      else some c'

  -- `writeFd` offers the contents to `write`, which took the first `n` bytes.
  pub handle_write : Connection → WriteResult → Option Connection
  handle_write c result =
      if is_writing c.channel
      then elim (Buffer.write_fd c.output result 0).1 [
        | none ↦ some (emit log_write_failed c)
        | some n ↦
            if ltb 0 n
            then (do
              taken ← read_range (Buffer.peek c.output) n
              output_written (emit (socket_write taken) c) n)
            else some (emit log_write_failed c)
      ]
      else some (emit log_not_writing c)
