-- ===== src/Net/TcpConnection/Reading.antt =====
-- src/net/TcpConnection.cpp: what `handleRead` does with bytes and with the end of them.
use tiny_network.Prelude.{
  ℕ, ◌+◌, ◌≤◌, ◌≡◌, ◌≢◌, refl, ◌∙◌, append-nil, none, ◌&&◌, if◌then◌else◌, List, [], ◌∷◌, ◌++◌,
  some, arith, length, ne→==, lt→ltb, ◌^◌,
}
use tiny_network.Net.Buffer.{contents, delivered, read_room, extra_size, vector_max}
use tiny_network.Net.Buffer.Descriptor.{read_fd-Received, read_room-le}
use tiny_network.Net.Poller.Kernel.{Epoll}
use tiny_network.Net.Poller.Synced.{Apart-refl}
use tiny_network.Net.TcpConnection.{Connection, message_callback, emit, handle_read}
use tiny_network.Net.TcpConnection.Invariant.{Inv, Beside}
use tiny_network.Net.TcpConnection.Lifecycle.{Closed, handle_close-Closed}

module _ (e : Epoll) where
  -- What a read that delivered bytes, or none at the end of the stream, must give.
  pub record Reading (c : Connection e) (bytes : List ℕ) (c' : Connection e) : Type 0 where
    pub inv : Inv e c'
    pub received : contents c'.input ≡ contents c.input ++ bytes
    pub state_kept : c'.state ≡ c.state
    pub effects_added : c'.effects ≡ c.effects ++ (message_callback ∷ [])
    pub beside : Beside e c c'
    pub output_kept : c'.output ≡ c.output
    pub callbacks_kept : c'.callbacks ≡ c.callbacks
    pub growth : length c'.input.buffer ≤ length c.input.buffer + length bytes

  -- A read on a well-formed connection, whose input can grow by the size of `extrabuff`, that
  -- delivers at least one byte and no more than there was room for: if the message callback is set,
  -- there is no fault, the bytes follow what was read before, the message callback is called once,
  -- the state and the output stay as they were, and the poller has other descriptors as before. If
  -- the message callback is empty, its call throws.
  pub handle_read-Reading :
      (c : Connection e) (bytes : List ℕ) (socket_error : ℕ)
      → Inv e c
      → bytes ≢ []
      → length c.input.buffer + extra_size ≤ vector_max
      → length bytes ≤ read_room c.input
      → (c' : Connection e) × (handle_read e c (delivered bytes) socket_error
          ≡ (if c.callbacks.message then some c' else none))
        × Reading c bytes c'
  unfolding handle_read emit
  handle_read-Reading c [] socket_error v more space room = absurd (more refl)
  handle_read-Reading c (b ∷ bytes) socket_error v more space room =
      let (input, run, done) = read_fd-Received c.input (b ∷ bytes) 0 v.input_valid space room in
      (
        emit e message_callback (record c { input = input }),
        rw
            (
              run,
              ne→== (length (b ∷ bytes)) 0 (omega arith),
              lt→ltb (length (b ∷ bytes)) (2 ^ 63)
                  (omega (arith, read_room-le c.input v.input_valid)),
            )
            refl,
        record {
          inv = record {
            input_valid = done.valid;
            output_valid = v.output_valid;
            interest = v.interest;
            synced = v.synced;
            waiting = v.waiting;
          };
          received = done.extended;
          state_kept = refl;
          effects_added = refl;
          beside = record { same_fd = refl; apart = Apart-refl e c.channel.fd c.poller };
          output_kept = refl;
          callbacks_kept = refl;
          growth = done.growth;
        },
      )

  -- At the end of the stream a well-formed connection, whose input can grow by the size of
  -- `extrabuff`, is closed as by `handleClose`, and an empty callback throws.
  pub handle_read_end :
      (c : Connection e) (socket_error : ℕ)
      → Inv e c
      → length c.input.buffer + extra_size ≤ vector_max
      → (c' : Connection e) × (handle_read e c (delivered []) socket_error
          ≡ (if c.callbacks.connection && c.callbacks.close then some c' else none))
        × Closed e c c'
  unfolding handle_read
  handle_read_end c socket_error v space =
      let (input, run, done) = read_fd-Received c.input [] 0 v.input_valid space (omega arith) in
      let (c', closes, closed) =
        handle_close-Closed e (record c { input = input })
          (record {
            input_valid = done.valid;
            output_valid = v.output_valid;
            interest = v.interest;
            synced = v.synced;
            waiting = v.waiting;
          }) in
      (
        c',
        rw run closes,
        record {
          inv = closed.inv;
          state_down = closed.state_down;
          not_reading = closed.not_reading;
          not_writing = closed.not_writing;
          effects_added = closed.effects_added;
          beside = record { same_fd = closed.beside.same_fd; apart = closed.beside.apart };
          output_kept = closed.output_kept;
          received_kept = closed.received_kept ∙ done.extended ∙ append-nil (contents c.input);
        },
      )
