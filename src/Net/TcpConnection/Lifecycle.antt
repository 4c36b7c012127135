-- ===== src/Net/TcpConnection/Lifecycle.antt =====
-- src/net/TcpConnection.cpp: establishing and closing a connection.
use tiny_network.Prelude.{
  ◌≡◌, ◌≢◌, refl, sym, ◌∙◌, true, false, [], ◌∷◌, ◌++◌, Bool, ◌&&◌, if◌then◌else◌, ◌>>=◌, none,
  some,
}
use tiny_network.Net.Buffer.{contents}
use tiny_network.Net.Channel.{set_index, tie, is_writing, is_reading, wants_reading, ignores_all}
use tiny_network.Net.Channel.Interest.{changes-Wishes}
use tiny_network.Net.Poller
use tiny_network.Net.Poller.{Poller}
use tiny_network.Net.Poller.Kernel.{Epoll}
use tiny_network.Net.Poller.Members.{tie-Synced, enable_reading-Registers, disable_all-Registers}
use tiny_network.Net.TcpConnection.{
  Connection, disconnected, connecting, connected, connection_callback, close_callback, emit,
  set_state, call, connection_established, handle_close,
}
use tiny_network.Net.TcpConnection.Invariant.{Inv, Beside, on_channel_run}

module _ (e : Epoll) where
  -- A connection that is down: nothing is asked of the poller any more.
  pub record Closed (c c' : Connection e) : Type 0 where
    pub inv : Inv e c'
    pub state_down : c'.state ≡ disconnected
    pub not_reading : is_reading c'.channel ≡ false
    pub not_writing : is_writing c'.channel ≡ false
    pub effects_added :
        c'.effects ≡ c.effects ++ (connection_callback ∷ []) ++ (close_callback ∷ [])
    pub beside : Beside e c c'
    pub output_kept : c'.output ≡ c.output
    pub received_kept : contents c'.input ≡ contents c.input

  -- `handleClose` on a well-formed connection whose connection callback and close callback are set
  -- does not fault: it leaves the connection down with no interest in events, and calls the
  -- connection callback and then the close callback, each once; the output, the bytes that were
  -- read and other descriptors of the poller stay as they were. If one of the two callbacks is
  -- empty, its call throws.
  pub handle_close-Closed :
      (c : Connection e)
      → Inv e c
      → (c' : Connection e) × (handle_close e c
          ≡ (if c.callbacks.connection && c.callbacks.close then some c' else none))
        × Closed c c'
  unfolding handle_close set_state emit set_index is_writing is_reading ignores_all
  handle_close-Closed c v =
      let wishes = (changes-Wishes c.channel v.interest).4 in
      let (i, p, run, s, a) =
        on_channel_run e (Poller.disable_all e) (ignores_all c.channel)
          (record c { state = disconnected })
          (disable_all-Registers e c.channel c.poller v.synced) in
      let down = record c {
        state = disconnected;
        channel = set_index (ignores_all c.channel) i;
        poller = p;
      } in
      (
        emit e close_callback (emit e connection_callback down),
        rw run (closes c.callbacks.connection down),
        record {
          inv = record {
            input_valid = v.input_valid;
            output_valid = v.output_valid;
            interest = wishes.interest;
            synced = s;
            waiting = λ up. absurd (up refl);
          };
          state_down = refl;
          not_reading = wishes.reads;
          not_writing = wishes.writes;
          effects_added = refl;
          beside = record { same_fd = refl; apart = a };
          output_kept = refl;
          received_kept = refl;
        },
      )
    where
      closes :
          (set : Bool) (d : Connection e)
          → (call e set connection_callback d >>= λ told.
              call e told.callbacks.close close_callback told)
            ≡ (if set && d.callbacks.close
                then some (emit e close_callback (emit e connection_callback d))
                else none)
      closes true d = refl
      closes false d = refl

  not_down : connecting ≢ disconnected
  not_down h = cc

  pub record Established (c c' : Connection e) : Type 0 where
    pub inv : Inv e c'
    pub state_up : c'.state ≡ connected
    pub reading : is_reading c'.channel ≡ true
    pub is_tied : c'.channel.tied ≡ true
    pub effects_added : c'.effects ≡ c.effects ++ (connection_callback ∷ [])
    pub beside : Beside e c c'
    pub output_kept : c'.output ≡ c.output
    pub input_kept : c'.input ≡ c.input
    pub callbacks_kept : c'.callbacks ≡ c.callbacks

  -- `connectionEstablished` on a well-formed connection that is connecting, whose connection
  -- callback is set, does not fault: the connection is up, its channel is tied and reads, and the
  -- connection callback is called once. An empty connection callback throws.
  pub connection_established-Established :
      (c : Connection e)
      → Inv e c
      → c.state ≡ connecting
      → (c' : Connection e) × (connection_established e c
          ≡ (if c.callbacks.connection then some c' else none))
        × Established c c'
  unfolding connection_established set_state emit set_index is_reading is_writing tie wants_reading
  connection_established-Established c v st =
      let wishes = (changes-Wishes c.channel v.interest).0 in
      let (i, p, run, s, a) =
        on_channel_run e (Poller.enable_reading e) (wants_reading (tie c.channel))
          (record c { state = connected; channel = tie c.channel })
          (enable_reading-Registers e (tie c.channel) c.poller
            (tie-Synced e c.channel c.poller v.synced)) in
      let up = record c {
        state = connected;
        channel = set_index (wants_reading (tie c.channel)) i;
        poller = p;
      } in
      (
        emit e connection_callback up,
        rw run refl,
        record {
          inv = record {
            input_valid = v.input_valid;
            output_valid = v.output_valid;
            interest = wishes.interest;
            synced = s;
            waiting = λ _. wishes.writes ∙ v.waiting (λ down. not_down (sym st ∙ down));
          };
          state_up = refl;
          reading = wishes.reads;
          is_tied = refl;
          effects_added = refl;
          beside = record { same_fd = refl; apart = a };
          output_kept = refl;
          input_kept = refl;
          callbacks_kept = refl;
        },
      )
