-- ===== src/Net/TcpConnection/Creation.antt =====
-- src/net/TcpConnection.cpp: a new connection, up to its first callback.
use tiny_network.Prelude.{
  ℕ, Bool, true, false, ap, ◌*◌, ◌++◌, ◌≡◌, refl, ◌∙◌, [], ◌∷◌, none, some, arith, length, inl,
}
use tiny_network.Net.Buffer.{contents}
use tiny_network.Net.Buffer.Contents.{create-IsValid}
use tiny_network.Net.Channel
use tiny_network.Net.Channel.{is_writing, any_of}
use tiny_network.Net.Poller.{Poller}
use tiny_network.Net.Poller.Kernel.{Epoll}
use tiny_network.Net.TcpConnection.{
  Connection, connecting, connected, set_keep_alive, connection_callback, create,
  connection_established, Callbacks, no_callbacks, set_write_complete_callback,
  set_connection_callback, set_message_callback, set_close_callback,
}
use tiny_network.Net.TcpConnection.Invariant.{Inv, Beside, stream, written_bytes}
use tiny_network.Net.TcpConnection.Lifecycle.{connection_established-Established}

module _ (e : Epoll) where
  open e use {registered}

  -- A connection that the constructor made.
  record Fresh (fd : ℕ) (p : Poller e) (c : Connection e) : Type 0 where
    pub inv : Inv e c
    pub state_new : c.state ≡ connecting
    pub its_fd : c.channel.fd ≡ fd
    pub its_poller : c.poller ≡ p
    pub effects_made : c.effects ≡ set_keep_alive ∷ []
    pub nothing_waits : contents c.output ≡ []
    pub nothing_read : contents c.input ≡ []
    pub input_size : length c.input.buffer ≡ 1032
    pub output_size : length c.output.buffer ≡ 1032

  create-Fresh :
      (handle fd : ℕ) (p : Poller e)
      → registered p.epoll fd ≡ none
      → p.channels fd ≡ none
      → (c : Connection e) × (create e handle fd p ≡ some c) × Fresh fd p c
  unfolding create Channel.create is_writing any_of
  create-Fresh handle fd p absent unmapped =
      let (b, made, valid, empty, _, size) = create-IsValid 1024 (omega arith) in
      let fresh : Connection e = record {
        state = connecting;
        channel = record (Channel.create handle fd) {
          has_read_callback = true;
          has_write_callback = true;
          has_close_callback = true;
          has_error_callback = true;
        };
        input = b;
        output = b;
        callbacks = no_callbacks;
        has_write_complete = false;
        has_high_water = false;
        high_water_mark = 64 * 1024 * 1024;
        poller = p;
        effects = set_keep_alive ∷ [];
      } in
      (
        fresh,
        rw made refl,
        record {
          inv = record {
            input_valid = valid;
            output_valid = valid;
            interest = inl refl;
            synced = (absent, unmapped);
            waiting = λ up. rw empty refl;
          };
          state_new = refl;
          its_fd = refl;
          its_poller = refl;
          effects_made = refl;
          nothing_waits = empty;
          nothing_read = empty;
          input_size = size;
          output_size = size;
        },
      )

  -- The callbacks that `newConnection` hands on.
  unfoldable pub equip : Callbacks → Bool → Connection e → Connection e
  equip cbs write_complete c = set_close_callback e cbs.close (
      set_write_complete_callback e write_complete
        (set_message_callback e cbs.message (set_connection_callback e cbs.connection c)))

  -- An established connection: up, with both buffers of their first size, and the first callback
  -- of the user made.
  pub record Opened (fd : ℕ) (cbs : Callbacks) (p : Poller e) (c : Connection e) : Type 0 where
    pub inv : Inv e c
    pub state_up : c.state ≡ connected
    pub its_fd : c.channel.fd ≡ fd
    pub effects_made : c.effects ≡ set_keep_alive ∷ connection_callback ∷ []
    pub nothing_sent : stream e c ≡ []
    pub nothing_read : contents c.input ≡ []
    pub callbacks_set : c.callbacks ≡ cbs
    pub input_size : length c.input.buffer ≡ 1032
    pub output_size : length c.output.buffer ≡ 1032

  pub create-Opened :
      (handle fd : ℕ) (cbs : Callbacks) (write_complete : Bool) (p : Poller e)
      → registered p.epoll fd ≡ none
      → p.channels fd ≡ none
      → cbs.connection ≡ true
      → (c c' : Connection e) × (create e handle fd p ≡ some c)
        × (connection_established e (equip cbs write_complete c) ≡ some c')
        × Opened fd cbs p c'
        × Beside e c c'
        × (c.channel.fd ≡ fd)
        × (c.poller ≡ p)
  unfolding stream written_bytes equip set_write_complete_callback set_connection_callback
      set_message_callback set_close_callback
  create-Opened handle fd cbs write_complete p absent unmapped set =
      let (c, made, f) = create-Fresh handle fd p absent unmapped in
      let (c', up, s) =
        connection_established-Established e (equip cbs write_complete c)
          (record {
            input_valid = f.inv.input_valid;
            output_valid = f.inv.output_valid;
            interest = f.inv.interest;
            synced = f.inv.synced;
            waiting = f.inv.waiting;
          })
          f.state_new in
      let effects : c'.effects ≡ set_keep_alive ∷ connection_callback ∷ [] =
        s.effects_added ∙ ap (◌++ (connection_callback ∷ [])) f.effects_made in
      (
        c,
        c',
        made,
        up ∙ rw set refl,
        record {
          inv = s.inv;
          state_up = s.state_up;
          its_fd = s.beside.same_fd ∙ f.its_fd;
          effects_made = effects;
          nothing_sent =
              ap (λ x. written_bytes x ++ contents c'.output) effects
              ∙ ap contents s.output_kept
              ∙ f.nothing_waits;
          nothing_read = ap contents s.input_kept ∙ f.nothing_read;
          callbacks_set = s.callbacks_kept;
          input_size = ap (λ b. length b.buffer) s.input_kept ∙ f.input_size;
          output_size = ap (λ b. length b.buffer) s.output_kept ∙ f.output_size;
        },
        record { same_fd = s.beside.same_fd; apart = s.beside.apart },
        f.its_fd,
        f.its_poller,
      )
