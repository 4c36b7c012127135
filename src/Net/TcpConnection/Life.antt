-- ===== src/Net/TcpConnection/Life.antt =====
-- src/net/TcpConnection.cpp: a connection from its constructor to the end of its channel.
use tiny_network.Prelude.{
  ℕ, Bool, ◌<◌, ◌^◌, ◌≡◌, ◌≢◌, sym, ◌∙◌, ap, subst, true, ◌&&◌, if◌then◌else◌, List, [], ◌∷◌, ◌++◌,
  Option, none, some, ◌>>=◌, arith, length, append-nil, append_assoc,
}
use tiny_network.Net.Buffer.{contents, delivered}
use tiny_network.Net.Poller.{Poller}
use tiny_network.Net.Poller.Kernel.{Epoll}
use tiny_network.Net.Poller.Synced.{Left, Apart}
use tiny_network.Net.TcpConnection.{
  Connection, Effect, connection_callback, close_callback, connected, disconnected, create,
  connection_established, Callbacks, connect_destroyed, handle_read,
}
use tiny_network.Net.TcpConnection.Creation.{equip, create-Opened}
use tiny_network.Net.TcpConnection.Invariant.{
  Beside, Beside-trans, stream, written_bytes, written_bytes-append,
}
use tiny_network.Net.TcpConnection.Lifecycle.{Closed}
use tiny_network.Net.TcpConnection.Destruction.{farewell, can_end, connect_destroyed-Destroyed}
use tiny_network.Net.TcpConnection.Reading.{handle_read_end}
use tiny_network.Net.TcpConnection.Service.{
  Request, messages, received, AreCalm, serve, serve-Served,
}

abbrev pub all_callbacks : Callbacks
all_callbacks = record { connection = true; message = true; close = true }

-- The last calls of callbacks.
abbrev pub goodbye : List Effect
goodbye = (connection_callback ∷ []) ++ (close_callback ∷ [])

module _ (e : Epoll) where
  open e use {registered}

  -- A connection that gets its callbacks, serves requests until a read gives no bytes, and is
  -- destroyed then.
  unfoldable pub attend : ℕ → ℕ → Callbacks → Bool → List Request → Poller e → Option (Connection e)
  attend handle fd cbs write_complete requests p = do
    fresh ← create e handle fd p
    up ← connection_established e (equip e cbs write_complete fresh)
    served ← serve e requests up
    down ← handle_read e served (delivered []) 0
    connect_destroyed e down

  goodbye_silent : (xs : List Effect) → written_bytes (xs ++ goodbye) ≡ written_bytes xs
  unfolding written_bytes
  goodbye_silent xs = written_bytes-append xs goodbye ∙ append-nil (written_bytes xs)

  -- What is left when a connection that was closed is destroyed.
  close_and_destroy :
      (c d : Connection e)
      → Closed e c d
      → (f : Connection e) × (connect_destroyed e d ≡ some f)
        × (registered f.poller.epoll d.channel.fd ≡ none)
        × (f.poller.channels d.channel.fd ≡ none)
        × Beside e d f
        × (f.effects ≡ c.effects ++ goodbye)
        × (stream e f ≡ stream e c)
        × (contents f.input ≡ contents c.input)
  unfolding stream
  close_and_destroy c d closed =
      let (f, ran, gone, said) = connect_destroyed-Destroyed e d closed.inv in
      let quiet : f.effects ≡ d.effects =
        said ∙ ap (λ s. d.effects ++ farewell e s) closed.state_down ∙ append-nil d.effects in
      let effects : f.effects ≡ c.effects ++ goodbye =
        quiet
        ∙ closed.effects_added
        ∙ append_assoc c.effects (connection_callback ∷ []) (close_callback ∷ []) in
      (
        f,
        ran
            ∙ ap (λ s. if can_end e s d.callbacks.connection then some f else none)
                closed.state_down,
        gone.unregistered,
        gone.unmapped,
        gone.beside,
        effects,
        ap (λ x. written_bytes x ++ contents f.output) effects
            ∙ ap (◌++ contents f.output) (goodbye_silent c.effects)
            ∙ ap (λ b. written_bytes c.effects ++ contents b)
                (gone.output_kept ∙ closed.output_kept),
        ap contents gone.input_kept ∙ closed.received_kept,
      )

  -- On a poller that does not know the socket, a connection with a connection, a message and a close
  -- callback is created, established, serves any requests and is closed and destroyed without a
  -- fault: what the socket took and what still waits is exactly the messages, in order; the input
  -- holds exactly what was read, in order; its last two calls of callbacks are those of the end of
  -- the connection; the poller does not know the socket any more, and every other descriptor is
  -- registered as before. The messages and the bytes that are read are fewer than 2 ^ 30 each, and no
  -- error of `write` tells that the peer is gone.
  pub attend-Left :
      (handle fd : ℕ) (cbs : Callbacks) (write_complete : Bool) (requests : List Request)
      (p : Poller e)
      → registered p.epoll fd ≡ none
      → p.channels fd ≡ none
      → cbs ≡ all_callbacks
      → AreCalm requests
      → length (messages requests) < 2 ^ 30
      → length (received requests) < 2 ^ 30
      → (c : Connection e) × (before : List Effect) × (attend handle fd cbs write_complete requests
            p
          ≡ some c)
        × (stream e c ≡ messages requests)
        × (contents c.input ≡ received requests)
        × (c.effects ≡ before ++ goodbye)
        × Left e fd p c.poller
  unfolding attend
  attend-Left handle fd cbs write_complete requests p absent unmapped every calm small few =
      let (fresh, up, made, opens, o, beside, its_fd, its_poller) =
        create-Opened e handle fd cbs write_complete p absent unmapped
          (ap (λ x. x.connection) every) in
      let set = o.callbacks_set ∙ every in
      let (served, serves, s) =
        serve-Served e requests up o.inv (λ down. is_up up o.state_up down)
          (ap (λ x. x.message) set) calm (omega (arith, o.output_size, small))
          (omega (arith, o.input_size, few)) in
      let still = s.callbacks_kept ∙ set in
      let (down, closes, closed) =
        handle_read_end e served 0 s.inv (omega (arith, s.input_growth, o.input_size, few)) in
      let (c, ends, absent', unmapped', last, effects, streamed, same_input) =
        close_and_destroy served down closed in
      let all =
        Beside-trans e fresh down c
          (Beside-trans e fresh served down (Beside-trans e fresh up served beside s.beside)
            closed.beside)
          last in
      let down_fd : down.channel.fd ≡ fd = closed.beside.same_fd ∙ s.beside.same_fd ∙ o.its_fd in
      let apart : Apart e fd p c.poller =
        subst (λ q. Apart e fd q c.poller) its_poller
          (subst (λ k. Apart e k fresh.poller c.poller) its_fd all.apart) in
      (
        c,
        served.effects,
        rw
            (
              made,
              opens,
              serves,
              closes ∙ ap (λ cb. if cb.connection && cb.close then some down else none) still,
            )
            ends,
        streamed ∙ s.streamed ∙ ap (◌++ messages requests) o.nothing_sent,
        same_input ∙ s.extended ∙ ap (◌++ received requests) o.nothing_read,
        effects,
        record {
          unregistered = subst (λ k. registered c.poller.epoll k ≡ none) down_fd absent';
          unmapped = subst (λ k. c.poller.channels k ≡ none) down_fd unmapped';
          others = apart.registered_kept;
          others_mapped = apart.channels_kept;
          same_log = apart.log_kept;
        },
      )
    where
      is_up : (c : Connection e) → c.state ≡ connected → c.state ≢ disconnected
      is_up c h down = clash (sym h ∙ down)
        where
          clash : connected ≢ disconnected
          clash same = cc
