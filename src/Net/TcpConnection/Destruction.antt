-- ===== src/Net/TcpConnection/Destruction.antt =====
-- src/net/TcpConnection.cpp: destroying a connection.
use tiny_network.Prelude.{
  ◌≡◌, ◌≢◌, refl, sym, ◌∙◌, ap, List, [], ◌∷◌, ◌++◌, Bool, true, false, if◌then◌else◌, none, some,
  ◌>>=◌, append-nil, subst,
}
use tiny_network.Net.Channel.{new, set_index, ignores_all}
use tiny_network.Net.Poller
use tiny_network.Net.Poller.{Poller}
use tiny_network.Net.Poller.Kernel.{Epoll}
use tiny_network.Net.Poller.Synced.{Synced}
use tiny_network.Net.Poller.Members.{disable_all-Registers, remove-Removes}
use tiny_network.Net.TcpConnection.{
  Connection, StateE, disconnected, connecting, connected, disconnecting, Effect,
  connection_callback, emit, call, set_state, on_channel, connect_destroyed,
}
use tiny_network.Net.TcpConnection.Invariant.{
  Inv, Beside, Beside-refl, Beside-trans, on_channel_run,
}

module _ (e : Epoll) where
  down_not_up : disconnected ≢ connected
  down_not_up h = cc

  -- What `connectDestroyed` leaves behind.
  pub record Destroyed (c c' : Connection e) : Type 0 where
    pub forgotten : c'.channel.index ≡ new
    pub unregistered : Epoll.registered e c'.poller.epoll c.channel.fd ≡ none
    pub unmapped : c'.poller.channels c.channel.fd ≡ none
    pub not_connected : c'.state ≢ connected
    pub beside : Beside e c c'
    pub output_kept : c'.output ≡ c.output
    pub input_kept : c'.input ≡ c.input

  -- The effects of `connectDestroyed`: the connection callback, unless the connection went down
  -- before.
  abbrev pub farewell : StateE → List Effect
  farewell connected = connection_callback ∷ []
  farewell _ = []

  -- Only a connection that is up calls the connection callback, which throws if it is empty.
  abbrev pub can_end : StateE → Bool → Bool
  can_end connected is_set = is_set
  can_end _ is_set = true

  call_then_remove :
      (is_set : Bool) (d c' : Connection e)
      → on_channel e (Poller.remove e) (emit e connection_callback d) ≡ some c'
      → (call e is_set connection_callback d >>= λ told. on_channel e (Poller.remove e) told)
        ≡ (if is_set then some c' else none)
  call_then_remove true d c' run = run
  call_then_remove false d c' run = refl

  remove_down :
      (c d : Connection e)
      → Beside e c d
      → d.output ≡ c.output
      → d.input ≡ c.input
      → d.state ≢ connected
      → Synced e d.channel d.poller
      → (c' : Connection e) × (on_channel e (Poller.remove e) d ≡ some c')
        × Destroyed c c'
        × (c'.effects ≡ d.effects)
  unfolding on_channel set_index
  remove_down c d b kept kept_input down s =
      let same = b.same_fd in
      let (p, run, gone, a) = remove-Removes e d.channel d.poller s in
      (
        record d { channel = set_index d.channel new; poller = p },
        rw run refl,
        record {
          forgotten = refl;
          unregistered = subst (λ fd. Epoll.registered e p.epoll fd ≡ none) same gone.0;
          unmapped = subst (λ fd. p.channels fd ≡ none) same gone.1;
          not_connected = down;
          beside =
              Beside-trans e c d (record d { channel = set_index d.channel new; poller = p }) b
                (record { same_fd = refl; apart = a });
          output_kept = kept;
          input_kept = kept_input;
        },
        refl,
      )

  Destroyed-up :
      (c : Connection e)
      → Inv e c
      → (c' : Connection e) × ((on_channel e (Poller.disable_all e) (set_state e disconnected c)
            >>= (λ d. call e d.callbacks.connection connection_callback d)
            >>= λ d. on_channel e (Poller.remove e) d)
          ≡ (if c.callbacks.connection then some c' else none))
        × Destroyed c c'
        × (c'.effects ≡ c.effects ++ (connection_callback ∷ []))
  unfolding set_state emit set_index ignores_all
  Destroyed-up c v =
      let (i, p, run, s, a) =
        on_channel_run e (Poller.disable_all e) (ignores_all c.channel)
          (record c { state = disconnected })
          (disable_all-Registers e c.channel c.poller v.synced) in
      let down = record c {
        state = disconnected;
        channel = set_index (ignores_all c.channel) i;
        poller = p;
      } in
      let (c', ends, gone, kept) =
        remove_down c (emit e connection_callback down) (record { same_fd = refl; apart = a }) refl
          refl (λ h. down_not_up h) s in
      (c', rw run (call_then_remove c.callbacks.connection down c' ends), gone, kept)

  -- `connectDestroyed` on a well-formed connection does not fault, from any state, unless the
  -- connection is still up and its connection callback is empty, whose call throws: afterwards the
  -- descriptor is unknown to the kernel and to the poller's map, other descriptors are as they
  -- were, and the connection callback was called exactly if the connection was still up.
  pub connect_destroyed-Destroyed :
      (c : Connection e)
      → Inv e c
      → (c' : Connection e) × (connect_destroyed e c
          ≡ (if can_end c.state c.callbacks.connection then some c' else none))
        × Destroyed c c'
        × (c'.effects ≡ c.effects ++ farewell c.state)
  unfolding connect_destroyed
  connect_destroyed-Destroyed c v = go c.state refl
    where
      idle :
          (s : StateE)
          → c.state ≡ s
          → s ≢ connected
          → farewell s ≡ []
          → (c' : Connection e) × (on_channel e (Poller.remove e) c ≡ some c')
            × Destroyed c c'
            × (c'.effects ≡ c.effects ++ farewell s)
      idle s st ne none_said =
          let (c', run, gone, kept) =
            remove_down c c (Beside-refl e c) refl refl (λ h. ne (sym st ∙ h)) v.synced in
          (c', run, gone, kept ∙ sym (append-nil c.effects) ∙ ap (◌++◌ c.effects) (sym none_said))

      go :
          (s : StateE)
          → c.state ≡ s
          → (c' : Connection e) × (((elim s [
            | connected ↦ do
              c' ← on_channel e (Poller.disable_all e) (set_state e disconnected c)
              call e c'.callbacks.connection connection_callback c'
            | _ ↦ some c
          ])
                >>= λ down. on_channel e (Poller.remove e) down)
              ≡ (if can_end s c.callbacks.connection then some c' else none))
            × Destroyed c c'
            × (c'.effects ≡ c.effects ++ farewell s)
      go disconnected st = idle disconnected st (λ h. cc) refl
      go connecting st = idle connecting st (λ h. cc) refl
      go connected st = Destroyed-up c v
      go disconnecting st = idle disconnecting st (λ h. cc) refl
