-- ===== src/Net/Acceptor/Listening.antt =====
-- src/net/Acceptor.cpp: the channel that listens, from the constructor to the destructor.
use tiny_network.Prelude.{ℕ, ◌≡◌, refl, ◌∙◌, Bool, true, false, List, [], ◌∷◌, none, some}
use tiny_network.Net.Channel.{Channel, set_index, wants_reading, ignores_all}
use tiny_network.Net.Channel
use tiny_network.Net.InetAddress.{InetAddress}
use tiny_network.Net.Poller.{Poller}
use tiny_network.Net.Poller.Kernel.{Epoll}
use tiny_network.Net.Poller.Synced.{Synced, Left}
use tiny_network.Net.Poller.Members.{
  enable_reading-Registers, disable_all-Registers, remove-Removes,
}
use tiny_network.Net.Acceptor.{
  Acceptor, Event, closes, socket_bind, socket_listen, create_nonblocking, create, listen, destroy,
  destroy_socket,
}

module _ (e : Epoll) where
  open e use {registered}

  -- An acceptor whose channel is in step with the poller is destroyed without a fault.
  destroy-Left :
      (a : Acceptor) (p : Poller e)
      → Synced e a.channel p
      → (p' : Poller e) × (destroy e a p ≡ some (closes a.accept_fd ∷ [], p'))
        × Left e a.channel.fd p p'
  unfolding destroy destroy_socket ignores_all set_index
  destroy-Left a p s =
      let (i, p1, run, s1, apart) = disable_all-Registers e a.channel p s in
      let (p2, gone, (absent, unmapped), apart2) =
        remove-Removes e (set_index (ignores_all a.channel) i) p1 s1 in
      (
        p2,
        rw (run, gone) refl,
        record {
          unregistered = absent;
          unmapped = unmapped;
          others = λ k other. apart2.registered_kept k other ∙ apart.registered_kept k other;
          others_mapped = λ k other. apart2.channels_kept k other ∙ apart.channels_kept k other;
          same_log = apart2.log_kept ∙ apart.log_kept;
        },
      )

  -- On a poller that does not know the new socket, if `socket`, `bind` and `listen` succeed, an acceptor
  -- is made, listens and is destroyed without a fault and without a message; after that the poller does
  -- not know the socket, and every other descriptor is registered as before.
  pub listen-Left :
      (sockfd handle : ℕ) (addr : InetAddress) (reuseport : Bool) (p : Poller e)
      → registered p.epoll sockfd ≡ none
      → p.channels sockfd ≡ none
      → (a a' : Acceptor) × (events : List Event) × (p' p'' : Poller e) × (create
            (some sockfd)
            true
            handle
            addr
            reuseport
          ≡ some (a, events))
        × (listen e true a p ≡ some (a', p'))
        × (a'.listenning ≡ true)
        × (destroy e a' p' ≡ some (closes sockfd ∷ [], p''))
        × Left e sockfd p p''
  unfolding create listen socket_bind socket_listen create_nonblocking Channel.create set_index
      wants_reading
  listen-Left sockfd handle addr reuseport p absent unmapped =
      let channel : Channel = record (Channel.create handle sockfd) { has_read_callback = true } in
      let fresh : Acceptor = record {
        accept_fd = sockfd;
        channel = channel;
        has_callback = false;
        listenning = false;
      } in
      let (i, p1, run, s1, apart) = enable_reading-Registers e channel p (absent, unmapped) in
      let up : Acceptor = record fresh {
        channel = set_index (wants_reading channel) i;
        listenning = true;
      } in
      let (p2, ends, left) = destroy-Left up p1 s1 in
      (
        fresh,
        up,
        _,
        p1,
        p2,
        refl,
        rw run refl,
        refl,
        ends,
        record {
          unregistered = left.unregistered;
          unmapped = left.unmapped;
          others = λ k other. left.others k other ∙ apart.registered_kept k other;
          others_mapped = λ k other. left.others_mapped k other ∙ apart.channels_kept k other;
          same_log = left.same_log ∙ apart.log_kept;
        },
      )
