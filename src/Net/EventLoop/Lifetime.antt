-- ===== src/Net/EventLoop/Lifetime.antt =====
-- src/net/EventLoop.cpp: a loop from its constructor to its destructor, among other channels.
use tiny_network.Prelude.{
  ap, ◌+◌, ℕ, ◌≡◌, ◌≢◌, refl, sym, ◌∙◌, subst, true, false, List, [], ◌∷◌, none, some, map,
}
use tiny_network.Net.Channel
use tiny_network.Net.Channel.{Channel, added, set_index, wants_reading, ignores_all, read_event}
use tiny_network.Net.Poller
use tiny_network.Net.Poller.{Poller}
use tiny_network.Net.Poller.Kernel.{Epoll}
use tiny_network.Net.Poller.Synced.{Synced, Synced-kept, Left}
use tiny_network.Net.Poller.Members.{enable_reading-Adds, disable_all-Registers, remove-Removes}
use tiny_network.Net.Poller.Changes.{Change}
use tiny_network.Net.Poller.Sharing.{
  AreDistinct, AreSynced, IsOther, fd_of, use_all, use_all-Shares, AreSynced-kept,
}
use tiny_network.Net.EventLoop.Object.{
  EventLoop, creat_eventfd, epoll_poller, new_default_poller, create, destroy,
}

module _ (e : Epoll) where
  open e use {registered}

  -- The channel of a wakeup descriptor, reading.
  abbrev wakeup_channel : ℕ → ℕ → Channel
  wakeup_channel handle fd =
      set_index (wants_reading (record (Channel.create handle fd) { has_read_callback = true }))
        added

  record Created (state : e.State) (fd tid address handle : ℕ) (l : EventLoop e) : Type 0 where
    pub its_thread : l.thread_id ≡ tid
    pub its_fd : l.wakeup_fd ≡ fd
    pub its_channel : l.wakeup_channel ≡ wakeup_channel handle fd
    pub synced : Synced e (wakeup_channel handle fd) l.poller
    pub registered_kept : (k : ℕ) → k ≢ fd → registered l.poller.epoll k ≡ registered state k
    pub channels_kept : (k : ℕ) → k ≢ fd → l.poller.channels k ≡ none

  create-Created :
      (state : e.State) (fd tid address handle : ℕ)
      → registered state fd ≡ none
      → (l : EventLoop e) × (create e false (some state) (some fd) tid address handle none
          ≡ some (l, some address))
        × Created state fd tid address handle l
  unfolding create new_default_poller epoll_poller creat_eventfd Channel.create Poller.create
      set_index wants_reading
  create-Created state fd tid address handle absent =
      let channel = record (Channel.create handle fd) { has_read_callback = true } in
      let (p, run, s, a) =
        enable_reading-Adds e channel (Poller.create e state) refl (absent, refl) in
      (
        record {
          address = address;
          thread_id = tid;
          wakeup_fd = fd;
          wakeup_channel = wakeup_channel handle fd;
          poller = p;
        },
        rw run refl,
        record {
          its_thread = refl;
          its_fd = refl;
          its_channel = refl;
          synced = s;
          registered_kept = a.registered_kept;
          channels_kept = a.channels_kept;
        },
      )

  -- The destructor takes out the wakeup channel and nothing else.
  destroy-Left :
      (l : EventLoop e)
      → Synced e l.wakeup_channel l.poller
      → (q : Poller e) × (destroy e l ≡ some (q, l.wakeup_fd ∷ [], none))
        × Left e l.wakeup_channel.fd l.poller q
  unfolding destroy ignores_all set_index
  destroy-Left l s =
      let (i, p1, run, s1, apart) = disable_all-Registers e l.wakeup_channel l.poller s in
      let (p2, gone, (absent, unmapped), apart2) =
        remove-Removes e (set_index (ignores_all l.wakeup_channel) i) p1 s1 in
      (
        p2,
        rw (run, gone) refl,
        record {
          unregistered = absent;
          unmapped = unmapped;
          others = λ k other. apart2.registered_kept k other ∙ apart.registered_kept k other;
          others_mapped = λ k other. apart2.channels_kept k other ∙ apart.channels_kept k other;
          same_log = apart2.log_kept ∙ apart.log_kept;
        },
      )

  -- In a thread without a loop, with epoll and an event descriptor that the epoll instance does
  -- not know, a loop is made, which is then the loop of its thread: making a second one there is
  -- fatal. Whatever the other channels of the loop, of other descriptors, change in whatever order,
  -- nothing fails, and the wakeup descriptor stays registered for reading; and then the loop is
  -- destroyed without a fault: the thread has no loop, the wakeup descriptor is closed and no
  -- longer known, and all other channels stay exactly registered.
  pub create-destroy :
      (state : e.State) (fd tid address handle : ℕ) (others : List Channel)
      (xs : List (ℕ × Change e))
      → registered state fd ≡ none
      → IsOther fd (map fd_of others)
      → AreDistinct (map fd_of others)
      → AreSynced e others (Poller.create e state)
      → (l : EventLoop e) × (cs : List Channel) × (p q : Poller e) × (create e false
            (some state)
            (some fd)
            tid
            address
            handle
            none
          ≡ some (l, some address))
        × (create e false (some state) (some fd) tid (address + 1) handle (some address) ≡ none)
        × (use_all e xs others l.poller ≡ some (cs, p))
        × (registered p.epoll fd ≡ some (record { events = read_event; data_ptr = handle }))
        × (destroy e (record l { poller = p }) ≡ some (q, fd ∷ [], none))
        × Left e fd p q
        × AreSynced e cs q
  unfolding create Channel.create set_index wants_reading Poller.create
  create-destroy state fd tid address handle others xs absent other distinct synced =
      let (l, made, c) = create-Created state fd tid address handle absent in
      let (cs, p, used, ss, same, b) = use_all-Shares e xs others l.poller distinct (
        AreSynced-kept e others fd (Poller.create e state) l.poller other c.registered_kept
          c.channels_kept synced) in
      let kept =
        Synced-kept e (wakeup_channel handle fd) l.poller p (b.registered_kept fd other)
          (b.channels_kept fd other) c.synced in
      let (q, ends, left) =
        destroy-Left (record l { poller = p })
          (subst (λ ch. Synced e ch p) (sym c.its_channel) kept) in
      let at : l.wakeup_channel.fd ≡ fd = ap fd_of c.its_channel in
      let left_fd = subst (λ k. Left e k p q) at left in
      (
        l,
        cs,
        p,
        q,
        made,
        refl,
        used,
        kept.0,
        ends ∙ ap (λ k. some (q, k ∷ [], none)) c.its_fd,
        left_fd,
        AreSynced-kept e cs fd p q (subst (IsOther fd) (sym same) other) left_fd.others
            left_fd.others_mapped ss,
      )
