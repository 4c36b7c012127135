-- ===== src/Net/Poller/Registration.antt =====
-- src/net/poller/EpollPoller.cpp: registration, with `index_`, the map and the kernel in step.
use tiny_network.Prelude.{
  ◌≡◌, refl, Option, none, some, ◌>>=◌, ==_refl, ne→==, Bool-cases, inl, inr, subst, sym,
}
use tiny_network.Net.Channel.{Channel, Index, new, added, deleted, set_index, is_none_event}
use tiny_network.Net.Poller.Kernel.{Epoll, Interest, ctl_add, ctl_mod, ctl_del}
use tiny_network.Net.Poller.{
  Poller, interest_of, put, update, update_by_index, update_channel, remove_by_index,
  remove_channel,
}
use tiny_network.Net.Poller.Synced.{Adds, Known, Registers, Removes}

module _ (e : Epoll) where
  open e use {State, registered, ctl, ctl_ok, add_ok, add_registered}
  open e use {mod_ok, mod_registered, del_ok, del_registered}

  update_new :
      (c : Channel) (p : Poller e)
      → Known e new c.fd c.handle p
      → Adds e c p (update_by_index e new c p)
  unfolding update_by_index update set_index
  update_new c p h = (
    record p {
      epoll = ctl p.epoll ctl_add c.fd (interest_of c);
      channels = put p.channels c.fd (some c.handle);
    },
    rw (add_ok p.epoll c.fd (interest_of c) h.0) refl,
    (
      rw (add_registered p.epoll c.fd c.fd (interest_of c) h.0, ==_refl c.fd) refl,
      rw (==_refl c.fd) refl,
    ),
    record {
      registered_kept =
          λ k ne. rw (add_registered p.epoll c.fd k (interest_of c) h.0, ne→== k c.fd ne) refl;
      channels_kept = λ k ne. rw (ne→== k c.fd ne) refl;
      log_kept = refl;
    },
  )

  update_deleted :
      (c : Channel) (p : Poller e)
      → Known e deleted c.fd c.handle p
      → Registers e c p (update_by_index e deleted c p)
  unfolding update_by_index update set_index
  update_deleted c p h = (
    added,
    record p { epoll = ctl p.epoll ctl_add c.fd (interest_of c) },
    rw (add_ok p.epoll c.fd (interest_of c) h.0) refl,
    (rw (add_registered p.epoll c.fd c.fd (interest_of c) h.0, ==_refl c.fd) refl, h.1),
    record {
      registered_kept =
          λ k ne. rw (add_registered p.epoll c.fd k (interest_of c) h.0, ne→== k c.fd ne) refl;
      channels_kept = λ k ne. refl;
      log_kept = refl;
    },
  )

  update_added :
      (c : Channel) (p : Poller e)
      → c.index ≡ added
      → Known e added c.fd c.handle p
      → Registers e c p (update_by_index e added c p)
  unfolding update_by_index update set_index is_none_event
  update_added c p i (j, known, mapped) = elim (Bool-cases (is_none_event c)) [
    | inl idle ↦ (
      deleted,
      record p { epoll = ctl p.epoll ctl_del c.fd (interest_of c) },
      rw (idle, del_ok p.epoll c.fd (interest_of c) j known) refl,
      (
        rw (del_registered p.epoll c.fd c.fd (interest_of c) j known, ==_refl c.fd) refl,
        mapped,
        idle,
      ),
      record {
        registered_kept = λ k ne.
            rw (del_registered p.epoll c.fd k (interest_of c) j known, ne→== k c.fd ne) refl;
        channels_kept = λ k ne. refl;
        log_kept = refl;
      },
    )
    | inr busy ↦ (
      added,
      record p { epoll = ctl p.epoll ctl_mod c.fd (interest_of c) },
      rw (busy, mod_ok p.epoll c.fd (interest_of c) j known)
          (λ k. some (
            record c { index = i k },
            record p { epoll = ctl p.epoll ctl_mod c.fd (interest_of c) },
          )),
      (rw (mod_registered p.epoll c.fd c.fd (interest_of c) j known, ==_refl c.fd) refl, mapped),
      record {
        registered_kept = λ k ne.
            rw (mod_registered p.epoll c.fd k (interest_of c) j known, ne→== k c.fd ne) refl;
        channels_kept = λ k ne. refl;
        log_kept = refl;
      },
    )
  ]

  -- `updateChannel` on a channel that is new to the poller adds it.
  pub update_channel-Adds :
      (c : Channel) (p : Poller e)
      → c.index ≡ new
      → Known e new c.fd c.handle p
      → Adds e c p (update_channel e c p)
  unfolding update_channel
  update_channel-Adds c p is_new known =
      subst (λ i. Adds e c p (update_by_index e i c p)) (sym is_new) (update_new c p known)

  -- `updateChannel` on a channel whose index is right does not fail: afterwards the kernel has
  -- exactly the mask of the channel, or nothing at all for an empty one, the map has the channel,
  -- the index says which, and other descriptors are as before.
  pub update_channel-Synced :
      (c : Channel) (p : Poller e)
      → Known e c.index c.fd c.handle p
      → Registers e c p (update_channel e c p)
  unfolding update_channel
  update_channel-Synced c p known = go c.index refl known
    where
      go :
          (i : Index)
          → c.index ≡ i
          → Known e i c.fd c.handle p
          → Registers e c p (update_by_index e i c p)
      go new eq h = let (p', run, s, a) = update_new c p h in (added, p', run, s, a)
      go deleted eq h = update_deleted c p h
      go added eq h = update_added c p eq h

  remove_unregistered :
      (c : Channel) (p : Poller e)
      → registered p.epoll c.fd ≡ none
      → (r : Option (Poller e)) → r ≡ some (record p { channels = put p.channels c.fd none })
      → Removes e c p (r >>= λ p'. some (set_index c new, p'))
  unfolding set_index
  remove_unregistered c p absent r run = (
    record p { channels = put p.channels c.fd none },
    rw run refl,
    (absent, rw (==_refl c.fd) refl),
    record {
      registered_kept = λ k ne. refl;
      channels_kept = λ k ne. rw (ne→== k c.fd ne) refl;
      log_kept = refl;
    },
  )

  remove_added :
      (c : Channel) (p : Poller e) (j : Interest)
      → registered p.epoll c.fd ≡ some j
      → Removes e c p (
          update e ctl_del c (record p { channels = put p.channels c.fd none }) >>= λ p'.
          some (set_index c new, p'))
  unfolding set_index update
  remove_added c p j known = (
    record p {
      epoll = ctl p.epoll ctl_del c.fd (interest_of c);
      channels = put p.channels c.fd none;
    },
    rw (del_ok p.epoll c.fd (interest_of c) j known) refl,
    (
      rw (del_registered p.epoll c.fd c.fd (interest_of c) j known, ==_refl c.fd) refl,
      rw (==_refl c.fd) refl,
    ),
    record {
      registered_kept =
          λ k ne. rw (del_registered p.epoll c.fd k (interest_of c) j known, ne→== k c.fd ne) refl;
      channels_kept = λ k ne. rw (ne→== k c.fd ne) refl;
      log_kept = refl;
    },
  )

  -- `removeChannel` on a channel whose index is right does not fail, and leaves its descriptor
  -- unknown to the kernel and to the map.
  pub remove_channel-Removes :
      (c : Channel) (p : Poller e)
      → Known e c.index c.fd c.handle p
      → Removes e c p (remove_channel e c p)
  unfolding remove_channel
  remove_channel-Removes c p known = go c.index known
    where
      go :
          (i : Index)
          → Known e i c.fd c.handle p
          → Removes e c p (
              remove_by_index e i c (record p { channels = put p.channels c.fd none }) >>= λ p'.
              some (set_index c new, p'))
      go new h = remove_unregistered c p h.0 _ refl
      go deleted h = remove_unregistered c p h.0 _ refl
      go added (j, known, mapped) = remove_added c p j known
