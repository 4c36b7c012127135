-- ===== src/Net/Poller/Synced.antt =====
-- src/net/poller/EpollPoller.cpp: when `index_`, the map and the kernel are in step.
use tiny_network.Prelude.{ℕ, ◌≡◌, ◌≢◌, refl, ◌∙◌, true, Option, none, some}
use tiny_network.Net.Channel.{Channel, Index, new, added, deleted, set_index, is_none_event}
use tiny_network.Net.Poller.Kernel.{Epoll, Interest}
use tiny_network.Net.Poller.{Poller, interest_of}

module _ (e : Epoll) where
  open e use {registered}

  -- The kernel and the map agree with the index; the registered mask may be an old one.
  abbrev pub Known : Index → ℕ → ℕ → Poller e → Type 0
  Known new fd handle p = (registered p.epoll fd ≡ none) × (p.channels fd ≡ none)
  Known deleted fd handle p = (registered p.epoll fd ≡ none) × (p.channels fd ≡ some handle)
  Known added fd handle p =
      (j : Interest) × (registered p.epoll fd ≡ some j) × (p.channels fd ≡ some handle)

  -- The same with the mask that the channel has now.
  abbrev pub Exact : Index → Channel → Poller e → Type 0
  Exact new c p = (registered p.epoll c.fd ≡ none) × (p.channels c.fd ≡ none)
  Exact deleted c p =
      (registered p.epoll c.fd ≡ none)
      × (p.channels c.fd ≡ some c.handle)
      × (is_none_event c ≡ true)
  Exact added c p =
      (registered p.epoll c.fd ≡ some (interest_of c)) × (p.channels c.fd ≡ some c.handle)

  abbrev pub Synced : Channel → Poller e → Type 0
  Synced c p = Exact c.index c p

  -- Nothing that belongs to another descriptor changes, and nothing is logged.
  pub record Apart (fd : ℕ) (p p' : Poller e) : Type 0 where
    pub registered_kept : (k : ℕ) → k ≢ fd → registered p'.epoll k ≡ registered p.epoll k
    pub channels_kept : (k : ℕ) → k ≢ fd → p'.channels k ≡ p.channels k
    pub log_kept : p'.log ≡ p.log

  -- Success: nothing but the index of the channel changes, which is left exactly registered.
  abbrev pub Registers : Channel → Poller e → Option (Channel × Poller e) → Type 0
  Registers c p r =
      (i : Index) × (p' : Poller e) × (r ≡ some (set_index c i, p'))
      × Synced (set_index c i) p'
      × Apart c.fd p p'

  -- The same for several operations in a row, which change the mask too.
  abbrev pub Succeeds : Channel → Poller e → Option (Channel × Poller e) → Type 0
  Succeeds c p r =
      (c' : Channel) × (p' : Poller e) × (r ≡ some (c', p'))
      × Synced c' p'
      × Apart c.fd p p'
      × (c'.fd ≡ c.fd)

  -- Success for a channel that the poller did not know.
  abbrev pub Adds : Channel → Poller e → Option (Channel × Poller e) → Type 0
  Adds c p r =
      (p' : Poller e) × (r ≡ some (set_index c added, p'))
      × Synced (set_index c added) p'
      × Apart c.fd p p'

  -- Success of `removeChannel`: the index is `kNew`, and nobody knows the descriptor.
  abbrev pub Removes : Channel → Poller e → Option (Channel × Poller e) → Type 0
  Removes c p r =
      (p' : Poller e) × (r ≡ some (set_index c new, p'))
      × ((registered p'.epoll c.fd ≡ none) × (p'.channels c.fd ≡ none))
      × Apart c.fd p p'

  -- The poller without the descriptor, and as it was for every other.
  pub record Left (fd : ℕ) (p p' : Poller e) : Type 0 where
    pub unregistered : registered p'.epoll fd ≡ none
    pub unmapped : p'.channels fd ≡ none
    pub others : (k : ℕ) → k ≢ fd → registered p'.epoll k ≡ registered p.epoll k
    pub others_mapped : (k : ℕ) → k ≢ fd → p'.channels k ≡ p.channels k
    pub same_log : p'.log ≡ p.log

  pub Apart-refl : (fd : ℕ) (p : Poller e) → Apart fd p p
  Apart-refl fd p = record {
    registered_kept = λ k ne. refl;
    channels_kept = λ k ne. refl;
    log_kept = refl;
  }

  pub Apart-trans : (fd : ℕ) (p q r : Poller e) → Apart fd p q → Apart fd q r → Apart fd p r
  Apart-trans fd p q r a b = record {
    registered_kept = λ k ne. b.registered_kept k ne ∙ a.registered_kept k ne;
    channels_kept = λ k ne. b.channels_kept k ne ∙ a.channels_kept k ne;
    log_kept = b.log_kept ∙ a.log_kept;
  }

  pub Known-of_Exact :
      (i : Index) (c : Channel) (p : Poller e) → Exact i c p → Known i c.fd c.handle p
  Known-of_Exact new c p h = h
  Known-of_Exact deleted c p h = (h.0, h.1)
  Known-of_Exact added c p h = (interest_of c, h.0, h.1)

  -- A channel stays in step while nothing is changed at its descriptor.
  pub Synced-kept :
      (c : Channel) (p q : Poller e)
      → registered q.epoll c.fd ≡ registered p.epoll c.fd
      → q.channels c.fd ≡ p.channels c.fd
      → Synced c p
      → Synced c q
  Synced-kept c p q same_kernel same_map s = go c.index s
    where
      go : (i : Index) → Exact i c p → Exact i c q
      go new h = (same_kernel ∙ h.0, same_map ∙ h.1)
      go deleted h = (same_kernel ∙ h.0, same_map ∙ h.1, h.2)
      go added h = (same_kernel ∙ h.0, same_map ∙ h.1)
