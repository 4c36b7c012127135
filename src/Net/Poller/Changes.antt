-- ===== src/Net/Poller/Changes.antt =====
-- include/net/Channel.h with src/net/poller/EpollPoller.cpp: the changes of one channel.
use tiny_network.Prelude.{◌≡◌, refl, false, Option, none, some, arith, ◌==◌, subst, ◌↔◌}
use tiny_network.Net.Channel.{
  Channel, Index, new, added, deleted, set_index, wants_reading, ignores_reading, wants_writing,
  ignores_writing, ignores_all,
}
use tiny_network.Net.Poller.Kernel.{Epoll}
use tiny_network.Net.Poller.{
  Poller, has_channel, enable_reading, disable_reading, enable_writing, disable_writing,
  disable_all, remove,
}
use tiny_network.Net.Poller.Synced.{Apart, Exact, Registers, Succeeds, Synced}
use tiny_network.Net.Poller.Members.{
  disable_all-Registers, disable_reading-Registers, disable_writing-Registers,
  enable_reading-Registers, enable_writing-Registers, remove-Registers,
}

module _ (e : Epoll) where
  open e use {State, registered, ctl, ctl_ok, add_ok, add_registered}
  open e use {mod_ok, mod_registered, del_ok, del_registered}

  -- What the members of `Channel` ask of the poller.
  pub data Change : Type 0 where
    enabling_reading disabling_reading enabling_writing disabling_writing : Change
    disabling_all removing : Change

  pub apply : Change → Channel → Poller e → Option (Channel × Poller e)
  apply enabling_reading c p = enable_reading e c p
  apply disabling_reading c p = disable_reading e c p
  apply enabling_writing c p = enable_writing e c p
  apply disabling_writing c p = disable_writing e c p
  apply disabling_all c p = disable_all e c p
  apply removing c p = remove e c p

  registered-Succeeds :
      (c d : Channel) (p : Poller e) (r : Option (Channel × Poller e))
      → d.fd ≡ c.fd
      → Registers e d p r
      → Succeeds e c p r
  unfolding set_index
  registered-Succeeds c d p r same (i, p', run, s, a) =
      (set_index d i, p', run, s, subst (λ fd. Apart e fd p p') same a, same)

  pub apply-Succeeds :
      (x : Change) (c : Channel) (p : Poller e) → Synced e c p → Succeeds e c p (apply x c p)
  unfolding apply wants_reading ignores_reading wants_writing ignores_writing ignores_all
  apply-Succeeds enabling_reading c p s =
      registered-Succeeds c (wants_reading c) p _ refl (enable_reading-Registers e c p s)
  apply-Succeeds disabling_reading c p s =
      registered-Succeeds c (ignores_reading c) p _ refl (disable_reading-Registers e c p s)
  apply-Succeeds enabling_writing c p s =
      registered-Succeeds c (wants_writing c) p _ refl (enable_writing-Registers e c p s)
  apply-Succeeds disabling_writing c p s =
      registered-Succeeds c (ignores_writing c) p _ refl (disable_writing-Registers e c p s)
  apply-Succeeds disabling_all c p s =
      registered-Succeeds c (ignores_all c) p _ refl (disable_all-Registers e c p s)
  apply-Succeeds removing c p s = registered-Succeeds c c p _ refl (remove-Registers e c p s)

  -- For an exactly registered channel `hasChannel` is false exactly when its index is `kNew`.
  pub has_channel-Synced :
      (c : Channel) (p : Poller e) → Synced e c p → (has_channel e c p ≡ false) ↔ (c.index ≡ new)
  unfolding has_channel
  has_channel-Synced c p s = go c.index s
    where
      go :
          (i : Index)
          → Exact e i c p
          → ((elim (p.channels c.fd) [ none ↦ false | some h ↦ h == c.handle ]) ≡ false) ↔ (i ≡ new)
      go new h = ground arith
      go deleted h = ground arith
      go added h = ground arith
