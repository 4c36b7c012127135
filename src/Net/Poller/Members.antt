-- ===== src/Net/Poller/Members.antt =====
-- include/net/Channel.h with src/net/poller/EpollPoller.cpp: the members of a channel that end in
-- `update()` or `remove()`.
use tiny_network.Prelude.{◌≡◌}
use tiny_network.Net.Channel.{
  Channel, Index, new, added, deleted, set_index, tie, is_none_event, wants_reading,
  ignores_reading, wants_writing, ignores_writing, ignores_all,
}
use tiny_network.Net.Poller.Kernel.{Epoll}
use tiny_network.Net.Poller.{
  Poller, enable_reading, disable_reading, enable_writing, disable_writing, disable_all, remove,
}
use tiny_network.Net.Poller.Synced.{Adds, Known, Exact, Synced, Registers, Removes, Known-of_Exact}
use tiny_network.Net.Poller.Registration.{
  update_channel-Adds, update_channel-Synced, remove_channel-Removes,
}

module _ (e : Epoll) where
  pub enable_reading-Registers :
      (c : Channel) (p : Poller e)
      → Synced e c p
      → Registers e (wants_reading c) p (enable_reading e c p)
  unfolding enable_reading wants_reading
  enable_reading-Registers c p s =
      update_channel-Synced e (wants_reading c) p (Known-of_Exact e c.index c p s)

  -- A channel that is new to the poller is added.
  pub enable_reading-Adds :
      (c : Channel) (p : Poller e)
      → c.index ≡ new
      → Known e new c.fd c.handle p
      → Adds e (wants_reading c) p (enable_reading e c p)
  unfolding enable_reading wants_reading
  enable_reading-Adds c p is_new known = update_channel-Adds e (wants_reading c) p is_new known

  pub disable_reading-Registers :
      (c : Channel) (p : Poller e)
      → Synced e c p
      → Registers e (ignores_reading c) p (disable_reading e c p)
  unfolding disable_reading ignores_reading
  disable_reading-Registers c p s =
      update_channel-Synced e (ignores_reading c) p (Known-of_Exact e c.index c p s)

  pub enable_writing-Registers :
      (c : Channel) (p : Poller e)
      → Synced e c p
      → Registers e (wants_writing c) p (enable_writing e c p)
  unfolding enable_writing wants_writing
  enable_writing-Registers c p s =
      update_channel-Synced e (wants_writing c) p (Known-of_Exact e c.index c p s)

  pub disable_writing-Registers :
      (c : Channel) (p : Poller e)
      → Synced e c p
      → Registers e (ignores_writing c) p (disable_writing e c p)
  unfolding disable_writing ignores_writing
  disable_writing-Registers c p s =
      update_channel-Synced e (ignores_writing c) p (Known-of_Exact e c.index c p s)

  pub disable_all-Registers :
      (c : Channel) (p : Poller e)
      → Synced e c p
      → Registers e (ignores_all c) p (disable_all e c p)
  unfolding disable_all ignores_all
  disable_all-Registers c p s =
      update_channel-Synced e (ignores_all c) p (Known-of_Exact e c.index c p s)

  pub remove-Removes : (c : Channel) (p : Poller e) → Synced e c p → Removes e c p (remove e c p)
  unfolding remove
  remove-Removes c p s = remove_channel-Removes e c p (Known-of_Exact e c.index c p s)

  pub tie-Synced : (c : Channel) (p : Poller e) → Synced e c p → Synced e (tie c) p
  unfolding tie is_none_event
  tie-Synced c p s = go c.index s
    where
      go : (i : Index) → Exact e i c p → Exact e i (tie c) p
      go new h = h
      go deleted h = h
      go added h = h

  pub remove-Registers :
      (c : Channel) (p : Poller e) → Synced e c p → Registers e c p (remove e c p)
  unfolding set_index
  remove-Registers c p s = let (p', run, gone, a) = remove-Removes c p s in (new, p', run, gone, a)
