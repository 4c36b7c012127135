-- ===== src/Net/Poller.antt =====
-- include/net/poller and src/net/poller: `EpollPoller` over the kernel's epoll interface.
-- A file descriptor is a number, and a channel is named by its handle. `none` is LOG_FATAL, which
-- ends the program.
pub mod Kernel
pub mod Synced
pub mod Registration
pub mod Members
pub mod Changes
pub mod Sharing
pub mod Poll
pub mod Table
mod Tests
use tiny_network.Prelude.{
  ℕ, ◌+◌, ◌-◌, ◌*◌, ◌%◌, ◌^◌, ◌<◌, Bool, true, false, List, [], ◌∷◌, ◌++◌, Option, none, some, ltb,
  ◌==◌, if◌then◌else◌, ◌>>=◌, length, take, map,
}
use Kernel.{Epoll, Operation, ctl_add, ctl_mod, ctl_del, Interest}
use tiny_network.Net.Channel.{
  Channel, Index, new, added, deleted, set_index, set_revents, is_none_event, wants_reading,
  ignores_reading, wants_writing, ignores_writing, ignores_all,
}

abbrev pub init_event_list_size : ℕ
init_event_list_size = 16

-- The messages that the poller logs.
pub data Message : Type 0 where
  ctl_del_error timeout poll_failed : Message

-- A write to the map of channels.
abbrev pub put : (ℕ → Option ℕ) → ℕ → Option ℕ → ℕ → Option ℕ
put m fd v k = if k == fd then v else m k

-- What `epoll_wait` returned: events with the handles that they carry, or an error number.
pub data WaitResult : Type 0 where
  ready : List (ℕ × ℕ) → WaitResult
  wait_failed : ℕ → WaitResult

abbrev pub eintr : ℕ
eintr = 4

-- The `epoll_event` that `update` fills in.
abbrev pub interest_of : Channel → Interest
interest_of c = record { events = c.events; data_ptr = c.handle }

-- `set_revents` of the channel with this handle, among those that exist.
unfoldable pub mark : ℕ → ℕ → List Channel → List Channel
mark mask handle [] = []
mark mask handle (c ∷ cs) =
    let rest = mark mask handle cs in
    if c.handle == handle then set_revents c mask ∷ cs else c ∷ rest

-- The same for each event, in order.
unfoldable pub mark_all : List (ℕ × ℕ) → List Channel → List Channel
mark_all [] cs = cs
mark_all ((mask, handle) ∷ events) cs = mark_all events (mark mask handle cs)

abbrev pub handle_at : ℕ × ℕ → ℕ
handle_at event = event.1

-- `fillActiveChannels`: the active channels by their handles, in the order of the events, and all
-- channels, with the `revents_` of the active ones. The count is an `int`.
pub fill_active_channels : List (ℕ × ℕ) → ℕ → List Channel → List ℕ × List Channel
fill_active_channels events num_events cs =
    if ltb num_events (2 ^ 31)
    then (map handle_at (take num_events events), mark_all (take num_events events) cs)
    else ([], cs)

-- The count of `epoll_wait` is kept in a `size_t`, so that -1 is the largest value, and as an
-- `int` argument it is -1 again.
abbrev num_events : WaitResult → ℕ
num_events (ready events) = length events
num_events (wait_failed err) = 2 ^ 64 - 1

abbrev reported : WaitResult → List (ℕ × ℕ)
reported (ready events) = events
reported (wait_failed err) = []

abbrev count_as_int : ℕ → ℕ
count_as_int n = n % 2 ^ 32

abbrev saved_errno : WaitResult → ℕ
saved_errno (ready events) = 0
saved_errno (wait_failed err) = err

module _ (e : Epoll) where
  open e use {State, registered, ctl, ctl_ok}

  -- `capacity` is `events_.size()`.
  pub record Poller : Type 0 where
    pub epoll : State
    pub channels : ℕ → Option ℕ
    pub capacity : ℕ
    pub log : List Message

  unfoldable pub create : State → Poller
  create s = record { epoll = s; channels = λ fd. none; capacity = init_event_list_size; log = [] }

  -- `update(operation, channel)`: one `epoll_ctl`, whose failure is fatal but for EPOLL_CTL_DEL.
  pub update : Operation → Channel → Poller → Option Poller
  update op c p =
      if ctl_ok p.epoll op c.fd (interest_of c)
      then some (record p { epoll = ctl p.epoll op c.fd (interest_of c) })
      else elim op [ ctl_del ↦ some (record p { log = p.log ++ (ctl_del_error ∷ []) }) | _ ↦ none ]

  -- The branches of `updateChannel`, by the index of the channel.
  update_by_index : Index → Channel → Poller → Option (Channel × Poller)
  update_by_index new c p = do
    p' ←
        update ctl_add (set_index c added)
          (record p { channels = put p.channels c.fd (some c.handle) })
    some (set_index c added, p')
  update_by_index deleted c p = do
    p' ← update ctl_add (set_index c added) p
    some (set_index c added, p')
  update_by_index added c p =
      if is_none_event c
      then (do p' ← update ctl_del c p; some (set_index c deleted, p'))
      else (do p' ← update ctl_mod c p; some (c, p'))

  pub update_channel : Channel → Poller → Option (Channel × Poller)
  unfolding update_by_index
  update_channel c p = update_by_index c.index c p

  remove_by_index : Index → Channel → Poller → Option Poller
  remove_by_index added c p = update ctl_del c p
  remove_by_index _ c p = some p

  pub remove_channel : Channel → Poller → Option (Channel × Poller)
  unfolding remove_by_index
  remove_channel c p = do
    p' ← remove_by_index c.index c (record p { channels = put p.channels c.fd none })
    some (set_index c new, p')

  pub has_channel : Channel → Poller → Bool
  has_channel c p = elim (p.channels c.fd) [ none ↦ false | some h ↦ h == c.handle ]

  -- `poll` after `epoll_wait` returned: the active channels, all channels, and the poller.
  pub poll : WaitResult → List Channel → Poller → List ℕ × List Channel × Poller
  poll result cs p =
      let n = num_events result in
      if ltb 0 n
      then (
        (fill_active_channels (reported result) (count_as_int n) cs).0,
        (fill_active_channels (reported result) (count_as_int n) cs).1,
        (if n == p.capacity then record p { capacity = p.capacity * 2 } else p),
      )
      else if n == 0
      then ([], cs, record p { log = p.log ++ (timeout ∷ []) })
      else if saved_errno result == eintr
      then ([], cs, p)
      else ([], cs, record p { log = p.log ++ (poll_failed ∷ []) })

  -- The members of `Channel` that end in `update()` or `remove()`, through the event loop.
  pub enable_reading : Channel → Poller → Option (Channel × Poller)
  enable_reading c p = update_channel (wants_reading c) p

  pub disable_reading : Channel → Poller → Option (Channel × Poller)
  disable_reading c p = update_channel (ignores_reading c) p

  pub enable_writing : Channel → Poller → Option (Channel × Poller)
  enable_writing c p = update_channel (wants_writing c) p

  pub disable_writing : Channel → Poller → Option (Channel × Poller)
  disable_writing c p = update_channel (ignores_writing c) p

  pub disable_all : Channel → Poller → Option (Channel × Poller)
  disable_all c p = update_channel (ignores_all c) p

  pub remove : Channel → Poller → Option (Channel × Poller)
  remove c p = remove_channel c p
