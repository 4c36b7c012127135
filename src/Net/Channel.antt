-- ===== src/Net/Channel.antt =====
-- include/net/Channel.h and src/net/Channel.cpp: the events that a descriptor is registered for,
-- and the dispatch of the events that epoll reports. `epoll_event` masks are numbers.
pub mod Interest
pub mod Dispatch
mod Tests
use Prim.Native.Nat.{bit_and, bit_or}
use tiny_network.Prelude.{
  ℕ, ◌-◌, ◌^◌, Bool, true, false, not, ◌&&◌, ◌||◌, List, [], ◌∷◌, ◌++◌, ◌==◌, if◌then◌else◌,
}

-- The masks of sys/epoll.h.
abbrev pub epoll_in : ℕ
epoll_in = 0x001

abbrev pub epoll_pri : ℕ
epoll_pri = 0x002

abbrev pub epoll_out : ℕ
epoll_out = 0x004

abbrev pub epoll_err : ℕ
epoll_err = 0x008

abbrev pub epoll_hup : ℕ
epoll_hup = 0x010

abbrev pub none_event : ℕ
none_event = 0

-- EPOLLIN | EPOLLPRI
abbrev pub read_event : ℕ
read_event = 0x003

abbrev pub write_event : ℕ
write_event = 0x004

-- `~mask` of an `int`, as its 32-bit pattern.
abbrev pub complement : ℕ → ℕ
complement mask = 2 ^ 32 - 1 - mask

-- `kNew`, `kAdded` and `kDeleted` of src/net/poller/EpollPoller.cpp, the values of `index_`.
pub data Index : Type 0 where
  new added deleted : Index

-- `handle` stands for the address of the object.
pub record Channel : Type 0 where
  pub handle : ℕ
  pub fd : ℕ
  pub events : ℕ
  pub revents : ℕ
  pub index : Index
  pub tied : Bool
  pub has_read_callback : Bool
  pub has_write_callback : Bool
  pub has_close_callback : Bool
  pub has_error_callback : Bool

-- The constructor; the callbacks are empty.
unfoldable pub create : ℕ → ℕ → Channel
create handle fd = record {
  handle = handle;
  fd = fd;
  events = 0;
  revents = 0;
  index = new;
  tied = false;
  has_read_callback = false;
  has_write_callback = false;
  has_close_callback = false;
  has_error_callback = false;
}

abbrev pub set_read_callback : Channel → Channel
set_read_callback c = record c { has_read_callback = true }

abbrev pub set_write_callback : Channel → Channel
set_write_callback c = record c { has_write_callback = true }

abbrev pub set_close_callback : Channel → Channel
set_close_callback c = record c { has_close_callback = true }

abbrev pub set_error_callback : Channel → Channel
set_error_callback c = record c { has_error_callback = true }

unfoldable pub tie : Channel → Channel
tie c = record c { tied = true }

unfoldable pub set_revents : Channel → ℕ → Channel
set_revents c revt = record c { revents = revt }

unfoldable pub set_index : Channel → Index → Channel
set_index c idx = record c { index = idx }

-- The changes of `events_`; each is followed by `update()`, which hands the channel to the poller.
unfoldable pub wants_reading : Channel → Channel
wants_reading c = record c { events = bit_or c.events read_event }

unfoldable pub ignores_reading : Channel → Channel
ignores_reading c = record c { events = bit_and c.events (complement read_event) }

unfoldable pub wants_writing : Channel → Channel
wants_writing c = record c { events = bit_or c.events write_event }

unfoldable pub ignores_writing : Channel → Channel
ignores_writing c = record c { events = bit_and c.events (complement write_event) }

unfoldable pub ignores_all : Channel → Channel
ignores_all c = record c { events = bit_and c.events none_event }

-- A mask in a condition.
unfoldable pub any_of : ℕ → ℕ → Bool
any_of events mask = not (bit_and events mask == 0)

unfoldable pub is_none_event : Channel → Bool
is_none_event c = c.events == none_event

unfoldable pub is_reading : Channel → Bool
unfolding any_of
is_reading c = any_of c.events read_event

unfoldable pub is_writing : Channel → Bool
unfolding any_of
is_writing c = any_of c.events write_event

pub data Callback : Type 0 where
  on_close on_read on_write on_error : Callback

abbrev call_if : Bool → Callback → List Callback
call_if true c = c ∷ []
call_if false c = []

-- The callbacks that `handleEventWithGuard` calls, in order.
unfoldable pub handle_event_with_guard : Channel → List Callback
handle_event_with_guard c =
    (if any_of c.revents epoll_hup && not (any_of c.revents epoll_in)
      then call_if c.has_close_callback on_close
      else [])
    ++ ((if any_of c.revents read_event then call_if c.has_read_callback on_read else [])
        ++ (if any_of c.revents epoll_out then call_if c.has_write_callback on_write else []))

-- `handleEvent`; `alive` tells whether `tie_.lock()` gives the owner.
unfoldable pub handle_event : Channel → Bool → List Callback
handle_event c alive =
    if c.tied then (if alive then handle_event_with_guard c else []) else handle_event_with_guard c
