-- ===== src/Net/EventLoop/Object.antt =====
-- include/net/Eventloop.h, src/net/EventLoop.cpp and src/net/poller/DefaultPoller.cpp: a loop as an
-- object of its thread, with its poller and the channel of its wakeup descriptor. An address of an
-- object is a number. What the kernel answers is an argument, and `none` is LOG_FATAL or a null
-- pointer that is used. The timer queue, which has no implementation, is left out.
use tiny_network.Prelude.{ℕ, Bool, List, [], ◌∷◌, Option, none, some, ◌==◌, if◌then◌else◌, ◌>>=◌}
use tiny_network.Net.Channel.{Channel}
use tiny_network.Net.Channel
use tiny_network.Net.Poller.{Poller}
use tiny_network.Net.Poller
use tiny_network.Net.Poller.Kernel.{Epoll}

-- `creatEventfd`: the answer of `eventfd`.
unfoldable pub creat_eventfd : Option ℕ → Option ℕ
creat_eventfd (some evfd) = some evfd
creat_eventfd none = none

-- `EventLoop::isInLoopThread`, with the thread of the loop and the one that asks.
unfoldable pub is_in_loop_thread : ℕ → ℕ → Bool
is_in_loop_thread thread_id tid = thread_id == tid

module _ (e : Epoll) where
  -- The constructor of `EpollPoller`, with the answer of `epoll_create`.
  unfoldable pub epoll_poller : Option e.State → Option (Poller e)
  epoll_poller (some state) = some (Poller.create e state)
  epoll_poller none = none

  -- `Poller::newDefaultPoller`; `use_poll` tells whether MUDUO_USE_POLL is set.
  unfoldable pub new_default_poller : Bool → Option e.State → Option (Poller e)
  new_default_poller use_poll epoll = if use_poll then none else epoll_poller epoll

  pub record EventLoop : Type 0 where
    pub address : ℕ
    pub thread_id : ℕ
    pub wakeup_fd : ℕ
    pub wakeup_channel : Channel
    pub poller : Poller e

  -- The constructor, in a thread whose `t_loopInThisThread` is given; its new value comes too.
  -- A poller that is null is used at the end.
  unfoldable pub create :
      Bool → Option e.State → Option ℕ → ℕ → ℕ → ℕ → Option ℕ → Option (EventLoop × Option ℕ)
  create use_poll epoll eventfd tid address handle (some other) = none
  create use_poll epoll eventfd tid address handle none = do
    poller ← new_default_poller use_poll epoll
    wakeup_fd ← creat_eventfd eventfd
    (channel, poller') ←
        Poller.enable_reading e (Channel.set_read_callback (Channel.create handle wakeup_fd)) poller
    some (
      record {
        address = address;
        thread_id = tid;
        wakeup_fd = wakeup_fd;
        wakeup_channel = channel;
        poller = poller';
      },
      some address,
    )

  -- The destructor, up to that of the poller: what it closes, and `t_loopInThisThread`.
  unfoldable pub destroy : EventLoop → Option (Poller e × List ℕ × Option ℕ)
  destroy l = do
    (channel, p) ← Poller.disable_all e l.wakeup_channel l.poller
    (channel', p') ← Poller.remove e channel p
    some (p', l.wakeup_fd ∷ [], none)

  -- The calls that the loop passes on to its poller. `hasChannel` returns nothing.
  unfoldable pub update_channel : Channel → EventLoop → Option (Channel × EventLoop)
  update_channel c l = do
    (c', p) ← Poller.update_channel e c l.poller
    some (c', record l { poller = p })

  unfoldable pub remove_channel : Channel → EventLoop → Option (Channel × EventLoop)
  remove_channel c l = do
    (c', p) ← Poller.remove_channel e c l.poller
    some (c', record l { poller = p })
