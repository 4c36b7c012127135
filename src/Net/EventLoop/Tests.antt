-- ===== src/Net/EventLoop/Tests.antt =====
-- src/net/EventLoop.cpp: a wakeup from another thread while the loop is in `poll`.
use tiny_network.Prelude.{
  map, ◌==◌, if◌then◌else◌, some, none, List, arith, ℕ, ◌<◌, ◌≡◌, ◌≢◌, refl, Bool, true, false, [],
  ◌∷◌, ◌++◌, ◌⊎◌,
}
use tiny_network.Net.Channel
use tiny_network.Net.Channel.{Channel, Callback, added, read_event}
use tiny_network.Net.Poller
use tiny_network.Net.Poller.{Poller}
use tiny_network.Net.Poller.Table.{Table, table}
use tiny_network.Net.Poller.Changes.{Change, enabling_reading, enabling_writing, removing}
use tiny_network.Net.Poller.Sharing.{AreSynced, use_all}
use tiny_network.Net.Poller.Synced.{Left}
use tiny_network.Net.EventLoop.Object
use tiny_network.Net.EventLoop.Object.{EventLoop, destroy}
use tiny_network.Net.EventLoop.Lifetime.{create-destroy}
use mathlib.Core.List.Memᴰ
use tiny_network.Net.EventLoop.Dispatch.{
  Hit, due, event_of, poll_and_dispatch, kernel_events, poll_and_dispatch_lem,
}
use tiny_network.Net.Poller.{mark_all}
use tiny_network.Net.EventLoop.Kernel.{EventFd}
use tiny_network.Net.EventLoop.{Loop, create, push, wakeup_channel, polling, handling, loop_step}
use tiny_network.Net.EventLoop.Run.{Reaches, here, next, steps, other_queues, in_callback, act}
use tiny_network.Net.EventLoop.Awake.{left}
use tiny_network.Net.EventLoop.Wakeup.{Reaches-Awake}
use tiny_network.Net.EventLoop.Drain.{Round, own_steps, loop_step-Round}

-- A counter below 2.
abbrev counter : EventFd
counter = record {
  State = Bool;
  readable = λ s. s;
  write_ok = λ s. true;
  write_one = λ s. true;
  read_ok = λ s. s;
  read_all = λ s. false;
  write_readable = λ s. refl;
  read_reset = λ s. refl;
}

-- In `poll`, with function 7 queued and its thread in front of `wakeup`.
abbrev queued_late : Loop counter ℕ
queued_late = record {
  phase = polling;
  looping = true;
  quit = false;
  calling_pending = false;
  pending = 7 ∷ [];
  wakeup_fd = false;
  unwoken = 1;
  mid_queue = false;
  queued = 7 ∷ [];
  executed = [];
  direct = [];
  log = [];
}

late : Reaches counter ℕ (create counter ℕ false) queued_late
unfolding act loop_step create push
late = next (other_queues 7) (next (steps []) (next (steps []) here refl) refl) refl

Reaches-Awake_example :
    (queued_late.phase ≡ polling
      → queued_late.pending ≢ []
      → (counter.readable queued_late.wakeup_fd ≡ true) ⊎ (0 < queued_late.unwoken))
    × (queued_late.queued ≡ queued_late.executed ++ (left queued_late.phase ++ queued_late.pending))
    × (queued_late.mid_queue ≡ true → in_callback queued_late.phase ≡ true)
Reaches-Awake_example = Reaches-Awake counter ℕ false queued_late late

abbrev woken : Loop counter ℕ
woken = record queued_late { phase = handling (wakeup_channel ∷ []); wakeup_fd = true; unwoken = 0 }

loop_step-Round_example : Round counter ℕ (7 ∷ []) [] (own_steps counter ℕ 5 woken)
loop_step-Round_example = loop_step-Round counter ℕ (wakeup_channel ∷ []) woken refl

-- An epoll instance that knows no descriptor, and the channels of two more.
abbrev blank : Table
blank k = none

abbrev two_channels : List Channel
two_channels = Channel.create 41 7 ∷ Channel.create 42 8 ∷ []

abbrev mixed : List (ℕ × Change table)
mixed =
    (0, enabling_reading)
    ∷ (1, enabling_reading)
    ∷ (0, enabling_writing)
    ∷ (1, removing)
    ∷ (0, removing)
    ∷ []

two_channels-AreSynced : AreSynced table two_channels (Poller.create table blank)
unfolding Channel.create Poller.create
two_channels-AreSynced = ((refl, refl), ((refl, refl), tt))

create-destroy_example :
    (l : EventLoop table) × (cs : List Channel) × (p q : Poller table) × (Object.create table false
        (some blank)
        (some 5)
        100
        1
        40
        none
      ≡ some (l, some 1))
    × (Object.create table false (some blank) (some 5) 100 2 40 (some 1) ≡ none)
    × (use_all table mixed two_channels l.poller ≡ some (cs, p))
    × (p.epoll 5 ≡ some (record { events = read_event; data_ptr = 40 }))
    × (destroy table (record l { poller = p }) ≡ some (q, 5 ∷ [], none))
    × Left table 5 p q
    × AreSynced table cs q
unfolding Channel.create
create-destroy_example =
    create-destroy table blank 5 100 1 40 two_channels mixed refl
      ((λ h. omega (arith, h)), ((λ h. omega (arith, h)), tt))
      (((λ h. omega (arith, h)), tt), (tt, tt)) two_channels-AreSynced

-- Descriptors 7 and 8 are registered for reading and writing.
abbrev busy : List Channel
busy =
    record (Channel.create 41 7) {
      events = 7;
      index = added;
      has_read_callback = true;
      has_write_callback = true;
    }
    ∷ record (Channel.create 42 8) { events = 3; index = added; has_read_callback = true }
    ∷ []

abbrev serving : Poller table
serving = record {
  epoll = λ k.
      if k == 7
      then some (record { events = 7; data_ptr = 41 })
      else if k == 8
      then some (record { events = 3; data_ptr = 42 })
      else none;
  channels = λ k. if k == 7 then some 41 else if k == 8 then some 42 else none;
  capacity = 16;
  log = [];
}

busy-AreSynced : AreSynced table busy serving
unfolding Channel.create
busy-AreSynced = ((refl, refl), ((refl, refl), tt))

-- The second may be read, and then the first may be read and written.
abbrev hits : List Hit
hits =
    (1, record (Channel.create 42 8) { events = 3; index = added; has_read_callback = true })
    ∷ (
      5,
      record (Channel.create 41 7) {
        events = 7;
        index = added;
        has_read_callback = true;
        has_write_callback = true;
      },
    )
    ∷ []

poll_and_dispatch_lem_example :
    (events : List (ℕ × ℕ)) × (p' : Poller table) × (kernel_events table serving.epoll
        ((1, 8) ∷ (5, 7) ∷ [])
      ≡ some events)
    × (poll_and_dispatch table (λ h. true) busy events serving
        ≡ some (due (λ h. true) hits, mark_all (map event_of hits) busy, p'))
unfolding Channel.create
poll_and_dispatch_lem_example =
    poll_and_dispatch_lem table (λ h. true) busy hits serving busy-AreSynced
      ((λ h. omega (arith, h), tt), (tt, tt))
      (Memᴰ.tail (Memᴰ.head refl), refl, (Memᴰ.head refl, refl, tt))
      ((λ h. omega (arith, h), tt), (tt, tt)) (omega arith) (omega arith) (omega arith)
