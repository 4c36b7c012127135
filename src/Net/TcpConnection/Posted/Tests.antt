-- ===== src/Net/TcpConnection/Posted/Tests.antt =====
-- src/net/EventLoop.cpp with src/net/TcpConnection.cpp: one message that another thread sends.
use tiny_network.Prelude.{
  ℕ, ◌≡◌, refl, Bool, true, false, List, [], ◌∷◌, ◌++◌, some, none, arith, inl, slice,
}
use tiny_network.Net.Buffer.{Buffer, wrote, contents}
use tiny_network.Net.Channel
use tiny_network.Net.Channel.{is_writing, any_of}
use tiny_network.Net.EventLoop
use tiny_network.Net.EventLoop.{
  Loop, wakeup_channel, polling, running, loop_step, push, wakeup, notify, handle_read,
  handle_active, start_calling, swap_pending, run_functors,
}
use tiny_network.Net.EventLoop.Awake.{left}
use tiny_network.Net.EventLoop.Kernel.{EventFd}
use tiny_network.Net.EventLoop.Run.{Reaches, here, next, steps, other_queues, other_notifies, act}
use tiny_network.Net.Poller.{Poller}
use tiny_network.Net.Poller.Table.{table}
use tiny_network.Net.TcpConnection.{Connection, connected, no_callbacks}
use tiny_network.Net.TcpConnection.Invariant.{Inv, stream}
use tiny_network.Net.TcpConnection.Posted.{Post, send_all, bytes_of, serve-queued}

-- A counter below 2.
abbrev counter : EventFd
counter = record {
  State = Bool;
  readable = λ s. s;
  write_ok = λ s. true;
  write_one = λ s. true;
  read_ok = λ s. s;
  read_all = λ s. false;
  write_readable = λ s. refl;
  read_reset = λ s. refl;
}

-- "hi", of which `write` takes one byte.
abbrev post : Post
post = (104 ∷ 105 ∷ [], wrote 1)

-- The loop has run the message.
abbrev served_loop : Loop counter Post
served_loop = record {
  phase = running [];
  looping = true;
  quit = false;
  calling_pending = true;
  pending = [];
  wakeup_fd = false;
  unwoken = 0;
  mid_queue = false;
  queued = post ∷ [];
  executed = post ∷ [];
  direct = [];
  log = [];
}

served : Reaches counter Post (EventLoop.create counter Post false) served_loop
unfolding act loop_step EventLoop.create push notify wakeup handle_read handle_active start_calling
    swap_pending run_functors
served =
    next (steps [])
      (next (steps [])
        (next (steps [])
          (next (steps [])
            (next (steps (wakeup_channel ∷ []))
              (next other_notifies
                (next (other_queues post) (next (steps []) (next (steps []) here refl) refl) refl)
                refl)
              refl)
            refl)
          refl)
        refl)
      refl

abbrev blank : Poller table
blank = record { epoll = λ k. none; channels = λ k. none; capacity = 16; log = [] }

abbrev zeros : List ℕ
zeros = 0 ∷ 0 ∷ 0 ∷ 0 ∷ 0 ∷ 0 ∷ 0 ∷ 0 ∷ []

abbrev empty_buffer : Buffer
empty_buffer = record { buffer = zeros ++ zeros; reader_index = 8; writer_index = 8 }

abbrev idle : Connection table
idle = record {
  state = connected;
  channel = Channel.create 41 7;
  input = empty_buffer;
  output = empty_buffer;
  callbacks = no_callbacks;
  has_write_complete = false;
  has_high_water = false;
  high_water_mark = 64;
  poller = blank;
  effects = [];
}

idle-Inv : Inv table idle
unfolding Channel.create is_writing any_of contents slice
idle-Inv = record {
  input_valid = omega arith;
  output_valid = omega arith;
  interest = inl refl;
  synced = (refl, refl);
  waiting = λ up. refl;
}

serve-queued_example :
    (c : Connection table) × (send_all table (post ∷ []) idle ≡ some c)
    × Inv table c
    × (stream table c ++ bytes_of (left served_loop.phase ++ served_loop.pending)
        ≡ stream table idle ++ bytes_of (post ∷ []))
serve-queued_example =
    serve-queued counter false served_loop table idle served idle-Inv (λ h. cc) (tt, tt)
      (omega arith)
