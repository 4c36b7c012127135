-- ===== src/Net/TcpConnection/Tests.antt =====
-- src/net/TcpConnection.cpp: a connection with two bytes waiting, and the theorems at it.
use tiny_network.Prelude.{
  ℕ, ◌≤◌, ◌≡◌, ◌≢◌, refl, true, false, List, [], ◌∷◌, ◌++◌, none, some, arith, inl, inr, ◌==◌,
  if◌then◌else◌, slice, sub_size,
}
use tiny_network.Net.Buffer.{
  Buffer, contents, wrote, delivered, readable_bytes, read_room, writeable_bytes,
}
use tiny_network.Net.Channel.{Channel, new, added, is_writing, any_of}
use tiny_network.Net.Poller.{Poller}
use tiny_network.Net.Poller.Table.{table}
use tiny_network.Net.TcpConnection.{
  Connection, connecting, connected, disconnecting, connection_callback, send_in_loop, handle_write,
  handle_close, handle_read, connect_destroyed, shutdown, shutdown_in_loop, set_state,
}
use tiny_network.Net.TcpConnection.Invariant.{Inv}
use tiny_network.Net.TcpConnection.Stream.{Sent}
use tiny_network.Net.TcpConnection.Send.{send_in_loop-Sent}
use tiny_network.Net.TcpConnection.Flush.{handle_write-Sent}
use tiny_network.Net.TcpConnection.Lifecycle.{Closed, handle_close-Closed}
use tiny_network.Net.TcpConnection.Destruction.{Destroyed, connect_destroyed-Destroyed}
use tiny_network.Net.TcpConnection.Reading.{Reading, handle_read-Reading}
use tiny_network.Net.TcpConnection.HalfClose.{shutdown_writes, run_writes, shutdown_lost}

abbrev zeros : List ℕ
zeros = 0 ∷ 0 ∷ 0 ∷ 0 ∷ 0 ∷ 0 ∷ 0 ∷ 0 ∷ []

abbrev empty_buffer : Buffer
empty_buffer = record { buffer = zeros ++ zeros; reader_index = 8; writer_index = 8 }

abbrev two_bytes : Buffer
two_bytes = record {
  buffer = zeros ++ (104 ∷ 105 ∷ 0 ∷ 0 ∷ []);
  reader_index = 8;
  writer_index = 10;
}

abbrev busy_channel : Channel
busy_channel = record {
  handle = 41;
  fd = 7;
  events = 7;
  revents = 0;
  index = added;
  tied = true;
  has_read_callback = true;
  has_write_callback = true;
  has_close_callback = true;
  has_error_callback = true;
}

abbrev host : ℕ → Poller table
host events = record {
  epoll = λ k. if k == 7 then some (record { events = events; data_ptr = 41 }) else none;
  channels = λ k. if k == 7 then some 41 else none;
  capacity = 16;
  log = [];
}

-- Connected, with "hi" waiting in the output.
abbrev waiting : Connection table
waiting = record {
  state = connected;
  channel = busy_channel;
  input = empty_buffer;
  output = two_bytes;
  callbacks = record { connection = true; message = true; close = true };
  has_write_complete = true;
  has_high_water = false;
  high_water_mark = 64;
  poller = host 7;
  effects = [];
}

waiting-Inv : Inv table waiting
unfolding contents slice is_writing any_of
waiting-Inv = record {
  input_valid = omega arith;
  output_valid = omega arith;
  interest = inr (inr (inr refl));
  synced = (refl, refl);
  waiting = λ _. refl;
}

-- Not yet established: nothing is registered.
abbrev starting : Connection table
starting = record waiting {
  state = connecting;
  channel = record busy_channel { events = 0; index = new; tied = false };
  output = empty_buffer;
  poller = record { epoll = λ k. none; channels = λ k. none; capacity = 16; log = [] };
}

starting-Inv : Inv table starting
unfolding contents slice is_writing any_of
starting-Inv = record {
  input_valid = omega arith;
  output_valid = omega arith;
  interest = inl refl;
  synced = (refl, refl);
  waiting = λ _. refl;
}

two_waiting : 1 ≤ readable_bytes waiting.output
unfolding readable_bytes sub_size
two_waiting = omega arith

send_in_loop-Sent_example :
    (c : Connection table) × (send_in_loop table waiting (33 ∷ []) (wrote 1) ≡ some c)
    × Sent table waiting (33 ∷ []) c
send_in_loop-Sent_example =
    send_in_loop-Sent table waiting (33 ∷ []) (wrote 1) waiting-Inv (λ h. cc) (omega arith)
      (omega arith, omega arith)

one_written :
    (c : Connection table) × (handle_write table waiting (wrote 1) ≡ some c)
    × Sent table waiting [] c
one_written = handle_write-Sent table waiting (wrote 1) waiting-Inv two_waiting

after_write : Connection table
after_write = one_written.0

handle_close-Closed_example :
    (c : Connection table) × (handle_close table waiting ≡ some c) × Closed table waiting c
handle_close-Closed_example = handle_close-Closed table waiting waiting-Inv

connect_destroyed-Destroyed_example :
    (c : Connection table) × (connect_destroyed table waiting ≡ some c)
    × Destroyed table waiting c
    × (c.effects ≡ connection_callback ∷ [])
connect_destroyed-Destroyed_example = connect_destroyed-Destroyed table waiting waiting-Inv

one_fits : 1 ≤ read_room waiting.input
unfolding read_room writeable_bytes sub_size
one_fits = omega arith

handle_read-Reading_example :
    (c : Connection table) × (handle_read table waiting (delivered (33 ∷ [])) 0 ≡ some c)
    × Reading table waiting (33 ∷ []) c
handle_read-Reading_example =
    handle_read-Reading table waiting (33 ∷ []) 0 waiting-Inv (λ h. cc) (omega arith) one_fits

waits : contents waiting.output ≢ []
unfolding contents slice
waits h = cc

-- The two bytes go out after the shutdown.
abbrev closing : Connection table
closing = record waiting { state = disconnecting }

closing-Inv : Inv table closing
closing-Inv = record {
  input_valid = waiting-Inv.input_valid;
  output_valid = waiting-Inv.output_valid;
  interest = waiting-Inv.interest;
  synced = waiting-Inv.synced;
  waiting = λ _. waiting-Inv.waiting (λ h. cc);
}

both_waiting : 2 ≤ readable_bytes closing.output
unfolding readable_bytes sub_size
both_waiting = omega arith

all_written :
    (c : Connection table) × (handle_write table closing (wrote 2) ≡ some c)
    × Sent table closing [] c
all_written = handle_write-Sent table closing (wrote 2) closing-Inv both_waiting

flushed_run : run_writes table (wrote 2 ∷ []) (shutdown table waiting true) ≡ some all_written.0
unfolding run_writes shutdown shutdown_in_loop set_state is_writing any_of
flushed_run = rw all_written.1 refl

shutdown_lost_example :
    (shutdown_writes all_written.0.effects ≡ shutdown_writes waiting.effects)
    × (all_written.0.state ≡ disconnecting)
shutdown_lost_example =
    shutdown_lost table waiting all_written.0 (wrote 2 ∷ []) waiting-Inv refl waits flushed_run
