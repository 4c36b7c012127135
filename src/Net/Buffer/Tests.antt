-- ===== src/Net/Buffer/Tests.antt =====
-- include/net/Buffer.h: a buffer of twelve bytes with "hi" in it, and the theorems at it.
use tiny_network.Prelude.{
  ℕ, ◌≤◌, ◌≡◌, List, [], ◌∷◌, ◌++◌, none, some, arith, length, slice, sub_size, replicate,
}
use tiny_network.Net.Buffer.{
  contents, Buffer, IsValid, readable_bytes, writeable_bytes, delivered, read_failed, read_fd,
  read_room,
}
use tiny_network.Net.Buffer.Queue.{
  Call, appends, takes, ensures, takes_all, retrieves, AreAllowed, run_calls, all_on_queue,
  run_calls-Queue,
}
use tiny_network.Net.Buffer.Descriptor.{Received, read_fd-Received, read_fd_failed}

-- Two free bytes in front of "hi" and one behind it.
abbrev greeting : Buffer
greeting = record {
  buffer = replicate 10 0 ++ (104 ∷ 105 ∷ 0 ∷ []);
  reader_index = 10;
  writer_index = 12;
}

greeting-IsValid : IsValid greeting
greeting-IsValid = omega arith

abbrev line : List ℕ
line = 1 ∷ 2 ∷ 3 ∷ []

one_readable : 1 ≤ readable_bytes greeting
unfolding readable_bytes sub_size
one_readable = omega arith

room_for_three : length line ≤ read_room greeting
unfolding read_room writeable_bytes sub_size
room_for_three = ground arith

read_fd-Received_example :
    (b' : Buffer) × (read_fd greeting (delivered line) 0 ≡ some (b', 0, 3))
    × Received greeting line b'
read_fd-Received_example =
    read_fd-Received greeting line 0 greeting-IsValid (omega arith) room_for_three

-- 104 is ECONNRESET.
read_fd_failed_example : read_fd greeting (read_failed 104) 0 ≡ none
read_fd_failed_example = read_fd_failed greeting 104 0 greeting-IsValid

-- "hi" in the buffer, "!" behind it, and both taken in two steps.
abbrev calls : List Call
calls = appends (33 ∷ []) ∷ takes 2 ∷ ensures 40 ∷ takes_all ∷ retrieves 5 ∷ []

calls-AreAllowed : AreAllowed calls (contents greeting)
unfolding contents slice
calls-AreAllowed = (omega arith, (omega arith, (omega arith, (tt, (tt, tt)))))

run_calls-Queue_example :
    (b' : Buffer) × (run_calls calls greeting
      ≡ some ((all_on_queue calls (contents greeting)).0, b'))
    × IsValid b'
    × (contents b' ≡ (all_on_queue calls (contents greeting)).1)
run_calls-Queue_example =
    run_calls-Queue calls greeting greeting-IsValid calls-AreAllowed (omega arith)
