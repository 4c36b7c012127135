-- ===== src/Logger/Backend/Tests.antt =====
-- src/logger/AsyncLogging.cpp with src/logger/LogFile.cpp: one line in a buffer of four bytes.
use tiny_network.Prelude.{
  ℕ, Bool, ◌≡◌, refl, true, List, [], ◌∷◌, none, some, arith, splice, read_range, add_size,
  sub_size,
}
use tiny_network.Logger.FixedBuffer.{FixedBuffer, bzero, avail}
use tiny_network.Logger.FixedBuffer
use tiny_network.Logger.AsyncLogging.{
  create, start, Logging, Action, appends, works, run, act, append, append_to, thread_step, collect,
  collect_from, started, new_buffer, writing,
}
use tiny_network.Logger.AsyncLogging.Inv.{stream}
use tiny_network.Logger.AsyncLogging.Rounds.{lines_of}
use tiny_network.Logger.LogFile.{LogFile}
use tiny_network.Logger.LogFile.Rolling.{archive, Openable}
use tiny_network.Logger.LogFile.Archive.{Inv}
use tiny_network.Logger.LogFile.Name.{get_log_file_name-IsCalendar}
use tiny_network.Logger.Logging.{Tm}
use tiny_network.Logger.Backend.{open_output, write_buffers}
use tiny_network.Logger.Backend.Archived.{padded, run-Archived}

abbrev memory : List ℕ
memory = 1 ∷ 2 ∷ 3 ∷ 4 ∷ []

abbrev schedule : List (Action memory)
schedule = appends (7 ∷ 8 ∷ []) ∷ works ∷ works ∷ works ∷ []

abbrev zeros : FixedBuffer
zeros = record { size = 4; bytes = 0 ∷ 0 ∷ 0 ∷ 0 ∷ []; cur = 0 }

abbrev full : FixedBuffer
full = record { size = 4; bytes = 7 ∷ 8 ∷ 0 ∷ 0 ∷ []; cur = 2 }

abbrev after : Logging
after = record {
  current = some zeros;
  next = some zeros;
  buffers = [];
  running = true;
  new1 = none;
  new2 = some zeros;
  to_write = full ∷ [];
  phase = writing [];
  output = full ∷ [];
}

run-schedule : run memory schedule (started memory) ≡ some after
unfolding run act append append_to thread_step collect collect_from start create started new_buffer
    bzero avail FixedBuffer.append splice read_range add_size sub_size
run-schedule = refl

-- 2 January 1970, and the names that can be opened.
abbrev local_time : ℕ → Tm
local_time now = record {
  tm_year = 70;
  tm_mon = 0;
  tm_mday = 2;
  tm_hour = 0;
  tm_min = 1;
  tm_sec = 40;
}

abbrev opens : List ℕ → Bool
opens name = true

openable : (now : ℕ) → Openable local_time opens [] now
openable now = (
  _,
  get_log_file_name-IsCalendar [] (local_time now) (record {
    year = omega arith;
    mon = omega arith;
    mday = omega arith;
    hour = omega arith;
    minute = omega arith;
    sec = omega arith;
  }),
  refl,
)

-- `fwrite` takes one byte, and then three.
abbrev answers : List (List ℕ × ℕ)
answers = (1 ∷ 3 ∷ [], 86502) ∷ []

run-Archived_example :
    (f f' : LogFile) × (open_output local_time opens [] 3 86500 ≡ some f)
    × (write_buffers local_time opens answers after.output f ≡ some f')
    × Inv local_time opens f'
    × (archive f' ≡ padded after.output)
    × (stream after ≡ lines_of memory (omega arith) schedule)
run-Archived_example =
    run-Archived local_time opens memory (omega arith) schedule after answers [] 3 86500
      run-schedule (omega arith) (openable 86500)
      (((omega arith, omega arith, (omega arith, omega arith, refl)), openable 86502), tt)
