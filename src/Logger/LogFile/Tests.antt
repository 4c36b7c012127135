-- ===== src/Logger/LogFile/Tests.antt =====
-- src/logger/LogFile.cpp: a file that is full after a line of three bytes.
use tiny_network.Prelude.{ℕ, ◌%◌, ◌≡◌, refl, Bool, true, List, [], ◌∷◌, some, arith}
use tiny_network.Logger.Logging.{Tm}
use tiny_network.Logger.Logging.Time.{IsCalendar}
use tiny_network.Logger.LogFile.{LogFile, append_in_lock, create, period}
use tiny_network.Logger.LogFile.Rolling.{archive, Openable}
use tiny_network.Logger.LogFile.Archive.{Inv, Logged, append_in_lock-Logged}
use tiny_network.Logger.LogFile.Name.{get_log_file_name-IsCalendar, get_log_file_name-Distinct}
use tiny_network.Logger.LogFile.Lifetime.{
  Call, lines_of, append_calls, AreServed, create-append_calls,
}

-- 2 January 1970, at some second of the minute 00:01, and the names that can be opened.
abbrev local_time : ℕ → Tm
local_time now = record {
  tm_year = 70;
  tm_mon = 0;
  tm_mday = 2;
  tm_hour = 0;
  tm_min = 1;
  tm_sec = now % 60;
}

abbrev opens : List ℕ → Bool
opens name = true

local_time-IsCalendar : (now : ℕ) → IsCalendar (local_time now)
local_time-IsCalendar now = record {
  year = omega arith;
  mon = omega arith;
  mday = omega arith;
  hour = omega arith;
  minute = omega arith;
  sec = omega arith;
}

-- "a"
abbrev basename : List ℕ
basename = b'a' ∷ []

openable : (now : ℕ) → Openable local_time opens basename now
openable now =
    (_, get_log_file_name-IsCalendar basename (local_time now) (local_time-IsCalendar now), refl)

abbrev open_file : LogFile
open_file = record {
  basename = basename;
  roll_size = 4;
  flush_interval = 3;
  check_every_n = 1024;
  count = 7;
  start_of_period = 86400;
  last_roll = 86500;
  last_flush = 86501;
  file = record {
    file_name = (openable 86500).0;
    content = 1 ∷ 2 ∷ [];
    flushed = 0;
    written_bytes = 2;
  };
  closed = 9 ∷ [];
}

open_file-Inv : Inv local_time opens open_file
unfolding period
open_file-Inv = record {
  counts = omega arith;
  sound = record { in_period = refl; sized = refl; named = (openable 86500).1 };
}

abbrev line : List ℕ
line = 3 ∷ 4 ∷ 5 ∷ []

-- `fwrite` takes one byte, and then two.
append_in_lock-Logged_example :
    (s' : LogFile) × (append_in_lock local_time opens (1 ∷ 2 ∷ []) line 86502 open_file ≡ some s')
    × Logged local_time opens open_file line 86502 s'
append_in_lock-Logged_example =
    append_in_lock-Logged local_time opens (1 ∷ 2 ∷ []) line 86502 open_file (openable 86502)
      open_file-Inv (omega arith, omega arith, (omega arith, omega arith, refl))

-- Two lines, the first of which fills the file.
abbrev calls : List Call
calls =
    record { line = 1 ∷ 2 ∷ 3 ∷ 4 ∷ 5 ∷ []; results = 5 ∷ []; now = 86501 }
    ∷ record { line = 6 ∷ []; results = 1 ∷ []; now = 86501 }
    ∷ []

calls-AreServed : AreServed local_time opens basename calls
calls-AreServed = (
  ((omega arith, omega arith, refl), openable 86501),
  (((omega arith, omega arith, refl), openable 86501), tt),
)

create-append_calls_example :
    (s s' : LogFile) × (create local_time opens basename 4 3 1024 86500 ≡ some s)
    × (append_calls local_time opens calls s ≡ some s')
    × Inv local_time opens s'
    × (archive s' ≡ lines_of calls)
    × (s'.basename ≡ basename)
create-append_calls_example =
    create-append_calls local_time opens basename 4 3 1024 86500 calls (omega arith) (omega arith)
      (openable 86500) calls-AreServed

get_log_file_name-Distinct_example : local_time 1 ≡ local_time 61
get_log_file_name-Distinct_example =
    get_log_file_name-Distinct basename (local_time 1) (local_time 61) (local_time-IsCalendar 1)
      (local_time-IsCalendar 61) refl
