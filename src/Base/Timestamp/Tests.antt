-- ===== src/Base/Timestamp/Tests.antt =====
-- src/base/Timestamp.cpp: two times of one second.
use tiny_network.Prelude.{ℕ, suc, ◌+◌, ◌≤◌, ◌≡◌, refl, true, List, ◌∷◌, ◌++◌, arith, length}
use tiny_network.Base.Timestamp.{Timestamp, seconds_since_epoch}
use tiny_network.Base.Timestamp.Formatted.{to_formatted_string, to_formatted_string-Fits}
use tiny_network.Logger.Logging.{Tm}
use tiny_network.Logger.Logging.Time.{IsCalendar}

-- 1 January 1970.
abbrev local_time : ℕ → Tm
local_time now = record {
  tm_year = 70;
  tm_mon = 0;
  tm_mday = 1;
  tm_hour = 0;
  tm_min = 0;
  tm_sec = 7;
}

local_time-IsCalendar : (now : ℕ) → IsCalendar (local_time now)
local_time-IsCalendar now = record {
  year = omega arith;
  mon = omega arith;
  mday = omega arith;
  hour = omega arith;
  minute = omega arith;
  sec = omega arith;
}

abbrev early : Timestamp
early = record { micro_seconds_since_epoch = 7000001 }

abbrev late : Timestamp
late = record { micro_seconds_since_epoch = 7999999 }

same_seconds : seconds_since_epoch late ≡ seconds_since_epoch early
unfolding seconds_since_epoch
same_seconds = refl

to_formatted_string-Fits_example :
    (chars rest : List ℕ) × (to_formatted_string local_time true early ≡ chars ++ (0 ∷ rest))
    × (length chars ≤ 31)
    × (length chars + suc (length rest) ≡ 64)
    × (to_formatted_string local_time true late ≡ to_formatted_string local_time true early)
to_formatted_string-Fits_example =
    to_formatted_string-Fits local_time true early late
      (local_time-IsCalendar (seconds_since_epoch early)) same_seconds
