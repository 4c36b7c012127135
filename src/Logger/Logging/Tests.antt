-- ===== src/Logger/Logging/Tests.antt =====
-- src/logger/Logging.cpp: two warnings of one minute.
use tiny_network.Prelude.{
  ℕ, ◌/◌, ◌%◌, ◌≡◌, refl, List, [], ◌∷◌, ◌++◌, some, arith, length, replicate, length-replicate,
  true,
}
use tiny_network.Prelude.Int.{ℤ, pos, negsuc}
use tiny_network.Logger.LogStream.{small_buffer}
use tiny_network.Logger.LogStream.Items.{Item, string, integer, ShowsAll}
use tiny_network.Logger.Logging.{
  Tm, ThreadInfo, Globals, initial_globals, Event, log_warn, log_statement, is_enabled, source_file,
}
use tiny_network.Logger.Logging.Time.{IsCalendar}
use tiny_network.Logger.Logging.Line.{layout, handed_over}
use tiny_network.Logger.Logging.Statement.{IsCall, log_statement-layout}
use tiny_network.Logger.Logging.Seconds.{seconds_lost}

-- The first day of 2026.
abbrev clock : ℕ → Tm
clock s = record {
  tm_year = 126;
  tm_mon = 0;
  tm_mday = 1;
  tm_hour = s / 3600 % 24;
  tm_min = s / 60 % 60;
  tm_sec = s % 60;
}

abbrev no_text : ℤ → List ℕ
no_text e = []

-- "a/b.c"
abbrev file : List ℕ
file = b'a' ∷ b'/' ∷ b'b' ∷ b'.' ∷ b'c' ∷ []

abbrev message : List Item
message = string (b'h' ∷ b'i' ∷ []) ∷ integer (negsuc 6) ∷ []

abbrev memory : List ℕ
memory = replicate 4000 170

abbrev fresh : ThreadInfo
fresh = record { t_time = replicate 64 0; last_second = 0 }

abbrev first_call : ℕ
first_call = 3600000123

abbrev second_call : ℕ
second_call = 3659000123

clock-IsCalendar : (s : ℕ) → IsCalendar (clock s)
clock-IsCalendar s = omega arith

call : (s : ℕ) → IsCall (clock s) log_warn memory file (pos 42) [] message fresh
unfolding source_file
call s = record {
  calendar = clock-IsCalendar s;
  memory_sized = length-replicate {A = ℕ} 4000 170;
  time_sized = refl;
  line_small = omega arith;
  printable = (tt, (omega arith, tt));
  room = omega arith;
}

abbrev globals : Globals ℕ
globals = initial_globals ℕ

globals-enabled : is_enabled ℕ clock no_text globals log_warn ≡ true
unfolding is_enabled
globals-enabled = refl

log_statement-layout_example :
    (thread' : ThreadInfo) × (str : List ℕ) × (rest : List ℕ) × (log_statement ℕ clock no_text
        globals log_warn memory 0 first_call file
        (pos 42)
        []
        message
        fresh
      ≡ some (thread', handed_over ℕ clock no_text globals log_warn (str ++ rest)))
    × ShowsAll
        (layout (clock (first_call / 1000000)) first_call log_warn file (pos 42) [] message)
        str
    × (length (str ++ rest) ≡ small_buffer)
    × (length thread'.t_time ≡ 64)
log_statement-layout_example =
    log_statement-layout ℕ clock no_text globals log_warn memory file (pos 42) [] message 0
      first_call fresh (call (first_call / 1000000)) globals-enabled

seconds_lost_example :
    (after : ThreadInfo) × (after' : ThreadInfo) × (events : List (Event ℕ)) × (log_statement ℕ
        clock no_text globals log_warn memory 0 first_call file
        (pos 42)
        []
        message
        fresh
      ≡ some (after, events))
    × (log_statement ℕ clock no_text globals log_warn memory 0 second_call file
          (pos 42)
          []
          message
          fresh
        ≡ some (after', events))
seconds_lost_example =
    seconds_lost ℕ clock no_text globals log_warn memory file (pos 42) [] message 0 first_call 0
      second_call fresh fresh (call (first_call / 1000000)) (call (second_call / 1000000))
      globals-enabled (refl, refl, refl, refl, refl) refl
