-- ===== src/Logger/Pipeline/Tests.antt =====
-- src/logger/Logging.cpp with src/logger/AsyncLogging.cpp: statements of a thread on their way to
-- a log with buffers of 5000 bytes.
use tiny_network.Prelude.{
  ℕ, ◌<◌, ◌^◌, ◌/◌, ◌%◌, ◌≡◌, refl, List, [], ◌∷◌, length, arith, replicate, length-replicate,
}
use tiny_network.Prelude.Int.{ℤ, pos, negsuc}
use tiny_network.Logger.LogStream.Items.{string, integer}
use tiny_network.Logger.Logging.{
  Tm, ThreadInfo, log_info, log_warn, Globals, custom, initial_globals, set_output, source_file,
  is_fatal,
}
use tiny_network.Logger.Logging.Statement.{IsCall}
use tiny_network.Logger.AsyncLogging.{started}
use tiny_network.Logger.AsyncLogging.Rounds.{started-Inv}
use tiny_network.Logger.Pipeline.{Sink, into_log, Statement, Turn, states, works, take_turns}
use tiny_network.Logger.Pipeline.Arrival.{AddsAll, Arrives, take_turns-Arrives}

abbrev memory : List ℕ
memory = replicate 5000 0

memory-small : length memory < 2 ^ 31
memory-small = omega (arith, length-replicate {A = ℕ} 5000 0)

abbrev clock : ℕ → Tm
clock s = record {
  tm_year = 126;
  tm_mon = 0;
  tm_mday = 1;
  tm_hour = s / 3600 % 24;
  tm_min = s / 60 % 60;
  tm_sec = s % 60;
}

abbrev no_text : ℤ → List ℕ
no_text e = []

abbrev globals : Globals Sink
globals = set_output Sink (custom into_log) (initial_globals Sink)

globals-output : globals.output ≡ custom into_log
unfolding set_output
globals-output = refl

-- "hi" and -7, at line 42 of "a/b.c".
abbrev warning : Statement
warning = record {
  macro = log_warn;
  memory = replicate 4000 170;
  time = 0;
  now = 3600000123;
  file = b'a' ∷ b'/' ∷ b'b' ∷ b'.' ∷ b'c' ∷ [];
  line = pos 42;
  func = [];
  message = string (b'h' ∷ b'i' ∷ []) ∷ integer (negsuc 6) ∷ [];
}

abbrev note : Statement
note = record warning { macro = log_info; now = 3659000123 }

abbrev info : ThreadInfo
info = record { t_time = replicate 64 0; last_second = 0 }

warning-IsCall :
    IsCall
      (clock (warning.now / 1000000))
      log_warn
      warning.memory
      warning.file
      (pos 42)
      []
      warning.message
      info
unfolding source_file
warning-IsCall = record {
  calendar = omega arith;
  memory_sized = length-replicate {A = ℕ} 4000 170;
  time_sized = refl;
  line_small = omega arith;
  printable = (tt, (omega arith, tt));
  room = omega arith;
}

note-IsCall :
    IsCall (clock (note.now / 1000000)) log_info note.memory note.file (pos 42) [] note.message info
unfolding source_file
note-IsCall = record {
  calendar = omega arith;
  memory_sized = length-replicate {A = ℕ} 4000 170;
  time_sized = refl;
  line_small = omega arith;
  printable = (tt, (omega arith, tt));
  room = omega arith;
}

abbrev turns : List Turn
turns = states warning ∷ works ∷ states note ∷ works ∷ works ∷ []

take_turns-Arrives_example :
    Arrives memory clock no_text globals memory-small
      (omega (arith, length-replicate {A = ℕ} 5000 0))
      (started memory)
      (AddsAll memory clock no_text globals turns)
      (take_turns memory clock no_text globals turns (info, started memory))
unfolding is_fatal
take_turns-Arrives_example =
    take_turns-Arrives memory clock no_text globals memory-small
      (omega (arith, length-replicate {A = ℕ} 5000 0)) turns info (started memory) globals-output
      refl (warning-IsCall, refl, (note-IsCall, refl, tt)) (started-Inv memory memory-small)
