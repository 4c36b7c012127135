-- ===== src/Logger/Pipeline.antt =====
-- src/logger/Logging.cpp with src/logger/AsyncLogging.cpp: the log statements of one thread with
-- `AsyncLogging::append` as the output, among the steps of the thread of the log. That thread makes no
-- log statement, and calls `localtime_r` and not `localtime`, so that a statement shares nothing with
-- it before its output takes the mutex, and is one step. Statements of two threads at once, which
-- share the result of `localtime`, are not modelled.
pub mod Arrival
mod Tests
use tiny_network.Prelude.{ℕ, Bool, List, [], ◌∷◌, Option, none, some, ◌>>=◌, ◌==◌, if◌then◌else◌}
use tiny_network.Prelude.Int.{ℤ}
use tiny_network.Logger.LogStream.Items.{Item}
use tiny_network.Logger.Logging.{
  Tm, ThreadInfo, Macro, Event, outputs, flushes, aborts, Globals, custom, default, log_statement,
}
use tiny_network.Logger.AsyncLogging.{Logging, append, thread_step}

-- The output function: `append` of the log.
pub data Sink : Type 0 where
  into_log : Sink

-- A log statement, with what its stream's memory held and the two times that it reads.
pub record Statement : Type 0 where
  pub macro : Macro
  pub memory : List ℕ
  pub time : ℕ
  pub now : ℕ
  pub file : List ℕ
  pub line : ℤ
  pub func : List ℕ
  pub message : List Item

-- A statement of the thread, or a step of the thread of the log.
pub data Turn : Type 0 where
  states : Statement → Turn
  works : Turn

module _ (memory : List ℕ) (local_time : ℕ → Tm) (error_text : ℤ → List ℕ) where
  -- What a statement does outside the logger. `none` is the end of the program.
  unfoldable pub deliver : List (Event Sink) → Logging → Option Logging
  deliver [] s = some s
  deliver (outputs (custom into_log) line ∷ events) s = append memory line s >>= deliver events
  deliver (outputs default line ∷ events) s = deliver events s
  deliver (flushes hook ∷ events) s = deliver events s
  deliver (aborts ∷ events) s = none

  abbrev pub run_statement :
      Globals Sink → Statement → ThreadInfo → Option (ThreadInfo × List (Event Sink))
  run_statement g x info =
      log_statement Sink local_time error_text g x.macro x.memory x.time x.now x.file x.line x.func
        x.message info

  unfoldable pub take_turn :
      Globals Sink → Turn → ThreadInfo × Logging → Option (ThreadInfo × Logging)
  take_turn g (states x) (info, s) = do
    (info', events) ← run_statement g x info
    s' ← deliver events s
    some (info', s')
  take_turn g works (info, s) = do s' ← thread_step memory s.phase s; some (info, s')

  unfoldable pub take_turns :
      Globals Sink → List Turn → ThreadInfo × Logging → Option (ThreadInfo × Logging)
  take_turns g [] state = some state
  take_turns g (turn ∷ turns) state = take_turn g turn state >>= take_turns g turns
