-- ===== src/Logger/Logging.antt =====
-- include/logger/Logging.h and src/logger/Logging.cpp: one log statement.
-- A C string is the list of its characters, and none is 2 ^ 31 bytes long. `local_time` is
-- `localtime` and `error_text` is `strerror_r`. Times are microseconds since 1970.
pub mod Time
pub mod Line
pub mod Statement
pub mod Seconds
pub mod Basename
mod Tests
use tiny_network.Prelude.{
  ℕ, ◌+◌, ◌-◌, ◌/◌, ◌%◌, ◌^◌, Bool, true, false, List, [], ◌∷◌, ◌++◌, Option, none, some, leb, ◌==◌,
  if◌then◌else◌, ◌>>=◌, length, take, drop, replicate, read_range,
}
use tiny_network.Prelude.Int.{ℤ, pos}
use tiny_network.Prelude.Decimal.{padded}
use tiny_network.Logger.FixedBuffer
use tiny_network.Logger.FixedBuffer.{FixedBuffer}
use tiny_network.Logger.LogStream.{small_buffer, is_zero}
use tiny_network.Logger.LogStream.Items.{Item, integer, char, c_string, template, put_all}

-- `strrchr`: the string from the last such character on.
abbrev pub strrchr : List ℕ → ℕ → Option (List ℕ)
strrchr [] c = none
strrchr (x ∷ xs) c = elim (strrchr xs c) [
  | some found ↦ some found
  | none ↦ if x == c then some (x ∷ xs) else none
]

pub record SourceFile : Type 0 where
  pub data_ : List ℕ
  pub size : ℕ

unfoldable pub source_file : List ℕ → SourceFile
source_file filename =
    let name : List ℕ = elim (strrchr filename b'/') [
      | some slash ↦ drop 1 slash
      | none ↦ filename
    ] in
    record { data_ = name; size = length name }

pub data LogLevel : Type 0 where
  trace debug info warn error fatal : LogLevel

-- The value of the enumerator.
abbrev pub rank : LogLevel → ℕ
rank trace = 0
rank debug = 1
rank info = 2
rank warn = 3
rank error = 4
rank fatal = 5

-- `getLevelName`
abbrev pub level_name : LogLevel → List ℕ
level_name trace = b'T' ∷ b'R' ∷ b'A' ∷ b'C' ∷ b'E' ∷ b' ' ∷ []
level_name debug = b'D' ∷ b'E' ∷ b'B' ∷ b'U' ∷ b'G' ∷ b' ' ∷ []
level_name info = b'I' ∷ b'N' ∷ b'F' ∷ b'O' ∷ b' ' ∷ b' ' ∷ []
level_name warn = b'W' ∷ b'A' ∷ b'R' ∷ b'N' ∷ b' ' ∷ b' ' ∷ []
level_name error = b'E' ∷ b'R' ∷ b'R' ∷ b'O' ∷ b'R' ∷ b' ' ∷ []
level_name fatal = b'F' ∷ b'A' ∷ b'T' ∷ b'A' ∷ b'L' ∷ b' ' ∷ []

-- What `localtime` fills in.
pub record Tm : Type 0 where
  pub tm_year : ℕ
  pub tm_mon : ℕ
  pub tm_mday : ℕ
  pub tm_hour : ℕ
  pub tm_min : ℕ
  pub tm_sec : ℕ

-- `snprintf` into an array: the text cut to leave one byte, and a zero byte.
abbrev pub snprintf : List ℕ → List ℕ → List ℕ
snprintf buf chars =
    let kept = take (length buf - 1) chars in kept ++ (0 ∷ drop (length kept + 1) buf)

-- "%4d/%02d/%02d %02d:%02d:" of a time, and what "%02d" adds.
abbrev pub minute_text : Tm → List ℕ
minute_text tm =
    padded b' ' 4 (tm.tm_year + 1900)
    ++ (b'/' ∷ padded b'0' 2 (tm.tm_mon + 1)
        ++ (b'/' ∷ padded b'0' 2 tm.tm_mday
            ++ (b' ' ∷ padded b'0' 2 tm.tm_hour
                ++ (b':' ∷ padded b'0' 2 tm.tm_min ++ (b':' ∷ [])))))

abbrev pub time_text : Tm → List ℕ
time_text tm = minute_text tm ++ padded b'0' 2 tm.tm_sec

-- "%06d " of the microseconds.
abbrev pub micros_text : ℕ → List ℕ
micros_text now = padded b'0' 6 (now % 1000000) ++ (b' ' ∷ [])

-- The thread-local `t_time` and `t_lastSecond`.
pub record ThreadInfo : Type 0 where
  pub t_time : List ℕ
  pub last_second : ℕ

pub record Impl : Type 0 where
  pub time : ℕ
  pub stream : FixedBuffer
  pub level : LogLevel
  pub line : ℤ
  pub basename : SourceFile

-- " (errno=" and ") "
abbrev pub errno_open : List ℕ
errno_open = b' ' ∷ b'(' ∷ b'e' ∷ b'r' ∷ b'r' ∷ b'n' ∷ b'o' ∷ b'=' ∷ []

abbrev pub errno_close : List ℕ
errno_close = b')' ∷ b' ' ∷ []

-- " - "
abbrev pub dash : List ℕ
dash = b' ' ∷ b'-' ∷ b' ' ∷ []

unfoldable pub finish : Impl → Option Impl
finish impl = do
  stream ←
      put_all
        (c_string (some dash)
          ∷ template impl.basename.data_ impl.basename.size
          ∷ char b':'
          ∷ integer impl.line
          ∷ char 10
          ∷ [])
        impl.stream
  some (record impl { stream = stream })

module _ (local_time : ℕ → Tm) (error_text : ℤ → List ℕ) where
  unfoldable pub format_time : ℕ → ThreadInfo → FixedBuffer → Option (ThreadInfo × FixedBuffer)
  format_time now thread stream =
      let seconds = now / 1000000 in
      let t_time = snprintf thread.t_time (time_text (local_time seconds)) in
      let buf = snprintf (replicate 32 0) (micros_text now) in
      do
        stream' ← put_all (template t_time 17 ∷ template buf 7 ∷ []) stream
        some (record { t_time = t_time; last_second = seconds }, stream')

  -- The constructor of `Impl`. `memory` is what the array of the stream held before, which nothing
  -- clears, and `time` and `now` are the two calls of `Timestamp::now`.
  unfoldable pub create_impl :
      List ℕ → ℕ → ℕ → LogLevel → ℤ → List ℕ → ℤ → ThreadInfo → Option (ThreadInfo × Impl)
  create_impl memory time now level saved_errno file line thread = do
    (thread', stream) ←
        format_time now thread (record { size = small_buffer; bytes = memory; cur = 0 })
    stream' ← put_all (template (level_name level) 6 ∷ []) stream
    stream'' ←
        if is_zero saved_errno
        then some stream'
        else put_all
            (c_string (some (error_text saved_errno))
              ∷ c_string (some errno_open)
              ∷ integer saved_errno
              ∷ c_string (some errno_close)
              ∷ [])
            stream'
    some (
      thread',
      record {
        time = time;
        stream = stream'';
        level = level;
        line = line;
        basename = source_file file;
      },
    )

  -- The three constructors of `Logger`.
  unfoldable pub create : List ℕ → ℕ → ℕ → List ℕ → ℤ → ThreadInfo → Option (ThreadInfo × Impl)
  create memory time now file line thread =
      create_impl memory time now info (pos 0) file line thread

  unfoldable pub create_at :
      List ℕ → ℕ → ℕ → List ℕ → ℤ → LogLevel → ThreadInfo → Option (ThreadInfo × Impl)
  create_at memory time now file line level thread =
      create_impl memory time now level (pos 0) file line thread

  unfoldable pub create_in :
      List ℕ → ℕ → ℕ → List ℕ → ℤ → LogLevel → List ℕ → ThreadInfo → Option (ThreadInfo × Impl)
  create_in memory time now file line level func thread = do
    (thread', impl) ← create_impl memory time now level (pos 0) file line thread
    stream ← put_all (c_string (some func) ∷ char b' ' ∷ []) impl.stream
    some (thread', record impl { stream = stream })

-- An `OutputFunc` and a `FlushFunc`: the default one, or one of the program, of a type F.
pub data Hook (F : Type 0) : Type 0 where
  default : Hook F
  custom : F → Hook F

-- What a log statement does outside the logger.
pub data Event (F : Type 0) : Type 0 where
  outputs : Hook F → List ℕ → Event F
  flushes : Hook F → Event F
  aborts : Event F

-- `g_logLevel`, `g_output` and `g_flush`.
pub record Globals (F : Type 0) : Type 0 where
  pub log_level : LogLevel
  pub output : Hook F
  pub flush : Hook F

pub data Macro : Type 0 where
  log_debug log_info log_warn log_error log_fatal : Macro

module _ (F : Type 0) where
  abbrev pub initial_globals : Globals F
  initial_globals = record { log_level = info; output = default; flush = default }

  unfoldable pub set_log_level : LogLevel → Globals F → Globals F
  set_log_level level g = record g { log_level = level }

  unfoldable pub set_output : Hook F → Globals F → Globals F
  set_output out g = record g { output = out }

  unfoldable pub set_flush : Hook F → Globals F → Globals F
  set_flush flush g = record g { flush = flush }

unfoldable pub is_fatal : LogLevel → Bool
is_fatal fatal = true
is_fatal _ = false

module _ (F : Type 0) (local_time : ℕ → Tm) (error_text : ℤ → List ℕ) where
  -- `~Logger`: `length()` is the size of the array.
  unfoldable pub destroy : Globals F → Impl → Option (List (Event F))
  destroy g impl = do
    done ← finish impl
    text ← read_range done.stream.bytes (FixedBuffer.length_of done.stream)
    some (
        outputs g.output text ∷ (if is_fatal done.level then flushes g.flush ∷ aborts ∷ [] else []))

  -- The condition in front of the macro's `Logger`.
  unfoldable pub is_enabled : Globals F → Macro → Bool
  is_enabled g log_debug = leb (rank g.log_level) (rank debug)
  is_enabled g log_info = leb (rank g.log_level) (rank info)
  is_enabled g _ = true

  unfoldable pub construct :
      Macro → List ℕ → ℕ → ℕ → List ℕ → ℤ → List ℕ → ThreadInfo → Option (ThreadInfo × Impl)
  construct log_debug memory time now file line func thread =
      create_in local_time error_text memory time now file line debug func thread
  construct log_info memory time now file line func thread =
      create local_time error_text memory time now file line thread
  construct log_warn memory time now file line func thread =
      create_at local_time error_text memory time now file line warn thread
  construct log_error memory time now file line func thread =
      create_at local_time error_text memory time now file line error thread
  construct log_fatal memory time now file line func thread =
      create_at local_time error_text memory time now file line fatal thread

  -- `LOG_… << message`
  unfoldable pub log_statement :
      Globals F
      → Macro
      → List ℕ
      → ℕ
      → ℕ
      → List ℕ
      → ℤ
      → List ℕ
      → List Item
      → ThreadInfo
      → Option (ThreadInfo × List (Event F))
  log_statement g macro memory time now file line func message thread =
      if is_enabled g macro
      then (do
        (thread', impl) ← construct macro memory time now file line func thread
        stream ← put_all message impl.stream
        events ← destroy g (record impl { stream = stream })
        some (thread', events))
      else some (thread, [])
