-- ===== src/Logger/LogFile.antt =====
-- include/logger/LogFile.h, src/logger/LogFile.cpp, include/logger/FileUtil.h and
-- src/logger/FileUtil.cpp: the files of the log. A file is its name and its bytes. `local_time` is
-- `localtime_r`, and `opens` tells which names `fopen` can open. What `fwrite_unlocked` returns and
-- the time that a call reads are arguments. `none` is a null pointer that is used.
pub mod Writing
pub mod Rolling
pub mod Archive
pub mod Name
pub mod Lifetime
mod Tests
use tiny_network.Prelude.{
  ℕ, zero, suc, ◌+◌, ◌-◌, ◌*◌, ◌/◌, Bool, true, false, not, List, [], ◌∷◌, ◌++◌, Option, none, some,
  ltb, leb, ◌==◌, if◌then◌else◌, ◌>>=◌, length, take, drop, ◌%◌,
}
use tiny_network.Prelude.Decimal.{decimal, padded}
use tiny_network.Logger.Logging.{Tm}

-- `flushed` counts the bytes that a flush has passed on.
pub record FileUtil : Type 0 where
  pub file_name : List ℕ
  pub content : List ℕ
  pub flushed : ℕ
  pub written_bytes : ℕ

unfoldable pub new_file : List ℕ → FileUtil
new_file name = record { file_name = name; content = []; flushed = 0; written_bytes = 0 }

-- The loop of `FileUtil::append` on the bytes that are left, one result for each round. `none` is
-- a loop that has not ended after these results.
unfoldable pub write_loop : List ℕ → List ℕ → FileUtil → Option FileUtil
write_loop results [] f = some f
write_loop [] (x ∷ xs) f = none
write_loop (n ∷ results) (x ∷ xs) f =
    write_loop results (drop n (x ∷ xs)) (record f { content = f.content ++ take n (x ∷ xs) })

unfoldable pub append_bytes : List ℕ → List ℕ → FileUtil → Option FileUtil
append_bytes results bytes f = do
  f' ← write_loop results bytes f
  some (record f' { written_bytes = f'.written_bytes + length bytes })

unfoldable pub flush_file : FileUtil → FileUtil
flush_file f = record f { flushed = length f.content }

-- `closed` is what went into earlier files.
pub record LogFile : Type 0 where
  pub basename : List ℕ
  pub roll_size : ℕ
  pub flush_interval : ℕ
  pub check_every_n : ℕ
  pub count : ℕ
  pub start_of_period : ℕ
  pub last_roll : ℕ
  pub last_flush : ℕ
  pub file : FileUtil
  pub closed : List ℕ

abbrev pub roll_per_seconds : ℕ
roll_per_seconds = 60 * 60 * 24

unfoldable pub period : ℕ → ℕ
period now = now / roll_per_seconds * roll_per_seconds

unfoldable pub flush : LogFile → LogFile
flush s = record s { file = flush_file s.file }

-- "%D" is "%m/%d/%y".
abbrev pub date_text : Tm → List ℕ
date_text tm =
    padded b'0' 2 (tm.tm_mon + 1)
    ++ (b'/' ∷ padded b'0' 2 tm.tm_mday ++ (b'/' ∷ padded b'0' 2 (tm.tm_year % 100)))

-- "%H%M%S"
abbrev pub clock_text : Tm → List ℕ
clock_text tm = padded b'0' 2 tm.tm_hour ++ (padded b'0' 2 tm.tm_min ++ padded b'0' 2 tm.tm_sec)

-- ".%Y%m%D-%H%M%S"
unfoldable pub roll_text : Tm → List ℕ
roll_text tm =
    (b'.' ∷ decimal (tm.tm_year + 1900))
    ++ (padded b'0' 2 (tm.tm_mon + 1) ++ (date_text tm ++ (b'-' ∷ clock_text tm)))

-- `strftime` into an array of this size: nothing is promised of the array if the text does not fit.
abbrev pub strftime : ℕ → List ℕ → Option (List ℕ)
strftime size chars = if ltb (length chars) size then some chars else none

abbrev pub log_suffix : List ℕ
log_suffix = b'.' ∷ b'l' ∷ b'o' ∷ b'g' ∷ []

unfoldable pub get_log_file_name : List ℕ → Tm → Option (List ℕ)
get_log_file_name basename tm = do
  timebuf ← strftime 32 (roll_text tm)
  some (basename ++ (timebuf ++ log_suffix))

-- The members that a roll sets.
unfoldable pub opened_at : ℕ → FileUtil → LogFile → LogFile
opened_at now file s = record s {
  last_roll = now;
  last_flush = now;
  start_of_period = period now;
  file = file;
  closed = s.closed ++ s.file.content;
}

module _ (local_time : ℕ → Tm) (opens : List ℕ → Bool) where
  -- The constructor of `FileUtil`, which uses what `fopen` gives; the file has no bytes yet.
  unfoldable pub open_file : List ℕ → Option FileUtil
  open_file name = if opens name then some (new_file name) else none

  unfoldable pub roll_file : ℕ → LogFile → Option (Bool × LogFile)
  roll_file now s = do
    filename ← get_log_file_name s.basename (local_time now)
    if ltb s.last_roll now
        then (do file ← open_file filename; some (true, opened_at now file s))
        else some (false, s)

  -- `rollFile` where its result is not used.
  unfoldable pub roll : ℕ → LogFile → Option LogFile
  roll now s = do (rolled, s') ← roll_file now s; some s'

  -- Every `check_every_n` appends, by the time.
  unfoldable pub check_time : ℕ → LogFile → Option LogFile
  check_time now s =
      if not (period now == s.start_of_period)
      then roll now s
      else some (
          if ltb s.flush_interval (now - s.last_flush)
          then flush (record s { last_flush = now })
          else s)

  unfoldable pub count_append : ℕ → LogFile → Option LogFile
  count_append now s =
      if leb s.check_every_n s.count then check_time now (record s { count = 0 }) else some s

  unfoldable pub append_in_lock : List ℕ → List ℕ → ℕ → LogFile → Option LogFile
  append_in_lock results bytes now s = do
    file ← append_bytes results bytes s.file
    let s' = record s { file = file }
    if ltb s.roll_size file.written_bytes
        then roll now s'
        else count_append now (record s' { count = s.count + 1 })

  -- The constructor. Without a roll there is no file.
  unfoldable pub create : List ℕ → ℕ → ℕ → ℕ → ℕ → Option LogFile
  create basename roll_size flush_interval check_every_n now = do
    (rolled, s) ← roll_file now (record {
      basename = basename;
      roll_size = roll_size;
      flush_interval = flush_interval;
      check_every_n = check_every_n;
      count = 0;
      start_of_period = 0;
      last_roll = 0;
      last_flush = 0;
      file = new_file [];
      closed = [];
    })
    if rolled then some s else none
