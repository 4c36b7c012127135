-- ===== src/Logger/Backend.antt =====
-- src/logger/AsyncLogging.cpp with src/logger/LogFile.cpp: what the thread of the log writes to the
-- files. For each buffer the results of `fwrite` and the time of its append are an argument.
pub mod Written
pub mod Archived
mod Tests
use tiny_network.Prelude.{ℕ, Bool, List, [], ◌∷◌, Option, none, some, ◌>>=◌, read_range}
use tiny_network.Logger.FixedBuffer
use tiny_network.Logger.FixedBuffer.{FixedBuffer}
use tiny_network.Logger.Logging.{Tm}
use tiny_network.Logger.LogFile
use tiny_network.Logger.LogFile.{LogFile, append_in_lock}

module _ (local_time : ℕ → Tm) (opens : List ℕ → Bool) where
  -- `LogFile output(basename_, rollSize_, false)`: the flush interval is 0.
  unfoldable pub open_output : List ℕ → ℕ → ℕ → Option LogFile
  open_output basename roll_size now = LogFile.create local_time opens basename roll_size 0 1024 now

  -- `output.append(buffer -> data(), buffer -> length())`
  unfoldable pub write_buffer : List ℕ × ℕ → FixedBuffer → LogFile → Option LogFile
  write_buffer (results, now) b f = do
    data_ ← read_range b.bytes (FixedBuffer.length_of b)
    append_in_lock local_time opens results data_ now f

  -- The loop over `buffersToWrite`, over all rounds. `none` are answers that run out.
  unfoldable pub write_buffers : List (List ℕ × ℕ) → List FixedBuffer → LogFile → Option LogFile
  write_buffers answers [] f = some f
  write_buffers [] (b ∷ bs) f = none
  write_buffers (answer ∷ answers) (b ∷ bs) f = do
    f' ← write_buffer answer b f
    write_buffers answers bs f'
