-- ===== src/Net/Poller/Tests.antt =====
-- The theorems of src/net/poller at concrete channels.
use tiny_network.Prelude.{
  ℕ, List, ◌≡◌, refl, true, false, [], ◌∷◌, none, some, arith, ◌==◌, if◌then◌else◌,
}
use tiny_network.Net.Channel.{Channel, new, added}
use tiny_network.Net.Poller.{Poller, poll, wait_failed}
use tiny_network.Net.Poller.Table.{table}
use tiny_network.Net.Poller.Synced.{Synced}
use tiny_network.Net.Poller.Changes.{
  Change, enabling_reading, enabling_writing, disabling_all, removing,
}
use tiny_network.Net.Poller.Sharing.{Shares, use_all, use_all-Shares}
use tiny_network.Net.Poller.Poll.{poll_failed_silent}

-- Descriptor 7 is open, and not registered; descriptor 5 is.
abbrev start : Poller table
start = record {
  epoll = λ k. if k == 5 then some (record { events = 3; data_ptr = 40 }) else none;
  channels = λ k. if k == 5 then some 40 else none;
  capacity = 16;
  log = [];
}

abbrev fresh : Channel
fresh = record {
  handle = 41;
  fd = 7;
  events = 0;
  revents = 0;
  index = new;
  tied = false;
  has_read_callback = true;
  has_write_callback = true;
  has_close_callback = true;
  has_error_callback = true;
}

fresh-Synced : Synced table fresh start
fresh-Synced = (refl, refl)

-- The channel of descriptor 5, which is open.
abbrev reading : Channel
reading = record fresh { handle = 40; fd = 5; events = 3; index = added }

abbrev mixed : List (ℕ × Change table)
mixed =
    (0, enabling_reading)
    ∷ (1, enabling_writing)
    ∷ (0, disabling_all)
    ∷ (1, removing)
    ∷ (0, removing)
    ∷ []

use_all-Shares_example :
    Shares table (fresh ∷ reading ∷ []) start (use_all table mixed (fresh ∷ reading ∷ []) start)
use_all-Shares_example =
    use_all-Shares table mixed (fresh ∷ reading ∷ []) start
      (((λ h. omega (arith, h)), tt), (tt, tt)) (fresh-Synced, ((refl, refl), tt))

poll_failed_silent_example :
    poll table (wait_failed 9) (reading ∷ []) start ≡ ([], reading ∷ [], start)
poll_failed_silent_example = poll_failed_silent table (reading ∷ []) start 9 (omega arith)
