-- ===== src/Net/Channel/Tests.antt =====
-- src/net/Channel.cpp: a tied channel with all four callbacks, and the theorems at it.
use tiny_network.Prelude.{◌≡◌, refl, true, false, not, ◌&&◌, inl, inr}
use tiny_network.Net.Channel.{
  Channel, on_close, on_read, on_write, on_error, handle_event, any_of, epoll_in, epoll_out,
  epoll_hup, read_event, added, wants_reading, ignores_reading, wants_writing, ignores_writing,
  ignores_all, is_reading, is_writing,
}
use tiny_network.Net.Channel.Interest.{Wishes, changes-Wishes}
use tiny_network.Net.Channel.Dispatch.{calls, handle_event_lem}

-- Registered for reading; epoll reported EPOLLIN, EPOLLOUT and EPOLLHUP.
abbrev watched : Channel
watched = record {
  handle = 41;
  fd = 7;
  events = 3;
  revents = 21;
  index = added;
  tied = true;
  has_read_callback = true;
  has_write_callback = true;
  has_close_callback = true;
  has_error_callback = true;
}

changes-Wishes_example :
    Wishes (wants_reading watched) true (is_writing watched)
    × Wishes (ignores_reading watched) false (is_writing watched)
    × Wishes (wants_writing watched) (is_reading watched) true
    × Wishes (ignores_writing watched) (is_reading watched) false
    × Wishes (ignores_all watched) false false
changes-Wishes_example = changes-Wishes watched (inr (inl refl))

handle_event_lem_example :
    (calls on_close (handle_event watched true)
      ≡ (any_of 21 epoll_hup && (not (any_of 21 epoll_in) && true)))
    × (calls on_read (handle_event watched true) ≡ (any_of 21 read_event && true))
    × (calls on_write (handle_event watched true) ≡ (any_of 21 epoll_out && true))
    × (calls on_error (handle_event watched true) ≡ false)
handle_event_lem_example = handle_event_lem watched true
