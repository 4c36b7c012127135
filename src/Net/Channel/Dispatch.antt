-- ===== src/Net/Channel/Dispatch.antt =====
-- src/net/Channel.cpp: which callbacks an event calls.
use tiny_network.Prelude.{◌≡◌, Bool, true, false, not, ◌&&◌, ◌||◌, List, [], ◌∷◌, arith}
use tiny_network.Net.Channel.{
  Channel, Callback, on_close, on_read, on_write, on_error, handle_event, handle_event_with_guard,
  any_of, epoll_in, epoll_out, epoll_err, epoll_hup, read_event, set_revents,
}

-- Whether a list of calls has a given one.
pub calls : Callback → List Callback → Bool
calls k [] = false
calls on_close (on_close ∷ ks) = true
calls on_read (on_read ∷ ks) = true
calls on_write (on_write ∷ ks) = true
calls on_error (on_error ∷ ks) = true
calls k (j ∷ ks) = calls k ks

-- The owner of a tied channel is there, or the channel is not tied.
abbrev pub guarded : Channel → Bool → Bool
guarded c alive = not c.tied || alive

-- Each callback runs exactly when its event was reported, it was set, and the owner of a tied
-- channel still lives; closing needs EPOLLHUP without EPOLLIN. The error callback never runs.
pub handle_event_lem :
    (c : Channel) (alive : Bool)
    → (calls on_close (handle_event c alive) ≡ (
        guarded c alive
        && (any_of c.revents epoll_hup
            && (not (any_of c.revents epoll_in) && c.has_close_callback))))
      × (calls on_read (handle_event c alive)
          ≡ (guarded c alive && (any_of c.revents read_event && c.has_read_callback)))
      × (calls on_write (handle_event c alive)
          ≡ (guarded c alive && (any_of c.revents epoll_out && c.has_write_callback)))
      × (calls on_error (handle_event c alive) ≡ false)
unfolding handle_event handle_event_with_guard calls
handle_event_lem c alive = ground arith

-- A channel for which epoll reports nothing but EPOLLERR calls no callback.
pub error_event_ignored :
    (c : Channel) (alive : Bool) → handle_event (set_revents c epoll_err) alive ≡ []
unfolding handle_event handle_event_with_guard set_revents any_of
error_event_ignored c alive = ground arith
