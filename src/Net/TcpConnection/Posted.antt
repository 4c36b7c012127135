-- ===== src/Net/TcpConnection/Posted.antt =====
-- src/net/EventLoop.cpp with src/net/TcpConnection.cpp: messages that other threads send. `send`
-- of a buffer binds a string of its own to the call of `sendInLoop` that it queues; `send` of a
-- string, which binds a pointer into the string of the caller, is not meant here.
mod Tests
use tiny_network.Prelude.{
  ℕ, ◌+◌, ◌<◌, ◌^◌, ◌≡◌, ◌≢◌, refl, sym, ◌∙◌, ap, List, [], ◌∷◌, ◌++◌, some, none, Option, ◌>>=◌,
  length-append, arith, length, append_assoc,
}
use tiny_network.Net.Buffer.{WriteResult}
use tiny_network.Net.EventLoop
use tiny_network.Net.EventLoop.{Loop}
use tiny_network.Net.EventLoop.Kernel.{EventFd}
use tiny_network.Net.EventLoop.Run.{Reaches}
use tiny_network.Net.EventLoop.Awake.{left}
use tiny_network.Net.EventLoop.Wakeup.{Reaches-Awake}
use tiny_network.Net.Poller.Kernel.{Epoll}
use tiny_network.Net.TcpConnection.{Connection, disconnected, send_in_loop}
use tiny_network.Net.TcpConnection.Calls.{Sent_trans}
use tiny_network.Net.TcpConnection.Flush.{Sent_none}
use tiny_network.Net.TcpConnection.Invariant.{Inv, stream}
use tiny_network.Net.TcpConnection.Send.{send_in_loop-Sent}
use tiny_network.Net.TcpConnection.Service.{IsCalm, offered, offered-Accepts}
use tiny_network.Net.TcpConnection.Stream.{Sent}

-- The string that `send` of a buffer binds, and what `write` answers when it is sent.
abbrev pub Post : Type 0
Post = List ℕ × WriteResult

abbrev pub bytes_of : List Post → List ℕ
bytes_of [] = []
bytes_of ((bytes, result) ∷ posts) = bytes ++ bytes_of posts

abbrev pub AreCalmPosts : List Post → Type 0
AreCalmPosts [] = Unit
AreCalmPosts ((bytes, result) ∷ posts) = IsCalm result × AreCalmPosts posts

bytes_of-append : (xs ys : List Post) → bytes_of (xs ++ ys) ≡ bytes_of xs ++ bytes_of ys
bytes_of-append [] ys = refl
bytes_of-append ((bytes, result) ∷ xs) ys =
    ap (bytes ++◌) (bytes_of-append xs ys) ∙ sym (append_assoc bytes (bytes_of xs) (bytes_of ys))

module _ (e : Epoll) where
  -- The queued calls of `sendInLoop`.
  unfoldable pub send_all : List Post → Connection e → Option (Connection e)
  send_all [] c = some c
  send_all ((bytes, result) ∷ posts) c = do
    c' ← send_in_loop e c bytes (offered result (length bytes))
    send_all posts c'

  send_all-Sent :
      (posts : List Post) (c : Connection e)
      → Inv e c
      → c.state ≢ disconnected
      → AreCalmPosts posts
      → length c.output.buffer + length (bytes_of posts) < 2 ^ 31
      → (c' : Connection e) × (send_all posts c ≡ some c') × Sent e c (bytes_of posts) c'
  unfolding send_all
  send_all-Sent [] c v up calm small = (c, refl, Sent_none e c v)
  send_all-Sent ((bytes, result) ∷ posts) c v up (calm, calms) small =
      let total = length-append bytes (bytes_of posts) in
      let (d, run, s) =
        send_in_loop-Sent e c bytes (offered result (length bytes)) v up
          (offered-Accepts result (length bytes) calm)
          (omega (arith, total, small), omega (arith, total, small)) in
      let (c', runs, t) =
        send_all-Sent posts d s.inv (λ down. up (sym s.state_kept ∙ down)) calms
          (omega (arith, total, small, s.growth)) in
      (c', rw run runs, Sent_trans e c d c' bytes (bytes_of posts) s t)

-- Threads queue messages for a connection on a new loop, each with a string of its own as `send` of a
-- buffer does, in any interleaving with the loop. The messages that the loop has run by some time
-- are served by the connection without a fault, if it
-- is well-formed and not down, they and its output are fewer than 2 ^ 31 bytes, and no error of
-- `write` tells that the peer is gone; then what the socket took and what waits, followed by the
-- messages that the loop has still to run, is what it was at first followed by all messages, in
-- the order in which they were queued.
pub serve-queued :
    (k : EventFd) (fd : k.State) (s : Loop k Post) (e : Epoll) (c : Connection e)
    → Reaches k Post (EventLoop.create k Post fd) s
    → Inv e c
    → c.state ≢ disconnected
    → AreCalmPosts s.executed
    → length c.output.buffer + length (bytes_of s.executed) < 2 ^ 31
    → (c' : Connection e) × (send_all e s.executed c ≡ some c')
      × Inv e c'
      × (stream e c' ++ bytes_of (left s.phase ++ s.pending) ≡ stream e c ++ bytes_of s.queued)
serve-queued k fd s e c r v up calm small =
    let (c', run, sent) = send_all-Sent e s.executed c v up calm small in
    let rest = left s.phase ++ s.pending in
    let ordered = (Reaches-Awake k Post fd s r).1 in
    (
      c',
      run,
      sent.inv,
      ap (◌++ bytes_of rest) sent.streamed
          ∙ append_assoc (stream e c) (bytes_of s.executed) (bytes_of rest)
          ∙ ap (λ m. stream e c ++ m)
              (sym (bytes_of-append s.executed rest) ∙ ap bytes_of (sym ordered)),
    )
