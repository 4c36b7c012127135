-- ===== src/Net/TcpConnection/Calls.antt =====
-- src/net/TcpConnection.cpp: messages and writes of one connection, in any order.
use tiny_network.Prelude.{
  ℕ, ◌≡◌, ◌≢◌, sym, ◌∙◌, ap, List, [], ◌++◌, Option, some, arith, length, length-append, append-nil,
  append_assoc, subst,
}
use tiny_network.Net.Buffer.{readable_bytes, WriteResult}
use tiny_network.Net.Buffer.Room.{Fits}
use tiny_network.Net.Poller.Kernel.{Epoll}
use tiny_network.Net.TcpConnection.{Connection, disconnected, send_in_loop, handle_write}
use tiny_network.Net.TcpConnection.Invariant.{Inv, Beside-trans, stream}
use tiny_network.Net.TcpConnection.Stream.{Sent, Accepts}
use tiny_network.Net.TcpConnection.Send.{send_in_loop-Sent}
use tiny_network.Net.TcpConnection.Flush.{Sent_none, handle_write-Sent}

module _ (e : Epoll) where
  -- Messages sent and writable events handled in any order, with the messages of the run.
  pub data Run (c : Connection e) : List ℕ → Connection e → Type 0 where
    here : Run c [] c
    sending :
        {sent : List ℕ} {d d' : Connection e} (bytes : List ℕ) (result : WriteResult)
        → Run c sent d
        → d.state ≢ disconnected
        → Accepts result (length bytes)
        → Fits d.output (length bytes)
        → send_in_loop e d bytes result ≡ some d'
        → Run c (sent ++ bytes) d'
    writing :
        {sent : List ℕ} {d d' : Connection e} (result : WriteResult)
        → Run c sent d
        → Accepts result (readable_bytes d.output)
        → handle_write e d result ≡ some d'
        → Run c sent d'

  pub Sent_trans :
      (b d f : Connection e) (xs ys : List ℕ)
      → Sent e b xs d
      → Sent e d ys f
      → Sent e b (xs ++ ys) f
  Sent_trans b d f xs ys s t = record {
    inv = t.inv;
    streamed = t.streamed ∙ ap (λ z. z ++ ys) s.streamed ∙ append_assoc (stream e b) xs ys;
    state_kept = t.state_kept ∙ s.state_kept;
    growth = omega (arith, s.growth, t.growth, length-append xs ys);
    beside = Beside-trans e b d f s.beside t.beside;
    input_kept = t.input_kept ∙ s.input_kept;
    callbacks_kept = t.callbacks_kept ∙ s.callbacks_kept;
  }

  same_value : (f g : Connection e) → some f ≡ some g → f ≡ g
  same_value f g h = cc

  same_result :
      (b d d' : Connection e) (bytes : List ℕ) (r : Option (Connection e))
      → r ≡ some d'
      → (f : Connection e) × (r ≡ some f) × Sent e b bytes f
      → Sent e b bytes d'
  same_result b d d' bytes r h (f, k, s) =
      subst (λ x. Sent e b bytes x) (same_value f d' (sym k ∙ h)) s

  -- Over any run of sends and writable events from a well-formed connection, under the conditions
  -- of `sendInLoop` and `handleWrite` at each step, the connection stays well-formed, and what
  -- the socket took followed by what waits is what it was at the start followed by all messages
  -- in order.
  pub Run-Sent :
      {c : Connection e} {sent : List ℕ} {d : Connection e}
      → Inv e c
      → Run c sent d
      → Sent e c sent d
  Run-Sent {c} v here = Sent_none e c v
  Run-Sent {c} v (sending {sent} {d} {d'} bytes result r up ok small run) =
      let s = Run-Sent v r in
      Sent_trans c d d' sent bytes s
        (same_result d d d' bytes _ run (send_in_loop-Sent e d bytes result s.inv up ok small))
  Run-Sent {c} v (writing {sent} {d} {d'} result r ok run) =
      let s = Run-Sent v r in
      subst (λ t. Sent e c t d') (append-nil sent)
        (Sent_trans c d d' sent [] s
          (same_result d d d' [] _ run (handle_write-Sent e d result s.inv ok)))
