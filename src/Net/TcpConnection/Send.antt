-- ===== src/Net/TcpConnection/Send.antt =====
-- src/net/TcpConnection.cpp: what `sendInLoop` does with a message.
use tiny_network.Prelude.{
  ℕ, ◌≡◌, ◌≢◌, refl, ◌∙◌, ap, Bool, true, false, not, ◌&&◌, List, [], ◌∷◌, ◌++◌, some, arith, ◌==◌,
  length, take, drop, append-nil, append_assoc, take-append-drop, length-append, Bool-cases, inl,
  inr, sub_size, sub_size_exact, subst,
}
use tiny_network.Net.Buffer.{
  Buffer, IsValid, contents, readable_bytes, WriteResult, wrote, write_failed,
}
use tiny_network.Net.Buffer.Room.{Fits}
use tiny_network.Net.Channel.{is_writing}
use tiny_network.Net.Poller.Kernel.{Epoll}
use tiny_network.Net.TcpConnection.{
  Connection, StateE, disconnected, connecting, connected, disconnecting, Effect, socket_write,
  log_send_disconnected, queue_write_complete, log_send_failed, emit, emit_if, attempt_write,
  first_write, buffer_rest, send_in_loop, is_fault, ewouldblock,
}
use tiny_network.Net.TcpConnection.Invariant.{
  Inv, has_bytes, written_bytes, written_bytes-append, stream, emit-Inv, readable_bytes-zero,
}
use tiny_network.Net.TcpConnection.Stream.{
  Accepts, Sent, Sent-emit, and_false, buffer_rest-Sent, stream-emit,
}

module _ (e : Epoll) where
  open_state :
      (c : Connection e) (bytes : List ℕ) (result : WriteResult)
      → c.state ≢ disconnected
      → send_in_loop e c bytes result ≡ buffer_rest e (first_write e c bytes result) bytes
  unfolding send_in_loop
  open_state c bytes result up = go c.state up
    where
      go :
          (s : StateE)
          → s ≢ disconnected
          → (elim s [
            | disconnected ↦ some (emit e log_send_disconnected c)
            | _ ↦ buffer_rest e (first_write e c bytes result) bytes
          ])
            ≡ buffer_rest e (first_write e c bytes result) bytes
      go disconnected h = absurd (h refl)
      go connecting h = refl
      go connected h = refl
      go disconnecting h = refl

  stream-write :
      (c : Connection e) (bytes : List ℕ)
      → contents c.output ≡ []
      → stream e (emit e (socket_write bytes) c) ≡ stream e c ++ bytes
  unfolding stream emit written_bytes
  stream-write c bytes none_left =
      rw
        (
          written_bytes-append c.effects (socket_write bytes ∷ []),
          none_left,
          append-nil bytes,
          append-nil (written_bytes c.effects ++ bytes),
          append-nil (written_bytes c.effects),
        )
        refl

  stream-socket_write :
      (b : Bool) (c : Connection e) (bytes : List ℕ)
      → contents c.output ≡ []
      → stream e (emit_if e b queue_write_complete (emit e (socket_write bytes) c))
        ≡ stream e c ++ bytes
  unfolding written_bytes
  stream-socket_write true c bytes none_left =
      stream-emit e queue_write_complete (emit e (socket_write bytes) c) refl
      ∙ stream-write c bytes none_left
  stream-socket_write false c bytes none_left = stream-write c bytes none_left

  emit_if-Inv : (b : Bool) (x : Effect) (c : Connection e) → Inv e c → Inv e (emit_if e b x c)
  emit_if-Inv true x c v = emit-Inv e x c v
  emit_if-Inv false x c v = v

  -- A later call on a connection that differs by effects alone.
  Sent-after :
      (b : Bool) (c c' : Connection e) (first rest : List ℕ)
      → contents c.output ≡ []
      → Sent e (emit_if e b queue_write_complete (emit e (socket_write first) c)) rest c'
      → Sent e c (first ++ rest) c'
  unfolding emit
  Sent-after true c c' first rest none_left s = record {
    inv = s.inv;
    streamed =
        s.streamed
        ∙ ap (λ t. t ++ rest) (stream-socket_write true c first none_left)
        ∙ append_assoc (stream e c) first rest;
    state_kept = s.state_kept;
    growth = omega (arith, s.growth, length-append first rest);
    beside = record { same_fd = s.beside.same_fd; apart = s.beside.apart };
    input_kept = s.input_kept;
    callbacks_kept = s.callbacks_kept;
  }
  Sent-after false c c' first rest none_left s = record {
    inv = s.inv;
    streamed =
        s.streamed
        ∙ ap (λ t. t ++ rest) (stream-socket_write false c first none_left)
        ∙ append_assoc (stream e c) first rest;
    state_kept = s.state_kept;
    growth = omega (arith, s.growth, length-append first rest);
    beside = record { same_fd = s.beside.same_fd; apart = s.beside.apart };
    input_kept = s.input_kept;
    callbacks_kept = s.callbacks_kept;
  }

  Fits-output :
      (b : Bool) (c : Connection e) (x : Effect) (n : ℕ)
      → Fits c.output n
      → Fits (emit_if e b queue_write_complete (emit e x c)).output n
  unfolding emit
  Fits-output true c x n h = h
  Fits-output false c x n h = h

  Fits-emit_if :
      (b : Bool) (x : Effect) (c : Connection e) (n : ℕ)
      → Fits c.output n
      → Fits (emit_if e b x c).output n
  unfolding emit
  Fits-emit_if true x c n h = h
  Fits-emit_if false x c n h = h

  Sent-emit_if :
      (b : Bool) (c c' : Connection e) (bytes : List ℕ)
      → Sent e (emit_if e b log_send_failed c) bytes c'
      → Sent e c bytes c'
  unfolding written_bytes
  Sent-emit_if true c c' bytes s = Sent-emit e log_send_failed c c' bytes refl s
  Sent-emit_if false c c' bytes s = s

  -- The direct attempt: nothing waited, and `write` took some bytes or none.
  attempt_write-Sent :
      (c : Connection e) (bytes : List ℕ) (result : WriteResult)
      → Inv e c
      → contents c.output ≡ []
      → Accepts result (length bytes)
      → Fits c.output (length bytes)
      → (c' : Connection e) × (buffer_rest e (attempt_write e c bytes result) bytes ≡ some c')
        × Sent e c bytes c'
  unfolding attempt_write
  attempt_write-Sent c bytes (wrote n) v none_left ok small =
      let b = sub_size (length bytes) n == 0 && c.has_write_complete in
      let c0 = emit_if e b queue_write_complete (emit e (socket_write (take n bytes)) c) in
      let exact = sub_size_exact (length bytes) n ok (omega arith) in
      let (c', run, s) =
        buffer_rest-Sent e c0 bytes n (sub_size (length bytes) n)
          (emit_if-Inv b queue_write_complete (emit e (socket_write (take n bytes)) c)
            (emit-Inv e (socket_write (take n bytes)) c v))
          (omega (arith, exact))
          (Fits-output b c (socket_write (take n bytes)) (length bytes) small) in
      (
        c',
        run,
        subst (λ t. Sent e c t c') (take-append-drop n bytes)
            (Sent-after b c c' (take n bytes) (drop n bytes) none_left s),
      )
  attempt_write-Sent c bytes (write_failed err) v none_left ok small =
      let calm : (not (err == ewouldblock) && is_fault err) ≡ false = and_false _ ok in
      let b = not (err == ewouldblock) in
      let (c', run, s) =
        buffer_rest-Sent e (emit_if e b log_send_failed c) bytes 0 (length bytes)
          (emit_if-Inv b log_send_failed c v) (omega arith)
          (Fits-emit_if b log_send_failed c (length bytes) small) in
      (c', rw calm run, Sent-emit_if b c c' bytes s)

  empty_of_readable :
      (b : Bool) (output : Buffer)
      → IsValid output
      → (b && readable_bytes output == 0) ≡ true
      → contents output ≡ []
  empty_of_readable b output v h =
      go (contents output) (ground (arith, readable_bytes-zero e output v))
    where
      go : (xs : List ℕ) → has_bytes xs ≡ false → xs ≡ []
      go [] k = refl
      go (x ∷ xs) k = cc

  -- A message given to `sendInLoop` of a well-formed connection that is not down, whose output
  -- can grow by it, does not fault, and is neither lost nor mixed, whatever `write` takes of it
  -- up to its length: what the socket took followed by what waits grows by exactly the message.
  -- The state and the input stay as they were, the output grows by no more than the message, and
  -- the poller has other descriptors as before. An error that tells that the peer is gone is not
  -- among the results.
  pub send_in_loop-Sent :
      (c : Connection e) (bytes : List ℕ) (result : WriteResult)
      → Inv e c
      → c.state ≢ disconnected
      → Accepts result (length bytes)
      → Fits c.output (length bytes)
      → (c' : Connection e) × (send_in_loop e c bytes result ≡ some c') × Sent e c bytes c'
  unfolding first_write
  send_in_loop-Sent c bytes result v up ok small =
      rw (open_state c bytes result up)
        (elim (Bool-cases (not (is_writing c.channel) && readable_bytes c.output == 0)) [
          | inl direct ↦ rw direct (
              attempt_write-Sent c bytes result v
                (empty_of_readable _ c.output v.output_valid direct) ok small)
          | inr busy ↦ rw busy (buffer_rest-Sent e c bytes 0 (length bytes) v (omega arith) small)
        ])
