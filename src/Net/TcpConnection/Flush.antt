-- ===== src/Net/TcpConnection/Flush.antt =====
-- src/net/TcpConnection.cpp: what `handleWrite` does with the output.
use tiny_network.Prelude.{
  ℕ, ◌≡◌, refl, sym, ◌∙◌, Bool, true, false, List, [], ◌∷◌, ◌++◌, some, arith, ltb, ◌==◌, take,
  append-nil, append_assoc, take-append-drop, Bool-cases, read_range_fits, inl, inr,
}
use tiny_network.Net.Buffer.{
  Buffer, IsValid, contents, readable_bytes, retrieve, peek, WriteResult, wrote, write_failed,
  write_fd,
}
use tiny_network.Net.Buffer.Contents.{retrieve-drop, retrieve-IsValid, buffer-retrieve, take-peek}
use tiny_network.Net.Channel.{Index, set_index, is_writing, ignores_writing}
use tiny_network.Net.Channel.Interest.{changes-Wishes}
use tiny_network.Net.Poller
use tiny_network.Net.Poller.{Poller}
use tiny_network.Net.Poller.Kernel.{Epoll}
use tiny_network.Net.Poller.Synced.{Synced, Apart, Apart-refl}
use tiny_network.Net.Poller.Members.{disable_writing-Registers}
use tiny_network.Net.TcpConnection.{
  Connection, StateE, disconnected, connecting, connected, disconnecting, Effect, socket_write,
  queue_write_complete, log_write_failed, log_not_writing, emit, emit_if, output_written,
  handle_write, shutdown_due,
}
use tiny_network.Net.TcpConnection.Invariant.{
  Inv, has_bytes, written_bytes, written_bytes-append, stream, emit-Inv, readable_bytes-zero,
  on_channel_run, Beside-refl,
}
use tiny_network.Net.TcpConnection.Stream.{Sent, stream-emit, Accepts}

-- The test for a pending shutdown never holds, whatever the state.
pub shutdown_due-false : (s : StateE) → shutdown_due s ≡ false
unfolding shutdown_due
shutdown_due-false disconnected = refl
shutdown_due-false connecting = refl
shutdown_due-false connected = refl
shutdown_due-false disconnecting = refl

module _ (e : Epoll) where
  -- What the socket takes off the front of the output.
  flushed : Connection e → ℕ → Connection e
  flushed c n = record (emit e (socket_write (take n (contents c.output))) c) {
    output = retrieve c.output n;
  }

  stream-flushed :
      (c : Connection e) (n : ℕ) → IsValid c.output → stream e (flushed c n) ≡ stream e c
  unfolding stream flushed emit written_bytes
  stream-flushed c n v =
      rw
        (
          written_bytes-append c.effects (socket_write (take n (contents c.output)) ∷ []),
          append-nil (take n (contents c.output)),
          retrieve-drop c.output n v,
          append_assoc,
          take-append-drop n (contents c.output),
        )
        refl

  stream_kept :
      (c : Connection e) (n : ℕ) → IsValid c.output → stream e (flushed c n) ≡ stream e c ++ []
  stream_kept c n v = stream-flushed c n v ∙ sym (append-nil (stream e c))

  -- Some output is left: writing stays enabled.
  flushed_part-Sent :
      (c : Connection e) (n : ℕ)
      → Inv e c
      → is_writing c.channel ≡ true
      → (readable_bytes (retrieve c.output n) == 0) ≡ false
      → Sent e c [] (flushed c n)
  unfolding flushed emit
  flushed_part-Sent c n v busy left =
      let valid = retrieve-IsValid c.output n v.output_valid in
      record {
        inv = record {
          input_valid = v.input_valid;
          output_valid = valid;
          interest = v.interest;
          synced = v.synced;
          waiting = λ _. busy ∙ some_left (retrieve c.output n) valid left;
        };
        streamed = stream_kept c n v.output_valid;
        state_kept = refl;
        growth = rw (buffer-retrieve c.output n) (omega arith);
        beside = record { same_fd = refl; apart = Apart-refl e c.channel.fd c.poller };
        input_kept = refl;
        callbacks_kept = refl;
      }
    where
      some_left :
          (b : Buffer) → IsValid b → (readable_bytes b == 0) ≡ false → true ≡ has_bytes (contents b)
      some_left b valid h = ground (arith, readable_bytes-zero e b valid)

  -- All output is gone: writing is disabled.
  flushed_all-Sent :
      (c : Connection e) (n : ℕ) (i : Index) (p : Poller e)
      → Inv e c
      → Synced e (set_index (ignores_writing c.channel) i) p
      → Apart e c.channel.fd c.poller p
      → (readable_bytes (retrieve c.output n) == 0) ≡ true
      → Sent e c []
          (record (flushed c n) { channel = set_index (ignores_writing c.channel) i; poller = p })
  unfolding flushed emit set_index is_writing stream ignores_writing
  flushed_all-Sent c n i p v s a none_left =
      let valid = retrieve-IsValid c.output n v.output_valid in
      let wishes = (changes-Wishes c.channel v.interest).3 in
      record {
        inv = record {
          input_valid = v.input_valid;
          output_valid = valid;
          interest = wishes.interest;
          synced = s;
          waiting = λ _. wishes.writes ∙ empty (retrieve c.output n) valid none_left;
        };
        streamed = stream_kept c n v.output_valid;
        state_kept = refl;
        growth = rw (buffer-retrieve c.output n) (omega arith);
        beside = record { same_fd = refl; apart = a };
        input_kept = refl;
        callbacks_kept = refl;
      }
    where
      empty :
          (b : Buffer) → IsValid b → (readable_bytes b == 0) ≡ true → false ≡ has_bytes (contents b)
      empty b valid h = ground (arith, readable_bytes-zero e b valid)

  pub Sent_none : (c : Connection e) → Inv e c → Sent e c [] c
  Sent_none c v = record {
    inv = v;
    streamed = sym (append-nil (stream e c));
    state_kept = refl;
    growth = omega arith;
    beside = Beside-refl e c;
    input_kept = refl;
    callbacks_kept = refl;
  }

  emitted-Sent :
      (x : Effect) (c d : Connection e) (bytes : List ℕ)
      → written_bytes (x ∷ []) ≡ []
      → Sent e c bytes d
      → Sent e c bytes (emit e x d)
  unfolding emit
  emitted-Sent x c d bytes silent s = record {
    inv = emit-Inv e x d s.inv;
    streamed = stream-emit e x d silent ∙ s.streamed;
    state_kept = s.state_kept;
    growth = s.growth;
    beside = record { same_fd = s.beside.same_fd; apart = s.beside.apart };
    input_kept = s.input_kept;
    callbacks_kept = s.callbacks_kept;
  }

  told-Sent :
      (b : Bool) (c d : Connection e)
      → Sent e c [] d
      → Sent e c [] (emit_if e b queue_write_complete d)
  unfolding written_bytes
  told-Sent false c d s = s
  told-Sent true c d s = emitted-Sent queue_write_complete c d [] refl s

  output_written-Sent :
      (c : Connection e) (n : ℕ)
      → Inv e c
      → is_writing c.channel ≡ true
      → (c' : Connection e) × (output_written e
            (emit e (socket_write (take n (contents c.output))) c)
            n
          ≡ some c')
        × Sent e c [] c'
  unfolding output_written emit flushed ignores_writing
  output_written-Sent c n v busy = elim (Bool-cases (readable_bytes (retrieve c.output n) == 0)) [
    | inl none_left ↦
        let (i, p, run, s, a) =
          on_channel_run e (Poller.disable_writing e) (ignores_writing c.channel) (flushed c n)
            (disable_writing-Registers e c.channel c.poller v.synced) in
        let idle = record (flushed c n) {
          channel = set_index (ignores_writing c.channel) i;
          poller = p;
        } in
        (
          emit_if e idle.has_write_complete queue_write_complete idle,
          rw (none_left, run, shutdown_due-false _) refl,
          told-Sent idle.has_write_complete c idle (flushed_all-Sent c n i p v s a none_left),
        )
    | inr left ↦ (flushed c n, rw left refl, flushed_part-Sent c n v busy left)
  ]

  logged-Sent :
      (x : Effect) (c : Connection e)
      → written_bytes (x ∷ []) ≡ []
      → Inv e c
      → Sent e c [] (emit e x c)
  logged-Sent x c silent v = emitted-Sent x c c [] silent (Sent_none c v)

  -- `handleWrite` on a well-formed connection does not fault, whatever `write` takes up to what
  -- was offered, or an error that does not tell that the peer is gone, and only moves bytes from
  -- the front of what waits to the socket: what the socket took followed by what waits stays the
  -- same.
  pub handle_write-Sent :
      (c : Connection e) (result : WriteResult)
      → Inv e c
      → Accepts result (readable_bytes c.output)
      → (c' : Connection e) × (handle_write e c result ≡ some c') × Sent e c [] c'
  unfolding handle_write write_fd written_bytes
  handle_write-Sent c (wrote n) v ok = elim (Bool-cases (is_writing c.channel)) [
    | inr idle ↦ (emit e log_not_writing c, rw idle refl, logged-Sent log_not_writing c refl v)
    | inl busy ↦ elim (Bool-cases (ltb 0 n)) [
      | inr nothing ↦ (
        emit e log_write_failed c,
        rw (busy, nothing) refl,
        logged-Sent log_write_failed c refl v,
      )
      | inl more ↦
          let (fits, same) = take-peek c.output n v.output_valid ok in
          rw (busy, more, read_range_fits (peek c.output) n fits, same)
            (output_written-Sent c n v busy)
    ]
  ]
  handle_write-Sent c (write_failed err) v ok = elim (Bool-cases (is_writing c.channel)) [
    | inr idle ↦ (emit e log_not_writing c, rw idle refl, logged-Sent log_not_writing c refl v)
    | inl busy ↦ (emit e log_write_failed c, rw busy refl, logged-Sent log_write_failed c refl v)
  ]
