-- ===== src/Net/TcpConnection/Stream.antt =====
-- src/net/TcpConnection.cpp: the stream of a connection, and the rest of a message that waits.
use tiny_network.Prelude.{
  ℕ, ◌+◌, ◌≤◌, ◌<◌, ◌≡◌, ◌≢◌, refl, sym, ◌∙◌, ap, Bool, true, false, ◌&&◌, List, [], ◌∷◌, ◌++◌,
  some, arith, ltb, if◌then◌else◌, length, drop, append-nil, append_assoc, take_all, drop_all,
  length-drop, Bool-cases, inl, inr, add_size, ltb→lt, subst,
}
use tiny_network.Net.Buffer.{Buffer, contents, readable_bytes, WriteResult, wrote, write_failed}
use tiny_network.Net.Buffer.Append.{Appended, append-Appended}
use tiny_network.Net.Buffer.Room.{Fits}
use tiny_network.Net.Channel.{set_index, is_writing, wants_writing}
use tiny_network.Net.Channel.Interest.{changes-Wishes}
use tiny_network.Net.Poller
use tiny_network.Net.Poller.{Poller}
use tiny_network.Net.Poller.Kernel.{Epoll}
use tiny_network.Net.Poller.Synced.{Apart-refl}
use tiny_network.Net.Poller.Members.{enable_writing-Registers}
use tiny_network.Net.TcpConnection.{
  Connection, Effect, queue_high_water, emit, emit_if, on_channel, buffer_rest, crosses_mark,
  is_fault,
}
use tiny_network.Net.TcpConnection.Invariant.{
  Inv, has_bytes, has_bytes-append, written_bytes, written_bytes-append, stream, emit-Inv,
  on_channel_run, Beside, Beside-refl,
}

-- An effect that is no write to the socket.
abbrev pub IsSilent : Effect → Type 0
IsSilent x = written_bytes (x ∷ []) ≡ []

-- What `write` may answer to an offer of `len` bytes: at most so many, or an error that does not
-- tell that the peer is gone.
abbrev pub Accepts : WriteResult → ℕ → Type 0
Accepts (wrote n) len = n ≤ len
Accepts (write_failed err) len = is_fault err ≡ false

pub and_false : (a : Bool) {b : Bool} → b ≡ false → (a && b) ≡ false
and_false true h = h
and_false false h = refl

module _ (e : Epoll) where
  -- What a call of `send_in_loop` or of its parts must give: no fault, and the bytes at the end.
  pub record Sent (c : Connection e) (bytes : List ℕ) (c' : Connection e) : Type 0 where
    pub inv : Inv e c'
    pub streamed : stream e c' ≡ stream e c ++ bytes
    pub state_kept : c'.state ≡ c.state
    pub growth : length c'.output.buffer ≤ length c.output.buffer + length bytes
    pub beside : Beside e c c'
    pub input_kept : c'.input ≡ c.input
    pub callbacks_kept : c'.callbacks ≡ c.callbacks

  pub stream-emit :
      (x : Effect) (c : Connection e)
      → written_bytes (x ∷ []) ≡ []
      → stream e (emit e x c) ≡ stream e c
  unfolding stream emit
  stream-emit x c h =
      rw (written_bytes-append c.effects (x ∷ []), h, append-nil (written_bytes c.effects)) refl

  stream-appended :
      (c : Connection e) (output : Buffer) (bytes : List ℕ)
      → contents output ≡ contents c.output ++ bytes
      → written_bytes c.effects ++ contents output ≡ stream e c ++ bytes
  unfolding stream
  stream-appended c output bytes h =
      ap (◌++◌ (written_bytes c.effects)) h
      ∙ sym (append_assoc (written_bytes c.effects) (contents c.output) bytes)

  writing_appended :
      (c : Connection e) (output : Buffer) (bytes : List ℕ)
      → bytes ≢ []
      → contents output ≡ contents c.output ++ bytes
      → true ≡ has_bytes (contents output)
  writing_appended c output bytes more h =
      rw h (sym (has_bytes-append (contents c.output) bytes more))

  -- The rest of `sendInLoop` once the output buffer holds what was left of the message.
  enable_if_idle :
      (c : Connection e) (output : Buffer) (bytes : List ℕ)
      → Inv e c
      → bytes ≢ []
      → Appended c.output bytes output
      → (c' : Connection e) × ((if is_writing c.channel
            then some (record c { output = output })
            else on_channel e (Poller.enable_writing e) (record c { output = output }))
          ≡ some c')
        × Sent c bytes c'
  unfolding stream set_index is_writing wants_writing
  enable_if_idle c output bytes v more done = elim (Bool-cases (is_writing c.channel)) [
    | inl busy ↦ (
      record c { output = output },
      rw busy refl,
      record {
        inv = record {
          input_valid = v.input_valid;
          output_valid = done.valid;
          interest = v.interest;
          synced = v.synced;
          waiting = λ _. busy ∙ writing_appended c output bytes more done.extended;
        };
        streamed = stream-appended c output bytes done.extended;
        state_kept = refl;
        growth = done.growth;
        beside = record { same_fd = refl; apart = Apart-refl e c.channel.fd c.poller };
        input_kept = refl;
        callbacks_kept = refl;
      },
    )
    | inr idle ↦
        let wishes = (changes-Wishes c.channel v.interest).2 in
        let (i, p, run, s, a) =
          on_channel_run e (Poller.enable_writing e) (wants_writing c.channel)
            (record c { output = output })
            (enable_writing-Registers e c.channel c.poller v.synced) in
        (
          record c { output = output; channel = set_index (wants_writing c.channel) i; poller = p },
          rw idle run,
          record {
            inv = record {
              input_valid = v.input_valid;
              output_valid = done.valid;
              interest = wishes.interest;
              synced = s;
              waiting = λ _. wishes.writes ∙ writing_appended c output bytes more done.extended;
            };
            streamed = stream-appended c output bytes done.extended;
            state_kept = refl;
            growth = done.growth;
            beside = record { same_fd = refl; apart = a };
            input_kept = refl;
            callbacks_kept = refl;
          },
        )
  ]

  pub Sent-emit :
      (x : Effect) (c c' : Connection e) (bytes : List ℕ)
      → written_bytes (x ∷ []) ≡ []
      → Sent (emit e x c) bytes c'
      → Sent c bytes c'
  unfolding emit
  Sent-emit x c c' bytes h s = record {
    inv = s.inv;
    streamed = s.streamed ∙ ap (λ t. t ++ bytes) (stream-emit x c h);
    state_kept = s.state_kept;
    growth = s.growth;
    beside = record { same_fd = s.beside.same_fd; apart = s.beside.apart };
    input_kept = s.input_kept;
    callbacks_kept = s.callbacks_kept;
  }

  -- The same after an effect that may have come before.
  enable_if_idle_noted :
      (b : Bool) (x : Effect) (c : Connection e) (output : Buffer) (bytes : List ℕ)
      → written_bytes (x ∷ []) ≡ []
      → Inv e c
      → bytes ≢ []
      → Appended c.output bytes output
      → (c' : Connection e) × ((if is_writing c.channel
            then some (record (emit_if e b x c) { output = output })
            else on_channel e
                (Poller.enable_writing e)
                (record (emit_if e b x c) { output = output }))
          ≡ some c')
        × Sent c bytes c'
  unfolding emit
  enable_if_idle_noted true x c output bytes h v more done =
      let (c', run, s) = enable_if_idle (emit e x c) output bytes (emit-Inv e x c v) more done in
      (c', run, Sent-emit x c c' bytes h s)
  enable_if_idle_noted false x c output bytes h v more done =
      enable_if_idle c output bytes v more done

  -- The second part of `sendInLoop`, when the first `n` bytes are dealt with.
  pub buffer_rest-Sent :
      (c : Connection e) (bytes : List ℕ) (n m : ℕ)
      → Inv e c
      → m + n ≡ length bytes
      → Fits c.output (length bytes)
      → (c' : Connection e) × (buffer_rest e
            (record { conn = c; nwrote = n; remaining = m; fault_error = false })
            bytes
          ≡ some c')
        × Sent c (drop n bytes) c'
  unfolding buffer_rest written_bytes
  buffer_rest-Sent c bytes n m v fits small = elim (Bool-cases (ltb 0 m)) [
    | inl more ↦
        let left : length (drop n bytes) ≡ m = omega (arith, length-drop n bytes) in
        let some_left : 0 < m = ltb→lt 0 m more in
        let (output, run, done) =
          append-Appended c.output (drop n bytes) m v.output_valid (omega arith)
            (omega (arith, left)) in
        let whole = take_all m (drop n bytes) (omega (arith, left)) in
        let (c', ends, s) =
          enable_if_idle_noted (crosses_mark e c (readable_bytes c.output) m)
            (queue_high_water (add_size (readable_bytes c.output) m)) c output (drop n bytes) refl v
            (λ none_left. omega (arith, ap length none_left, left))
            (subst (λ t. Appended c.output t output) whole done) in
        (c', rw (more, run) ends, s)
    | inr all ↦
        let nothing : drop n bytes ≡ [] = drop_all n bytes (ground arith) in
        (
          c,
          rw all refl,
          record {
            inv = v;
            streamed = rw (nothing, append-nil (stream e c)) refl;
            state_kept = refl;
            growth = omega arith;
            beside = Beside-refl e c;
            input_kept = refl;
            callbacks_kept = refl;
          },
        )
  ]
