-- ===== src/Net/TcpConnection/Service.antt =====
-- src/net/TcpConnection.cpp: a connection that sends messages, is told that it may write,
-- and reads.
use tiny_network.Prelude.{
  ℕ, ◌+◌, ◌≤◌, ◌<◌, ◌^◌, ◌≡◌, ◌≢◌, refl, sym, ◌∙◌, ap, subst, true, false, List, [], ◌∷◌, ◌++◌,
  Option, some, ◌>>=◌, arith, length, length-append, append-nil, append_assoc, min,
}
use tiny_network.Net.Buffer.{
  contents, readable_bytes, WriteResult, wrote, write_failed, delivered, extra_size, vector_max,
}
use tiny_network.Net.Buffer.Descriptor.{read_room-ge}
use tiny_network.Net.Poller.Kernel.{Epoll}
use tiny_network.Net.TcpConnection.{
  Connection, disconnected, Effect, message_callback, send_in_loop, handle_write, handle_read,
  is_fault,
}
use tiny_network.Net.TcpConnection.Invariant.{
  Inv, Beside, Beside-trans, stream, written_bytes, written_bytes-append,
}
use tiny_network.Net.TcpConnection.Stream.{Sent, Accepts}
use tiny_network.Net.TcpConnection.Send.{send_in_loop-Sent}
use tiny_network.Net.TcpConnection.Flush.{Sent_none, handle_write-Sent}
use tiny_network.Net.TcpConnection.Reading.{Reading, handle_read-Reading}

-- What `write` answers to an offer of `len` bytes, if it is willing to take so many.
abbrev pub offered : WriteResult → ℕ → WriteResult
offered (wrote n) len = wrote (min n len)
offered (write_failed err) len = write_failed err

-- A message that is sent in the thread of the loop, or an event that the socket can be written,
-- with how many bytes `write` is willing to take, or its error; or a read that delivers bytes.
pub data Request : Type 0 where
  sends : List ℕ → WriteResult → Request
  writable : WriteResult → Request
  receives : List ℕ → Request

abbrev pub messages : List Request → List ℕ
messages [] = []
messages (sends bytes result ∷ rs) = bytes ++ messages rs
messages (writable result ∷ rs) = messages rs
messages (receives bytes ∷ rs) = messages rs

abbrev pub received : List Request → List ℕ
received [] = []
received (sends bytes result ∷ rs) = received rs
received (writable result ∷ rs) = received rs
received (receives bytes ∷ rs) = bytes ++ received rs

-- No error tells that the peer is gone.
abbrev pub IsCalm : WriteResult → Type 0
IsCalm (wrote n) = Unit
IsCalm (write_failed err) = is_fault err ≡ false

-- The same of all, and a read delivers at least one byte, and no more than `extrabuff` holds.
abbrev pub AreCalm : List Request → Type 0
AreCalm [] = Unit
AreCalm (sends bytes result ∷ rs) = IsCalm result × AreCalm rs
AreCalm (writable result ∷ rs) = IsCalm result × AreCalm rs
AreCalm (receives bytes ∷ rs) = (bytes ≢ []) × (length bytes ≤ extra_size) × AreCalm rs

pub offered-Accepts :
    (result : WriteResult) (len : ℕ) → IsCalm result → Accepts (offered result len) len
offered-Accepts (wrote n) len calm = omega arith
offered-Accepts (write_failed err) len calm = calm

module _ (e : Epoll) where
  unfoldable pub serve_one : Request → Connection e → Option (Connection e)
  serve_one (sends bytes result) c = send_in_loop e c bytes (offered result (length bytes))
  serve_one (writable result) c = handle_write e c (offered result (readable_bytes c.output))
  serve_one (receives bytes) c = handle_read e c (delivered bytes) 0

  unfoldable pub serve : List Request → Connection e → Option (Connection e)
  serve [] c = some c
  serve (r ∷ rs) c = do c' ← serve_one r c; serve rs c'

  -- What requests leave: these bytes were handed to the connection, and these were read.
  pub record Served (c : Connection e) (sent got : List ℕ) (c' : Connection e) : Type 0 where
    pub inv : Inv e c'
    pub streamed : stream e c' ≡ stream e c ++ sent
    pub extended : contents c'.input ≡ contents c.input ++ got
    pub state_kept : c'.state ≡ c.state
    pub callbacks_kept : c'.callbacks ≡ c.callbacks
    pub growth : length c'.output.buffer ≤ length c.output.buffer + length sent
    pub input_growth : length c'.input.buffer ≤ length c.input.buffer + length got
    pub beside : Beside e c c'

  Served-of_Sent : (c d : Connection e) (bytes : List ℕ) → Sent e c bytes d → Served c bytes [] d
  Served-of_Sent c d bytes s = record {
    inv = s.inv;
    streamed = s.streamed;
    extended = ap contents s.input_kept ∙ sym (append-nil (contents c.input));
    state_kept = s.state_kept;
    callbacks_kept = s.callbacks_kept;
    growth = s.growth;
    input_growth = omega (arith, ap (λ b. length b.buffer) s.input_kept);
    beside = s.beside;
  }

  Served-of_Reading :
      (c d : Connection e) (bytes : List ℕ) → Reading e c bytes d → Served c [] bytes d
  unfolding stream written_bytes
  Served-of_Reading c d bytes r = record {
    inv = r.inv;
    streamed =
        ap (λ x. written_bytes x ++ contents d.output) r.effects_added
        ∙ ap (◌++ contents d.output) (message_silent c.effects)
        ∙ ap (λ b. written_bytes c.effects ++ contents b) r.output_kept
        ∙ sym (append-nil (stream e c));
    extended = r.received;
    state_kept = r.state_kept;
    callbacks_kept = r.callbacks_kept;
    growth = omega (arith, ap (λ b. length b.buffer) r.output_kept);
    input_growth = r.growth;
    beside = r.beside;
  }
    where
      message_silent :
          (xs : List Effect) → written_bytes (xs ++ (message_callback ∷ [])) ≡ written_bytes xs
      message_silent xs =
          written_bytes-append xs (message_callback ∷ []) ∙ append-nil (written_bytes xs)

  Served-trans :
      (b c d : Connection e) (xs ys us vs : List ℕ)
      → Served b xs us c
      → Served c ys vs d
      → Served b (xs ++ ys) (us ++ vs) d
  Served-trans b c d xs ys us vs s t = record {
    inv = t.inv;
    streamed = t.streamed ∙ ap (◌++ ys) s.streamed ∙ append_assoc (stream e b) xs ys;
    extended = t.extended ∙ ap (◌++ vs) s.extended ∙ append_assoc (contents b.input) us vs;
    state_kept = t.state_kept ∙ s.state_kept;
    callbacks_kept = t.callbacks_kept ∙ s.callbacks_kept;
    growth = omega (arith, s.growth, t.growth, length-append xs ys);
    input_growth = omega (arith, s.input_growth, t.input_growth, length-append us vs);
    beside = Beside-trans e b c d s.beside t.beside;
  }

  -- One request under the conditions of all.
  serve_one-Served :
      (r : Request) (c : Connection e)
      → Inv e c
      → c.state ≢ disconnected
      → c.callbacks.message ≡ true
      → AreCalm (r ∷ [])
      → length c.output.buffer + length (messages (r ∷ [])) < 2 ^ 31
      → length c.input.buffer + extra_size ≤ vector_max
      → (c' : Connection e) × (serve_one r c ≡ some c')
        × Served c (messages (r ∷ [])) (received (r ∷ [])) c'
  unfolding serve_one
  serve_one-Served (sends bytes result) c v up told (calm, _) small space =
      let total = length-append bytes [] in
      let (d, run, s) =
        send_in_loop-Sent e c bytes (offered result (length bytes)) v up
          (offered-Accepts result (length bytes) calm)
          (omega (arith, total, small), omega (arith, total, small)) in
      (
        d,
        run,
        subst (λ sent. Served c sent [] d) (sym (append-nil bytes)) (Served-of_Sent c d bytes s),
      )
  serve_one-Served (writable result) c v up told (calm, _) small space =
      let (d, run, s) =
        handle_write-Sent e c (offered result (readable_bytes c.output)) v
          (offered-Accepts result (readable_bytes c.output) calm) in
      (d, run, Served-of_Sent c d [] s)
  serve_one-Served (receives bytes) c v up told (more, fits, _) small space =
      let (d, run, r) =
        handle_read-Reading e c bytes 0 v more space
          (omega (arith, fits, read_room-ge c.input v.input_valid)) in
      (
        d,
        run ∙ rw told refl,
        subst (λ got. Served c [] got d) (sym (append-nil bytes)) (Served-of_Reading c d bytes r),
      )

  Served-none : (c : Connection e) → Inv e c → Served c [] [] c
  Served-none c v = Served-of_Sent c c [] (Sent_none e c v)

  -- The requests as the first and the rest.
  messages_cons :
      (r : Request) (rs : List Request) → messages (r ∷ rs) ≡ messages (r ∷ []) ++ messages rs
  messages_cons (sends bytes result) rs = ap (◌++ messages rs) (sym (append-nil bytes))
  messages_cons (writable result) rs = refl
  messages_cons (receives bytes) rs = refl

  received_cons :
      (r : Request) (rs : List Request) → received (r ∷ rs) ≡ received (r ∷ []) ++ received rs
  received_cons (sends bytes result) rs = refl
  received_cons (writable result) rs = refl
  received_cons (receives bytes) rs = ap (◌++ received rs) (sym (append-nil bytes))

  AreCalm-cons :
      (r : Request) (rs : List Request) → AreCalm (r ∷ rs) → AreCalm (r ∷ []) × AreCalm rs
  AreCalm-cons (sends bytes result) rs (calm, calms) = ((calm, tt), calms)
  AreCalm-cons (writable result) rs (calm, calms) = ((calm, tt), calms)
  AreCalm-cons (receives bytes) rs (more, fits, calms) = ((more, fits, tt), calms)

  -- Any requests to a well-formed connection that is not down and has a message callback, whose
  -- messages and output together stay below 2 ^ 31 bytes, and whose input can grow by what is read,
  -- are served without a fault, however little `write` takes and whatever errors it gives that do
  -- not tell that the peer is gone: what the socket took followed by what waits grows by exactly the
  -- messages, in order, the input by exactly what was read, and other descriptors are registered as
  -- before.
  pub serve-Served :
      (rs : List Request) (c : Connection e)
      → Inv e c
      → c.state ≢ disconnected
      → c.callbacks.message ≡ true
      → AreCalm rs
      → length c.output.buffer + length (messages rs) < 2 ^ 31
      → length c.input.buffer + length (received rs) + extra_size ≤ vector_max
      → (c' : Connection e) × (serve rs c ≡ some c') × Served c (messages rs) (received rs) c'
  unfolding serve
  serve-Served [] c v up told calm small space = (c, refl, Served-none c v)
  serve-Served (r ∷ rs) c v up told calm small space =
      let (first, rest) = AreCalm-cons r rs calm in
      let sent = ap length (messages_cons r rs) in
      let got = ap length (received_cons r rs) in
      let sents = length-append (messages (r ∷ [])) (messages rs) in
      let gots = length-append (received (r ∷ [])) (received rs) in
      let (d, run, s) =
        serve_one-Served r c v up told first (omega (arith, small, sent, sents))
          (omega (arith, space)) in
      let (c', runs, t) =
        serve-Served rs d s.inv (λ down. up (sym s.state_kept ∙ down))
          (ap (λ cb. cb.message) s.callbacks_kept ∙ told) rest
          (omega (arith, small, sent, sents, s.growth))
          (omega (arith, space, got, gots, s.input_growth)) in
      (
        c',
        rw run runs,
        subst (λ sent. Served c sent (received (r ∷ rs)) c') (sym (messages_cons r rs))
            (subst (λ got. Served c (messages (r ∷ []) ++ messages rs) got c')
              (sym (received_cons r rs))
              (Served-trans c d c' (messages (r ∷ [])) (messages rs) (received (r ∷ []))
                (received rs) s t)),
      )
