-- ===== src/Net/TcpConnection/HalfClose.antt =====
-- src/net/TcpConnection.cpp: `shutdown` and the shutdown that waits for the output.
use tiny_network.Prelude.{
  ℕ, suc, ◌+◌, ◌≡◌, ◌≢◌, refl, sym, ◌∙◌, Bool, true, false, List, [], ◌∷◌, ◌++◌, Option, none, some,
  arith, ltb, ◌==◌, ◌>>=◌, Bool-cases, inl, inr, read_range, subst,
}
use tiny_network.Net.Buffer.{
  contents, readable_bytes, retrieve, peek, WriteResult, wrote, write_failed, write_fd,
}
use tiny_network.Net.Channel.{Channel, is_writing}
use tiny_network.Net.Poller
use tiny_network.Net.Poller.{Poller}
use tiny_network.Net.Poller.Kernel.{Epoll}
use tiny_network.Net.TcpConnection.{
  Connection, disconnected, connected, disconnecting, Effect, socket_write, queue_write_complete,
  log_write_failed, log_not_writing, shutdown_write, emit, emit_if, set_state, on_channel,
  output_written, handle_write, shutdown_in_loop, shutdown,
}
use tiny_network.Net.TcpConnection.Invariant.{Inv, has_bytes-append}
use tiny_network.Net.TcpConnection.Flush.{shutdown_due-false}

-- How often the write side was shut down.
unfoldable pub shutdown_writes : List Effect → ℕ
shutdown_writes [] = 0
shutdown_writes (shutdown_write ∷ xs) = suc (shutdown_writes xs)
shutdown_writes (x ∷ xs) = shutdown_writes xs

shutdown_writes-append :
    (xs ys : List Effect) → shutdown_writes (xs ++ ys) ≡ shutdown_writes xs + shutdown_writes ys
unfolding shutdown_writes
shutdown_writes-append [] ys = omega arith
shutdown_writes-append (shutdown_write ∷ xs) ys = omega (arith, shutdown_writes-append xs ys)
shutdown_writes-append (_ ∷ xs) ys = shutdown_writes-append xs ys

module _ (e : Epoll) where
  -- The write side and the state are as before.
  record Quiet (c d : Connection e) : Type 0 where
    count : shutdown_writes d.effects ≡ shutdown_writes c.effects
    state_kept : d.state ≡ c.state

  Quiet-trans : (c d f : Connection e) → Quiet c d → Quiet d f → Quiet c f
  Quiet-trans c d f p q = record {
    count = q.count ∙ p.count;
    state_kept = q.state_kept ∙ p.state_kept;
  }

  Quiet-refl : (c : Connection e) → Quiet c c
  Quiet-refl c = record { count = refl; state_kept = refl }

  emit-Quiet : (x : Effect) (c : Connection e) → shutdown_writes (x ∷ []) ≡ 0 → Quiet c (emit e x c)
  unfolding emit
  emit-Quiet x c h = record {
    count = omega (arith, shutdown_writes-append c.effects (x ∷ []));
    state_kept = refl;
  }

  emit_if-Quiet : (b : Bool) (c : Connection e) → Quiet c (emit_if e b queue_write_complete c)
  unfolding shutdown_writes
  emit_if-Quiet true c = emit-Quiet queue_write_complete c refl
  emit_if-Quiet false c = Quiet-refl c

  same_value : (f g : Connection e) → some f ≡ some g → f ≡ g
  same_value f g h = cc

  Quiet-of_some : (c f g : Connection e) → some f ≡ some g → Quiet c f → Quiet c g
  Quiet-of_some c f g h q = subst (λ x. Quiet c x) (same_value f g h) q

  bind-Quiet :
      {A : Type 0} (c d : Connection e) (m : Option A) (k : A → Option (Connection e))
      → ((a : A) → m ≡ some a → k a ≡ some d → Quiet c d)
      → (m >>= k) ≡ some d
      → Quiet c d
  bind-Quiet c d none k each h = absurd (none_is_not_some d h)
    where
      none_is_not_some : (x : Connection e) → ¬ (none ≡ some x)
      none_is_not_some x q = cc
  bind-Quiet c d (some a) k each h = each a refl h

  on_channel-Quiet :
      (f : Channel → Poller e → Option (Channel × Poller e)) (c d : Connection e)
      → on_channel e f c ≡ some d
      → Quiet c d
  unfolding on_channel
  on_channel-Quiet f c d h =
      bind-Quiet c d (f c.channel c.poller) _
        (λ r _ run.
          Quiet-of_some c (record c { channel = r.0; poller = r.1 }) d run
            (record { count = refl; state_kept = refl }))
        h

  output_written-Quiet : (c d : Connection e) (n : ℕ) → output_written e c n ≡ some d → Quiet c d
  unfolding output_written
  output_written-Quiet c d n h =
      let left = record c { output = retrieve c.output n } in
      elim (Bool-cases (readable_bytes (retrieve c.output n) == 0)) [
        | inl empty ↦
            bind-Quiet c d (on_channel e (Poller.disable_writing e) left) _
              (λ idle run ends.
                Quiet-of_some c (emit_if e idle.has_write_complete queue_write_complete idle) d
                  (rw (shutdown_due-false _) at ends)
                  (Quiet-trans c idle _
                    (Quiet-trans c left idle (record { count = refl; state_kept = refl })
                      (on_channel-Quiet (Poller.disable_writing e) left idle run))
                    (emit_if-Quiet idle.has_write_complete idle)))
              (rw empty at h)
        | inr more ↦
            Quiet-of_some c left d (rw more at h) (record { count = refl; state_kept = refl })
      ]

  handle_write-Quiet :
      (c d : Connection e) (result : WriteResult) → handle_write e c result ≡ some d → Quiet c d
  unfolding handle_write write_fd shutdown_writes
  handle_write-Quiet c d (wrote n) h = elim (Bool-cases (is_writing c.channel)) [
    | inr idle ↦
        Quiet-of_some c (emit e log_not_writing c) d (rw idle at h)
          (emit-Quiet log_not_writing c refl)
    | inl busy ↦ elim (Bool-cases (ltb 0 n)) [
      | inr nothing ↦
          Quiet-of_some c (emit e log_write_failed c) d (rw (busy, nothing) at h)
            (emit-Quiet log_write_failed c refl)
      | inl more ↦
          bind-Quiet c d (read_range (peek c.output) n) _
            (λ taken _ ends.
              Quiet-trans c (emit e (socket_write taken) c) d
                (emit-Quiet (socket_write taken) c refl)
                (output_written-Quiet (emit e (socket_write taken) c) d n ends))
            (rw (busy, more) at h)
    ]
  ]
  handle_write-Quiet c d (write_failed err) h = elim (Bool-cases (is_writing c.channel)) [
    | inr idle ↦
        Quiet-of_some c (emit e log_not_writing c) d (rw idle at h)
          (emit-Quiet log_not_writing c refl)
    | inl busy ↦
        Quiet-of_some c (emit e log_write_failed c) d (rw busy at h)
          (emit-Quiet log_write_failed c refl)
  ]

  -- Writable events handled one after the other.
  unfoldable pub run_writes : List WriteResult → Connection e → Option (Connection e)
  run_writes [] c = some c
  run_writes (r ∷ rs) c = handle_write e c r >>= run_writes rs

  run_writes-Quiet :
      (rs : List WriteResult) (c d : Connection e) → run_writes rs c ≡ some d → Quiet c d
  unfolding run_writes
  run_writes-Quiet [] c d h = Quiet-of_some c c d h (Quiet-refl c)
  run_writes-Quiet (r ∷ rs) c d h =
      bind-Quiet c d (handle_write e c r) (run_writes rs)
        (λ f run ends.
          Quiet-trans c f d (handle_write-Quiet c f r run) (run_writes-Quiet rs f d ends))
        h

  shutdown_waiting :
      (c : Connection e)
      → c.state ≡ connected
      → is_writing c.channel ≡ true
      → shutdown e c true ≡ record c { state = disconnecting }
  unfolding shutdown shutdown_in_loop set_state
  shutdown_waiting c st busy = ground arith

  -- A shutdown requested in the thread of the loop, while a well-formed connection is up and
  -- output waits, is lost: the connection goes to `disconnecting` without closing its write side,
  -- and no number of writable events that return, also one that sends the last byte, closes it
  -- later or changes the state.
  pub shutdown_lost :
      (c d : Connection e) (rs : List WriteResult)
      → Inv e c
      → c.state ≡ connected
      → contents c.output ≢ []
      → run_writes rs (shutdown e c true) ≡ some d
      → (shutdown_writes d.effects ≡ shutdown_writes c.effects) × (d.state ≡ disconnecting)
  shutdown_lost c d rs v st waiting h =
      let busy : is_writing c.channel ≡ true =
        v.waiting (λ down. up_not_down (sym st ∙ down))
        ∙ has_bytes-append [] (contents c.output) waiting in
      let q =
        run_writes-Quiet rs (record c { state = disconnecting }) d
          (rw (shutdown_waiting c st busy) at h) in
      (q.count, q.state_kept)
    where
      up_not_down : connected ≢ disconnected
      up_not_down k = cc
