-- ===== src/Net/TcpConnection/Invariant.antt =====
-- src/net/TcpConnection.cpp: what holds of a connection between two calls.
use tiny_network.Prelude.{
  ℕ, ◌≡◌, ◌≢◌, refl, sym, ◌∙◌, ap, Bool, true, false, not, List, [], ◌∷◌, ◌++◌, Option, some, arith,
  ◌==◌, length, append_assoc, subst,
}
use tiny_network.Net.Buffer.{Buffer, IsValid, contents, readable_bytes}
use tiny_network.Net.Buffer.Contents.{areas_partition}
use tiny_network.Net.Channel.{Channel, Index, set_index, is_writing}
use tiny_network.Net.Channel.Interest.{IsInterest}
use tiny_network.Net.Poller.{Poller}
use tiny_network.Net.Poller.Kernel.{Epoll}
use tiny_network.Net.Poller.Synced.{Synced, Registers, Apart, Apart-refl, Apart-trans}
use tiny_network.Net.TcpConnection.{
  Connection, disconnected, Effect, socket_write, emit, on_channel,
}

abbrev pub has_bytes : List ℕ → Bool
has_bytes [] = false
has_bytes (x ∷ xs) = true

pub has_bytes-append : (xs ys : List ℕ) → ys ≢ [] → has_bytes (xs ++ ys) ≡ true
has_bytes-append [] [] h = absurd (h refl)
has_bytes-append [] (y ∷ ys) h = refl
has_bytes-append (x ∷ xs) ys h = refl

-- The bytes that the socket took, in order.
unfoldable pub written_bytes : List Effect → List ℕ
written_bytes [] = []
written_bytes (socket_write bytes ∷ xs) = bytes ++ written_bytes xs
written_bytes (x ∷ xs) = written_bytes xs

pub written_bytes-append :
    (xs ys : List Effect) → written_bytes (xs ++ ys) ≡ written_bytes xs ++ written_bytes ys
unfolding written_bytes
written_bytes-append [] ys = refl
written_bytes-append (socket_write bytes ∷ xs) ys =
    ap (◌++◌ bytes) (written_bytes-append xs ys)
    ∙ sym (append_assoc bytes (written_bytes xs) (written_bytes ys))
written_bytes-append (_ ∷ xs) ys = written_bytes-append xs ys

module _ (e : Epoll) where
  pub record Inv (c : Connection e) : Type 0 where
    pub input_valid : IsValid c.input
    pub output_valid : IsValid c.output
    pub interest : IsInterest c.channel.events
    pub synced : Synced e c.channel c.poller
    pub waiting : c.state ≢ disconnected → is_writing c.channel ≡ has_bytes (contents c.output)

  -- Everything handed to the connection: what the socket took, and what still waits.
  unfoldable pub stream : Connection e → List ℕ
  stream c = written_bytes c.effects ++ contents c.output

  -- The call was about the descriptor of the connection alone.
  pub record Beside (c c' : Connection e) : Type 0 where
    pub same_fd : c'.channel.fd ≡ c.channel.fd
    pub apart : Apart e c.channel.fd c.poller c'.poller

  pub Beside-refl : (c : Connection e) → Beside c c
  Beside-refl c = record { same_fd = refl; apart = Apart-refl e c.channel.fd c.poller }

  pub Beside-trans : (b c d : Connection e) → Beside b c → Beside c d → Beside b d
  Beside-trans b c d s t = record {
    same_fd = t.same_fd ∙ s.same_fd;
    apart =
        Apart-trans e b.channel.fd b.poller c.poller d.poller s.apart
          (subst (λ fd. Apart e fd c.poller d.poller) s.same_fd t.apart);
  }

  pub emit-Inv : (x : Effect) (c : Connection e) → Inv c → Inv (emit e x c)
  unfolding emit
  emit-Inv x c v = record {
    input_valid = v.input_valid;
    output_valid = v.output_valid;
    interest = v.interest;
    synced = v.synced;
    waiting = v.waiting;
  }

  -- Whether output waits is what the code reads off the buffer.
  pub readable_bytes-zero :
      (b : Buffer) → IsValid b → (readable_bytes b == 0) ≡ not (has_bytes (contents b))
  readable_bytes-zero b v = go (contents b) (areas_partition b v).1
    where
      go :
          (xs : List ℕ)
          → readable_bytes b ≡ length xs
          → (readable_bytes b == 0) ≡ not (has_bytes xs)
      go [] h = ground arith
      go (x ∷ xs) h = ground arith

  -- A member of the channel that registers `d` leaves the rest of the connection alone.
  pub on_channel_run :
      (f : Channel → Poller e → Option (Channel × Poller e)) (d : Channel) (c : Connection e)
      → Registers e d c.poller (f c.channel c.poller)
      → (i : Index) × (p : Poller e) × (on_channel e f c
          ≡ some (record c { channel = set_index d i; poller = p }))
        × Synced e (set_index d i) p
        × Apart e d.fd c.poller p
  unfolding on_channel
  on_channel_run f d c (i, p, run, s, a) = (i, p, rw run refl, s, a)
