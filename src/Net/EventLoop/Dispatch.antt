-- ===== src/Net/EventLoop/Dispatch.antt =====
-- src/net/EventLoop.cpp with src/net/poller/EpollPoller.cpp and src/net/Channel.cpp: from the events of
-- the kernel to the callbacks. Events carry the address of a channel; it is looked up by its handle
-- among the channels that exist, and `none` is an address of no channel. The callbacks that are called
-- here change no channel.
use tiny_network.Prelude.{
  ℕ, suc, ◌≤◌, ◌<◌, ◌^◌, ◌≡◌, ◌≢◌, refl, sym, ◌∙◌, ap, subst, Bool, List, [], ◌∷◌, ◌++◌, Option,
  none, some, ◌>>=◌, ◌==◌, if◌then◌else◌, map, length, Bool-cases, inl, inr, ==_refl, ==_iff, ne→==,
  arith,
}
use mathlib.Core.List.{Memᴰ}
use mathlib.Core.List.Memᴰ
use mathlib.Core.Option.{some-injective, none-ne-some}
use tiny_network.Net.Channel.{Channel, Callback, added, set_revents, handle_event}
use tiny_network.Net.Poller.Kernel.{Epoll}
use tiny_network.Net.Poller.{Poller, poll, ready, mark, mark_all, handle_at}
use tiny_network.Net.Poller.Poll.{poll_ready}
use tiny_network.Net.Poller.Synced.{Synced, Exact}
use tiny_network.Net.Poller.Sharing.{AreSynced, AreDistinct, IsOther}

abbrev pub handle_of : Channel → ℕ
handle_of c = c.handle

-- The channel at this address.
unfoldable pub find : ℕ → List Channel → Option Channel
find handle [] = none
find handle (c ∷ cs) = let rest = find handle cs in if c.handle == handle then some c else rest

-- The loop over the active channels: the calls of callbacks, each with its channel. `alive` tells
-- whether the owner of a channel is.
unfoldable pub dispatch : (ℕ → Bool) → List ℕ → List Channel → Option (List (ℕ × Callback))
dispatch alive [] cs = some []
dispatch alive (handle ∷ active) cs = do
  c ← find handle cs
  calls ← dispatch alive active cs
  some (map (λ call. (c.handle, call)) (handle_event c (alive c.handle)) ++ calls)

-- A channel, and the events that the kernel has for its descriptor.
abbrev pub Hit : Type 0
Hit = ℕ × Channel

abbrev pub hit_handle : Hit → ℕ
hit_handle (mask, c) = c.handle

abbrev pub hit_fd : Hit → ℕ × ℕ
hit_fd (mask, c) = (mask, c.fd)

abbrev pub event_of : Hit → ℕ × ℕ
event_of (mask, c) = (mask, c.handle)

-- Every channel handles its own events, in order.
unfoldable pub due : (ℕ → Bool) → List Hit → List (ℕ × Callback)
due alive [] = []
due alive ((mask, c) ∷ hits) =
    map (λ call. (c.handle, call)) (handle_event (record c { revents = mask }) (alive c.handle))
    ++ due alive hits

-- All are channels that exist and are registered.
abbrev pub AreHits : List Channel → List Hit → Type 0
AreHits cs [] = Unit
AreHits cs ((mask, c) ∷ hits) = Memᴰ c cs × (c.index ≡ added) × AreHits cs hits

-- These channels are found at their addresses.
abbrev AreFound : List Hit → List Channel → Type 0
AreFound [] cs = Unit
AreFound ((mask, c) ∷ hits) cs = (find c.handle cs ≡ some c) × AreFound hits cs

IsOther-member :
    (handle : ℕ) (cs : List Channel) (c : Channel)
    → IsOther handle (map handle_of cs)
    → Memᴰ c cs
    → handle ≢ c.handle
IsOther-member handle [] c o m = absurd (Memᴰ.not-nil m)
IsOther-member handle (d ∷ cs) c (other, o) (Memᴰ.head e) = λ same. other (same ∙ ap handle_of e)
IsOther-member handle (d ∷ cs) c (other, o) (Memᴰ.tail m) = IsOther-member handle cs c o m

-- Different addresses: a channel is found at its own.
find-member :
    (cs : List Channel) (c : Channel)
    → AreDistinct (map handle_of cs)
    → Memᴰ c cs
    → find c.handle cs ≡ some c
unfolding find
find-member [] c d m = absurd (Memᴰ.not-nil m)
find-member (x ∷ cs) c (other, d) (Memᴰ.head e) =
    subst (λ y. find y.handle (x ∷ cs) ≡ some y) (sym e) (rw (==_refl x.handle) refl)
find-member (x ∷ cs) c (other, d) (Memᴰ.tail m) =
    rw (ne→== x.handle c.handle (IsOther-member x.handle cs c other m)) (find-member cs c d m)

AreFound-hits :
    (cs : List Channel) (hits : List Hit)
    → AreDistinct (map handle_of cs)
    → AreHits cs hits
    → AreFound hits cs
AreFound-hits cs [] d a = tt
AreFound-hits cs ((mask, c) ∷ hits) d (member, is_added, a) =
    (find-member cs c d member, AreFound-hits cs hits d a)

-- `set_revents` changes the channel at the address, and no other.
find-mark_same :
    (mask handle : ℕ) (cs : List Channel) (c : Channel)
    → find handle cs ≡ some c
    → find handle (mark mask handle cs) ≡ some (set_revents c mask)
unfolding find mark set_revents
find-mark_same mask handle [] c found = absurd (none-ne-some c found)
find-mark_same mask handle (d ∷ cs) c found = elim (Bool-cases (d.handle == handle)) [
  | inl here ↦
      let same : d ≡ c =
        some-injective d c
          (subst (λ b. (if b then some d else find handle cs) ≡ some c) here found) in
      rw (here, here) (ap (λ x. some (set_revents x mask)) same)
  | inr later ↦
      rw (later, later)
        (find-mark_same mask handle cs c
          (subst (λ b. (if b then some d else find handle cs) ≡ some c) later found))
]

find-mark_other :
    (mask k handle : ℕ) (cs : List Channel)
    → k ≢ handle
    → find handle (mark mask k cs) ≡ find handle cs
unfolding find mark set_revents
find-mark_other mask k handle [] other = refl
find-mark_other mask k handle (d ∷ cs) other = elim (Bool-cases (d.handle == k)) [
  | inl here ↦
      let apart = ne→== d.handle handle (λ h. other (sym ((==_iff d.handle k).0 here) ∙ h)) in
      rw (here, apart) refl
  | inr later ↦
      rw later (
        ap (λ o. if d.handle == handle then some d else o) (find-mark_other mask k handle cs other))
]

find-mark_all :
    (handle : ℕ) (hits : List Hit) (cs : List Channel)
    → IsOther handle (map hit_handle hits)
    → find handle (mark_all (map event_of hits) cs) ≡ find handle cs
unfolding mark_all
find-mark_all handle [] cs o = refl
find-mark_all handle ((mask, c) ∷ hits) cs (other, o) =
    find-mark_all handle hits (mark mask c.handle cs) o
    ∙ find-mark_other mask c.handle handle cs (λ same. other (sym same))

AreFound-mark :
    (mask handle : ℕ) (hits : List Hit) (cs : List Channel)
    → IsOther handle (map hit_handle hits)
    → AreFound hits cs
    → AreFound hits (mark mask handle cs)
AreFound-mark mask handle [] cs o a = tt
AreFound-mark mask handle ((m, c) ∷ hits) cs (other, o) (found, a) =
    (find-mark_other mask handle c.handle cs other ∙ found, AreFound-mark mask handle hits cs o a)

-- These channels have the masks of their events.
abbrev AreMarked : List Hit → List Channel → Type 0
AreMarked [] cs = Unit
AreMarked ((mask, c) ∷ hits) cs = (find c.handle cs ≡ some (set_revents c mask)) × AreMarked hits cs

AreMarked-mark_all :
    (hits : List Hit) (cs : List Channel)
    → AreDistinct (map hit_handle hits)
    → AreFound hits cs
    → AreMarked hits (mark_all (map event_of hits) cs)
unfolding mark_all
AreMarked-mark_all [] cs d a = tt
AreMarked-mark_all ((mask, c) ∷ hits) cs (other, d) (found, a) = (
  find-mark_all c.handle hits (mark mask c.handle cs) other
      ∙ find-mark_same mask c.handle cs c found,
  AreMarked-mark_all hits (mark mask c.handle cs) d (AreFound-mark mask c.handle hits cs other a),
)

dispatch-due :
    (alive : ℕ → Bool) (hits : List Hit) (cs : List Channel)
    → AreMarked hits cs
    → dispatch alive (map handle_at (map event_of hits)) cs ≡ some (due alive hits)
unfolding dispatch due set_revents
dispatch-due alive [] cs a = refl
dispatch-due alive ((mask, c) ∷ hits) cs (found, a) = rw (found, dispatch-due alive hits cs a) refl

length-map : (hits : List Hit) → length (map event_of hits) ≡ length hits
length-map [] = refl
length-map (h ∷ hits) = ap suc (length-map hits)

module _ (e : Epoll) where
  -- `poll` and the loop over the active channels, in `loop()`.
  unfoldable pub poll_and_dispatch :
      (ℕ → Bool)
      → List Channel
      → List (ℕ × ℕ)
      → Poller e
      → Option (List (ℕ × Callback) × List Channel × Poller e)
  poll_and_dispatch alive cs events p =
      let (active, cs', p') = poll e (ready events) cs p in
      do calls ← dispatch alive active cs'; some (calls, cs', p')

  -- What `epoll_wait` reports for these masks of registered descriptors.
  unfoldable pub kernel_events : e.State → List (ℕ × ℕ) → Option (List (ℕ × ℕ))
  kernel_events s [] = some []
  kernel_events s ((mask, fd) ∷ xs) = do
    i ← e.registered s fd
    rest ← kernel_events s xs
    some ((mask, i.data_ptr) ∷ rest)

  Synced-member :
      (cs : List Channel) (c : Channel) (p : Poller e) → AreSynced e cs p → Memᴰ c cs → Synced e c p
  Synced-member [] c p s m = absurd (Memᴰ.not-nil m)
  Synced-member (d ∷ cs) c p (first, s) (Memᴰ.head same) =
      subst (λ x. Synced e x p) (sym same) first
  Synced-member (d ∷ cs) c p (first, s) (Memᴰ.tail m) = Synced-member cs c p s m

  kernel_events-hits :
      (cs : List Channel) (hits : List Hit) (p : Poller e)
      → AreSynced e cs p
      → AreHits cs hits
      → kernel_events p.epoll (map hit_fd hits) ≡ some (map event_of hits)
  unfolding kernel_events
  kernel_events-hits cs [] p s a = refl
  kernel_events-hits cs ((mask, c) ∷ hits) p s (member, is_added, a) =
      let known : Exact e added c p =
        subst (λ i. Exact e i c p) is_added (Synced-member cs c p s member) in
      rw (known.0, kernel_events-hits cs hits p s a) refl

  -- Channels at different addresses are in step with the poller, and the kernel has events for some
  -- that are registered, no channel twice and no more than fit the event list. Then it reports an
  -- event for each, with the address of its channel; and one round of `poll` and of the loop over
  -- the active channels does not fault: it calls, channel by channel in the order of the events,
  -- exactly the callbacks that the channel calls for the mask of its own event, with all
  -- `revents_` written before the first callback.
  pub poll_and_dispatch_lem :
      (alive : ℕ → Bool) (cs : List Channel) (hits : List Hit) (p : Poller e)
      → AreSynced e cs p
      → AreDistinct (map handle_of cs)
      → AreHits cs hits
      → AreDistinct (map hit_handle hits)
      → 0 < p.capacity
      → length hits ≤ p.capacity
      → p.capacity < 2 ^ 31
      → (events : List (ℕ × ℕ)) × (p' : Poller e) × (kernel_events p.epoll (map hit_fd hits)
          ≡ some events)
        × (poll_and_dispatch alive cs events p
            ≡ some (due alive hits, mark_all (map event_of hits) cs, p'))
  unfolding poll_and_dispatch
  poll_and_dispatch_lem alive cs hits p s d a once pos fits small =
      let events = map event_of hits in
      let (all, marked, grown, logged) =
        poll_ready e p events cs pos (omega (arith, length-map hits)) small in
      let done =
        dispatch-due alive hits (mark_all events cs)
          (AreMarked-mark_all hits cs once (AreFound-hits cs hits d a)) in
      (
        events,
        (poll e (ready events) cs p).2,
        kernel_events-hits cs hits p s a,
        rw (all, marked, done) refl,
      )
