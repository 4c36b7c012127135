-- ===== src/Net/EventLoop/Wakeup.antt =====
-- src/net/EventLoop.cpp: no function that is queued waits for a poll that nothing ends.
use tiny_network.Prelude.{
  ℕ, zero, suc, ◌<◌, ◌≡◌, ◌≢◌, refl, subst, true, false, not, ◌&&◌, [], ◌++◌, Option, none, some,
  ◌⊎◌, inl, inr, arith, Bool-cases,
}
use tiny_network.Net.EventLoop.Kernel.{EventFd}
use tiny_network.Net.EventLoop.{polling, Loop, create, push, notify, wakeup, quits}
use tiny_network.Net.EventLoop.Run.{
  in_callback, Action, steps, own_queues, own_notifies, other_queues, other_notifies, quitting, act,
  Reaches, here, next,
}
use tiny_network.Net.EventLoop.Awake.{
  Inv, InvAt, is_calling, left, loop_step-Inv, own_notify-Inv, push-InvAt, quits-InvAt,
  wakeup-InvAt,
}

module _ (e : EventFd) (F : Type 0) where
  open e use {readable, write_one, write_readable}

  -- What an action leaves, if it was possible.
  abbrev Keeps : Option (Loop e F) → Type 0
  Keeps none = Unit
  Keeps (some s) = Inv e F s

  own_queues-Keeps : (f : F) (s : Loop e F) → Inv e F s → Keeps (act e F (own_queues f) s)
  unfolding act push
  own_queues-Keeps f s v = elim (Bool-cases (in_callback s.phase && not s.mid_queue)) [
    | inl may ↦
        let inside : in_callback s.phase ≡ true = ground arith in
        rw may (push-InvAt e F s.phase f s s.unwoken true v (inr refl) (inl inside))
    | inr may_not ↦ rw may_not tt
  ]

  other_notifies-Keeps : (s : Loop e F) → Inv e F s → Keeps (act e F other_notifies s)
  unfolding act notify wakeup
  other_notifies-Keeps s v = go s.unwoken
    where
      go :
          (n : ℕ)
          → Keeps
              (elim n [ zero ↦ none | suc k ↦ some (record (notify e F false s) { unwoken = k }) ])
      go zero = tt
      go (suc k) = wakeup-InvAt e F s.phase s k s.mid_queue s.quit v v.held

  own_notifies-Keeps : (s : Loop e F) → Inv e F s → Keeps (act e F own_notifies s)
  unfolding act
  own_notifies-Keeps s v = elim (Bool-cases s.mid_queue) [
    | inl busy ↦ simp busy (own_notify-Inv e F s v busy)
    | inr free ↦ rw free tt
  ]

  act-Keeps : (a : Action F) (s : Loop e F) → Inv e F s → Keeps (act e F a s)
  unfolding act push quits wakeup
  act-Keeps (steps active) s v = elim (Bool-cases s.mid_queue) [
    | inl busy ↦ rw busy tt
    | inr free ↦ simp free (loop_step-Inv e F s.phase active s v free)
  ]
  act-Keeps (own_queues f) s v = own_queues-Keeps f s v
  act-Keeps own_notifies s v = own_notifies-Keeps s v
  act-Keeps (other_queues f) s v =
      push-InvAt e F s.phase f s (suc s.unwoken) s.mid_queue v (inl (omega arith)) v.held
  act-Keeps other_notifies s v = other_notifies-Keeps s v
  act-Keeps (quitting true) s v = quits-InvAt e F s.phase true s v
  act-Keeps (quitting false) s v = quits-InvAt e F s.phase false s v

  kept : (o : Option (Loop e F)) (u : Loop e F) → Keeps o → o ≡ some u → Inv e F u
  kept o u k h = subst Keeps h k

  create-Inv : (s : e.State) → Inv e F (create e F s)
  unfolding create is_calling left in_callback
  create-Inv s = record { awake = inl refl; ordered = refl; flagged = refl; held = inr refl }

  reached-Inv : (s t : Loop e F) → Inv e F s → Reaches e F s t → Inv e F t
  reached-Inv s t v here = v
  reached-Inv s u v (next {t} a r step) = kept _ u (act-Keeps a t (reached-Inv s t v r)) step

  awake_in_poll :
      (s : Loop e F)
      → InvAt e F polling s
      → s.pending ≢ []
      → (readable s.wakeup_fd ≡ true) ⊎ (0 < s.unwoken)
  unfolding in_callback
  awake_in_poll s v some_left = ground (arith, v.held, v.awake)

  -- In every state that a new loop reaches, whatever other threads, handlers and functors do and
  -- in whatever order: while the loop is in `poll` with functions queued, its wakeup descriptor
  -- is readable, or another thread is in `queueInLoop` right in front of writing it. What was
  -- queued is what ran, in the order of queueing, followed by the functors that are left to run
  -- and those in the queue; and the thread of the loop is within `queueInLoop` only in a handler
  -- or a functor.
  pub Reaches-Awake :
      (fd : e.State) (s : Loop e F)
      → Reaches e F (create e F fd) s
      → (s.phase ≡ polling → s.pending ≢ [] → (readable s.wakeup_fd ≡ true) ⊎ (0 < s.unwoken))
        × (s.queued ≡ s.executed ++ (left s.phase ++ s.pending))
        × (s.mid_queue ≡ true → in_callback s.phase ≡ true)
  Reaches-Awake fd s r =
      let v = reached-Inv (create e F fd) s (create-Inv fd) r in
      (
        λ p some_left. awake_in_poll s (subst (λ ph. InvAt e F ph s) p v) some_left,
        v.ordered,
        λ m. ground (arith, v.held),
      )
