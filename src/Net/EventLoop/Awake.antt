-- ===== src/Net/EventLoop/Awake.antt =====
-- src/net/EventLoop.cpp: the invariant of a loop that is woken for what is queued.
use tiny_network.Prelude.{
  ℕ, ◌<◌, ◌≡◌, refl, sym, ◌∙◌, ap, Bool, true, false, List, [], ◌∷◌, ◌++◌, append-nil, append_assoc,
  if◌then◌else◌, ◌⊎◌, inl, inr, arith, Bool-cases,
}
use tiny_network.Net.EventLoop.Kernel.{EventFd}
use tiny_network.Net.EventLoop.{
  Active, wakeup_channel, other_channel, Phase, idle, checking, polling, handling, calling, running,
  Loop, push, notify, wakeup, handle_read, quits, loop_step, start_calling, swap_pending,
  run_functors, handle_active,
}
use tiny_network.Net.EventLoop.Run.{in_callback}

-- The functions taken from the queue and not run yet.
unfoldable pub left : {F : Type 0} → Phase F → List F
left (running fs) = fs
left _ = []

unfoldable pub is_calling : {F : Type 0} → Phase F → Bool
is_calling calling = true
is_calling (running fs) = true
is_calling _ = false

module _ (e : EventFd) (F : Type 0) where
  open e use {readable, write_one, write_readable}

  -- Something will wake the loop: the descriptor is readable, or a thread is about to write it.
  abbrev Noticed : Loop e F → Type 0
  Noticed s = (readable s.wakeup_fd ≡ true) ⊎ (0 < s.unwoken) ⊎ (s.mid_queue ≡ true)

  -- In front of its swap the loop needs no wakeup.
  abbrev Awake : Phase F → Loop e F → Type 0
  Awake (handling cs) s = Unit
  Awake calling s = Unit
  Awake _ s = (s.pending ≡ []) ⊎ Noticed s

  pub record InvAt (ph : Phase F) (s : Loop e F) : Type 0 where
    pub awake : Awake ph s
    pub ordered : s.queued ≡ s.executed ++ (left ph ++ s.pending)
    pub flagged : s.calling_pending ≡ is_calling ph
    pub held : (in_callback ph ≡ true) ⊎ (s.mid_queue ≡ false)

  abbrev pub Inv : Loop e F → Type 0
  Inv s = InvAt s.phase s

  ordered_push :
      (q x p l : List F) (f : F) → q ≡ x ++ (l ++ p) → q ++ (f ∷ []) ≡ x ++ (l ++ (p ++ (f ∷ [])))
  ordered_push q x p l f h =
      rw (h, append_assoc x (l ++ p) (f ∷ []), append_assoc l p (f ∷ [])) refl

  pub loop_step-Inv :
      (ph : Phase F) (active : List Active) (s : Loop e F)
      → InvAt ph s
      → s.mid_queue ≡ false
      → Inv (loop_step e F ph active s)
  unfolding loop_step handle_active start_calling swap_pending run_functors handle_read in_callback
      is_calling left
  loop_step-Inv idle active s v m = record {
    awake = v.awake;
    ordered = v.ordered;
    flagged = v.flagged;
    held = inr m;
  }
  loop_step-Inv checking active s v m = elim (Bool-cases s.quit) [
    | inl q ↦
        rw q (record { awake = v.awake; ordered = v.ordered; flagged = v.flagged; held = inr m })
    | inr q ↦
        rw q (record { awake = v.awake; ordered = v.ordered; flagged = v.flagged; held = inr m })
  ]
  loop_step-Inv polling active s v m = record {
    awake = tt;
    ordered = v.ordered;
    flagged = v.flagged;
    held = inr m;
  }
  loop_step-Inv (handling []) active s v m = record {
    awake = tt;
    ordered = v.ordered;
    flagged = refl;
    held = inr m;
  }
  loop_step-Inv (handling (wakeup_channel ∷ cs)) active s v m = record {
    awake = tt;
    ordered = v.ordered;
    flagged = v.flagged;
    held = inr m;
  }
  loop_step-Inv (handling (other_channel ∷ cs)) active s v m = record {
    awake = tt;
    ordered = v.ordered;
    flagged = v.flagged;
    held = inr m;
  }
  loop_step-Inv calling active s v m = record {
    awake = inl refl;
    ordered = v.ordered ∙ ap (◌++◌ s.executed) (sym (append-nil s.pending));
    flagged = v.flagged;
    held = inr m;
  }
  loop_step-Inv (running []) active s v m = record {
    awake = v.awake;
    ordered = v.ordered;
    flagged = refl;
    held = inr m;
  }
  loop_step-Inv (running (f ∷ fs)) active s v m = record {
    awake = v.awake;
    ordered = v.ordered ∙ sym (append_assoc s.executed (f ∷ []) (fs ++ s.pending));
    flagged = v.flagged;
    held = inr m;
  }

  push-Awake :
      (ph : Phase F) (f : F) (s : Loop e F) (u : ℕ) (m : Bool)
      → Awake ph s
      → (0 < u) ⊎ (m ≡ true)
      → Awake ph (record (push e F f s) { unwoken = u; mid_queue = m })
  unfolding push
  push-Awake idle f s u m a noticed = inr (inr noticed)
  push-Awake checking f s u m a noticed = inr (inr noticed)
  push-Awake polling f s u m a noticed = inr (inr noticed)
  push-Awake (handling cs) f s u m a noticed = tt
  push-Awake calling f s u m a noticed = tt
  push-Awake (running fs) f s u m a noticed = inr (inr noticed)

  -- After a write of the descriptor the loop will be woken in every phase.
  wakeup-Awake : (ph : Phase F) (s : Loop e F) → readable s.wakeup_fd ≡ true → Awake ph s
  wakeup-Awake idle s r = inr (inl r)
  wakeup-Awake checking s r = inr (inl r)
  wakeup-Awake polling s r = inr (inl r)
  wakeup-Awake (handling cs) s r = tt
  wakeup-Awake calling s r = tt
  wakeup-Awake (running fs) s r = inr (inl r)

  pub push-InvAt :
      (ph : Phase F) (f : F) (s : Loop e F) (u : ℕ) (m : Bool)
      → InvAt ph s
      → (0 < u) ⊎ (m ≡ true)
      → (in_callback ph ≡ true) ⊎ (m ≡ false)
      → InvAt ph (record (push e F f s) { unwoken = u; mid_queue = m })
  unfolding push
  push-InvAt ph f s u m v noticed held = record {
    awake = push-Awake ph f s u m v.awake noticed;
    ordered = ordered_push s.queued s.executed s.pending (left ph) f v.ordered;
    flagged = v.flagged;
    held = held;
  }

  pub wakeup-InvAt :
      (ph : Phase F) (s : Loop e F) (u : ℕ) (m q : Bool)
      → InvAt ph s
      → (in_callback ph ≡ true) ⊎ (m ≡ false)
      → InvAt ph (record (wakeup e F s) { unwoken = u; mid_queue = m; quit = q })
  unfolding wakeup
  wakeup-InvAt ph s u m q v held = record {
    awake = wakeup-Awake ph _ (write_readable s.wakeup_fd);
    ordered = v.ordered;
    flagged = v.flagged;
    held = held;
  }

  -- In its own thread the loop need not be woken while it handles events: the swap is yet to come.
  unwoken-InvAt :
      (ph : Phase F) (s : Loop e F)
      → InvAt ph s
      → s.mid_queue ≡ true
      → s.calling_pending ≡ false
      → InvAt ph (record s { mid_queue = false })
  unfolding in_callback is_calling
  unwoken-InvAt (handling (c ∷ cs)) s v m calm = record {
    awake = tt;
    ordered = v.ordered;
    flagged = v.flagged;
    held = inr refl;
  }
  unwoken-InvAt (running (f ∷ fs)) s v m calm = absurd (ground (arith, v.flagged))
  unwoken-InvAt idle s v m calm = absurd (ground (arith, v.held))
  unwoken-InvAt checking s v m calm = absurd (ground (arith, v.held))
  unwoken-InvAt polling s v m calm = absurd (ground (arith, v.held))
  unwoken-InvAt (handling []) s v m calm = absurd (ground (arith, v.held))
  unwoken-InvAt calling s v m calm = absurd (ground (arith, v.held))
  unwoken-InvAt (running []) s v m calm = absurd (ground (arith, v.held))

  notify_cases :
      (P : Loop e F → Type 0) (s : Loop e F)
      → (s.calling_pending ≡ true → P (wakeup e F s))
      → (s.calling_pending ≡ false → P s)
      → P (notify e F true s)
  unfolding notify
  notify_cases P s woken calm = go s.calling_pending refl
    where
      go : (b : Bool) → s.calling_pending ≡ b → P (if b then wakeup e F s else s)
      go true h = woken h
      go false h = calm h

  pub own_notify-Inv :
      (s : Loop e F)
      → Inv s
      → s.mid_queue ≡ true
      → Inv (record (notify e F true s) { mid_queue = false })
  unfolding wakeup
  own_notify-Inv s v m =
      notify_cases (λ t. Inv (record t { mid_queue = false })) s
        (λ _. wakeup-InvAt s.phase s s.unwoken false s.quit v (inr refl))
        (λ calm. unwoken-InvAt s.phase s v m calm)

  pub quits-InvAt :
      (ph : Phase F) (in_loop : Bool) (s : Loop e F) → InvAt ph s → InvAt ph (quits e F in_loop s)
  unfolding quits wakeup
  quits-InvAt ph true s v = wakeup-InvAt ph s s.unwoken s.mid_queue true v v.held
  quits-InvAt ph false s v = unmoved ph v
    where
      unmoved : (ph : Phase F) → InvAt ph s → InvAt ph (record s { quit = true })
      unmoved idle w = record {
        awake = w.awake;
        ordered = w.ordered;
        flagged = w.flagged;
        held = w.held;
      }
      unmoved checking w = record {
        awake = w.awake;
        ordered = w.ordered;
        flagged = w.flagged;
        held = w.held;
      }
      unmoved polling w = record {
        awake = w.awake;
        ordered = w.ordered;
        flagged = w.flagged;
        held = w.held;
      }
      unmoved (handling cs) w = record {
        awake = tt;
        ordered = w.ordered;
        flagged = w.flagged;
        held = w.held;
      }
      unmoved calling w = record {
        awake = tt;
        ordered = w.ordered;
        flagged = w.flagged;
        held = w.held;
      }
      unmoved (running fs) w = record {
        awake = w.awake;
        ordered = w.ordered;
        flagged = w.flagged;
        held = w.held;
      }
