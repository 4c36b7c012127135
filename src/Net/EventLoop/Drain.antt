-- ===== src/Net/EventLoop/Drain.antt =====
-- src/net/EventLoop.cpp: one round of `loop()` by itself, from the handlers to the condition.
use tiny_network.Prelude.{
  ℕ, zero, suc, ◌+◌, ◌≡◌, refl, sym, ◌∙◌, true, false, List, [], ◌∷◌, ◌++◌, append-nil,
  append_assoc, length, arith, subst,
}
use tiny_network.Net.EventLoop.Kernel.{EventFd}
use tiny_network.Net.EventLoop.{
  Active, wakeup_channel, other_channel, checking, handling, running, Loop, loop_step,
  start_calling, swap_pending, run_functors, handle_active, handle_read,
}

module _ (e : EventFd) (F : Type 0) where
  -- Steps of the thread of the loop, with no action of another and no call from a handler.
  pub own_steps : ℕ → Loop e F → Loop e F
  own_steps zero s = s
  own_steps (suc n) s = own_steps n (loop_step e F s.phase [] s)

  -- The loop is back at its condition, having run these functions, with this queue.
  pub record Round (ran queue : List F) (s : Loop e F) : Type 0 where
    pub back : s.phase ≡ checking
    pub ended : s.calling_pending ≡ false
    pub ran_all : s.executed ≡ ran
    pub rest : s.pending ≡ queue

  run_functors-Round :
      (fs : List F) (s : Loop e F)
      → Round
          (s.executed ++ fs)
          s.pending
          (own_steps (suc (length fs)) (record s { phase = running fs }))
  unfolding own_steps loop_step run_functors
  run_functors-Round [] s = record {
    back = refl;
    ended = refl;
    ran_all = sym (append-nil s.executed);
    rest = refl;
  }
  run_functors-Round (f ∷ fs) s =
      let r = run_functors-Round fs (record s { executed = s.executed ++ (f ∷ []) }) in
      record {
        back = r.back;
        ended = r.ended;
        ran_all = r.ran_all ∙ append_assoc s.executed (f ∷ []) fs;
        rest = r.rest;
      }

  -- One step for each active channel, three for the flag, the swap and the end, and the functors'.
  round_steps : List Active → ℕ → ℕ
  round_steps [] n = suc (suc (suc n))
  round_steps (c ∷ cs) n = suc (round_steps cs n)

  round_steps_lem : (cs : List Active) (n : ℕ) → round_steps cs n ≡ length cs + (3 + n)
  unfolding round_steps
  round_steps_lem [] n = omega arith
  round_steps_lem (c ∷ cs) n = omega (arith, round_steps_lem cs n)

  handle_active-Round :
      (cs : List Active) (s : Loop e F)
      → Round
          (s.executed ++ s.pending)
          []
          (own_steps (round_steps cs (length s.pending)) (record s { phase = handling cs }))
  unfolding own_steps loop_step handle_active start_calling swap_pending handle_read round_steps
  handle_active-Round [] s =
      run_functors-Round s.pending (record s { calling_pending = true; pending = [] })
  handle_active-Round (wakeup_channel ∷ cs) s = handle_active-Round cs (handle_read e F s)
  handle_active-Round (other_channel ∷ cs) s = handle_active-Round cs s

  -- From the handlers on, and with nothing queued meanwhile, one step for each active channel,
  -- three for the flag, the swap and the end, and one for each queued function bring the loop
  -- back to its condition, with exactly the queued functions run, in order, and an empty queue.
  pub loop_step-Round :
      (cs : List Active) (s : Loop e F)
      → s.phase ≡ handling cs
      → Round (s.executed ++ s.pending) [] (own_steps (length cs + (3 + length s.pending)) s)
  loop_step-Round cs s h =
      subst (λ n. Round (s.executed ++ s.pending) [] (own_steps n s))
        (round_steps_lem cs (length s.pending))
        (subst
          (λ ph.
            Round (s.executed ++ s.pending) []
              (own_steps (round_steps cs (length s.pending)) (record s { phase = ph })))
          (sym h) (handle_active-Round cs s))
