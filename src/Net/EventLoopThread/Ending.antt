-- ===== src/Net/EventLoopThread/Ending.antt =====
-- src/net/EventLoopThread.cpp: a loop that ends early, and the destructor.
use tiny_network.Prelude.{
  ◌≡◌, ◌⊎◌, inl, inr, refl, subst, Bool, true, false, List, [], ◌∷◌, Option, none,
}
use tiny_network.Net.EventLoopThread.{
  Starter, checking, asleep, returned, Place, absent, initialising, publishing, looping, clearing,
  gone, EventLoopThread, create, check_loop, start_step, thread_step, Action, starts, threads, act,
  run, quits, joins, detaches, destroy,
}
use tiny_network.Net.EventLoopThread.Handshake.{is_published, Fits, create-Inv, loop_at, run-Inv}

module _ (L : Type 0) (mine : L) where
  abbrev pub is_returned : Starter L → Bool
  is_returned (returned l) = true
  is_returned _ = false

  -- The thread is behind its function, and the starter still waits.
  abbrev Lost : Option L → Starter L → Place → Type 0
  Lost loop st p = (loop ≡ none) × (p ≡ gone) × ((st ≡ checking) ⊎ (st ≡ asleep))

  run-Lost :
      (xs : List (Action L mine)) (s : EventLoopThread L mine)
      → Lost s.loop s.starter s.thread
      → is_returned (run L mine xs s).starter ≡ false
  unfolding run act start_step thread_step check_loop
  run-Lost [] s (empty, ended, inl at) = rw at refl
  run-Lost [] s (empty, ended, inr at) = rw at refl
  run-Lost (starts ∷ rest) s (empty, ended, inl at) = simp at (
      run-Lost rest (record s { starter = check_loop L mine s.loop })
        (empty, ended, inr (rw empty refl)))
  run-Lost (starts ∷ rest) s (empty, ended, inr at) =
      simp at (run-Lost rest (record s { starter = checking }) (empty, ended, inl refl))
  run-Lost (threads ∷ rest) s (empty, ended, at) = simp ended (run-Lost rest s (empty, ended, at))

  -- The thread is started and runs to its end, while the starter has not yet looked.
  abbrev pub early_end : List (Action L mine)
  early_end = starts ∷ threads ∷ threads ∷ threads ∷ threads ∷ threads ∷ []

  -- If the loop of the thread ends before `startLoop` has looked at `loop_`, `startLoop` never
  -- returns, whatever the two threads do from then on.
  pub start_loop_stuck :
      (cb : Bool) (xs : List (Action L mine))
      → is_returned (run L mine xs (run L mine early_end (create L mine cb))).starter ≡ false
  unfolding create run act start_step thread_step
  start_loop_stuck cb xs =
      run-Lost xs (run L mine early_end (create L mine cb)) (refl, refl, inl refl)

  by_place :
      (s : EventLoopThread L mine) (p : Place)
      → s.thread ≡ p
      → s.loop ≡ loop_at L mine p
      → is_published p ≡ true
      → (destroy L mine s ≡ quits mine ∷ joins ∷ []) ⊎ (destroy L mine s ≡ detaches ∷ [])
  unfolding destroy
  by_place s absent at loop on = absurd cc
  by_place s initialising at loop on = absurd cc
  by_place s publishing at loop on = absurd cc
  by_place s looping at loop on = inl (rw loop refl)
  by_place s clearing at loop on = inl (rw loop refl)
  by_place s gone at loop on = inr (rw (loop, at) refl)

  -- In any order of the steps: a destructor that reads `loop_` after `startLoop` has returned quits
  -- the loop of the thread and joins it, unless the thread has reset `loop_`; then it detaches it.
  pub destroy-returned :
      (cb : Bool) (xs : List (Action L mine)) (l : L)
      → (run L mine xs (create L mine cb)).starter ≡ returned l
      → (destroy L mine (run L mine xs (create L mine cb)) ≡ quits mine ∷ joins ∷ [])
        ⊎ (destroy L mine (run L mine xs (create L mine cb)) ≡ detaches ∷ [])
  destroy-returned cb xs l done =
      let (h, loop, calls, fits) = run-Inv L mine cb xs (create L mine cb) (create-Inv L mine cb) in
      let (same, on) =
        subst (λ st. Fits L mine st (run L mine xs (create L mine cb)).thread) done fits in
      by_place (run L mine xs (create L mine cb)) (run L mine xs (create L mine cb)).thread refl
        loop on
