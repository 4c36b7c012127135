-- ===== src/Net/EventLoopThread/Handshake.antt =====
-- src/net/EventLoopThread.cpp: what `startLoop` returns.
use tiny_network.Prelude.{
  ◌≡◌, refl, ◌∙◌, ap, subst, Bool, true, false, List, [], ◌∷◌, Option, none, some, if◌then◌else◌,
}
use tiny_network.Net.EventLoopThread.{
  Starter, calling, checking, asleep, returned, Place, absent, initialising, publishing, looping,
  clearing, gone, EventLoopThread, create, check_loop, start_step, thread_step, Action, starts,
  threads, act, run,
}

-- The thread has set `loop_`, and may have reset it.
abbrev pub is_published : Place → Bool
is_published looping = true
is_published clearing = true
is_published gone = true
is_published _ = false

abbrev is_started : Place → Bool
is_started absent = false
is_started _ = true

module _ (L : Type 0) (mine : L) where
  -- `loop_` and the calls of the callback, by where the thread stands.
  abbrev pub loop_at : Place → Option L
  loop_at looping = some mine
  loop_at clearing = some mine
  loop_at _ = none

  abbrev calls_at : Bool → Place → List L
  calls_at cb absent = []
  calls_at cb initialising = []
  calls_at cb _ = if cb then mine ∷ [] else []

  abbrev pub Fits : Starter L → Place → Type 0
  Fits calling p = p ≡ absent
  Fits (returned l) p = (l ≡ mine) × (is_published p ≡ true)
  Fits _ p = is_started p ≡ true

  abbrev Holds : Bool → Bool → Option L → Starter L → Place → List L → Type 0
  Holds cb has loop st p calls =
      (has ≡ cb) × (loop ≡ loop_at p) × (calls ≡ calls_at cb p) × Fits st p

  abbrev Inv : Bool → EventLoopThread L mine → Type 0
  Inv cb s = Holds cb s.has_callback s.loop s.starter s.thread s.init_calls

  abbrev state : Bool → Option L → Starter L → Place → List L → EventLoopThread L mine
  state has loop st p calls = record {
    loop = loop;
    has_callback = has;
    starter = st;
    thread = p;
    init_calls = calls;
  }

  check_loop-Fits :
      (loop : Option L) (p : Place)
      → loop ≡ loop_at p
      → is_started p ≡ true
      → Fits (check_loop L mine loop) p
  unfolding check_loop
  check_loop-Fits loop absent is on = absurd cc
  check_loop-Fits loop initialising is on = rw is refl
  check_loop-Fits loop publishing is on = rw is refl
  check_loop-Fits loop looping is on = rw is (refl, refl)
  check_loop-Fits loop clearing is on = rw is (refl, refl)
  check_loop-Fits loop gone is on = rw is refl

  start_step-Inv :
      (cb has : Bool) (loop : Option L) (st : Starter L) (p : Place) (calls : List L)
      → Holds cb has loop st p calls
      → Inv cb (start_step L mine st (state has loop st p calls))
  unfolding start_step
  start_step-Inv cb has loop calling absent calls (h, l, c, f) = (h, l, c, refl)
  start_step-Inv cb has loop calling initialising calls (h, l, c, f) = absurd cc
  start_step-Inv cb has loop calling publishing calls (h, l, c, f) = absurd cc
  start_step-Inv cb has loop calling looping calls (h, l, c, f) = absurd cc
  start_step-Inv cb has loop calling clearing calls (h, l, c, f) = absurd cc
  start_step-Inv cb has loop calling gone calls (h, l, c, f) = absurd cc
  start_step-Inv cb has loop checking p calls (h, l, c, f) = (h, l, c, check_loop-Fits loop p l f)
  start_step-Inv cb has loop asleep p calls (h, l, c, f) = (h, l, c, f)
  start_step-Inv cb has loop (returned x) p calls (h, l, c, f) = (h, l, c, f)

  -- A step of a thread that has been started keeps what the starter has seen.
  Fits-later :
      (st : Starter L) (p q : Place)
      → Fits st p
      → is_started p ≡ true
      → is_started q ≡ true
      → (is_published p ≡ true → is_published q ≡ true)
      → Fits st q
  Fits-later calling p q f on on' later =
      let off : false ≡ true = subst (λ x. is_started x ≡ true) f on in absurd cc
  Fits-later checking p q f on on' later = on'
  Fits-later asleep p q f on on' later = on'
  Fits-later (returned l) p q f on on' later = (f.0, later f.1)

  thread_step-Inv :
      (cb has : Bool) (loop : Option L) (st : Starter L) (p : Place) (calls : List L)
      → Holds cb has loop st p calls
      → Inv cb (thread_step L mine p (state has loop st p calls))
  unfolding thread_step
  thread_step-Inv cb has loop st absent calls v = v
  thread_step-Inv cb has loop st initialising calls (h, l, c, f) =
      (h, l, rw (h, c) refl, Fits-later st initialising publishing f refl refl (λ e. absurd cc))
  thread_step-Inv cb has loop st publishing calls (h, l, c, f) =
      (h, refl, c, Fits-later st publishing looping f refl refl (λ e. refl))
  thread_step-Inv cb has loop st looping calls (h, l, c, f) =
      (h, l, c, Fits-later st looping clearing f refl refl (λ e. refl))
  thread_step-Inv cb has loop st clearing calls (h, l, c, f) =
      (h, refl, c, Fits-later st clearing gone f refl refl (λ e. refl))
  thread_step-Inv cb has loop st gone calls v = v

  act-Inv :
      (cb : Bool) (a : Action L mine) (s : EventLoopThread L mine)
      → Inv cb s
      → Inv cb (act L mine a s)
  unfolding act
  act-Inv cb starts s v = start_step-Inv cb s.has_callback s.loop s.starter s.thread s.init_calls v
  act-Inv cb threads s v =
      thread_step-Inv cb s.has_callback s.loop s.starter s.thread s.init_calls v

  pub run-Inv :
      (cb : Bool) (xs : List (Action L mine)) (s : EventLoopThread L mine)
      → Inv cb s
      → Inv cb (run L mine xs s)
  unfolding run
  run-Inv cb [] s v = v
  run-Inv cb (a ∷ rest) s v = run-Inv cb rest (act L mine a s) (act-Inv cb a s v)

  pub create-Inv : (cb : Bool) → Inv cb (create L mine cb)
  unfolding create
  create-Inv cb = (refl, refl, refl, refl)

  calls_published :
      (cb : Bool) (p : Place)
      → is_published p ≡ true
      → calls_at cb p ≡ (if cb then mine ∷ [] else [])
  calls_published cb absent on = absurd cc
  calls_published cb initialising on = absurd cc
  calls_published cb publishing on = absurd cc
  calls_published cb looping on = refl
  calls_published cb clearing on = refl
  calls_published cb gone on = refl

  -- In any order of the steps of the two threads: if `startLoop` has returned, it has returned the
  -- loop of the thread, after the thread published it; and before that the callback, if there is
  -- one, was called once, with this loop.
  pub start_loop-Published :
      (cb : Bool) (xs : List (Action L mine)) (l : L)
      → (run L mine xs (create L mine cb)).starter ≡ returned l
      → (l ≡ mine)
        × (is_published (run L mine xs (create L mine cb)).thread ≡ true)
        × ((run L mine xs (create L mine cb)).init_calls ≡ (if cb then mine ∷ [] else []))
  start_loop-Published cb xs l done =
      let s = run L mine xs (create L mine cb) in
      let (h, loop, calls, fits) = run-Inv cb xs (create L mine cb) (create-Inv cb) in
      let (same, on) = subst (λ st. Fits st s.thread) done fits in
      (same, on, calls ∙ calls_published cb s.thread on)

  -- While the thread is in its loop, a starter that waits returns in two steps.
  pub start_loop_returns :
      (cb : Bool) (s : EventLoopThread L mine)
      → Inv cb s
      → s.thread ≡ looping
      → s.starter ≡ asleep
      → (run L mine (starts ∷ starts ∷ []) s).starter ≡ returned mine
  unfolding run act start_step check_loop
  start_loop_returns cb s (h, loop, calls, fits) on at =
      let published : s.loop ≡ some mine = loop ∙ ap loop_at on in rw (at, published) refl
