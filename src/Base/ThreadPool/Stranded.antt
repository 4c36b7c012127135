-- ===== src/Base/ThreadPool/Stranded.antt =====
-- src/base/ThreadPool.cpp: the threads of a pool that finds no task.
use tiny_network.Prelude.{
  ℕ, zero, suc, ◌+◌, ◌<◌, length-append, ◌≡◌, refl, sym, ◌∙◌, ap, Bool, true, false, ◌&&◌, List, [],
  ◌∷◌, ◌++◌, append-nil, append_assoc, Option, none, some, ◌==◌, length, get_elem?, set, replicate,
  ne→==, ◌≢◌, Option-cases, inl, inr, arith, subst,
}
use tiny_network.Base.ThreadPool.{
  Worker, starting, testing, gone, Pool, create, start, stop, add, take_task, worker_step, Action,
  starts, stops, adds, works, work, act, Reaches, here, next, inits, set_thread_init_callback,
}
use tiny_network.Base.ThreadPool.Idle.{AllGone}

module _ (F : Type 0) where
  AllGone-get :
      (vs : List (Worker F)) (i : ℕ) (v : Worker F)
      → AllGone F vs
      → get_elem? vs i ≡ some v
      → v ≡ gone
  AllGone-get [] i v a h = absurd (cc)
  AllGone-get (w ∷ vs) zero v a h = let same : w ≡ v = cc in sym same ∙ a.0
  AllGone-get (w ∷ vs) (suc i) v a h = AllGone-get vs i v a.1 h

  AllGone-set : (vs : List (Worker F)) (i : ℕ) → AllGone F vs → AllGone F (set vs i gone)
  AllGone-set [] i a = tt
  AllGone-set (w ∷ vs) zero a = (refl, a.1)
  AllGone-set (w ∷ vs) (suc i) a = (a.0, AllGone-set vs i a.1)

  -- The pool has had threads, all of them have left, and these functions were called.
  pub record Dead (called : List F) (p : Pool F) : Type 0 where
    pub had_threads : length p.workers ≢ 0
    pub all_gone : AllGone F p.workers
    pub called_these : p.executed ≡ called

  length-set : (vs : List (Worker F)) (i : ℕ) (v : Worker F) → length (set vs i v) ≡ length vs
  length-set [] i v = refl
  length-set (w ∷ vs) zero v = refl
  length-set (w ∷ vs) (suc i) v = ap suc (length-set vs i v)

  abbrev Stays : List F → Option (Pool F) → Type 0
  Stays called none = Unit
  Stays called (some p) = Dead called p

  act-Stays :
      (called : List F) (a : Action F) (p : Pool F) → Dead called p → Stays called (act F a p)
  unfolding act stop add set_thread_init_callback work worker_step
  act-Stays called inits p d = record {
    had_threads = d.had_threads;
    all_gone = d.all_gone;
    called_these = d.called_these;
  }
  act-Stays called starts p d = rw (ne→== (length p.workers) 0 d.had_threads) tt
  act-Stays called stops p d = record {
    had_threads = d.had_threads;
    all_gone = d.all_gone;
    called_these = d.called_these;
  }
  act-Stays called (adds t) p d = record {
    had_threads = d.had_threads;
    all_gone = d.all_gone;
    called_these = d.called_these;
  }
  act-Stays called (works i throws) p d = elim (Option-cases (get_elem? p.workers i)) [
    | inl beyond ↦ rw beyond tt
    | inr (w, found) ↦
        rw (found, AllGone-get p.workers i w d.all_gone found)
          (record {
            had_threads = λ h. d.had_threads (sym (length-set p.workers i gone) ∙ h);
            all_gone = AllGone-set p.workers i d.all_gone;
            called_these = d.called_these;
          })
  ]

  -- Once all threads have left, nothing that is added is ever called.
  Dead-Reaches : (called : List F) (p q : Pool F) → Dead called p → Reaches F p q → Dead called q
  Dead-Reaches called p q d here = d
  Dead-Reaches called p r d (next {q} a s step) =
      subst (Stays called) step (act-Stays called a q (Dead-Reaches called p q d s))

  get_middle :
      (vs : List (Worker F)) (v : Worker F) (ws : List (Worker F))
      → get_elem? (vs ++ (v ∷ ws)) (length vs) ≡ some v
  get_middle [] v ws = refl
  get_middle (x ∷ vs) v ws = get_middle vs v ws

  set_middle :
      (vs : List (Worker F)) (v w : Worker F) (ws : List (Worker F))
      → set (vs ++ (v ∷ ws)) (length vs) w ≡ vs ++ (w ∷ ws)
  set_middle [] v w ws = refl
  set_middle (x ∷ vs) v w ws = ap (◌∷◌ x) (set_middle vs v w ws)

  -- A pool with no task and no callback, at these threads.
  abbrev idle_pool : ℕ → List (Worker F) → Pool F
  idle_pool size vs = record {
    queue = [];
    is_running = false;
    thread_size = size;
    has_init = false;
    init_calls = 0;
    workers = vs;
    added = [];
    taken = [];
    executed = [];
  }

  leave_init :
      (size : ℕ) (vs ws : List (Worker F))
      → act F (works (length vs) false) (idle_pool size (vs ++ (starting ∷ ws)))
        ≡ some (idle_pool size (vs ++ (testing ∷ ws)))
  unfolding act work worker_step
  leave_init size vs ws = rw (get_middle vs starting ws, set_middle vs starting testing ws) refl

  leave_loop :
      (size : ℕ) (vs ws : List (Worker F))
      → act F (works (length vs) false) (idle_pool size (vs ++ (testing ∷ ws)))
        ≡ some (idle_pool size (vs ++ (gone ∷ ws)))
  unfolding act work worker_step take_task
  leave_loop size vs ws = rw (get_middle vs testing ws, set_middle vs testing gone ws) refl

  leave :
      (size : ℕ) (vs ws : List (Worker F)) (p : Pool F)
      → Reaches F p (idle_pool size (vs ++ (starting ∷ ws)))
      → Reaches F p (idle_pool size ((vs ++ (gone ∷ [])) ++ ws))
  leave size vs ws p r =
      subst (λ l. Reaches F p (idle_pool size l)) (sym (append_assoc vs (gone ∷ []) ws))
        (next (works (length vs) false) (next (works (length vs) false) r (leave_init size vs ws))
          (leave_loop size vs ws))

  AllGone-snoc : (vs : List (Worker F)) → AllGone F vs → AllGone F (vs ++ (gone ∷ []))
  AllGone-snoc [] a = (refl, tt)
  AllGone-snoc (v ∷ vs) a = (a.0, AllGone-snoc vs a.1)

  all_leave :
      (size m : ℕ) (vs : List (Worker F)) (p : Pool F)
      → AllGone F vs
      → Reaches F p (idle_pool size (vs ++ replicate m starting))
      → (ws : List (Worker F)) × Reaches F p (idle_pool size ws)
        × AllGone F ws
        × (length ws ≡ length vs + m)
  all_leave size zero vs p a r =
      (vs, subst (λ l. Reaches F p (idle_pool size l)) (append-nil vs) r, a, omega arith)
  all_leave size (suc m) vs p a r =
      let (ws, s, gone_all, size') =
        all_leave size m (vs ++ (gone ∷ [])) p (AllGone-snoc vs a)
          (leave size vs (replicate m starting) p r) in
      (ws, s, gone_all, omega (arith, size', length-append vs (gone ∷ [])))

  started :
      (size : ℕ) → act F starts (create F size) ≡ some (idle_pool size (replicate size starting))
  unfolding act create start
  started size = rw (and_false (size == 0)) refl
    where
      and_false : (b : Bool) → (b && false) ≡ false
      and_false true = refl
      and_false false = refl

  -- Of a pool with any number of threads all can leave after `start` before a task is added, and
  -- then, whatever is added and done, no function is ever called.
  pub start_strands :
      (size : ℕ)
      → 0 < size
      → (p : Pool F) × Reaches F (create F size) p
        × AllGone F p.workers
        × ((q : Pool F) → Reaches F p q → q.executed ≡ [])
  start_strands size some_thread =
      let (ws, r, all, count) =
        all_leave size size [] (create F size) tt (next starts here (started size)) in
      (
        idle_pool size ws,
        r,
        all,
        λ q s.
            (Dead-Reaches [] (idle_pool size ws) q
              (record {
                had_threads = λ h. absurd (omega (arith, h, count));
                all_gone = all;
                called_these = refl;
              })
              s).called_these,
      )
