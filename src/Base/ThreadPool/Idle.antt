-- ===== src/Base/ThreadPool/Idle.antt =====
-- src/base/ThreadPool.cpp: no thread of a pool waits.
use tiny_network.Prelude.{
  ℕ, zero, suc, ◌≡◌, refl, Bool, true, false, List, [], ◌∷◌, ◌++◌, Option, none, some, ◌==◌, length,
  get_elem?, set, replicate, Bool-cases, Option-cases, inl, inr, arith, subst,
}
use tiny_network.Base.ThreadPool.{
  Worker, starting, testing, waiting, running, gone, Pool, create, start, stop, add, take_task,
  worker_step, Action, starts, stops, adds, works, work, act, Reaches, here, next, inits,
  set_thread_init_callback,
}

module _ (F : Type 0) where
  abbrev waits : Worker F → Bool
  waits waiting = true
  waits _ = false

  -- No thread of these is in `wait`.
  abbrev pub Awake : List (Worker F) → Type 0
  Awake [] = Unit
  Awake (v ∷ vs) = (waits v ≡ false) × Awake vs

  -- All threads of these have left.
  abbrev pub AllGone : List (Worker F) → Type 0
  AllGone [] = Unit
  AllGone (v ∷ vs) = (v ≡ gone) × AllGone vs

  pub record Off (p : Pool F) : Type 0 where
    pub stopped : p.is_running ≡ false
    pub awake : Awake p.workers

  Awake-append : (vs ws : List (Worker F)) → Awake vs → Awake ws → Awake (vs ++ ws)
  Awake-append [] ws a b = b
  Awake-append (v ∷ vs) ws a b = (a.0, Awake-append vs ws a.1 b)

  Awake-starting : (n : ℕ) → Awake (replicate n starting)
  Awake-starting zero = tt
  Awake-starting (suc n) = (refl, Awake-starting n)

  Awake-set :
      (vs : List (Worker F)) (i : ℕ) (v : Worker F)
      → Awake vs
      → waits v ≡ false
      → Awake (set vs i v)
  Awake-set [] i v a h = tt
  Awake-set (w ∷ vs) zero v a h = (h, a.1)
  Awake-set (w ∷ vs) (suc i) v a h = (a.0, Awake-set vs i v a.1 h)

  take_task-Off :
      (q : List (Option F)) (p : Pool F)
      → p.is_running ≡ false
      → let (v', p') = take_task F q p in (waits v' ≡ false) × (p'.is_running ≡ false)
  unfolding take_task
  take_task-Off [] p h = rw h (refl, refl)
  take_task-Off (t ∷ ts) p h = (refl, h)

  worker_step-Off :
      (throws : Bool) (v : Worker F) (p : Pool F)
      → p.is_running ≡ false
      → let (v', p') = worker_step F throws v p in (waits v' ≡ false) × (p'.is_running ≡ false)
  unfolding worker_step
  worker_step-Off throws starting p h = ground arith
  worker_step-Off throws testing p h = take_task-Off p.queue p h
  worker_step-Off throws waiting p h = take_task-Off p.queue p h
  worker_step-Off throws (running none) p h = (refl, h)
  worker_step-Off throws (running (some f)) p h = ground arith
  worker_step-Off throws gone p h = (refl, h)

  abbrev Keeps : Option (Pool F) → Type 0
  Keeps none = Unit
  Keeps (some p) = Off p

  work-Keeps : (i : ℕ) (throws : Bool) (p : Pool F) → Off p → Keeps (work F i throws p)
  unfolding work
  work-Keeps i throws p o = elim (Option-cases (get_elem? p.workers i)) [
    | inl beyond ↦ rw beyond tt
    | inr (w, found) ↦
        let (awake, stopped) = worker_step-Off throws w p o.stopped in
        rw found (record { stopped = stopped; awake = Awake-set p.workers i _ o.awake awake })
  ]

  act-Keeps : (a : Action F) (p : Pool F) → Off p → Keeps (act F a p)
  unfolding act start stop add set_thread_init_callback
  act-Keeps inits p o = record { stopped = o.stopped; awake = o.awake }
  act-Keeps starts p o = elim (Bool-cases (length p.workers == 0)) [
    | inl first ↦ rw first (record {
      stopped = refl;
      awake =
          Awake-append p.workers (replicate p.thread_size starting) o.awake
            (Awake-starting p.thread_size);
    })
    | inr again ↦ rw again tt
  ]
  act-Keeps stops p o = record { stopped = refl; awake = o.awake }
  act-Keeps (adds t) p o = record { stopped = o.stopped; awake = o.awake }
  act-Keeps (works i throws) p o = work-Keeps i throws p o

  -- A pool never runs: nothing sets `running_`, and so no thread ever waits for a task.
  pub Reaches-Off : (size : ℕ) (p : Pool F) → Reaches F (create F size) p → Off p
  unfolding create
  Reaches-Off size p here = record { stopped = refl; awake = tt }
  Reaches-Off size r (next {q} a s step) = subst Keeps step (act-Keeps a q (Reaches-Off size q s))
