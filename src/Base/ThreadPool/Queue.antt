-- ===== src/Base/ThreadPool/Queue.antt =====
-- src/base/ThreadPool.cpp: the tasks on their way through the queue.
use tiny_network.Prelude.{
  ℕ, zero, suc, ◌+◌, ◌≡◌, refl, sym, ◌∙◌, ap, Bool, List, [], ◌∷◌, ◌++◌, append_assoc, Option, none,
  some, ◌==◌, length, get_elem?, set, replicate, Bool-cases, Option-cases, inl, inr, arith, subst,
}
use tiny_network.Base.ThreadPool.{
  Worker, starting, testing, waiting, running, gone, Pool, create, start, stop, add, take_task,
  worker_step, Action, starts, stops, adds, works, work, act, Reaches, here, next, inits,
  set_thread_init_callback,
}

module _ {F : Type 0} (weight : F → ℕ) where
  -- The weight of some functions. Equal weights for every `weight` are equal numbers of each.
  pub total : List F → ℕ
  total [] = 0
  total (f ∷ fs) = weight f + total fs

  pub total-append : (xs ys : List F) → total (xs ++ ys) ≡ total xs + total ys
  unfolding total
  total-append [] ys = omega arith
  total-append (x ∷ xs) ys = omega (arith, total-append xs ys)

  abbrev pub task_weight : Option F → ℕ
  task_weight none = 0
  task_weight (some f) = weight f

  pub total_tasks : List (Option F) → ℕ
  total_tasks [] = 0
  total_tasks (t ∷ ts) = task_weight t + total_tasks ts

  pub total_tasks-append :
      (xs ys : List (Option F)) → total_tasks (xs ++ ys) ≡ total_tasks xs + total_tasks ys
  unfolding total_tasks
  total_tasks-append [] ys = omega arith
  total_tasks-append (x ∷ xs) ys = omega (arith, total_tasks-append xs ys)

  -- The task that a thread has in hand.
  abbrev pub hand : Worker F → ℕ
  hand (running t) = task_weight t
  hand _ = 0

  pub total_hands : List (Worker F) → ℕ
  total_hands [] = 0
  total_hands (v ∷ vs) = hand v + total_hands vs

  total_hands-append :
      (xs ys : List (Worker F)) → total_hands (xs ++ ys) ≡ total_hands xs + total_hands ys
  unfolding total_hands
  total_hands-append [] ys = omega arith
  total_hands-append (x ∷ xs) ys = omega (arith, total_hands-append xs ys)

  total_hands-starting : (n : ℕ) → total_hands (replicate n starting) ≡ 0
  unfolding total_hands
  total_hands-starting zero = refl
  total_hands-starting (suc n) = omega (arith, total_hands-starting n)

  total_hands-set :
      (vs : List (Worker F)) (i : ℕ) (v v' : Worker F)
      → get_elem? vs i ≡ some v
      → total_hands (set vs i v') + hand v ≡ total_hands vs + hand v'
  unfolding total_hands
  total_hands-set [] i v v' h = absurd (cc)
  total_hands-set (x ∷ vs) zero v v' h = let same : x ≡ v = cc in rw same (omega arith)
  total_hands-set (x ∷ vs) (suc i) v v' h = omega (arith, total_hands-set vs i v v' h)

  -- Every function taken from the queue was called, or is in the hand of a thread: each exactly once.
  abbrev pub Counted : Pool F → Type 0
  Counted p = total p.executed + total_hands p.workers ≡ total_tasks p.taken

  -- A step of one thread gives to the taken tasks what it gives to the called ones and its hand.
  abbrev Balance : Pool F → ℕ → Worker F × Pool F → Type 0
  Balance p held (v', p') =
      total p'.executed + hand v' + total_tasks p.taken
      ≡ total p.executed + held + total_tasks p'.taken

  take_task-Balance : (q : List (Option F)) (p : Pool F) → Balance p 0 (take_task F q p)
  unfolding take_task total_tasks
  take_task-Balance [] p = ground arith
  take_task-Balance (t ∷ ts) p = omega (arith, total_tasks-append p.taken (t ∷ []))

  worker_step-Balance :
      (throws : Bool) (v : Worker F) (p : Pool F) → Balance p (hand v) (worker_step F throws v p)
  unfolding worker_step total
  worker_step-Balance throws starting p = ground arith
  worker_step-Balance throws testing p = take_task-Balance p.queue p
  worker_step-Balance throws waiting p = take_task-Balance p.queue p
  worker_step-Balance throws (running none) p = omega arith
  worker_step-Balance throws (running (some f)) p = ground (arith, total-append p.executed (f ∷ []))
  worker_step-Balance throws gone p = omega arith

  work-Counted :
      (i : ℕ) (throws : Bool) (p : Pool F) (v : Worker F)
      → get_elem? p.workers i ≡ some v
      → Counted p
      → let (v', p') = worker_step F throws v p in
        Counted (record p' { workers = set p.workers i v' })
  work-Counted i throws p v h c =
      let (v', p') = worker_step F throws v p in
      omega (arith, worker_step-Balance throws v p, total_hands-set p.workers i v v' h)

  start-Counted : (p : Pool F) → Counted p → Counted (start F p)
  unfolding start
  start-Counted p c = omega (
    arith,
    total_hands-append p.workers (replicate p.thread_size starting),
    total_hands-starting p.thread_size,
  )

module _ {F : Type 0} where
  -- Tasks leave the queue in the order in which they were added.
  abbrev pub Ordered : Pool F → Type 0
  Ordered p = p.added ≡ p.taken ++ p.queue

  take_task-Ordered :
      (q : List (Option F)) (p : Pool F) → p.queue ≡ q → Ordered p → Ordered (take_task F q p).1
  unfolding take_task
  take_task-Ordered [] p e h = h
  take_task-Ordered (t ∷ ts) p e h =
      h ∙ ap (◌++◌ p.taken) e ∙ sym (append_assoc p.taken (t ∷ []) ts)

  worker_step-Ordered :
      (throws : Bool) (v : Worker F) (p : Pool F) → Ordered p → Ordered (worker_step F throws v p).1
  unfolding worker_step
  worker_step-Ordered throws starting p h = ground arith
  worker_step-Ordered throws testing p h = take_task-Ordered p.queue p refl h
  worker_step-Ordered throws waiting p h = take_task-Ordered p.queue p refl h
  worker_step-Ordered throws (running none) p h = h
  worker_step-Ordered throws (running (some f)) p h = ground arith
  worker_step-Ordered throws gone p h = h

  pub record Inv (p : Pool F) : Type 0 where
    pub ordered : Ordered p
    pub counted : (weight : F → ℕ) → Counted weight p

  -- What an action leaves, if it was possible.
  abbrev Keeps : Option (Pool F) → Type 0
  Keeps none = Unit
  Keeps (some p) = Inv p

  work-Keeps : (i : ℕ) (throws : Bool) (p : Pool F) → Inv p → Keeps (work F i throws p)
  unfolding work
  work-Keeps i throws p v = elim (Option-cases (get_elem? p.workers i)) [
    | inl beyond ↦ rw beyond tt
    | inr (w, found) ↦ rw found (record {
      ordered = worker_step-Ordered throws w p v.ordered;
      counted = λ weight. work-Counted weight i throws p w found (v.counted weight);
    })
  ]

  act-Keeps : (a : Action F) (p : Pool F) → Inv p → Keeps (act F a p)
  unfolding act start stop add set_thread_init_callback
  act-Keeps inits p v = record { ordered = v.ordered; counted = v.counted }
  act-Keeps starts p v = elim (Bool-cases (length p.workers == 0)) [
    | inl first ↦ rw first (record {
      ordered = v.ordered;
      counted = λ weight. start-Counted weight p (v.counted weight);
    })
    | inr again ↦ rw again tt
  ]
  act-Keeps stops p v = record { ordered = v.ordered; counted = v.counted }
  act-Keeps (adds t) p v = record {
    ordered = ap (λ l. l ++ (t ∷ [])) v.ordered ∙ append_assoc p.taken p.queue (t ∷ []);
    counted = v.counted;
  }
  act-Keeps (works i throws) p v = work-Keeps i throws p v

  pub Reaches-Inv : (p q : Pool F) → Inv p → Reaches F p q → Inv q
  Reaches-Inv p q v here = v
  Reaches-Inv p r v (next {q} a s step) = subst Keeps step (act-Keeps a q (Reaches-Inv p q v s))

  abbrev pub Conserved : Pool F → Type 0
  Conserved p =
      Ordered p
      × ((weight : F → ℕ)
          → total weight p.executed + total_hands weight p.workers ≡ total_tasks weight p.taken)

  -- Whatever threads do, and in whatever order: the added tasks are, in order, those that were
  -- taken and those in the queue, and every function that was taken was called or is in the hand
  -- of a thread, exactly once, also where some throw. Equal weights for every weighting are equal
  -- numbers of each function.
  pub Reaches-Conserved : (size : ℕ) (p : Pool F) → Reaches F (create F size) p → Conserved p
  unfolding create total total_hands total_tasks
  Reaches-Conserved size p r =
      let v =
        Reaches-Inv (create F size) p (record { ordered = refl; counted = λ weight. refl }) r in
      (v.ordered, v.counted)
