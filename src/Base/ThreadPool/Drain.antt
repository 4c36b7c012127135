-- ===== src/Base/ThreadPool/Drain.antt =====
-- src/base/ThreadPool.cpp: one thread that works alone on what is in the queue.
use tiny_network.Prelude.{
  ℕ, zero, suc, ◌+◌, ◌*◌, ◌≡◌, refl, sym, ◌∙◌, false, List, [], ◌∷◌, ◌++◌, append-nil, append_assoc,
  Option, none, some, ◌>>=◌, length, get_elem?, set, arith, subst,
}
use tiny_network.Base.ThreadPool.{
  Worker, testing, running, gone, Pool, take_task, worker_step, work,
}

module _ (F : Type 0) where
  -- Steps of one thread in a row.
  pub work_times : ℕ → ℕ → Pool F → Option (Pool F)
  work_times zero i p = some p
  work_times (suc n) i p = work F i false p >>= work_times n i

  -- The functions among some tasks.
  pub calls : List (Option F) → List F
  calls [] = []
  calls (none ∷ ts) = calls ts
  calls (some f ∷ ts) = f ∷ calls ts

  -- The queue is empty, this thread has left, and these functions were called.
  pub record Drained (i : ℕ) (called : List F) (p : Pool F) : Type 0 where
    pub emptied : p.queue ≡ []
    pub left : get_elem? p.workers i ≡ some gone
    pub called_these : p.executed ≡ called

  get-set :
      (vs : List (Worker F)) (i : ℕ) (v w : Worker F)
      → get_elem? vs i ≡ some v
      → get_elem? (set vs i w) i ≡ some w
  get-set [] i v w h = absurd (cc)
  get-set (x ∷ vs) zero v w h = refl
  get-set (x ∷ vs) (suc i) v w h = get-set vs i v w h

  rounds : List (Option F) → ℕ
  rounds [] = 1
  rounds (t ∷ ts) = suc (suc (rounds ts))

  rounds_lem : (ts : List (Option F)) → rounds ts ≡ 2 * length ts + 1
  unfolding rounds
  rounds_lem [] = omega arith
  rounds_lem (t ∷ ts) = omega (arith, rounds_lem ts)

  -- What taking and calling one task leaves.
  after_task : ℕ → Option F → Pool F → Pool F
  after_task i t p = record p {
    taken = p.taken ++ (t ∷ []);
    workers = set (set p.workers i (running t)) i testing;
    executed = p.executed ++ calls (t ∷ []);
  }

  take_step :
      (i : ℕ) (t : Option F) (ts : List (Option F)) (p : Pool F)
      → get_elem? p.workers i ≡ some testing
      → work F i false (record p { queue = t ∷ ts })
        ≡ some (record p {
          queue = ts;
          taken = p.taken ++ (t ∷ []);
          workers = set p.workers i (running t);
        })
  unfolding work worker_step take_task
  take_step i t ts p at = simp at refl

  call_step :
      (i : ℕ) (t : Option F) (ts : List (Option F)) (p : Pool F)
      → get_elem? p.workers i ≡ some testing
      → work F i false (record p {
        queue = ts;
        taken = p.taken ++ (t ∷ []);
        workers = set p.workers i (running t);
      })
        ≡ some (record (after_task i t p) { queue = ts })
  unfolding work worker_step after_task calls
  call_step i none ts p at =
      simp (get-set p.workers i testing (running none) at, append-nil p.executed) refl
  call_step i (some f) ts p at = simp (get-set p.workers i testing (running (some f)) at) refl

  after_off :
      (i : ℕ) (t : Option F) (p : Pool F)
      → p.is_running ≡ false
      → (after_task i t p).is_running ≡ false
  unfolding after_task
  after_off i t p off = off

  after_at :
      (i : ℕ) (t : Option F) (p : Pool F)
      → get_elem? (set (set p.workers i (running t)) i testing) i ≡ some testing
      → get_elem? (after_task i t p).workers i ≡ some testing
  unfolding after_task
  after_at i t p at = at

  after_calls :
      (i : ℕ) (t : Option F) (ts : List (Option F)) (p : Pool F)
      → (after_task i t p).executed ++ calls ts ≡ p.executed ++ calls (t ∷ ts)
  unfolding after_task calls
  after_calls i none ts p = rw (append-nil p.executed) refl
  after_calls i (some f) ts p = append_assoc p.executed (f ∷ []) (calls ts)

  drain_rounds :
      (ts : List (Option F)) (i : ℕ) (p : Pool F)
      → p.is_running ≡ false
      → get_elem? p.workers i ≡ some testing
      → (p' : Pool F) × (work_times (rounds ts) i (record p { queue = ts }) ≡ some p')
        × Drained i (p.executed ++ calls ts) p'
  unfolding work_times rounds work worker_step take_task calls
  drain_rounds [] i p off at = (
    record p { queue = []; workers = set p.workers i gone },
    simp (at, off) refl,
    record {
      emptied = refl;
      left = get-set p.workers i testing gone at;
      called_these = sym (append-nil p.executed);
    },
  )
  drain_rounds (t ∷ ts) i p off at =
      let at_running = get-set p.workers i testing (running t) at in
      let (p', ran, drained) =
        drain_rounds ts i (after_task i t p) (after_off i t p off) (
          after_at i t p
            (get-set (set p.workers i (running t)) i (running t) testing at_running)) in
      (
        p',
        simp (take_step i t ts p at, call_step i t ts p at) ran,
        record {
          emptied = drained.emptied;
          left = drained.left;
          called_these = drained.called_these ∙ after_calls i t ts p;
        },
      )

  -- A thread that nobody disturbs, in a pool that is not running, calls all functions of the queue
  -- in their order and then leaves, within two steps for each task and one more, if none throws.
  pub work_times-Drained :
      (i : ℕ) (p : Pool F)
      → p.is_running ≡ false
      → get_elem? p.workers i ≡ some testing
      → (p' : Pool F) × (work_times (2 * length p.queue + 1) i p ≡ some p')
        × Drained i (p.executed ++ calls p.queue) p'
  work_times-Drained i p off at =
      subst
        (λ n.
          (p' : Pool F) × (work_times n i p ≡ some p') × Drained i (p.executed ++ calls p.queue) p')
        (rounds_lem p.queue) (drain_rounds p.queue i p off at)
