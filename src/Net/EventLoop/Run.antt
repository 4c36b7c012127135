-- ===== src/Net/EventLoop/Run.antt =====
-- src/net/EventLoop.cpp: the loop among other threads, as sequences of actions.
use tiny_network.Prelude.{
  zero, suc, ◌≡◌, Bool, true, false, not, ◌&&◌, List, ◌∷◌, Option, none, some, if◌then◌else◌,
}
use tiny_network.Net.EventLoop.Kernel.{EventFd}
use tiny_network.Net.EventLoop.{
  Active, Phase, handling, running, Loop, push, notify, quits, loop_step,
}

-- Whether the thread of the loop is in a handler or a functor, which may call the loop.
unfoldable pub in_callback : {F : Type 0} → Phase F → Bool
in_callback (handling (c ∷ cs)) = true
in_callback (running (f ∷ fs)) = true
in_callback _ = false

-- `queueInLoop` is two actions, in each thread: others can act between its parts.
pub data Action (F : Type 0) : Type 0 where
  steps : List Active → Action F
  own_queues : F → Action F
  own_notifies : Action F
  other_queues : F → Action F
  other_notifies : Action F
  quitting : Bool → Action F

module _ (e : EventFd) (F : Type 0) where
  -- What an action does, if it is possible.
  unfoldable pub act : Action F → Loop e F → Option (Loop e F)
  act (steps active) s = if s.mid_queue then none else some (loop_step e F s.phase active s)
  act (own_queues f) s =
      if in_callback s.phase && not s.mid_queue
      then some (record (push e F f s) { mid_queue = true })
      else none
  act own_notifies s =
      if s.mid_queue then some (record (notify e F true s) { mid_queue = false }) else none
  act (other_queues f) s = some (record (push e F f s) { unwoken = suc s.unwoken })
  act other_notifies s = elim s.unwoken [
    | zero ↦ none
    | suc n ↦ some (record (notify e F false s) { unwoken = n })
  ]
  act (quitting in_loop) s = some (quits e F in_loop s)

  pub data Reaches (s : Loop e F) : Loop e F → Type 0 where
    here : Reaches s s
    next : {t u : Loop e F} (a : Action F) → Reaches s t → act a t ≡ some u → Reaches s u
