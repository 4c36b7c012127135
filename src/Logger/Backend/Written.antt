-- ===== src/Logger/Backend/Written.antt =====
-- src/logger/AsyncLogging.cpp: every buffer given to the log file is a valid array.
use tiny_network.Prelude.{
  ℕ, ◌<◌, ◌^◌, ◌≡◌, refl, subst, List, [], ◌∷◌, Option, none, some, ◌>>=◌, ltb, length, Bool-cases,
  Option-cases, inl, inr,
}
use tiny_network.Logger.FixedBuffer
use tiny_network.Logger.FixedBuffer.{FixedBuffer, avail}
use tiny_network.Logger.AsyncLogging.{
  Logging, Phase, testing, collecting, writing, ended, append, append_to, next_or_new, stop,
  collect, collect_from, refill, keep_two, recycle, recycle_with, thread_step, Action, appends,
  stops, works, act, run,
}
use tiny_network.Logger.AsyncLogging.Inv.{unwritten, Good, AllGood, AllGood-snoc}
use tiny_network.Logger.AsyncLogging.Delivery.{Valid}
use tiny_network.Logger.AsyncLogging.Rounds.{act-Delivers}

module _ (memory : List ℕ) (small : length memory < 2 ^ 31) where
  -- The buffers that were written, and those of this round that will be.
  abbrev pub Written : Logging → Type 0
  Written s = AllGood (length memory) s.output × AllGood (length memory) (unwritten s.phase)

  abbrev Stays : Option Logging → Type 0
  Stays none = Unit
  Stays (some s) = Written s

  append_to-Stays :
      (o : Option FixedBuffer) (line : List ℕ) (s : Logging)
      → Written s
      → Stays (append_to memory o line s)
  unfolding append_to
  append_to-Stays none line s w = tt
  append_to-Stays (some c) line s w = elim (Bool-cases (ltb (length line) (avail c))) [
    | inl here ↦ elim (Option-cases (FixedBuffer.append c line (length line))) [
      | inl fault ↦ rw (here, fault) tt
      | inr (c', ran) ↦ rw (here, ran) w
    ]
    | inr full ↦
        elim (Option-cases (FixedBuffer.append (next_or_new memory s.next) line (length line))) [
          | inl fault ↦ rw (full, fault) tt
          | inr (c', ran) ↦ rw (full, ran) w
        ]
  ]

  collect_from-Stays :
      (c : FixedBuffer) (n : Option FixedBuffer) (s : Logging)
      → AllGood (length memory) s.output
      → AllGood (length memory) s.buffers
      → Good (length memory) c
      → Stays (collect_from memory (some c) n s)
  unfolding collect_from unwritten
  collect_from-Stays c none s o filled g = (o, AllGood-snoc (length memory) s.buffers c filled g)
  collect_from-Stays c (some b) s o filled g =
      (o, AllGood-snoc (length memory) s.buffers c filled g)

  recycle-Stays : (s : Logging) → AllGood (length memory) s.output → Stays (recycle memory s)
  unfolding recycle recycle_with unwritten
  recycle-Stays s o = elim (Option-cases (refill s.new1 (keep_two s.to_write))) [
    | inl fault ↦ rw fault tt
    | inr (first, ran) ↦ elim (Option-cases (refill s.new2 first.1)) [
      | inl fault ↦ rw (ran, fault) tt
      | inr (second, ran') ↦ rw (ran, ran') (o, tt)
    ]
  ]

  thread_step-Stays :
      (ph : Phase) (s : Logging)
      → Valid memory small s
      → AllGood (length memory) s.output
      → AllGood (length memory) (unwritten ph)
      → s.phase ≡ ph
      → Stays (thread_step memory ph s)
  unfolding thread_step unwritten collect
  thread_step-Stays testing s v o u at = elim (Bool-cases s.running) [
    | inl on ↦ rw on (o, tt)
    | inr off ↦ rw off (o, tt)
  ]
  thread_step-Stays collecting s v o u at =
      let (c, is, g) = v.members.writes_to in
      simp is (collect_from-Stays c s.next s o v.members.filled g)
  thread_step-Stays (writing (b ∷ bs)) s v o (g, rest) at =
      (AllGood-snoc (length memory) s.output b o g, rest)
  thread_step-Stays (writing []) s v o u at = recycle-Stays s o
  thread_step-Stays ended s v o u at = rw at (o, u)

  act-Stays :
      (a : Action memory) (s : Logging) → Valid memory small s → Written s → Stays (act memory a s)
  unfolding act append stop
  act-Stays (appends line) s v w = append_to-Stays s.current line s w
  act-Stays stops s v w = w
  act-Stays works s v w = thread_step-Stays s.phase s v w.0 w.1 refl

  pub run-Written :
      (xs : List (Action memory)) (s t : Logging)
      → Valid memory small s
      → Written s
      → run memory xs s ≡ some t
      → Written t
  unfolding run
  run-Written [] s t v w done = subst Stays done w
  run-Written (a ∷ rest) s t v w done =
      let (u, ran, valid, streamed) = act-Delivers memory small a s v in
      run-Written rest u t valid (subst Stays ran (act-Stays a s v w))
        (subst (λ o. (o >>= run memory rest) ≡ some t) ran done)
