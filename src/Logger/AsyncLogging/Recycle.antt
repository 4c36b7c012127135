-- ===== src/Logger/AsyncLogging/Recycle.antt =====
-- src/logger/AsyncLogging.cpp: the buffers that a round of `ThreadFunc` leaves for the next one.
use tiny_network.Prelude.{
  ℕ, ◌≤◌, ◌<◌, ◌^◌, ◌≡◌, refl, sym, subst, List, [], ◌∷◌, Option, none, some, length, inl, inr,
  arith, lt→ltb,
}
use tiny_network.Logger.FixedBuffer
use tiny_network.Logger.FixedBuffer.{FixedBuffer, IsValid, text, bzero, reset}
use tiny_network.Logger.AsyncLogging.{
  Logging, testing, writing, recycle, recycle_with, pop_back, refill, keep_two,
}
use tiny_network.Logger.AsyncLogging.Inv.{Good, Spare, AllGood, Spares}

keep_two_many : (a b : FixedBuffer) (r : List FixedBuffer) → keep_two (a ∷ (b ∷ r)) ≡ a ∷ (b ∷ [])
unfolding keep_two
keep_two_many a b [] = refl
keep_two_many a b (c ∷ r) = rw (lt→ltb 2 (length (a ∷ (b ∷ (c ∷ r)))) (omega arith)) refl

module _ (memory : List ℕ) (small : length memory < 2 ^ 31) where
  reset-Spare :
      (b : FixedBuffer)
      → Good (length memory) b
      → Spare (length memory) (some (FixedBuffer.reset b))
  unfolding reset
  reset-Spare b (v, same) = (
    record b { cur = 0 },
    refl,
    (record { sized = v.sized; within = omega arith; small = v.small }, same),
    refl,
  )

  -- After the end of a round there are two spare buffers again.
  abbrev pub Refilled : Logging → Option Logging → Type 0
  Refilled s r =
      (n1 n2 : Option FixedBuffer) × (r
        ≡ some (record s { new1 = n1; new2 = n2; to_write = []; phase = testing }))
      × Spare (length memory) n1
      × Spare (length memory) n2

  recycle_both :
      (written : List FixedBuffer) (s : Logging)
      → AllGood (length memory) written
      → 2 ≤ length written
      → Refilled s (recycle_with memory none none written s)
  unfolding recycle_with refill pop_back
  recycle_both [] s g h = absurd (omega arith)
  recycle_both (a ∷ []) s g h = absurd (omega arith)
  recycle_both (a ∷ (b ∷ r)) s g h = (
    some (FixedBuffer.reset b),
    some (FixedBuffer.reset a),
    rw (keep_two_many a b r) refl,
    reset-Spare b g.1.0,
    reset-Spare a g.0,
  )

  recycle_first :
      (written : List FixedBuffer) (s : Logging) (d : FixedBuffer)
      → AllGood (length memory) written
      → 1 ≤ length written
      → Spare (length memory) (some d)
      → Refilled s (recycle_with memory none (some d) written s)
  unfolding recycle_with refill pop_back keep_two
  recycle_first [] s d g h sp = absurd (omega arith)
  recycle_first (a ∷ []) s d g h sp =
      (some (FixedBuffer.reset a), some d, refl, reset-Spare a g.0, sp)
  recycle_first (a ∷ (b ∷ r)) s d g h sp =
      (some (FixedBuffer.reset b), some d, rw (keep_two_many a b r) refl, reset-Spare b g.1.0, sp)

  pub recycle-Refilled :
      (s : Logging)
      → Spares (length memory) (writing []) s.new1 s.new2 s.to_write
      → Refilled s (recycle memory s)
  unfolding recycle
  recycle-Refilled s (e1, inl (e2, two), good) =
      subst (λ o. Refilled s (recycle_with memory o s.new2 s.to_write s)) (sym e1)
        (subst (λ o. Refilled s (recycle_with memory none o s.to_write s)) (sym e2)
          (recycle_both s.to_write s good two))
  recycle-Refilled s (e1, inr ((d, e2, good2, z2), one), good) =
      subst (λ o. Refilled s (recycle_with memory o s.new2 s.to_write s)) (sym e1)
        (subst (λ o. Refilled s (recycle_with memory none o s.to_write s)) (sym e2)
          (recycle_first s.to_write s d good one (d, refl, good2, z2)))
