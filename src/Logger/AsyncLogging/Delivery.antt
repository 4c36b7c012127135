-- ===== src/Logger/AsyncLogging/Delivery.antt =====
-- src/logger/AsyncLogging.cpp: lines on their way from `append` through the locked blocks.
use tiny_network.Prelude.{
  ℕ, ◌-◌, ◌≤◌, ◌<◌, ◌^◌, ◌≡◌, refl, sym, ◌∙◌, ap, subst, List, [], ◌∷◌, ◌++◌, append_assoc,
  append-nil, Option, none, some, length, length-append, ◌⊎◌, inl, inr, arith, lt→ltb, ge→ltb,
}
use native.Mathlib.Decide.{dec_lt}
use tiny_network.Logger.FixedBuffer.{FixedBuffer, text}
use tiny_network.Logger.FixedBuffer.Laws.{avail_lem, append-text, kept}
use tiny_network.Logger.AsyncLogging.{
  Logging, collecting, writing, append, collect, collect_from, append_to, new_buffer, next_or_new,
}
use tiny_network.Logger.AsyncLogging.Inv.{
  texts, texts-append, unwritten, text_of, stream, Good, Spare, AllGood, AllGood-snoc, Spares, Inv,
  taken,
}

-- Text added at the end of the current buffer.
stream_extended : (o u p t l : List ℕ) → o ++ (u ++ (p ++ (t ++ l))) ≡ (o ++ (u ++ (p ++ t))) ++ l
stream_extended o u p t l =
    rw (append_assoc o (u ++ (p ++ t)) l, append_assoc u (p ++ t) l, append_assoc p t l) refl

text_alone :
    (b : FixedBuffer) (line : List ℕ) (size : ℕ)
    → b.cur ≡ 0
    → b.size ≡ size
    → text b ++ kept b line ≡ taken size line
unfolding text
text_alone b line size start same =
    let room : b.size - b.cur ≡ size = omega arith in rw (room, start) refl

texts_one : (c : FixedBuffer) → texts (c ∷ []) ≡ text c
unfolding texts
texts_one c = append-nil (text c)

module _ (memory : List ℕ) (small : length memory < 2 ^ 31) where
  abbrev pub Valid : Logging → Type 0
  Valid s = Inv (length memory) s

  -- The call succeeds, and adds this text.
  abbrev pub Delivers : Logging → List ℕ → Option Logging → Type 0
  Delivers s line r = (s' : Logging) × (r ≡ some s') × Valid s' × (stream s' ≡ stream s ++ line)

  new_buffer-Good : Good (length memory) (new_buffer memory)
  unfolding new_buffer
  new_buffer-Good = (record { sized = refl; within = omega arith; small = small }, refl)

  next_or_new-Spare :
      (o : Option FixedBuffer)
      → (o ≡ none) ⊎ Spare (length memory) o
      → Good (length memory) (next_or_new memory o) × ((next_or_new memory o).cur ≡ 0)
  unfolding next_or_new new_buffer
  next_or_new-Spare none h = (new_buffer-Good, refl)
  next_or_new-Spare (some b) (inl h) = absurd cc
  next_or_new-Spare (some b) (inr (d, e, g, z)) =
      let same : d ≡ b = cc in subst (λ x. Good (length memory) x × (x.cur ≡ 0)) same (g, z)

  -- The two branches of `append`, once `currentBuffer_` is known.
  append_to_here :
      (line : List ℕ) (s : Logging) (c : FixedBuffer)
      → Good (length memory) c
      → length line < c.size - c.cur
      → (c' : FixedBuffer) × (append_to memory (some c) line s
          ≡ some (record s { current = some c' }))
        × Good (length memory) c'
        × (text c' ≡ text c ++ taken (length memory) line)
  unfolding append_to
  append_to_here line s c g fits =
      let (c', ran, valid, extended, same) = append-text c line g.0 in
      (
        c',
        rw (avail_lem c g.0, lt→ltb (length line) (c.size - c.cur) fits, ran) refl,
        (valid, same ∙ g.1),
        extended
            ∙ ap (◌++◌ (text c)) (
                rw
                  (
                    lt→ltb (length line) (c.size - c.cur) fits,
                    lt→ltb (length line) (length memory) (omega (arith, g.1)),
                  )
                  refl),
      )

  append_to_next :
      (line : List ℕ) (s : Logging) (c : FixedBuffer)
      → Good (length memory) c
      → c.size - c.cur ≤ length line
      → (s.next ≡ none) ⊎ Spare (length memory) s.next
      → (c' : FixedBuffer) × (append_to memory (some c) line s
          ≡ some (record s { current = some c'; next = none; buffers = s.buffers ++ (c ∷ []) }))
        × Good (length memory) c'
        × (text c' ≡ taken (length memory) line)
  unfolding append_to text
  append_to_next line s c g full reserve =
      let (fresh, start) = next_or_new-Spare s.next reserve in
      let (c', ran, valid, extended, same) = append-text (next_or_new memory s.next) line fresh.0 in
      (
        c',
        rw (avail_lem c g.0, ge→ltb (length line) (c.size - c.cur) full, ran) refl,
        (valid, same ∙ fresh.1),
        extended ∙ text_alone (next_or_new memory s.next) line (length memory) start fresh.1,
      )

  pub append-Delivers :
      (line : List ℕ) (s : Logging)
      → Valid s
      → Delivers s (taken (length memory) line) (append memory line s)
  unfolding append stream text_of
  append-Delivers line s v =
      let (c, e, g) = v.members.writes_to in
      elim (dec_lt (length line) (c.size - c.cur)) [
        | yes fits ↦
            let (c', ran, good, extended) = append_to_here line s c g fits in
            (
              record s { current = some c' },
              ap (λ o. append_to memory o line s) e ∙ ran,
              record {
                members = record {
                  writes_to = (c', refl, good);
                  in_reserve = v.members.in_reserve;
                  filled = v.members.filled;
                };
                spares = v.spares;
              },
              rw (extended, e)
                  (stream_extended (texts s.output) (texts (unwritten s.phase)) (texts s.buffers)
                    (text c) (taken (length memory) line)),
            )
        | no full ↦
            let reserve = v.members.in_reserve in
            let (c', ran, good, extended) =
              append_to_next line s c g (omega arith) (may_be_none s.next reserve) in
            (
              record s { current = some c'; next = none; buffers = s.buffers ++ (c ∷ []) },
              ap (λ o. append_to memory o line s) e ∙ ran,
              record {
                members = record {
                  writes_to = (c', refl, good);
                  in_reserve = inl (refl, omega (arith, length-append s.buffers (c ∷ [])));
                  filled = AllGood-snoc (length memory) s.buffers c v.members.filled g;
                };
                spares = v.spares;
              },
              rw
                  (
                    extended,
                    e,
                    texts-append s.buffers (c ∷ []),
                    texts_one c,
                    append_assoc (texts s.buffers) (text c) (taken (length memory) line),
                  )
                  (stream_extended (texts s.output) (texts (unwritten s.phase)) (texts s.buffers)
                    (text c) (taken (length memory) line)),
            )
      ]
    where
      may_be_none :
          (o : Option FixedBuffer)
          → ((o ≡ none) × (1 ≤ length s.buffers)) ⊎ Spare (length memory) o
          → (o ≡ none) ⊎ Spare (length memory) o
      may_be_none o (inl h) = inl h.0
      may_be_none o (inr h) = inr h

  -- The full buffers and the current one stand in the order of their text.
  stream_collected :
      (o : List ℕ) (bs : List FixedBuffer) (c d : FixedBuffer)
      → text d ≡ []
      → o ++ (texts (bs ++ (c ∷ [])) ++ ([] ++ text d)) ≡ (o ++ ([] ++ (texts bs ++ text c))) ++ []
  stream_collected o bs c d h =
      rw
        (
          h,
          append-nil (texts (bs ++ (c ∷ []))),
          texts-append bs (c ∷ []),
          texts_one c,
          append-nil (o ++ (texts bs ++ text c)),
        )
        refl

  Spare_empty : (d : FixedBuffer) → d.cur ≡ 0 → text d ≡ []
  unfolding text
  Spare_empty d z = rw z refl

  -- The locked block of `ThreadFunc`: the text moves as it stands, and nothing faults.
  pub collect-Delivers :
      (s : Logging) → Valid s → s.phase ≡ collecting → Delivers s [] (collect memory s)
  unfolding collect collect_from stream text_of unwritten texts
  collect-Delivers s v at =
      let (c, e, g) = v.members.writes_to in
      let spares = subst (λ ph. Spares (length memory) ph s.new1 s.new2 s.to_write) at v.spares in
      let (d, e1, g1, z1) = spares.0 in
      let filled = s.buffers ++ (c ∷ []) in
      let good = AllGood-snoc (length memory) s.buffers c v.members.filled g in
      let more = length-append s.buffers (c ∷ []) in
      elim v.members.in_reserve [
        | inl (e2, some_full) ↦ (
          record s {
            current = s.new1;
            new1 = none;
            buffers = s.to_write;
            to_write = filled;
            next = s.new2;
            new2 = none;
            phase = writing filled;
          },
          ap (λ o. collect_from memory o s.next s) e
              ∙ ap (λ o. collect_from memory (some c) o s) e2,
          record {
            members = record {
              writes_to = (d, e1, g1);
              in_reserve = inr spares.1;
              filled = subst (λ bs. AllGood (length memory) bs) (sym spares.2) tt;
            };
            spares = (refl, inl (refl, omega (arith, more)), good);
          },
          rw (e, e1, at, spares.2)
              (stream_collected (texts s.output) s.buffers c d (Spare_empty d z1)),
        )
        | inr (b, e2, g2, z2) ↦ (
          record s {
            current = s.new1;
            new1 = none;
            buffers = s.to_write;
            to_write = filled;
            phase = writing filled;
          },
          ap (λ o. collect_from memory o s.next s) e
              ∙ ap (λ o. collect_from memory (some c) o s) e2,
          record {
            members = record {
              writes_to = (d, e1, g1);
              in_reserve = inr (b, e2, g2, z2);
              filled = subst (λ bs. AllGood (length memory) bs) (sym spares.2) tt;
            };
            spares = (refl, inr (spares.1, omega (arith, more)), good);
          },
          rw (e, e1, at, spares.2)
              (stream_collected (texts s.output) s.buffers c d (Spare_empty d z1)),
        )
      ]
