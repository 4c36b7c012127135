-- ===== src/Net/EventLoopThreadPool/Robin.antt =====
-- src/net/EventLoopThreadPool.cpp: the order in which loops are chosen.
use native.Mathlib.Decide.{dec_le}
use tiny_network.Prelude.{
  ℕ, zero, suc, ◌+◌, ◌^◌, ◌≤◌, ◌<◌, ◌≡◌, refl, sym, ◌∙◌, ap, subst, Bool, List, [], ◌∷◌, ◌++◌,
  append_assoc, append-nil, some, arith, length, length-append, get_elem?, drop, take,
  add_size_exact, le→leb, gt→leb, ne→==, drop_all, take_all, length-drop, length-take,
}
use tiny_network.Net.EventLoopThreadPool.{
  Pool, create, start_loops, start, next_in_turn, get_next_loop, get_all_loops, get_loops,
  set_thread_num,
}

module _ (L : Type 0) where
  -- The next index is that of a loop, if there is one.
  pub record Turn (p : Pool L) : Type 0 where
    pub some_loop : 0 < length p.loops
    pub next_in : p.next < length p.loops
    pub small : length p.loops < 2 ^ 63

  -- The loops in the order in which they will be chosen.
  unfoldable pub turns : Pool L → List L
  turns p = drop p.next p.loops ++ take p.next p.loops

  -- A list around one of its items.
  split_at :
      (xs : List L) (i j : ℕ)
      → i < length xs
      → j ≡ i + 1
      → (x : L) × (get_elem? xs i ≡ some x)
        × (drop i xs ≡ x ∷ drop j xs)
        × (take j xs ≡ take i xs ++ (x ∷ []))
  split_at [] i j h e = absurd (omega arith)
  split_at (x ∷ xs) zero zero h e = absurd (omega arith)
  split_at (x ∷ xs) zero (suc j) h e =
      let first : j ≡ 0 = omega arith in (x, refl, rw first refl, rw first refl)
  split_at (x ∷ xs) (suc i) zero h e = absurd (omega arith)
  split_at (x ∷ xs) (suc i) (suc j) h e =
      let (y, found, behind, front) = split_at xs i j (omega arith) (omega arith) in
      (y, found, behind, ap (◌∷◌ x) front)

  drop_end : (xs : List L) (j : ℕ) → length xs ≤ j → drop j xs ≡ []
  drop_end xs j h = drop_all j xs h

  take_whole : (xs : List L) (j : ℕ) → length xs ≤ j → take j xs ≡ xs
  take_whole xs j h = take_all j xs h

  -- What one choice does.
  pub record Rotates (p : Pool L) (x : L) (rest : List L) (p' : Pool L) : Type 0 where
    pub front : turns p ≡ x ∷ rest
    pub back : turns p' ≡ rest ++ (x ∷ [])
    pub turn : Turn p'
    pub same_loops : p'.loops ≡ p.loops

  next_in_turn-Rotates :
      (p : Pool L)
      → Turn p
      → (x : L) × (rest : List L) × (p' : Pool L) × (next_in_turn L p ≡ some (x, p'))
        × Rotates p x rest p'
  unfolding next_in_turn turns
  next_in_turn-Rotates p t =
      let j = p.next + 1 in
      let (x, found, behind, front) = split_at p.loops p.next j t.next_in refl in
      let exact = add_size_exact p.next 1 (omega (arith, t.next_in, t.small)) in
      elim (dec_le (length p.loops) j) [
        | yes last ↦ (
          x,
          take p.next p.loops,
          record p { next = 0 },
          rw (found, exact, le→leb (length p.loops) j last) refl,
          record {
            front = rw (behind, drop_end p.loops j last) refl;
            back = append-nil p.loops ∙ sym (take_whole p.loops j last) ∙ front;
            turn = record { some_loop = t.some_loop; next_in = t.some_loop; small = t.small };
            same_loops = refl;
          },
        )
        | no more ↦ (
          x,
          drop j p.loops ++ take p.next p.loops,
          record p { next = j },
          rw (found, exact, gt→leb (length p.loops) j (omega arith)) refl,
          record {
            front = rw behind refl;
            back = rw front (sym (append_assoc (drop j p.loops) (take p.next p.loops) (x ∷ [])));
            turn = record { some_loop = t.some_loop; next_in = omega arith; small = t.small };
            same_loops = refl;
          },
        )
      ]

  -- With at least one and fewer than 2 ^ 63 loops, and the next index that of one, `getNextLoop`
  -- does not fault: it gives the loop whose turn it is, puts it behind all others, and keeps the
  -- index within the loops.
  pub get_next_loop-Rotates :
      (p : Pool L)
      → Turn p
      → (x : L) × (rest : List L) × (p' : Pool L) × (get_next_loop L p ≡ some (x, p'))
        × Rotates p x rest p'
  unfolding get_next_loop
  get_next_loop-Rotates p t =
      rw (ne→== (length p.loops) 0 (omega (arith, t.some_loop))) (next_in_turn-Rotates p t)

  -- As many choices as there are loops in front of `ys` give exactly these, in their order.
  get_loops-turns :
      (xs ys : List L) (p : Pool L)
      → Turn p
      → turns p ≡ xs ++ ys
      → (p' : Pool L) × (get_loops L (length xs) p ≡ some (xs, p'))
        × (turns p' ≡ ys ++ xs)
        × Turn p'
        × (p'.loops ≡ p.loops)
  unfolding get_loops
  get_loops-turns [] ys p t h = (p, refl, h ∙ sym (append-nil ys), t, refl)
  get_loops-turns (x ∷ xs) ys p t h =
      let (y, rest, q, ran, r) = get_next_loop-Rotates p t in
      let k : y ∷ rest ≡ x ∷ (xs ++ ys) = sym r.front ∙ h in
      let same : y ≡ x = cc in
      let tail : rest ≡ xs ++ ys = cc in
      let onward : turns q ≡ xs ++ (ys ++ (x ∷ [])) =
        r.back ∙ (rw (same, tail) (append_assoc xs ys (x ∷ []))) in
      let (p', ran', turned, t', kept) = get_loops-turns xs (ys ++ (x ∷ [])) q r.turn onward in
      (p', rw (ran, ran', same) refl, turned ∙ append_assoc ys (x ∷ []) xs, t', kept ∙ r.same_loops)

  -- With at least one and fewer than 2 ^ 63 loops, and the next index that of one, as many
  -- choices as there are loops do not fault: they give each loop exactly once, starting with the
  -- one whose turn it is, and leave the loops and the order of turns as they were.
  pub get_loops_cycle :
      (p : Pool L)
      → Turn p
      → (p' : Pool L) × (get_loops L (length p.loops) p ≡ some (turns p, p'))
        × (turns p' ≡ turns p)
        × (p'.loops ≡ p.loops)
  unfolding turns
  get_loops_cycle p t =
      let all : length (turns p) ≡ length p.loops = omega (
        arith,
        length-append (drop p.next p.loops) (take p.next p.loops),
        length-drop p.next p.loops,
        length-take p.next p.loops,
        t.next_in,
      ) in
      let (p', ran, turned, t', kept) =
        get_loops-turns (turns p) [] p t (sym (append-nil (turns p))) in
      (p', rw (← all) ran, turned, kept)

  length-start_loops : (start_loop : ℕ → L) (n : ℕ) → length (start_loops L start_loop n) ≡ n
  unfolding start_loops
  length-start_loops start_loop zero = refl
  length-start_loops start_loop (suc n) = omega (
    arith,
    length-append (start_loops L start_loop n) (start_loop n ∷ []),
    length-start_loops start_loop n,
  )

  -- After `start` of a new pool with at least one and fewer than 2 ^ 31 threads, that many
  -- choices give the loops of the threads in the order of their creation, which are then also
  -- what `getAllLoops` gives and the order of the next turns.
  pub start-turns :
      (base : L) (start_loop : ℕ → L) (has_callback : Bool) (n : ℕ)
      → 0 < n
      → n < 2 ^ 31
      → let p = start L start_loop has_callback (set_thread_num L n (create L base)) in
        (p' : Pool L) × (get_loops L n p ≡ some (start_loops L start_loop n, p'))
        × (get_all_loops L p' ≡ start_loops L start_loop n)
        × (turns p' ≡ start_loops L start_loop n)
  unfolding start set_thread_num create turns get_all_loops
  start-turns base start_loop has_callback n some_thread small =
      let p = start L start_loop has_callback (set_thread_num L n (create L base)) in
      let size = length-start_loops start_loop n in
      let whole = append-nil (start_loops L start_loop n) in
      let t : Turn p = record {
        some_loop = omega (arith, size);
        next_in = omega (arith, size);
        small = omega (arith, size);
      } in
      let (p', ran, turned, kept) = get_loops_cycle p t in
      (
        p',
        subst (λ k. get_loops L k p ≡ some (start_loops L start_loop n, p')) size
            (ran ∙ ap (λ l. some (l, p')) whole),
        rw (kept, ne→== (length (start_loops L start_loop n)) 0 (omega (arith, size))) refl,
        turned ∙ whole,
      )
