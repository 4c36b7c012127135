-- ===== src/Logger/AsyncLogging/Rounds.antt =====
-- src/logger/AsyncLogging.cpp: the rounds of `ThreadFunc` among appends of other threads.
use tiny_network.Prelude.{
  ℕ, ◌<◌, ◌^◌, ◌≡◌, refl, sym, ◌∙◌, ap, subst, false, List, [], ◌∷◌, ◌++◌, append_assoc, append-nil,
  Option, some, length, inl, inr, arith, Bool-cases, length-replicate,
}
use tiny_network.Logger.FixedBuffer
use tiny_network.Logger.FixedBuffer.{FixedBuffer, IsValid, text, bzero, reset}
use tiny_network.Logger.AsyncLogging.{
  create, start, Logging, Phase, testing, collecting, writing, ended, append, stop, thread_step,
  Action, appends, stops, works, act, run, new_buffer, started,
}
use tiny_network.Logger.AsyncLogging.Inv.{
  texts, texts-append, unwritten, text_of, stream, Good, Spare, Spares, Members, Inv, taken,
}
use tiny_network.Logger.AsyncLogging.Delivery.{Valid, Delivers, append-Delivers, collect-Delivers}
use tiny_network.Logger.AsyncLogging.Recycle.{recycle-Refilled}

module _ (memory : List ℕ) (small : length memory < 2 ^ 31) where
  -- The members do not change while the thread works on its own variables.
  elsewhere :
      (s : Logging) (n1 n2 : Option FixedBuffer) (w o : List FixedBuffer) (ph : Phase)
      → Members (length memory) s
      → Members
          (length memory)
          (record s { new1 = n1; new2 = n2; to_write = w; output = o; phase = ph })
  elsewhere s n1 n2 w o ph m = record {
    writes_to = m.writes_to;
    in_reserve = m.in_reserve;
    filled = m.filled;
  }

  Spares-at :
      (s : Logging) (ph : Phase)
      → s.phase ≡ ph
      → Valid memory small s
      → Spares (length memory) ph s.new1 s.new2 s.to_write
  Spares-at s ph at v = subst (λ x. Spares (length memory) x s.new1 s.new2 s.to_write) at v.spares

  stream_written :
      (o : List FixedBuffer) (b : FixedBuffer) (bs : List FixedBuffer) (l : List ℕ)
      → texts (o ++ (b ∷ [])) ++ (texts bs ++ l) ≡ (texts o ++ (texts (b ∷ bs) ++ l)) ++ []
  unfolding texts
  stream_written o b bs l =
      rw
        (
          texts-append o (b ∷ []),
          append-nil (text b),
          append_assoc (texts o) (text b) (texts bs ++ l),
          append_assoc (text b) (texts bs) l,
          append-nil (texts o ++ (text b ++ (texts bs ++ l))),
        )
        refl

  -- One step of `ThreadFunc` never faults and keeps the text.
  pub thread_step-Delivers :
      (ph : Phase) (s : Logging)
      → s.phase ≡ ph
      → Valid memory small s
      → Delivers memory small s [] (thread_step memory ph s)
  unfolding thread_step stream unwritten
  thread_step-Delivers testing s at v =
      let m = elsewhere s s.new1 s.new2 s.to_write s.output in
      let spares = Spares-at s testing at v in
      elim (Bool-cases s.running) [
        | inl on ↦ (
          record s { phase = collecting },
          rw on refl,
          record { members = m collecting v.members; spares = spares },
          rw at (sym (append-nil _)),
        )
        | inr off ↦ (
          record s { phase = ended },
          rw off refl,
          record { members = m ended v.members; spares = spares },
          rw at (sym (append-nil _)),
        )
      ]
  thread_step-Delivers collecting s at v = collect-Delivers memory small s v at
  thread_step-Delivers (writing (b ∷ bs)) s at v = (
    record s { output = s.output ++ (b ∷ []); phase = writing bs },
    refl,
    record {
      members = elsewhere s s.new1 s.new2 s.to_write (s.output ++ (b ∷ [])) (writing bs) v.members;
      spares = Spares-at s (writing (b ∷ bs)) at v;
    },
    rw at (stream_written s.output b bs (texts s.buffers ++ text_of s.current)),
  )
  thread_step-Delivers (writing []) s at v =
      let (n1, n2, ran, spare1, spare2) =
        recycle-Refilled memory small s (Spares-at s (writing []) at v) in
      (
        record s { new1 = n1; new2 = n2; to_write = []; phase = testing },
        ran,
        record {
          members = elsewhere s n1 n2 [] s.output testing v.members;
          spares = (spare1, spare2, refl);
        },
        rw at (sym (append-nil _)),
      )
  thread_step-Delivers ended s at v = (s, refl, v, sym (append-nil (stream s)))

  stop-Delivers :
      (s : Logging) → Valid memory small s → Delivers memory small s [] (some (stop memory s))
  unfolding stop stream
  stop-Delivers s v = (
    record s { running = false },
    refl,
    record {
      members = record {
        writes_to = v.members.writes_to;
        in_reserve = v.members.in_reserve;
        filled = v.members.filled;
      };
      spares = v.spares;
    },
    sym (append-nil _),
  )

  -- The lines that some actions append, as the log takes them.
  pub lines_of : List (Action memory) → List ℕ
  lines_of [] = []
  lines_of (appends line ∷ rest) = taken (length memory) line ++ lines_of rest
  lines_of (stops ∷ rest) = lines_of rest
  lines_of (works ∷ rest) = lines_of rest

  pub act-Delivers :
      (a : Action memory) (s : Logging)
      → Valid memory small s
      → Delivers memory small s (lines_of (a ∷ [])) (act memory a s)
  unfolding act lines_of
  act-Delivers (appends line) s v =
      subst (λ t. Delivers memory small s t (append memory line s))
        (sym (append-nil (taken (length memory) line))) (append-Delivers memory small line s v)
  act-Delivers stops s v = stop-Delivers s v
  act-Delivers works s v = thread_step-Delivers s.phase s refl v

  pub lines_of_cons :
      (a : Action memory) (rest : List (Action memory))
      → lines_of (a ∷ rest) ≡ lines_of (a ∷ []) ++ lines_of rest
  unfolding lines_of
  lines_of_cons (appends line) rest = rw (append-nil (taken (length memory) line)) refl
  lines_of_cons stops rest = refl
  lines_of_cons works rest = refl

  -- For buffers below 2 ^ 31 bytes and a valid start, whatever the order in which appends, steps
  -- of the log's thread and `stop` follow one another, no empty buffer pointer is used and
  -- nothing is taken from an empty vector; and the text of the buffers given to the log file,
  -- followed by the text that is still in buffers, is what it was followed by every appended
  -- line, in order, but for lines at least as long as a whole buffer.
  pub run-Delivers :
      (xs : List (Action memory)) (s : Logging)
      → Valid memory small s
      → Delivers memory small s (lines_of xs) (run memory xs s)
  unfolding run lines_of
  run-Delivers [] s v = (s, refl, v, sym (append-nil (stream s)))
  run-Delivers (a ∷ rest) s v =
      let (t, ran, valid, streamed) = act-Delivers a s v in
      let (u, ran', valid', streamed') = run-Delivers rest t valid in
      (
        u,
        rw ran ran',
        valid',
        streamed'
            ∙ ap (λ x. x ++ lines_of rest) streamed
            ∙ append_assoc (stream s) (lines_of (a ∷ [])) (lines_of rest)
            ∙ ap (◌++◌ (stream s)) (sym (lines_of_cons a rest)),
      )

  -- The buffers of the constructor and of the first lines of `ThreadFunc` make a valid start.
  pub started-Inv : Inv (length memory) (started memory)
  unfolding start create started new_buffer bzero
  started-Inv =
      let zeroed = length-replicate {A = ℕ} (length memory) 0 in
      let good : Good (length memory) (FixedBuffer.bzero (new_buffer memory)) =
        (record { sized = zeroed; within = omega arith; small = small }, refl) in
      let spare : Spare (length memory) (some (FixedBuffer.bzero (new_buffer memory))) =
        (FixedBuffer.bzero (new_buffer memory), refl, good, refl) in
      record {
        members = record { writes_to = (_, refl, good); in_reserve = inr spare; filled = tt };
        spares = (spare, spare, refl);
      }
