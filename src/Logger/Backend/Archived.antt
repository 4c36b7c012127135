-- ===== src/Logger/Backend/Archived.antt =====
-- src/logger/AsyncLogging.cpp with src/logger/LogFile.cpp: appended lines in the files.
use tiny_network.Prelude.{
  Bool, ℕ, ◌<◌, ◌^◌, ◌≡◌, refl, sym, ◌∙◌, ap, List, [], ◌∷◌, ◌++◌, some, length, arith, append-nil,
  append_assoc, drop, take-append-drop, take_all, read_range_fits,
}
use mathlib.Core.Option.{some-injective}
use tiny_network.Logger.FixedBuffer
use tiny_network.Logger.FixedBuffer.{FixedBuffer, IsValid, text}
use tiny_network.Logger.AsyncLogging.{create, start, Logging, Action, run, started, new_buffer}
use tiny_network.Logger.AsyncLogging.Inv.{texts, unwritten, text_of, stream, AllGood}
use tiny_network.Logger.AsyncLogging.Rounds.{lines_of, run-Delivers, started-Inv}
use tiny_network.Logger.Logging.{Tm}
use tiny_network.Logger.LogFile.{LogFile}
use tiny_network.Logger.LogFile.Writing.{Writes}
use tiny_network.Logger.LogFile.Rolling.{archive, Openable}
use tiny_network.Logger.LogFile.Archive.{Inv, append_in_lock-Logged}
use tiny_network.Logger.LogFile.Lifetime.{create-Inv}
use tiny_network.Logger.Backend.{open_output, write_buffer, write_buffers}
use tiny_network.Logger.Backend.Written.{run-Written}

-- Every text with what stands behind it in its array.
unfoldable pub padded : List FixedBuffer → List ℕ
padded [] = []
padded (b ∷ bs) = (text b ++ drop b.cur b.bytes) ++ padded bs

stream_started : (memory : List ℕ) → stream (started memory) ≡ []
unfolding stream texts text text_of unwritten start create started FixedBuffer.bzero new_buffer
stream_started memory = refl

module _ (local_time : ℕ → Tm) (opens : List ℕ → Bool) where
  -- Results of `fwrite` that write whole arrays, at times when a roll could open a file.
  abbrev pub Answered : List ℕ → List (List ℕ × ℕ) → List FixedBuffer → Type 0
  Answered basename answers [] = Unit
  Answered basename [] (b ∷ bs) = ⊥
  Answered basename ((results, now) ∷ answers) (b ∷ bs) =
      (Writes results b.size × Openable local_time opens basename now)
      × Answered basename answers bs

  write_buffer-Archived :
      (results : List ℕ) (now : ℕ) (b : FixedBuffer) (f : LogFile)
      → IsValid b
      → Inv local_time opens f
      → Writes results b.size
      → Openable local_time opens f.basename now
      → (f' : LogFile) × (write_buffer local_time opens (results, now) b f ≡ some f')
        × Inv local_time opens f'
        × (archive f' ≡ archive f ++ (text b ++ drop b.cur b.bytes))
        × (f'.basename ≡ f.basename)
  unfolding write_buffer FixedBuffer.length_of text
  write_buffer-Archived results now b f v i w o =
      let (f', ran, l) =
        append_in_lock-Logged local_time opens results b.bytes now f o i (rw v.sized w) in
      (
        f',
        rw
            (
              read_range_fits b.bytes b.size (omega (arith, v.sized)),
              take_all b.size b.bytes (omega (arith, v.sized)),
            )
            ran,
        l.inv,
        l.archived ∙ ap (◌++◌ (archive f)) (sym (take-append-drop b.cur b.bytes)),
        l.same_basename,
      )

  write_buffers-Archived :
      (size : ℕ) (basename : List ℕ) (answers : List (List ℕ × ℕ)) (bs : List FixedBuffer)
      (f : LogFile)
      → f.basename ≡ basename
      → AllGood size bs
      → Inv local_time opens f
      → Answered basename answers bs
      → (f' : LogFile) × (write_buffers local_time opens answers bs f ≡ some f')
        × Inv local_time opens f'
        × (archive f' ≡ archive f ++ padded bs)
  unfolding write_buffers padded
  write_buffers-Archived size basename answers [] f same g i a =
      (f, refl, i, sym (append-nil (archive f)))
  write_buffers-Archived size basename [] (b ∷ bs) f same g i a = absurd a
  write_buffers-Archived size basename ((results, now) ∷ answers) (b ∷ bs) f same (g, gs) i
        ((w, o), a) =
      let (f1, ran, i1, one, based) = write_buffer-Archived results now b f g.0 i w (rw same o) in
      let (f', runs, i', all) =
        write_buffers-Archived size basename answers bs f1 (based ∙ same) gs i1 a in
      (
        f',
        rw ran runs,
        i',
        all
            ∙ ap (◌++ padded bs) one
            ∙ append_assoc (archive f) (text b ++ drop b.cur b.bytes) (padded bs),
      )

  -- Buffers below 2 ^ 31 bytes, any order of appends, steps of the log's thread and `stop` from the
  -- start, a log file that the thread can open after 1970, whose `fwrite` in the end takes every
  -- array and whose rolls can open files: the files hold exactly the array of each buffer that was
  -- given to them, its text first, in order; and those texts, followed by what is still in buffers,
  -- are all the appended lines, in order, but for lines at least as long as a whole buffer.
  pub run-Archived :
      (memory : List ℕ) (small : length memory < 2 ^ 31) (xs : List (Action memory)) (s : Logging)
      (answers : List (List ℕ × ℕ)) (basename : List ℕ) (roll_size now : ℕ)
      → run memory xs (started memory) ≡ some s
      → 0 < now
      → Openable local_time opens basename now
      → Answered basename answers s.output
      → (f f' : LogFile) × (open_output local_time opens basename roll_size now ≡ some f)
        × (write_buffers local_time opens answers s.output f ≡ some f')
        × Inv local_time opens f'
        × (archive f' ≡ padded s.output)
        × (stream s ≡ lines_of memory small xs)
  unfolding start create started unwritten open_output
  run-Archived memory small xs s answers basename roll_size now ran later o a =
      let (t, ran', v, streamed) =
        run-Delivers memory small xs (started memory) (started-Inv memory small) in
      let w =
        run-Written memory small xs (started memory) s (started-Inv memory small) (tt, tt) ran in
      let (f, made, i, empty, same) =
        create-Inv local_time opens basename roll_size 0 1024 now later (omega arith) o in
      let (f', runs, i', all) =
        write_buffers-Archived (length memory) basename answers s.output f same w.0 i a in
      (
        f,
        f',
        made,
        runs,
        i',
        all ∙ ap (◌++ padded s.output) empty,
        ap stream (some-injective s t (sym ran ∙ ran'))
            ∙ streamed
            ∙ ap (◌++ lines_of memory small xs) (stream_started memory),
      )
