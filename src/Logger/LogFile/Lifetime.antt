-- ===== src/Logger/LogFile/Lifetime.antt =====
-- src/logger/LogFile.cpp: a log file from its constructor on.
use tiny_network.Prelude.{
  ℕ, ◌<◌, ◌≡◌, refl, sym, ◌∙◌, ap, List, [], ◌∷◌, ◌++◌, append-nil, append_assoc, Option, some,
  length, arith, ◌>>=◌, Bool,
}
use tiny_network.Logger.Logging.{Tm}
use tiny_network.Logger.LogFile.{LogFile, append_in_lock, create, new_file}
use tiny_network.Logger.LogFile.Writing.{Writes}
use tiny_network.Logger.LogFile.Rolling.{archive, Openable, roll_file-Kept}
use tiny_network.Logger.LogFile.Archive.{Inv, append_in_lock-Logged}

-- One call of `append`: the line, the results of `fwrite`, and the time.
pub record Call : Type 0 where
  pub line : List ℕ
  pub results : List ℕ
  pub now : ℕ

abbrev pub lines_of : List Call → List ℕ
lines_of [] = []
lines_of (c ∷ cs) = c.line ++ lines_of cs

module _ (local_time : ℕ → Tm) (opens : List ℕ → Bool) where
  -- `append`, several times.
  unfoldable pub append_calls : List Call → LogFile → Option LogFile
  append_calls [] s = some s
  append_calls (c ∷ cs) s = do
    s' ← append_in_lock local_time opens c.results c.line c.now s
    append_calls cs s'

  -- Every call writes its line in the end, and a roll at its time could open a file.
  abbrev pub AreServed : List ℕ → List Call → Type 0
  AreServed basename [] = Unit
  AreServed basename (c ∷ cs) =
      (Writes c.results (length c.line) × Openable local_time opens basename c.now)
      × AreServed basename cs

  append_calls-Archived :
      (cs : List Call) (s : LogFile) (basename : List ℕ)
      → s.basename ≡ basename
      → Inv local_time opens s
      → AreServed basename cs
      → (s' : LogFile) × (append_calls cs s ≡ some s')
        × Inv local_time opens s'
        × (archive s' ≡ archive s ++ lines_of cs)
        × (s'.basename ≡ basename)
  unfolding append_calls
  append_calls-Archived [] s basename same v a = (s, refl, v, sym (append-nil (archive s)), same)
  append_calls-Archived (c ∷ cs) s basename same v ((w, o), a) =
      let (s1, ran, l) =
        append_in_lock-Logged local_time opens c.results c.line c.now s (rw same o) v w in
      let (s', runs, v', all, based) =
        append_calls-Archived cs s1 basename (l.same_basename ∙ same) l.inv a in
      (
        s',
        rw ran runs,
        v',
        all ∙ ap (◌++ lines_of cs) l.archived ∙ append_assoc (archive s) c.line (lines_of cs),
        based,
      )

  pub create-Inv :
      (basename : List ℕ) (roll_size flush_interval check_every_n now : ℕ)
      → 0 < now
      → 0 < check_every_n
      → Openable local_time opens basename now
      → (s : LogFile) × (create local_time opens basename roll_size flush_interval check_every_n now
          ≡ some s)
        × Inv local_time opens s
        × (archive s ≡ [])
        × (s.basename ≡ basename)
  unfolding create archive new_file
  create-Inv basename roll_size flush_interval check_every_n now later pos o =
      let (s, ran, k, _, _) =
        roll_file-Kept local_time opens now
          (record {
            basename = basename;
            roll_size = roll_size;
            flush_interval = flush_interval;
            check_every_n = check_every_n;
            count = 0;
            start_of_period = 0;
            last_roll = 0;
            last_flush = 0;
            file = new_file [];
            closed = [];
          })
          later o in
      (
        s,
        rw ran refl,
        record { counts = omega (arith, k.same_count, k.same_check); sound = k.sound },
        k.archived,
        k.same_basename,
      )

  -- After 1970, if `fopen` can open the file of the time of the constructor, it makes a log file;
  -- and then, however many lines are appended, at whatever times, if each is written in the end
  -- and the files of these times could be opened, all calls return, all files together hold
  -- exactly the lines, in order, and the counter and the size of the open file are right, which
  -- has the name of the last roll.
  pub create-append_calls :
      (basename : List ℕ) (roll_size flush_interval check_every_n now : ℕ) (cs : List Call)
      → 0 < now
      → 0 < check_every_n
      → Openable local_time opens basename now
      → AreServed basename cs
      → (s s' : LogFile) × (create local_time opens basename roll_size flush_interval check_every_n
            now
          ≡ some s)
        × (append_calls cs s ≡ some s')
        × Inv local_time opens s'
        × (archive s' ≡ lines_of cs)
        × (s'.basename ≡ basename)
  create-append_calls basename roll_size flush_interval check_every_n now cs later pos o a =
      let (s, made, v, empty, same) =
        create-Inv basename roll_size flush_interval check_every_n now later pos o in
      let (s', runs, v', all, based) = append_calls-Archived cs s basename same v a in
      (s, s', made, runs, v', all ∙ ap (◌++ lines_of cs) empty, based)
