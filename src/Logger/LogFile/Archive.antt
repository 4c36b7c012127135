-- ===== src/Logger/LogFile/Archive.antt =====
-- src/logger/LogFile.cpp: what was appended, over all files, and the bookkeeping of the open one.
use native.Mathlib.Decide.{dec_lt}
use tiny_network.Prelude.{
  ℕ, ◌+◌, ◌≤◌, ◌<◌, ◌≡◌, refl, sym, ◌∙◌, List, [], ◌++◌, append_assoc, append-nil, some, leb, Bool,
  length, length-append, arith, Bool-cases, inl, inr, ge→ltb, lt→ltb,
}
use tiny_network.Logger.Logging.{Tm}
use tiny_network.Logger.LogFile.{LogFile, append_bytes, count_append, append_in_lock}
use tiny_network.Logger.LogFile.Writing.{Writes, write_loop-Writes}
use tiny_network.Logger.LogFile.Rolling.{archive, Openable, Sound, roll-Kept, check_time-Kept}

module _ (local_time : ℕ → Tm) (opens : List ℕ → Bool) where
  pub record Inv (s : LogFile) : Type 0 where
    pub counts : s.count < s.check_every_n
    pub sound : Sound local_time opens s

  -- What an append leaves: the bytes at the end, and a file within its size unless it was opened
  -- in this very second.
  pub record Logged (s : LogFile) (bytes : List ℕ) (now : ℕ) (s' : LogFile) : Type 0 where
    pub inv : Inv s'
    pub archived : archive s' ≡ archive s ++ bytes
    pub bounded : s.last_roll < now → s'.file.written_bytes ≤ s.roll_size
    pub same_limits : (s'.roll_size ≡ s.roll_size) × (s'.check_every_n ≡ s.check_every_n)
    pub same_basename : s'.basename ≡ s.basename

  -- The end of `appendInLock`, once the bytes are in the file.
  count_append-Logged :
      (now : ℕ) (s : LogFile)
      → Openable local_time opens s.basename now
      → Sound local_time opens s
      → 0 < s.check_every_n
      → s.count ≤ s.check_every_n
      → s.file.written_bytes ≤ s.roll_size
      → (s' : LogFile) × (count_append local_time opens now s ≡ some s') × Logged s [] now s'
  unfolding count_append archive
  count_append-Logged now s o v pos low fits = elim (Bool-cases (leb s.check_every_n s.count)) [
    | inl full ↦
        let reset = record s { count = 0 } in
        let again : Sound local_time opens reset = record {
          in_period = v.in_period;
          sized = v.sized;
          named = v.named;
        } in
        let (s', ran, k) = check_time-Kept local_time opens now reset o again in
        (
          s',
          rw full ran,
          record {
            inv = record { counts = omega (arith, k.same_count, k.same_check); sound = k.sound };
            archived = k.archived ∙ sym (append-nil _);
            bounded = λ _. omega (arith, k.no_larger);
            same_limits = (k.same_size, k.same_check);
            same_basename = k.same_basename;
          },
        )
    | inr few ↦ (
      s,
      rw few refl,
      record {
        inv = record { counts = ground arith; sound = v };
        archived = sym (append-nil _);
        bounded = λ _. fits;
        same_limits = (refl, refl);
        same_basename = refl;
      },
    )
  ]

  -- If the bookkeeping of the file is right, the file name of this time fits its array and can be
  -- opened, and the results of `fwrite`, each at least one byte, write the whole line, `append`
  -- returns with the bookkeeping right, the name of the open file included; the line stands behind
  -- all that was appended before, over all files, and the file that is left open is within
  -- `rollSize_` unless the last roll was in the same second or later.
  pub append_in_lock-Logged :
      (results line : List ℕ) (now : ℕ) (s : LogFile)
      → Openable local_time opens s.basename now
      → Inv s
      → Writes results (length line)
      → (s' : LogFile) × (append_in_lock local_time opens results line now s ≡ some s')
        × Logged s line now s'
  unfolding append_in_lock append_bytes archive
  append_in_lock-Logged results line now s o v w =
      let grown = record s.file {
        content = s.file.content ++ line;
        written_bytes = s.file.written_bytes + length line;
      } in
      let t = record s { file = grown } in
      let size : grown.written_bytes ≡ length grown.content =
        omega (arith, v.sound.sized, length-append s.file.content line) in
      let written = write_loop-Writes results line s.file w in
      let joined = sym (append_assoc s.closed s.file.content line) in
      let kept : Sound local_time opens t = record {
        in_period = v.sound.in_period;
        sized = size;
        named = v.sound.named;
      } in
      elim (dec_lt s.roll_size grown.written_bytes) [
        | yes large ↦
            let (s', ran, k, emptied) = roll-Kept local_time opens now t o kept in
            (
              s',
              simp (written, lt→ltb _ _ large) ran,
              record {
                inv = record {
                  counts = omega (arith, k.same_count, k.same_check, v.counts);
                  sound = k.sound;
                };
                archived = k.archived ∙ joined;
                bounded = λ later. omega (arith, emptied later);
                same_limits = (k.same_size, k.same_check);
                same_basename = k.same_basename;
              },
            )
        | no fits ↦
            let counted = record t { count = s.count + 1 } in
            let (s', ran, l) =
              count_append-Logged now counted o
                (record { in_period = kept.in_period; sized = kept.sized; named = kept.named })
                (omega (arith, v.counts)) (omega (arith, v.counts)) (omega arith) in
            (
              s',
              simp (written, ge→ltb s.roll_size grown.written_bytes (omega arith)) ran,
              record {
                inv = l.inv;
                archived = l.archived ∙ append-nil _ ∙ joined;
                bounded = l.bounded;
                same_limits = l.same_limits;
                same_basename = l.same_basename;
              },
            )
      ]
