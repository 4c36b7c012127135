-- ===== src/Logger/LogFile/Rolling.antt =====
-- src/logger/LogFile.cpp: what rolling and flushing keep.
use native.Mathlib.Decide.{dec_lt}
use tiny_network.Prelude.{
  ℕ, ◌-◌, ◌≤◌, ◌<◌, ◌≡◌, refl, not, true, Bool, List, [], ◌++◌, append-nil, some, ltb, ◌==◌, length,
  arith, Bool-cases, inl, inr, ge→ltb, lt→ltb,
}
use tiny_network.Logger.Logging.{Tm}
use tiny_network.Logger.LogFile.{
  LogFile, period, get_log_file_name, open_file, opened_at, roll_file, roll, flush, check_time,
  new_file, flush_file,
}

-- Everything that was appended, in order.
unfoldable pub archive : LogFile → List ℕ
archive s = s.closed ++ s.file.content

module _ (local_time : ℕ → Tm) (opens : List ℕ → Bool) where
  -- The name of a file that is opened now fits its array, and `fopen` can open it.
  abbrev pub Openable : List ℕ → ℕ → Type 0
  Openable basename now =
      (name : List ℕ) × (get_log_file_name basename (local_time now) ≡ some name)
      × (opens name ≡ true)

  -- The bookkeeping of the open file, which has the name of the last roll.
  pub record Sound (s : LogFile) : Type 0 where
    pub in_period : s.start_of_period ≡ period s.last_roll
    pub sized : s.file.written_bytes ≡ length s.file.content
    pub named : get_log_file_name s.basename (local_time s.last_roll) ≡ some s.file.file_name

  pub record Kept (s s' : LogFile) : Type 0 where
    pub sound : Sound s'
    pub archived : archive s' ≡ archive s
    pub no_larger : s'.file.written_bytes ≤ s.file.written_bytes
    pub same_size : s'.roll_size ≡ s.roll_size
    pub same_check : s'.check_every_n ≡ s.check_every_n
    pub same_count : s'.count ≡ s.count
    pub same_basename : s'.basename ≡ s.basename

  Kept-refl : (s : LogFile) → Sound s → Kept s s
  Kept-refl s v = record {
    sound = v;
    archived = refl;
    no_larger = omega arith;
    same_size = refl;
    same_check = refl;
    same_count = refl;
    same_basename = refl;
  }

  opened_at-Kept :
      (now : ℕ) (name : List ℕ) (s : LogFile)
      → get_log_file_name s.basename (local_time now) ≡ some name
      → Kept s (opened_at now (new_file name) s)
  unfolding opened_at archive new_file
  opened_at-Kept now name s named = record {
    sound = record { in_period = refl; sized = refl; named = named };
    archived = append-nil (s.closed ++ s.file.content);
    no_larger = omega arith;
    same_size = refl;
    same_check = refl;
    same_count = refl;
    same_basename = refl;
  }

  -- A roll after the second of the last one opens an empty file.
  pub roll_file-Kept :
      (now : ℕ) (s : LogFile)
      → s.last_roll < now
      → Openable s.basename now
      → (s' : LogFile) × (roll_file local_time opens now s ≡ some (true, s'))
        × Kept s s'
        × (s'.file.written_bytes ≡ 0)
        × (s'.file.content ≡ [])
  unfolding roll_file open_file opened_at new_file
  roll_file-Kept now s later (name, named, can_open) = (
    opened_at now (new_file name) s,
    rw (named, lt→ltb s.last_roll now later, can_open) refl,
    opened_at-Kept now name s named,
    refl,
    refl,
  )

  pub roll-Kept :
      (now : ℕ) (s : LogFile)
      → Openable s.basename now
      → Sound s
      → (s' : LogFile) × (roll local_time opens now s ≡ some s')
        × Kept s s'
        × (s.last_roll < now → s'.file.written_bytes ≡ 0)
  unfolding roll roll_file
  roll-Kept now s o v = elim (dec_lt s.last_roll now) [
    | yes later ↦
        let (s', ran, k, emptied, _) = roll_file-Kept now s later o in
        (s', rw ran refl, k, λ _. emptied)
    | no same ↦ (
      s,
      rw (o.1, ge→ltb s.last_roll now (omega arith)) refl,
      Kept-refl s v,
      λ later. absurd (omega arith),
    )
  ]

  flush-Kept : (now : ℕ) (s : LogFile) → Sound s → Kept s (flush (record s { last_flush = now }))
  unfolding flush flush_file archive
  flush-Kept now s v = record {
    sound = record { in_period = v.in_period; sized = v.sized; named = v.named };
    archived = refl;
    no_larger = omega arith;
    same_size = refl;
    same_check = refl;
    same_count = refl;
    same_basename = refl;
  }

  pub check_time-Kept :
      (now : ℕ) (s : LogFile)
      → Openable s.basename now
      → Sound s
      → (s' : LogFile) × (check_time local_time opens now s ≡ some s') × Kept s s'
  unfolding check_time
  check_time-Kept now s o v = elim (Bool-cases (not (period now == s.start_of_period))) [
    | inl other ↦ let (s', ran, k, _) = roll-Kept now s o v in (s', rw other ran, k)
    | inr same ↦ elim (Bool-cases (ltb s.flush_interval (now - s.last_flush))) [
      | inl due ↦ (flush (record s { last_flush = now }), rw (same, due) refl, flush-Kept now s v)
      | inr early ↦ (s, rw (same, early) refl, Kept-refl s v)
    ]
  ]
