-- ===== src/Logger/Pipeline/Arrival.antt =====
-- src/logger/Logging.cpp with src/logger/AsyncLogging.cpp: the lines of log statements in the log.
use tiny_network.Prelude.{
  ℕ, ◌/◌, ◌<◌, ◌^◌, ◌≡◌, refl, sym, ◌∙◌, ap, subst, Bool, true, false, List, [], ◌∷◌, ◌++◌,
  append_assoc, append-nil, Option, some, length, lt→ltb, inl, inr, arith, Bool-cases,
}
use tiny_network.Logger.LogStream.{small_buffer}
use tiny_network.Logger.LogStream.Items.{ShowsAll}
use tiny_network.Logger.Logging.{
  Tm, ThreadInfo, outputs, Globals, custom, is_fatal, is_enabled, log_statement,
}
use tiny_network.Prelude.Int.{ℤ}
use tiny_network.Logger.Logging.Line.{layout, macro_level}
use tiny_network.Logger.Logging.Statement.{IsCall, log_statement-layout}
use tiny_network.Logger.AsyncLogging.{Logging}
use tiny_network.Logger.AsyncLogging.Inv.{stream}
use tiny_network.Logger.AsyncLogging.Delivery.{Valid, append-Delivers}
use tiny_network.Logger.AsyncLogging.Rounds.{thread_step-Delivers}
use tiny_network.Logger.Pipeline.{
  Sink, into_log, Statement, Turn, states, works, deliver, run_statement, take_turn, take_turns,
}

module _ (memory : List ℕ) (local_time : ℕ → Tm) (error_text : ℤ → List ℕ) (g : Globals Sink) where
  abbrev IsStatement : Statement → ThreadInfo → Type 0
  IsStatement x info =
      IsCall (local_time (x.now / 1000000)) x.macro x.memory x.file x.line x.func x.message info

  -- Every statement is what `IsCall` asks, and none is fatal.
  abbrev pub AreStatements : List Turn → ThreadInfo → Type 0
  AreStatements [] info = Unit
  AreStatements (states x ∷ turns) info =
      IsStatement x info × (is_fatal (macro_level x.macro) ≡ false) × AreStatements turns info
  AreStatements (works ∷ turns) info = AreStatements turns info

  -- An array of the stream that begins with the line of the statement.
  abbrev pub ShowsLine : Statement → List ℕ → Type 0
  ShowsLine x bytes =
      (str : List ℕ) × (rest : List ℕ) × (bytes ≡ str ++ rest)
      × ShowsAll
          (layout (local_time (x.now / 1000000)) x.now x.macro x.file x.line x.func x.message) str
      × (length bytes ≡ small_buffer)

  -- What one statement adds: an array if it is enabled, and nothing if not.
  abbrev pub Adds : Bool → Statement → List ℕ → Type 0
  Adds true x bytes = ShowsLine x bytes
  Adds false x bytes = bytes ≡ []

  -- What the turns add, in order.
  abbrev pub AddsAll : List Turn → List ℕ → Type 0
  AddsAll [] bytes = bytes ≡ []
  AddsAll (states x ∷ turns) bytes =
      (first : List ℕ) × (more : List ℕ) × (bytes ≡ first ++ more)
      × Adds (is_enabled Sink local_time error_text g x.macro) x first
      × AddsAll turns more
  AddsAll (works ∷ turns) bytes = AddsAll turns bytes

  -- Only the size of the array of the time matters to a statement of a thread.
  IsStatement-info :
      (x : Statement) (info info' : ThreadInfo)
      → length info'.t_time ≡ 64
      → IsStatement x info
      → IsStatement x info'
  IsStatement-info x info info' h k = record {
    calendar = k.calendar;
    memory_sized = k.memory_sized;
    time_sized = h;
    line_small = k.line_small;
    printable = k.printable;
    room = k.room;
  }

  AreStatements-info :
      (turns : List Turn) (info info' : ThreadInfo)
      → length info'.t_time ≡ 64
      → AreStatements turns info
      → AreStatements turns info'
  AreStatements-info [] info info' h a = tt
  AreStatements-info (states x ∷ turns) info info' h (is, calm, a) =
      (IsStatement-info x info info' h is, calm, AreStatements-info turns info info' h a)
  AreStatements-info (works ∷ turns) info info' h a = AreStatements-info turns info info' h a

  -- A statement that is not fatal: its events, and the variables of its thread behind it.
  statement_run :
      (x : Statement) (info : ThreadInfo)
      → g.output ≡ custom into_log
      → IsStatement x info
      → is_fatal (macro_level x.macro) ≡ false
      → is_enabled Sink local_time error_text g x.macro ≡ true
      → (info' : ThreadInfo) × (bytes : List ℕ) × (run_statement memory local_time error_text g x
            info
          ≡ some (info', outputs (custom into_log) bytes ∷ []))
        × ShowsLine x bytes
        × (length info'.t_time ≡ 64)
  statement_run x info out is calm on =
      let (info', str, rest, ran, shows, sized, again) =
        log_statement-layout Sink local_time error_text g x.macro x.memory x.file x.line x.func
          x.message x.time x.now info is on in
      (info', str ++ rest, ran ∙ rw (out, calm) refl, (str, rest, refl, shows, sized), again)

  module _ (small : length memory < 2 ^ 31) (fits : small_buffer < length memory) where
    -- No fault; this is added to the log.
    abbrev pub Arrives : Logging → (List ℕ → Type 0) → Option (ThreadInfo × Logging) → Type 0
    Arrives s AddsThis r =
        (info' : ThreadInfo) × (s' : Logging) × (bytes : List ℕ) × (r ≡ some (info', s'))
        × (length info'.t_time ≡ 64)
        × Valid memory small s'
        × (stream s' ≡ stream s ++ bytes)
        × AddsThis bytes

    -- The array of a statement is shorter than a buffer of the log.
    statement-Arrives :
        (x : Statement) (info : ThreadInfo) (s : Logging)
        → g.output ≡ custom into_log
        → length info.t_time ≡ 64
        → IsStatement x info
        → is_fatal (macro_level x.macro) ≡ false
        → Valid memory small s
        → Arrives s
            (Adds (is_enabled Sink local_time error_text g x.macro) x)
            (take_turn memory local_time error_text g (states x) (info, s))
    unfolding take_turn deliver log_statement
    statement-Arrives x info s out h is calm v =
        elim (Bool-cases (is_enabled Sink local_time error_text g x.macro)) [
          | inl on ↦
              let (info', bytes, ran, shows, sized) = statement_run x info out is calm on in
              let (s', added, v', streamed) = append-Delivers memory small bytes s v in
              let (str, rest, whole, lines, long) = shows in
              (
                info',
                s',
                bytes,
                rw (ran, added) refl,
                sized,
                v',
                streamed
                    ∙ rw (lt→ltb (length bytes) (length memory) (omega (arith, long, fits))) refl,
                subst (λ b. Adds b x bytes) (sym on) shows,
              )
          | inr off ↦ (
            info,
            s,
            [],
            rw off refl,
            h,
            v,
            sym (append-nil (stream s)),
            subst (λ b. Adds b x []) (sym off) refl,
          )
        ]

    -- The output is `append` of a log whose buffers are longer than 4000 bytes and below 2 ^ 31: log
    -- statements of one thread, none fatal and each as `IsCall` asks, and steps of the log's thread,
    -- in any order, never fault; and the text of the log, that of the buffers given to its file
    -- followed by what is still in buffers, grows by one array of 4000 bytes for each statement that
    -- is enabled, in the order of the statements, each beginning with the line of its statement.
    pub take_turns-Arrives :
        (turns : List Turn) (info : ThreadInfo) (s : Logging)
        → g.output ≡ custom into_log
        → length info.t_time ≡ 64
        → AreStatements turns info
        → Valid memory small s
        → Arrives s (AddsAll turns) (take_turns memory local_time error_text g turns (info, s))
    unfolding take_turns take_turn
    take_turns-Arrives [] info s out h a v =
        (info, s, [], refl, h, v, sym (append-nil (stream s)), refl)
    take_turns-Arrives (states x ∷ turns) info s out h (is, calm, a) v =
        let (info1, s1, first, ran, h1, v1, one, adds) =
          statement-Arrives x info s out h is calm v in
        let (info', s', more, runs, h', v', all, adds_more) =
          take_turns-Arrives turns info1 s1 out h1 (AreStatements-info turns info info1 h1 a) v1 in
        (
          info',
          s',
          first ++ more,
          rw ran runs,
          h',
          v',
          all ∙ ap (λ t. t ++ more) one ∙ append_assoc (stream s) first more,
          (first, more, refl, adds, adds_more),
        )
    take_turns-Arrives (works ∷ turns) info s out h a v =
        let (s1, ran, v1, same) = thread_step-Delivers memory small s.phase s refl v in
        let (info', s', more, runs, h', v', all, adds_more) =
          take_turns-Arrives turns info s1 out h a v1 in
        (
          info',
          s',
          more,
          rw ran runs,
          h',
          v',
          all ∙ ap (λ t. t ++ more) (same ∙ append-nil (stream s)),
          adds_more,
        )
