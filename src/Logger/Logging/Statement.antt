-- ===== src/Logger/Logging/Statement.antt =====
-- include/logger/Logging.h and src/logger/Logging.cpp: what one log statement hands over.
use tiny_network.Prelude.{
  ℕ, ◌+◌, ◌/◌, ◌^◌, ◌<◌, ◌≡◌, refl, sym, ◌∙◌, ap, true, List, [], ◌∷◌, ◌++◌, some, arith, length,
  take, drop, take_all, replicate, take-append-drop,
}
use tiny_network.Prelude.Int.{ℤ, nat_abs}
use tiny_network.Logger.FixedBuffer.{FixedBuffer, IsValid, text}
use tiny_network.Logger.LogStream.{small_buffer}
use tiny_network.Logger.LogStream.Items.{
  Item, integer, char, string, put_all, ArePrintable, need_all, ShowsAll, Printed, put_all-Printed,
}
use tiny_network.Logger.Logging.{
  Tm, ThreadInfo, Macro, log_debug, log_info, log_warn, log_error, log_fatal, Globals, time_text,
  micros_text, level_name, dash, source_file, is_enabled, log_statement,
}
use tiny_network.Logger.Logging.Time.{IsCalendar, time_taken, micros_taken, length-snprintf}
use tiny_network.Logger.Logging.Line.{
  macro_level, func_items, layout, fixed_need, finish_items, time_items, level_items, line_items,
  need_all-append, ArePrintable-append, ShowsAll-append, blank, thread_after, handed_over,
  log_statement_run, line_items-Stages,
}

func_items-ArePrintable : (macro : Macro) (func : List ℕ) → ArePrintable (func_items macro func)
func_items-ArePrintable log_debug func = (tt, (tt, tt))
func_items-ArePrintable log_info func = tt
func_items-ArePrintable log_warn func = tt
func_items-ArePrintable log_error func = tt
func_items-ArePrintable log_fatal func = tt

level_name_whole :
    (macro : Macro) → take 6 (level_name (macro_level macro)) ≡ level_name (macro_level macro)
level_name_whole log_debug = refl
level_name_whole log_info = refl
level_name_whole log_warn = refl
level_name_whole log_error = refl
level_name_whole log_fatal = refl

length-level_name : (macro : Macro) → length (level_name (macro_level macro)) ≡ 6
length-level_name log_debug = refl
length-level_name log_info = refl
length-level_name log_warn = refl
length-level_name log_error = refl
length-level_name log_fatal = refl

module _ (tm : Tm) (now : ℕ) (macro : Macro) (file : List ℕ) (line : ℤ) (func : List ℕ)
    (message : List Item) (t_time : List ℕ) where
  line_items-ArePrintable :
      length t_time ≡ 64
      → nat_abs line < 10 ^ 20
      → ArePrintable message
      → ArePrintable (line_items tm now macro file line func message t_time)
  unfolding time_items level_items finish_items source_file
  line_items-ArePrintable h small p = (
    omega (arith, length-snprintf t_time (time_text tm) (omega (arith, h)), h),
    (
      omega (arith, length-snprintf (replicate 32 0) (micros_text now) (omega arith)),
      (
        omega (arith, length-level_name macro),
        ArePrintable-append (func_items macro func) _ (func_items-ArePrintable macro func)
            (ArePrintable-append message _ p (tt, (omega arith, (tt, (small, (tt, tt)))))),
      ),
    ),
  )

  need_all-line_items :
      need_all (line_items tm now macro file line func message t_time)
      ≡ fixed_need
        + need_all (func_items macro func)
        + need_all message
        + length (source_file file).data_
  unfolding time_items level_items finish_items source_file
  need_all-line_items = omega (
    arith,
    need_all-append (func_items macro func) (message ++ finish_items file line),
    need_all-append message (finish_items file line),
  )

  line_items-layout :
      IsCalendar tm
      → length t_time ≡ 64
      → (str : List ℕ) → ShowsAll (line_items tm now macro file line func message t_time) str
      → ShowsAll (layout tm now macro file line func message) str
  unfolding time_items level_items finish_items source_file
  line_items-layout c h str (a, s1, same, a_is, (b, s2, same2, b_is, (d, s3, same3, d_is, shown))) =
      (
        a,
        s1,
        same,
        a_is ∙ time_taken t_time tm c h,
        (
          b,
          s2,
          same2,
          b_is ∙ micros_taken now,
          (
            d,
            s3,
            same3,
            d_is ∙ level_name_whole macro,
            ShowsAll-append (func_items macro func) _ _ s3
                (λ s. ShowsAll-append message _ _ s named_whole) shown,
          ),
        ),
      )
    where
      named_whole :
          (s : List ℕ)
          → ShowsAll (finish_items file line) s
          → ShowsAll
              (string dash
                ∷ string (source_file file).data_
                ∷ char b':'
                ∷ integer line
                ∷ char 10
                ∷ [])
              s
      named_whole s (e, s1, same, e_is, (n, s2, same2, n_is, shown)) =
          (e, s1, same, e_is, (n, s2, same2, n_is ∙ take_all _ _ (omega arith), shown))

-- What a program must give a log statement.
pub record IsCall (tm : Tm) (macro : Macro) (memory : List ℕ) (file : List ℕ) (line : ℤ)
    (func : List ℕ) (message : List Item) (thread : ThreadInfo) : Type 0 where
  pub calendar : IsCalendar tm
  pub memory_sized : length memory ≡ small_buffer
  pub time_sized : length thread.t_time ≡ 64
  pub line_small : nat_abs line < 10 ^ 20
  pub printable : ArePrintable message
  pub room :
      fixed_need
        + need_all (func_items macro func)
        + need_all message
        + length (source_file file).data_
      < small_buffer

blank-IsValid : (memory : List ℕ) → length memory ≡ small_buffer → IsValid (blank memory)
unfolding blank
blank-IsValid memory h = omega (arith, h)

pub line_items-Printed :
    (tm : Tm) (now : ℕ) (macro : Macro) (memory file : List ℕ) (line : ℤ) (func : List ℕ)
    (message : List Item) (thread : ThreadInfo)
    → IsCall tm macro memory file line func message thread
    → (c : FixedBuffer) × (str : List ℕ) × (put_all
          (line_items tm now macro file line func message thread.t_time)
          (blank memory)
        ≡ some c)
      × Printed (line_items tm now macro file line func message thread.t_time) (blank memory) c str
unfolding blank
line_items-Printed tm now macro memory file line func message thread k =
    put_all-Printed (line_items tm now macro file line func message thread.t_time) (blank memory)
      (blank-IsValid memory k.memory_sized)
      (line_items-ArePrintable tm now macro file line func message thread.t_time k.time_sized
        k.line_small k.printable)
      (omega (arith, k.room, need_all-line_items tm now macro file line func message thread.t_time))

module _ (F : Type 0) (local_time : ℕ → Tm) (error_text : ℤ → List ℕ) (g : Globals F)
    (macro : Macro) (memory file : List ℕ) (line : ℤ) (func : List ℕ) (message : List Item) where
  -- A log statement that is enabled, with a time of `localtime` before the year 10000, arrays of 64 and
  -- 4000 bytes, a line number below 10 ^ 20, a message that C++ can print, and a message, function and
  -- file that leave room in 4000 bytes, runs without a fault and hands over one array of 4000 bytes
  -- that begins with its line: the time to the minute, the microseconds, the level, for LOG_DEBUG the
  -- function, the message, " - ", the file, ":", the line number and the end of the line. A fatal one
  -- then flushes and aborts, and no other does. The array of the time keeps its size.
  pub log_statement-layout :
      (time now : ℕ) (thread : ThreadInfo)
      → IsCall (local_time (now / 1000000)) macro memory file line func message thread
      → is_enabled F local_time error_text g macro ≡ true
      → (thread' : ThreadInfo) × (str : List ℕ) × (rest : List ℕ) × (log_statement F local_time
            error_text g macro memory time now file line func message thread
          ≡ some (thread', handed_over F local_time error_text g macro (str ++ rest)))
        × ShowsAll (layout (local_time (now / 1000000)) now macro file line func message) str
        × (length (str ++ rest) ≡ small_buffer)
        × (length thread'.t_time ≡ 64)
  unfolding thread_after text blank
  log_statement-layout time now thread k enabled =
      let tm = local_time (now / 1000000) in
      let (c, str, run, p) =
        line_items-Printed tm now macro memory file line func message thread k in
      let v = p.extended.valid in
      let whole : c.bytes ≡ str ++ drop c.cur c.bytes =
        sym (take-append-drop c.cur c.bytes) ∙ ap (◌++ drop c.cur c.bytes) p.extended.extended in
      (
        thread_after F local_time error_text now thread,
        str,
        drop c.cur c.bytes,
        log_statement_run F local_time error_text g macro memory time now file line func message
              thread c enabled v
              (line_items-Stages tm now macro file line func message thread.t_time memory c run)
            ∙ ap
                (λ bytes. some (
                  thread_after F local_time error_text now thread,
                  handed_over F local_time error_text g macro bytes,
                ))
                whole,
        line_items-layout tm now macro file line func message thread.t_time k.calendar k.time_sized
            str p.shown,
        ap length (sym whole) ∙ v.sized ∙ p.extended.same_size,
        omega (
          arith,
          length-snprintf thread.t_time (time_text tm) (omega (arith, k.time_sized)),
          k.time_sized,
        ),
      )
