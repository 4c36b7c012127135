-- ===== src/Logger/Logging/Line.antt =====
-- include/logger/Logging.h and src/logger/Logging.cpp: the line of one log statement.
use tiny_network.Prelude.{
  bind_inv, ℕ, ◌+◌, ◌/◌, ◌≡◌, refl, ◌∙◌, ap, true, List, [], ◌∷◌, ◌++◌, Option, some, arith,
  if◌then◌else◌, ◌>>=◌, take_all, replicate, read_range_fits,
}
use tiny_network.Prelude.Int.{ℤ, pos}
use tiny_network.Logger.FixedBuffer
use tiny_network.Logger.FixedBuffer.{FixedBuffer, IsValid, text}
use tiny_network.Logger.LogStream.{small_buffer}
use tiny_network.Logger.LogStream.Items.{
  Item, integer, char, c_string, string, template, put, put_all, ArePrintable, need_all, ShowsAll,
}
use tiny_network.Logger.Logging.{
  Tm, ThreadInfo, Impl, LogLevel, debug, info, warn, error, fatal, Macro, log_debug, log_info,
  log_warn, log_error, log_fatal, Event, Globals, outputs, flushes, aborts, snprintf, minute_text,
  time_text, micros_text, level_name, dash, source_file, finish, format_time, create_impl, create,
  create_at, create_in, construct, destroy, is_enabled, is_fatal, log_statement,
}

abbrev pub macro_level : Macro → LogLevel
macro_level log_debug = debug
macro_level log_info = info
macro_level log_warn = warn
macro_level log_error = error
macro_level log_fatal = fatal

-- Only `LOG_DEBUG` names the function.
abbrev pub func_items : Macro → List ℕ → List Item
func_items log_debug func = c_string (some func) ∷ char b' ' ∷ []
func_items _ func = []

-- The items of a line, in their order.
abbrev pub layout : Tm → ℕ → Macro → List ℕ → ℤ → List ℕ → List Item → List Item
layout tm now macro file line func message =
    string (minute_text tm)
    ∷ string (micros_text now)
    ∷ string (level_name (macro_level macro))
    ∷ (func_items macro func
        ++ (message
            ++ (string dash
                ∷ string (source_file file).data_
                ∷ char b':'
                ∷ integer line
                ∷ char 10
                ∷ [])))

-- What a line asks for, besides its message, its function and its file: the time, the level, the
-- signs and 48 bytes for the number.
abbrev pub fixed_need : ℕ
fixed_need = 17 + 7 + 6 + 3 + 1 + 48 + 1

-- The items as the code writes them.
unfoldable pub time_items : Tm → ℕ → List ℕ → List Item
time_items tm now t_time =
    template (snprintf t_time (time_text tm)) 17
    ∷ template (snprintf (replicate 32 0) (micros_text now)) 7
    ∷ []

unfoldable pub level_items : Macro → List Item
level_items macro = template (level_name (macro_level macro)) 6 ∷ []

unfoldable pub finish_items : List ℕ → ℤ → List Item
finish_items file line =
    c_string (some dash)
    ∷ template (source_file file).data_ (source_file file).size
    ∷ char b':'
    ∷ integer line
    ∷ char 10
    ∷ []

-- A chain that runs runs up to any place in it.
put_all-split :
    (xs ys : List Item) (b c : FixedBuffer)
    → put_all (xs ++ ys) b ≡ some c
    → (b' : FixedBuffer) × (put_all xs b ≡ some b') × (put_all ys b' ≡ some c)
unfolding put_all
put_all-split [] ys b c h = (b, refl, h)
put_all-split (x ∷ xs) ys b c h =
    let (b1, run, rest) = bind_inv (put x b) (put_all (xs ++ ys)) c h in
    let (b', first, second) = put_all-split xs ys b1 c rest in
    (b', ap (◌>>= put_all xs) run ∙ first, second)

pub ShowsAll-append :
    (xs ys zs : List Item) (str : List ℕ)
    → ((s : List ℕ) → ShowsAll ys s → ShowsAll zs s)
    → ShowsAll (xs ++ ys) str
    → ShowsAll (xs ++ zs) str
ShowsAll-append [] ys zs str h shown = h str shown
ShowsAll-append (x ∷ xs) ys zs str h (first, rest, same, shows, shown) =
    (first, rest, same, shows, ShowsAll-append xs ys zs rest h shown)

pub need_all-append : (xs ys : List Item) → need_all (xs ++ ys) ≡ need_all xs + need_all ys
need_all-append [] ys = omega arith
need_all-append (x ∷ xs) ys = omega (arith, need_all-append xs ys)

pub ArePrintable-append :
    (xs ys : List Item) → ArePrintable xs → ArePrintable ys → ArePrintable (xs ++ ys)
ArePrintable-append [] ys p q = q
ArePrintable-append (x ∷ xs) ys p q = (p.0, ArePrintable-append xs ys p.1 q)

unfoldable pub blank : List ℕ → FixedBuffer
blank memory = record { size = small_buffer; bytes = memory; cur = 0 }

-- A chain that took all the items of a line, stage by stage.
pub record Stages (tm : Tm) (now : ℕ) (macro : Macro) (file : List ℕ) (line : ℤ) (func : List ℕ)
    (message : List Item) (t_time memory : List ℕ) (c : FixedBuffer) : Type 0 where
  pub timed : FixedBuffer
  pub levelled : FixedBuffer
  pub named : FixedBuffer
  pub filled : FixedBuffer
  pub time_run : put_all (time_items tm now t_time) (blank memory) ≡ some timed
  pub level_run : put_all (level_items macro) timed ≡ some levelled
  pub func_run : put_all (func_items macro func) levelled ≡ some named
  pub message_run : put_all message named ≡ some filled
  pub finish_run : put_all (finish_items file line) filled ≡ some c

abbrev pub line_items : Tm → ℕ → Macro → List ℕ → ℤ → List ℕ → List Item → List ℕ → List Item
line_items tm now macro file line func message t_time =
    time_items tm now t_time
    ++ (level_items macro ++ (func_items macro func ++ (message ++ finish_items file line)))

pub line_items-Stages :
    (tm : Tm) (now : ℕ) (macro : Macro) (file : List ℕ) (line : ℤ) (func : List ℕ)
    (message : List Item) (t_time memory : List ℕ) (c : FixedBuffer)
    → put_all (line_items tm now macro file line func message t_time) (blank memory) ≡ some c
    → Stages tm now macro file line func message t_time memory c
line_items-Stages tm now macro file line func message t_time memory c h =
    let (b1, r1, h1) = put_all-split (time_items tm now t_time) _ (blank memory) c h in
    let (b2, r2, h2) = put_all-split (level_items macro) _ b1 c h1 in
    let (b3, r3, h3) = put_all-split (func_items macro func) _ b2 c h2 in
    let (b4, r4, h4) = put_all-split message _ b3 c h3 in
    record {
      timed = b1;
      levelled = b2;
      named = b3;
      filled = b4;
      time_run = r1;
      level_run = r2;
      func_run = r3;
      message_run = r4;
      finish_run = h4;
    }

module _ (F : Type 0) (local_time : ℕ → Tm) (error_text : ℤ → List ℕ) where
  unfoldable pub thread_after : ℕ → ThreadInfo → ThreadInfo
  thread_after now thread = record {
    t_time = snprintf thread.t_time (time_text (local_time (now / 1000000)));
    last_second = now / 1000000;
  }

  impl_of : ℕ → FixedBuffer → LogLevel → List ℕ → ℤ → Impl
  impl_of time stream level file line = record {
    time = time;
    stream = stream;
    level = level;
    line = line;
    basename = source_file file;
  }

  create_impl_run :
      (memory : List ℕ) (time now : ℕ) (macro : Macro) (file : List ℕ) (line : ℤ)
      (thread : ThreadInfo) (b1 b2 : FixedBuffer)
      → put_all (time_items (local_time (now / 1000000)) now thread.t_time) (blank memory) ≡ some b1
      → put_all (level_items macro) b1 ≡ some b2
      → create_impl local_time error_text memory time now
          (macro_level macro)
          (pos 0)
          file
          line
          thread
        ≡ some (thread_after now thread, impl_of time b2 (macro_level macro) file line)
  unfolding create_impl format_time time_items level_items blank thread_after impl_of
  create_impl_run memory time now macro file line thread b1 b2 r1 r2 = rw (r1, r2) refl

  same_impl :
      (thread : ThreadInfo) (time : ℕ) (level : LogLevel) (file : List ℕ) (line : ℤ)
      (a b : FixedBuffer)
      → some a ≡ some b
      → ◌≡◌ {A = Option (ThreadInfo × Impl)}
          (some (thread, impl_of time a level file line))
          (some (thread, impl_of time b level file line))
  same_impl thread time level file line a b r =
      ap (λ o. do stream ← o; some (thread, impl_of time stream level file line)) r

  construct_run :
      (memory : List ℕ) (time now : ℕ) (macro : Macro) (file : List ℕ) (line : ℤ) (func : List ℕ)
      (thread : ThreadInfo) (b1 b2 b3 : FixedBuffer)
      → put_all (time_items (local_time (now / 1000000)) now thread.t_time) (blank memory) ≡ some b1
      → put_all (level_items macro) b1 ≡ some b2
      → put_all (func_items macro func) b2 ≡ some b3
      → construct F local_time error_text macro memory time now file line func thread
        ≡ some (thread_after now thread, impl_of time b3 (macro_level macro) file line)
  unfolding construct create create_at create_in put_all impl_of
  construct_run memory time now log_debug file line func thread b1 b2 b3 r1 r2 r3 =
      rw (create_impl_run memory time now log_debug file line thread b1 b2 r1 r2) (
        ap (λ o. do stream ← o; some (thread_after now thread, impl_of time stream debug file line))
          r3)
  construct_run memory time now log_info file line func thread b1 b2 b3 r1 r2 r3 =
      create_impl_run memory time now log_info file line thread b1 b2 r1 r2
      ∙ same_impl (thread_after now thread) time info file line b2 b3 r3
  construct_run memory time now log_warn file line func thread b1 b2 b3 r1 r2 r3 =
      create_impl_run memory time now log_warn file line thread b1 b2 r1 r2
      ∙ same_impl (thread_after now thread) time warn file line b2 b3 r3
  construct_run memory time now log_error file line func thread b1 b2 b3 r1 r2 r3 =
      create_impl_run memory time now log_error file line thread b1 b2 r1 r2
      ∙ same_impl (thread_after now thread) time error file line b2 b3 r3
  construct_run memory time now log_fatal file line func thread b1 b2 b3 r1 r2 r3 =
      create_impl_run memory time now log_fatal file line thread b1 b2 r1 r2
      ∙ same_impl (thread_after now thread) time fatal file line b2 b3 r3

  -- What the destructor hands over: the whole array, and for a fatal line the flush and the end.
  abbrev pub handed_over : Globals F → Macro → List ℕ → List (Event F)
  handed_over g macro bytes =
      outputs g.output bytes
      ∷ (if is_fatal (macro_level macro) then flushes g.flush ∷ aborts ∷ [] else [])

  pub log_statement_run :
      (g : Globals F) (macro : Macro) (memory : List ℕ) (time now : ℕ) (file : List ℕ) (line : ℤ)
      (func : List ℕ) (message : List Item) (thread : ThreadInfo) (c : FixedBuffer)
      → is_enabled F local_time error_text g macro ≡ true
      → IsValid c
      → Stages (local_time (now / 1000000)) now macro file line func message thread.t_time memory c
      → log_statement F local_time error_text g macro memory time now file line func message thread
        ≡ some (thread_after now thread, handed_over g macro c.bytes)
  unfolding log_statement destroy finish impl_of finish_items FixedBuffer.length_of
  log_statement_run g macro memory time now file line func message thread c enabled v s =
      rw
        (
          enabled,
          construct_run memory time now macro file line func thread s.timed s.levelled s.named
              s.time_run s.level_run s.func_run,
          s.message_run,
          s.finish_run,
          read_range_fits c.bytes c.size (omega (arith, v.sized)),
          take_all c.size c.bytes (omega (arith, v.sized)),
        )
        refl
