-- ===== src/Logger/Logging/Seconds.antt =====
-- include/logger/Logging.h and src/logger/Logging.cpp: two log statements of one minute.
use tiny_network.Prelude.{
  ℕ, ◌/◌, ◌%◌, ◌≤◌, ◌≡◌, refl, sym, ◌∙◌, ap, true, List, ◌++◌, some, arith, length, take,
}
use tiny_network.Prelude.Int.{ℤ}
use tiny_network.Logger.FixedBuffer.{FixedBuffer}
use tiny_network.Logger.FixedBuffer.{append}
use tiny_network.Logger.FixedBuffer.Laws.{append_template}
use tiny_network.Logger.LogStream.{put_template}
use tiny_network.Logger.LogStream.Items.{Item, template, put, put_all}
use tiny_network.Logger.Logging.{
  Tm, ThreadInfo, Macro, Event, Globals, snprintf, minute_text, time_text, is_enabled,
  log_statement,
}
use tiny_network.Logger.Logging.Time.{IsCalendar, time_taken, length-snprintf}
use tiny_network.Logger.Logging.Line.{
  time_items, blank, thread_after, handed_over, log_statement_run, line_items-Stages,
}
use tiny_network.Logger.Logging.Statement.{IsCall, line_items-Printed}

-- Two times of one minute.
abbrev pub SameMinute : Tm → Tm → Type 0
SameMinute a b =
    (a.tm_year ≡ b.tm_year)
    × (a.tm_mon ≡ b.tm_mon)
    × (a.tm_mday ≡ b.tm_mday)
    × (a.tm_hour ≡ b.tm_hour)
    × (a.tm_min ≡ b.tm_min)

minute_text_same : (a b : Tm) → SameMinute a b → minute_text a ≡ minute_text b
minute_text_same a b (year, mon, mday, hour, minute) = rw (year, mon, mday, hour, minute) refl

template_same :
    (b : FixedBuffer) (xs ys : List ℕ) (n : ℕ)
    → n ≤ length xs
    → n ≤ length ys
    → take n xs ≡ take n ys
    → put (template xs n) b ≡ put (template ys n) b
unfolding put put_template
template_same b xs ys n hx hy same =
    append_template b xs n hx
    ∙ ap (λ chars. append b chars (length chars)) same
    ∙ sym (append_template b ys n hy)

time_items_same :
    (a b : Tm) (m n : ℕ) (x y : List ℕ) (stream : FixedBuffer) (items : List Item)
    → IsCalendar a
    → IsCalendar b
    → SameMinute a b
    → m % 1000000 ≡ n % 1000000
    → length x ≡ 64
    → length y ≡ 64
    → put_all (time_items a m x ++ items) stream ≡ put_all (time_items b n y ++ items) stream
unfolding time_items put_all
time_items_same a b m n x y stream items ca cb same micros hx hy =
    rw
      (
        template_same stream (snprintf x (time_text a)) (snprintf y (time_text b)) 17
            (omega (arith, length-snprintf x (time_text a) (omega (arith, hx)), hx))
            (omega (arith, length-snprintf y (time_text b) (omega (arith, hy)), hy))
            (time_taken x a ca hx ∙ minute_text_same a b same ∙ sym (time_taken y b cb hy)),
        micros,
      )
      refl

module _ (F : Type 0) (local_time : ℕ → Tm) (error_text : ℤ → List ℕ) (g : Globals F)
    (macro : Macro) (memory file : List ℕ) (line : ℤ) (func : List ℕ) (message : List Item) where
  -- Two runs of one enabled log statement, each as `IsCall` asks, at two times of one minute with the
  -- same microseconds behind the second, hand over the same bytes: the second is in no line.
  pub seconds_lost :
      (time now time' now' : ℕ) (thread thread' : ThreadInfo)
      → IsCall (local_time (now / 1000000)) macro memory file line func message thread
      → IsCall (local_time (now' / 1000000)) macro memory file line func message thread'
      → is_enabled F local_time error_text g macro ≡ true
      → SameMinute (local_time (now / 1000000)) (local_time (now' / 1000000))
      → now % 1000000 ≡ now' % 1000000
      → (after : ThreadInfo) × (after' : ThreadInfo) × (events : List (Event F)) × (log_statement F
            local_time error_text g macro memory time now file line func message thread
          ≡ some (after, events))
        × (log_statement F local_time error_text g macro memory time' now' file line func message
              thread'
            ≡ some (after', events))
  seconds_lost time now time' now' thread thread' k k' enabled same micros =
      let tm = local_time (now / 1000000) in
      let tm' = local_time (now' / 1000000) in
      let (c, str, run, p) =
        line_items-Printed tm now macro memory file line func message thread k in
      let run' =
        sym (
          time_items_same tm tm' now now' thread.t_time thread'.t_time (blank memory) _ k.calendar
            k'.calendar same micros k.time_sized k'.time_sized)
        ∙ run in
      (
        thread_after F local_time error_text now thread,
        thread_after F local_time error_text now' thread',
        handed_over F local_time error_text g macro c.bytes,
        log_statement_run F local_time error_text g macro memory time now file line func message
            thread c enabled p.extended.valid
            (line_items-Stages tm now macro file line func message thread.t_time memory c run),
        log_statement_run F local_time error_text g macro memory time' now' file line func message
            thread' c enabled p.extended.valid
            (line_items-Stages tm' now' macro file line func message thread'.t_time memory c run'),
      )
