-- ===== src/Logger/LogFile/Name/Text.antt =====
-- src/logger/LogFile.cpp: the text of `strftime` in the name of a log file.
use tiny_network.Prelude.{
  ℕ, ◌+◌, ◌≤◌, ◌<◌, ◌≡◌, sym, ◌∙◌, ap, List, ◌∷◌, ◌++◌, length, length-append, arith, same_parts,
  drop, ◌%◌,
}
use tiny_network.Prelude.Decimal.{
  decimal, padded, length-decimal, length-padded, decimal_injective, padded_injective,
}
use tiny_network.Logger.Logging.{Tm}
use tiny_network.Logger.Logging.Time.{IsCalendar}
use tiny_network.Logger.LogFile.{date_text, clock_text, roll_text}

-- What follows the year.
abbrev after_year : Tm → List ℕ
after_year tm = padded b'0' 2 (tm.tm_mon + 1) ++ (date_text tm ++ (b'-' ∷ clock_text tm))

two : (n : ℕ) → n < 100 → length (padded b'0' 2 n) ≡ 2
two n h = length-padded b'0' 1 n h

length-date_text : (tm : Tm) → IsCalendar tm → length (date_text tm) ≡ 8
length-date_text tm c = omega (
  arith,
  two (tm.tm_mon + 1) (omega (arith, c.mon)),
  two tm.tm_mday (omega (arith, c.mday)),
  two (tm.tm_year % 100) (omega arith),
  length-append (padded b'0' 2 (tm.tm_mon + 1))
      (b'/' ∷ padded b'0' 2 tm.tm_mday ++ (b'/' ∷ padded b'0' 2 (tm.tm_year % 100))),
  length-append (padded b'0' 2 tm.tm_mday) (b'/' ∷ padded b'0' 2 (tm.tm_year % 100)),
)

length-clock_text : (tm : Tm) → IsCalendar tm → length (clock_text tm) ≡ 6
length-clock_text tm c = omega (
  arith,
  two tm.tm_hour (omega (arith, c.hour)),
  two tm.tm_min (omega (arith, c.minute)),
  two tm.tm_sec (omega (arith, c.sec)),
  length-append (padded b'0' 2 tm.tm_hour) (padded b'0' 2 tm.tm_min ++ padded b'0' 2 tm.tm_sec),
  length-append (padded b'0' 2 tm.tm_min) (padded b'0' 2 tm.tm_sec),
)

length-after_year : (tm : Tm) → IsCalendar tm → length (after_year tm) ≡ 17
length-after_year tm c = omega (
  arith,
  two (tm.tm_mon + 1) (omega (arith, c.mon)),
  length-date_text tm c,
  length-clock_text tm c,
  length-append (padded b'0' 2 (tm.tm_mon + 1)) (date_text tm ++ (b'-' ∷ clock_text tm)),
  length-append (date_text tm) (b'-' ∷ clock_text tm),
)

pub length-roll_text : (tm : Tm) → IsCalendar tm → length (roll_text tm) ≤ 22
unfolding roll_text
length-roll_text tm c = omega (
  arith,
  length-append (b'.' ∷ decimal (tm.tm_year + 1900)) (after_year tm),
  length-decimal (tm.tm_year + 1900) 3 (omega (arith, c.year)),
  length-after_year tm c,
)

same_clock :
    (t u : Tm)
    → IsCalendar t
    → IsCalendar u
    → clock_text t ≡ clock_text u
    → (t.tm_hour ≡ u.tm_hour) × (t.tm_min ≡ u.tm_min) × (t.tm_sec ≡ u.tm_sec)
same_clock t u c d h =
    let (hours, rest) =
      same_parts (padded b'0' 2 t.tm_hour) _ (padded b'0' 2 u.tm_hour) _
        (omega
          (arith, two t.tm_hour (omega (arith, c.hour)), two u.tm_hour (omega (arith, d.hour))))
        h in
    let (minutes, seconds) =
      same_parts (padded b'0' 2 t.tm_min) _ (padded b'0' 2 u.tm_min) _
        (omega
          (arith, two t.tm_min (omega (arith, c.minute)), two u.tm_min (omega (arith, d.minute))))
        rest in
    (
      padded_injective 2 t.tm_hour u.tm_hour hours,
      padded_injective 2 t.tm_min u.tm_min minutes,
      padded_injective 2 t.tm_sec u.tm_sec seconds,
    )

same_date :
    (t u : Tm)
    → IsCalendar t
    → IsCalendar u
    → date_text t ≡ date_text u
    → (t.tm_mon + 1 ≡ u.tm_mon + 1) × (t.tm_mday ≡ u.tm_mday)
same_date t u c d h =
    let (months, rest) =
      same_parts (padded b'0' 2 (t.tm_mon + 1)) _ (padded b'0' 2 (u.tm_mon + 1)) _
        (omega (
          arith,
          two (t.tm_mon + 1) (omega (arith, c.mon)),
          two (u.tm_mon + 1) (omega (arith, d.mon)),
        ))
        h in
    let (days, years) =
      same_parts (b'/' ∷ padded b'0' 2 t.tm_mday) _ (b'/' ∷ padded b'0' 2 u.tm_mday) _
        (omega
          (arith, two t.tm_mday (omega (arith, c.mday)), two u.tm_mday (omega (arith, d.mday))))
        rest in
    (
      padded_injective 2 (t.tm_mon + 1) (u.tm_mon + 1) months,
      padded_injective 2 t.tm_mday u.tm_mday (ap (drop 1) days),
    )

pub roll_text_injective :
    (t u : Tm) → IsCalendar t → IsCalendar u → roll_text t ≡ roll_text u → t ≡ u
unfolding roll_text
roll_text_injective t u c d h =
    let (years, rest) =
      same_parts (b'.' ∷ decimal (t.tm_year + 1900)) (after_year t)
        (b'.' ∷ decimal (u.tm_year + 1900)) (after_year u)
        (omega (
          arith,
          length-append (b'.' ∷ decimal (t.tm_year + 1900)) (after_year t),
          length-append (b'.' ∷ decimal (u.tm_year + 1900)) (after_year u),
          ap length h,
          length-after_year t c,
          length-after_year u d,
        ))
        h in
    let (_, dated) =
      same_parts (padded b'0' 2 (t.tm_mon + 1)) _ (padded b'0' 2 (u.tm_mon + 1)) _
        (omega (
          arith,
          two (t.tm_mon + 1) (omega (arith, c.mon)),
          two (u.tm_mon + 1) (omega (arith, d.mon)),
        ))
        rest in
    let (dates, clocks) =
      same_parts (date_text t) _ (date_text u) _ (length-date_text t c ∙ sym (length-date_text u d))
        dated in
    let (month, day) = same_date t u c d dates in
    let (hour, minute, second) = same_clock t u c d (ap (drop 1) clocks) in
    let year = decimal_injective (t.tm_year + 1900) (u.tm_year + 1900) (ap (drop 1) years) in
    same_tm t u (omega (arith, year)) (omega (arith, month)) day hour minute second
  where
    same_tm :
        (t u : Tm)
        → t.tm_year ≡ u.tm_year
        → t.tm_mon ≡ u.tm_mon
        → t.tm_mday ≡ u.tm_mday
        → t.tm_hour ≡ u.tm_hour
        → t.tm_min ≡ u.tm_min
        → t.tm_sec ≡ u.tm_sec
        → t ≡ u
    same_tm t u year mon mday hour minute sec = λ i. record {
      tm_year = year i;
      tm_mon = mon i;
      tm_mday = mday i;
      tm_hour = hour i;
      tm_min = minute i;
      tm_sec = sec i;
    }
