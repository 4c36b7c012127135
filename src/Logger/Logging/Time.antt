-- ===== src/Logger/Logging/Time.antt =====
-- src/logger/Logging.cpp: the characters that `formatTime` takes out of its arrays.
use tiny_network.Prelude.{
  ℕ, suc, ◌+◌, ◌-◌, ◌%◌, ◌<◌, ◌≡◌, refl, ap, List, [], ◌∷◌, ◌++◌, arith, length, length-append,
  take, take_all, length-take, length-drop, drop, append_assoc, append-nil, subst, replicate,
}
use tiny_network.Prelude.Decimal.{padded, length-padded}
use tiny_network.Logger.Logging.{Tm, snprintf, minute_text, time_text, micros_text}

-- The documented ranges of a `tm`, up to the year 9999.
pub record IsCalendar (tm : Tm) : Type 0 where
  pub year : tm.tm_year < 8100
  pub mon : tm.tm_mon < 12
  pub mday : tm.tm_mday < 32
  pub hour : tm.tm_hour < 24
  pub minute : tm.tm_min < 60
  pub sec : tm.tm_sec < 61

take-exact : (xs ys : List ℕ) → take (length xs) (xs ++ ys) ≡ xs
take-exact [] ys = refl
take-exact (x ∷ xs) ys = ap (◌∷◌ x) (take-exact xs ys)

-- The first characters of a text that `snprintf` wrote into an array that is larger.
pub take-snprintf :
    (buf chars rest : List ℕ) (n : ℕ)
    → length chars ≡ n
    → length (chars ++ rest) < length buf
    → take n (snprintf buf (chars ++ rest)) ≡ chars
take-snprintf buf chars rest n h room =
    rw
      (
        take_all (length buf - 1) (chars ++ rest) (omega (arith, room)),
        append_assoc chars rest (0 ∷ drop (length (chars ++ rest) + 1) buf),
        ← h,
      )
      (take-exact chars (rest ++ (0 ∷ drop (length (chars ++ rest) + 1) buf)))

pub length-snprintf :
    (buf chars : List ℕ) → 0 < length buf → length (snprintf buf chars) ≡ length buf
length-snprintf buf chars h =
    let kept = take (length buf - 1) chars in
    omega (
      arith,
      length-append kept (0 ∷ drop (length kept + 1) buf),
      length-take (length buf - 1) chars,
      length-drop (length kept + 1) buf,
    )

length_sep :
    (xs ys : List ℕ) (c m n : ℕ)
    → length xs ≡ m
    → length ys ≡ n
    → length (xs ++ (c ∷ ys)) ≡ m + suc n
length_sep xs ys c m n hx hy = omega (arith, length-append xs (c ∷ ys))

pub length-minute_text : (tm : Tm) → IsCalendar tm → length (minute_text tm) ≡ 17
length-minute_text tm c =
    length_sep _ _ b'/' 4 12 (length-padded b' ' 3 (tm.tm_year + 1900) (omega (arith, c.year))) (
      length_sep _ _ b'/' 2 9 (length-padded b'0' 1 (tm.tm_mon + 1) (omega (arith, c.mon))) (
        length_sep _ _ b' ' 2 6 (length-padded b'0' 1 tm.tm_mday (omega (arith, c.mday))) (
          length_sep _ _ b':' 2 3 (length-padded b'0' 1 tm.tm_hour (omega (arith, c.hour))) (
            length_sep _ _ b':' 2 0 (length-padded b'0' 1 tm.tm_min (omega (arith, c.minute)))
              refl))))

-- What `GeneralTemplate(t_time, 17)` takes: the time without its seconds.
pub time_taken :
    (buf : List ℕ) (tm : Tm)
    → IsCalendar tm
    → length buf ≡ 64
    → take 17 (snprintf buf (time_text tm)) ≡ minute_text tm
time_taken buf tm c h =
    let minutes = length-minute_text tm c in
    take-snprintf buf (minute_text tm) (padded b'0' 2 tm.tm_sec) 17 minutes (
      omega (
        arith,
        minutes,
        length-append (minute_text tm) (padded b'0' 2 tm.tm_sec),
        length-padded b'0' 1 tm.tm_sec (omega (arith, c.sec)),
      ))

pub length-micros_text : (now : ℕ) → length (micros_text now) ≡ 7
length-micros_text now = omega (
  arith,
  length-append (padded b'0' 6 (now % 1000000)) (b' ' ∷ []),
  length-padded b'0' 5 (now % 1000000) (omega arith),
)

pub micros_taken :
    (now : ℕ) → take 7 (snprintf (replicate 32 0) (micros_text now)) ≡ micros_text now
micros_taken now =
    subst (λ chars. take 7 (snprintf (replicate 32 0) chars) ≡ micros_text now)
      (append-nil (micros_text now))
      (take-snprintf (replicate 32 0) (micros_text now) [] 7 (length-micros_text now)
        (omega (arith, length-append (micros_text now) [], length-micros_text now)))
