-- ===== src/Base/Timestamp/Formatted.antt =====
-- src/base/Timestamp.cpp: the array that `toFormattedString` fills in, which it does not return.
-- `local_time` is `localtime`.
use tiny_network.Prelude.{
  ℕ, suc, ◌+◌, ◌-◌, ◌%◌, ◌^◌, ◌≤◌, ◌<◌, ◌≡◌, refl, ap, Bool, true, false, List, ◌∷◌, ◌++◌, arith,
  ltb, if◌then◌else◌, length, length-append, length-drop, length-replicate, replicate, drop,
  take_all, Bool-cases, inl, inr,
}
use tiny_network.Prelude.Decimal.{decimal, padded, length-decimal, length-padded}
use tiny_network.Base.Timestamp.{Timestamp, seconds_since_epoch}
use tiny_network.Logger.Logging.{Tm, snprintf, minute_text, time_text}
use tiny_network.Logger.Logging.Time.{IsCalendar, length-minute_text}

-- "%06d" of a number that is converted to an int.
abbrev pub int_text : ℕ → List ℕ
int_text n =
    if ltb (n % 2 ^ 32) (2 ^ 31)
    then padded b'0' 6 (n % 2 ^ 32)
    else b'-' ∷ padded b'0' 5 (2 ^ 32 - n % 2 ^ 32)

-- The text, of which `microseconds` are in truth the seconds.
unfoldable pub formatted_text : (ℕ → Tm) → Bool → Timestamp → List ℕ
formatted_text local_time show_microseconds t =
    let seconds = seconds_since_epoch t in
    if show_microseconds
    then time_text (local_time seconds) ++ (b'.' ∷ int_text seconds)
    else time_text (local_time seconds)

unfoldable pub to_formatted_string : (ℕ → Tm) → Bool → Timestamp → List ℕ
to_formatted_string local_time show_microseconds t =
    snprintf (replicate 64 0) (formatted_text local_time show_microseconds t)

length-padded_le :
    (filler width k n : ℕ) → n < 10 ^ suc k → width ≤ suc k → length (padded filler width n) ≤ suc k
unfolding padded
length-padded_le filler width k n h wide = omega (
  arith,
  length-append (replicate (width - length (decimal n)) filler) (decimal n),
  length-replicate (width - length (decimal n)) filler,
  length-decimal n k h,
)

length-int_text : (n : ℕ) → length (int_text n) ≤ 11
length-int_text n = elim (Bool-cases (ltb (n % 2 ^ 32) (2 ^ 31))) [
  | inl low ↦
      rw low (omega (arith, length-padded_le b'0' 6 9 (n % 2 ^ 32) (omega arith) (omega arith)))
  | inr high ↦
      rw high
        (omega (arith, length-padded_le b'0' 5 9 (2 ^ 32 - n % 2 ^ 32) (omega arith) (omega arith)))
]

length-time_text : (tm : Tm) → IsCalendar tm → length (time_text tm) ≡ 19
length-time_text tm c = omega (
  arith,
  length-append (minute_text tm) (padded b'0' 2 tm.tm_sec),
  length-minute_text tm c,
  length-padded b'0' 1 tm.tm_sec (omega (arith, c.sec)),
)

length-formatted_text :
    (local_time : ℕ → Tm) (show_microseconds : Bool) (t : Timestamp)
    → IsCalendar (local_time (seconds_since_epoch t))
    → length (formatted_text local_time show_microseconds t) ≤ 31
unfolding formatted_text
length-formatted_text local_time true t c =
    let seconds = seconds_since_epoch t in
    omega (
      arith,
      length-append (time_text (local_time seconds)) (b'.' ∷ int_text seconds),
      length-time_text (local_time seconds) c,
      length-int_text seconds,
    )
length-formatted_text local_time false t c =
    omega (arith, length-time_text (local_time (seconds_since_epoch t)) c)

same_second :
    (local_time : ℕ → Tm) (show_microseconds : Bool) (t u : Timestamp)
    → seconds_since_epoch u ≡ seconds_since_epoch t
    → to_formatted_string local_time show_microseconds u
      ≡ to_formatted_string local_time show_microseconds t
unfolding to_formatted_string formatted_text
same_second local_time true t u same =
    ap (λ s. snprintf (replicate 64 0) (time_text (local_time s) ++ (b'.' ∷ int_text s))) same
same_second local_time false t u same =
    ap (λ s. snprintf (replicate 64 0) (time_text (local_time s))) same

-- For a local time up to the year 9999, whatever number stands for the microseconds, the text has
-- at most 31 characters, so that all of it and the zero byte fit the array of 64; and two times of
-- the same second have the same text, with microseconds or without.
pub to_formatted_string-Fits :
    (local_time : ℕ → Tm) (show_microseconds : Bool) (t u : Timestamp)
    → IsCalendar (local_time (seconds_since_epoch t))
    → seconds_since_epoch u ≡ seconds_since_epoch t
    → (chars rest : List ℕ) × (to_formatted_string local_time show_microseconds t
        ≡ chars ++ (0 ∷ rest))
      × (length chars ≤ 31)
      × (length chars + suc (length rest) ≡ 64)
      × (to_formatted_string local_time show_microseconds u
          ≡ to_formatted_string local_time show_microseconds t)
unfolding to_formatted_string
to_formatted_string-Fits local_time show_microseconds t u c same =
    let chars = formatted_text local_time show_microseconds t in
    let few = length-formatted_text local_time show_microseconds t c in
    (
      chars,
      drop (length chars + 1) (replicate 64 0),
      rw (take_all 63 chars (omega (arith, few))) refl,
      few,
      omega (arith, few, length-drop (length chars + 1) (replicate {A = ℕ} 64 0)),
      same_second local_time show_microseconds t u same,
    )
