-- ===== src/Logger/LogFile/Name.antt =====
-- src/logger/LogFile.cpp: the names that `getLogFileName` makes.
mod Text
use tiny_network.Prelude.{
  ℕ, ◌≡◌, refl, sym, ◌∙◌, ap, List, ◌++◌, some, length, length-append, arith, lt→ltb, same_parts,
  drop,
}
use mathlib.Core.Option.{some-injective}
use tiny_network.Prelude.Decimal.{
  length-decimal, length-padded, decimal_injective, padded_injective,
}
use tiny_network.Logger.Logging.{Tm}
use tiny_network.Logger.Logging.Time.{IsCalendar}
use tiny_network.Logger.LogFile.{date_text, roll_text, log_suffix, get_log_file_name}
use Text.{length-roll_text, roll_text_injective}

pub get_log_file_name-IsCalendar :
    (basename : List ℕ) (tm : Tm)
    → IsCalendar tm
    → get_log_file_name basename tm ≡ some (basename ++ (roll_text tm ++ log_suffix))
unfolding get_log_file_name
get_log_file_name-IsCalendar basename tm c =
    rw (lt→ltb (length (roll_text tm)) 32 (omega (arith, length-roll_text tm c))) refl

-- Two local times up to the year 9999 for which the file has the same name are the same time, to
-- the second.
pub get_log_file_name-Distinct :
    (basename : List ℕ) (t u : Tm)
    → IsCalendar t
    → IsCalendar u
    → get_log_file_name basename t ≡ get_log_file_name basename u
    → t ≡ u
get_log_file_name-Distinct basename t u c d h =
    let names = some-injective _ _ (
      sym (get_log_file_name-IsCalendar basename t c)
      ∙ h
      ∙ get_log_file_name-IsCalendar basename u d) in
    let (_, ends) =
      same_parts basename (roll_text t ++ log_suffix) basename (roll_text u ++ log_suffix) refl
        names in
    let (texts, _) =
      same_parts (roll_text t) log_suffix (roll_text u) log_suffix
        (omega (
          arith,
          length-append (roll_text t) log_suffix,
          length-append (roll_text u) log_suffix,
          ap length ends,
        ))
        ends in
    roll_text_injective t u c d texts
