-- ===== src/Logger/AsyncLogging/Tests.antt =====
-- src/logger/AsyncLogging.cpp: two threads on buffers of four bytes.
use tiny_network.Prelude.{ℕ, ◌≡◌, ◌++◌, List, [], ◌∷◌, some, arith}
use tiny_network.Logger.AsyncLogging.{Logging, Action, appends, stops, works, run, started}
use tiny_network.Logger.AsyncLogging.Inv.{Inv, stream}
use tiny_network.Logger.AsyncLogging.Rounds.{lines_of, run-Delivers, started-Inv}

abbrev memory : List ℕ
memory = 1 ∷ 2 ∷ 3 ∷ 4 ∷ []

-- The second line finds the buffer full, and the thread works in between.
abbrev schedule : List (Action memory)
schedule =
    appends (7 ∷ 8 ∷ [])
    ∷ works
    ∷ appends (9 ∷ 10 ∷ [])
    ∷ works
    ∷ works
    ∷ works
    ∷ appends (11 ∷ [])
    ∷ works
    ∷ stops
    ∷ works
    ∷ []

run-Delivers_example :
    (s : Logging) × (run memory schedule (started memory) ≡ some s)
    × Inv 4 s
    × (stream s ≡ stream (started memory) ++ lines_of memory (omega arith) schedule)
run-Delivers_example =
    run-Delivers memory (omega arith) schedule (started memory) (started-Inv memory (omega arith))
