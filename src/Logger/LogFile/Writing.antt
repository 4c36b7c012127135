-- ===== src/Logger/LogFile/Writing.antt =====
-- src/logger/FileUtil.cpp: the loop over `fwrite`.
use tiny_network.Prelude.{
  ℕ, zero, suc, ◌-◌, ◌≤◌, ◌≡◌, refl, sym, ◌∙◌, ap, List, [], ◌∷◌, ◌++◌, append_assoc, append-nil,
  none, some, length, take, drop, take-append-drop, length-drop, replicate, arith,
}
use tiny_network.Logger.LogFile.{FileUtil, write_loop, append_bytes}

-- Results of `fwrite` that write this many bytes: each call takes some of those that are left.
abbrev pub Writes : List ℕ → ℕ → Type 0
Writes [] n = n ≡ 0
Writes (k ∷ results) n = (1 ≤ k) × (k ≤ n) × Writes results (n - k)

pub write_loop-Writes :
    (results bytes : List ℕ) (f : FileUtil)
    → Writes results (length bytes)
    → write_loop results bytes f ≡ some (record f { content = f.content ++ bytes })
unfolding write_loop
write_loop-Writes results [] f w =
    ap (λ c. some (record f { content = c })) (sym (append-nil f.content))
write_loop-Writes [] (x ∷ xs) f w = absurd (omega arith)
write_loop-Writes (k ∷ results) (x ∷ xs) f (some_taken, within, w) =
    let left : length (drop k (x ∷ xs)) ≡ length (x ∷ xs) - k = length-drop k (x ∷ xs) in
    write_loop-Writes results (drop k (x ∷ xs))
      (record f { content = f.content ++ take k (x ∷ xs) }) (rw left w)
    ∙ ap (λ c. some (record f { content = c }))
        (append_assoc f.content (take k (x ∷ xs)) (drop k (x ∷ xs))
          ∙ ap (◌++◌ f.content) (take-append-drop k (x ∷ xs)))

-- As long as `fwrite` writes nothing, `append` of at least one byte has not returned, after
-- however many rounds.
pub append_bytes_stuck :
    (n x : ℕ) (xs : List ℕ) (f : FileUtil) → append_bytes (replicate n 0) (x ∷ xs) f ≡ none
unfolding append_bytes write_loop
append_bytes_stuck n x xs f = rw (stuck n f) refl
  where
    stuck : (n : ℕ) (f : FileUtil) → write_loop (replicate n 0) (x ∷ xs) f ≡ none
    stuck zero f = refl
    stuck (suc n) f = stuck n (record f { content = f.content ++ [] })
