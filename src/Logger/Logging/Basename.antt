-- ===== src/Logger/Logging/Basename.antt =====
-- include/logger/Logging.h: the name that `SourceFile` takes out of a path.
use tiny_network.Prelude.{
  ℕ, ◌≡◌, ◌≢◌, ◌⊎◌, inl, inr, refl, sym, ◌∙◌, append_assoc, ap, List, [], ◌∷◌, ◌++◌, Option, none,
  some, ◌==◌, Bool-cases, subst, Option-cases, ==_iff, arith,
}
use tiny_network.Logger.Logging.{strrchr, source_file}

abbrev pub Lacks : ℕ → List ℕ → Type 0
Lacks c [] = Unit
Lacks c (x ∷ xs) = (x ≢ c) × Lacks c xs

-- A path without the character, or one cut at its last.
abbrev pub IsCut : ℕ → List ℕ → Option (List ℕ) → Type 0
IsCut c path none = Lacks c path
IsCut c path (some found) =
    (dir : List ℕ) × (name : List ℕ) × (found ≡ (c ∷ name))
    × (path ≡ dir ++ (c ∷ name))
    × Lacks c name

strrchr-IsCut : (path : List ℕ) (c : ℕ) → IsCut c path (strrchr path c)
strrchr-IsCut [] c = tt
strrchr-IsCut (x ∷ xs) c = elim (Option-cases (strrchr xs c)) [
  | inr (found, h) ↦
      let (dir, name, is, path, lacks) = subst (IsCut c xs) h (strrchr-IsCut xs c) in
      rw h (x ∷ dir, name, is, ap (◌∷◌ x) path, lacks)
  | inl h ↦
      let lacks = subst (IsCut c xs) h (strrchr-IsCut xs c) in
      elim (Bool-cases (x == c)) [
        | inl same ↦
            rw (h, same)
              (
                [],
                xs,
                ap (λ k. k ∷ xs) ((==_iff x c).0 same),
                ap (λ k. k ∷ xs) ((==_iff x c).0 same),
                lacks,
              )
        | inr other ↦ rw (h, other) ((λ same. ground (arith, other, same)), lacks)
      ]
]

-- The name of a source file is the end of its path behind the last '/': it holds no '/', and what
-- stands before it in the path is empty or ends in one.
pub source_file_lem :
    (path : List ℕ)
    → (dir : List ℕ) × (path ≡ dir ++ (source_file path).data_)
      × Lacks b'/' (source_file path).data_
      × ((dir ≡ []) ⊎ ((parent : List ℕ) × (dir ≡ parent ++ (b'/' ∷ []))))
unfolding source_file
source_file_lem path = elim (Option-cases (strrchr path b'/')) [
  | inl h ↦
      rw (source_file, h) ([], refl, subst (IsCut b'/' path) h (strrchr-IsCut path b'/'), inl refl)
  | inr (found, h) ↦
      let (dir, name, is, cut, lacks) = subst (IsCut b'/' path) h (strrchr-IsCut path b'/') in
      rw (source_file, h, is)
        (dir ++ (b'/' ∷ []), cut ∙ sym (append_assoc dir (b'/' ∷ []) name), lacks, inr (dir, refl))
]
