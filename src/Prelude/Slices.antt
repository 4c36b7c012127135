-- ===== src/Prelude/Slices.antt =====
-- Ranges of a list: reading one, and writing over one (`std::copy`), with the faults of both.
use Prim.Native.Nat.{ℕ, zero, suc, ◌+◌, ◌<◌, ◌≤◌}
use mathlib.Core.Path.{◌≡◌, refl, ap, sym, ◌∙◌}
use mathlib.Core.List.{List, [], ◌∷◌, ◌++◌}
use mathlib.Core.Option.{Option, none, some}
use native.Mathlib.Omega.{arith}
use tiny_network.Prelude.Tests.{ltb, if◌then◌else◌}
use tiny_network.Prelude.Lists.{length, take, drop, length-take, length-drop, length-append}

module _ {ℓ} {A : Type ℓ} where
  -- The `n` items from the start; a fault if there are fewer.
  unfoldable pub read_range : List A → ℕ → Option (List A)
  read_range xs n = if ltb (length xs) n then none else some (take n xs)

  -- Writes `ys` over the items from index `i` on; a fault if they do not fit.
  unfoldable pub splice : List A → ℕ → List A → Option (List A)
  splice xs i ys =
      if ltb (length xs) (i + length ys)
      then none
      else some (take i xs ++ (ys ++ drop (i + length ys) xs))

  unfoldable pub slice : List A → ℕ → ℕ → List A
  slice xs i n = take n (drop i xs)

  pub read_range_fits : (xs : List A) (n : ℕ) → n ≤ length xs → read_range xs n ≡ some (take n xs)
  unfolding read_range
  read_range_fits xs n h = ground arith

  pub read_range_beyond : (xs : List A) (n : ℕ) → length xs < n → read_range xs n ≡ none
  unfolding read_range
  read_range_beyond xs n h = ground arith

  pub splice_fits :
      (xs : List A) (i : ℕ) (ys : List A)
      → i + length ys ≤ length xs
      → splice xs i ys ≡ some (take i xs ++ (ys ++ drop (i + length ys) xs))
  unfolding splice
  splice_fits xs i ys h = ground arith

  pub length-splice :
      (xs : List A) (i n : ℕ) (ys : List A)
      → n ≡ i + length ys
      → n ≤ length xs
      → length (take i xs ++ (ys ++ drop n xs)) ≡ length xs
  length-splice xs i n ys e h = omega (
    arith,
    length-append (take i xs) (ys ++ drop n xs),
    length-append ys (drop n xs),
    length-take i xs,
    length-drop n xs,
  )

  pub take_prefix : (n : ℕ) (ys rest : List A) → n ≡ length ys → take n (ys ++ rest) ≡ ys
  take_prefix zero [] rest e = refl
  take_prefix zero (y ∷ ys) rest e = absurd (omega arith)
  take_prefix (suc n) [] rest e = absurd (omega arith)
  take_prefix (suc n) (y ∷ ys) rest e = ap (◌∷◌ y) (take_prefix n ys rest (omega arith))

  drop_prefix : (n : ℕ) (ys rest : List A) → n ≡ length ys → drop n (ys ++ rest) ≡ rest
  drop_prefix zero [] rest e = refl
  drop_prefix zero (y ∷ ys) rest e = absurd (omega arith)
  drop_prefix (suc n) [] rest e = absurd (omega arith)
  drop_prefix (suc n) (y ∷ ys) rest e = drop_prefix n ys rest (omega arith)

  -- Two texts of parts that are equally long.
  pub same_parts :
      (xs ys zs ws : List A) → length xs ≡ length zs → xs ++ ys ≡ zs ++ ws → (xs ≡ zs) × (ys ≡ ws)
  same_parts xs ys zs ws e h = (
    sym (take_prefix (length xs) xs ys refl)
        ∙ ap (take (length xs)) h
        ∙ take_prefix (length xs) zs ws e,
    sym (drop_prefix (length xs) xs ys refl)
        ∙ ap (drop (length xs)) h
        ∙ drop_prefix (length xs) zs ws e,
  )

  take_extended :
      (m n : ℕ) (xs ys rest : List A)
      → m ≤ length xs
      → n ≡ m + length ys
      → take n (take m xs ++ (ys ++ rest)) ≡ take m xs ++ ys
  take_extended zero n xs ys rest h e = take_prefix n ys rest (omega arith)
  take_extended (suc m) n [] ys rest h e = absurd (omega arith)
  take_extended (suc m) zero (x ∷ xs) ys rest h e = absurd (omega arith)
  take_extended (suc m) (suc n) (x ∷ xs) ys rest h e =
      ap (◌∷◌ x) (take_extended m n xs ys rest (omega arith) (omega arith))

  -- Writing `ys` at index `w` extends by `ys` the slice that ends there.
  pub slice_extended :
      (r w m n : ℕ) (xs ys rest : List A)
      → m + r ≡ w
      → w ≤ length xs
      → n ≡ m + length ys
      → slice (take w xs ++ (ys ++ rest)) r n ≡ slice xs r m ++ ys
  unfolding slice
  slice_extended zero w m n xs ys rest e h k =
      let same : m ≡ w = omega arith in rw (← same) (take_extended m n xs ys rest (omega arith) k)
  slice_extended (suc r) zero m n xs ys rest e h k = absurd (omega arith)
  slice_extended (suc r) (suc w) m n [] ys rest e h k = absurd (omega arith)
  slice_extended (suc r) (suc w) m n (x ∷ xs) ys rest e h k =
      slice_extended r w m n xs ys rest (omega arith) (omega arith) k

  -- A slice does not see what is added behind it.
  pub slice-append :
      (r m : ℕ) (xs zs : List A) → r + m ≤ length xs → slice (xs ++ zs) r m ≡ slice xs r m
  unfolding slice
  slice-append zero zero xs zs h = refl
  slice-append zero (suc m) [] zs h = absurd (omega arith)
  slice-append zero (suc m) (x ∷ xs) zs h = ap (◌∷◌ x) (slice-append zero m xs zs (omega arith))
  slice-append (suc r) zero xs zs h = refl
  slice-append (suc r) (suc m) [] zs h = absurd (omega arith)
  slice-append (suc r) (suc m) (x ∷ xs) zs h = slice-append r (suc m) xs zs (omega arith)

  take_nil : (m : ℕ) → take {A = A} m [] ≡ []
  take_nil zero = refl
  take_nil (suc m) = refl

  pub take-take : (m n : ℕ) (xs : List A) → m ≤ n → take m (take n xs) ≡ take m xs
  take-take zero n xs h = refl
  take-take (suc m) zero xs h = absurd (omega arith)
  take-take (suc m) (suc n) [] h = refl
  take-take (suc m) (suc n) (x ∷ xs) h = ap (◌∷◌ x) (take-take m n xs (omega arith))

  drop-take : (k n m : ℕ) (xs : List A) → m + k ≡ n → drop k (take n xs) ≡ take m (drop k xs)
  drop-take zero n m xs e = let same : n ≡ m = omega arith in rw same
  drop-take (suc k) zero m xs e = absurd (omega arith)
  drop-take (suc k) (suc n) m [] e = sym (take_nil m)
  drop-take (suc k) (suc n) m (x ∷ xs) e = drop-take k n m xs (omega arith)

  pub drop-drop : (r k s : ℕ) (xs : List A) → s ≡ r + k → drop k (drop r xs) ≡ drop s xs
  drop-drop zero k s xs e = let same : k ≡ s = omega arith in rw same
  drop-drop (suc r) k zero xs e = absurd (omega arith)
  drop-drop (suc r) zero (suc s) [] e = refl
  drop-drop (suc r) (suc k) (suc s) [] e = refl
  drop-drop (suc r) k (suc s) (x ∷ xs) e = drop-drop r k s xs (omega arith)

  -- Dropping from a slice is moving its start.
  pub drop-slice :
      (r k s n m : ℕ) (xs : List A) → m + k ≡ n → s ≡ r + k → drop k (slice xs r n) ≡ slice xs s m
  unfolding slice
  drop-slice r k s n m xs e f = drop-take k n m (drop r xs) e ∙ ap (take m) (drop-drop r k s xs f)

  pub length-slice : (xs : List A) (i n : ℕ) → i + n ≤ length xs → length (slice xs i n) ≡ n
  unfolding slice
  length-slice xs i n h = omega (arith, length-take n (drop i xs), length-drop i xs)
