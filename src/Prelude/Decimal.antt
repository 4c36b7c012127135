-- ===== src/Prelude/Decimal.antt =====
-- Decimal numbers as `snprintf` writes them.
use mathlib.Core.List.{List, [], ◌∷◌, ◌++◌, reverse, reverse-append, reverse-cons, reverse-reverse}
use mathlib.Core.Path.{◌≡◌, refl, sym, ap, ◌∙◌}
use mathlib.Core.Logic.{inl, inr}
use Prim.Native.Nat.{ℕ, zero, suc, ◌+◌, ◌-◌, ◌*◌, ◌/◌, ◌%◌, ◌^◌, ◌≤◌, ◌<◌}
use native.Mathlib.Omega.{arith}
use tiny_network.Prelude.Tests.{◌==◌, if◌then◌else◌, Bool-cases, ==_iff}
use tiny_network.Prelude.Lists.{length, length-append, replicate, length-replicate}

-- The digits of a number, the lowest first.
low_digits : ℕ → ℕ → List ℕ
low_digits zero n = []
low_digits (suc fuel) n =
    let rest = low_digits fuel (n / 10) in (b'0' + n % 10) ∷ (if n / 10 == 0 then [] else rest)

low_value : List ℕ → ℕ
low_value [] = 0
low_value (d ∷ ds) = d - b'0' + 10 * low_value ds

low_value-low_digits : (fuel n : ℕ) → n < fuel → low_value (low_digits fuel n) ≡ n
unfolding low_digits low_value
low_value-low_digits zero n h = absurd (omega arith)
low_value-low_digits (suc fuel) n h = elim (Bool-cases (n / 10 == 0)) [
  | inl last ↦ let small : n / 10 ≡ 0 = (==_iff (n / 10) 0).0 last in rw last (omega arith)
  | inr more ↦ rw more (omega (arith, low_value-low_digits fuel (n / 10) (ground arith)))
]

length-low_digits : (fuel n k : ℕ) → n < 10 ^ suc k → length (low_digits fuel n) ≤ suc k
unfolding low_digits
length-low_digits zero n k h = omega arith
length-low_digits (suc fuel) n zero h = elim (Bool-cases (n / 10 == 0)) [
  | inl last ↦ rw last (omega arith)
  | inr more ↦ absurd (ground arith)
]
length-low_digits (suc fuel) n (suc k) h = elim (Bool-cases (n / 10 == 0)) [
  | inl last ↦ rw last (omega arith)
  | inr more ↦ rw more (omega (arith, length-low_digits fuel (n / 10) k (omega arith)))
]

pub length-reverse {ℓ} : {A : Type ℓ} (xs : List A) → length (reverse xs) ≡ length xs
length-reverse [] = refl
length-reverse (x ∷ xs) =
    omega
      (arith, ap length (reverse-cons x xs), length-append (reverse xs) (x ∷ []), length-reverse xs)

-- "%d" of a number that is not negative.
unfoldable pub decimal : ℕ → List ℕ
unfolding low_digits
decimal n = reverse (low_digits (suc n) n)

-- "%<width>d" with blanks in front, and with zeroes for "%0<width>d".
unfoldable pub padded : ℕ → ℕ → ℕ → List ℕ
padded filler width n = replicate (width - length (decimal n)) filler ++ decimal n

pub length-decimal : (n k : ℕ) → n < 10 ^ suc k → length (decimal n) ≤ suc k
unfolding decimal
length-decimal n k h =
    omega (arith, length-reverse (low_digits (suc n) n), length-low_digits (suc n) n k h)

pub length-padded : (filler k n : ℕ) → n < 10 ^ suc k → length (padded filler (suc k) n) ≡ suc k
unfolding padded
length-padded filler k n h = omega (
  arith,
  length-append (replicate (suc k - length (decimal n)) filler) (decimal n),
  length-replicate (suc k - length (decimal n)) filler,
  length-decimal n k h,
)

pub decimal_injective : (m n : ℕ) → decimal m ≡ decimal n → m ≡ n
unfolding decimal
decimal_injective m n h =
    sym (low_value-low_digits (suc m) m (omega arith))
    ∙ ap low_value (
        sym (reverse-reverse (low_digits (suc m) m))
        ∙ ap reverse h
        ∙ reverse-reverse (low_digits (suc n) n))
    ∙ low_value-low_digits (suc n) n (omega arith)

low_value-append_zeros : (xs : List ℕ) (k : ℕ) → low_value (xs ++ replicate k b'0') ≡ low_value xs
unfolding low_value
low_value-append_zeros [] zero = refl
low_value-append_zeros [] (suc k) = omega (arith, low_value-append_zeros [] k)
low_value-append_zeros (x ∷ xs) k = omega (arith, low_value-append_zeros xs k)

reverse-replicate : (k c : ℕ) → reverse (replicate k c) ≡ replicate k c
reverse-replicate zero c = refl
reverse-replicate (suc k) c =
    reverse-cons c (replicate k c) ∙ ap (◌++ (c ∷ [])) (reverse-replicate k c) ∙ replicate-snoc k c
  where
    replicate-snoc : (k c : ℕ) → replicate k c ++ (c ∷ []) ≡ c ∷ replicate k c
    replicate-snoc zero c = refl
    replicate-snoc (suc k) c = ap (◌∷◌ c) (replicate-snoc k c)

-- Zeroes in front do not change the number.
value_of_padded : (width n : ℕ) → low_value (reverse (padded b'0' width n)) ≡ n
unfolding padded decimal
value_of_padded width n =
    ap low_value (
      reverse-append (replicate (width - length (decimal n)) b'0') (decimal n)
      ∙ ap (reverse (decimal n) ++◌) (reverse-replicate (width - length (decimal n)) b'0'))
    ∙ low_value-append_zeros (reverse (decimal n)) (width - length (decimal n))
    ∙ ap low_value (reverse-reverse (low_digits (suc n) n))
    ∙ low_value-low_digits (suc n) n (omega arith)

pub padded_injective : (width m n : ℕ) → padded b'0' width m ≡ padded b'0' width n → m ≡ n
padded_injective width m n h =
    sym (value_of_padded width m) ∙ ap (λ t. low_value (reverse t)) h ∙ value_of_padded width n

-- No character below '0', as '/' is.
abbrev pub AreDigits : List ℕ → Type 0
AreDigits [] = Unit
AreDigits (x ∷ xs) = (b'0' ≤ x) × AreDigits xs

AreDigits-append : (xs ys : List ℕ) → AreDigits xs → AreDigits ys → AreDigits (xs ++ ys)
AreDigits-append [] ys a b = b
AreDigits-append (x ∷ xs) ys (d, a) b = (d, AreDigits-append xs ys a b)

reverse-AreDigits : (xs : List ℕ) → AreDigits xs → AreDigits (reverse xs)
reverse-AreDigits [] a = tt
reverse-AreDigits (x ∷ xs) (d, a) =
    rw (reverse-cons x xs) (AreDigits-append (reverse xs) (x ∷ []) (reverse-AreDigits xs a) (d, tt))

low_digits-AreDigits : (fuel n : ℕ) → AreDigits (low_digits fuel n)
unfolding low_digits
low_digits-AreDigits zero n = tt
low_digits-AreDigits (suc fuel) n = elim (Bool-cases (n / 10 == 0)) [
  | inl last ↦ rw last (omega arith, tt)
  | inr more ↦ rw more (omega arith, low_digits-AreDigits fuel (n / 10))
]

replicate-AreDigits : (k : ℕ) → AreDigits (replicate k b'0')
replicate-AreDigits zero = tt
replicate-AreDigits (suc k) = (omega arith, replicate-AreDigits k)

pub padded-AreDigits : (width n : ℕ) → AreDigits (padded b'0' width n)
unfolding padded decimal
padded-AreDigits width n =
    AreDigits-append (replicate (width - length (decimal n)) b'0') (decimal n)
      (replicate-AreDigits (width - length (decimal n)))
      (reverse-AreDigits (low_digits (suc n) n) (low_digits-AreDigits (suc n) n))
