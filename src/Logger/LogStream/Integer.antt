-- ===== src/Logger/LogStream/Integer.antt =====
-- src/logger/LogStream.cpp: the digits of an integer, and reading them back.
use mathlib.Core.List.{reverse, reverse-cons}
use native.Mathlib.Nat.{pow-suc}
use tiny_network.Prelude.{
  ℕ, zero, suc, ◌+◌, ◌-◌, ◌*◌, ◌/◌, ◌%◌, ◌^◌, ◌≤◌, ◌<◌, ◌≡◌, refl, true, false, List, [], ◌∷◌, ◌++◌,
  some, arith, ◌==◌, if◌then◌else◌, length, get_elem?, Bool-cases, inl, inr, subst,
}
use tiny_network.Prelude.Int.{ℤ, pos, negsuc, nat_abs, neg_of_nat}
use tiny_network.Logger.LogStream.{digits, quotient_ten, digit_index, is_zero, digit_loop}

-- The value of decimal digits, least significant first.
abbrev pub value_back : List ℕ → ℕ
value_back [] = 0
value_back (d ∷ ds) = d - b'0' + 10 * value_back ds

-- What the loop must write for a magnitude.
abbrev pub IsDigits : ℕ → List ℕ → Type 0
IsDigits n [] = ⊥
IsDigits n (d ∷ []) = (n < 10) × (d ≡ b'0' + n)
IsDigits n (d ∷ (k ∷ ds)) = (10 ≤ n) × (d ≡ b'0' + n % 10) × IsDigits (n / 10) (k ∷ ds)

digit_at : (r : ℕ) → r < 10 → get_elem? digits (9 + r) ≡ some (b'0' + r)
digit_at zero h = refl
digit_at (suc zero) h = refl
digit_at (suc (suc zero)) h = refl
digit_at (suc (suc (suc zero))) h = refl
digit_at (suc (suc (suc (suc zero)))) h = refl
digit_at (suc (suc (suc (suc (suc zero))))) h = refl
digit_at (suc (suc (suc (suc (suc (suc zero)))))) h = refl
digit_at (suc (suc (suc (suc (suc (suc (suc zero))))))) h = refl
digit_at (suc (suc (suc (suc (suc (suc (suc (suc zero)))))))) h = refl
digit_at (suc (suc (suc (suc (suc (suc (suc (suc (suc zero))))))))) h = refl
digit_at (suc (suc (suc (suc (suc (suc (suc (suc (suc (suc r)))))))))) h = absurd (omega arith)

mirrored_at : (r : ℕ) → r < 10 → get_elem? digits (9 - r) ≡ some (b'0' + r)
mirrored_at zero h = refl
mirrored_at (suc zero) h = refl
mirrored_at (suc (suc zero)) h = refl
mirrored_at (suc (suc (suc zero))) h = refl
mirrored_at (suc (suc (suc (suc zero)))) h = refl
mirrored_at (suc (suc (suc (suc (suc zero))))) h = refl
mirrored_at (suc (suc (suc (suc (suc (suc zero)))))) h = refl
mirrored_at (suc (suc (suc (suc (suc (suc (suc zero))))))) h = refl
mirrored_at (suc (suc (suc (suc (suc (suc (suc (suc zero)))))))) h = refl
mirrored_at (suc (suc (suc (suc (suc (suc (suc (suc (suc zero))))))))) h = refl
mirrored_at (suc (suc (suc (suc (suc (suc (suc (suc (suc (suc r)))))))))) h = absurd (omega arith)

-- Both halves of the table give the digit of the magnitude.
digit_lookup : (num : ℤ) → get_elem? digits (digit_index num) ≡ some (b'0' + nat_abs num % 10)
digit_lookup (pos n) = digit_at (n % 10) (omega arith)
digit_lookup (negsuc n) = mirrored_at (suc n % 10) (omega arith)

nat_abs-neg_of_nat : (n : ℕ) → nat_abs (neg_of_nat n) ≡ n
nat_abs-neg_of_nat zero = refl
nat_abs-neg_of_nat (suc n) = refl

nat_abs-quotient_ten : (num : ℤ) → nat_abs (quotient_ten num) ≡ nat_abs num / 10
nat_abs-quotient_ten (pos n) = refl
nat_abs-quotient_ten (negsuc n) = nat_abs-neg_of_nat (suc n / 10)

IsDigits-cons :
    (n d : ℕ) (ds : List ℕ)
    → 10 ≤ n
    → d ≡ b'0' + n % 10
    → IsDigits (n / 10) ds
    → IsDigits n (d ∷ ds)
IsDigits-cons n d [] h e i = absurd i
IsDigits-cons n d (k ∷ ds) h e i = (h, e, i)

fuel_left : (f : ℕ) → 1 < 10 ^ f → 0 < f
fuel_left zero h = absurd (omega arith)
fuel_left (suc f) h = omega arith

is_zero-eq_zero : (num : ℤ) → is_zero num ≡ true → nat_abs num ≡ 0
is_zero-eq_zero num h = ground arith

is_zero-ne_zero : (num : ℤ) → is_zero num ≡ false → 0 < nat_abs num
is_zero-ne_zero num h = ground arith

-- With enough fuel the loop ends, and what it wrote are the digits of the magnitude.
pub digit_loop-IsDigits :
    (fuel : ℕ) (num : ℤ)
    → 0 < fuel
    → nat_abs num < 10 ^ fuel
    → (ds : List ℕ) × (digit_loop fuel num ≡ some ds)
      × IsDigits (nat_abs num) ds
      × (length ds ≤ fuel)
unfolding digit_loop
digit_loop-IsDigits zero num pos_fuel h = absurd (omega arith)
digit_loop-IsDigits (suc fuel) num pos_fuel h =
    let tenth = nat_abs-quotient_ten num in
    elim (Bool-cases (is_zero (quotient_ten num))) [
      | inl last ↦
          let small : nat_abs num < 10 =
            omega (arith, is_zero-eq_zero (quotient_ten num) last, tenth) in
          (
            (b'0' + nat_abs num % 10) ∷ [],
            rw (digit_lookup num, last) refl,
            (small, omega arith),
            omega arith,
          )
      | inr more ↦
          let big : 10 ≤ nat_abs num =
            omega (arith, is_zero-ne_zero (quotient_ten num) more, tenth) in
          let (ds, run, is_digits, short) =
            digit_loop-IsDigits fuel (quotient_ten num)
              (fuel_left fuel (omega (arith, pow-suc 10 fuel)))
              (omega (arith, tenth, pow-suc 10 fuel)) in
          (
            (b'0' + nat_abs num % 10) ∷ ds,
            rw (digit_lookup num, more, run) refl,
            IsDigits-cons (nat_abs num) (b'0' + nat_abs num % 10) ds big refl
                (subst (λ t. IsDigits t ds) tenth is_digits),
            omega arith,
          )
    ]

-- Reading a text of digits, most significant first, and an integer with its sign.
unfoldable pub value : ℕ → List ℕ → ℕ
value acc [] = acc
value acc (c ∷ cs) = value (acc * 10 + (c - b'0')) cs

unfoldable pub read_integer : List ℕ → ℤ
read_integer [] = pos 0
read_integer (c ∷ cs) = if c == b'-' then neg_of_nat (value 0 cs) else pos (value 0 (c ∷ cs))

value-snoc :
    (acc : ℕ) (cs : List ℕ) (d : ℕ) → value acc (cs ++ (d ∷ [])) ≡ value acc cs * 10 + (d - b'0')
unfolding value
value-snoc acc [] d = refl
value-snoc acc (c ∷ cs) d = value-snoc (acc * 10 + (c - b'0')) cs d

pub value-reverse : (ds : List ℕ) (n : ℕ) → IsDigits n ds → value 0 (reverse ds) ≡ n
unfolding value
value-reverse [] n i = absurd i
value-reverse (d ∷ []) n (small, e) = omega arith
value-reverse (d ∷ (k ∷ ds)) n (big, e, rest) =
    rw
      (
        reverse-cons d (k ∷ ds),
        value-snoc 0 (reverse (k ∷ ds)) d,
        value-reverse (k ∷ ds) (n / 10) rest,
      )
      (omega arith)
