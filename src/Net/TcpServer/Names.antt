-- ===== src/Net/TcpServer/Names.antt =====
-- src/net/TcpServer.cpp: the names of connections.
use tiny_network.Prelude.{
  ℕ, ◌≤◌, ◌<◌, ◌≡◌, inl, inr, refl, sym, subst, ◌∙◌, ap, true, false, ◌&&◌, List, [], ◌∷◌, ◌++◌,
  arith, ◌==◌, ==_refl, ==_iff, Bool-cases, length, length-append, take_all, drop,
}
use tiny_network.Prelude.Decimal.{decimal, decimal_injective, length-decimal}
use tiny_network.Net.TcpServer.{Server, same_chars, conn_name, int_max}

same_chars_refl : (xs : List ℕ) → same_chars xs xs ≡ true
same_chars_refl [] = refl
same_chars_refl (x ∷ xs) = rw (==_refl x) (same_chars_refl xs)

pub same_chars→eq : (xs ys : List ℕ) → same_chars xs ys ≡ true → xs ≡ ys
same_chars→eq [] [] h = refl
same_chars→eq [] (y ∷ ys) h = ground arith
same_chars→eq (x ∷ xs) [] h = ground arith
same_chars→eq (x ∷ xs) (y ∷ ys) h = elim (Bool-cases (x == y)) [
  | inl same ↦
      let tails = same_chars→eq xs ys (subst (λ b. (b && same_chars xs ys) ≡ true) same h) in
      ap (◌∷ xs) ((==_iff x y).0 same) ∙ ap (◌∷◌ y) tails
  | inr other ↦
      let clash : false ≡ true = subst (λ b. (b && same_chars xs ys) ≡ true) other h in
      absurd (ground (arith, clash))
]

drop-append : (xs ys : List ℕ) → drop (length xs) (xs ++ ys) ≡ ys
drop-append [] ys = refl
drop-append (x ∷ xs) ys = drop-append xs ys

append_cancel : (xs ys zs : List ℕ) → xs ++ ys ≡ xs ++ zs → ys ≡ zs
append_cancel xs ys zs h = sym (drop-append xs ys) ∙ ap (drop (length xs)) h ∙ drop-append xs zs

module _ {L F : Type 0} where
  short_name :
      (s : Server L F) (id : ℕ)
      → length s.ip_port ≤ 21
      → id < int_max
      → length (b'-' ∷ (s.ip_port ++ (b'#' ∷ decimal id))) ≤ 63
  short_name s id short small = omega (
    arith,
    short,
    length-append s.ip_port (b'#' ∷ decimal id),
    length-decimal id 9 (omega (arith, small)),
  )

  -- Two numbers below the largest int give two names.
  pub conn_name_injective :
      (s : Server L F) (i j : ℕ)
      → length s.ip_port ≤ 21
      → i < int_max
      → j < int_max
      → conn_name L F s i ≡ conn_name L F s j
      → i ≡ j
  unfolding conn_name
  conn_name_injective s i j short hi hj h =
      let texts = append_cancel s.name _ _ h in
      let whole =
        sym (take_all 63 (b'-' ∷ (s.ip_port ++ (b'#' ∷ decimal i))) (short_name s i short hi))
        ∙ texts
        ∙ take_all 63 (b'-' ∷ (s.ip_port ++ (b'#' ∷ decimal j))) (short_name s j short hj) in
      let numbers =
        append_cancel s.ip_port (b'#' ∷ decimal i) (b'#' ∷ decimal j) (ap (drop 1) whole) in
      decimal_injective i j (ap (drop 1) numbers)

  -- Names are equal exactly if the numbers are.
  pub same_chars-conn_name :
      (s : Server L F) (i j : ℕ)
      → length s.ip_port ≤ 21
      → i < int_max
      → j < int_max
      → same_chars (conn_name L F s i) (conn_name L F s j) ≡ (i == j)
  same_chars-conn_name s i j short hi hj = elim (Bool-cases (i == j)) [
    | inl same ↦ rw (same, (==_iff i j).0 same) (same_chars_refl (conn_name L F s j))
    | inr other ↦ elim (Bool-cases (same_chars (conn_name L F s i) (conn_name L F s j))) [
      | inl clash ↦
          let equal = conn_name_injective s i j short hi hj (same_chars→eq _ _ clash) in
          absurd (ground (arith, equal, other))
      | inr apart ↦ apart ∙ sym other
    ]
  ]
