-- ===== src/Base/Thread/Names.antt =====
-- src/base/Thread.cpp: the names that threads without a name are given.
use tiny_network.Prelude.{
  ℕ, zero, suc, ◌+◌, ◌^◌, ◌≤◌, ◌<◌, ◌≡◌, ◌≢◌, sym, ◌∙◌, ap, List, [], ◌∷◌, ◌++◌, arith, length,
  take_all, drop,
}
use tiny_network.Prelude.Decimal.{decimal, decimal_injective, length-decimal}
use tiny_network.Base.Thread.{default_name, prefix, create, create_unnamed}

name_short : (n : ℕ) → n < 2 ^ 31 → length (prefix ++ decimal n) ≤ 21
name_short n h = omega (arith, length-decimal n 9 (omega (arith, h)))

default_name_injective :
    (m n : ℕ) → m < 2 ^ 31 → n < 2 ^ 31 → default_name m [] ≡ default_name n [] → m ≡ n
unfolding default_name
default_name_injective m n hm hn h = decimal_injective m n (
    ap (drop 6) (
      sym (take_all 21 (prefix ++ decimal m) (name_short m hm))
      ∙ h
      ∙ take_all 21 (prefix ++ decimal n) (name_short n hn)))

-- No two names are equal.
abbrev pub DiffersFrom : List ℕ → List (List ℕ) → Type 0
DiffersFrom name [] = Unit
DiffersFrom name (x ∷ xs) = (name ≢ x) × DiffersFrom name xs

abbrev pub AreDistinct : List (List ℕ) → Type 0
AreDistinct [] = Unit
AreDistinct (x ∷ xs) = DiffersFrom x xs × AreDistinct xs

later_differ :
    (k n num : ℕ)
    → k ≤ num
    → num + n < 2 ^ 31
    → DiffersFrom (default_name k []) (create_unnamed n num)
unfolding create_unnamed create
later_differ k zero num below small = tt
later_differ k (suc n) num below small = (
  λ same. omega (
    arith,
    default_name_injective k (num + 1) (omega (arith, below, small)) (omega (arith, small)) same,
    below,
  ),
  later_differ k n (num + 1) (omega (arith, below)) (omega (arith, small)),
)

-- As long as the counter of threads stays below 2 ^ 31, the names that threads made without a name
-- are given are all different.
pub create_unnamed-AreDistinct :
    (n num_created : ℕ) → num_created + n < 2 ^ 31 → AreDistinct (create_unnamed n num_created)
unfolding create_unnamed create
create_unnamed-AreDistinct zero num small = tt
create_unnamed-AreDistinct (suc n) num small = (
  later_differ (num + 1) n (num + 1) (omega arith) (omega (arith, small)),
  create_unnamed-AreDistinct n (num + 1) (omega (arith, small)),
)
