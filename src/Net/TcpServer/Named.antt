-- ===== src/Net/TcpServer/Named.antt =====
-- src/net/TcpServer.cpp: connections under the names of their numbers, and the map of them.
use tiny_network.Prelude.{
  ℕ, ◌+◌, ◌≤◌, ◌<◌, ◌≡◌, inl, inr, refl, sym, ◌∙◌, ap, List, [], ◌∷◌, ◌++◌, Option, none, some,
  subst, false, ==_iff, ==_refl, ◌≢◌, Bool, true, arith, ◌==◌, ne→==, Bool-cases, if◌then◌else◌,
  length,
}
use mathlib.Core.List.{Memᴰ}
use mathlib.Core.List.Memᴰ
use tiny_network.Net.TcpServer.{Server, Connection, insert, erase, conn_name, int_max, same_chars}
use tiny_network.Net.TcpServer.Names.{same_chars-conn_name, same_chars→eq}

module _ (L F : Type 0) where
  -- A connection with the number that it was accepted under.
  abbrev pub Numbered : Type 0
  Numbered = ℕ × Connection L F

  abbrev pub without : ℕ → List Numbered → List Numbered
  without id [] = []
  without id ((i, conn) ∷ live) =
      let rest = without id live in if i == id then rest else (i, conn) ∷ rest

  -- The connection that is alive under the name of its number.
  abbrev pub held : Server L F → List Numbered → List ℕ → Option (Connection L F)
  held s [] key = none
  held s ((id, conn) ∷ live) key =
      let rest = held s live key in if same_chars (conn_name L F s id) key then some conn else rest

  -- Every number is below the next one, and every connection has the name of its number.
  abbrev pub AreNamed : Server L F → ℕ → List Numbered → Type 0
  AreNamed s n [] = Unit
  AreNamed s n ((id, conn) ∷ live) = (id < n) × (conn.name ≡ conn_name L F s id) × AreNamed s n live

  pub conn_name_same :
      (s t : Server L F) (id : ℕ)
      → t.name ≡ s.name
      → t.ip_port ≡ s.ip_port
      → conn_name L F t id ≡ conn_name L F s id
  unfolding conn_name
  conn_name_same s t id same_name same_ip_port = rw (same_name, same_ip_port) refl

  pub AreNamed-suc :
      (s : Server L F) (n : ℕ) (live : List Numbered) → AreNamed s n live → AreNamed s (n + 1) live
  AreNamed-suc s n [] a = tt
  AreNamed-suc s n ((id, conn) ∷ live) (small, is, a) =
      (omega (arith, small), is, AreNamed-suc s n live a)

  pub AreNamed-snoc :
      (s : Server L F) (n id : ℕ) (conn : Connection L F) (live : List Numbered)
      → AreNamed s n live
      → id < n
      → conn.name ≡ conn_name L F s id
      → AreNamed s n (live ++ ((id, conn) ∷ []))
  AreNamed-snoc s n id conn [] a small is = (small, is, tt)
  AreNamed-snoc s n id conn ((i, c) ∷ live) (below, named, a) small is =
      (below, named, AreNamed-snoc s n id conn live a small is)

  pub AreNamed-without :
      (s : Server L F) (n id : ℕ) (live : List Numbered)
      → AreNamed s n live
      → AreNamed s n (without id live)
  AreNamed-without s n id [] a = tt
  AreNamed-without s n id ((i, c) ∷ live) (below, named, a) = elim (Bool-cases (i == id)) [
    | inl gone ↦ rw gone (AreNamed-without s n id live a)
    | inr stays ↦ rw stays (below, named, AreNamed-without s n id live a)
  ]

  -- A new name is of no connection that is alive.
  pub insert_new :
      (s : Server L F) (n : ℕ) (conn : Connection L F) (live : List Numbered)
      → length s.ip_port ≤ 21
      → n < int_max
      → AreNamed s n live
      → (key : List ℕ)
      → insert (conn_name L F s n) conn (held s live) key ≡ held s (live ++ ((n, conn) ∷ [])) key
  unfolding insert
  insert_new s n conn [] short small a key = refl
  insert_new s n conn ((i, c) ∷ live) short small (below, named, a) key =
      let rest = insert_new s n conn live short small a key in
      elim (Bool-cases (same_chars (conn_name L F s i) key)) [
        | inr miss ↦ rw miss rest
        | inl hit ↦
            let apart : same_chars (conn_name L F s n) (conn_name L F s i) ≡ false =
              same_chars-conn_name s n i short small (omega (arith, below, small))
              ∙ ne→== n i (λ same. omega (arith, below, same)) in
            rw
              (
                hit,
                subst (λ k. same_chars (conn_name L F s n) k ≡ false)
                    (same_chars→eq (conn_name L F s i) key hit) apart,
              )
              refl
      ]

  -- A name is of one connection only.
  pub erase_named :
      (s : Server L F) (n id : ℕ) (live : List Numbered)
      → length s.ip_port ≤ 21
      → n ≤ int_max
      → id < n
      → AreNamed s n live
      → (key : List ℕ) → erase (conn_name L F s id) (held s live) key ≡ held s (without id live) key
  unfolding erase
  erase_named s n id [] short small h a key =
      elim (Bool-cases (same_chars (conn_name L F s id) key)) [
        | inl hit ↦ rw hit refl
        | inr miss ↦ rw miss refl
      ]
  erase_named s n id ((i, c) ∷ live) short small h (below, named, a) key =
      let rest = erase_named s n id live short small h a key in
      let same =
        same_chars-conn_name s i id short (omega (arith, below, small)) (omega (arith, h, small)) in
      elim (Bool-cases (i == id)) [
        | inl gone ↦ rw gone (
            skip_same (same_chars (conn_name L F s i) key) (same_chars (conn_name L F s id) key) _ _
              (ap (λ k. same_chars (conn_name L F s k) key) ((==_iff i id).0 gone))
            ∙ rest)
        | inr stays ↦ elim (Bool-cases (same_chars (conn_name L F s i) key)) [
          | inr miss ↦ rw (stays, miss) rest
          | inl hit ↦
              let apart : same_chars (conn_name L F s id) (conn_name L F s i) ≡ false =
                same_chars-conn_name s id i short (omega (arith, h, small))
                  (omega (arith, below, small))
                ∙ ne→== id i (λ e. clash (sym stays ∙ rw e (==_refl i))) in
              rw
                (
                  stays,
                  hit,
                  subst (λ k. same_chars (conn_name L F s id) k ≡ false)
                      (same_chars→eq (conn_name L F s i) key hit) apart,
                )
                refl
        ]
      ]
    where
      clash : false ≢ true
      clash h = cc

      skip_same :
          {A : Type 0} (a b : Bool) (x : A) (o : Option A)
          → a ≡ b
          → (if b then none else (if a then some x else o)) ≡ (if b then none else o)
      skip_same true true x o h = refl
      skip_same true false x o h = absurd (clash (sym h))
      skip_same false b x o h = refl

  pub member_named :
      (s : Server L F) (n id : ℕ) (conn : Connection L F) (live : List Numbered)
      → AreNamed s n live
      → Memᴰ (id, conn) live
      → (id < n) × (conn.name ≡ conn_name L F s id)
  member_named s n id conn [] a m = absurd (Memᴰ.not-nil m)
  member_named s n id conn ((i, c) ∷ live) (below, named, a) (Memᴰ.head e) = (
    omega (arith, below, ap (λ x. x.0) e),
    ap (λ x. x.1.name) e ∙ named ∙ ap (λ x. conn_name L F s x.0) (sym e),
  )
  member_named s n id conn ((i, c) ∷ live) (below, named, a) (Memᴰ.tail m) =
      member_named s n id conn live a m
