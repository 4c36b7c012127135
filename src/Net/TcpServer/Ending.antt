-- ===== src/Net/TcpServer/Ending.antt =====
-- src/net/TcpServer.cpp: the destructor, and the order in which the map gives its entries.
use tiny_network.Prelude.{
  ℕ, ◌≤◌, ◌<◌, ◌≡◌, ◌≢◌, refl, sym, ◌∙◌, ap, subst, true, List, [], ◌∷◌, ◌++◌, map, Option, some,
  none, if◌then◌else◌, ◌==◌, ==_refl, ne→==, Bool-cases, inl, inr, append-nil, append_assoc, arith,
  length,
}
use mathlib.Core.List.{Memᴰ}
use mathlib.Core.List.Memᴰ
use mathlib.Core.Option.{some-injective, none-ne-some}
use tiny_network.Net.TcpServer.{
  Server, Connection, Effect, runs_in_loop, connect_destroyed, destroy, emit, int_max, conn_name,
  same_chars,
}
use tiny_network.Net.TcpServer.Names.{same_chars→eq, same_chars-conn_name}
use tiny_network.Net.TcpServer.Named.{Numbered, AreNamed, held, without, member_named}
use tiny_network.Net.TcpServer.Live.{Reaches, begins, accepts, removes, Reaches-Holds}

module _ (L F : Type 0) where
  abbrev pub Entry : Type 0
  Entry = List ℕ × Connection L F

  abbrev pub hands_over : Entry → Effect L F
  hands_over (key, conn) = runs_in_loop conn.loop (connect_destroyed conn)

  -- No other entry has this name.
  abbrev pub IsNewName : List ℕ → List Entry → Type 0
  IsNewName key [] = Unit
  IsNewName key ((k, conn) ∷ entries) = (key ≢ k) × IsNewName key entries

  -- What an iterator gives: every entry of the map, and each name once.
  abbrev pub AreOnceNamed : List Entry → Type 0
  AreOnceNamed [] = Unit
  AreOnceNamed ((key, conn) ∷ entries) = IsNewName key entries × AreOnceNamed entries

  pub record Iterates (m : List ℕ → Option (Connection L F)) (entries : List Entry) : Type 0 where
    pub once : AreOnceNamed entries
    pub all_of :
        (key : List ℕ) (conn : Connection L F) → m key ≡ some conn → Memᴰ (key, conn) entries
    pub none_else :
        (key : List ℕ) (conn : Connection L F) → Memᴰ (key, conn) entries → m key ≡ some conn

  -- The numbers of connections that are alive are different.
  abbrev IsNewNumber : ℕ → List (Numbered L F) → Type 0
  IsNewNumber id [] = Unit
  IsNewNumber id ((i, conn) ∷ live) = (id ≢ i) × IsNewNumber id live

  abbrev AreOnce : List (Numbered L F) → Type 0
  AreOnce [] = Unit
  AreOnce ((id, conn) ∷ live) = IsNewNumber id live × AreOnce live

  IsNewNumber-snoc :
      (id n : ℕ) (conn : Connection L F) (live : List (Numbered L F))
      → id ≢ n
      → IsNewNumber id live
      → IsNewNumber id (live ++ ((n, conn) ∷ []))
  IsNewNumber-snoc id n conn [] other new = (other, tt)
  IsNewNumber-snoc id n conn ((i, c) ∷ live) other (differs, new) =
      (differs, IsNewNumber-snoc id n conn live other new)

  AreOnce-snoc :
      (s : Server L F) (n : ℕ) (conn : Connection L F) (live : List (Numbered L F))
      → AreNamed L F s n live
      → AreOnce live
      → AreOnce (live ++ ((n, conn) ∷ []))
  AreOnce-snoc s n conn [] a once = (tt, tt)
  AreOnce-snoc s n conn ((i, c) ∷ live) (below, named, a) (new, once) = (
    IsNewNumber-snoc i n conn live (λ same. omega (arith, below, same)) new,
    AreOnce-snoc s n conn live a once,
  )

  IsNewNumber-without :
      (id gone : ℕ) (live : List (Numbered L F))
      → IsNewNumber id live
      → IsNewNumber id (without L F gone live)
  IsNewNumber-without id gone [] new = tt
  IsNewNumber-without id gone ((i, c) ∷ live) (differs, new) = elim (Bool-cases (i == gone)) [
    | inl same ↦ rw same (IsNewNumber-without id gone live new)
    | inr stays ↦ rw stays (differs, IsNewNumber-without id gone live new)
  ]

  AreOnce-without :
      (gone : ℕ) (live : List (Numbered L F)) → AreOnce live → AreOnce (without L F gone live)
  AreOnce-without gone [] once = tt
  AreOnce-without gone ((i, c) ∷ live) (new, once) = elim (Bool-cases (i == gone)) [
    | inl same ↦ rw same (AreOnce-without gone live once)
    | inr stays ↦ rw stays (IsNewNumber-without i gone live new, AreOnce-without gone live once)
  ]

  Reaches-AreOnce :
      (s t : Server L F) (live : List (Numbered L F))
      → length s.ip_port ≤ 21
      → s.next_conn_id ≤ int_max
      → ((key : List ℕ) → s.connections key ≡ none)
      → Reaches L F s live t
      → AreOnce live
  Reaches-AreOnce s t live short within empty begins = tt
  Reaches-AreOnce s u _ short within empty (accepts {live} {t} sockfd peer local conn r run) =
      AreOnce-snoc s t.next_conn_id conn live
        (Reaches-Holds L F s t live short within empty r).named
        (Reaches-AreOnce s t live short within empty r)
  Reaches-AreOnce s _ _ short within empty (removes {live} {t} id conn r m) =
      AreOnce-without id live (Reaches-AreOnce s t live short within empty r)

  -- What is held under a name is alive, under its number, and the other way round.
  pub held-member :
      (s : Server L F) (live : List (Numbered L F)) (key : List ℕ) (conn : Connection L F)
      → held L F s live key ≡ some conn
      → (id : ℕ) × (key ≡ conn_name L F s id) × Memᴰ (id, conn) live
  held-member s [] key conn h = absurd (none-ne-some conn h)
  held-member s ((i, c) ∷ live) key conn h =
      elim (Bool-cases (same_chars (conn_name L F s i) key)) [
        | inl hit ↦
            let here : c ≡ conn =
              some-injective c conn
                (subst (λ b. (if b then some c else held L F s live key) ≡ some conn) hit h) in
            (
              i,
              sym (same_chars→eq (conn_name L F s i) key hit),
              Memᴰ.head (ap (λ x. (i, x)) (sym here)),
            )
        | inr miss ↦
            let (id, named, m) =
              held-member s live key conn
                (subst (λ b. (if b then some c else held L F s live key) ≡ some conn) miss h) in
            (id, named, Memᴰ.tail m)
      ]

  IsNewNumber-member :
      (i id : ℕ) (conn : Connection L F) (live : List (Numbered L F))
      → IsNewNumber i live
      → Memᴰ (id, conn) live
      → i ≢ id
  IsNewNumber-member i id conn [] new m = absurd (Memᴰ.not-nil m)
  IsNewNumber-member i id conn ((j, c) ∷ live) (differs, new) (Memᴰ.head e) =
      λ same. differs (same ∙ ap (λ x. x.0) e)
  IsNewNumber-member i id conn ((j, c) ∷ live) (differs, new) (Memᴰ.tail m) =
      IsNewNumber-member i id conn live new m

  same_name :
      (s : Server L F) (id : ℕ)
      → length s.ip_port ≤ 21
      → id < int_max
      → same_chars (conn_name L F s id) (conn_name L F s id) ≡ true
  same_name s id short small = same_chars-conn_name s id id short small small ∙ ==_refl id

  member-held :
      (s : Server L F) (n : ℕ) (live : List (Numbered L F)) (id : ℕ) (conn : Connection L F)
      → length s.ip_port ≤ 21
      → n ≤ int_max
      → AreNamed L F s n live
      → AreOnce live
      → Memᴰ (id, conn) live
      → held L F s live (conn_name L F s id) ≡ some conn
  member-held s n [] id conn short small a once m = absurd (Memᴰ.not-nil m)
  member-held s n ((i, c) ∷ live) id conn short small (below, named, a) (new, once) (Memᴰ.head e) =
      subst (λ x. held L F s ((i, c) ∷ live) (conn_name L F s x.0) ≡ some x.1) (sym e)
        (rw (same_name s i short (omega (arith, below, small))) refl)
  member-held s n ((i, c) ∷ live) id conn short small (below, named, a) (new, once) (Memᴰ.tail m) =
      let small_id = (member_named L F s n id conn live a m).0 in
      rw
        (
          same_chars-conn_name s i id short (omega (arith, below, small))
              (omega (arith, small_id, small)),
          ne→== i id (IsNewNumber-member i id conn live new m),
        )
        (member-held s n live id conn short small a once m)

  destroy-effects :
      (entries : List Entry) (t : Server L F)
      → (destroy L F entries t).effects ≡ t.effects ++ map hands_over entries
  unfolding destroy emit
  destroy-effects [] t = sym (append-nil t.effects)
  destroy-effects ((key, conn) ∷ entries) t =
      destroy-effects entries (emit L F (runs_in_loop conn.loop (connect_destroyed conn)) t)
      ∙ append_assoc t.effects (runs_in_loop conn.loop (connect_destroyed conn) ∷ [])
          (map hands_over entries)

  -- Every connection that is alive is given, under the name of its number.
  abbrev pub AreGiven : Server L F → List Entry → List (Numbered L F) → Type 0
  AreGiven s entries [] = Unit
  AreGiven s entries ((id, conn) ∷ live) =
      Memᴰ (conn_name L F s id, conn) entries × AreGiven s entries live

  -- Every entry is a connection that is alive, under the name of its number.
  abbrev pub AreAlive : Server L F → List (Numbered L F) → List Entry → Type 0
  AreAlive s live [] = Unit
  AreAlive s live ((key, conn) ∷ entries) =
      ((id : ℕ) × (key ≡ conn_name L F s id) × Memᴰ (id, conn) live) × AreAlive s live entries

  AreGiven-members :
      (s : Server L F) (entries : List Entry) (live : List (Numbered L F))
      → ((id : ℕ) (conn : Connection L F)
          → Memᴰ (id, conn) live
          → Memᴰ (conn_name L F s id, conn) entries)
      → AreGiven s entries live
  AreGiven-members s entries [] each = tt
  AreGiven-members s entries ((id, conn) ∷ live) each = (
    each id conn (Memᴰ.head refl),
    AreGiven-members s entries live (λ i c m. each i c (Memᴰ.tail m)),
  )

  AreAlive-members :
      (s : Server L F) (live : List (Numbered L F)) (entries : List Entry)
      → ((key : List ℕ) (conn : Connection L F)
          → Memᴰ (key, conn) entries
          → (id : ℕ) × (key ≡ conn_name L F s id) × Memᴰ (id, conn) live)
      → AreAlive s live entries
  AreAlive-members s live [] each = tt
  AreAlive-members s live ((key, conn) ∷ entries) each = (
    each key conn (Memᴰ.head refl),
    AreAlive-members s live entries (λ k c m. each k c (Memᴰ.tail m)),
  )

  -- From a server without connections, with a text of its address of at most 21 characters and a next
  -- number of at most the largest int, and for any order in which the map gives its entries, each of
  -- them once: whatever was accepted and removed before, the destructor hands connectDestroyed of
  -- each entry to the connection's own loop, once and in that order; every connection that is alive
  -- is among the entries, under the name of its number, and every entry is such a connection.
  pub destroy-Reaches :
      (s t : Server L F) (live : List (Numbered L F)) (entries : List Entry)
      → length s.ip_port ≤ 21
      → s.next_conn_id ≤ int_max
      → ((key : List ℕ) → s.connections key ≡ none)
      → Reaches L F s live t
      → Iterates t.connections entries
      → ((destroy L F entries t).effects ≡ t.effects ++ map hands_over entries)
        × AreOnceNamed entries
        × AreGiven s entries live
        × AreAlive s live entries
  destroy-Reaches s t live entries short within empty r i =
      let h = Reaches-Holds L F s t live short within empty r in
      let once = Reaches-AreOnce s t live short within empty r in
      (
        destroy-effects entries t,
        i.once,
        AreGiven-members s entries live (λ id conn m. i.all_of (conn_name L F s id) conn (
            h.keyed (conn_name L F s id)
            ∙ member-held s t.next_conn_id live id conn short h.within h.named once m)),
        AreAlive-members s live entries (λ key conn m.
            held-member s live key conn (sym (h.keyed key) ∙ i.none_else key conn m)),
      )
