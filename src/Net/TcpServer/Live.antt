-- ===== src/Net/TcpServer/Live.antt =====
-- src/net/TcpServer.cpp: the map of connections and the connections that are alive.
use tiny_network.Prelude.{
  ℕ, ◌+◌, ◌≤◌, ◌≡◌, inl, inr, refl, subst, List, [], ◌∷◌, ◌++◌, Option, none, some, arith, ltb,
  ltb→lt, Bool-cases, length, Option-cases,
}
use mathlib.Core.List.{Memᴰ}
use tiny_network.Net.InetAddress.{InetAddress}
use tiny_network.Net.EventLoopThreadPool
use tiny_network.Net.TcpServer.{
  Server, Connection, Effect, log_get_local_addr, emit, log_local, insert, erase, conn_name,
  int_max, new_connection, remove_in_loop,
}
use tiny_network.Net.TcpServer.Named.{
  Numbered, without, held, AreNamed, AreNamed-snoc, AreNamed-suc, AreNamed-without, conn_name_same,
  erase_named, insert_new, member_named,
}

module _ (L F : Type 0) where
  -- What can happen to a server that took up no connection yet, with the connections that are
  -- alive: one is accepted, or one that is alive is removed.
  pub data Reaches (s : Server L F) : List (Numbered L F) → Server L F → Type 0 where
    begins : Reaches s [] s
    accepts :
        {live : List (Numbered L F)} {t u : Server L F} (sockfd : ℕ) (peer : InetAddress)
        (local : Option InetAddress) (conn : Connection L F)
        → Reaches s live t
        → new_connection L F sockfd peer local t ≡ some (conn, u)
        → Reaches s (live ++ ((t.next_conn_id, conn) ∷ [])) u
    removes :
        {live : List (Numbered L F)} {t : Server L F} (id : ℕ) (conn : Connection L F)
        → Reaches s live t
        → Memᴰ (id, conn) live
        → Reaches s (without L F id live) (remove_in_loop L F conn t)

  pub record Holds (s : Server L F) (live : List (Numbered L F)) (t : Server L F) : Type 0 where
    pub same_name : t.name ≡ s.name
    pub same_ip_port : t.ip_port ≡ s.ip_port
    pub short : length s.ip_port ≤ 21
    pub within : t.next_conn_id ≤ int_max
    pub named : AreNamed L F s t.next_conn_id live
    pub keyed : (key : List ℕ) → t.connections key ≡ held L F s live key

  Accepted : Server L F → List (Numbered L F) → ℕ → Option (Connection L F × Server L F) → Type 0
  Accepted s live id none = Unit
  Accepted s live id (some (conn, u)) = Holds s (live ++ ((id, conn) ∷ [])) u

  Holds-emit :
      (s t : Server L F) (live : List (Numbered L F)) (x : Effect L F)
      → Holds s live t
      → Holds s live (emit L F x t)
  unfolding emit
  Holds-emit s t live x h = record {
    same_name = h.same_name;
    same_ip_port = h.same_ip_port;
    short = h.short;
    within = h.within;
    named = h.named;
    keyed = h.keyed;
  }

  Holds-log_local :
      (s t : Server L F) (live : List (Numbered L F)) (local : Option InetAddress)
      → Holds s live t
      → Holds s live (log_local L F local t)
  unfolding log_local
  Holds-log_local s t live (some addr) h = h
  Holds-log_local s t live none h = Holds-emit s t live log_get_local_addr h

  new_connection-Accepted :
      (s t : Server L F) (live : List (Numbered L F)) (sockfd : ℕ) (peer : InetAddress)
      (local : Option InetAddress)
      → Holds s live t
      → Accepted s live t.next_conn_id (new_connection L F sockfd peer local t)
  unfolding Accepted new_connection insert conn_name
  new_connection-Accepted s t live sockfd peer local h =
      elim (Bool-cases (ltb t.next_conn_id int_max)) [
        | inr over ↦ rw over tt
        | inl small ↦ elim (Option-cases (EventLoopThreadPool.get_next_loop L t.thread_pool)) [
          | inl outside ↦ rw (small, outside) tt
          | inr ((io_loop, pool), chosen) ↦
              rw (small, chosen)
                (Holds-emit s _ _ _ (
                  Holds-log_local s _ _ local (record {
                    same_name = h.same_name;
                    same_ip_port = h.same_ip_port;
                    short = h.short;
                    within = omega (arith, ltb→lt t.next_conn_id int_max small);
                    named =
                        AreNamed-snoc L F s (t.next_conn_id + 1) t.next_conn_id _ live
                          (AreNamed-suc L F s t.next_conn_id live h.named) (omega arith)
                          (conn_name_same L F s t t.next_conn_id h.same_name h.same_ip_port);
                    keyed = λ key.
                        rw
                          (
                            h.keyed key,
                            conn_name_same L F s t t.next_conn_id h.same_name h.same_ip_port,
                          )
                          (insert_new L F s t.next_conn_id _ live h.short
                            (ltb→lt t.next_conn_id int_max small) h.named key);
                  })))
        ]
      ]

  remove_in_loop-Holds :
      (s t : Server L F) (live : List (Numbered L F)) (id : ℕ) (conn : Connection L F)
      → Holds s live t
      → Memᴰ (id, conn) live
      → Holds s (without L F id live) (remove_in_loop L F conn t)
  unfolding remove_in_loop erase
  remove_in_loop-Holds s t live id conn h m =
      let (below, named) = member_named L F s t.next_conn_id id conn live h.named m in
      Holds-emit s _ _ _ (record {
        same_name = h.same_name;
        same_ip_port = h.same_ip_port;
        short = h.short;
        within = h.within;
        named = AreNamed-without L F s t.next_conn_id id live h.named;
        keyed = λ key.
            rw (h.keyed key, named)
              (erase_named L F s t.next_conn_id id live h.short h.within below h.named key);
      })

  -- From a server without connections, with a text of its address of at most 21 characters and a
  -- next number of at most the largest int: after any sequence of accepted connections and of
  -- removals of connections that are alive, the map holds exactly the connections that were
  -- accepted and not removed, each under the name of its number, and nothing under any other name.
  pub Reaches-Holds :
      (s t : Server L F) (live : List (Numbered L F))
      → length s.ip_port ≤ 21
      → s.next_conn_id ≤ int_max
      → ((key : List ℕ) → s.connections key ≡ none)
      → Reaches s live t
      → Holds s live t
  unfolding Accepted
  Reaches-Holds s t live short within empty begins = record {
    same_name = refl;
    same_ip_port = refl;
    short = short;
    within = within;
    named = tt;
    keyed = empty;
  }
  Reaches-Holds s u _ short within empty (accepts {live} {t} sockfd peer local conn r run) =
      subst (Accepted s live t.next_conn_id) run (
        new_connection-Accepted s t live sockfd peer local
          (Reaches-Holds s t live short within empty r))
  Reaches-Holds s _ _ short within empty (removes {live} {t} id conn r m) =
      remove_in_loop-Holds s t live id conn (Reaches-Holds s t live short within empty r) m
