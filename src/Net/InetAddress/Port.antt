-- ===== src/Net/InetAddress/Port.antt =====
-- src/net/InetAddress.cpp: what an address that was made from a port and a text says.
use tiny_network.Prelude.{
  ℕ, ◌+◌, ◌≤◌, ◌<◌, ◌≡◌, refl, List, ◌∷◌, ◌++◌, some, arith, le→leb, length, length-append,
}
use tiny_network.Prelude.Decimal.{decimal, length-decimal}
use tiny_network.Net.InetAddress.{
  InetAddress, htons, create, to_port, to_ip, to_ip_port, inaddr_any,
}

-- Exchanging the bytes twice gives the number back.
htons-htons : (n : ℕ) → n < 65536 → htons (htons n) ≡ n
htons-htons n h = omega arith

pub to_port-create : (port : ℕ) (ip : List ℕ) → port < 65536 → to_port (create port ip) ≡ port
unfolding to_port create
to_port-create port ip h = htons-htons port h

pub htons_small : (n : ℕ) → htons n < 65536
htons_small n = omega arith

-- The text of an address fits the array, and is not longer than 21 characters.
pub to_ip_port_short :
    (ntop : ℕ → List ℕ) (addr : InetAddress)
    → ((a : ℕ) → length (ntop a) ≤ 15)
    → (chars : List ℕ) × (to_ip_port ntop addr ≡ some chars)
      × (chars ≡ to_ip ntop addr ++ (b':' ∷ decimal (to_port addr)))
      × (length chars ≤ 21)
unfolding to_ip_port to_ip to_port
to_ip_port_short ntop addr short =
    let chars = ntop addr.s_addr ++ (b':' ∷ decimal (htons addr.sin_port)) in
    let small : length chars ≤ 21 = omega (
      arith,
      short addr.s_addr,
      length-append (ntop addr.s_addr) (b':' ∷ decimal (htons addr.sin_port)),
      length-decimal (htons addr.sin_port) 4 (omega (arith, htons_small addr.sin_port)),
    ) in
    (chars, rw (le→leb (length chars + 1) 64 (omega (arith, small))) refl, refl, small)

-- For an `inet_ntop` that gives at most 15 characters, and a port of 16 bits: the text of an address
-- that was made from a port and a text holds the port and INADDR_ANY, whatever the text was.
pub create-to_ip_port :
    (ntop : ℕ → List ℕ) (port : ℕ) (ip : List ℕ)
    → ((a : ℕ) → length (ntop a) ≤ 15)
    → port < 65536
    → to_ip_port ntop (create port ip) ≡ some (ntop inaddr_any ++ (b':' ∷ decimal port))
unfolding to_ip create
create-to_ip_port ntop port ip short h =
    let (chars, run, is, small) = to_ip_port_short ntop (create port ip) short in
    rw (run, is, to_port-create port ip h) refl
