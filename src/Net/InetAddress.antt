-- ===== src/Net/InetAddress.antt =====
-- include/net/InetAddress.h and src/net/InetAddress.cpp: an address of IPv4 and a port.
-- `ntop` is `inet_ntop`: the text of an address in network order. The machine is little-endian.
pub mod Port
use tiny_network.Prelude.{
  ℕ, ◌+◌, ◌*◌, ◌/◌, ◌%◌, List, [], ◌∷◌, ◌++◌, Option, none, some, leb, if◌then◌else◌, length,
}
use tiny_network.Prelude.Decimal.{decimal}

-- `sockaddr_in`, without its padding.
pub record InetAddress : Type 0 where
  pub sin_family : ℕ
  pub sin_port : ℕ
  pub s_addr : ℕ

abbrev pub af_inet : ℕ
af_inet = 2

-- `htons` and `ntohs` exchange the two bytes of a number of 16 bits.
abbrev pub htons : ℕ → ℕ
htons n = n % 256 * 256 + n / 256 % 256

-- `htonl(INADDR_ANY)`
abbrev pub inaddr_any : ℕ
inaddr_any = 0

-- The constructor from a port and an address as text.
unfoldable pub create : ℕ → List ℕ → InetAddress
create port ip = record { sin_family = af_inet; sin_port = htons port; s_addr = inaddr_any }

unfoldable pub to_port : InetAddress → ℕ
to_port addr = htons addr.sin_port

module _ (ntop : ℕ → List ℕ) where
  unfoldable pub to_ip : InetAddress → List ℕ
  to_ip addr = ntop addr.s_addr

  -- `none` is a text longer than the array of 64 bytes.
  unfoldable pub to_ip_port : InetAddress → Option (List ℕ)
  to_ip_port addr =
      let chars = ntop addr.s_addr ++ (b':' ∷ decimal (to_port addr)) in
      if leb (length chars + 1) 64 then some chars else none
