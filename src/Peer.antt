-- ===== src/Peer.antt =====
-- core/peer_info.hpp: what a session knows of its client. `getpeername` and `inet_ntop` are
-- arguments; an address is the bytes of a `sockaddr_storage`, its family first, low byte first.
use koheron_server.Base.{
  ℕ, zero, suc, ◌+◌, ◌*◌, ◌≡◌, refl, Option, none, some, List, [], ◌∷◌, ◌++◌, length, drop,
  replicate,
}
use koheron_server.Sessions.{Kind, tcp, unix, websock, kind_of}

pub record PeerInfo : Type 0 where
  pub ip_family : ℕ
  pub ip_str : List ℕ
  pub port : ℕ

abbrev inet6_addrstrlen : ℕ
inet6_addrstrlen = 46

abbrev no_peer : PeerInfo
no_peer = record { ip_family = 0; ip_str = replicate inet6_addrstrlen 0; port = 0 }

-- A byte of memory; there are enough of them in a `sockaddr_storage`.
abbrev pub byte_of : List ℕ → ℕ → ℕ
byte_of [] i = 0
byte_of (b ∷ bytes) zero = b
byte_of (b ∷ bytes) (suc i) = byte_of bytes i

-- `addr` after `getpeername` stored `bytes`: it is not initialised, `memory` is what it held.
abbrev stored : List ℕ → List ℕ → List ℕ
stored memory bytes = bytes ++ drop (length bytes) memory

-- `inet_ntop` stores a text into `ip_str`, unless it fails.
abbrev pub shown : Option (List ℕ) → List ℕ → List ℕ
shown none ip_str = ip_str
shown (some text) ip_str = text

-- `fill_up(comm_fd)`
fill_up : (ℕ → List ℕ → Option (List ℕ)) → List ℕ → Option (List ℕ) → PeerInfo → PeerInfo
fill_up inet_ntop memory none peer = peer
fill_up inet_ntop memory (some bytes) peer =
    let addr = stored memory bytes in
    let family = byte_of addr 0 + 256 * byte_of addr 1 in
    record {
      ip_family = family;
      port = 256 * byte_of addr 2 + byte_of addr 3;
      ip_str = shown (inet_ntop family (drop 4 addr)) peer.ip_str;
    }

-- `PeerInfo<sock_type>::PeerInfo(comm_fd)`
unfoldable pub peer_info :
    (ℕ → List ℕ → Option (List ℕ)) → List ℕ → Option (List ℕ) → Kind → PeerInfo
unfolding fill_up
peer_info inet_ntop memory answer tcp = fill_up inet_ntop memory answer no_peer
peer_info inet_ntop memory answer websock = fill_up inet_ntop memory answer no_peer
peer_info inet_ntop memory answer unix = no_peer

-- The constructor of a session gives the kind of its object, so that `getpeername` is also called for
-- a Unix session. A client without an address of its own is described by two bytes, and then the
-- port is whatever the memory behind them held.
pub peer_info-unnamed :
    (inet_ntop : ℕ → List ℕ → Option (List ℕ)) (f₀ f₁ m₀ m₁ high low : ℕ) (memory : List ℕ)
    → (peer_info inet_ntop
        (m₀ ∷ m₁ ∷ high ∷ low ∷ memory)
        (some (f₀ ∷ f₁ ∷ []))
        (kind_of unix)).port
      ≡ 256 * high + low
unfolding peer_info
peer_info-unnamed inet_ntop f₀ f₁ m₀ m₁ high low memory = refl
