-- ===== src/Address.antt =====
-- Socket addresses, as vibeio/src/op/sendto.rs hands them to the kernel and vibeio/src/op/recvfrom.rs
-- and vibeio/src/op/accept.rs read them back. `little` is whether the machine is little-endian.
pub mod Round
mod Tests
use vibeio.Prelude.{
  ℕ, ◌+◌, ◌*◌, ◌/◌, ◌%◌, ◌^◌, ◌≤◌, ◌<◌, Bool, true, false, List, [], ◌∷◌, if◌then◌else◌, Result, ok,
  err, invalid_data,
}

pub record Ipv4Addr : Type 0 where
  pub a : ℕ
  pub b : ℕ
  pub c : ℕ
  pub d : ℕ

-- An address of the version 6 has its sixteen octets in a list.
pub data SocketAddr : Type 0 where
  v4 : (ip : Ipv4Addr) (port : ℕ) → SocketAddr
  v6 : (ip : List ℕ) (port flowinfo scope_id : ℕ) → SocketAddr

-- What stands in a `sockaddr_storage`, by its family. The numbers are those of the machine.
pub data Storage : Type 0 where
  sockaddr_in : (sin_port s_addr : ℕ) → Storage
  sockaddr_in6 : (sin6_port sin6_flowinfo : ℕ) (s6_addr : List ℕ) (sin6_scope_id : ℕ) → Storage
  other_family : (ss_family : ℕ) → Storage

abbrev pub swap16 : ℕ → ℕ
swap16 n = n % 256 * 256 + n / 256 % 256

abbrev pub swap32 : ℕ → ℕ
swap32 n = n % 256 * 16777216 + n / 256 % 256 * 65536 + n / 65536 % 256 * 256 + n / 16777216 % 256

-- `to_be` and `from_be` of a u16 and a u32.
abbrev pub be16 : Bool → ℕ → ℕ
be16 little n = if little then swap16 n else n

abbrev pub be32 : Bool → ℕ → ℕ
be32 little n = if little then swap32 n else n

-- `u32::from_ne_bytes`.
unfoldable pub from_ne_bytes : Bool → Ipv4Addr → ℕ
from_ne_bytes little ip =
    if little
    then ip.a + ip.b * 256 + ip.c * 65536 + ip.d * 16777216
    else ip.a * 16777216 + ip.b * 65536 + ip.c * 256 + ip.d

-- `Ipv4Addr::from` of a u32: the highest octet first.
unfoldable pub ipv4_from : ℕ → Ipv4Addr
ipv4_from n = record { a = n / 16777216 % 256; b = n / 65536 % 256; c = n / 256 % 256; d = n % 256 }

-- The storage, and the length that goes with it.
unfoldable pub socket_addr_to_raw : Bool → SocketAddr → Storage × ℕ
unfolding from_ne_bytes
socket_addr_to_raw little (v4 ip port) =
    (sockaddr_in (be16 little port) (from_ne_bytes little ip), 16)
socket_addr_to_raw little (v6 ip port flowinfo scope_id) =
    (sockaddr_in6 (be16 little port) flowinfo ip scope_id, 28)

unfoldable pub sockaddr_storage_to_socketaddr : Bool → Storage → Result SocketAddr
unfolding ipv4_from
sockaddr_storage_to_socketaddr little (sockaddr_in port s_addr) =
    ok (v4 (ipv4_from (be32 little s_addr)) (be16 little port))
sockaddr_storage_to_socketaddr little (sockaddr_in6 port flowinfo addr scope_id) =
    ok (v6 addr (be16 little port) flowinfo scope_id)
sockaddr_storage_to_socketaddr little (other_family family) = err invalid_data

-- The octets and the port are in range.
abbrev pub IsAddress : SocketAddr → Type 0
IsAddress (v4 ip port) = (ip.a < 256) × (ip.b < 256) × (ip.c < 256) × (ip.d < 256) × (port < 65536)
IsAddress (v6 ip port flowinfo scope_id) = port < 65536
