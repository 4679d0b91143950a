-- ===== src/Address/Round.antt =====
-- An address that goes to the kernel and comes back.
use vibeio.Prelude.{ℕ, ◌+◌, ◌*◌, ◌<◌, ◌≡◌, refl, Bool, true, false, ok, arith}
use vibeio.Address.{
  Ipv4Addr, SocketAddr, v4, v6, be16, be32, from_ne_bytes, ipv4_from, socket_addr_to_raw,
  sockaddr_storage_to_socketaddr, IsAddress,
}

be16-be16 : (little : Bool) (n : ℕ) → n < 65536 → be16 little (be16 little n) ≡ n
be16-be16 true n h = omega arith
be16-be16 false n h = refl

big : Ipv4Addr → ℕ
big ip = ip.a * 16777216 + ip.b * 65536 + ip.c * 256 + ip.d

be32-from_ne_bytes :
    (little : Bool) (ip : Ipv4Addr)
    → ip.a < 256
    → ip.b < 256
    → ip.c < 256
    → ip.d < 256
    → be32 little (from_ne_bytes little ip) ≡ big ip
unfolding from_ne_bytes big
be32-from_ne_bytes true ip ha hb hc hd = omega arith
be32-from_ne_bytes false ip ha hb hc hd = refl

ipv4_from-big :
    (ip : Ipv4Addr) → ip.a < 256 → ip.b < 256 → ip.c < 256 → ip.d < 256 → ipv4_from (big ip) ≡ ip
unfolding ipv4_from big
ipv4_from-big ip ha hb hc hd = ground arith

-- On a machine of either endianness, an address whose octets and port are in range is read back from
-- the storage that it is written to as it was, flow label and scope included.
pub to_socketaddr-to_raw :
    (little : Bool) (address : SocketAddr)
    → IsAddress address
    → sockaddr_storage_to_socketaddr little (socket_addr_to_raw little address).0 ≡ ok address
unfolding sockaddr_storage_to_socketaddr socket_addr_to_raw
to_socketaddr-to_raw little (v4 ip port) (ha, hb, hc, hd, hp) =
    rw
      (
        be32-from_ne_bytes little ip ha hb hc hd,
        ipv4_from-big ip ha hb hc hd,
        be16-be16 little port hp,
      )
      refl
to_socketaddr-to_raw little (v6 ip port flowinfo scope_id) hp = rw (be16-be16 little port hp) refl
