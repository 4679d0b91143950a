-- ===== src/Address/Tests.antt =====
-- 127.0.0.1:8080 on a little-endian machine.
use vibeio.Prelude.{◌+◌, ◌*◌, ◌≡◌, refl, true, ok, arith}
use vibeio.Address.{SocketAddr, v4, sockaddr_in, socket_addr_to_raw, sockaddr_storage_to_socketaddr}
use vibeio.Address.Round.{to_socketaddr-to_raw}

abbrev local : SocketAddr
local = v4 (record { a = 127; b = 0; c = 0; d = 1 }) 8080

to_socketaddr-to_raw_example :
    sockaddr_storage_to_socketaddr true (socket_addr_to_raw true local).0 ≡ ok local
to_socketaddr-to_raw_example =
    to_socketaddr-to_raw true local
      (omega arith, omega arith, omega arith, omega arith, omega arith)

-- The octets of the port and of the address are 31, 144 and 127, 0, 0, 1.
in_network_order : (socket_addr_to_raw true local).0 ≡ sockaddr_in (31 + 144 * 256) (127 + 16777216)
unfolding socket_addr_to_raw
in_network_order = refl
