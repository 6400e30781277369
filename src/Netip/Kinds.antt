-- ===== src/Netip/Kinds.antt =====
-- Which addresses net/netip counts as loopback, multicast, link-local, private and global unicast,
-- for addresses that are not mapped ones.
use bound_gate_vpn.Prelude.{◌/◌, ◌-◌, ◌^◌, Bool, true, false, not, ◌&&◌, ◌||◌, ◌==◌}
use bound_gate_vpn.Netip.{Addr, invalid, v4, v6}

-- IsLoopback
abbrev pub is_loopback : Addr → Bool
is_loopback invalid = false
is_loopback (v4 a) = a / 2 ^ 24 == 127
is_loopback (v6 a) = a == 1

-- IsMulticast
abbrev pub is_multicast : Addr → Bool
is_multicast invalid = false
is_multicast (v4 a) = a / 2 ^ 28 == 0xe
is_multicast (v6 a) = a / 2 ^ 120 == 0xff

-- IsLinkLocalUnicast
abbrev pub is_link_local_unicast : Addr → Bool
is_link_local_unicast invalid = false
is_link_local_unicast (v4 a) = a / 2 ^ 16 == 0xa9fe
is_link_local_unicast (v6 a) = a / 2 ^ 118 == 0x3fa

-- The unspecified addresses, and the broadcast address.
abbrev pub is_special : Addr → Bool
is_special invalid = true
is_special (v4 a) = a == 0 || a == 2 ^ 32 - 1
is_special (v6 a) = a == 0

-- IsGlobalUnicast
unfoldable pub is_global_unicast : Addr → Bool
is_global_unicast a =
    not (is_special a)
    && not (is_loopback a)
    && not (is_multicast a)
    && not (is_link_local_unicast a)

-- IsPrivate
unfoldable pub is_private : Addr → Bool
is_private invalid = false
is_private (v4 a) = a / 2 ^ 24 == 10 || a / 2 ^ 20 == 0xac1 || a / 2 ^ 16 == 0xc0a8
is_private (v6 a) = a / 2 ^ 121 == 0x7e
