-- ===== src/Acl/Word.antt =====
-- The words of internal/acl/acl.go's entities, as the bytes of their characters.
use bound_gate_vpn.Prelude.{[], ◌∷◌, Bytes}

abbrev pub tags : Bytes
tags = b't' ∷ b'a' ∷ b'g' ∷ b's' ∷ []

abbrev pub name : Bytes
name = b'n' ∷ b'a' ∷ b'm' ∷ b'e' ∷ []

abbrev pub kind : Bytes
kind = b'k' ∷ b'i' ∷ b'n' ∷ b'd' ∷ []

abbrev pub roles : Bytes
roles = b'r' ∷ b'o' ∷ b'l' ∷ b'e' ∷ b's' ∷ []

abbrev pub hardware_bound : Bytes
hardware_bound =
    b'h' ∷ b'a' ∷ b'r' ∷ b'd' ∷ b'w' ∷ b'a' ∷ b'r' ∷ b'e' ∷ b'_' ∷ b'b' ∷ b'o' ∷ b'u' ∷ b'n' ∷ b'd'
    ∷ []

abbrev pub platform : Bytes
platform = b'p' ∷ b'l' ∷ b'a' ∷ b't' ∷ b'f' ∷ b'o' ∷ b'r' ∷ b'm' ∷ []

abbrev pub key_kind : Bytes
key_kind = b'k' ∷ b'e' ∷ b'y' ∷ b'_' ∷ b'k' ∷ b'i' ∷ b'n' ∷ b'd' ∷ []

abbrev pub has_session : Bytes
has_session = b'h' ∷ b'a' ∷ b's' ∷ b'_' ∷ b's' ∷ b'e' ∷ b's' ∷ b's' ∷ b'i' ∷ b'o' ∷ b'n' ∷ []

abbrev pub overlay_ip : Bytes
overlay_ip = b'o' ∷ b'v' ∷ b'e' ∷ b'r' ∷ b'l' ∷ b'a' ∷ b'y' ∷ b'_' ∷ b'i' ∷ b'p' ∷ []

abbrev pub prefix : Bytes
prefix = b'p' ∷ b'r' ∷ b'e' ∷ b'f' ∷ b'i' ∷ b'x' ∷ []

abbrev pub subject : Bytes
subject = b's' ∷ b'u' ∷ b'b' ∷ b'j' ∷ b'e' ∷ b'c' ∷ b't' ∷ []

abbrev pub email : Bytes
email = b'e' ∷ b'm' ∷ b'a' ∷ b'i' ∷ b'l' ∷ []

abbrev pub username : Bytes
username = b'u' ∷ b's' ∷ b'e' ∷ b'r' ∷ b'n' ∷ b'a' ∷ b'm' ∷ b'e' ∷ []

abbrev pub groups : Bytes
groups = b'g' ∷ b'r' ∷ b'o' ∷ b'u' ∷ b'p' ∷ b's' ∷ []

abbrev pub ip : Bytes
ip = b'i' ∷ b'p' ∷ []

abbrev pub port : Bytes
port = b'p' ∷ b'o' ∷ b'r' ∷ b't' ∷ []

abbrev pub protocol : Bytes
protocol = b'p' ∷ b'r' ∷ b'o' ∷ b't' ∷ b'o' ∷ b'c' ∷ b'o' ∷ b'l' ∷ []

abbrev pub sni : Bytes
sni = b's' ∷ b'n' ∷ b'i' ∷ []

abbrev pub dns : Bytes
dns = b'd' ∷ b'n' ∷ b's' ∷ []

abbrev pub dynamic : Bytes
dynamic = b'd' ∷ b'y' ∷ b'n' ∷ b'a' ∷ b'm' ∷ b'i' ∷ b'c' ∷ []

abbrev pub dns_name : Bytes
dns_name = b'd' ∷ b'n' ∷ b's' ∷ b'_' ∷ b'n' ∷ b'a' ∷ b'm' ∷ b'e' ∷ []

abbrev pub resolved_names : Bytes
resolved_names =
    b'r' ∷ b'e' ∷ b's' ∷ b'o' ∷ b'l' ∷ b'v' ∷ b'e' ∷ b'd' ∷ b'_' ∷ b'n' ∷ b'a' ∷ b'm' ∷ b'e' ∷ b's'
    ∷ []

abbrev pub connect : Bytes
connect = b'c' ∷ b'o' ∷ b'n' ∷ b'n' ∷ b'e' ∷ b'c' ∷ b't' ∷ []
