-- ===== src/Tests/Messages.antt =====
-- Packets, questions, a ClientHello and a reset.
use bound_gate_vpn.Prelude.{
  ◌+◌, ◌*◌, ◌%◌, ◌^◌, ◌≡◌, refl, true, some, arith, Bytes, List, [], ◌∷◌, ◌++◌, length, map, take,
  done, ◌/◌, ◌==◌, Holds, All, if◌then◌else◌,
}
use bound_gate_vpn.Netip.{v4}
use bound_gate_vpn.Netparse.Header.{parse_in, parse, version, parse_v4, read_v4, read_l4, parse_l4}
use bound_gate_vpn.Netparse.Bounds.{Accepted, parse_in-IsSound}
use bound_gate_vpn.Netparse.Dns.{dns_query, dns_answer, lower}
use bound_gate_vpn.Netparse.Dns.Messages.{
  Query, Answered, dns_query-IsPlainName, dns_answer-IsAnswer,
}
use bound_gate_vpn.Netparse.Dns.RoundTrip.{IsLabel, dotted, query_message, dns_query-query_message}
use bound_gate_vpn.Netparse.Tls.{
  client_hello_sni, read_body, read_suites, read_methods, read_extensions, parse_client_hello,
  parse_server_name, read_entries, found,
}
use bound_gate_vpn.Netparse.Tls.Hosts.{IsHost, client_hello_sni-IsHost}
use bound_gate_vpn.Netparse.Tls.Prefixes.{client_hello_sni-append}
use bound_gate_vpn.Netparse.Reset.{build_rst, checksum, tcp_reset, fold_carries, sum_words}
use bound_gate_vpn.Netparse.Reset.Sums.{build_rst-checksum, IsRight, tcp_covered}
use bound_gate_vpn.Netparse.Reset.Parsed.{rst_header, taken, parse-tcp_reset}
use bound_gate_vpn.Encap.{get_encap, encapsulate}
use bound_gate_vpn.Encap.RoundTrip.{get_encap-encapsulate}
use bound_gate_vpn.Netip.{AddrPort, unmap}

abbrev segment : Bytes
segment = build_rst 0x0a000001 0x0a000002 40000 443 7 0 2

parse_in-IsSound_example : Holds (Accepted segment true) (parse_in segment true)
parse_in-IsSound_example = parse_in-IsSound segment true

abbrev labels : List Bytes
labels = (b'W' ∷ b'w' ∷ []) ∷ (b'e' ∷ b'u' ∷ []) ∷ []

abbrev question : Bytes
question = query_message 1 2 labels (0 ∷ 1 ∷ 0 ∷ 1 ∷ [])

dns_query-IsPlainName_example : Holds Query (dns_query question)
dns_query-IsPlainName_example = dns_query-IsPlainName question

labels-IsLabel : All IsLabel labels
labels-IsLabel = ((omega arith, omega arith, refl), ((omega arith, omega arith, refl), tt))

dns_query-query_message_example :
    dns_query question ≡ done (some (1 * 256 + 2, map lower (dotted [] labels)))
dns_query-query_message_example =
    dns_query-query_message 1 2 labels (0 ∷ 1 ∷ 0 ∷ 1 ∷ []) labels-IsLabel (omega arith)
      (omega arith) (omega arith)

-- www.eu is at 10.0.0.7 for 60 seconds.
abbrev answer_message : Bytes
answer_message =
    1 ∷ 2 ∷ 0x81 ∷ 0x80 ∷ 0 ∷ 1 ∷ 0 ∷ 1 ∷ 0 ∷ 0 ∷ 0 ∷ 0 ∷ 2 ∷ b'w' ∷ b'w' ∷ 2 ∷ b'e' ∷ b'u' ∷ 0 ∷ 0
    ∷ 1 ∷ 0 ∷ 1 ∷ 0xc0 ∷ 12 ∷ 0 ∷ 1 ∷ 0 ∷ 1 ∷ 0 ∷ 0 ∷ 0 ∷ 60 ∷ 0 ∷ 4 ∷ 10 ∷ 0 ∷ 0 ∷ 7 ∷ []

dns_answer-IsAnswer_example : Holds Answered (dns_answer answer_message)
dns_answer-IsAnswer_example = dns_answer-IsAnswer answer_message

-- A record with a ClientHello whose only extension names the host a.b.
abbrev client_hello : Bytes
client_hello =
    22
      ∷ 3
      ∷ 1
      ∷ 0
      ∷ 59
      ∷ 1
      ∷ 0
      ∷ 0
      ∷ 55
      ∷ 3
      ∷ 3
      ∷ (0 ∷ 0 ∷ 0 ∷ 0 ∷ 0 ∷ 0 ∷ 0 ∷ 0 ∷ 0 ∷ 0 ∷ 0 ∷ 0 ∷ 0 ∷ 0 ∷ 0 ∷ 0 ∷ [])
    ++ (0 ∷ 0 ∷ 0 ∷ 0 ∷ 0 ∷ 0 ∷ 0 ∷ 0 ∷ 0 ∷ 0 ∷ 0 ∷ 0 ∷ 0 ∷ 0 ∷ 0 ∷ 0 ∷ [])
    ++ 0 ∷ 0 ∷ 2 ∷ 0x13 ∷ 1 ∷ 1 ∷ 0 ∷ 0 ∷ 12 ∷ 0 ∷ 0 ∷ 0 ∷ 8 ∷ 0 ∷ 6 ∷ 0 ∷ 0 ∷ 3 ∷ b'a' ∷ b'.'
      ∷ b'b' ∷ []

client_hello-found : client_hello_sni client_hello ≡ done (found (b'a' ∷ b'.' ∷ b'b' ∷ []))
unfolding client_hello_sni read_body parse_client_hello read_suites read_methods read_extensions
    parse_server_name read_entries
client_hello-found = refl

client_hello_sni-append_example :
    client_hello_sni (client_hello ++ 20 ∷ 3 ∷ []) ≡ done (found (b'a' ∷ b'.' ∷ b'b' ∷ []))
client_hello_sni-append_example =
    client_hello_sni-append client_hello (20 ∷ 3 ∷ []) (b'a' ∷ b'.' ∷ b'b' ∷ []) client_hello-found

client_hello_sni-IsHost_example : Holds IsHost (client_hello_sni client_hello)
client_hello_sni-IsHost_example = client_hello_sni-IsHost client_hello

build_rst-checksum_example :
    let b = build_rst 0x0a000001 0x0a000002 40000 443 7 0 4 in
    (length b ≡ 40) × IsRight (take 20 b) × IsRight (tcp_covered b)
build_rst-checksum_example = build_rst-checksum 0x0a000001 0x0a000002 40000 443 7 0 4 (omega arith)

-- A segment with a SYN, a FIN and no payload.
abbrev refused : Bytes
refused = build_rst 0x0a000001 0x0a000002 40000 443 7 9 3

refused-parsed : parse refused ≡ done (some (rst_header 0x0a000001 0x0a000002 40000 443 7 9 3))
unfolding parse_in version parse_v4 read_v4 read_l4 parse_l4 build_rst checksum fold_carries
    sum_words
refused-parsed = refl

parse-tcp_reset_example :
    (to_sender : Bytes) × (to_receiver : Bytes) × (tcp_reset refused
      ≡ done (some (to_sender, to_receiver)))
    × (parse to_sender
        ≡ done (
            some (
              rst_header 0x0a000002 0x0a000001 443 40000
                (if 3 / 16 % 2 == 1 then 9 else 0)
                ((7 + taken 3 (length refused) 40) % 2 ^ 32)
                0x14)))
    × (parse to_receiver ≡ done (some (rst_header 0x0a000001 0x0a000002 40000 443 7 0 0x04)))
parse-tcp_reset_example =
    parse-tcp_reset refused (rst_header 0x0a000001 0x0a000002 40000 443 7 9 3) 40 0x0a000001
      0x0a000002 refused-parsed refl refl refl refl refl (omega arith) (omega arith) (omega arith)
      (omega arith) (omega arith) (omega arith)

abbrev client : AddrPort
client = record { addr = v4 0xc0000201; port = 51820 }

get_encap-encapsulate_example :
    get_encap (encapsulate client (1 ∷ 2 ∷ 3 ∷ []))
    ≡ some (record { addr = unmap client.addr; port = client.port }, 1 ∷ 2 ∷ 3 ∷ [])
get_encap-encapsulate_example =
    get_encap-encapsulate client (1 ∷ 2 ∷ 3 ∷ []) (omega arith) (omega arith)
