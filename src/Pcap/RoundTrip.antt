-- ===== src/Pcap/RoundTrip.antt =====
-- src/input/pcap_input.c: a frame with a TCP segment, as packet_handler reads it.
use nblex.Base.{
  ℕ, ◌+◌, ◌*◌, ◌%◌, ◌≡◌, refl, sym, ap, ◌∙◌, arith, leb, true, some, ◌∷◌, ◌++◌, length, drop,
}
use nblex.Base.Int.{pos}
use nblex.Pcap.{
  sizeof_ether, sizeof_ip, size_sub, transport_at, address_at, dissect_ip, more_mac, mac_at, ip_at,
  dissect_ethernet, ethernet_at, packet_handler,
}
use nblex.Pcap.Fields.{byte_at, ntohs_at, tcp}
use nblex.Pcap.Bounds.{size_sub_le}
use nblex.Runtime.{Runtime}
use nblex.Text.{Bytes}
use nblex.Pcap.Print.{
  mac_onto, tcp_bytes, ip_header, two_bytes, version_four, transport_read, Segment, print_segment,
  mac_text, address_text, read_tcp, read_ip, read_ethernet,
}

ip_bytes : (s : Segment) → Bytes
ip_bytes s = ip_header s ++ tcp_bytes s

first_byte : (s : Segment) → byte_at (ip_bytes s) 0 ≡ some (69 + s.words)
unfolding byte_at ip_bytes
first_byte s = refl

src_read : (s : Segment) → address_at (ip_bytes s) 12 ≡ some (address_text s.src)
unfolding address_at byte_at ip_bytes
src_read s = refl

dst_read : (s : Segment) → address_at (ip_bytes s) 16 ≡ some (address_text s.dst)
unfolding address_at byte_at ip_bytes
dst_read s = refl

protocol_read : (s : Segment) → byte_at (ip_bytes s) 9 ≡ some 6
unfolding byte_at ip_bytes
protocol_read s = refl

ttl_read : (s : Segment) → byte_at (ip_bytes s) 8 ≡ some s.ttl
unfolding byte_at ip_bytes
ttl_read s = refl

length_read : (s : Segment) → ntohs_at (ip_bytes s) 2 ≡ some s.ip_length
unfolding ntohs_at byte_at ip_bytes
length_read s = rw (two_bytes s.ip_length) refl

transport_of :
    (s : Segment)
    → transport_at 6
        (size_sub (length (ip_bytes s)) ((69 + s.words) % 16 * 4))
        (drop ((69 + s.words) % 16 * 4) (ip_bytes s))
      ≡ some (some (tcp (read_tcp s)))
unfolding ip_bytes
transport_of s = transport_read s

ip_read : (s : Segment) → dissect_ip (length (ip_bytes s)) (ip_bytes s) ≡ some (read_ip s)
unfolding dissect_ip
ip_read s =
    rw
      (
        first_byte s,
        src_read s,
        dst_read s,
        protocol_read s,
        ttl_read s,
        length_read s,
        transport_of s,
        version_four s,
      )
      refl

length-ip_bytes : (s : Segment) → leb sizeof_ip (length (ip_bytes s)) ≡ true
unfolding ip_bytes
length-ip_bytes s = ground arith

-- the frame in front of the packet
frame : Segment → Bytes → Bytes
frame s behind = mac_onto s.dst_mac (mac_onto s.src_mac (8 ∷ 0 ∷ behind))

src_mac_read : (s : Segment) (t : Bytes) → mac_at (frame s t) 6 ≡ some (mac_text s.src_mac)
unfolding mac_at more_mac byte_at frame
src_mac_read s t = refl

dst_mac_read : (s : Segment) (t : Bytes) → mac_at (frame s t) 0 ≡ some (mac_text s.dst_mac)
unfolding mac_at more_mac byte_at frame
dst_mac_read s t = refl

type_read : (s : Segment) (t : Bytes) → ntohs_at (frame s t) 12 ≡ some 2048
unfolding ntohs_at byte_at frame
type_read s t = refl

behind_frame : (s : Segment) (t : Bytes) → drop sizeof_ether (frame s t) ≡ t
unfolding frame
behind_frame s t = refl

frame_remaining : (s : Segment) (t : Bytes) → size_sub (length (frame s t)) sizeof_ether ≡ length t
unfolding frame
frame_remaining s t = size_sub_le (length (frame s t)) sizeof_ether (omega arith) ∙ omega arith

ip_at_frame :
    (s : Segment) → ip_at 2048 (length (ip_bytes s)) (ip_bytes s) ≡ some (some (read_ip s))
unfolding ip_at
ip_at_frame s = rw (length-ip_bytes s, ip_read s) refl

ethernet_read :
    (s : Segment)
    → dissect_ethernet (length (frame s (ip_bytes s))) (frame s (ip_bytes s))
      ≡ some (read_ethernet s)
unfolding dissect_ethernet
ethernet_read s =
    let t = ip_bytes s in
    rw
      (
        src_mac_read s t,
        dst_mac_read s t,
        type_read s t,
        frame_remaining s t,
        behind_frame s t,
        ip_at_frame s,
      )
      refl

frame_is : (s : Segment) → frame s (ip_bytes s) ≡ print_segment s
unfolding frame ip_bytes
frame_is s = refl

-- A captured TCP segment is read back, whatever options its IP header has, up to ten times four
-- bytes: the addresses of both layers as texts, the type, version, protocol, time to live and
-- length, and the ports, numbers, flags, window, checksum and urgent pointer of TCP.
pub packet_handler-print_segment :
    {J R X : Type 0} (rt : Runtime J R X) (interface : Bytes) (sec usec len : ℕ) (s : Segment)
    → packet_handler rt interface true
        (record { tv_sec = sec; tv_usec = usec; len = len; caplen = length (print_segment s) })
        (print_segment s)
      ≡ some (record {
        timestamp =
            rt.add
              (rt.of_integer (pos sec))
              (rt.div (rt.of_integer (pos usec)) (rt.of_integer (pos 1_000_000)));
        packet_length = len;
        captured_length = length (print_segment s);
        interface = interface;
        ethernet = some (read_ethernet s);
      })
unfolding packet_handler ethernet_at
packet_handler-print_segment rt interface sec usec len s =
    let read : dissect_ethernet (length (print_segment s)) (print_segment s)
        ≡ some (read_ethernet s) =
      ap (λ b. dissect_ethernet (length b) b) (sym (frame_is s)) ∙ ethernet_read s in
    rw read refl
