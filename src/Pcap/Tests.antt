-- ===== src/Pcap/Tests.antt =====
-- Packets of src/input/pcap_input.c, and the theorems at them.
use nblex.Base.{
  ℕ, ◌≡◌, ◌≢◌, refl, ap, arith, true, false, Option, none, some, List, [], ◌∷◌, ◌++◌, length, map,
}
use nblex.Base.Int.{ℤ, pos, negsuc}
use nblex.Correlation.{EventType, network, Event, World, nblex_event_emit, process_event, passes}
use nblex.Pcap.{
  emit_packet, ethernet_at, fitting, transport_at, address_at, dissect_ip, more_mac, mac_at, ip_at,
  dissect_ethernet, Header, packet_handler,
}
use nblex.Pcap.Fields.{byte_at, ntohs_at, dissect_udp, udp}
use nblex.Pcap.Bounds.{Ends, packet_handler-Ends}
use nblex.Pcap.Capture.{
  nblex_input_pcap_new, Opening, pcap_input_stop, pcap_input_free, Call, start, readable, run_calls,
  active, run_calls-ends,
}
use nblex.Pcap.Overread.{read_behind_capture}
use nblex.Pcap.Print.{Segment, print_segment, read_ethernet}
use nblex.Pcap.RoundTrip.{packet_handler-print_segment}
use nblex.Testing.{Sample, empty, sample}
use nblex.Text.{Bytes, codes}
use nblex.Text.Number.{print_integer}

-- two MAC addresses, IPv4
abbrev ether : Bytes
ether = 0 ∷ 17 ∷ 34 ∷ 51 ∷ 68 ∷ 85 ∷ 170 ∷ 187 ∷ 204 ∷ 221 ∷ 238 ∷ 255 ∷ 8 ∷ 0 ∷ []

abbrev ip_header : ℕ → ℕ → Bytes
ip_header first protocol =
    first ∷ 0 ∷ 0 ∷ 28 ∷ 0 ∷ 0 ∷ 0 ∷ 0 ∷ 64 ∷ protocol ∷ 0 ∷ 0 ∷ 10 ∷ 0 ∷ 0 ∷ 1 ∷ 192 ∷ 168 ∷ 0
    ∷ 254 ∷ []

-- DNS to port 53
abbrev datagram : Bytes
datagram = ether ++ (ip_header 69 17 ++ 4 ∷ 0 ∷ 0 ∷ 53 ∷ 0 ∷ 8 ∷ 18 ∷ 52 ∷ [])

abbrev header : ℕ → Header
header n = record { tv_sec = 1; tv_usec = 500_000; len = n; caplen = n }

read_datagram :
    dissect_ethernet 42 datagram
    ≡ some (record {
      ethernet_src = codes "aa:bb:cc:dd:ee:ff";
      ethernet_dst = codes "00:11:22:33:44:55";
      ethernet_type = 2048;
      ip = some (record {
        ip_version = 4;
        ip_src = codes "10.0.0.1";
        ip_dst = codes "192.168.0.254";
        ip_protocol = 17;
        ip_ttl = 64;
        ip_length = 28;
        transport =
            some (udp (record { src_port = 1024; dst_port = 53; udp_length = 8; checksum = 4660 }));
      });
    })
unfolding dissect_ethernet mac_at more_mac ip_at dissect_ip address_at transport_at fitting
    dissect_udp ntohs_at byte_at print_integer
read_datagram = refl

-- An echo request with less than 20 bytes of data is shorter than `struct icmp`.
short_echo : transport_at 1 8 (8 ∷ 0 ∷ 247 ∷ 255 ∷ 0 ∷ 0 ∷ 0 ∷ 0 ∷ []) ≡ some none
unfolding transport_at fitting
short_echo = refl

abbrev some_or_zero : Option ℕ → ℕ
some_or_zero none = 0
some_or_zero (some n) = n

packet_handler-Ends_example : Ends (packet_handler sample (codes "eth0") true (header 42) datagram)
unfolding byte_at
packet_handler-Ends_example =
    packet_handler-Ends sample (codes "eth0") (header 42) datagram refl true (omega arith)
      λ is_ip first e. let five : 69 ≡ first = ap some_or_zero e in rw (← five) (omega arith)

-- an IP header that claims 60 bytes, of which 20 were captured
abbrev cut : Bytes
cut = ether ++ ip_header 79 6

read_behind_capture_example : packet_handler sample (codes "eth0") true (header 34) cut ≡ none
unfolding byte_at ntohs_at
read_behind_capture_example =
    read_behind_capture sample (codes "eth0") (header 34) cut refl 79 (omega arith) refl refl refl
      (omega arith)

segment : Segment
segment = record {
  dst_mac = record { a = 0; b = 17; c = 34; d = 51; e = 68; f = 85 };
  src_mac = record { a = 170; b = 187; c = 204; d = 221; e = 238; f = 255 };
  tos = 0;
  ip_length = 44;
  id = 1;
  fragment = 0;
  ttl = 64;
  ip_checksum = 0;
  src = record { a = 10; b = 0; c = 0; d = 1 };
  dst = record { a = 10; b = 0; c = 0; d = 2 };
  words = 1;
  options = 1 ∷ 1 ∷ 1 ∷ 0 ∷ [];
  options_length = refl;
  few = omega arith;
  src_port = 40_000;
  dst_port = 443;
  seq = 100_000;
  acknowledged = 0;
  data_offset = 80;
  flags = 2;
  window = 1024;
  checksum = 0;
  urgent = 0;
  payload = [];
}

packet_handler-print_segment_example :
    packet_handler sample
      (codes "eth0")
      true
      (header (length (print_segment segment)))
      (print_segment segment)
    ≡ some (record {
      timestamp =
          sample.add
            (sample.of_integer (pos 1))
            (sample.div (sample.of_integer (pos 500_000)) (sample.of_integer (pos 1_000_000)));
      packet_length = length (print_segment segment);
      captured_length = length (print_segment segment);
      interface = codes "eth0";
      ethernet = some (read_ethernet segment);
    })
packet_handler-print_segment_example =
    packet_handler-print_segment sample (codes "eth0") 1 500_000 (length (print_segment segment))
      segment

all_well : Opening
all_well = record {
  open_live_ok = true;
  setnonblock_ok = true;
  bpf = some (codes "tcp");
  compile_ok = true;
  setfilter_ok = true;
  selectable_ok = true;
  poll_init_ok = true;
  poll_start_ok = true;
}

calls : List Call
calls = start all_well ∷ readable (pos 3) ∷ readable (negsuc 0) ∷ start all_well ∷ []

run_calls-ends_example :
    let d = run_calls calls nblex_input_pcap_new in
    (((pcap_input_stop d).poll_handle ≢ active) × ((pcap_input_stop d).pcap_handle ≡ false))
    × (((pcap_input_free d).poll_handle ≢ active) × ((pcap_input_free d).pcap_handle ≡ false))
run_calls-ends_example = run_calls-ends calls

abbrev quiet : World (Event Sample ℤ Bytes)
quiet = record {
  correlation = none;
  events_processed = 0;
  events_correlated = 0;
  has_handler = true;
  handled = [];
}

-- the kind and time of what the handler sees
abbrev seen : Option (World (Event Sample ℤ Bytes)) → List (EventType × ℕ)
seen none = []
seen (some w) = map (λ e. (e.kind, e.timestamp_ns)) w.handled

emitted :
    seen (
      emit_packet sample
        (λ d. empty)
        (λ p. empty)
        none
        7
        (codes "eth0")
        false
        (header 2)
        (1 ∷ 2 ∷ [])
        quiet)
    ≡ (network, 7) ∷ []
unfolding emit_packet packet_handler ethernet_at nblex_event_emit process_event passes
emitted = refl
