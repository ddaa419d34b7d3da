-- ===== src/Pcap.antt =====
-- src/input/pcap_input.c: the dissection of a captured packet, and the capture's handles. A packet
-- is the bytes that were captured; `none` is a read behind them. A `u_char*` cursor is what is left
-- of the packet.
pub mod Fields
pub mod Bounds
pub mod Overread
pub mod Print
pub mod RoundTrip
pub mod Capture
mod Tests
use nblex.Base.{
  ℕ, zero, suc, ◌+◌, ◌-◌, ◌*◌, ◌/◌, ◌%◌, ◌^◌, ltb, leb, Bool, true, false, not, ◌&&◌, Option, none,
  some, List, [], ◌∷◌, ◌++◌, ◌==◌, length, drop, if◌then◌else◌,
}
use nblex.Base.Int.{ℤ, pos}
use nblex.Correlation.{Event, World, CorrData, network, nblex_event_emit}
use nblex.Filter.{FilterNode}
use nblex.Runtime.{Runtime}
use nblex.Text.{Bytes}
use nblex.Text.Number.{print_integer}
use nblex.Text.Scanf.{◌>>=◌}
use nblex.Pcap.Fields.{byte_at, ntohs_at, Transport, dissect_tcp, dissect_udp, dissect_icmp}

-- sizeof of struct ether_header, ip, tcphdr, udphdr and icmp
abbrev pub sizeof_ether : ℕ
sizeof_ether = 14

abbrev pub sizeof_ip : ℕ
sizeof_ip = 20

abbrev pub sizeof_tcp : ℕ
sizeof_tcp = 20

abbrev pub sizeof_udp : ℕ
sizeof_udp = 8

abbrev pub sizeof_icmp : ℕ
sizeof_icmp = 28

abbrev size_max : ℕ
size_max = 2 ^ 64

-- `a - b` in size_t
abbrev pub size_sub : ℕ → ℕ → ℕ
size_sub a b = if leb b a then a - b else size_max + a - b

-- where the header of the protocol fits in what remains
fitting : ℕ → ℕ → Option Transport → Option (Option Transport)
fitting size remaining found =
    let read = found >>= λ t. some (some t) in if leb size remaining then read else some none

-- the switch on ip_p
unfoldable pub transport_at : ℕ → ℕ → Bytes → Option (Option Transport)
unfolding fitting dissect_tcp dissect_udp dissect_icmp
transport_at protocol remaining s =
    if protocol == 6
    then fitting sizeof_tcp remaining (dissect_tcp s)
    else if protocol == 17
    then fitting sizeof_udp remaining (dissect_udp s)
    else if protocol == 1
    then fitting sizeof_icmp remaining (dissect_icmp s)
    else some none

-- inet_ntop of the four bytes at an offset
unfoldable pub address_at : Bytes → ℕ → Option Bytes
unfolding byte_at print_integer
address_at s n = do
  a ← byte_at s n
  b ← byte_at s (n + 1)
  c ← byte_at s (n + 2)
  d ← byte_at s (n + 3)
  some (
      print_integer (pos a)
      ++ b'.'
        ∷ (print_integer (pos b) ++ b'.' ∷ (print_integer (pos c) ++ b'.' ∷ print_integer (pos d))))

pub record Ip : Type 0 where
  pub ip_version : ℕ
  pub ip_src : Bytes
  pub ip_dst : Bytes
  pub ip_protocol : ℕ
  pub ip_ttl : ℕ
  pub ip_length : ℕ
  pub transport : Option Transport

-- ip_v and ip_hl stand in one byte
dissect_ip : ℕ → Bytes → Option Ip
dissect_ip remaining s = do
  first ← byte_at s 0
  src ← address_at s 12
  dst ← address_at s 16
  protocol ← byte_at s 9
  ttl ← byte_at s 8
  len ← ntohs_at s 2
  transport ← transport_at protocol (size_sub remaining (first % 16 * 4)) (drop (first % 16 * 4) s)
  some (record {
    ip_version = first / 16;
    ip_src = src;
    ip_dst = dst;
    ip_protocol = protocol;
    ip_ttl = ttl;
    ip_length = len;
    transport = transport;
  })

pub record Ethernet : Type 0 where
  pub ethernet_src : Bytes
  pub ethernet_dst : Bytes
  pub ethernet_type : ℕ
  pub ip : Option Ip

-- a digit of `%02x`
abbrev hex_digit : ℕ → ℕ
hex_digit n = if ltb n 10 then 48 + n else 87 + n

abbrev hex : ℕ → Bytes
hex n = hex_digit (n / 16) ∷ hex_digit (n % 16) ∷ []

-- `%02x` of each of the bytes at an offset, with a ':' before each
more_mac : Bytes → ℕ → ℕ → Option Bytes
unfolding byte_at
more_mac s n zero = some []
more_mac s n (suc k) = do
  c ← byte_at s n
  rest ← more_mac s (n + 1) k
  some (b':' ∷ (hex c ++ rest))

unfoldable pub mac_at : Bytes → ℕ → Option Bytes
unfolding more_mac
mac_at s n = more_mac s n 6 >>= λ mac. some (drop 1 mac)

ip_at : ℕ → ℕ → Bytes → Option (Option Ip)
ip_at type remaining s =
    let ip = dissect_ip remaining s >>= λ i. some (some i) in
    if type == 2048 && leb sizeof_ip remaining then ip else some none

dissect_ethernet : ℕ → Bytes → Option Ethernet
dissect_ethernet caplen packet = do
  src ← mac_at packet 6
  dst ← mac_at packet 0
  type ← ntohs_at packet 12
  ip ← ip_at type (size_sub caplen sizeof_ether) (drop sizeof_ether packet)
  some (record { ethernet_src = src; ethernet_dst = dst; ethernet_type = type; ip = ip })

-- struct pcap_pkthdr
pub record Header : Type 0 where
  pub tv_sec : ℕ
  pub tv_usec : ℕ
  pub len : ℕ
  pub caplen : ℕ

-- the object of the event
pub record Packet (R : Type 0) : Type 0 where
  pub timestamp : R
  pub packet_length : ℕ
  pub captured_length : ℕ
  pub interface : Bytes
  pub ethernet : Option Ethernet

-- data->datalink == DLT_EN10MB
ethernet_at : Bool → ℕ → Bytes → Option (Option Ethernet)
ethernet_at false caplen packet = some none
ethernet_at true caplen packet = dissect_ethernet caplen packet >>= λ e. some (some e)

-- packet_handler, up to the emission
pub packet_handler :
    {J R X : Type 0} → Runtime J R X → Bytes → Bool → Header → Bytes → Option (Packet R)
packet_handler rt interface is_ethernet header packet = do
  ethernet ← ethernet_at is_ethernet header.caplen packet
  some (record {
    timestamp =
        rt.add (rt.of_integer (pos header.tv_sec))
          (rt.div (rt.of_integer (pos header.tv_usec)) (rt.of_integer (pos 1_000_000)));
    packet_length = header.len;
    captured_length = header.caplen;
    interface = interface;
    ethernet = ethernet;
  })

module _ {J R X : Type 0} (rt : Runtime J R X) (pack : CorrData J → J) (to_json : Packet R → J)
    (filter : Option (Option (FilterNode R X))) (now : ℕ) where
  -- nblex_event_new, with the event's data
  abbrev pub network_event : Packet R → Event J R X
  network_event data' = record {
    kind = network;
    timestamp_ns = now;
    filter = filter;
    data' = some (to_json data');
  }

  -- packet_handler, up to the release of the event
  pub emit_packet :
      Bytes → Bool → Header → Bytes → World (Event J R X) → Option (World (Event J R X))
  emit_packet interface is_ethernet header packet w = do
    data' ← packet_handler rt interface is_ethernet header packet
    some (nblex_event_emit rt pack 2 w (network_event data'))
