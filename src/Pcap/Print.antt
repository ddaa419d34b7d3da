-- ===== src/Pcap/Print.antt =====
-- src/input/pcap_input.c: a TCP segment in an IPv4 packet in an Ethernet frame, as its bytes stand
-- on the wire and as the handler reads them.
use nblex.Base.{
  ℕ, ◌+◌, ◌*◌, ◌/◌, ◌%◌, ◌≤◌, ◌≡◌, refl, ◌∙◌, arith, leb, true, some, ◌∷◌, ◌++◌, length,
  length-append, drop, drop-append,
}
use nblex.Base.Int.{pos}
use nblex.Pcap.{sizeof_tcp, size_sub, fitting, transport_at, Ip, Ethernet, hex}
use nblex.Pcap.Fields.{byte_at, ntohs_at, ntohl_at, flags_of, Tcp, tcp, dissect_tcp}
use nblex.Pcap.Bounds.{size_sub_le}
use nblex.Text.{Bytes}
use nblex.Text.Number.{print_integer}

-- a number in network order, in two bytes and in four
abbrev pub htons : ℕ → Bytes → Bytes
htons n rest = n / 256 ∷ n % 256 ∷ rest

abbrev pub htonl : ℕ → Bytes → Bytes
htonl n rest = htons (n / 65_536) (htons (n % 65_536) rest)

pub record Mac : Type 0 where
  pub a : ℕ
  pub b : ℕ
  pub c : ℕ
  pub d : ℕ
  pub e : ℕ
  pub f : ℕ

pub record Address : Type 0 where
  pub a : ℕ
  pub b : ℕ
  pub c : ℕ
  pub d : ℕ

abbrev pub mac_onto : Mac → Bytes → Bytes
mac_onto m rest = m.a ∷ m.b ∷ m.c ∷ m.d ∷ m.e ∷ m.f ∷ rest

abbrev pub address_onto : Address → Bytes → Bytes
address_onto a rest = a.a ∷ a.b ∷ a.c ∷ a.d ∷ rest

-- "aa:bb:cc:dd:ee:ff"
abbrev pub mac_text : Mac → Bytes
mac_text m =
    hex m.a
    ++ b':'
      ∷ (hex m.b ++ b':' ∷ (hex m.c ++ b':' ∷ (hex m.d ++ b':' ∷ (hex m.e ++ b':' ∷ hex m.f))))

abbrev pub address_text : Address → Bytes
address_text a =
    print_integer (pos a.a)
    ++ b'.'
      ∷ (print_integer (pos a.b)
          ++ b'.' ∷ (print_integer (pos a.c) ++ b'.' ∷ print_integer (pos a.d)))

-- the fields of the headers; the options of IP are `words` times four bytes
pub record Segment : Type 0 where
  pub dst_mac : Mac
  pub src_mac : Mac
  pub tos : ℕ
  pub ip_length : ℕ
  pub id : ℕ
  pub fragment : ℕ
  pub ttl : ℕ
  pub ip_checksum : ℕ
  pub src : Address
  pub dst : Address
  pub words : ℕ
  pub options : Bytes
  pub options_length : length options ≡ words * 4
  pub few : words ≤ 10
  pub src_port : ℕ
  pub dst_port : ℕ
  pub seq : ℕ
  pub acknowledged : ℕ
  pub data_offset : ℕ
  pub flags : ℕ
  pub window : ℕ
  pub checksum : ℕ
  pub urgent : ℕ
  pub payload : Bytes

abbrev pub tcp_bytes : Segment → Bytes
tcp_bytes s = htons s.src_port (
    htons s.dst_port (
      htonl s.seq (
        htonl s.acknowledged (
          s.data_offset ∷ s.flags ∷ htons s.window (htons s.checksum (htons s.urgent s.payload))))))

abbrev pub ip_header : Segment → Bytes
ip_header s =
    (69 + s.words)
    ∷ s.tos
    ∷ htons s.ip_length (
        htons s.id (
          htons s.fragment
            (s.ttl ∷ 6 ∷ htons s.ip_checksum (address_onto s.src (address_onto s.dst s.options)))))

abbrev pub print_segment : Segment → Bytes
print_segment s = mac_onto s.dst_mac (mac_onto s.src_mac (8 ∷ 0 ∷ (ip_header s ++ tcp_bytes s)))

abbrev pub read_tcp : Segment → Tcp
read_tcp s = record {
  src_port = s.src_port;
  dst_port = s.dst_port;
  seq = s.seq;
  acknowledged = s.acknowledged;
  flags = flags_of s.flags;
  window = s.window;
  checksum = s.checksum;
  urgent = s.urgent;
}

abbrev pub read_ip : Segment → Ip
read_ip s = record {
  ip_version = 4;
  ip_src = address_text s.src;
  ip_dst = address_text s.dst;
  ip_protocol = 6;
  ip_ttl = s.ttl;
  ip_length = s.ip_length;
  transport = some (tcp (read_tcp s));
}

abbrev pub read_ethernet : Segment → Ethernet
read_ethernet s = record {
  ethernet_src = mac_text s.src_mac;
  ethernet_dst = mac_text s.dst_mac;
  ethernet_type = 2048;
  ip = some (read_ip s);
}

pub two_bytes : (n : ℕ) → n / 256 * 256 + n % 256 ≡ n
two_bytes n = omega arith

four_bytes : (n : ℕ) → n / 65_536 * 65_536 + n % 65_536 ≡ n
four_bytes n = omega arith

tcp_read : (s : Segment) → dissect_tcp (tcp_bytes s) ≡ some (tcp (read_tcp s))
unfolding dissect_tcp ntohs_at ntohl_at byte_at
tcp_read s =
    rw
      (
        two_bytes s.src_port,
        two_bytes s.dst_port,
        two_bytes (s.seq / 65_536),
        two_bytes (s.seq % 65_536),
        four_bytes s.seq,
        two_bytes (s.acknowledged / 65_536),
        two_bytes (s.acknowledged % 65_536),
        four_bytes s.acknowledged,
        two_bytes s.window,
        two_bytes s.checksum,
        two_bytes s.urgent,
      )
      refl

header_length : (s : Segment) → (69 + s.words) % 16 * 4 ≡ length (ip_header s)
header_length s = omega (arith, s.options_length, s.few)

pub version_four : (s : Segment) → (69 + s.words) / 16 ≡ 4
version_four s = omega (arith, s.few)

remaining_is :
    (s : Segment)
    → size_sub (length (ip_header s ++ tcp_bytes s)) (length (ip_header s)) ≡ length (tcp_bytes s)
remaining_is s =
    size_sub_le (length (ip_header s ++ tcp_bytes s)) (length (ip_header s))
      (omega (arith, length-append (ip_header s) (tcp_bytes s)))
    ∙ omega (arith, length-append (ip_header s) (tcp_bytes s))

tcp_fits : (s : Segment) → leb sizeof_tcp (length (tcp_bytes s)) ≡ true
tcp_fits s = ground arith

pub transport_read :
    (s : Segment)
    → transport_at 6
        (size_sub (length (ip_header s ++ tcp_bytes s)) ((69 + s.words) % 16 * 4))
        (drop ((69 + s.words) % 16 * 4) (ip_header s ++ tcp_bytes s))
      ≡ some (some (tcp (read_tcp s)))
unfolding transport_at fitting
transport_read s =
    rw
      (
        header_length s,
        remaining_is s,
        drop-append (ip_header s) (tcp_bytes s),
        tcp_fits s,
        tcp_read s,
      )
      refl
