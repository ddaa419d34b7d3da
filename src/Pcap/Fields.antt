-- ===== src/Pcap/Fields.antt =====
-- src/input/pcap_input.c: the fields of a packet, and dissect_tcp, dissect_udp and dissect_icmp. A
-- packet is the bytes that were captured; `none` is a read behind them.
use nblex.Base.{ℕ, zero, suc, ◌+◌, ◌*◌, ◌/◌, ◌%◌, Bool, not, Option, none, some, [], ◌∷◌, ◌==◌}
use nblex.Text.{Bytes}
use nblex.Text.Scanf.{◌>>=◌}

-- the byte at an offset
unfoldable pub byte_at : Bytes → ℕ → Option ℕ
byte_at [] n = none
byte_at (c ∷ s) zero = some c
byte_at (c ∷ s) (suc n) = byte_at s n

-- ntohs and ntohl of a field
unfoldable pub ntohs_at : Bytes → ℕ → Option ℕ
unfolding byte_at
ntohs_at s n = do hi ← byte_at s n; lo ← byte_at s (n + 1); some (hi * 256 + lo)

unfoldable pub ntohl_at : Bytes → ℕ → Option ℕ
unfolding ntohs_at
ntohl_at s n = do hi ← ntohs_at s n; lo ← ntohs_at s (n + 2); some (hi * 65_536 + lo)

-- `flags & mask`, for a mask of one bit
abbrev pub has_flag : ℕ → ℕ → Bool
has_flag flags mask = not (flags / mask % 2 == 0)

pub record TcpFlags : Type 0 where
  pub fin : Bool
  pub syn : Bool
  pub rst : Bool
  pub psh : Bool
  pub ack : Bool
  pub urg : Bool
  pub ece : Bool
  pub cwr : Bool

abbrev pub flags_of : ℕ → TcpFlags
flags_of flags = record {
  fin = has_flag flags 1;
  syn = has_flag flags 2;
  rst = has_flag flags 4;
  psh = has_flag flags 8;
  ack = has_flag flags 16;
  urg = has_flag flags 32;
  ece = has_flag flags 64;
  cwr = has_flag flags 128;
}

pub record Tcp : Type 0 where
  pub src_port : ℕ
  pub dst_port : ℕ
  pub seq : ℕ
  pub acknowledged : ℕ
  pub flags : TcpFlags
  pub window : ℕ
  pub checksum : ℕ
  pub urgent : ℕ

pub record Udp : Type 0 where
  pub src_port : ℕ
  pub dst_port : ℕ
  pub udp_length : ℕ
  pub checksum : ℕ

pub record Icmp : Type 0 where
  pub icmp_type : ℕ
  pub code : ℕ
  pub checksum : ℕ

-- the member "protocol" and those of the protocol
pub data Transport : Type 0 where
  tcp : Tcp → Transport
  udp : Udp → Transport
  icmp : Icmp → Transport

unfoldable pub dissect_tcp : Bytes → Option Transport
unfolding ntohs_at ntohl_at
dissect_tcp s = do
  src ← ntohs_at s 0
  dst ← ntohs_at s 2
  seq ← ntohl_at s 4
  ack ← ntohl_at s 8
  flags ← byte_at s 13
  window ← ntohs_at s 14
  sum ← ntohs_at s 16
  urgent ← ntohs_at s 18
  some (
      tcp (record {
        src_port = src;
        dst_port = dst;
        seq = seq;
        acknowledged = ack;
        flags = flags_of flags;
        window = window;
        checksum = sum;
        urgent = urgent;
      }))

unfoldable pub dissect_udp : Bytes → Option Transport
unfolding ntohs_at
dissect_udp s = do
  src ← ntohs_at s 0
  dst ← ntohs_at s 2
  len ← ntohs_at s 4
  sum ← ntohs_at s 6
  some (udp (record { src_port = src; dst_port = dst; udp_length = len; checksum = sum }))

unfoldable pub dissect_icmp : Bytes → Option Transport
unfolding ntohs_at
dissect_icmp s = do
  type ← byte_at s 0
  code ← byte_at s 1
  sum ← ntohs_at s 2
  some (icmp (record { icmp_type = type; code = code; checksum = sum }))
