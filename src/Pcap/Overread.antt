-- ===== src/Pcap/Overread.antt =====
-- src/input/pcap_input.c: packets that are read behind the bytes that were captured.
use nblex.Base.{
  ℕ, zero, suc, ◌+◌, ◌*◌, ◌%◌, ◌≤◌, ◌<◌, ◌≡◌, refl, arith, leb, true, false, Option, none, some, [],
  ◌∷◌, length, length-drop, drop,
}
use nblex.Pcap.{
  sizeof_ether, sizeof_ip, sizeof_tcp, size_sub, fitting, transport_at, address_at, dissect_ip,
  mac_at, ip_at, dissect_ethernet, Header, ethernet_at, packet_handler,
}
use nblex.Pcap.Fields.{byte_at, ntohs_at, dissect_tcp}
use nblex.Runtime.{Runtime}
use nblex.Text.{Bytes}
use nblex.Text.Scanf.{◌>>=◌}
use nblex.Pcap.Bounds.{remaining_is_left}

none_behind :
    {A B : Type 0} (x : Option A) (f : A → Option B)
    → ((a : A) → x ≡ some a → f a ≡ none)
    → x >>= f ≡ none
none_behind none f h = refl
none_behind (some a) f h = h a refl

some_is : {A : Type 0} (x : Option A) (a b : A) → x ≡ some a → x ≡ some b → a ≡ b
some_is x a b h k = cc

drop_behind : (n : ℕ) (s : Bytes) → length s < n → drop n s ≡ []
drop_behind zero s h = absurd (omega arith)
drop_behind (suc n) [] h = refl
drop_behind (suc n) (c ∷ s) h = drop_behind n s (omega arith)

tcp_behind : dissect_tcp [] ≡ none
unfolding dissect_tcp ntohs_at byte_at
tcp_behind = refl

-- With the subtraction wrapped around, any header seems to fit.
wrapped : (a b : ℕ) → a < b → b ≤ 60 → leb sizeof_tcp (size_sub a b) ≡ true
wrapped a b h k = let less : leb b a ≡ false = ground arith in rw less (ground arith)

transport_behind :
    (n : ℕ) (s : Bytes)
    → length s < n
    → n ≤ 60
    → transport_at 6 (size_sub (length s) n) (drop n s) ≡ none
unfolding transport_at fitting
transport_behind n s h k = rw (drop_behind n s h, tcp_behind, wrapped (length s) n h k) refl

ip_behind :
    (s : Bytes) (first : ℕ)
    → byte_at s 0 ≡ some first
    → byte_at s 9 ≡ some 6
    → length s < first % 16 * 4
    → dissect_ip (length s) s ≡ none
unfolding dissect_ip
ip_behind s first head tcp short = none_behind (byte_at s 0) _ λ f e1.
    none_behind (address_at s 12) _ λ src e2. none_behind (address_at s 16) _ λ dst e3.
      none_behind (byte_at s 9) _ λ protocol e4. none_behind (byte_at s 8) _ λ ttl e5.
        none_behind (ntohs_at s 2) _ λ len e6.
          rw
            (
              some_is (byte_at s 0) f first e1 head,
              some_is (byte_at s 9) protocol 6 e4 tcp,
              transport_behind (first % 16 * 4) s short (omega arith),
            )
            refl

ethernet_behind :
    (s : Bytes) (first : ℕ)
    → sizeof_ether + sizeof_ip ≤ length s
    → ntohs_at s 12 ≡ some 2048
    → byte_at (drop sizeof_ether s) 0 ≡ some first
    → byte_at (drop sizeof_ether s) 9 ≡ some 6
    → length s < sizeof_ether + first % 16 * 4
    → dissect_ethernet (length s) s ≡ none
unfolding dissect_ethernet ip_at
ethernet_behind s first long type head tcp short =
    let behind = drop sizeof_ether s in
    let room : leb sizeof_ip (length behind) ≡ true =
      ground (arith, long, length-drop sizeof_ether s) in
    none_behind (mac_at s 6) _ λ src e1. none_behind (mac_at s 0) _ λ dst e2.
      none_behind (ntohs_at s 12) _ λ t e3.
        rw
          (
            remaining_is_left sizeof_ether s (omega (arith, long)),
            some_is (ntohs_at s 12) t 2048 e3 type,
            room,
            ip_behind behind first head tcp
                (omega (arith, short, long, length-drop sizeof_ether s)),
          )
          refl

module _ {J R X : Type 0} (rt : Runtime J R X) (interface : Bytes) (header : Header)
    (packet : Bytes) (captured : header.caplen ≡ length packet) where
  -- An Ethernet frame of type IPv4 and protocol TCP, of which at least the 34 bytes of both
  -- headers without options were captured, and whose IP header claims to be longer than what was
  -- captured, is read behind the captured bytes: what remains wraps around, and passes the test for
  -- the TCP header.
  pub read_behind_capture :
      (first : ℕ)
      → sizeof_ether + sizeof_ip ≤ length packet
      → ntohs_at packet 12 ≡ some 2048
      → byte_at (drop sizeof_ether packet) 0 ≡ some first
      → byte_at (drop sizeof_ether packet) 9 ≡ some 6
      → length packet < sizeof_ether + first % 16 * 4
      → packet_handler rt interface true header packet ≡ none
  unfolding packet_handler ethernet_at
  read_behind_capture first long type head tcp short =
      rw (captured, ethernet_behind packet first long type head tcp short) refl
