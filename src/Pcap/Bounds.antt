-- ===== src/Pcap/Bounds.antt =====
-- src/input/pcap_input.c: which packets are read within the bytes that were captured.
use nblex.Base.{
  ℕ, zero, suc, ◌+◌, ◌-◌, ◌*◌, ◌%◌, ◌≤◌, ◌<◌, ◌≡◌, refl, sym, ap, ◌∙◌, arith, leb, Bool, true,
  false, ◌&&◌, Option, none, some, [], ◌∷◌, ◌==◌, length, length-drop, drop, Bool-cases, inl, inr,
}
use nblex.Pcap.{
  sizeof_ether, sizeof_ip, sizeof_tcp, sizeof_udp, sizeof_icmp, size_sub, fitting, transport_at,
  address_at, dissect_ip, more_mac, mac_at, ip_at, dissect_ethernet, Header, ethernet_at,
  packet_handler,
}
use nblex.Pcap.Fields.{
  byte_at, ntohs_at, ntohl_at, dissect_tcp, dissect_udp, dissect_icmp, Transport,
}
use nblex.Runtime.{Runtime}
use nblex.Text.{Bytes}
use nblex.Text.Scanf.{◌>>=◌}

-- no read was behind the packet
abbrev pub Ends {ℓ} : {A : Type ℓ} → Option A → Type ℓ
Ends {A} x = (a : A) × (x ≡ some a)

Ends-bind :
    {A B : Type 0} (x : Option A) (f : A → Option B)
    → Ends x
    → ((a : A) → x ≡ some a → Ends (f a))
    → Ends (x >>= f)
Ends-bind none f h k = absurd (none_some h.1)
  where
    none_some : {A : Type 0} {a : A} → none ≡ some a → ⊥
    none_some e = cc
Ends-bind (some a) f h k = k a refl

Ends-byte_at : (s : Bytes) (n : ℕ) → n < length s → Ends (byte_at s n)
unfolding byte_at
Ends-byte_at [] n h = absurd (omega arith)
Ends-byte_at (c ∷ s) zero h = (c, refl)
Ends-byte_at (c ∷ s) (suc n) h = Ends-byte_at s n (omega arith)

Ends-ntohs_at : (s : Bytes) (n : ℕ) → n + 1 < length s → Ends (ntohs_at s n)
unfolding ntohs_at
Ends-ntohs_at s n h =
    Ends-bind (byte_at s n) _ (Ends-byte_at s n (omega arith))
      λ hi e. Ends-bind (byte_at s (n + 1)) _ (Ends-byte_at s (n + 1) h) λ lo e'. (_, refl)

Ends-ntohl_at : (s : Bytes) (n : ℕ) → n + 3 < length s → Ends (ntohl_at s n)
unfolding ntohl_at
Ends-ntohl_at s n h = Ends-bind (ntohs_at s n) _ (Ends-ntohs_at s n (omega arith)) λ hi e.
    Ends-bind (ntohs_at s (n + 2)) _ (Ends-ntohs_at s (n + 2) (omega arith)) λ lo e'. (_, refl)

Ends-dissect_tcp : (s : Bytes) → sizeof_tcp ≤ length s → Ends (dissect_tcp s)
unfolding dissect_tcp
Ends-dissect_tcp s h = Ends-bind (ntohs_at s 0) _ (Ends-ntohs_at s 0 (omega arith)) λ src e1.
    Ends-bind (ntohs_at s 2) _ (Ends-ntohs_at s 2 (omega arith)) λ dst e2.
      Ends-bind (ntohl_at s 4) _ (Ends-ntohl_at s 4 (omega arith)) λ seq e3.
        Ends-bind (ntohl_at s 8) _ (Ends-ntohl_at s 8 (omega arith)) λ ack e4.
          Ends-bind (byte_at s 13) _ (Ends-byte_at s 13 (omega arith)) λ flags e5.
            Ends-bind (ntohs_at s 14) _ (Ends-ntohs_at s 14 (omega arith)) λ window e6.
              Ends-bind (ntohs_at s 16) _ (Ends-ntohs_at s 16 (omega arith)) λ sum e7.
                Ends-bind (ntohs_at s 18) _ (Ends-ntohs_at s 18 (omega arith))
                  λ urgent e8. (_, refl)

Ends-dissect_udp : (s : Bytes) → sizeof_udp ≤ length s → Ends (dissect_udp s)
unfolding dissect_udp
Ends-dissect_udp s h = Ends-bind (ntohs_at s 0) _ (Ends-ntohs_at s 0 (omega arith)) λ src e1.
    Ends-bind (ntohs_at s 2) _ (Ends-ntohs_at s 2 (omega arith)) λ dst e2.
      Ends-bind (ntohs_at s 4) _ (Ends-ntohs_at s 4 (omega arith))
        λ len e3. Ends-bind (ntohs_at s 6) _ (Ends-ntohs_at s 6 (omega arith)) λ sum e4. (_, refl)

Ends-dissect_icmp : (s : Bytes) → sizeof_icmp ≤ length s → Ends (dissect_icmp s)
unfolding dissect_icmp
Ends-dissect_icmp s h = Ends-bind (byte_at s 0) _ (Ends-byte_at s 0 (omega arith)) λ type e1.
    Ends-bind (byte_at s 1) _ (Ends-byte_at s 1 (omega arith))
      λ code e2. Ends-bind (ntohs_at s 2) _ (Ends-ntohs_at s 2 (omega arith)) λ sum e3. (_, refl)

Ends-fitting :
    (size remaining : ℕ) (found : Option Transport)
    → (size ≤ remaining → Ends found)
    → Ends (fitting size remaining found)
unfolding fitting
Ends-fitting size remaining found h = elim (Bool-cases (leb size remaining)) [
  | inl e ↦ rw e (Ends-bind found _ (h (ground arith)) λ t k. (_, refl))
  | inr e ↦ rw e (none, refl)
]

Ends-transport_at : (protocol : ℕ) (s : Bytes) → Ends (transport_at protocol (length s) s)
unfolding transport_at
Ends-transport_at protocol s = elim (Bool-cases (protocol == 6)) [
  | inl e ↦ rw e (Ends-fitting sizeof_tcp (length s) (dissect_tcp s) (Ends-dissect_tcp s))
  | inr e ↦ rw e (elim (Bool-cases (protocol == 17)) [
    | inl e' ↦ rw e' (Ends-fitting sizeof_udp (length s) (dissect_udp s) (Ends-dissect_udp s))
    | inr e' ↦ rw e' (elim (Bool-cases (protocol == 1)) [
      | inl e'' ↦
          rw e'' (Ends-fitting sizeof_icmp (length s) (dissect_icmp s) (Ends-dissect_icmp s))
      | inr e'' ↦ rw e'' (none, refl)
    ])
  ])
]

pub size_sub_le : (a b : ℕ) → b ≤ a → size_sub a b ≡ a - b
size_sub_le a b h = let k : leb b a ≡ true = ground arith in rw k refl

-- What remains is what is left, where the IP header is not longer than the packet.
pub remaining_is_left :
    (n : ℕ) (s : Bytes) → n ≤ length s → size_sub (length s) n ≡ length (drop n s)
remaining_is_left n s h = size_sub_le (length s) n h ∙ sym (length-drop n s)

Ends-address_at : (s : Bytes) (n : ℕ) → n + 3 < length s → Ends (address_at s n)
unfolding address_at
Ends-address_at s n h = Ends-bind (byte_at s n) _ (Ends-byte_at s n (omega arith)) λ a e1.
    Ends-bind (byte_at s (n + 1)) _ (Ends-byte_at s (n + 1) (omega arith)) λ b e2.
      Ends-bind (byte_at s (n + 2)) _ (Ends-byte_at s (n + 2) (omega arith)) λ c e3.
        Ends-bind (byte_at s (n + 3)) _ (Ends-byte_at s (n + 3) (omega arith)) λ d e4. (_, refl)

-- the length that the IP header claims does not exceed the bytes behind the Ethernet header
abbrev pub HeaderFits : Bytes → Type 0
HeaderFits s = (first : ℕ) → byte_at s 0 ≡ some first → first % 16 * 4 ≤ length s

Ends-dissect_ip : (s : Bytes) → sizeof_ip ≤ length s → HeaderFits s → Ends (dissect_ip (length s) s)
unfolding dissect_ip
Ends-dissect_ip s h fits = Ends-bind (byte_at s 0) _ (Ends-byte_at s 0 (omega arith)) λ first e1.
    Ends-bind (address_at s 12) _ (Ends-address_at s 12 (omega arith)) λ src e2.
      Ends-bind (address_at s 16) _ (Ends-address_at s 16 (omega arith)) λ dst e3.
        Ends-bind (byte_at s 9) _ (Ends-byte_at s 9 (omega arith)) λ protocol e4.
          Ends-bind (byte_at s 8) _ (Ends-byte_at s 8 (omega arith)) λ ttl e5.
            Ends-bind (ntohs_at s 2) _ (Ends-ntohs_at s 2 (omega arith)) λ len e6.
              Ends-bind
                (transport_at protocol (size_sub (length s) (first % 16 * 4))
                  (drop (first % 16 * 4) s))
                _
                (rw (remaining_is_left (first % 16 * 4) s (fits first e1))
                  (Ends-transport_at protocol (drop (first % 16 * 4) s)))
                λ transport e7. (_, refl)

Ends-ip_at : (type : ℕ) (s : Bytes) → (type ≡ 2048 → HeaderFits s) → Ends (ip_at type (length s) s)
unfolding ip_at
Ends-ip_at type s fits = elim (Bool-cases (type == 2048 && leb sizeof_ip (length s))) [
  | inl e ↦ rw e (
      Ends-bind (dissect_ip (length s) s) _
        (Ends-dissect_ip s (ground (arith, e)) (fits (ground (arith, e)))) λ i k. (_, refl))
  | inr e ↦ rw e (none, refl)
]

Ends-more_mac : (s : Bytes) (n k : ℕ) → n + k ≤ length s → Ends (more_mac s n k)
unfolding more_mac
Ends-more_mac s n zero h = ([], refl)
Ends-more_mac s n (suc k) h = Ends-bind (byte_at s n) _ (Ends-byte_at s n (omega arith)) λ c e1.
    Ends-bind (more_mac s (n + 1) k) _ (Ends-more_mac s (n + 1) k (omega arith))
      λ rest e2. (_, refl)

Ends-mac_at : (s : Bytes) (n : ℕ) → n + 6 ≤ length s → Ends (mac_at s n)
unfolding mac_at
Ends-mac_at s n h = Ends-bind (more_mac s n 6) _ (Ends-more_mac s n 6 h) λ mac e. (_, refl)

Ends-dissect_ethernet :
    (s : Bytes)
    → sizeof_ether ≤ length s
    → (ntohs_at s 12 ≡ some 2048 → HeaderFits (drop sizeof_ether s))
    → Ends (dissect_ethernet (length s) s)
unfolding dissect_ethernet
Ends-dissect_ethernet s h fits = Ends-bind (mac_at s 6) _ (Ends-mac_at s 6 (omega arith)) λ src e1.
    Ends-bind (mac_at s 0) _ (Ends-mac_at s 0 (omega arith)) λ dst e2.
      Ends-bind (ntohs_at s 12) _ (Ends-ntohs_at s 12 (omega arith)) λ type e3.
        Ends-bind (ip_at type (size_sub (length s) sizeof_ether) (drop sizeof_ether s)) _
          (rw (remaining_is_left sizeof_ether s h)
            (Ends-ip_at type (drop sizeof_ether s) λ ip. fits (e3 ∙ ap some ip)))
          λ ip e4. (_, refl)

Ends-ethernet_at :
    (is_ethernet : Bool) (s : Bytes)
    → sizeof_ether ≤ length s
    → (ntohs_at s 12 ≡ some 2048 → HeaderFits (drop sizeof_ether s))
    → Ends (ethernet_at is_ethernet (length s) s)
unfolding ethernet_at
Ends-ethernet_at false s h fits = (none, refl)
Ends-ethernet_at true s h fits =
    Ends-bind (dissect_ethernet (length s) s) _ (Ends-dissect_ethernet s h fits) λ e k. (_, refl)

module _ {J R X : Type 0} (rt : Runtime J R X) (interface : Bytes) (header : Header)
    (packet : Bytes) (captured : header.caplen ≡ length packet) where
  -- Every read of the handler is within a packet that holds an Ethernet header and, if that is an
  -- IPv4 packet, as many bytes behind it as its IP header claims to have.
  pub packet_handler-Ends :
      (is_ethernet : Bool)
      → sizeof_ether ≤ length packet
      → (ntohs_at packet 12 ≡ some 2048 → HeaderFits (drop sizeof_ether packet))
      → Ends (packet_handler rt interface is_ethernet header packet)
  unfolding packet_handler
  packet_handler-Ends is_ethernet h fits = rw captured (
      Ends-bind (ethernet_at is_ethernet (length packet) packet) _
        (Ends-ethernet_at is_ethernet packet h fits) λ e k. (_, refl))
