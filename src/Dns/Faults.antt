-- ===== src/Dns/Faults.antt =====
-- src/parsers/dns_parser.c: pointers in a circle, and the record at the end of a packet.
use nblex.Base.{
  ℕ, zero, suc, ◌+◌, ◌*◌, ◌<◌, ◌≡◌, refl, arith, false, Option, none, some, [], leb, length,
}
use nblex.Dns.{done, out_of_fuel, byte_at, first_jump, name_loop, extract_dns_name}
use nblex.Dns.Message.{ntohs_at, ntohl_at, rdata_at, rr_at, no_rdata}
use nblex.Dns.Names.{pointer_round}
use nblex.Text.{Bytes}

module _ (packet : Bytes) (i high low : ℕ) (is_pointer : byte_at packet i ≡ some (192 + high))
    (is_high : high < 64) (is_low : byte_at packet (i + 1) ≡ some low)
    (to_itself : high * 256 + low ≡ i) where
  loop_hangs :
      (f : ℕ) (name : Bytes) (j : Option ℕ)
      → name_loop f packet (record { offset = i; name = name; jump_offset = j }) ≡ out_of_fuel
  unfolding name_loop
  loop_hangs zero name j = refl
  loop_hangs (suc f) name j =
      let round =
        pointer_round packet (record { offset = i; name = name; jump_offset = j }) high low
          is_pointer is_high is_low in
      rw (round, to_itself) (loop_hangs f name (first_jump j (i + 2)))

  -- However long it runs, the parser does not return from a name that is a pointer to itself.
  pub self_pointer_hangs : (f : ℕ) → extract_dns_name f packet i ≡ out_of_fuel
  unfolding extract_dns_name
  self_pointer_hangs f = rw (loop_hangs f [] none) refl

-- The RDATA of a record that ends the packet is not read: the parser looks for it two bytes too
-- far, as sizeof(dns_rr_t) is not the ten bytes of the format.
pub last_rdata_lost :
    (f : ℕ) (packet : Bytes) (offset : ℕ) (name : Bytes) (type class ttl rdlength : ℕ)
    → ntohs_at packet offset ≡ done type
    → ntohs_at packet (offset + 2) ≡ done class
    → ntohl_at packet (offset + 4) ≡ done ttl
    → ntohs_at packet (offset + 8) ≡ done rdlength
    → length packet ≡ offset + 10 + rdlength
    → rr_at f packet offset name
      ≡ done (
        record {
          name = name;
          type = type;
          class = class;
          ttl = ttl;
          rdlength = rdlength;
          rdata = no_rdata;
        },
        length packet + 2,
      )
unfolding rr_at rdata_at
last_rdata_lost f packet offset name type class ttl rdlength t c l r ends' =
    let past : leb (offset + 12 + rdlength) (length packet) ≡ false = ground (arith, ends') in
    let next : offset + 12 + rdlength ≡ length packet + 2 = omega (arith, ends') in
    rw (t, c, l, r, past, next) refl
