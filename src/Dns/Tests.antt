-- ===== src/Dns/Tests.antt =====
-- A response of src/parsers/dns_parser.c, and the theorems at it.
use nblex.Base.{ℕ, ◌<◌, ◌≤◌, ◌≡◌, refl, arith, none, some, [], ◌∷◌, length}
use nblex.Dns.{
  done, out_of_fuel, byte_at, slice, at, name_loop, next_round, goes, extract_dns_name, max_len,
}
use nblex.Dns.Bounds.{FitsBuffer, here, next, name_fits}
use nblex.Dns.Faults.{self_pointer_hangs}
use nblex.Dns.Message.{
  no_rdata, nblex_parse_dns_payload, ntohs_at, ntohl_at, parse_dns_questions, parse_dns_rrs,
  section_loop, rr_at, rdata_at,
}
use nblex.Dns.Names.{Encodes, root, label, pointer, extract_dns_name-Encodes, unless_empty, joined}
use nblex.Text.{Bytes, codes, c_string}

-- one question for ab.c, and one A record whose name is a pointer to the question's
abbrev response : Bytes
response =
    0 ∷ 7 ∷ 129 ∷ 128 ∷ 0 ∷ 1 ∷ 0 ∷ 1 ∷ 0 ∷ 0 ∷ 0 ∷ 0 ∷ 2 ∷ 97 ∷ 98 ∷ 1 ∷ 99 ∷ 0 ∷ 0 ∷ 1 ∷ 0 ∷ 1
    ∷ 192 ∷ 12 ∷ 0 ∷ 1 ∷ 0 ∷ 1 ∷ 0 ∷ 0 ∷ 0 ∷ 60 ∷ 0 ∷ 4 ∷ 10 ∷ 0 ∷ 0 ∷ 1 ∷ []

read_response :
    nblex_parse_dns_payload 9 response
    ≡ done (
        some (record {
          id = 7;
          flags = 33152;
          qdcount = 1;
          ancount = 1;
          nscount = 0;
          arcount = 0;
          questions = some (record { name = codes "ab.c"; qtype = 1; qclass = 1 } ∷ []);
          answers = some (
              record {
                name = codes "ab.c";
                type = 1;
                class = 1;
                ttl = 60;
                rdlength = 4;
                rdata = no_rdata;
              }
              ∷ []);
          authorities = none;
          additionals = none;
        }))
unfolding nblex_parse_dns_payload ntohs_at ntohl_at parse_dns_questions parse_dns_rrs section_loop
    rr_at rdata_at extract_dns_name name_loop next_round byte_at slice c_string
read_response = refl

answer_name : Encodes response 22 (codes "ab" ∷ codes "c" ∷ []) 24
unfolding byte_at slice
answer_name = pointer 22 0 12 _ _ refl (omega arith) refl (
    label 12 (codes "ab") _ _ refl (omega arith) (omega arith) refl
      (label 15 (codes "c") _ _ refl (omega arith) (omega arith) refl (root 17 refl)))

extract_dns_name-Encodes_example :
    (m : ℕ) × ((f : ℕ)
      → m ≤ f
      → extract_dns_name f response 22
        ≡ done (unless_empty (joined [] (codes "ab" ∷ codes "c" ∷ [])), 24))
extract_dns_name-Encodes_example =
    extract_dns_name-Encodes response 22 (codes "ab" ∷ codes "c" ∷ []) 24 answer_name (omega arith)
      ((omega arith, (omega arith, tt)), ((omega arith, tt), tt))

name_read :
    name_loop 3 response (at 12)
    ≡ done (record { offset = 18; name = codes "ab.c"; jump_offset = none })
unfolding name_loop next_round byte_at slice
name_read = refl

-- the first label, and the second one behind it
label_read :
    next_round response (at 12)
    ≡ goes (record { offset = 15; name = codes "ab"; jump_offset = none })
unfolding next_round byte_at slice
label_read = refl

name_fits_example :
    (length (codes "ab") < max_len)
    × FitsBuffer
        (next_round response (record { offset = 15; name = codes "ab"; jump_offset = none }))
name_fits_example =
    name_fits response 12 (record { offset = 15; name = codes "ab"; jump_offset = none })
      (next (at 12) (at 12) (record { offset = 15; name = codes "ab"; jump_offset = none })
        (here (at 12)) label_read)

first_byte : byte_at (192 ∷ 0 ∷ []) 0 ≡ some 192
unfolding byte_at
first_byte = refl

second_byte : byte_at (192 ∷ 0 ∷ []) 1 ≡ some 0
unfolding byte_at
second_byte = refl

self_pointer_hangs_example : extract_dns_name 1000 (192 ∷ 0 ∷ []) 0 ≡ out_of_fuel
self_pointer_hangs_example =
    self_pointer_hangs (192 ∷ 0 ∷ []) 0 0 0 first_byte (omega arith) second_byte refl 1000
