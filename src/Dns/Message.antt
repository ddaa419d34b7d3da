-- ===== src/Dns/Message.antt =====
-- src/parsers/dns_parser.c: questions, resource records and the whole message. The fields of a
-- record are what the members of a JSON object are made of; an address is the octets that
-- inet_ntop is given.
use nblex.Base.{
  ℕ, zero, suc, ◌+◌, ◌-◌, ◌*◌, ◌/◌, ◌%◌, Bool, Option, none, some, List, [], ◌∷◌, ◌==◌, leb, ltb,
  length, if◌then◌else◌,
}
use nblex.Dns.{Outcome, done, out_of_bounds, ◌>>=◌, byte_at, slice, extract_dns_name}
use nblex.Text.{Bytes}

-- a read that stays within the packet
abbrev within_packet : {A : Type 0} → Option A → Outcome A
within_packet none = out_of_bounds
within_packet (some a) = done a

-- ntohs of two bytes of the packet, and ntohl of four
unfoldable pub ntohs_at : Bytes → ℕ → Outcome ℕ
unfolding byte_at
ntohs_at packet i = within_packet (byte_at packet i) >>= λ high.
    within_packet (byte_at packet (i + 1)) >>= λ low. done (high * 256 + low)

unfoldable pub ntohl_at : Bytes → ℕ → Outcome ℕ
unfolding ntohs_at
ntohl_at packet i =
    ntohs_at packet i >>= λ high. ntohs_at packet (i + 2) >>= λ low. done (high * 65536 + low)

pub record Question : Type 0 where
  pub name : Bytes
  pub qtype : ℕ
  pub qclass : ℕ

-- what the RDATA adds to the object
pub data Rdata : Type 0 where
  no_rdata : Rdata
  address cname target : Bytes → Rdata

pub record ResourceRecord : Type 0 where
  pub name : Bytes
  pub type : ℕ
  pub class : ℕ
  pub ttl : ℕ
  pub rdlength : ℕ
  pub rdata : Rdata

abbrev sizeof_question : ℕ
sizeof_question = 4

-- sizeof(dns_rr_t): the members take ten bytes, and two more align the structure
abbrev pub sizeof_rr : ℕ
sizeof_rr = 12

-- a section, or NULL, and the offset behind what was read
abbrev pub Section : Type 0 → Type 0
Section A = Outcome (Option (List A) × ℕ)

abbrev onto : {A : Type 0} → A → Option (List A) × ℕ → Section A
onto a (none, offset) = done (none, offset)
onto a (some as', offset) = done (some (a ∷ as'), offset)

question_at : Bytes → ℕ → Bytes → Outcome (Question × ℕ)
unfolding ntohs_at
question_at packet offset name = ntohs_at packet offset >>= λ qtype.
    ntohs_at packet (offset + 2) >>= λ qclass.
    done (record { name = name; qtype = qtype; qclass = qclass }, offset + sizeof_question)

-- one element of a section behind its name, and then the others
abbrev element :
    {A : Type 0} → (ℕ → Bytes → Outcome (A × ℕ)) → (ℕ → Section A) → Option Bytes × ℕ → Section A
element read rest (none, offset) = done (none, offset)
element read rest (some name, offset) =
    read offset name >>= λ (a, offset). rest offset >>= λ r. onto a r

-- the loop over the elements of a section, where `size` is that of the structure behind a name
unfoldable pub section_loop :
    {A : Type 0} → ℕ → Bytes → ℕ → (ℕ → Bytes → Outcome (A × ℕ)) → ℕ → ℕ → Section A
unfolding extract_dns_name
section_loop f packet size read zero offset = done (some [], offset)
section_loop f packet size read (suc n) offset =
    let found = extract_dns_name f packet offset >>= λ r.
    element read (λ o. section_loop f packet size read n o) r in
    if ltb offset (length packet - size) then found else done (some [], offset)

unfoldable pub parse_dns_questions : ℕ → Bytes → ℕ → ℕ → Section Question
unfolding section_loop question_at
parse_dns_questions f packet offset qdcount =
    section_loop f packet sizeof_question (λ o name. question_at packet o name) qdcount offset

abbrev named : (Bytes → Rdata) → Option Bytes → Rdata
named make none = no_rdata
named make (some name) = make name

name_rdata : ℕ → Bytes → ℕ → (Bytes → Rdata) → Outcome Rdata
unfolding extract_dns_name
name_rdata f packet offset make =
    extract_dns_name f packet offset >>= λ (name, behind). done (named make name)

address_rdata : Bytes → ℕ → ℕ → Outcome Rdata
unfolding slice
address_rdata packet offset size =
    within_packet (slice packet offset size) >>= λ octets. done (address octets)

-- the switch over the type: A, AAAA, CNAME, NS and PTR
rdata_of_type : ℕ → Bytes → ℕ → ℕ → ℕ → Outcome Rdata
unfolding name_rdata address_rdata
rdata_of_type f packet offset type rdlength =
    if type == 1
    then if rdlength == 4 then address_rdata packet offset 4 else done no_rdata
    else if type == 28
    then if rdlength == 16 then address_rdata packet offset 16 else done no_rdata
    else if type == 5
    then name_rdata f packet offset cname
    else if type == 2
    then name_rdata f packet offset target
    else if type == 12
    then name_rdata f packet offset target
    else done no_rdata

unfoldable pub rdata_at : ℕ → Bytes → ℕ → ℕ → ℕ → Outcome Rdata
unfolding rdata_of_type
rdata_at f packet offset type rdlength =
    if leb (offset + rdlength) (length packet)
    then rdata_of_type f packet offset type rdlength
    else done no_rdata

unfoldable pub rr_at : ℕ → Bytes → ℕ → Bytes → Outcome (ResourceRecord × ℕ)
unfolding ntohs_at ntohl_at rdata_at
rr_at f packet offset name = ntohs_at packet offset >>= λ type.
    ntohs_at packet (offset + 2) >>= λ class. ntohl_at packet (offset + 4) >>= λ ttl.
    ntohs_at packet (offset + 8) >>= λ rdlength.
    rdata_at f packet (offset + sizeof_rr) type rdlength >>= λ rdata. done (
      record {
        name = name;
        type = type;
        class = class;
        ttl = ttl;
        rdlength = rdlength;
        rdata = rdata;
      },
      offset + sizeof_rr + rdlength,
    )

unfoldable pub parse_dns_rrs : ℕ → Bytes → ℕ → ℕ → Section ResourceRecord
unfolding section_loop rr_at
parse_dns_rrs f packet offset count =
    section_loop f packet sizeof_rr (λ o name. rr_at f packet o name) count offset

pub record Message : Type 0 where
  pub id : ℕ
  pub flags : ℕ
  pub qdcount : ℕ
  pub ancount : ℕ
  pub nscount : ℕ
  pub arcount : ℕ
  pub questions : Option (List Question)
  pub answers : Option (List ResourceRecord)
  pub authorities : Option (List ResourceRecord)
  pub additionals : Option (List ResourceRecord)

-- the members that are read from the flags
abbrev flag : ℕ → Message → Bool
flag bit m = m.flags / bit % 2 == 1

abbrev pub qr : Message → Bool
qr m = flag 32768 m

abbrev pub aa : Message → Bool
aa m = flag 1024 m

abbrev pub tc : Message → Bool
tc m = flag 512 m

abbrev pub rd : Message → Bool
rd m = flag 256 m

abbrev pub ra : Message → Bool
ra m = flag 128 m

abbrev pub opcode : Message → ℕ
opcode m = m.flags / 2048 % 16

abbrev pub rcode : Message → ℕ
rcode m = m.flags % 16

-- a section is read where its count is not zero
abbrev section : {A : Type 0} → ℕ → Section A → ℕ → Section A
section count read offset = if count == 0 then done (none, offset) else read

message_of : ℕ → Bytes → Outcome (Option Message)
unfolding ntohs_at parse_dns_questions parse_dns_rrs
message_of f data' = ntohs_at data' 0 >>= λ id. ntohs_at data' 2 >>= λ flags.
    ntohs_at data' 4 >>= λ qdcount. ntohs_at data' 6 >>= λ ancount. ntohs_at data' 8 >>= λ nscount.
    ntohs_at data' 10 >>= λ arcount.
    section qdcount (parse_dns_questions f data' 12 qdcount) 12 >>= λ (questions, offset).
    section ancount (parse_dns_rrs f data' offset ancount) offset >>= λ (answers, offset).
    section nscount (parse_dns_rrs f data' offset nscount) offset >>= λ (authorities, offset).
    section arcount (parse_dns_rrs f data' offset arcount) offset >>= λ (additionals, offset).
    done (
      some (record {
        id = id;
        flags = flags;
        qdcount = qdcount;
        ancount = ancount;
        nscount = nscount;
        arcount = arcount;
        questions = questions;
        answers = answers;
        authorities = authorities;
        additionals = additionals;
      }))

-- nblex_parse_dns_payload, NULL for a packet that is shorter than its header
unfoldable pub nblex_parse_dns_payload : ℕ → Bytes → Outcome (Option Message)
unfolding message_of
nblex_parse_dns_payload f data' = if ltb (length data') 12 then done none else message_of f data'
