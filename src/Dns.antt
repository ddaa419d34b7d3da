-- ===== src/Dns.antt =====
-- src/parsers/dns_parser.c: the names of a DNS packet. A packet is the list of its bytes; the
-- messages are in Message.
pub mod Message
pub mod Names
pub mod Faults
pub mod Bounds
mod Tests
use nblex.Base.{
  ℕ, zero, suc, ◌+◌, ◌*◌, ◌%◌, Bool, true, false, Option, none, some, List, [], ◌∷◌, ◌++◌, ◌==◌,
  leb, length, take, drop, if◌then◌else◌,
}
use nblex.Text.{Bytes, c_string}

-- What a function of the parser comes to: a value, a read behind the end of the packet, or
-- rounds of the loop that are not all run.
pub data Outcome {ℓ} (A : Type ℓ) : Type ℓ where
  done : A → Outcome A
  out_of_bounds out_of_fuel : Outcome A

infixl 5 ◌>>=◌
abbrev pub ◌>>=◌ {ℓ κ} : {A : Type ℓ} {B : Type κ} → Outcome A → (A → Outcome B) → Outcome B
done a >>= f = f a
out_of_bounds >>= f = out_of_bounds
out_of_fuel >>= f = out_of_fuel

-- the byte `packet[i]`
unfoldable pub byte_at : Bytes → ℕ → Option ℕ
byte_at [] i = none
byte_at (c ∷ s) zero = some c
byte_at (c ∷ s) (suc i) = byte_at s i

-- the bytes that memcpy reads
unfoldable pub slice : Bytes → ℕ → ℕ → Option Bytes
slice packet offset n =
    if leb (offset + n) (length packet) then some (take n (drop offset packet)) else none

-- the variables of the loop: what `name` holds up to `ptr`, and `jump_offset` once it is set
pub record Cursor : Type 0 where
  pub offset : ℕ
  pub name : Bytes
  pub jump_offset : Option ℕ

-- a round of the loop ends it, or goes on
pub data Round : Type 0 where
  ends goes : Cursor → Round
  reads_past : Round

abbrev first_jump : Option ℕ → ℕ → Option ℕ
first_jump none offset = some offset
first_jump (some j) offset = some j

-- `(len & 0xC0) == 0xC0` is `len` from 192 on
jump_to : Cursor → ℕ → Option ℕ → Round
jump_to st len none = reads_past
jump_to st len (some low) = goes (record {
  offset = len % 64 * 256 + low;
  name = st.name;
  jump_offset = first_jump st.jump_offset (st.offset + 2);
})

unfoldable pub dotted : Bytes → Bytes → Bytes
dotted [] label = label
dotted (c ∷ name) label = c ∷ name ++ b'.' ∷ label

copy_label : Cursor → ℕ → Option Bytes → Round
unfolding dotted
copy_label st len none = reads_past
copy_label st len (some label) =
    goes (record st { offset = st.offset + 1 + len; name = dotted st.name label })

-- sizeof(name) - 1
abbrev pub max_len : ℕ
max_len = 255

length_byte : Bytes → Cursor → Option ℕ → Round
unfolding byte_at slice jump_to copy_label
length_byte packet st none = ends st
length_byte packet st (some len) =
    if len == 0
    then ends (record st { offset = st.offset + 1 })
    else if leb 192 len
    then jump_to st len (byte_at packet (st.offset + 1))
    else if leb max_len (length st.name + len + 1)
    then ends (record st { offset = st.offset + 1 })
    else copy_label st len (slice packet (st.offset + 1) len)

unfoldable pub next_round : Bytes → Cursor → Round
unfolding byte_at length_byte
next_round packet st = length_byte packet st (byte_at packet st.offset)

abbrev follow : Round → (Cursor → Outcome Cursor) → Outcome Cursor
follow (ends st) go_on = done st
follow (goes st) go_on = go_on st
follow reads_past go_on = out_of_bounds

-- the loop, on fuel
unfoldable pub name_loop : ℕ → Bytes → Cursor → Outcome Cursor
unfolding next_round
name_loop zero packet st = out_of_fuel
name_loop (suc f) packet st = follow (next_round packet st) λ st. name_loop f packet st

abbrev name_of : Bytes → Option Bytes
unfolding c_string
name_of [] = none
name_of (c ∷ s) = some (c_string (c ∷ s))

offset_of : Cursor → Option ℕ → ℕ
offset_of st none = st.offset
offset_of st (some j) = j

abbrev pub at : ℕ → Cursor
at offset = record { offset = offset; name = []; jump_offset = none }

-- The name at `offset`, NULL where it is empty, and the offset behind it; the loop runs at most
-- `f` rounds.
unfoldable pub extract_dns_name : ℕ → Bytes → ℕ → Outcome (Option Bytes × ℕ)
unfolding name_loop name_of offset_of
extract_dns_name f packet offset =
    name_loop f packet (at offset) >>= λ st. done (name_of st.name, offset_of st st.jump_offset)
