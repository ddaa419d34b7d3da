-- ===== src/Dns/Bounds.antt =====
-- src/parsers/dns_parser.c: the buffer `name[256]` of extract_dns_name.
use nblex.Base.{
  ℕ, zero, suc, ◌+◌, ◌≤◌, ◌<◌, ◌≡◌, arith, Option, none, some, [], ◌∷◌, ◌==◌, leb, length, take,
  drop, Bool-cases, inl, inr,
}
use mathlib.Core.Path.{subst}
use nblex.Dns.{
  byte_at, slice, Cursor, Round, goes, ends, reads_past, jump_to, copy_label, length_byte,
  next_round, max_len, at,
}
use nblex.Dns.Names.{length-dotted-le}
use nblex.Text.{Bytes}

length-take-le : (n : ℕ) (s : Bytes) → length (take n s) ≤ n
length-take-le zero s = omega arith
length-take-le (suc n) [] = omega arith
length-take-le (suc n) (c ∷ s) = omega (arith, length-take-le n s)

-- what is written to the buffer, with the NUL behind it, fits in it
abbrev pub FitsBuffer : Round → Type 0
FitsBuffer (ends st) = length st.name < max_len
FitsBuffer (goes st) = length st.name < max_len
FitsBuffer reads_past = Unit

module _ (packet : Bytes) where
  copied :
      (st : Cursor) (len : ℕ)
      → length st.name + len + 1 < max_len
      → FitsBuffer (copy_label st len (slice packet (st.offset + 1) len))
  unfolding copy_label slice
  copied st len h = elim (Bool-cases (leb (st.offset + 1 + len) (length packet))) [
    | inl e ↦ rw e (
        omega (
          arith,
          h,
          length-dotted-le st.name (take len (drop (st.offset + 1) packet)),
          length-take-le len (drop (st.offset + 1) packet),
        ))
    | inr e ↦ rw e tt
  ]

  jumped :
      (st : Cursor) (len : ℕ) (o : Option ℕ)
      → length st.name < max_len
      → FitsBuffer (jump_to st len o)
  unfolding jump_to
  jumped st len none h = tt
  jumped st len (some low) h = h

  length_byte-FitsBuffer :
      (st : Cursor) (o : Option ℕ) → length st.name < max_len → FitsBuffer (length_byte packet st o)
  unfolding length_byte
  length_byte-FitsBuffer st none h = h
  length_byte-FitsBuffer st (some len) h = elim (Bool-cases (len == 0)) [
    | inl e ↦ rw e h
    | inr e ↦ rw e (elim (Bool-cases (leb 192 len)) [
      | inl e' ↦ rw e' (jumped st len (byte_at packet (st.offset + 1)) h)
      | inr e' ↦ rw e' (elim (Bool-cases (leb max_len (length st.name + len + 1))) [
        | inl long ↦ rw long h
        | inr short ↦ rw short (copied st len (ground arith))
      ])
    ])
  ]

  -- the loop runs over these rounds, the last of which may be any of them
  pub data Rounds : Cursor → Cursor → Type 0 where
    here : (st : Cursor) → Rounds st st
    next :
        (st st' st'' : Cursor) → Rounds st st' → next_round packet st' ≡ goes st'' → Rounds st st''

  next_round-FitsBuffer :
      (st : Cursor) → length st.name < max_len → FitsBuffer (next_round packet st)
  unfolding next_round
  next_round-FitsBuffer st h = length_byte-FitsBuffer st (byte_at packet st.offset) h

  Rounds-fits :
      (st st' : Cursor) → length st.name < max_len → Rounds st st' → length st'.name < max_len
  Rounds-fits st _ h (here _) = h
  Rounds-fits st _ h (next _ st' st'' run e) =
      subst FitsBuffer e (next_round-FitsBuffer st' (Rounds-fits st st' h run))

  -- In every round of the loop, on any packet and at any offset, whether the loop ends or not, the
  -- name that is written so far, and the name that the round leaves when it does not read behind
  -- the packet, are shorter than 255 bytes, so each fits with its NUL in the buffer of 256.
  pub name_fits :
      (offset : ℕ) (st : Cursor)
      → Rounds (at offset) st
      → (length st.name < max_len) × FitsBuffer (next_round packet st)
  name_fits offset st run =
      let fits = Rounds-fits (at offset) st (omega arith) run in
      (fits, next_round-FitsBuffer st fits)
