-- ===== src/Dns/Names.antt =====
-- src/parsers/dns_parser.c: extract_dns_name against the format of names in RFC 1035, 4.1.4.
use nblex.Base.{
  ℕ, zero, suc, ◌+◌, ◌*◌, ◌%◌, ◌≤◌, ◌<◌, ◌≡◌, refl, ap, arith, true, false, Option, none, some,
  List, [], ◌∷◌, ◌++◌, ◌==◌, leb, length, length-append, All,
}
use mathlib.Core.Path.{subst}
use nblex.Dns.{
  done, byte_at, slice, Cursor, goes, ends, jump_to, copy_label, length_byte, next_round,
  first_jump, dotted, name_loop, name_of, offset_of, extract_dns_name,
}
use nblex.Text.{Bytes, IsText, c_string-IsText}

-- The name at an offset has these labels, and what is behind it in the packet begins at the last
-- number. A pointer ends the name where it stands and goes on with the name that it points to.
pub data Encodes (packet : Bytes) : ℕ → List Bytes → ℕ → Type 0 where
  root : (i : ℕ) → byte_at packet i ≡ some 0 → Encodes packet i [] (i + 1)
  label :
      (i : ℕ) (l : Bytes) (ls : List Bytes) (end' : ℕ)
      → byte_at packet i ≡ some (length l)
      → 0 < length l
      → length l < 64
      → slice packet (i + 1) (length l) ≡ some l
      → Encodes packet (i + 1 + length l) ls end'
      → Encodes packet i (l ∷ ls) end'
  pointer :
      (i high low : ℕ) (ls : List Bytes) (end' : ℕ)
      → byte_at packet i ≡ some (192 + high)
      → high < 64
      → byte_at packet (i + 1) ≡ some low
      → Encodes packet (high * 256 + low) ls end'
      → Encodes packet i ls (i + 2)

-- the labels behind what is there, with dots between them
abbrev pub joined : Bytes → List Bytes → Bytes
unfolding dotted
joined name [] = name
joined name (l ∷ ls) = joined (dotted name l) ls

-- the bytes that the labels take on the wire, with their lengths
abbrev pub wire_length : List Bytes → ℕ
wire_length [] = 0
wire_length (l ∷ ls) = length l + 1 + wire_length ls

abbrev end_of : Option ℕ → ℕ → ℕ
end_of none end' = end'
end_of (some j) end' = j

pub length-dotted-le : (name l : Bytes) → length (dotted name l) ≤ length name + length l + 1
unfolding dotted
length-dotted-le [] l = omega arith
length-dotted-le (c ∷ name) l = let e = length-append name (b'.' ∷ l) in omega (arith, e)

-- what the loop comes to in `m` rounds and in more
record Ends (packet : Bytes) (st : Cursor) (name : Bytes) (end' : ℕ) (f : ℕ) : Type 0 where
  cursor : Cursor
  runs : name_loop f packet st ≡ done cursor
  same_name : cursor.name ≡ name
  same_end : offset_of cursor cursor.jump_offset ≡ end'

module _ (packet : Bytes) where
  root_round :
      (st : Cursor)
      → byte_at packet st.offset ≡ some 0
      → next_round packet st ≡ ends (record st { offset = st.offset + 1 })
  unfolding next_round length_byte
  root_round st h = rw h refl

  label_round :
      (st : Cursor) (l : Bytes)
      → byte_at packet st.offset ≡ some (length l)
      → 0 < length l
      → length l < 64
      → length st.name + length l + 1 < 255
      → slice packet (st.offset + 1) (length l) ≡ some l
      → next_round packet st
        ≡ goes (record st { offset = st.offset + 1 + length l; name = dotted st.name l })
  unfolding next_round length_byte copy_label
  label_round st l h p q fits s =
      let not_root : (length l == 0) ≡ false = ground arith in
      let no_pointer : leb 192 (length l) ≡ false = ground arith in
      let short : leb 255 (length st.name + length l + 1) ≡ false = ground arith in
      rw (h, not_root, no_pointer, short, s) refl

  pub pointer_round :
      (st : Cursor) (high low : ℕ)
      → byte_at packet st.offset ≡ some (192 + high)
      → high < 64
      → byte_at packet (st.offset + 1) ≡ some low
      → next_round packet st
        ≡ goes (record {
          offset = high * 256 + low;
          name = st.name;
          jump_offset = first_jump st.jump_offset (st.offset + 2);
        })
  unfolding next_round length_byte jump_to
  pointer_round st high low h q k =
      let not_root : (192 + high == 0) ≡ false = ground arith in
      let is_pointer : leb 192 (192 + high) ≡ true = ground arith in
      let masked : (192 + high) % 64 ≡ high = omega arith in
      rw (h, not_root, is_pointer, k, masked) refl

  after_ends :
      (st st' : Cursor) (f : ℕ)
      → next_round packet st ≡ ends st'
      → 1 ≤ f
      → Ends packet st st'.name (offset_of st' st'.jump_offset) f
  unfolding name_loop
  after_ends st st' zero h q = absurd (omega arith)
  after_ends st st' (suc f) h q = record {
    cursor = st';
    runs = rw h refl;
    same_name = refl;
    same_end = refl;
  }

  after_goes :
      (st st' : Cursor) (name : Bytes) (end' m f : ℕ)
      → next_round packet st ≡ goes st'
      → ((f : ℕ) → m ≤ f → Ends packet st' name end' f)
      → suc m ≤ f
      → Ends packet st name end' f
  unfolding name_loop
  after_goes st st' name end' m zero h more q = absurd (omega arith)
  after_goes st st' name end' m (suc f) h more q =
      let r = more f (omega arith) in
      record {
        cursor = r.cursor;
        runs = rw h r.runs;
        same_name = r.same_name;
        same_end = r.same_end;
      }

  offset_of_end : (st : Cursor) (j : Option ℕ) → offset_of st j ≡ end_of j st.offset
  unfolding offset_of
  offset_of_end st none = refl
  offset_of_end st (some j) = refl

  end_of_first : (j : Option ℕ) (o end' : ℕ) → end_of (first_jump j o) end' ≡ end_of j o
  end_of_first none o end' = refl
  end_of_first (some j) o end' = refl

  name_loop-Encodes :
      (i : ℕ) (ls : List Bytes) (end' : ℕ)
      → Encodes packet i ls end'
      → (name : Bytes) (j : Option ℕ) → length name + wire_length ls < 255
      → (m : ℕ) × ((f : ℕ)
          → m ≤ f
          → Ends packet
              (record { offset = i; name = name; jump_offset = j })
              (joined name ls)
              (end_of j end')
              f)
  unfolding joined
  name_loop-Encodes _ _ _ (root i h) name j fits =
      let st : Cursor = record { offset = i; name = name; jump_offset = j } in
      let st' : Cursor = record { offset = i + 1; name = name; jump_offset = j } in
      (
        1,
        λ f q.
            subst (λ e. Ends packet st name e f) (offset_of_end st' j)
              (after_ends st st' f (root_round st h) q),
      )
  name_loop-Encodes _ _ end' (label i l ls _ h p q s rest) name j fits =
      let shorter : length (dotted name l) + wire_length ls < 255 =
        omega (arith, length-dotted-le name l, fits) in
      let (m, more) = name_loop-Encodes (i + 1 + length l) ls end' rest (dotted name l) j shorter in
      let st : Cursor = record { offset = i; name = name; jump_offset = j } in
      (
        suc m,
        λ f k. after_goes st _ _ _ m f (label_round st l h p q (omega (arith, fits)) s) more k,
      )
  name_loop-Encodes _ _ _ (pointer i high low ls end' h q k rest) name j fits =
      let (m, more) =
        name_loop-Encodes (high * 256 + low) ls end' rest name (first_jump j (i + 2)) fits in
      let st : Cursor = record { offset = i; name = name; jump_offset = j } in
      (
        suc m,
        λ f o.
            subst (λ e. Ends packet st (joined name ls) e f) (end_of_first j (i + 2) end')
              (after_goes st _ _ _ m f (pointer_round st high low h q k) more o),
      )

append-IsText : (s t : Bytes) → IsText s → IsText t → IsText (s ++ t)
append-IsText [] t h k = k
append-IsText (c ∷ s) t h k = (h.0, append-IsText s t h.1 k)

dotted-IsText : (name l : Bytes) → IsText name → IsText l → IsText (dotted name l)
unfolding dotted
dotted-IsText [] l h k = k
dotted-IsText (c ∷ name) l h k = (h.0, append-IsText name (b'.' ∷ l) h.1 (omega arith, k))

joined-IsText :
    (name : Bytes) (ls : List Bytes) → IsText name → All IsText ls → IsText (joined name ls)
unfolding joined
joined-IsText name [] h k = h
joined-IsText name (l ∷ ls) h k = joined-IsText (dotted name l) ls (dotted-IsText name l h k.0) k.1

abbrev pub unless_empty : Bytes → Option Bytes
unless_empty [] = none
unless_empty (c ∷ s) = some (c ∷ s)

name_of-IsText : (s : Bytes) → IsText s → name_of s ≡ unless_empty s
unfolding name_of
name_of-IsText [] h = refl
name_of-IsText (c ∷ s) h = ap some (c_string-IsText (c ∷ s) h)

-- A name of at most 254 bytes on the wire is extracted: its labels with dots between them, and
-- the offset behind it, whatever pointers it takes.
pub extract_dns_name-Encodes :
    (packet : Bytes) (i : ℕ) (ls : List Bytes) (end' : ℕ)
    → Encodes packet i ls end'
    → wire_length ls < 255
    → All IsText ls
    → (m : ℕ) × ((f : ℕ)
        → m ≤ f
        → extract_dns_name f packet i ≡ done (unless_empty (joined [] ls), end'))
unfolding extract_dns_name
extract_dns_name-Encodes packet i ls end' h fits texts =
    let (m, more) = name_loop-Encodes packet i ls end' h [] none (omega (arith, fits)) in
    (
      m,
      λ f q.
          let r = more f q in
          rw
            (
              r.runs,
              r.same_name,
              r.same_end,
              name_of-IsText (joined [] ls) (joined-IsText [] ls tt texts),
            )
            refl,
    )
