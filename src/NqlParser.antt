-- ===== src/NqlParser.antt =====
-- src/parsers/nql_parser.c: the cursor of the parser, keywords, identifiers and durations. A
-- position is what is left of the query; the whole query is `input`. The filter expressions are
-- in Segment, the aggregation's clauses in Clauses, the queries in Query.
pub mod Segment
pub mod Clauses
pub mod Query
pub mod Print
pub mod Total
pub mod Tests
use nblex.Base.{
  ℕ, zero, suc, ◌-◌, ◌*◌, ◌%◌, ◌^◌, Bool, true, false, ◌&&◌, ◌||◌, Option, none, some, List, [],
  ◌∷◌, ◌==◌, ltb, length, drop, if◌then◌else◌,
}
use nblex.Filter.Parse.{skip_space, at_char}
use nblex.Text.{Bytes, codes, isspace, isalpha, isalnum, starts_with_nocase}
use nblex.Text.Number.{strtoull}
use nblex.Text.Scan.{span_take, span_drop}

-- What a parsing function returns: a value and the position behind it, or the message that
-- parser_set_error keeps. The parser stops at its first error, so a later one is never set.
pub data Reply {ℓ} (A : Type ℓ) : Type ℓ where
  ok : A × Bytes → Reply A
  failed : Bytes → Reply A
  out_of_fuel : Reply A

infixl 5 ◌>>=◌
abbrev pub ◌>>=◌ {ℓ κ} : {A : Type ℓ} {B : Type κ} → Reply A → (A × Bytes → Reply B) → Reply B
ok a >>= f = f a
failed e >>= f = failed e
out_of_fuel >>= f = out_of_fuel

-- what follows where something was read, and where it was not
abbrev pub branch {ℓ} : {A : Type ℓ} → Option Bytes → Reply A → (Bytes → Reply A) → Reply A
branch none absent present = absent
branch (some rest) absent present = present rest

-- consume_char: the position behind the character. Where it is not there, the position is left
-- behind the white space, which whatever comes next skips too.
unfoldable pub consume_char : ℕ → Bytes → Option Bytes
unfolding at_char
consume_char c pos = let s = skip_space pos in if at_char c s then some (drop 1 s) else none

-- what may stand behind a keyword
abbrev pub ends_word : Bytes → Bool
ends_word [] = true
ends_word (c ∷ s) = isspace c || (c == b'(' || (c == b')' || c == b','))

unfoldable pub match_keyword : Bytes → Bytes → Option Bytes
unfolding starts_with_nocase
match_keyword keyword pos =
    let s = skip_space pos in
    let rest = drop (length keyword) s in
    if starts_with_nocase keyword s && ends_word rest then some rest else none

-- a required character, or the message
abbrev pub expect : ℕ → Bytes → Bytes → Reply (Unit {0})
unfolding consume_char
expect c pos message = branch (consume_char c pos) (failed message) λ rest. ok (tt, rest)

-- `*(position - 1)`, and 0 at the start of the input
unfoldable pub nth : ℕ → Bytes → ℕ
nth n [] = 0
nth zero (c ∷ s) = c
nth (suc n) (c ∷ s) = nth n s

unfoldable pub char_before : Bytes → Bytes → ℕ
unfolding nth
char_before input position =
    if length position == length input then 0 else nth (length input - length position - 1) input

-- what may stand in front of a keyword within a filter expression
abbrev pub begins_word : ℕ → Bool
begins_word c = c == 0 || (isspace c || (c == b'(' || c == b','))

unfoldable pub keyword_at_position : Bytes → Bytes → Bytes → Bool
unfolding starts_with_nocase char_before
keyword_at_position input position keyword =
    starts_with_nocase keyword position
    && (begins_word (char_before input position) && ends_word (drop (length keyword) position))

abbrev pub is_name_start : ℕ → Bool
is_name_start c = isalpha c || c == b'_'

abbrev pub is_name_char : ℕ → Bool
is_name_char c = isalnum c || (c == b'_' || c == b'.')

identifier_at : Bytes → Bytes → Reply Bytes
unfolding span_take span_drop
identifier_at message [] = failed message
identifier_at message (c ∷ s) =
    if is_name_start c
    then ok (span_take is_name_char (c ∷ s), span_drop is_name_char (c ∷ s))
    else failed message

-- parse_identifier, and the message that its caller sets where there is none
unfoldable pub parse_identifier : Bytes → Bytes → Reply Bytes
unfolding identifier_at
parse_identifier message pos = identifier_at message (skip_space pos)

abbrev second_is : ℕ → Bytes → Bool
unfolding at_char
second_is c s = at_char c (drop 1 s)

-- the multiplier of a unit, and the position behind it
unfoldable pub parse_unit : Bytes → Reply ℕ
unfolding at_char second_is
parse_unit pos =
    if at_char b'm' pos && second_is b's' pos
    then ok (1, drop 2 pos)
    else if at_char b's' pos
    then ok (1000, drop 1 pos)
    else if at_char b'm' pos
    then ok (60 * 1000, drop 1 pos)
    else if at_char b'h' pos
    then ok (60 * 60 * 1000, drop 1 pos)
    else failed (codes "expected duration unit (ms, s, m, h)")

scaled : ℕ × Bytes → Reply ℕ
unfolding parse_unit
scaled (value, rest) = parse_unit (skip_space rest) >>= λ (m, rest). ok (value * m % 2 ^ 64, rest)

duration_of : Option (ℕ × Bytes) → Reply ℕ
unfolding scaled
duration_of none = failed (codes "expected duration value")
duration_of (some v) = scaled v

-- a number of milliseconds in uint64_t
unfoldable pub parse_duration : Bytes → Reply ℕ
unfolding duration_of strtoull
parse_duration pos = duration_of (strtoull (skip_space pos))
