-- ===== src/NqlParser/Query/Lexemes.antt =====
-- src/parsers/nql_parser.c: the words of a written query, as the parser reads them: durations,
-- keywords, and what stands behind a stage.
use nblex.Base.{ℕ, ◌≡◌, refl, arith, false, none, List, [], ◌∷◌, ◌++◌, ◌==◌, All}
use nblex.Filter.Parse.{skip_space, at_char}
use nblex.NqlParser.{
  Reply, ok, consume_char, match_keyword, parse_unit, parse_duration, scaled, duration_of,
}
use nblex.NqlParser.Print.{
  TimeUnit, milliseconds, seconds, minutes, hours, unit_text, unit_ms, Duration, print_duration,
  duration_ms,
}
use nblex.NqlParser.Segment.{scan, stops}
use nblex.NqlParser.Segment.Free.{Ahead, Ahead-stop, IsStop, behind}
use nblex.Text.{Bytes, codes, isspace, isdigit, tolower, starts_with_nocase}
use nblex.Text.Number.{strtoull-digits}
use nblex.Text.Scan.{span_take, span_drop}

parse_unit-text :
    (u : TimeUnit) (tail : Bytes)
    → at_char b's' tail ≡ false
    → parse_unit (unit_text u ++ tail) ≡ ok (unit_ms u, tail)
unfolding parse_unit at_char
parse_unit-text milliseconds tail h = refl
parse_unit-text seconds tail h = refl
parse_unit-text minutes tail h = rw h refl
parse_unit-text hours tail h = refl

unit_ends_digits :
    (u : TimeUnit) (tail : Bytes)
    → (span_take isdigit (unit_text u ++ tail) ≡ [])
      × (span_drop isdigit (unit_text u ++ tail) ≡ unit_text u ++ tail)
unfolding span_take span_drop
unit_ends_digits milliseconds tail = (refl, refl)
unit_ends_digits seconds tail = (refl, refl)
unit_ends_digits minutes tail = (refl, refl)
unit_ends_digits hours tail = (refl, refl)

skip_unit : (u : TimeUnit) (tail : Bytes) → skip_space (unit_text u ++ tail) ≡ unit_text u ++ tail
unfolding span_drop
skip_unit milliseconds tail = refl
skip_unit seconds tail = refl
skip_unit minutes tail = refl
skip_unit hours tail = refl

-- A duration is read as it is written, unless its `m` stands in front of an `s`.
pub parse_duration-print_duration :
    (d : Duration) (pos tail : Bytes)
    → skip_space pos ≡ print_duration d tail
    → at_char b's' tail ≡ false
    → parse_duration pos ≡ ok (duration_ms d, tail)
unfolding parse_duration duration_of scaled duration_ms
parse_duration-print_duration d pos tail p h =
    let (none_left, stays) = unit_ends_digits d.unit tail in
    rw
      (
        p,
        strtoull-digits d.first d.more (unit_text d.unit ++ tail) d.are_digits none_left stays,
        skip_unit d.unit tail,
        parse_unit-text d.unit tail h,
      )
      refl

-- What stands behind a stage: the end of the query, or a bar.
pub data IsRest : Bytes → Type 0 where
  at_last : IsRest []
  bar : (s : Bytes) → IsRest (codes " | " ++ s)

-- a value that was read, with `tail` behind it but for white space
pub record Reads {A : Type 0} (reply : Reply A) (a : A) (tail : Bytes) : Type 0 where
  pub rest : Bytes
  pub reads : reply ≡ ok (a, rest)
  pub behind_it : skip_space rest ≡ skip_space tail

pub pipe_stops :
    (input : Bytes) (ks : List Bytes) (tail : Bytes)
    → All IsStop ks
    → IsRest tail
    → Ahead input ks tail
unfolding scan stops
pipe_stops input ks [] h at_last = tt
pipe_stops input ks (c ∷ tail) h (bar s) = Ahead-stop input ks (codes "| " ++ s) h refl

pub skip_duration :
    (d : Duration) (tail : Bytes)
    → skip_space (b' ' ∷ print_duration d tail) ≡ print_duration d tail
unfolding span_drop
skip_duration d tail =
    let solid : isspace d.first ≡ false = ground (arith, d.are_digits.0) in rw solid refl

pub no_s_ahead : (tail : Bytes) → IsRest tail → at_char b's' tail ≡ false
unfolding at_char
no_s_ahead [] at_last = refl
no_s_ahead tail (bar s) = refl

pub match_keyword-other :
    (k : ℕ) (word pos : Bytes) (c : ℕ) (s : Bytes)
    → skip_space pos ≡ c ∷ s
    → (tolower k == tolower c) ≡ false
    → match_keyword (k ∷ word) pos ≡ none
unfolding match_keyword starts_with_nocase
match_keyword-other k word pos c s p h = rw (p, h) refl

pub consume_char-other :
    (k : ℕ) (pos : Bytes) (c : ℕ) (s : Bytes)
    → skip_space pos ≡ c ∷ s
    → (c == k) ≡ false
    → consume_char k pos ≡ none
unfolding consume_char at_char
consume_char-other k pos c s p h = rw (p, h) refl

pub skip_behind : (tail : Bytes) → IsRest tail → skip_space (behind tail) ≡ skip_space tail
unfolding span_drop
skip_behind [] at_last = refl
skip_behind tail (bar s) = refl
