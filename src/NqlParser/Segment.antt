-- ===== src/NqlParser/Segment.antt =====
-- src/parsers/nql_parser.c: parse_filter_expr, which finds the end of a filter expression and
-- gives its text to the filter engine.
pub mod Total
pub mod Free
use nblex.Base.{
  ℕ, ◌+◌, ◌-◌, Bool, true, false, not, ◌&&◌, ◌||◌, Option, none, some, List, [], ◌∷◌, ◌==◌,
  if◌then◌else◌,
}
use nblex.Filter.{FilterNode}
use nblex.Filter.Parse.{skip_space, nblex_filter_new}
use nblex.NqlParser.{Reply, ok, failed, keyword_at_position}
use nblex.Runtime.{Runtime}
use nblex.Text.{Bytes, codes, isspace}

-- Outside quotes, within the quotes `q`, and behind a backslash within them: the source steps
-- over the backslash and the next character at once.
pub data Mode : Type 0 where
  plain : Mode
  quoted escaped : ℕ → Mode

abbrev is_quote : ℕ → Bool
is_quote c = c == b'\'' || c == b'"'

unfoldable pub next_mode : Mode → ℕ → Mode
next_mode plain c = if is_quote c then quoted c else plain
next_mode (quoted q) c = if c == b'\\' then escaped q else if c == q then plain else quoted q
next_mode (escaped q) c = quoted q

-- paren_depth, which does not go below zero
unfoldable pub next_depth : Mode → ℕ → ℕ → ℕ
next_depth plain depth c = if c == b'(' then depth + 1 else if c == b')' then depth - 1 else depth
next_depth _ depth c = depth

unfoldable pub any_keyword : Bytes → List Bytes → Bytes → Bool
unfolding keyword_at_position
any_keyword input [] position = false
any_keyword input (k ∷ ks) position =
    keyword_at_position input position k || any_keyword input ks position

-- Whether the loop stops before the first character of `position`; every caller stops on a pipe.
unfoldable pub stops : Bytes → List Bytes → Mode → ℕ → Bytes → Bool
unfolding any_keyword
stops input keywords plain depth [] = true
stops input keywords plain depth (c ∷ s) =
    not (is_quote c || (c == b'(' || c == b')'))
    && (depth == 0 && (c == b'|' || any_keyword input keywords (c ∷ s)))
stops input keywords _ depth s = false

-- what the loop passes over, and the position where it stops
unfoldable pub scan : Bytes → List Bytes → Mode → ℕ → Bytes → Bytes × Bytes
unfolding next_mode next_depth stops
scan input keywords m depth [] = ([], [])
scan input keywords m depth (c ∷ s) =
    let (taken, rest) = scan input keywords (next_mode m c) (next_depth m depth c) s in
    if stops input keywords m depth (c ∷ s) then ([], c ∷ s) else (c ∷ taken, rest)

cons_unless_space : ℕ → Bytes → Bytes
cons_unless_space c [] = if isspace c then [] else c ∷ []
cons_unless_space c (d ∷ s) = c ∷ d ∷ s

-- the text without the white space at its end
unfoldable pub trim_end : Bytes → Bytes
unfolding cons_unless_space
trim_end [] = []
trim_end (c ∷ s) = cons_unless_space c (trim_end s)

module _ {J R X : Type 0} (rt : Runtime J R X) where
  filter_or_error : Bytes → Option (Option (FilterNode R X)) → Reply (Option (FilterNode R X))
  filter_or_error rest none = failed (codes "invalid filter expression")
  filter_or_error rest (some root) = ok (root, rest)

  filter_of : Bytes → Bytes → Reply (Option (FilterNode R X))
  unfolding filter_or_error nblex_filter_new
  filter_of [] rest = failed (codes "expected filter expression")
  filter_of (c ∷ text) rest = filter_or_error rest (nblex_filter_new rt (some (c ∷ text)))

  -- parse_filter_expr: the root of the filter
  unfoldable pub parse_segment : Bytes → List Bytes → Bytes → Reply (Option (FilterNode R X))
  unfolding scan trim_end filter_of
  parse_segment input keywords pos =
      let (taken, rest) = scan input keywords plain 0 (skip_space pos) in
      filter_of (trim_end taken) rest
