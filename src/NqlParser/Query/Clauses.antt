-- ===== src/NqlParser/Query/Clauses.antt =====
-- src/parsers/nql_parser.c: the filters and correlations of a written query, as the parser reads
-- them.
use nblex.Base.{
  ℕ, ◌≡◌, ◌⊎◌, refl, ◌∙◌, arith, true, Option, none, some, List, [], ◌∷◌, ◌++◌, All, inl,
}
use nblex.Filter.Parse.{skip_space, at_char}
use nblex.NqlParser.{char_before, keyword_at_position, ok, consume_char, match_keyword}
use nblex.NqlParser.Print.{
  unit_text, Duration, print_duration, within_of, print_within, is_unclaimed, Expression, Clause,
  filtering, correlating, print_clause, stage_of,
}
use nblex.NqlParser.Query.{
  filter, left_keywords, right_keywords, pipe_keyword, parse_within, correlate_right,
  correlate_clause, filter_query, try_all, try_show, try_aggregate, parse_single_query,
}
use nblex.NqlParser.Segment.{parse_segment, scan, stops, any_keyword}
use nblex.NqlParser.Segment.Free.{
  At, At-step, At-char_before, Ahead, Ahead-stop, IsStop, behind, last_of, parse_segment-At,
  skip_solid,
}
use nblex.Runtime.{Runtime}
use nblex.Text.{Bytes, codes, starts_with_nocase}
use nblex.Text.Scan.{span_drop}
use nblex.NqlParser.Query.Lexemes.{
  parse_duration-print_duration, IsRest, at_last, bar, Reads, pipe_stops, skip_duration, no_s_ahead,
  match_keyword-other, consume_char-other, skip_behind,
}

module _ {J R X : Type 0} (rt : Runtime J R X) (input : Bytes) where
  parse_within-print_within :
      (d : Option Duration) (tail : Bytes)
      → IsRest tail
      → Reads (parse_within rt input (behind (print_within d tail))) (within_of d) tail
  unfolding parse_within match_keyword starts_with_nocase within_of span_drop
  parse_within-print_within none tail at_last = record { rest = []; reads = refl; behind_it = refl }
  parse_within-print_within none tail (bar s) = record {
    rest = codes "| " ++ s;
    reads = refl;
    behind_it = refl;
  }
  parse_within-print_within (some d) tail r = record {
    rest = tail;
    reads =
        rw
          (parse_duration-print_duration d (b' ' ∷ print_duration d tail) tail
            (skip_duration d tail) (no_s_ahead tail r))
          refl;
    behind_it = refl;
  }

  -- an expression of a stage, up to what is ahead of it
  segment :
      (e : Expression rt) (tail pos : Bytes) (ks : List Bytes) (prev : ℕ)
      → skip_space pos ≡ e.text ++ tail
      → (prev ≡ b' ') ⊎ (prev ≡ 0)
      → At input prev (e.text ++ tail)
      → All IsStop ks
      → Ahead input ks tail
      → parse_segment rt input ks pos ≡ ok (e.root, behind tail)
  segment e tail pos ks prev p b at h a =
      parse_segment-At rt input e.text tail ks pos e.root prev p b at e.is_expression e.parsed h a

  filter_query-text :
      (e : Expression rt) (tail pos : Bytes) (prev : ℕ)
      → skip_space pos ≡ e.text ++ tail
      → (prev ≡ b' ') ⊎ (prev ≡ 0)
      → At input prev (e.text ++ tail)
      → IsRest tail
      → Reads (filter_query rt input pos) (filter e.root) tail
  unfolding filter_query
  filter_query-text e tail pos prev p b at r = record {
    rest = behind tail;
    reads =
        rw
          (segment e tail pos pipe_keyword prev p b at (refl, tt)
            (pipe_stops input pipe_keyword tail (refl, tt) r))
          refl;
    behind_it = skip_behind tail r;
  }

  unclaimed :
      (t tail pos : Bytes)
      → skip_space pos ≡ t ++ tail
      → is_unclaimed t ≡ true
      → parse_single_query rt input pos ≡ filter_query rt input pos
  unfolding parse_single_query try_aggregate try_show try_all
  unclaimed [] tail pos p u = absurd (cc)
  unclaimed (c ∷ t) tail pos p u =
      let no_c = match_keyword-other b'c' (codes "orrelate") pos c (t ++ tail) p (ground arith) in
      let no_a = match_keyword-other b'a' (codes "ggregate") pos c (t ++ tail) p (ground arith) in
      let no_s = match_keyword-other b's' (codes "how") pos c (t ++ tail) p (ground arith) in
      let no_star = consume_char-other b'*' pos c (t ++ tail) p (ground arith) in
      rw (no_c, no_a, no_s, no_star) refl

  -- `with` in front of the right expression ends the left one
  with_stops :
      (r tail : Bytes) (prev : ℕ)
      → At input prev (codes " with " ++ (r ++ tail))
      → Ahead input left_keywords (codes " with " ++ (r ++ tail))
  unfolding scan stops any_keyword keyword_at_position starts_with_nocase last_of
  with_stops r tail prev at =
      let before : char_before input (codes "with " ++ (r ++ tail)) ≡ b' ' =
        At-char_before input _ b' '
          (At-step input (codes " ") (codes "with " ++ (r ++ tail)) prev at) in
      Ahead-stop input left_keywords (codes "with " ++ (r ++ tail)) (refl, (refl, (refl, tt)))
        (rw before refl)

  within_stops :
      (d : Option Duration) (tail : Bytes) (prev : ℕ)
      → IsRest tail
      → At input prev (print_within d tail)
      → Ahead input right_keywords (print_within d tail)
  unfolding scan stops any_keyword keyword_at_position starts_with_nocase last_of
  within_stops none tail prev r at = pipe_stops input right_keywords tail (refl, (refl, tt)) r
  within_stops (some d) tail prev r at =
      let before : char_before input (codes "within " ++ print_duration d tail) ≡ b' ' =
        At-char_before input _ b' '
          (At-step input (codes " ") (codes "within " ++ print_duration d tail) prev at) in
      Ahead-stop input right_keywords (codes "within " ++ print_duration d tail) (refl, (refl, tt))
        (rw before refl)

  skip_expression :
      (e : Expression rt) (tail : Bytes) → skip_space (b' ' ∷ e.text ++ tail) ≡ e.text ++ tail
  unfolding span_drop
  skip_expression e tail = skip_solid e.text tail e.is_expression.starts_solid

  correlate_right-text :
      (l r : Expression rt) (d : Option Duration) (tail : Bytes) (prev : ℕ)
      → At input prev (codes " with " ++ (r.text ++ print_within d tail))
      → IsRest tail
      → Reads
          (correlate_right rt input l.root (b' ' ∷ r.text ++ print_within d tail))
          (stage_of rt (correlating l r d))
          tail
  unfolding correlate_right last_of
  correlate_right-text l r d tail prev at rest =
      let at_r : At input b' ' (r.text ++ print_within d tail) =
        At-step input (codes " with ") (r.text ++ print_within d tail) prev at in
      let at_d = At-step input r.text (print_within d tail) b' ' at_r in
      let right =
        segment r (print_within d tail) (b' ' ∷ r.text ++ print_within d tail) right_keywords b' '
          (skip_expression r _) (inl refl) at_r (refl, (refl, tt))
          (within_stops d tail (last_of b' ' r.text) rest at_d) in
      let within = parse_within-print_within d tail rest in
      record {
        rest = within.rest;
        reads = rw (right, within.reads) refl;
        behind_it = within.behind_it;
      }

  correlate_clause-text :
      (l r : Expression rt) (d : Option Duration) (tail pos : Bytes) (prev : ℕ)
      → skip_space pos ≡ print_clause rt (correlating l r d) tail
      → At input prev (print_clause rt (correlating l r d) tail)
      → IsRest tail
      → Reads (parse_single_query rt input pos) (stage_of rt (correlating l r d)) tail
  unfolding parse_single_query correlate_clause match_keyword starts_with_nocase last_of span_drop
  correlate_clause-text l r d tail pos prev p at rest =
      let further = codes " with " ++ (r.text ++ print_within d tail) in
      let at_l : At input b' ' (l.text ++ further) =
        At-step input (codes "correlate ") (l.text ++ further) prev at in
      let at_with = At-step input l.text further b' ' at_l in
      let left =
        segment l further (b' ' ∷ l.text ++ further) left_keywords b' ' (skip_expression l further)
          (inl refl) at_l (refl, (refl, (refl, tt)))
          (with_stops r.text (print_within d tail) (last_of b' ' l.text) at_with) in
      let right = correlate_right-text l r d tail (last_of b' ' l.text) at_with rest in
      record { rest = right.rest; reads = rw (p, left) right.reads; behind_it = right.behind_it }

  pub clause-text :
      (c : Clause rt) (tail pos : Bytes) (prev : ℕ)
      → skip_space pos ≡ print_clause rt c tail
      → (prev ≡ b' ') ⊎ (prev ≡ 0)
      → At input prev (print_clause rt c tail)
      → IsRest tail
      → Reads (parse_single_query rt input pos) (stage_of rt c) tail
  clause-text (filtering e u) tail pos prev p b at r =
      let read = filter_query-text e tail pos prev p b at r in
      record {
        rest = read.rest;
        reads = unclaimed e.text tail pos p u ∙ read.reads;
        behind_it = read.behind_it;
      }
  clause-text (correlating l r d) tail pos prev p b at rest =
      correlate_clause-text l r d tail pos prev p at rest

  abbrev pub Somewhere : Bytes → Type 0
  Somewhere s = (prev : ℕ) × At input prev s

  cursor_behind_within :
      (d : Option Duration) (tail : Bytes) (prev : ℕ)
      → At input prev (print_within d tail)
      → Somewhere tail
  cursor_behind_within none tail prev at = (prev, at)
  cursor_behind_within (some d) tail prev at = (
    _,
    At-step input (unit_text d.unit) tail _ (
        At-step input (d.first ∷ d.more) (unit_text d.unit ++ tail) _
          (At-step input (codes " within ") (print_duration d tail) prev at)),
  )

  pub cursor_behind :
      (c : Clause rt) (tail : Bytes) (prev : ℕ)
      → At input prev (print_clause rt c tail)
      → Somewhere tail
  cursor_behind (filtering e u) tail prev at = (_, At-step input e.text tail prev at)
  cursor_behind (correlating l r d) tail prev at =
      let further = r.text ++ print_within d tail in
      let at_l =
        At-step input (codes "correlate ") (l.text ++ (codes " with " ++ further)) prev at in
      let at_with = At-step input l.text (codes " with " ++ further) _ at_l in
      cursor_behind_within d tail _ (
        At-step input r.text (print_within d tail) _
          (At-step input (codes " with ") further _ at_with))

  pub skip_clause :
      (c : Clause rt) (tail : Bytes)
      → skip_space (b' ' ∷ print_clause rt c tail) ≡ print_clause rt c tail
  unfolding span_drop
  skip_clause (filtering e u) tail = skip_expression e tail
  skip_clause (correlating l r d) tail = refl

  pub bar-text :
      (c : Clause rt) (tail pos : Bytes)
      → skip_space pos ≡ skip_space (codes " | " ++ print_clause rt c tail)
      → consume_char b'|' pos ≡ some (b' ' ∷ print_clause rt c tail)
  unfolding consume_char at_char span_drop
  bar-text c tail pos p = rw p refl

  pub end-text : (pos : Bytes) → skip_space pos ≡ skip_space [] → consume_char b'|' pos ≡ none
  unfolding consume_char at_char span_drop
  end-text pos p = rw p refl
