-- ===== src/NqlParser/Query/RoundTrip.antt =====
-- src/parsers/nql_parser.c: nql_parse_ex on what NqlParser.Print writes.
use nblex.Base.{
  length-append, ℕ, zero, suc, ◌+◌, ◌≤◌, ◌<◌, ◌≡◌, ◌⊎◌, refl, ap, arith, true, false, some, List,
  [], ◌∷◌, ◌++◌, length, inl, inr, map,
}
use nblex.Filter.Parse.{skip_space}
use nblex.NqlParser.{ok, ◌>>=◌}
use nblex.NqlParser.Print.{
  Clause, filtering, correlating, print_clause, stage_of, print_more, print_pipeline,
}
use nblex.NqlParser.Query.{query_of, parse_stages, at_end, parse_entry, nql_parse_ex}
use nblex.NqlParser.Segment.Free.{At, At-step, begins_solid, last_of}
use nblex.Runtime.{Runtime}
use nblex.Text.{Bytes, codes, isspace}
use nblex.Text.Scan.{span_drop}
use nblex.NqlParser.Query.Lexemes.{at_last, bar, Reads}
use nblex.NqlParser.Query.Clauses.{clause-text, cursor_behind, skip_clause, bar-text, end-text}

module _ {J R X : Type 0} (rt : Runtime J R X) (input : Bytes) where
  stages-text :
      (c : Clause rt) (cs : List (Clause rt)) (f : ℕ) (pos : Bytes) (prev : ℕ)
      → skip_space pos ≡ print_pipeline rt c cs
      → (prev ≡ b' ') ⊎ (prev ≡ 0)
      → At input prev (print_pipeline rt c cs)
      → length cs < f
      → Reads (parse_stages rt input f pos) (map (stage_of rt) (c ∷ cs)) []
  unfolding parse_stages print_more last_of
  stages-text c cs zero pos prev p b at h = absurd (omega arith)
  stages-text c [] (suc f) pos prev p b at h =
      let read = clause-text rt input c [] pos prev p b at at_last in
      record {
        rest = read.rest;
        reads = rw (read.reads, end-text rt input read.rest read.behind_it) refl;
        behind_it = read.behind_it;
      }
  stages-text c (c' ∷ cs) (suc f) pos prev p b at h =
      let tail = print_more rt (c' ∷ cs) in
      let read = clause-text rt input c tail pos prev p b at (bar (print_pipeline rt c' cs)) in
      let (d, here) = cursor_behind rt input c tail prev at in
      let next =
        stages-text c' cs f (b' ' ∷ print_pipeline rt c' cs) b' ' (skip_clause rt input c' _)
          (inl refl) (At-step input (codes " | ") (print_pipeline rt c' cs) d here) (omega arith) in
      record {
        rest = next.rest;
        reads =
            rw
              (
                read.reads,
                bar-text rt input c' (print_more rt cs) read.rest read.behind_it,
                next.reads,
              )
              refl;
        behind_it = next.behind_it;
      }

At-whole : (input : Bytes) → At input 0 input
unfolding last_of
At-whole input = record { before = []; whole = refl; last = refl }

At-length : (input s : Bytes) (prev : ℕ) → At input prev s → length s ≤ length input
At-length input s prev at =
    let l : length (at.before ++ s) ≡ length at.before + length s = length-append at.before s in
    let e : length (at.before ++ s) ≡ length input = ap length at.whole in omega (arith, l, e)

module _ {J R X : Type 0} (rt : Runtime J R X) where
  length-print_clause-le :
      (c : Clause rt) (tail : Bytes) → length tail ≤ length (print_clause rt c tail)
  length-print_clause-le c tail =
      let input = print_clause rt c tail in
      let (prev, at) = cursor_behind rt input c tail 0 (At-whole input) in
      At-length input tail prev at

  length-print_more-le : (cs : List (Clause rt)) → length cs ≤ length (print_more rt cs)
  unfolding print_more
  length-print_more-le [] = omega arith
  length-print_more-le (c ∷ cs) =
      omega (arith, length-print_clause-le c (print_more rt cs), length-print_more-le cs)

  parse_entry-solid :
      (input s : Bytes)
      → begins_solid s ≡ true
      → parse_entry rt input s ≡ (
          parse_stages rt input (suc (length s)) s >>= λ (stages, pos).
          at_end rt (query_of stages) (skip_space pos))
  unfolding parse_entry begins_solid
  parse_entry-solid input [] h = absurd (cc)
  parse_entry-solid input (c ∷ s) h = refl

  solid_append : (t tail : Bytes) → begins_solid t ≡ true → begins_solid (t ++ tail) ≡ true
  unfolding begins_solid
  solid_append [] tail h = absurd (cc)
  solid_append (c ∷ t) tail h = h

  solid_clause : (c : Clause rt) (tail : Bytes) → begins_solid (print_clause rt c tail) ≡ true
  unfolding begins_solid
  solid_clause (filtering e u) tail = solid_append e.text tail e.is_expression.starts_solid
  solid_clause (correlating l r d) tail = refl

  solid_start : (s : Bytes) → begins_solid s ≡ true → skip_space s ≡ s
  unfolding begins_solid span_drop
  solid_start [] h = refl
  solid_start (c ∷ s) h = let solid : isspace c ≡ false = ground arith in rw solid refl

  -- A pipeline of filters and correlations is read as it is written.
  pub nql_parse_ex-print_pipeline :
      (c : Clause rt) (cs : List (Clause rt))
      → nql_parse_ex rt (some (print_pipeline rt c cs))
        ≡ ok (query_of (map (stage_of rt) (c ∷ cs)), [])
  unfolding nql_parse_ex at_end span_drop print_more
  nql_parse_ex-print_pipeline c cs =
      let input = print_pipeline rt c cs in
      let solid = solid_clause c (print_more rt cs) in
      let start = solid_start input solid in
      let enough : length cs < suc (length input) =
        omega (arith, length-print_clause-le c (print_more rt cs), length-print_more-le cs) in
      let read =
        stages-text rt input c cs (suc (length input)) input 0 start (inr refl) (At-whole input)
          enough in
      rw (start, parse_entry-solid input input solid, read.reads, read.behind_it) refl
