-- ===== src/NqlParser/Query/Total.antt =====
-- nql_parse_ex ends for every text: with a query that took all of it, or with one message.
use nblex.Base.{
  ℕ, zero, suc, ◌≤◌, ◌<◌, ◌≡◌, refl, arith, Bool, true, false, Option, none, some, List, [], ◌∷◌,
  length,
}
use nblex.Filter.{FilterNode}
use nblex.Filter.Parse.{skip_space}
use nblex.NqlParser.{
  Reply, ok, failed, out_of_fuel, ◌>>=◌, consume_char, match_keyword, parse_identifier,
  parse_duration,
}
use nblex.NqlParser.Clauses.{parse_functions, parse_by, parse_window}
use nblex.NqlParser.Clauses.Total.{
  comma_list-Leaves, parse_functions-IsTotal, parse_by-IsTotal, parse_window-IsTotal,
}
use nblex.NqlParser.Query.{
  left_keywords, right_keywords, window_keywords, pipe_keyword, Query, query_of, parse_where,
  parse_within, correlate_right, correlate_clause, aggregate_clause, show_where, show_fields,
  show_clause, filter_query, try_all, try_show, try_aggregate, parse_single_query, parse_stages,
  at_end, parse_entry, nql_parse_ex,
}
use nblex.NqlParser.Segment.{parse_segment}
use nblex.NqlParser.Segment.Total.{parse_segment-IsTotal}
use nblex.NqlParser.Total.{
  IsTotal, Leaves, Leaves-bind, Leaves-branch, Leaves-Below, consume_char-Within,
  consume_char-Below, match_keyword-Within, parse_identifier-Leaves, parse_duration-Leaves,
}
use nblex.Runtime.{Runtime, StrtodShrinks}
use nblex.Text.{Bytes, codes}

field_item-IsTotal : (message : Bytes) → IsTotal (λ pos. parse_identifier message pos)
field_item-IsTotal message pos n h = parse_identifier-Leaves message pos n h

show_fields-IsTotal : IsTotal show_fields
unfolding show_fields
show_fields-IsTotal pos n h =
    comma_list-Leaves _ _ (suc (length pos)) n pos (field_item-IsTotal _) (field_item-IsTotal _)
      (omega arith) h

module _ {J R X : Type 0} (rt : Runtime J R X) (shrinks : StrtodShrinks rt) (input : Bytes) where
  parse_where-IsTotal : (ks : List Bytes) → IsTotal (parse_where rt input ks)
  unfolding parse_where
  parse_where-IsTotal ks pos n h =
      Leaves-branch n n (match_keyword (codes "where") pos) _ _
        (match_keyword-Within (codes "where") pos n h) h
        λ pos le.
          Leaves-bind n n (parse_segment rt input ks pos) _
            (parse_segment-IsTotal rt input ks pos n le) λ root pos le. le

  parse_within-IsTotal : IsTotal (parse_within rt input)
  unfolding parse_within
  parse_within-IsTotal pos n h =
      Leaves-branch n n (match_keyword (codes "within") pos) _ _
        (match_keyword-Within (codes "within") pos n h) h
        λ pos le.
          Leaves-bind n n (parse_duration pos) _ (parse_duration-Leaves pos n le)
            λ within pos le. le

  correlate_right-IsTotal :
      (left : Option (FilterNode R X)) → IsTotal (correlate_right rt input left)
  unfolding correlate_right
  correlate_right-IsTotal left pos n h =
      Leaves-bind n n (parse_segment rt input right_keywords pos) _
        (parse_segment-IsTotal rt input right_keywords pos n h)
        λ right pos le.
          Leaves-bind n n (parse_within rt input pos) _ (parse_within-IsTotal pos n le)
            λ within pos le. le

  correlate_clause-IsTotal : IsTotal (correlate_clause rt input)
  unfolding correlate_clause
  correlate_clause-IsTotal pos n h =
      Leaves-bind n n (parse_segment rt input left_keywords pos) _
        (parse_segment-IsTotal rt input left_keywords pos n h)
        λ left pos le.
          Leaves-branch n n (match_keyword (codes "with") pos) _ _
            (match_keyword-Within (codes "with") pos n le) tt
            λ pos le. correlate_right-IsTotal left pos n le

  aggregate_clause-IsTotal : IsTotal (aggregate_clause rt input)
  unfolding aggregate_clause
  aggregate_clause-IsTotal pos n h =
      Leaves-bind n n (parse_functions rt pos) _ (parse_functions-IsTotal rt shrinks pos n h)
        λ funcs pos le.
          Leaves-bind n n (parse_by pos) _ (parse_by-IsTotal pos n le) λ fields pos le.
            Leaves-bind n n (parse_where rt input window_keywords pos) _
              (parse_where-IsTotal window_keywords pos n le)
              λ root pos le.
                Leaves-bind n n (parse_window pos) _ (parse_window-IsTotal pos n le)
                  λ window pos le. le

  show_where-IsTotal : (fields : List Bytes) (all : Bool) → IsTotal (show_where rt input fields all)
  unfolding show_where
  show_where-IsTotal fields all pos n h =
      Leaves-bind n n (parse_where rt input pipe_keyword pos) _
        (parse_where-IsTotal pipe_keyword pos n h) λ root pos le. le

  show_clause-IsTotal : IsTotal (show_clause rt input)
  unfolding show_clause
  show_clause-IsTotal pos n h =
      Leaves-branch n n (consume_char b'*' pos) _ _ (consume_char-Within b'*' pos n h)
        (Leaves-bind n n (show_fields pos) _ (show_fields-IsTotal pos n h)
          λ fields pos le. show_where-IsTotal fields false pos n le)
        (λ pos le. show_where-IsTotal [] true pos n le)

  filter_query-IsTotal : IsTotal (filter_query rt input)
  unfolding filter_query
  filter_query-IsTotal pos n h =
      Leaves-bind n n (parse_segment rt input pipe_keyword pos) _
        (parse_segment-IsTotal rt input pipe_keyword pos n h) λ root pos le. le

  parse_single_query-IsTotal : IsTotal (parse_single_query rt input)
  unfolding parse_single_query try_aggregate try_show try_all
  parse_single_query-IsTotal pos n h =
      Leaves-branch n n (match_keyword (codes "correlate") pos) _ _
        (match_keyword-Within (codes "correlate") pos n h)
        (Leaves-branch n n (match_keyword (codes "aggregate") pos) _ _
          (match_keyword-Within (codes "aggregate") pos n h)
          (Leaves-branch n n (match_keyword (codes "show") pos) _ _
            (match_keyword-Within (codes "show") pos n h)
            (Leaves-branch n n (consume_char b'*' pos) _ _ (consume_char-Within b'*' pos n h)
              (filter_query-IsTotal pos n h) (λ pos le. show_where-IsTotal [] true pos n le))
            (λ pos le. show_clause-IsTotal pos n le))
          (λ pos le. aggregate_clause-IsTotal pos n le))
        (λ pos le. correlate_clause-IsTotal pos n le)

  parse_stages-Leaves :
      (f n : ℕ) (pos : Bytes)
      → length pos < f
      → length pos ≤ n
      → Leaves n (parse_stages rt input f pos)
  unfolding parse_stages
  parse_stages-Leaves zero n pos u h = absurd (omega (arith, u))
  parse_stages-Leaves (suc f) n pos u h =
      Leaves-bind (length pos) n (parse_single_query rt input pos) _
        (parse_single_query-IsTotal pos (length pos) (omega arith))
        λ stage rest le1.
          Leaves-Below (length pos) n (consume_char b'|' rest) (ok (stage ∷ [], rest)) _
            (consume_char-Below b'|' rest (length pos) le1) (omega arith)
            λ rest le2.
              Leaves-bind n n (parse_stages rt input f rest) _
                (parse_stages-Leaves f n rest (omega arith) (omega arith)) λ stages rest le3. le3

-- a query that took the whole text, or a message
abbrev pub Ends : {A : Type 0} → Reply A → Type 0
Ends (ok (a, rest)) = rest ≡ []
Ends (failed e) = Unit
Ends out_of_fuel = ⊥

module _ {J R X : Type 0} (rt : Runtime J R X) (shrinks : StrtodShrinks rt) where
  at_end-Ends : (q : Query R X) (rest : Bytes) → Ends (at_end rt q rest)
  unfolding at_end
  at_end-Ends q [] = refl
  at_end-Ends q (c ∷ s) = tt

  bind-Ends :
      {A B : Type 0} (n : ℕ) (r : Reply A) (f : A × Bytes → Reply B)
      → Leaves n r
      → ((a : A) (rest : Bytes) → Ends (f (a, rest)))
      → Ends (r >>= f)
  bind-Ends n (ok (a, rest)) f h k = k a rest
  bind-Ends n (failed e) f h k = tt
  bind-Ends n out_of_fuel f h k = h

  parse_entry-Ends : (input pos : Bytes) → Ends (parse_entry rt input pos)
  unfolding parse_entry
  parse_entry-Ends input [] = tt
  parse_entry-Ends input (c ∷ s) =
      bind-Ends (length (c ∷ s)) (parse_stages rt input (suc (length (c ∷ s))) (c ∷ s)) _
        (parse_stages-Leaves rt shrinks input (suc (length (c ∷ s))) (length (c ∷ s)) (c ∷ s)
          (omega arith) (omega arith))
        λ stages rest. at_end-Ends (query_of stages) (skip_space rest)

  -- nql_parse_ex ends for every text, the lists and the pipeline within their fuel: with a query
  -- that took the whole text, or with a message.
  pub nql_parse_ex-Ends : (q : Option Bytes) → Ends (nql_parse_ex rt q)
  unfolding nql_parse_ex
  nql_parse_ex-Ends none = tt
  nql_parse_ex-Ends (some input) = parse_entry-Ends input (skip_space input)
