-- ===== src/NqlParser/Clauses/Total.antt =====
-- The clauses of an aggregation end for every text.
use nblex.Base.{
  ℕ, zero, suc, ◌≤◌, ◌<◌, arith, Option, none, some, [], ◌∷◌, ◌==◌, length, leb, Bool-cases, inl,
  inr, map,
}
use nblex.Filter.Parse.{skip_space}
use nblex.Nql.{AggType}
use nblex.NqlParser.{
  Reply, ok, consume_char, match_keyword, expect, parse_identifier, parse_duration,
}
use nblex.NqlParser.Clauses.{
  func_type, count_call, percentile_end, percentile_call, field_call, func_call, func_named,
  parse_agg_function, comma_list, functions, parse_functions, by_field, parse_by, tumbling_clause,
  sliding_clause, session_clause, bare_clause, try_session, try_sliding, window_clause,
  parse_window,
}
use nblex.NqlParser.Total.{
  IsTotal, Leaves, Leaves-bind, Leaves-branch, Leaves-Below, consume_char-Within,
  consume_char-Below, match_keyword-Within, expect-Leaves, parse_identifier-Leaves,
  parse_duration-Leaves, skip-le,
}
use nblex.Runtime.{Runtime, StrtodShrinks}
use nblex.Text.{Bytes, codes, isalpha, tolower, str_eq}
use nblex.Text.Scan.{span_take, span_drop, length-span_drop-le}

pub comma_list-Leaves {ℓ} :
    {A : Type ℓ} (first item : Bytes → Reply A) (f n : ℕ) (pos : Bytes)
    → IsTotal first
    → IsTotal item
    → length pos < f
    → length pos ≤ n
    → Leaves n (comma_list first item f pos)
unfolding comma_list
comma_list-Leaves first item zero n pos h k u le = absurd (omega (arith, u))
comma_list-Leaves first item (suc f) n pos h k u le =
    Leaves-bind (length pos) n (first pos) _ (h pos (length pos) (omega arith)) λ a rest le1.
      Leaves-Below (length pos) n (consume_char b',' rest) (ok (a ∷ [], rest)) _
        (consume_char-Below b',' rest (length pos) le1) (omega arith)
        λ rest le2.
          Leaves-bind n n (comma_list item item f rest) _
            (comma_list-Leaves item item f n rest k k (omega arith) (omega arith))
            λ more rest le3. le3

by_field-IsTotal : IsTotal by_field
unfolding by_field
by_field-IsTotal pos n h = parse_identifier-Leaves _ pos n h

pub parse_by-IsTotal : IsTotal parse_by
unfolding parse_by
parse_by-IsTotal pos n h =
    Leaves-branch n n (match_keyword (codes "by") pos) (ok ([], pos)) _
      (match_keyword-Within (codes "by") pos n h) h
      λ rest le.
        comma_list-Leaves by_field by_field (suc (length rest)) n rest by_field-IsTotal
          by_field-IsTotal (omega arith) le

tumbling_clause-IsTotal : IsTotal tumbling_clause
unfolding tumbling_clause
tumbling_clause-IsTotal pos n h =
    Leaves-bind n n (expect b'(' pos _) _ (expect-Leaves b'(' pos _ n h) λ _ pos le.
      Leaves-bind n n (parse_duration pos) _ (parse_duration-Leaves pos n le) λ size pos le.
        Leaves-bind n n (expect b')' pos _) _ (expect-Leaves b')' pos _ n le) λ _ pos le. le

session_clause-IsTotal : IsTotal session_clause
unfolding session_clause
session_clause-IsTotal pos n h =
    Leaves-bind n n (expect b'(' pos _) _ (expect-Leaves b'(' pos _ n h) λ _ pos le.
      Leaves-bind n n (parse_duration pos) _ (parse_duration-Leaves pos n le) λ size pos le.
        Leaves-bind n n (expect b')' pos _) _ (expect-Leaves b')' pos _ n le) λ _ pos le. le

sliding_clause-IsTotal : IsTotal sliding_clause
unfolding sliding_clause
sliding_clause-IsTotal pos n h =
    Leaves-bind n n (expect b'(' pos _) _ (expect-Leaves b'(' pos _ n h) λ _ pos le.
      Leaves-bind n n (parse_duration pos) _ (parse_duration-Leaves pos n le) λ size pos le.
        Leaves-bind n n (expect b',' pos _) _ (expect-Leaves b',' pos _ n le) λ _ pos le.
          Leaves-bind n n (parse_duration pos) _ (parse_duration-Leaves pos n le) λ slide pos le.
            Leaves-bind n n (expect b')' pos _) _ (expect-Leaves b')' pos _ n le) λ _ pos le. le

bare_clause-IsTotal : IsTotal bare_clause
unfolding bare_clause
bare_clause-IsTotal pos n h =
    Leaves-bind n n (parse_duration pos) _ (parse_duration-Leaves pos n h) λ size pos le. le

window_clause-IsTotal : IsTotal window_clause
unfolding window_clause try_sliding try_session
window_clause-IsTotal pos n h =
    Leaves-branch n n (match_keyword (codes "tumbling") pos) _ _
      (match_keyword-Within (codes "tumbling") pos n h)
      (Leaves-branch n n (match_keyword (codes "sliding") pos) _ _
        (match_keyword-Within (codes "sliding") pos n h)
        (Leaves-branch n n (match_keyword (codes "session") pos) _ _
          (match_keyword-Within (codes "session") pos n h) (bare_clause-IsTotal pos n h)
          (λ pos le. session_clause-IsTotal pos n le))
        (λ pos le. sliding_clause-IsTotal pos n le))
      (λ pos le. tumbling_clause-IsTotal pos n le)

pub parse_window-IsTotal : IsTotal parse_window
unfolding parse_window
parse_window-IsTotal pos n h =
    Leaves-branch n n (match_keyword (codes "window") pos) _ _
      (match_keyword-Within (codes "window") pos n h) h (λ pos le. window_clause-IsTotal pos n le)

module _ {J R X : Type 0} (rt : Runtime J R X) (shrinks : StrtodShrinks rt) where
  count_call-IsTotal : IsTotal (count_call rt)
  unfolding count_call
  count_call-IsTotal pos n h =
      Leaves-bind n n (expect b')' pos _) _ (expect-Leaves b')' pos _ n h) λ _ pos le. le

  percentile_end-Leaves :
      (field : Bytes) (start n : ℕ) (v : R × Bytes)
      → length v.1 ≤ n
      → Leaves n (percentile_end rt field start v)
  unfolding percentile_end
  percentile_end-Leaves field start n (value, rest) h = elim (Bool-cases (length rest == start)) [
    | inl e ↦ rw e tt
    | inr e ↦
        rw e (Leaves-bind n n (expect b')' rest _) _ (expect-Leaves b')' rest _ n h) λ _ pos le. le)
  ]

  percentile_call-IsTotal : IsTotal (percentile_call rt)
  unfolding percentile_call
  percentile_call-IsTotal pos n h =
      Leaves-bind n n (parse_identifier _ pos) _ (parse_identifier-Leaves _ pos n h) λ field pos le.
        Leaves-bind n n (expect b',' pos _) _ (expect-Leaves b',' pos _ n le) λ _ pos le.
          percentile_end-Leaves field (length (skip_space pos)) n (rt.strtod (skip_space pos))
            (omega (arith, shrinks (skip_space pos), skip-le pos))

  field_call-Leaves : (name : Bytes) (k : Option AggType) → IsTotal (field_call rt name k)
  unfolding field_call
  field_call-Leaves name none pos n h = tt
  field_call-Leaves name (some k) pos n h =
      Leaves-bind n n (parse_identifier _ pos) _ (parse_identifier-Leaves _ pos n h) λ field pos le.
        Leaves-bind n n (expect b')' pos _) _ (expect-Leaves b')' pos _ n le) λ _ pos le. le

  func_call-IsTotal : (name : Bytes) → IsTotal (func_call rt name)
  unfolding func_call
  func_call-IsTotal name pos n h = elim (Bool-cases (str_eq name (codes "count"))) [
    | inl e ↦ rw e (count_call-IsTotal pos n h)
    | inr e ↦ rw e (elim (Bool-cases (str_eq name (codes "percentile"))) [
      | inl e' ↦ rw e' (percentile_call-IsTotal pos n h)
      | inr e' ↦ rw e' (field_call-Leaves name (func_type name) pos n h)
    ])
  ]

  func_named-IsTotal : (name : Bytes) → IsTotal (func_named rt name)
  unfolding func_named
  func_named-IsTotal [] pos n h = tt
  func_named-IsTotal (c ∷ name) pos n h = elim (Bool-cases (leb 32 (length (c ∷ name)))) [
    | inl e ↦ rw e tt
    | inr e ↦ rw e (
        Leaves-bind n n (expect b'(' pos _) _ (expect-Leaves b'(' pos _ n h)
          λ _ pos le. func_call-IsTotal (map tolower (c ∷ name)) pos n le)
  ]

  parse_agg_function-IsTotal : IsTotal (parse_agg_function rt)
  unfolding parse_agg_function
  parse_agg_function-IsTotal pos n h =
      func_named-IsTotal (span_take isalpha (skip_space pos)) (span_drop isalpha (skip_space pos)) n
        (omega (arith, length-span_drop-le isalpha (skip_space pos), skip-le pos))

  functions-IsTotal : IsTotal (functions rt)
  unfolding functions
  functions-IsTotal pos n h =
      comma_list-Leaves (parse_agg_function rt) (parse_agg_function rt) (suc (length pos)) n pos
        parse_agg_function-IsTotal parse_agg_function-IsTotal (omega arith) h

  pub parse_functions-IsTotal : IsTotal (parse_functions rt)
  unfolding parse_functions
  parse_functions-IsTotal pos n h =
      Leaves-branch n n (consume_char b'(' pos) _ _ (consume_char-Within b'(' pos n h)
        (functions-IsTotal pos n h)
        λ pos le. Leaves-bind n n (functions rt pos) _ (functions-IsTotal pos n le) λ funcs pos le.
          Leaves-bind n n (expect b')' pos _) _ (expect-Leaves b')' pos _ n le) λ _ pos le. le
