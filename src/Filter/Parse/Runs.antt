-- ===== src/Filter/Parse/Runs.antt =====
-- src/core/filter_engine.c: the runs of parse_filter_expr and parse_filter_full as relations, in
-- which a run that does not end or is cut short has no place. The parser's recursion and its loop
-- consume their input, so that every text has a run.
use nblex.Base.{
  ℕ, zero, suc, ◌≤◌, ◌<◌, Bool, true, false, ◌||◌, [], ◌∷◌, Option, none, some, ◌≡◌, arith, length,
  length-drop, drop, Bool-cases, inl, inr, ◌>>=◌,
}
use nblex.Filter.{FilterNode, and_node, or_node}
use nblex.Filter.Parse.{
  skip_space, at_char, parse_comparison, parse_filter_expr, parse_operators, parse_filter_full,
  close_paren, negate, at_not,
}
use nblex.Filter.Parse.Consumes.{at_char-length, at_not-length, Shorter, Shorter-parse_filter_expr}
use nblex.Runtime.{Runtime, StrtodShrinks}
use nblex.Text.{Bytes, codes, isspace, starts_with}
use nblex.Text.Scan.{length-span_drop-le}

module _ {J R X : Type 0} (rt : Runtime J R X) where
  -- the runs of parse_filter_expr, each with its result
  pub data RunsExpr : Bytes → Option (FilterNode R X × Bytes) → Type 0 where
    opens :
        (s : Bytes) (r : Option (FilterNode R X × Bytes))
        → at_char b'(' (skip_space s) ≡ true
        → RunsExpr (drop 1 (skip_space s)) r
        → RunsExpr s (close_paren rt r)
    negates :
        (s : Bytes) (r : Option (FilterNode R X × Bytes))
        → at_char b'(' (skip_space s) ≡ false
        → at_not (skip_space s) ≡ true
        → RunsExpr (drop 3 (skip_space s)) r
        → RunsExpr s (negate rt r)
    compares :
        (s : Bytes)
        → at_char b'(' (skip_space s) ≡ false
        → at_not (skip_space s) ≡ false
        → RunsExpr s (parse_comparison rt (skip_space s))

  abbrev pub at_and : Bytes → Bool
  at_and pos = starts_with (codes "AND") pos || starts_with (codes "and") pos

  abbrev pub at_or : Bytes → Bool
  at_or pos = starts_with (codes "OR") pos || starts_with (codes "or") pos

  -- the runs of the loop of parse_filter_full, from the tree built so far
  pub data RunsOperators : FilterNode R X → Bytes → Option (FilterNode R X) → Type 0 where
    at_end : (left : FilterNode R X) → RunsOperators left [] (some left)
    breaks :
        (left : FilterNode R X) (c : ℕ) (s : Bytes)
        → at_and (skip_space (c ∷ s)) ≡ false
        → at_or (skip_space (c ∷ s)) ≡ false
        → RunsOperators left (c ∷ s) (some left)
    fails_behind_and :
        (left : FilterNode R X) (c : ℕ) (s : Bytes)
        → at_and (skip_space (c ∷ s)) ≡ true
        → RunsExpr (drop 3 (skip_space (c ∷ s))) none
        → RunsOperators left (c ∷ s) none
    joins_by_and :
        (left right : FilterNode R X) (c : ℕ) (s rest : Bytes) (r : Option (FilterNode R X))
        → at_and (skip_space (c ∷ s)) ≡ true
        → RunsExpr (drop 3 (skip_space (c ∷ s))) (some (right, rest))
        → RunsOperators (and_node left right) rest r
        → RunsOperators left (c ∷ s) r
    fails_behind_or :
        (left : FilterNode R X) (c : ℕ) (s : Bytes)
        → at_and (skip_space (c ∷ s)) ≡ false
        → at_or (skip_space (c ∷ s)) ≡ true
        → RunsExpr (drop 2 (skip_space (c ∷ s))) none
        → RunsOperators left (c ∷ s) none
    joins_by_or :
        (left right : FilterNode R X) (c : ℕ) (s rest : Bytes) (r : Option (FilterNode R X))
        → at_and (skip_space (c ∷ s)) ≡ false
        → at_or (skip_space (c ∷ s)) ≡ true
        → RunsExpr (drop 2 (skip_space (c ∷ s))) (some (right, rest))
        → RunsOperators (or_node left right) rest r
        → RunsOperators left (c ∷ s) r

  -- the runs of parse_filter_full
  pub data Runs : Bytes → Option (FilterNode R X) → Type 0 where
    no_left : (s : Bytes) → RunsExpr s none → Runs s none
    from_left :
        (s rest : Bytes) (left : FilterNode R X) (r : Option (FilterNode R X))
        → RunsExpr s (some (left, rest))
        → RunsOperators left rest r
        → Runs s r

  parse_filter_expr-RunsExpr :
      (f : ℕ) (s : Bytes) → length s < f → RunsExpr s (parse_filter_expr rt f s)
  unfolding parse_filter_expr
  parse_filter_expr-RunsExpr zero s h = absurd (omega arith)
  parse_filter_expr-RunsExpr (suc f) s h =
      let pos = skip_space s in
      let le : length pos ≤ length s = length-span_drop-le isspace s in
      elim (Bool-cases (at_char b'(' pos)) [
        | inl e ↦ rw e (
            opens s _ e (
              parse_filter_expr-RunsExpr f (drop 1 pos)
                (omega (arith, length-drop 1 pos, at_char-length b'(' pos e))))
        | inr e ↦ rw e (elim (Bool-cases (at_not pos)) [
          | inl e' ↦ rw e' (
              negates s _ e e' (
                parse_filter_expr-RunsExpr f (drop 3 pos)
                  (omega (arith, length-drop 3 pos, at_not-length pos e'))))
          | inr e' ↦ rw e' (compares s e e')
        ])
      ]

  behind_and :
      (left : FilterNode R X) (c : ℕ) (s : Bytes) (k : ℕ) (m : Option (FilterNode R X × Bytes))
      (loop : FilterNode R X × Bytes → Option (FilterNode R X))
      → at_and (skip_space (c ∷ s)) ≡ true
      → RunsExpr (drop 3 (skip_space (c ∷ s))) m
      → Shorter rt k m
      → ((n : FilterNode R X) (r : Bytes)
          → length r < k
          → RunsOperators (and_node left n) r (loop (n, r)))
      → RunsOperators left (c ∷ s) (m >>= loop)
  behind_and left c s k none loop e run h next = fails_behind_and left c s e run
  behind_and left c s k (some (n, r)) loop e run h next =
      joins_by_and left n c s r _ e run (next n r h)

  behind_or :
      (left : FilterNode R X) (c : ℕ) (s : Bytes) (k : ℕ) (m : Option (FilterNode R X × Bytes))
      (loop : FilterNode R X × Bytes → Option (FilterNode R X))
      → at_and (skip_space (c ∷ s)) ≡ false
      → at_or (skip_space (c ∷ s)) ≡ true
      → RunsExpr (drop 2 (skip_space (c ∷ s))) m
      → Shorter rt k m
      → ((n : FilterNode R X) (r : Bytes)
          → length r < k
          → RunsOperators (or_node left n) r (loop (n, r)))
      → RunsOperators left (c ∷ s) (m >>= loop)
  behind_or left c s k none loop e e' run h next = fails_behind_or left c s e e' run
  behind_or left c s k (some (n, r)) loop e e' run h next =
      joins_by_or left n c s r _ e e' run (next n r h)

  parse_operators-RunsOperators :
      (f : ℕ) (left : FilterNode R X) (s : Bytes)
      → StrtodShrinks rt
      → length s < f
      → RunsOperators left s (parse_operators rt f left s)
  unfolding parse_operators
  parse_operators-RunsOperators zero left s shrinks h = absurd (omega arith)
  parse_operators-RunsOperators (suc f) left [] shrinks h = at_end left
  parse_operators-RunsOperators (suc f) left (c ∷ s) shrinks h =
      let pos = skip_space (c ∷ s) in
      let le : length pos ≤ length (c ∷ s) = length-span_drop-le isspace (c ∷ s) in
      elim (Bool-cases (at_and pos)) [
        | inl e ↦ rw e (
            behind_and left c s (length (drop 3 pos)) _ _ e
              (parse_filter_expr-RunsExpr (suc (length pos)) (drop 3 pos)
                (omega (arith, length-drop 3 pos)))
              (Shorter-parse_filter_expr rt _ (drop 3 pos) shrinks)
              (λ n r k.
                parse_operators-RunsOperators f (and_node left n) r shrinks
                  (omega (arith, length-drop 3 pos))))
        | inr e ↦ rw e (elim (Bool-cases (at_or pos)) [
          | inl e' ↦ rw e' (
              behind_or left c s (length (drop 2 pos)) _ _ e e'
                (parse_filter_expr-RunsExpr (suc (length pos)) (drop 2 pos)
                  (omega (arith, length-drop 2 pos)))
                (Shorter-parse_filter_expr rt _ (drop 2 pos) shrinks)
                (λ n r k.
                  parse_operators-RunsOperators f (or_node left n) r shrinks
                    (omega (arith, length-drop 2 pos))))
          | inr e' ↦ rw e' (breaks left c s e e')
        ])
      ]

  from_expr :
      (s : Bytes) (m : Option (FilterNode R X × Bytes))
      → StrtodShrinks rt
      → RunsExpr s m
      → Runs s (m >>= λ (left, rest). parse_operators rt (suc (length rest)) left rest)
  from_expr s none shrinks run = no_left s run
  from_expr s (some (left, rest)) shrinks run =
      from_left s rest left _ run
        (parse_operators-RunsOperators (suc (length rest)) left rest shrinks (omega arith))

  -- Every text has a finite run of parse_filter_full, by the steps of its recursion and its loop,
  -- and what the function returns is the result of that run: NULL only where an expression does not
  -- parse, never because the fuel ran out. strtod is assumed to leave no more than it is given.
  pub parse_filter_full-Runs : (s : Bytes) → StrtodShrinks rt → Runs s (parse_filter_full rt s)
  unfolding parse_filter_full
  parse_filter_full-Runs s shrinks =
      from_expr s _ shrinks (parse_filter_expr-RunsExpr (suc (length s)) s (omega arith))
