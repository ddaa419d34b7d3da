-- ===== src/Filter/Parse/RoundTrip.antt =====
-- src/core/filter_engine.c: what the parser makes of the filters that Print writes.
use nblex.Base.{
  ℕ, zero, suc, ◌+◌, ◌≤◌, ◌<◌, Bool, true, false, ◌&&◌, List, [], ◌∷◌, ◌++◌, none, some, ◌≡◌, ◌≢◌,
  refl, ap, ◌∙◌, arith, length, length-append, length-ne_nil, ◌==◌, All, append_assoc,
}
use nblex.Filter.{FilterOp, op_eq, string_val, FilterNode, and_node, or_node, not_node, expr_node}
use nblex.Filter.Parse.{
  skip_space, is_field_char, at_char, at_not, parse_operator, parse_value, parse_comparison,
  parse_filter_expr, parse_operators, parse_filter_full, with_field, with_operator, close_paren,
  negate,
}
use nblex.Filter.Parse.Print.{
  op_text, Comparison, IsWritable, Operand, compared, negated, grouped, Chain, print_comparison,
  print_operand, print_others, print, expr_of, tree_operand, tree_others, tree, IsWritableOperand,
  IsWritableChain,
}
use nblex.Runtime.{Runtime}
use nblex.Text.{Bytes, codes, isspace, starts_with}
use nblex.Text.Quoted.{IsPlain, quoted_take-append, quoted_drop-append}
use nblex.Text.Scan.{span_take, span_drop, span_take-append, span_drop-append, length-span_drop-le}

parse_operator-op_text :
    (op : FilterOp) (rest : Bytes)
    → parse_operator (op_text op ++ b' ' ∷ rest) ≡ some (op, b' ' ∷ rest)
unfolding parse_operator
parse_operator-op_text op_eq rest = refl
parse_operator-op_text _ rest = refl

-- The blank in front of the operator, and behind it.
skip_space-op_text :
    (op : FilterOp) (rest : Bytes) → skip_space (b' ' ∷ (op_text op ++ rest)) ≡ op_text op ++ rest
unfolding span_drop
skip_space-op_text op_eq rest = refl
skip_space-op_text _ rest = refl

starts_with-append :
    (p a s : Bytes) → length p ≤ length a → starts_with p (a ++ s) ≡ starts_with p a
unfolding starts_with
starts_with-append [] a s h = refl
starts_with-append (x ∷ p) [] s h = absurd (omega arith)
starts_with-append (x ∷ p) (c ∷ a) s h = ap (◌&&◌ (x == c)) (starts_with-append p a s (omega arith))

isspace-is_field_char : (c : ℕ) → is_field_char c ≡ true → isspace c ≡ false
isspace-is_field_char c h = ground arith

paren-is_field_char : (c : ℕ) → is_field_char c ≡ true → (c == b'(') ≡ false
paren-is_field_char c h = ground arith

length-op_text : (op : FilterOp) → 1 ≤ length (op_text op)
length-op_text op_eq = omega arith
length-op_text _ = omega arith

-- A name is not taken for a NOT, whatever follows its operator.
at_not-print :
    (c : Comparison) (rest : Bytes)
    → IsWritable c
    → at_not (c.field ++ b' ' ∷ (op_text c.op ++ rest)) ≡ false
at_not-print c rest w =
    let front : Bytes = c.field ++ b' ' ∷ op_text c.op in
    let long : 3 ≤ length front = omega (
      arith,
      length-append c.field (b' ' ∷ op_text c.op),
      length-op_text c.op,
      length-ne_nil c.field w.some_name,
    ) in
    rw
      (
        ← append_assoc c.field (b' ' ∷ op_text c.op) rest,
        starts_with-append (codes "NOT") front rest long,
        starts_with-append (codes "not") front rest long,
      )
      w.no_not

skip_space-word :
    (w s : Bytes) → All (λ c. is_field_char c ≡ true) w → w ≢ [] → skip_space (w ++ s) ≡ w ++ s
unfolding span_drop
skip_space-word [] s h ne = absurd (ne refl)
skip_space-word (c ∷ w) s h ne = rw (isspace-is_field_char c h.0)

at_char-word :
    (w s : Bytes) → All (λ c. is_field_char c ≡ true) w → w ≢ [] → at_char b'(' (w ++ s) ≡ false
unfolding at_char
at_char-word [] s h ne = absurd (ne refl)
at_char-word (c ∷ w) s h ne = paren-is_field_char c h.0

-- A printed operand begins with no blank.
skip_space-print_operand :
    (o : Operand) (rest : Bytes)
    → IsWritableOperand o
    → skip_space (print_operand o rest) ≡ print_operand o rest
skip_space-print_operand (compared c) rest w = skip_space-word c.field _ w.name w.some_name
skip_space-print_operand (negated o) rest w = unfold span_drop in refl
skip_space-print_operand (grouped o) rest w = unfold span_drop in refl

skip_space-blank : (s : Bytes) → skip_space (b' ' ∷ s) ≡ skip_space s
unfolding span_drop
skip_space-blank s = refl

length-print_operand : (o : Operand) (rest : Bytes) → length rest < length (print_operand o rest)
length-print_operand (compared c) rest = omega (
  arith,
  length-append c.field (b' ' ∷ (op_text c.op ++ b' ' ∷ b'"' ∷ (c.body ++ b'"' ∷ rest))),
  length-append (op_text c.op) (b' ' ∷ b'"' ∷ (c.body ++ b'"' ∷ rest)),
  length-append c.body (b'"' ∷ rest),
)
length-print_operand (negated o) rest = omega (arith, length-print_operand o rest)
length-print_operand (grouped o) rest = omega (arith, length-print_operand o (b')' ∷ rest))

module _ {J R X : Type 0} (rt : Runtime J R X) where
  parse_value-quoted :
      (op : FilterOp) (body rest : Bytes)
      → All IsPlain body
      → parse_value rt op (b'"' ∷ (body ++ b'"' ∷ rest))
        ≡ record { value = string_val body; regex = none; rest = rest }
  unfolding parse_value at_char
  parse_value-quoted op body rest h =
      rw (quoted_take-append body rest h, quoted_drop-append body rest h)

  with_field-ne_nil :
      (w pos : Bytes)
      → w ≢ []
      → with_field rt w pos ≡ with_operator rt w (parse_operator (skip_space pos))
  unfolding with_field
  with_field-ne_nil [] pos h = absurd (h refl)
  with_field-ne_nil (c ∷ w) pos h = refl

  with_operator-quoted :
      (c : Comparison) (rest : Bytes)
      → All IsPlain c.body
      → with_operator rt c.field (some (c.op, b' ' ∷ b'"' ∷ (c.body ++ b'"' ∷ rest)))
        ≡ some (expr_node (expr_of c), rest)
  unfolding with_operator span_drop
  with_operator-quoted c rest h = rw (parse_value-quoted c.op c.body rest h)

  parse_comparison-print :
      (c : Comparison) (rest : Bytes)
      → IsWritable c
      → parse_comparison rt (print_comparison c rest) ≡ some (expr_node (expr_of c), rest)
  unfolding parse_comparison
  parse_comparison-print c rest w =
      let tail : Bytes = b' ' ∷ (op_text c.op ++ b' ' ∷ b'"' ∷ (c.body ++ b'"' ∷ rest)) in
      rw
        (
          span_take-append is_field_char c.field tail w.name (unfold span_take in refl),
          span_drop-append is_field_char c.field tail w.name (unfold span_drop in refl),
          with_field-ne_nil c.field tail w.some_name,
          skip_space-op_text c.op (b' ' ∷ b'"' ∷ (c.body ++ b'"' ∷ rest)),
          parse_operator-op_text c.op (b'"' ∷ (c.body ++ b'"' ∷ rest)),
        )
        (with_operator-quoted c rest w.plain)

  step_negated :
      (f : ℕ) (s x rest : Bytes) (n : FilterNode R X)
      → skip_space s ≡ codes "NOT " ++ x
      → parse_filter_expr rt f (b' ' ∷ x) ≡ some (n, rest)
      → parse_filter_expr rt (suc f) s ≡ some (not_node n, rest)
  unfolding parse_filter_expr at_char starts_with negate
  step_negated f s x rest n e h = rw e (rw h)

  step_grouped :
      (f : ℕ) (s x rest : Bytes) (n : FilterNode R X)
      → skip_space s ≡ b'(' ∷ x
      → parse_filter_expr rt f x ≡ some (n, b')' ∷ rest)
      → parse_filter_expr rt (suc f) s ≡ some (n, rest)
  unfolding parse_filter_expr at_char starts_with close_paren
  step_grouped f s x rest n e h = rw e (rw h (unfold span_drop in refl))

  step_and :
      (f : ℕ) (left n : FilterNode R X) (x rest : Bytes)
      → parse_filter_expr rt (suc (length (codes "AND " ++ x))) (b' ' ∷ x) ≡ some (n, rest)
      → parse_operators rt (suc f) left (codes " AND " ++ x)
        ≡ parse_operators rt f (and_node left n) rest
  unfolding parse_operators starts_with span_drop
  step_and f left n x rest h = rw h

  step_or :
      (f : ℕ) (left n : FilterNode R X) (x rest : Bytes)
      → parse_filter_expr rt (suc (length (codes "OR " ++ x))) (b' ' ∷ x) ≡ some (n, rest)
      → parse_operators rt (suc f) left (codes " OR " ++ x)
        ≡ parse_operators rt f (or_node left n) rest
  unfolding parse_operators starts_with span_drop
  step_or f left n x rest h = rw h

  parse_filter_expr-print :
      (o : Operand) (f : ℕ) (s rest : Bytes)
      → IsWritableOperand o
      → skip_space s ≡ print_operand o rest
      → length s < f
      → parse_filter_expr rt f s ≡ some (tree_operand o, rest)
  unfolding parse_filter_expr
  parse_filter_expr-print o zero s rest w e h = absurd (omega arith)
  parse_filter_expr-print (compared c) (suc f) s rest w e h =
      rw
        (
          e,
          at_char-word c.field _ w.name w.some_name,
          at_not-print c (b' ' ∷ b'"' ∷ (c.body ++ b'"' ∷ rest)) w,
        )
        (parse_comparison-print c rest w)
  parse_filter_expr-print (negated o) (suc f) s rest w e h =
      let shorter : length (print_operand o rest) + 4 ≤ f =
        omega (arith, length-span_drop-le isspace s, ap (length {A = ℕ}) e) in
      step_negated f s (print_operand o rest) rest (tree_operand o) e (
        parse_filter_expr-print o f (b' ' ∷ print_operand o rest) rest w
          (skip_space-blank (print_operand o rest) ∙ skip_space-print_operand o rest w)
          (omega arith))
  parse_filter_expr-print (grouped o) (suc f) s rest w e h =
      let shorter : length (print_operand o (b')' ∷ rest)) + 1 ≤ f =
        omega (arith, length-span_drop-le isspace s, ap (length {A = ℕ}) e) in
      step_grouped f s (print_operand o (b')' ∷ rest)) rest (tree_operand o) e (
        parse_filter_expr-print o f (print_operand o (b')' ∷ rest)) (b')' ∷ rest) w
          (skip_space-print_operand o (b')' ∷ rest) w) (omega arith))

  parse_operators-print :
      (t : List (Bool × Operand)) (f : ℕ) (left : FilterNode R X)
      → All (λ p. IsWritableOperand p.1) t
      → length (print_others t) < f
      → parse_operators rt f left (print_others t) ≡ some (tree_others left t)
  parse_operators-print t zero left w h = absurd (omega arith)
  parse_operators-print [] (suc f) left w h = unfold parse_operators in refl
  parse_operators-print ((true, o) ∷ t) (suc f) left w h =
      let rest = print_others t in
      step_and f left (tree_operand o) (print_operand o rest) rest (
        parse_filter_expr-print o _ (b' ' ∷ print_operand o rest) rest w.0
          (skip_space-blank (print_operand o rest) ∙ skip_space-print_operand o rest w.0)
          (omega arith))
      ∙ parse_operators-print t f _ w.1 (omega (arith, length-print_operand o rest))
  parse_operators-print ((false, o) ∷ t) (suc f) left w h =
      let rest = print_others t in
      step_or f left (tree_operand o) (print_operand o rest) rest (
        parse_filter_expr-print o _ (b' ' ∷ print_operand o rest) rest w.0
          (skip_space-blank (print_operand o rest) ∙ skip_space-print_operand o rest w.0)
          (omega arith))
      ∙ parse_operators-print t f _ w.1 (omega (arith, length-print_operand o rest))

  -- The parser reads back a written chain, by AND and OR, of comparisons with quoted texts, each
  -- alone behind any number of NOTs and within any number of parentheses: it returns the tree in
  -- which AND and OR bind alike and to the left. A field is field characters, not empty, and does
  -- not begin, with its operator, with NOT or not; a text holds no quote and no backslash. No chain
  -- stands in parentheses.
  pub parse_filter_full-print :
      (c : Chain) → IsWritableChain c → parse_filter_full rt (print c) ≡ some (tree c)
  unfolding parse_filter_full
  parse_filter_full-print c w =
      rw
        (parse_filter_expr-print c.first (suc (length (print c))) (print c) (print_others c.others)
          w.0 (skip_space-print_operand c.first (print_others c.others) w.0) (omega arith))
        (parse_operators-print c.others _ _ w.1 (omega arith))
