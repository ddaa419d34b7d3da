-- ===== src/Filter/Parse/Print.antt =====
-- The filter language as a grammar: comparisons with quoted texts, negation, parentheses, and
-- chains of AND and OR. `print` writes a filter, `tree` is the node that it stands for.
use nblex.Base.{Bool, true, false, List, [], ◌∷◌, ◌++◌, none, ◌≡◌, ◌≢◌, All}
use nblex.Filter.{
  FilterOp, op_eq, op_ne, op_lt, op_le, op_gt, op_ge, op_match, op_nmatch, op_in, op_contains,
  string_val, FilterExpr, FilterNode, and_node, or_node, not_node, expr_node,
}
use nblex.Filter.Parse.{is_field_char, at_not}
use nblex.Text.{Bytes, codes}
use nblex.Text.Quoted.{IsPlain}

abbrev pub op_text : FilterOp → Bytes
op_text op_eq = codes "=="
op_text op_ne = codes "!="
op_text op_lt = codes "<"
op_text op_le = codes "<="
op_text op_gt = codes ">"
op_text op_ge = codes ">="
op_text op_match = codes "=~"
op_text op_nmatch = codes "!~"
op_text op_in = codes "in"
op_text op_contains = codes "contains"

-- field op "body"
pub record Comparison : Type 0 where
  pub field : Bytes
  pub op : FilterOp
  pub body : Bytes

-- The name is one that the parser does not take for a NOT; the body has no quote and no backslash.
pub record IsWritable (c : Comparison) : Type 0 where
  pub name : All (λ x. is_field_char x ≡ true) c.field
  pub some_name : c.field ≢ []
  pub no_not : at_not (c.field ++ b' ' ∷ op_text c.op) ≡ false
  pub plain : All IsPlain c.body

pub data Operand : Type 0 where
  compared : Comparison → Operand
  negated grouped : Operand → Operand

-- A first operand, and the others with `true` for AND and `false` for OR in front.
pub record Chain : Type 0 where
  pub first : Operand
  pub others : List (Bool × Operand)

-- Each printer takes the text that follows.
abbrev pub print_comparison : Comparison → Bytes → Bytes
print_comparison c rest = c.field ++ b' ' ∷ (op_text c.op ++ b' ' ∷ b'"' ∷ (c.body ++ b'"' ∷ rest))

abbrev pub print_operand : Operand → Bytes → Bytes
print_operand (compared c) rest = print_comparison c rest
print_operand (negated o) rest = codes "NOT " ++ print_operand o rest
print_operand (grouped o) rest = b'(' ∷ print_operand o (b')' ∷ rest)

abbrev pub print_others : List (Bool × Operand) → Bytes
print_others [] = []
print_others ((true, o) ∷ t) = codes " AND " ++ print_operand o (print_others t)
print_others ((false, o) ∷ t) = codes " OR " ++ print_operand o (print_others t)

abbrev pub print : Chain → Bytes
print c = print_operand c.first (print_others c.others)

module _ {R X : Type 0} where
  -- A quoted pattern behind =~ is not compiled.
  abbrev pub expr_of : Comparison → FilterExpr R X
  expr_of c = record { field = c.field; op = c.op; value = string_val c.body; regex = none }

  abbrev pub tree_operand : Operand → FilterNode R X
  tree_operand (compared c) = expr_node (expr_of c)
  tree_operand (negated o) = not_node (tree_operand o)
  tree_operand (grouped o) = tree_operand o

  -- AND and OR bind alike, to the left.
  abbrev pub tree_others : FilterNode R X → List (Bool × Operand) → FilterNode R X
  tree_others left [] = left
  tree_others left ((true, o) ∷ t) = tree_others (and_node left (tree_operand o)) t
  tree_others left ((false, o) ∷ t) = tree_others (or_node left (tree_operand o)) t

  abbrev pub tree : Chain → FilterNode R X
  tree c = tree_others (tree_operand c.first) c.others

abbrev pub IsWritableOperand : Operand → Type 0
IsWritableOperand (compared c) = IsWritable c
IsWritableOperand (negated o) = IsWritableOperand o
IsWritableOperand (grouped o) = IsWritableOperand o

abbrev pub IsWritableChain : Chain → Type 0
IsWritableChain c = IsWritableOperand c.first × All (λ t. IsWritableOperand t.1) c.others
