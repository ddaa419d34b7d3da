-- ===== src/Filter.antt =====
-- src/core/filter_engine.c: the filter expressions and their evaluation against an event.
-- The parser is in Parse, the pushdown to BPF in Bpf; the other children prove.
pub mod Parse
pub mod Bpf
pub mod Semantics
mod Tests
use nblex.Base.{Bool, true, false, not, ◌&&◌, ◌||◌, Option, none, some, ◌≡◌, refl, if◌then◌else◌}
use nblex.Base.Int.{ℤ, eqb_ℤ, ltb_ℤ, leb_ℤ}
use nblex.Runtime.{
  JsonType, object, array, string, integer, real, true_type, false_type, null, Runtime,
}
use nblex.Text.{Bytes, str_eq}

-- filter_op_t
pub data FilterOp : Type 0 where
  op_eq op_ne op_lt op_le op_gt op_ge op_match op_nmatch op_in op_contains : FilterOp

-- `value_type` with the member of the union that it selects. `unset` is what calloc leaves;
-- `pattern` is JSON_STRING with no `string_val`, which the regex branch of the parser sets.
pub data FilterValue (R : Type 0) : Type 0 where
  unset pattern true_val false_val : FilterValue R
  string_val : Bytes → FilterValue R
  int_val : ℤ → FilterValue R
  float_val : R → FilterValue R

-- filter_expr_t
pub record FilterExpr (R X : Type 0) : Type 0 where
  pub field : Bytes
  pub op : FilterOp
  pub value : FilterValue R
  pub regex : Option X

-- filter_node_t
pub data FilterNode (R X : Type 0) : Type 0 where
  and_node or_node : FilterNode R X → FilterNode R X → FilterNode R X
  not_node : FilterNode R X → FilterNode R X
  expr_node : FilterExpr R X → FilterNode R X

abbrev pub is_object : JsonType → Bool
is_object object = true
is_object _ = false

module _ {J R X : Type 0} (rt : Runtime J R X) where
  -- the inner switch of FILTER_OP_EQ, on the type of the field's value
  unfoldable pub equal_value : JsonType → FilterValue R → J → Bool
  equal_value string (string_val s) v = str_eq (rt.string_value v) s
  equal_value integer (int_val n) v = eqb_ℤ (rt.integer_value v) n
  equal_value real (float_val r) v = rt.real_eq (rt.real_value v) r
  equal_value true_type true_val v = true
  equal_value false_type false_val v = true
  equal_value _ _ v = false

  relate_int : FilterOp → ℤ → ℤ → Bool
  relate_int op_lt a b = ltb_ℤ a b
  relate_int op_le a b = leb_ℤ a b
  relate_int op_gt a b = ltb_ℤ b a
  relate_int op_ge a b = leb_ℤ b a
  relate_int _ a b = false

  relate_real : FilterOp → R → R → Bool
  relate_real op_lt a b = rt.real_lt a b
  relate_real op_le a b = rt.real_le a b
  relate_real op_gt a b = rt.real_lt b a
  relate_real op_ge a b = rt.real_le b a
  relate_real _ a b = false

  -- FILTER_OP_LT to FILTER_OP_GE
  unfoldable pub relate_value : FilterOp → JsonType → FilterValue R → J → Bool
  unfolding relate_int relate_real
  relate_value op integer (int_val n) v = relate_int op (rt.integer_value v) n
  relate_value op integer (float_val r) v = relate_real op (rt.of_integer (rt.integer_value v)) r
  relate_value op real (int_val n) v = relate_real op (rt.real_value v) (rt.of_integer n)
  relate_value op real (float_val r) v = relate_real op (rt.real_value v) r
  relate_value op _ _ v = false

  -- FILTER_OP_MATCH and FILTER_OP_NMATCH; the flag is `expr->op == FILTER_OP_MATCH`
  unfoldable pub match_value : Bool → JsonType → Option X → J → Bool
  match_value positive string (some x) v =
      if positive then rt.matches x (rt.string_value v) else not (rt.matches x (rt.string_value v))
  match_value positive _ _ v = false

  unfoldable pub apply_op : FilterOp → JsonType → FilterExpr R X → J → Bool
  unfolding equal_value relate_value match_value
  apply_op op_eq t e v = equal_value t e.value v
  apply_op op_ne t e v = not (equal_value t e.value v)
  apply_op op_lt t e v = relate_value op_lt t e.value v
  apply_op op_le t e v = relate_value op_le t e.value v
  apply_op op_gt t e v = relate_value op_gt t e.value v
  apply_op op_ge t e v = relate_value op_ge t e.value v
  apply_op op_match t e v = match_value true t e.regex v
  apply_op op_nmatch t e v = match_value false t e.regex v
  apply_op op_in t e v = false
  apply_op op_contains t e v = false

  on_field : FilterExpr R X → Option J → Bool
  unfolding apply_op
  on_field e none = false
  on_field e (some v) = apply_op e.op (rt.typeof v) e v

  unfoldable pub evaluate_filter_expr : FilterExpr R X → J → Bool
  unfolding on_field
  evaluate_filter_expr e event =
      if is_object (rt.typeof event) then on_field e (rt.object_get event e.field) else false

  unfoldable pub evaluate_filter_node : FilterNode R X → J → Bool
  evaluate_filter_node (and_node l r) event =
      evaluate_filter_node l event && evaluate_filter_node r event
  evaluate_filter_node (or_node l r) event =
      evaluate_filter_node l event || evaluate_filter_node r event
  evaluate_filter_node (not_node n) event = not (evaluate_filter_node n event)
  evaluate_filter_node (expr_node e) event = evaluate_filter_expr e event

  -- the `root` of a filter may be NULL
  evaluate_root : Option (FilterNode R X) → J → Bool
  unfolding evaluate_filter_node
  evaluate_root none event = true
  evaluate_root (some n) event = evaluate_filter_node n event

  -- `filter` and `event->data` may be NULL; a filter_t is its root
  unfoldable pub nblex_filter_matches : Option (Option (FilterNode R X)) → Option J → Bool
  unfolding evaluate_root
  nblex_filter_matches none data' = false
  nblex_filter_matches (some root) none = false
  nblex_filter_matches (some root) (some event) = evaluate_root root event
