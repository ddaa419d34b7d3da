-- ===== src/Filter/Bpf.antt =====
-- src/core/filter_engine.c: extract_bpf_from_expr, extract_bpf_recursive, nblex_filter_to_bpf.
-- The buffers of 512 and 1024 bytes keep one byte for the NUL: snprintf cuts what does not fit.
pub mod Pushdown
pub mod Predicates
pub mod Accepts
use nblex.Base.{
  ℕ, Bool, true, false, List, [], ◌∷◌, ◌++◌, Option, none, some, ◌||◌, ◌-◌, take, if◌then◌else◌,
}
use nblex.Base.Int.{ℤ}
use nblex.Filter.{
  FilterOp, op_eq, FilterValue, string_val, int_val, float_val, FilterExpr, FilterNode, and_node,
  or_node, not_node, expr_node,
}
use nblex.Runtime.{Runtime}
use nblex.Text.{Bytes, codes, str_eq}
use nblex.Text.Number.{print_integer}

abbrev pub temp_size : ℕ
temp_size = 512

abbrev pub bpf_size : ℕ
bpf_size = 1024

-- snprintf into a buffer of `size` bytes
abbrev pub fit : ℕ → Bytes → Bytes
fit size s = take (size - 1) s

-- `bpf_buf` and `has_content`
pub record Buffer : Type 0 where
  pub text : Bytes
  pub has_content : Bool

-- `*has_content` decides between the first predicate and one more behind " and ".
unfoldable pub add_predicate : Buffer → Bytes → Buffer
add_predicate b p =
    if b.has_content
    then record b { text = fit bpf_size (b.text ++ (codes " and " ++ p)) }
    else record { text = fit bpf_size p; has_content = true }

module _ {J R X : Type 0} (rt : Runtime J R X) where
  port : Bytes → FilterOp → FilterValue R → Option Bytes
  port prefix op_eq (int_val n) = some (fit temp_size (prefix ++ print_integer n))
  port prefix op_eq (float_val r) =
      some (fit temp_size (prefix ++ print_integer (rt.real_to_int r)))
  port prefix op v = none

  host : Bytes → FilterOp → FilterValue R → Option Bytes
  host prefix op_eq (string_val s) = some (fit temp_size (prefix ++ s))
  host prefix op v = none

  protocol : FilterOp → FilterValue R → Option Bytes
  protocol op_eq (string_val s) =
      if str_eq s (codes "tcp") || str_eq s (codes "udp") || str_eq s (codes "icmp")
      then some (fit temp_size s)
      else none
  protocol op v = none

  unfoldable pub extract_bpf_from_expr : FilterExpr R X → Option Bytes
  unfolding port host protocol
  extract_bpf_from_expr e =
      if str_eq e.field (codes "network.dst_port")
      then port (codes "dst port ") e.op e.value
      else if str_eq e.field (codes "network.src_port")
      then port (codes "src port ") e.op e.value
      else if str_eq e.field (codes "network.protocol")
      then protocol e.op e.value
      else if str_eq e.field (codes "network.src_ip")
      then host (codes "src host ") e.op e.value
      else if str_eq e.field (codes "network.dst_ip")
      then host (codes "dst host ") e.op e.value
      else none

  add_extracted : Buffer → Option Bytes → Buffer
  unfolding add_predicate
  add_extracted b none = b
  add_extracted b (some p) = add_predicate b p

  unfoldable pub extract_bpf_recursive : FilterNode R X → Buffer → Buffer
  unfolding add_extracted
  extract_bpf_recursive (and_node l r) b = extract_bpf_recursive r (extract_bpf_recursive l b)
  extract_bpf_recursive (or_node l r) b = b
  extract_bpf_recursive (not_node n) b = b
  extract_bpf_recursive (expr_node e) b = add_extracted b (extract_bpf_from_expr e)

  -- A NULL filter or root, and a filter with nothing to push down, give NULL.
  unfoldable pub nblex_filter_to_bpf : Option (Option (FilterNode R X)) → Option Bytes
  unfolding extract_bpf_recursive
  nblex_filter_to_bpf none = none
  nblex_filter_to_bpf (some none) = none
  nblex_filter_to_bpf (some (some n)) =
      let b = extract_bpf_recursive n (record { text = []; has_content = false }) in
      if b.has_content then some b.text else none
