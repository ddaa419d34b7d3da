-- ===== src/Filter/Semantics.antt =====
-- How the operators of src/core/filter_engine.c relate to one another on every event.
use nblex.Base.{Bool, true, false, not, ◌&&◌, ◌||◌, Option, none, some, ◌≡◌, arith, if◌then◌else◌}
use nblex.Base.Int.{ℤ}
use nblex.Filter.{
  FilterOp, op_eq, op_ne, op_lt, op_le, op_gt, op_ge, FilterExpr, int_val, is_object,
  evaluate_filter_expr,
}
use nblex.Runtime.{object, integer, Runtime}

module _ {R X : Type 0} where
  abbrev pub with_op : FilterOp → FilterExpr R X → FilterExpr R X
  with_op op e = record e { op = op }

abbrev is_some {ℓ} : {A : Type ℓ} → Option A → Bool
is_some none = false
is_some (some a) = true

module _ {J R X : Type 0} (rt : Runtime J R X) where
  -- the event is an object that has the field
  abbrev pub has_field : FilterExpr R X → J → Bool
  has_field e event =
      if is_object (rt.typeof event) then is_some (rt.object_get event e.field) else false

  -- != is the negation of == where the field is there, and is false where it is not.
  pub evaluate-op_ne :
      (e : FilterExpr R X) (event : J)
      → evaluate_filter_expr rt (with_op op_ne e) event
        ≡ (has_field e event && not (evaluate_filter_expr rt (with_op op_eq e) event))
  unfolding evaluate_filter_expr
  evaluate-op_ne e event = ground arith

  -- On an integer field and an integer literal, < is the negation of >=, > that of <=, and <= is
  -- < or ==.
  pub evaluate-integers :
      (e : FilterExpr R X) (event v : J) (n : ℤ)
      → rt.typeof event ≡ object
      → rt.object_get event e.field ≡ some v
      → rt.typeof v ≡ integer
      → e.value ≡ int_val n
      → (evaluate_filter_expr rt (with_op op_lt e) event
          ≡ not (evaluate_filter_expr rt (with_op op_ge e) event))
        × (evaluate_filter_expr rt (with_op op_gt e) event
            ≡ not (evaluate_filter_expr rt (with_op op_le e) event))
        × (evaluate_filter_expr rt (with_op op_le e) event ≡ (
            evaluate_filter_expr rt (with_op op_lt e) event
            || evaluate_filter_expr rt (with_op op_eq e) event))
  unfolding evaluate_filter_expr
  evaluate-integers e event v n o g t l = ground arith
