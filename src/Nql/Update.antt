-- ===== src/Nql/Update.antt =====
-- src/core/nql_executor.c: update_bucket_with_event.
pub mod Count
use nblex.Base.{
  ℕ, ◌+◌, ◌%◌, Bool, true, false, ◌&&◌, ◌||◌, Option, none, some, List, [], ◌∷◌, ◌++◌, ltb, ◌==◌,
  if◌then◌else◌,
}
use nblex.Nql.{
  WindowType, session, AggType, agg_count, agg_sum, agg_avg, agg_min, agg_max, agg_percentile,
  agg_distinct, AggFunc, Event, u64, get_numeric_value,
}
use nblex.Nql.Bucket.{Stats, Bucket, AggState}
use nblex.Runtime.{Runtime}
use nblex.Text.{Bytes}

-- The clock stands in for an event with no timestamp.
abbrev pub timestamp_or : {J : Type 0} → ℕ → Event J → ℕ
timestamp_or now e = if e.timestamp_ns == 0 then now else e.timestamp_ns

module _ {J R X : Type 0} (rt : Runtime J R X) where
  abbrev smaller : R → R → R
  smaller v m = if rt.real_lt v m then v else m

  abbrev larger : R → R → R
  larger v m = if rt.real_lt m v then v else m

  -- `fabs (existing - value) < 1e-9` for some value kept before
  is_known : R → List R → Bool
  is_known v [] = false
  is_known v (x ∷ xs) = rt.close x v || is_known v xs

  add_distinct : Stats R → R → Stats R
  unfolding is_known
  add_distinct s v = if is_known v s.distinct_values then s else record s {
    distinct_values = s.distinct_values ++ v ∷ [];
    distinct_count = s.distinct_count + 1;
  }

  -- the switch on the function, with the numeric value of its field
  apply_value : AggType → Stats R → R → Stats R
  unfolding add_distinct
  apply_value agg_count s v = s
  apply_value agg_sum s v = record s {
    sum = rt.add s.sum v;
    sum_squares = rt.add s.sum_squares (rt.mul v v);
    min = smaller v s.min;
    max = larger v s.max;
  }
  apply_value agg_avg s v = record s {
    sum = rt.add s.sum v;
    sum_squares = rt.add s.sum_squares (rt.mul v v);
    min = smaller v s.min;
    max = larger v s.max;
  }
  apply_value agg_min s v = record s { min = smaller v s.min }
  apply_value agg_max s v = record s { max = larger v s.max }
  apply_value agg_percentile s v = record s { percentile_values = s.percentile_values ++ v ∷ [] }
  apply_value agg_distinct s v = add_distinct s v

  apply_field : AggType → Option Bytes → Option J → Stats R → Stats R
  unfolding apply_value
  apply_field kind none obj s = s
  apply_field kind (some field) obj s = apply_value kind s (get_numeric_value rt obj field)

  apply_func : AggFunc R → Event J → Stats R → Stats R
  unfolding apply_field
  apply_func f e s = apply_field f.kind f.field e.json s

  unfoldable pub apply_funcs : List (AggFunc R) → Event J → Stats R → Stats R
  unfolding apply_func
  apply_funcs [] e s = s
  apply_funcs (f ∷ fs) e s = apply_funcs fs e (apply_func f e s)

  abbrev later : ℕ → ℕ → ℕ
  later ts last = if ltb last ts then ts else last

  -- only session windows keep the time of the last event
  seen_at : WindowType → ℕ → ℕ → ℕ
  seen_at session ts last = later ts last
  seen_at _ ts last = last

  -- One bucket; `now` is nblex_timestamp_now ().
  unfoldable pub update_bucket_with_event : ℕ → AggState R → Event J → Bucket R → Bucket R
  unfolding apply_funcs seen_at
  update_bucket_with_event now st e b = record b {
    stats = apply_funcs st.funcs e (record b.stats { count = (b.stats.count + 1) % u64 });
    last_event_ns = seen_at st.window.kind (timestamp_or now e) b.last_event_ns;
  }

module _ {R : Type 0} where
  -- the write through the pointer to one bucket of the list
  unfoldable pub update_at : (Bucket R → Bucket R) → ℕ → List (Bucket R) → List (Bucket R)
  update_at f i [] = []
  update_at f i (b ∷ bs) = (if b.id == i then f b else b) ∷ update_at f i bs

  unfoldable pub update_all : (Bucket R → Bucket R) → List ℕ → List (Bucket R) → List (Bucket R)
  unfolding update_at
  update_all f [] bs = bs
  update_all f (i ∷ is) bs = update_all f is (update_at f i bs)
