-- ===== src/Nql/Flush.antt =====
-- src/core/nql_executor.c: create_agg_result_event and window_flush_cb.
pub mod Keeps
pub mod Results
use nblex.Base.{
  ℕ, zero, suc, ◌+◌, ◌-◌, ◌*◌, ◌/◌, ◌%◌, Bool, true, false, ◌&&◌, Option, none, some, List, [], ◌∷◌,
  ◌++◌, leb, ltb, ◌==◌, if◌then◌else◌, length, take,
}
use nblex.Base.Int.{ℤ, pos}
use nblex.Nql.{
  Window, WindowType, no_window, tumbling, sliding, session, AggType, agg_count, agg_sum, agg_avg,
  agg_min, agg_max, agg_percentile, agg_distinct, AggFunc, u64, to_ns, real_zero,
}
use nblex.Nql.Bucket.{Stats, Bucket, AggState, fresh_stats}
use nblex.Runtime.{Runtime}
use nblex.Text.{Bytes, codes}

-- json_integer and json_real
pub data Metric (R : Type 0) : Type 0 where
  whole : ℕ → Metric R
  decimal : R → Metric R

-- The JSON object of an aggregation result: what json_object_set_new puts in it, in order.
pub record AggResult (R : Type 0) : Type 0 where
  pub group : List (Bytes × Bytes)
  pub metrics : List (Bytes × Metric R)
  pub window : Option (ℕ × ℕ)

-- What the callback does to one bucket: the bucket that stays, if any, and the result it emits.
pub record Flushed (R : Type 0) : Type 0 where
  pub kept : Option (Bucket R)
  pub emitted : Option (AggResult R)

abbrev pub to_list {ℓ} : {A : Type ℓ} → Option A → List A
to_list none = []
to_list (some a) = a ∷ []

-- snprintf into `char name[256]`
abbrev name : Bytes → Bytes
name s = take 255 s

abbrev get_or {ℓ} : {A : Type ℓ} → List A → ℕ → A → A
get_or [] i d = d
get_or (x ∷ xs) zero d = x
get_or (x ∷ xs) (suc i) d = get_or xs i d

-- the group object: one key for each group-by field, as far as both go
abbrev zip_groups : List Bytes → List Bytes → List (Bytes × Bytes)
zip_groups (f ∷ fs) (k ∷ ks) = (f, k) ∷ zip_groups fs ks
zip_groups _ _ = []

module _ {J R X : Type 0} (rt : Runtime J R X) where
  -- The inner loop of the sort: `x` is values[j], and the result its final value and the values
  -- behind it.
  select : R → List R → R × List R
  select x [] = (x, [])
  select x (y ∷ ys) =
      let swapped = select y ys in
      let kept = select x ys in
      if rt.real_lt y x then (swapped.0, x ∷ swapped.1) else (kept.0, y ∷ kept.1)

  sort_values : ℕ → List R → List R
  unfolding select
  sort_values zero vs = vs
  sort_values (suc f) [] = []
  sort_values (suc f) (v ∷ vs) = let (m, rest) = select v vs in m ∷ sort_values f rest

  -- idx, at most size - 1
  rank : R → ℕ → ℕ
  rank percentile size =
      let idx =
        rt.real_to_size
          (rt.mul (rt.div percentile (rt.of_integer (pos 100))) (rt.of_integer (pos size))) in
      if leb size idx then size - 1 else idx

  unfoldable pub percentile_value : R → List R → R
  unfolding sort_values rank
  percentile_value percentile vs =
      get_or (sort_values (length vs) vs) (rank percentile (length vs)) (real_zero rt)

  percentile_metric : R → Bytes → List R → List (Bytes × Metric R)
  unfolding percentile_value
  percentile_metric p field [] = []
  percentile_metric p field (v ∷ vs) =
      (name (b'p' ∷ (rt.print_whole p ++ b'_' ∷ field)), decimal (percentile_value p (v ∷ vs))) ∷ []

  -- the switch on a function with a field
  field_metric : AggFunc R → Bytes → Stats R → AggType → List (Bytes × Metric R)
  unfolding percentile_metric
  field_metric f field s agg_count = (codes "count", whole s.count) ∷ []
  field_metric f field s agg_sum = (field, decimal s.sum) ∷ []
  field_metric f field s agg_avg =
      (
        name (codes "avg_" ++ field),
        decimal
            (if ltb 0 s.count then rt.div s.sum (rt.of_integer (pos s.count)) else real_zero rt),
      )
      ∷ []
  field_metric f field s agg_min = (name (codes "min_" ++ field), decimal s.min) ∷ []
  field_metric f field s agg_max = (name (codes "max_" ++ field), decimal s.max) ∷ []
  field_metric f field s agg_percentile = percentile_metric f.percentile field s.percentile_values
  field_metric f field s agg_distinct =
      (name (codes "distinct_" ++ field), whole s.distinct_count) ∷ []

  metric_of : AggFunc R → Stats R → AggType → Option Bytes → List (Bytes × Metric R)
  unfolding field_metric
  metric_of f s kind (some field) = field_metric f field s kind
  metric_of f s agg_count none = (codes "count", whole s.count) ∷ []
  metric_of f s _ none = []

  func_metric : AggFunc R → Stats R → List (Bytes × Metric R)
  unfolding metric_of
  func_metric f s = metric_of f s f.kind f.field

  unfoldable pub metrics_of : List (AggFunc R) → Stats R → List (Bytes × Metric R)
  unfolding func_metric
  metrics_of [] s = []
  metrics_of (f ∷ fs) s = func_metric f s ++ metrics_of fs s

  window_info : WindowType → Bucket R → Option (ℕ × ℕ)
  window_info no_window b = none
  window_info _ b = some (b.window_start_ns, b.window_end_ns)

  unfoldable pub create_agg_result_event : AggState R → Bucket R → AggResult R
  unfolding window_info
  create_agg_result_event st b = record {
    group = zip_groups st.group_by_fields b.group_keys;
    metrics = metrics_of st.funcs b.stats;
    window = window_info st.window.kind b;
  }

  -- the reset of a tumbling bucket, and its next window
  pub reset_bucket : ℕ → ℕ → Bucket R → Bucket R
  reset_bucket now size b =
      let passed = (now + u64 - b.window_start_ns) % u64 / size in
      let start = (b.window_start_ns + passed * size) % u64 in
      record b {
        stats = fresh_stats rt;
        window_start_ns = start;
        window_end_ns = (start + size) % u64;
      }

  abbrev pub emit_if : Bool → AggState R → Bucket R → Option (AggResult R)
  unfolding create_agg_result_event
  emit_if flush st b = if flush then some (create_agg_result_event st b) else none

  -- The result is made after the reset, from the bucket as it is then.
  flush_tumbling : ℕ → AggState R → Bucket R → Flushed R
  unfolding reset_bucket
  flush_tumbling now st b =
      let b' = reset_bucket now (to_ns st.window.size_ms) b in
      if leb b.window_end_ns now
      then record { kept = some b'; emitted = emit_if (ltb 0 b.stats.count) st b' }
      else record { kept = some b; emitted = none }

  flush_sliding : ℕ → AggState R → Bucket R → Flushed R
  flush_sliding now st b =
      if leb b.window_end_ns now
      then record { kept = none; emitted = emit_if (ltb 0 b.stats.count) st b }
      else record { kept = some b; emitted = none }

  abbrev pub is_idle : ℕ → Window → Bucket R → Bool
  is_idle now w b =
      ltb 0 b.stats.count && leb (to_ns w.timeout_ms) ((now + u64 - b.last_event_ns) % u64)

  flush_session : ℕ → AggState R → Bucket R → Flushed R
  flush_session now st b =
      if is_idle now st.window b
      then record { kept = none; emitted = emit_if true st b }
      else record { kept = some b; emitted = none }

  unfoldable pub flush_of_kind : WindowType → ℕ → AggState R → Bucket R → Flushed R
  unfolding flush_tumbling flush_sliding flush_session
  flush_of_kind no_window now st b = record { kept = some b; emitted = none }
  flush_of_kind tumbling now st b = flush_tumbling now st b
  flush_of_kind sliding now st b = flush_sliding now st b
  flush_of_kind session now st b = flush_session now st b

  unfoldable pub flush_bucket : ℕ → AggState R → Bucket R → Flushed R
  unfolding flush_of_kind
  flush_bucket now st b = flush_of_kind st.window.kind now st b

  unfoldable pub kept_of : ℕ → AggState R → List (Bucket R) → List (Bucket R)
  kept_of now st [] = []
  kept_of now st (b ∷ bs) = to_list (flush_bucket now st b).kept ++ kept_of now st bs

  unfoldable pub emitted_of : ℕ → AggState R → List (Bucket R) → List (AggResult R)
  emitted_of now st [] = []
  emitted_of now st (b ∷ bs) = to_list (flush_bucket now st b).emitted ++ emitted_of now st bs

  -- window_flush_cb at the time `now`: the state, and the results emitted in order. A bucket that
  -- is removed is taken off `bucket_count`.
  unfoldable pub window_flush_cb : ℕ → AggState R → AggState R × List (AggResult R)
  unfolding kept_of emitted_of
  window_flush_cb now st =
      let kept = kept_of now st st.buckets in
      (
        record st {
          buckets = kept;
          bucket_count = st.bucket_count - (length st.buckets - length kept);
          last_flush_ns = now;
        },
        emitted_of now st st.buckets,
      )
