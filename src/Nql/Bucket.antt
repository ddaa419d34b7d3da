-- ===== src/Nql/Bucket.antt =====
-- src/core/nql_executor.c: the buckets of an aggregation, and the windows that an event falls in
-- (find_bucket_by_window, create_bucket_with_window, get_or_create_buckets_for_event). A bucket
-- is named by a number in place of its address; `next_id` is the next one that is free.
pub mod Invariant
pub mod Keeps
pub mod Landing
pub mod Windows
use nblex.Base.{
  ℕ, zero, suc, ◌+◌, ◌-◌, ◌*◌, ◌/◌, ◌%◌, Bool, true, false, ◌&&◌, Option, none, some, List, [], ◌∷◌,
  ◌++◌, leb, ltb, ◌==◌, if◌then◌else◌, ◌>>=◌, ◌≡◌, refl,
}
use nblex.Base.Int.{ℤ, pos}
use nblex.Nql.{
  WindowType, Window, no_window, tumbling, sliding, session, AggFunc, u64, max64, to_ns, same_keys,
  real_zero,
}
use nblex.Runtime.{Runtime}
use nblex.Text.{Bytes}

-- The members of nql_agg_bucket_t that a flush resets.
pub record Stats (R : Type 0) : Type 0 where
  pub count : ℕ
  pub sum : R
  pub min : R
  pub max : R
  pub sum_squares : R
  pub distinct_count : ℕ
  pub distinct_values : List R
  pub percentile_values : List R

-- nql_agg_bucket_t
pub record Bucket (R : Type 0) : Type 0 where
  pub id : ℕ
  pub group_keys : List Bytes
  pub stats : Stats R
  pub window_start_ns : ℕ
  pub window_end_ns : ℕ
  pub last_event_ns : ℕ

-- nql_agg_state_t
pub record AggState (R : Type 0) : Type 0 where
  pub window : Window
  pub funcs : List (AggFunc R)
  pub group_by_fields : List Bytes
  pub buckets : List (Bucket R)
  pub bucket_count : ℕ
  pub next_id : ℕ
  pub last_flush_ns : ℕ

-- the id of the first bucket that passes a test
unfoldable pub find_id : {R : Type 0} → (Bucket R → Bool) → List (Bucket R) → Option ℕ
find_id p [] = none
find_id p (b ∷ bs) = let later = find_id p bs in if p b then some b.id else later

-- the bucket that a pointer stands for
unfoldable pub bucket_at : {R : Type 0} → ℕ → List (Bucket R) → Option (Bucket R)
bucket_at i [] = none
bucket_at i (b ∷ bs) = let later = bucket_at i bs in if b.id == i then some b else later

abbrev pub max_sliding_windows : ℕ
max_sliding_windows = 1000

module _ {J R X : Type 0} (rt : Runtime J R X) where
  abbrev pub fresh_stats : Stats R
  fresh_stats = record {
    count = 0;
    sum = real_zero rt;
    min = rt.infinity;
    max = rt.neg_infinity;
    sum_squares = real_zero rt;
    distinct_count = 0;
    distinct_values = [];
    percentile_values = [];
  }

  -- create_bucket_with_window: the new bucket stands first in the list
  unfoldable pub create_bucket : AggState R → List Bytes → ℕ → ℕ → AggState R
  create_bucket st keys start end' = record st {
    buckets =
        record {
          id = st.next_id;
          group_keys = keys;
          stats = fresh_stats;
          window_start_ns = start;
          window_end_ns = end';
          last_event_ns = start;
        }
        ∷ st.buckets;
    bucket_count = st.bucket_count + 1;
    next_id = st.next_id + 1;
  }

  -- the bucket that a search found, or a new one
  unfoldable pub found_or_new : Option ℕ → AggState R → List Bytes → ℕ → ℕ → AggState R × ℕ
  unfolding create_bucket
  found_or_new (some i) st keys start end' = (st, i)
  found_or_new none st keys start end' = (create_bucket st keys start end', st.next_id)

  -- The tests of the three searches.
  abbrev pub is_unwindowed : List Bytes → Bucket R → Bool
  is_unwindowed keys b =
      same_keys b.group_keys keys && (b.window_start_ns == 0 && b.window_end_ns == max64)

  abbrev pub is_at_window : List Bytes → ℕ → Bucket R → Bool
  is_at_window keys start b = same_keys b.group_keys keys && b.window_start_ns == start

  abbrev pub is_open_session : List Bytes → ℕ → ℕ → Bucket R → Bool
  is_open_session keys ts timeout b =
      same_keys b.group_keys keys
      && (b.window_end_ns == max64
          && (leb b.last_event_ns ts && ltb (ts - b.last_event_ns) timeout))

  unfoldable pub find_bucket_by_window : AggState R → List Bytes → ℕ → Option ℕ
  find_bucket_by_window st keys start = find_id (is_at_window keys start) st.buckets

  unwindowed : AggState R → List Bytes → AggState R × ℕ
  unfolding find_id found_or_new
  unwindowed st keys = found_or_new (find_id (is_unwindowed keys) st.buckets) st keys 0 max64

  in_session : AggState R → List Bytes → ℕ → AggState R × ℕ
  unfolding find_id found_or_new
  in_session st keys ts =
      found_or_new (find_id (is_open_session keys ts (to_ns st.window.timeout_ms)) st.buckets) st
        keys ts max64

  at_window : AggState R → List Bytes → ℕ → ℕ → AggState R × ℕ
  unfolding find_bucket_by_window found_or_new
  at_window st keys start size =
      found_or_new (find_bucket_by_window st keys start) st keys start ((start + size) % u64)

  -- The loop over the windows of a sliding query: the rounds left, the windows found so far.
  sliding_loop : ℕ → AggState R → List Bytes → ℕ → ℕ → ℕ → ℕ → List ℕ → AggState R × List ℕ
  unfolding at_window
  sliding_loop zero st keys ts size slide cur ids = (st, ids)
  sliding_loop (suc rounds) st keys ts size slide cur ids =
      let (st', i) = at_window st keys cur size in
      let rest = sliding_loop rounds st' keys ts size slide ((cur + slide) % u64) (ids ++ i ∷ []) in
      if leb cur ts && ltb ts ((cur + size) % u64) then rest else (st, ids)

  abbrev pub slide_of : Window → ℕ
  slide_of w = if ltb 0 w.slide_ms then to_ns w.slide_ms else to_ns w.size_ms

  abbrev pub earliest_start : ℕ → ℕ → ℕ → ℕ
  earliest_start ts size slide = (if leb size ts then ts - size else 0) / slide * slide

  in_sliding : AggState R → List Bytes → ℕ → ℕ → ℕ → AggState R × List ℕ
  unfolding sliding_loop
  in_sliding st keys ts size slide =
      let first = earliest_start ts size slide in
      let windows = (ts / slide * slide - first) / slide + 1 in
      let rounds = if ltb max_sliding_windows windows then max_sliding_windows else windows in
      sliding_loop rounds st keys ts size slide first []

  abbrev single : AggState R × ℕ → Option (AggState R × List ℕ)
  single (st, i) = some (st, i ∷ [])

  -- The branch of a window type.
  unfoldable pub buckets_of_kind :
      WindowType → AggState R → List Bytes → ℕ → Option (AggState R × List ℕ)
  unfolding unwindowed in_session at_window in_sliding
  buckets_of_kind no_window st keys ts = single (unwindowed st keys)
  buckets_of_kind session st keys ts = single (in_session st keys ts)
  buckets_of_kind tumbling st keys ts =
      let size = to_ns st.window.size_ms in
      if size == 0 then none else single (at_window st keys (ts / size * size) size)
  buckets_of_kind sliding st keys ts =
      let slide = slide_of st.window in
      if slide == 0 then none else some (in_sliding st keys ts (to_ns st.window.size_ms) slide)

  -- get_or_create_buckets_for_event: the state and the buckets of the event, in order. `none` is
  -- a division by zero, where the process dies.
  unfoldable pub get_or_create_buckets : AggState R → List Bytes → ℕ → Option (AggState R × List ℕ)
  unfolding buckets_of_kind
  get_or_create_buckets st keys ts = buckets_of_kind st.window.kind st keys ts
