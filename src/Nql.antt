-- ===== src/Nql.antt =====
-- src/parsers/nql_parser.h: the parts of a query that its execution reads, and
-- src/core/nql_executor.c: what an event contributes to an aggregation. The buckets and windows
-- are in Bucket, the timer's flush in Flush, the aggregate query in Aggregate.
pub mod Bucket
pub mod Update
pub mod Flush
pub mod Aggregate
pub mod Correlate
mod Tests
use nblex.Base.{
  ℕ, zero, suc, ◌*◌, ◌-◌, ◌%◌, ◌^◌, ◌>>=◌, Bool, true, false, Option, none, some, List, [], ◌∷◌,
  ◌&&◌, length, take, drop, ◌==◌, if◌then◌else◌, map,
}
use nblex.Base.Int.{ℤ, pos}
use nblex.Filter.{is_object}
use nblex.Runtime.{JsonType, string, integer, real, Runtime}
use nblex.Text.{Bytes, codes, str_eq, has_char}
use nblex.Text.Number.{print_integer}
use nblex.Text.Scan.{span_take, span_drop}

-- nql_window_type_t
pub data WindowType : Type 0 where
  no_window tumbling sliding session : WindowType

-- nql_window_t
pub record Window : Type 0 where
  pub kind : WindowType
  pub size_ms : ℕ
  pub slide_ms : ℕ
  pub timeout_ms : ℕ

-- nql_agg_func_type_t
pub data AggType : Type 0 where
  agg_count agg_sum agg_avg agg_min agg_max agg_percentile agg_distinct : AggType

-- nql_agg_func_t
pub record AggFunc (R : Type 0) : Type 0 where
  pub kind : AggType
  pub field : Option Bytes
  pub percentile : R

-- What the executor reads of an nblex_event.
pub record Event (J : Type 0) : Type 0 where
  pub timestamp_ns : ℕ
  pub json : Option J

abbrev pub u64 : ℕ
u64 = 2 ^ 64

-- UINT64_MAX
abbrev pub max64 : ℕ
max64 = 2 ^ 64 - 1

-- `ms * 1000000ULL` in uint64_t
abbrev pub to_ns : ℕ → ℕ
to_ns ms = ms * 1_000_000 % u64

abbrev not_dot : ℕ → Bool
not_dot c = if c == b'.' then false else true

abbrev or_else {ℓ} : {A : Type ℓ} → Option A → Option A → Option A
or_else none o = o
or_else (some a) o = some a

module _ {J R X : Type 0} (rt : Runtime J R X) where
  -- json_get_path: the whole path as a key first, then the part before the first `.` and the rest
  -- within it. Each round drops at least the dot, so the length of the path is fuel enough.
  get_path : ℕ → J → Bytes → Option J
  get_path zero obj path = none
  get_path (suc f) obj path =
      let nested = rt.object_get obj (span_take not_dot path) >>= λ inner.
      get_path f inner (drop 1 (span_drop not_dot path)) in
      let beyond = if has_char b'.' path then nested else none in
      let found = or_else (rt.object_get obj path) beyond in
      if is_object (rt.typeof obj) then found else none

  unfoldable pub json_get_path : Option J → Bytes → Option J
  unfolding get_path
  json_get_path none path = none
  json_get_path (some obj) path = get_path (suc (length path)) obj path

  -- The text of a value as a group key.
  key_text : JsonType → J → Bytes
  key_text string v = rt.string_value v
  key_text integer v = print_integer (rt.integer_value v)
  key_text real v = take 63 (rt.print_real (rt.real_value v))
  key_text _ v = codes "null"

  key_of : Option J → Bytes
  unfolding key_text
  key_of none = codes "null"
  key_of (some v) = key_text (rt.typeof v) v

  -- extract_group_keys: no keys for an event with no JSON
  unfoldable pub extract_group_keys : List Bytes → Option J → List Bytes
  unfolding key_of
  extract_group_keys fields none = []
  extract_group_keys fields (some obj) = map (λ f. key_of (json_get_path (some obj) f)) fields

  abbrev pub real_zero : R
  real_zero = rt.of_integer (pos 0)

  number_of : JsonType → J → R
  number_of integer v = rt.of_integer (rt.integer_value v)
  number_of real v = rt.real_value v
  number_of _ v = real_zero

  number_or_zero : Option J → R
  unfolding number_of
  number_or_zero none = real_zero
  number_or_zero (some v) = number_of (rt.typeof v) v

  unfoldable pub get_numeric_value : Option J → Bytes → R
  unfolding number_or_zero
  get_numeric_value obj field = number_or_zero (json_get_path obj field)

-- compare_group_keys (bucket, event, count) == 0, where `count` is the number of the event's
-- keys: without keys every bucket compares equal.
unfoldable pub same_keys : List Bytes → List Bytes → Bool
same_keys _ [] = true
same_keys [] (j ∷ js) = false
same_keys (k ∷ ks) (j ∷ js) = str_eq k j && same_keys ks js
