-- ===== src/Nql/Flush/Results.antt =====
-- What the flush callback reports for each kind of window.
use nblex.Base.{
  ℕ, Bool, true, false, List, [], ◌∷◌, ◌++◌, ◌≡◌, refl, All, All-append, keep, leb, ltb, Bool-cases,
  inl, inr, map, not, ap, ◌∙◌, ◌≤◌, ◌<◌, ◌+◌, ◌-◌, ◌%◌, ◌&&◌, ◌==◌, arith,
}
use nblex.Nql.{u64, WindowType, tumbling, session, to_ns}
use nblex.Nql.Bucket.{Bucket, AggState, fresh_stats}
use nblex.Nql.Flush.{
  flush_bucket, flush_of_kind, kept_of, emitted_of, window_flush_cb, to_list, is_idle, metrics_of,
  create_agg_result_event, emit_if, reset_bucket,
}
use nblex.Runtime.{Runtime}

module _ {J R X : Type 0} (rt : Runtime J R X) where
  emit_if-metrics :
      (flush : Bool) (st : AggState R) (b : Bucket R)
      → All (λ r. r.metrics ≡ metrics_of rt st.funcs b.stats) (to_list (emit_if rt flush st b))
  unfolding create_agg_result_event
  emit_if-metrics true st b = (refl, tt)
  emit_if-metrics false st b = tt

  tumbling_bucket :
      (now : ℕ) (st : AggState R) (b : Bucket R)
      → All
          (λ r. r.metrics ≡ metrics_of rt st.funcs (fresh_stats rt))
          (to_list (flush_of_kind rt tumbling now st b).emitted)
  unfolding flush_of_kind
  tumbling_bucket now st b = elim (Bool-cases (leb b.window_end_ns now)) [
    | inl e ↦
        rw e (
          emit_if-metrics (ltb 0 b.stats.count) st
            (reset_bucket rt now (to_ns st.window.size_ms) b))
    | inr e ↦ rw e tt
  ]

  tumbling_kind :
      (k : WindowType) (now : ℕ) (st : AggState R) (b : Bucket R)
      → k ≡ tumbling
      → All
          (λ r. r.metrics ≡ metrics_of rt st.funcs (fresh_stats rt))
          (to_list (flush_of_kind rt k now st b).emitted)
  tumbling_kind k now st b e = rw e (tumbling_bucket now st b)

  tumbling_buckets :
      (now : ℕ) (st : AggState R) (bs : List (Bucket R))
      → st.window.kind ≡ tumbling
      → All (λ r. r.metrics ≡ metrics_of rt st.funcs (fresh_stats rt)) (emitted_of rt now st bs)
  unfolding emitted_of flush_bucket
  tumbling_buckets now st [] k = tt
  tumbling_buckets now st (b ∷ bs) k =
      All-append _ (to_list (flush_of_kind rt st.window.kind now st b).emitted) _
        (tumbling_kind st.window.kind now st b k) (tumbling_buckets now st bs k)

  -- The flush of a tumbling window reports, for every bucket, the metrics of an empty bucket: the
  -- counts and sums of the window's events are reset before the result is made from them.
  pub tumbling_flush_reports_nothing :
      (now : ℕ) (st : AggState R)
      → st.window.kind ≡ tumbling
      → All (λ r. r.metrics ≡ metrics_of rt st.funcs (fresh_stats rt)) (window_flush_cb rt now st).1
  unfolding window_flush_cb
  tumbling_flush_reports_nothing now st k = tumbling_buckets now st st.buckets k

  session_kept :
      (k : WindowType) (now : ℕ) (st : AggState R) (b : Bucket R) (bs : List (Bucket R))
      → k ≡ session
      → to_list (flush_of_kind rt k now st b).kept
          ++ keep (λ b. not (is_idle rt now st.window b)) bs
        ≡ keep (λ b. not (is_idle rt now st.window b)) (b ∷ bs)
  unfolding flush_of_kind
  session_kept k now st b bs q = elim (Bool-cases (is_idle rt now st.window b)) [
    | inl e ↦ rw (q, e) refl
    | inr e ↦ rw (q, e) refl
  ]

  session_emitted :
      (k : WindowType) (now : ℕ) (st : AggState R) (b : Bucket R) (bs : List (Bucket R))
      → k ≡ session
      → to_list (flush_of_kind rt k now st b).emitted
          ++ map (create_agg_result_event rt st) (keep (is_idle rt now st.window) bs)
        ≡ map (create_agg_result_event rt st) (keep (is_idle rt now st.window) (b ∷ bs))
  unfolding flush_of_kind emit_if
  session_emitted k now st b bs q = elim (Bool-cases (is_idle rt now st.window b)) [
    | inl e ↦ rw (q, e) refl
    | inr e ↦ rw (q, e) refl
  ]

  kept_of-session :
      (now : ℕ) (st : AggState R) (bs : List (Bucket R))
      → st.window.kind ≡ session
      → kept_of rt now st bs ≡ keep (λ b. not (is_idle rt now st.window b)) bs
  unfolding kept_of flush_bucket
  kept_of-session now st [] k = refl
  kept_of-session now st (b ∷ bs) k =
      rw (kept_of-session now st bs k) (session_kept st.window.kind now st b bs k)

  emitted_of-session :
      (now : ℕ) (st : AggState R) (bs : List (Bucket R))
      → st.window.kind ≡ session
      → emitted_of rt now st bs
        ≡ map (create_agg_result_event rt st) (keep (is_idle rt now st.window) bs)
  unfolding emitted_of flush_bucket
  emitted_of-session now st [] k = refl
  emitted_of-session now st (b ∷ bs) k =
      rw (emitted_of-session now st bs k) (session_emitted st.window.kind now st b bs k)

  idle_test :
      (c t l now : ℕ) → l ≤ now → ltb 0 c && leb t (now - l) ≡ (not (c == 0) && leb (l + t) now)
  idle_test c t l now h = ground arith

  -- a bucket has events, the last of them at least the timeout ago
  abbrev pub was_idle : ℕ → AggState R → Bucket R → Bool
  was_idle now st b =
      not (b.stats.count == 0) && leb (b.last_event_ns + to_ns st.window.timeout_ms) now

  is_idle-was_idle :
      (now : ℕ) (st : AggState R) (b : Bucket R)
      → now < u64
      → b.last_event_ns ≤ now
      → is_idle rt now st.window b ≡ was_idle now st b
  is_idle-was_idle now st b h k =
      let since : (now + u64 - b.last_event_ns) % u64 ≡ now - b.last_event_ns = omega arith in
      rw since (idle_test b.stats.count (to_ns st.window.timeout_ms) b.last_event_ns now k)

  keep_same :
      (now : ℕ) (st : AggState R) (bs : List (Bucket R))
      → now < u64
      → All (λ b. b.last_event_ns ≤ now) bs
      → (keep (is_idle rt now st.window) bs ≡ keep (was_idle now st) bs)
        × (keep (λ b. not (is_idle rt now st.window b)) bs ≡ keep (λ b. not (was_idle now st b)) bs)
  keep_same now st [] h k = (refl, refl)
  keep_same now st (b ∷ bs) h k =
      let (idle, busy) = keep_same now st bs h k.1 in
      rw (is_idle-was_idle now st b h k.0, idle, busy) (refl, refl)

  -- For session windows a flush removes the buckets that have events, the last of them at least the
  -- timeout ago, reports each of them once, in order and as it was, and leaves the others as they
  -- are, when no event is later than the flush.
  pub session_flush :
      (now : ℕ) (st : AggState R)
      → st.window.kind ≡ session
      → now < u64
      → All (λ b. b.last_event_ns ≤ now) st.buckets
      → ((window_flush_cb rt now st).0.buckets ≡ keep (λ b. not (was_idle now st b)) st.buckets)
        × ((window_flush_cb rt now st).1
            ≡ map (create_agg_result_event rt st) (keep (was_idle now st) st.buckets))
  unfolding window_flush_cb
  session_flush now st k h seen =
      let (idle, busy) = keep_same now st st.buckets h seen in
      (
        kept_of-session now st st.buckets k ∙ busy,
        emitted_of-session now st st.buckets k ∙ ap (map (create_agg_result_event rt st)) idle,
      )
