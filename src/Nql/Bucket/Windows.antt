-- ===== src/Nql/Bucket/Windows.antt =====
-- Which windows an event falls in, for each kind of window.
use nblex.Base.{
  ℕ, zero, suc, ◌+◌, ◌-◌, ◌*◌, ◌/◌, ◌%◌, ◌≤◌, ◌<◌, true, false, Option, some, List, [], ◌∷◌, ◌≡◌,
  refl, sym, ◌∙◌, arith, All, ◌==◌, leb, ltb, Bool-cases, inl, inr,
}
use mathlib.Core.Path.{subst}
use native.Mathlib.Nat.{div-mul-le_self, lt-div-mul-add, mod-eq_of_lt}
use nblex.Nql.{tumbling, sliding, session, u64, to_ns, same_keys}
use nblex.Nql.Bucket.{
  Bucket, AggState, bucket_at, buckets_of_kind, get_or_create_buckets, in_sliding, sliding_loop,
  slide_of, earliest_start,
}
use nblex.Nql.Bucket.Invariant.{FitsKind, FitsWindow, IsWellFormed, All-bucket_at}
use nblex.Nql.Bucket.Keeps.{Kept, get_or_create_buckets-Kept}
use nblex.Nql.Bucket.Landing.{IsSingleKind, is_of_kind, buckets_of_kind-OneBucket}
use nblex.Runtime.{Runtime}
use nblex.Text.{Bytes}

module _ {J R X : Type 0} (rt : Runtime J R X) where
  -- The event's only bucket, and what holds of it.
  abbrev pub FallsIn : (Bucket R → Type 0) → Option (AggState R × List ℕ) → Type 0
  FallsIn P o =
      (st : AggState R) × (i : ℕ) × (b : Bucket R) × (o ≡ some (st, i ∷ []))
      × (bucket_at i st.buckets ≡ some b)
      × P b

  pub one_bucket :
      (st : AggState R) (keys : List Bytes) (ts : ℕ)
      → IsSingleKind rt st.window.kind st.window
      → IsWellFormed st
      → FallsIn
          (λ b. (is_of_kind rt st.window.kind st.window keys ts b ≡ true) × FitsWindow st.window b)
          (get_or_create_buckets rt st keys ts)
  unfolding get_or_create_buckets
  one_bucket st keys ts s wf =
      let r = buckets_of_kind-OneBucket rt st.window.kind st keys ts s wf in
      let kept : Kept rt st.window (some (r.after, r.index ∷ [])) =
        subst (Kept rt st.window) r.returned (get_or_create_buckets-Kept rt st keys ts wf) in
      let all : All (FitsWindow st.window) r.after.buckets =
        subst (λ w. All (FitsWindow w) r.after.buckets) kept.1 kept.0.windows in
      (
        r.after,
        r.index,
        r.landed.bucket,
        r.returned,
        r.landed.found,
        (
          r.landed.passes,
          All-bucket_at (FitsWindow st.window) r.after.buckets r.index r.landed.bucket all
              r.landed.found,
        ),
      )

  -- A tumbling event has one bucket: one of its group, whose window starts at a multiple of the
  -- size, holds the event's time and ends one size after its start.
  pub tumbling_lands :
      (st : AggState R) (keys : List Bytes) (ts size : ℕ)
      → IsWellFormed st
      → st.window.kind ≡ tumbling
      → to_ns st.window.size_ms ≡ size
      → 0 < size
      → ts + size < u64
      → FallsIn
          (λ b.
            (same_keys b.group_keys keys ≡ true)
            × (b.window_start_ns ≡ ts / size * size)
            × (b.window_start_ns ≤ ts)
            × (ts < b.window_end_ns)
            × (b.window_end_ns ≡ b.window_start_ns + size))
          (get_or_create_buckets rt st keys ts)
  tumbling_lands st keys ts size wf k z pos_size small =
      let positive : 0 < to_ns st.window.size_ms = rw z pos_size in
      let s = subst (λ k. IsSingleKind rt k st.window) (sym k) positive in
      let (st', i, b, returned, found, (passes, fits)) = one_bucket st keys ts s wf in
      let passes' = subst (λ k. is_of_kind rt k st.window keys ts b ≡ true) k passes in
      let fits' = subst (λ k. FitsKind k (to_ns st.window.size_ms) b) k fits in
      let start : b.window_start_ns ≡ ts / size * size = rw (← z) (ground arith) in
      let below = div-mul-le_self ts size in
      let above = lt-div-mul-add {a = ts} pos_size in
      let end' : b.window_end_ns ≡ b.window_start_ns + size =
        subst (λ z. b.window_end_ns ≡ (b.window_start_ns + z) % u64) z fits'
        ∙ mod-eq_of_lt (omega arith) in
      (st', i, b, returned, found, (ground arith, start, omega arith, omega arith, end'))

  -- A session event has one bucket: an open one of its group whose last event is less than the
  -- timeout before it.
  pub session_lands :
      (st : AggState R) (keys : List Bytes) (ts : ℕ)
      → IsWellFormed st
      → st.window.kind ≡ session
      → 0 < to_ns st.window.timeout_ms
      → FallsIn
          (λ b.
            (same_keys b.group_keys keys ≡ true)
            × (b.last_event_ns ≤ ts)
            × (ts < b.last_event_ns + to_ns st.window.timeout_ms)
            × (b.window_start_ns ≤ b.last_event_ns))
          (get_or_create_buckets rt st keys ts)
  session_lands st keys ts wf k t =
      let s = subst (λ k. IsSingleKind rt k st.window) (sym k) t in
      let (st', i, b, returned, found, (passes, fits)) = one_bucket st keys ts s wf in
      let passes' = subst (λ k. is_of_kind rt k st.window keys ts b ≡ true) k passes in
      let fits' = subst (λ k. FitsKind k (to_ns st.window.size_ms) b) k fits in
      (st', i, b, returned, found, (ground arith, ground arith, ground arith, fits'.0))

  sliding_loop-stops :
      (rounds : ℕ) (st : AggState R) (keys : List Bytes) (ts size slide cur : ℕ)
      → cur + size ≤ ts
      → ts < u64
      → sliding_loop rt rounds st keys ts size slide cur [] ≡ (st, [])
  unfolding sliding_loop
  sliding_loop-stops zero st keys ts size slide cur h u = refl
  sliding_loop-stops (suc rounds) st keys ts size slide cur h u =
      let over : ltb ts ((cur + size) % u64) ≡ false = ground arith in
      rw over (elim (Bool-cases (leb cur ts)) [ inl e ↦ rw e refl | inr e ↦ rw e refl ])

  earliest_start-le :
      (ts size slide : ℕ) → 0 < slide → size ≤ ts → earliest_start rt ts size slide + size ≤ ts
  earliest_start-le ts size slide h le = elim (Bool-cases (leb size ts)) [
    | inl e ↦ rw e (omega (arith, div-mul-le_self (ts - size) slide))
    | inr e ↦ absurd (ground arith)
  ]

  sliding_of_kind :
      (st : AggState R) (keys : List Bytes) (ts : ℕ)
      → 0 < slide_of rt st.window
      → to_ns st.window.size_ms ≤ ts
      → ts < u64
      → buckets_of_kind rt sliding st keys ts ≡ some (st, [])
  unfolding buckets_of_kind in_sliding
  sliding_of_kind st keys ts h le u =
      let nonzero : (slide_of rt st.window == 0) ≡ false = ground arith in
      rw nonzero (
        rw
          (sliding_loop-stops _ st keys ts (to_ns st.window.size_ms) (slide_of rt st.window)
            (earliest_start rt ts (to_ns st.window.size_ms) (slide_of rt st.window))
            (earliest_start-le ts _ _ h le) u)
          refl)

  -- No bucket is found or made for an event of a sliding window whose time is not below the size
  -- of the window, though the windows that start less than one size before it hold it.
  pub sliding_misses :
      (st : AggState R) (keys : List Bytes) (ts : ℕ)
      → st.window.kind ≡ sliding
      → 0 < slide_of rt st.window
      → to_ns st.window.size_ms ≤ ts
      → ts < u64
      → get_or_create_buckets rt st keys ts ≡ some (st, [])
  unfolding get_or_create_buckets
  sliding_misses st keys ts k h le u =
      subst (λ k. buckets_of_kind rt k st keys ts ≡ some (st, [])) (sym k)
        (sliding_of_kind st keys ts h le u)
