-- ===== src/Nql/Bucket/Keeps.antt =====
-- Every operation on an aggregation state keeps it well-formed.
use nblex.Base.{
  ℕ, zero, suc, ◌+◌, ◌*◌, ◌/◌, ◌%◌, ◌&&◌, Option, none, some, List, [], ◌∷◌, ◌++◌, ◌≡◌, ◌⊎◌, refl,
  ◌∙◌, arith, ◌==◌, leb, ltb, Bool-cases, inl, inr,
}
use nblex.Nql.{WindowType, Window, no_window, tumbling, sliding, session, u64, max64, to_ns}
use nblex.Nql.Bucket.{
  Bucket, AggState, fresh_stats, found_or_new, buckets_of_kind, get_or_create_buckets, unwindowed,
  in_session, at_window, in_sliding, slide_of, sliding_loop,
}
use nblex.Nql.Bucket.Invariant.{FitsKind, FitsWindow, IsWellFormed}
use nblex.Runtime.{Runtime}
use nblex.Text.{Bytes}

module _ {J R X : Type 0} (rt : Runtime J R X) where
  -- the bucket that create_bucket_with_window makes
  abbrev pub made : ℕ → List Bytes → ℕ → ℕ → Bucket R
  made i keys start end' = record {
    id = i;
    group_keys = keys;
    stats = fresh_stats rt;
    window_start_ns = start;
    window_end_ns = end';
    last_event_ns = start;
  }

  found_or_new-IsWellFormed :
      (o : Option ℕ) (st : AggState R) (keys : List Bytes) (start end' : ℕ)
      → FitsWindow st.window (made st.next_id keys start end')
      → IsWellFormed st
      → IsWellFormed (found_or_new rt o st keys start end').0
  unfolding found_or_new
  found_or_new-IsWellFormed none st keys start end' fits w = record {
    ids = (omega arith, w.ids);
    windows = (fits, w.windows);
    counted = omega (arith, w.counted);
  }
  found_or_new-IsWellFormed (some i) st keys start end' fits w = w

  window-found_or_new :
      (o : Option ℕ) (st : AggState R) (keys : List Bytes) (start end' : ℕ)
      → (found_or_new rt o st keys start end').0.window ≡ st.window
  unfolding found_or_new
  window-found_or_new none st keys start end' = refl
  window-found_or_new (some i) st keys start end' = refl

  abbrev IsPlaced : Window → Type 0
  IsPlaced w = (w.kind ≡ tumbling) ⊎ (w.kind ≡ sliding)

  -- A new bucket of a tumbling or sliding window ends one size after its start.
  placed-FitsWindow :
      (w : Window) (b : Bucket R)
      → IsPlaced w
      → b.window_end_ns ≡ (b.window_start_ns + to_ns w.size_ms) % u64
      → FitsWindow w b
  placed-FitsWindow w b (inl k) h = rw k h
  placed-FitsWindow w b (inr k) h = rw k h

  at_window-IsWellFormed :
      (st : AggState R) (keys : List Bytes) (start : ℕ)
      → IsPlaced st.window
      → IsWellFormed st
      → IsWellFormed (at_window rt st keys start (to_ns st.window.size_ms)).0
  unfolding at_window
  at_window-IsWellFormed st keys start k w =
      let end' = (start + to_ns st.window.size_ms) % u64 in
      found_or_new-IsWellFormed _ st keys start end'
        (placed-FitsWindow st.window (made st.next_id keys start end') k refl) w

  window-at_window :
      (st : AggState R) (keys : List Bytes) (start size : ℕ)
      → (at_window rt st keys start size).0.window ≡ st.window
  unfolding at_window
  window-at_window st keys start size = window-found_or_new _ st keys start _

  -- the state that an operation leaves is well-formed and has the window that it had
  abbrev pub Kept : Window → Option (AggState R × List ℕ) → Type 0
  Kept w none = Unit
  Kept w (some (st, ids)) = IsWellFormed st × (st.window ≡ w)

  sliding_loop-Kept :
      (rounds : ℕ) (w : Window) (st : AggState R) (keys : List Bytes) (ts slide cur : ℕ)
      (ids : List ℕ)
      → IsPlaced w
      → IsWellFormed st
      → st.window ≡ w
      → Kept w (some (sliding_loop rt rounds st keys ts (to_ns w.size_ms) slide cur ids))
  unfolding sliding_loop
  sliding_loop-Kept zero w st keys ts slide cur ids k wf e = (wf, e)
  sliding_loop-Kept (suc rounds) w st keys ts slide cur ids k wf e =
      let size = to_ns w.size_ms in
      let next = at_window rt st keys cur size in
      let next_wf : IsWellFormed next.0 =
        rw (← e) (at_window-IsWellFormed st keys cur (rw e k) wf) in
      let rest =
        sliding_loop-Kept rounds w next.0 keys ts slide ((cur + slide) % u64) (ids ++ next.1 ∷ []) k
          next_wf (window-at_window st keys cur size ∙ e) in
      elim (Bool-cases (leb cur ts && ltb ts ((cur + size) % u64))) [
        | inl t ↦ rw t rest
        | inr t ↦ rw t (wf, e)
      ]

  fits_kind :
      (k : WindowType) (w : Window) (b : Bucket R)
      → w.kind ≡ k
      → FitsKind k (to_ns w.size_ms) b
      → FitsWindow w b
  fits_kind k w b e h = rw e h

  buckets_of_kind-Kept :
      (k : WindowType) (st : AggState R) (keys : List Bytes) (ts : ℕ)
      → st.window.kind ≡ k
      → IsWellFormed st
      → Kept st.window (buckets_of_kind rt k st keys ts)
  unfolding buckets_of_kind unwindowed in_session in_sliding
  buckets_of_kind-Kept no_window st keys ts e wf =
      let fits = fits_kind no_window st.window (made st.next_id keys 0 max64) e (refl, refl) in
      (found_or_new-IsWellFormed _ st keys 0 max64 fits wf, window-found_or_new _ st keys 0 max64)
  buckets_of_kind-Kept session st keys ts e wf =
      let fits = fits_kind session st.window (made st.next_id keys ts max64) e (omega arith) in
      (found_or_new-IsWellFormed _ st keys ts max64 fits wf, window-found_or_new _ st keys ts max64)
  buckets_of_kind-Kept tumbling st keys ts e wf =
      let size = to_ns st.window.size_ms in
      elim (Bool-cases (size == 0)) [
        | inl z ↦ rw z tt
        | inr z ↦ rw z (
          at_window-IsWellFormed st keys (ts / size * size) (inl e) wf,
          window-at_window st keys (ts / size * size) size,
        )
      ]
  buckets_of_kind-Kept sliding st keys ts e wf = elim (Bool-cases (slide_of rt st.window == 0)) [
    | inl z ↦ rw z tt
    | inr z ↦ rw z (sliding_loop-Kept _ st.window st keys ts _ _ [] (inr e) wf refl)
  ]

  -- Finding or making the buckets of an event keeps the state well-formed.
  pub get_or_create_buckets-Kept :
      (st : AggState R) (keys : List Bytes) (ts : ℕ)
      → IsWellFormed st
      → Kept st.window (get_or_create_buckets rt st keys ts)
  unfolding get_or_create_buckets
  get_or_create_buckets-Kept st keys ts wf = buckets_of_kind-Kept st.window.kind st keys ts refl wf
