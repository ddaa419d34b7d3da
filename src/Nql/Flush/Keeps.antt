-- ===== src/Nql/Flush/Keeps.antt =====
-- The flush callback keeps the aggregation state well-formed.
use nblex.Base.{
  ℕ, ◌+◌, ◌≤◌, ◌<◌, Option, none, some, List, [], ◌∷◌, ◌++◌, ◌≡◌, refl, arith, length, All, leb,
  Bool-cases, inl, inr,
}
use nblex.Nql.{WindowType, Window, no_window, tumbling, sliding, session, to_ns}
use nblex.Nql.Bucket.{Bucket, AggState}
use nblex.Nql.Bucket.Invariant.{Descending, Descending-le, FitsKind, FitsWindow, IsWellFormed}
use nblex.Nql.Flush.{flush_bucket, flush_of_kind, kept_of, window_flush_cb, to_list, is_idle}
use nblex.Runtime.{Runtime}

module _ {J R X : Type 0} (rt : Runtime J R X) where
  -- a bucket that stays has the id that it had, and fits its window
  abbrev Stays : WindowType → ℕ → Bucket R → Option (Bucket R) → Type 0
  Stays k size b none = Unit
  Stays k size b (some b') = (b'.id ≡ b.id) × FitsKind k size b'

  flush-Stays :
      (k : WindowType) (now : ℕ) (st : AggState R) (b : Bucket R)
      → FitsKind k (to_ns st.window.size_ms) b
      → Stays k (to_ns st.window.size_ms) b (flush_of_kind rt k now st b).kept
  unfolding flush_of_kind
  flush-Stays no_window now st b h = (refl, h)
  flush-Stays tumbling now st b h = elim (Bool-cases (leb b.window_end_ns now)) [
    | inl e ↦ rw e (refl, refl)
    | inr e ↦ rw e (refl, h)
  ]
  flush-Stays sliding now st b h = elim (Bool-cases (leb b.window_end_ns now)) [
    | inl e ↦ rw e tt
    | inr e ↦ rw e (refl, h)
  ]
  flush-Stays session now st b h = elim (Bool-cases (is_idle rt now st.window b)) [
    | inl e ↦ rw e tt
    | inr e ↦ rw e (refl, h)
  ]

  Descending-to_list :
      (k : WindowType) (size n : ℕ) (b : Bucket R) (o : Option (Bucket R)) (bs : List (Bucket R))
      → Stays k size b o
      → b.id < n
      → Descending b.id bs
      → Descending n (to_list o ++ bs)
  Descending-to_list k size n b none bs s lt d = Descending-le bs d (omega arith)
  Descending-to_list k size n b (some b') bs s lt d = (omega arith, rw s.0 d)

  Descending-kept_of :
      (now : ℕ) (st : AggState R) (bs : List (Bucket R)) (n : ℕ)
      → All (FitsWindow st.window) bs
      → Descending n bs
      → Descending n (kept_of rt now st bs)
  unfolding kept_of flush_bucket
  Descending-kept_of now st [] n h d = tt
  Descending-kept_of now st (b ∷ bs) n h d =
      Descending-to_list st.window.kind _ n b _ _ (flush-Stays st.window.kind now st b h.0) d.0
        (Descending-kept_of now st bs b.id h.1 d.1)

  FitsWindow-to_list :
      (w : Window) (b : Bucket R) (o : Option (Bucket R)) (bs : List (Bucket R))
      → Stays w.kind (to_ns w.size_ms) b o
      → All (FitsWindow w) bs
      → All (FitsWindow w) (to_list o ++ bs)
  FitsWindow-to_list w b none bs s h = h
  FitsWindow-to_list w b (some b') bs s h = (s.1, h)

  FitsWindow-kept_of :
      (now : ℕ) (st : AggState R) (bs : List (Bucket R))
      → All (FitsWindow st.window) bs
      → All (FitsWindow st.window) (kept_of rt now st bs)
  unfolding kept_of flush_bucket
  FitsWindow-kept_of now st [] h = tt
  FitsWindow-kept_of now st (b ∷ bs) h =
      FitsWindow-to_list st.window b _ _ (flush-Stays st.window.kind now st b h.0)
        (FitsWindow-kept_of now st bs h.1)

  length-to_list-append :
      (o : Option (Bucket R)) (bs : List (Bucket R)) → length (to_list o ++ bs) ≤ length bs + 1
  length-to_list-append none bs = omega arith
  length-to_list-append (some b) bs = omega arith

  length-kept_of-le :
      (now : ℕ) (st : AggState R) (bs : List (Bucket R)) → length (kept_of rt now st bs) ≤ length bs
  unfolding kept_of
  length-kept_of-le now st [] = omega arith
  length-kept_of-le now st (b ∷ bs) =
      omega (arith, length-to_list-append _ (kept_of rt now st bs), length-kept_of-le now st bs)

  -- A flush keeps the state of an aggregation well-formed: ids, window bounds and bucket count.
  pub window_flush_cb-IsWellFormed :
      (now : ℕ) (st : AggState R) → IsWellFormed st → IsWellFormed (window_flush_cb rt now st).0
  unfolding window_flush_cb
  window_flush_cb-IsWellFormed now st wf = record {
    ids = Descending-kept_of now st st.buckets st.next_id wf.windows wf.ids;
    windows = FitsWindow-kept_of now st st.buckets wf.windows;
    counted = omega (arith, wf.counted, length-kept_of-le now st st.buckets);
  }
