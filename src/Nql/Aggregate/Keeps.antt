-- ===== src/Nql/Aggregate/Keeps.antt =====
-- Counting an event and flushing keep the aggregation state well-formed.
use nblex.Base.{
  ℕ, suc, Option, none, some, List, [], ◌∷◌, ◌≡◌, refl, ap, arith, length, All, ◌==◌, Bool-cases,
  inl, inr,
}
use mathlib.Core.Path.{subst}
use nblex.Nql.{
  WindowType, Window, no_window, tumbling, sliding, session, Event, to_ns, extract_group_keys,
}
use nblex.Nql.Aggregate.{aggregate_event, count_event, update_buckets}
use nblex.Nql.Bucket.{Bucket, AggState}
use nblex.Nql.Bucket.Invariant.{Descending, FitsKind, FitsWindow, IsWellFormed}
use nblex.Nql.Bucket.Keeps.{Kept, get_or_create_buckets-Kept}
use nblex.Nql.Flush.{AggResult}
use nblex.Nql.Update.{update_bucket_with_event, update_at, update_all, timestamp_or}
use nblex.Runtime.{Runtime}

module _ {R : Type 0} where
  -- a change of a bucket that leaves its id and its fit
  record Keeps (w : Window) (f : Bucket R → Bucket R) : Type 0 where
    same_id : (b : Bucket R) → (f b).id ≡ b.id
    same_fit : (b : Bucket R) → FitsWindow w b → FitsWindow w (f b)

  Descending-update_at :
      (w : Window) (f : Bucket R → Bucket R) (i n : ℕ) (bs : List (Bucket R))
      → Keeps w f
      → Descending n bs
      → Descending n (update_at f i bs)
  unfolding update_at
  Descending-update_at w f i n [] k d = tt
  Descending-update_at w f i n (b ∷ bs) k d = elim (Bool-cases (b.id == i)) [
    | inl e ↦
        rw e
          (omega (arith, k.same_id b), rw (k.same_id b) (Descending-update_at w f i b.id bs k d.1))
    | inr e ↦ rw e (d.0, Descending-update_at w f i b.id bs k d.1)
  ]

  FitsWindow-update_at :
      (w : Window) (f : Bucket R → Bucket R) (i : ℕ) (bs : List (Bucket R))
      → Keeps w f
      → All (FitsWindow w) bs
      → All (FitsWindow w) (update_at f i bs)
  unfolding update_at
  FitsWindow-update_at w f i [] k h = tt
  FitsWindow-update_at w f i (b ∷ bs) k h = elim (Bool-cases (b.id == i)) [
    | inl e ↦ rw e (k.same_fit b h.0, FitsWindow-update_at w f i bs k h.1)
    | inr e ↦ rw e (h.0, FitsWindow-update_at w f i bs k h.1)
  ]

  length-update_at :
      (f : Bucket R → Bucket R) (i : ℕ) (bs : List (Bucket R))
      → length (update_at f i bs) ≡ length bs
  unfolding update_at
  length-update_at f i [] = refl
  length-update_at f i (b ∷ bs) = ap suc (length-update_at f i bs)

  update_all-IsWellFormed :
      (f : Bucket R → Bucket R) (is : List ℕ) (st : AggState R)
      → Keeps st.window f
      → IsWellFormed st
      → IsWellFormed (record st { buckets = update_all f is st.buckets })
  unfolding update_all
  update_all-IsWellFormed f [] st k wf = wf
  update_all-IsWellFormed f (i ∷ is) st k wf =
      update_all-IsWellFormed f is (record st { buckets = update_at f i st.buckets }) k
        (record {
          ids = Descending-update_at st.window f i st.next_id st.buckets k wf.ids;
          windows = FitsWindow-update_at st.window f i st.buckets k wf.windows;
          counted = omega (arith, wf.counted, length-update_at f i st.buckets);
        })

module _ {J R X : Type 0} (rt : Runtime J R X) where
  fits_seen :
      (k : WindowType) (now size : ℕ) (st : AggState R) (e : Event J) (b : Bucket R)
      → st.window.kind ≡ k
      → FitsKind k size b
      → FitsKind k size (update_bucket_with_event rt now st e b)
  unfolding update_bucket_with_event
  fits_seen no_window now size st e b q h = h
  fits_seen session now size st e b q h = rw q (ground arith)
  fits_seen tumbling now size st e b q h = h
  fits_seen sliding now size st e b q h = h

  update-Keeps :
      (now : ℕ) (st : AggState R) (e : Event J)
      → Keeps st.window (update_bucket_with_event rt now st e)
  update-Keeps now st e = record {
    same_id = λ b. unfold update_bucket_with_event in refl;
    same_fit = λ b. fits_seen st.window.kind now (to_ns st.window.size_ms) st e b refl;
  }

  abbrev KeptResult : Option (AggState R × Option (AggResult R)) → Type 0
  KeptResult none = Unit
  KeptResult (some (st, r)) = IsWellFormed st

  count_event-Kept :
      (now : ℕ) (e : Event J) (w : Window) (o : Option (AggState R × List ℕ))
      → Kept rt w o
      → KeptResult (count_event rt now e o)
  unfolding count_event update_buckets
  count_event-Kept now e w none h = tt
  count_event-Kept now e w (some (st, ids)) h =
      update_all-IsWellFormed (update_bucket_with_event rt now st e) ids st (update-Keeps now st e)
        h.0

  -- Counting an event keeps the state of an aggregation well-formed, in every kind of window.
  pub aggregate_event-IsWellFormed :
      (now : ℕ) (st st' : AggState R) (e : Event J) (r : Option (AggResult R))
      → IsWellFormed st
      → aggregate_event rt now st e ≡ some (st', r)
      → IsWellFormed st'
  unfolding aggregate_event
  aggregate_event-IsWellFormed now st st' e r wf h = subst KeptResult h (
      count_event-Kept now e st.window _ (
        get_or_create_buckets-Kept rt st (extract_group_keys rt st.group_by_fields e.json)
          (timestamp_or now e) wf))
