-- ===== src/Nql/Update/Count.antt =====
-- The functions of a query leave the count of a bucket as it is.
use nblex.Base.{
  ℕ, ◌+◌, ◌%◌, Option, none, some, List, [], ◌∷◌, ◌≡◌, refl, ◌∙◌, Bool-cases, inl, inr,
}
use nblex.Nql.{
  AggType, agg_count, agg_sum, agg_avg, agg_min, agg_max, agg_percentile, agg_distinct, AggFunc,
  Event, u64, get_numeric_value,
}
use nblex.Nql.Bucket.{Stats, Bucket, AggState}
use nblex.Nql.Update.{
  apply_value, apply_field, apply_func, apply_funcs, add_distinct, is_known,
  update_bucket_with_event,
}
use nblex.Runtime.{Runtime}
use nblex.Text.{Bytes}

module _ {J R X : Type 0} (rt : Runtime J R X) where
  count-add_distinct : (s : Stats R) (v : R) → (add_distinct rt s v).count ≡ s.count
  unfolding add_distinct
  count-add_distinct s v = elim (Bool-cases (is_known rt v s.distinct_values)) [
    | inl e ↦ rw e refl
    | inr e ↦ rw e refl
  ]

  count-apply_value :
      (kind : AggType) (s : Stats R) (v : R) → (apply_value rt kind s v).count ≡ s.count
  unfolding apply_value
  count-apply_value agg_count s v = refl
  count-apply_value agg_sum s v = refl
  count-apply_value agg_avg s v = refl
  count-apply_value agg_min s v = refl
  count-apply_value agg_max s v = refl
  count-apply_value agg_percentile s v = refl
  count-apply_value agg_distinct s v = count-add_distinct s v

  count-apply_field :
      (kind : AggType) (field : Option Bytes) (obj : Option J) (s : Stats R)
      → (apply_field rt kind field obj s).count ≡ s.count
  unfolding apply_field
  count-apply_field kind none obj s = refl
  count-apply_field kind (some field) obj s =
      count-apply_value kind s (get_numeric_value rt obj field)

  count-apply_funcs :
      (fs : List (AggFunc R)) (e : Event J) (s : Stats R) → (apply_funcs rt fs e s).count ≡ s.count
  unfolding apply_funcs apply_func
  count-apply_funcs [] e s = refl
  count-apply_funcs (f ∷ fs) e s =
      count-apply_funcs fs e (apply_func rt f e s) ∙ count-apply_field f.kind f.field e.json s

  pub count-update_bucket :
      (now : ℕ) (st : AggState R) (e : Event J) (b : Bucket R)
      → (update_bucket_with_event rt now st e b).stats.count ≡ (b.stats.count + 1) % u64
  unfolding update_bucket_with_event
  count-update_bucket now st e b =
      count-apply_funcs st.funcs e (record b.stats { count = (b.stats.count + 1) % u64 })
