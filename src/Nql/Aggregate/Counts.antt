-- ===== src/Nql/Aggregate/Counts.antt =====
-- What the buckets count: each event that is aggregated once, in a bucket of its group.
use nblex.Base.{
  ℕ, suc, ◌+◌, ◌%◌, ◌≤◌, ◌<◌, Bool, true, false, Option, none, some, List, [], ◌∷◌, ◌≡◌, refl, sym,
  ap, ◌∙◌, arith, length, All, count, ◌==◌, if◌then◌else◌, Bool-cases, inl, inr, map,
}
use mathlib.Core.Path.{subst}
use nblex.Nql.{
  WindowType, Window, no_window, tumbling, sliding, session, Event, u64, extract_group_keys,
  same_keys,
}
use nblex.Nql.Aggregate.{aggregate_event, count_event, update_buckets}
use nblex.Nql.Aggregate.Keeps.{aggregate_event-IsWellFormed}
use nblex.Nql.Bucket.{Bucket, AggState, bucket_at, get_or_create_buckets}
use nblex.Nql.Bucket.Invariant.{Descending, IsWellFormed}
use nblex.Nql.Bucket.Keeps.{Kept, get_or_create_buckets-Kept}
use nblex.Nql.Bucket.Landing.{tally, HasKeys, IsSingleKind, is_of_kind, buckets_of_kind-OneBucket}
use nblex.Nql.Flush.{AggResult}
use nblex.Nql.Update.{update_bucket_with_event, update_at, update_all, timestamp_or}
use nblex.Nql.Update.Count.{count-update_bucket}
use nblex.Runtime.{Runtime}
use nblex.Text.{Bytes, str_eq, str_eq→eq}

same_keys→eq : (ks js : List Bytes) → length ks ≡ length js → same_keys ks js ≡ true → ks ≡ js
unfolding same_keys
same_keys→eq [] [] l h = refl
same_keys→eq [] (j ∷ js) l h = absurd (omega (arith, l))
same_keys→eq (k ∷ ks) [] l h = absurd (omega (arith, l))
same_keys→eq (k ∷ ks) (j ∷ js) l h = elim (Bool-cases (str_eq k j)) [
  | inl e ↦
      let rest : same_keys ks js ≡ true = rw e at h in
      let same : k ≡ j = str_eq→eq k j e in
      let tail : ks ≡ js = same_keys→eq ks js (omega (arith, l)) rest in rw (same, tail) refl
  | inr e ↦ absurd (ground arith)
]

abbrev pub one : Bool → ℕ
one p = if p then 1 else 0

module _ {R : Type 0} where
  -- a change of a bucket that counts one event
  record CountsOne (f : Bucket R → Bucket R) : Type 0 where
    same_group : (b : Bucket R) → (f b).group_keys ≡ b.group_keys
    one_more : (b : Bucket R) → (f b).stats.count ≡ (b.stats.count + 1) % u64

  update_at-missing :
      (f : Bucket R → Bucket R) (i n : ℕ) (bs : List (Bucket R))
      → Descending n bs
      → n ≤ i
      → update_at f i bs ≡ bs
  unfolding update_at
  update_at-missing f i n [] d h = refl
  update_at-missing f i n (b ∷ bs) d h =
      let differs : (b.id == i) ≡ false = ground (arith, d.0) in
      rw (differs, update_at-missing f i b.id bs d.1 (omega (arith, d.0))) refl

  tally-update_at :
      (q : List Bytes → Bool) (f : Bucket R → Bucket R) (i n : ℕ) (b0 : Bucket R)
      (bs : List (Bucket R))
      → CountsOne f
      → Descending n bs
      → bucket_at i bs ≡ some b0
      → tally (λ ks. true) bs + 1 < u64
      → tally q (update_at f i bs) ≡ tally q bs + one (q b0.group_keys)
  unfolding update_at bucket_at
  tally-update_at q f i n b0 [] c d h u = absurd (cc)
  tally-update_at q f i n b0 (b ∷ bs) c d h u = elim (Bool-cases (b.id == i)) [
    | inl e ↦
        let h' : some b ≡ some b0 = rw e at h in
        let same : b ≡ b0 = cc in
        let rest = update_at-missing f i b.id bs d.1 (ground arith) in
        rw (e, rest, c.same_group b, c.one_more b, ← same) (ground arith)
    | inr e ↦
        let h' : bucket_at i bs ≡ some b0 = rw e at h in
        let rest = tally-update_at q f i b.id b0 bs c d.1 h' (omega (arith, u)) in
        rw (e, rest) (omega arith)
  ]

  HasKeys-update_at :
      (n : ℕ) (f : Bucket R → Bucket R) (i : ℕ) (bs : List (Bucket R))
      → CountsOne f
      → HasKeys n bs
      → HasKeys n (update_at f i bs)
  unfolding update_at
  HasKeys-update_at n f i [] c h = tt
  HasKeys-update_at n f i (b ∷ bs) c h = elim (Bool-cases (b.id == i)) [
    | inl e ↦ rw (e, c.same_group b) (h.0, HasKeys-update_at n f i bs c h.1)
    | inr e ↦ rw e (h.0, HasKeys-update_at n f i bs c h.1)
  ]

length-map : {A B : Type 0} (f : A → B) (xs : List A) → length (map f xs) ≡ length xs
length-map f [] = refl
length-map f (x ∷ xs) = ap suc (length-map f xs)

abbrev pub HasJson : {J : Type 0} → Event J → Type 0
HasJson {J} e = (obj : J) × (e.json ≡ some obj)

module _ {J R X : Type 0} (rt : Runtime J R X) where
  abbrev pub keys_in : AggState R → Event J → List Bytes
  keys_in st e = extract_group_keys rt st.group_by_fields e.json

  length-keys_in :
      (st : AggState R) (e : Event J)
      → HasJson e
      → length (keys_in st e) ≡ length st.group_by_fields
  unfolding extract_group_keys
  length-keys_in st e (obj, h) = rw h (length-map _ st.group_by_fields)

  update-CountsOne :
      (now : ℕ) (st : AggState R) (e : Event J) → CountsOne (update_bucket_with_event rt now st e)
  update-CountsOne now st e = record {
    same_group = λ b. unfold update_bucket_with_event in refl;
    one_more = λ b. count-update_bucket rt now st e b;
  }

  -- the searches of a window type return buckets of the event's group
  of_group :
      (k : WindowType) (w : Window) (keys : List Bytes) (ts : ℕ) (b : Bucket R)
      → is_of_kind rt k w keys ts b ≡ true
      → same_keys b.group_keys keys ≡ true
  of_group no_window w keys ts b h = ground arith
  of_group tumbling w keys ts b h = ground arith
  of_group sliding w keys ts b h = ground arith
  of_group session w keys ts b h = ground arith

  bucket-group :
      (n i : ℕ) (b : Bucket R) (bs : List (Bucket R))
      → HasKeys n bs
      → bucket_at i bs ≡ some b
      → length b.group_keys ≡ n
  unfolding bucket_at
  bucket-group n i b [] h e = absurd (cc)
  bucket-group n i b (x ∷ bs) h e = elim (Bool-cases (x.id == i)) [
    | inl q ↦ let e' : some x ≡ some b = rw q at e in let same : b ≡ x = cc in rw same h.0
    | inr q ↦ let e' : bucket_at i bs ≡ some b = rw q at e in bucket-group n i b bs h.1 e'
  ]

  -- One event was aggregated.
  pub record Counted (now : ℕ) (st : AggState R) (e : Event J) : Type 0 where
    pub after : AggState R
    pub result : Option (AggResult R)
    pub returned : aggregate_event rt now st e ≡ some (after, result)
    pub counts :
        (q : List Bytes → Bool)
        → tally q after.buckets ≡ tally q st.buckets + one (q (keys_in st e))
    pub has_keys : HasKeys (length st.group_by_fields) after.buckets
    pub same_window : after.window ≡ st.window
    pub same_fields : after.group_by_fields ≡ st.group_by_fields

  aggregate_event-Counted :
      (now : ℕ) (st : AggState R) (e : Event J)
      → IsWellFormed st
      → HasKeys (length st.group_by_fields) st.buckets
      → IsSingleKind rt st.window.kind st.window
      → HasJson e
      → tally (λ ks. true) st.buckets + 1 < u64
      → Counted now st e
  unfolding aggregate_event count_event update_buckets update_all get_or_create_buckets
  aggregate_event-Counted now st e wf hk s j u =
      let keys = keys_in st e in
      let ts = timestamp_or now e in
      let r = buckets_of_kind-OneBucket rt st.window.kind st keys ts s wf in
      let kept : Kept rt st.window (some (r.after, r.index ∷ [])) =
        subst (Kept rt st.window) r.returned (get_or_create_buckets-Kept rt st keys ts wf) in
      let f = update_bucket_with_event rt now r.after e in
      let l = length-keys_in st e j in
      let hk' : HasKeys (length keys) r.after.buckets =
        r.landed.has_keys (subst (λ n. HasKeys n st.buckets) (sym l) hk) in
      let group : r.landed.bucket.group_keys ≡ keys =
        same_keys→eq _ keys
          (bucket-group _ r.index r.landed.bucket r.after.buckets hk' r.landed.found)
          (of_group st.window.kind st.window keys ts r.landed.bucket r.landed.passes) in
      let small : tally (λ ks. true) r.after.buckets + 1 < u64 =
        rw (r.landed.same_tally (λ ks. true)) u in
      record {
        after = record r.after { buckets = update_at f r.index r.after.buckets };
        result = _;
        returned = ap (count_event rt now e) r.returned;
        counts = λ q.
            tally-update_at q f r.index r.after.next_id r.landed.bucket r.after.buckets
              (update-CountsOne now r.after e) kept.0.ids r.landed.found small
            ∙ ap (λ t. t + one (q r.landed.bucket.group_keys)) (r.landed.same_tally q)
            ∙ ap (λ g. tally q st.buckets + one (q g)) group;
        has_keys =
            HasKeys-update_at _ f r.index r.after.buckets (update-CountsOne now r.after e)
              (subst (λ n. HasKeys n r.after.buckets) l hk');
        same_window = kept.1;
        same_fields = r.landed.same_fields;
      }

  aggregate_rest :
      (AggState R → Option (AggState R))
      → Option (AggState R × Option (AggResult R))
      → Option (AggState R)
  aggregate_rest f none = none
  aggregate_rest f (some (st, r)) = f st

  -- aggregate_event for a list of events, each with the clock at its arrival
  unfoldable pub aggregate_events : AggState R → List (ℕ × Event J) → Option (AggState R)
  unfolding aggregate_rest
  aggregate_events st [] = some st
  aggregate_events st ((now, e) ∷ es) =
      aggregate_rest (λ st'. aggregate_events st' es) (aggregate_event rt now st e)

  -- Without sliding windows every event is counted once and in its own group: for any test of the
  -- group keys, the buckets that pass it count as many events more as passing events came.
  pub aggregate_events-tally :
      (st : AggState R) (es : List (ℕ × Event J)) (q : List Bytes → Bool)
      → IsWellFormed st
      → HasKeys (length st.group_by_fields) st.buckets
      → IsSingleKind rt st.window.kind st.window
      → All (λ te. HasJson te.1) es
      → tally (λ ks. true) st.buckets + length es < u64
      → (st' : AggState R) × (aggregate_events st es ≡ some st')
        × (tally q st'.buckets ≡ tally q st.buckets + count (λ te. q (keys_in st te.1)) es)
  unfolding aggregate_events
  aggregate_events-tally st [] q wf hk s j u = (st, refl, omega arith)
  aggregate_events-tally st ((now, e) ∷ es) q wf hk s j u =
      let c = aggregate_event-Counted now st e wf hk s j.0 (omega (arith, u)) in
      let wf' = aggregate_event-IsWellFormed rt now st c.after e c.result wf c.returned in
      let hk' = subst (λ n. HasKeys n c.after.buckets) (ap length (sym c.same_fields)) c.has_keys in
      let s' = subst (λ w. IsSingleKind rt w.kind w) (sym c.same_window) s in
      let u' : tally (λ ks. true) c.after.buckets + length es < u64 =
        omega (arith, u, c.counts (λ ks. true)) in
      let (st', ran, counted) = aggregate_events-tally c.after es q wf' hk' s' j.1 u' in
      let fields =
        ap (λ fs. count (λ te. q (extract_group_keys rt fs te.1.json)) es) c.same_fields in
      (
        st',
        ap (aggregate_rest (λ st'. aggregate_events st' es)) c.returned ∙ ran,
        omega (arith, counted, c.counts q, fields),
      )
