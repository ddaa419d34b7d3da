-- ===== src/Nql/Bucket/Invariant.antt =====
-- The well-formed aggregation states, and what a search of the bucket list finds in one.
use nblex.Base.{
  ℕ, ◌+◌, ◌%◌, ◌≤◌, ◌<◌, Bool, true, some, List, [], ◌∷◌, ◌≡◌, arith, length, All, ◌==◌, Bool-cases,
  inl, inr,
}
use nblex.Nql.{WindowType, Window, no_window, tumbling, sliding, session, u64, max64, to_ns}
use nblex.Nql.Bucket.{Bucket, AggState, find_id, bucket_at}

module _ {R : Type 0} where
  -- The ids fall along the list, from below `n`: newer buckets stand in front.
  abbrev pub Descending : ℕ → List (Bucket R) → Type 0
  Descending n [] = Unit
  Descending n (b ∷ bs) = (b.id < n) × Descending b.id bs

  -- The bounds of a bucket fit the window of its query.
  abbrev pub FitsKind : WindowType → ℕ → Bucket R → Type 0
  FitsKind no_window size b = (b.window_start_ns ≡ 0) × (b.window_end_ns ≡ max64)
  FitsKind session size b = (b.window_start_ns ≤ b.last_event_ns) × (b.window_end_ns ≡ max64)
  FitsKind tumbling size b = b.window_end_ns ≡ (b.window_start_ns + size) % u64
  FitsKind sliding size b = b.window_end_ns ≡ (b.window_start_ns + size) % u64

  abbrev pub FitsWindow : Window → Bucket R → Type 0
  FitsWindow w b = FitsKind w.kind (to_ns w.size_ms) b

  pub record IsWellFormed (st : AggState R) : Type 0 where
    pub ids : Descending st.next_id st.buckets
    pub windows : All (FitsWindow st.window) st.buckets
    pub counted : st.bucket_count ≡ length st.buckets

  pub Descending-le : (bs : List (Bucket R)) {m n : ℕ} → Descending m bs → m ≤ n → Descending n bs
  Descending-le [] d h = tt
  Descending-le (b ∷ bs) d h = (omega arith, d.1)

  -- What a search returns is the id of a bucket of the list.
  pub find_id-lt :
      (p : Bucket R → Bool) (bs : List (Bucket R)) (n i : ℕ)
      → Descending n bs
      → find_id p bs ≡ some i
      → i < n
  unfolding find_id
  find_id-lt p [] n i d h = cc
  find_id-lt p (b ∷ bs) n i d h = ground (arith, find_id-lt p bs b.id i d.1)

  -- It is the bucket that passes the test.
  pub find_id-bucket_at :
      (p : Bucket R → Bool) (bs : List (Bucket R)) (n i : ℕ)
      → Descending n bs
      → find_id p bs ≡ some i
      → (b : Bucket R) × (bucket_at i bs ≡ some b) × (p b ≡ true)
  unfolding find_id bucket_at
  find_id-bucket_at p [] n i d h = absurd (cc)
  find_id-bucket_at p (b ∷ bs) n i d h = elim (Bool-cases (p b)) [
    | inl e ↦ (b, ground arith, e)
    | inr e ↦
        let h' : find_id p bs ≡ some i = rw e at h in
        let (found, at, passes) = find_id-bucket_at p bs b.id i d.1 h' in
        (found, ground (arith, find_id-lt p bs b.id i d.1 h'), passes)
  ]

  -- A bucket of the list satisfies what all of them do.
  pub All-bucket_at :
      (P : Bucket R → Type 0) (bs : List (Bucket R)) (i : ℕ) (b : Bucket R)
      → All P bs
      → bucket_at i bs ≡ some b
      → P b
  unfolding bucket_at
  All-bucket_at P [] i b h e = absurd (cc)
  All-bucket_at P (x ∷ bs) i b h e = elim (Bool-cases (x.id == i)) [
    | inl q ↦ let e' : some x ≡ some b = rw q at e in let same : b ≡ x = cc in rw same h.0
    | inr q ↦ let e' : bucket_at i bs ≡ some b = rw q at e in All-bucket_at P bs i b h.1 e'
  ]
