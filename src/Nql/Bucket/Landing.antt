-- ===== src/Nql/Bucket/Landing.antt =====
-- The one bucket that an event falls in, where the window is not a sliding one.
use nblex.Base.{
  ℕ, ◌+◌, ◌*◌, ◌/◌, ◌%◌, ◌<◌, Bool, true, Option, none, some, List, [], ◌∷◌, ◌≡◌, refl, arith,
  length, All, if◌then◌else◌,
}
use nblex.Nql.{
  WindowType, Window, no_window, tumbling, sliding, session, u64, max64, to_ns, same_keys,
}
use nblex.Nql.Bucket.{
  Bucket, AggState, find_id, bucket_at, found_or_new, buckets_of_kind, find_bucket_by_window,
  unwindowed, in_session, at_window, is_unwindowed, is_at_window, is_open_session,
}
use nblex.Nql.Bucket.Invariant.{IsWellFormed, find_id-bucket_at}
use nblex.Nql.Bucket.Keeps.{made}
use nblex.Runtime.{Runtime}
use nblex.Text.{Bytes, str_eq_self}

same_keys_refl : (ks : List Bytes) → same_keys ks ks ≡ true
unfolding same_keys
same_keys_refl [] = refl
same_keys_refl (k ∷ ks) = ground (arith, str_eq_self k, same_keys_refl ks)

module _ {R : Type 0} where
  -- how many events the buckets count whose group keys pass a test
  abbrev pub tally : (List Bytes → Bool) → List (Bucket R) → ℕ
  tally q [] = 0
  tally q (b ∷ bs) = (if q b.group_keys then b.stats.count else 0) + tally q bs

  -- every bucket has a key for each field of the query
  abbrev pub HasKeys : ℕ → List (Bucket R) → Type 0
  HasKeys n bs = All (λ b. length b.group_keys ≡ n) bs

  -- The state `st'` has a bucket of id `i` that passes a test, and counts what `st` does.
  pub record Landed (p : Bucket R → Bool) (n : ℕ) (st st' : AggState R) (i : ℕ) : Type 0 where
    pub bucket : Bucket R
    pub found : bucket_at i st'.buckets ≡ some bucket
    pub passes : p bucket ≡ true
    pub same_tally : (q : List Bytes → Bool) → tally q st'.buckets ≡ tally q st.buckets
    pub has_keys : HasKeys n st.buckets → HasKeys n st'.buckets
    pub same_funcs : st'.funcs ≡ st.funcs
    pub same_fields : st'.group_by_fields ≡ st.group_by_fields

module _ {J R X : Type 0} (rt : Runtime J R X) where
  found_or_new-Landed :
      (p : Bucket R → Bool) (o : Option ℕ) (st : AggState R) (keys : List Bytes) (start end' : ℕ)
      → find_id p st.buckets ≡ o
      → IsWellFormed st
      → p (made rt st.next_id keys start end') ≡ true
      → Landed p
          (length keys)
          st
          (found_or_new rt o st keys start end').0
          (found_or_new rt o st keys start end').1
  unfolding found_or_new bucket_at
  found_or_new-Landed p none st keys start end' e wf h = record {
    bucket = made rt st.next_id keys start end';
    found = ground arith;
    passes = h;
    same_tally = λ q. ground arith;
    has_keys = λ k. (refl, k);
    same_funcs = refl;
    same_fields = refl;
  }
  found_or_new-Landed p (some i) st keys start end' e wf h =
      let (b, found, passes) = find_id-bucket_at p st.buckets st.next_id i wf.ids e in
      record {
        bucket = b;
        found = found;
        passes = passes;
        same_tally = λ q. refl;
        has_keys = λ k. k;
        same_funcs = refl;
        same_fields = refl;
      }

  -- What the search of a window type tests of a bucket.
  abbrev pub is_of_kind : WindowType → Window → List Bytes → ℕ → Bucket R → Bool
  is_of_kind no_window w keys ts = is_unwindowed rt keys
  is_of_kind session w keys ts = is_open_session rt keys ts (to_ns w.timeout_ms)
  is_of_kind _ w keys ts = is_at_window rt keys (ts / to_ns w.size_ms * to_ns w.size_ms)

  -- The windows in which an event falls in exactly one bucket.
  abbrev pub IsSingleKind : WindowType → Window → Type 0
  IsSingleKind no_window w = Unit
  IsSingleKind tumbling w = 0 < to_ns w.size_ms
  IsSingleKind sliding w = ⊥
  IsSingleKind session w = 0 < to_ns w.timeout_ms

  pub record OneBucket (k : WindowType) (st : AggState R) (keys : List Bytes) (ts : ℕ)
      : Type 0 where
    pub after : AggState R
    pub index : ℕ
    pub returned : buckets_of_kind rt k st keys ts ≡ some (after, index ∷ [])
    pub landed : Landed (is_of_kind k st.window keys ts) (length keys) st after index

  pub buckets_of_kind-OneBucket :
      (k : WindowType) (st : AggState R) (keys : List Bytes) (ts : ℕ)
      → IsSingleKind k st.window
      → IsWellFormed st
      → OneBucket k st keys ts
  unfolding buckets_of_kind unwindowed in_session at_window find_bucket_by_window
  buckets_of_kind-OneBucket no_window st keys ts s wf = record {
    after = _;
    index = _;
    returned = refl;
    landed =
        found_or_new-Landed (is_unwindowed rt keys) _ st keys 0 max64 refl wf
          (ground (arith, same_keys_refl keys));
  }
  buckets_of_kind-OneBucket session st keys ts s wf = record {
    after = _;
    index = _;
    returned = refl;
    landed =
        found_or_new-Landed (is_open_session rt keys ts (to_ns st.window.timeout_ms)) _ st keys ts
          max64 refl wf (ground (arith, same_keys_refl keys));
  }
  buckets_of_kind-OneBucket tumbling st keys ts s wf =
      let size = to_ns st.window.size_ms in
      let start = ts / size * size in
      record {
        after = _;
        index = _;
        returned = ground arith;
        landed =
            found_or_new-Landed (is_at_window rt keys start) _ st keys start ((start + size) % u64)
              refl wf (ground (arith, same_keys_refl keys));
      }
  buckets_of_kind-OneBucket sliding st keys ts s wf = absurd s
