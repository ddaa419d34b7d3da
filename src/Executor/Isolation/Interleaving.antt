-- ===== src/Executor/Isolation/Interleaving.antt =====
-- src/core/nql_executor.c: a run of several query strings, and the run of one of them alone.
use nblex.Base.{
  ℕ, ◌≡◌, refl, sym, ap, ◌∙◌, arith, Bool, true, false, ◌&&◌, List, [], ◌∷◌, ◌==◌, keep, Bool-cases,
  &&_split, inl, inr,
}
use mathlib.Core.Path.{subst}
use nblex.Executor.{World, Context, Run, ran, faulted, ◌>>=◌, Executed, is_context, find_context}
use nblex.Executor.Isolation.{
  Step, Entry, Agrees, run_action, run_steps, run_action-keeps_others, run_action-Agrees,
}
use nblex.Executor.Registry.{AreDifferent}
use nblex.Runtime.{Runtime}
use nblex.Text.{Bytes, str_eq, str_eq→eq, str_eq_self}

value_or : {A : Type 0} → A → Run A → A
value_or d (ran a) = a
value_or d (faulted x) = d

ran_injective : {A : Type 0} (a b : A) → ran a ≡ ran b → a ≡ b
unfolding value_or
ran_injective a b h = ap (value_or a) h

-- a chain that ran
bind_ran :
    {A B : Type 0} (x : Run A) (f : A → Run B) (b : B)
    → (x >>= f) ≡ ran b
    → (a : A) × ((x ≡ ran a) × (f a ≡ ran b))
bind_ran (ran a) f b h = (a, (refl, h))
bind_ran (faulted x) f b h = absurd (cc)

-- the steps of one query string in one world
unfoldable pub is_own : {J : Type 0} → World → Bytes → Step J → Bool
unfolding str_eq
is_own v t x = str_eq x.query_str t && x.world.id == v.id

equal_ids : (a b : ℕ) → (a == b) ≡ true → a ≡ b
equal_ids a b h = ground arith

module _ {J : Type 0} (v : World) (t : Bytes) (x : Step J) where
  pub is_own_same : is_own v t x ≡ true → (x.world.id ≡ v.id) × (x.query_str ≡ t)
  unfolding is_own
  is_own_same h =
      let (text, world) = &&_split (str_eq x.query_str t) (x.world.id == v.id) h in
      (equal_ids x.world.id v.id world, str_eq→eq x.query_str t text)

  pub is_own_different : is_own v t x ≡ false → AreDifferent x.world x.query_str v t
  unfolding is_own
  is_own_different h (world, text) =
      let same = str_eq_self t in
      let same_id : (v.id == v.id) ≡ true = ground arith in
      let own : is_own v t x ≡ true = rw (text, world, same, same_id) refl in absurd (cc)

-- the search looks at the number of the world only
pub find_context_same :
    {J R : Type 0} (w v : World) (s t : Bytes) (cs : List (Context J R))
    → w.id ≡ v.id
    → s ≡ t
    → find_context w s cs ≡ find_context v t cs
unfolding find_context is_context
find_context_same w v s t [] h k = refl
find_context_same w v s t (c ∷ cs) h k = rw (h, k, find_context_same w v s t cs h k) refl

module _ {J R X : Type 0} (rt : Runtime J R X) (v : World) (t : Bytes) where
  abbrev own_entries : List (Entry J R) → List (Entry J R)
  own_entries log = keep (λ e. is_own v t e.step) log

  -- The steps `ys` run from `cs'` to where `r` ends, and their log is its own part.
  abbrev Alone : List (Step J) → List (Context J R) → List (Context J R) × List (Entry J R) → Type 0
  Alone ys cs' r =
      (r' : List (Context J R) × List (Entry J R)) × ((run_steps rt ys cs' ≡ ran r')
        × ((find_context v t r.0 ≡ find_context v t r'.0) × (own_entries r.1 ≡ r'.1)))

  abbrev entry : Step J → Executed J R → Entry J R
  entry x r = record { step = x; emitted = r.emitted; passed = r.passed }

  same_entry :
      (x : Step J) (w : World) (s : Bytes) (r r' : Executed J R)
      → Agrees rt w s r r'
      → entry x r ≡ entry x r'
  same_entry x w s r r' a = λ i. record { step = x; emitted = a.1.0 i; passed = a.1.1 i }

  -- a step of its own in front
  own_step :
      (x : Step J) (ys : List (Step J)) (cs' : List (Context J R)) (r r' : Executed J R)
      (q : List (Context J R) × List (Entry J R))
      → is_own v t x ≡ true
      → run_action rt x.world x.query_str x.action cs' ≡ ran r'
      → entry x r ≡ entry x r'
      → Alone ys r'.contexts q
      → Alone (x ∷ ys) cs' (q.0, entry x r ∷ q.1)
  unfolding run_steps
  own_step x ys cs' r r' q own runs same (q', (rest, (found, log))) =
      ((q'.0, entry x r' ∷ q'.1), (rw (runs, rest) refl, (found, rw own (λ i. same i ∷ log i))))

  other_step :
      (x : Step J) (ys : List (Step J)) (cs' : List (Context J R)) (r : Executed J R)
      (q : List (Context J R) × List (Entry J R))
      → is_own v t x ≡ false
      → Alone ys cs' q
      → Alone ys cs' (q.0, entry x r ∷ q.1)
  other_step x ys cs' r q other (q', (rest, (found, log))) = (q', (rest, (found, rw other log)))

  keep_own :
      (x : Step J) (xs : List (Step J))
      → is_own v t x ≡ true
      → keep (is_own v t) (x ∷ xs) ≡ x ∷ keep (is_own v t) xs
  keep_own x xs h = rw h refl

  keep_other :
      (x : Step J) (xs : List (Step J))
      → is_own v t x ≡ false
      → keep (is_own v t) (x ∷ xs) ≡ keep (is_own v t) xs
  keep_other x xs h = rw h refl

  -- Whatever runs between them, the steps of one query string in one world emit and return what
  -- they do when they run alone, and leave the same state behind.
  pub run_steps-keep :
      (xs : List (Step J)) (cs cs' : List (Context J R)) (r : List (Context J R) × List (Entry J R))
      → find_context v t cs ≡ find_context v t cs'
      → run_steps rt xs cs ≡ ran r
      → (r' : List (Context J R) × List (Entry J R)) × ((run_steps rt (keep (is_own v t) xs) cs'
            ≡ ran r')
          × ((find_context v t r.0 ≡ find_context v t r'.0)
              × (keep (λ e. is_own v t e.step) r.1 ≡ r'.1)))
  unfolding run_steps
  run_steps-keep [] cs cs' r same h =
      let same_end = ran_injective (cs, []) r h in
      (
        (cs', []),
        (
          refl,
          (
            subst (λ q. find_context v t q.0 ≡ find_context v t cs') same_end same,
            subst (λ q. own_entries q.1 ≡ []) same_end refl,
          ),
        ),
      )
  run_steps-keep (x ∷ xs) cs cs' r same h =
      let (r1, (runs, more)) = bind_ran (run_action rt x.world x.query_str x.action cs) _ r h in
      let (q, (rest, end)) = bind_ran (run_steps rt xs r1.contexts) _ r more in
      let r_is = ran_injective (q.0, entry x r1 ∷ q.1) r end in
      subst (λ r. Alone (keep (is_own v t) (x ∷ xs)) cs' r) r_is
        (elim (Bool-cases (is_own v t x)) [
          | inl e ↦
              let (ids, texts) = is_own_same v t x e in
              let here = λ (c : List (Context J R)).
                find_context_same {R = R} x.world v x.query_str t c ids texts in
              let (r1', (runs', agrees)) =
                run_action-Agrees rt x.world x.query_str x.action cs cs' r1
                  (here cs ∙ (same ∙ sym (here cs'))) runs in
              let found = sym (here r1.contexts) ∙ (agrees.0 ∙ here r1'.contexts) in
              subst (λ ys. Alone ys cs' (q.0, entry x r1 ∷ q.1)) (sym (keep_own x xs e))
                (own_step x (keep (is_own v t) xs) cs' r1 r1' q e runs'
                  (same_entry x x.world x.query_str r1 r1' agrees)
                  (run_steps-keep xs r1.contexts r1'.contexts q found rest))
          | inr e ↦
              let kept =
                run_action-keeps_others x.world v x.query_str t (is_own_different v t x e) rt
                  x.action cs r1 runs in
              subst (λ ys. Alone ys cs' (q.0, entry x r1 ∷ q.1)) (sym (keep_other x xs e))
                (other_step x (keep (is_own v t) xs) cs' r1 q e
                  (run_steps-keep xs r1.contexts cs' q (kept ∙ same) rest))
        ])
