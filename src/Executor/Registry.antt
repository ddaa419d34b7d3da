-- ===== src/Executor/Registry.antt =====
-- The search of a context and the write to it, in src/core/nql_executor.c.
use nblex.Base.{
  ℕ, ◌≡◌, refl, sym, ap, ◌∙◌, arith, true, false, Option, none, some, List, [], ◌∷◌, ◌==◌,
  Bool-cases, Option-cases, &&_split, inl, inr,
}
use nblex.Executor.{World, State, Context, is_context, find_context, add_context, write_context}
use nblex.Text.{Bytes, str_eq, str_eq_self, str_eq→eq}

module _ {J R : Type 0} (w : World) (query_str : Bytes) where
  store_found : State J R → List (Context J R) → Option (State J R) → List (Context J R)
  unfolding write_context
  store_found st cs none = add_context w query_str st cs
  store_found st cs (some old) = write_context w query_str st cs

  -- The contexts with the state `st`: in the context that is found, or else in a new one.
  unfoldable pub store : State J R → List (Context J R) → List (Context J R)
  unfolding store_found find_context
  store st cs = store_found st cs (find_context w query_str cs)

  is_context_new :
      (st : State J R)
      → is_context w query_str (record { world = w.id; query_string = query_str; state = st })
        ≡ true
  unfolding is_context
  is_context_new st =
      let same = str_eq_self query_str in
      let same_world : (w.id == w.id) ≡ true = ground arith in rw (same, same_world) refl

  find-add :
      (st : State J R) (cs : List (Context J R))
      → find_context w query_str (add_context w query_str st cs) ≡ some st
  unfolding find_context
  find-add st cs = rw (is_context_new st) refl

  pub write-add :
      (st st' : State J R) (cs : List (Context J R))
      → write_context w query_str st' (add_context w query_str st cs)
        ≡ add_context w query_str st' cs
  unfolding write_context
  write-add st st' cs = rw (is_context_new st) refl

  find-write :
      (st old : State J R) (cs : List (Context J R))
      → find_context w query_str cs ≡ some old
      → find_context w query_str (write_context w query_str st cs) ≡ some st
  unfolding find_context write_context
  find-write st old [] h = absurd (cc)
  find-write st old (c ∷ cs) h = elim (Bool-cases (is_context w query_str c)) [
    | inl e ↦ rw (e, e) refl
    | inr e ↦
        let h' : find_context w query_str cs ≡ some old = rw e at h in
        rw (e, e) (find-write st old cs h')
  ]

  write-write :
      (st st' : State J R) (cs : List (Context J R))
      → write_context w query_str st' (write_context w query_str st cs)
        ≡ write_context w query_str st' cs
  unfolding write_context
  write-write st st' [] = refl
  write-write st st' (c ∷ cs) = elim (Bool-cases (is_context w query_str c)) [
    | inl e ↦ rw (e, e) refl
    | inr e ↦ rw (e, e) (ap (λ r. c ∷ r) (write-write st st' cs))
  ]

  pub store-none :
      (st : State J R) (cs : List (Context J R))
      → find_context w query_str cs ≡ none
      → store st cs ≡ add_context w query_str st cs
  unfolding store store_found
  store-none st cs h = rw h refl

  pub store-some :
      (st old : State J R) (cs : List (Context J R))
      → find_context w query_str cs ≡ some old
      → store st cs ≡ write_context w query_str st cs
  unfolding store store_found
  store-some st old cs h = rw h refl

  pub find-store :
      (st : State J R) (cs : List (Context J R)) → find_context w query_str (store st cs) ≡ some st
  find-store st cs = elim (Option-cases (find_context w query_str cs)) [
    | inl e ↦ rw (store-none st cs e) (find-add st cs)
    | inr (old, e) ↦ rw (store-some st old cs e) (find-write st old cs e)
  ]

  pub store-store :
      (st st' : State J R) (cs : List (Context J R)) → store st' (store st cs) ≡ store st' cs
  store-store st st' cs = elim (Option-cases (find_context w query_str cs)) [
    | inl e ↦
        store-some st' st (store st cs) (find-store st cs)
        ∙ rw (store-none st cs e, store-none st' cs e) (write-add st st' cs)
    | inr (old, e) ↦
        store-some st' st (store st cs) (find-store st cs)
        ∙ rw (store-some st old cs e, store-some st' old cs e) (write-write st st' cs)
  ]

ids_equal : (c a b : ℕ) → (c == a) ≡ true → (c == b) ≡ true → a ≡ b
ids_equal c a b h k = ground arith

-- two contexts of different worlds or of different query strings
abbrev pub AreDifferent : World → Bytes → World → Bytes → Type 0
AreDifferent w s v t = ¬ ((w.id ≡ v.id) × (s ≡ t))

module _ {J R : Type 0} (w v : World) (s t : Bytes) (different : AreDifferent w s v t) where
  is_context_other : (c : Context J R) → is_context w s c ≡ true → is_context v t c ≡ false
  unfolding is_context
  is_context_other c h = elim (Bool-cases (is_context v t c)) [
    | inr e ↦ e
    | inl e ↦
        let (text, world) = &&_split (str_eq c.query_string s) (c.world == w.id) h in
        let (text', world') = &&_split (str_eq c.query_string t) (c.world == v.id) e in
        let ids : w.id ≡ v.id = ids_equal c.world w.id v.id world world' in
        absurd (
          different (ids, sym (str_eq→eq c.query_string s text) ∙ str_eq→eq c.query_string t text'))
  ]

  is_context_state :
      (c : Context J R) (st : State J R)
      → is_context v t (record c { state = st }) ≡ is_context v t c
  unfolding is_context
  is_context_state c st = refl

  find-write-other :
      (st : State J R) (cs : List (Context J R))
      → find_context v t (write_context w s st cs) ≡ find_context v t cs
  unfolding find_context write_context
  find-write-other st [] = refl
  find-write-other st (c ∷ cs) = elim (Bool-cases (is_context w s c)) [
    | inl e ↦ rw (e, is_context_state c st, is_context_other c e) refl
    | inr e ↦ rw (e, find-write-other st cs) refl
  ]

  find-add-other :
      (st : State J R) (cs : List (Context J R))
      → find_context v t (add_context w s st cs) ≡ find_context v t cs
  unfolding find_context
  find-add-other st cs =
      rw
        (is_context_other (record { world = w.id; query_string = s; state = st })
          (is_context_new w s st))
        refl

  -- What is stored in one context leaves every other one as it is.
  pub find-store-other :
      (st : State J R) (cs : List (Context J R))
      → find_context v t (store w s st cs) ≡ find_context v t cs
  find-store-other st cs = elim (Option-cases (find_context w s cs)) [
    | inl e ↦ rw (store-none w s st cs e) (find-add-other st cs)
    | inr (old, e) ↦ rw (store-some w s st old cs e) (find-write-other st cs)
  ]
