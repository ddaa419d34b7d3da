-- ===== src/Logfmt/Print.antt =====
-- A written line of pairs is read back, and a line that ends in a space never is.
use nblex.Base.{
  ℕ, zero, suc, ◌<◌, ◌≡◌, refl, arith, true, false, Option, none, some, List, [], ◌∷◌, ◌++◌, ◌==◌,
  length, All, Bool-cases, inl, inr,
}
use nblex.Logfmt.{
  Value, Accepts, is_key_char, not_space, value_of, pair_of, parse_key_value_pair, detect_value,
  set_pair, step, parse_pairs, finish, found_any, nblex_parse_logfmt_line,
}
use nblex.Runtime.{Runtime}
use nblex.Text.{Bytes, isspace, str_eq}
use nblex.Text.Object.{Object, set_member, set_members, member, last_of, member-last_of}
use nblex.Text.Scan.{span_take, span_drop, span_take-append, span_drop-append}

-- a key is not empty, and has no `=` and no space
abbrev pub IsKey : Bytes → Type 0
IsKey [] = ⊥
IsKey (c ∷ k) = All (λ c. is_key_char c ≡ true) (c ∷ k)

-- a value has no space, and no quote in front
abbrev pub IsValue : Bytes → Type 0
IsValue [] = Unit
IsValue (c ∷ v) = ((c == b'"') ≡ false) × All (λ c. not_space c ≡ true) (c ∷ v)

-- the text behind a value: nothing, or a space first
abbrev pub Stops : Bytes → Type 0
Stops [] = Unit
Stops (c ∷ t) = isspace c ≡ true

span_take_stop : (t : Bytes) → Stops t → span_take not_space t ≡ []
unfolding span_take
span_take_stop [] s = refl
span_take_stop (c ∷ t) s = rw s refl

span_drop_stop : (t : Bytes) → Stops t → span_drop not_space t ≡ t
unfolding span_drop
span_drop_stop [] s = refl
span_drop_stop (c ∷ t) s = rw s refl

value_of-append :
    (k v t : Bytes)
    → IsValue v
    → Stops t
    → value_of k (v ++ t) ≡ some (record { key = k; value = v; rest = t })
unfolding value_of span_take span_drop
value_of-append k [] [] h s = refl
value_of-append k [] (c ∷ t) h s =
    let plain : (c == b'"') ≡ false = ground arith in rw (plain, s) refl
value_of-append k (c ∷ v) t h s =
    rw
      (
        h.0,
        h.1.0,
        span_take-append not_space v t h.1.1 (span_take_stop t s),
        span_drop-append not_space v t h.1.1 (span_drop_stop t s),
      )
      refl

pair_of-append :
    (k v t : Bytes)
    → IsKey k
    → IsValue v
    → Stops t
    → pair_of
        (span_take is_key_char (k ++ b'=' ∷ (v ++ t)))
        (span_drop is_key_char (k ++ b'=' ∷ (v ++ t)))
      ≡ some (record { key = k; value = v; rest = t })
unfolding pair_of span_take span_drop
pair_of-append [] v t h i s = absurd h
pair_of-append (c ∷ k) v t h i s =
    rw
      (
        h.0,
        span_take-append is_key_char k (b'=' ∷ (v ++ t)) h.1 refl,
        span_drop-append is_key_char k (b'=' ∷ (v ++ t)) h.1 refl,
      )
      (value_of-append (c ∷ k) v t i s)

pair-append :
    (k v t : Bytes)
    → IsKey k
    → IsValue v
    → Stops t
    → parse_key_value_pair (k ++ b'=' ∷ (v ++ t)) ≡ some (record { key = k; value = v; rest = t })
unfolding parse_key_value_pair span_drop
pair-append [] v t h i s = absurd h
pair-append (c ∷ k) v t h i s =
    let solid : isspace c ≡ false = ground (arith, h.0) in
    rw solid (pair_of-append (c ∷ k) v t h i s)

-- a space in front is passed over
pair_skip :
    (c : ℕ) (s : Bytes) → isspace c ≡ true → parse_key_value_pair (c ∷ s) ≡ parse_key_value_pair s
unfolding parse_key_value_pair span_drop
pair_skip c s h = rw h refl

module _ {J R X : Type 0} (rt : Runtime J R X) (js : Accepts R) where
  -- A text that begins with a space and holds no pair is a position that the loop does not leave.
  stuck :
      (f c : ℕ) (obj : Object (Value R)) (s : Bytes)
      → isspace c ≡ true
      → parse_key_value_pair (c ∷ s) ≡ none
      → parse_pairs rt js f obj (c ∷ s) ≡ none
  unfolding parse_pairs step span_drop
  stuck zero c obj s h p = refl
  stuck (suc f) c obj s h p =
      let stays : not_space c ≡ false = ground arith in rw (p, stays) (stuck f c obj s h p)

  -- However long it runs, the parser does not return from a line in which a space behind a pair is
  -- followed by no other pair, such as a line that ends in a space.
  pub trailing_space_hangs :
      (f c : ℕ) (k v t : Bytes) (x : Value R)
      → IsKey k
      → IsValue v
      → isspace c ≡ true
      → parse_key_value_pair (c ∷ t) ≡ none
      → js.utf8 k ≡ true
      → detect_value rt js v ≡ some x
      → nblex_parse_logfmt_line rt js f (k ++ b'=' ∷ (v ++ c ∷ t)) ≡ none
  unfolding nblex_parse_logfmt_line finish parse_pairs step set_pair
  trailing_space_hangs zero c k v t x hk hv h p u d = refl
  trailing_space_hangs (suc f) c [] v t x hk hv h p u d = absurd hk
  trailing_space_hangs (suc f) c (a ∷ k) v t x hk hv h p u d =
      rw (pair-append (a ∷ k) v (c ∷ t) hk hv h, d, u, stuck f c (set_member (a ∷ k) x []) t h p)
        refl

  -- A pair as it is written, and the value that is read.
  pub record Written : Type 0 where
    pub key : Bytes
    pub text : Bytes
    pub value : Value R
    pub is_key : IsKey key
    pub is_value : IsValue text
    pub utf8_key : js.utf8 key ≡ true
    pub detected : detect_value rt js text ≡ some value

  -- what stands behind a pair: the other pairs, each behind a space
  abbrev pub print_rest : List Written → Bytes
  print_rest [] = []
  print_rest (w ∷ ws) = b' ' ∷ (w.key ++ b'=' ∷ (w.text ++ print_rest ws))

  abbrev pub print : List Written → Bytes
  print [] = []
  print (w ∷ ws) = w.key ++ b'=' ∷ (w.text ++ print_rest ws)

  abbrev pub pairs : List Written → List (Bytes × Value R)
  pairs [] = []
  pairs (w ∷ ws) = (w.key, w.value) ∷ pairs ws

  rest-Stops : (ws : List Written) → Stops (print_rest ws)
  rest-Stops [] = tt
  rest-Stops (w ∷ ws) = refl

  -- the object, when these pairs have been set in `obj`
  abbrev set_all : Object (Value R) → List Written → Object (Value R)
  set_all obj ws = set_members obj (pairs ws)

  read_pair :
      (n : ℕ) (w : Written) (k t : Bytes) (obj : Object (Value R)) (o : Option (Object (Value R)))
      → IsKey k
      → js.utf8 k ≡ true
      → Stops t
      → parse_pairs rt js n (set_member k w.value obj) t ≡ some o
      → parse_pairs rt js (suc n) obj (k ++ b'=' ∷ (w.text ++ t)) ≡ some o
  unfolding parse_pairs step set_pair
  read_pair n w [] t obj o hk u s h = absurd hk
  read_pair n w (a ∷ k) t obj o hk u s h =
      rw (pair-append (a ∷ k) w.text t hk w.is_value s, w.detected, u) h

  read_next :
      (n : ℕ) (w : Written) (t : Bytes) (obj : Object (Value R)) (o : Option (Object (Value R)))
      → Stops t
      → parse_pairs rt js n (set_member w.key w.value obj) t ≡ some o
      → parse_pairs rt js (suc n) obj (b' ' ∷ (w.key ++ b'=' ∷ (w.text ++ t))) ≡ some o
  unfolding parse_pairs step set_pair
  read_next n w t obj o s h =
      rw
        (
          pair_skip b' ' (w.key ++ b'=' ∷ (w.text ++ t)) refl,
          pair-append w.key w.text t w.is_key w.is_value s,
          w.detected,
          w.utf8_key,
        )
        h

  read_rest :
      (n : ℕ) (ws : List Written) (obj : Object (Value R))
      → length ws < n
      → parse_pairs rt js n obj (print_rest ws) ≡ some (some (set_all obj ws))
  unfolding parse_pairs set_members
  read_rest zero ws obj h = absurd (omega (arith, h))
  read_rest (suc n) [] obj h = refl
  read_rest (suc n) (w ∷ ws) obj h =
      read_next n w (print_rest ws) obj _ (rest-Stops ws)
        (read_rest n ws (set_member w.key w.value obj) (omega (arith, h)))

  -- an object with a member keeps one
  abbrev HasMember : Object (Value R) → Type 0
  HasMember [] = ⊥
  HasMember (m ∷ o) = Unit

  set_member-HasMember :
      (k : Bytes) (v : Value R) (o : Object (Value R)) → HasMember (set_member k v o)
  unfolding set_member
  set_member-HasMember k v [] = tt
  set_member-HasMember k v ((k', x) ∷ o) = elim (Bool-cases (str_eq k k')) [
    | inl e ↦ rw e tt
    | inr e ↦ rw e tt
  ]

  set_members-HasMember :
      (ps : List (Bytes × Value R)) (o : Object (Value R))
      → HasMember o
      → HasMember (set_members o ps)
  unfolding set_members
  set_members-HasMember [] o h = h
  set_members-HasMember ((k, v) ∷ ps) o h =
      set_members-HasMember ps (set_member k v o) (set_member-HasMember k v o)

  found_any-HasMember : (o : Object (Value R)) → HasMember o → found_any rt js (some o) ≡ some o
  unfolding found_any
  found_any-HasMember [] h = absurd h
  found_any-HasMember (m ∷ o) h = refl

  -- A line of pairs with a space between each two is read back, by as many rounds as it has pairs
  -- and one for the end: the object has, under each key, the value that the text of the last pair
  -- with that key stands for, and no other
  -- key. Keys are not empty and hold no white space and no '=', values hold no white space and begin
  -- with no quote, and jansson accepts both.
  pub parse_logfmt_line-print :
      (n : ℕ) (w : Written) (ws : List Written)
      → length (w ∷ ws) < n
      → (o : Object (Value R)) × (nblex_parse_logfmt_line rt js n (print (w ∷ ws)) ≡ some (some o))
        × ((key : Bytes) → member key o ≡ last_of key (pairs (w ∷ ws)))
  unfolding nblex_parse_logfmt_line finish set_members
  parse_logfmt_line-print zero w ws h = absurd (omega (arith, h))
  parse_logfmt_line-print (suc n) w ws h =
      let first = set_member w.key w.value [] in
      let o = set_all first ws in
      let read =
        read_pair n w w.key (print_rest ws) [] (some o) w.is_key w.utf8_key (rest-Stops ws)
          (read_rest n ws first (omega (arith, h))) in
      let one = set_members-HasMember (pairs ws) first (set_member-HasMember w.key w.value []) in
      (o, rw (read, found_any-HasMember o one) refl, λ key. member-last_of key (pairs (w ∷ ws)))
