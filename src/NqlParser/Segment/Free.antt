-- ===== src/NqlParser/Segment/Free.antt =====
-- Texts that the scan of a filter expression passes over: no pipe and no `w` begins a word outside
-- their quotes and parentheses, so no keyword does.
use nblex.Base.{
  ℕ, ◌-◌, ◌≡◌, ◌⊎◌, refl, sym, ap, ◌∙◌, arith, Bool, true, false, not, ◌&&◌, ◌||◌, Option, some,
  List, [], ◌∷◌, ◌++◌, append_assoc, append-nil, ◌==◌, length, length-append, drop, All, Bool-cases,
  &&_split, inl, inr,
}
use mathlib.Core.Path.{subst}
use nblex.Filter.{FilterNode}
use nblex.Filter.Parse.{skip_space, nblex_filter_new}
use nblex.NqlParser.{ok, nth, char_before, begins_word, ends_word, keyword_at_position}
use nblex.NqlParser.Segment.{
  Mode, plain, quoted, escaped, is_quote, scan, stops, any_keyword, next_mode, next_depth, trim_end,
  cons_unless_space, parse_segment, filter_of, filter_or_error,
}
use nblex.Runtime.{Runtime}
use nblex.Text.{Bytes, isspace, tolower, starts_with_nocase}
use nblex.Text.Scan.{span_drop}

passes : Mode → ℕ → ℕ → ℕ → Bool
passes plain depth prev c =
    not (depth == 0) || (not (c == b'|') && (not (begins_word prev) || not (tolower c == b'w')))
passes _ depth prev c = true

ends_outside : Mode → ℕ → Bool
ends_outside plain depth = depth == 0
ends_outside _ depth = false

-- `prev` is the character in front
unfoldable pub is_free : Mode → ℕ → ℕ → Bytes → Bool
unfolding passes ends_outside next_mode next_depth
is_free m depth prev [] = ends_outside m depth
is_free m depth prev (c ∷ s) =
    passes m depth prev c && is_free (next_mode m c) (next_depth m depth c) c s

unfoldable pub last_of : ℕ → Bytes → ℕ
last_of d [] = d
last_of d (c ∷ s) = last_of c s

nth_last : (x : ℕ) (pre s : Bytes) → nth (length pre) ((x ∷ pre) ++ s) ≡ last_of x pre
unfolding nth last_of
nth_last x [] s = refl
nth_last x (y ∷ pre) s = nth_last y pre s

char_before-append : (pre s : Bytes) → char_before (pre ++ s) s ≡ last_of 0 pre
unfolding char_before last_of
char_before-append [] s = let same : (length s == length s) ≡ true = ground arith in rw same refl
char_before-append (x ∷ pre) s =
    let l = length-append pre s in
    let differs : (length s == length ((x ∷ pre) ++ s)) ≡ false = ground (arith, l) in
    let index : length ((x ∷ pre) ++ s) - length s - 1 ≡ length pre = omega (arith, l) in
    rw (differs, index) (nth_last x pre s)

last_of-append : (d c : ℕ) (pre : Bytes) → last_of d (pre ++ c ∷ []) ≡ c
unfolding last_of
last_of-append d c [] = refl
last_of-append d c (x ∷ pre) = last_of-append x c pre

-- a keyword of the parser begins with a `w` or is a pipe
abbrev pub IsStop : Bytes → Type 0
IsStop [] = ⊥
IsStop (c ∷ k) = (c == b'w' || c == b'|') ≡ true

head_misses :
    (x : ℕ) (k : Bytes) (c : ℕ) (s : Bytes)
    → (x == b'w' || x == b'|') ≡ true
    → (c == b'|') ≡ false
    → (tolower c == b'w') ≡ false
    → starts_with_nocase (x ∷ k) (c ∷ s) ≡ false
unfolding starts_with_nocase
head_misses x k c s h p q =
    let differs : (tolower x == tolower c) ≡ false = ground arith in rw differs refl

conjunction : (a b e : Bool) → (a ≡ false) ⊎ (b ≡ false) → (a && (b && e)) ≡ false
conjunction a b e h = ground arith

by_letter : (b t : Bool) → t ≡ true → (not b || not t) ≡ true → b ≡ false
by_letter b t e h = ground arith

keyword_misses :
    (input : Bytes) (k : Bytes) (c : ℕ) (s : Bytes)
    → IsStop k
    → (c == b'|') ≡ false
    → (not (begins_word (char_before input (c ∷ s))) || not (tolower c == b'w')) ≡ true
    → keyword_at_position input (c ∷ s) k ≡ false
unfolding keyword_at_position
keyword_misses input [] c s h p q = absurd h
keyword_misses input (x ∷ k) c s h p q =
    conjunction (starts_with_nocase (x ∷ k) (c ∷ s)) (begins_word (char_before input (c ∷ s)))
      (ends_word (drop (length (x ∷ k)) (c ∷ s))) (go (Bool-cases (tolower c == b'w')))
  where
    go :
        ((tolower c == b'w') ≡ true) ⊎ ((tolower c == b'w') ≡ false)
        → (starts_with_nocase (x ∷ k) (c ∷ s) ≡ false)
          ⊎ (begins_word (char_before input (c ∷ s)) ≡ false)
    go (inl e) = inr (by_letter (begins_word (char_before input (c ∷ s))) (tolower c == b'w') e q)
    go (inr e) = inl (head_misses x k c s h p e)

any_keyword_misses :
    (input : Bytes) (ks : List Bytes) (c : ℕ) (s : Bytes)
    → All IsStop ks
    → (c == b'|') ≡ false
    → (not (begins_word (char_before input (c ∷ s))) || not (tolower c == b'w')) ≡ true
    → any_keyword input ks (c ∷ s) ≡ false
unfolding any_keyword
any_keyword_misses input [] c s h p q = refl
any_keyword_misses input (k ∷ ks) c s h p q =
    rw (keyword_misses input k c s h.0 p q) (any_keyword_misses input ks c s h.1 p q)

no_stop :
    (g d p k : Bool)
    → (d ≡ false) ⊎ ((p ≡ false) × (k ≡ false))
    → (not g && (d && (p || k))) ≡ false
no_stop g d p k h = ground arith

passes_outside :
    (p b t : Bool)
    → (not true || (not p && (not b || not t))) ≡ true
    → (p ≡ false) × ((not b || not t) ≡ true)
passes_outside p b t h = ground arith

-- the loop goes on at a character that passes
stops-passes :
    (pre : Bytes) (ks : List Bytes) (m : Mode) (depth c : ℕ) (s : Bytes)
    → All IsStop ks
    → passes m depth (last_of 0 pre) c ≡ true
    → stops (pre ++ c ∷ s) ks m depth (c ∷ s) ≡ false
unfolding stops passes
stops-passes pre ks plain depth c s h p =
    no_stop (is_quote c || (c == b'(' || c == b')')) (depth == 0) (c == b'|')
      (any_keyword (pre ++ c ∷ s) ks (c ∷ s)) (go (Bool-cases (depth == 0)))
  where
    go :
        ((depth == 0) ≡ true) ⊎ ((depth == 0) ≡ false)
        → ((depth == 0) ≡ false)
          ⊎ (((c == b'|') ≡ false) × (any_keyword (pre ++ c ∷ s) ks (c ∷ s) ≡ false))
    go (inr e) = inl e
    go (inl e) =
        let p' : (not true
              || (not (c == b'|')
                  && (not (begins_word (last_of 0 pre)) || not (tolower c == b'w'))))
            ≡ true =
          rw e at p in
        let (no_pipe, free) =
          passes_outside (c == b'|') (begins_word (last_of 0 pre)) (tolower c == b'w') p' in
        inr (
          no_pipe,
          any_keyword_misses (pre ++ c ∷ s) ks c s h no_pipe
              (rw (char_before-append pre (c ∷ s)) free),
        )
stops-passes pre ks (quoted q) depth c s h p = refl
stops-passes pre ks (escaped q) depth c s h p = refl

outside_end : (m : Mode) (depth : ℕ) → ends_outside m depth ≡ true → (m ≡ plain) × (depth ≡ 0)
unfolding ends_outside
outside_end plain depth h = (refl, ground arith)
outside_end (quoted q) depth h = absurd (cc)
outside_end (escaped q) depth h = absurd (cc)

-- The loop passes over a free text, and goes on behind it outside quotes and parentheses.
pub scan-is_free :
    (pre : Bytes) (ks : List Bytes) (m : Mode) (depth : ℕ) (t rest : Bytes)
    → All IsStop ks
    → is_free m depth (last_of 0 pre) t ≡ true
    → scan (pre ++ (t ++ rest)) ks m depth (t ++ rest) ≡ (
      t ++ (scan (pre ++ (t ++ rest)) ks plain 0 rest).0,
      (scan (pre ++ (t ++ rest)) ks plain 0 rest).1,
    )
unfolding is_free scan
scan-is_free pre ks m depth [] rest h f =
    let (outside, zero_depth) = outside_end m depth f in rw (outside, zero_depth) refl
scan-is_free pre ks m depth (c ∷ t) rest h f =
    let (passed, free) = &&_split (passes m depth (last_of 0 pre) c) _ f in
    let on = stops-passes pre ks m depth c (t ++ rest) h passed in
    let whole : (pre ++ c ∷ []) ++ (t ++ rest) ≡ pre ++ (c ∷ (t ++ rest)) =
      append_assoc pre (c ∷ []) (t ++ rest) in
    let free' : is_free (next_mode m c) (next_depth m depth c) (last_of 0 (pre ++ c ∷ [])) t
        ≡ true =
      rw (last_of-append 0 c pre) free in
    let ih =
      subst
        (λ input.
          scan input ks (next_mode m c) (next_depth m depth c) (t ++ rest)
          ≡ (t ++ (scan input ks plain 0 rest).0, (scan input ks plain 0 rest).1))
        whole
        (scan-is_free (pre ++ c ∷ []) ks (next_mode m c) (next_depth m depth c) t rest h free') in
    rw on (ap (λ (r : Bytes × Bytes). (c ∷ r.0, r.1)) ih)

trim_end_space : (t : Bytes) → trim_end (t ++ b' ' ∷ []) ≡ trim_end t
unfolding trim_end cons_unless_space
trim_end_space [] = refl
trim_end_space (c ∷ t) = ap (cons_unless_space c) (trim_end_space t)

-- What may stand behind a filter expression: the end of the query, or a space and a place where
-- the scan stops.
abbrev pub Ahead : Bytes → List Bytes → Bytes → Type 0
Ahead input ks [] = Unit
Ahead input ks (c ∷ s) = scan input ks plain 0 (c ∷ s) ≡ (b' ' ∷ [], s)

-- where parse_segment leaves the cursor
abbrev pub behind : Bytes → Bytes
behind [] = []
behind (c ∷ s) = s

unfoldable pub begins_solid : Bytes → Bool
begins_solid [] = false
begins_solid (c ∷ s) = not (isspace c)

-- A filter expression: a text that is free, with no white space at its ends.
pub record IsExpression (t : Bytes) : Type 0 where
  pub free : is_free plain 0 b' ' t ≡ true
  pub starts_solid : begins_solid t ≡ true
  pub ends_solid : trim_end t ≡ t

-- At the start of the query the text is free as well.
pub is_free-start : (t : Bytes) → is_free plain 0 0 t ≡ is_free plain 0 b' ' t
unfolding is_free passes
is_free-start [] = refl
is_free-start (c ∷ s) = refl

pub skip_solid : (t tail : Bytes) → begins_solid t ≡ true → skip_space (t ++ tail) ≡ t ++ tail
unfolding begins_solid span_drop
skip_solid [] tail h = absurd (cc)
skip_solid (c ∷ t) tail h = let solid : isspace c ≡ false = ground arith in rw solid refl

module _ {J R X : Type 0} (rt : Runtime J R X) where
  filter_of-text :
      (t rest : Bytes) (root : Option (FilterNode R X))
      → begins_solid t ≡ true
      → nblex_filter_new rt (some t) ≡ some root
      → filter_of rt t rest ≡ ok (root, rest)
  unfolding filter_of filter_or_error begins_solid
  filter_of-text [] rest root b h = absurd (cc)
  filter_of-text (c ∷ t) rest root b h = rw h refl

  -- An expression is read up to what stands ahead of it.
  pub parse_segment-IsExpression :
      (pre t tail : Bytes) (ks : List Bytes) (pos : Bytes) (root : Option (FilterNode R X))
      → skip_space pos ≡ t ++ tail
      → is_free plain 0 (last_of 0 pre) t ≡ true
      → IsExpression t
      → nblex_filter_new rt (some t) ≡ some root
      → All IsStop ks
      → Ahead (pre ++ (t ++ tail)) ks tail
      → parse_segment rt (pre ++ (t ++ tail)) ks pos ≡ ok (root, behind tail)
  unfolding parse_segment scan
  parse_segment-IsExpression pre t [] ks pos root p f x n k a =
      let found = scan-is_free pre ks plain 0 t [] k f in
      rw (p, found, append-nil, x.ends_solid) (filter_of-text t [] root x.starts_solid n)
  parse_segment-IsExpression pre t (c ∷ s) ks pos root p f x n k a =
      let found = scan-is_free pre ks plain 0 t (c ∷ s) k f in
      rw (p, found, a, trim_end_space t, x.ends_solid) (filter_of-text t s root x.starts_solid n)

-- The cursor at `s` within the input, behind the character `prev`.
pub record At (input : Bytes) (prev : ℕ) (s : Bytes) : Type 0 where
  pub before : Bytes
  pub whole : before ++ s ≡ input
  pub last : last_of 0 before ≡ prev

last_of_split : (d : ℕ) (u w : Bytes) → last_of d (u ++ w) ≡ last_of (last_of d u) w
unfolding last_of
last_of_split d [] w = refl
last_of_split d (c ∷ u) w = last_of_split c u w

-- The cursor moves over what is read.
pub At-step : (input w s : Bytes) (prev : ℕ) → At input prev (w ++ s) → At input (last_of prev w) s
At-step input w s prev a = record {
  before = a.before ++ w;
  whole = append_assoc a.before w s ∙ a.whole;
  last = last_of_split 0 a.before w ∙ ap (λ d. last_of d w) a.last;
}

pub At-char_before : (input s : Bytes) (prev : ℕ) → At input prev s → char_before input s ≡ prev
At-char_before input s prev a =
    ap (λ i. char_before i s) (sym a.whole) ∙ (char_before-append a.before s ∙ a.last)

no_keyword_at_space :
    (input : Bytes) (ks : List Bytes) (s : Bytes)
    → All IsStop ks
    → any_keyword input ks (b' ' ∷ s) ≡ false
no_keyword_at_space input ks s h = any_keyword_misses input ks b' ' s h refl (ground arith)

-- A space and a place where the scan stops.
pub Ahead-stop :
    (input : Bytes) (ks : List Bytes) (s : Bytes)
    → All IsStop ks
    → scan input ks plain 0 s ≡ ([], s)
    → Ahead input ks (b' ' ∷ s)
unfolding scan stops next_mode next_depth
Ahead-stop input ks s h e = rw (no_keyword_at_space input ks s h, e) refl

module _ {J R X : Type 0} (rt : Runtime J R X) where
  pub parse_segment-At :
      (input t tail : Bytes) (ks : List Bytes) (pos : Bytes) (root : Option (FilterNode R X))
      (prev : ℕ)
      → skip_space pos ≡ t ++ tail
      → (prev ≡ b' ') ⊎ (prev ≡ 0)
      → At input prev (t ++ tail)
      → IsExpression t
      → nblex_filter_new rt (some t) ≡ some root
      → All IsStop ks
      → Ahead input ks tail
      → parse_segment rt input ks pos ≡ ok (root, behind tail)
  parse_segment-At input t tail ks pos root prev p b at x n k a =
      let free : is_free plain 0 (last_of 0 at.before) t ≡ true = rw at.last (go b) in
      subst (λ i. parse_segment rt i ks pos ≡ ok (root, behind tail)) at.whole
        (parse_segment-IsExpression rt at.before t tail ks pos root p free x n k
          (subst (λ i. Ahead i ks tail) (sym at.whole) a))
    where
      go : (prev ≡ b' ') ⊎ (prev ≡ 0) → is_free plain 0 prev t ≡ true
      go (inl e) = rw e x.free
      go (inr e) = rw e (is_free-start t ∙ x.free)
