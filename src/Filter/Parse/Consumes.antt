-- ===== src/Filter/Parse/Consumes.antt =====
-- src/core/filter_engine.c: parse_filter_expr consumes what it parses.
use nblex.Base.{
  ℕ, zero, suc, ◌+◌, ◌≤◌, ◌<◌, true, [], ◌∷◌, Option, none, some, ◌≡◌, refl, arith, length,
  length-drop, drop, ◌==◌, Bool-cases, inl, inr, &&_split,
}
use nblex.Filter.{FilterOp, FilterNode}
use nblex.Filter.Parse.{
  skip_space, is_field_char, not_space, at_char, parse_operator, parse_value, parse_comparison,
  parse_filter_expr, with_operator, with_field, close_paren, negate, at_not, skip_close,
}
use nblex.Runtime.{Runtime, StrtodShrinks}
use nblex.Text.{Bytes, codes, isspace, starts_with}
use nblex.Text.Number.{length-strtol-le}
use nblex.Text.Quoted.{length-quoted_drop-le}
use nblex.Text.Scan.{length-span_drop-le, length-span}

length-parse_operator :
    (pos : Bytes) {op : FilterOp} {r : Bytes}
    → parse_operator pos ≡ some (op, r)
    → length r ≤ length pos
unfolding parse_operator
length-parse_operator pos h =
    ground (arith, length-drop 2 pos, length-drop 1 pos, length-drop 8 pos)

length-skip_close-le : (s : Bytes) → length (skip_close s) ≤ length s
length-skip_close-le [] = omega arith
length-skip_close-le (c ∷ s) = ground arith

pub at_char-length : (c : ℕ) (s : Bytes) → at_char c s ≡ true → 0 < length s
unfolding at_char
at_char-length c [] h = cc
at_char-length c (x ∷ s) h = omega arith

starts_with-length : (p s : Bytes) → starts_with p s ≡ true → length p ≤ length s
unfolding starts_with
starts_with-length [] s h = omega arith
starts_with-length (a ∷ p) [] h = cc
starts_with-length (a ∷ p) (c ∷ s) h =
    omega (arith, starts_with-length p s (&&_split (a == c) (starts_with p s) h).1)

pub at_not-length : (s : Bytes) → at_not s ≡ true → 3 ≤ length s
at_not-length s h = elim (Bool-cases (starts_with (codes "NOT") s)) [
  | inl e ↦ starts_with-length (codes "NOT") s e
  | inr e ↦ starts_with-length (codes "not") s (rw e at h)
]

module _ {J R X : Type 0} (rt : Runtime J R X) where
  length-parse_value-le :
      (op : FilterOp) (pos : Bytes)
      → StrtodShrinks rt
      → length (parse_value rt op pos).rest ≤ length pos
  unfolding parse_value
  length-parse_value-le op pos shrinks = ground (
    arith,
    length-drop 1 pos,
    length-drop 4 pos,
    length-drop 5 pos,
    length-quoted_drop-le (drop 1 pos),
    length-strtol-le pos,
    shrinks pos,
    length-span_drop-le not_space pos,
  )

  -- what is left after a success is shorter than `k`
  abbrev pub Shorter : ℕ → Option (FilterNode R X × Bytes) → Type 0
  Shorter k none = Unit
  Shorter k (some (n, r)) = length r < k

  Shorter-with_operator :
      (field pos : Bytes) (o : Option (FilterOp × Bytes))
      → StrtodShrinks rt
      → parse_operator pos ≡ o
      → Shorter (suc (length pos)) (with_operator rt field o)
  unfolding with_operator
  Shorter-with_operator field pos none shrinks e = tt
  Shorter-with_operator field pos (some (op, p)) shrinks e = omega (
    arith,
    length-parse_operator pos e,
    length-parse_value-le op (skip_space p) shrinks,
    length-span_drop-le isspace p,
  )

  Shorter-le : {j k : ℕ} (m : Option (FilterNode R X × Bytes)) → Shorter j m → j ≤ k → Shorter k m
  Shorter-le none h le = tt
  Shorter-le (some (n, r)) h le = omega arith

  Shorter-with_field :
      (field pos : Bytes)
      → StrtodShrinks rt
      → Shorter (length field + length pos) (with_field rt field pos)
  unfolding with_field
  Shorter-with_field [] pos shrinks = tt
  Shorter-with_field (c ∷ cs) pos shrinks =
      Shorter-le _ (Shorter-with_operator (c ∷ cs) (skip_space pos) _ shrinks refl)
        (omega (arith, length-span_drop-le isspace pos))

  Shorter-parse_comparison :
      (pos : Bytes) → StrtodShrinks rt → Shorter (length pos) (parse_comparison rt pos)
  unfolding parse_comparison
  Shorter-parse_comparison pos shrinks =
      rw (← length-span is_field_char pos) (Shorter-with_field _ _ shrinks)

  Shorter-close_paren :
      (k : ℕ) (m : Option (FilterNode R X × Bytes)) → Shorter k m → Shorter k (close_paren rt m)
  unfolding close_paren
  Shorter-close_paren k none h = tt
  Shorter-close_paren k (some (n, r)) h =
      omega (arith, length-skip_close-le (skip_space r), length-span_drop-le isspace r)

  Shorter-negate :
      (k : ℕ) (m : Option (FilterNode R X × Bytes)) → Shorter k m → Shorter k (negate rt m)
  unfolding negate
  Shorter-negate k none h = tt
  Shorter-negate k (some (n, r)) h = h

  -- A parsed expression has consumed at least one character.
  pub Shorter-parse_filter_expr :
      (f : ℕ) (s : Bytes) → StrtodShrinks rt → Shorter (length s) (parse_filter_expr rt f s)
  unfolding parse_filter_expr
  Shorter-parse_filter_expr zero s shrinks = tt
  Shorter-parse_filter_expr (suc f) s shrinks =
      let pos = skip_space s in
      let le : length pos ≤ length s = length-span_drop-le isspace s in
      elim (Bool-cases (at_char b'(' pos)) [
        | inl e ↦ rw e (
            Shorter-close_paren _ _ (
              Shorter-le _ (Shorter-parse_filter_expr f (drop 1 pos) shrinks)
                (omega (arith, length-drop 1 pos))))
        | inr e ↦ rw e (elim (Bool-cases (at_not pos)) [
          | inl e' ↦ rw e' (
              Shorter-negate _ _ (
                Shorter-le _ (Shorter-parse_filter_expr f (drop 3 pos) shrinks)
                  (omega (arith, length-drop 3 pos))))
          | inr e' ↦ rw e' (Shorter-le _ (Shorter-parse_comparison pos shrinks) le)
        ])
      ]
