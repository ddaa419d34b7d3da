-- ===== src/Text/Scan.antt =====
-- The scanning loops `while (*pos && test (*pos)) pos++` that every parser of the program uses.
use nblex.Base.{
  ℕ, ◌+◌, ◌≤◌, Bool, true, List, [], ◌∷◌, ◌++◌, ◌≡◌, refl, ap, arith, length, length-append, All,
  if◌then◌else◌, Bool-cases, inl, inr,
}

-- What is passed over, and what is left.
unfoldable pub span_take : (ℕ → Bool) → List ℕ → List ℕ
span_take p [] = []
span_take p (c ∷ s) = let rest = span_take p s in if p c then c ∷ rest else []

unfoldable pub span_drop : (ℕ → Bool) → List ℕ → List ℕ
span_drop p [] = []
span_drop p (c ∷ s) = let rest = span_drop p s in if p c then rest else c ∷ s

module _ (p : ℕ → Bool) where
  pub length-span_drop-le : (s : List ℕ) → length (span_drop p s) ≤ length s
  unfolding span_drop
  length-span_drop-le [] = omega arith
  length-span_drop-le (c ∷ s) = ground (arith, length-span_drop-le s)

  pub span_take-append-span_drop : (s : List ℕ) → span_take p s ++ span_drop p s ≡ s
  unfolding span_take span_drop
  span_take-append-span_drop [] = refl
  span_take-append-span_drop (c ∷ s) = elim (Bool-cases (p c)) [
    | inl e ↦ rw e (ap (◌∷◌ c) (span_take-append-span_drop s))
    | inr e ↦ rw e
  ]

  -- A run of passing characters in front of a string that stops the loop is split off exactly.
  pub span_drop-append :
      (w s : List ℕ) → All (λ c. p c ≡ true) w → span_drop p s ≡ s → span_drop p (w ++ s) ≡ s
  unfolding span_drop
  span_drop-append [] s h e = e
  span_drop-append (c ∷ w) s h e = rw h.0 (span_drop-append w s h.1 e)

  pub span_take-append :
      (w s : List ℕ) → All (λ c. p c ≡ true) w → span_take p s ≡ [] → span_take p (w ++ s) ≡ w
  unfolding span_take
  span_take-append [] s h e = e
  span_take-append (c ∷ w) s h e = rw h.0 (ap (◌∷◌ c) (span_take-append w s h.1 e))

  pub length-span : (s : List ℕ) → length (span_take p s) + length (span_drop p s) ≡ length s
  length-span s =
      rw (← length-append (span_take p s) (span_drop p s)) (rw span_take-append-span_drop)
