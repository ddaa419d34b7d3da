-- ===== src/Text/Quoted.antt =====
-- The loop over a double-quoted text that steps over `\` and the character behind it:
-- `while (*p && *p != '"') { if (*p == '\\' && *(p + 1)) p += 2; else p++; }`.
use nblex.Base.{
  ℕ, ◌≤◌, false, [], ◌∷◌, ◌++◌, ◌≡◌, refl, ap, arith, length, All, ◌==◌, if◌then◌else◌,
}
use nblex.Text.{Bytes}

unfoldable pub quoted_take : Bytes → Bytes
quoted_take [] = []
quoted_take (c ∷ []) = if c == b'"' then [] else c ∷ []
quoted_take (c ∷ d ∷ s) =
    let two = c ∷ d ∷ quoted_take s in
    let one = c ∷ quoted_take (d ∷ s) in if c == b'"' then [] else if c == b'\\' then two else one

unfoldable pub quoted_drop : Bytes → Bytes
quoted_drop [] = []
quoted_drop (c ∷ []) = if c == b'"' then c ∷ [] else []
quoted_drop (c ∷ d ∷ s) =
    let two = quoted_drop s in
    let one = quoted_drop (d ∷ s) in
    if c == b'"' then c ∷ d ∷ s else if c == b'\\' then two else one

pub length-quoted_drop-le : (s : Bytes) → length (quoted_drop s) ≤ length s
unfolding quoted_drop
length-quoted_drop-le [] = omega arith
length-quoted_drop-le (c ∷ []) = ground arith
length-quoted_drop-le (c ∷ d ∷ s) =
    ground (arith, length-quoted_drop-le s, length-quoted_drop-le (d ∷ s))

-- no quote and no backslash
abbrev pub IsPlain : ℕ → Type 0
IsPlain c = ((c == b'"') ≡ false) × ((c == b'\\') ≡ false)

pub quoted_take-append : (w s : Bytes) → All IsPlain w → quoted_take (w ++ b'"' ∷ s) ≡ w
unfolding quoted_take
quoted_take-append [] [] h = refl
quoted_take-append [] (c ∷ s) h = refl
quoted_take-append (c ∷ []) s h = rw (h.0.0, h.0.1) (ap (◌∷◌ c) (quoted_take-append [] s tt))
quoted_take-append (c ∷ d ∷ w) s h =
    rw (h.0.0, h.0.1) (ap (◌∷◌ c) (quoted_take-append (d ∷ w) s h.1))

pub quoted_drop-append : (w s : Bytes) → All IsPlain w → quoted_drop (w ++ b'"' ∷ s) ≡ b'"' ∷ s
unfolding quoted_drop
quoted_drop-append [] [] h = refl
quoted_drop-append [] (c ∷ s) h = refl
quoted_drop-append (c ∷ []) s h = rw (h.0.0, h.0.1) (quoted_drop-append [] s tt)
quoted_drop-append (c ∷ d ∷ w) s h = rw (h.0.0, h.0.1) (quoted_drop-append (d ∷ w) s h.1)
