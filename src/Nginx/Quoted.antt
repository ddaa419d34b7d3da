-- ===== src/Nginx/Quoted.antt =====
-- The loop of src/parsers/nginx_parser.c over a quoted text, which steps over `\"`:
-- `while (*end && *end != '"') { if (*end == '\\' && *(end + 1) == '"') end += 2; else end++; }`.
use nblex.Base.{ℕ, ◌≡◌, refl, ap, ◌∙◌, false, ◌&&◌, [], ◌∷◌, ◌++◌, ◌==◌, if◌then◌else◌}
use nblex.Text.{Bytes}

unfoldable pub escaped_take : Bytes → Bytes
escaped_take [] = []
escaped_take (c ∷ []) = if c == b'"' then [] else c ∷ []
escaped_take (c ∷ d ∷ s) =
    let two = c ∷ d ∷ escaped_take s in
    let one = c ∷ escaped_take (d ∷ s) in
    if c == b'"' then [] else if c == b'\\' && d == b'"' then two else one

unfoldable pub escaped_drop : Bytes → Bytes
escaped_drop [] = []
escaped_drop (c ∷ []) = if c == b'"' then c ∷ [] else []
escaped_drop (c ∷ d ∷ s) =
    let two = escaped_drop s in
    let one = escaped_drop (d ∷ s) in
    if c == b'"' then c ∷ d ∷ s else if c == b'\\' && d == b'"' then two else one

-- a text that can stand between quotes: each quote of its own is behind a backslash, and it does
-- not end in a backslash of its own
pub data Quotable : Bytes → Type 0 where
  end : Quotable []
  plain :
      (c : ℕ) (s : Bytes)
      → (c == b'"') ≡ false
      → (c == b'\\') ≡ false
      → Quotable s
      → Quotable (c ∷ s)
  backslash :
      (d : ℕ) (s : Bytes) → (d == b'"') ≡ false → Quotable (d ∷ s) → Quotable (b'\\' ∷ d ∷ s)
  quote : (s : Bytes) → Quotable s → Quotable (b'\\' ∷ b'"' ∷ s)

take_plain :
    (c : ℕ) (t : Bytes)
    → (c == b'"') ≡ false
    → (c == b'\\') ≡ false
    → escaped_take (c ∷ t) ≡ c ∷ escaped_take t
unfolding escaped_take
take_plain c [] q b = rw q refl
take_plain c (d ∷ t) q b = rw (q, b) refl

drop_plain :
    (c : ℕ) (t : Bytes)
    → (c == b'"') ≡ false
    → (c == b'\\') ≡ false
    → escaped_drop (c ∷ t) ≡ escaped_drop t
unfolding escaped_drop
drop_plain c [] q b = rw q refl
drop_plain c (d ∷ t) q b = rw (q, b) refl

take_backslash :
    (d : ℕ) (t : Bytes)
    → (d == b'"') ≡ false
    → escaped_take (b'\\' ∷ d ∷ t) ≡ b'\\' ∷ escaped_take (d ∷ t)
unfolding escaped_take
take_backslash d t q = rw q refl

drop_backslash :
    (d : ℕ) (t : Bytes) → (d == b'"') ≡ false → escaped_drop (b'\\' ∷ d ∷ t) ≡ escaped_drop (d ∷ t)
unfolding escaped_drop
drop_backslash d t q = rw q refl

take_quote : (t : Bytes) → escaped_take (b'\\' ∷ b'"' ∷ t) ≡ b'\\' ∷ b'"' ∷ escaped_take t
unfolding escaped_take
take_quote t = refl

drop_quote : (t : Bytes) → escaped_drop (b'\\' ∷ b'"' ∷ t) ≡ escaped_drop t
unfolding escaped_drop
drop_quote t = refl

take_end : (t : Bytes) → escaped_take (b'"' ∷ t) ≡ []
unfolding escaped_take
take_end [] = refl
take_end (c ∷ t) = refl

drop_end : (t : Bytes) → escaped_drop (b'"' ∷ t) ≡ b'"' ∷ t
unfolding escaped_drop
drop_end [] = refl
drop_end (c ∷ t) = refl

-- A quotable text is taken up to the quote behind it.
pub escaped_take-Quotable : (w t : Bytes) → Quotable w → escaped_take (w ++ b'"' ∷ t) ≡ w
escaped_take-Quotable _ t end = take_end t
escaped_take-Quotable _ t (plain c s q b h) =
    take_plain c (s ++ b'"' ∷ t) q b ∙ ap (◌∷◌ c) (escaped_take-Quotable s t h)
escaped_take-Quotable _ t (backslash d s q h) =
    take_backslash d (s ++ b'"' ∷ t) q ∙ ap (◌∷◌ b'\\') (escaped_take-Quotable (d ∷ s) t h)
escaped_take-Quotable _ t (quote s h) =
    take_quote (s ++ b'"' ∷ t) ∙ ap (λ r. b'\\' ∷ b'"' ∷ r) (escaped_take-Quotable s t h)

pub escaped_drop-Quotable : (w t : Bytes) → Quotable w → escaped_drop (w ++ b'"' ∷ t) ≡ b'"' ∷ t
escaped_drop-Quotable _ t end = drop_end t
escaped_drop-Quotable _ t (plain c s q b h) =
    drop_plain c (s ++ b'"' ∷ t) q b ∙ escaped_drop-Quotable s t h
escaped_drop-Quotable _ t (backslash d s q h) =
    drop_backslash d (s ++ b'"' ∷ t) q ∙ escaped_drop-Quotable (d ∷ s) t h
escaped_drop-Quotable _ t (quote s h) = drop_quote (s ++ b'"' ∷ t) ∙ escaped_drop-Quotable s t h
