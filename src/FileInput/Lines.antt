-- ===== src/FileInput/Lines.antt =====
-- src/input/file_input.c: the lines of a text, as fgets and the code behind it take them.
use nblex.Base.{
  ℕ, zero, suc, ◌-◌, ◌≤◌, ◌<◌, ◌≡◌, ◌≢◌, refl, ap, arith, ltb, true, false, Option, none, some,
  List, [], ◌∷◌, ◌++◌, ◌==◌, length, length-append, length-ne_nil, All, Bool-cases, inl, inr,
}
use nblex.FileInput.{buffer_size, fgets_take, fgets_drop, chomp, line_in, Parsed, Parsers, data_of}
use nblex.Input.{LogFormat, format_json, format_logfmt, format_syslog, format_nginx, format_regex}
use nblex.Text.{Bytes, c_string, IsText, c_string-IsText}
use nblex.Text.Scanf.{◌>>=◌}

abbrev InOne : ℕ → Type 0
InOne c = (c == b'\n') ≡ false

-- a text without a newline or a NUL that fits into the buffer with the newline behind it
pub record Text : Type 0 where
  pub text : Bytes
  pub one_line : All (λ c. (c == b'\n') ≡ false) text
  pub is_text : IsText text
  pub short : length text < buffer_size - 1

-- the lines as they are written
unfoldable pub print_lines : List Text → Bytes
print_lines [] = []
print_lines (l ∷ ls) = l.text ++ b'\n' ∷ print_lines ls

pub fgets_take-line :
    (n : ℕ) (w s : Bytes)
    → All InOne w
    → length w < n
    → fgets_take n (w ++ b'\n' ∷ s) ≡ w ++ b'\n' ∷ []
unfolding fgets_take
fgets_take-line zero w s h k = absurd (omega arith)
fgets_take-line (suc n) [] s h k = refl
fgets_take-line (suc n) (c ∷ w) s h k =
    rw h.0 (ap (◌∷◌ c) (fgets_take-line n w s h.1 (omega arith)))

pub fgets_drop-line :
    (n : ℕ) (w s : Bytes) → All InOne w → length w < n → fgets_drop n (w ++ b'\n' ∷ s) ≡ s
unfolding fgets_drop
fgets_drop-line zero w s h k = absurd (omega arith)
fgets_drop-line (suc n) [] s h k = refl
fgets_drop-line (suc n) (c ∷ w) s h k = rw h.0 (fgets_drop-line n w s h.1 (omega arith))

-- the end of the file
pub fgets_take-end : (n : ℕ) (w : Bytes) → All InOne w → length w < n → fgets_take n w ≡ w
unfolding fgets_take
fgets_take-end zero w h k = absurd (omega arith)
fgets_take-end (suc n) [] h k = refl
fgets_take-end (suc n) (c ∷ w) h k = rw h.0 (ap (◌∷◌ c) (fgets_take-end n w h.1 (omega arith)))

pub fgets_drop-end : (n : ℕ) (w : Bytes) → All InOne w → length w < n → fgets_drop n w ≡ []
unfolding fgets_drop
fgets_drop-end zero w h k = absurd (omega arith)
fgets_drop-end (suc n) [] h k = refl
fgets_drop-end (suc n) (c ∷ w) h k = rw h.0 (fgets_drop-end n w h.1 (omega arith))

c_string-line : (w : Bytes) → IsText w → c_string (w ++ b'\n' ∷ []) ≡ w ++ b'\n' ∷ []
unfolding c_string
c_string-line [] h = refl
c_string-line (c ∷ w) h =
    let no_nul : (c == 0) ≡ false = ground (arith, h.0) in rw (no_nul, c_string-line w h.1) refl

chomp-line : (w : Bytes) → chomp (w ++ b'\n' ∷ []) ≡ w
unfolding chomp
chomp-line [] = refl
chomp-line (c ∷ []) = refl
chomp-line (c ∷ d ∷ w) = ap (◌∷◌ c) (chomp-line (d ∷ w))

chomp-end : (w : Bytes) → All InOne w → chomp w ≡ w
unfolding chomp
chomp-end [] h = refl
chomp-end (c ∷ []) h = rw h.0 refl
chomp-end (c ∷ d ∷ w) h = ap (◌∷◌ c) (chomp-end (d ∷ w) h.1)

pub line_in-Text : (l : Text) → line_in (l.text ++ b'\n' ∷ []) ≡ l.text
unfolding line_in
line_in-Text l = rw (c_string-line l.text l.is_text, chomp-line l.text) refl

pub line_in-end : (l : Text) → line_in l.text ≡ l.text
unfolding line_in
line_in-end l = rw (c_string-IsText l.text l.is_text, chomp-end l.text l.one_line) refl

length-fgets_drop-le : (n : ℕ) (s : Bytes) → length (fgets_drop n s) ≤ length s
unfolding fgets_drop
length-fgets_drop-le zero s = omega arith
length-fgets_drop-le (suc n) [] = omega arith
length-fgets_drop-le (suc n) (c ∷ s) = ground (arith, length-fgets_drop-le n s)

-- fgets takes a character where one is left.
pub fgets_drop-lt : (n c : ℕ) (s : Bytes) → length (fgets_drop (suc n) (c ∷ s)) ≤ length s
unfolding fgets_drop
fgets_drop-lt n c s = elim (Bool-cases (c == b'\n')) [
  | inl e ↦ rw e (omega arith)
  | inr e ↦ rw e (length-fgets_drop-le n s)
]

pub bind_same :
    {A B : Type 0} (x : Option A) (f g : A → Option B) → ((a : A) → f a ≡ g a) → x >>= f ≡ x >>= g
bind_same none f g h = refl
bind_same (some a) f g h = h a

pub bind_some : {A : Type 0} (x : Option A) → x >>= some ≡ x
bind_some none = refl
bind_some (some a) = refl

pub grown : (old new : Bytes) → new ≢ [] → ltb (length old) (length (old ++ new)) ≡ true
grown old new h = ground (arith, length-append old new, length-ne_nil new h)

pub append-ne_nil : (w s : Bytes) (c : ℕ) → w ++ c ∷ s ≢ []
append-ne_nil [] s c h = cc
append-ne_nil (x ∷ w) s c h = cc

pub print_lines-ne_nil : (ls : List Text) → ls ≢ [] → print_lines ls ≢ []
unfolding print_lines
print_lines-ne_nil [] h = absurd (h refl)
print_lines-ne_nil (l ∷ ls) h = append-ne_nil l.text (print_lines ls) b'\n'

-- every parser but the logfmt parser ends
pub data_of-ends :
    {J R X : Type 0} (ps : Parsers J R X) (format : LogFormat) (b : Bytes)
    → format ≢ format_logfmt
    → (r : Parsed J R) × (data_of ps format b ≡ some r)
unfolding data_of
data_of-ends ps format_json b h = (_, refl)
data_of-ends ps format_logfmt b h = absurd (h refl)
data_of-ends ps format_syslog b h = (_, refl)
data_of-ends ps format_nginx b h = (_, refl)
data_of-ends ps format_regex b h = (_, refl)
