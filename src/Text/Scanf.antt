-- ===== src/Text/Scanf.antt =====
-- The directives of sscanf that the sources use: `%3s`, `%2d` and `%4d`, a character that has to
-- stand there, and white space.
use nblex.Base.{
  ℕ, zero, suc, ◌-◌, Bool, true, false, Option, none, some, [], ◌∷◌, ◌==◌, ◌++◌, ◌≡◌, ◌≤◌, refl, ap,
  ◌∙◌, arith, All, length, if◌then◌else◌,
}
use nblex.Base.Int.{ℤ}
use nblex.Text.{Bytes, isspace, isdigit}
use nblex.Text.Number.{digits_value, clamp_long, number_of}
use nblex.Text.Scan.{span_drop}
use nblex.Text.Word.{is_solid}

-- a directive that fails ends the scan
infixl 5 ◌>>=◌
abbrev pub ◌>>=◌ {ℓ κ} : {A : Type ℓ} {B : Type κ} → Option A → (A → Option B) → Option B
none >>= f = none
some a >>= f = f a

-- at most `n` characters that pass, and what is left
unfoldable pub most_take : (ℕ → Bool) → ℕ → Bytes → Bytes
most_take p zero s = []
most_take p (suc n) [] = []
most_take p (suc n) (c ∷ s) = let rest = most_take p n s in if p c then c ∷ rest else []

unfoldable pub most_drop : (ℕ → Bool) → ℕ → Bytes → Bytes
most_drop p zero s = s
most_drop p (suc n) [] = []
most_drop p (suc n) (c ∷ s) = let rest = most_drop p n s in if p c then rest else c ∷ s

unfoldable pub scanned_word : Bytes → Bytes → Option (Bytes × Bytes)
scanned_word [] rest = none
scanned_word (c ∷ w) rest = some (c ∷ w, rest)

-- `%ns`
unfoldable pub scan_word : ℕ → Bytes → Option (Bytes × Bytes)
unfolding scanned_word
scan_word n s =
    let s = span_drop isspace s in scanned_word (most_take is_solid n s) (most_drop is_solid n s)

unfoldable pub scanned_digits : Bool → Bytes → Bytes → Option (ℤ × Bytes)
scanned_digits minus [] rest = none
scanned_digits minus (d ∷ ds) rest = some (clamp_long minus (digits_value 0 (d ∷ ds)), rest)

unfoldable pub scan_unsigned : Bool → ℕ → Bytes → Option (ℤ × Bytes)
unfolding scanned_digits
scan_unsigned minus n s = scanned_digits minus (most_take isdigit n s) (most_drop isdigit n s)

-- a sign counts as one of the characters
unfoldable pub scan_signed : ℕ → Bytes → Option (ℤ × Bytes)
unfolding scan_unsigned
scan_signed n [] = none
scan_signed n (c ∷ s) =
    if c == b'-'
    then scan_unsigned true (n - 1) s
    else if c == b'+'
    then scan_unsigned false (n - 1) s
    else scan_unsigned false n (c ∷ s)

-- `%nd`
unfoldable pub scan_int : ℕ → Bytes → Option (ℤ × Bytes)
unfolding scan_signed
scan_int n s = scan_signed n (span_drop isspace s)

-- a character of the format
unfoldable pub scan_char : ℕ → Bytes → Option Bytes
scan_char c [] = none
scan_char c (x ∷ s) = if x == c then some s else none

-- digits that a directive reads whole
abbrev pub IsField : ℕ → Bytes → Type 0
IsField n [] = ⊥
IsField n (d ∷ ds) = All (λ c. isdigit c ≡ true) (d ∷ ds) × (length (d ∷ ds) ≤ n)

module _ (p : ℕ → Bool) (c : ℕ) (t : Bytes) (stops : p c ≡ false) where
  most_take-append :
      (n : ℕ) (w : Bytes) → All (λ c. p c ≡ true) w → length w ≤ n → most_take p n (w ++ c ∷ t) ≡ w
  unfolding most_take
  most_take-append zero [] h l = refl
  most_take-append zero (x ∷ w) h l = absurd (omega arith)
  most_take-append (suc n) [] h l = rw stops refl
  most_take-append (suc n) (x ∷ w) h l =
      rw h.0 (ap (◌∷◌ x) (most_take-append n w h.1 (omega arith)))

  most_drop-append :
      (n : ℕ) (w : Bytes)
      → All (λ c. p c ≡ true) w
      → length w ≤ n
      → most_drop p n (w ++ c ∷ t) ≡ c ∷ t
  unfolding most_drop
  most_drop-append zero [] h l = refl
  most_drop-append zero (x ∷ w) h l = absurd (omega arith)
  most_drop-append (suc n) [] h l = rw stops refl
  most_drop-append (suc n) (x ∷ w) h l = rw h.0 (most_drop-append n w h.1 (omega arith))

unsigned_field :
    (n : ℕ) (w : Bytes) (c : ℕ) (t : Bytes)
    → IsField n w
    → isdigit c ≡ false
    → scan_unsigned false n (w ++ c ∷ t) ≡ some (number_of w, c ∷ t)
unfolding scan_unsigned scanned_digits
unsigned_field n [] c t h e = absurd h
unsigned_field n (d ∷ ds) c t h e =
    rw
      (
        most_take-append isdigit c t e n (d ∷ ds) h.0 h.1,
        most_drop-append isdigit c t e n (d ∷ ds) h.0 h.1,
      )
      refl

digit_first :
    (n d : ℕ) (s : Bytes) → isdigit d ≡ true → scan_int n (d ∷ s) ≡ scan_unsigned false n (d ∷ s)
unfolding scan_int scan_signed span_drop
digit_first n d s h =
    let solid : isspace d ≡ false = ground arith in
    let no_minus : (d == b'-') ≡ false = ground arith in
    let no_plus : (d == b'+') ≡ false = ground arith in rw (solid, no_minus, no_plus) refl

-- A field in front of a character that is no digit is read whole.
pub scan_int-IsField :
    (n : ℕ) (w : Bytes) (c : ℕ) (t : Bytes)
    → IsField n w
    → isdigit c ≡ false
    → scan_int n (w ++ c ∷ t) ≡ some (number_of w, c ∷ t)
scan_int-IsField n [] c t h e = absurd h
scan_int-IsField n (d ∷ ds) c t h e =
    digit_first n d (ds ++ c ∷ t) h.0.0 ∙ unsigned_field n (d ∷ ds) c t h e
