-- ===== src/Text/Number.antt =====
-- strtol with base 10, and the narrowing of its result to `int`.
use nblex.Base.{
  ℕ, ◌+◌, ◌-◌, ◌*◌, ◌/◌, ◌%◌, zero, suc, ltb, ◌^◌, ◌≤◌, Bool, true, false, Option, none, some, [],
  ◌∷◌, leb, ◌==◌, if◌then◌else◌, length, arith, ◌≡◌, refl, ◌++◌, All, Bool-cases, inl, inr,
}
use nblex.Base.Int.{ℤ, pos, negsuc, wrap, signed}
use nblex.Text.{Bytes, isdigit, isspace}
use nblex.Text.Scan.{span_take, span_drop, length-span_drop-le, span_take-append, span_drop-append}

unfoldable pub digits_value : ℕ → Bytes → ℕ
digits_value n [] = n
digits_value n (c ∷ s) = digits_value (n * 10 + (c - 48)) s

abbrev pub long_max : ℕ
long_max = 2 ^ 63 - 1

-- Out of range strtol returns LONG_MAX or LONG_MIN.
unfoldable pub clamp_long : Bool → ℕ → ℤ
clamp_long false n = if leb n long_max then pos n else pos long_max
clamp_long true n =
    if n == 0 then pos 0 else if leb n (2 ^ 63) then negsuc (n - 1) else negsuc long_max

-- a number as it is written, and its value
abbrev pub IsNumber : Bytes → Type 0
IsNumber [] = ⊥
IsNumber (d ∷ ds) = All (λ c. isdigit c ≡ true) (d ∷ ds)

abbrev pub number_of : Bytes → ℤ
number_of ds = clamp_long false (digits_value 0 ds)

-- The value and what follows it; with no digits the value is 0 and `endptr` is the start.
strtol_digits : Bool → Bytes → Bytes → Bytes → ℤ × Bytes
unfolding clamp_long digits_value
strtol_digits minus start [] rest = (pos 0, start)
strtol_digits minus start (d ∷ ds) rest = (clamp_long minus (digits_value 0 (d ∷ ds)), rest)

abbrev strtol_unsigned : Bool → Bytes → Bytes → ℤ × Bytes
strtol_unsigned minus start s =
    strtol_digits minus start (span_take isdigit s) (span_drop isdigit s)

strtol_sign : Bytes → Bytes → ℤ × Bytes
unfolding strtol_digits
strtol_sign start [] = (pos 0, start)
strtol_sign start (c ∷ s) =
    if c == b'-'
    then strtol_unsigned true start s
    else if c == b'+'
    then strtol_unsigned false start s
    else strtol_unsigned false start (c ∷ s)

unfoldable pub strtol : Bytes → ℤ × Bytes
unfolding strtol_sign
strtol s = strtol_sign s (span_drop isspace s)

-- Out of range strtoull returns ULLONG_MAX; a minus sign negates in the unsigned type.
unfoldable pub clamp_ull : Bool → ℕ → ℕ
clamp_ull minus n =
    if leb (2 ^ 64) n then 2 ^ 64 - 1 else if minus then (2 ^ 64 - n) % 2 ^ 64 else n

strtoull_digits : Bool → Bytes → Bytes → Option (ℕ × Bytes)
unfolding clamp_ull digits_value
strtoull_digits minus [] rest = none
strtoull_digits minus (d ∷ ds) rest = some (clamp_ull minus (digits_value 0 (d ∷ ds)), rest)

abbrev strtoull_unsigned : Bool → Bytes → Option (ℕ × Bytes)
strtoull_unsigned minus s = strtoull_digits minus (span_take isdigit s) (span_drop isdigit s)

strtoull_sign : Bytes → Option (ℕ × Bytes)
unfolding strtoull_digits
strtoull_sign [] = none
strtoull_sign (c ∷ s) =
    if c == b'-'
    then strtoull_unsigned true s
    else if c == b'+'
    then strtoull_unsigned false s
    else strtoull_unsigned false (c ∷ s)

-- strtoull with base 10: `none` where no digit stands and `endptr` is the start.
unfoldable pub strtoull : Bytes → Option (ℕ × Bytes)
unfolding strtoull_sign
strtoull s = strtoull_sign (span_drop isspace s)

-- the conversion of a `long` to a 32-bit `int`
unfoldable pub to_int : ℤ → ℤ
to_int v = signed (2 ^ 31) (wrap (2 ^ 32) v)

-- The decimal digits of `n`, in front of `acc`; the fuel is their number at most.
decimal_onto : ℕ → ℕ → Bytes → Bytes
decimal_onto zero n acc = acc
decimal_onto (suc f) n acc =
    let more = decimal_onto f (n / 10) ((48 + n % 10) ∷ acc) in
    if ltb n 10 then (48 + n) ∷ acc else more

-- `%d` of an `int`, `%lld` of a `long long`: at most 20 digits
unfoldable pub print_integer : ℤ → Bytes
unfolding decimal_onto
print_integer (pos n) = decimal_onto 20 n []
print_integer (negsuc n) = b'-' ∷ decimal_onto 20 (n + 1) []

strtol_unsigned-le :
    (minus : Bool) (start s : Bytes)
    → length s ≤ length start
    → length (strtol_unsigned minus start s).1 ≤ length start
unfolding strtol_digits
strtol_unsigned-le minus start s h = go (span_take isdigit s)
  where
    go : (ds : Bytes) → length (strtol_digits minus start ds (span_drop isdigit s)).1 ≤ length start
    go [] = omega arith
    go (d ∷ ds) = omega (arith, length-span_drop-le isdigit s)

strtol_sign-le :
    (start s : Bytes) → length s ≤ length start → length (strtol_sign start s).1 ≤ length start
unfolding strtol_sign
strtol_sign-le start [] h = omega arith
strtol_sign-le start (c ∷ s) h = elim (Bool-cases (c == b'-')) [
  | inl e ↦ rw e (strtol_unsigned-le true start s (omega arith))
  | inr e ↦ rw e (elim (Bool-cases (c == b'+')) [
    | inl e' ↦ rw e' (strtol_unsigned-le false start s (omega arith))
    | inr e' ↦ rw e' (strtol_unsigned-le false start (c ∷ s) h)
  ])
]

-- `endptr` is not before the string that strtol is given.
pub length-strtol-le : (s : Bytes) → length (strtol s).1 ≤ length s
unfolding strtol
length-strtol-le s = strtol_sign-le s (span_drop isspace s) (length-span_drop-le isspace s)

-- a value that was read, with at most `n` characters behind it
abbrev pub LeavesAtMost {ℓ} : {A : Type ℓ} → ℕ → Option (A × Bytes) → Type 0
LeavesAtMost n none = Unit
LeavesAtMost n (some (v, rest)) = length rest ≤ n

strtoull_digits-le :
    (minus : Bool) (ds rest : Bytes) (n : ℕ)
    → length rest ≤ n
    → LeavesAtMost n (strtoull_digits minus ds rest)
unfolding strtoull_digits
strtoull_digits-le minus [] rest n h = tt
strtoull_digits-le minus (d ∷ ds) rest n h = h

strtoull_unsigned-le :
    (minus : Bool) (s : Bytes) (n : ℕ) → length s ≤ n → LeavesAtMost n (strtoull_unsigned minus s)
strtoull_unsigned-le minus s n h =
    strtoull_digits-le minus (span_take isdigit s) (span_drop isdigit s) n
      (omega (arith, length-span_drop-le isdigit s))

strtoull_sign-le : (s : Bytes) (n : ℕ) → length s ≤ n → LeavesAtMost n (strtoull_sign s)
unfolding strtoull_sign
strtoull_sign-le [] n h = tt
strtoull_sign-le (c ∷ s) n h = elim (Bool-cases (c == b'-')) [
  | inl e ↦ rw e (strtoull_unsigned-le true s n (omega arith))
  | inr e ↦ rw e (elim (Bool-cases (c == b'+')) [
    | inl e' ↦ rw e' (strtoull_unsigned-le false s n (omega arith))
    | inr e' ↦ rw e' (strtoull_unsigned-le false (c ∷ s) n h)
  ])
]

pub strtoull-le : (s : Bytes) (n : ℕ) → length s ≤ n → LeavesAtMost n (strtoull s)
unfolding strtoull
strtoull-le s n h =
    strtoull_sign-le (span_drop isspace s) n (omega (arith, length-span_drop-le isspace s))

-- A run of digits is read whole where no digit follows.
pub strtoull-digits :
    (d : ℕ) (ds rest : Bytes)
    → All (λ c. isdigit c ≡ true) (d ∷ ds)
    → span_take isdigit rest ≡ []
    → span_drop isdigit rest ≡ rest
    → strtoull (d ∷ ds ++ rest) ≡ some (clamp_ull false (digits_value 0 (d ∷ ds)), rest)
unfolding strtoull strtoull_sign strtoull_digits span_drop span_take
strtoull-digits d ds rest h t e =
    let solid : isspace d ≡ false = ground (arith, h.0) in
    let no_minus : (d == b'-') ≡ false = ground (arith, h.0) in
    let no_plus : (d == b'+') ≡ false = ground (arith, h.0) in
    rw
      (
        solid,
        no_minus,
        no_plus,
        h.0,
        span_take-append isdigit ds rest h.1 t,
        span_drop-append isdigit ds rest h.1 e,
      )
      refl

pub strtol-digits :
    (d : ℕ) (ds rest : Bytes)
    → All (λ c. isdigit c ≡ true) (d ∷ ds)
    → span_take isdigit rest ≡ []
    → span_drop isdigit rest ≡ rest
    → strtol (d ∷ ds ++ rest) ≡ (clamp_long false (digits_value 0 (d ∷ ds)), rest)
unfolding strtol strtol_sign strtol_digits span_drop span_take
strtol-digits d ds rest h t e =
    let solid : isspace d ≡ false = ground (arith, h.0) in
    let no_minus : (d == b'-') ≡ false = ground (arith, h.0) in
    let no_plus : (d == b'+') ≡ false = ground (arith, h.0) in
    rw
      (
        solid,
        no_minus,
        no_plus,
        h.0,
        span_take-append isdigit ds rest h.1 t,
        span_drop-append isdigit ds rest h.1 e,
      )
      refl
