-- ===== src/Input/Format.antt =====
-- src/input/input_base.c: nblex_detect_log_format and the case of letters.
use nblex.Base.{
  ℕ, ◌≡◌, refl, sym, ap, ◌∙◌, arith, Bool, true, false, Option, none, some, [], ◌∷◌, ◌==◌, map,
}
use nblex.Input.{last_or, strrchr, same_nocase, is_json_extension, nblex_detect_log_format}
use nblex.Text.{Bytes, tolower}

tolower-tolower : (c : ℕ) → tolower (tolower c) ≡ tolower c
tolower-tolower c = ground arith

lower-lower : (s : Bytes) → map tolower (map tolower s) ≡ map tolower s
lower-lower [] = refl
lower-lower (c ∷ s) = λ i. tolower-tolower c i ∷ lower-lower s i

dot_lower : (c : ℕ) → (tolower c == b'.') ≡ (c == b'.')
dot_lower c = ground arith

abbrev lower_option : Option Bytes → Option Bytes
lower_option none = none
lower_option (some s) = some (map tolower s)

last_or_lower :
    (o : Option Bytes) (s : Bytes) (b : Bool)
    → last_or (lower_option o) (map tolower s) b ≡ lower_option (last_or o s b)
last_or_lower (some later) s b = refl
last_or_lower none s true = refl
last_or_lower none s false = refl

strrchr_lower : (s : Bytes) → strrchr (map tolower s) b'.' ≡ lower_option (strrchr s b'.')
unfolding strrchr
strrchr_lower [] = refl
strrchr_lower (c ∷ s) =
    rw (dot_lower c, strrchr_lower s) (last_or_lower (strrchr s b'.') (c ∷ s) (c == b'.'))

is_json_extension_lower :
    (o : Option Bytes) → is_json_extension (lower_option o) ≡ is_json_extension o
unfolding is_json_extension same_nocase
is_json_extension_lower none = refl
is_json_extension_lower (some ext) = rw (lower-lower ext) refl

detect_lower :
    (path : Bytes)
    → nblex_detect_log_format (some (map tolower path)) ≡ nblex_detect_log_format (some path)
unfolding nblex_detect_log_format
detect_lower path =
    rw (strrchr_lower path, is_json_extension_lower (strrchr path b'.'), lower-lower path) refl

-- Paths that differ in the case of letters only stand for the same format.
pub detect_nocase :
    (p q : Bytes)
    → map tolower p ≡ map tolower q
    → nblex_detect_log_format (some p) ≡ nblex_detect_log_format (some q)
detect_nocase p q h =
    sym (detect_lower p) ∙ (ap (λ s. nblex_detect_log_format (some s)) h ∙ detect_lower q)
