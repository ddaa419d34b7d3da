-- ===== src/Text.antt =====
-- C strings, and the functions of <ctype.h>, <string.h> and <stdlib.h> that the sources use.
-- A string is the list of its bytes before the NUL; `*pos == '\0'` is the empty list, and a
-- `const char*` cursor is what is left of the string. The locale is "C", where <ctype.h> knows
-- ASCII only.
pub mod Scan
pub mod Number
pub mod Quoted
pub mod Word
pub mod Object
pub mod Scanf
use Prim.Native.Char.{code}
use nblex.Base.{
  All, ◌≢◌, ℕ, String, Bool, true, false, ◌&&◌, ◌||◌, ◌+◌, List, [], ◌∷◌, leb, ◌==◌, if◌then◌else◌,
  ◌≡◌, refl, arith,
}

abbrev pub Bytes : Type 0
Bytes = List ℕ

abbrev pub codes : String → Bytes
codes String.[] = []
codes (String.◌∷◌ c s) = code c ∷ codes s

-- isspace: space, \t, \n, \v, \f, \r
abbrev pub isspace : ℕ → Bool
isspace c = c == 32 || (leb 9 c && leb c 13)

abbrev pub isdigit : ℕ → Bool
isdigit c = leb 48 c && leb c 57

abbrev pub isalpha : ℕ → Bool
isalpha c = (leb 65 c && leb c 90) || (leb 97 c && leb c 122)

abbrev pub isalnum : ℕ → Bool
isalnum c = isalpha c || isdigit c

abbrev pub tolower : ℕ → ℕ
tolower c = if leb 65 c && leb c 90 then c + 32 else c

-- strcmp (a, b) == 0
unfoldable pub str_eq : Bytes → Bytes → Bool
str_eq [] [] = true
str_eq (a ∷ s) (b ∷ t) = a == b && str_eq s t
str_eq _ _ = false

-- strncmp (s, prefix, strlen (prefix)) == 0
unfoldable pub starts_with : Bytes → Bytes → Bool
starts_with [] s = true
starts_with (p ∷ ps) [] = false
starts_with (p ∷ ps) (c ∷ s) = p == c && starts_with ps s

-- strncasecmp (s, prefix, strlen (prefix)) == 0
unfoldable pub starts_with_nocase : Bytes → Bytes → Bool
starts_with_nocase [] s = true
starts_with_nocase (p ∷ ps) [] = false
starts_with_nocase (p ∷ ps) (c ∷ s) = tolower p == tolower c && starts_with_nocase ps s

-- strchr (s, c) != NULL
unfoldable pub has_char : ℕ → Bytes → Bool
has_char c [] = false
has_char c (x ∷ s) = x == c || has_char c s

-- the C string that begins with these bytes: up to the first NUL
unfoldable pub c_string : Bytes → Bytes
c_string [] = []
c_string (c ∷ s) = let rest = c_string s in if c == 0 then [] else c ∷ rest

pub str_eq→eq : (s t : Bytes) → str_eq s t ≡ true → s ≡ t
unfolding str_eq
str_eq→eq [] [] h = refl
str_eq→eq [] (b ∷ t) h = ground arith
str_eq→eq (a ∷ s) [] h = ground arith
str_eq→eq (a ∷ s) (b ∷ t) h = ground (arith, str_eq→eq s t)

pub str_eq_self : (s : Bytes) → str_eq s s ≡ true
unfolding str_eq
str_eq_self [] = refl
str_eq_self (a ∷ s) = ground (arith, str_eq_self s)

-- no NUL within the bytes
abbrev pub IsText : Bytes → Type 0
IsText s = All (λ c. c ≢ 0) s

pub c_string-IsText : (s : Bytes) → IsText s → c_string s ≡ s
unfolding c_string
c_string-IsText [] h = refl
c_string-IsText (c ∷ s) h =
    let no_nul : (c == 0) ≡ false = ground (arith, h.0) in rw (no_nul, c_string-IsText s h.1) refl
