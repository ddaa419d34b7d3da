-- ===== src/Runtime.antt =====
-- What the program takes from the libraries that it links: jansson's JSON values, the C
-- library's floating point, and PCRE2. They are parameters of the model: a type `J` of JSON
-- values, a type `R` of doubles, a type `X` of compiled patterns, and the calls on them.
use nblex.Base.{ℕ, ◌≤◌, Bool, Option, length}
use nblex.Base.Int.{ℤ}
use nblex.Text.{Bytes}

-- json_type of jansson.h
pub data JsonType : Type 0 where
  object array string integer real true_type false_type null : JsonType

pub record Runtime (J R X : Type 0) : Type 0 where
  -- json_typeof, json_object_get, json_string_value, json_integer_value, json_real_value
  pub typeof : J → JsonType
  pub object_get : J → Bytes → Option J
  pub string_value : J → Bytes
  pub integer_value : J → ℤ
  pub real_value : J → R
  -- the conversion of an integer to double, and <, <=, == on doubles
  pub of_integer : ℤ → R
  pub real_lt : R → R → Bool
  pub real_le : R → R → Bool
  pub real_eq : R → R → Bool
  -- INFINITY, -INFINITY, +, *, / and `fabs (a - b) < 1e-9` on doubles
  pub infinity : R
  pub neg_infinity : R
  pub add : R → R → R
  pub mul : R → R → R
  pub div : R → R → R
  pub close : R → R → Bool
  -- the cast `(size_t) r`, and the formats `%.6f` and `%.0f`
  pub real_to_size : R → ℕ
  pub print_real : R → Bytes
  pub print_whole : R → Bytes
  -- the cast `(int) r`
  pub real_to_int : R → ℤ
  -- strtod: the value, and the string at `endptr`
  pub strtod : Bytes → R × Bytes
  -- pcre2_compile, and `pcre2_match (…) >= 0`
  pub compile : Bytes → Option X
  pub matches : X → Bytes → Bool

-- `endptr` points into the string that strtod is given.
abbrev pub StrtodShrinks : {J R X : Type 0} → Runtime J R X → Type 0
StrtodShrinks rt = (s : Bytes) → length (rt.strtod s).1 ≤ length s
