-- ===== src/Logfmt.antt =====
-- src/parsers/logfmt_parser.c: lines of key=value pairs.
pub mod Print
mod Tests
use nblex.Base.{
  ℕ, zero, suc, Bool, true, false, not, ◌&&◌, ◌||◌, Option, none, some, List, [], ◌∷◌, ◌==◌, drop,
  if◌then◌else◌,
}
use nblex.Base.Int.{ℤ}
use nblex.Runtime.{Runtime}
use nblex.Text.{Bytes, codes, isspace, isdigit, str_eq}
use nblex.Text.Number.{strtol}
use nblex.Text.Object.{Object, set_member}
use nblex.Text.Quoted.{quoted_take, quoted_drop}
use nblex.Text.Scan.{span_take, span_drop}

-- json_integer, json_real, json_true and json_false, json_string
pub data Value (R : Type 0) : Type 0 where
  integer : ℤ → Value R
  real : R → Value R
  boolean : Bool → Value R
  string : Bytes → Value R

-- What jansson refuses: text that is not UTF-8, and doubles that are not finite.
pub record Accepts (R : Type 0) : Type 0 where
  pub utf8 : Bytes → Bool
  pub finite : R → Bool

abbrev pub is_key_char : ℕ → Bool
is_key_char c = not (c == b'=') && not (isspace c)

abbrev pub not_space : ℕ → Bool
not_space c = not (isspace c)

-- A pair and what is left behind it.
pub record Pair : Type 0 where
  pub key : Bytes
  pub value : Bytes
  pub rest : Bytes

-- the text behind the opening quote: it ends at the next quote that no backslash stands before
quoted_value : Bytes → Bytes → Bytes → Option Pair
quoted_value key value [] = none
quoted_value key value (q ∷ rest) = some (record { key = key; value = value; rest = rest })

-- the text behind the `=`
value_of : Bytes → Bytes → Option Pair
unfolding span_take span_drop quoted_take quoted_drop quoted_value
value_of key [] = some (record { key = key; value = []; rest = [] })
value_of key (c ∷ s) =
    if c == b'"'
    then quoted_value key (quoted_take s) (quoted_drop s)
    else some (record {
      key = key;
      value = span_take not_space (c ∷ s);
      rest = span_drop not_space (c ∷ s);
    })

-- the key, and the text at its end
pair_of : Bytes → Bytes → Option Pair
unfolding value_of
pair_of [] s = none
pair_of key [] = none
pair_of key (c ∷ s) = if c == b'=' then value_of key s else none

-- parse_key_value_pair: `none` is the return value 0, where the position stays as it is.
unfoldable pub parse_key_value_pair : Bytes → Option Pair
unfolding span_take span_drop pair_of
parse_key_value_pair s =
    let start = span_drop isspace s in
    pair_of (span_take is_key_char start) (span_drop is_key_char start)

module _ {J R X : Type 0} (rt : Runtime J R X) (js : Accepts R) where
  real_value : R × Bytes → Option (Value R)
  real_value (r, []) = if js.finite r then some (real r) else none
  real_value (r, c ∷ s) = none

  number_end : Bytes → ℤ × Bytes → Option (Value R)
  unfolding real_value
  number_end value (n, []) = some (integer n)
  number_end value (n, c ∷ s) =
      if c == b'.' || (c == b'e' || c == b'E') then real_value (rt.strtod value) else none

  number_value : Bytes → Option (Value R)
  unfolding number_end strtol
  number_value [] = none
  number_value (c ∷ s) =
      if c == b'-' || isdigit c then number_end (c ∷ s) (strtol (c ∷ s)) else none

  word_value : Bytes → Option (Value R)
  unfolding str_eq
  word_value value =
      if str_eq value (codes "true")
      then some (boolean true)
      else if str_eq value (codes "false")
      then some (boolean false)
      else if js.utf8 value
      then some (string value)
      else none

  typed : Option (Value R) → Bytes → Option (Value R)
  unfolding word_value
  typed (some v) value = some v
  typed none value = word_value value

  -- The type detection: `none` where jansson makes no value.
  unfoldable pub detect_value : Bytes → Option (Value R)
  unfolding number_value typed
  detect_value value = typed (number_value value) value

  -- What the loop has at its end: the object, or NULL.
  abbrev pub Line : Type 0
  Line = Option (Object (Value R))

  set_pair :
      (Object (Value R) → Option Line) → Bytes → Option (Value R) → Object (Value R) → Option Line
  unfolding set_member
  set_pair loop key none obj = some none
  set_pair loop key (some v) obj = if js.utf8 key then loop (set_member key v obj) else some none

  -- One round; `loop` runs the rest.
  step :
      (Object (Value R) → Bytes → Option Line)
      → Object (Value R)
      → Bytes
      → Option Pair
      → Option Line
  unfolding set_pair detect_value
  step loop obj s none = loop obj (span_drop not_space s)
  step loop obj s (some p) = set_pair (λ o. loop o p.rest) p.key (detect_value p.value) obj

  -- The loop, on fuel; `none` is a loop that has not ended.
  unfoldable pub parse_pairs : ℕ → Object (Value R) → Bytes → Option Line
  unfolding step parse_key_value_pair
  parse_pairs zero obj s = none
  parse_pairs (suc f) obj [] = some (some obj)
  parse_pairs (suc f) obj (c ∷ s) = step (parse_pairs f) obj (c ∷ s) (parse_key_value_pair (c ∷ s))

  found_any : Line → Line
  found_any none = none
  found_any (some []) = none
  found_any (some (p ∷ ps)) = some (p ∷ ps)

  finish : Option Line → Option Line
  unfolding found_any
  finish none = none
  finish (some l) = some (found_any l)

  -- nblex_parse_logfmt_line, on fuel: NULL without a pair
  unfoldable pub nblex_parse_logfmt_line : ℕ → Bytes → Option Line
  unfolding parse_pairs finish
  nblex_parse_logfmt_line f s = finish (parse_pairs f [] s)
