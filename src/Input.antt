-- ===== src/Input.antt =====
-- src/input/input_base.c: the format that a path stands for, and the settings of an input.
pub mod Format
mod Tests
use nblex.Base.{
  ℕ, Bool, true, false, ◌||◌, Option, none, some, List, [], ◌∷◌, ◌==◌, map, if◌then◌else◌,
}
use nblex.Filter.{FilterNode}
use nblex.Filter.Parse.{nblex_filter_new}
use nblex.Runtime.{Runtime}
use nblex.Text.{Bytes, codes, tolower, str_eq, starts_with}

-- nblex_log_format
pub data LogFormat : Type 0 where
  format_json format_logfmt format_syslog format_nginx format_regex : LogFormat

abbrev pub last_or : Option Bytes → Bytes → Bool → Option Bytes
last_or (some later) s here = some later
last_or none s here = if here then some s else none

unfoldable pub strrchr : Bytes → ℕ → Option Bytes
strrchr [] c = none
strrchr (x ∷ s) c = last_or (strrchr s c) (x ∷ s) (x == c)

-- strcasecmp (a, b) == 0
abbrev pub same_nocase : Bytes → Bytes → Bool
unfolding str_eq
same_nocase a b = str_eq (map tolower a) (map tolower b)

-- strstr (s, word) != NULL
unfoldable pub has_word : Bytes → Bytes → Bool
unfolding starts_with
has_word [] word = starts_with word []
has_word (x ∷ s) word = starts_with word (x ∷ s) || has_word s word

is_json_extension : Option Bytes → Bool
unfolding same_nocase
is_json_extension none = false
is_json_extension (some ext) = same_nocase ext (codes ".jsonl") || same_nocase ext (codes ".json")

format_of_word : Bytes → LogFormat
unfolding has_word
format_of_word lower =
    if has_word lower (codes "nginx")
    then format_nginx
    else if has_word lower (codes "syslog")
    then format_syslog
    else if has_word lower (codes "logfmt")
    then format_logfmt
    else format_json

unfoldable pub nblex_detect_log_format : Option Bytes → LogFormat
unfolding is_json_extension strrchr format_of_word
nblex_detect_log_format none = format_json
nblex_detect_log_format (some path) =
    if is_json_extension (strrchr path b'.') then format_json else format_of_word (map tolower path)

-- nblex_input: its format, and its filter, which may be NULL
pub record Input (R X : Type 0) : Type 0 where
  pub format : LogFormat
  pub filter : Option (Option (FilterNode R X))

unfoldable pub nblex_input_new : {R X : Type 0} → Input R X
nblex_input_new = record { format = format_json; filter = none }

unfoldable pub nblex_input_set_format : {R X : Type 0} → Input R X → LogFormat → Input R X
nblex_input_set_format input format = record input { format = format }

module _ {J R X : Type 0} (rt : Runtime J R X) where
  -- the input, and whether 0 is returned
  with_filter : Input R X → Option (Option (FilterNode R X)) → Input R X × Bool
  with_filter input none = (input, false)
  with_filter input (some root) = (record input { filter = some root }, true)

  unfoldable pub nblex_input_set_filter : Input R X → Option Bytes → Input R X × Bool
  unfolding with_filter nblex_filter_new
  nblex_input_set_filter input none = (record input { filter = none }, true)
  nblex_input_set_filter input (some []) = (record input { filter = none }, true)
  nblex_input_set_filter input (some (c ∷ s)) =
      with_filter input (nblex_filter_new rt (some (c ∷ s)))
