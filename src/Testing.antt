-- ===== src/Testing.antt =====
-- A concrete runtime for the tests and the witnesses: objects as chains of fields, doubles as
-- integers, and a pattern that matches the texts which begin with it.
use nblex.Base.{◌+◌, ◌*◌, ◌/◌, Option, none, some, [], if◌then◌else◌}
use nblex.Base.Int.{ℤ, pos, negsuc, sub_ℕ, pos_part, neg_part, ltb_ℤ, leb_ℤ, eqb_ℤ}
use nblex.Runtime.{JsonType, object, integer, string, real, Runtime, StrtodShrinks}
use nblex.Text.{Bytes, codes, str_eq, starts_with}
use nblex.Text.Number.{strtol, length-strtol-le}

pub data Sample : Type 0 where
  number decimal : ℤ → Sample
  text : Bytes → Sample
  empty : Sample
  field : Bytes → Sample → Sample → Sample

abbrev pub sample_type : Sample → JsonType
sample_type (number n) = integer
sample_type (decimal n) = real
sample_type (text s) = string
sample_type _ = object

abbrev pub sample_get : Sample → Bytes → Option Sample
unfolding str_eq
sample_get (field j v o) k = if str_eq j k then some v else sample_get o k
sample_get _ k = none

abbrev pub sample_text : Sample → Bytes
sample_text (text s) = s
sample_text _ = []

abbrev pub sample_number : Sample → ℤ
sample_number (number n) = n
sample_number (decimal n) = n
sample_number _ = pos 0

abbrev pub sample : Runtime Sample ℤ Bytes
sample = record {
  typeof = sample_type;
  object_get = sample_get;
  string_value = sample_text;
  integer_value = sample_number;
  real_value = sample_number;
  of_integer = λ n. n;
  real_lt = ltb_ℤ;
  real_le = leb_ℤ;
  real_eq = eqb_ℤ;
  infinity = pos 1_000_000;
  neg_infinity = negsuc 1_000_000;
  add = λ a b. sub_ℕ (pos_part a + pos_part b) (neg_part a + neg_part b);
  mul = λ a b. pos (pos_part a * pos_part b);
  div = λ a b. pos (pos_part a / pos_part b);
  close = eqb_ℤ;
  real_to_size = pos_part;
  print_real = λ n. codes "0.000000";
  print_whole = λ n. codes "0";
  real_to_int = λ n. n;
  strtod = strtol;
  compile = λ p. some p;
  matches = starts_with;
}

pub sample-shrinks : StrtodShrinks sample
sample-shrinks = length-strtol-le
