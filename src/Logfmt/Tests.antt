-- ===== src/Logfmt/Tests.antt =====
-- Runs of the logfmt parser, and its theorems at them.
use nblex.Base.{◌≡◌, refl, arith, true, none, some, [], ◌∷◌}
use nblex.Base.Int.{ℤ, pos}
use nblex.Logfmt.{
  Value, integer, boolean, string, Accepts, parse_key_value_pair, detect_value,
  nblex_parse_logfmt_line, parse_pairs,
}
use nblex.Logfmt.Print.{Written, print, pairs, parse_logfmt_line-print, trailing_space_hangs}
use nblex.Testing.{sample}
use nblex.Text.{Bytes, codes, str_eq}
use nblex.Text.Number.{strtol}
use nblex.Text.Object.{Object, member, last_of}
use nblex.Text.Scan.{span_take, span_drop}

abbrev accepts : Accepts ℤ
accepts = record { utf8 = λ s. true; finite = λ r. true }

abbrev level : Written sample accepts
unfolding detect_value str_eq strtol span_drop span_take
level = record {
  key = codes "level";
  text = codes "info";
  value = string (codes "info");
  is_key = (refl, (refl, (refl, (refl, (refl, tt)))));
  is_value = (refl, (refl, (refl, (refl, (refl, tt)))));
  utf8_key = refl;
  detected = refl;
}

abbrev status : Written sample accepts
unfolding detect_value str_eq strtol span_drop span_take
status = record {
  key = codes "status";
  text = codes "404";
  value = integer (pos 404);
  is_key = (refl, (refl, (refl, (refl, (refl, (refl, tt))))));
  is_value = (refl, (refl, (refl, (refl, tt))));
  utf8_key = refl;
  detected = refl;
}

printed : print sample accepts (level ∷ status ∷ []) ≡ codes "level=info status=404"
unfolding level status
printed = refl

-- a key that is written twice
twice :
    print sample accepts (level ∷ status ∷ level ∷ []) ≡ codes "level=info status=404 level=info"
unfolding level status
twice = refl

parse_logfmt_line-print_example :
    (o : Object (Value ℤ)) × (nblex_parse_logfmt_line sample accepts 4
        (codes "level=info status=404 level=info")
      ≡ some (some o))
    × ((key : Bytes)
        → member key o ≡ last_of key (pairs sample accepts (level ∷ status ∷ level ∷ [])))
unfolding level status
parse_logfmt_line-print_example =
    parse_logfmt_line-print sample accepts 4 level (status ∷ level ∷ []) (omega arith)

-- the second value of a key takes the place of the first
overwritten :
    nblex_parse_logfmt_line sample accepts 3 (codes "a=1 a=2")
    ≡ some (some ((codes "a", integer (pos 2)) ∷ []))
unfolding nblex_parse_logfmt_line parse_pairs parse_key_value_pair detect_value str_eq strtol
    span_take span_drop
overwritten = refl

-- `ok=true ` with its trailing space
trailing_space_hangs_example :
    nblex_parse_logfmt_line sample accepts 1_000 (codes "ok=true ") ≡ none
unfolding parse_key_value_pair detect_value str_eq span_take span_drop
trailing_space_hangs_example =
    trailing_space_hangs sample accepts 1_000 b' ' (codes "ok") (codes "true") [] (boolean true)
      (refl, (refl, tt)) (refl, (refl, (refl, (refl, (refl, tt))))) refl refl refl refl
