-- ===== src/Syslog/Stamp.antt =====
-- src/parsers/syslog_parser.c: the search for the fraction of a second in a line of RFC 5424. It
-- begins at the year and stops at the first '-'.
use mathlib.Core.Path.{subst}
use nblex.Base.{
  ℕ, zero, suc, ◌-◌, ◌≡◌, refl, arith, Bool, true, false, ◌==◌, Option, none, some, [], ◌∷◌,
  Bool-cases, inl, inr,
}
use nblex.Base.Int.{ℤ, negsuc, eqb_ℤ}
use nblex.Syslog.{
  Libraries, Syslog, Tm, with_priority, priority_at, with_message, version_at, scan_iso, ends_time,
  usec_at, with_time, iso_rest, version_rest, parse_rfc5424,
}
use nblex.Text.{Bytes, isspace, isdigit}
use nblex.Text.Scan.{span_drop}
use nblex.Text.Scanf.{
  ◌>>=◌, most_drop, scanned_digits, scan_unsigned, scan_signed, scan_int, scan_char,
}

-- no fraction is found from `s`
abbrev Unseen : Bytes → Type 0
Unseen s = usec_at s ≡ 0

-- A place at which nothing is found, if nothing is found behind a value read there.
abbrev Passes {ℓ} : {A : Type ℓ} → Bytes → Option (A × Bytes) → Type 0
Passes s none = Unit
Passes s (some (v, t)) = Unseen t → Unseen s

pass_char : (c : ℕ) (s : Bytes) → (c == b'.') ≡ false → Unseen s → Unseen (c ∷ s)
unfolding usec_at
pass_char c s dot h = elim (Bool-cases (ends_time c)) [ inl e ↦ rw e refl | inr e ↦ rw (e, dot) h ]

at_sign : (c : ℕ) (s : Bytes) → ends_time c ≡ true → Unseen (c ∷ s)
unfolding usec_at
at_sign c s e = rw e refl

pass_spaces : (s : Bytes) → Unseen (span_drop isspace s) → Unseen s
unfolding span_drop
pass_spaces [] h = h
pass_spaces (c ∷ s) h = elim (Bool-cases (isspace c)) [
  | inl e ↦
      let h' : Unseen (span_drop isspace s) = rw e at h in
      pass_char c s (ground (arith, e)) (pass_spaces s h')
  | inr e ↦ rw e at h
]

pass_digits : (n : ℕ) (s : Bytes) → Unseen (most_drop isdigit n s) → Unseen s
unfolding most_drop
pass_digits zero s h = h
pass_digits (suc n) [] h = h
pass_digits (suc n) (c ∷ s) h = elim (Bool-cases (isdigit c)) [
  | inl e ↦
      let h' : Unseen (most_drop isdigit n s) = rw e at h in
      pass_char c s (ground (arith, e)) (pass_digits n s h')
  | inr e ↦ rw e at h
]

scanned_digits-Passes :
    (minus : Bool) (s ds rest : Bytes)
    → (Unseen rest → Unseen s)
    → Passes s (scanned_digits minus ds rest)
unfolding scanned_digits
scanned_digits-Passes minus s [] rest h = tt
scanned_digits-Passes minus s (d ∷ ds) rest h = h

unsigned-Passes :
    (minus : Bool) (n : ℕ) (s t : Bytes)
    → (Unseen t → Unseen s)
    → Passes s (scan_unsigned minus n t)
unfolding scan_unsigned
unsigned-Passes minus n s t h = scanned_digits-Passes minus s _ _ λ u. h (pass_digits n t u)

signed-Passes : (n : ℕ) (s t : Bytes) → (Unseen t → Unseen s) → Passes s (scan_signed n t)
unfolding scan_signed
signed-Passes n s [] h = tt
signed-Passes n s (c ∷ t) h = elim (Bool-cases (c == b'-')) [
  | inl e ↦ rw e (unsigned-Passes true (n - 1) s t λ u. h (at_sign c t (ground (arith, e))))
  | inr e ↦ rw e (elim (Bool-cases (c == b'+')) [
    | inl e' ↦ rw e' (unsigned-Passes false (n - 1) s t λ u. h (at_sign c t (ground (arith, e'))))
    | inr e' ↦ rw e' (unsigned-Passes false n s (c ∷ t) h)
  ])
]

scan_int-Passes : (n : ℕ) (s : Bytes) → Passes s (scan_int n s)
unfolding scan_int
scan_int-Passes n s = signed-Passes n s (span_drop isspace s) (pass_spaces s)

-- what is found where a scan succeeds
abbrev Blind : Bytes → Option Tm → Type 0
Blind s none = Unit
Blind s (some t) = Unseen s

earlier-Blind : (s t : Bytes) (x : Option Tm) → (Unseen t → Unseen s) → Blind t x → Blind s x
earlier-Blind s t none h b = tt
earlier-Blind s t (some v) h b = h b

int-Blind :
    (s : Bytes) (o : Option (ℤ × Bytes)) (k : ℤ × Bytes → Option Tm)
    → Passes s o
    → ((v : ℤ) (t : Bytes) → Blind t (k (v, t)))
    → Blind s (o >>= k)
int-Blind s none k p b = tt
int-Blind s (some (v, t)) k p b = earlier-Blind s t (k (v, t)) p (b v t)

any-Blind : (s : Bytes) (x : Option Tm) → Unseen s → Blind s x
any-Blind s none h = tt
any-Blind s (some t) h = h

dash-Blind : (s : Bytes) (k : Bytes → Option Tm) → Blind s (scan_char b'-' s >>= k)
unfolding scan_char
dash-Blind [] k = tt
dash-Blind (c ∷ s) k = elim (Bool-cases (c == b'-')) [
  | inl e ↦ any-Blind (c ∷ s) _ (at_sign c s (ground (arith, e)))
  | inr e ↦ rw e tt
]

scan_iso-Blind : (s : Bytes) → Blind s (scan_iso s)
unfolding scan_iso
scan_iso-Blind s = int-Blind s (scan_int 4 s) _ (scan_int-Passes 4 s) λ v t. dash-Blind t _

-- No fraction is found in a timestamp that is scanned.
pub scan_iso-usec : (s : Bytes) (t : Tm) → scan_iso s ≡ some t → usec_at s ≡ 0
scan_iso-usec s t e = subst (Blind s) e (scan_iso-Blind s)

abbrev HasNoFraction : Option Syslog → Type 0
HasNoFraction none = Unit
HasNoFraction (some r) = r.timestamp_usec ≡ none

message-HasNoFraction :
    (libs : Libraries) (root : Syslog) (s : Bytes)
    → root.timestamp_usec ≡ none
    → HasNoFraction (with_message libs root s)
unfolding with_message
message-HasNoFraction libs root [] h = h
message-HasNoFraction libs root (c ∷ s) h = elim (Bool-cases (libs.is_utf8 (c ∷ s))) [
  | inl e ↦ rw e h
  | inr e ↦ rw e tt
]

time_usec :
    (root : Syslog) (time : ℤ) (usec : ℕ)
    → usec ≡ 0
    → root.timestamp_usec ≡ none
    → (with_time root time usec).timestamp_usec ≡ none
unfolding with_time
time_usec root time usec z h = elim (Bool-cases (eqb_ℤ time (negsuc 0))) [
  | inl e ↦ rw e h
  | inr e ↦ rw (e, z) refl
]

iso-HasNoFraction :
    (libs : Libraries) (root : Syslog) (t : Option Tm) (s : Bytes)
    → Blind s t
    → root.timestamp_usec ≡ none
    → HasNoFraction (iso_rest libs root t s)
unfolding iso_rest
iso-HasNoFraction libs root none s b h = message-HasNoFraction libs root s h
iso-HasNoFraction libs root (some t) s b h =
    message-HasNoFraction libs _ _ (time_usec root (libs.mktime t) (usec_at s) b h)

version-HasNoFraction :
    (libs : Libraries) (pri : ℕ) (o : Option (ℕ × Bytes))
    → HasNoFraction (o >>= version_rest libs (with_priority pri))
unfolding version_rest
version-HasNoFraction libs pri none = tt
version-HasNoFraction libs pri (some (version, s)) =
    iso-HasNoFraction libs _ (scan_iso s) s (scan_iso-Blind s) refl

priority-HasNoFraction :
    (libs : Libraries) (o : Option (ℕ × Bytes))
    → HasNoFraction (o >>= λ (pri, s). version_at s >>= version_rest libs (with_priority pri))
priority-HasNoFraction libs none = tt
priority-HasNoFraction libs (some (pri, s)) = version-HasNoFraction libs pri (version_at s)

-- Whatever line of RFC 5424 is parsed, the object has no "timestamp_usec": the search for the
-- fraction stops at the '-' behind the year.
pub parse_rfc5424-timestamp_usec :
    (libs : Libraries) (line : Bytes) (r : Syslog)
    → parse_rfc5424 libs line ≡ some r
    → r.timestamp_usec ≡ none
unfolding parse_rfc5424
parse_rfc5424-timestamp_usec libs line r e =
    subst HasNoFraction e (priority-HasNoFraction libs (priority_at line))
