-- ===== src/Syslog/Priority.antt =====
-- src/parsers/syslog_parser.c: the priority of every line that is taken, and its parts.
use nblex.Base.{
  ℕ, ◌+◌, ◌*◌, ◌≤◌, ◌≡◌, arith, ◌&&◌, leb, ◌==◌, Option, none, some, [], ◌∷◌, Bool-cases, inl, inr,
}
use nblex.Base.Int.{ℤ, pos, negsuc, eqb_ℤ}
use mathlib.Core.Path.{subst}
use nblex.Syslog.{
  Libraries, Syslog, Tm, with_priority, priority_end, priority_at, with_message, bsd_body, bsd_rest,
  parse_rfc3164, version_at, scan_iso, with_time, iso_rest, version_rest, parse_rfc5424,
  nblex_parse_syslog_line, is_rfc5424,
}
use nblex.Text.{Bytes}
use nblex.Text.Number.{strtol}
use nblex.Text.Scanf.{◌>>=◌}

-- a priority of at most 191, and its two parts, which give it back
abbrev pub Fits : Syslog → Type 0
Fits r =
    (r.syslog_priority ≤ 191)
    × ((r.syslog_facility ≤ 23)
        × ((r.syslog_severity ≤ 7)
            × (r.syslog_facility * 8 + r.syslog_severity ≡ r.syslog_priority)))

abbrev AllFit : Option Syslog → Type 0
AllFit none = Unit
AllFit (some r) = Fits r

abbrev IsPriority : Option (ℕ × Bytes) → Type 0
IsPriority none = Unit
IsPriority (some (pri, s)) = pri ≤ 191

with_priority-Fits : (pri : ℕ) → pri ≤ 191 → Fits (with_priority pri)
with_priority-Fits pri h = (h, (omega arith, (omega arith, omega arith)))

priority_end-IsPriority : (r : ℤ × Bytes) → IsPriority (priority_end r)
unfolding priority_end
priority_end-IsPriority (negsuc n, end) = tt
priority_end-IsPriority (pos pri, []) = tt
priority_end-IsPriority (pos pri, c ∷ rest) = elim (Bool-cases (c == b'>' && leb pri 191)) [
  | inl e ↦ rw e (ground arith)
  | inr e ↦ rw e tt
]

priority_at-IsPriority : (line : Bytes) → IsPriority (priority_at line)
unfolding priority_at
priority_at-IsPriority [] = tt
priority_at-IsPriority (c ∷ s) = elim (Bool-cases (c == b'<')) [
  | inl e ↦ rw e (priority_end-IsPriority (strtol s))
  | inr e ↦ rw e tt
]

with_message-Fits :
    (libs : Libraries) (root : Syslog) (s : Bytes) → Fits root → AllFit (with_message libs root s)
unfolding with_message
with_message-Fits libs root [] h = h
with_message-Fits libs root (c ∷ s) h = elim (Bool-cases (libs.is_utf8 (c ∷ s))) [
  | inl e ↦ rw e h
  | inr e ↦ rw e tt
]

with_time-Fits : (root : Syslog) (time : ℤ) (usec : ℕ) → Fits root → Fits (with_time root time usec)
unfolding with_time
with_time-Fits root time usec h = elim (Bool-cases (eqb_ℤ time (negsuc 0))) [
  | inl e ↦ rw e h
  | inr e ↦ rw e h
]

iso_rest-Fits :
    (libs : Libraries) (root : Syslog) (t : Option Tm) (s : Bytes)
    → Fits root
    → AllFit (iso_rest libs root t s)
unfolding iso_rest
iso_rest-Fits libs root none s h = with_message-Fits libs root s h
iso_rest-Fits libs root (some t) s h = with_message-Fits libs _ _ (with_time-Fits root _ _ h)

version_rest-Fits :
    (libs : Libraries) (root : Syslog) (o : Option (ℕ × Bytes))
    → Fits root
    → AllFit (o >>= version_rest libs root)
unfolding version_rest
version_rest-Fits libs root none h = tt
version_rest-Fits libs root (some (version, s)) h =
    iso_rest-Fits libs (record root { syslog_version = some version }) (scan_iso s) s h

rfc5424-Fits :
    (libs : Libraries) (o : Option (ℕ × Bytes))
    → IsPriority o
    → AllFit (o >>= λ (pri, s). version_at s >>= version_rest libs (with_priority pri))
rfc5424-Fits libs none h = tt
rfc5424-Fits libs (some (pri, s)) h =
    version_rest-Fits libs _ (version_at s) (with_priority-Fits pri h)

rfc3164-Fits :
    (libs : Libraries) (o : Option (ℕ × Bytes)) → IsPriority o → AllFit (o >>= bsd_rest libs)
unfolding bsd_rest bsd_body
rfc3164-Fits libs none h = tt
rfc3164-Fits libs (some (pri, s)) h = with_message-Fits libs _ _ (with_priority-Fits pri h)

line-Fits : (libs : Libraries) (line : Bytes) → AllFit (nblex_parse_syslog_line libs line)
unfolding nblex_parse_syslog_line parse_rfc5424 parse_rfc3164
line-Fits libs line = elim (Bool-cases (is_rfc5424 line)) [
  | inl e ↦ rw e (rfc5424-Fits libs (priority_at line) (priority_at-IsPriority line))
  | inr e ↦ rw e (rfc3164-Fits libs (priority_at line) (priority_at-IsPriority line))
]

-- Whatever the line, the priority of an object is at most 191, its facility at most 23 and its
-- severity at most 7, and eight times the facility and the severity are the priority.
pub nblex_parse_syslog_line-Fits :
    (libs : Libraries) (line : Bytes) (r : Syslog)
    → nblex_parse_syslog_line libs line ≡ some r
    → Fits r
nblex_parse_syslog_line-Fits libs line r e = subst AllFit e (line-Fits libs line)
