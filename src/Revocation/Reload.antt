-- ===== src/Revocation/Reload.antt =====
-- Restarting the store of drs-verify/pkg/revocation/file.go: what loadExisting reads of the lines
-- that Revoke has written.
use drs.Prelude.{
  ℕ, ◌*◌, ◌^◌, ◌≤◌, ◌<◌, true, false, List, [], ◌∷◌, ◌++◌, ◌≡◌, ◌⊎◌, refl, sym, ap, ◌∙◌, Option,
  none, some, eqb, leb, length, ++-assoc, ++-nil, length-append, any_of, arith, Bool-cases,
  Option-cases, inl, inr,
}
use drs.Prelude.Text.{
  strip_prefix, Text, codes, start, dead, blank_from, space_step, is_blank, has_prefix,
}
use drs.Revocation.Local.{Revoked, is_revoked}
use drs.Prelude.Trim.{trim_left, trim_right, trim_space}
use drs.Revocation.Log.{
  format_uint, is_digit, parse_uint, lines_from, drop_cr, add_line, read_lines, load,
}
use drs.Revocation.Digits.{
  IsNumeral, format_uint-IsNumeral, length-format_uint, parse_uint-format_uint, IsNumeral-append,
  parse_uint-joined,
}
use drs.Revocation.File.{line_of}

-- A newline closes a line whatever follows.
lines_from-newline :
    (line s t : Text)
    → lines_from line (s ++ (b'\n' ∷ t)) ≡ lines_from line (s ++ (b'\n' ∷ [])) ++ lines_from [] t
unfolding lines_from
lines_from-newline line [] t = refl
lines_from-newline line (c ∷ s) t = elim (Bool-cases (eqb c b'\n')) [
  | inl ends ↦ rw ends (ap (λ (v : List Text). line ∷ v) (lines_from-newline [] s t))
  | inr inside ↦ rw inside (lines_from-newline (line ++ c ∷ []) s t)
]

-- A numeral and a newline are one line.
lines_from-numeral :
    (line s : Text) → IsNumeral s → lines_from line (s ++ (b'\n' ∷ [])) ≡ (line ++ s) ∷ []
unfolding lines_from
lines_from-numeral line [] h = ap (λ (v : Text). v ∷ []) (sym (++-nil line))
lines_from-numeral line (c ∷ s) (digit, h) =
    let inside : eqb c b'\n' ≡ false = ground arith in
    rw inside (
      lines_from-numeral (line ++ c ∷ []) s h
      ∙ ap (λ (v : Text). v ∷ []) (++-assoc line (c ∷ []) s))

drop_cr-numeral : (s : Text) → IsNumeral s → drop_cr s ≡ s
unfolding drop_cr
drop_cr-numeral [] h = refl
drop_cr-numeral (c ∷ []) h = ground arith
drop_cr-numeral (c ∷ d ∷ s) h = ap (λ (v : Text). c ∷ v) (drop_cr-numeral (d ∷ s) h.1)

digit_stops : (c : ℕ) → is_digit c ≡ true → space_step start c ≡ dead
unfolding space_step
digit_stops c h = ground arith

blank_from-dead : (s : Text) → blank_from dead s ≡ false
unfolding blank_from space_step
blank_from-dead [] = refl
blank_from-dead (c ∷ s) = blank_from-dead s

is_blank-numeral : (c : ℕ) (s : Text) → is_digit c ≡ true → is_blank (c ∷ s) ≡ false
unfolding is_blank blank_from
is_blank-numeral c s h = rw (digit_stops c h) (blank_from-dead s)

trim_right-numeral : (s : Text) → IsNumeral s → trim_right s ≡ s
unfolding trim_right
trim_right-numeral [] h = refl
trim_right-numeral (c ∷ s) h =
    rw (is_blank-numeral c s h.0) (ap (λ (v : Text). c ∷ v) (trim_right-numeral s h.1))

trim_left-numeral : (s : Text) → IsNumeral s → trim_left start s s ≡ s
unfolding trim_left
trim_left-numeral [] h = refl
trim_left-numeral (c ∷ s) h = rw (digit_stops c h.0, trim_left) refl

trim_space-numeral : (s : Text) → IsNumeral s → trim_space s ≡ s
unfolding trim_space
trim_space-numeral s h = rw (trim_left-numeral s h) (trim_right-numeral s h)

no_note : (c : ℕ) (s : Text) → is_digit c ≡ true → has_prefix (c ∷ s) (codes "#") ≡ false
unfolding has_prefix strip_prefix
no_note c s h = ground arith

abbrev added : Option ℕ → Revoked → Revoked
added none set = set
added (some idx) set = idx ∷ set

-- A numeral is no note, so it is parsed.
add_line-numeral :
    (s : Text) (o : Option ℕ) (set : Revoked)
    → 0 < length s
    → IsNumeral s
    → parse_uint s ≡ o
    → add_line s set ≡ added o set
unfolding add_line
add_line-numeral [] o set some_digit h read = absurd (omega arith)
add_line-numeral (c ∷ s) none set some_digit h read = rw (no_note c s h.0, read) refl
add_line-numeral (c ∷ s) (some i) set some_digit h read = rw (no_note c s h.0, read) refl

-- The loop on one line that is a numeral.
read_lines-numeral :
    (s : Text) (set : Revoked)
    → length s ≤ 40
    → IsNumeral s
    → read_lines (s ∷ []) set ≡ some (add_line s set)
unfolding read_lines
read_lines-numeral s set short numeral =
    let fits : leb (64 * 1024) (length s) ≡ false = ground arith in
    rw (fits, drop_cr-numeral s numeral, trim_space-numeral s numeral) refl

read_lines-append :
    (xs ys : List Text) (set mid : Revoked)
    → read_lines xs set ≡ some mid
    → read_lines (xs ++ ys) set ≡ read_lines ys mid
unfolding read_lines
read_lines-append [] ys set mid h = ap (read_lines ys) (cc h)
read_lines-append (x ∷ xs) ys set mid h = elim (Bool-cases (leb (64 * 1024) (length x))) [
  | inl long ↦ cc (rw (long, read_lines) at h)
  | inr fits ↦ rw fits (read_lines-append xs ys _ mid (rw (fits, read_lines) at h))
]

-- The log is empty or ends with a newline.
abbrev pub IsTerminated : Text → Type 0
IsTerminated log = (log ≡ []) ⊎ ((d : Text) × (log ≡ d ++ (b'\n' ∷ [])))

pub line_of-IsTerminated : (log : Text) (i : ℕ) → IsTerminated (log ++ line_of i)
unfolding line_of
line_of-IsTerminated log i = inr (log ++ format_uint i, sym (++-assoc log (format_uint i) _))

lines_from-terminated :
    (log t : Text)
    → IsTerminated log
    → lines_from [] (log ++ t) ≡ lines_from [] log ++ lines_from [] t
lines_from-terminated log t (inl none_yet) = rw none_yet (unfold lines_from in refl)
lines_from-terminated log t (inr (d, ends)) =
    rw ends (ap (lines_from []) (++-assoc d _ t) ∙ lines_from-newline [] d t)

-- Reading a log with one more line, which is a numeral.
load-numeral :
    (log s : Text) (set : Revoked)
    → IsTerminated log
    → load log ≡ some set
    → length s ≤ 40
    → IsNumeral s
    → load (log ++ (s ++ (b'\n' ∷ []))) ≡ some (add_line s set)
unfolding load
load-numeral log s set ends h short numeral =
    rw (lines_from-terminated log (s ++ (b'\n' ∷ [])) ends, lines_from-numeral [] s numeral)
      (read_lines-append (lines_from [] log) (s ∷ []) [] set h
        ∙ read_lines-numeral s set short numeral)

-- Reading a log with one more line adds its index.
pub load-line_of :
    (log : Text) (set : Revoked) (i : ℕ)
    → IsTerminated log
    → load log ≡ some set
    → i < 2 ^ 64
    → load (log ++ line_of i) ≡ some (i ∷ set)
unfolding line_of
load-line_of log set i ends h small =
    let (some_digit, short) = length-format_uint i in
    load-numeral log (format_uint i) set ends h (omega arith) (format_uint-IsNumeral i)
    ∙ ap some (
        add_line-numeral (format_uint i) (some i) set some_digit (format_uint-IsNumeral i)
          (parse_uint-format_uint i small))

is_revoked-other : (m i : ℕ) (set : Revoked) → i < m → is_revoked i (m ∷ set) ≡ is_revoked i set
unfolding is_revoked any_of
is_revoked-other m i set h = ground arith

-- A line of two joined numerals adds no index but a greater one.
add_line-joined :
    (s : Text) (i : ℕ) (set : Revoked)
    → 0 < length s
    → IsNumeral s
    → ((m : ℕ) → parse_uint s ≡ some m → i < m)
    → is_revoked i (add_line s set) ≡ is_revoked i set
add_line-joined s i set some_digit numeral greater = elim (Option-cases (parse_uint s)) [
  | inl malformed ↦ ap (is_revoked i) (add_line-numeral s none set some_digit numeral malformed)
  | inr (m, read) ↦
      ap (is_revoked i) (add_line-numeral s (some m) set some_digit numeral read)
      ∙ is_revoked-other m i set (greater m read)
]

-- Where a log ends with the digits of `j` and no newline, the line of `i` is lost on them.
pub load-joined :
    (log : Text) (set : Revoked) (j i : ℕ)
    → IsTerminated log
    → load log ≡ some set
    → 0 < j
    → j < 2 ^ 64
    → i < 2 ^ 64
    → (read : Revoked) × (load ((log ++ format_uint j) ++ line_of i) ≡ some read)
      × (is_revoked i read ≡ is_revoked i set)
load-joined log set j i ends h positive fits small =
    let both = format_uint j ++ format_uint i in
    let numeral =
      IsNumeral-append (format_uint j) (format_uint i) (format_uint-IsNumeral j)
        (format_uint-IsNumeral i) in
    let long = length-append (format_uint j) (format_uint i) in
    let (some_digit, short) = length-format_uint j in
    let (_, short') = length-format_uint i in
    let same : (log ++ format_uint j) ++ line_of i ≡ log ++ (both ++ (b'\n' ∷ [])) =
      unfold line_of in
      ++-assoc log (format_uint j) _
      ∙ ap (λ (v : Text). log ++ v) (sym (++-assoc (format_uint j) (format_uint i) _)) in
    (
      add_line both set,
      ap load same ∙ load-numeral log both set ends h (omega arith) numeral,
      add_line-joined both i set (omega arith) numeral
          (λ m read. parse_uint-joined j i m positive fits small read),
    )
