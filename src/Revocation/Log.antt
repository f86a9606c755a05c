-- ===== src/Revocation/Log.antt =====
-- The log of drs-verify/pkg/revocation/file.go, one decimal index a line: the line that Revoke
-- writes and loadExisting, with the parts of strconv, strings and bufio that they call.
use drs.Prelude.{
  ℕ, zero, suc, ◌+◌, ◌-◌, ◌*◌, ◌/◌, ◌%◌, ◌^◌, Bool, ◌&&◌, List, [], ◌∷◌, ◌++◌, ◌≡◌, refl, Option,
  none, some, eqb, ltb, leb, if◌then◌else◌, length,
}
use drs.Prelude.Text.{Text, codes, space_step, is_blank, is_empty, has_prefix}
use drs.Prelude.Trim.{trim_left, trim_right, trim_space}
use drs.Revocation.Local.{Revoked}

-- The digits of `n` before `tail`; twenty digits write every uint64.
unfoldable pub put_digits : ℕ → ℕ → Text → Text
put_digits zero n tail = tail
put_digits (suc fuel) n tail =
    let low = (b'0' + n % 10) ∷ tail in
    let rest = put_digits fuel (n / 10) low in if eqb (n / 10) 0 then low else rest

-- strconv.FormatUint(index, 10)
unfoldable pub format_uint : ℕ → Text
format_uint n = put_digits 20 n []

abbrev pub is_digit : ℕ → Bool
is_digit c = leb b'0' c && leb c b'9'

-- The digits after `n`; `none` is either of ParseUint's errors.
unfoldable pub parse_from : ℕ → Text → Option ℕ
parse_from n [] = some n
parse_from n (c ∷ s) =
    let rest = parse_from (10 * n + (c - b'0')) s in
    if is_digit c && ltb (10 * n + (c - b'0')) (2 ^ 64) then rest else none

-- strconv.ParseUint(line, 10, 64)
unfoldable pub parse_uint : Text → Option ℕ
parse_uint [] = none
parse_uint (c ∷ s) = parse_from 0 (c ∷ s)

-- The lines, each without its newline; what follows the last newline is a line if not empty.
unfoldable pub lines_from : Text → Text → List Text
lines_from line [] = if is_empty line then [] else line ∷ []
lines_from line (c ∷ s) =
    let closed = lines_from [] s in
    let longer = lines_from (line ++ c ∷ []) s in if eqb c b'\n' then line ∷ closed else longer

-- bufio.ScanLines drops one carriage return.
unfoldable pub drop_cr : Text → Text
drop_cr [] = []
drop_cr (c ∷ []) = if eqb c b'\r' then [] else c ∷ []
drop_cr (c ∷ d ∷ s) = c ∷ drop_cr (d ∷ s)

-- `line == "" || strings.HasPrefix(line, "#")`, then ParseUint; a malformed line is skipped.
unfoldable pub add_line : Text → Revoked → Revoked
add_line line set =
    if is_empty line
    then set
    else if has_prefix line (codes "#")
    then set
    else elim (parse_uint line) [ none ↦ set | some idx ↦ idx ∷ set ]

-- The scanner's buffer, maxLine, has no room for a line of this length: bufio.ErrTooLong.
abbrev pub max_line : ℕ
max_line = 64 * 1024

-- the loop over the scanner; `none` is its error
unfoldable pub read_lines : List Text → Revoked → Option Revoked
read_lines [] set = some set
read_lines (line ∷ rest) set =
    let read = read_lines rest (add_line (trim_space (drop_cr line)) set) in
    if leb max_line (length line) then none else read

-- loadExisting, where the file can be read
unfoldable pub load : Text → Option Revoked
load log = read_lines (lines_from [] log) []

load_runs : load (codes "7\n# note\n\nx\n 42 \r\n18446744073709551616\n5") ≡ some (5 ∷ 42 ∷ 7 ∷ [])
unfolding load read_lines lines_from drop_cr trim_space trim_left trim_right add_line parse_uint
    parse_from is_blank space_step has_prefix
load_runs = refl

format_uint_runs : format_uint 1203 ≡ codes "1203"
unfolding format_uint put_digits
format_uint_runs = refl
