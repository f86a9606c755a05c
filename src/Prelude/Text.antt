-- ===== src/Prelude/Text.antt =====
-- Go strings as their bytes, with the functions of `strings` and `bytes` that the program calls.
use Prim.Native.Nat.{ℕ}
use Prim.Native.Char.{code}
use Prim.Native.String.{String}
use mathlib.Core.Path.{◌≡◌, refl, ap}
use mathlib.Core.Logic.{◌↔◌}
use mathlib.Core.Bool.{Bool, true, false, ◌&&◌, ◌||◌}
use mathlib.Core.List.{List, [], ◌∷◌, ◌++◌}
use mathlib.Core.Option.{Option, none, some}
use native.Mathlib.Omega.{arith}
use drs.Prelude.Tests.{eqb, leb, if◌then◌else◌}

abbrev pub Text : Type 0
Text = List ℕ

-- A literal of the source, byte by byte: the literals are ASCII.
abbrev pub codes : String → Text
codes String.[] = []
codes (String.◌∷◌ c s) = code c ∷ codes s

infix 50 ◌==◌
unfoldable pub ◌==◌ : Text → Text → Bool
[] == [] = true
[] == (b ∷ t) = false
(a ∷ s) == [] = false
(a ∷ s) == (b ∷ t) = eqb a b && s == t

pub ==-sound : (s t : Text) → (s == t) ≡ true → s ≡ t
unfolding ◌==◌
==-sound [] [] h = refl
==-sound [] (b ∷ t) h = cc
==-sound (a ∷ s) [] h = cc
==-sound (a ∷ s) (b ∷ t) h = ground (arith, ==-sound s t)

pub ==-refl : (s : Text) → (s == s) ≡ true
unfolding ◌==◌
==-refl [] = refl
==-refl (a ∷ s) = ground (arith, ==-refl s)

pub ==_iff : (s t : Text) → ((s == t) ≡ true) ↔ (s ≡ t)
==_iff s t = (==-sound s t, λ e. cc (==-refl s, ap (λ (u : Text). s == u) e))

abbrev pub is_empty : Text → Bool
is_empty [] = true
is_empty (a ∷ s) = false

-- strings.TrimPrefix, with `none` where the prefix is absent
unfoldable pub strip_prefix : Text → Text → Option Text
strip_prefix [] s = some s
strip_prefix (a ∷ p) [] = none
strip_prefix (a ∷ p) (b ∷ s) = let rest = strip_prefix p s in if eqb a b then rest else none

-- strings.HasPrefix, its arguments in Go's order
unfoldable pub has_prefix : Text → Text → Bool
unfolding strip_prefix
has_prefix s p = elim (strip_prefix p s) [ none ↦ false | some rest ↦ true ]

pub strip_prefix_sound : (p s rest : Text) → strip_prefix p s ≡ some rest → s ≡ p ++ rest
unfolding strip_prefix
strip_prefix_sound [] s rest h = ground arith
strip_prefix_sound (a ∷ p) [] rest h = cc
strip_prefix_sound (a ∷ p) (b ∷ s) rest h = ground (arith, strip_prefix_sound p s rest)

pub strip_prefix-append : (p rest : Text) → strip_prefix p (p ++ rest) ≡ some rest
unfolding strip_prefix
strip_prefix-append [] rest = refl
strip_prefix-append (a ∷ p) rest = ground (arith, strip_prefix-append p rest)

-- strings.Contains, by the position of the first match
unfoldable pub contains_text : Text → Text → Bool
unfolding has_prefix
contains_text [] sub = has_prefix [] sub
contains_text (a ∷ s) sub = has_prefix (a ∷ s) sub || contains_text s sub

-- strings.Split by one byte
unfoldable pub split_from : Text → ℕ → Text → List Text
split_from cur sep [] = cur ∷ []
split_from cur sep (a ∷ s) =
    let closed = split_from [] sep s in
    let longer = split_from (cur ++ a ∷ []) sep s in if eqb a sep then cur ∷ closed else longer

unfoldable pub split : ℕ → Text → List Text
unfolding split_from
split sep s = split_from [] sep s

-- the ASCII part of unicode.IsSpace, which strings.TrimSpace and bytes.TrimSpace cut
abbrev pub is_space : ℕ → Bool
is_space c = (leb 9 c && leb c 13) || eqb c 32

-- How far into the UTF-8 form of a white space character the bytes have come.
pub data Space : Type 0 where
  start c2 e1 e19a e2 e280 e281 e3 e380 dead : Space

-- unicode.IsSpace over UTF-8: tab to carriage return, space, U+0085, U+00A0, U+1680, U+2000 to
-- U+200A, U+2028, U+2029, U+202F, U+205F and U+3000
unfoldable pub space_step : Space → ℕ → Space
space_step start c =
    if is_space c
    then start
    else if eqb c 0xc2
    then c2
    else if eqb c 0xe1
    then e1
    else if eqb c 0xe2
    then e2
    else if eqb c 0xe3
    then e3
    else dead
space_step c2 c = if eqb c 0x85 || eqb c 0xa0 then start else dead
space_step e1 c = if eqb c 0x9a then e19a else dead
space_step e19a c = if eqb c 0x80 then start else dead
space_step e2 c = if eqb c 0x80 then e280 else if eqb c 0x81 then e281 else dead
space_step e280 c =
    if (leb 0x80 c && leb c 0x8a) || eqb c 0xa8 || eqb c 0xa9 || eqb c 0xaf then start else dead
space_step e281 c = if eqb c 0x9f then start else dead
space_step e3 c = if eqb c 0x80 then e380 else dead
space_step e380 c = if eqb c 0x80 then start else dead
space_step dead c = dead

abbrev pub at_start : Space → Bool
at_start start = true
at_start _ = false

unfoldable pub blank_from : Space → Text → Bool
unfolding space_step
blank_from st [] = at_start st
blank_from st (c ∷ s) = blank_from (space_step st c) s

-- strings.TrimSpace(s) == "" and len(bytes.TrimSpace(s)) == 0
unfoldable pub is_blank : Text → Bool
unfolding blank_from
is_blank s = blank_from start s

-- strings.TrimSpace(s) != s: the first rune of the string is white space, or the last.
unfoldable pub starts_blank : Space → Text → Bool
unfolding space_step
starts_blank st [] = false
starts_blank st (c ∷ s) =
    let more = starts_blank (space_step st c) s in at_start (space_step st c) || more

unfoldable pub ends_blank : Text → Bool
unfolding is_blank
ends_blank [] = false
ends_blank (c ∷ s) = is_blank (c ∷ s) || ends_blank s

unfoldable pub is_padded : Text → Bool
unfolding starts_blank ends_blank
is_padded s = starts_blank start s || ends_blank s

is_blank_runs :
    (is_blank (codes " \n" ++ 0xc2 ∷ 0xa0 ∷ []) ≡ true) × (is_blank (codes " x") ≡ false)
unfolding is_blank
is_blank_runs = (refl, refl)

split_runs : split b'/' (codes "a//b") ≡ codes "a" ∷ [] ∷ codes "b" ∷ []
unfolding split
split_runs = refl

contains_runs : contains_text (codes "did:web fetch failed") (codes "fetch") ≡ true
unfolding contains_text
contains_runs = refl
