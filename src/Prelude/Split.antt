-- ===== src/Prelude/Split.antt =====
-- Text cut at separators and trimmed, as str.split, str.partition and str.strip do.
use Prim.Native.Nat.{ℕ, ◌+◌, ◌*◌, ◌-◌}
use Prim.Native.Char.{Char, code}
use Prim.Native.String.{String}
use mathlib.Core.List.{List, [], ◌∷◌}
use mathlib.Core.Bool.{Bool, true, false, not, ◌&&◌, ◌||◌}
use mathlib.Core.Option.{Option, none, some}
use android_apm_server.Prelude.Tests.{if◌then◌else◌, leb, ltb, ◌==◌}
use android_apm_server.Prelude.Text.{is_empty}

-- str.isspace of one character.
abbrev pub is_space : ℕ → Bool
is_space c =
    (leb 9 c && leb c 13)
    || (leb 28 c && leb c 32)
    || c == 133
    || c == 160
    || c == 5760
    || (leb 8192 c && leb c 8202)
    || c == 8232
    || c == 8233
    || c == 8239
    || c == 8287
    || c == 12288

abbrev pub strip_left : (ℕ → Bool) → String → String
strip_left test String.[] = String.[]
strip_left test (String.◌∷◌ c s) =
    let rest = strip_left test s in if test (code c) then rest else String.◌∷◌ c s

abbrev pub strip_right : (ℕ → Bool) → String → String
strip_right test String.[] = String.[]
strip_right test (String.◌∷◌ c s) =
    let rest = strip_right test s in
    if test (code c) && is_empty rest then String.[] else String.◌∷◌ c rest

abbrev pub strip_of : (ℕ → Bool) → String → String
strip_of test s = strip_right test (strip_left test s)

-- text.strip()
abbrev pub strip : String → String
strip = strip_of is_space

abbrev pub put_first : Char → List String → List String
put_first c [] = String.◌∷◌ c String.[] ∷ []
put_first c (word ∷ words) = String.◌∷◌ c word ∷ words

-- text.split(separator)
unfoldable pub split : ℕ → String → List String
split separator String.[] = String.[] ∷ []
split separator (String.◌∷◌ c s) =
    let rest = split separator s in
    if code c == separator then String.[] ∷ rest else put_first c rest

-- text.partition(separator), where `none` is a missing separator.
unfoldable pub partition : ℕ → String → String × Option String
partition separator String.[] = (String.[], none)
partition separator (String.◌∷◌ c s) =
    let (before, behind) = partition separator s in
    if code c == separator then (String.[], some s) else (String.◌∷◌ c before, behind)

-- The decimal zeros of Unicode 15.0: each begins a run of ten digits.
abbrev decimal_zeros : List ℕ
decimal_zeros =
    48 ∷ 1632 ∷ 1776 ∷ 1984 ∷ 2406 ∷ 2534 ∷ 2662 ∷ 2790 ∷ 2918 ∷ 3046 ∷ 3174 ∷ 3302 ∷ 3430 ∷ 3558
    ∷ 3664 ∷ 3792 ∷ 3872 ∷ 4160 ∷ 4240 ∷ 6112 ∷ 6160 ∷ 6470 ∷ 6608 ∷ 6784 ∷ 6800 ∷ 6992 ∷ 7088
    ∷ 7232 ∷ 7248 ∷ 42528 ∷ 43216 ∷ 43264 ∷ 43472 ∷ 43504 ∷ 43600 ∷ 44016 ∷ 65296 ∷ 66720 ∷ 68912
    ∷ 69734 ∷ 69872 ∷ 69942 ∷ 70096 ∷ 70384 ∷ 70736 ∷ 70864 ∷ 71248 ∷ 71360 ∷ 71472 ∷ 71904 ∷ 72016
    ∷ 72784 ∷ 73040 ∷ 73120 ∷ 73552 ∷ 92768 ∷ 92864 ∷ 93008 ∷ 120782 ∷ 120792 ∷ 120802 ∷ 120812
    ∷ 120822 ∷ 123200 ∷ 123632 ∷ 124144 ∷ 125264 ∷ 130032 ∷ []

-- unicodedata.decimal of one character
abbrev pub decimal_from : List ℕ → ℕ → Option ℕ
decimal_from [] c = none
decimal_from (z ∷ zeros) c =
    let rest = decimal_from zeros c in if leb z c && leb c (z + 9) then some (c - z) else rest

unfoldable pub decimal : ℕ → Option ℕ
decimal c = decimal_from decimal_zeros c

-- The digits of int(): single underscores may stand between them. `prev` is whether a digit is before.
unfoldable pub digits : ℕ → Bool → String → Option ℕ
unfolding decimal
digits value prev String.[] = if prev then some value else none
digits value prev (String.◌∷◌ c s) =
    let behind = digits value false s in
    elim (decimal (code c)) [
      | some d ↦ digits (value * 10 + d) true s
      | none ↦ if code c == b'_' && prev then behind else none
    ]

abbrev pub one_for : Option ℕ → ℕ
one_for none = 0
one_for (some d) = 1

abbrev pub count_digits : String → ℕ
count_digits String.[] = 0
count_digits (String.◌∷◌ c s) = one_for (decimal (code c)) + count_digits s

unfoldable signed : String → Bool × Option ℕ
unfolding digits
signed String.[] = (false, none)
signed (String.◌∷◌ c s) =
    if code c == b'-'
    then (true, digits 0 false s)
    else (if code c == b'+'
        then (false, digits 0 false s)
        else (false, digits 0 false (String.◌∷◌ c s)))

abbrev with_sign : Bool × Option ℕ → Option (Bool × ℕ)
with_sign (negative, none) = none
with_sign (negative, some n) = some (negative && not (n == 0), n)

-- int(text): whether it is negative, and its magnitude. Python reads at most 4300 digits.
unfoldable pub parse_int : String → Option (Bool × ℕ)
unfolding signed decimal
parse_int text = if ltb 4300 (count_digits text) then none else with_sign (signed (strip text))
