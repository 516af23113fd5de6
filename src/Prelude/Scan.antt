-- ===== src/Prelude/Scan.antt =====
-- strings.ReplaceAll and strconv.ParseInt, over native texts.
use Prim.Native.Nat.{ℕ, zero, suc, ◌+◌, ◌*◌, ◌^◌, ◌-◌}
use Prim.Native.Char.{Char, code}
use Prim.Native.String.{String, ◌++◌, count}
use mathlib.Core.Option.{Option, none, some}
use mathlib.Core.Path.{◌≡◌, refl}
use mathlib.Core.Bool.{Bool, true, false, ◌&&◌}
use text.Mathlib.Text.{◌==◌, starts_with}
use xhttp.Prelude.Int.{ℤ, pos, negsuc}
use xhttp.Prelude.Tests.{leb, nat_eq, if◌then◌else◌}

-- strings.ReplaceAll of a text that is not empty. The number counts the characters of an occurrence
-- that are still to be dropped.
replace_from : ℕ → String → String → String → String
replace_from n String.[] old new = ""
replace_from (suc n) (String.◌∷◌ c s) old new = replace_from n s old new
replace_from zero (String.◌∷◌ c s) old new =
    let here = starts_with (String.◌∷◌ c s) old in
    (if here then new else String.◌∷◌ c "")
    ++ replace_from (if here then count old - 1 else 0) s old new

unfoldable pub replace_all : String → String → String → String
unfolding replace_from
replace_all s old new = replace_from 0 s old new

replace_test : replace_all "/%id/x%id" "%id" "7" ≡ "/7/x7"
unfolding replace_all
replace_test = refl

-- strconv.ParseInt(s, 10, 64): `none` where it fails, out of range included.
digit_value : Char → Option ℕ
digit_value c = if leb b'0' (code c) && leb (code c) b'9' then some (code c - b'0') else none

digits_value : String → ℕ → Option ℕ
unfolding digit_value
digits_value String.[] n = some n
digits_value (String.◌∷◌ c s) n = elim (digit_value c) [
  | none ↦ none
  | some d ↦ digits_value s (10 * n + d)
]

unsigned : String → Option ℕ
unfolding digits_value
unsigned s = if s == "" then none else digits_value s 0

in_range : Bool → Option ℕ → Option ℤ
in_range negative none = none
in_range false (some n) = if leb (n + 1) (2 ^ 63) then some (pos n) else none
in_range true (some zero) = some (pos 0)
in_range true (some (suc n)) = if leb (suc n) (2 ^ 63) then some (negsuc n) else none

unfoldable pub parse_int : String → Option ℤ
unfolding unsigned in_range
parse_int String.[] = none
parse_int (String.◌∷◌ c s) =
    if nat_eq (code c) b'-'
    then in_range true (unsigned s)
    else if nat_eq (code c) b'+'
    then in_range false (unsigned s)
    else in_range false (unsigned (String.◌∷◌ c s))

parse_int_test :
    (parse_int "-120" ≡ some (negsuc 119))
    × (parse_int "9223372036854775808" ≡ none)
    × (parse_int "1x" ≡ none)
unfolding parse_int
parse_int_test = (refl, refl, refl)
