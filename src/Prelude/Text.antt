-- ===== src/Prelude/Text.antt =====
-- What the program uses of Go's `strings` and `strconv` packages, over native texts. Lengths are in
-- bytes; the change of case is that of the ASCII letters.
use Prim.Native.Nat.{ℕ, zero, suc, ◌-◌, ◌/◌, ◌%◌}
use Prim.Native.Char.{Char, code}
use Prim.Native.String.{String, ◌++◌, len, slice, find, char_at}
use mathlib.Core.Path.{◌≡◌, refl, sym, ap, ◌∙◌}
use mathlib.Core.Logic.{◌≢◌}
use mathlib.Core.Bool.{Bool, true, false, ◌&&◌}
use mathlib.Core.List.{List, [], ◌∷◌}
use native.Mathlib.Omega.{arith}
use text.Mathlib.Text.{◌==◌, starts_with}
use text.Mathlib.TextEquality.{starts_with_iff, eq_iff}
use text.Mathlib.TextLemmas.{nil-append, cons-append}
use text.Mathlib.TextPositions.{slice-append_left}
use xhttp.Prelude.Int.{ℤ, pos, negsuc}
use xhttp.Prelude.Tests.{leb, nat_eq, if◌then◌else◌}

-- strings.ToUpper
to_upper_char : Char → Char
to_upper_char c =
    if leb b'a' (code c) && leb (code c) b'z'
    then char_at "ABCDEFGHIJKLMNOPQRSTUVWXYZ" (code c - b'a')
    else c

unfoldable pub to_upper : String → String
unfolding to_upper_char
to_upper String.[] = String.[]
to_upper (String.◌∷◌ c s) = String.◌∷◌ (to_upper_char c) (to_upper s)

-- strings.ToLower
to_lower_char : Char → Char
to_lower_char c =
    if leb b'A' (code c) && leb (code c) b'Z'
    then char_at "abcdefghijklmnopqrstuvwxyz" (code c - b'A')
    else c

unfoldable pub to_lower : String → String
unfolding to_lower_char
to_lower String.[] = String.[]
to_lower (String.◌∷◌ c s) = String.◌∷◌ (to_lower_char c) (to_lower s)

-- strings.HasSuffix
unfoldable pub has_suffix : String → String → Bool
has_suffix s t = leb (len t) (len s) && slice s (len s - len t) (len s) == t

-- strings.TrimPrefix
unfoldable pub trim_prefix : String → String → String
trim_prefix s p = if starts_with s p then slice s (len p) (len s) else s

-- strings.Contains
unfoldable pub contains : String → String → Bool
contains s t = leb (find s t) (len s)

-- strings.Split at a separator of one character, given by its code.
push_head : Char → List String → List String
push_head c [] = String.◌∷◌ c "" ∷ []
push_head c (p ∷ ps) = String.◌∷◌ c p ∷ ps

unfoldable pub split : ℕ → String → List String
unfolding push_head
split d String.[] = "" ∷ []
split d (String.◌∷◌ c s) =
    let rest = split d s in if nat_eq (code c) d then "" ∷ rest else push_head c rest

-- No character of the text is the one with this code.
abbrev pub Lacks : ℕ → String → Type 0
Lacks d String.[] = Unit
Lacks d (String.◌∷◌ c s) = (code c ≢ d) × Lacks d s

-- strconv.Itoa, with as much fuel as the number: each round divides it by ten.
digits : ℕ → ℕ → String → String
digits zero n acc = acc
digits (suc fuel) n acc =
    let acc' = String.◌∷◌ (char_at "0123456789" (n % 10)) acc in
    let rest = digits fuel (n / 10) acc' in if nat_eq (n / 10) 0 then acc' else rest

unfoldable pub itoa : ℤ → String
unfolding digits
itoa (pos n) = digits (suc n) n ""
itoa (negsuc n) = "-" ++ digits (suc (suc n)) (suc n) ""

-- Two prefixes of one text that are equally long are equal.
pub starts_with_unique :
    (s a b : String) → starts_with s a ≡ true → starts_with s b ≡ true → len a ≡ len b → a ≡ b
starts_with_unique s a b ha hb e =
    let (u, p) = (starts_with_iff s a).0 ha in
    let (v, q) = (starts_with_iff s b).0 hb in
    sym (slice-append_left a u)
    ∙ ap (λ t. slice t 0 (len a)) (p ∙ sym q)
    ∙ ap (λ n. slice (b ++ v) 0 n) e
    ∙ slice-append_left b v

-- A text without the separator is one part; the first separator ends the first part.
pub split_of_Lacks : (d : ℕ) (s : String) → Lacks d s → split d s ≡ s ∷ []
unfolding split
split_of_Lacks d String.[] h = refl
split_of_Lacks d (String.◌∷◌ c s) (n, h) = ground (arith, split_of_Lacks d s h)

pub split-append :
    (c : Char) (a b : String)
    → Lacks (code c) a
    → split (code c) (a ++ String.◌∷◌ c b) ≡ a ∷ split (code c) b
unfolding split
split-append c String.[] b h = rw nil-append (ground arith)
split-append c (String.◌∷◌ x a) b (n, h) = rw cons-append (ground (arith, split-append c a b h))

case_test : (to_upper "get" == "GET") ≡ true
unfolding to_upper
case_test = refl

itoa_test : itoa (pos 31536000) ≡ "31536000"
unfolding itoa
itoa_test = refl

split_test : split b'/' "/track/12" ≡ "" ∷ "track" ∷ "12" ∷ []
unfolding split
split_test = refl

pub nonempty-is_false : (s : String) → s ≢ "" → (s == "") ≡ false
nonempty-is_false s ne = grind (arith, eq_iff)
