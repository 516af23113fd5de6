-- ===== src/Mux/Segments.antt =====
-- When patternMatch succeeds, and what it does with a pattern that begins with a slash.
use Prim.Native.String.{◌++◌, slice, len}
use text.Mathlib.Text.{starts_with}
use text.Mathlib.TextLemmas.{nil-append, cons-append}
use xhttp.Prelude.{
  subst, ◌≡◌, ◌≢◌, ◌↔◌, ◌⊎◌, inl, inr, refl, String, Bool, true, false, Option, none, some, List,
  [], ◌∷◌, length, nat_eq, Bool-cases, nat_eq_iff, not, if◌then◌else◌, ◌==◌, eq_iff, arith,
}
use xhttp.Prelude.Text.{split}
use xhttp.Mux.PathMatch.{Vars, match_parts, pattern_match, capture}

-- What PathMatch is documented to look for: as many parts of the path as of the pattern, and each
-- part of the pattern is a parameter, with a colon in front, or the same as the part of the path.
abbrev pub Fits : List String → List String → Type 0
Fits [] [] = Unit
Fits (str ∷ pattern) (part ∷ path) =
    ((starts_with str ":" ≡ true) ⊎ (str ≡ part)) × Fits pattern path
Fits _ _ = ⊥

-- No part is empty.
abbrev pub AllNamed : List String → Type 0
AllNamed [] = Unit
AllNamed (str ∷ pattern) = (str ≢ "") × AllNamed pattern

Fits-length : (pattern path : List String) → Fits pattern path → length path ≡ length pattern
Fits-length [] [] f = refl
Fits-length (str ∷ pattern) (part ∷ path) f = omega (arith, Fits-length pattern path f.1)
Fits-length [] (part ∷ path) f = absurd f
Fits-length (str ∷ pattern) [] f = absurd f

abbrev Succeeds : List String → List String → Vars → Type 0
Succeeds pattern path vars = (v : Vars) × (match_parts pattern path vars ≡ some (true, v))

match_parts_sound :
    (pattern path : List String) (vars v : Vars)
    → length path ≡ length pattern
    → match_parts pattern path vars ≡ some (true, v)
    → Fits pattern path × AllNamed pattern
unfolding match_parts
match_parts_sound [] [] vars v n e = (tt, tt)
match_parts_sound [] (part ∷ path) vars v n e = absurd (omega arith)
match_parts_sound (str ∷ pattern) [] vars v n e = absurd (omega arith)
match_parts_sound (str ∷ pattern) (part ∷ path) vars v n e = elim (Bool-cases (str == "")) [
  | inl empty ↦ absurd (ground arith)
  | inr named ↦
      let ne : str ≢ "" = ground (arith, eq_iff str "") in
      elim (Bool-cases (starts_with str ":")) [
        | inl param ↦
            let vars' : Vars = capture (slice str 1 (len str)) part vars in
            let (f, named') = match_parts_sound pattern path vars' v (omega arith) (ground arith) in
            ((inl param, f), (ne, named'))
        | inr literal ↦ elim (Bool-cases (str == part)) [
          | inl same ↦
              let (f, named') =
                match_parts_sound pattern path vars v (omega arith) (ground arith) in
              ((inr ((eq_iff str part).0 same), f), (ne, named'))
          | inr other ↦ absurd (ground arith)
        ]
      ]
]

match_parts_complete :
    (pattern path : List String) (vars : Vars)
    → Fits pattern path
    → AllNamed pattern
    → Succeeds pattern path vars
unfolding match_parts
match_parts_complete [] [] vars f named = (vars, refl)
match_parts_complete (str ∷ pattern) (part ∷ path) vars (fits, f) (ne, named) =
    let vars' : Vars = capture (slice str 1 (len str)) part vars in
    let (v, e) = match_parts_complete pattern path vars f named in
    let (v', e') = match_parts_complete pattern path vars' f named in
    elim (Bool-cases (starts_with str ":")) [
      | inl param ↦ (v', ground (arith, eq_iff str ""))
      | inr literal ↦ (v, ground (arith, eq_iff str "", eq_iff str part))
    ]
match_parts_complete [] (part ∷ path) vars f named = absurd f
match_parts_complete (str ∷ pattern) [] vars f named = absurd f

abbrev compared : List String → List String → Vars → Option (Bool × Vars)
compared pattern path vars =
    if not (nat_eq (length path) (length pattern))
    then some (false, vars)
    else match_parts pattern path vars

true_sound :
    (pattern path : List String) (vars v : Vars)
    → compared pattern path vars ≡ some (true, v)
    → Fits pattern path × AllNamed pattern
true_sound pattern path vars v e = elim (Bool-cases (nat_eq (length path) (length pattern))) [
  | inl n ↦ match_parts_sound pattern path vars v ((nat_eq_iff _ _).0 n) (ground arith)
  | inr n ↦ absurd (ground arith)
]

true_complete :
    (pattern path : List String) (vars v : Vars)
    → Fits pattern path
    → match_parts pattern path vars ≡ some (true, v)
    → compared pattern path vars ≡ some (true, v)
true_complete pattern path vars v f e =
    rw ((nat_eq_iff (length path) (length pattern)).1 (Fits-length pattern path f)) e

split-slash : (s : String) → split b'/' ("/" ++ s) ≡ "" ∷ split b'/' s
unfolding split
split-slash s = rw (cons-append, nil-append)

-- patternMatch answers true exactly when the parts of the URI fit those of the pattern and, besides,
-- no part of the pattern is empty. So with a pattern that begins with a slash it never answers true,
-- not even when the parts fit.
pub pattern_match-true_iff :
    (uri pattern : String) (vars : Vars)
    → (((v : Vars) × (pattern_match uri pattern vars ≡ some (true, v)))
        ↔ (Fits (split b'/' pattern) (split b'/' uri) × AllNamed (split b'/' pattern)))
      × ((v : Vars) → pattern_match uri ("/" ++ pattern) vars ≢ some (true, v))
unfolding pattern_match
pattern_match-true_iff uri pattern vars = (
  (
    λ (v, e). true_sound (split b'/' pattern) (split b'/' uri) vars v e,
    λ (f, named).
        let (v, e) = match_parts_complete (split b'/' pattern) (split b'/' uri) vars f named in
        (v, true_complete (split b'/' pattern) (split b'/' uri) vars v f e),
  ),
  λ v e.
      let (f, named) = true_sound (split b'/' ("/" ++ pattern)) (split b'/' uri) vars v e in
      (subst AllNamed (split-slash pattern) named).0 refl,
)

-- With a pattern that begins with a slash, as every request URI of a path does, patternMatch never
-- answers true: it panics where pattern and URI have equally many parts, and answers false otherwise.
pub pattern_match-slash :
    (uri pattern : String) (vars : Vars)
    → pattern_match ("/" ++ uri) ("/" ++ pattern) vars ≡ (
        if nat_eq (length (split b'/' uri)) (length (split b'/' pattern))
        then none
        else some (false, vars))
unfolding pattern_match
pattern_match-slash uri pattern vars =
    rw (split-slash uri, split-slash pattern) (ground (arith, eq_iff "" ""))
