-- ===== src/Upload/Accepted.antt =====
-- Which requests the upload handlers accept.
use text.Mathlib.Text.{starts_with}
use xhttp.Prelude.{
  ℕ, zero, suc, ◌+◌, ◌-◌, ◌≡◌, ◌≢◌, refl, ap, inl, inr, String, Bool, true, false, Option, none,
  some, List, [], ◌∷◌, if◌then◌else◌, length, get_elem?, leb, Bool-cases, arith,
}
use xhttp.Prelude.Dict.{Dict, lookup}
use xhttp.Session.Action.{Error, wraps, foreign}
use xhttp.Upload.Form.{Field}
use xhttp.Upload.Parts.{
  Part, Stream, eof, broken, part, Media, Upload, Exit, go, stop, panics, Parse, go_on, ◌>>◌, pure,
  client_form_invalid,
}
use xhttp.Upload.Parse.{parts, one_part, form_data, fields, in_form, expect_end, missing}
use xhttp.Upload.Serve.{boundary_of, expect_form, form_given, or_no_boundary}

-- What a sequence that goes on has passed through.
module _ {S D A B : Type 0} where
  pub go_on-go :
      (m : Exit A × Upload S D) (f : A → Parse S D B) {b : B}
      → (go_on m f).0 ≡ go b
      → (a : A) × (u : Upload S D) × (m ≡ (go a, u)) × ((f a u).0 ≡ go b)
  go_on-go (go a, u) f e = (a, u, refl, e)
  go_on-go (stop x, u) f e = absurd (cc)
  go_on-go (panics msg, u) f e = absurd (cc)

pub stop-ne : {A : Type 0} {x : Option Error} {a : A} → stop x ≢ go a
stop-ne e = cc

leb-suc : (n : ℕ) → leb (suc n) 0 ≡ false
leb-suc n = ground arith

-- At most one part
unfoldable pub is_short : {D : Type 0} → Stream D → Bool
is_short eof = true
is_short (broken e) = false
is_short (part p eof peeked after) = true
is_short (part p (broken e) peeked after) = false
is_short (part p (part q rest peeked' after') peeked after) = false

module _ {S D : Type 0} (media : Media D) where
  module _ (process : ℕ → Part D → Parse S D (Part D)) where
    expect_end-go :
        (rest : Stream D) (u : Upload S D) {x : Unit {0}}
        → (expect_end media process rest u).0 ≡ go x
        → rest ≡ eof
    expect_end-go eof u e = refl
    expect_end-go (broken x) u e = absurd (cc)
    expect_end-go (part p rest peeked after) u e = absurd (cc)

    one_part-go :
        (i : ℕ) (p : Part D) (rest : Stream D) (u : Upload S D) {j : ℕ}
        → (one_part media process i p rest u).0 ≡ go j
        → rest ≡ eof
    unfolding one_part
    one_part-go i p rest u e =
        let (x, u1, m1, e1) = go_on-go (form_data media process p u) _ e in
        let (j, u3, m3, e3) = go_on-go (fields media process (length u1.form - i) i i p u1) _ e1 in
        let (y, u4, m4, e4) = go_on-go (in_form media process j u3) _ e3 in
        let (z, u5, m5, e5) = go_on-go (expect_end media process rest u4) _ e4 in
        expect_end-go rest u4 (ap (λ t. t.0) m5)

    not_full :
        (u : Upload S D) {f : Field S D} {fs : List (Field S D)}
        → u.form ≡ f ∷ fs
        → leb (length u.form) 0 ≡ false
    not_full u h = rw h (leb-suc _)

    pub parts-go :
        (s : Stream D) (f : Field S D) (fs : List (Field S D)) (u : Upload S D) {x : Unit {0}}
        → u.form ≡ f ∷ fs
        → (parts media process zero s u).0 ≡ go x
        → is_short s ≡ true
    unfolding parts is_short
    parts-go eof f fs u h e = refl
    parts-go (broken x) f fs u h e = absurd (stop-ne (rw (not_full u h) at e))
    parts-go (part p rest peeked after) f fs u h e =
        let (j, u', m, e') =
          go_on-go (one_part media process zero p rest u) _ (rw (not_full u h) at e) in
        rw (one_part-go zero p rest u (ap (λ t. t.0) m)) refl

module _ {S D B : Type 0} where
  form_given-go :
      (fs : List (Field S D)) (u : Upload S D) (k : Parse S D B) {b : B}
      → (go_on (form_given fs u) (λ _. k)).0 ≡ go b
      → (f : Field S D) × (rest : List (Field S D)) × (fs ≡ f ∷ rest) × ((k u).0 ≡ go b)
  form_given-go [] u k e = absurd (stop-ne e)
  form_given-go (f ∷ fs) u k e = (f, fs, refl, e)

  or_no_boundary-go :
      (o : Option String) (u : Upload S D) (k : String → Parse S D B) {b : B}
      → (go_on (or_no_boundary o u) k).0 ≡ go b
      → (x : String) × (o ≡ some x) × ((k x u).0 ≡ go b)
  or_no_boundary-go none u k e = absurd (stop-ne e)
  or_no_boundary-go (some x) u k e = (x, refl, e)

  boundary_of-go :
      (m : (String × Dict String) × Bool) (u : Upload S D) (k : String → Parse S D B) {b : B}
      → (go_on (boundary_of m u) k).0 ≡ go b
      → (x : String) × (lookup "boundary" m.0.1 ≡ some x) × ((k x u).0 ≡ go b)
  boundary_of-go ((ct, params), false) u k e = absurd (stop-ne e)
  boundary_of-go ((ct, params), true) u k e = elim (Bool-cases (starts_with ct "multipart/")) [
    | inl prefixed ↦ or_no_boundary-go (lookup "boundary" params) u k (rw prefixed at e)
    | inr other ↦ absurd (stop-ne (rw other at e))
  ]

-- The request has a boundary, and at most one part.
abbrev pub HasShortBody :
    {D : Type 0} → (String → Stream D) → (String × Dict String) × Bool → Type 0
HasShortBody request_parts m =
    (b : String) × (lookup "boundary" m.0.1 ≡ some b) × (is_short (request_parts b) ≡ true)

-- What both handlers do once they have the type of the request.
module _ {S D : Type 0} (media : Media D) (process : ℕ → Part D → Parse S D (Part D))
    (request_parts : String → Stream D) where
  pub body-go :
      (m : (String × Dict String) × Bool) (u : Upload S D) {x : Unit {0}}
      → (go_on (boundary_of m u) (λ b. expect_form >> parts media process zero (request_parts b))).0
        ≡ go x
      → HasShortBody request_parts m
  body-go m u e =
      let (b, found, e1) = boundary_of-go m u _ e in
      let (f, fs, given, e2) = form_given-go u.form u _ e1 in
      (b, found, parts-go media process (request_parts b) f fs u given e2)

in_bounds :
    {A : Type 0} (xs : List A) (i : ℕ) (x : A)
    → get_elem? xs i ≡ some x
    → (n : ℕ) × (length xs ≡ i + suc n)
in_bounds [] i x h = absurd (cc)
in_bounds (y ∷ ys) zero x h = (length ys, omega arith)
in_bounds (y ∷ ys) (suc i) x h = let (n, e) = in_bounds ys i x h in (n, omega (arith, e))

module _ {S D : Type 0} where
  missing_lem :
      (k i : ℕ) (f : Field S D) (u : Upload S D)
      → get_elem? u.form i ≡ some f
      → f.content.required ≡ false
      → missing k i u ≡ pure tt u
  unfolding missing
  missing_lem zero i f u h r = refl
  missing_lem (suc k) i f u h r = rw (h, r) (missing_lem k i f u h r)

  missing_required :
      (n i : ℕ) (f : Field S D) (u : Upload S D)
      → get_elem? u.form i ≡ some f
      → missing (suc n) i u ≡ (
          if f.content.required
          then (
            stop (
                some (
                  wraps client_form_invalid
                    (foreign "upload form sent is missing a required field: "))),
            u,
          )
          else (go tt, u))
  unfolding missing
  missing_required n i f u h = elim (Bool-cases f.content.required) [
    | inl needed ↦ rw (h, needed) refl
    | inr free ↦ rw (h, free) (missing_lem n i f u h free)
  ]

  -- At the end of the parts the form is accepted if the field that comes next need not be sent, and
  -- refused if it must be: the fields after it are not looked at.
  pub parts-eof :
      (media : Media D) (process : ℕ → Part D → Parse S D (Part D)) (i : ℕ) (f : Field S D)
      (u : Upload S D)
      → get_elem? u.form i ≡ some f
      → parts media process i eof u ≡ (
          if f.content.required
          then (
            stop (
                some (
                  wraps client_form_invalid
                    (foreign "upload form sent is missing a required field: "))),
            u,
          )
          else (go tt, u))
  unfolding parts
  parts-eof media process i f u h =
      let (n, e) = in_bounds u.form i f h in
      let inside : leb (length u.form) i ≡ false = ground (arith, e) in
      let left : length u.form - i ≡ suc n = omega (arith, e) in
      rw (inside, left) (missing_required n i f u h)
