-- ===== src/Upload/Rollback.antt =====
-- The list of rollbacks while ParseUpload runs.
pub mod ChunkPart
pub mod Served
use xhttp.Prelude.{
  ℕ, zero, suc, ◌≡◌, refl, String, Bool, true, false, Option, none, some, List, [], ◌∷◌,
  if◌then◌else◌, not, length, leb, get_elem?,
}
use xhttp.Prelude.Int.{ℤ}
use xhttp.Prelude.Dict.{Dict}
use xhttp.Http.{Request}
use xhttp.Session.Handler.{Handler}
use xhttp.Session.Action.{Error, Action, Result, ok, err, crash, Tried, done, failed, State}
use xhttp.Upload.Form.{
  Object, Uploaded, uploaded, refused, Field, Content, Cancel, cancel, Canceled, canceled,
  nil_called, add_cancel, cancel_from, noted,
}
use xhttp.Upload.Parse.{or_invalid, validate, missing, at_index, field, changed_at, change_field}
use xhttp.Upload.Parts.{
  Part, Stream, eof, broken, part, Media, Upload, Exit, go, stop, panics, Parse, go_on, pure,
  return_error, panic, ◌>>=◌, ◌>>◌, gets, modify, lifted, attempt, or_return, on_backends, register,
}

-- A nil function is in the list.
unfoldable pub has_nil : {S : Type 0} → List (Option (Cancel S)) → Bool
has_nil [] = false
has_nil (none ∷ cs) = true
has_nil (some c ∷ cs) = has_nil cs

has_nil-append :
    {S : Type 0} (c : Cancel S) (cs : List (Option (Cancel S)))
    → has_nil cs ≡ true
    → has_nil (add_cancel c cs) ≡ true
unfolding has_nil
has_nil-append c [] h = absurd (cc)
has_nil-append c (none ∷ cs) h = refl
has_nil-append c (some d ∷ cs) h = has_nil-append c cs h

-- Such a list cannot be run to its end.
pub cancel-has_nil :
    {S : Type 0} (cs : List (Option (Cancel S))) (es : List Error) (b : S)
    → has_nil cs ≡ true
    → (b' : S) × (cancel_from cs es b ≡ nil_called b')
unfolding has_nil cancel_from
cancel-has_nil [] es b h = absurd (cc)
cancel-has_nil (none ∷ cs) es b h = (b, refl)
cancel-has_nil (some f ∷ cs) es b h = cancel-has_nil cs (noted (f b).0 es) (f b).1 h

-- The nil function stays in the list.
pub record Keeps {S D A : Type 0} (m : Parse S D A) : Type 0 where
  pub at : (u : Upload S D) → has_nil u.cancels ≡ true → has_nil (m u).1.cancels ≡ true

module _ {S D A : Type 0} where
  pub pure-Keeps : (a : A) → Keeps {S = S} {D = D} (pure a)
  pure-Keeps a = record { at = λ u h. h }

  pub error-Keeps : (e : Error) → Keeps {S = S} {D = D} (return_error {A = A} e)
  error-Keeps e = record { at = λ u h. h }

  pub panic-Keeps : (msg : String) → Keeps {S = S} {D = D} (panic {A = A} msg)
  panic-Keeps msg = record { at = λ u h. h }

  pub gets-Keeps : (f : Upload S D → A) → Keeps (gets f)
  gets-Keeps f = record { at = λ u h. h }

  pub if-Keeps : (b : Bool) (m k : Parse S D A) → Keeps m → Keeps k → Keeps (if b then m else k)
  if-Keeps true m k km kk = km
  if-Keeps false m k km kk = kk

  pub on_backends-Keeps : (f : S → A × S) → Keeps {S = S} {D = D} (on_backends f)
  on_backends-Keeps f = record { at = λ u h. h }

  lifted-has_nil :
      (u : Upload S D) (r : Result A × State S)
      → has_nil u.cancels ≡ true
      → has_nil (lifted u r).1.cancels ≡ true
  lifted-has_nil u (ok a, s) h = h
  lifted-has_nil u (err e, s) h = h
  lifted-has_nil u (crash msg, s) h = h

  pub attempt-Keeps : (m : Action S A) → Keeps {S = S} {D = D} (attempt m)
  attempt-Keeps m = record { at = λ u h. lifted-has_nil u (m u.session) h }

  pub or_return-Keeps : (f : Error → Error) (r : Tried A) → Keeps {S = S} {D = D} (or_return f r)
  or_return-Keeps f (done a) = pure-Keeps a
  or_return-Keeps f (failed e) = error-Keeps (f e)

module _ {S D A B : Type 0} where
  go_on-has_nil :
      (r : Exit A × Upload S D) (f : A → Parse S D B)
      → has_nil r.1.cancels ≡ true
      → ((a : A) → Keeps (f a))
      → has_nil (go_on r f).1.cancels ≡ true
  go_on-has_nil (go a, u) f h k = (k a).at u h
  go_on-has_nil (stop e, u) f h k = h
  go_on-has_nil (panics msg, u) f h k = h

  pub bind-Keeps :
      (m : Parse S D A) (f : A → Parse S D B) → Keeps m → ((a : A) → Keeps (f a)) → Keeps (m >>= f)
  bind-Keeps m f km k = record { at = λ u h. go_on-has_nil (m u) f (km.at u h) k }

  pub then-Keeps : (m : Parse S D A) (k : Parse S D B) → Keeps m → Keeps k → Keeps (m >> k)
  then-Keeps m k km kk = record { at = λ u h. go_on-has_nil (m u) (λ _. k) (km.at u h) (λ _. kk) }

pub ruleset keeps_rules = (
  pure-Keeps, error-Keeps, panic-Keeps, gets-Keeps, if-Keeps, on_backends-Keeps, attempt-Keeps,
  or_return-Keeps, bind-Keeps, then-Keeps,
)

module _ {S D : Type 0} where
  pub register-Keeps : (c : Cancel S) → Keeps {S = S} {D = D} (register c)
  register-Keeps c = record { at = λ u h. has_nil-append c u.cancels h }

  -- What leaves the list as it is
  pub modify-Keeps :
      (f : Upload S D → Upload S D)
      → ((u : Upload S D) → (f u).cancels ≡ u.cancels)
      → Keeps (modify f)
  modify-Keeps f same = record { at = λ u h. rw (same u) h }

  changed_at-cancels :
      (i : ℕ) (change : Content S D → Content S D) (o : Option (Field S D)) (u : Upload S D)
      → (changed_at i change o u).cancels ≡ u.cancels
  changed_at-cancels i change none u = refl
  changed_at-cancels i change (some f) u = refl

  pub change_field-Keeps :
      (i : ℕ) (change : Content S D → Content S D) → Keeps (change_field i change)
  change_field-Keeps i change =
      modify-Keeps _ (λ u. changed_at-cancels i change (get_elem? u.form i) u)

  pub at_index-Keeps : (o : Option (Field S D)) → Keeps (at_index o)
  at_index-Keeps none = search keeps_rules
  at_index-Keeps (some f) = search keeps_rules

  pub field-Keeps : (i : ℕ) → Keeps {S = S} {D = D} (field i)
  field-Keeps i = record { at = λ u h. (at_index-Keeps (get_elem? u.form i)).at u h }
