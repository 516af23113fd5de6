-- ===== src/Session/Load/Child.antt =====
-- What Load has checked of a session that has a parent.
mod Examples
use Prim.Native.String.{◌++◌}
use xhttp.Prelude.{
  ◌≡◌, refl, sym, ◌∙◌, ap, String, Bool, true, false, Option, none, some, ◌==◌, eq_iff,
  if◌then◌else◌,
}
use xhttp.Prelude.Int.{ℤ}
use xhttp.Http.{Request}
use xhttp.Session.Codec.{Codec}
use xhttp.Session.Cookie.{session_validity_key, id as cookie_id}
use xhttp.Session.Action.{
  Error, bad_session, parent_invalid, wraps, foreign, State, Result, ok, err, crash, Tried, done,
  failed, Action, pure, ◌>>=◌, ◌>>◌, continue, tried, on_parent,
}
use xhttp.Session.Handler.{Handler, id, get}
use xhttp.Session.Load.{
  loaded, load, load_with, load_cookie, check_parent, save, wrapping, or_wrap, require,
}

module _ {S : Type 0} where
  -- The first of two actions that went well
  record Went {A B : Type 0} (r : Result A × State S) (f : A → Action S B) (b : B) : Type 0 where
    value : A
    after : State S
    same : r ≡ (ok value, after)
    goes_on : (f value after).0 ≡ ok b

  continue-Went :
      {A B : Type 0} (r : Result A × State S) (f : A → Action S B) {b : B}
      → (continue r f).0 ≡ ok b
      → Went r f b
  continue-Went (ok a, s) f e = record { value = a; after = s; same = refl; goes_on = e }
  continue-Went (err x, s) f e = absurd (cc)
  continue-Went (crash m, s) f e = absurd (cc)

  module _ (codec : Codec) (info : Request → String) (now : ℤ) where
    wrapping-ok :
        {A : Type 0} (x : Error) (m : Action S A) (s : State S) {a : A} {t : State S}
        → wrapping codec info now x m s ≡ (ok a, t)
        → m s ≡ (ok a, t)
    wrapping-ok x m s e = by_result (m s) e
      where
        by_result :
            {A : Type 0} (r : Result A × State S) {a : A} {t : State S}
            → continue (tried r) (or_wrap codec info now x) ≡ (ok a, t)
            → r ≡ (ok a, t)
        by_result (ok a, t) e = e
        by_result (err y, t) e = absurd (cc)
        by_result (crash y, t) e = absurd (cc)

    require-true :
        {B : Type 0} (b : Bool) (x : Error) (s : State S) (f : Action S B) {v : B}
        → (continue (require codec info now b x s) (λ _. f)).0 ≡ ok v
        → (b ≡ true) × ((f s).0 ≡ ok v)
    require-true true x s f e = (refl, e)
    require-true false x s f e = absurd (cc)

module _ {S : Type 0} (codec : Codec) (info : Request → String) (now : ℤ) (h p : Handler S) where
  -- Get on the session and on its parent
  abbrev pub own : String → Action S String
  own = get now h

  abbrev pub of_parent : String → Action S String
  of_parent key = on_parent (get now p key)

  -- The session whose data is `t` is valid, names `pid` as the id of its parent, and the parent has an
  -- entry for it.
  pub record IsBound (pid : String) (t : State S) : Type 0 where
    pub valid : String
    pub is_valid : (own session_validity_key t).0 ≡ ok valid
    pub names_parent : (own (p.name ++ "/id") (own session_validity_key t).1).0 ≡ ok pid
    pub entry : String
    pub in_parent :
        (of_parent
          (h.name ++ "/" ++ (cookie_id t.cookie).0)
          (own (p.name ++ "/id") (own session_validity_key t).1).1).0
        ≡ ok entry

  check_parent-IsBound :
      (pid : String) (e : Error) (t : State S)
      → (check_parent codec info now h p pid (cookie_id t.cookie).0 e t).0 ≡ ok tt
      → IsBound pid t
  unfolding check_parent
  check_parent-IsBound pid e t x =
      let key = h.name ++ "/" ++ (cookie_id t.cookie).0 in
      let last : Action S (Unit {0}) =
        wrapping codec info now bad_session (of_parent key) >> pure tt in
      let second : String → Action S (Unit {0}) = λ psid.
        require codec info now (pid == psid)
          (wraps parent_invalid (foreign "session parent id is not matching"))
        >> last in
      let middle = wrapping codec info now e (own (p.name ++ "/id")) >>= second in
      let w =
        continue-Went (wrapping codec info now bad_session (own session_validity_key) t)
          (λ _. middle) x in
      let w' =
        continue-Went (wrapping codec info now e (own (p.name ++ "/id")) w.after) second
          w.goes_on in
      let (agree, y) = require-true codec info now (pid == w'.value) _ w'.after last w'.goes_on in
      let w'' =
        continue-Went (wrapping codec info now bad_session (of_parent key) w'.after) (λ _. pure tt)
          y in
      let first : own session_validity_key t ≡ (ok w.value, w.after) =
        wrapping-ok codec info now bad_session (own session_validity_key) t w.same in
      let next : own (p.name ++ "/id") w.after ≡ (ok w'.value, w'.after) =
        wrapping-ok codec info now e (own (p.name ++ "/id")) w.after w'.same in
      let found : of_parent key w'.after ≡ (ok w''.value, w''.after) =
        wrapping-ok codec info now bad_session (of_parent key) w'.after w''.same in
      let whole : own (p.name ++ "/id") (own session_validity_key t).1 ≡ (ok w'.value, w'.after) =
        ap (λ r. own (p.name ++ "/id") r.1) first ∙ next in
      record {
        valid = w.value;
        is_valid = ap (λ r. r.0) first;
        names_parent = ap (λ r. r.0) whole ∙ ap ok (sym ((eq_iff pid w'.value).0 agree));
        entry = w''.value;
        in_parent = ap (λ r. (of_parent key r.1).0) whole ∙ ap (λ r. r.0) found;
      }

  -- Where the session is read from first: from the cookie of the request, unless it is kept on the
  -- server alone.
  abbrev pub first_read : Request → Action S (Unit {0})
  first_read req = if h.server_only then pure tt else load_cookie codec info now h req

  -- A session with a parent is loaded only if it was loaded before, or if its parent is loaded, the
  -- session itself could be read and is valid, the parent's id is the one that the session has
  -- stored, and the parent has an entry for the session.
  pub load-IsBound :
      (req : Request) (s : State S)
      → loaded h req.ctx ≡ false
      → (load codec info now h (some p) req s).0 ≡ ok tt
      → (loaded p req.ctx ≡ true)
        × (t : State S) × (first_read req s ≡ (ok tt, t))
        × IsBound (cookie_id s.parent_cookie).0 t
  unfolding load load_with id
  load-IsBound req s unloaded e =
      let e' : (load_with codec info now h (some p) req s).0 ≡ ok tt = rw unloaded at e in
      let pid = (cookie_id s.parent_cookie).0 in
      let check : Action S (Unit {0}) = λ t.
        continue (check_parent codec info now h p pid (cookie_id t.cookie).0 bad_session t)
          (λ _. save codec info now h) in
      let after_parent : Action S (Unit {0}) = on_parent (id now p) >>= (λ i.
        first_read req
        >> (id now h
            >>= (λ j. check_parent codec info now h p i j bad_session >> save codec info now h))) in
      let (known, y) =
        require-true codec info now (loaded p req.ctx) parent_invalid s after_parent e' in
      let w = continue-Went (first_read req s) (λ _. check) y in
      let w' =
        continue-Went
          (check_parent codec info now h p pid (cookie_id w.after.cookie).0 bad_session w.after)
          (λ _. save codec info now h) w.goes_on in
      (known, w.after, w.same, check_parent-IsBound pid bad_session w.after (ap (λ r. r.0) w'.same))
