-- ===== src/Session/Load/Authentic.antt =====
-- Where the data of a loaded session comes from.
use xhttp.Prelude.{◌≡◌, refl, sym, ◌∙◌, ap, String, false, none, some, Option-cases, inl, inr}
use xhttp.Prelude.Int.{ℤ}
use xhttp.Context.{HttpCookie}
use xhttp.Http.{Request}
use xhttp.Session.Codec.{
  Codec, Decoded, decoded, tampered, bad_signature, undecodable, unreadable, decode,
}
use xhttp.Session.RoundTrip.{IsAuthentic, decode-IsAuthentic}
use xhttp.Session.Action.{State, ok, Action, continue}
use xhttp.Session.Handler.{Handler}
use xhttp.Session.Load.{
  loaded, request_cookie, load, load_with, load_cookie, load_from, accept, decode_cookie,
}

module _ {S : Type 0} (codec : Codec) (info : Request → String) (now : ℤ) (h : Handler S) where
  accept_inv :
      {B : Type 0} (d : Decoded) (t : State S) (f : Action S B) {b : B}
      → (continue (accept codec info now d t) (λ _. f)).0 ≡ ok b
      → d ≡ decoded
  accept_inv decoded t f e = refl
  accept_inv tampered t f e = absurd (cc)
  accept_inv bad_signature t f e = absurd (cc)
  accept_inv undecodable t f e = absurd (cc)
  accept_inv unreadable t f e = absurd (cc)

  load_cookie-inv :
      (req : Request) (s : State S)
      → (load_cookie codec info now h req s).0 ≡ ok tt
      → (k : HttpCookie) × (request_cookie h.name req.cookies ≡ some k)
        × ((decode codec s.cookie k).0 ≡ decoded)
  unfolding load_cookie load_from decode_cookie
  load_cookie-inv req s e = elim (Option-cases (request_cookie h.name req.cookies)) [
    | inl missing ↦
        absurd (none_found (ap (λ o. (load_from codec info now h o s).0) (sym missing) ∙ e))
    | inr (k, found) ↦ (
      k,
      found,
      accept_inv (decode codec s.cookie k).0 _ _
          (ap (λ o. (load_from codec info now h o s).0) (sym found) ∙ e),
    )
  ]
    where
      none_found : (load_from codec info now h none s).0 ≡ ok tt → ⊥
      none_found f = cc

  -- A session with no parent that is not kept on the server alone is loaded only if it was loaded
  -- before, or from a request cookie of its name that is authentic: its value carries the MAC that
  -- the handler's secret gives to its message.
  pub load-IsAuthentic :
      (req : Request) (s : State S)
      → loaded h req.ctx ≡ false
      → h.server_only ≡ false
      → (load codec info now h none req s).0 ≡ ok tt
      → (k : HttpCookie) × (request_cookie h.name req.cookies ≡ some k)
        × IsAuthentic codec s.cookie (decode codec s.cookie k).1 k.value
  load-IsAuthentic req s unloaded client e =
      let e' : (load_cookie codec info now h req s).0 ≡ ok tt =
        (unfold load load_with in simp (unloaded, client) at e) in
      let (k, found, good) = load_cookie-inv req s e' in
      (k, found, decode-IsAuthentic codec s.cookie k good)
