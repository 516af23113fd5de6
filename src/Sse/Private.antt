-- ===== src/Sse/Private.antt =====
-- Who reads a message.
pub mod Written
use xhttp.Prelude.{
  ℕ, ◌+◌, ◌<◌, ◌≡◌, refl, sym, ◌∙◌, ap, subst, String, Bool, true, false, Option, none, some, List,
  [], ◌∷◌, nat_eq, nat_eq_iff, Bool-cases, Option-cases, ◌⊎◌, inl, inr, if◌then◌else◌, ◌==◌, eq_iff,
  arith, All,
}
use xhttp.Prelude.{◌++◌ as append}
use xhttp.Prelude.Dict.{Dict, lookup, insert, remove, lookup-insert, lookup-remove}
use xhttp.Sse.{
  opening, returned, streaming, Client, Call, send, broadcast, Delivery, Sys, updated, connected,
  with_channel, serve_http, forget, next_delivery, keys, run_call, receive, Step, enter, leave,
  stop, drop, call, deliver, Reach, here, next, start,
}
use mathlib.Core.Option.{some_inj}
use xhttp.Sse.Broadcast.{updated_cases}

All-snoc {ℓ} :
    {A : Type ℓ} (P : A → Type 0) (xs : List A) (x : A)
    → All P xs
    → P x
    → All P (append xs (x ∷ []))
All-snoc P [] x hs h = (h, tt)
All-snoc P (y ∷ xs) x hs h = (hs.0, All-snoc P xs x hs.1 h)

All-always {ℓ} : {A : Type ℓ} (P : A → Type 0) (xs : List A) → ((x : A) → P x) → All P xs
All-always P [] h = tt
All-always P (x ∷ xs) h = (h x, All-always P xs h)

updated-some :
    {A : Type 0} (k j : ℕ) (f : ℕ → Option A) {x : A} → updated k none f j ≡ some x → f j ≡ some x
updated-some k j f e = elim (Bool-cases (nat_eq k j)) [
  | inl same ↦ absurd (let e' : none ≡ some _ = rw same at e in cc)
  | inr other ↦ rw other at e
]

-- A request that has its channel is otherwise as it was.
record Connects (c : ℕ) (x y : Client) : Type 0 where
  on_it : (c' : ℕ) → y.phase ≡ streaming c' → c ≡ c'
  same_session : y.session_id ≡ x.session_id
  same_written : y.written ≡ x.written

connected-Connects : (c : ℕ) (x : Client) → Connects c x (connected c x)
connected-Connects c x = by_flushes x.flushes
  where
    by_flushes :
        (b : Bool)
        → Connects c x (
            if b
            then record x { phase = streaming c; watched = true }
            else record x { phase = returned })
    by_flushes true = record { on_it = λ c' e. cc; same_session = refl; same_written = refl }
    by_flushes false = record {
      on_it = λ c' e. absurd (cc);
      same_session = refl;
      same_written = refl;
    }

module _ (calls : ℕ → Option Call) where
  -- A call sends the message to the session, or to all.
  abbrev pub Meant : String → String → Type 0
  Meant message session =
      (k : ℕ) × ((calls k ≡ some (send session message)) ⊎ (calls k ≡ some (broadcast message)))

  abbrev Streams : (ℕ → String) → ℕ → (ℕ → Client) → Type 0
  Streams owner fresh f =
      (j c : ℕ) → (f j).phase ≡ streaming c → (c < fresh) × ((f j).session_id ≡ owner c)

  abbrev pub Reads : (ℕ → Client) → Type 0
  Reads f = (j : ℕ) → All (λ m. Meant m (f j).session_id) (f j).written

  abbrev Registered : (ℕ → String) → ℕ → Dict ℕ → Type 0
  Registered owner fresh m =
      (i : String) (c : ℕ) → lookup i m ≡ some c → (c < fresh) × (i ≡ owner c)

  -- Every channel belongs to one session for good.
  record IsPrivate (s : Sys) : Type 0 where
    owner : ℕ → String
    streams : Streams owner s.next_channel s.clients
    registered : Registered owner s.next_channel s.channels
    pending :
        (d : Delivery)
        → s.mutex ≡ some d
        → Meant d.message (owner d.channel) × All (Meant d.message) d.rest
    asked : (k : ℕ) (x : Call) → s.calls k ≡ some x → calls k ≡ some x
    reads : Reads s.clients

  Streams-updated :
      (owner : ℕ → String) (fresh i : ℕ) (x : Client) (f : ℕ → Client)
      → ((c : ℕ) → x.phase ≡ streaming c → (c < fresh) × (x.session_id ≡ owner c))
      → Streams owner fresh f
      → Streams owner fresh (updated i x f)
  Streams-updated owner fresh i x f hx hf j c h = elim (updated_cases i j x f) [
    | inl (same, e) ↦
        let (below, own) = hx c (ap (λ y. y.phase) (sym e) ∙ h) in
        (below, ap (λ y. y.session_id) e ∙ own)
    | inr e ↦
        let (below, own) = hf j c (ap (λ y. y.phase) (sym e) ∙ h) in
        (below, ap (λ y. y.session_id) e ∙ own)
  ]

  Reads-updated :
      (i : ℕ) (x : Client) (f : ℕ → Client)
      → All (λ m. Meant m x.session_id) x.written
      → Reads f
      → Reads (updated i x f)
  Reads-updated i x f hx hf j = elim (updated_cases i j x f) [
    | inl (same, e) ↦ subst (λ y. All (λ m. Meant m y.session_id) y.written) (sym e) hx
    | inr e ↦ subst (λ y. All (λ m. Meant m y.session_id) y.written) (sym e) (hf j)
  ]

  next_delivery-Meant :
      (owner : ℕ → String) (fresh : ℕ) (message : String) (ids : List String) (m : Dict ℕ)
      (d : Delivery)
      → Registered owner fresh m
      → All (Meant message) ids
      → next_delivery message ids m ≡ some d
      → Meant d.message (owner d.channel) × All (Meant d.message) d.rest
  unfolding next_delivery
  next_delivery-Meant owner fresh message [] m d reg all e = absurd (cc)
  next_delivery-Meant owner fresh message (i ∷ ids) m d reg all e =
      elim (Option-cases (lookup i m)) [
        | inl missing ↦
            next_delivery-Meant owner fresh message ids m d reg all.1
              (rw (missing, next_delivery) at e)
        | inr (c, found) ↦
            let same : record { channel = c; message = message; rest = ids } ≡ d =
              some_inj.0 (rw (found, next_delivery) at e) in
            subst (λ x. Meant x.message (owner x.channel) × All (Meant x.message) x.rest) same
              (subst (Meant message) (reg i c found).1 all.0, all.1)
      ]

  -- A request joins on the channel `c`.
  module _ (s : Sys) (v : IsPrivate s) (i c : ℕ) where
    joined-Reads : Reads (updated i (connected c (s.clients i)) s.clients)
    joined-Reads =
        let n = connected-Connects c (s.clients i) in
        Reads-updated i (connected c (s.clients i)) s.clients
          (rw (n.same_session, n.same_written) (v.reads i)) v.reads

    joined-Streams :
        (owner : ℕ → String) (fresh : ℕ)
        → (c < fresh) × ((s.clients i).session_id ≡ owner c)
        → Streams owner fresh s.clients
        → Streams owner fresh (updated i (connected c (s.clients i)) s.clients)
    joined-Streams owner fresh (below, own) old =
        let n = connected-Connects c (s.clients i) in
        Streams-updated owner fresh i (connected c (s.clients i)) s.clients
          (λ c' h.
            let same = n.on_it c' h in
            (subst (λ k. k < fresh) same below, n.same_session ∙ own ∙ ap owner same))
          old

  -- The owners once the channel `fresh` belongs to the session `i`
  abbrev granted : ℕ → String → (ℕ → String) → ℕ → String
  granted fresh i owner c = if nat_eq fresh c then i else owner c

  granted-old :
      (fresh c : ℕ) (i : String) (owner : ℕ → String)
      → c < fresh
      → granted fresh i owner c ≡ owner c
  granted-old fresh c i owner below = elim (Bool-cases (nat_eq fresh c)) [
    | inl same ↦ absurd (let e : fresh ≡ c = (nat_eq_iff fresh c).0 same in omega arith)
    | inr other ↦ rw other refl
  ]

  granted-new : (fresh : ℕ) (i : String) (owner : ℕ → String) → granted fresh i owner fresh ≡ i
  granted-new fresh i owner = rw ((nat_eq_iff fresh fresh).1 refl) refl

  widened :
      (fresh c : ℕ) (i j : String) (owner : ℕ → String)
      → (c < fresh) × (j ≡ owner c)
      → (c < fresh + 1) × (j ≡ granted fresh i owner c)
  widened fresh c i j owner (below, own) =
      (omega arith, own ∙ sym (granted-old fresh c i owner below))

  entered-IsPrivate :
      (s : Sys) (i : ℕ) (o : Option ℕ)
      → s.mutex ≡ none
      → lookup (s.clients i).session_id s.channels ≡ o
      → IsPrivate s
      → IsPrivate (with_channel i s o)
  entered-IsPrivate s i (some c) free found v = record {
    owner = v.owner;
    streams = joined-Streams s v i c v.owner s.next_channel (v.registered _ c found) v.streams;
    registered = v.registered;
    pending = v.pending;
    asked = v.asked;
    reads = joined-Reads s v i c;
  }
  entered-IsPrivate s i none free found v =
      let id = (s.clients i).session_id in
      let owner : ℕ → String = granted s.next_channel id v.owner in
      record {
        owner = owner;
        streams =
            joined-Streams s v i s.next_channel owner (s.next_channel + 1)
              (omega arith, sym (granted-new s.next_channel id v.owner))
              (λ j c h. widened s.next_channel c id _ v.owner (v.streams j c h));
        registered = λ j c e. elim (Bool-cases (id == j)) [
          | inl same ↦
              let e' : some s.next_channel ≡ some c =
                rw same at (sym (lookup-insert id j s.next_channel s.channels) ∙ e) in
              let at : s.next_channel ≡ c = some_inj.0 e' in
              (
                omega arith,
                sym ((eq_iff id j).0 same)
                    ∙ sym (granted-new s.next_channel id v.owner)
                    ∙ ap owner at,
              )
          | inr other ↦
              let e' : lookup j s.channels ≡ some c =
                rw other at (sym (lookup-insert id j s.next_channel s.channels) ∙ e) in
              widened s.next_channel c id j v.owner (v.registered j c e')
        ];
        pending = λ d held. absurd (cc);
        asked = v.asked;
        reads = joined-Reads s v i s.next_channel;
      }
