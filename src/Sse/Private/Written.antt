-- ===== src/Sse/Private/Written.antt =====
-- No step gives a request a message that is not meant for its session.
use xhttp.Prelude.{
  ℕ, ◌≡◌, refl, sym, ◌∙◌, subst, Option, none, some, [], ◌∷◌, inl, inr, ◌==◌, Bool-cases, All,
}
use xhttp.Prelude.Dict.{lookup, remove, lookup-remove}
use xhttp.Sse.{
  opening, streaming, Client, Call, send, broadcast, Delivery, Sys, updated, forget, keys, run_call,
  receive, serve_http, Step, enter, leave, stop, drop, call, deliver, Reach, here, next, start,
}
use xhttp.Sse.Private.{
  All-snoc, All-always, updated-some, Meant, IsPrivate, Streams-updated, Reads-updated,
  next_delivery-Meant, entered-IsPrivate,
}

module _ (calls : ℕ → Option Call) where
  -- A change of a request that gives it no channel and nothing to read
  changed-IsPrivate :
      (s : Sys) (i : ℕ) (x : Client)
      → ((c : ℕ) → x.phase ≡ streaming c → (s.clients i).phase ≡ streaming c)
      → x.session_id ≡ (s.clients i).session_id
      → x.written ≡ (s.clients i).written
      → IsPrivate calls s
      → IsPrivate calls (record s { clients = updated i x s.clients })
  changed-IsPrivate s i x phase session written v = record {
    owner = v.owner;
    streams =
        Streams-updated calls v.owner s.next_channel i x s.clients
          (λ c h. let (below, own) = v.streams i c (phase c h) in (below, session ∙ own)) v.streams;
    registered = v.registered;
    pending = v.pending;
    asked = v.asked;
    reads = Reads-updated calls i x s.clients (rw (session, written) (v.reads i)) v.reads;
  }

  forgotten-IsPrivate :
      (s : Sys) (i : ℕ) → s.mutex ≡ none → IsPrivate calls s → IsPrivate calls (forget i s)
  unfolding forget
  forgotten-IsPrivate s i free v =
      let id = (s.clients i).session_id in
      let w : IsPrivate calls (record s { channels = remove id s.channels }) = record {
        owner = v.owner;
        streams = v.streams;
        registered = λ j c e. elim (Bool-cases (id == j)) [
          | inl same ↦
              absurd (
                let e' : none ≡ some c = rw same at (sym (lookup-remove id j s.channels) ∙ e) in cc)
          | inr other ↦ v.registered j c (rw other at (sym (lookup-remove id j s.channels) ∙ e))
        ];
        pending = λ d held. absurd (cc);
        asked = v.asked;
        reads = v.reads;
      } in
      changed-IsPrivate (record s { channels = remove id s.channels }) i _ (λ c h. h) refl refl w

  called-IsPrivate :
      (s : Sys) (k : ℕ) (x : Call)
      → s.calls k ≡ some x
      → IsPrivate calls s
      → IsPrivate calls (run_call x (record s { calls = updated k none s.calls }))
  unfolding run_call
  called-IsPrivate s k (send chanid message) wants v = record {
    owner = v.owner;
    streams = v.streams;
    registered = v.registered;
    pending = λ d held.
        next_delivery-Meant calls v.owner s.next_channel message (chanid ∷ []) s.channels d
          v.registered ((k, inl (v.asked k _ wants)), tt) held;
    asked = λ j x e. v.asked j x (updated-some k j s.calls e);
    reads = v.reads;
  }
  called-IsPrivate s k (broadcast message) wants v = record {
    owner = v.owner;
    streams = v.streams;
    registered = v.registered;
    pending = λ d held.
        next_delivery-Meant calls v.owner s.next_channel message (keys s.channels) s.channels d
          v.registered
          (All-always (Meant calls message) (keys s.channels) (λ id. (k, inr (v.asked k _ wants))))
          held;
    asked = λ j x e. v.asked j x (updated-some k j s.calls e);
    reads = v.reads;
  }

  received-IsPrivate :
      (s : Sys) (i : ℕ) (d : Delivery)
      → s.mutex ≡ some d
      → (s.clients i).phase ≡ streaming d.channel
      → IsPrivate calls s
      → IsPrivate calls (receive i d s)
  unfolding receive
  received-IsPrivate s i d held streams v =
      let (meant, later) = v.pending d held in
      let (below, own) = v.streams i d.channel streams in
      let mine : Meant calls d.message (s.clients i).session_id =
        subst (Meant calls d.message) (sym own) meant in
      record {
        owner = v.owner;
        streams =
            Streams-updated calls v.owner s.next_channel i _ s.clients (λ c h. v.streams i c h)
              v.streams;
        registered = v.registered;
        pending = λ d' held'.
            next_delivery-Meant calls v.owner s.next_channel d.message d.rest s.channels d'
              v.registered later held';
        asked = v.asked;
        reads =
            Reads-updated calls i _ s.clients
              (All-snoc (λ m. Meant calls m (s.clients i).session_id) (s.clients i).written
                d.message (v.reads i) mine)
              v.reads;
      }

  Step-IsPrivate : {s t : Sys} → Step s t → IsPrivate calls s → IsPrivate calls t
  unfolding serve_http
  Step-IsPrivate (enter s i free _) v = entered-IsPrivate calls s i _ free refl v
  Step-IsPrivate (leave s i) v = changed-IsPrivate s i _ (λ c h. h) refl refl v
  Step-IsPrivate (stop s i c _ _) v = changed-IsPrivate s i _ (λ c h. absurd (cc)) refl refl v
  Step-IsPrivate (drop s i free _ _) v = forgotten-IsPrivate s i free v
  Step-IsPrivate (call s k x free wants) v = called-IsPrivate s k x wants v
  Step-IsPrivate (deliver s i d held streams) v = received-IsPrivate s i d held streams v

  -- However requests and calls interleave, whatever a request has written was meant for it: there is a
  -- call of Send with this message and the id of its session, or a call of Broadcast with this
  -- message. At the start every request is before its channel and has written nothing.
  pub Reach-Reads :
      (clients : ℕ → Client) (t : Sys)
      → ((j : ℕ) → ((clients j).phase ≡ opening) × ((clients j).written ≡ []))
      → Reach (start clients calls) t
      → (j : ℕ) → All (λ m. Meant calls m (t.clients j).session_id) (t.clients j).written
  unfolding lookup
  Reach-Reads clients t fresh r = (all r).reads
    where
      first : IsPrivate calls (start clients calls)
      first = record {
        owner = λ c. "";
        streams = λ j c h. absurd (let e : opening ≡ streaming c = sym (fresh j).0 ∙ h in cc);
        registered = λ i c e. absurd (cc);
        pending = λ d held. absurd (cc);
        asked = λ k x e. e;
        reads = λ j. subst (All _) (sym (fresh j).1) tt;
      }

      all : {u : Sys} → Reach (start clients calls) u → IsPrivate calls u
      all here = first
      all (next r st) = Step-IsPrivate st (all r)
