-- ===== src/Sse/Laws.antt =====
-- What the handler of server-sent events delivers, and where it stops for good.
use Prim.Native.String.{◌++◌}
use xhttp.Prelude.{
  ℕ, ◌≡◌, ◌≢◌, refl, sym, ap, ◌∙◌, subst, String, true, Option, none, some, List, [], ◌∷◌, nat_eq,
  nat_eq_iff, Bool-cases, inl, inr, eq_refl,
}
use xhttp.Prelude.{◌++◌ as append}
use xhttp.Prelude.Dict.{Dict, lookup, insert}
use xhttp.Sse.{
  Message, data_lines, each_line, opening, returned, streaming, Client, Call, send, Delivery, Sys,
  updated, connected, serve_http, next_delivery, run_call, receive, Step, enter, leave, stop, drop,
  call, deliver, Reach, here, next, start,
}

-- A call has the mutex and sends on a channel that no request listens to.
abbrev pub IsStuck : Sys → Type 0
IsStuck s =
    (d : Delivery) × (s.mutex ≡ some d) × ((i : ℕ) → (s.clients i).phase ≢ streaming d.channel)

updated-silent :
    (i c : ℕ) (x : Client) (f : ℕ → Client)
    → x.phase ≢ streaming c
    → ((j : ℕ) → (f j).phase ≢ streaming c)
    → (j : ℕ) → (updated i x f j).phase ≢ streaming c
updated-silent i c x f hx hf j e = elim (Bool-cases (nat_eq i j)) [
  | inl same ↦ hx (rw same at e)
  | inr other ↦ hf j (rw other at e)
]

-- It stays so whatever happens.
pub Step-IsStuck : {s t : Sys} → Step s t → IsStuck s → IsStuck t
Step-IsStuck (enter s i free _) (d, held, silent) = absurd (cc)
Step-IsStuck (leave s i) (d, held, silent) =
    (d, held, updated-silent i d.channel _ s.clients (silent i) silent)
Step-IsStuck (stop s i c _ _) (d, held, silent) =
    (d, held, updated-silent i d.channel _ s.clients (λ e. cc) silent)
Step-IsStuck (drop s i free _ _) (d, held, silent) = absurd (cc)
Step-IsStuck (call s k x free _) (d, held, silent) = absurd (cc)
Step-IsStuck (deliver s i d' held' streams) (d, held, silent) =
    let same : d' ≡ d = cc in absurd (silent i (streams ∙ ap (λ x. streaming x.channel) same))

pub Reach-IsStuck : {s t : Sys} → Reach s t → IsStuck s → IsStuck t
Reach-IsStuck here h = h
Reach-IsStuck (next r step) h = Step-IsStuck step (Reach-IsStuck r h)

nat_eq_refl : (n : ℕ) → nat_eq n n ≡ true
nat_eq_refl n = (nat_eq_iff n n).1 refl

updated_same : (i : ℕ) (x : Client) (f : ℕ → Client) → updated i x f i ≡ x
updated_same i x f = rw nat_eq_refl refl

lookup-one : (i : String) (c : ℕ) → lookup i ((i, c) ∷ []) ≡ some c
unfolding lookup
lookup-one i c = rw (eq_refl i) refl

next_delivery-found :
    (message i : String) (c : ℕ) (channels : Dict ℕ)
    → lookup i channels ≡ some c
    → next_delivery message (i ∷ []) channels
      ≡ some (record { channel = c; message = message; rest = [] })
unfolding next_delivery
next_delivery-found message i c channels found = rw (next_delivery, found) refl

module _ (i k : ℕ) (message : String) (clients : ℕ → Client) (calls : ℕ → Option Call) where
  -- The request has the channel 0.
  abbrev with_client : Client → Sys
  with_client x = record {
    mutex = none;
    channels = ((clients i).session_id, 0) ∷ [];
    next_channel = 1;
    clients = updated i x clients;
    calls = calls;
  }

  abbrev listening : Client
  listening = record (clients i) { phase = streaming 0; watched = true }

  abbrev with_mutex : Option Delivery → Sys
  with_mutex m = record (with_client listening) { mutex = m; calls = updated k none calls }

  -- Send is held up on the channel.
  abbrev held_up : Sys
  held_up = with_mutex (some (record { channel = 0; message = message; rest = [] }))

  start-held_up :
      ((j : ℕ) → (clients j).phase ≡ opening)
      → (clients i).flushes ≡ true
      → calls k ≡ some (send (clients i).session_id message)
      → Reach (start clients calls) held_up
  unfolding serve_http insert lookup run_call next_delivery
  start-held_up fresh flushes wants =
      let id = (clients i).session_id in
      let entered : Reach (start clients calls) (with_client (connected 0 (clients i))) =
        next here (enter (start clients calls) i refl (fresh i)) in
      let connects : connected 0 (clients i) ≡ listening = rw flushes refl in
      let ready : Reach (start clients calls) (with_client listening) =
        subst (λ x. Reach (start clients calls) (with_client x)) connects entered in
      let taken : Reach (start clients calls)
          (with_mutex (next_delivery message (id ∷ []) ((id, 0) ∷ []))) =
        next ready (call (with_client listening) k _ refl wants) in
      subst (λ m. Reach (start clients calls) (with_mutex m))
        (next_delivery-found message id 0 ((id, 0) ∷ []) (lookup-one id 0)) taken

  -- The request ends.
  abbrev left : Sys
  left = record held_up {
    clients = updated i (record (held_up.clients i) { gone = true }) held_up.clients;
  }

  abbrev ended : Sys
  ended = record left {
    clients = updated i (record (left.clients i) { phase = returned }) left.clients;
  }

  held_up-ended : {s : Sys} → Reach s held_up → Reach s ended
  held_up-ended r =
      let streams : (left.clients i).phase ≡ streaming 0 =
        ap (λ x. x.phase)
          (updated_same i (record (held_up.clients i) { gone = true }) held_up.clients)
        ∙ ap (λ x. x.phase) (updated_same i listening clients) in
      let gone : (left.clients i).gone ≡ true =
        ap (λ x. x.gone)
          (updated_same i (record (held_up.clients i) { gone = true }) held_up.clients) in
      next (next r (leave held_up i)) (stop left i 0 streams gone)

  ended-IsStuck : ((j : ℕ) → (clients j).phase ≡ opening) → IsStuck ended
  ended-IsStuck fresh = (
    record { channel = 0; message = message; rest = [] },
    refl,
    λ j e. elim (Bool-cases (nat_eq i j)) [
      | inl same ↦ let e' : returned ≡ streaming 0 = rw same at e in cc
      | inr other ↦
          let e' : (clients j).phase ≡ streaming 0 = rw other at e in
          let opened : opening ≡ streaming 0 = sym (fresh j) ∙ e' in cc
    ],
  )

-- A message is sent to a request that streams, and the request ends before it has received it: there
-- is a run to a state from which the mutex is never free again, so that no request gets a channel, no
-- channel is removed and no other message is sent.
pub start-IsStuck :
    (i k : ℕ) (message : String) (clients : ℕ → Client) (calls : ℕ → Option Call)
    → ((j : ℕ) → (clients j).phase ≡ opening)
    → (clients i).flushes ≡ true
    → calls k ≡ some (send (clients i).session_id message)
    → (t : Sys) × Reach (start clients calls) t × ((u : Sys) → Reach t u → u.mutex ≢ none)
start-IsStuck i k message clients calls fresh flushes wants = (
  ended i k message clients calls,
  held_up-ended i k message clients calls
      (start-held_up i k message clients calls fresh flushes wants),
  λ u r free.
      let (d, held, silent) = Reach-IsStuck r (ended-IsStuck i k message clients calls fresh) in cc,
)

-- A message that is sent to a request that streams can be received: there is a run in which the
-- request writes it and the mutex is free again.
pub send-IsDelivered :
    (s : Sys) (i k c : ℕ) (chanid message : String)
    → s.mutex ≡ none
    → (s.clients i).phase ≡ streaming c
    → lookup chanid s.channels ≡ some c
    → s.calls k ≡ some (send chanid message)
    → (t : Sys) × Reach s t
      × (t.mutex ≡ none)
      × ((t.clients i).written ≡ append (s.clients i).written (message ∷ []))
unfolding run_call receive
send-IsDelivered s i k c chanid message free streams found wants =
    let d : Delivery = record { channel = c; message = message; rest = [] } in
    let s1 = run_call (send chanid message) (record s { calls = updated k none s.calls }) in
    (
      receive i d s1,
      next (next here (call s k _ free wants))
          (deliver s1 i d (next_delivery-found message chanid c s.channels found) streams),
      refl,
      ap (λ x. x.written) (updated_same i _ s.clients),
    )

each_line-append :
    (ls : List String) (l : String) (m : Message)
    → each_line (append ls (l ∷ [])) m ≡ record m { lines = ("data:" ++ l) ++ "\n" }
unfolding each_line
each_line-append [] l m = refl
each_line-append (k ∷ ls) l m = each_line-append ls l (record m { lines = ("data:" ++ k) ++ "\n" })

-- Data keeps only its last line.
pub data_lines-append :
    (ls : List String) (l : String) (m : Message)
    → data_lines (append ls (l ∷ [])) m ≡ record m { lines = ("data:" ++ l) ++ "\n" }
unfolding data_lines each_line
data_lines-append [] l m = refl
data_lines-append (k ∷ ls) l m = each_line-append ls l (record m { lines = ("data:" ++ k) ++ "\n" })
