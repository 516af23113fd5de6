-- ===== src/Sse/Broadcast.antt =====
-- How Broadcast reaches every request.
use xhttp.Prelude.{
  ℕ, ◌≡◌, refl, sym, ◌∙◌, ap, String, none, some, List, [], ◌∷◌, nat_eq, nat_eq_iff, Bool-cases,
  Option-cases, ◌⊎◌, inl, inr, ◌==◌, eq_iff,
}
use xhttp.Prelude.{◌++◌ as append, subst}
use mathlib.Core.Option.{some_inj}
use xhttp.Prelude.Dict.{Dict, lookup}
use xhttp.Sse.{
  streaming, Client, broadcast, Sys, updated, next_delivery, keys, run_call, receive, Step, call,
  deliver, Reach, here, next,
}

infix 50 ◌∈◌
abbrev ◌∈◌ : String → List String → Type 0
i ∈ [] = ⊥
i ∈ (j ∷ js) = (i ≡ j) ⊎ (i ∈ js)

keys_of_lookup : (i : String) (m : Dict ℕ) {c : ℕ} → lookup i m ≡ some c → i ∈ keys m
unfolding lookup
keys_of_lookup i [] e = absurd (cc)
keys_of_lookup i ((j, v) ∷ m) e = elim (Bool-cases (j == i)) [
  | inl same ↦ inl (sym ((eq_iff j i).0 same))
  | inr other ↦ inr (keys_of_lookup i m (rw other at e))
]

Reach-first : {s t u : Sys} → Step s t → Reach t u → Reach s u
Reach-first st here = next here st
Reach-first st (next r st') = next (Reach-first st r) st'

pub updated_cases :
    (i j : ℕ) (x : Client) (f : ℕ → Client)
    → ((i ≡ j) × (updated i x f j ≡ x)) ⊎ (updated i x f j ≡ f j)
updated_cases i j x f = elim (Bool-cases (nat_eq i j)) [
  | inl same ↦ inl ((nat_eq_iff i j).0 same, rw same refl)
  | inr other ↦ inr (rw other refl)
]

module _ (message : String) (listener : ℕ → ℕ) where
  -- Every channel that is registered has a request in its loop.
  abbrev pub Listens : Sys → Type 0
  Listens s =
      (i : String) (c : ℕ)
      → lookup i s.channels ≡ some c
      → (s.clients (listener c)).phase ≡ streaming c

  -- The last that the request has written is the message.
  abbrev pub HasWritten : Sys → ℕ → Type 0
  HasWritten s j = (ws : List String) × ((s.clients j).written ≡ append ws (message ∷ []))

  abbrev heard : Client → Client
  heard x = record x { written = append x.written (message ∷ []) }

  -- The state after the message was received on the channel `c`
  abbrev received : ℕ → List String → Sys → Sys
  received c ids s = receive (listener c) (record { channel = c; message = message; rest = ids }) s

  received-phase :
      (c j : ℕ) (ids : List String) (s : Sys)
      → ((received c ids s).clients j).phase ≡ (s.clients j).phase
  unfolding receive
  received-phase c j ids s =
      elim (updated_cases (listener c) j (heard (s.clients (listener c))) s.clients) [
        | inl (same, e) ↦ ap (λ x. x.phase) e ∙ ap (λ k. (s.clients k).phase) same
        | inr e ↦ ap (λ x. x.phase) e
      ]

  received-HasWritten :
      (c j : ℕ) (ids : List String) (s : Sys) → HasWritten s j → HasWritten (received c ids s) j
  unfolding receive
  received-HasWritten c j ids s (ws, h) =
      elim (updated_cases (listener c) j (heard (s.clients (listener c))) s.clients) [
        | inl (same, e) ↦ ((s.clients (listener c)).written, ap (λ x. x.written) e)
        | inr e ↦ (ws, ap (λ x. x.written) e ∙ h)
      ]

  received-listener :
      (c : ℕ) (ids : List String) (s : Sys) → HasWritten (received c ids s) (listener c)
  unfolding receive
  received-listener c ids s =
      ((s.clients (listener c)).written, rw ((nat_eq_iff (listener c) (listener c)).1 refl) refl)

  -- What a run of deliveries to the identifiers `ids` has come to.
  record Delivered (ids : List String) (s t : Sys) : Type 0 where
    run : Reach s t
    free : t.mutex ≡ none
    kept : (j : ℕ) → HasWritten s j → HasWritten t j
    got : (i : String) (c : ℕ) → i ∈ ids → lookup i s.channels ≡ some c → HasWritten t (listener c)

  deliveries :
      (ids : List String) (s : Sys)
      → s.mutex ≡ next_delivery message ids s.channels
      → Listens s
      → (t : Sys) × Delivered ids s t
  unfolding next_delivery receive
  deliveries [] s held all = (
    s,
    record { run = here; free = held; kept = λ j h. h; got = λ i c nowhere e. absurd nowhere },
  )
  deliveries (i ∷ ids) s held all = elim (Option-cases (lookup i s.channels)) [
    | inl missing ↦
        let (t, d) = deliveries ids s (rw (missing, next_delivery) at held) all in
        (
          t,
          record {
            run = d.run;
            free = d.free;
            kept = d.kept;
            got = λ i' c m e. elim m [ inl same ↦ absurd (cc) | inr later ↦ d.got i' c later e ];
          },
        )
    | inr (c, found) ↦
        let (t, d) =
          deliveries ids (received c ids s) refl
            (λ j c' e. received-phase c (listener c') ids s ∙ all j c' e) in
        let mine : HasWritten t (listener c) = d.kept (listener c) (received-listener c ids s) in
        (
          t,
          record {
            run =
                Reach-first
                  (deliver s (listener c) _ (rw (found, next_delivery) at held) (all i c found))
                  d.run;
            free = d.free;
            kept = λ j h. d.kept j (received-HasWritten c j ids s h);
            got = λ i' c' m e. elim m [
              | inl same ↦
                  let at : c' ≡ c =
                    some_inj.0 (sym e ∙ ap (λ k. lookup k s.channels) same ∙ found) in
                  subst (λ k. HasWritten t (listener k)) (sym at) mine
              | inr later ↦ d.got i' c' later e
            ];
          },
        )
  ]

  -- A message that is broadcast while a request is in its loop on every registered channel can be
  -- received by all of them: there is a run after which it is the last that each of them has written,
  -- and the mutex is free again.
  pub broadcast-IsDelivered :
      (s : Sys) (k : ℕ)
      → s.mutex ≡ none
      → s.calls k ≡ some (broadcast message)
      → Listens s
      → (t : Sys) × Reach s t
        × (t.mutex ≡ none)
        × ((i : String) (c : ℕ) → lookup i s.channels ≡ some c → HasWritten t (listener c))
  unfolding run_call
  broadcast-IsDelivered s k free wants all =
      let s' = run_call (broadcast message) (record s { calls = updated k none s.calls }) in
      let (t, d) = deliveries (keys s.channels) s' refl all in
      (
        t,
        Reach-first (call s k (broadcast message) free wants) d.run,
        d.free,
        λ i c e. d.got i c (keys_of_lookup i s.channels e) e,
      )
