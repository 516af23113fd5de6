-- ===== src/Sse.antt =====
-- handlers/sse/handler.go: messages, and the handler as a step relation. The requests, the goroutines
-- that wait for their end, and the calls of Send and Broadcast run beside each other. What a goroutine
-- does between two points where it can be held up is one step.
pub mod Laws
pub mod Broadcast
pub mod Private
mod Examples
use Prim.Native.String.{◌++◌}
use xhttp.Prelude.{
  ℕ, zero, suc, ◌+◌, ◌≡◌, String, Bool, true, false, Option, none, some, List, [], ◌∷◌,
  if◌then◌else◌, ◌==◌, nat_eq, not,
}
use xhttp.Prelude.{◌++◌ as append}
use xhttp.Prelude.Dict.{Dict, lookup, insert, remove}
use xhttp.Prelude.Int.{ℤ}
use xhttp.Prelude.Text.{itoa}

-- Message: its field `data` is `lines` here.
pub record Message : Type 0 where
  pub event_line : String
  pub lines : String
  pub id_line : String
  pub retry_line : String

-- Msg
abbrev pub msg : Message
msg = record { event_line = ""; lines = ""; id_line = ""; retry_line = "" }

-- Event
unfoldable pub event : String → Message → Message
event name m = if not (m.lines == "") then record m { event_line = name } else m

each_line : List String → Message → Message
each_line [] m = m
each_line (l ∷ ls) m = each_line ls (record m { lines = ("data:" ++ l) ++ "\n" })

-- Data
unfoldable pub data_lines : List String → Message → Message
unfolding each_line
data_lines [] m = record m { lines = "" }
data_lines (l ∷ ls) m = each_line (l ∷ ls) m

-- Id
unfoldable pub id : String → Message → Message
id i m = record m { id_line = "id:" ++ "\n" }

-- Retry
unfoldable pub retry : ℤ → Message → Message
unfolding itoa
retry n m = record m { retry_line = ("retry:" ++ itoa n) ++ "\n" }

-- End
unfoldable pub end : Message → String
end m = (((m.event_line ++ m.lines) ++ m.id_line) ++ m.retry_line) ++ "\n"

-- A request in ServeHTTP: before it takes the mutex, in its loop on a channel, or back.
pub data Phase : Type 0 where
  opening returned : Phase
  streaming : ℕ → Phase

-- `gone` is that its context is done, `watched` that a goroutine waits for that, `flushes` that its
-- writer is an http.Flusher, `written` what its loop has written.
pub record Client : Type 0 where
  pub session_id : String
  pub flushes : Bool
  pub phase : Phase
  pub gone : Bool
  pub watched : Bool
  pub written : List String

pub data Call : Type 0 where
  send : String → String → Call
  broadcast : String → Call

-- Where Send or Broadcast stands that has the mutex: at the sending of the message on a channel, with
-- the identifiers whose turn is still to come.
pub record Delivery : Type 0 where
  pub channel : ℕ
  pub message : String
  pub rest : List String

-- Handler with all that runs on it: who is held up with the mutex, the map of channels, the number of
-- the next new channel, the requests, and the calls that wait for the mutex.
pub record Sys : Type 0 where
  pub mutex : Option Delivery
  pub channels : Dict ℕ
  pub next_channel : ℕ
  pub clients : ℕ → Client
  pub calls : ℕ → Option Call

abbrev pub updated : {A : Type 0} → ℕ → A → (ℕ → A) → ℕ → A
updated i x f j = if nat_eq i j then x else f j

-- The request has its channel: it streams, or returns where streaming is not supported.
abbrev pub connected : ℕ → Client → Client
connected c x =
    if x.flushes
    then record x { phase = streaming c; watched = true }
    else record x { phase = returned }

abbrev pub with_channel : ℕ → Sys → Option ℕ → Sys
with_channel i s (some c) = record s { clients = updated i (connected c (s.clients i)) s.clients }
with_channel i s none = record s {
  channels = insert (s.clients i).session_id s.next_channel s.channels;
  next_channel = s.next_channel + 1;
  clients = updated i (connected s.next_channel (s.clients i)) s.clients;
}

-- ServeHTTP from Lock to its loop
unfoldable pub serve_http : ℕ → Sys → Sys
unfolding lookup insert
serve_http i s = with_channel i s (lookup (s.clients i).session_id s.channels)

-- The goroutine of ServeHTTP after the end of the context
unfoldable pub forget : ℕ → Sys → Sys
unfolding remove
forget i s = record s {
  channels = remove (s.clients i).session_id s.channels;
  clients = updated i (record (s.clients i) { watched = false }) s.clients;
}

-- The loop of Broadcast over the identifiers that are left; the mutex is free at its end.
unfoldable pub next_delivery : String → List String → Dict ℕ → Option Delivery
unfolding lookup
next_delivery message [] channels = none
next_delivery message (i ∷ ids) channels =
    let later = next_delivery message ids channels in
    elim (lookup i channels) [
      | none ↦ later
      | some c ↦ some (record { channel = c; message = message; rest = ids })
    ]

abbrev keys : Dict ℕ → List String
keys [] = []
keys ((k, c) ∷ m) = k ∷ keys m

-- Send and Broadcast once they have the mutex
unfoldable pub run_call : Call → Sys → Sys
unfolding next_delivery
run_call (send chanid message) s = record s {
  mutex = next_delivery message (chanid ∷ []) s.channels;
}
run_call (broadcast message) s = record s {
  mutex = next_delivery message (keys s.channels) s.channels;
}

-- The loop of ServeHTTP receives the message.
unfoldable pub receive : ℕ → Delivery → Sys → Sys
unfolding next_delivery
receive i d s = record s {
  mutex = next_delivery d.message d.rest s.channels;
  clients =
      updated i (record (s.clients i) { written = append (s.clients i).written (d.message ∷ []) })
        s.clients;
}

pub data Step : Sys → Sys → Type 0 where
  enter :
      (s : Sys) (i : ℕ) → s.mutex ≡ none → (s.clients i).phase ≡ opening → Step s (serve_http i s)
  leave :
      (s : Sys) (i : ℕ)
      → Step s (record s { clients = updated i (record (s.clients i) { gone = true }) s.clients })
  stop :
      (s : Sys) (i c : ℕ)
      → (s.clients i).phase ≡ streaming c
      → (s.clients i).gone ≡ true
      → Step s
          (record s { clients = updated i (record (s.clients i) { phase = returned }) s.clients })
  drop :
      (s : Sys) (i : ℕ)
      → s.mutex ≡ none
      → (s.clients i).gone ≡ true
      → (s.clients i).watched ≡ true
      → Step s (forget i s)
  call :
      (s : Sys) (k : ℕ) (x : Call)
      → s.mutex ≡ none
      → s.calls k ≡ some x
      → Step s (run_call x (record s { calls = updated k none s.calls }))
  deliver :
      (s : Sys) (i : ℕ) (d : Delivery)
      → s.mutex ≡ some d
      → (s.clients i).phase ≡ streaming d.channel
      → Step s (receive i d s)

pub data Reach (s : Sys) : Sys → Type 0 where
  here : Reach s s
  next : {t u : Sys} → Reach s t → Step t u → Reach s u

-- New: no channel, and nothing written.
abbrev pub start : (ℕ → Client) → (ℕ → Option Call) → Sys
start clients calls = record {
  mutex = none;
  channels = [];
  next_channel = 0;
  clients = clients;
  calls = calls;
}
