-- ===== src/Sse/Examples.antt =====
-- A request that streams, and a message for it.
use xhttp.Prelude.{
  ℕ, ◌≡◌, ◌≢◌, refl, String, true, false, Option, none, some, [], ◌∷◌, nat_eq, if◌then◌else◌, All,
}
use xhttp.Prelude.Dict.{lookup, insert}
use xhttp.Sse.{
  opening, streaming, Client, Call, send, broadcast, Delivery, Sys, updated, serve_http,
  next_delivery, run_call, receive, enter, call, deliver, Reach, here, next, start,
}
use xhttp.Sse.Laws.{start-IsStuck}
use xhttp.Sse.Private.{Meant}
use xhttp.Sse.Private.Written.{Reach-Reads}
use xhttp.Sse.Broadcast.{HasWritten, broadcast-IsDelivered}

abbrev browser : Client
browser = record {
  session_id = "u1";
  flushes = true;
  phase = opening;
  gone = false;
  watched = false;
  written = [];
}

abbrev greeting : ℕ → Option Call
greeting k = if nat_eq 0 k then some (send "u1" "hello") else none

start-IsStuck_example :
    (t : Sys) × Reach (start (λ i. browser) greeting) t × ((u : Sys) → Reach t u → u.mutex ≢ none)
start-IsStuck_example = start-IsStuck 0 0 "hello" (λ i. browser) greeting (λ j. refl) refl refl

-- The requests 0 and 1 are in their loops, each on the channel of its number.
abbrev news : ℕ → Option Call
news k = if nat_eq 0 k then some (broadcast "news") else none

abbrev two_browsers : Sys
two_browsers = record {
  mutex = none;
  channels = ("u1", 0) ∷ ("u2", 1) ∷ [];
  next_channel = 2;
  clients = λ i. record browser { phase = streaming i; watched = true };
  calls = news;
}

broadcast-IsDelivered_example :
    (t : Sys) × Reach two_browsers t
    × (t.mutex ≡ none)
    × ((i : String) (c : ℕ)
        → lookup i two_browsers.channels ≡ some c
        → HasWritten "news" (λ c. c) t c)
broadcast-IsDelivered_example =
    broadcast-IsDelivered "news" (λ c. c) two_browsers 0 refl refl (λ i c e. refl)

-- The request 0 enters, and the message that is sent to its session is received.
abbrev entered : Sys
entered = serve_http 0 (start (λ i. browser) greeting)

abbrev held_up : Sys
held_up = run_call (send "u1" "hello") (record entered { calls = updated 0 none greeting })

abbrev hello : Delivery
hello = record { channel = 0; message = "hello"; rest = [] }

abbrev greeted : Sys
greeted = receive 0 hello held_up

greeted-Reach : Reach (start (λ i. browser) greeting) greeted
unfolding serve_http run_call next_delivery lookup insert
greeted-Reach =
    next
      (next (next here (enter (start (λ i. browser) greeting) 0 refl refl))
        (call entered 0 (send "u1" "hello") refl refl))
      (deliver held_up 0 hello refl refl)

Reach-Reads_example :
    All (λ m. Meant greeting m (greeted.clients 0).session_id) (greeted.clients 0).written
Reach-Reads_example =
    Reach-Reads greeting (λ i. browser) greeted (λ j. (refl, refl)) greeted-Reach 0

greeted_test : (greeted.clients 0).written ≡ "hello" ∷ []
unfolding serve_http run_call next_delivery lookup insert receive
greeted_test = refl
