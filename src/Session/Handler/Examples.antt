-- ===== src/Session/Handler/Examples.antt =====
-- A store that is a function from session and key to the entry.
use xhttp.Prelude.{if◌then◌else◌, ◌==◌, String, false, Option, none, some, []}
use xhttp.Session.Cookie.{id as cookie_id}
use xhttp.Session.Action.{State, Result, ok, err, key_not_found}
use xhttp.Session.Handler.{Handler, Store, get, put}
use xhttp.Session.Handler.Stored.{put_entry}
use xhttp.Session.Samples.{newcomer}

abbrev Entries : Type 0
Entries = String → String → Option String

abbrev or_missing : Option String → Result String
or_missing none = err key_not_found
or_missing (some v) = ok v

abbrev store : Store Entries
store = record {
  get = λ i k b. (or_missing (b i k), b);
  put = λ i k v age b. (ok tt, put_entry i k v b);
  delete = λ i k b. (ok tt, b);
  time_to_expiry = λ i k b. (err key_not_found, b);
}

abbrev handler : Handler Entries
handler = record {
  name = "s";
  server_only = false;
  context_key = 7;
  store = some store;
  cache = none;
  uuidgen = λ b. (ok "u1", b);
}

abbrev before : State Entries
before = record {
  cookie = newcomer;
  parent_cookie = newcomer;
  backends = λ i k. some "true";
  res = record { header = []; sent = none; body = [] };
}

-- The time in which the entries of one other session expire
abbrev pass : Entries → Entries
pass b i k = if i == "gone" then none else b i k
