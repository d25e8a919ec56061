-- ===== src/Rest/Api.antt =====
-- The handlers that NewRestServer adds, and the requests about other nodes from end to end.
use Prim.Native.String.{String}
use v6space.Base.{codes, join_by, ℕ, ◌≡◌, ◌≢◌, refl, some, List, [], ◌∷◌, bytes_eq, bytes_eq_iff}
use v6space.Rest.{
  ApiHandler, RestServer, add_handlers, find_handler, sort_handlers, place, handler_less, text_less,
  path_of, starts_with, add_handler, has_handler, has_pattern, same_host, authorized, serve,
  Request, no_hook, runs, handle_request,
}
use v6space.Rest.Answers.{slash, Remote, called, remote_status, apply_key_parameterized}
use v6space.Rest.Keys.{NoSlash, apply_key_parameterized_iff}

abbrev endpoint : String → String → ℕ → ApiHandler
endpoint method pattern n = record { method = codes method; pattern = codes pattern; handler = n }

-- The handlers in the order in which they are added, numbered from 0.
abbrev pub api_handlers : List ApiHandler
api_handlers =
    endpoint "GET" "/api" 0
    ∷ endpoint "GET" "/api/self" 1
    ∷ endpoint "GET" "/api/nodeinfo" 2
    ∷ endpoint "PUT" "/api/nodeinfo" 3
    ∷ endpoint "GET" "/api/peers" 4
    ∷ endpoint "POST" "/api/peers" 5
    ∷ endpoint "PUT" "/api/peers" 6
    ∷ endpoint "DELETE" "/api/peers" 7
    ∷ endpoint "GET" "/api/publicpeers" 8
    ∷ endpoint "GET" "/api/paths" 9
    ∷ endpoint "POST" "/api/health" 10
    ∷ endpoint "GET" "/api/sse" 11
    ∷ endpoint "GET" "/api/dht" 12
    ∷ endpoint "GET" "/api/sessions" 13
    ∷ endpoint "GET" "/api/multicastinterfaces" 14
    ∷ endpoint "GET" "/api/remote/nodeinfo/{key}" 15
    ∷ endpoint "GET" "/api/remote/self/{key}" 16
    ∷ endpoint "GET" "/api/remote/peers/{key}" 17
    ∷ endpoint "GET" "/api/remote/dht/{key}" 18
    ∷ []

abbrev pub api_server : RestServer
api_server = add_handlers api_handlers (record { handlers = []; routes = [] })

-- What a request asks of another node.
pub data Subject : Type 0 where
  about_nodeinfo about_self about_peers about_dht : Subject

abbrev pub subject_text : Subject → List ℕ
subject_text about_nodeinfo = codes "nodeinfo"
subject_text about_self = codes "self"
subject_text about_peers = codes "peers"
subject_text about_dht = codes "dht"

abbrev pub subject_handler : Subject → ApiHandler
subject_handler about_nodeinfo = endpoint "GET" "/api/remote/nodeinfo/{key}" 15
subject_handler about_self = endpoint "GET" "/api/remote/self/{key}" 16
subject_handler about_peers = endpoint "GET" "/api/remote/peers/{key}" 17
subject_handler about_dht = endpoint "GET" "/api/remote/dht/{key}" 18

abbrev pub key_path : Subject → List ℕ → List ℕ
key_path s key = join_by slash [] (codes "api" ∷ codes "remote" ∷ subject_text s ∷ key ∷ [])

abbrev pub key_request : Subject → List ℕ → List ℕ → Request
key_request s key host = record {
  method = codes "GET";
  path = key_path s key;
  client = some host;
  server = some host;
}

found :
    (s : Subject) (key : List ℕ)
    → find_handler (codes "GET") (key_path s key) (serve api_server).handlers
      ≡ some (subject_handler s)
unfolding find_handler sort_handlers place handler_less text_less path_of starts_with add_handlers
    add_handler has_handler has_pattern bytes_eq serve
found about_nodeinfo key = refl
found about_self key = refl
found about_peers key = refl
found about_dht key = refl

routed :
    (s : Subject) (key host : List ℕ)
    → handle_request no_hook (serve api_server) (key_request s key host) ≡ runs (subject_handler s)
unfolding handle_request same_host authorized
routed s key host = rw (handle_request, (bytes_eq_iff host host).1 refl, found s key) refl

subject_text-NoSlash : (s : Subject) → NoSlash (subject_text s)
subject_text-NoSlash about_nodeinfo =
    (refl, (refl, (refl, (refl, (refl, (refl, (refl, (refl, tt))))))))
subject_text-NoSlash about_self = (refl, (refl, (refl, (refl, tt))))
subject_text-NoSlash about_peers = (refl, (refl, (refl, (refl, (refl, tt)))))
subject_text-NoSlash about_dht = (refl, (refl, (refl, tt)))

api_plain : NoSlash (codes "api")
api_plain = (refl, (refl, (refl, tt)))

remote_plain : NoSlash (codes "remote")
remote_plain = (refl, (refl, (refl, (refl, (refl, (refl, tt))))))

-- A GET request about another node, from the server's own host, with a key that is not empty and
-- has no slash, on a server with the handlers of NewRestServer and without a hook: of all the
-- handlers it reaches the one for its subject, and that one asks for exactly that key and answers
-- with the status for what the other node gave.
pub remote_request :
    (s : Subject) (key host : List ℕ) (fn : List ℕ → Remote)
    → key ≢ []
    → NoSlash key
    → (handle_request no_hook (serve api_server) (key_request s key host)
        ≡ runs (subject_handler s))
      × (apply_key_parameterized (key_request s key host).path fn
          ≡ called key (remote_status (fn key)))
remote_request s key host fn some_key plain = (
  routed s key host,
  (apply_key_parameterized_iff (key_path s key) key fn (remote_status (fn key))).1 (
    (
      [],
      codes "api",
      codes "remote",
      subject_text s,
      refl,
      some_key,
      (tt, (api_plain, (remote_plain, (subject_text-NoSlash s, (plain, tt))))),
    ),
    refl,
  ),
)
