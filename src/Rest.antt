-- ===== src/Rest.antt =====
-- src/restapi/rest_server.go: the control server's table of handlers and the dispatch of a request.
-- HTTP, the table of routes of net/http and the authentication hook are parameters.
pub mod Handlers
pub mod Dispatch
pub mod Peers
pub mod Events
pub mod Answers
pub mod Api
pub mod Order
pub mod Keys
pub mod Nodeinfo
pub mod Health
pub mod Docs
pub mod Examples
use v6space.Base.{
  ℕ, Bool, true, false, not, ◌&&◌, ◌||◌, Option, none, some, List, [], ◌∷◌, ◌++◌, length, ◌==◌, ltb,
  if◌then◌else◌, bytes_eq,
}

-- ApiHandler, with the number of its function.
pub record ApiHandler : Type 0 where
  pub method : List ℕ
  pub pattern : List ℕ
  pub handler : ℕ

-- `strings.Split(pattern, "{")[0]`.
unfoldable pub path_of : List ℕ → List ℕ
path_of [] = []
path_of (c ∷ cs) = if c == b'{' then [] else c ∷ path_of cs

unfoldable pub starts_with : List ℕ → List ℕ → Bool
starts_with [] value = true
starts_with (c ∷ cs) [] = false
starts_with (c ∷ cs) (x ∷ xs) = c == x && starts_with cs xs

-- matchPattern.
abbrev pub match_pattern : List ℕ → List ℕ → Bool
match_pattern pattern value = starts_with (path_of pattern) value

-- The server's handlers, and the patterns that http.HandleFunc was called with.
pub record RestServer : Type 0 where
  pub handlers : List ApiHandler
  pub routes : List (List ℕ)

unfoldable pub has_handler : List ℕ → List ℕ → List ApiHandler → Bool
has_handler method pattern [] = false
has_handler method pattern (h ∷ hs) =
    (bytes_eq h.method method && bytes_eq h.pattern pattern) || has_handler method pattern hs

unfoldable pub has_pattern : List ℕ → List ApiHandler → Bool
has_pattern pattern [] = false
has_pattern pattern (h ∷ hs) = bytes_eq h.pattern pattern || has_pattern pattern hs

-- AddHandler; `none` is the error.
unfoldable pub add_handler : ApiHandler → RestServer → Option RestServer
add_handler h a =
    if has_handler h.method h.pattern a.handlers
    then none
    else some (record {
      handlers = a.handlers ++ h ∷ [];
      routes =
          if has_pattern h.pattern a.handlers then a.routes else a.routes ++ path_of h.pattern ∷ [];
    })

unfoldable pub add_handlers : List ApiHandler → RestServer → RestServer
add_handlers [] a = a
add_handlers (h ∷ hs) a =
    add_handlers hs (elim (add_handler h a) as (λ _. RestServer) [ none ↦ a | some b ↦ b ])

-- `strings.Compare(a, b) < 0`.
unfoldable pub text_less : List ℕ → List ℕ → Bool
text_less [] [] = false
text_less [] (y ∷ ys) = true
text_less (x ∷ xs) [] = false
text_less (x ∷ xs) (y ∷ ys) = ltb x y || (x == y && text_less xs ys)

-- The order of Serve.
unfoldable pub handler_less : ApiHandler → ApiHandler → Bool
handler_less a b =
    if length a.pattern == length b.pattern
    then text_less a.pattern b.pattern
    else ltb (length a.pattern) (length b.pattern)

unfoldable pub place : ApiHandler → List ApiHandler → List ApiHandler
place h [] = h ∷ []
place h (g ∷ gs) = let rest = place h gs in if handler_less g h then g ∷ rest else h ∷ g ∷ gs

-- sort.SliceStable by that order.
unfoldable pub sort_handlers : List ApiHandler → List ApiHandler
sort_handlers [] = []
sort_handlers (h ∷ hs) = place h (sort_handlers hs)

-- Serve.
unfoldable pub serve : RestServer → RestServer
serve a = record a { handlers = sort_handlers a.handlers }

-- A request, with the hosts of the client's and the server's address where they have one.
pub record Request : Type 0 where
  pub method : List ℕ
  pub path : List ℕ
  pub client : Option (List ℕ)
  pub server : Option (List ℕ)

abbrev pub fits : ApiHandler → List ℕ → List ℕ → Bool
fits h method path = bytes_eq h.method method && match_pattern h.pattern path

-- The loop over the handlers, from the last one to the first.
abbrev pub or_else : Option ApiHandler → Option ApiHandler → Option ApiHandler
or_else none o = o
or_else (some h) o = some h

unfoldable pub find_handler : List ℕ → List ℕ → List ApiHandler → Option ApiHandler
find_handler method path [] = none
find_handler method path (h ∷ hs) =
    or_else (find_handler method path hs) (if fits h method path then some h else none)

-- What becomes of the hook.
pub data Webauth : Type 0 where
  no_hook not_started refused not_waited passed : Webauth

pub data Response : Type 0 where
  status : ℕ → Response
  runs : ApiHandler → Response

-- The check of the client's address.
unfoldable pub same_host : Option (List ℕ) → Option (List ℕ) → Bool
same_host none server = false
same_host (some client) none = false
same_host (some client) (some server) = bytes_eq client server

unfoldable pub authorized : Webauth → ApiHandler → Response
authorized no_hook h = runs h
authorized not_started h = status 500
authorized refused h = status 401
authorized not_waited h = status 500
authorized passed h = runs h

abbrev pub answer_with : Webauth → Option ApiHandler → Response
answer_with auth none = status 405
answer_with auth (some h) = authorized auth h

-- The function that AddHandler gives http.HandleFunc.
unfoldable pub handle_request : Webauth → RestServer → Request → Response
handle_request auth a r =
    if same_host r.client r.server
    then answer_with auth (find_handler r.method r.path a.handlers)
    else status 403
