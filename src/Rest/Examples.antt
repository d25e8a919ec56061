-- ===== src/Rest/Examples.antt =====
-- Tests of the control server.
use v6space.Base.{
  ◌&&◌, ◌+◌, ℕ, zero, suc, ◌≤◌, ◌≡◌, ◌≢◌, ◌↔◌, ◌⊎◌, inl, inr, refl, Bool, true, false, ◌||◌, Option,
  none, some, List, [], ◌∷◌, ◌++◌, map, All, length, arith,
}
use v6space.Core.Dial.{Url, Names, tls_name}
use v6space.Core.Peers.{Node, Parse, no_config, Peer, apply_options}
use v6space.Core.Peers.Known.{is_known}
use v6space.Rest.{
  ApiHandler, path_of, RestServer, add_handlers, serve, Request, fits, no_hook, runs,
  handle_request, same_host,
}
use v6space.Rest.Dispatch.{IsIn, handle_request-longest}
use v6space.Rest.Peers.{
  Entry, url_name, Body, Saved, Saver, says_true, peer_of, save_peers, post_peers, put_peers,
  Control, saved_options,
}
use v6space.Rest.Peers.Options.{is_listed}
use v6space.Rest.Peers.Posting.{IsPosted, IsRefused, post_peers_cases}
use v6space.Rest.Peers.Restart.{is_configured, put_peers-restart}
use v6space.Rest.Events.{
  ServerEvent, received, written, Events, capacity, init, send, receive_next, advance, Reach, start,
  sends, receives, advances,
}
use v6space.Rest.Events.Steps.{count, count_lines, count_in_hand, IsNumbered}
use v6space.Rest.Events.Order.{events_in_order}
use v6space.Rest.Answers.{
  Remote, timed_out, remote_status, called, apply_key_parameterized, peer_less, Traffic,
}
use v6space.Rest.Api.{api_server, key_request, about_dht, subject_handler, remote_request}
use v6space.Rest.Keys.{NoSlash}

abbrev get : List ℕ
get = b'G' ∷ []

abbrev short_handler : ApiHandler
short_handler = record { method = get; pattern = b'/' ∷ b'a' ∷ []; handler = 0 }

abbrev long_handler : ApiHandler
long_handler = record { method = get; pattern = b'/' ∷ b'a' ∷ b'/' ∷ b'{' ∷ []; handler = 1 }

abbrev no_handlers : RestServer
no_handlers = record { handlers = []; routes = [] }

abbrev server : RestServer
server = record { handlers = long_handler ∷ short_handler ∷ []; routes = [] }

abbrev request : Request
request = record {
  method = get;
  path = b'/' ∷ b'a' ∷ b'/' ∷ b'k' ∷ [];
  client = some (b'h' ∷ []);
  server = some (b'h' ∷ []);
}

reaches : handle_request no_hook (serve server) request ≡ runs long_handler
unfolding handle_request serve same_host v6space.Base.bytes_eq v6space.Rest.find_handler
    v6space.Rest.sort_handlers v6space.Rest.place v6space.Rest.handler_less v6space.Rest.starts_with
    path_of v6space.Rest.authorized
reaches = refl

short_fits : fits short_handler request.method request.path ≡ true
unfolding path_of v6space.Base.bytes_eq v6space.Rest.starts_with
short_fits = refl

handle_request-longest_example :
    IsIn long_handler server.handlers
    × (fits long_handler request.method request.path ≡ true)
    × (same_host request.client request.server ≡ true)
    × (length short_handler.pattern ≤ length long_handler.pattern)
handle_request-longest_example =
    handle_request-longest no_hook server request long_handler short_handler reaches
      (inr (inl refl)) short_fits

abbrev names : Names
names = record { is_ip = λ t. false; split_host = λ t. none }

abbrev url : Url
url = record { scheme = tls_name; host = b'h' ∷ []; path = []; keys = []; priority = []; sni = [] }

abbrev parse : Parse
parse t = some url

abbrev node : Node
node = record { config = no_config; links = []; stopped = false; timer = false; closed = [] }

abbrev entry : Entry
entry = (url_name, b'u' ∷ []) ∷ []

abbrev body : Body
body = record { entries = entry ∷ []; well_formed = true }

abbrev saver : Saver
saver = record { has_file = true; headers = (b't' ∷ b'r' ∷ b'u' ∷ b'e' ∷ []) ∷ []; writable = true }

abbrev saved : Saved
saved = record { peers = (b'o' ∷ []) ∷ []; interface_peers = []; rest = 0 }

abbrev broken : Body
broken = record { entries = []; well_formed = false }

post_peers_cases_example :
    IsPosted names parse broken node
      (some saved)
      (peer_of entry)
      (post_peers names parse saver broken node (some saved))
    ⊎ IsRefused names parse saver broken node
        (some saved)
        (post_peers names parse saver broken node (some saved))
post_peers_cases_example =
    post_peers_cases names parse saver broken node (some saved) (peer_of entry)

abbrev emptied_by : Option Control → Control
emptied_by none = record { node = node; file = none; status = none }
emptied_by (some c) = c

put : Control
put = emptied_by (put_peers names parse saver body (λ r. 0) node (some saved))

puts : put_peers names parse saver body (λ r. 0) node (some saved) ≡ some put
unfolding put put_peers v6space.Core.Peers.remove_peers v6space.Core.Peers.close_links
puts = refl

puts_status : put.status ≡ some 204
unfolding put put_peers v6space.Core.Peers.remove_peers v6space.Core.Peers.close_links
    v6space.Rest.Peers.do_post_peers v6space.Rest.Peers.post_loop v6space.Rest.Peers.post_next
    v6space.Core.Peers.add_peer v6space.Core.Peers.add_peer_in v6space.Base.lookup
    v6space.Core.Peers.remember v6space.Core.Dial.call v6space.Core.Dial.call_with
    v6space.Core.Dial.pinned v6space.Core.Dial.priority_of v6space.Core.Dial.call_scheme
    v6space.Core.Dial.scheme_of v6space.Base.bytes_eq
puts_status = refl

put_peers-restart_example :
    (is_known put.node (peer_of entry) ≡ is_listed (peer_of entry) (map peer_of body.entries))
    × ((((true && says_true saver.headers && true) ≡ false) × (put.file ≡ some saved))
        ⊎ ((some saved ≡ none) × (put.file ≡ none))
        ⊎ (((true && says_true saver.headers && true) ≡ true)
            × ((cfg : Saved) × (put.file ≡ some cfg)
                × (is_configured (apply_options (saved_options cfg) no_config) (peer_of entry)
                    ≡ is_known put.node (peer_of entry)))))
put_peers-restart_example =
    put_peers-restart names parse saver body (λ r. 0) node (some saved) (peer_of entry) put puts
      puts_status

abbrev event : ServerEvent
event = record { event = 0; payload = [] }

abbrev queued : Events
queued = record { queue = event ∷ []; next_id = 0; timer = none; requests = [] }

abbrev busy : Events
busy = record { queue = []; next_id = 0; timer = none; requests = received event ∷ [] }

abbrev any_event : ServerEvent → Bool
any_event e = true

sent : send event init ≡ some queued
unfolding send
sent = refl

takes : receive_next queued ≡ some busy
unfolding receive_next
takes = refl

abbrev wrote : Events
wrote = record busy { requests = written ∷ [] }

writes : Reach wrote ((0, event) ∷ []) (event ∷ [])
unfolding advance
writes = advances [] (received event) [] (receives (sends event start sent) takes) refl

events_in_order_example :
    (got : List ServerEvent) × (event ∷ [] ≡ got ++ [])
    × (0 ≤ capacity)
    × (count any_event got
        ≡ count_lines any_event ((0, event) ∷ []) + count_in_hand any_event (written ∷ []))
    × IsNumbered 0 ((0, event) ∷ [])
events_in_order_example = events_in_order any_event writes

abbrev remote : List ℕ → Remote
remote key = timed_out

abbrev key_path : List ℕ
key_path = b'/' ∷ b'a' ∷ b'/' ∷ b'b' ∷ b'/' ∷ b'c' ∷ b'/' ∷ b'k' ∷ []

abbrev peer_at : ℕ → v6space.Rest.Answers.Peer
peer_at n = record { multicast = false; priority = 0; address = b'a' ∷ []; port = n }

first_less : peer_less (peer_at 1) (peer_at 2) ≡ true
unfolding peer_less v6space.Rest.text_less
first_less = refl

second_less : peer_less (peer_at 2) (peer_at 3) ≡ true
unfolding peer_less v6space.Rest.text_less
second_less = refl

plain_key : NoSlash (b'k' ∷ [])
plain_key = (refl, tt)

abbrev key : List ℕ
key = b'k' ∷ []

some_key : key ≢ []
some_key e = absurd (cc e)

remote_request_example :
    (handle_request no_hook (serve api_server) (key_request about_dht (b'k' ∷ []) (b'h' ∷ []))
      ≡ runs (subject_handler about_dht))
    × (apply_key_parameterized (key_request about_dht (b'k' ∷ []) (b'h' ∷ [])).path remote
        ≡ called (b'k' ∷ []) (remote_status (remote (b'k' ∷ []))))
remote_request_example = remote_request about_dht (b'k' ∷ []) (b'h' ∷ []) remote some_key plain_key
