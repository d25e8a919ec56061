-- ===== src/Rest/Health.antt =====
-- The health test of peers of src/restapi/rest_server.go: testOneHealth,
-- testAllHealth and postApiHealthHandler. URLs, name resolution, the dialling with
-- its time and the country of an address are parameters.
use v6space.Base.{ℕ, ◌≡◌, ◌⊎◌, inl, inr, refl, Option, none, some, List, [], ◌∷◌, bytes_Eq}
use v6space.Core.Dial.Transport.{TcpAddr}

-- What the test goes by: the host and the port of a URL, the address of a host, the texts of
-- addresses, a number's text, the milliseconds until a connection is there, and the country.
pub record Prober : Type 0 where
  pub parse : List ℕ → Option (List ℕ × List ℕ)
  pub resolve : List ℕ → Option (List ℕ)
  pub ip_text : List ℕ → List ℕ
  pub addr_text : TcpAddr → List ℕ
  pub atoi : List ℕ → Option ℕ
  pub dial : List ℕ → Option ℕ
  pub country : List ℕ → List ℕ × List ℕ

pub data HealthError : Type 0 where
  bad_url unresolved not_dialled : HealthError

-- The members of the result; the peer is always there.
pub record Health : Type 0 where
  pub peer : List ℕ
  pub remote_ip : Option (List ℕ)
  pub country : Option (List ℕ × List ℕ)
  pub ping : Option ℕ
  pub error : Option HealthError

abbrev pub failed : List ℕ → HealthError → Health
failed peer e = record {
  peer = peer;
  remote_ip = none;
  country = none;
  ping = none;
  error = some e;
}

-- The address that is dialled: without a numeric port, the IP address alone.
abbrev pub address_for : Prober → List ℕ → Option ℕ → List ℕ
address_for pr ip none = pr.ip_text ip
address_for pr ip (some port) = pr.addr_text (record { ip = ip; port = port; zone = [] })

abbrev pub after_dial : Prober → List ℕ → List ℕ → Option ℕ → Health
after_dial pr peer ip none = record {
  peer = peer;
  remote_ip = some (pr.ip_text ip);
  country = some (pr.country (pr.ip_text ip));
  ping = none;
  error = some not_dialled;
}
after_dial pr peer ip (some ms) = record {
  peer = peer;
  remote_ip = some (pr.ip_text ip);
  country = some (pr.country (pr.ip_text ip));
  ping = some ms;
  error = none;
}

abbrev pub after_resolve : Prober → List ℕ → List ℕ → Option (List ℕ) → Health
after_resolve pr peer port none = failed peer unresolved
after_resolve pr peer port (some ip) =
    after_dial pr peer ip (pr.dial (address_for pr ip (pr.atoi port)))

abbrev pub after_parse : Prober → List ℕ → Option (List ℕ × List ℕ) → Health
after_parse pr peer none = failed peer bad_url
after_parse pr peer (some (host, port)) = after_resolve pr peer port (pr.resolve host)

-- testOneHealth.
unfoldable pub test_one_health : Prober → List ℕ → Health
test_one_health pr peer = after_parse pr peer (pr.parse peer)

-- What testAllHealth sends for the peers, in whatever order.
unfoldable pub test_all_health : Prober → List (List ℕ) → List Health
test_all_health pr [] = []
test_all_health pr (peer ∷ peers) = test_one_health pr peer ∷ test_all_health pr peers

-- postApiHealthHandler: the status and the tests that it starts.
unfoldable pub post_health : Prober → Option (List (List ℕ)) → ℕ × List Health
post_health pr none = (400, [])
post_health pr (some peers) = (202, test_all_health pr peers)

-- A test names its peer and ends with an error or a time, never both; a time comes from dialling
-- the address that the URL's host resolves to, with the port of the URL, if it is numeric.
pub test_one_health_cases :
    (pr : Prober) (peer : List ℕ)
    → ((test_one_health pr peer).peer ≡ peer)
      × (((e : HealthError) × ((test_one_health pr peer).error ≡ some e)
            × ((test_one_health pr peer).ping ≡ none))
          ⊎ ((host : List ℕ) × (port : List ℕ) × (ip : List ℕ) × (ms : ℕ) × ((test_one_health pr
                  peer).error
                ≡ none)
              × ((test_one_health pr peer).ping ≡ some ms)
              × (pr.parse peer ≡ some (host, port))
              × (pr.resolve host ≡ some ip)
              × (pr.dial (address_for pr ip (pr.atoi port)) ≡ some ms)))
unfolding test_one_health
test_one_health_cases pr peer = on_url (pr.parse peer) refl
  where
    Cases : Health → Type 0
    Cases r =
        (r.peer ≡ peer)
        × (((e : HealthError) × (r.error ≡ some e) × (r.ping ≡ none))
            ⊎ ((host : List ℕ) × (port : List ℕ) × (ip : List ℕ) × (ms : ℕ) × (r.error ≡ none)
                × (r.ping ≡ some ms)
                × (pr.parse peer ≡ some (host, port))
                × (pr.resolve host ≡ some ip)
                × (pr.dial (address_for pr ip (pr.atoi port)) ≡ some ms)))

    on_dial :
        (host port ip : List ℕ) (o : Option ℕ)
        → pr.parse peer ≡ some (host, port)
        → pr.resolve host ≡ some ip
        → pr.dial (address_for pr ip (pr.atoi port)) ≡ o
        → Cases (after_dial pr peer ip o)
    on_dial host port ip none u r d = (refl, inl (not_dialled, refl, refl))
    on_dial host port ip (some ms) u r d = (refl, inr (host, port, ip, ms, refl, refl, u, r, d))

    on_host :
        (host port : List ℕ) (o : Option (List ℕ))
        → pr.parse peer ≡ some (host, port)
        → pr.resolve host ≡ o
        → Cases (after_resolve pr peer port o)
    on_host host port none u r = (refl, inl (unresolved, refl, refl))
    on_host host port (some ip) u r =
        on_dial host port ip (pr.dial (address_for pr ip (pr.atoi port))) u r refl

    on_url : (o : Option (List ℕ × List ℕ)) → pr.parse peer ≡ o → Cases (after_parse pr peer o)
    on_url none u = (refl, inl (bad_url, refl, refl))
    on_url (some (host, port)) u = on_host host port (pr.resolve host) u refl
