-- ===== src/Cmd/Mesh/Running.antt =====
-- The configuration and the core of the program's running node, and how the node stops.
use v6space.Base.{
  ℕ, ◌≡◌, ◌≢◌, ◌↔◌, ◌⊎◌, inl, inr, refl, sym, ap, ◌∙◌, Bool, true, false, not, ◌||◌, Option, none,
  some, List, [], ◌∷◌, ◌++◌, if◌then◌else◌, codes, bytes_eq, bytes_eq_iff, Bool-cases, length,
}
use mathlib.Core.Path.{subst}
use v6space.Core.Address.{hex_decode}
use v6space.Core.Dial.Transport.{is_empty_text}
use v6space.Core.Peers.{Peer}
use v6space.Core.Start.{address}
use v6space.Rest.Peers.Restart.{is_configured}
use v6space.Config.{NodeConfig}
use v6space.Config.Defaults.{Keys, PlatformDefaultParameters, generate_config, define}
use v6space.Config.Reading.{Formats, read_config}
use v6space.Cmd.Mesh.{RivArgs, http_address, new_rest_server, or_else, replace_first}
use v6space.Cmd.Mesh.Lookups.{listens_at, is_member, is_given, core_options-lookups}
use v6space.Cmd.Mesh.Run.{
  Machine, Node, runs, run, run_config, run_read, text_of, normalised, prints_version, prints_usage,
  prints_config, stop_node, stops_multicast, stops_tun, stops_core, stops_rest, crashes,
}
use v6space.Cmd.Mesh.Ran.{run_config-IsRun}

-- Where a configuration comes from.
abbrev pub IsSource :
    {Dat : Type 0}
    → Formats Dat
    → PlatformDefaultParameters
    → Keys
    → Option (List ℕ)
    → RivArgs
    → NodeConfig
    → Type 0
IsSource f defaults keys input args cfg =
    ((args.autoconf ≡ true) × (cfg ≡ generate_config defaults keys))
    ⊎ ((args.autoconf ≡ false) × (read_config f defaults keys input ≡ some cfg))

no_tun : (t : List ℕ) → replace_first (codes "<tun>") t (codes "none") ≡ codes "none"
unfolding replace_first v6space.Rest.starts_with
no_tun t = refl

no_default_tun :
    (t : List ℕ)
    → replace_first (codes "<tun>") t define.default_http_address ≡ define.default_http_address
unfolding replace_first v6space.Rest.starts_with
no_default_tun t = refl

-- Where the configuration of a running node names the control server's address "none", the signal
-- stops the multicast module, the TUN adapter and the core, and then crashes the program.
pub stop_node-none :
    (m : Machine) (args : RivArgs) (cfg : NodeConfig) (n : Node)
    → run_config m args cfg ≡ runs n
    → cfg.http_address ≡ codes "none"
    → stop_node n ≡ stops_multicast ∷ stops_tun ∷ stops_core ∷ crashes ∷ []
unfolding stop_node new_rest_server http_address bytes_eq
stop_node-none m args cfg n h e =
    let r = run_config-IsRun m args cfg n h in
    let http : n.http ≡ codes "none" =
      r.http
      ∙ ap
          (λ t.
            replace_first (codes "<tun>") (b'[' ∷ m.ip_text r.addr ++ b']' ∷ [])
              (or_else t args.httpaddress))
          e
      ∙ no_tun (b'[' ∷ m.ip_text r.addr ++ b']' ∷ []) in
    let gone : n.rest_server ≡ false = r.rest_server ∙ ap (new_rest_server m.parses) http in
    ap
      (λ b.
        stops_multicast ∷ stops_tun ∷ stops_core ∷ (if b then stops_rest ∷ [] else crashes ∷ []))
      gone

or_else-given : (t d : List ℕ) → is_empty_text t ≡ false → or_else t d ≡ t
or_else-given [] d e = absurd (cc e)
or_else-given (c ∷ cs) d e = refl

or_else-empty : (t d : List ℕ) → is_empty_text t ≡ true → or_else t d ≡ d
or_else-empty [] d e = refl
or_else-empty (c ∷ cs) d e = absurd (cc e)

-- An address that a control server is made for.
abbrev pub Serves : (List ℕ → Bool) → List ℕ → Type 0
Serves parses addr = (addr ≢ []) × (addr ≢ codes "none") × (parses addr ≡ true)

no_address : (parses : List ℕ → Bool) → new_rest_server parses [] ≡ false
unfolding new_rest_server bytes_eq
no_address parses = refl

new_rest_server_iff :
    (parses : List ℕ → Bool) (addr : List ℕ)
    → (new_rest_server parses addr ≡ true) ↔ Serves parses addr
unfolding new_rest_server
new_rest_server_iff parses [] =
    (λ h. absurd (cc (sym (no_address parses) ∙ h)), λ s. absurd (s.0 refl))
new_rest_server_iff parses (c ∷ cs) = elim (Bool-cases (bytes_eq (c ∷ cs) (codes "none"))) [
  | inl e ↦
      (λ h. absurd (cc (rw e at h)), λ s. absurd (s.1 ((bytes_eq_iff (c ∷ cs) (codes "none")).0 e)))
  | inr e ↦ (
    λ h. (
      λ k. absurd (cc k),
      λ k. absurd (cc (sym e ∙ (bytes_eq_iff (c ∷ cs) (codes "none")).1 k)),
      rw e at h,
    ),
    λ s. rw e s.2,
  )
]

module _ {Dat : Type 0} (f : Formats Dat) (json : NodeConfig → Option (List ℕ)) where
  run_read-IsRun :
      (m : Machine) (args : RivArgs) (o : Option NodeConfig) (n : Node)
      → run_read f json m args o ≡ runs n
      → (cfg : NodeConfig) × (o ≡ some cfg) × (run_config m args cfg ≡ runs n)
  run_read-IsRun m args none n h = absurd (cc h)
  run_read-IsRun m args (some cfg) n h =
      (cfg, refl, go args.normaliseconf (text_of f json args cfg) h)
    where
      go :
          (b : Bool) (t : Option (List ℕ))
          → (if b then normalised f json t else run_config m args cfg) ≡ runs n
          → run_config m args cfg ≡ runs n
      go true none h = absurd (cc h)
      go true (some bs) h = absurd (cc h)
      go false t h = h

  run-IsRun :
      (m : Machine) (defaults : PlatformDefaultParameters) (keys : Keys) (input : Option (List ℕ))
      (args : RivArgs) (n : Node)
      → run f json m defaults keys input args ≡ runs n
      → (cfg : NodeConfig) × IsSource f defaults keys input args cfg
        × (run_config m args cfg ≡ runs n)
  unfolding run
  run-IsRun m defaults keys input args n h =
      go args.ver args.autoconf (not (is_empty_text args.useconffile) || args.useconf) args.genconf
        refl h
    where
      generated : NodeConfig
      generated = generate_config defaults keys

      go :
          (v a c g : Bool)
          → args.autoconf ≡ a
          → (if v
              then prints_version
              else if a
              then run_config m args generated
              else if c
              then run_read f json m args (read_config f defaults keys input)
              else if g
              then prints_config (text_of f json args generated)
              else prints_usage)
            ≡ runs n
          → (cfg : NodeConfig) × IsSource f defaults keys input args cfg
            × (run_config m args cfg ≡ runs n)
      go true a c g e h = absurd (cc h)
      go false true c g e h = (generated, inl (e, refl), h)
      go false false true g e h =
          let (cfg, r, k) = run_read-IsRun m args (read_config f defaults keys input) n h in
          (cfg, inr (e, r), k)
      go false false false true e h = absurd (cc h)
      go false false false false e h = absurd (cc h)

  -- Where the program's node runs, its configuration is the generated one with -autoconf, and else
  -- one that was read; the private key is 64 bytes of hexadecimal text; the core's listeners are
  -- exactly the ones of the configuration and its configured peers exactly the peers there, with
  -- their source interfaces; where the configuration has an address for the control server, that
  -- address is the server's, with the node's address for "<tun>", whatever the flag says, and else
  -- the flag's is; and there is a server exactly if its address is neither empty nor "none" and
  -- parses as a URL.
  pub run-core :
      (m : Machine) (defaults : PlatformDefaultParameters) (keys : Keys) (input : Option (List ℕ))
      (args : RivArgs) (n : Node) (a : List ℕ) (q : Peer)
      → run f json m defaults keys input args ≡ runs n
      → (cfg : NodeConfig) × (addr : List ℕ) × IsSource f defaults keys input args cfg
        × (hex_decode cfg.private_key ≡ some n.core.secret)
        × (length n.core.secret ≡ 64)
        × (listens_at a n.core.node.config ≡ is_member a cfg.listen)
        × (is_configured n.core.node.config q ≡ is_given q cfg)
        × (address n.core ≡ some addr)
        × (((is_empty_text cfg.http_address ≡ true)
              × (n.http
                  ≡ replace_first
                      (codes "<tun>")
                      (b'[' ∷ m.ip_text addr ++ b']' ∷ [])
                      args.httpaddress))
            ⊎ ((is_empty_text cfg.http_address ≡ false)
                × (n.http
                    ≡ replace_first
                        (codes "<tun>")
                        (b'[' ∷ m.ip_text addr ++ b']' ∷ [])
                        cfg.http_address)))
        × ((n.rest_server ≡ true) ↔ Serves m.parses n.http)
  unfolding http_address
  run-core m defaults keys input args n a q h =
      let (cfg, source, k) = run-IsRun m defaults keys input args n h in
      let r = run_config-IsRun m args cfg n k in
      let given = core_options-lookups cfg r.options a q r.core_options_are in
      (
        cfg,
        r.addr,
        source,
        r.core_key,
        r.key_length,
        ap (listens_at a) r.core_config ∙ given.0,
        ap (λ c. is_configured c q) r.core_config ∙ given.1,
        r.core_address,
        elim (Bool-cases (is_empty_text cfg.http_address)) [
          | inl e ↦ inl (
            e,
            r.http
                ∙ ap (replace_first (codes "<tun>") (b'[' ∷ m.ip_text r.addr ++ b']' ∷ []))
                    (or_else-empty cfg.http_address args.httpaddress e),
          )
          | inr e ↦ inr (
            e,
            r.http
                ∙ ap (replace_first (codes "<tun>") (b'[' ∷ m.ip_text r.addr ++ b']' ∷ []))
                    (or_else-given cfg.http_address args.httpaddress e),
          )
        ],
        subst (λ b. (b ≡ true) ↔ Serves m.parses n.http) (sym r.rest_server)
            (new_rest_server_iff m.parses n.http),
      )

  -- With -autoconf, the control server of a running node listens on the default address, whatever
  -- address the flag for it names.
  pub run-autoconf_http :
      (m : Machine) (defaults : PlatformDefaultParameters) (keys : Keys) (input : Option (List ℕ))
      (args : RivArgs) (n : Node)
      → args.autoconf ≡ true
      → run f json m defaults keys input args ≡ runs n
      → n.http ≡ define.default_http_address
  unfolding http_address generate_config
  run-autoconf_http m defaults keys input args n auto h =
      let (cfg, source, k) = run-IsRun m defaults keys input args n h in
      let r = run_config-IsRun m args cfg n k in
      elim source [
        | inr (b, e) ↦ absurd (cc (sym auto ∙ b))
        | inl (b, e) ↦
            r.http
            ∙ ap (λ c. http_address args c (m.ip_text r.addr)) e
            ∙ no_default_tun (b'[' ∷ m.ip_text r.addr ++ b']' ∷ [])
      ]
