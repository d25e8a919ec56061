-- ===== src/Cmd/Mesh/Ran.antt =====
-- What a running node of the program comes from.
use v6space.Base.{
  ℕ, ◌≡◌, ◌≢◌, ◌⊎◌, inl, inr, refl, sym, ap, ◌∙◌, Bool, true, false, not, ◌&&◌, ◌||◌, Option, none,
  some, List, [], ◌∷◌, ◌++◌, if◌then◌else◌, codes, All, bytes_eq, Bool-cases, Option-cases, arith,
  length, drop, ◌==◌,
}
use v6space.Core.Address.{hex_decode, addr_for_key, subnet_for_key}
use v6space.Core.NodeInfo.{Nodeinfo, SetError, set_node_info, init}
use v6space.Core.Peers.{Peer, SetupOption, Config, apply_options, no_config, add_peer_loop}
use v6space.Core.Start.{
  World, Core, NewCore, refused, made, new_core, address, listening_core, start_listeners,
}
use v6space.Multicast.{Multicast, Effect, MulticastInterface}
use v6space.Tun.{TunAdapter, Started, already_started, disabled, running, setup_failed, start}
use v6space.Config.{NodeConfig}
use v6space.Cmd.Mesh.{
  RivArgs, core_options, multicast_options, http_address, new_rest_server, or_else, replace_first,
}
use v6space.Cmd.Mesh.Run.{
  Machine, Node, Outcome, panics, quiet, prints_text, runs, run, run_config, run_read, text_of,
  normalised, prints_version, prints_usage, prints_config, print_for_key, printed, set_up,
  with_options, with_core, with_multicast, with_address, with_tun, with_rest, stop_node, StopStep,
  stops_multicast, stops_tun, stops_core, stops_rest, crashes,
}

-- What a running node comes from.
pub record IsRun (m : Machine) (args : RivArgs) (cfg : NodeConfig) (n : Node) : Type 0 where
  pub addr : List ℕ
  pub options : List SetupOption
  pub core_address : address n.core ≡ some addr
  pub http : n.http ≡ http_address args cfg (m.ip_text addr)
  pub rest_server : n.rest_server ≡ new_rest_server m.parses n.http
  pub core_options_are : core_options cfg ≡ some options
  pub core_config : n.core.node.config ≡ apply_options options no_config
  pub core_listening :
      n.core.listening ≡ start_listeners m.world (apply_options options no_config).listeners
  pub core_key : hex_decode cfg.private_key ≡ some n.core.secret
  pub key_length : length n.core.secret ≡ 64

-- What a core comes from.
record IsMade (w : World) (secret : List ℕ) (options : List SetupOption) (c : Core) : Type 0 where
  config : c.node.config ≡ apply_options options no_config
  listening : c.listening ≡ start_listeners w (apply_options options no_config).listeners
  secret_is : c.secret ≡ secret
  size : length secret ≡ 64

loop-config :
    (names : v6space.Core.Dial.Names) (parse : v6space.Core.Peers.Parse)
    (node : v6space.Core.Peers.Node)
    → (add_peer_loop names parse node).0.config ≡ node.config
unfolding add_peer_loop
loop-config names parse node = elim (Bool-cases node.stopped) [
  | inl e ↦ rw (add_peer_loop, e) refl
  | inr e ↦ rw (add_peer_loop, e) refl
]

made_inj : {a b : Core} → made a ≡ made b → a ≡ b
made_inj h = cc h

listening_core-IsMade :
    (w : World) (secret : List ℕ) (options : List SetupOption) (r : Nodeinfo × Option SetError)
    (c : Core)
    → length secret ≡ 64
    → listening_core w secret (apply_options options no_config) r ≡ made c
    → IsMade w secret options c
listening_core-IsMade w secret options (info, some e) c size h = absurd (cc h)
listening_core-IsMade w secret options (info, none) c size h =
    let found = made_inj h in
    record {
      config =
          sym (ap (λ k. k.node.config) found)
          ∙ loop-config w.names w.parse (record {
            config = apply_options options no_config;
            links = [];
            stopped = false;
            timer = false;
            closed = [];
          });
      listening = sym (ap (λ k. k.listening) found);
      secret_is = sym (ap (λ k. k.secret) found);
      size = size;
    }

==_64 : (k : ℕ) → (k == 64) ≡ true → k ≡ 64
==_64 k e = ground (arith, e)

new_core-IsMade :
    (w : World) (secret : List ℕ) (options : List SetupOption) (c : Core)
    → new_core w secret options ≡ made c
    → IsMade w secret options c
unfolding new_core start_listeners v6space.Core.Start.listen
new_core-IsMade w secret options c h = elim (Bool-cases (length secret == 64)) [
  | inr e ↦ absurd (cc (rw (new_core, e) at h))
  | inl e ↦ elim (Bool-cases w.conn_made) [
    | inr d ↦ absurd (cc (rw (new_core, e, d) at h))
    | inl d ↦ elim (Bool-cases w.links_made) [
      | inr b ↦ absurd (cc (rw (new_core, e, d, b) at h))
      | inl b ↦
          let config = apply_options options no_config in
          listening_core-IsMade w secret options
            (set_node_info (w.describe config.nodeinfo config.nodeinfo_privacy) init) c
            (==_64 (length secret) e) (rw (new_core, e, d, b) at h)
    ]
  ]
]

runs_inj : {a b : Node} → runs a ≡ runs b → a ≡ b
runs_inj h = cc h

with_rest-IsRun :
    (m : Machine) (args : RivArgs) (cfg : NodeConfig) (c : Core)
    (mc : Option (Multicast × List Effect)) (addr sk : List ℕ) (os : List SetupOption)
    (tun : TunAdapter) (n : Node)
    → IsMade m.world sk os c
    → address c ≡ some addr
    → core_options cfg ≡ some os
    → hex_decode cfg.private_key ≡ some sk
    → with_rest m args cfg c mc addr tun ≡ runs n
    → IsRun m args cfg n
unfolding with_rest
with_rest-IsRun m args cfg c mc addr sk os tun n k a o d h =
    let found = runs_inj h in
    let core : n.core ≡ c = sym (ap (λ x. x.core) found) in
    let http : n.http ≡ http_address args cfg (m.ip_text addr) = sym (ap (λ x. x.http) found) in
    record {
      addr = addr;
      options = os;
      core_address = ap address core ∙ a;
      http = http;
      rest_server = sym (ap (λ x. x.rest_server) found) ∙ ap (new_rest_server m.parses) (sym http);
      core_options_are = o;
      core_config = ap (λ x. x.node.config) core ∙ k.config;
      core_listening = ap (λ x. x.listening) core ∙ k.listening;
      core_key = d ∙ ap some (sym k.secret_is ∙ sym (ap (λ x. x.secret) core));
      key_length = ap (λ x. length x.secret) core ∙ ap length k.secret_is ∙ k.size;
    }

with_tun-IsRun :
    (m : Machine) (args : RivArgs) (cfg : NodeConfig) (c : Core)
    (mc : Option (Multicast × List Effect)) (addr sk : List ℕ) (os : List SetupOption)
    (t : TunAdapter × Started) (n : Node)
    → IsMade m.world sk os c
    → address c ≡ some addr
    → core_options cfg ≡ some os
    → hex_decode cfg.private_key ≡ some sk
    → with_tun m args cfg c mc addr t ≡ runs n
    → IsRun m args cfg n
with_tun-IsRun m args cfg c mc addr sk os (tun, already_started) n k a o d h = absurd (cc h)
with_tun-IsRun m args cfg c mc addr sk os (tun, setup_failed e) n k a o d h = absurd (cc h)
with_tun-IsRun m args cfg c mc addr sk os (tun, disabled) n k a o d h =
    with_rest-IsRun m args cfg c mc addr sk os tun n k a o d h
with_tun-IsRun m args cfg c mc addr sk os (tun, running) n k a o d h =
    with_rest-IsRun m args cfg c mc addr sk os tun n k a o d h

with_core-IsRun :
    (m : Machine) (args : RivArgs) (cfg : NodeConfig) (c : Core) (sk : List ℕ)
    (os : List SetupOption) (n : Node)
    → IsMade m.world sk os c
    → core_options cfg ≡ some os
    → hex_decode cfg.private_key ≡ some sk
    → with_core m args cfg (made c) ≡ runs n
    → IsRun m args cfg n
with_core-IsRun m args cfg c sk os n k o d h =
    elim (Option-cases (multicast_options m.compile cfg.multicast_interfaces)) [
      | inl e ↦ absurd (cc (rw e at h))
      | inr (is, e) ↦ elim (Option-cases (address c)) [
        | inl a ↦ absurd (cc (rw (e, a) at h))
        | inr (addr, a) ↦
            with_tun-IsRun m args cfg c
              (v6space.Multicast.Options.new_multicast m.group m.opens_group
                (v6space.Base.map v6space.Multicast.Options.multicast_interface is)).1
              addr sk os
              (start m.maximum_mtu m.conn_mtu m.create (v6space.Cmd.Mesh.Run.adapter cfg)) n k a o d
              (rw (e, a) at h)
      ]
    ]

-- A running node is as IsRun says.
pub set_up-IsRun :
    (m : Machine) (args : RivArgs) (cfg : NodeConfig) (n : Node)
    → set_up m args cfg ≡ runs n
    → IsRun m args cfg n
unfolding set_up
set_up-IsRun m args cfg n h = elim (Option-cases (hex_decode cfg.private_key)) [
  | inl d ↦ absurd (cc (rw (set_up, d) at h))
  | inr (sk, d) ↦ elim (Option-cases (core_options cfg)) [
    | inl o ↦ absurd (cc (rw (set_up, d, o) at h))
    | inr (os, o) ↦ go sk os d o (new_core m.world sk os) refl (rw (set_up, d, o) at h)
  ]
]
  where
    go :
        (sk : List ℕ) (os : List SetupOption)
        → hex_decode cfg.private_key ≡ some sk
        → core_options cfg ≡ some os
        → (r : NewCore) → new_core m.world sk os ≡ r
        → with_core m args cfg r ≡ runs n
        → IsRun m args cfg n
    go sk os d o (refused e) r h = absurd (cc h)
    go sk os d o (made c) r h =
        with_core-IsRun m args cfg c sk os n (new_core-IsMade m.world sk os c r) o d h

print_none :
    (g : ℕ → List ℕ → Option (List ℕ)) (sk : Option (List ℕ)) (n : Node)
    → print_for_key g none sk ≢ runs n
print_none g none n h = absurd (cc h)
print_none g (some sk) n h = go (length (drop 32 sk) == 32) h
  where
    go : (b : Bool) → printed (if b then none else none) ≡ runs n → ⊥
    go true k = absurd (cc k)
    go false k = absurd (cc k)

pub run_config-IsRun :
    (m : Machine) (args : RivArgs) (cfg : NodeConfig) (n : Node)
    → run_config m args cfg ≡ runs n
    → IsRun m args cfg n
unfolding run_config set_up with_rest http_address
run_config-IsRun m args cfg n h = elim (Bool-cases args.getaddr) [
  | inl a ↦
      absurd (print_none addr_for_key (hex_decode cfg.private_key) n (rw (run_config, a) at h))
  | inr a ↦ elim (Bool-cases args.getsnet) [
    | inl s ↦
        absurd
          (print_none subnet_for_key (hex_decode cfg.private_key) n (rw (run_config, a, s) at h))
    | inr s ↦ set_up-IsRun m args cfg n (rw (run_config, a, s) at h)
  ]
]
