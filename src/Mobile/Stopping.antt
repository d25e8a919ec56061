-- ===== src/Mobile/Stopping.antt =====
-- Starting and stopping the node of a phone.
use v6space.Base.{
  ℕ, ◌≡◌, ◌⊎◌, inl, inr, refl, sym, ap, ◌∙◌, Bool, true, false, Option, none, some, List, [], ◌∷◌,
  Bool-cases, Option-cases, length,
}
use v6space.Core.Address.{hex_decode}
use v6space.Core.Start.{Core, NewCore, refused, made, new_core, address}
use v6space.Multicast.{MulticastInterface, Multicast, Effect}
use v6space.Config.{NodeConfig, MulticastInterfaceConfig}
use v6space.Config.Defaults.{Keys, PlatformDefaultParameters, generate_config}
use v6space.Cmd.Mesh.{multicast_options, new_rest_server}
use v6space.Mobile.{
  Phone, Mesh, started, mobile_options, multicast_of, or_old, with_core, with_options, start_json,
  stops_multicast, stops_core, stops_rest, crash, stop_rest, stop_core, stop_multicast, stop,
}

-- A phone before its first start.
abbrev pub fresh : Mesh
fresh = record { core = none; iprwc = none; config = none; multicast = none; rest_server = false }

-- A phone after its start on a configuration.
record IsStarted (ph : Phone) (cfg : NodeConfig) (m : Mesh) : Type 0 where
  core : Core
  interfaces : List MulticastInterface
  core_is : m.core ≡ some core
  interfaces_are : multicast_options ph.compile cfg.multicast_interfaces ≡ some interfaces
  multicast : m.multicast ≡ or_old (multicast_of ph interfaces) none
  rest_server : m.rest_server ≡ new_rest_server ph.parses cfg.http_address

some_inj : {A : Type 0} {x y : A} → some x ≡ some y → x ≡ y
some_inj h = cc h

started_inj : {a b : Mesh} → started a ≡ started b → a ≡ b
started_inj h = cc h

with_core-IsStarted :
    (ph : Phone) (cfg : NodeConfig) (r : NewCore) (m : Mesh)
    → with_core ph cfg fresh r ≡ started m
    → IsStarted ph cfg m
with_core-IsStarted ph cfg (refused e) m h = absurd (cc h)
with_core-IsStarted ph cfg (made c) m h =
    elim (Option-cases (multicast_options ph.compile cfg.multicast_interfaces)) [
      | inl e ↦ absurd (cc (rw e at h))
      | inr (is, e) ↦ elim (Option-cases (address c)) [
        | inl a ↦ absurd (cc (rw (e, a) at h))
        | inr (addr, a) ↦
            let found = started_inj (rw (e, a) at h) in
            record {
              core = c;
              interfaces = is;
              core_is = sym (ap (λ k. k.core) found);
              interfaces_are = e;
              multicast = sym (ap (λ k. k.multicast) found);
              rest_server = sym (ap (λ k. k.rest_server) found);
            }
      ]
    ]

with_options-IsStarted :
    (ph : Phone) (cfg : NodeConfig) (sk : Option (List ℕ))
    (os : Option (List v6space.Core.Peers.SetupOption)) (m : Mesh)
    → with_options ph cfg fresh sk os ≡ started m
    → IsStarted ph cfg m
with_options-IsStarted ph cfg none os m h = absurd (cc h)
with_options-IsStarted ph cfg (some sk) none m h = absurd (cc h)
with_options-IsStarted ph cfg (some sk) (some os) m h =
    with_core-IsStarted ph cfg (new_core ph.world sk os) m h

-- No interface is configured exactly where none is made.
multicast_options-none :
    (compile : List ℕ → ℕ → Option ℕ) (c : MulticastInterfaceConfig)
    (cs : List MulticastInterfaceConfig) (is : List MulticastInterface)
    → multicast_options compile (c ∷ cs) ≡ some is
    → (i : MulticastInterface) × (more : List MulticastInterface) × (is ≡ i ∷ more)
unfolding multicast_options
multicast_options-none compile c cs is h = elim (Option-cases (compile c.regex (length cs))) [
  | inl e ↦ absurd (cc (rw (multicast_options, e) at h))
  | inr (r, e) ↦ elim (Option-cases (multicast_options compile cs)) [
    | inl f ↦ absurd (cc (rw (multicast_options, e, f) at h))
    | inr (more, f) ↦ (_, more, sym (some_inj (rw (multicast_options, e, f) at h)))
  ]
]

-- How a phone's node stops.
abbrev pub Stops : NodeConfig → Mesh → Type 0
Stops cfg m =
    ((cfg.multicast_interfaces ≡ []) × (stop m ≡ (crash ∷ [], m)))
    ⊎ ((m.rest_server ≡ false) × ((stop m).0 ≡ stops_multicast ∷ stops_core ∷ crash ∷ []))
    ⊎ ((m.rest_server ≡ true)
        × ((stop m).0 ≡ stops_multicast ∷ stops_core ∷ stops_rest ∷ [])
        × ((stop (stop m).1).0 ≡ stops_multicast ∷ stops_core ∷ crash ∷ []))

stop_there :
    (core : Core) (mc : Option (Multicast × List Effect)) (m : Mesh)
    → m.core ≡ some core
    → m.multicast ≡ some mc
    → stop m ≡ stop_rest m m.rest_server
unfolding stop
stop_there core mc m c n = ap (stop_multicast m) n ∙ ap (stop_core m) c

stop-Stops :
    (cfg : NodeConfig) (core : Core) (mc : Option (Multicast × List Effect)) (m : Mesh)
    → m.core ≡ some core
    → m.multicast ≡ some mc
    → Stops cfg m
stop-Stops cfg core mc m c n = elim (Bool-cases m.rest_server) [
  | inl r ↦
      let once = stop_there core mc m c n ∙ ap (stop_rest m) r in
      let again = stop_there core mc (record m { rest_server = false }) c n in
      inr (inr (r, ap (λ p. p.0) once, ap (λ p. (stop p.1).0) once ∙ ap (λ p. p.0) again))
  | inr r ↦ inr (inl (r, ap (λ p. p.0) (stop_there core mc m c n ∙ ap (stop_rest m) r)))
]

nothing : (compile : List ℕ → ℕ → Option ℕ) → multicast_options compile [] ≡ some []
unfolding multicast_options
nothing compile = refl

stop-nothing : (m : Mesh) → m.multicast ≡ none → stop m ≡ (crash ∷ [], m)
unfolding stop
stop-nothing m e = ap (stop_multicast m) e

-- A phone that was not started before and starts on a configuration: without multicast interfaces
-- in it, Stop crashes and stops nothing; without a control server, it crashes after it stopped the
-- multicast module and the core; and else it stops all three parts, and a second Stop crashes.
pub start_json-Stops :
    (ph : Phone) (defaults : PlatformDefaultParameters) (keys : Keys)
    (overlay : NodeConfig → Option NodeConfig × Bool) (cfg : NodeConfig) (m : Mesh)
    → overlay (generate_config defaults keys) ≡ (some cfg, true)
    → start_json ph defaults keys overlay fresh ≡ started m
    → Stops cfg m
unfolding start_json
start_json-Stops ph defaults keys overlay cfg m o h = go cfg.multicast_interfaces refl (
    with_options-IsStarted ph cfg (hex_decode cfg.private_key) (mobile_options cfg) m
      (rw (start_json, o) at h))
  where
    go :
        (cs : List MulticastInterfaceConfig)
        → cfg.multicast_interfaces ≡ cs
        → IsStarted ph cfg m
        → Stops cfg m
    go [] e s =
        let made_none : [] ≡ s.interfaces = some_inj (
          sym (nothing ph.compile)
          ∙ ap (multicast_options ph.compile) (sym e)
          ∙ s.interfaces_are) in
        let gone : m.multicast ≡ none =
          s.multicast ∙ ap (λ is. or_old (multicast_of ph is) none) (sym made_none) in
        inl (e, stop-nothing m gone)
    go (c ∷ cs) e s =
        let (i, more, f) =
          multicast_options-none ph.compile c cs s.interfaces
            (sym (ap (multicast_options ph.compile) e) ∙ s.interfaces_are) in
        stop-Stops cfg s.core _ m s.core_is
          (s.multicast ∙ ap (λ is. or_old (multicast_of ph is) none) f)
