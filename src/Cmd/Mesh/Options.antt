-- ===== src/Cmd/Mesh/Options.antt =====
-- What the options of the program make of the node's configuration.
use v6space.Base.{ℕ, ◌≡◌, refl, sym, ap, ◌∙◌, List, [], ◌∷◌, ◌++◌, bytes_Eq}
use v6space.Core.Peers.{
  SetupOption, peer_option, listen_address, node_info, node_info_privacy, network_domain,
  allowed_public_key, Config, apply_option, apply_options,
}
use v6space.Cmd.Mesh.{listen_options}

-- The configuration without the listeners.
abbrev pub unheard : Config → Config
unheard c = record c { listeners = [] }

unheard-apply_option :
    (o : SetupOption) (c : Config)
    → unheard (apply_option o (unheard c)) ≡ unheard (apply_option o c)
unfolding apply_option
unheard-apply_option (peer_option p) c = refl
unheard-apply_option (listen_address a) c = refl
unheard-apply_option (node_info n) c = refl
unheard-apply_option (node_info_privacy b) c = refl
unheard-apply_option (network_domain d) c = refl
unheard-apply_option (allowed_public_key k) c = refl

pub unheard-apply_options :
    (os : List SetupOption) (c : Config)
    → unheard (apply_options os (unheard c)) ≡ unheard (apply_options os c)
unfolding apply_options
unheard-apply_options [] c = refl
unheard-apply_options (o ∷ os) c =
    sym (unheard-apply_options os (apply_option o (unheard c)))
    ∙ ap (λ d. unheard (apply_options os d)) (unheard-apply_option o c)
    ∙ unheard-apply_options os (apply_option o c)

unheard-listen_options :
    (addrs : List (List ℕ)) (c : Config)
    → unheard (apply_options (listen_options addrs) c) ≡ unheard c
unfolding apply_options listen_options apply_option
unheard-listen_options [] c = refl
unheard-listen_options (a ∷ addrs) c =
    unheard-listen_options addrs (apply_option (listen_address a) c)

pub apply_options-append :
    (os ps : List SetupOption) (c : Config)
    → apply_options (os ++ ps) c ≡ apply_options ps (apply_options os c)
unfolding apply_options
apply_options-append [] ps c = refl
apply_options-append (o ∷ os) ps c = apply_options-append os ps (apply_option o c)

unheard-append :
    (os ps qs : List SetupOption) (c : Config)
    → unheard (apply_options os c) ≡ unheard (apply_options ps c)
    → unheard (apply_options (os ++ qs) c) ≡ unheard (apply_options (ps ++ qs) c)
unheard-append os ps qs c e =
    ap unheard (apply_options-append os qs c)
    ∙ sym (unheard-apply_options qs (apply_options os c))
    ∙ ap (λ d. unheard (apply_options qs d)) e
    ∙ unheard-apply_options qs (apply_options ps c)
    ∙ ap unheard (sym (apply_options-append ps qs c))

-- Listeners among the options change the listeners only.
pub unheard-skip :
    (os ps qs : List SetupOption) (addrs : List (List ℕ)) (c : Config)
    → unheard (apply_options (os ++ listen_options addrs ++ ps ++ qs) c)
      ≡ unheard (apply_options (os ++ ps ++ qs) c)
unheard-skip os ps qs addrs c = unheard-append (os ++ listen_options addrs ++ ps) (os ++ ps) qs c (
    unheard-append (os ++ listen_options addrs) os ps c (
      ap unheard (apply_options-append os (listen_options addrs) c)
      ∙ unheard-listen_options addrs (apply_options os c)))
