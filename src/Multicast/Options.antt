-- ===== src/Multicast/Options.antt =====
-- The options of src/multicast/options.go and New of src/multicast/multicast.go.
use v6space.Base.{
  ℕ, Bool, true, false, not, ◌&&◌, Option, List, [], ◌∷◌, ◌==◌, if◌then◌else◌, bytes_Eq, insert,
}
use v6space.Multicast.{MulticastInterface, Interface, InterfaceInfo, Multicast, Effect, start}

pub data SetupOption : Type 0 where
  multicast_interface : MulticastInterface → SetupOption
  group_address : List ℕ → SetupOption

-- The configuration; the interfaces are the keys of a map.
pub record Config : Type 0 where
  pub group_addr : List ℕ
  pub interfaces : List MulticastInterface

abbrev pub same_flag : Bool → Bool → Bool
same_flag true b = b
same_flag false b = not b

abbrev pub same_key : MulticastInterface → MulticastInterface → Bool
same_key a b =
    a.regex == b.regex
    && same_flag a.beacon b.beacon
    && same_flag a.listen b.listen
    && a.port == b.port
    && a.priority == b.priority

unfoldable pub add_key : MulticastInterface → List MulticastInterface → List MulticastInterface
add_key i [] = i ∷ []
add_key i (j ∷ js) = let rest = add_key i js in if same_key j i then j ∷ js else j ∷ rest

-- _applyOption.
unfoldable pub apply_option : SetupOption → Config → Config
apply_option (multicast_interface i) c = record c { interfaces = add_key i c.interfaces }
apply_option (group_address a) c = record c { group_addr = a }

unfoldable pub apply_options : List SetupOption → Config → Config
apply_options [] c = c
apply_options (o ∷ os) c = apply_options os (apply_option o c)

-- New, from the text of the default group and over whether the group's socket opens.
unfoldable pub new_multicast :
    List ℕ → Bool → List SetupOption → Config × Option (Multicast × List Effect)
new_multicast group opens options =
    let config = apply_options options (record { group_addr = group; interfaces = [] }) in
    (
      config,
      start opens config.interfaces
          (record { is_open = false; sock = false; interfaces = []; listeners = [] }),
    )

-- Interfaces: the interfaces in use by their name.
unfoldable pub interfaces_of :
    List (ℕ × InterfaceInfo) → List (List ℕ × Interface) → List (List ℕ × Interface)
interfaces_of [] m = m
interfaces_of ((k, info) ∷ is) m = interfaces_of is (insert info.iface.name info.iface m)
