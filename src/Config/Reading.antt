-- ===== src/Config/Reading.antt =====
-- Reading and writing the configuration: ReadConfig, WriteConfig and GetHttpEndpoint of
-- src/defaults/defaults.go.
use v6space.Base.{
  ℕ, ◌≡◌, ◌⊎◌, inl, inr, refl, Bool, true, false, not, ◌&&◌, ◌||◌, Option, none, some, List, ◌==◌,
  get_or, codes, bytes_eq, if◌then◌else◌, Bool-cases, Option-cases,
}
use v6space.Core.Dial.Transport.{is_empty_text}
use v6space.Config.{NodeConfig}
use v6space.Config.Defaults.{Keys, PlatformDefaultParameters, generate_config}

-- The libraries that reading goes by, over the type of what HJSON decodes to: UTF-16, HJSON, the
-- two steps that lay the result over a configuration, and the text of a configuration.
pub record Formats (Dat : Type 0) : Type 0 where
  pub from_utf16 : List ℕ → Option (List ℕ)
  pub unmarshal : List ℕ → Option Dat
  pub overlay_json : Dat → NodeConfig → Option NodeConfig
  pub overlay_map : Dat → NodeConfig → Option NodeConfig
  pub marshal : NodeConfig → Option (List ℕ)

-- Whether the text begins with a mark of UTF-16; a file's buffer has room for two bytes however
-- short the file is, and 0 in them.
unfoldable pub has_mark : List ℕ → Bool
has_mark conf =
    (get_or conf 0 0 == 0xff && get_or conf 1 0 == 0xfe)
    || (get_or conf 0 0 == 0xfe && get_or conf 1 0 == 0xff)

module _ {Dat : Type 0} (f : Formats Dat) where
  abbrev pub overlaid_map : Dat → Option NodeConfig → Option NodeConfig
  overlaid_map dat none = none
  overlaid_map dat (some cfg) = f.overlay_map dat cfg

  abbrev pub overlaid : Option Dat → NodeConfig → Option NodeConfig
  overlaid none cfg = none
  overlaid (some dat) cfg = overlaid_map dat (f.overlay_json dat cfg)

  -- What is read of the text after decoding.
  abbrev pub parsed : NodeConfig → Option (List ℕ) → Option NodeConfig
  parsed cfg none = none
  parsed cfg (some conf) = overlaid (f.unmarshal conf) cfg

  abbrev pub decoded : List ℕ → Option (List ℕ)
  decoded conf = if has_mark conf then f.from_utf16 conf else some conf

  -- ReadConfig, over what the file or the standard input gives.
  unfoldable pub read_config :
      PlatformDefaultParameters → Keys → Option (List ℕ) → Option NodeConfig
  read_config defaults keys none = none
  read_config defaults keys (some conf) = parsed (generate_config defaults keys) (decoded conf)

  -- WriteConfig: the file, and whether an error is reported.
  abbrev pub written : Bool → Option (List ℕ) → Option (List ℕ) → Option (List ℕ) × Bool
  written writable none file = (file, true)
  written writable (some bs) file = if writable then (some bs, false) else (file, true)

  unfoldable pub write_config : Bool → NodeConfig → Option (List ℕ) → Option (List ℕ) × Bool
  write_config writable cfg file = written writable (f.marshal cfg) file

  -- GetHttpEndpoint.
  abbrev pub endpoint_of : List ℕ → Option NodeConfig → List ℕ
  endpoint_of default_endpoint none = default_endpoint
  endpoint_of default_endpoint (some cfg) =
      if not (bytes_eq cfg.http_address (codes "none")) && not (is_empty_text cfg.http_address)
      then cfg.http_address
      else default_endpoint

  unfoldable pub get_http_endpoint :
      PlatformDefaultParameters → Keys → Option (List ℕ) → List ℕ → List ℕ
  get_http_endpoint defaults keys file default_endpoint =
      endpoint_of default_endpoint (read_config defaults keys file)

  -- The endpoint that the control client takes: the default one, or that of a configuration that
  -- was read, which is then neither empty nor "none".
  pub get_http_endpoint_cases :
      (defaults : PlatformDefaultParameters) (keys : Keys) (file : Option (List ℕ))
      (default_endpoint : List ℕ)
      → (get_http_endpoint defaults keys file default_endpoint ≡ default_endpoint)
        ⊎ ((cfg : NodeConfig) × (read_config defaults keys file ≡ some cfg)
            × (get_http_endpoint defaults keys file default_endpoint ≡ cfg.http_address)
            × (bytes_eq cfg.http_address (codes "none") ≡ false)
            × (is_empty_text cfg.http_address ≡ false))
  unfolding get_http_endpoint
  get_http_endpoint_cases defaults keys file default_endpoint =
      elim (Option-cases (read_config defaults keys file)) [
        | inl e ↦ inl (rw (get_http_endpoint, e) refl)
        | inr (cfg, e) ↦ elim (Bool-cases (bytes_eq cfg.http_address (codes "none"))) [
          | inl n ↦ inl (rw (get_http_endpoint, e) (rw n refl))
          | inr n ↦ elim (Bool-cases (is_empty_text cfg.http_address)) [
            | inl t ↦ inl (rw (get_http_endpoint, e) (rw (n, t) refl))
            | inr t ↦ inr (cfg, e, rw (get_http_endpoint, e) (rw (n, t) refl), n, t)
          ]
        ]
      ]
