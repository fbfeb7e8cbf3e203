-- ===== src/Config.antt =====
-- universal-scanner/src/config.rs and uscan/src/config.rs: the configuration, its file and its flags.
-- Reading a file and the TOML parser are arguments.
pub mod Precedence
use uscan.Prelude.{ℕ, Bool, true, false, ◌&&◌, List, [], ◌∷◌, ◌++◌, Option, none, some}
use uscan.Prelude.{◌==◌, if◌then◌else◌, Text, codes}
use uscan.Prelude.Results.{Result, ok, err, ◌>>=◌}

pub record Config : Type 0 where
  pub enable_ipv4 : Bool
  pub enable_ipv6 : Bool
  pub force_link_local : Bool
  pub force_zeroconf : Bool
  pub force_generic_protocols : Bool
  pub debug_mode : Bool
  pub port_sharing : Bool
  pub onvif_verbatim : Bool
  pub dahua_net_scan : Bool
  pub arp_enabled : Bool

-- `Config::default`
abbrev pub default : Config
default = record {
  enable_ipv4 = true;
  enable_ipv6 = false;
  force_link_local = true;
  force_zeroconf = false;
  force_generic_protocols = false;
  debug_mode = false;
  port_sharing = true;
  onvif_verbatim = false;
  dahua_net_scan = false;
  arp_enabled = false;
}

-- The file: a key that stands in it has a value.
pub record PartialConfig : Type 0 where
  pub enable_ipv4 : Option Bool
  pub enable_ipv6 : Option Bool
  pub force_link_local : Option Bool
  pub force_zeroconf : Option Bool
  pub force_generic_protocols : Option Bool
  pub debug_mode : Option Bool
  pub port_sharing : Option Bool
  pub onvif_verbatim : Option Bool
  pub dahua_net_scan : Option Bool
  pub arp_enabled : Option Bool

-- `if let Some(v) = self.field { c.field = v; }`
abbrev pub or_default : Option Bool → Bool → Bool
or_default none v = v
or_default (some w) v = w

unfoldable pub merge : PartialConfig → Config
merge p = record {
  enable_ipv4 = or_default p.enable_ipv4 default.enable_ipv4;
  enable_ipv6 = or_default p.enable_ipv6 default.enable_ipv6;
  force_link_local = or_default p.force_link_local default.force_link_local;
  force_zeroconf = or_default p.force_zeroconf default.force_zeroconf;
  force_generic_protocols = or_default p.force_generic_protocols default.force_generic_protocols;
  debug_mode = or_default p.debug_mode default.debug_mode;
  port_sharing = or_default p.port_sharing default.port_sharing;
  onvif_verbatim = or_default p.onvif_verbatim default.onvif_verbatim;
  dahua_net_scan = or_default p.dahua_net_scan default.dahua_net_scan;
  arp_enabled = or_default p.arp_enabled default.arp_enabled;
}

-- The ten pairs of flags of `ScanArgs`.
pub record ScanArgs : Type 0 where
  pub enable_ipv4 : Bool
  pub disable_ipv4 : Bool
  pub enable_ipv6 : Bool
  pub disable_ipv6 : Bool
  pub force_link_local : Bool
  pub no_force_link_local : Bool
  pub force_zeroconf : Bool
  pub no_force_zeroconf : Bool
  pub force_generic_protocols : Bool
  pub no_force_generic_protocols : Bool
  pub debug : Bool
  pub no_debug : Bool
  pub port_sharing : Bool
  pub no_port_sharing : Bool
  pub onvif_verbatim : Bool
  pub no_onvif_verbatim : Bool
  pub dahua_net_scan : Bool
  pub no_dahua_net_scan : Bool
  pub arp : Bool
  pub no_arp : Bool

pub data ConfigError : Type 0 where
  conflicting_flags : Text → Text → ConfigError
  unreadable : Text → ConfigError
  invalid_toml : Text → ConfigError

unfoldable pub apply_bool : Bool → Bool → Bool → Text → Text → Result ConfigError Bool
apply_bool field on off on_flag off_flag =
    if on && off
    then err (conflicting_flags on_flag off_flag)
    else if on
    then ok true
    else if off
    then ok false
    else ok field

unfoldable pub apply_flags : Config → ScanArgs → Result ConfigError Config
unfolding apply_bool
apply_flags c a = do
  v0 ←
      apply_bool c.enable_ipv4 a.enable_ipv4 a.disable_ipv4 (codes "--enable-ipv4")
        (codes "--disable-ipv4")
  v1 ←
      apply_bool c.enable_ipv6 a.enable_ipv6 a.disable_ipv6 (codes "--enable-ipv6")
        (codes "--disable-ipv6")
  v2 ←
      apply_bool c.force_link_local a.force_link_local a.no_force_link_local
        (codes "--force-link-local") (codes "--no-force-link-local")
  v3 ←
      apply_bool c.force_zeroconf a.force_zeroconf a.no_force_zeroconf (codes "--force-zeroconf")
        (codes "--no-force-zeroconf")
  v4 ←
      apply_bool c.force_generic_protocols a.force_generic_protocols a.no_force_generic_protocols
        (codes "--force-generic-protocols") (codes "--no-force-generic-protocols")
  v5 ← apply_bool c.debug_mode a.debug a.no_debug (codes "--debug") (codes "--no-debug")
  v6 ←
      apply_bool c.port_sharing a.port_sharing a.no_port_sharing (codes "--port-sharing")
        (codes "--no-port-sharing")
  v7 ←
      apply_bool c.onvif_verbatim a.onvif_verbatim a.no_onvif_verbatim (codes "--onvif-verbatim")
        (codes "--no-onvif-verbatim")
  v8 ←
      apply_bool c.dahua_net_scan a.dahua_net_scan a.no_dahua_net_scan (codes "--dahua-net-scan")
        (codes "--no-dahua-net-scan")
  v9 ← apply_bool c.arp_enabled a.arp a.no_arp (codes "--arp") (codes "--no-arp")
  ok (record {
    enable_ipv4 = v0;
    enable_ipv6 = v1;
    force_link_local = v2;
    force_zeroconf = v3;
    force_generic_protocols = v4;
    debug_mode = v5;
    port_sharing = v6;
    onvif_verbatim = v7;
    dahua_net_scan = v8;
    arp_enabled = v9;
  })

-- `PathBuf::join` of a relative path
unfoldable pub path_join : Text → Text → Text
path_join [] s = s
path_join (c ∷ []) s = if c == 47 then c ∷ s else c ∷ (47 ∷ s)
path_join (c ∷ (d ∷ p)) s = c ∷ path_join (d ∷ p) s

abbrev pub listed : Option Text → List Text
listed none = []
listed (some p) = p ∷ []

-- `into_iter().find(|p| p.is_file())`
abbrev pub find_file : (Text → Bool) → List Text → Option Text
find_file is_file [] = none
find_file is_file (p ∷ ps) = if is_file p then some p else find_file is_file ps

abbrev pub joined : Option Text → List Text → Option Text
joined none parts = none
joined (some p) [] = some p
joined (some p) (s ∷ parts) = joined (some (path_join p s)) parts

-- The candidates in order: the flag, `$UNIVERSAL_SCANNER_CONFIG`, `$XDG_CONFIG_HOME`, `$HOME`.
unfoldable pub candidate_paths : Option Text → Option Text → Option Text → Option Text → List Text
unfolding path_join
candidate_paths cli env xdg home =
    listed cli
    ++ (listed env
        ++ (listed (joined xdg (codes "universal-scanner" ∷ codes "config.toml" ∷ []))
            ++ listed (
                joined home
                  (codes ".config" ∷ codes "universal-scanner" ∷ codes "config.toml" ∷ []))))

unfoldable pub resolve_config_path :
    (Text → Bool) → Option Text → Option Text → Option Text → Option Text → Option Text
unfolding candidate_paths
resolve_config_path is_file cli env xdg home = find_file is_file (candidate_paths cli env xdg home)

-- What the code asks of the system and of the TOML parser.
pub record Files : Type 0 where
  pub is_file : Text → Bool
  pub read_to_string : Text → Option Text
  pub from_toml : Text → Option PartialConfig

unfoldable pub file_config : Files → Option Text → Result ConfigError Config
unfolding merge
file_config files none = ok default
file_config files (some p) = elim (files.read_to_string p) [
  | none ↦ err (unreadable p)
  | some text ↦ elim (files.from_toml text) [
    | none ↦ err (invalid_toml p)
    | some partial ↦ ok (merge partial)
  ]
]

unfoldable pub load_config :
    Files
    → Option Text
    → Option Text
    → Option Text
    → Option Text
    → ScanArgs
    → Result ConfigError Config
unfolding file_config resolve_config_path apply_flags
load_config files cli env xdg home args = do
  config ← file_config files (resolve_config_path (files.is_file) cli env xdg home)
  apply_flags config args
