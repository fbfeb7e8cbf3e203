-- ===== src/Config/Precedence.antt =====
-- uscan/src/config.rs: flags go before the file, and the file before the defaults.
use uscan.Prelude.{
  ◌≡◌, refl, ap, ◌∙◌, Bool, true, false, ◌&&◌, List, [], ◌∷◌, ◌++◌, Option, none, some, arith,
}
use uscan.Prelude.{if◌then◌else◌, drop, Text, codes}
use uscan.Prelude.Results.{Result, ok, err, ◌>>=◌}
use uscan.Config.{
  Config, default, PartialConfig, or_default, merge, ScanArgs, ConfigError, conflicting_flags,
  apply_bool, apply_flags,
}
use uscan.Config.{Files, file_config, load_config, resolve_config_path, find_file, candidate_paths}

-- A value from a pair of flags that is not in conflict.
abbrev pub resolved : Bool → Bool → Bool → Bool
resolved on off v = if on then true else if off then false else v

-- The configuration that the flags leave: each field by its own pair.
abbrev pub resolved_config : Config → ScanArgs → Config
resolved_config c a = record {
  enable_ipv4 = resolved a.enable_ipv4 a.disable_ipv4 c.enable_ipv4;
  enable_ipv6 = resolved a.enable_ipv6 a.disable_ipv6 c.enable_ipv6;
  force_link_local = resolved a.force_link_local a.no_force_link_local c.force_link_local;
  force_zeroconf = resolved a.force_zeroconf a.no_force_zeroconf c.force_zeroconf;
  force_generic_protocols =
      resolved a.force_generic_protocols a.no_force_generic_protocols c.force_generic_protocols;
  debug_mode = resolved a.debug a.no_debug c.debug_mode;
  port_sharing = resolved a.port_sharing a.no_port_sharing c.port_sharing;
  onvif_verbatim = resolved a.onvif_verbatim a.no_onvif_verbatim c.onvif_verbatim;
  dahua_net_scan = resolved a.dahua_net_scan a.no_dahua_net_scan c.dahua_net_scan;
  arp_enabled = resolved a.arp a.no_arp c.arp_enabled;
}

-- The pairs of flags in the order in which they are looked at, with their names.
abbrev pub pairs : ScanArgs → List (Bool × Bool × Text × Text)
pairs a =
    (a.enable_ipv4, a.disable_ipv4, codes "--enable-ipv4", codes "--disable-ipv4")
    ∷ (a.enable_ipv6, a.disable_ipv6, codes "--enable-ipv6", codes "--disable-ipv6")
    ∷ (
      a.force_link_local,
      a.no_force_link_local,
      codes "--force-link-local",
      codes "--no-force-link-local",
    )
    ∷ (a.force_zeroconf, a.no_force_zeroconf, codes "--force-zeroconf", codes "--no-force-zeroconf")
    ∷ (
      a.force_generic_protocols,
      a.no_force_generic_protocols,
      codes "--force-generic-protocols",
      codes "--no-force-generic-protocols",
    )
    ∷ (a.debug, a.no_debug, codes "--debug", codes "--no-debug")
    ∷ (a.port_sharing, a.no_port_sharing, codes "--port-sharing", codes "--no-port-sharing")
    ∷ (a.onvif_verbatim, a.no_onvif_verbatim, codes "--onvif-verbatim", codes "--no-onvif-verbatim")
    ∷ (a.dahua_net_scan, a.no_dahua_net_scan, codes "--dahua-net-scan", codes "--no-dahua-net-scan")
    ∷ (a.arp, a.no_arp, codes "--arp", codes "--no-arp")
    ∷ []

-- The first pair of which both flags are given.
abbrev pub first_conflict : List (Bool × Bool × Text × Text) → Option ConfigError
first_conflict [] = none
first_conflict ((on, off, f, g) ∷ rest) =
    if on && off then some (conflicting_flags f g) else first_conflict rest

abbrev pub verdict : Option ConfigError → Config → Result ConfigError Config
verdict none c = ok c
verdict (some e) c = err e

-- One pair in front of those that are still to be looked at.
stage :
    (v on off : Bool) (f g : Text) (rest : List (Bool × Bool × Text × Text)) (c : Config)
    (k : Bool → Result ConfigError Config)
    → k (resolved on off v) ≡ verdict (first_conflict rest) c
    → (apply_bool v on off f g >>= k) ≡ verdict (first_conflict ((on, off, f, g) ∷ rest)) c
unfolding apply_bool
stage v true true f g rest c k h = refl
stage v true false f g rest c k h = h
stage v false true f g rest c k h = h
stage v false false f g rest c k h = h

-- The flags are refused with the first pair of which both are given; without such a pair each field
-- has the value of its own pair, or the one it had.
pub apply_flags_lem :
    (c : Config) (a : ScanArgs)
    → apply_flags c a ≡ verdict (first_conflict (pairs a)) (resolved_config c a)
unfolding apply_flags
apply_flags_lem c a =
    let r = resolved_config c a in
    stage c.enable_ipv4 a.enable_ipv4 a.disable_ipv4 _ _ (drop 1 (pairs a)) r _ (
      stage c.enable_ipv6 a.enable_ipv6 a.disable_ipv6 _ _ (drop 2 (pairs a)) r _ (
        stage c.force_link_local a.force_link_local a.no_force_link_local _ _ (drop 3 (pairs a)) r _
          (stage c.force_zeroconf a.force_zeroconf a.no_force_zeroconf _ _ (drop 4 (pairs a)) r _ (
            stage c.force_generic_protocols a.force_generic_protocols a.no_force_generic_protocols _
              _ (drop 5 (pairs a)) r _
              (stage c.debug_mode a.debug a.no_debug _ _ (drop 6 (pairs a)) r _ (
                stage c.port_sharing a.port_sharing a.no_port_sharing _ _ (drop 7 (pairs a)) r _ (
                  stage c.onvif_verbatim a.onvif_verbatim a.no_onvif_verbatim _ _ (drop 8 (pairs a))
                    r _
                    (stage c.dahua_net_scan a.dahua_net_scan a.no_dahua_net_scan _ _
                      (drop 9 (pairs a)) r _
                      (stage c.arp_enabled a.arp a.no_arp _ _ (drop 10 (pairs a)) r _
                        (refl))))))))))

-- The value of a key of the file, or its default.
abbrev pub of_file : Option Bool → Bool → Bool
of_file none by_default = by_default
of_file (some v) by_default = v

-- The values that a file leaves, with the defaults written out.
abbrev pub file_values : PartialConfig → Config
file_values p = record {
  enable_ipv4 = of_file p.enable_ipv4 true;
  enable_ipv6 = of_file p.enable_ipv6 false;
  force_link_local = of_file p.force_link_local true;
  force_zeroconf = of_file p.force_zeroconf false;
  force_generic_protocols = of_file p.force_generic_protocols false;
  debug_mode = of_file p.debug_mode false;
  port_sharing = of_file p.port_sharing true;
  onvif_verbatim = of_file p.onvif_verbatim false;
  dahua_net_scan = of_file p.dahua_net_scan false;
  arp_enabled = of_file p.arp_enabled false;
}

merge_lem : (p : PartialConfig) → merge p ≡ file_values p
unfolding merge
merge_lem p =
    let e0 = same p.enable_ipv4 true in
    let e1 = same p.enable_ipv6 false in
    let e2 = same p.force_link_local true in
    let e3 = same p.force_zeroconf false in
    let e4 = same p.force_generic_protocols false in
    let e5 = same p.debug_mode false in
    let e6 = same p.port_sharing true in
    let e7 = same p.onvif_verbatim false in
    let e8 = same p.dahua_net_scan false in
    let e9 = same p.arp_enabled false in rw (e0, e1, e2, e3, e4, e5, e6, e7, e8, e9) refl
  where
    same : (o : Option Bool) (v : Bool) → or_default o v ≡ of_file o v
    same none v = refl
    same (some w) v = refl

find_file-skip :
    (is_file : Text → Bool) (ps qs : List Text)
    → find_file is_file ps ≡ none
    → find_file is_file (ps ++ qs) ≡ find_file is_file qs
find_file-skip is_file [] qs h = refl
find_file-skip is_file (p ∷ ps) qs h = ground (arith, find_file-skip is_file ps qs)

-- If the file that the command line names is there, can be read and is understood, and no flags
-- are in conflict, each field has the value of its flags, or else of its key in the file, or else
-- the default, which is on for enable_ipv4, force_link_local and port_sharing and off for the
-- others, whatever the environment says.
pub load_config_precedence :
    (files : Files) (p text : Text) (env xdg home : Option Text) (partial : PartialConfig)
    (args : ScanArgs)
    → files.is_file p ≡ true
    → files.read_to_string p ≡ some text
    → files.from_toml text ≡ some partial
    → first_conflict (pairs args) ≡ none
    → load_config files (some p) env xdg home args ≡ ok (resolved_config (file_values partial) args)
unfolding load_config file_config resolve_config_path candidate_paths
load_config_precedence files p text env xdg home partial args there read parsed agree =
    let loaded : load_config files (some p) env xdg home args
        ≡ ok (resolved_config (merge partial) args) =
      ground (arith, there, read, parsed, agree, apply_flags_lem (merge partial) args) in
    loaded ∙ ap (λ c. ok (resolved_config c args)) (merge_lem partial)

-- Without any configuration file the defaults take the place of the file.
pub load_config_no_file :
    (files : Files) (cli env xdg home : Option Text) (args : ScanArgs)
    → ((p : Text) → files.is_file p ≡ false)
    → load_config files cli env xdg home args
      ≡ verdict (first_conflict (pairs args)) (resolved_config default args)
unfolding load_config file_config resolve_config_path
load_config_no_file files cli env xdg home args absent =
    rw (none_found (candidate_paths cli env xdg home)) (apply_flags_lem default args)
  where
    none_found : (ps : List Text) → find_file files.is_file ps ≡ none
    none_found [] = refl
    none_found (p ∷ ps) = ground (arith, absent p, none_found ps)
