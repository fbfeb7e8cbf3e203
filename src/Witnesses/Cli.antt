-- ===== src/Witnesses/Cli.antt =====
-- uscan/src: the theorems on runs with two devices.
use uscan.Prelude.{
  ◌≡◌, inl, inr, refl, Bool, true, false, none, some, List, [], ◌∷◌, ◌++◌, map, codes,
}
use uscan.Prelude.Results.{ok}
use uscan.Addr.{ipv4, v4}
use uscan.Devices.{Device, new, all_devices}
use uscan.Devices.Stream.{collect, emitted}
use uscan.Config.{default, PartialConfig, ScanArgs, Files, load_config}
use uscan.Config.Precedence.{file_values, resolved_config, load_config_precedence}
use uscan.Output.{csv, Renderer, header, listed, fields, render_csv, render_row}
use uscan.Output.Csv.{before, read_csv, read_csv-render_csv}
use uscan.Run.{Event, received, closed, rescan, timeout, ctrl_c, RunArgs, run_scan}
use uscan.Run.Loop.{devices_of, row_texts, run_scan_streaming, run_scan_batch, run_scan_ctrl_c}

abbrev quoted : Device
quoted = record {
  protocol = codes "SSDP";
  version = 0;
  ip = v4 (ipv4 10 0 0 7);
  mac = [];
  device_type = codes "say \"hi\", then";
  serial = codes "1";
}

abbrev other : Device
other = record {
  protocol = codes "TVT";
  version = 1;
  ip = v4 (ipv4 10 0 0 8);
  mac = codes "00:11:22:33:44:55";
  device_type = codes "IPC";
  serial = codes "2";
}

abbrev plain : Renderer
plain = record { json_text = λ fields. []; truecolor = λ s r g b. s; colors = [] }

abbrev args_of : Bool → RunArgs
args_of batch = record { format = csv; batch = batch; show_version = true; color = false }

abbrev events : List Event
events = received quoted ∷ rescan ∷ received other ∷ received quoted ∷ []

run_scan_streaming_example :
    run_scan plain (args_of false) default true (events ++ (timeout ∷ ctrl_c ∷ [])) ≡ record {
      printed =
          listed (header csv)
          ++ row_texts plain
              (args_of false)
              default
              (emitted true false (new false) (devices_of events));
      scans = 2;
      code = some 0;
    }
run_scan_streaming_example =
    run_scan_streaming plain (args_of false) default events (ctrl_c ∷ []) timeout refl
      (tt, (tt, (tt, (tt, tt)))) (inr refl)

run_scan_batch_example :
    run_scan plain (args_of true) default true (events ++ (closed ∷ [])) ≡ record {
      printed =
          listed (header csv)
          ++ (listed (header csv)
              ++ map
                  (λ d. render_row plain d csv true false)
                  (all_devices (collect true false (new false) (quoted ∷ other ∷ quoted ∷ []))));
      scans = 2;
      code = some 0;
    }
run_scan_batch_example =
    run_scan_batch plain (args_of true) default events [] closed refl (tt, (tt, (tt, (tt, tt))))
      (inl refl)

run_scan_ctrl_c_example :
    run_scan plain (args_of true) default true (events ++ (ctrl_c ∷ []))
    ≡ record { printed = listed (header csv) ++ []; scans = 2; code = some 130 }
run_scan_ctrl_c_example =
    run_scan_ctrl_c plain (args_of true) default events [] (tt, (tt, (tt, (tt, tt))))

abbrev no_flags : ScanArgs
no_flags = record {
  enable_ipv4 = false;
  disable_ipv4 = false;
  enable_ipv6 = true;
  disable_ipv6 = false;
  force_link_local = false;
  no_force_link_local = false;
  force_zeroconf = false;
  no_force_zeroconf = false;
  force_generic_protocols = false;
  no_force_generic_protocols = false;
  debug = false;
  no_debug = false;
  port_sharing = false;
  no_port_sharing = true;
  onvif_verbatim = false;
  no_onvif_verbatim = false;
  dahua_net_scan = false;
  no_dahua_net_scan = false;
  arp = false;
  no_arp = false;
}

abbrev partial : PartialConfig
partial = record {
  enable_ipv4 = some false;
  enable_ipv6 = none;
  force_link_local = none;
  force_zeroconf = none;
  force_generic_protocols = none;
  debug_mode = none;
  port_sharing = some true;
  onvif_verbatim = none;
  dahua_net_scan = none;
  arp_enabled = some true;
}

abbrev files : Files
files = record {
  is_file = λ p. true;
  read_to_string = λ p. some (codes "text");
  from_toml = λ text. some partial;
}

load_config_precedence_example :
    load_config files (some (codes "uscan.toml")) none none (some (codes "/home/me")) no_flags
    ≡ ok (resolved_config (file_values partial) no_flags)
load_config_precedence_example =
    load_config_precedence files (codes "uscan.toml") (codes "text") none none
      (some (codes "/home/me")) partial no_flags refl refl refl refl

read_csv-render_csv_example : read_csv before (render_csv quoted) ≡ some (fields quoted)
read_csv-render_csv_example = read_csv-render_csv quoted
