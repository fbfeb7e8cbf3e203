-- ===== src/Output.antt =====
-- uscan/src/output.rs: the rows of the four formats. The JSON text of `serde_json` and the colouring
-- of a text by the terminal library are arguments.
pub mod Csv
use uscan.Prelude.{ℕ, ◌/◌, ◌%◌, Bool, true, false, List, [], ◌∷◌, ◌++◌, Option, none, some, map}
use uscan.Prelude.{◌==◌, if◌then◌else◌, Text, codes}
use uscan.Prelude.Maps.{Assoc, lookup}
use uscan.Addr.Display.{join, decimal, ip_text}
use uscan.Devices.{Device, DeviceTable, all_devices}

pub data OutputFormat : Type 0 where
  table json csv tsv : OutputFormat

abbrev pub csv_header : Text
csv_header = codes "protocol,version,ip,mac,type,serial"

abbrev pub tsv_header : Text
tsv_header = join (9 ∷ []) (
    codes "protocol"
    ∷ codes "version"
    ∷ codes "ip"
    ∷ codes "mac"
    ∷ codes "type"
    ∷ codes "serial"
    ∷ [])

unfoldable pub header : OutputFormat → Option Text
header csv = some csv_header
header tsv = some tsv_header
header json = none
header table = none

-- The six fields of a device as texts.
abbrev pub fields : Device → List Text
fields d = d.protocol ∷ decimal d.version ∷ ip_text d.ip ∷ d.mac ∷ d.device_type ∷ d.serial ∷ []

-- `replace('"', "\"\"")`
unfoldable pub double_quotes : Text → Text
double_quotes [] = []
double_quotes (c ∷ s) = let rest = double_quotes s in if c == 34 then 34 ∷ (34 ∷ rest) else c ∷ rest

unfoldable pub quote : Text → Text
unfolding double_quotes
quote f = 34 ∷ (double_quotes f ++ (34 ∷ []))

unfoldable pub render_csv : Device → Text
unfolding quote join
render_csv d = join (44 ∷ []) (map quote (fields d))

unfoldable pub render_tsv : Device → Text
unfolding join
render_tsv d = join (9 ∷ []) (fields d)

pub data JsonValue : Type 0 where
  number : ℕ → JsonValue
  string : Text → JsonValue

-- What the renderer asks of other libraries, and the colours of the engines by name.
pub record Renderer : Type 0 where
  pub json_text : List (Text × JsonValue) → Text
  pub truecolor : Text → ℕ → ℕ → ℕ → Text
  pub colors : Assoc ℕ

unfoldable pub protocol_color : Renderer → Text → ℕ
protocol_color r name = elim (lookup name (r.colors)) [ some c ↦ c | none ↦ 0xffffff ]

unfoldable pub colorize : Renderer → Text → Bool → ℕ → Text
colorize r s false rgb = s
colorize r s true rgb = r.truecolor s (rgb / 65536 % 256) (rgb / 256 % 256) (rgb % 256)

unfoldable pub render_table : Renderer → Device → Bool → Bool → Text
unfolding colorize protocol_color join
render_table r d show_version color =
    let proto = colorize r (d.protocol) color (protocol_color r (d.protocol)) in
    join (codes " | ") (
      if show_version
      then proto ∷ decimal d.version ∷ ip_text d.ip ∷ d.mac ∷ d.device_type ∷ d.serial ∷ []
      else proto ∷ ip_text d.ip ∷ d.mac ∷ d.device_type ∷ d.serial ∷ [])

-- `serde_json::json!` of the six fields
unfoldable pub render_json : Renderer → Device → Text
render_json r d = r.json_text (
    (codes "protocol", string d.protocol)
    ∷ (codes "version", number d.version)
    ∷ (codes "ip", string (ip_text d.ip))
    ∷ (codes "mac", string d.mac)
    ∷ (codes "type", string d.device_type)
    ∷ (codes "serial", string d.serial)
    ∷ [])

unfoldable pub render_row : Renderer → Device → OutputFormat → Bool → Bool → Text
unfolding render_csv render_tsv render_json render_table
render_row r d csv show_version color = render_csv d
render_row r d tsv show_version color = render_tsv d
render_row r d json show_version color = render_json r d
render_row r d table show_version color = render_table r d show_version color

abbrev pub listed : Option Text → List Text
listed none = []
listed (some h) = h ∷ []

unfoldable pub batch_lines : Renderer → DeviceTable → OutputFormat → Bool → Bool → List Text
unfolding header render_row all_devices
batch_lines r t format show_version color =
    listed (header format) ++ map (λ d. render_row r d format show_version color) (all_devices t)
