-- ===== src/Provision.antt =====
-- universal-scanner/src/tvt_provision.rs: the set-IP packet, its sending and its dump. The base64
-- encoder of the third-party library is an argument, and so are the answers of the socket.
pub mod Layout
pub mod Sending
pub mod Macs
use uscan.Prelude.{
  ℕ, zero, suc, ◌+◌, ◌-◌, ◌*◌, ◌/◌, ◌%◌, Bool, true, false, not, ◌&&◌, ◌||◌, List, [], ◌∷◌, ◌++◌,
  Option, none, some, map,
}
use uscan.Prelude.{
  ltb, leb, ◌==◌, if◌then◌else◌, length, all, byte, write, replicate, take, drop, Bytes, Text,
  codes, u32_to_le,
}
use uscan.Prelude.Results.{Result, ok, err, ◌>>=◌}
use uscan.Addr.{Ipv4Addr}
use uscan.Addr.Display.{join, hex_byte}
use uscan.Utf8.{as_bytes}
use uscan.Devices.{is_hex_digit}
use uscan.Strings.{split, from_str_radix}
use uscan.Protocols.Tvt.{magic, off_mac, off_ip, off_mask, off_gateway}

pub data ProvisionError : Type 0 where
  invalid_mac : Text → ProvisionError
  password_too_long : ProvisionError
  -- all attempts failed: the last was short, or ended in the error of a number
  short_send : ProvisionError
  io_error : ℕ → ProvisionError

abbrev pub packet_size : ℕ
packet_size = 140

abbrev pub password_capacity : ℕ
password_capacity = 28

abbrev pub off_password : ℕ
off_password = 0x54

abbrev pub off_dhcp : ℕ
off_dhcp = 0x8a

pub record SetIpRequest : Type 0 where
  -- six bytes
  pub mac : Bytes
  pub password : Text
  pub new_ip : Ipv4Addr
  pub subnet_mask : Ipv4Addr
  pub gateway : Ipv4Addr
  pub dhcp : Bool
  pub protocol_version : ℕ

abbrev pub octets : Ipv4Addr → Bytes
octets a = a.o0 ∷ a.o1 ∷ a.o2 ∷ a.o3 ∷ []

-- A part of the MAC: two hexadecimal digits.
unfoldable pub mac_part : Text → Option ℕ
unfolding is_hex_digit from_str_radix
mac_part part =
    if length (as_bytes part) == 2 && all is_hex_digit (as_bytes part)
    then from_str_radix 0xff part
    else none

abbrev pub all_parts : List Text → Option Bytes
all_parts [] = some []
all_parts (p ∷ ps) = elim (mac_part p) [
  | none ↦ none
  | some b ↦ elim (all_parts ps) [ none ↦ none | some bs ↦ some (b ∷ bs) ]
]

unfoldable pub parse_mac : Text → Result ProvisionError Bytes
unfolding split
parse_mac text =
    let parts = split 58 text in
    if length parts == 6
    then elim (all_parts parts) [ none ↦ err (invalid_mac text) | some m ↦ ok m ]
    else err (invalid_mac text)

-- `DEFAULT_PROTOCOL_VERSION` in the place of 0
abbrev pub version_of : SetIpRequest → ℕ
version_of req = if req.protocol_version == 0 then 0x00010008 else req.protocol_version

-- The packet without the password and the DHCP switch.
unfoldable pub head_part : SetIpRequest → Bytes
head_part req =
    let p0 = write (replicate packet_size 0) 0 magic in
    let p1 = write p0 4 (u32_to_le (version_of req)) in
    let p2 = write p1 8 (3 ∷ []) in
    let p3 = write p2 off_mac (req.mac) in
    let p4 = write p3 off_ip (octets req.new_ip) in
    let p5 = write p4 off_mask (octets req.subnet_mask) in write p5 off_gateway (octets req.gateway)

module _ (encode : Bytes → Bytes) where
  unfoldable pub build_set_ip_request : SetIpRequest → Result ProvisionError Bytes
  unfolding head_part
  build_set_ip_request req =
      let encoded = encode (as_bytes req.password) in
      if ltb password_capacity (length encoded)
      then err password_too_long
      else ok (
          write (write (head_part req) off_password encoded) off_dhcp
            ((if req.dhcp then 1 else 0) ∷ []))

-- What `send_to` gives: a number of bytes, or an error.
pub data SendResult : Type 0 where
  sent : ℕ → SendResult
  failed : ℕ → SendResult

-- The error of an attempt, or none for a whole packet.
abbrev pub attempt_error : SendResult → Option ProvisionError
attempt_error (sent n) = if n == packet_size then none else some short_send
attempt_error (failed e) = some (io_error e)

-- The loop over the attempts: the last error, and how many packets were handed to the socket.
unfoldable pub send_loop :
    ℕ → (ℕ → SendResult) → ℕ → Option ProvisionError → Option ProvisionError × ℕ
send_loop zero answer attempt last = (last, attempt)
send_loop (suc left) answer attempt last = elim (attempt_error (answer attempt)) [
  | none ↦ (none, suc attempt)
  | some e ↦ send_loop left answer (suc attempt) (some e)
]

abbrev pub outcome : Option ProvisionError → Result ProvisionError Unit
outcome none = ok tt
outcome (some e) = err e

-- `send_set_ip` behind the building of the packet and the opening of the socket.
unfoldable pub send_packet : (ℕ → SendResult) → Result ProvisionError Unit × ℕ
unfolding send_loop
send_packet answer = let (last, n) = send_loop 3 answer 0 none in (outcome last, n)

-- `send_set_ip`: the building once more, the opening of the socket, which may end in an error of a
-- number, and the sending. The second number is that of the packets handed to the socket.
unfoldable pub send_set_ip :
    (Bytes → Bytes) → Option ℕ → (ℕ → SendResult) → SetIpRequest → Result ProvisionError Unit × ℕ
unfolding build_set_ip_request send_packet
send_set_ip encode opened answer req = elim (build_set_ip_request encode req) [
  | err e ↦ (err e, 0)
  | ok packet ↦ elim opened [ some e ↦ (err (io_error e), 0) | none ↦ send_packet answer ]
]

-- The copy of which the dump is made.
unfoldable pub masked : Bytes → Bytes
masked packet = write packet off_password (replicate password_capacity 0)

-- `{:04x}`, of an offset below 65536
abbrev pub hex_offset : ℕ → Text
hex_offset n = hex_byte (n / 256) ++ hex_byte (n % 256)

-- The lines of `chunks(16)`, from the line `i` on; each has a byte at least.
unfoldable pub dump_lines : ℕ → ℕ → Bytes → Text
unfolding hex_byte join
dump_lines zero i bytes = []
dump_lines (suc fuel) i [] = []
dump_lines (suc fuel) i (b ∷ bytes) =
    hex_offset (i * 16)
    ++ (codes "  "
        ++ (join (32 ∷ []) (map hex_byte (take 16 (b ∷ bytes)))
            ++ (10 ∷ dump_lines fuel (i + 1) (drop 16 (b ∷ bytes)))))

unfoldable pub hex_dump : Bytes → Text
unfolding masked dump_lines
hex_dump packet = dump_lines (length packet) 0 (masked packet)
