-- ===== src/Protocols/CyberPower.antt =====
-- protocols/cyberpower.rs: the probe, and the parser of the stream whose rest is ciphered with a byte.
use Prim.Native.Nat.{bit_xor}
use uscan.Prelude.{ℕ, ◌+◌, List, [], ◌∷◌, ◌++◌, map, Option, none, some}
use uscan.Prelude.{
  ltb, if◌then◌else◌, length, get_elem?, slice, take, drop, Bytes, Text, codes, u32_from_be,
}
use uscan.Prelude.Options.{◌>>=◌}
use uscan.Addr.{v4, ipv4_of}
use uscan.Addr.Display.{mac_upper, hex_byte_upper, join}
use uscan.Utf8.{from_utf8_lossy}
use uscan.Devices.{Device}
use uscan.Net.{Sending, send_broadcast}
use uscan.Engine.{Listen, listen_global}

abbrev pub port : ℕ
port = 53566

abbrev pub probe : Bytes
probe = 0x11 ∷ 0 ∷ 0 ∷ []

abbrev pub listen : Listen
listen = listen_global port

abbrev pub scan : List Sending
scan = send_broadcast port probe ∷ []

-- The readers: the value at a position and the position behind it, or nothing.
unfoldable pub read_u8 : Bytes → ℕ → Option (ℕ × ℕ)
read_u8 d pos = do b ← get_elem? d pos; some (b, pos + 1)

unfoldable pub read_u32_be : Bytes → ℕ → Option (ℕ × ℕ)
read_u32_be d pos = do
  b0 ← get_elem? d pos
  b1 ← get_elem? d (pos + 1)
  b2 ← get_elem? d (pos + 2)
  b3 ← get_elem? d (pos + 3)
  some (u32_from_be b0 b1 b2 b3, pos + 4)

unfoldable pub read_mac : Bytes → ℕ → Option (Bytes × ℕ)
read_mac d pos = if ltb (length d) (pos + 6) then none else some (slice d pos 6, pos + 6)

unfoldable pub read_string : Bytes → ℕ → Option (Text × ℕ)
unfolding read_u8
read_string d pos = do
  (len, start) ← read_u8 d pos
  if ltb (length d) (start + len)
      then none
      else some (from_utf8_lossy (slice d start len), start + len)

-- The packet with the bytes from a position on deciphered.
unfoldable pub deciphered : Bytes → ℕ → ℕ → Bytes
deciphered d key pos = take pos d ++ map (λ b. bit_xor b key) (drop pos d)

-- The device of the deciphered fields.
unfoldable pub read_fields : Bytes → ℕ → Option Device
unfolding read_u8 read_u32_be read_mac read_string mac_upper
read_fields buf pos = do
  (byte_1, p1) ← read_u8 buf pos
  (mac, p2) ← read_mac buf p1
  (byte_2, p3) ← read_u8 buf p2
  (ip_int, p4) ← read_u32_be buf p3
  (mask, p5) ← read_u32_be buf p4
  (gw, p6) ← read_u32_be buf p5
  (version, p7) ← read_u32_be buf p6
  (device_name, p8) ← read_string buf p7
  (device_location, p9) ← read_string buf p8
  (username, p10) ← read_string buf p9
  (byte_3, p11) ← read_u8 buf p10
  (uptime2, p12) ← read_u32_be buf p11
  some (record {
    protocol = codes "CyberPower";
    version = 1;
    ip = v4 (ipv4_of ip_int);
    mac = mac_upper mac;
    device_type = device_name;
    serial = join [] (map hex_byte_upper mac);
  })

-- The magic number is not looked at.
unfoldable pub parse_stream : Bytes → Option Device
unfolding read_fields deciphered
parse_stream d = do
  (magic, p1) ← read_u8 d 0
  (key, p2) ← read_u8 d p1
  (hash, p3) ← read_string d p2
  (uint32_1, p4) ← read_u32_be d p3
  (uptime1, p5) ← read_u32_be d p4
  read_fields (deciphered d key p5) p5

unfoldable pub parse : Bytes → List Device
unfolding parse_stream
parse d = elim (parse_stream d) [ some dev ↦ dev ∷ [] | none ↦ [] ]
