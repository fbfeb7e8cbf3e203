-- ===== src/Protocols/Foscam.antt =====
-- protocols/foscam.rs: the parser of the answer, which may be ciphered with a key that it carries.
pub mod Cipher
use uscan.Net.{Sending, send_broadcast}
use uscan.Engine.{Listen, listen_global}
use Prim.Native.Nat.{bit_xor}
use uscan.Prelude.{ℕ, zero, suc, ◌+◌, ◌%◌, Bool, true, false, List, [], ◌∷◌, ◌++◌}
use uscan.Prelude.{
  ltb, ◌==◌, if◌then◌else◌, length, byte, slice, take, drop, Bytes, Text, codes, u32_from_be,
  replicate,
}
use uscan.Addr.{IpAddr, v4, ipv4}
use uscan.Addr.Display.{decimal}
use uscan.Devices.{Device}
use uscan.Protocols.{cstring}

abbrev pub header_size : ℕ
header_size = 0x17

abbrev pub answer_size : ℕ
answer_size = 0x57

-- The bytes from the `i`-th on, each with its byte of the key.
unfoldable pub xor_key : Bytes → ℕ → Bytes → Bytes
xor_key key i [] = []
xor_key key i (b ∷ bs) = bit_xor b (byte key (i % 8)) ∷ xor_key key (i + 1) bs

-- The answer behind the header, deciphered if the header says so.
unfoldable pub deciphered : Bytes → Bytes
unfolding xor_key
deciphered d =
    if byte d 6 == 0 then d else take header_size d ++ xor_key (slice d 7 8) 0 (drop header_size d)

-- The device of a deciphered answer.
unfoldable pub device_of : Bytes → Device
unfolding cstring decimal
device_of buf = record {
  protocol = codes "Foscam";
  version = 1;
  ip = v4 (ipv4 (byte buf 0x39) (byte buf 0x3a) (byte buf 0x3b) (byte buf 0x3c));
  mac = [];
  device_type = codes "Type " ++ decimal (byte buf 0x49);
  serial = cstring (slice buf 0x17 13);
}

unfoldable pub parse : IpAddr → Bytes → List Device
unfolding deciphered device_of
parse from d =
    if ltb (length d) answer_size
    then []
    else if u32_from_be (byte d 0) (byte d 1) (byte d 2) (byte d 3) == 0x4d4f5f49
    then device_of (deciphered d) ∷ []
    else []

abbrev pub port : ℕ
port = 10000

-- `PROBE`: the header with the sizes, and the value 1
abbrev pub probe : Bytes
probe = codes "MO_I" ++ (replicate 11 0 ++ 4 ∷ (replicate 7 0 ++ 0 ∷ 0 ∷ 0 ∷ 1 ∷ []))

abbrev pub listen : Listen
listen = listen_global port

abbrev pub scan : List Sending
scan = send_broadcast port probe ∷ []
