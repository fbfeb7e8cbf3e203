-- ===== src/Pcap/Record.antt =====
-- The lengths in a record, and reading the records back.
use uscan.Prelude.{ℕ, zero, suc, ◌+◌, ◌≤◌, ◌<◌, ◌≡◌, refl, sym, ◌∙◌, ◌↔◌}
use uscan.Prelude.{
  Bool, true, none, List, [], ◌∷◌, ◌++◌, arith, length, take, drop, take-append, drop-append, Bytes,
  byte, u32_from_le,
}
use uscan.Addr.{Ipv4Addr, IpAddr, v4, v6}
use uscan.Prelude.{append-nil, append_assoc, map, All}
use uscan.Pcap.{PcapWriter, new, frame_len, record_header, frame, append_udp}

pub length-frame :
    (src4 dst4 : Ipv4Addr) (src_port dst_port : ℕ) (payload : Bytes)
    → length (frame src4 src_port dst4 dst_port payload) ≡ 42 + length payload
unfolding frame
length-frame s d sp dp payload = omega arith

-- The length that the record header states is the length of the frame behind it exactly if the
-- payload has at most 65493 bytes.
pub frame_len-exact :
    (src4 dst4 : Ipv4Addr) (src_port dst_port : ℕ) (payload : Bytes)
    → (frame_len payload ≡ length (frame src4 src_port dst4 dst_port payload))
      ↔ (length payload ≤ 65493)
unfolding frame_len
frame_len-exact s d sp dp payload = (
  λ e. omega (arith, length-frame s d sp dp payload),
  λ h. omega (arith, length-frame s d sp dp payload),
)

-- The largest datagrams, of 65494 to 65507 bytes, are recorded with a frame length below 14.
pub frame_len_wraps :
    (payload : Bytes) → 65494 ≤ length payload → length payload ≤ 65507 → frame_len payload < 14
unfolding frame_len
frame_len_wraps payload h g = omega arith

-- A reader of the file: the frames of the records, by the lengths that their headers state.
abbrev pub read_len : Bytes → ℕ
read_len d = u32_from_le (byte d 8) (byte d 9) (byte d 10) (byte d 11)

pub read_frames : ℕ → Bytes → List Bytes
read_frames zero d = []
read_frames (suc n) d =
    take (read_len d) (drop 16 d) ∷ read_frames n (drop (read_len d) (drop 16 d))

read_len-header :
    (secs micros : ℕ) (payload more : Bytes)
    → read_len (record_header secs micros payload ++ more) ≡ frame_len payload
unfolding record_header frame_len
read_len-header secs micros payload more = omega arith

drop-header :
    (secs micros : ℕ) (payload more : Bytes)
    → drop 16 (record_header secs micros payload ++ more) ≡ more
unfolding record_header
drop-header secs micros payload more = refl

-- One datagram between IPv4 endpoints.
pub record Packet : Type 0 where
  pub secs : ℕ
  pub micros : ℕ
  pub src4 : Ipv4Addr
  pub src_port : ℕ
  pub dst4 : Ipv4Addr
  pub dst_port : ℕ
  pub payload : Bytes

abbrev pub frame_of : Packet → Bytes
frame_of p = frame p.src4 p.src_port p.dst4 p.dst_port p.payload

record_of : Packet → Bytes
record_of p = record_header p.secs p.micros p.payload ++ frame_of p

abbrev records : List Packet → Bytes
records [] = []
records (p ∷ ps) = record_of p ++ records ps

-- The writer over a sequence of datagrams that the file takes.
unfoldable pub append_all : PcapWriter → List Packet → PcapWriter
append_all w [] = w
append_all w (p ∷ ps) =
    append_all
      (append_udp w p.secs p.micros (record { ip = v4 p.src4; port = p.src_port })
        (record { ip = v4 p.dst4; port = p.dst_port }) p.payload true).0
      ps

file-append_all :
    (w : PcapWriter) (ps : List Packet)
    → ((append_all w ps).file ≡ w.file ++ records ps)
      × ((append_all w ps).count ≡ w.count + length ps)
unfolding append_all append_udp record_of
file-append_all w [] = (sym (append-nil w.file), omega arith)
file-append_all w (p ∷ ps) =
    let w' : PcapWriter = record { file = w.file ++ record_of p; count = w.count + 1 } in
    let (f, c) = file-append_all w' ps in
    (f ∙ append_assoc w.file (record_of p) (records ps), omega (arith, c))

read_frames-records :
    (ps : List Packet)
    → All (λ p. length p.payload ≤ 65493) ps
    → read_frames (length ps) (records ps) ≡ map frame_of ps
unfolding read_frames record_of
read_frames-records [] h = refl
read_frames-records (p ∷ ps) (h, hs) =
    let d = record_header p.secs p.micros p.payload in
    let more = frame_of p ++ records ps in
    let len : frame_len p.payload ≡ length (frame_of p) =
      (frame_len-exact p.src4 p.dst4 p.src_port p.dst_port p.payload).1 h in
    rw
      (
        append_assoc d (frame_of p) (records ps),
        read_len-header p.secs p.micros p.payload more,
        drop-header p.secs p.micros p.payload more,
        len,
      )
      (rw
        (
          take-append (frame_of p) (records ps),
          drop-append (frame_of p) (records ps),
          read_frames-records ps hs,
        )
        refl)

-- A capture of datagrams of at most 65493 bytes reads back: after the 24 bytes of the file header a
-- reader that trusts the stated lengths finds exactly the frames, and the count is their number.
pub read_frames-append_all :
    (ps : List Packet)
    → All (λ p. length p.payload ≤ 65493) ps
    → (read_frames (length ps) (drop 24 (append_all new ps).file) ≡ map frame_of ps)
      × ((append_all new ps).count ≡ length ps)
read_frames-append_all ps h =
    let (f, c) = file-append_all new ps in (rw f (read_frames-records ps h), c ∙ omega arith)

-- A datagram with an IPv6 endpoint leaves the file and the count alone.
pub append_udp-v6 :
    (w : PcapWriter) (secs micros port port' : ℕ) (b : Bytes) (other : IpAddr) (payload : Bytes)
    (written : Bool)
    → (append_udp w secs micros
          (record { ip = v6 b; port = port })
          (record { ip = other; port = port' })
          payload
          written
        ≡ (w, none))
      × (append_udp w secs micros
            (record { ip = other; port = port' })
            (record { ip = v6 b; port = port })
            payload
            written
          ≡ (w, none))
unfolding append_udp
append_udp-v6 w secs micros port port' b (v4 a) payload written = (refl, refl)
append_udp-v6 w secs micros port port' b (v6 c) payload written = (refl, refl)
