-- ===== src/Provision/Layout.antt =====
-- tvt_provision.rs: the bytes of the packet, and the password in the dump.
use uscan.Prelude.{
  ℕ, ◌+◌, ◌-◌, ◌≤◌, ◌≡◌, refl, sym, ap, ◌∙◌, Bool, true, false, ◌&&◌, [], ◌∷◌, arith,
}
use uscan.Prelude.{
  ltb, leb, if◌then◌else◌, length, length-write, byte, byte-write, write, replicate,
  get_or-extensional, Bytes, Text, u32_to_le,
}
use uscan.Prelude.Results.{ok}
use uscan.Utf8.{as_bytes}
use uscan.Protocols.Tvt.{magic, off_mac, off_ip, off_mask, off_gateway}
use uscan.Provision.{
  SetIpRequest, packet_size, password_capacity, off_password, off_dhcp, octets, version_of,
  head_part, build_set_ip_request, masked, hex_dump,
}

length-head_part : (req : SetIpRequest) → length req.mac ≡ 6 → length (head_part req) ≡ packet_size
unfolding head_part
length-head_part req six =
    let p0 = write (replicate packet_size 0) 0 magic in
    let p1 = write p0 4 (u32_to_le (version_of req)) in
    let p2 = write p1 8 (3 ∷ []) in
    let p3 = write p2 off_mac (req.mac) in
    let p4 = write p3 off_ip (octets req.new_ip) in
    let p5 = write p4 off_mask (octets req.subnet_mask) in
    let n3 : length p3 ≡ packet_size = length-write p2 (req.mac) off_mac (omega (arith, six)) in
    let n4 : length p4 ≡ packet_size =
      length-write p3 (octets req.new_ip) off_ip (omega (arith, n3)) ∙ n3 in
    let n5 : length p5 ≡ packet_size =
      length-write p4 (octets req.subnet_mask) off_mask (omega (arith, n4)) ∙ n4 in
    length-write p5 (octets req.gateway) off_gateway (omega (arith, n5)) ∙ n5

-- Values that agree where the test fails.
if-else : (b : Bool) (y z w : ℕ) → (b ≡ false → z ≡ w) → (if b then y else z) ≡ (if b then y else w)
if-else true y z w h = refl
if-else false y z w h = h refl

-- A range that is longer at its end holds every position of the shorter one.
outside :
    (j low n m : ℕ)
    → n ≤ m
    → (leb low j && ltb j (low + m)) ≡ false
    → (leb low j && ltb j (low + n)) ≡ false
outside j low n m h e = ground arith

module _ (encode : Bytes → Bytes) (req : SetIpRequest) (p : Bytes) (six : length req.mac ≡ 6)
    (built : build_set_ip_request encode req ≡ ok p) where
  encoded : Bytes
  encoded = encode (as_bytes req.password)

  switch : ℕ
  switch = if req.dhcp then 1 else 0

  fits : length (encode (as_bytes req.password)) ≤ password_capacity
  unfolding build_set_ip_request
  fits = ground (arith, built)

  packet :
      p
      ≡ write
          (write (head_part req) off_password (encode (as_bytes req.password)))
          off_dhcp
          ((if req.dhcp then 1 else 0) ∷ [])
  unfolding build_set_ip_request
  packet = ground (arith, built)

  with_password :
      length (write (head_part req) off_password (encode (as_bytes req.password))) ≡ packet_size
  with_password =
      length-write (head_part req) (encode (as_bytes req.password)) off_password
        (omega (arith, length-head_part req six, fits))
      ∙ length-head_part req six

  pub length-build : length p ≡ packet_size
  length-build =
      ap length packet
      ∙ length-write _ ((if req.dhcp then 1 else 0) ∷ []) off_dhcp (omega (arith, with_password))
      ∙ with_password

  pub byte-build :
      (j : ℕ)
      → byte p j ≡ (
          if leb off_dhcp j && ltb j (off_dhcp + 1)
          then byte ((if req.dhcp then 1 else 0) ∷ []) (j - off_dhcp)
          else if leb off_password j
              && ltb j (off_password + length (encode (as_bytes req.password)))
          then byte (encode (as_bytes req.password)) (j - off_password)
          else byte (head_part req) j)
  byte-build j =
      ap (λ t. byte t j) packet
      ∙ byte-write _ ((if req.dhcp then 1 else 0) ∷ []) off_dhcp j (omega (arith, with_password))
      ∙ rw
          (byte-write (head_part req) (encode (as_bytes req.password)) off_password j
            (omega (arith, length-head_part req six, fits)))
          refl

  -- The copy that is dumped.
  pub byte-masked :
      (j : ℕ)
      → byte (masked p) j ≡ (
          if leb off_password j && ltb j (off_password + 28)
          then byte (replicate password_capacity 0) (j - off_password)
          else if leb off_dhcp j && ltb j (off_dhcp + 1)
          then byte ((if req.dhcp then 1 else 0) ∷ []) (j - off_dhcp)
          else byte (head_part req) j)
  unfolding masked
  byte-masked j =
      byte-write p (replicate password_capacity 0) off_password j (omega (arith, length-build))
      ∙ if-else _ (byte (replicate password_capacity 0) (j - off_password)) (byte p j)
          (if leb off_dhcp j && ltb j (off_dhcp + 1)
            then byte ((if req.dhcp then 1 else 0) ∷ []) (j - off_dhcp)
            else byte (head_part req) j)
          λ out.
            byte-build j
            ∙ rw (outside j off_password (length (encode (as_bytes req.password))) 28 fits out) refl

length-masked : (p : Bytes) → length p ≡ packet_size → length (masked p) ≡ packet_size
unfolding masked
length-masked p n =
    length-write p (replicate password_capacity 0) off_password (omega (arith, n)) ∙ n

-- The dump of a packet tells nothing of the password: two requests with a MAC of six bytes that
-- differ only in the password have the same dump, if both can be built, whatever the encoder.
pub hex_dump-build :
    (encode : Bytes → Bytes) (req : SetIpRequest) (one two : Text) (p q : Bytes)
    → length req.mac ≡ 6
    → build_set_ip_request encode (record req { password = one }) ≡ ok p
    → build_set_ip_request encode (record req { password = two }) ≡ ok q
    → hex_dump p ≡ hex_dump q
unfolding hex_dump head_part
hex_dump-build encode req one two p q six built built' =
    let a : SetIpRequest = record req { password = one } in
    let b : SetIpRequest = record req { password = two } in
    let np : length p ≡ packet_size = length-build encode a p six built in
    let nq : length q ≡ packet_size = length-build encode b q six built' in
    let same : masked p ≡ masked q =
      get_or-extensional 0 (masked p) (masked q) (length-masked p np ∙ sym (length-masked q nq))
        (λ j. byte-masked encode a p six built j ∙ sym (byte-masked encode b q six built' j)) in
    rw (np, nq, same) refl
