-- ===== src/Protocols/Ubiquiti/Tlv.antt =====
-- ubiquiti.rs: the parser against a writer of TLVs.
use uscan.Prelude.{
  ℕ, zero, suc, ◌+◌, ◌-◌, ◌*◌, ◌/◌, ◌%◌, ◌≤◌, ◌<◌, ◌≡◌, refl, sym, ap, ◌∙◌, true, false, List, [],
  ◌∷◌, ◌++◌, none, some, arith,
}
use uscan.Prelude.{
  ltb, leb, ◌==◌, length, length-append, length-drop, byte, slice, drop, get_or-drop, drop-drop,
  take-append, drop-append, All, Bytes, u16_from_le, u16_to_be,
}
use uscan.Addr.{IpAddr}
use uscan.Protocols.Ubiquiti.{Found, take_value, read_tlvs, report, parse}

pub record Tlv : Type 0 where
  pub vtype : ℕ
  pub value : Bytes

-- A type that is not 0 and a value that is neither empty nor longer than its length byte can say.
pub record IsTlv (t : Tlv) : Type 0 where
  pub not_null : 0 < t.vtype
  pub word : t.vtype < 65536
  pub not_empty : 0 < length t.value
  pub short : length t.value < 256

abbrev pub encode_all : List Tlv → Bytes
encode_all [] = []
encode_all (t ∷ ts) =
    t.vtype % 256 ∷ (t.vtype / 256 ∷ (length t.value ∷ (t.value ++ encode_all ts)))

abbrev pub take_all : List Tlv → Found → Found
take_all [] f = f
take_all (t ∷ ts) f = take_all ts (take_value t.vtype t.value f)

module _ (d : Bytes) (pos : ℕ) (t : Tlv) (more : Bytes) (ok : IsTlv t)
    (here : drop pos d
      ≡ t.vtype % 256 ∷ (t.vtype / 256 ∷ (length t.value ∷ (t.value ++ more)))) where
  at :
      (i : ℕ)
      → byte d (pos + i)
        ≡ byte (t.vtype % 256 ∷ (t.vtype / 256 ∷ (length t.value ∷ (t.value ++ more)))) i
  at i = sym (get_or-drop pos d i 0) ∙ ap (λ l. byte l i) here

  first : byte d pos ≡ t.vtype % 256
  first = let e : pos + 0 ≡ pos = omega arith in rw e at (at 0)

  type_here : u16_from_le (byte d pos) (byte d (pos + 1)) ≡ t.vtype
  type_here = rw (first, at 1) (omega arith)

  behind : drop (pos + 3) d ≡ t.value ++ more
  behind = sym (drop-drop pos 3 d) ∙ ap (drop 3) here

  value_here : slice d (pos + 3) (length t.value) ≡ t.value
  value_here = rw behind (take-append t.value more)

  next : drop (pos + 3 + length t.value) d ≡ more
  next = sym (drop-drop (pos + 3) (length t.value) d) ∙ rw behind (drop-append t.value more)

  total : length d ≡ pos + 3 + length t.value + length more
  total = omega (arith, ap length here, length-append t.value more, length-drop pos d)

  -- One round takes the TLV.
  round :
      (fuel : ℕ) (f : Found)
      → read_tlvs (suc fuel) d pos f
        ≡ read_tlvs fuel d (pos + 3 + length t.value) (take_value t.vtype t.value f)
  unfolding read_tlvs
  round fuel f =
      let n : length d ≡ pos + 3 + length t.value + length more = total in
      let some_value = ok.not_empty in
      let not_null = ok.not_null in
      let c1 : leb (length d) pos ≡ false = ground arith in
      let c2 : leb (length d) (pos + 3) ≡ false = ground arith in
      let c3 : ltb (length d) (pos + 3 + length t.value) ≡ false = ground arith in
      let c4 : (t.vtype == 0) ≡ false = ground arith in
      rw (type_here, at 2, value_here, c1, c2, c3, c4) refl

stop :
    (fuel : ℕ) (d : Bytes) (pos : ℕ) (f : Found) → length d ≤ pos → read_tlvs fuel d pos f ≡ some f
unfolding read_tlvs
stop zero d pos f h = refl
stop (suc fuel) d pos f h = let c : leb (length d) pos ≡ true = ground arith in rw c refl

read_tlvs-encode_all :
    (ts : List Tlv) (fuel : ℕ) (d : Bytes) (pos : ℕ) (f : Found)
    → All IsTlv ts
    → drop pos d ≡ encode_all ts
    → length d ≤ pos + fuel
    → read_tlvs fuel d pos f ≡ some (take_all ts f)
read_tlvs-encode_all [] fuel d pos f oks here h =
    stop fuel d pos f (omega (arith, ap length here, length-drop pos d))
read_tlvs-encode_all (t ∷ ts) zero d pos f (ok, oks) here h =
    absurd (omega (arith, ap length here, length-drop pos d))
read_tlvs-encode_all (t ∷ ts) (suc fuel) d pos f (ok, oks) here h =
    round d pos t (encode_all ts) ok here fuel f
    ∙ read_tlvs-encode_all ts fuel d (pos + 3 + length t.value) (take_value t.vtype t.value f) oks
        (next d pos t (encode_all ts) ok here) (omega arith)

-- A packet that is written from TLVs of types from 1 to 65535 with values of 1 to 255 bytes, which
-- take less than 65536 bytes together, with any two first bytes and the right size behind them, is read
-- as the TLVs in their order: the device is the one that their values give, or none without a MAC.
pub parse-encode_all :
    (from : IpAddr) (a b : ℕ) (ts : List Tlv)
    → All IsTlv ts
    → length (encode_all ts) < 65536
    → parse from (a ∷ (b ∷ (u16_to_be (length (encode_all ts)) ++ encode_all ts)))
      ≡ report from (some (take_all ts (record { mac = none; ip = none; model = none })))
unfolding parse
parse-encode_all from a b ts oks fits =
    let d = a ∷ (b ∷ (u16_to_be (length (encode_all ts)) ++ encode_all ts)) in
    let start : Found = record { mac = none; ip = none; model = none } in
    let size : (length (encode_all ts) / 256 * 256 + length (encode_all ts) % 256 == length d - 4)
        ≡ true =
      ground arith in
    let long : ltb (length d) 4 ≡ false = ground arith in
    rw (long, size)
      (ap (report from) (read_tlvs-encode_all ts (length d) d 4 start oks refl (omega arith)))
