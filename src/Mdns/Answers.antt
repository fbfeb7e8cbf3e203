-- ===== src/Mdns/Answers.antt =====
-- mdns.rs: the data of an answer, and the packet with its questions and answers.
use uscan.Prelude.{ℕ, zero, suc, ◌+◌, ◌-◌, List, [], ◌∷◌, ◌++◌, ◌&&◌, Option, none, some}
use uscan.Prelude.{
  leb, ltb, ◌==◌, if◌then◌else◌, length, byte, slice, replicate, Bytes, Text, u16_from_be,
}
use uscan.Prelude.Results.{Result, ok, err, ◌>>=◌}
use uscan.Addr.{v4, v6, ipv4}
use uscan.Mdns.{DnsError, packet_too_short, question_overflow, rdata_out_of_bounds}
use uscan.Mdns.{MdnsData, addr_v4, addr_v6, ptr, txt, srv, MdnsAnswer}
use uscan.Mdns.Names.{rd16, rd32, read_name}

-- The inner loop of `parse_txt`: at most `len` characters while `remaining` and the packet last. It
-- returns the text, the position and what remains.
unfoldable pub txt_chars : ℕ → ℕ → Bytes → ℕ → Text × ℕ × ℕ
txt_chars zero remaining d pos = ([], pos, remaining)
txt_chars (suc len) remaining d pos =
    let (s, q, left) = txt_chars len (remaining - 1) d (pos + 1) in
    if ltb 0 remaining && ltb pos (length d)
    then (byte d pos ∷ s, q, left)
    else ([], pos, remaining)

-- `parse_txt`; each round takes the byte of a length, so the fuel `rdlen` is enough.
unfoldable pub txt_strings : ℕ → ℕ → Bytes → ℕ → List Text
unfolding txt_chars
txt_strings zero remaining d pos = []
txt_strings (suc fuel) remaining d pos =
    let (s, q, left) = txt_chars (byte d pos) (remaining - 1) d (pos + 1) in
    let rest = txt_strings fuel left d q in
    if ltb 1 remaining && ltb (pos + 1) (length d) then s ∷ rest else []

unfoldable pub parse_txt : Bytes → ℕ → ℕ → List Text
unfolding txt_strings
parse_txt d pos rdlen = txt_strings rdlen rdlen d pos

-- `map(|(n, _)| n).unwrap_or_default()`
abbrev pub name_or_empty : Result DnsError (Text × ℕ) → Text
name_or_empty (ok (n, _)) = n
name_or_empty (err e) = []

unfoldable pub parse_srv : Bytes → ℕ → ℕ → MdnsData
parse_srv d pos rdlen =
    if ltb rdlen 6
    then srv 0 0 0 []
    else srv (u16_from_be (byte d pos) (byte d (pos + 1)))
        (u16_from_be (byte d (pos + 2)) (byte d (pos + 3)))
        (u16_from_be (byte d (pos + 4)) (byte d (pos + 5)))
        (name_or_empty (read_name 16 d (pos + 6)))

-- The match on the record type; `none` is the type that ends the packet.
pub data Rdata : Type 0 where
  known : MdnsData → Rdata
  unknown : Rdata

unfoldable pub read_rdata : Bytes → ℕ → ℕ → ℕ → Result DnsError Rdata
read_rdata d pos rdlen rrtype =
    if rrtype == 1
    then ok (
        known (
          addr_v4 (
            v4 (
              if rdlen == 4
              then ipv4 (byte d pos) (byte d (pos + 1)) (byte d (pos + 2)) (byte d (pos + 3))
              else ipv4 0 0 0 0))))
    else if rrtype == 28
    then ok (known (addr_v6 (v6 (if rdlen == 16 then slice d pos 16 else replicate 16 0))))
    else if rrtype == 12
    then (do (n, _) ← read_name 16 d pos; ok (known (ptr n)))
    else if rrtype == 16
    then ok (known (txt (parse_txt d pos rdlen)))
    else if rrtype == 33
    then ok (known (parse_srv d pos rdlen))
    else ok unknown

-- The loop over the questions.
unfoldable pub skip_questions : ℕ → Bytes → ℕ → Result DnsError ℕ
skip_questions zero d pos = ok pos
skip_questions (suc qd) d pos = if leb (length d) pos then err question_overflow else (do
  (_, np) ← read_name 16 d pos
  (_, p1) ← rd16 d np
  (_, p2) ← rd16 d p1
  skip_questions qd d p2)

-- The fixed fields behind the name of a record: its type, the length of its data, and the position.
pub record Fields : Type 0 where
  pub rrtype : ℕ
  pub rdlen : ℕ
  pub pos : ℕ

unfoldable pub read_fields : Bytes → ℕ → Result DnsError Fields
read_fields d pos = do
  (rrtype, p1) ← rd16 d pos
  (_, p2) ← rd16 d p1
  (_, p3) ← rd32 d p2
  (rdlen, p4) ← rd16 d p3
  ok (record { rrtype = rrtype; rdlen = rdlen; pos = p4 })

-- The data of a record, once they are known to lie in the packet.
unfoldable pub checked_rdata : Bytes → Fields → Result DnsError Rdata
checked_rdata d f =
    if ltb (length d) (f.pos + f.rdlen)
    then err rdata_out_of_bounds
    else read_rdata d f.pos f.rdlen f.rrtype

abbrev pub answer_of : Text → Fields → Rdata → Option (MdnsAnswer × ℕ)
answer_of name f unknown = none
answer_of name f (known x) =
    some (record { rrtype = f.rrtype; name = name; rdata = x }, f.pos + f.rdlen)

-- One round of the loop over the answers: the answer and the position behind it, or nothing for a
-- type that is not known.
unfoldable pub read_record : Bytes → ℕ → Result DnsError (Option (MdnsAnswer × ℕ))
read_record d pos = do
  (name, np) ← read_name 16 d pos
  f ← read_fields d np
  r ← checked_rdata d f
  ok (answer_of name f r)

-- The loop over the answers, with those found so far; an unknown type returns them at once.
unfoldable pub read_answers : ℕ → Bytes → ℕ → List MdnsAnswer → Result DnsError (List MdnsAnswer)
read_answers zero d pos answers = ok answers
read_answers (suc total) d pos answers = if leb (length d) pos then ok answers else (do
  found ← read_record d pos
  elim found [
    | none ↦ ok answers
    | some (x, next) ↦ read_answers total d next (answers ++ (x ∷ []))
  ])

unfoldable pub parse_dns : Bytes → Result DnsError (List MdnsAnswer)
parse_dns d = if leb (length d) 12 then err packet_too_short else (do
  (qd, h1) ← rd16 d 4
  (an, h2) ← rd16 d h1
  (ns, h3) ← rd16 d h2
  (ar, h4) ← rd16 d h3
  pos ← skip_questions qd d 12
  read_answers (an + ns + ar) d pos [])
