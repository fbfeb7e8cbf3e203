-- ===== src/Witnesses/Mdns.antt =====
-- mdns.rs: the theorems at one domain, one pointer and one set of addresses; arecont.rs: one packet.
use uscan.Prelude.{
  ◌+◌, ◌≤◌, ◌≡◌, ◌≢◌, inl, refl, true, false, not, List, [], ◌∷◌, ◌++◌, length, any, filter, codes,
  All, Text, Bytes, arith,
}
use uscan.Prelude.Results.{ok, err}
use uscan.Utf8.{as_bytes, encode_char, from_utf8_lossy}
use uscan.Addr.{ipv4, v4}
use uscan.Mdns.{out_of_fuel, MdnsAnswer, addr_v4, ptr, txt}
use uscan.Mdns.Names.{
  rd16, rd32, read_labels, is_pointer, read_name, split_dots, push_char, encode_name,
}
use uscan.Mdns.NameLaws.RoundTrip.{IsLabel, read_name-encode_name}
use uscan.Mdns.NameLaws.Bounds.{InPacket, read_name-InPacket}
use uscan.Mdns.Answers.{
  skip_questions, read_answers, read_record, read_fields, checked_rdata, read_rdata, parse_dns,
}
use uscan.Mdns.Parsing.{parse_dns_total}
use uscan.Mdns.Shape.{IsTyped, stated, parse_dns-IsTyped}
use uscan.Mdns.Queries.{build_query, idn_ascii, rounds, is_basic, basic_part}
use uscan.Mdns.Queries.ReadBack.{stop, build_query_question}
use uscan.Mdns.Queries.Ends.{punycode_ends}
use uscan.Mdns.Report.{is_v4, report_addresses}
use uscan.Mdns.Report.Choice.{ips, report_addresses_families}

tv-IsLabel : IsLabel (codes "tv")
unfolding as_bytes encode_char
tv-IsLabel = record {
  scalars = (inl (omega arith), (inl (omega arith), tt));
  not_empty = omega arith;
  short = omega arith;
}

local-IsLabel : IsLabel (codes "local")
unfolding as_bytes encode_char
local-IsLabel = record {
  scalars = (
    inl (omega arith),
    (inl (omega arith), (inl (omega arith), (inl (omega arith), (inl (omega arith), tt)))),
  );
  not_empty = omega arith;
  short = omega arith;
}

read_name-encode_name_example :
    read_name 16 ((1 ∷ 2 ∷ []) ++ (encode_name (codes "tv.local") ++ (9 ∷ []))) 2
    ≡ ok (codes "tv.local", 2 + length (encode_name (codes "tv.local")))
unfolding split_dots push_char
read_name-encode_name_example =
    read_name-encode_name 16 (codes "tv.local") (1 ∷ 2 ∷ []) (9 ∷ [])
      (tv-IsLabel, (local-IsLabel, tt))

-- The name `a` and a pointer to it.
abbrev pointed : Bytes
pointed = 1 ∷ 97 ∷ 0 ∷ 0xc0 ∷ 0 ∷ []

read_name-InPacket_example : InPacket pointed 3 (read_name 16 pointed 3)
read_name-InPacket_example = read_name-InPacket 16 pointed 3 (omega arith)

-- A response with one address of the name `a`.
abbrev response : Bytes
response =
    0 ∷ 0 ∷ 0x84 ∷ 0 ∷ 0 ∷ 0 ∷ 0 ∷ 1 ∷ 0 ∷ 0 ∷ 0 ∷ 0 ∷ 1 ∷ 97 ∷ 0 ∷ 0 ∷ 1 ∷ 0 ∷ 1 ∷ 0 ∷ 0 ∷ 0 ∷ 120
    ∷ 0 ∷ 4 ∷ 192 ∷ 168 ∷ 1 ∷ 9 ∷ []

abbrev answer : MdnsAnswer
answer = record { rrtype = 1; name = codes "a"; rdata = addr_v4 (v4 (ipv4 192 168 1 9)) }

parsed : parse_dns response ≡ ok (answer ∷ [])
unfolding parse_dns rd16 rd32 skip_questions read_answers read_record read_name read_labels
    is_pointer read_fields checked_rdata read_rdata from_utf8_lossy
parsed = refl

parse_dns_total_example : parse_dns response ≢ err out_of_fuel
parse_dns_total_example = parse_dns_total response

parse_dns-IsTyped_example : All IsTyped (answer ∷ []) × (1 ≤ stated response)
parse_dns-IsTyped_example = parse_dns-IsTyped response (answer ∷ []) parsed

ascii_name : All IsLabel (split_dots (idn_ascii (codes "TV.local")))
unfolding idn_ascii split_dots push_char
ascii_name = (tv-IsLabel, (local-IsLabel, tt))

build_query_question_example :
    (packet : Bytes) × (build_query (codes "TV.local") 12 ≡ ok packet)
    × (rd16 packet 4 ≡ ok (1, 6))
    × (rd16 packet 6 ≡ ok (0, 8))
    × (rd16 packet 8 ≡ ok (0, 10))
    × (rd16 packet 10 ≡ ok (0, 12))
    × (read_name 16 packet 12 ≡ ok (idn_ascii (codes "TV.local"), stop (codes "TV.local")))
    × (rd16 packet (stop (codes "TV.local")) ≡ ok (12, stop (codes "TV.local") + 2))
    × (rd16 packet (stop (codes "TV.local") + 2) ≡ ok (1, length packet))
build_query_question_example =
    build_query_question (codes "TV.local") 12 16 (omega arith) ascii_name

-- A text with one letter outside ASCII.
abbrev umlaut : Text
umlaut = 98 ∷ 0xfc ∷ 99 ∷ []

punycode_ends_example :
    3 ≤ (rounds 3 (length (filter is_basic umlaut)) umlaut 0x80 (basic_part umlaut)).h
punycode_ends_example =
    punycode_ends umlaut (inl (omega arith), (inl (omega arith), (inl (omega arith), tt)))

report_addresses_families_example :
    (any is_v4
        (ips (report_addresses (codes "Axis") 1 (v4 (ipv4 169 254 3 4) ∷ []) [] [] [] false true))
      ≡ true)
    × (any
          (λ a. not (is_v4 a))
          (ips (report_addresses (codes "Axis") 1 (v4 (ipv4 169 254 3 4) ∷ []) [] [] [] false true))
        ≡ false)
report_addresses_families_example =
    report_addresses_families (codes "Axis") 1 (v4 (ipv4 169 254 3 4) ∷ []) [] [] [] false true

abbrev arecont_answers : List MdnsAnswer
arecont_answers =
    record { rrtype = 12; name = []; rdata = ptr (codes "AV1-AV99.arec") }
    ∷ record { rrtype = 16; name = []; rdata = txt (codes "FW" ∷ []) }
    ∷ record { rrtype = 12; name = []; rdata = ptr (codes "other") }
    ∷ record { rrtype = 1; name = []; rdata = addr_v4 (v4 (ipv4 192 168 1 50)) }
    ∷ []
