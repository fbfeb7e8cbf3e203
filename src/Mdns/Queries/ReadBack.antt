-- ===== src/Mdns/Queries/ReadBack.antt =====
-- mdns.rs: the name and the type of a built query, read by the code's own reader.
use uscan.Prelude.{
  ℕ, suc, ◌+◌, ◌-◌, ◌/◌, ◌%◌, ◌*◌, ◌<◌, ◌≡◌, refl, sym, ap, ◌∙◌, false, [], ◌∷◌, ◌++◌, arith,
}
use uscan.Prelude.{
  ltb, length, length-append, byte, All, Bytes, Text, get_or-drop, drop, drop-append, drop-drop,
  length-drop, u16_to_be,
}
use uscan.Prelude.Results.{ok, ◌>>=◌}
use uscan.Mdns.Names.{rd16, read_name, split_dots, encode_name}
use uscan.Mdns.NameLaws.RoundTrip.{IsLabel, read_name-encode_name}
use uscan.Mdns.Answers.{skip_questions, read_answers, parse_dns}
use uscan.Mdns.Queries.{idn_ascii, build_query}

-- The packet that `build_query` builds.
abbrev header : Bytes
header = 0 ∷ 0 ∷ 0 ∷ 0 ∷ 0 ∷ 1 ∷ 0 ∷ 0 ∷ 0 ∷ 0 ∷ 0 ∷ 0 ∷ []

abbrev query : Text → ℕ → Bytes
query domain qtype = header ++ (encode_name (idn_ascii domain) ++ (u16_to_be qtype ++ u16_to_be 1))

build_query_lem : (domain : Text) (qtype : ℕ) → build_query domain qtype ≡ ok (query domain qtype)
unfolding build_query
build_query_lem domain qtype = refl

-- Two bytes at a position.
rd16-drop :
    (d : Bytes) (p a b : ℕ) (rest : Bytes)
    → drop p d ≡ a ∷ (b ∷ rest)
    → rd16 d p ≡ ok (a * 256 + b, p + 2)
unfolding rd16
rd16-drop d p a b rest h =
    let e : p + 0 ≡ p = omega arith in
    let first : byte d p ≡ a = (rw e at (sym (get_or-drop p d 0 0))) ∙ ap (λ t. byte t 0) h in
    let second : byte d (p + 1) ≡ b = sym (get_or-drop p d 1 0) ∙ ap (λ t. byte t 1) h in
    let n : length d - p ≡ suc (suc (length rest)) = sym (length-drop p d) ∙ ap length h in
    let fits : ltb (length d) (p + 2) ≡ false = ground arith in rw (fits, first, second) refl

-- The position behind the name of a query.
abbrev pub stop : Text → ℕ
stop domain = 12 + length (encode_name (idn_ascii domain))

module _ (domain : Text) (qtype : ℕ) (fits : qtype < 65536)
    (labels : All IsLabel (split_dots (idn_ascii domain))) where
  tail : drop (stop domain) (query domain qtype) ≡ u16_to_be qtype ++ u16_to_be 1
  tail =
      sym (drop-drop 12 (length (encode_name (idn_ascii domain))) (query domain qtype))
      ∙ drop-append (encode_name (idn_ascii domain)) (u16_to_be qtype ++ u16_to_be 1)

  name_back :
      (budget : ℕ) → read_name budget (query domain qtype) 12 ≡ ok (idn_ascii domain, (stop domain))
  name_back budget =
      read_name-encode_name budget (idn_ascii domain) header (u16_to_be qtype ++ u16_to_be 1) labels

  type_back : rd16 (query domain qtype) (stop domain) ≡ ok (qtype, (stop domain) + 2)
  type_back =
      let e : qtype / 256 * 256 + qtype % 256 ≡ qtype = omega arith in
      rd16-drop (query domain qtype) (stop domain) (qtype / 256) (qtype % 256) (u16_to_be 1) tail
      ∙ ap (λ (v : ℕ). ok (v, (stop domain) + 2)) e

  class_back : rd16 (query domain qtype) ((stop domain) + 2) ≡ ok (1, (stop domain) + 2 + 2)
  class_back =
      rd16-drop (query domain qtype) ((stop domain) + 2) 0 1 []
        (sym (drop-drop (stop domain) 2 (query domain qtype)) ∙ ap (drop 2) tail)

  size : length (query domain qtype) ≡ (stop domain) + 4
  size =
      omega (arith, length-append (encode_name (idn_ascii domain)) (u16_to_be qtype ++ u16_to_be 1))

  questions : skip_questions 1 (query domain qtype) 12 ≡ ok ((stop domain) + 2 + 2)
  unfolding skip_questions
  questions = rw (name_back 16, type_back, class_back) (ground (arith, size))

  parsed : parse_dns (query domain qtype) ≡ ok []
  unfolding parse_dns read_answers rd16
  parsed = ground (arith, questions, size)

  -- A built query is a packet that the parser takes, and it has no answers.
  pub parse_dns-build_query : (build_query domain qtype >>= parse_dns) ≡ ok []
  parse_dns-build_query = rw (build_query_lem domain qtype) parsed

-- `build_query` for a 16-bit type gives a packet, and the packet has one question, if the ASCII form of
-- the domain has DNS labels: the name in its ASCII form, the type, and the class 1 at the end of the
-- packet. It states no answers and no other records.
pub build_query_question :
    (domain : Text) (qtype budget : ℕ)
    → qtype < 65536
    → All IsLabel (split_dots (idn_ascii domain))
    → (packet : Bytes) × (build_query domain qtype ≡ ok packet)
      × (rd16 packet 4 ≡ ok (1, 6))
      × (rd16 packet 6 ≡ ok (0, 8))
      × (rd16 packet 8 ≡ ok (0, 10))
      × (rd16 packet 10 ≡ ok (0, 12))
      × (read_name budget packet 12 ≡ ok (idn_ascii domain, stop domain))
      × (rd16 packet (stop domain) ≡ ok (qtype, stop domain + 2))
      × (rd16 packet (stop domain + 2) ≡ ok (1, length packet))
build_query_question domain qtype budget fits labels =
    let q = query domain qtype in
    let e : stop domain + 2 + 2 ≡ length q = omega (arith, size domain qtype fits labels) in
    (
      q,
      build_query_lem domain qtype,
      rd16-drop q 4 0 1 (drop 6 q) refl,
      rd16-drop q 6 0 0 (drop 8 q) refl,
      rd16-drop q 8 0 0 (drop 10 q) refl,
      rd16-drop q 10 0 0 (drop 12 q) refl,
      name_back domain qtype fits labels budget,
      type_back domain qtype fits labels,
      class_back domain qtype fits labels ∙ ap (λ (v : ℕ). ok (1, v)) e,
    )
