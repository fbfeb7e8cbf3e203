-- ===== src/Mdns/NameLaws/RoundTrip.antt =====
-- A name that is written reads back, wherever it stands in a packet.
use uscan.Prelude.{
  ℕ, zero, suc, ◌+◌, ◌/◌, ◌%◌, ◌<◌, ◌≡◌, refl, sym, ap, ◌∙◌, true, false, List, [], ◌∷◌, ◌++◌,
  arith, inl, inr,
}
use uscan.Prelude.{
  leb, ◌==◌, Bool-cases, length, length-append, byte, slice, drop, Bytes, Text, All, append_assoc,
  append-nil,
}
use uscan.Prelude.{get_or-drop, drop-drop, length-drop, take-append, drop-append}
use uscan.Prelude.Bits.{bit_and_prefix}
use uscan.Prelude.Results.{Result, ok, err}
use uscan.Utf8.{from_utf8_lossy, as_bytes, IsScalar}
use uscan.Utf8.RoundTrip.{from_utf8_lossy-as_bytes}
use uscan.Mdns.{DnsError, max_redirects}
use uscan.Mdns.Names.{
  dotted, is_pointer, read_labels, read_name, push_char, split_dots, encode_labels, encode_name,
}

-- The two high bits of a byte.
pub is_pointer_lem : (len : ℕ) → len < 256 → is_pointer len ≡ leb 192 len
unfolding is_pointer
is_pointer_lem len h = ground (arith, bit_and_prefix 6 2 (len / 64) (len % 64))

-- A label that DNS allows: not empty, at most 63 bytes long.
pub record IsLabel (l : Text) : Type 0 where
  pub scalars : All IsScalar l
  pub not_empty : 0 < length (as_bytes l)
  pub short : length (as_bytes l) < 64

-- The name that a reader builds from labels, after `name`.
abbrev name_from : Text → List Text → Text
name_from name [] = name
name_from name (l ∷ ls) = name_from (dotted name ++ l) ls

-- A label at the position `p`, with the facts that one round of the loop asks for.
module _ (d : Bytes) (p : ℕ) (l : Text) (more : Bytes) (label : IsLabel l)
    (here : drop p d ≡ length (as_bytes l) ∷ (as_bytes l ++ more)) where
  size : length (as_bytes l) < 64
  size = label.short

  behind : drop (p + 1) d ≡ as_bytes l ++ more
  behind = sym (drop-drop p 1 d) ∙ ap (drop 1) here

  first : byte d p ≡ length (as_bytes l)
  first =
      let e : p + 0 ≡ p = omega arith in
      (rw e at (sym (get_or-drop p d 0 0))) ∙ ap (λ t. byte t 0) here

  text : from_utf8_lossy (slice d (p + 1) (length (as_bytes l))) ≡ l
  text = rw (behind, take-append (as_bytes l) more) (from_utf8_lossy-as_bytes l label.scalars)

  next : drop (p + 1 + length (as_bytes l)) d ≡ more
  next = sym (drop-drop (p + 1) (length (as_bytes l)) d) ∙ rw behind (drop-append (as_bytes l) more)

  total : length d ≡ p + 1 + length (as_bytes l) + length more
  total = omega (arith, ap length here, length-append (as_bytes l) more, length-drop p d)

  -- One round of the loop takes the label.
  round :
      (follow : ℕ → Result DnsError (Text × ℕ)) (fuel : ℕ) (name : Text)
      → read_labels follow (suc fuel) d p name
        ≡ read_labels follow fuel d (p + 1 + length (as_bytes l)) (dotted name ++ l)
  unfolding read_labels
  round follow fuel name =
      let s = label.short in
      let n = label.not_empty in
      let over : leb (length d) p ≡ false = ground (arith, total) in
      let last : (length (as_bytes l) == 0) ≡ false = ground arith in
      let plain : is_pointer (length (as_bytes l)) ≡ false =
        is_pointer_lem (length (as_bytes l)) (omega arith) ∙ ground arith in
      let fits : leb (p + 1 + length (as_bytes l)) (length d) ≡ true = ground (arith, total) in
      rw (first, over, last, plain, fits, text) refl

-- The final zero byte ends the name.
final_round :
    (follow : ℕ → Result DnsError (Text × ℕ)) (fuel : ℕ) (d : Bytes) (p : ℕ) (name : Text)
    (more : Bytes)
    → drop p d ≡ 0 ∷ more
    → read_labels follow (suc fuel) d p name ≡ ok (name, p + 1)
unfolding read_labels
final_round follow fuel d p name more here =
    let e : p + 0 ≡ p = omega arith in
    let first : byte d p ≡ 0 = (rw e at (sym (get_or-drop p d 0 0))) ∙ ap (λ t. byte t 0) here in
    let over : leb (length d) p ≡ false = ground (arith, ap length here, length-drop p d) in
    rw (over, first) refl

read_labels-encode_labels :
    (follow : ℕ → Result DnsError (Text × ℕ)) (ls : List Text) (fuel : ℕ) (d : Bytes) (p : ℕ)
    (name : Text) (more : Bytes)
    → All IsLabel ls
    → drop p d ≡ encode_labels ls ++ more
    → length d < p + fuel
    → read_labels follow fuel d p name ≡ ok (name_from name ls, p + length (encode_labels ls))
unfolding encode_labels
read_labels-encode_labels follow [] zero d p name more h here enough =
    absurd (omega (arith, ap length here, length-drop p d))
read_labels-encode_labels follow (l ∷ ls) zero d p name more h here enough =
    absurd (omega (arith, ap length here, length-drop p d))
read_labels-encode_labels follow [] (suc fuel) d p name more h here enough =
    final_round follow fuel d p name more here
read_labels-encode_labels follow (l ∷ ls) (suc fuel) d p name more (h, hs) here enough =
    let small = h.short in
    let cut : length (as_bytes l) % 256 ≡ length (as_bytes l) = omega arith in
    let tail = encode_labels ls ++ more in
    let here' : drop p d ≡ length (as_bytes l) ∷ (as_bytes l ++ tail) =
      here ∙ rw (cut, append_assoc (as_bytes l) (encode_labels ls) more) refl in
    let there = next d p l tail h here' in
    round d p l tail h here' follow fuel name
    ∙ read_labels-encode_labels follow ls fuel d (p + 1 + length (as_bytes l)) (dotted name ++ l)
        more hs there (omega arith)
    ∙ ap (λ (q : ℕ). ok (name_from (dotted name ++ l) ls, q))
        (omega (arith, length-append (as_bytes l) (encode_labels ls)))

-- The labels with dots between them.
abbrev dots : List Text → Text
dots [] = []
dots (l ∷ ls) = 46 ∷ (l ++ dots ls)

abbrev joined : List Text → Text
joined [] = []
joined (l ∷ ls) = l ++ dots ls

joined-push_char : (c : ℕ) (ls : List Text) → joined (push_char c ls) ≡ c ∷ joined ls
unfolding push_char
joined-push_char c [] = refl
joined-push_char c (l ∷ ls) = refl

dots-split_dots : (s : Text) → dots (split_dots s) ≡ 46 ∷ joined (split_dots s)
unfolding split_dots
dots-split_dots [] = refl
dots-split_dots (c ∷ s) = elim (Bool-cases (c == 46)) [
  | inl dot ↦ rw dot refl
  | inr other ↦ rw other (dots-push_char c (split_dots s))
]
  where
    dots-push_char : (c : ℕ) (ls : List Text) → dots (push_char c ls) ≡ 46 ∷ joined (push_char c ls)
    dots-push_char c [] = refl
    dots-push_char c (l ∷ ls) = refl

joined-split_dots : (s : Text) → joined (split_dots s) ≡ s
unfolding split_dots
joined-split_dots [] = refl
joined-split_dots (c ∷ s) = elim (Bool-cases (c == 46)) [
  | inl dot ↦ rw dot (
      dots-split_dots s
      ∙ ap (λ t. 46 ∷ t) (joined-split_dots s)
      ∙ ap (λ (k : ℕ). k ∷ s) (ground arith))
  | inr other ↦ rw other (joined-push_char c (split_dots s) ∙ ap (λ t. c ∷ t) (joined-split_dots s))
]

name_from-dots :
    (c : ℕ) (name : Text) (ls : List Text) → name_from (c ∷ name) ls ≡ (c ∷ name) ++ dots ls
name_from-dots c name [] = sym (append-nil (c ∷ name))
name_from-dots c name (l ∷ ls) =
    name_from-dots c ((name ++ (46 ∷ [])) ++ l) ls
    ∙ ap (λ t. c ∷ t)
        (append_assoc (name ++ (46 ∷ [])) l (dots ls) ∙ append_assoc name (46 ∷ []) (l ++ dots ls))

name_from-joined : (ls : List Text) → All IsLabel ls → name_from [] ls ≡ joined ls
name_from-joined [] h = refl
name_from-joined ([] ∷ ls) (h, hs) = absurd (
    let e : length (as_bytes []) ≡ 0 = (unfold as_bytes in refl) in
    let n = h.not_empty in omega arith)
name_from-joined ((c ∷ l) ∷ ls) h = name_from-dots c l ls

read_back :
    (follow : ℕ → Result DnsError (Text × ℕ)) (domain : Text) (before after : Bytes)
    → All IsLabel (split_dots domain)
    → read_labels follow
        (suc (length (before ++ (encode_name domain ++ after))))
        (before ++ (encode_name domain ++ after))
        (length before)
        []
      ≡ ok (domain, length before + length (encode_name domain))
unfolding encode_name
read_back follow domain before after h =
    let d = before ++ (encode_name domain ++ after) in
    read_labels-encode_labels follow (split_dots domain) (suc (length d)) d (length before) [] after
      h (drop-append before (encode_name domain ++ after)) (omega arith)
    ∙ ap (λ (t : Text). ok (t, length before + length (encode_name domain)))
        (name_from-joined (split_dots domain) h ∙ joined-split_dots domain)

-- A domain of DNS labels, each of 1 to 63 bytes, written at any place of any packet, reads back
-- with any budget, and the position after it is the end of what was written.
pub read_name-encode_name :
    (budget : ℕ) (domain : Text) (before after : Bytes)
    → All IsLabel (split_dots domain)
    → read_name budget (before ++ (encode_name domain ++ after)) (length before)
      ≡ ok (domain, length before + length (encode_name domain))
unfolding read_name encode_name
read_name-encode_name zero domain before after h =
    read_back (λ t. err max_redirects) domain before after h
read_name-encode_name (suc zero) domain before after h =
    read_back (λ t. err max_redirects) domain before after h
read_name-encode_name (suc (suc budget)) domain before after h =
    read_back (λ t. read_name (suc budget) (before ++ (encode_name domain ++ after)) t) domain
      before after h
