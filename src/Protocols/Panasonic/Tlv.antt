-- ===== src/Protocols/Panasonic/Tlv.antt =====
-- protocols/panasonic.rs: the parser against a writer of TLVs.
use uscan.Prelude.{
  ℕ, zero, suc, ◌+◌, ◌-◌, ◌/◌, ◌%◌, ◌≤◌, ◌<◌, ◌≡◌, refl, sym, ap, ◌∙◌, true, false, List, [], ◌∷◌,
  ◌++◌, Option, none, some, arith, inl, inr,
}
use uscan.Prelude.{
  ltb, leb, ◌==◌, if◌then◌else◌, Bool-cases, Option-cases, length, length-append, length-drop, byte,
  slice, drop, get_or-drop, drop-drop, take-append, drop-append, All, Bytes, u16_from_be,
}
use uscan.Protocols.Panasonic.{Tlvs, get, push, read_tlvs, or_bytes, report, parse}

pub record Tlv : Type 0 where
  pub key : ℕ
  pub value : Bytes

-- A key and a length of two bytes.
pub record IsTlv (t : Tlv) : Type 0 where
  pub word : t.key < 65536
  pub short : length t.value < 65536

abbrev pub encode_all : List Tlv → Bytes → Bytes
encode_all [] tail = tail
encode_all (t ∷ ts) tail =
    t.key / 256
    ∷ (t.key % 256
        ∷ (length t.value / 256 ∷ (length t.value % 256 ∷ (t.value ++ encode_all ts tail))))

abbrev pub pushed : List Tlv → Tlvs → Tlvs
pushed [] found = found
pushed (t ∷ ts) found = pushed ts (push t.key t.value found)

-- The value of the first TLV with the key.
abbrev pub first_value : ℕ → List Tlv → Option Bytes
first_value k [] = none
first_value k (t ∷ ts) = if t.key == k then some t.value else first_value k ts

get-append :
    (k j : ℕ) (v : Bytes) (m : Tlvs)
    → get k (m ++ ((j, v) ∷ [])) ≡ or_bytes (get k m) (if j == k then some v else none)
unfolding get
get-append k j v [] = ground arith
get-append k j v ((i, w) ∷ m) = ground (arith, get-append k j v m)

get-push :
    (k j : ℕ) (v : Bytes) (m : Tlvs)
    → get k (push j v m) ≡ or_bytes (get k m) (if j == k then some v else none)
unfolding push
get-push k j v m = elim (Option-cases (get j m)) [
  | inl absent ↦ rw (absent, push) (get-append k j v m)
  | inr (w, there) ↦
      rw (there, push)
        (elim (Bool-cases (j == k)) [
          | inl same ↦
              let e : j ≡ k = ground arith in
              let there' : get k m ≡ some w = ap (λ i. get i m) (sym e) ∙ there in
              rw (same, there') refl
          | inr other ↦ elim (Option-cases (get k m)) [
            | inl nothing ↦ rw (other, nothing) refl
            | inr (u, found) ↦ rw (other, found) refl
          ]
        ])
]

or_bytes_assoc : (x y z : Option Bytes) → or_bytes (or_bytes x y) z ≡ or_bytes x (or_bytes y z)
or_bytes_assoc none y z = refl
or_bytes_assoc (some x) y z = refl

get-pushed :
    (k : ℕ) (ts : List Tlv) (m : Tlvs) → get k (pushed ts m) ≡ or_bytes (get k m) (first_value k ts)
get-pushed k [] m = elim (Option-cases (get k m)) [
  | inl nothing ↦ rw nothing refl
  | inr (u, found) ↦ rw found refl
]
get-pushed k (t ∷ ts) m =
    get-pushed k ts (push t.key t.value m)
    ∙ ap (λ x. or_bytes x (first_value k ts)) (get-push k t.key t.value m)
    ∙ or_bytes_assoc (get k m) (if t.key == k then some t.value else none) (first_value k ts)
    ∙ ap (or_bytes (get k m))
        (elim (Bool-cases (t.key == k)) [ inl same ↦ rw same refl | inr other ↦ rw other refl ])

module _ (d : Bytes) (i : ℕ) (t : Tlv) (more : Bytes) (ok : IsTlv t)
    (here : drop i d
      ≡ t.key / 256
        ∷ (t.key % 256 ∷ (length t.value / 256 ∷ (length t.value % 256 ∷ (t.value ++ more))))) where
  at :
      (j : ℕ)
      → byte d (i + j)
        ≡ byte
            (t.key / 256
              ∷ (t.key % 256 ∷ (length t.value / 256 ∷ (length t.value % 256 ∷ (t.value ++ more)))))
            j
  at j = sym (get_or-drop i d j 0) ∙ ap (λ l. byte l j) here

  first : byte d i ≡ t.key / 256
  first = let e : i + 0 ≡ i = omega arith in rw e at (at 0)

  key_here : u16_from_be (byte d i) (byte d (i + 1)) ≡ t.key
  key_here = let w = ok.word in rw (first, at 1) (omega arith)

  size_here : u16_from_be (byte d (i + 2)) (byte d (i + 3)) ≡ length t.value
  size_here = let w = ok.short in rw (at 2, at 3) (omega arith)

  behind : drop (i + 4) d ≡ t.value ++ more
  behind = sym (drop-drop i 4 d) ∙ ap (drop 4) here

  value_here : slice d (i + 4) (length t.value) ≡ t.value
  value_here = rw behind (take-append t.value more)

  next : drop (i + 4 + length t.value) d ≡ more
  next = sym (drop-drop (i + 4) (length t.value) d) ∙ rw behind (drop-append t.value more)

  total : length d ≡ i + 4 + length t.value + length more
  total = omega (arith, ap length here, length-append t.value more, length-drop i d)

  -- One round takes the TLV, if something follows it.
  round :
      (fuel : ℕ) (found : Tlvs)
      → 0 < length more
      → read_tlvs (suc fuel) d i found
        ≡ read_tlvs fuel d (i + 4 + length t.value) (push t.key t.value found)
  unfolding read_tlvs
  round fuel found follows =
      let n : length d ≡ i + 4 + length t.value + length more = total in
      let c1 : ltb i (length d - 4) ≡ true = ground arith in
      let c2 : leb (length d) (i + 4 + length t.value) ≡ false = ground arith in
      rw (key_here, size_here, value_here, c1, c2) refl

stop :
    (fuel : ℕ) (d : Bytes) (i : ℕ) (found : Tlvs)
    → length d ≤ i + 4
    → read_tlvs fuel d i found ≡ found
unfolding read_tlvs
stop zero d i found h = refl
stop (suc fuel) d i found h = let c : ltb i (length d - 4) ≡ false = ground arith in rw c refl

length-encode_all : (ts : List Tlv) (tail : Bytes) → length tail ≤ length (encode_all ts tail)
length-encode_all [] tail = omega arith
length-encode_all (t ∷ ts) tail =
    omega (arith, length-encode_all ts tail, length-append t.value (encode_all ts tail))

read_tlvs-encode_all :
    (ts : List Tlv) (fuel : ℕ) (d : Bytes) (i : ℕ) (tail : Bytes) (found : Tlvs)
    → All IsTlv ts
    → 0 < length tail
    → length tail ≤ 4
    → drop i d ≡ encode_all ts tail
    → length d ≤ i + fuel
    → read_tlvs fuel d i found ≡ pushed ts found
read_tlvs-encode_all [] fuel d i tail found oks some_tail short here h =
    stop fuel d i found (omega (arith, ap length here, length-drop i d))
read_tlvs-encode_all (t ∷ ts) zero d i tail found (ok, oks) some_tail short here h =
    absurd (omega (arith, ap length here, length-drop i d))
read_tlvs-encode_all (t ∷ ts) (suc fuel) d i tail found (ok, oks) some_tail short here h =
    round d i t (encode_all ts tail) ok here fuel found (omega (arith, length-encode_all ts tail))
    ∙ read_tlvs-encode_all ts fuel d (i + 4 + length t.value) tail (push t.key t.value found) oks
        some_tail short (next d i t (encode_all ts tail) ok here) (omega arith)

-- An answer of a header of 53 bytes, of TLVs, and of one to four bytes behind them is read as the TLVs: a
-- device is reported from the MAC in the header and from the first value of each key.
pub parse-encode_all_tail :
    (head tail : Bytes) (ts : List Tlv)
    → length head ≡ 53
    → All IsTlv ts
    → 0 < length tail
    → length tail ≤ 4
    → (found : Tlvs) × (parse (head ++ encode_all ts tail)
        ≡ report (slice (head ++ encode_all ts tail) 6 6) found)
      × ((k : ℕ) → get k found ≡ first_value k ts)
unfolding parse get
parse-encode_all_tail head tail ts long oks some_tail short =
    let d = head ++ encode_all ts tail in
    let n : length d ≡ 53 + length (encode_all ts tail) =
      omega (arith, long, length-append head (encode_all ts tail)) in
    let c : leb (length d) 52 ≡ false = ground arith in
    let here : drop 53 d ≡ encode_all ts tail =
      ap (λ m. drop m d) (sym long) ∙ drop-append head (encode_all ts tail) in
    (
      pushed ts [],
      rw c (
          ap (report (slice d 6 6)) (
            read_tlvs-encode_all ts (length d) d 53 tail [] oks some_tail short here
              (omega arith))),
      λ k. get-pushed k ts [],
    )
