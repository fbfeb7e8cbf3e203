-- ===== src/Mdns/Shape.antt =====
-- What an accepted packet holds: how many answers, and data that fit the record types.
use uscan.Prelude.{
  ℕ, zero, suc, ◌+◌, ◌≤◌, ◌<◌, ◌≡◌, refl, Option, none, some, List, [], ◌∷◌, ◌++◌, arith, inl, inr,
}
use uscan.Prelude.{
  leb, ltb, ◌==◌, ==_iff, Bool-cases, length, length-append, byte, Bytes, Text, All, All-append,
  u16_from_be,
}
use mathlib.Core.Path.{subst}
use uscan.Prelude.Results.{Result, ok, err, ◌>>=◌, ok_injective}
use uscan.Mdns.{DnsError, MdnsData, addr_v4, addr_v6, ptr, txt, srv, MdnsAnswer}
use uscan.Mdns.Names.{rd16, read_name}
use uscan.Mdns.Answers.{
  Rdata, known, unknown, Fields, read_rdata, parse_srv, checked_rdata, answer_of, read_fields,
  read_record, read_answers, skip_questions, parse_dns,
}

-- The record type and the form of the data belong together.
abbrev pub HasType : ℕ → MdnsData → Type 0
HasType rrtype (addr_v4 ip) = rrtype ≡ 1
HasType rrtype (addr_v6 ip) = rrtype ≡ 28
HasType rrtype (ptr n) = rrtype ≡ 12
HasType rrtype (txt ss) = rrtype ≡ 16
HasType rrtype (srv a b c t) = rrtype ≡ 33

abbrev pub IsTyped : MdnsAnswer → Type 0
IsTyped x = HasType x.rrtype x.rdata

-- A property of the value, if there is one.
abbrev Holds : {A : Type 0} → (A → Type 0) → Result DnsError A → Type 0
Holds P (ok x) = P x
Holds P (err e) = Unit {0}

Holds-bind :
    {A B : Type 0} (Q : B → Type 0) (m : Result DnsError A) (f : A → Result DnsError B)
    → ((x : A) → m ≡ ok x → Holds Q (f x))
    → Holds Q (m >>= f)
Holds-bind Q (ok x) f g = g x refl
Holds-bind Q (err e) f g = tt

abbrev FitsType : ℕ → Rdata → Type 0
FitsType rrtype (known x) = HasType rrtype x
FitsType rrtype unknown = Unit {0}

parse_srv-HasType :
    (d : Bytes) (pos rdlen rrtype : ℕ) → rrtype ≡ 33 → HasType rrtype (parse_srv d pos rdlen)
unfolding parse_srv
parse_srv-HasType d pos rdlen rrtype h = elim (Bool-cases (ltb rdlen 6)) [
  | inl short ↦ rw short h
  | inr full ↦ rw full h
]

read_rdata-FitsType :
    (d : Bytes) (pos rdlen rrtype : ℕ) → Holds (FitsType rrtype) (read_rdata d pos rdlen rrtype)
unfolding read_rdata
read_rdata-FitsType d pos rdlen rrtype = elim (Bool-cases (rrtype == 1)) [
  | inl a ↦ rw a ((==_iff rrtype 1).0 a)
  | inr a ↦ rw a (elim (Bool-cases (rrtype == 28)) [
    | inl b ↦ rw b ((==_iff rrtype 28).0 b)
    | inr b ↦ rw b (elim (Bool-cases (rrtype == 12)) [
      | inl c ↦
          rw c (
            Holds-bind (FitsType rrtype) (read_name 16 d pos) _
              (λ (n, q) e. (==_iff rrtype 12).0 c))
      | inr c ↦ rw c (elim (Bool-cases (rrtype == 16)) [
        | inl e ↦ rw e ((==_iff rrtype 16).0 e)
        | inr e ↦ rw e (elim (Bool-cases (rrtype == 33)) [
          | inl f ↦ rw f (parse_srv-HasType d pos rdlen rrtype ((==_iff rrtype 33).0 f))
          | inr f ↦ rw f tt
        ])
      ])
    ])
  ])
]

checked_rdata-FitsType : (d : Bytes) (f : Fields) → Holds (FitsType f.rrtype) (checked_rdata d f)
unfolding checked_rdata
checked_rdata-FitsType d f = elim (Bool-cases (ltb (length d) (f.pos + f.rdlen))) [
  | inl over ↦ rw over tt
  | inr fits ↦ rw fits (read_rdata-FitsType d f.pos f.rdlen f.rrtype)
]

abbrev FoundTyped : Option (MdnsAnswer × ℕ) → Type 0
FoundTyped none = Unit {0}
FoundTyped (some (x, q)) = IsTyped x

read_record-IsTyped : (d : Bytes) (p : ℕ) → Holds FoundTyped (read_record d p)
unfolding read_record
read_record-IsTyped d p = Holds-bind FoundTyped (read_name 16 d p) _ λ (name, np) e.
    Holds-bind FoundTyped (read_fields d np) _ λ f g.
      Holds-bind FoundTyped (checked_rdata d f) _
        λ r h. go name f r (checked_rdata d f) (checked_rdata-FitsType d f) h
  where
    go :
        (name : Text) (f : Fields) (r : Rdata) (m : Result DnsError Rdata)
        → Holds (FitsType f.rrtype) m
        → m ≡ ok r
        → FoundTyped (answer_of name f r)
    go name f unknown m h e = tt
    go name f (known x) (ok y) h e = subst (FitsType f.rrtype) (ok_injective e) h
    go name f (known x) (err y) h e = absurd (cc)

-- The answers so far are typed, and with those still to come they are at most `bound`.
abbrev Bounded : ℕ → List MdnsAnswer → Type 0
Bounded bound answers = All IsTyped answers × (length answers ≤ bound)

read_answers-Bounded :
    (total bound : ℕ) (d : Bytes) (p : ℕ) (answers : List MdnsAnswer)
    → All IsTyped answers
    → length answers + total ≤ bound
    → Holds (Bounded bound) (read_answers total d p answers)
unfolding read_answers
read_answers-Bounded zero bound d p answers h g = (h, omega arith)
read_answers-Bounded (suc total) bound d p answers h g = elim (Bool-cases (leb (length d) p)) [
  | inl over ↦ rw over (h, omega arith)
  | inr inside ↦ rw inside (
      Holds-bind (Bounded bound) (read_record d p) _ λ found e.
        next
          (λ q x t.
            read_answers-Bounded total bound d q (answers ++ (x ∷ []))
              (All-append IsTyped answers (x ∷ []) h (t, tt))
              (omega (arith, length-append answers (x ∷ []))))
          found (read_record d p) (read_record-IsTyped d p) e)
]
  where
    next :
        ((q : ℕ) (x : MdnsAnswer)
          → IsTyped x
          → Holds (Bounded bound) (read_answers total d q (answers ++ (x ∷ []))))
        → (found : Option (MdnsAnswer × ℕ)) (m : Result DnsError (Option (MdnsAnswer × ℕ)))
        → Holds FoundTyped m
        → m ≡ ok found
        → Holds (Bounded bound) (elim found [
          | none ↦ ok answers
          | some (x, q) ↦ read_answers total d q (answers ++ (x ∷ []))
        ])
    next ih none m t e = (h, omega arith)
    next ih (some (x, q)) (ok y) t e = ih q x (subst FoundTyped (ok_injective e) t)
    next ih (some (x, q)) (err y) t e = absurd (cc)

rd16-inside :
    (d : Bytes) (p : ℕ)
    → p + 2 ≤ length d
    → rd16 d p ≡ ok (u16_from_be (byte d p) (byte d (p + 1)), p + 2)
unfolding rd16
rd16-inside d p h = ground arith

-- The sum of the three counts of the header.
abbrev pub stated : Bytes → ℕ
stated d =
    u16_from_be (byte d 6) (byte d 7)
    + u16_from_be (byte d 8) (byte d 9)
    + u16_from_be (byte d 10) (byte d 11)

parse_dns-Bounded : (d : Bytes) → Holds (Bounded (stated d)) (parse_dns d)
unfolding parse_dns
parse_dns-Bounded d = elim (Bool-cases (leb (length d) 12)) [
  | inl over ↦ rw over tt
  | inr inside ↦
      let h : 12 < length d = ground arith in
      rw
        (
          inside,
          rd16-inside d 4 (omega arith),
          rd16-inside d 6 (omega arith),
          rd16-inside d 8 (omega arith),
          rd16-inside d 10 (omega arith),
        )
        (Holds-bind (Bounded (stated d)) (skip_questions (u16_from_be (byte d 4) (byte d 5)) d 12) _
          λ pos e. read_answers-Bounded (stated d) (stated d) d pos [] tt (omega arith))
]

-- A packet that is accepted yields at most as many answers as its header states for the answer,
-- authority and additional sections together, and the data of each fits its record type.
pub parse_dns-IsTyped :
    (d : Bytes) (answers : List MdnsAnswer)
    → parse_dns d ≡ ok answers
    → All IsTyped answers × (length answers ≤ stated d)
parse_dns-IsTyped d answers e = go (parse_dns d) (parse_dns-Bounded d) e
  where
    go :
        (r : Result DnsError (List MdnsAnswer))
        → Holds (Bounded (stated d)) r
        → r ≡ ok answers
        → Bounded (stated d) answers
    go (ok xs) h g = subst (Bounded (stated d)) (ok_injective g) h
    go (err x) h g = absurd (cc)
