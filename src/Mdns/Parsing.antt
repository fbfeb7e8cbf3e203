-- ===== src/Mdns/Parsing.antt =====
-- What holds of every packet that is parsed.
use uscan.Prelude.{ℕ, zero, suc, ◌+◌, ◌≢◌, Option, none, some, List, [], ◌∷◌, ◌++◌, inl, inr}
use uscan.Prelude.{leb, ltb, ◌==◌, Bool-cases, length, Bytes, Text}
use uscan.Prelude.Results.{Result, ok, err, ◌>>=◌}
use uscan.Mdns.{DnsError, out_of_fuel, MdnsAnswer}
use uscan.Mdns.Names.{rd16, rd32, read_name}
use uscan.Mdns.NameLaws.Bounds.{Ends, read_name-Ends}
use uscan.Mdns.Answers.{
  Fields, read_rdata, checked_rdata, read_fields, read_record, read_answers, skip_questions,
  parse_dns,
}

-- A result of the code, and not that the model ran out of fuel.
abbrev pub Ended : {A : Type 0} → Result DnsError A → Type 0
Ended (ok x) = Unit {0}
Ended (err e) = e ≢ out_of_fuel

Ended-bind :
    {A B : Type 0} (m : Result DnsError A) (f : A → Result DnsError B)
    → Ended m
    → ((x : A) → Ended (f x))
    → Ended (m >>= f)
Ended-bind (ok x) f h g = g x
Ended-bind (err e) f h g = h

rd16-Ended : (d : Bytes) (p : ℕ) → Ended (rd16 d p)
unfolding rd16
rd16-Ended d p = elim (Bool-cases (ltb (length d) (p + 2))) [
  | inl over ↦ rw over (λ e. cc)
  | inr fits ↦ rw fits tt
]

rd32-Ended : (d : Bytes) (p : ℕ) → Ended (rd32 d p)
unfolding rd32
rd32-Ended d p = elim (Bool-cases (ltb (length d) (p + 4))) [
  | inl over ↦ rw over (λ e. cc)
  | inr fits ↦ rw fits tt
]

name-Ended : (b : ℕ) (d : Bytes) (p : ℕ) → Ended (read_name b d p)
name-Ended b d p = go (read_name b d p) (read_name-Ends b d p)
  where
    go : (r : Result DnsError (Text × ℕ)) → Ends r → Ended r
    go (ok r) h = tt
    go (err e) h = h

ruleset ends = (rd16-Ended, rd32-Ended, name-Ended)

read_rdata-Ended : (d : Bytes) (pos rdlen rrtype : ℕ) → Ended (read_rdata d pos rdlen rrtype)
unfolding read_rdata
read_rdata-Ended d pos rdlen rrtype = elim (Bool-cases (rrtype == 1)) [
  | inl a ↦ rw a tt
  | inr a ↦ rw a (elim (Bool-cases (rrtype == 28)) [
    | inl b ↦ rw b tt
    | inr b ↦ rw b (elim (Bool-cases (rrtype == 12)) [
      | inl c ↦ rw c (Ended-bind (read_name 16 d pos) _ (name-Ended 16 d pos) (λ (n, q). tt))
      | inr c ↦ rw c (elim (Bool-cases (rrtype == 16)) [
        | inl e ↦ rw e tt
        | inr e ↦ rw e (elim (Bool-cases (rrtype == 33)) [ inl f ↦ rw f tt | inr f ↦ rw f tt ])
      ])
    ])
  ])
]

checked_rdata-Ended : (d : Bytes) (f : Fields) → Ended (checked_rdata d f)
unfolding checked_rdata
checked_rdata-Ended d f = elim (Bool-cases (ltb (length d) (f.pos + f.rdlen))) [
  | inl over ↦ rw over (λ e. cc)
  | inr fits ↦ rw fits (read_rdata-Ended d f.pos f.rdlen f.rrtype)
]

read_fields-Ended : (d : Bytes) (p : ℕ) → Ended (read_fields d p)
unfolding read_fields
read_fields-Ended d p = Ended-bind (rd16 d p) _ (rd16-Ended d p) λ (t, p1).
    Ended-bind (rd16 d p1) _ (rd16-Ended d p1) λ (c, p2).
      Ended-bind (rd32 d p2) _ (rd32-Ended d p2)
        λ (l, p3). Ended-bind (rd16 d p3) _ (rd16-Ended d p3) λ (n, p4). tt

read_record-Ended : (d : Bytes) (p : ℕ) → Ended (read_record d p)
unfolding read_record
read_record-Ended d p = Ended-bind (read_name 16 d p) _ (name-Ended 16 d p) λ (name, np).
    Ended-bind (read_fields d np) _ (read_fields-Ended d np)
      λ f. Ended-bind (checked_rdata d f) _ (checked_rdata-Ended d f) λ r. tt

read_answers-Ended :
    (total : ℕ) (d : Bytes) (p : ℕ) (answers : List MdnsAnswer)
    → Ended (read_answers total d p answers)
unfolding read_answers
read_answers-Ended zero d p answers = tt
read_answers-Ended (suc total) d p answers = elim (Bool-cases (leb (length d) p)) [
  | inl over ↦ rw over tt
  | inr inside ↦ rw inside (
      Ended-bind (read_record d p) _ (read_record-Ended d p)
        (next (λ q. read_answers-Ended total d q)))
]
  where
    next :
        ((q : ℕ) (xs : List MdnsAnswer) → Ended (read_answers total d q xs))
        → (found : Option (MdnsAnswer × ℕ))
        → Ended (elim found [
          | none ↦ ok answers
          | some (x, q) ↦ read_answers total d q (answers ++ (x ∷ []))
        ])
    next ih none = tt
    next ih (some (x, q)) = ih q (answers ++ (x ∷ []))

skip_questions-Ended : (qd : ℕ) (d : Bytes) (p : ℕ) → Ended (skip_questions qd d p)
unfolding skip_questions
skip_questions-Ended zero d p = tt
skip_questions-Ended (suc qd) d p = elim (Bool-cases (leb (length d) p)) [
  | inl over ↦ rw over (λ e. cc)
  | inr inside ↦ rw inside (
      Ended-bind (read_name 16 d p) _ (name-Ended 16 d p) λ (n, np).
        Ended-bind (rd16 d np) _ (rd16-Ended d np) λ (t, p1).
          Ended-bind (rd16 d p1) _ (rd16-Ended d p1) λ (c, p2). skip_questions-Ended qd d p2)
]

parse_dns-Ended : (d : Bytes) → Ended (parse_dns d)
unfolding parse_dns
parse_dns-Ended d = elim (Bool-cases (leb (length d) 12)) [
  | inl over ↦ rw over (λ e. cc)
  | inr inside ↦ rw inside (
      Ended-bind (rd16 d 4) _ (rd16-Ended d 4) λ (qd, h1).
        Ended-bind (rd16 d h1) _ (rd16-Ended d h1) λ (an, h2).
          Ended-bind (rd16 d h2) _ (rd16-Ended d h2) λ (ns, h3).
            Ended-bind (rd16 d h3) _ (rd16-Ended d h3) λ (ar, h4).
              Ended-bind (skip_questions qd d 12) _ (skip_questions-Ended qd d 12)
                λ pos. read_answers-Ended (an + ns + ar) d pos [])
]

-- Parsing any bytes ends: in a list of answers or in one of the errors of the code.
pub parse_dns_total : (d : Bytes) → parse_dns d ≢ err out_of_fuel
parse_dns_total d e = go (parse_dns d) (parse_dns-Ended d) e
  where
    go : (r : Result DnsError (List MdnsAnswer)) → Ended r → r ≢ err out_of_fuel
    go (ok x) h g = cc
    go (err x) h g = h (cc)
