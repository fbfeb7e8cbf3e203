-- ===== src/Mdns/NameLaws/Bounds.antt =====
-- Every read of a name ends, behind its first byte and inside the packet.
use uscan.Prelude.{ℕ, zero, suc, ◌+◌, ◌≤◌, ◌<◌, ◌≢◌, [], ◌++◌, arith, inl, inr}
use uscan.Prelude.{leb, ◌==◌, Bool-cases, length, byte, slice, Bytes, Text}
use uscan.Prelude.Results.{Result, ok, err, ◌>>=◌}
use uscan.Utf8.{from_utf8_lossy}
use uscan.Mdns.{DnsError, max_redirects, out_of_fuel}
use uscan.Mdns.Names.{dotted, is_pointer, pointer_target, at_pointer, read_labels, read_name}

-- The result of a read at `p`: a position behind `p` in the packet, or an error of the code.
abbrev pub InPacket : Bytes → ℕ → Result DnsError (Text × ℕ) → Type 0
InPacket d p (ok (name, q)) = (p < q) × (q ≤ length d)
InPacket d p (err e) = e ≢ out_of_fuel

abbrev pub Ends : Result DnsError (Text × ℕ) → Type 0
Ends (ok r) = Unit {0}
Ends (err e) = e ≢ out_of_fuel

at_pointer-InPacket :
    (follow : ℕ → Result DnsError (Text × ℕ)) (d : Bytes) (len p : ℕ) (name : Text)
    → ((t : ℕ) → Ends (follow t))
    → InPacket d p (at_pointer follow d len p name)
unfolding at_pointer
at_pointer-InPacket follow d len p name ends = elim (Bool-cases (leb (length d) p)) [
  | inl over ↦ rw over (λ e. cc)
  | inr inside ↦ rw inside (elim (Bool-cases (leb (length d) (pointer_target len (byte d p)))) [
    | inl out ↦ rw out (λ e. cc)
    | inr fits ↦ rw fits (bound (follow (pointer_target len (byte d p))) (ends _) (ground arith))
  ])
]
  where
    bound :
        (r : Result DnsError (Text × ℕ))
        → Ends r
        → p < length d
        → InPacket d p (r >>= λ (rest, _). ok (name ++ rest, p + 1))
    bound (ok (n, q)) h g = omega arith
    bound (err e) h g = h

-- What is behind a later position is behind `p`.
later :
    (d : Bytes) (p q : ℕ) (r : Result DnsError (Text × ℕ)) → p ≤ q → InPacket d q r → InPacket d p r
later d p q (ok (n, s)) h g = omega arith
later d p q (err e) h g = g

read_labels-InPacket :
    (follow : ℕ → Result DnsError (Text × ℕ)) (fuel : ℕ) (d : Bytes) (p : ℕ) (name : Text)
    → ((t : ℕ) → Ends (follow t))
    → length d < p + fuel
    → p ≤ length d
    → InPacket d p (read_labels follow fuel d p name)
unfolding read_labels
read_labels-InPacket follow zero d p name ends h g = absurd (omega arith)
read_labels-InPacket follow (suc fuel) d p name ends h g = elim (Bool-cases (leb (length d) p)) [
  | inl over ↦ rw over (λ e. cc)
  | inr inside ↦ rw inside (elim (Bool-cases (byte d p == 0)) [
    | inl last ↦ rw last (ground arith)
    | inr label ↦ rw label (elim (Bool-cases (is_pointer (byte d p))) [
      | inl pointer ↦ rw pointer (
          later d p (p + 1) (at_pointer follow d (byte d p) (p + 1) (dotted name)) (omega arith)
            (at_pointer-InPacket follow d (byte d p) (p + 1) (dotted name) ends))
      | inr plain ↦ rw plain (elim (Bool-cases (leb (p + 1 + byte d p) (length d))) [
        | inl fits ↦ rw fits (
            later d p (p + 1 + byte d p)
              (read_labels follow fuel d (p + 1 + byte d p)
                (dotted name ++ from_utf8_lossy (slice d (p + 1) (byte d p))))
              (omega arith)
              (read_labels-InPacket follow fuel d (p + 1 + byte d p)
                (dotted name ++ from_utf8_lossy (slice d (p + 1) (byte d p))) ends (omega arith)
                (ground arith)))
        | inr long ↦ rw long (λ e. cc)
      ])
    ])
  ])
]

InPacket→Ends : (d : Bytes) (p : ℕ) (r : Result DnsError (Text × ℕ)) → InPacket d p r → Ends r
InPacket→Ends d p (ok r) h = tt
InPacket→Ends d p (err e) h = h

-- A pointer target is tested before it is followed; past the end the read fails at once.
read_labels-Ends :
    (follow : ℕ → Result DnsError (Text × ℕ)) (d : Bytes) (p : ℕ)
    → ((t : ℕ) → Ends (follow t))
    → Ends (read_labels follow (suc (length d)) d p [])
read_labels-Ends follow d p ends = elim (Bool-cases (leb (length d) p)) [
  | inl over ↦ unfold read_labels in rw over (λ e. cc)
  | inr inside ↦
      InPacket→Ends d p _
        (read_labels-InPacket follow (suc (length d)) d p [] ends (omega arith) (ground arith))
]

pub read_name-Ends : (budget : ℕ) (d : Bytes) (p : ℕ) → Ends (read_name budget d p)
unfolding read_name
read_name-Ends zero d p = read_labels-Ends (λ t. err max_redirects) d p (λ t e. cc)
read_name-Ends (suc zero) d p = read_labels-Ends (λ t. err max_redirects) d p (λ t e. cc)
read_name-Ends (suc (suc budget)) d p =
    read_labels-Ends (λ t. read_name (suc budget) d t) d p (λ t. read_name-Ends (suc budget) d t)

-- Reading a name in a packet ends, with any budget and any bytes: either with the error that the
-- code names or with a position behind the first byte of the name and inside the packet.
pub read_name-InPacket :
    (budget : ℕ) (d : Bytes) (p : ℕ) → p ≤ length d → InPacket d p (read_name budget d p)
unfolding read_name
read_name-InPacket zero d p h =
    read_labels-InPacket (λ t. err max_redirects) (suc (length d)) d p [] (λ t e. cc) (omega arith)
      h
read_name-InPacket (suc zero) d p h =
    read_labels-InPacket (λ t. err max_redirects) (suc (length d)) d p [] (λ t e. cc) (omega arith)
      h
read_name-InPacket (suc (suc budget)) d p h =
    read_labels-InPacket (λ t. read_name (suc budget) d t) (suc (length d)) d p []
      (λ t. read_name-Ends (suc budget) d t) (omega arith) h
