-- ===== src/Provision/Sending.antt =====
-- tvt_provision.rs: the three attempts to send a packet.
use uscan.Prelude.{
  ℕ, zero, suc, ◌≡◌, ◌≢◌, ◌↔◌, refl, Bool, true, false, ◌||◌, Option, none, some, Option-cases,
  arith, inl, inr,
}
use uscan.Prelude.{◌==◌, if◌then◌else◌}
use uscan.Prelude.Results.{ok}
use uscan.Provision.{
  ProvisionError, short_send, SendResult, sent, failed, packet_size, attempt_error, send_loop,
  outcome, send_packet,
}

-- A whole packet went out.
abbrev pub is_sent : SendResult → Bool
is_sent (sent n) = n == packet_size
is_sent (failed e) = false

is_sent-attempt_error : (r : SendResult) → (is_sent r ≡ true) ↔ (attempt_error r ≡ none)
is_sent-attempt_error (sent n) = (λ h. ground (arith, h), λ h. ground (arith, h))
is_sent-attempt_error (failed e) = (λ h. ground (arith, h), λ h. ground (arith, h))

-- The number of the first of `left` attempts, from `i` on, that sends the packet, plus one; with
-- none, the number behind the last.
abbrev pub attempts : ℕ → (ℕ → SendResult) → ℕ → ℕ
attempts zero answer i = i
attempts (suc left) answer i = if is_sent (answer i) then suc i else attempts left answer (suc i)

abbrev pub some_sent : ℕ → (ℕ → SendResult) → ℕ → Bool
some_sent zero answer i = false
some_sent (suc left) answer i = is_sent (answer i) || some_sent left answer (suc i)

send_loop-attempts :
    (left : ℕ) (answer : ℕ → SendResult) (i : ℕ) (last : Option ProvisionError)
    → (send_loop left answer i last).1 ≡ attempts left answer i
unfolding send_loop
send_loop-attempts zero answer i last = refl
send_loop-attempts (suc left) answer i last = elim (Option-cases (attempt_error (answer i))) [
  | inl whole ↦ ground (arith, whole, is_sent-attempt_error (answer i))
  | inr (e, bad) ↦ ground (
    arith,
    bad,
    is_sent-attempt_error (answer i),
    send_loop-attempts left answer (suc i) (some e),
  )
]

send_loop-sent :
    (left : ℕ) (answer : ℕ → SendResult) (i : ℕ) (last : Option ProvisionError)
    → last ≢ none
    → ((send_loop left answer i last).0 ≡ none) ↔ (some_sent left answer i ≡ true)
unfolding send_loop
send_loop-sent zero answer i last h = (λ e. absurd (h e), λ e. ground (arith, e))
send_loop-sent (suc left) answer i last h = elim (Option-cases (attempt_error (answer i))) [
  | inl whole ↦ ground (arith, whole, is_sent-attempt_error (answer i))
  | inr (e, bad) ↦
      ground
        (arith, bad, is_sent-attempt_error (answer i), send_loop-sent left answer (suc i) (some e))
]

outcome-ok : (o : Option ProvisionError) → (outcome o ≡ ok tt) ↔ (o ≡ none)
outcome-ok none = (λ h. refl, λ h. refl)
outcome-ok (some e) = (λ h. ground (arith, h), λ h. ground (arith, h))

-- The sending succeeds exactly if one of three attempts sends the whole packet, and it stops with
-- the first that does: otherwise the packet was handed to the socket three times.
pub send_packet_lem :
    (answer : ℕ → SendResult)
    → (((send_packet answer).0 ≡ ok tt) ↔ (some_sent 3 answer 0 ≡ true))
      × ((send_packet answer).1 ≡ attempts 3 answer 0)
unfolding send_packet send_loop
send_packet_lem answer = (
  (
    λ e.
        (send_loop-sent 3 answer 0 (some short_send) (λ h. ground (arith, h))).0
          ((outcome-ok _).0 e),
    λ e.
        (outcome-ok _).1
          ((send_loop-sent 3 answer 0 (some short_send) (λ h. ground (arith, h))).1 e),
  ),
  send_loop-attempts 3 answer 0 none,
)
