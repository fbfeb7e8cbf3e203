-- ===== src/Mdns/Broker.antt =====
-- mdns.rs: the table of registered domains and what a received packet calls.
use uscan.Prelude.{◌≡◌, refl, List, [], ◌∷◌, ◌++◌, Option, none, some, arith}
use uscan.Prelude.{Bytes, Text, All, =t=_refl}
use uscan.Prelude.Maps.{Assoc, lookup, insert, lookup-insert}
use uscan.Prelude.Results.{ok, err}
use uscan.Mdns.{DnsError, MdnsAnswer}
use uscan.Mdns.Answers.{parse_dns}

-- What a packet leads to: a warning in the log, nothing, or a call of a handler with a name and all
-- the answers.
pub data Reaction (Handler : Type 0) : Type 0 where
  warned : DnsError → Reaction Handler
  idle : Reaction Handler
  called : Handler → Text → List MdnsAnswer → Reaction Handler

abbrev pub MdnsBroker : Type 0 → Type 0
MdnsBroker Handler = Assoc Handler

module _ {Handler : Type 0} where
  unfoldable pub register_domain : Text → Handler → MdnsBroker Handler → MdnsBroker Handler
  register_domain filter handler handlers = insert filter handler handlers

  -- The first answer whose name is registered, with the handler.
  unfoldable pub find_trigger : MdnsBroker Handler → List MdnsAnswer → Option (MdnsAnswer × Handler)
  find_trigger handlers [] = none
  find_trigger handlers (a ∷ rest) = elim (lookup (a.name) handlers) [
    | some h ↦ some (a, h)
    | none ↦ find_trigger handlers rest
  ]

  unfoldable pub dispatch : MdnsBroker Handler → List MdnsAnswer → Reaction Handler
  dispatch handlers answers = elim (find_trigger handlers answers) [
    | some (a, h) ↦ called h (a.name) answers
    | none ↦ idle
  ]

  unfoldable pub on_packet : MdnsBroker Handler → Bytes → Reaction Handler
  on_packet handlers d = elim (parse_dns d) [
    | err e ↦ warned e
    | ok answers ↦ dispatch handlers answers
  ]

  -- No handler stands for the name of the answer.
  abbrev pub Unknown : MdnsBroker Handler → MdnsAnswer → Type 0
  Unknown handlers a = lookup (a.name) handlers ≡ none

  find_trigger-first :
      (handlers : MdnsBroker Handler) (before after : List MdnsAnswer) (a : MdnsAnswer)
      (h : Handler)
      → All (Unknown handlers) before
      → lookup (a.name) handlers ≡ some h
      → find_trigger handlers (before ++ (a ∷ after)) ≡ some (a, h)
  unfolding find_trigger
  find_trigger-first handlers [] after a h us e = ground (arith, e)
  find_trigger-first handlers (b ∷ before) after a h (u, us) e =
      ground (arith, u, find_trigger-first handlers before after a h us e)

  find_trigger-none :
      (handlers : MdnsBroker Handler) (answers : List MdnsAnswer)
      → All (Unknown handlers) answers
      → find_trigger handlers answers ≡ none
  unfolding find_trigger
  find_trigger-none handlers [] us = refl
  find_trigger-none handlers (b ∷ rest) (u, us) =
      ground (arith, u, find_trigger-none handlers rest us)

  -- In a packet that parses, the first answer whose name is registered calls its handler, once,
  -- with its name and with every answer of the packet, those before it included.
  pub on_packet_first :
      (handlers : MdnsBroker Handler) (d : Bytes) (before after : List MdnsAnswer) (a : MdnsAnswer)
      (h : Handler)
      → parse_dns d ≡ ok (before ++ (a ∷ after))
      → All (Unknown handlers) before
      → lookup (a.name) handlers ≡ some h
      → on_packet handlers d ≡ called h (a.name) (before ++ (a ∷ after))
  unfolding on_packet dispatch
  on_packet_first handlers d before after a h p us e =
      ground (arith, p, find_trigger-first handlers before after a h us e)

  -- Without an answer of a registered name a packet calls nothing.
  pub on_packet_idle :
      (handlers : MdnsBroker Handler) (d : Bytes) (answers : List MdnsAnswer)
      → parse_dns d ≡ ok answers
      → All (Unknown handlers) answers
      → on_packet handlers d ≡ idle
  unfolding on_packet dispatch
  on_packet_idle handlers d answers p us = ground (arith, p, find_trigger-none handlers answers us)

  -- A domain that is registered again has the later handler; a packet whose first answer has that
  -- name calls it, whatever was registered before.
  pub on_packet-register_domain :
      (handlers : MdnsBroker Handler) (d : Bytes) (after : List MdnsAnswer) (a : MdnsAnswer)
      (h : Handler)
      → parse_dns d ≡ ok (a ∷ after)
      → on_packet (register_domain (a.name) h handlers) d ≡ called h (a.name) (a ∷ after)
  unfolding register_domain
  on_packet-register_domain handlers d after a h p =
      on_packet_first (insert (a.name) h handlers) d [] after a h p tt
        (rw (lookup-insert (a.name) (a.name) h handlers, =t=_refl (a.name)) refl)
