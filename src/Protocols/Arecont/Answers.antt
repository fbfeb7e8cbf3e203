-- ===== src/Protocols/Arecont/Answers.antt =====
-- arecont.rs: what the answers of a packet contribute to the devices.
use uscan.Prelude.{List, [], ◌∷◌, ◌++◌, Option, none, some}
use uscan.Prelude.{Text}
use uscan.Addr.{IpAddr}
use uscan.Mdns.{MdnsData, addr_v4, addr_v6, ptr, txt, srv, MdnsAnswer}
use uscan.Protocols.Arecont.{Found, before_dot, add_entries}

-- The data of one kind, of one answer: its addresses, its name, its entries.
abbrev address_in : MdnsData → List IpAddr
address_in (addr_v4 ip) = ip ∷ []
address_in (addr_v6 ip) = ip ∷ []
address_in (ptr n) = []
address_in (txt es) = []
address_in (srv a b c n) = []

abbrev model_in : MdnsData → Option Text → Option Text
model_in (addr_v4 ip) m = m
model_in (addr_v6 ip) m = m
model_in (ptr n) m = some (before_dot n)
model_in (txt es) m = m
model_in (srv a b c n) m = m

abbrev entries_in : MdnsData → List Text
entries_in (addr_v4 ip) = []
entries_in (addr_v6 ip) = []
entries_in (ptr n) = []
entries_in (txt es) = es
entries_in (srv a b c n) = []

-- The addresses of a packet in their order, the name of its first PTR, its entries in their order.
abbrev pub addresses_of : List MdnsAnswer → List IpAddr
addresses_of [] = []
addresses_of (a ∷ rest) = address_in (a.rdata) ++ addresses_of rest

abbrev pub model_of : List MdnsAnswer → Option Text
model_of [] = none
model_of (a ∷ rest) = model_in (a.rdata) (model_of rest)

abbrev pub entries_of : List MdnsAnswer → List Text
entries_of [] = []
entries_of (a ∷ rest) = entries_in (a.rdata) ++ entries_of rest

abbrev or_first : Option Text → Option Text → Option Text
or_first (some m) other = some m
or_first none other = other

-- What was found before, with what the answers hold.
abbrev found_with : Found → List MdnsAnswer → Found
found_with f answers = record {
  addresses = f.addresses ++ addresses_of answers;
  model = or_first (f.model) (model_of answers);
  variables = add_entries (entries_of answers) (f.variables);
}
