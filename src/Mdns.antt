-- ===== src/Mdns.antt =====
-- universal-scanner/src/mdns.rs: DNS names, queries and answers, and the broker that hands them on.
-- `out_of_fuel` is no error of the code: the loops below recur on a count, and it says that the
-- count ran out.
pub mod Names
pub mod NameLaws
pub mod Answers
pub mod Parsing
pub mod Queries
pub mod Broker
pub mod Report
pub mod Shape
use uscan.Prelude.{ℕ, List, Text}
use uscan.Addr.{IpAddr}

-- The messages of `Error::Dns`.
pub data DnsError : Type 0 where
  u16_overflow u32_overflow name_overflow ptr_overflow ptr_out_of_bounds max_redirects : DnsError
  label_overflow packet_too_short question_overflow rdata_out_of_bounds : DnsError
  out_of_fuel : DnsError

pub data MdnsData : Type 0 where
  addr_v4 : IpAddr → MdnsData
  addr_v6 : IpAddr → MdnsData
  ptr : Text → MdnsData
  txt : List Text → MdnsData
  srv : ℕ → ℕ → ℕ → Text → MdnsData

pub record MdnsAnswer : Type 0 where
  pub rrtype : ℕ
  pub name : Text
  pub rdata : MdnsData
