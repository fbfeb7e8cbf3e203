-- ===== src/Witnesses/Parsers.antt =====
-- The parsers and the sweeps: the theorems at one text of pairs, one mDNS packet, one answer and two
-- sweeps.
use uscan.Prelude.{◌≡◌, refl, true, false, List, [], ◌∷◌, ◌++◌, Option, none, some, arith}
use uscan.Prelude.{◌=t=◌, Text, Bytes, codes, All}
use uscan.Prelude.Results.{ok}
use uscan.Addr.{Ipv4Addr, ipv4, v4}
use uscan.Config.{default}
use uscan.Protocols.Vision360.{key_value_pairs}
use uscan.Protocols.Vision360.Pairs.{Pair, IsPair, key_value_pairs_panics}
use uscan.Protocols.Vision360.Values
use uscan.Protocols.Vision360.Values.{key_value_pairs-spaced}
use uscan.Prelude.Maps.{Assoc, lookup}
use uscan.Protocols.Arecont.{arecont_convert}
use uscan.Protocols.Consumers.{consumers, reported, on_packet-consumers}
use uscan.Mdns.{MdnsAnswer, addr_v4}
use uscan.Mdns.Answers.{
  parse_dns, skip_questions, read_answers, read_record, read_fields, checked_rdata, read_rdata,
}
use uscan.Mdns.Names.{rd16, rd32, read_name, read_labels, is_pointer}
use uscan.Mdns.Broker.{on_packet}
use uscan.Utf8.{from_utf8_lossy}
use uscan.Arp.{MacAddr}
use uscan.Arp.Sweep.{ArpNic, sweep}
use uscan.Arp.Sweep.Requests.{IsRequest, sweep-IsRequest}
use uscan.Iface.Active.{Entry, if_v4}
use uscan.Prelude.{ℕ, slice, replicate}
use uscan.Protocols.Panasonic
use uscan.Protocols.Panasonic.Tlv.{Tlv, encode_all, first_value, parse-encode_all_tail}
use uscan.Protocols.Dahua2.Sweep.{
  Task, Sweeps, no_sweeps, is_cancelled, replace_sweep, check_rounds, replaces, cancels, spawns,
  sends, Run, at_rest, behind,
}
use uscan.Protocols.Dahua2.Sweep.Newest.{check_rounds_newest}
use uscan.Protocols.Dahua2.Sweep.Sending.{sent_by, loaded, sent_by_cancelled}
use uscan.Prelude.{◌+◌, ◌≤◌}

abbrev type_pair : Pair
type_pair = record { first = 84; key = codes "YPE"; mark = none; value = codes "1x" }

type_pair-IsPair : IsPair type_pair
type_pair-IsPair = record {
  starts = refl;
  in_rest = (refl, (refl, (refl, tt)));
  readable = (refl, refl, (refl, tt));
}

-- A value with a space, in quotation marks.
abbrev quoted_pair : Pair
quoted_pair = record { first = 75; key = codes "E"; mark = some 39; value = codes "a b" }

quoted_pair-IsPair : IsPair quoted_pair
quoted_pair-IsPair = record {
  starts = refl;
  in_rest = (refl, tt);
  readable = (refl, (refl, (refl, (refl, tt))));
}

key_value_pairs-spaced_example :
    (found : Assoc Text) × (key_value_pairs (codes "TYPE=1x KE='a b'") ≡ some found)
    × ((k : Text) → lookup k found ≡ Values.first_value k (type_pair ∷ quoted_pair ∷ []))
key_value_pairs-spaced_example =
    key_value_pairs-spaced type_pair (quoted_pair ∷ []) (type_pair-IsPair, (quoted_pair-IsPair, tt))

key_value_pairs_panics_example : key_value_pairs (codes "TYPE=1x K=") ≡ none
key_value_pairs_panics_example =
    key_value_pairs_panics type_pair [] 75 [] (type_pair-IsPair, tt) refl tt

-- A response with one address of the name `_arec._tcp.local`.
abbrev response : Bytes
response =
    0
    ∷ 0
    ∷ 0x84
    ∷ 0
    ∷ 0
    ∷ 0
    ∷ 0
    ∷ 1
    ∷ 0
    ∷ 0
    ∷ 0
    ∷ 0
    ∷ 5
    ∷ (codes "_arec"
        ++ (4
            ∷ (codes "_tcp"
                ++ (5
                    ∷ (codes "local"
                        ++ (0 ∷ 0 ∷ 1 ∷ 0 ∷ 1 ∷ 0 ∷ 0 ∷ 0 ∷ 120 ∷ 0 ∷ 4 ∷ 192 ∷ 168 ∷ 1 ∷ 9
                            ∷ []))))))

abbrev answer : MdnsAnswer
answer = record {
  rrtype = 1;
  name = codes "_arec._tcp.local";
  rdata = addr_v4 (v4 (ipv4 192 168 1 9));
}

response_read : parse_dns response ≡ ok (answer ∷ [])
unfolding parse_dns rd16 rd32 skip_questions read_answers read_record read_name read_labels
    is_pointer read_fields checked_rdata read_rdata from_utf8_lossy
response_read = refl

on_packet-consumers_example :
    reported (on_packet (consumers default) response) ≡ arecont_convert (answer ∷ []) false true
unfolding ◌=t=◌
on_packet-consumers_example =
    on_packet-consumers default response [] [] answer
      (λ answers. arecont_convert answers false true) response_read tt refl

abbrev nic : ArpNic
nic = record { name = codes "eth0"; open_channel = true }

abbrev eth0 : Entry
eth0 = record {
  name = codes "eth0";
  addr = if_v4 (ipv4 192 168 1 77) 30;
  oper_up = true;
  loopback = false;
}

abbrev mac_of : Text → Option MacAddr
mac_of name = some (record { m0 = 2; m1 = 0; m2 = 0; m3 = 0; m4 = 0; m5 = 1 })

sweep-IsRequest_example : All (IsRequest mac_of) ((sweep true (eth0 ∷ []) mac_of (nic ∷ [])).0)
sweep-IsRequest_example = sweep-IsRequest (eth0 ∷ []) mac_of true (nic ∷ [])

-- Two net scans after each other: the token of the first is cancelled, and both have a task.
abbrev one_round : List (List Ipv4Addr)
one_round = (ipv4 192 168 1 9 ∷ []) ∷ []

abbrev first_task : Task
first_task = record { token = 0; sending = []; rounds = one_round }

abbrev second_task : Task
second_task = record { token = 1; sending = []; rounds = one_round }

abbrev first_scan : Sweeps
first_scan = record {
  next = 1;
  current = some 0;
  replaced = [];
  starting = [];
  cancelled = [];
  stopped = false;
  tasks = first_task ∷ [];
}

abbrev two_sweeps : Sweeps
two_sweeps = record {
  next = 2;
  current = some 1;
  replaced = [];
  starting = [];
  cancelled = 0 ∷ [];
  stopped = false;
  tasks = second_task ∷ first_task ∷ [];
}

two_scans : Run no_sweeps [] two_sweeps
unfolding replace_sweep
two_scans = behind (replaces no_sweeps one_round) (
    behind (spawns (replace_sweep one_round no_sweeps) [] [] 0 one_round refl) (
      behind (replaces first_scan one_round) (
        behind (cancels (replace_sweep one_round first_scan) [] [] 0 refl) (
          behind
            (spawns
              (record {
                next = 2;
                current = some 1;
                replaced = [];
                starting = (1, one_round) ∷ [];
                cancelled = 0 ∷ [];
                stopped = false;
                tasks = first_task ∷ [];
              })
              [] [] 1 one_round refl)
            (at_rest two_sweeps)))))

check_rounds_newest_example : (two_sweeps.current ≡ some 1) × (two_sweeps.stopped ≡ false)
unfolding is_cancelled check_rounds
check_rounds_newest_example =
    check_rounds_newest two_sweeps [] [] (first_task ∷ []) [] 1 one_round
      (record { token = 1; sending = ipv4 192 168 1 9 ∷ []; rounds = [] }) two_scans refl refl refl

-- The first task stands between its look at the token and its last sending when it is cancelled.
abbrev cancelled_under_way : Sweeps
cancelled_under_way = record {
  next = 2;
  current = some 1;
  replaced = [];
  starting = [];
  cancelled = 0 ∷ [];
  stopped = false;
  tasks = record { token = 0; sending = ipv4 192 168 1 9 ∷ []; rounds = one_round } ∷ [];
}

abbrev sent_late : Sweeps
sent_late = record {
  next = 2;
  current = some 1;
  replaced = [];
  starting = [];
  cancelled = 0 ∷ [];
  stopped = false;
  tasks = first_task ∷ [];
}

sent_by_cancelled_example :
    sent_by 0 ((0, ipv4 192 168 1 9) ∷ []) + loaded 0 (sent_late.tasks)
    ≤ loaded 0 (cancelled_under_way.tasks)
unfolding is_cancelled
sent_by_cancelled_example =
    sent_by_cancelled cancelled_under_way sent_late ((0, ipv4 192 168 1 9) ∷ []) 0
      (behind (sends cancelled_under_way [] [] 0 (ipv4 192 168 1 9) [] one_round refl)
        (at_rest sent_late))
      refl

-- An address and a name.
abbrev tlvs : List Tlv
tlvs =
    record { key = 0x20; value = 192 ∷ 168 ∷ 1 ∷ 9 ∷ [] }
    ∷ record { key = 0xa7; value = codes "WV" }
    ∷ []

parse-encode_all_tail_example :
    (found : Panasonic.Tlvs) × (Panasonic.parse (replicate 53 0 ++ encode_all tlvs (0 ∷ []))
      ≡ Panasonic.report (slice (replicate 53 0 ++ encode_all tlvs (0 ∷ [])) 6 6) found)
    × ((k : ℕ) → Panasonic.get k found ≡ first_value k tlvs)
parse-encode_all_tail_example =
    parse-encode_all_tail (replicate 53 0) (0 ∷ []) tlvs refl
      (
        record { word = omega arith; short = omega arith },
        (record { word = omega arith; short = omega arith }, tt),
      )
      (omega arith) (omega arith)
