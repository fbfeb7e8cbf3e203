-- ===== src/Lib.antt =====
-- The verification library of universal-scanner, a scanner that finds devices on the local
-- network, and of its command line program uscan.
--
-- How the program works: engines (universal-scanner/src/protocols) send probes and parse the
-- answers into devices. The mDNS broker (universal-scanner/src/mdns.rs) parses DNS answers and hands
-- them to the engine that registered a name. The loop of uscan/src/run.rs receives the devices, puts
-- each into the table of universal-scanner/src/devices.rs, and prints what the table answers, in a
-- format of uscan/src/output.rs. uscan/src/config.rs merges the configuration of a run from flags, a
-- file and defaults. Sweeps ask every host of a subnet (universal-scanner/src/iface.rs, netscan.rs,
-- protocols/arp.rs), and sockets get their ports from universal-scanner/src/ports.rs.
--
-- The files and what they model:
--   Prelude    the shared names: Boolean tests, lists, byte strings, bit operations, maps as
--              association lists, Option and Result as monads
--   Addr       the addresses of the standard library and their texts
--   Utf8       the standard library's UTF-8, encoding and lossy decoding
--   Addr.Parse the standard library's parser of IP addresses
--   Strings    the standard library's text functions: lines, words, split, from_str_radix, and the
--              searches of Strings.Find
--   Devices    universal-scanner/src/devices.rs: Device, DeviceTable, add, normalize_mac
--   Mdns       universal-scanner/src/mdns.rs: Names (rd16, rd32, read_name, encode_name), Answers
--              (parse_txt, parse_srv, parse_dns), Queries (punycode, idn_ascii, build_query), Broker
--              (register_domain, on_packet), Report (report_addresses)
--   Iface      universal-scanner/src/iface.rs, netscan.rs (plan_hosts), protocols/arp.rs (sweep_plan)
--              Active: active_interfaces, mask_of, and the targets of netscan
--   Arp        universal-scanner/src/arp/frame.rs, and the parser and filter of protocols/arp.rs;
--              Sweep: its scan, and the devices of captured frames
--   Pcap       universal-scanner/src/pcap.rs: the file header, append_udp and the counter
--   Ports      universal-scanner/src/ports.rs: SplitMix64, PortProvider, parse_proc_net_udp
--   Protocols  universal-scanner/src/protocols: a module for each file, with its ports, probe, way to
--              listen and parser; Registry: mod.rs with the engines as records; Xml and Seek: the
--              searches that several of the parsers share; Consumers: the mDNS engines at the broker
--   Log        universal-scanner/src/log.rs
--   Net        universal-scanner/src/net.rs: the binding of sockets and the sending
--   Engine     universal-scanner/src/engine.rs and the listen of the engines: Receive and Receiving
--              (recv_loop), SendAll (send_all, the sends of a net scan), Broker (listen and scan of
--              mdns.rs), Fresh and Interfaces (the ports of the sockets)
--   Provision  universal-scanner/src/tvt_provision.rs: the set-IP packet, its sending and its dump
--   Config     universal-scanner/src/config.rs and uscan/src/config.rs
--   Output     uscan/src/output.rs
--   Run        uscan/src/run.rs: the loop over its events
--   Scanner    universal-scanner/src/scanner.rs: the selection of engines by name, the fixed ports;
--              Running: start, scan and stop
--   Selftest   universal-scanner/src/selftest.rs
--   Commands   uscan/src/commands.rs
--   Oui        universal-scanner/src/oui.rs: the vendor files and the lookup
--   Witnesses  the theorems at concrete inputs
--
-- State is passed explicitly: an operation on the table, the provider or the capture file takes the
-- state and returns the next one with its answer. Numbers are the native natural numbers, and a
-- fixed-width sum keeps its wrapping where the code can reach it. Texts are lists of code points, byte
-- strings lists of numbers.
--
-- Bounds and fuel: read_labels has one round for each byte of the packet and one more, since each
-- round takes a byte at least; read_name recurs on the budget of redirections, as the code counts
-- them. The error out_of_fuel, which the code does not have, marks the end of that fuel. The TXT loop
-- has one round for each byte of the data. In punycode a number has no more digits than units,
-- and each outer round puts a character, so there are as many rounds as characters. The loops of
-- the engines' parsers have one round for each byte or character, of which each round takes one at
-- least.
--
-- How the parts meet: start reserves the fixed ports of the selected engines, lets the broker and
-- then each engine listen, and keeps what they bound. A listening engine takes its ports for the
-- interfaces from the provider that all share. A socket hands its packets to the parser of its
-- engine; the devices go to the loop of the program.
--
-- A panic is a value: a parser that may panic gives an Option, whose `none` ends the receiving loop.
--
-- The net scans of Dahua 2 are a step relation. Its steps are the replacing of a token, its
-- cancellation, the spawning of a task, a task's look at its token, each single sending and a stop, in
-- any order.
--
-- What is not modelled: channels and clocks; the timed queries of Arecont and the threads that capture
-- ARP frames, which are tasks of their own; the command line parser. What the code asks of the system or
-- of a third-party library is an argument: the list of interfaces, whether a port can be bound, what
-- a socket answers, the UUID of a probe, base64, the TOML parser, the JSON text and the colours of the
-- terminal.
pub mod Prelude
pub mod Addr
pub mod Iface
pub mod Log
pub mod Net
pub mod Engine
pub mod Devices
pub mod Arp
pub mod Pcap
pub mod Utf8
pub mod Mdns
pub mod Strings
pub mod Ports
pub mod Config
pub mod Output
pub mod Run
pub mod Scanner
pub mod Selftest
pub mod Commands
pub mod Oui
pub mod Protocols
pub mod Provision
pub mod Witnesses
