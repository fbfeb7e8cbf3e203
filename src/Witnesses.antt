-- ===== src/Witnesses.antt =====
-- The theorems at concrete inputs, by the part of the program.
mod Devices
mod Mdns
mod Net
mod Cli
mod Scanner
mod Engines
mod Parsers
mod Commands
