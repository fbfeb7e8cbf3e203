-- ===== src/Protocols/Registry.antt =====
-- protocols/mod.rs: the registry of the engines. The engines that listen to the mDNS broker or capture
-- ARP frames have no socket of their own. A round of probes is what `scan` sends from the sockets of the
-- engine: the queries through the broker, the net scan of Dahua 2 and the ARP sweep are outside.
mod Shapes
mod From1
mod From16
unfoldable pub use From1.*
unfoldable pub use From16.*
use uscan.Prelude.{List, [], ◌∷◌}
use uscan.Scanner.{Engine}

-- The engines with their numbers, in their order.
unfoldable pub registry : List Engine
unfolding engine_ssdp engine_wsd engine_dahua1 engine_dahua2 engine_hikvision engine_axis
    engine_bosch engine_googlecast engine_hanwha engine_vivotek engine_sony engine_ubiquiti
    engine_vision360 engine_nicevision engine_panasonic engine_arecont engine_gige engine_vstarcam
    engine_eaton engine_foscam engine_lantronix engine_microchip engine_advantech engine_eden
    engine_cyberpower engine_mssql engine_arp engine_tvt
registry =
    record { id = 1; body = engine_ssdp }
    ∷ record { id = 2; body = engine_wsd }
    ∷ record { id = 3; body = engine_dahua1 }
    ∷ record { id = 4; body = engine_dahua2 }
    ∷ record { id = 5; body = engine_hikvision }
    ∷ record { id = 6; body = engine_axis }
    ∷ record { id = 7; body = engine_bosch }
    ∷ record { id = 8; body = engine_googlecast }
    ∷ record { id = 9; body = engine_hanwha }
    ∷ record { id = 10; body = engine_vivotek }
    ∷ record { id = 11; body = engine_sony }
    ∷ record { id = 12; body = engine_ubiquiti }
    ∷ record { id = 13; body = engine_vision360 }
    ∷ record { id = 14; body = engine_nicevision }
    ∷ record { id = 15; body = engine_panasonic }
    ∷ record { id = 16; body = engine_arecont }
    ∷ record { id = 17; body = engine_gige }
    ∷ record { id = 18; body = engine_vstarcam }
    ∷ record { id = 19; body = engine_eaton }
    ∷ record { id = 20; body = engine_foscam }
    ∷ record { id = 23; body = engine_lantronix }
    ∷ record { id = 24; body = engine_microchip }
    ∷ record { id = 25; body = engine_advantech }
    ∷ record { id = 26; body = engine_eden }
    ∷ record { id = 28; body = engine_cyberpower }
    ∷ record { id = 29; body = engine_mssql }
    ∷ record { id = 30; body = engine_arp }
    ∷ record { id = 31; body = engine_tvt }
    ∷ []
