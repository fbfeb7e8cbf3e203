-- ===== src/Scanner/Running/Registered.antt =====
-- scanner.rs and protocols/mod.rs: every engine that a start may select keeps to fresh ports.
use uscan.Prelude.{◌≡◌, Bool, List, [], ◌∷◌, Option, none, some, inl, inr}
use uscan.Prelude.{Bool-cases, All, filter, Text}
use uscan.Prelude.Results.{ok, ok_injective}
use uscan.Engine.Interfaces.{
  KeepsPorts, listen_global-KeepsPorts, listen_multicast-KeepsPorts,
  listen_only_interfaces-KeepsPorts, listen_nothing-KeepsPorts, listen_free_global-KeepsPorts,
}
use uscan.Scanner.{Engine, ScannerError, has_name, lowercase, select_entries}
use uscan.Scanner.Selection.{select_entries-ok}
use uscan.Protocols.Registry.{
  registry, engine_ssdp, engine_wsd, engine_dahua1, engine_dahua2, engine_hikvision, engine_axis,
  engine_bosch, engine_googlecast, engine_hanwha, engine_vivotek, engine_sony, engine_ubiquiti,
  engine_vision360, engine_nicevision, engine_panasonic, engine_arecont, engine_gige,
  engine_vstarcam, engine_eaton, engine_foscam, engine_lantronix, engine_microchip,
  engine_advantech, engine_eden, engine_cyberpower, engine_mssql, engine_arp, engine_tvt,
}

abbrev pub AllKeepPorts : List Engine → Type 0
AllKeepPorts es = All (λ e. KeepsPorts (e.body.listen)) es

-- Every engine of the registry keeps to fresh ports on the interfaces.
pub registry-AllKeepPorts : AllKeepPorts registry
unfolding registry engine_ssdp engine_wsd engine_dahua1 engine_dahua2 engine_hikvision engine_axis
    engine_bosch engine_googlecast engine_hanwha engine_vivotek engine_sony engine_ubiquiti
    engine_vision360 engine_nicevision engine_panasonic engine_arecont engine_gige engine_vstarcam
    engine_eaton engine_foscam engine_lantronix engine_microchip engine_advantech engine_eden
    engine_cyberpower engine_mssql engine_arp engine_tvt
registry-AllKeepPorts = (
  listen_multicast-KeepsPorts _ _,
  (
    listen_multicast-KeepsPorts _ _,
    (
      listen_global-KeepsPorts _,
      (
        listen_multicast-KeepsPorts _ _,
        (
          listen_multicast-KeepsPorts _ _,
          (
            listen_nothing-KeepsPorts,
            (
              listen_global-KeepsPorts _,
              (
                listen_nothing-KeepsPorts,
                (
                  listen_global-KeepsPorts _,
                  (
                    listen_only_interfaces-KeepsPorts,
                    (
                      listen_only_interfaces-KeepsPorts,
                      (
                        listen_global-KeepsPorts _,
                        (
                          listen_global-KeepsPorts _,
                          (
                            listen_free_global-KeepsPorts,
                            (
                              listen_global-KeepsPorts _,
                              (
                                listen_nothing-KeepsPorts,
                                (
                                  listen_only_interfaces-KeepsPorts,
                                  (
                                    listen_global-KeepsPorts _,
                                    (
                                      listen_global-KeepsPorts _,
                                      (
                                        listen_global-KeepsPorts _,
                                        (
                                          listen_global-KeepsPorts _,
                                          (
                                            listen_global-KeepsPorts _,
                                            (
                                              listen_only_interfaces-KeepsPorts,
                                              (
                                                listen_global-KeepsPorts _,
                                                (
                                                  listen_global-KeepsPorts _,
                                                  (
                                                    listen_global-KeepsPorts _,
                                                    (
                                                      listen_nothing-KeepsPorts,
                                                      (listen_multicast-KeepsPorts _ _, tt),
                                                    ),
                                                  ),
                                                ),
                                              ),
                                            ),
                                          ),
                                        ),
                                      ),
                                    ),
                                  ),
                                ),
                              ),
                            ),
                          ),
                        ),
                      ),
                    ),
                  ),
                ),
              ),
            ),
          ),
        ),
      ),
    ),
  ),
)

All-filter {ℓ κ} :
    {A : Type ℓ} (P : A → Type κ) (keep : A → Bool) (xs : List A)
    → All P xs
    → All P (filter keep xs)
All-filter P keep [] h = h
All-filter P keep (x ∷ xs) (h, hs) = elim (Bool-cases (keep x)) [
  | inl kept ↦ rw kept (h, All-filter P keep xs hs)
  | inr left ↦ rw left (All-filter P keep xs hs)
]

-- What a list of names selects has every property of all the engines.
pub All-select_entries :
    (P : Engine → Type 0) (all es : List Engine) (wanted : Option (List Text))
    → select_entries all wanted ≡ ok es
    → All P all
    → All P es
unfolding select_entries
All-select_entries P all es none e h =
    let same : all ≡ es = ok_injective {E = ScannerError} e in rw⁻¹ same h
All-select_entries P all es (some wanted) e h =
    let same = (select_entries-ok all es wanted e).1 in
    rw⁻¹ same (All-filter P (λ e. has_name wanted (lowercase e.body.name)) all h)
