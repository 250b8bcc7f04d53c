-- ===== src/Boot/Config.antt =====
-- flxc1000-boot/src/main.rs: the configuration of the UDS server, and that the hooks agree with it.
use flxc1000_rpi.Prelude.{ℕ, ◌≡◌, false, List, [], ◌∷◌, arith}
use flxc1000_rpi.Ace.Config.{
  ServerConfig, with_session, with_service, with_did, with_security_level, default_session,
  programming_session, extended_session, new, secured, read_only, names_did, names_writable, any,
  is_ok,
}
use flxc1000_rpi.Boot.{ecu_address, BootHandler, read_did, write_did}

abbrev pub boot_server_config : ServerConfig
boot_server_config = record {
  physical = ecu_address;
  functional = 0xFFFF;
  settings =
      with_session default_session
      ∷ with_session programming_session
      ∷ with_session extended_session
      ∷ with_service (new 0x10 (0x01 ∷ 0x02 ∷ 0x03 ∷ []))
      ∷ with_service (new 0x11 (0x01 ∷ 0x02 ∷ 0x03 ∷ []))
      ∷ with_service (new 0x22 (0x01 ∷ 0x02 ∷ 0x03 ∷ []))
      ∷ with_service (new 0x27 (0x02 ∷ 0x03 ∷ []))
      ∷ with_service (secured 0x34 (0x02 ∷ []) 0x03)
      ∷ with_service (secured 0x36 (0x02 ∷ []) 0x03)
      ∷ with_service (secured 0x37 (0x02 ∷ []) 0x03)
      ∷ with_service (new 0x3E (0x01 ∷ 0x02 ∷ 0x03 ∷ []))
      ∷ with_did (read_only 0xF100 (0x01 ∷ 0x02 ∷ 0x03 ∷ []))
      ∷ with_did (read_only 0xF186 (0x01 ∷ 0x02 ∷ 0x03 ∷ []))
      ∷ with_security_level (record {
        level = 0x03;
        max_attempts = 3;
        lockout_duration = 10;
        seed_length = 4;
        key_length = 4;
      })
      ∷ [];
}

-- The bootloader's hook reads exactly the data identifiers that are configured; none is configured
-- for writing, and the hook refuses every write and leaves the handler as it was.
pub boot_server_config-agrees :
    (did : ℕ) (bytes : List ℕ) (h : BootHandler)
    → (is_ok (read_did did h) ≡ any (names_did did) boot_server_config.settings)
      × (any (names_writable did) boot_server_config.settings ≡ false)
      × (is_ok (write_did did bytes h).0 ≡ false)
      × ((write_did did bytes h).1 ≡ h)
unfolding read_did write_did
boot_server_config-agrees did bytes h = (ground arith, ground arith, ground arith, ground arith)
