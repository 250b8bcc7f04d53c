-- ===== src/App/Config.antt =====
-- flxc1000-app/src/main.rs: the configuration of the UDS server, and that the hooks agree with it.
use flxc1000_rpi.Prelude.{ℕ, ◌≡◌, ◌==◌, ◌&&◌, false, List, [], ◌∷◌, length, arith}
use flxc1000_rpi.Ace.Config.{
  ServerConfig, with_session, with_service, with_did, default_session, extended_session, new,
  read_only, read_write, names_service, names_did, names_writable, any, is_ok,
}
use flxc1000_rpi.App.{SharedState, ecu_address}
use flxc1000_rpi.App.Turn.Laws.{is_answered_here}
use flxc1000_rpi.App.Handler.{read_did, write_did}

abbrev pub app_server_config : ServerConfig
app_server_config = record {
  physical = ecu_address;
  functional = 0xFFFF;
  settings =
      with_session default_session
      ∷ with_session extended_session
      ∷ with_service (new 0x10 (0x01 ∷ 0x03 ∷ []))
      ∷ with_service (new 0x11 (0x01 ∷ 0x03 ∷ []))
      ∷ with_service (new 0x22 (0x01 ∷ 0x03 ∷ []))
      ∷ with_service (new 0x2E (0x03 ∷ []))
      ∷ with_service (new 0x31 (0x03 ∷ []))
      ∷ with_service (new 0x3E (0x01 ∷ 0x03 ∷ []))
      ∷ with_did (read_only 0xF100 (0x01 ∷ 0x03 ∷ []))
      ∷ with_did (read_only 0xF186 (0x01 ∷ 0x03 ∷ []))
      ∷ with_did (read_write 0xF190 (0x01 ∷ 0x03 ∷ []) (0x03 ∷ []))
      ∷ with_did (read_only 0xF200 (0x01 ∷ 0x03 ∷ []))
      ∷ [];
}

-- The hook reads exactly the data identifiers that are configured, and writes exactly those that
-- are configured for writing, with 17 bytes; and no service that the main loop answers itself is
-- configured for the UDS server too.
pub app_server_config-agrees :
    (did sid : ℕ) (bytes : List ℕ) (s : SharedState)
    → (is_ok (read_did did s).0 ≡ any (names_did did) app_server_config.settings)
      × (is_ok (write_did did bytes s).0
          ≡ any (names_writable did) app_server_config.settings && length bytes == 17)
      × (is_answered_here (sid ∷ bytes) && any (names_service sid) app_server_config.settings
          ≡ false)
unfolding read_did write_did
app_server_config-agrees did sid bytes s = (ground arith, ground arith, ground arith)
