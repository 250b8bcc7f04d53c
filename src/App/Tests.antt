-- ===== src/App/Tests.antt =====
-- The application on concrete requests, with a UDS server that answers everything with one byte
-- and asks for a reset.
use flxc1000_rpi.Ace.Config.{is_ok, any, names_did, names_writable, names_service}
use flxc1000_rpi.App.{initial_vin}
use flxc1000_rpi.App.Config.{app_server_config, app_server_config-agrees}
use flxc1000_rpi.App.Turn.Laws.{is_answered_here}
use flxc1000_rpi.App.Handler.{read_did, write_did}
use flxc1000_rpi.App.Identity.{doip_config, on_datagram-doip_config}
use flxc1000_rpi.App.Network.{
  slept, Listing, IsFirst, wait_for_eth_interface, configure_network, link_set_up, addr_add,
  configure_network-IsFirst,
}
use flxc1000_rpi.Doip.Header
use flxc1000_rpi.Doip.Header.{header_size, vehicle_announcement_message}
use flxc1000_rpi.Doip.Message.Laws.{IsFrame}
use flxc1000_rpi.Doip.Message.Vehicle
use flxc1000_rpi.Doip.Server.{announcement, on_datagram}
use flxc1000_rpi.Doip.Server.Mac.{get_mac_address}
use flxc1000_rpi.Prelude.{
  drop, replicate, ◌&&◌, ◌==◌, if◌then◌else◌, stay, Star, more, ◌≢◌, ◌⊎◌, once, ℕ, ◌*◌, ◌++◌, ◌≡◌,
  refl, true, false, some, none, List, [], ◌∷◌, ◌++◌, length, arith,
}
use flxc1000_rpi.Ace.{ok, err, incorrect_message_length_or_invalid_format}
use flxc1000_rpi.App.Memory.{dtcs_after, main_loop-reported}
use flxc1000_rpi.App.Vin.{Elsewhere, reads_any, read_did-write_did}
use flxc1000_rpi.App.{SharedState, initial_state, initial_dtcs, dtc_code1, reset_hard}
use flxc1000_rpi.App.DtcServices.Laws.{parse_dtcs, reported}
use flxc1000_rpi.App.Handler.{written, boot_requested, ecu_reset}
use flxc1000_rpi.App.Turn.{turn}
use flxc1000_rpi.Ace.{UdsServer, Image, init_image}
use flxc1000_rpi.Ace.Loop.{Outcome, main_loop, IsAnswered, main_loop-answers}
use flxc1000_rpi.App.Hooks.{IsAppServer, resets}
use flxc1000_rpi.App.Restart.{request_line, main_loop-main}
use flxc1000_rpi.Bytes.{byte_at}
use flxc1000_rpi.Doip.Connection.Action.{UdsRequest}
use flxc1000_rpi.Init.{Env, Run, boot_binary, poll_interval, main}
use flxc1000_rpi.Init.Wait.{IsClock}

abbrev fresh : SharedState
fresh = initial_state none none

abbrev clear_bytes : List ℕ
clear_bytes = 0x14 ∷ 0xFF ∷ 0xFF ∷ 0xFF ∷ []

-- A card on which the application just asked for the bootloader.
abbrev card : Env
card = record {
  clock = λ k. k * poll_interval;
  exists_in = λ round p. true;
  mount_ok = λ m. true;
  boot_state = some boot_requested;
  app_exists = true;
}

card-IsClock : IsClock card
card-IsClock = record { starts = omega arith; sleeps = λ k. omega arith }

granted : (ecu_reset 0x01 written fresh).0 ≡ ok tt
unfolding ecu_reset
granted = refl

kept : card.boot_state ≡ (ecu_reset 0x01 written fresh).1.boot_state
unfolding ecu_reset
kept = refl

abbrev ace : UdsServer (Unit {0}) SharedState
ace = record {
  session_type = λ s. 0x01;
  handle = λ source bytes now s shared. (tt, record shared { pending_reset = reset_hard });
  tick = λ now s shared. (tt, shared);
  drain_outbox = λ s. ((0x0E00, 0x50 ∷ []) ∷ [], tt);
}

abbrev clear_request : UdsRequest
clear_request = record {
  source_address = 0x0E00;
  target_address = 0x1000;
  bytes = 0x14 ∷ 0xFF ∷ 0xFF ∷ 0xFF ∷ [];
}

-- A server that asks for a reset where the request does, and answers nothing.
abbrev resetting : UdsServer (Unit {0}) SharedState
resetting = record {
  session_type = λ s. 0x01;
  handle = λ source bytes now s shared. (tt, (ecu_reset (byte_at bytes 1) written shared).1);
  tick = λ now s shared. (tt, shared);
  drain_outbox = λ s. ([], tt);
}

resetting-IsAppServer : IsAppServer resetting
resetting-IsAppServer = record {
  handles = λ source bytes now s h. once stay (resets (byte_at bytes 1) written h) stay;
  ticks = λ now s h. stay;
}

abbrev reset_request : UdsRequest
reset_request = record {
  source_address = 0x0E00;
  target_address = 0x1000;
  bytes = 0x11 ∷ 0x01 ∷ [];
}

-- A request to clear the DTCs, one for a reset, and one that is not taken any more.
abbrev requests : List (ℕ × UdsRequest)
requests = (7, clear_request) ∷ (8, reset_request) ∷ (9, clear_request) ∷ []

abbrev session : Outcome (Unit {0}) SharedState
session = main_loop (turn resetting) requests tt fresh

-- A request that is refused, and one for the DTCs.
abbrev short_clear : UdsRequest
short_clear = record { source_address = 0x0E00; target_address = 0x1000; bytes = 0x14 ∷ 0xFF ∷ [] }

abbrev report_request : UdsRequest
report_request = record {
  source_address = 0x0E00;
  target_address = 0x1000;
  bytes = 0x19 ∷ 0x02 ∷ 0x01 ∷ [];
}

abbrev one_request : List (ℕ × UdsRequest)
one_request = (7, short_clear) ∷ []

abbrev reporting : Outcome (Unit {0}) SharedState
reporting = main_loop (turn resetting) one_request tt fresh

running : reporting.exec ≡ none
unfolding main_loop turn
running = refl

one_request-reported :
    (report : List ℕ) × ((turn resetting 8 report_request reporting.server
        reporting.shared).response
      ≡ 0x59 ∷ 0x02 ∷ 0xFF ∷ report)
    × (parse_dtcs report ≡ some (reported 0x01 (dtcs_after one_request initial_dtcs)))
one_request-reported =
    main_loop-reported resetting resetting-IsAppServer none none one_request tt 8 report_request
      0x01 [] running refl

-- The first DTC has a bit of the mask, and the second has none.
reported_first :
    reported 0x01 (dtcs_after one_request initial_dtcs)
    ≡ record { code = dtc_code1; status = 0x2F } ∷ []
unfolding reported
reported_first = refl

abbrev new_vin : List ℕ
new_vin = replicate 17 b'V'

vin_then_read :
    Star Elsewhere
      (write_did 0xF190 new_vin fresh).1
      (read_did 0xF186 (write_did 0xF190 new_vin fresh).1).1
vin_then_read = more (reads_any 0xF186 (write_did 0xF190 new_vin fresh).1) stay

read_did-write_did_example :
    ((length new_vin ≡ 17)
      × ((write_did 0xF190 new_vin fresh).0 ≡ ok tt)
      × ((read_did 0xF190 (read_did 0xF186 (write_did 0xF190 new_vin fresh).1).1).0 ≡ ok new_vin))
    ⊎ ((length new_vin ≢ 17)
        × ((write_did 0xF190 new_vin fresh).0 ≡ err incorrect_message_length_or_invalid_format)
        × ((read_did 0xF190 (read_did 0xF186 (write_did 0xF190 new_vin fresh).1).1).0
            ≡ ok fresh.vin))
read_did-write_did_example = read_did-write_did new_vin fresh vin_then_read

restarted : session.exec ≡ some init_image
unfolding main_loop turn ecu_reset
restarted = refl

requested : card.boot_state ≡ session.shared.boot_state
unfolding main_loop turn ecu_reset
requested = refl

main_loop-main_example :
    (◌≡◌ {A = Image} init_image init_image)
    × ((main_loop (turn resetting) requests tt (initial_state none none)).shared.boot_state
        ≡ some request_line)
    × ((run : Run) × (main card ≡ some run) × (run.binary ≡ boot_binary))
main_loop-main_example =
    main_loop-main resetting resetting-IsAppServer none none requests tt init_image card restarted
      requested card-IsClock

session_answers : IsAnswered (turn resetting) requests tt fresh
session_answers = main_loop-answers (turn resetting) requests tt fresh

abbrev loopback : List ℕ
loopback = b'l' ∷ b'o' ∷ []

abbrev eth1 : List ℕ
eth1 = b'e' ∷ b't' ∷ b'h' ∷ b'1' ∷ []

app_server_config-agrees_example :
    (is_ok (read_did 0xF190 fresh).0 ≡ any (names_did 0xF190) app_server_config.settings)
    × (is_ok (write_did 0xF190 initial_vin fresh).0
        ≡ any (names_writable 0xF190) app_server_config.settings && length initial_vin == 17)
    × (is_answered_here (0x14 ∷ initial_vin) && any (names_service 0x14) app_server_config.settings
        ≡ false)
app_server_config-agrees_example = app_server_config-agrees 0xF190 0x14 initial_vin fresh

-- The loopback is listed at once, and `eth1` in the second attempt.
abbrev listing : Listing
listing attempt = some (if attempt == 0 then loopback ∷ [] else loopback ∷ eth1 ∷ [])

configure_network-IsFirst_example :
    (name : List ℕ) × (n : ℕ) × IsFirst listing 0 20 name n
    × (configure_network listing ≡ replicate n (slept 500) ++ link_set_up name ∷ addr_add name ∷ [])
configure_network-IsFirst_example = configure_network-IsFirst listing

eth1-found : wait_for_eth_interface listing ≡ (eth1, slept 500 ∷ [])
unfolding wait_for_eth_interface
eth1-found = refl

-- A vehicle identification request.
abbrev identification : List ℕ
identification = 0x02 ∷ 0xFD ∷ 0x00 ∷ 0x01 ∷ 0 ∷ 0 ∷ 0 ∷ 0 ∷ []

abbrev identity : List ℕ
identity = Vehicle.encode (announcement (doip_config []))

identified : on_datagram (doip_config []) identification ≡ some identity
unfolding on_datagram Header.parse Header.from_u16
identified = refl

on_datagram-doip_config_example :
    IsFrame vehicle_announcement_message identity
    × (drop header_size identity
        ≡ initial_vin ++ (0x10 ∷ 0x00 ∷ (get_mac_address [] ++ (replicate 6 0 ++ 0 ∷ 0 ∷ []))))
on_datagram-doip_config_example = on_datagram-doip_config [] identification identity identified
