-- ===== src/Diagnosis.antt =====
-- flxc1000-doip/src/connection.rs and flxc1000-app/src/main.rs together: one connection of a tester
-- to the application, while no other is open.
mod Tests
use flxc1000_rpi.Prelude.{
  All, ℕ, ◌≡◌, refl, sym, ap, ◌∙◌, ==_iff, Bool, true, false, ◌==◌, ◌||◌, Option, none, some, List,
  [], ◌∷◌, arith, if◌then◌else◌,
}
use flxc1000_rpi.Ace.{UdsServer, Image, Turn, after_turn}
use flxc1000_rpi.App.{Dtc, SharedState, reset_none, reset_hard}
use flxc1000_rpi.App.DtcServices.{handle_clear_dtc, handle_read_dtc, report_dtcs}
use flxc1000_rpi.App.Turn.{turn, respond}
use flxc1000_rpi.Bytes.{IsU16}
use flxc1000_rpi.Doip.Connection.Action.{
  UdsRequest, active, Effect, wrote, forwarded, Env, Conn, ok,
}
use flxc1000_rpi.Doip.Connection.Exchange.{IsHealthy, exchanged, request_of, answered}
use flxc1000_rpi.Doip.Connection.Messages.{
  IsMessage, encode_all, exchange_all, process_tcp_data-exchange_all,
}
use flxc1000_rpi.Doip.Connection.Process.{positive_ack, uds_response, process_tcp_data}
use flxc1000_rpi.Doip.Message.Diagnostic.{DiagnosticMessage}

-- A request to clear a group of DTCs, and one to report those with a status in the mask.
abbrev pub clear_dtcs : ℕ → ℕ → ℕ → ℕ → ℕ → DiagnosticMessage
clear_dtcs source target a b d = record {
  source_address = source;
  target_address = target;
  user_data = 0x14 ∷ a ∷ b ∷ d ∷ [];
}

abbrev pub report_by_mask : ℕ → ℕ → ℕ → DiagnosticMessage
report_by_mask source target mask = record {
  source_address = source;
  target_address = target;
  user_data = 0x19 ∷ 0x02 ∷ mask ∷ [];
}

module _ {S : Type 0} (ace : UdsServer S SharedState) (clock : List Effect → ℕ) (server0 : S)
    (shared0 : SharedState) where
  abbrev take_turn : ℕ → UdsRequest → Option (S × SharedState) → Option (S × SharedState)
  take_turn now req none = none
  take_turn now req (some (server, shared)) =
      let t = turn ace now req server shared in after_turn t t.exec

  -- The application after the requests that were forwarded to it.
  unfoldable pub app_after : List Effect → Option (S × SharedState)
  app_after [] = some (server0, shared0)
  app_after (wrote bytes ∷ log) = app_after log
  app_after (forwarded req ∷ log) = take_turn (clock log) req (app_after log)

  abbrev response_of : ℕ → UdsRequest → Option (S × SharedState) → Option (List ℕ)
  response_of now req none = none
  response_of now req (some (server, shared)) = some (turn ace now req server shared).response

  -- The answer to the request that was forwarded last.
  unfoldable pub reply : List Effect → UdsRequest → Option (List ℕ)
  unfolding app_after
  reply (forwarded r ∷ log) req = response_of (clock log) req (app_after log)
  reply log req = none

  -- The application behind the channel, and a stream on which no write fails.
  abbrev pub app_env : Env
  app_env = record { write_ok = λ log bytes. true; send_ok = λ log req. true; reply = reply }

  app_env-IsHealthy : IsHealthy app_env
  app_env-IsHealthy = record { writes = λ log bytes. refl; sends = λ log r. refl }

  -- One message that the application answers with something, and without leaving.
  exchanged-app :
      (ecu_address tester : ℕ) (m : DiagnosticMessage) (log : List Effect) (server : S)
      (shared : SharedState) (b : ℕ) (bs : List ℕ)
      → m.target_address ≡ ecu_address
      → app_after log ≡ some (server, shared)
      → (turn ace
          (clock (wrote (positive_ack ecu_address m.source_address) ∷ log))
          (request_of m)
          server
          shared).response
        ≡ b ∷ bs
      → exchanged app_env ecu_address tester m log
        ≡ wrote (uds_response ecu_address tester (b ∷ bs))
          ∷ forwarded (request_of m)
          ∷ wrote (positive_ack ecu_address m.source_address)
          ∷ log
  unfolding reply app_after
  exchanged-app ecu_address tester m log server shared b bs ours live answer =
      let here : (m.target_address == ecu_address) ≡ true = (==_iff _ _).1 ours in
      rw (here, live, answer) refl

  turn-clear_dtcs :
      (now source target a b d : ℕ) (server : S) (shared : SharedState)
      → shared.pending_reset ≡ reset_none
      → let t = turn ace now (request_of (clear_dtcs source target a b d)) server shared in
        (t.response ≡ 0x54 ∷ []) × (t.exec ≡ none) × (t.shared.dtcs ≡ [])
  unfolding turn respond handle_clear_dtc
  turn-clear_dtcs now source target a b d server shared calm = (refl, rw calm refl, refl)

  turn-report_by_mask :
      (now source target mask : ℕ) (server : S) (shared : SharedState)
      → (turn ace now (request_of (report_by_mask source target mask)) server shared).response
        ≡ 0x59 ∷ 0x02 ∷ 0xFF ∷ report_dtcs mask shared.dtcs
  unfolding turn respond handle_read_dtc
  turn-report_by_mask now source target mask server shared = refl

  module _ (ecu_address tester source : ℕ) (ecu_fits : IsU16 ecu_address)
      (source_fits : IsU16 source) where
    -- What one message leaves in the log where the application answers `bytes`.
    abbrev pub after_message : DiagnosticMessage → List ℕ → List Effect → List Effect
    after_message m bytes log =
        wrote (uds_response ecu_address tester bytes)
        ∷ forwarded (request_of m)
        ∷ wrote (positive_ack ecu_address source)
        ∷ log

    cleared :
        (a b d : ℕ) (log : List Effect) (server : S) (shared : SharedState)
        → app_after log ≡ some (server, shared)
        → shared.pending_reset ≡ reset_none
        → (t : Turn S SharedState) × (app_after
              (after_message (clear_dtcs source ecu_address a b d) (0x54 ∷ []) log)
            ≡ some (t.server, t.shared))
          × (t.shared.dtcs ≡ [])
    unfolding app_after
    cleared a b d log server shared live calm =
        let req = request_of (clear_dtcs source ecu_address a b d) in
        let now = clock (wrote (positive_ack ecu_address source) ∷ log) in
        let (answer, stays, none_left) =
          turn-clear_dtcs now source ecu_address a b d server shared calm in
        (turn ace now req server shared, rw (live, stays) refl, none_left)

    -- A tester that is active on a connection sends a request to clear the DTCs and one to report
    -- them in one read, whatever group and mask they name and whatever was asked before: both are
    -- acknowledged, forwarded and answered in turn, the first with 0x54 and the second with no DTC.
    -- This holds while the application runs with no reset pending and no write fails.
    pub process_tcp_data-clear_dtcs :
        (a b d mask : ℕ) (c : Conn) (server : S) (shared : SharedState)
        → c.state ≡ active tester
        → app_after c.log ≡ some (server, shared)
        → shared.pending_reset ≡ reset_none
        → let clear = clear_dtcs source ecu_address a b d in
          let report = report_by_mask source ecu_address mask in
          process_tcp_data app_env ecu_address (encode_all (clear ∷ report ∷ [])) c ≡ (
            ok tt,
            record c {
              log =
                  after_message report
                    (0x59 ∷ 0x02 ∷ 0xFF ∷ [])
                    (after_message clear (0x54 ∷ []) c.log);
            },
          )
    unfolding report_dtcs
    process_tcp_data-clear_dtcs a b d mask c server shared is_active live calm =
        let clear = clear_dtcs source ecu_address a b d in
        let report = report_by_mask source ecu_address mask in
        let fits : All IsMessage (clear ∷ report ∷ []) = omega arith in
        let first =
          exchanged-app ecu_address tester clear c.log server shared 0x54 [] refl live
            (turn-clear_dtcs _ source ecu_address a b d server shared calm).0 in
        let (t, live', none_left) = cleared a b d c.log server shared live calm in
        let second =
          exchanged-app ecu_address tester report (after_message clear (0x54 ∷ []) c.log) t.server
            t.shared 0x59 (0x02 ∷ 0xFF ∷ []) refl live'
            (turn-report_by_mask _ source ecu_address mask t.server t.shared
              ∙ ap (λ (ds : List Dtc). 0x59 ∷ 0x02 ∷ 0xFF ∷ report_dtcs mask ds) none_left) in
        process_tcp_data-exchange_all app_env ecu_address tester app_env-IsHealthy
          (clear ∷ report ∷ []) c fits is_active
        ∙ ap (λ (log : List Effect). (ok tt, record c { log = log }))
            (ap (exchanged app_env ecu_address tester report) first ∙ second)
