-- ===== src/Diagnosis/Tests.antt =====
-- A tester at 0x0E00 that clears the DTCs and reads them again.
use flxc1000_rpi.Prelude.{ℕ, ◌≡◌, refl, none, some, List, [], ◌∷◌, arith}
use flxc1000_rpi.Ace.{UdsServer}
use flxc1000_rpi.App.{SharedState, initial_state}
use flxc1000_rpi.Diagnosis.{
  clear_dtcs, report_by_mask, app_env, app_after, after_message, process_tcp_data-clear_dtcs,
}
use flxc1000_rpi.Doip.Connection.Action.{active, Effect, wrote, Conn, ok}
use flxc1000_rpi.Doip.Connection.Messages.{encode_all}
use flxc1000_rpi.Doip.Connection.Process.{activation_response, process_tcp_data}

-- A server that answers nothing.
abbrev silent : UdsServer (Unit {0}) SharedState
silent = record {
  session_type = λ s. 0x01;
  handle = λ source bytes now s shared. (tt, shared);
  tick = λ now s shared. (tt, shared);
  drain_outbox = λ s. ([], tt);
}

abbrev clock : List Effect → ℕ
clock log = 7

abbrev fresh : SharedState
fresh = initial_state none none

abbrev activated : Conn
activated = record { state = active 0x0E00; log = wrote (activation_response 0x1000 0x0E00) ∷ [] }

live : app_after silent clock tt fresh activated.log ≡ some (tt, fresh)
unfolding app_after
live = refl

process_tcp_data-clear_dtcs_example :
    let clear = clear_dtcs 0x0E00 0x1000 0xFF 0xFF 0xFF in
    let report = report_by_mask 0x0E00 0x1000 0xFF in
    process_tcp_data
      (app_env silent clock tt fresh)
      0x1000
      (encode_all (clear ∷ report ∷ []))
      activated
    ≡ (
      ok tt,
      record activated {
        log =
            after_message silent clock tt fresh 0x1000 0x0E00 0x0E00
              (omega arith)
              (omega arith)
              report
              (0x59 ∷ 0x02 ∷ 0xFF ∷ [])
              (after_message silent clock tt fresh 0x1000 0x0E00 0x0E00
                (omega arith)
                (omega arith)
                clear
                (0x54 ∷ [])
                activated.log);
      },
    )
process_tcp_data-clear_dtcs_example =
    process_tcp_data-clear_dtcs silent clock tt fresh 0x1000 0x0E00 0x0E00 (omega arith)
      (omega arith) 0xFF 0xFF 0xFF 0xFF activated tt fresh refl live refl
