-- ===== src/Service/Dtcs.antt =====
-- flxc1000-doip with flxc1000-app: all testers see one memory of DTCs.
use flxc1000_rpi.Prelude.{ℕ, ◌≡◌, ◌∙◌, Option, some, List, ◌∷◌, ◌++◌}
use flxc1000_rpi.Ace.{UdsServer}
use flxc1000_rpi.App.{SharedState, initial_state, initial_dtcs}
use flxc1000_rpi.App.DtcServices.Laws.{parse_dtcs, reported}
use flxc1000_rpi.App.Hooks.{IsAppServer}
use flxc1000_rpi.App.Leds.{Gpio}
use flxc1000_rpi.App.Memory.{dtcs_after, main_loop-reported}
use flxc1000_rpi.App.Turn.{turn}
use flxc1000_rpi.Service.{Served, Service, Reach}
use flxc1000_rpi.Service.Answers.{timed}
use flxc1000_rpi.Service.History.{Reach-IsTurn}

module _ {S : Type 0} (ace : UdsServer S SharedState) (server_laws : IsAppServer ace) where
  -- However many testers there are and however their frames interleave: whoever asks for the DTCs by
  -- a status mask reads from the answer, in groups of four bytes behind the first three, exactly
  -- those of the two DTCs of the start that have a bit of the mask in their status, in their order;
  -- and none where a request to clear them, of four bytes or more, was served before to anyone. The
  -- UDS server changes the shared state by the hooks only.
  pub Reach-reported :
      (ecu_address : ℕ) (gpio : Option Gpio) (boot_state : Option (List ℕ)) (server : S)
      {y : Service S SharedState} (later earlier : List Served) (v : Served) (status_mask : ℕ)
      (rest : List ℕ)
      → Reach (turn ace) ecu_address server (initial_state gpio boot_state) y
      → y.served ≡ later ++ v ∷ earlier
      → v.req.bytes ≡ 0x19 ∷ 0x02 ∷ status_mask ∷ rest
      → (report : List ℕ) × (v.response ≡ 0x59 ∷ 0x02 ∷ 0xFF ∷ report)
        × (parse_dtcs report
            ≡ some (reported status_mask (dtcs_after (timed earlier) initial_dtcs)))
  Reach-reported ecu_address gpio boot_state server later earlier v status_mask rest reached split
        asked =
      let (running, response) =
        Reach-IsTurn (turn ace) server (initial_state gpio boot_state) ecu_address later v earlier
          reached split in
      let (report, answer, read) =
        main_loop-reported ace server_laws gpio boot_state (timed earlier) server v.now v.req
          status_mask rest running asked in
      (report, response ∙ answer, read)
