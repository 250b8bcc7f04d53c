-- ===== src/App/Turn/Laws.antt =====
-- flxc1000-app/src/main.rs: which requests reach the UDS server, and when the system restarts.
use flxc1000_rpi.Prelude.{none, ℕ, ◌==◌, ◌≡◌, refl, Bool, true, ◌||◌, List, [], ◌∷◌, arith}
use flxc1000_rpi.Ace.{UdsServer}
use flxc1000_rpi.App.{SharedState, reset_none}
use flxc1000_rpi.App.DtcServices.{handle_clear_dtc}
use flxc1000_rpi.App.Turn.{store_session_type, respond, turn}
use flxc1000_rpi.Doip.Connection.Action.{UdsRequest}

-- The loop answers such a request itself.
abbrev pub is_answered_here : List ℕ → Bool
is_answered_here [] = true
is_answered_here (sid ∷ more) = (sid == 0x14) || (sid == 0x19)

module _ {S : Type 0} (ace : UdsServer S SharedState) where
  respond-here :
      (now : ℕ) (req : UdsRequest) (bytes : List ℕ) (server : S) (shared : SharedState)
      → is_answered_here bytes ≡ true
      → ((respond ace now req bytes server shared).1 ≡ server)
        × ((respond ace now req bytes server shared).2.pending_reset ≡ shared.pending_reset)
        × ((respond ace now req bytes server shared).2.vin ≡ shared.vin)
  unfolding respond handle_clear_dtc
  respond-here now req [] server shared here = (refl, refl, refl)
  respond-here now req (sid ∷ more) server shared here = ground arith

  -- An empty request and the two DTC services are answered by the loop, where no reset is pending:
  -- such a turn leaves the UDS server and the VIN as they are, does not restart the system, and
  -- leaves no reset pending.
  pub turn-respond :
      (now : ℕ) (req : UdsRequest) (server : S) (shared : SharedState)
      → is_answered_here req.bytes ≡ true
      → shared.pending_reset ≡ reset_none
      → ((turn ace now req server shared).server ≡ server)
        × ((turn ace now req server shared).shared.vin ≡ shared.vin)
        × ((turn ace now req server shared).exec ≡ none)
        × ((turn ace now req server shared).shared.pending_reset ≡ reset_none)
  unfolding turn store_session_type
  turn-respond now req server shared here calm =
      let (same, pending, vin) =
        respond-here now req req.bytes server (store_session_type (ace.session_type server) shared)
          here in
      (same, vin, ground (arith, pending, calm), refl)
