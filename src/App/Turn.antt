-- ===== src/App/Turn.antt =====
-- flxc1000-app/src/main.rs: a turn of the main loop, over a UDS server of the crate ace-server,
-- which is not in the repository. The threads of the self test, which only change the status of the
-- routine and the LEDs, stand still in it.
pub mod Laws
use flxc1000_rpi.Prelude.{
  ℕ, ◌==◌, if◌then◌else◌, Bool, true, false, not, ◌&&◌, ◌||◌, Option, none, some, List, [], ◌∷◌,
}
use flxc1000_rpi.Ace.{Turn, init_image, UdsServer, ask_server}
use flxc1000_rpi.App.{SharedState, reset_none, reset_hard}
use flxc1000_rpi.App.DtcServices.{handle_clear_dtc, handle_read_dtc}
use flxc1000_rpi.Doip.Connection.Action.{UdsRequest}

unfoldable pub store_session_type : ℕ → SharedState → SharedState
store_session_type session shared = record shared { session_type = session }

module _ {S : Type 0} (ace : UdsServer S SharedState) where
  unfoldable pub respond : ℕ → UdsRequest → List ℕ → S → SharedState → List ℕ × S × SharedState
  unfolding ask_server store_session_type handle_clear_dtc handle_read_dtc
  respond now req [] server shared = (0x7F ∷ 0x00 ∷ 0x13 ∷ [], server, shared)
  respond now req (sid ∷ more) server shared =
      if sid == 0x14
      then (let (response, shared') = handle_clear_dtc req.bytes shared in
          (response, server, shared'))
      else if sid == 0x19
      then (handle_read_dtc req.bytes shared, server, shared)
      else ask_server ace store_session_type now req server shared

  unfoldable pub turn : ℕ → UdsRequest → S → SharedState → Turn S SharedState
  unfolding respond store_session_type
  turn now req server shared =
      let (response, server', shared') =
        respond now req req.bytes server (store_session_type (ace.session_type server) shared) in
      record {
        response = response;
        exec = if shared'.pending_reset == reset_hard then some init_image else none;
        server = server';
        shared = record shared' { pending_reset = reset_none };
      }
