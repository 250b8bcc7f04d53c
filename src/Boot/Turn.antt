-- ===== src/Boot/Turn.antt =====
-- flxc1000-boot/src/main.rs: a turn of the main loop.
use flxc1000_rpi.Prelude.{ℕ, ◌==◌, if◌then◌else◌, Option, none, some}
use flxc1000_rpi.Ace.{UdsServer, ask_server, Image, init_image, own_image, Turn}
use flxc1000_rpi.App.{reset_none, reset_hard}
use flxc1000_rpi.Boot.{BootHandler, reset_soft}
use flxc1000_rpi.Doip.Connection.Action.{UdsRequest}

unfoldable pub store_session_type : ℕ → BootHandler → BootHandler
store_session_type session h = record h { session_type = session }

-- The `match` on the pending reset.
unfoldable pub image_of : ℕ → Option Image
image_of reset =
    if reset == reset_hard
    then some init_image
    else if reset == reset_soft
    then some own_image
    else none

unfoldable pub turn :
    {S : Type 0} → UdsServer S BootHandler → ℕ → UdsRequest → S → BootHandler → Turn S BootHandler
unfolding ask_server store_session_type image_of
turn ace now req server h =
    let (response, server', h') =
      ask_server ace store_session_type now req server
        (store_session_type (ace.session_type server) h) in
    record {
      response = response;
      exec = image_of h'.pending_reset;
      server = server';
      shared = record h' { pending_reset = reset_none };
    }
