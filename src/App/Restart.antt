-- ===== src/App/Restart.antt =====
-- flxc1000-app/src/main.rs and flxc1000-init/src/main.rs: when the main loop executes /init, and
-- what that then executes.
use flxc1000_rpi.Prelude.{
  ℕ, ◌≡◌, refl, ◌∙◌, inl, inr, Option, none, some, List, [], ◌∷◌, arith, ◌==◌, if◌then◌else◌,
}
use flxc1000_rpi.Ace.{UdsServer, ask_server, Image, init_image}
use flxc1000_rpi.Ace.Loop.{main_loop, main_loop-Follows, Follows}
use flxc1000_rpi.App.Leds.{Gpio}
use flxc1000_rpi.App.{SharedState, reset_none, reset_hard, initial_state}
use flxc1000_rpi.App.DtcServices.{handle_clear_dtc}
use flxc1000_rpi.App.Handler.{boot_requested}
use flxc1000_rpi.App.Hooks.{IsAppServer, IsBacked, IsCalm, AtMostOnce-IsBacked, Star-IsBacked}
use flxc1000_rpi.App.Reset.{boot_requested-main}
use flxc1000_rpi.App.Turn.{store_session_type, respond, turn}
use flxc1000_rpi.Doip.Connection.Action.{UdsRequest}
use flxc1000_rpi.Init.{Env, Run, boot_binary, main}
use flxc1000_rpi.Init.Wait.{IsClock}

-- What the bootloader needs: the file that the reset writes.
abbrev pub HasBootRequest : Image → SharedState → Type 0
HasBootRequest image s = (image ≡ init_image) × (s.boot_state ≡ some boot_requested)

-- `boot_requested` and a line end, in ASCII: what the file then says.
abbrev pub request_line : List ℕ
request_line =
    0x62 ∷ 0x6F ∷ 0x6F ∷ 0x74 ∷ 0x5F ∷ 0x72 ∷ 0x65 ∷ 0x71 ∷ 0x75 ∷ 0x65 ∷ 0x73 ∷ 0x74 ∷ 0x65 ∷ 0x64
    ∷ 0x0A ∷ []

pending-Follows :
    (s : SharedState)
    → IsBacked s
    → Follows IsCalm HasBootRequest
        (if s.pending_reset == reset_hard then some init_image else none)
        (record s { pending_reset = reset_none })
pending-Follows s (inl calm) = rw calm refl
pending-Follows s (inr (pending, file)) = rw pending (refl, file)

module _ {S : Type 0} (ace : UdsServer S SharedState) (server_laws : IsAppServer ace) where
  ask_server-IsBacked :
      (now : ℕ) (req : UdsRequest) (server : S) (shared : SharedState)
      → IsCalm shared
      → IsBacked (ask_server ace store_session_type now req server shared).2
  unfolding ask_server store_session_type
  ask_server-IsBacked now req server shared calm =
      let handled = server_laws.handles req.source_address req.bytes now server shared in
      let ticked =
        server_laws.ticks now (ace.handle req.source_address req.bytes now server shared).0
          (ace.handle req.source_address req.bytes now server shared).1 in
      Star-IsBacked ticked (AtMostOnce-IsBacked handled calm)

  respond-IsBacked :
      (now : ℕ) (req : UdsRequest) (bytes : List ℕ) (server : S) (shared : SharedState)
      → IsCalm shared
      → IsBacked (respond ace now req bytes server shared).2
  unfolding respond handle_clear_dtc
  respond-IsBacked now req [] server shared calm = inl calm
  respond-IsBacked now req (sid ∷ rest) server shared calm =
      ground (arith, ask_server-IsBacked now req server shared calm)

  turn-Follows :
      (now : ℕ) (req : UdsRequest) (server : S) (shared : SharedState)
      → IsCalm shared
      → Follows IsCalm HasBootRequest
          (turn ace now req server shared).exec
          (turn ace now req server shared).shared
  unfolding turn store_session_type
  turn-Follows now req server shared calm =
      let stored = record shared { session_type = ace.session_type server } in
      pending-Follows (respond ace now req req.bytes server stored).2
        (respond-IsBacked now req req.bytes server stored calm)

  main_loop-file :
      (gpio : Option Gpio) (boot_state : Option (List ℕ)) (requests : List (ℕ × UdsRequest))
      (server : S) (image : Image)
      → (main_loop (turn ace) requests server (initial_state gpio boot_state)).exec ≡ some image
      → HasBootRequest image
          (main_loop (turn ace) requests server (initial_state gpio boot_state)).shared
  main_loop-file gpio boot_state requests server image executed = rw executed at (
      main_loop-Follows (turn ace) IsCalm HasBootRequest turn-Follows requests server
        (initial_state gpio boot_state) refl)

  -- From the state that the program begins with, whatever is on the card, whatever the pins do and
  -- whatever is asked: where the main loop executes anything, that is /init, the file
  -- /data/boot_state then holds `boot_requested` and a line end, and a start of process 1 that finds
  -- it so executes the bootloader. The UDS server is one that changes the shared state by the hooks
  -- only, with one reset at most for a request; on the clock of that start every sleep lasts for the
  -- given time at least, and it does not run backwards.
  pub main_loop-main :
      (gpio : Option Gpio) (boot_state : Option (List ℕ)) (requests : List (ℕ × UdsRequest))
      (server : S) (image : Image) (env : Env)
      → (main_loop (turn ace) requests server (initial_state gpio boot_state)).exec ≡ some image
      → env.boot_state
        ≡ (main_loop (turn ace) requests server (initial_state gpio boot_state)).shared.boot_state
      → IsClock env
      → (image ≡ init_image)
        × ((main_loop (turn ace) requests server (initial_state gpio boot_state)).shared.boot_state
            ≡ some request_line)
        × ((run : Run) × (main env ≡ some run) × (run.binary ≡ boot_binary))
  main_loop-main gpio boot_state requests server image env executed kept clock =
      let (init, file) = main_loop-file gpio boot_state requests server image executed in
      (init, file, boot_requested-main env (kept ∙ file) clock)
