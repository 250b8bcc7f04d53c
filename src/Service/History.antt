-- ===== src/Service/History.antt =====
-- flxc1000-doip with flxc1000-app or flxc1000-boot: each request is served in the state that the
-- requests before it left.
use flxc1000_rpi.Prelude.{ℕ, ◌≡◌, refl, subst, Option, none, List, [], ◌∷◌, ◌++◌}
use flxc1000_rpi.Ace.{Turn}
use flxc1000_rpi.Ace.Loop.{main_loop}
use flxc1000_rpi.Doip.Connection.Action.{UdsRequest, Effect}
use flxc1000_rpi.Service.{
  Served, Service, Serves, quiet, taken, Step, accepts, reads, handles, leaves, Reach, begin, after,
}
use flxc1000_rpi.Service.Answers.{timed, IsOneRun, Stands-some, Reach-answered}

module _ {S H : Type 0} (turn : ℕ → UdsRequest → S → H → Turn S H) (server0 : S) (shared0 : H) where
  -- The main loop was still running behind the requests before, and gave this response.
  abbrev pub IsTurn : Served → List Served → Type 0
  IsTurn v earlier =
      let before = main_loop turn (timed earlier) server0 shared0 in
      (before.exec ≡ none) × (v.response ≡ (turn v.now v.req before.server before.shared).response)

  abbrev IsHistory : List Served → Type 0
  IsHistory [] = Unit {0}
  IsHistory (v ∷ vs) = IsTurn v vs × IsHistory vs

  Serves-IsHistory :
      {now i : ℕ} {old new : List Effect} {app app' : Option (S × H)} {served served' : List Served}
      → Serves turn now i old new app served app' served'
      → IsOneRun turn server0 shared0 served app
      → IsHistory served
      → IsHistory served'
  Serves-IsHistory (quiet same) run history = history
  Serves-IsHistory (taken {served = served} req server shared same) (responses, stands) history =
      let before = main_loop turn (timed served) server0 shared0 in
      let (running, at_server, at_shared) =
        Stands-some turn server0 shared0 before before.exec server shared stands in
      ((running, rw (at_server, at_shared) refl), history)

  module _ (ecu_address : ℕ) where
    Step-IsHistory :
        {y z : Service S H}
        → Step turn ecu_address y z
        → IsOneRun turn server0 shared0 y.served y.app
        → IsHistory y.served
        → IsHistory z.served
    Step-IsHistory (accepts i waiting) run history = history
    Step-IsHistory (reads i bytes fs rest at_phase idle are_bytes are_frames incomplete split) run
          history =
        history
    Step-IsHistory (handles i now f fs write_ok send_ok app served at_phase at_f serves) run
          history =
        Serves-IsHistory serves run history
    Step-IsHistory (leaves i at_phase idle) run history = history

    Reach-IsHistory :
        {y : Service S H} → Reach turn ecu_address server0 shared0 y → IsHistory y.served
    Reach-IsHistory begin = tt
    Reach-IsHistory (after reached step) =
        Step-IsHistory step (Reach-answered turn server0 shared0 ecu_address reached).0
          (Reach-IsHistory reached)

    IsHistory-at :
        (later : List Served) (v : Served) (earlier : List Served)
        → IsHistory (later ++ v ∷ earlier)
        → IsTurn v earlier
    IsHistory-at [] v earlier (here, history) = here
    IsHistory-at (w ∷ later) v earlier (first, history) = IsHistory-at later v earlier history

    -- Each request that was served met the main loop as the requests before it, of whatever
    -- connections, had left it, and has the response of its turn.
    pub Reach-IsTurn :
        {y : Service S H} (later : List Served) (v : Served) (earlier : List Served)
        → Reach turn ecu_address server0 shared0 y
        → y.served ≡ later ++ v ∷ earlier
        → IsTurn v earlier
    Reach-IsTurn later v earlier reached split =
        IsHistory-at later v earlier (subst IsHistory split (Reach-IsHistory reached))
