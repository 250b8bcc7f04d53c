-- ===== src/Service.antt =====
-- flxc1000-doip with flxc1000-app or flxc1000-boot: all connections of testers at once, and the main
-- loop behind the channel that they share.
pub mod Answers
pub mod Dtcs
pub mod History
mod Tests
use flxc1000_rpi.Prelude.{ℕ, ◌≡◌, Bool, ◌==◌, if◌then◌else◌, Option, none, some, List, [], ◌∷◌, All}
use flxc1000_rpi.Ace.{Turn, after_turn}
use flxc1000_rpi.Bytes.{IsU8}
use flxc1000_rpi.Doip.Header
use flxc1000_rpi.Doip.Connection.Action.{
  UdsRequest, awaiting_activation, Effect, Env, Conn, Result, ok, err, out_of_fuel,
}
use flxc1000_rpi.Doip.Connection.Dialogue.{requests_of}
use flxc1000_rpi.Doip.Connection.Framing.{Frame, stream_bytes, AreFrames, IsIncomplete}
use flxc1000_rpi.Doip.Connection.Process.{dispatch}

pub data Phase : Type 0 where
  awaited connected closed : Phase

-- A connection with the frames of its last read that are still to be handled.
pub record Peer : Type 0 where
  pub phase : Phase
  pub conn : Conn
  pub pending : List Frame

-- A request that the main loop took, from which connection and when, and its response.
pub record Served : Type 0 where
  pub peer : ℕ
  pub now : ℕ
  pub req : UdsRequest
  pub response : List ℕ

-- `app` is `none` once a turn is to execute another image, and `served` is newest first.
pub record Service (S H : Type 0) : Type 0 where
  pub peers : ℕ → Peer
  pub app : Option (S × H)
  pub served : List Served

abbrev pub new_peer : Phase → Peer
new_peer phase = record {
  phase = phase;
  conn = record { state = awaiting_activation; log = [] };
  pending = [];
}

abbrev pub set_peer : ℕ → Peer → (ℕ → Peer) → ℕ → Peer
set_peer i p peers j = if i == j then p else peers j

-- An error ends the connection, and the frames behind it are lost.
abbrev pub after_frame : Result (Unit {0}) × Conn → List Frame → Peer
after_frame (ok a, c) fs = record { phase = connected; conn = c; pending = fs }
after_frame (err e, c) fs = record { phase = closed; conn = c; pending = [] }
after_frame (out_of_fuel, c) fs = record { phase = closed; conn = c; pending = [] }

module _ {S H : Type 0} (turn : ℕ → UdsRequest → S → H → Turn S H) where
  abbrev pub served_in : ℕ → ℕ → UdsRequest → Turn S H → Served
  served_in now i req t = record { peer = i; now = now; req = req; response = t.response }

  -- What a frame leads to at the main loop, told by the requests that the connection forwarded
  -- before it and after it: nothing, or one turn.
  pub data Serves (now i : ℕ) (old new : List Effect)
      : Option (S × H) → List Served → Option (S × H) → List Served → Type 0 where
    quiet :
        {app : Option (S × H)} {served : List Served}
        → requests_of new ≡ requests_of old
        → Serves now i old new app served app served
    taken :
        {served : List Served} (req : UdsRequest) (server : S) (shared : H)
        → requests_of new ≡ req ∷ requests_of old
        → Serves now i old new
            (some (server, shared))
            served
            (after_turn (turn now req server shared) (turn now req server shared).exec)
            (served_in now i req (turn now req server shared) ∷ served)

  abbrev pub reply : ℕ → Option (S × H) → UdsRequest → Option (List ℕ)
  reply now none req = none
  reply now (some (server, shared)) req = some (turn now req server shared).response

  -- What a frame meets: writes and hand-overs may fail at any point, and the answer is that of the
  -- main loop.
  abbrev pub peer_env :
      (List Effect → List ℕ → Bool) → (List Effect → UdsRequest → Bool) → ℕ → Option (S × H) → Env
  peer_env write_ok send_ok now app = record {
    write_ok = write_ok;
    send_ok = send_ok;
    reply = λ log req. reply now app req;
  }

  module _ (ecu_address : ℕ) where
    abbrev pub handle_frame :
        (List Effect → List ℕ → Bool)
        → (List Effect → UdsRequest → Bool)
        → ℕ
        → Option (S × H)
        → Frame
        → Conn
        → Result (Unit {0}) × Conn
    handle_frame write_ok send_ok now app f c =
        dispatch (peer_env write_ok send_ok now app) ecu_address (Header.from_u16 f.payload_type)
          f.payload c

    -- The frames of the connections are handled in any order between one another. Only one request
    -- is at the main loop at a time, so a frame is one step, with the turn that it leads to. Once a
    -- turn is to execute another image, for which it waits 50 ms, only frames that forward nothing
    -- are still handled.
    pub data Step : Service S H → Service S H → Type 0 where
      accepts :
          {y : Service S H} (i : ℕ)
          → (y.peers i).phase ≡ awaited
          → Step y (record y { peers = set_peer i (new_peer connected) y.peers })
      reads :
          {y : Service S H} (i : ℕ) (bytes : List ℕ) (fs : List Frame) (rest : List ℕ)
          → (y.peers i).phase ≡ connected
          → (y.peers i).pending ≡ []
          → All IsU8 bytes
          → AreFrames fs
          → IsIncomplete rest
          → bytes ≡ stream_bytes fs rest
          → Step y (record y { peers = set_peer i (record (y.peers i) { pending = fs }) y.peers })
      handles :
          {y : Service S H} (i now : ℕ) (f : Frame) (fs : List Frame)
          (write_ok : List Effect → List ℕ → Bool) (send_ok : List Effect → UdsRequest → Bool)
          (app : Option (S × H)) (served : List Served)
          → (y.peers i).phase ≡ connected
          → (y.peers i).pending ≡ f ∷ fs
          → Serves now i
              (y.peers i).conn.log
              (handle_frame write_ok send_ok now y.app f (y.peers i).conn).1.log
              y.app
              y.served
              app
              served
          → Step y (record {
            peers =
                set_peer i
                  (after_frame (handle_frame write_ok send_ok now y.app f (y.peers i).conn) fs)
                  y.peers;
            app = app;
            served = served;
          })
      leaves :
          {y : Service S H} (i : ℕ)
          → (y.peers i).phase ≡ connected
          → (y.peers i).pending ≡ []
          → Step y (record y { peers = set_peer i (record (y.peers i) { phase = closed }) y.peers })

    pub data Reach (server : S) (shared : H) : Service S H → Type 0 where
      begin :
          Reach server shared
            (record { peers = λ i. new_peer awaited; app = some (server, shared); served = [] })
      after : {y z : Service S H} → Reach server shared y → Step y z → Reach server shared z
