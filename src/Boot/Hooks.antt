-- ===== src/Boot/Hooks.antt =====
-- flxc1000-boot/src/main.rs: how the UDS server changes the handler, and which resets it can leave
-- to the main loop.
use flxc1000_rpi.Prelude.{
  ℕ, ◌≡◌, refl, ◌∙◌, ◌⊎◌, inl, inr, Option, none, some, List, Star, stay, more, AtMostOnce, never,
  once, arith,
}
use flxc1000_rpi.Ace.{UdsServer, ReachesBy, Image, init_image, own_image, ask_server}
use flxc1000_rpi.App.{reset_none, reset_hard}
use flxc1000_rpi.Boot.{
  BootHandler, reset_soft, ecu_reset, request_download, transfer_data, request_transfer_exit,
}
use flxc1000_rpi.Boot.Turn.{store_session_type, image_of, turn}
use flxc1000_rpi.Doip.Connection.Action.{UdsRequest}

-- A call of a hook other than the reset; the hooks for data identifiers change nothing.
pub data Calls : BootHandler → BootHandler → Type 0 where
  downloads : (h : BootHandler) → Calls h (request_download h).1
  transfers :
      (counter : ℕ) (bytes : List ℕ) (h : BootHandler) → Calls h (transfer_data counter bytes h).1
  exits : (h : BootHandler) → Calls h (request_transfer_exit h).1

pub data Resets (reset_type : ℕ) : BootHandler → BootHandler → Type 0 where
  resets : (h : BootHandler) → Resets reset_type h (ecu_reset reset_type h).1

-- A request is one service, and reaches the reset at most once, then with the type that it asks
-- for; the timers reach none.
abbrev pub IsBootServer : {S : Type 0} → (List ℕ → ℕ) → UdsServer S BootHandler → Type 0
IsBootServer asked ace =
    ReachesBy ace (λ request. AtMostOnce (Resets (asked request)) Calls) (Star Calls)

abbrev pub IsCalm : BootHandler → Type 0
IsCalm h = h.pending_reset ≡ reset_none

-- No reset is pending, or one that the source knows, of the type that was asked for.
abbrev IsAsked : ℕ → BootHandler → Type 0
IsAsked asked h =
    (h.pending_reset ≡ reset_none)
    ⊎ ((h.pending_reset ≡ reset_hard) × (asked ≡ 0x01))
    ⊎ ((h.pending_reset ≡ reset_soft) × (asked ≡ 0x03))

Calls-pending : {h k : BootHandler} → Calls h k → k.pending_reset ≡ h.pending_reset
unfolding request_download transfer_data request_transfer_exit
Calls-pending (downloads h) = refl
Calls-pending (transfers counter bytes h) = refl
Calls-pending (exits h) = refl

Star-pending : {h k : BootHandler} → Star Calls h k → k.pending_reset ≡ h.pending_reset
Star-pending stay = refl
Star-pending (more call rest) = Star-pending rest ∙ Calls-pending call

Resets-IsAsked : {asked : ℕ} {h k : BootHandler} → Resets asked h k → IsCalm h → IsAsked asked k
unfolding ecu_reset
Resets-IsAsked (resets h) calm = ground arith

Star-IsAsked : (asked : ℕ) {h k : BootHandler} → Star Calls h k → IsAsked asked h → IsAsked asked k
Star-IsAsked asked calls before = ground (arith, Star-pending calls)

AtMostOnce-IsAsked :
    (asked : ℕ) {h k : BootHandler}
    → AtMostOnce (Resets asked) Calls h k
    → IsCalm h
    → IsAsked asked k
AtMostOnce-IsAsked asked (never calls) calm = inl (Star-pending calls ∙ calm)
AtMostOnce-IsAsked asked (once before reset later) calm =
    Star-IsAsked asked later (Resets-IsAsked reset (Star-pending before ∙ calm))

-- What a turn may execute, for the type of reset that its request asks for.
abbrev pub IsGranted : ℕ → Option Image → Type 0
IsGranted asked none = Unit {0}
IsGranted asked (some init_image) = asked ≡ 0x01
IsGranted asked (some own_image) = asked ≡ 0x03

image_of-IsGranted :
    (asked : ℕ) (h : BootHandler) → IsAsked asked h → IsGranted asked (image_of h.pending_reset)
unfolding image_of
image_of-IsGranted asked h (inl calm) = rw calm tt
image_of-IsGranted asked h (inr (inl (hard, e))) = rw hard e
image_of-IsGranted asked h (inr (inr (soft, e))) = rw soft e

module _ {S : Type 0} (asked : List ℕ → ℕ) (ace : UdsServer S BootHandler)
    (server_laws : IsBootServer asked ace) where
  ask_server-IsAsked :
      (now : ℕ) (req : UdsRequest) (server : S) (h : BootHandler)
      → IsCalm h
      → IsAsked (asked req.bytes) (ask_server ace store_session_type now req server h).2
  unfolding ask_server store_session_type
  ask_server-IsAsked now req server h calm =
      let handled = server_laws.handles req.source_address req.bytes now server h in
      let ticked =
        server_laws.ticks now (ace.handle req.source_address req.bytes now server h).0
          (ace.handle req.source_address req.bytes now server h).1 in
      Star-IsAsked (asked req.bytes) ticked (AtMostOnce-IsAsked (asked req.bytes) handled calm)

  -- Where no reset is pending, a turn of the bootloader executes /init only for a request that asks
  -- for a hard reset, and itself only for one that asks for a soft one; it leaves no reset pending.
  -- The UDS server is one that changes the handler by its hooks only, and that passes the reset on
  -- at most once for a request, with the type that the request asks for.
  pub turn-IsGranted :
      (now : ℕ) (req : UdsRequest) (server : S) (h : BootHandler)
      → IsCalm h
      → IsGranted (asked req.bytes) (turn ace now req server h).exec
        × IsCalm (turn ace now req server h).shared
  unfolding turn store_session_type
  turn-IsGranted now req server h calm =
      let stored = record h { session_type = ace.session_type server } in
      (
        image_of-IsGranted (asked req.bytes)
            (ask_server ace store_session_type now req server stored).2
            (ask_server-IsAsked now req server stored calm),
        refl,
      )
