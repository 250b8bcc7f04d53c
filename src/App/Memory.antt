-- ===== src/App/Memory.antt =====
-- flxc1000-app/src/main.rs: the DTCs that the application keeps, over a run of its main loop.
use flxc1000_rpi.Prelude.{
  ℕ, ◌≡◌, refl, ap, ◌∙◌, inl, inr, Bool, false, not, ◌&&◌, ◌||◌, ◌==◌, ltb, if◌then◌else◌,
  Bool-cases, Option, none, some, Option-cases, List, [], ◌∷◌, length, All, Star-keeps,
  AtMostOnce-keeps, arith,
}
use flxc1000_rpi.Ace.{UdsServer, ask_server}
use flxc1000_rpi.Ace.Loop.{main_loop, main_loop-go, main_loop-stop}
use flxc1000_rpi.App.Leds.{Gpio}
use flxc1000_rpi.App.{Dtc, SharedState, initial_state, initial_dtcs}
use flxc1000_rpi.App.DtcServices.{handle_clear_dtc}
use flxc1000_rpi.App.DtcServices.Laws.{HasCode, parse_dtcs, reported, handle_read_dtc-reported}
use flxc1000_rpi.App.Handler.{written, failed, read_did, write_did, ecu_reset}
use flxc1000_rpi.App.Hooks.{Calls, reads, writes, tests, Resets, resets, IsAppServer}
use flxc1000_rpi.App.Turn.{store_session_type, respond, turn}
use flxc1000_rpi.Doip.Connection.Action.{UdsRequest}

Calls-dtcs : {s t : SharedState} → Calls s t → t.dtcs ≡ s.dtcs
unfolding read_did write_did
Calls-dtcs (reads did s) = ground arith
Calls-dtcs (writes did bytes s) = ground arith
Calls-dtcs (tests status leds s) = refl

Resets-dtcs : {s t : SharedState} → Resets s t → t.dtcs ≡ s.dtcs
unfolding ecu_reset
Resets-dtcs (resets reset_type written s) = ground arith
Resets-dtcs (resets reset_type (failed left) s) = ground arith

-- A request that clears the memory, whatever group it names.
abbrev pub is_clear : List ℕ → Bool
is_clear [] = false
is_clear (sid ∷ rest) = sid == 0x14 && not (ltb (length (sid ∷ rest)) 4)

abbrev pub any_clear : List (ℕ × UdsRequest) → Bool
any_clear [] = false
any_clear ((now, req) ∷ requests) = is_clear req.bytes || any_clear requests

-- The DTCs after some requests, by what was asked alone.
abbrev pub dtcs_after : List (ℕ × UdsRequest) → List Dtc → List Dtc
dtcs_after requests ds = if any_clear requests then [] else ds

module _ {S : Type 0} (ace : UdsServer S SharedState) (server_laws : IsAppServer ace) where
  ask_server-dtcs :
      (now : ℕ) (req : UdsRequest) (server : S) (shared : SharedState)
      → (ask_server ace store_session_type now req server shared).2.dtcs ≡ shared.dtcs
  unfolding ask_server store_session_type
  ask_server-dtcs now req server shared =
      let (handled, shared') = ace.handle req.source_address req.bytes now server shared in
      Star-keeps (λ (s : SharedState). s.dtcs) (λ s t. Calls-dtcs)
        (server_laws.ticks now handled shared')
      ∙ AtMostOnce-keeps (λ (s : SharedState). s.dtcs) (λ s t. Resets-dtcs) (λ s t. Calls-dtcs)
          (server_laws.handles req.source_address req.bytes now server shared)

  respond-dtcs :
      (now : ℕ) (req : UdsRequest) (bytes : List ℕ) (server : S) (shared : SharedState)
      → req.bytes ≡ bytes
      → (respond ace now req bytes server shared).2.dtcs
        ≡ (if is_clear bytes then [] else shared.dtcs)
  unfolding respond handle_clear_dtc
  respond-dtcs now req [] server shared e = refl
  respond-dtcs now req (sid ∷ rest) server shared e =
      rw e (ground (arith, ask_server-dtcs now req server shared))

  turn-dtcs :
      (now : ℕ) (req : UdsRequest) (server : S) (shared : SharedState)
      → (turn ace now req server shared).shared.dtcs
        ≡ (if is_clear req.bytes then [] else shared.dtcs)
  unfolding turn store_session_type
  turn-dtcs now req server shared =
      respond-dtcs now req req.bytes server
        (record shared { session_type = ace.session_type server }) refl

  main_loop-dtcs :
      (requests : List (ℕ × UdsRequest)) (server : S) (shared : SharedState)
      → (main_loop (turn ace) requests server shared).exec ≡ none
      → (main_loop (turn ace) requests server shared).shared.dtcs ≡ dtcs_after requests shared.dtcs
  main_loop-dtcs [] server shared running = unfold main_loop in refl
  main_loop-dtcs ((now, req) ∷ requests) server shared running =
      let t = turn ace now req server shared in
      elim (Option-cases t.exec) [
        | inr (image, e) ↦
            let stopped = main_loop-stop (turn ace) now req requests server shared image e in
            absurd (cc (rw stopped at running))
        | inl e ↦
            let going = main_loop-go (turn ace) now req requests server shared e in
            let later = main_loop-dtcs requests t.server t.shared (rw going at running) in
            let step : dtcs_after requests t.shared.dtcs
                ≡ dtcs_after ((now, req) ∷ requests) shared.dtcs =
              ground (arith, turn-dtcs now req server shared) in
            rw going (later ∙ step)
      ]

  turn-reported :
      (now : ℕ) (req : UdsRequest) (server : S) (shared : SharedState) (status_mask : ℕ)
      (rest : List ℕ)
      → req.bytes ≡ 0x19 ∷ 0x02 ∷ status_mask ∷ rest
      → All HasCode shared.dtcs
      → (report : List ℕ) × ((turn ace now req server shared).response
          ≡ 0x59 ∷ 0x02 ∷ 0xFF ∷ report)
        × (parse_dtcs report ≡ some (reported status_mask shared.dtcs))
  unfolding turn respond store_session_type
  turn-reported now req server shared status_mask rest asked codes = rw asked (
      handle_read_dtc-reported status_mask rest
        (record shared { session_type = ace.session_type server }) codes)

  dtcs_after-HasCode :
      (requests : List (ℕ × UdsRequest)) → All HasCode (dtcs_after requests initial_dtcs)
  dtcs_after-HasCode requests = elim (Bool-cases (any_clear requests)) [
    | inl cleared ↦ rw (cleared, All) tt
    | inr kept ↦ rw (kept, All) (refl, (refl, tt))
  ]

  -- While the application runs, a tester that asks for the DTCs by a status mask reads from the
  -- answer, in groups of four bytes behind the first three, exactly those of the two DTCs of the
  -- start that have a bit of the mask in their status, in their order; and none after any request to
  -- clear them of four bytes or more. The UDS server changes the shared state by the hooks only.
  pub main_loop-reported :
      (gpio : Option Gpio) (boot_state : Option (List ℕ)) (requests : List (ℕ × UdsRequest))
      (server : S) (now : ℕ) (req : UdsRequest) (status_mask : ℕ) (rest : List ℕ)
      → let before = main_loop (turn ace) requests server (initial_state gpio boot_state) in
        before.exec ≡ none
        → req.bytes ≡ 0x19 ∷ 0x02 ∷ status_mask ∷ rest
        → (report : List ℕ) × ((turn ace now req before.server before.shared).response
            ≡ 0x59 ∷ 0x02 ∷ 0xFF ∷ report)
          × (parse_dtcs report ≡ some (reported status_mask (dtcs_after requests initial_dtcs)))
  main_loop-reported gpio boot_state requests server now req status_mask rest running asked =
      let before = main_loop (turn ace) requests server (initial_state gpio boot_state) in
      let kept = main_loop-dtcs requests server (initial_state gpio boot_state) running in
      let (report, answer, read) =
        turn-reported now req before.server before.shared status_mask rest asked
          (rw kept (dtcs_after-HasCode requests)) in
      (report, answer, read ∙ ap (λ (ds : List Dtc). some (reported status_mask ds)) kept)
