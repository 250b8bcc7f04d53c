-- ===== src/Ace/Extend.antt =====
-- The main loops of flxc1000-app/src/main.rs and flxc1000-boot/src/main.rs: one more request at the
-- end of a run.
use flxc1000_rpi.Prelude.{ℕ, ◌≡◌, refl, ap, ◌∙◌, inl, inr, Option-cases, none, List, [], ◌∷◌, ◌++◌}
use flxc1000_rpi.Ace.{Turn}
use flxc1000_rpi.Ace.Loop.{Outcome, continue_with, main_loop, main_loop-stop, main_loop-go}
use flxc1000_rpi.Doip.Connection.Action.{UdsRequest}

module _ {S H : Type 0} (turn : ℕ → UdsRequest → S → H → Turn S H) where
  -- The outcome of a run that is still going on, and of a turn behind it.
  abbrev pub extended : Outcome S H → Turn S H → Outcome S H
  extended before t = record {
    responses = before.responses ++ t.response ∷ [];
    exec = t.exec;
    server = t.server;
    shared = t.shared;
  }

  main_loop-single :
      (now : ℕ) (req : UdsRequest) (server : S) (shared : H)
      → main_loop turn ((now, req) ∷ []) server shared
        ≡ extended (main_loop turn [] server shared) (turn now req server shared)
  unfolding main_loop
  main_loop-single now req server shared = elim (Option-cases (turn now req server shared).exec) [
    | inl e ↦ rw e refl
    | inr (image, e) ↦ rw e refl
  ]

  pub main_loop-extended :
      (requests : List (ℕ × UdsRequest)) (now : ℕ) (req : UdsRequest) (server : S) (shared : H)
      → (main_loop turn requests server shared).exec ≡ none
      → let before = main_loop turn requests server shared in
        main_loop turn (requests ++ (now, req) ∷ []) server shared
        ≡ extended before (turn now req before.server before.shared)
  main_loop-extended [] now req server shared running =
      unfold main_loop in main_loop-single now req server shared
  main_loop-extended ((now', req') ∷ requests) now req server shared running =
      let t = turn now' req' server shared in
      elim (Option-cases t.exec) [
        | inr (image, e) ↦
            let stopped = main_loop-stop turn now' req' requests server shared image e in
            absurd (cc (rw stopped at running))
        | inl e ↦
            let going = main_loop-go turn now' req' requests server shared e in
            let longer =
              main_loop-go turn now' req' (requests ++ (now, req) ∷ []) server shared e in
            let later =
              main_loop-extended requests now req t.server t.shared (rw going at running) in
            rw going (longer ∙ ap (continue_with t none) later)
      ]
