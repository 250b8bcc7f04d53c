-- ===== src/Ace/Loop.antt =====
-- The main loops of flxc1000-app/src/main.rs and flxc1000-boot/src/main.rs: they take requests from
-- the channel until it is closed, or until a turn executes another image.
use flxc1000_rpi.Prelude.{
  ℕ, suc, ◌≡◌, refl, sym, ap, ◌∙◌, ◌⊎◌, inl, inr, Option, none, some, Option-cases, List, [], ◌∷◌,
  ◌++◌, length,
}
use flxc1000_rpi.Ace.{Image, Turn}
use flxc1000_rpi.Doip.Connection.Action.{UdsRequest}

-- The responses in their order, and what is executed at last; `none` where the channel is closed.
pub record Outcome (S H : Type 0) : Type 0 where
  pub responses : List (List ℕ)
  pub exec : Option Image
  pub server : S
  pub shared : H

module _ {S H : Type 0} where
  abbrev pub continue_with : Turn S H → Option Image → Outcome S H → Outcome S H
  continue_with t none rest = record rest { responses = t.response ∷ rest.responses }
  continue_with t (some image) rest = record {
    responses = t.response ∷ [];
    exec = some image;
    server = t.server;
    shared = t.shared;
  }

-- What holds where the loop goes on, and what holds where it executes an image.
abbrev pub Follows : {H : Type 0} → (H → Type 0) → (Image → H → Type 0) → Option Image → H → Type 0
Follows Before AtExec none h = Before h
Follows Before AtExec (some image) h = AtExec image h

module _ {S H : Type 0} (turn : ℕ → UdsRequest → S → H → Turn S H) where
  -- Each request comes with the reading of the clock in its turn.
  unfoldable pub main_loop : List (ℕ × UdsRequest) → S → H → Outcome S H
  main_loop [] server shared = record {
    responses = [];
    exec = none;
    server = server;
    shared = shared;
  }
  main_loop ((now, req) ∷ requests) server shared =
      let t = turn now req server shared in
      continue_with t t.exec (main_loop requests t.server t.shared)

  -- A part of the requests at the front, one response for each, and the same outcome; the rest is
  -- left only where an image is executed.
  abbrev pub IsAnswered : List (ℕ × UdsRequest) → S → H → Type 0
  IsAnswered requests server shared =
      (taken : List (ℕ × UdsRequest)) × (left : List (ℕ × UdsRequest)) × (requests ≡ taken ++ left)
      × (length (main_loop requests server shared).responses ≡ length taken)
      × (main_loop taken server shared ≡ main_loop requests server shared)
      × ((left ≡ []) ⊎ ((image : Image) × ((main_loop requests server shared).exec ≡ some image)))

  pub main_loop-stop :
      (now : ℕ) (req : UdsRequest) (requests : List (ℕ × UdsRequest)) (server : S) (shared : H)
      (image : Image)
      → (turn now req server shared).exec ≡ some image
      → main_loop ((now, req) ∷ requests) server shared
        ≡ continue_with
            (turn now req server shared)
            (some image)
            (main_loop [] (turn now req server shared).server (turn now req server shared).shared)
  unfolding main_loop
  main_loop-stop now req requests server shared image e = rw e refl

  pub main_loop-go :
      (now : ℕ) (req : UdsRequest) (requests : List (ℕ × UdsRequest)) (server : S) (shared : H)
      → (turn now req server shared).exec ≡ none
      → main_loop ((now, req) ∷ requests) server shared
        ≡ continue_with (turn now req server shared) none (
            main_loop requests
              (turn now req server shared).server
              (turn now req server shared).shared)
  unfolding main_loop
  main_loop-go now req requests server shared e = rw e refl

  length-closed : (server : S) (shared : H) → length (main_loop [] server shared).responses ≡ 0
  unfolding main_loop
  length-closed server shared = refl

  -- The requests that the loop takes are those at the front of the channel, each of them is
  -- answered once and in order, and it takes them all unless a turn executes an image.
  pub main_loop-answers :
      (requests : List (ℕ × UdsRequest)) (server : S) (shared : H)
      → IsAnswered requests server shared
  main_loop-answers [] server shared = ([], [], refl, length-closed server shared, refl, inl refl)
  main_loop-answers ((now, req) ∷ requests) server shared =
      elim (Option-cases (turn now req server shared).exec) [
        | inr (image, e) ↦
            let stopped = main_loop-stop now req requests server shared image e in
            let alone = main_loop-stop now req [] server shared image e in
            (
              (now, req) ∷ [],
              requests,
              refl,
              rw stopped refl,
              alone ∙ sym stopped,
              inr (image, rw stopped refl),
            )
        | inl e ↦
            let (taken, left, split, count, same, rest) =
              main_loop-answers requests (turn now req server shared).server
                (turn now req server shared).shared in
            let going = main_loop-go now req requests server shared e in
            (
              (now, req) ∷ taken,
              left,
              ap (λ (l : List (ℕ × UdsRequest)). (now, req) ∷ l) split,
              rw going (ap suc count),
              main_loop-go now req taken server shared e
                  ∙ ap (continue_with (turn now req server shared) none) same
                  ∙ sym going,
              rw going rest,
            )
      ]

  module _ (Before : H → Type 0) (AtExec : Image → H → Type 0) where
    main_loop_closed :
        (server : S) (shared : H)
        → Before shared
        → Follows Before AtExec
            (main_loop [] server shared).exec
            (main_loop [] server shared).shared
    unfolding main_loop
    main_loop_closed server shared before = before

    -- A rule for runs.
    pub main_loop-Follows :
        ((now : ℕ) (req : UdsRequest) (server : S) (shared : H)
          → Before shared
          → Follows Before AtExec
              (turn now req server shared).exec
              (turn now req server shared).shared)
        → (requests : List (ℕ × UdsRequest)) (server : S) (shared : H) → Before shared
        → Follows Before AtExec
            (main_loop requests server shared).exec
            (main_loop requests server shared).shared
    main_loop-Follows step [] server shared before = main_loop_closed server shared before
    main_loop-Follows step ((now, req) ∷ requests) server shared before =
        let t = turn now req server shared in
        elim (Option-cases t.exec) [
          | inr (image, e) ↦
              rw (main_loop-stop now req requests server shared image e)
                (rw e at (step now req server shared before))
          | inl e ↦ rw (main_loop-go now req requests server shared e) (
              main_loop-Follows step requests t.server t.shared
                (rw e at (step now req server shared before)))
        ]
