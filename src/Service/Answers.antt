-- ===== src/Service/Answers.antt =====
-- flxc1000-doip with flxc1000-app or flxc1000-boot: who gets which answer in a run with any number of
-- testers.
use flxc1000_rpi.Prelude.{
  ℕ, ◌≡◌, refl, sym, ap, ◌∙◌, subst, ◌⊎◌, inl, inr, ◌==◌, Bool-cases, if◌then◌else◌, Option, none,
  some, List, [], ◌∷◌, ◌++◌, length, arith, ==_iff, Bool, true, false,
}
use flxc1000_rpi.Ace.{Image, Turn, after_turn}
use flxc1000_rpi.Ace.Extend.{main_loop-extended}
use flxc1000_rpi.Ace.Loop.{Outcome, main_loop}
use flxc1000_rpi.Doip.Header
use flxc1000_rpi.Doip.Connection.Action.{UdsRequest, Effect, Conn, Result, ok, err, out_of_fuel}
use flxc1000_rpi.Doip.Connection.Dialogue.{
  Dialogue, opened, Cut, Spoken, Handled, told, asked, dispatch-Handled,
}
use flxc1000_rpi.Doip.Connection.Framing.{Frame}
use flxc1000_rpi.Service.{
  Phase, awaited, connected, closed, Peer, Served, Service, new_peer, set_peer, after_frame, Serves,
  quiet, taken, peer_env, Step, accepts, reads, handles, leaves, Reach, handle_frame, begin, after,
}

-- The requests in the order in which they were served, with their times.
abbrev pub timed : List Served → List (ℕ × UdsRequest)
timed [] = []
timed (v ∷ vs) = timed vs ++ (v.now, v.req) ∷ []

abbrev pub responses_of : List Served → List (List ℕ)
responses_of [] = []
responses_of (v ∷ vs) = responses_of vs ++ v.response ∷ []

-- The requests of one connection with their responses, newest first.
abbrev pub answers_of : ℕ → List Served → List (UdsRequest × List ℕ)
answers_of i [] = []
answers_of i (v ∷ vs) =
    let rest = answers_of i vs in if v.peer == i then (v.req, v.response) ∷ rest else rest

-- What a connection has heard: while it is open, every answer to it.
abbrev pub Heard : ℕ → Phase → List Effect → List (UdsRequest × List ℕ) → Type 0
Heard ecu_address awaited log answers = answers ≡ []
Heard ecu_address connected log answers = Dialogue ecu_address log answers
Heard ecu_address closed log answers =
    Dialogue ecu_address log answers ⊎ Cut ecu_address log answers

longer : {A : Type 0} (x : A) (xs : List A) → xs ≡ x ∷ xs → ⊥
longer x xs same = omega (arith, ap length same)

module _ {S H : Type 0} (turn : ℕ → UdsRequest → S → H → Turn S H) (server0 : S) (shared0 : H) where
  abbrev pub Stands : Outcome S H → Option Image → Option (S × H) → Type 0
  Stands out none app = app ≡ some (out.server, out.shared)
  Stands out (some image) app = app ≡ none

  -- The main loop stands where one run of it on these requests does.
  abbrev pub IsOneRun : List Served → Option (S × H) → Type 0
  IsOneRun served app =
      let out = main_loop turn (timed served) server0 shared0 in
      (out.responses ≡ responses_of served) × Stands out out.exec app

  pub Stands-some :
      (out : Outcome S H) (exec : Option Image) (server : S) (shared : H)
      → Stands out exec (some (server, shared))
      → (exec ≡ none) × (out.server ≡ server) × (out.shared ≡ shared)
  Stands-some out none server shared stands = (refl, cc stands, cc stands)
  Stands-some out (some image) server shared stands = absurd (cc stands)

  Stands-after_turn :
      (responses : List (List ℕ)) (t : Turn S H) (exec : Option Image)
      → Stands
          (record { responses = responses; exec = t.exec; server = t.server; shared = t.shared })
          exec
          (after_turn t exec)
  Stands-after_turn responses t none = refl
  Stands-after_turn responses t (some image) = refl

  Serves-IsOneRun :
      {now i : ℕ} {old new : List Effect} {app app' : Option (S × H)} {served served' : List Served}
      → Serves turn now i old new app served app' served'
      → IsOneRun served app
      → IsOneRun served' app'
  Serves-IsOneRun (quiet same) run = run
  Serves-IsOneRun {now = now} (taken {served = served} req server shared same) (responses, stands) =
      let before = main_loop turn (timed served) server0 shared0 in
      let (running, at_server, at_shared) = Stands-some before before.exec server shared stands in
      let t = turn now req server shared in
      let more = main_loop-extended turn (timed served) now req server0 shared0 running in
      rw (more, at_server, at_shared, responses)
        (refl, Stands-after_turn (responses_of served ++ t.response ∷ []) t t.exec)

  module _ (ecu_address : ℕ) where
    Handled-Spoken :
        {now i : ℕ} {old : List Effect} {app app' : Option (S × H)} {served served' : List Served}
        (write_ok : List Effect → List ℕ → Bool) (send_ok : List Effect → UdsRequest → Bool)
        (done : Result (Unit {0}) × Conn)
        → Serves turn now i old done.1.log app served app' served'
        → Handled
            (peer_env turn write_ok send_ok now app)
            ecu_address
            old
            (answers_of i served)
            done
        → Spoken ecu_address done.0 done.1.log (answers_of i served')
    Handled-Spoken write_ok send_ok done (quiet same) (told none_new spoken) = spoken
    Handled-Spoken write_ok send_ok done (quiet same) (asked req one_new spoken) =
        absurd (longer req _ (sym same ∙ one_new))
    Handled-Spoken write_ok send_ok done (taken req server shared same) (told none_new spoken) =
        absurd (longer req _ (sym none_new ∙ same))
    Handled-Spoken {now = now} {i = i} write_ok send_ok done
          (taken {served = served} req server shared same) (asked req' one_new spoken) =
        let here : (i == i) ≡ true = (==_iff i i).1 refl in
        let equal : req' ≡ req = cc (same, one_new) in
        rw here (
          subst
            (λ r.
              Spoken ecu_address done.0 done.1.log
                ((r, (turn now r server shared).response) ∷ answers_of i served))
            equal (spoken (turn now req' server shared).response refl))

    abbrev pub IsHeard : Peer → List (UdsRequest × List ℕ) → Type 0
    IsHeard p answers = Heard ecu_address p.phase p.conn.log answers

    after_frame-IsHeard :
        (r : Result (Unit {0})) (c : Conn) (fs : List Frame) (answers : List (UdsRequest × List ℕ))
        → Spoken ecu_address r c.log answers
        → IsHeard (after_frame (r, c) fs) answers
    after_frame-IsHeard (ok a) c fs answers spoken = spoken
    after_frame-IsHeard (err e) c fs answers spoken = spoken
    after_frame-IsHeard out_of_fuel c fs answers spoken = spoken

    pub connected-Dialogue :
        (p : Peer) (answers : List (UdsRequest × List ℕ))
        → p.phase ≡ connected
        → IsHeard p answers
        → Dialogue ecu_address p.conn.log answers
    connected-Dialogue p answers e heard =
        subst (λ phase. Heard ecu_address phase p.conn.log answers) e heard

    set_peer-IsHeard :
        (i : ℕ) (p : Peer) (peers : ℕ → Peer) (served served' : List Served)
        → IsHeard p (answers_of i served')
        → ((j : ℕ) → (i == j) ≡ false → answers_of j served' ≡ answers_of j served)
        → ((j : ℕ) → IsHeard (peers j) (answers_of j served))
        → (j : ℕ) → IsHeard (set_peer i p peers j) (answers_of j served')
    set_peer-IsHeard i p peers served served' here others before j = elim (Bool-cases (i == j)) [
      | inl at_i ↦
          let same : i ≡ j = (==_iff i j).0 at_i in
          rw at_i (subst (λ k. IsHeard p (answers_of k served')) same here)
      | inr other ↦ rw (other, others j other) (before j)
    ]

    Serves-others :
        {now i : ℕ} {old new : List Effect} {app app' : Option (S × H)}
        {served served' : List Served}
        → Serves turn now i old new app served app' served'
        → (j : ℕ) → (i == j) ≡ false
        → answers_of j served' ≡ answers_of j served
    Serves-others (quiet same) j other = refl
    Serves-others (taken req server shared same) j other = rw other refl

    abbrev pub Holds : Service S H → Type 0
    Holds y = IsOneRun y.served y.app × ((i : ℕ) → IsHeard (y.peers i) (answers_of i y.served))

    Step-Holds : {y z : Service S H} → Step turn ecu_address y z → Holds y → Holds z
    Step-Holds {y = y} (accepts i waiting) (run, heard) =
        let none_yet : answers_of i y.served ≡ [] =
          subst (λ phase. Heard ecu_address phase (y.peers i).conn.log (answers_of i y.served))
            waiting (heard i) in
        (
          run,
          set_peer-IsHeard i (new_peer connected) y.peers y.served y.served (rw none_yet opened)
              (λ j other. refl) heard,
        )
    Step-Holds {y = y} (reads i bytes fs rest at_phase idle are_bytes are_frames incomplete split)
          (run, heard) =
        (
          run,
          set_peer-IsHeard i (record (y.peers i) { pending = fs }) y.peers y.served y.served
              (heard i) (λ j other. refl) heard,
        )
    Step-Holds {y = y} (handles i now f fs write_ok send_ok app served at_phase at_f serves)
          (run, heard) =
        let d = connected-Dialogue (y.peers i) (answers_of i y.served) at_phase (heard i) in
        let c = (y.peers i).conn in
        let env = peer_env turn write_ok send_ok now y.app in
        let handled =
          dispatch-Handled env ecu_address (Header.from_u16 f.payload_type) f.payload c
            (answers_of i y.served) d in
        let done = handle_frame turn ecu_address write_ok send_ok now y.app f c in
        let spoken = Handled-Spoken write_ok send_ok done serves handled in
        (
          Serves-IsOneRun serves run,
          set_peer-IsHeard i (after_frame done fs) y.peers y.served served
              (after_frame-IsHeard done.0 done.1 fs (answers_of i served) spoken)
              (Serves-others serves) heard,
        )
    Step-Holds {y = y} (leaves i at_phase idle) (run, heard) =
        let d = connected-Dialogue (y.peers i) (answers_of i y.served) at_phase (heard i) in
        (
          run,
          set_peer-IsHeard i (record (y.peers i) { phase = closed }) y.peers y.served y.served
              (inl d) (λ j other. refl) heard,
        )

    -- In every run with any number of testers, however their frames interleave and however writes and
    -- hand-overs fail: the main loop stands where one run of it on all requests that it served does,
    -- in their order and with these responses. What a connection wrote is notices and, behind each
    -- request that it forwarded, the main loop's response to this very request as one diagnostic
    -- message, or nothing where it is empty; so no tester gets the answer to another. On an open
    -- connection no answer is missing, on a closed one at most the last.
    pub Reach-answered :
        {y : Service S H}
        → Reach turn ecu_address server0 shared0 y
        → IsOneRun y.served y.app
          × ((i : ℕ)
              → Heard ecu_address (y.peers i).phase (y.peers i).conn.log (answers_of i y.served))
    Reach-answered begin = (unfold main_loop in (refl, refl), λ i. refl)
    Reach-answered (after reached step) = Step-Holds step (Reach-answered reached)
