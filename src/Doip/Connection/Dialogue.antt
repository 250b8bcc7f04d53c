-- ===== src/Doip/Connection/Dialogue.antt =====
-- flxc1000-doip/src/connection.rs: what a connection writes, read as a dialogue about the requests
-- that it forwards and the answers to them.
use flxc1000_rpi.Prelude.{
  ℕ, ◌≡◌, refl, ◌⊎◌, inl, inr, Bool-cases, not, ◌==◌, ◌&&◌, Option, none, some, Option-cases, List,
  [], ◌∷◌,
}
use flxc1000_rpi.Doip.Header.{
  PayloadType, routing_activation_request, diagnostic_message, alive_check_request,
}
use flxc1000_rpi.Doip.Message.Alive
use flxc1000_rpi.Doip.Message.Diagnostic
use flxc1000_rpi.Doip.Message.Diagnostic.{DiagnosticMessage}
use flxc1000_rpi.Doip.Message.Routing
use flxc1000_rpi.Doip.Connection.Action.{
  UdsRequest, ConnectionState, awaiting_activation, active, Effect, wrote, forwarded, Env, Conn,
  Result, ok, err, out_of_fuel,
}
use flxc1000_rpi.Doip.Connection.Exchange.{request_of}
use flxc1000_rpi.Doip.Connection.Process.{
  activation_response, positive_ack, uds_response, unknown_target_nack, handle_routing_activation,
  write_response, forward_request, answer_diagnostic_message, handle_diagnostic_message, dispatch,
}

-- The requests that were forwarded, newest first.
abbrev pub requests_of : List Effect → List UdsRequest
requests_of [] = []
requests_of (wrote bytes ∷ log) = requests_of log
requests_of (forwarded req ∷ log) = req ∷ requests_of log

abbrev pub answers_to : List (UdsRequest × List ℕ) → List UdsRequest
answers_to [] = []
answers_to ((req, bytes) ∷ answers) = req ∷ answers_to answers

-- What a connection writes without the UDS side.
pub data IsNotice (ecu_address : ℕ) : List ℕ → Type 0 where
  activation : (tester : ℕ) → IsNotice ecu_address (activation_response ecu_address tester)
  acknowledgement : (source : ℕ) → IsNotice ecu_address (positive_ack ecu_address source)
  refusal : (source : ℕ) → IsNotice ecu_address (unknown_target_nack ecu_address source)
  alive : IsNotice ecu_address (Alive.encode (record { source_address = ecu_address }))

-- A log, newest first, against the requests with their answers: behind each request stands the
-- answer to it, in one diagnostic message, or nothing where the answer is empty. All else is no
-- diagnostic message.
pub data Dialogue (ecu_address : ℕ) : List Effect → List (UdsRequest × List ℕ) → Type 0 where
  opened : Dialogue ecu_address [] []
  noticed :
      {bytes : List ℕ} {log : List Effect} {answers : List (UdsRequest × List ℕ)}
      → IsNotice ecu_address bytes
      → Dialogue ecu_address log answers
      → Dialogue ecu_address (wrote bytes ∷ log) answers
  unanswered :
      {log : List Effect} {answers : List (UdsRequest × List ℕ)} (req : UdsRequest)
      → Dialogue ecu_address log answers
      → Dialogue ecu_address
          (forwarded req ∷ wrote (positive_ack ecu_address req.source_address) ∷ log)
          ((req, []) ∷ answers)
  answered :
      {log : List Effect} {answers : List (UdsRequest × List ℕ)} (req : UdsRequest) (tester b : ℕ)
      (bs : List ℕ)
      → Dialogue ecu_address log answers
      → Dialogue ecu_address
          (wrote (uds_response ecu_address tester (b ∷ bs))
            ∷ forwarded req
            ∷ wrote (positive_ack ecu_address req.source_address)
            ∷ log)
          ((req, b ∷ bs) ∷ answers)

-- A dialogue whose last answer could not be written.
pub data Cut (ecu_address : ℕ) : List Effect → List (UdsRequest × List ℕ) → Type 0 where
  cut :
      {log : List Effect} {answers : List (UdsRequest × List ℕ)} (req : UdsRequest) (bytes : List ℕ)
      → Dialogue ecu_address log answers
      → Cut ecu_address
          (forwarded req ∷ wrote (positive_ack ecu_address req.source_address) ∷ log)
          ((req, bytes) ∷ answers)

-- Only a connection that ends with an error may leave it cut.
abbrev pub Spoken : ℕ → Result (Unit {0}) → List Effect → List (UdsRequest × List ℕ) → Type 0
Spoken ecu_address (ok a) log answers = Dialogue ecu_address log answers
Spoken ecu_address (err e) log answers =
    Dialogue ecu_address log answers ⊎ Cut ecu_address log answers
Spoken ecu_address out_of_fuel log answers =
    Dialogue ecu_address log answers ⊎ Cut ecu_address log answers

module _ (env : Env) (ecu_address : ℕ) where
  -- What one frame does to a connection: it forwards nothing, or one request, whose answer is the
  -- one that comes back.
  pub data Handled (old : List Effect) (answers : List (UdsRequest × List ℕ))
      (after : Result (Unit {0}) × Conn) : Type 0 where
    told :
        requests_of after.1.log ≡ requests_of old
        → Spoken ecu_address after.0 after.1.log answers
        → Handled old answers after
    asked :
        (req : UdsRequest)
        → requests_of after.1.log ≡ req ∷ requests_of old
        → ((bytes : List ℕ)
            → env.reply
                (forwarded req ∷ wrote (positive_ack ecu_address req.source_address) ∷ old)
                req
              ≡ some bytes
            → Spoken ecu_address after.0 after.1.log ((req, bytes) ∷ answers))
        → Handled old answers after

  write_response-requests_of :
      (tester : ℕ) (r : Option (List ℕ)) (c : Conn)
      → requests_of (write_response env ecu_address tester r c).1.log ≡ requests_of c.log
  unfolding write_response
  write_response-requests_of tester none c = refl
  write_response-requests_of tester (some []) c = refl
  write_response-requests_of tester (some (b ∷ bs)) c =
      elim (Bool-cases (env.write_ok c.log (uds_response ecu_address tester (b ∷ bs)))) [
        | inl w ↦ rw w refl
        | inr w ↦ rw w refl
      ]

  write_response-Spoken :
      (tester : ℕ) (req : UdsRequest) (bytes : List ℕ) (state : ConnectionState) (log : List Effect)
      (answers : List (UdsRequest × List ℕ))
      → Dialogue ecu_address log answers
      → let sent = forwarded req ∷ wrote (positive_ack ecu_address req.source_address) ∷ log in
        let after =
          write_response env ecu_address tester
            (some bytes)
            (record { state = state; log = sent }) in
        Spoken ecu_address after.0 after.1.log ((req, bytes) ∷ answers)
  unfolding write_response
  write_response-Spoken tester req [] state log answers d = unanswered req d
  write_response-Spoken tester req (b ∷ bs) state log answers d =
      let sent = forwarded req ∷ wrote (positive_ack ecu_address req.source_address) ∷ log in
      elim (Bool-cases (env.write_ok sent (uds_response ecu_address tester (b ∷ bs)))) [
        | inl w ↦ rw w (answered req tester b bs d)
        | inr w ↦ rw w (inr (cut req (b ∷ bs) d))
      ]

  forward_request-Handled :
      (tester : ℕ) (msg : DiagnosticMessage) (state : ConnectionState) (log : List Effect)
      (answers : List (UdsRequest × List ℕ))
      → Dialogue ecu_address log answers
      → Handled log answers
          (forward_request env ecu_address tester msg (record { state = state; log = log }))
  unfolding forward_request
  forward_request-Handled tester msg state log answers d =
      let ack = positive_ack ecu_address msg.source_address in
      let req = request_of msg in
      let sent = forwarded req ∷ wrote ack ∷ log in
      elim (Bool-cases (env.write_ok log ack)) [
        | inr w ↦ rw w (told refl (inl d))
        | inl w ↦ elim (Bool-cases (env.send_ok (wrote ack ∷ log) req)) [
          | inr f ↦ rw (w, f) (told refl (inl (noticed (acknowledgement _) d)))
          | inl f ↦
              rw (w, f)
                (asked req
                  (write_response-requests_of tester (env.reply sent req)
                    (record { state = state; log = sent }))
                  (λ bytes e. rw e (write_response-Spoken tester req bytes state log answers d)))
        ]
      ]

  handle_routing_activation-Handled :
      (payload : List ℕ) (state : ConnectionState) (log : List Effect)
      (answers : List (UdsRequest × List ℕ))
      → Dialogue ecu_address log answers
      → Handled log answers
          (handle_routing_activation env ecu_address payload (record { state = state; log = log }))
  unfolding handle_routing_activation
  handle_routing_activation-Handled payload state log answers d =
      elim (Option-cases (Routing.parse payload)) [
        | inl e ↦ rw e (told refl (inl d))
        | inr (req, e) ↦
            elim (Bool-cases
              (env.write_ok log (activation_response ecu_address req.source_address))) [
                | inl w ↦ rw (e, w) (told refl (noticed (activation _) d))
                | inr w ↦ rw (e, w) (told refl (inl d))
              ]
      ]

  answer_diagnostic_message-Handled :
      (payload : List ℕ) (known state : ConnectionState) (log : List Effect)
      (answers : List (UdsRequest × List ℕ))
      → Dialogue ecu_address log answers
      → Handled log answers (
          answer_diagnostic_message env ecu_address payload known
            (record { state = state; log = log }))
  unfolding answer_diagnostic_message
  answer_diagnostic_message-Handled payload awaiting_activation state log answers d = told refl d
  answer_diagnostic_message-Handled payload (active tester) state log answers d =
      elim (Option-cases (Diagnostic.parse payload)) [
        | inl p ↦ rw p (told refl (inl d))
        | inr (msg, p) ↦
            elim (Bool-cases
              (not (msg.target_address == ecu_address) && not (msg.target_address == 0xFFFF))) [
                | inr ours ↦ rw (p, ours) (forward_request-Handled tester msg state log answers d)
                | inl other ↦
                    elim (Bool-cases
                      (env.write_ok log (unknown_target_nack ecu_address msg.source_address))) [
                        | inl w ↦ rw (p, other, w) (told refl (noticed (refusal _) d))
                        | inr w ↦ rw (p, other, w) (told refl (inl d))
                      ]
              ]
      ]

  pub dispatch-Handled :
      (t : Option PayloadType) (payload : List ℕ) (c : Conn) (answers : List (UdsRequest × List ℕ))
      → Dialogue ecu_address c.log answers
      → Handled c.log answers (dispatch env ecu_address t payload c)
  unfolding dispatch handle_diagnostic_message
  dispatch-Handled (some routing_activation_request) payload c answers d =
      handle_routing_activation-Handled payload c.state c.log answers d
  dispatch-Handled (some diagnostic_message) payload c answers d =
      answer_diagnostic_message-Handled payload c.state c.state c.log answers d
  dispatch-Handled (some alive_check_request) payload c answers d =
      elim (Bool-cases
        (env.write_ok c.log (Alive.encode (record { source_address = ecu_address })))) [
          | inl w ↦ rw w (told refl (noticed alive d))
          | inr w ↦ rw w (told refl (inl d))
        ]
  dispatch-Handled other payload c answers d = told refl d
