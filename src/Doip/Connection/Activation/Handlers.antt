-- ===== src/Doip/Connection/Activation/Handlers.antt =====
-- flxc1000-doip/src/connection.rs: each handler of a connection keeps it safe.
use flxc1000_rpi.Prelude.{
  ℕ, ◌≡◌, refl, subst, ◌⊎◌, inl, inr, Bool, false, Bool-cases, not, ◌==◌, ◌&&◌, Option, none, some,
  List, [], ◌∷◌, arith, Option-cases,
}
use flxc1000_rpi.Doip.Header.{
  PayloadType, routing_activation_request, diagnostic_message, alive_check_request,
}
use flxc1000_rpi.Doip.Message.Routing
use flxc1000_rpi.Doip.Message.Diagnostic
use flxc1000_rpi.Doip.Message.Diagnostic.{DiagnosticMessage}
use flxc1000_rpi.Doip.Connection.Action.{
  UdsRequest, ConnectionState, awaiting_activation, active, wrote, forwarded, Env, Conn, write_all,
  Action,
}
use flxc1000_rpi.Doip.Connection.Process.{
  activation_response, positive_ack, uds_response, handle_routing_activation, write_response,
  forward_request, answer_diagnostic_message, unknown_target_nack, handle_diagnostic_message,
  dispatch,
}
use flxc1000_rpi.Doip.Connection.Activation.{
  Activated, ActiveFits, ActiveFits-cons, IsSafe, IsSafe-wrote,
}

module _ (env : Env) (ecu_address : ℕ) where
  -- What an action does to a safe connection leaves it safe.
  abbrev pub Keeps : Action (Unit {0}) → Type 0
  Keeps m = (c : Conn) → IsSafe ecu_address c → IsSafe ecu_address (m c).1

  write_all-IsSafe : (bytes : List ℕ) → Keeps (write_all env bytes)
  write_all-IsSafe bytes c s = elim (Bool-cases (env.write_ok c.log bytes)) [
    | inl e ↦ rw e (IsSafe-wrote ecu_address bytes c s)
    | inr e ↦ rw e s
  ]

  write_response-IsSafe :
      (tester : ℕ) (r : Option (List ℕ)) → Keeps (write_response env ecu_address tester r)
  unfolding write_response
  write_response-IsSafe tester none c s = s
  write_response-IsSafe tester (some []) c s = s
  write_response-IsSafe tester (some (b ∷ bs)) c s =
      write_all-IsSafe (uds_response ecu_address tester (b ∷ bs)) c s

  handle_routing_activation-IsSafe :
      (payload : List ℕ) → Keeps (handle_routing_activation env ecu_address payload)
  unfolding handle_routing_activation
  handle_routing_activation-IsSafe payload c s = elim (Option-cases (Routing.parse payload)) [
    | inl e ↦ rw e s
    | inr (req, e) ↦
        elim (Bool-cases
          (env.write_ok c.log (activation_response ecu_address req.source_address))) [
            | inl w ↦ rw (e, w) (record { guarded = s.guarded; activated = inl refl })
            | inr w ↦ rw (e, w) s
          ]
  ]

  forward_request-IsSafe :
      (tester : ℕ) (msg : DiagnosticMessage)
      → (msg.target_address ≡ ecu_address) ⊎ (msg.target_address ≡ 0xFFFF)
      → (c : Conn) → c.state ≡ active tester
      → IsSafe ecu_address c
      → IsSafe ecu_address (forward_request env ecu_address tester msg c).1
  unfolding forward_request
  forward_request-IsSafe tester msg for_us c is_active s =
      elim (Bool-cases (env.write_ok c.log ack)) [
        | inr w ↦ rw w s
        | inl w ↦ elim (Bool-cases (env.send_ok (wrote ack ∷ c.log) req)) [
          | inr f ↦ rw (w, f) (IsSafe-wrote ecu_address ack c s)
          | inl f ↦ rw (w, f) (write_response-IsSafe tester _ _ sent)
        ]
      ]
    where
      ack : List ℕ
      ack = positive_ack ecu_address msg.source_address

      req : UdsRequest
      req = record {
        source_address = msg.source_address;
        target_address = msg.target_address;
        bytes = msg.user_data;
      }

      activated : Activated ecu_address tester c.log
      activated = subst (λ state. ActiveFits ecu_address state c.log) is_active s.activated

      sent : IsSafe ecu_address (record c { log = forwarded req ∷ wrote ack ∷ c.log })
      sent = record {
        guarded = (for_us, (c.log, refl), (tester, inr activated), s.guarded);
        activated =
            ActiveFits-cons ecu_address c.state (forwarded req) (wrote ack ∷ c.log)
              (ActiveFits-cons ecu_address c.state (wrote ack) c.log s.activated);
      }

  answer_diagnostic_message-IsSafe :
      (payload : List ℕ) (state : ConnectionState) (c : Conn)
      → c.state ≡ state
      → IsSafe ecu_address c
      → IsSafe ecu_address (answer_diagnostic_message env ecu_address payload state c).1
  unfolding answer_diagnostic_message
  answer_diagnostic_message-IsSafe payload awaiting_activation c e s = s
  answer_diagnostic_message-IsSafe payload (active tester) c e s =
      elim (Option-cases (Diagnostic.parse payload)) [
        | inl p ↦ rw p s
        | inr (msg, p) ↦ elim (Bool-cases (not_for_us msg)) [
          | inl other ↦
              rw (p, other)
                (write_all-IsSafe (unknown_target_nack ecu_address msg.source_address) c s)
          | inr ours ↦ rw (p, ours) (forward_request-IsSafe tester msg (for_us msg ours) c e s)
        ]
      ]
    where
      not_for_us : DiagnosticMessage → Bool
      not_for_us msg = not (msg.target_address == ecu_address) && not (msg.target_address == 0xFFFF)

      for_us :
          (msg : DiagnosticMessage)
          → not_for_us msg ≡ false
          → (msg.target_address ≡ ecu_address) ⊎ (msg.target_address ≡ 0xFFFF)
      for_us msg h = ground arith

  pub dispatch-IsSafe :
      (t : Option PayloadType) (payload : List ℕ) → Keeps (dispatch env ecu_address t payload)
  unfolding dispatch handle_diagnostic_message
  dispatch-IsSafe (some routing_activation_request) payload c s =
      handle_routing_activation-IsSafe payload c s
  dispatch-IsSafe (some diagnostic_message) payload c s =
      answer_diagnostic_message-IsSafe payload c.state c refl s
  dispatch-IsSafe (some alive_check_request) payload c s = write_all-IsSafe _ c s
  dispatch-IsSafe other payload c s = s
