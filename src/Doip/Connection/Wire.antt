-- ===== src/Doip/Connection/Wire.antt =====
-- flxc1000-doip/src/connection.rs: everything that a connection writes is a DoIP frame.
use flxc1000_rpi.Prelude.{
  ℕ, ◌+◌, ◌<◌, ◌^◌, ◌≡◌, ◌==◌, refl, not, ◌&&◌, inl, inr, Bool-cases, Option, none, some,
  Option-cases, List, [], ◌∷◌, length,
}
use flxc1000_rpi.Doip.Header.{
  PayloadType, routing_activation_request, diagnostic_message, alive_check_request,
  diagnostic_message_positive_ack, diagnostic_message_negative_ack, alive_check_response,
  routing_activation_response,
}
use flxc1000_rpi.Doip.Message.Diagnostic
use flxc1000_rpi.Doip.Message.Diagnostic.{DiagnosticMessage}
use flxc1000_rpi.Doip.Message.Routing
use flxc1000_rpi.Doip.Message.Laws.{
  IsFrame, encode-IsFrame, encode_ack-IsFrame, encode_nack-IsFrame, encode_alive-IsFrame,
  encode_routing-IsFrame,
}
use flxc1000_rpi.Doip.Connection.Action.{
  UdsRequest, ConnectionState, awaiting_activation, active, Effect, wrote, forwarded, Env, Conn,
  write_all,
}
use flxc1000_rpi.Doip.Connection.Loop.{Link, connect, Reach}
use flxc1000_rpi.Doip.Connection.Process.{
  activation_response, positive_ack, uds_response, unknown_target_nack, handle_routing_activation,
  write_response, forward_request, answer_diagnostic_message, handle_diagnostic_message, dispatch,
}
use flxc1000_rpi.Doip.Connection.Runs.{Keeps, conn_of, Reach_keeps}

-- Everything that was written is one frame of some type, with the right length field.
abbrev pub IsWire : List Effect → Type 0
IsWire [] = Unit {0}
IsWire (wrote bytes ∷ log) = ((t : PayloadType) × IsFrame t bytes) × IsWire log
IsWire (forwarded r ∷ log) = IsWire log

abbrev pub IsWired : Conn → Type 0
IsWired c = IsWire c.log

-- The UDS side answers no more than a frame can hold.
abbrev pub FitsFrames : Env → Type 0
FitsFrames env =
    (log : List Effect) (r : UdsRequest) (bytes : List ℕ)
    → env.reply log r ≡ some bytes
    → 4 + length bytes < 2 ^ 32

module _ (env : Env) (ecu_address : ℕ) (fits : FitsFrames env) where
  write_all-IsWired :
      (t : PayloadType) (bytes : List ℕ) → IsFrame t bytes → Keeps IsWired (write_all env bytes)
  write_all-IsWired t bytes frame c s = elim (Bool-cases (env.write_ok c.log bytes)) [
    | inl e ↦ rw e ((t, frame), s)
    | inr e ↦ rw e s
  ]

  handle_routing_activation-IsWired :
      (payload : List ℕ) → Keeps IsWired (handle_routing_activation env ecu_address payload)
  unfolding handle_routing_activation
  handle_routing_activation-IsWired payload c s = elim (Option-cases (Routing.parse payload)) [
    | inl e ↦ rw e s
    | inr (req, e) ↦
        elim (Bool-cases
          (env.write_ok c.log (activation_response ecu_address req.source_address))) [
            | inl w ↦ rw (e, w) ((routing_activation_response, encode_routing-IsFrame _), s)
            | inr w ↦ rw (e, w) s
          ]
  ]

  write_response-IsWired :
      (tester : ℕ) (log : List Effect) (r : UdsRequest)
      → Keeps IsWired (write_response env ecu_address tester (env.reply log r))
  unfolding write_response
  write_response-IsWired tester log r c s = answer (env.reply log r) refl
    where
      answer :
          (response : Option (List ℕ))
          → env.reply log r ≡ response
          → IsWired (write_response env ecu_address tester response c).1
      answer none e = s
      answer (some []) e = s
      answer (some (b ∷ bs)) e =
          write_all-IsWired diagnostic_message (uds_response ecu_address tester (b ∷ bs))
            (encode-IsFrame
              (record { source_address = ecu_address; target_address = tester; user_data = b ∷ bs })
              (fits log r (b ∷ bs) e))
            c s

  forward_request-IsWired :
      (tester : ℕ) (msg : DiagnosticMessage)
      → Keeps IsWired (forward_request env ecu_address tester msg)
  unfolding forward_request
  forward_request-IsWired tester msg c s = elim (Bool-cases (env.write_ok c.log ack)) [
    | inr w ↦ rw w s
    | inl w ↦ elim (Bool-cases (env.send_ok (wrote ack ∷ c.log) req)) [
      | inr f ↦ rw (w, f) (frame, s)
      | inl f ↦ rw (w, f) (write_response-IsWired tester _ _ _ (frame, s))
    ]
  ]
    where
      ack : List ℕ
      ack = positive_ack ecu_address msg.source_address

      req : UdsRequest
      req = record {
        source_address = msg.source_address;
        target_address = msg.target_address;
        bytes = msg.user_data;
      }

      frame : (t : PayloadType) × IsFrame t ack
      frame = (diagnostic_message_positive_ack, encode_ack-IsFrame _)

  answer_diagnostic_message-IsWired :
      (payload : List ℕ) (state : ConnectionState)
      → Keeps IsWired (answer_diagnostic_message env ecu_address payload state)
  unfolding answer_diagnostic_message
  answer_diagnostic_message-IsWired payload awaiting_activation c s = s
  answer_diagnostic_message-IsWired payload (active tester) c s =
      elim (Option-cases (Diagnostic.parse payload)) [
        | inl p ↦ rw p s
        | inr (msg, p) ↦
            elim (Bool-cases
              (not (msg.target_address == ecu_address) && not (msg.target_address == 0xFFFF))) [
                | inl other ↦
                    rw (p, other)
                      (write_all-IsWired diagnostic_message_negative_ack
                        (unknown_target_nack ecu_address msg.source_address) (encode_nack-IsFrame _)
                        c s)
                | inr ours ↦ rw (p, ours) (forward_request-IsWired tester msg c s)
              ]
      ]

  dispatch-IsWired :
      (t : Option PayloadType) (payload : List ℕ)
      → Keeps IsWired (dispatch env ecu_address t payload)
  unfolding dispatch handle_diagnostic_message
  dispatch-IsWired (some routing_activation_request) payload c s =
      handle_routing_activation-IsWired payload c s
  dispatch-IsWired (some diagnostic_message) payload c s =
      answer_diagnostic_message-IsWired payload c.state c s
  dispatch-IsWired (some alive_check_request) payload c s =
      write_all-IsWired alive_check_response _ (encode_alive-IsFrame _) c s
  dispatch-IsWired other payload c s = s

-- In every run of a connection, whatever the peer sends and however writes and the UDS side fail,
-- each single write is one whole frame: a header of this protocol version with a known type and the
-- number of the bytes behind it. The answers of the UDS side are shorter than the 32-bit length
-- field allows.
pub Reach-IsWire :
    (env : Env) (ecu_address start : ℕ) {l : Link}
    → FitsFrames env
    → Reach env ecu_address (connect start) l
    → IsWire (conn_of l).log
Reach-IsWire env ecu_address start fits r =
    Reach_keeps env ecu_address IsWired (dispatch-IsWired env ecu_address fits) start tt r
