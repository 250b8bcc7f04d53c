-- ===== src/Doip/Connection/Process.antt =====
-- flxc1000-doip/src/connection.rs: `process_tcp_data` and the two handlers that it calls.
use flxc1000_rpi.Prelude.{
  ℕ, zero, suc, ◌+◌, ◌-◌, ltb, leb, ◌==◌, if◌then◌else◌, Bool, true, false, not, ◌&&◌, Option, none,
  some, List, [], ◌∷◌, length, take, drop,
}
use flxc1000_rpi.Doip.Header
use flxc1000_rpi.Doip.Header.{
  PayloadType, DoipHeader, header_size, routing_activation_request, diagnostic_message,
  alive_check_request,
}
use flxc1000_rpi.Doip.Message.Alive
use flxc1000_rpi.Doip.Message.Diagnostic
use flxc1000_rpi.Doip.Message.Diagnostic.{DiagnosticMessage, unknown_target_address}
use flxc1000_rpi.Doip.Message.Routing
use flxc1000_rpi.Doip.Message.Routing.{success}
use flxc1000_rpi.Doip.Connection.Action.{
  UdsRequest, ConnectionState, awaiting_activation, active, Env, invalid_routing_activation_request,
  invalid_diagnostic_message, Action, pure, diverge, or_raise, ◌>>=◌, ◌>>◌, get_state, set_state,
  write_all, send, recv,
}

-- The answers that the handlers write.
abbrev pub activation_response : ℕ → ℕ → List ℕ
activation_response ecu_address tester_address = Routing.encode (record {
  tester_address = tester_address;
  entity_address = ecu_address;
  response_code = success;
  reserved = 0;
})

abbrev pub positive_ack : ℕ → ℕ → List ℕ
positive_ack ecu_address source_address =
    Diagnostic.encode_ack
      (record { source_address = ecu_address; target_address = source_address; ack_code = 0x00 })

abbrev pub unknown_target_nack : ℕ → ℕ → List ℕ
unknown_target_nack ecu_address source_address = Diagnostic.encode_nack (record {
  source_address = ecu_address;
  target_address = source_address;
  nack_code = unknown_target_address;
})

abbrev pub uds_response : ℕ → ℕ → List ℕ → List ℕ
uds_response ecu_address tester_address response =
    Diagnostic.encode (record {
      source_address = ecu_address;
      target_address = tester_address;
      user_data = response;
    })

abbrev pub is_empty : List ℕ → Bool
is_empty [] = true
is_empty (b ∷ bs) = false

module _ (env : Env) (ecu_address : ℕ) where
  unfoldable pub handle_routing_activation : List ℕ → Action (Unit {0})
  handle_routing_activation payload = do
    req ← or_raise (Routing.parse payload) invalid_routing_activation_request
    write_all env (activation_response ecu_address req.source_address)
    set_state (active req.source_address)

  -- `if let Some(response_data) = ... { if !response_data.is_empty() { ... } }`
  unfoldable pub write_response : ℕ → Option (List ℕ) → Action (Unit {0})
  write_response tester_address none = pure tt
  write_response tester_address (some response) =
      if not (is_empty response)
      then write_all env (uds_response ecu_address tester_address response)
      else pure tt

  -- What follows the check of the target address.
  unfoldable pub forward_request : ℕ → DiagnosticMessage → Action (Unit {0})
  unfolding write_response
  forward_request tester_address msg = do
    write_all env (positive_ack ecu_address msg.source_address)
    let uds_req : UdsRequest = record {
      source_address = msg.source_address;
      target_address = msg.target_address;
      bytes = msg.user_data;
    }
    send env uds_req
    response ← recv env uds_req
    write_response tester_address response

  unfoldable pub answer_diagnostic_message : List ℕ → ConnectionState → Action (Unit {0})
  unfolding forward_request
  answer_diagnostic_message payload awaiting_activation = pure tt
  answer_diagnostic_message payload (active tester_address) = do
    msg ← or_raise (Diagnostic.parse payload) invalid_diagnostic_message
    if not (msg.target_address == ecu_address) && not (msg.target_address == 0xFFFF)
        then write_all env (unknown_target_nack ecu_address msg.source_address)
        else forward_request tester_address msg

  unfoldable pub handle_diagnostic_message : List ℕ → Action (Unit {0})
  unfolding answer_diagnostic_message
  handle_diagnostic_message payload = do state ← get_state; answer_diagnostic_message payload state

  -- The `match` on the payload type; the last clause is `other`, which only logs.
  unfoldable pub dispatch : Option PayloadType → List ℕ → Action (Unit {0})
  dispatch (some routing_activation_request) payload = handle_routing_activation payload
  dispatch (some diagnostic_message) payload = handle_diagnostic_message payload
  dispatch (some alive_check_request) payload =
      write_all env (Alive.encode (record { source_address = ecu_address }))
  dispatch other payload = pure tt

  -- The `while` at `offset`, for at most `fuel` rounds. `usize` has 64 bits on the target, so the
  -- sums of a 32-bit length cannot wrap.
  unfoldable pub process_from : ℕ → List ℕ → ℕ → Action (Unit {0})
  process_from zero bytes offset = diverge
  process_from (suc fuel) bytes offset =
      if leb (offset + header_size) (length bytes)
      then elim (Header.parse (drop offset bytes)) [
        | none ↦ pure tt
        | some header ↦
            let total_len = header_size + header.payload_length in
            if ltb (length bytes) (offset + total_len)
            then pure tt
            else dispatch (Header.from_u16 header.payload_type) (
                take (offset + total_len - (offset + header_size))
                  (drop (offset + header_size) bytes))
              >> process_from fuel bytes (offset + total_len)
      ]
      else pure tt

  -- Each round takes eight bytes at least, so one round more than there are bytes is enough.
  unfoldable pub process_tcp_data : List ℕ → Action (Unit {0})
  unfolding process_from
  process_tcp_data bytes = process_from (suc (length bytes)) bytes 0
