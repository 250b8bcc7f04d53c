-- ===== src/Doip/Connection/Exchange.antt =====
-- flxc1000-doip/src/connection.rs: what one message does to a connection, from end to end.
use flxc1000_rpi.Prelude.{
  ℕ, ◌+◌, ◌≤◌, ◌<◌, ◌≡◌, ◌≢◌, refl, sym, ap, ◌∙◌, inl, inr, true, not, ◌&&◌, ◌||◌, ◌==◌, ltb,
  if◌then◌else◌, Bool-cases, not_ltb→le, ltb→lt, Option, none, some, List, [], ◌∷◌, ◌++◌, length,
  drop, length-append, arith,
}
use flxc1000_rpi.Bytes.{IsU16}
use flxc1000_rpi.Doip.Header
use flxc1000_rpi.Doip.Header.{header_size}
use flxc1000_rpi.Doip.Header.Codec.{IsHeader, parse-encode, parse-append, length-encode}
use flxc1000_rpi.Doip.Message.Diagnostic
use flxc1000_rpi.Doip.Message.Diagnostic.{DiagnosticMessage}
use flxc1000_rpi.Doip.Message.Laws.{parse-encode_diagnostic}
use flxc1000_rpi.Doip.Connection.Action.{
  UdsRequest, active, Effect, wrote, forwarded, Env, Conn, ok, Action, write_all,
}
use flxc1000_rpi.Doip.Connection.Process.{
  positive_ack, unknown_target_nack, uds_response, write_response, forward_request,
  handle_diagnostic_message,
}
use flxc1000_rpi.Doip.Connection.Framing.{
  Frame, header_of, frame_bytes, IsIncomplete, handle_frames, process_tcp_data-handle_frames,
}
use flxc1000_rpi.Doip.Connection.Loop.{running, read_ok, on_event, after_processing}

-- A stream and a UDS side on which nothing fails.
pub record IsHealthy (env : Env) : Type 0 where
  pub writes : (log : List Effect) (bytes : List ℕ) → env.write_ok log bytes ≡ true
  pub sends : (log : List Effect) (r : UdsRequest) → env.send_ok log r ≡ true

abbrev pub request_of : DiagnosticMessage → UdsRequest
request_of msg = record {
  source_address = msg.source_address;
  target_address = msg.target_address;
  bytes = msg.user_data;
}

-- The effects of a diagnostic message on an active connection, newest first.
abbrev pub answered : ℕ → ℕ → Option (List ℕ) → List Effect → List Effect
answered ecu_address tester none log = log
answered ecu_address tester (some []) log = log
answered ecu_address tester (some (b ∷ bs)) log =
    wrote (uds_response ecu_address tester (b ∷ bs)) ∷ log

abbrev pub exchanged : Env → ℕ → ℕ → DiagnosticMessage → List Effect → List Effect
exchanged env ecu_address tester msg log =
    let sent =
      forwarded (request_of msg) ∷ wrote (positive_ack ecu_address msg.source_address) ∷ log in
    if msg.target_address == ecu_address || msg.target_address == 0xFFFF
    then answered ecu_address tester (env.reply sent (request_of msg)) sent
    else wrote (unknown_target_nack ecu_address msg.source_address) ∷ log

module _ (env : Env) (ecu_address : ℕ) (healthy : IsHealthy env) where
  write_response-answered :
      (tester : ℕ) (r : Option (List ℕ)) (c : Conn)
      → write_response env ecu_address tester r c
        ≡ (ok tt, record c { log = answered ecu_address tester r c.log })
  unfolding write_response
  write_response-answered tester none c = refl
  write_response-answered tester (some []) c = refl
  write_response-answered tester (some (b ∷ bs)) c = rw (healthy.writes c.log _) refl

  forward_request-answered :
      (tester : ℕ) (msg : DiagnosticMessage) (c : Conn)
      → let sent =
          forwarded (request_of msg)
          ∷ wrote (positive_ack ecu_address msg.source_address)
          ∷ c.log in
        forward_request env ecu_address tester msg c ≡ (
          ok tt,
          record c { log = answered ecu_address tester (env.reply sent (request_of msg)) sent },
        )
  unfolding forward_request
  forward_request-answered tester msg c =
      rw (healthy.writes c.log _, healthy.sends _ (request_of msg))
        (write_response-answered tester _ _)

  checked-exchanged :
      (tester : ℕ) (msg : DiagnosticMessage) (c : Conn)
      → (if not (msg.target_address == ecu_address) && not (msg.target_address == 0xFFFF)
            then write_all env (unknown_target_nack ecu_address msg.source_address)
            else forward_request env ecu_address tester msg)
          c
        ≡ (ok tt, record c { log = exchanged env ecu_address tester msg c.log })
  checked-exchanged tester msg c = elim (Bool-cases (msg.target_address == ecu_address)) [
    | inl ours ↦ rw ours (forward_request-answered tester msg c)
    | inr other ↦ elim (Bool-cases (msg.target_address == 0xFFFF)) [
      | inl all ↦ rw (other, all) (forward_request-answered tester msg c)
      | inr none_of ↦ rw (other, none_of, healthy.writes c.log _) refl
    ]
  ]

  -- On an active connection a diagnostic message for this ECU or for all is acknowledged to its
  -- sender, forwarded, and answered to the tester unless the answer is missing or empty; one for
  -- another target is refused with the negative acknowledgement and not forwarded. This holds where
  -- no write and no hand-over fails, and leaves the activation as it is.
  pub handle_diagnostic_message-exchanged :
      (tester : ℕ) (msg : DiagnosticMessage) (c : Conn)
      → IsU16 msg.source_address
      → IsU16 msg.target_address
      → c.state ≡ active tester
      → handle_diagnostic_message env ecu_address (drop header_size (Diagnostic.encode msg)) c
        ≡ (ok tt, record c { log = exchanged env ecu_address tester msg c.log })
  unfolding handle_diagnostic_message
  handle_diagnostic_message-exchanged tester msg c hs ht is_active =
      rw (is_active, parse-encode_diagnostic msg hs ht)
        (checked-exchanged tester msg (record { state = active tester; log = c.log }))

-- Bytes that more must follow to make up a frame hold no whole frame.
beginning-IsIncomplete :
    (f : Frame) (front back : List ℕ)
    → IsHeader (header_of f)
    → back ≢ []
    → frame_bytes f ≡ front ++ back
    → IsIncomplete front
beginning-IsIncomplete f front back ok_f more split =
    elim (Bool-cases (ltb (length front) header_size)) [
      | inl short ↦ inl (ltb→lt _ _ short)
      | inr long ↦ inr (header_of f, parsed (not_ltb→le _ _ long), shorter)
    ]
  where
    parsed : header_size ≤ length front → Header.parse front ≡ some (header_of f)
    parsed enough =
        sym (parse-append front back enough)
        ∙ rw (← split) (parse-encode (header_of f) f.payload ok_f)

    some_more : 0 < length back
    some_more = ground arith

    sizes : header_size + length f.payload ≡ length front + length back
    sizes =
        sym (length-append (Header.encode (header_of f)) f.payload ∙ rw length-encode refl)
        ∙ ap length split
        ∙ length-append front back

    shorter : length front < header_size + length f.payload
    shorter = omega (arith, some_more, sizes)

-- A read of a proper beginning of a frame changes nothing but the time of the last activity: its
-- bytes are dropped, although the log line says that more data is waited for.
pub partial_read_dropped :
    (env : Env) (ecu_address now last_activity : ℕ) (c : Conn) (f : Frame) (b : ℕ)
    (bs back : List ℕ)
    → IsHeader (header_of f)
    → back ≢ []
    → frame_bytes f ≡ (b ∷ bs) ++ back
    → on_event env ecu_address (read_ok (b ∷ bs)) now c last_activity ≡ running c now
unfolding on_event handle_frames
partial_read_dropped env ecu_address now last_activity c f b bs back ok_f more split =
    ap (λ (a : Action (Unit {0})). after_processing now (a c))
      (process_tcp_data-handle_frames env ecu_address [] (b ∷ bs) tt
        (beginning-IsIncomplete f (b ∷ bs) back ok_f more split))
