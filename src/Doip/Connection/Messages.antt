-- ===== src/Doip/Connection/Messages.antt =====
-- flxc1000-doip/src/connection.rs: a read that holds a row of diagnostic messages, as a tester
-- encodes them.
use flxc1000_rpi.Prelude.{
  ℕ, ◌+◌, ◌^◌, ◌<◌, ◌≡◌, refl, ap₂, ◌∙◌, inl, List, [], ◌∷◌, ◌++◌, length, drop, All, arith,
  append_assoc, lt→ltb,
}
use flxc1000_rpi.Bytes.{IsU16}
use flxc1000_rpi.Doip.Header
use flxc1000_rpi.Doip.Header.{header_size, diagnostic_message, as_u16}
use flxc1000_rpi.Doip.Header.Codec.{IsHeader}
use flxc1000_rpi.Doip.Message.Diagnostic
use flxc1000_rpi.Doip.Message.Diagnostic.{DiagnosticMessage}
use flxc1000_rpi.Doip.Connection.Action.{
  active, Effect, Env, Conn, ok, err, invalid_diagnostic_message,
}
use flxc1000_rpi.Doip.Connection.Loop.{on_event, read_ok, ended, processing_error}
use flxc1000_rpi.Doip.Connection.Process.{
  dispatch, handle_diagnostic_message, answer_diagnostic_message, process_tcp_data,
}
use flxc1000_rpi.Doip.Connection.Framing.{
  Frame, header_of, frame_bytes, stream_bytes, AreFrames, handle_frames,
  process_tcp_data-handle_frames,
}
use flxc1000_rpi.Doip.Connection.Exchange.{
  IsHealthy, exchanged, handle_diagnostic_message-exchanged,
}

-- The fields fit their widths.
pub record IsMessage (m : DiagnosticMessage) : Type 0 where
  pub source_fits : IsU16 m.source_address
  pub target_fits : IsU16 m.target_address
  pub length_fits : 4 + length m.user_data < 2 ^ 32

abbrev frame_of : DiagnosticMessage → Frame
frame_of m = record {
  protocol_version = Header.protocol_version;
  inverse_version = Header.inverse_version;
  payload_type = 0x8001;
  payload = drop header_size (Diagnostic.encode m);
}

frame_of_bytes :
    (m : DiagnosticMessage) → IsMessage m → Diagnostic.encode m ≡ frame_bytes (frame_of m)
unfolding Diagnostic.encode Header.encode Header.new
frame_of_bytes m fits = ground arith

frame_of-IsHeader : (m : DiagnosticMessage) → IsMessage m → IsHeader (header_of (frame_of m))
unfolding Diagnostic.encode Header.encode Header.new
frame_of-IsHeader m fits = ground arith

abbrev pub encode_all : List DiagnosticMessage → List ℕ
encode_all [] = []
encode_all (m ∷ ms) = Diagnostic.encode m ++ encode_all ms

abbrev frames_of : List DiagnosticMessage → List Frame
frames_of [] = []
frames_of (m ∷ ms) = frame_of m ∷ frames_of ms

encode_all-stream_bytes :
    (ms : List DiagnosticMessage)
    → All IsMessage ms
    → encode_all ms ≡ stream_bytes (frames_of ms) []
encode_all-stream_bytes [] fits = refl
encode_all-stream_bytes (m ∷ ms) (fit, fits) =
    ap₂ ◌++◌ (frame_of_bytes m fit) (encode_all-stream_bytes ms fits)

frames_of-AreFrames : (ms : List DiagnosticMessage) → All IsMessage ms → AreFrames (frames_of ms)
frames_of-AreFrames [] fits = tt
frames_of-AreFrames (m ∷ ms) (fit, fits) = (frame_of-IsHeader m fit, frames_of-AreFrames ms fits)

-- The effects of one message after the other.
abbrev pub exchange_all : Env → ℕ → ℕ → List DiagnosticMessage → List Effect → List Effect
exchange_all env ecu_address tester [] log = log
exchange_all env ecu_address tester (m ∷ ms) log =
    exchange_all env ecu_address tester ms (exchanged env ecu_address tester m log)

module _ (env : Env) (ecu_address tester : ℕ) (healthy : IsHealthy env) where
  dispatch-exchanged :
      (m : DiagnosticMessage) (c : Conn)
      → IsMessage m
      → c.state ≡ active tester
      → dispatch env ecu_address (Header.from_u16 0x8001) (drop header_size (Diagnostic.encode m)) c
        ≡ (ok tt, record c { log = exchanged env ecu_address tester m c.log })
  unfolding dispatch Header.from_u16
  dispatch-exchanged m c fits is_active =
      handle_diagnostic_message-exchanged env ecu_address healthy tester m c fits.source_fits
        fits.target_fits is_active

  handle_frames-exchange_all :
      (ms : List DiagnosticMessage) (c : Conn)
      → All IsMessage ms
      → c.state ≡ active tester
      → handle_frames env ecu_address (frames_of ms) c
        ≡ (ok tt, record c { log = exchange_all env ecu_address tester ms c.log })
  unfolding handle_frames
  handle_frames-exchange_all [] c fits is_active = refl
  handle_frames-exchange_all (m ∷ ms) c (fit, fits) is_active =
      rw (dispatch-exchanged m c fit is_active) (
        handle_frames-exchange_all ms (record c { log = exchanged env ecu_address tester m c.log })
          fits is_active)

  -- A read of the encodings of any row of messages, on a connection that is active for a tester and
  -- on which no write and no hand-over fails, does what the messages do one after the other.
  pub process_tcp_data-exchange_all :
      (ms : List DiagnosticMessage) (c : Conn)
      → All IsMessage ms
      → c.state ≡ active tester
      → process_tcp_data env ecu_address (encode_all ms) c
        ≡ (ok tt, record c { log = exchange_all env ecu_address tester ms c.log })
  process_tcp_data-exchange_all ms c fits is_active =
      rw
        (
          encode_all-stream_bytes ms fits,
          process_tcp_data-handle_frames env ecu_address (frames_of ms) []
              (frames_of-AreFrames ms fits) (inl (omega arith)),
        )
        (handle_frames-exchange_all ms c fits is_active)

  dispatch-malformed :
      (v : ℕ) (payload : List ℕ) (c : Conn)
      → v ≡ 0x8001
      → length payload < 4
      → c.state ≡ active tester
      → dispatch env ecu_address (Header.from_u16 v) payload c ≡ (err invalid_diagnostic_message, c)
  unfolding dispatch Header.from_u16 handle_diagnostic_message answer_diagnostic_message
      Diagnostic.parse
  dispatch-malformed v payload c e short is_active = rw (e, is_active, lt→ltb _ _ short) refl

  handle_frames-stops :
      (ms : List DiagnosticMessage) (bad : Frame) (later : List Frame) (c : Conn)
      → All IsMessage ms
      → c.state ≡ active tester
      → bad.payload_type ≡ 0x8001
      → length bad.payload < 4
      → handle_frames env ecu_address (frames_of ms ++ bad ∷ later) c ≡ (
        err invalid_diagnostic_message,
        record c { log = exchange_all env ecu_address tester ms c.log },
      )
  unfolding handle_frames
  handle_frames-stops [] bad later c fits is_active diagnostic short =
      rw (dispatch-malformed bad.payload_type bad.payload c diagnostic short is_active) refl
  handle_frames-stops (m ∷ ms) bad later c (fit, fits) is_active diagnostic short =
      rw (dispatch-exchanged m c fit is_active) (
        handle_frames-stops ms bad later
          (record c { log = exchanged env ecu_address tester m c.log }) fits is_active diagnostic
          short)

  frames_of-append :
      (ms : List DiagnosticMessage) (later : List Frame)
      → All IsMessage ms
      → AreFrames later
      → (encode_all ms ++ stream_bytes later [] ≡ stream_bytes (frames_of ms ++ later) [])
        × AreFrames (frames_of ms ++ later)
  frames_of-append [] later fits ok_later = (refl, ok_later)
  frames_of-append (m ∷ ms) later (fit, fits) ok_later =
      let (same, are) = frames_of-append ms later fits ok_later in
      (
        append_assoc (Diagnostic.encode m) (encode_all ms) (stream_bytes later [])
            ∙ ap₂ ◌++◌ (frame_of_bytes m fit) same,
        (frame_of-IsHeader m fit, are),
      )

  -- A diagnostic frame whose payload is too short for the two addresses ends an active connection
  -- with that error: the messages before it in the same read have had their effects, it has none,
  -- and the frames behind it are not handled. This holds where no write and no hand-over fails.
  pub on_event-malformed :
      (ms : List DiagnosticMessage) (bad : Frame) (later : List Frame) (b : ℕ) (bs : List ℕ)
      (now last_activity : ℕ) (c : Conn)
      → All IsMessage ms
      → AreFrames (bad ∷ later)
      → bad.payload_type ≡ 0x8001
      → length bad.payload < 4
      → b ∷ bs ≡ encode_all ms ++ stream_bytes (bad ∷ later) []
      → c.state ≡ active tester
      → on_event env ecu_address (read_ok (b ∷ bs)) now c last_activity
        ≡ ended
            (processing_error invalid_diagnostic_message)
            (record c { log = exchange_all env ecu_address tester ms c.log })
  unfolding on_event
  on_event-malformed ms bad later b bs now last_activity c fits ok_frames diagnostic short split
        is_active =
      let (same, are) = frames_of-append ms (bad ∷ later) fits ok_frames in
      let run =
        process_tcp_data-handle_frames env ecu_address (frames_of ms ++ bad ∷ later) [] are
          (inl (omega arith)) in
      rw (split, same, run, handle_frames-stops ms bad later c fits is_active diagnostic short) refl
