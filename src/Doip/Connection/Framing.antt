-- ===== src/Doip/Connection/Framing.antt =====
-- flxc1000-doip/src/connection.rs: the loop of `process_tcp_data` against a description of the
-- stream as a sequence of frames.
use flxc1000_rpi.Prelude.{
  ℕ, zero, suc, ◌+◌, ◌-◌, ◌≤◌, ◌<◌, ◌≡◌, refl, sym, ap, ap₂, ◌∙◌, ◌⊎◌, inl, inr, leb, some, List,
  [], ◌∷◌, ◌++◌, length, take, drop, length-drop, length-append, drop-drop, take-length_append,
  drop-length_append, append_assoc, le→leb, lt→ltb, lt→not_leb, le→not_ltb, arith, All, Bool-cases,
}
use native.Mathlib.Nat.{add_assoc}
use flxc1000_rpi.Doip.Header
use flxc1000_rpi.Doip.Header.{DoipHeader, header_size}
use flxc1000_rpi.Doip.Header.Codec.{IsHeader, parse-encode, length-encode, drop-encode}
use flxc1000_rpi.Doip.Connection.Action.{Env, Action, pure, ◌>>◌}
use flxc1000_rpi.Doip.Connection.Process.{dispatch, process_from, process_tcp_data}

-- A frame on the wire: any version bytes (the code does not test them), a type and a payload.
pub record Frame : Type 0 where
  pub protocol_version : ℕ
  pub inverse_version : ℕ
  pub payload_type : ℕ
  pub payload : List ℕ

abbrev pub header_of : Frame → DoipHeader
header_of f = record {
  protocol_version = f.protocol_version;
  inverse_version = f.inverse_version;
  payload_type = f.payload_type;
  payload_length = length f.payload;
}

abbrev pub frame_bytes : Frame → List ℕ
frame_bytes f = Header.encode (header_of f) ++ f.payload

-- The frames in a row, and what follows them.
abbrev pub stream_bytes : List Frame → List ℕ → List ℕ
stream_bytes [] rest = rest
stream_bytes (f ∷ fs) rest = frame_bytes f ++ stream_bytes fs rest

-- The fields of the headers fit their widths.
abbrev pub AreFrames : List Frame → Type 0
AreFrames = All (λ f. IsHeader (header_of f))

-- No whole frame: too short for a header, or shorter than the header says.
abbrev pub IsIncomplete : List ℕ → Type 0
IsIncomplete rest =
    (length rest < header_size)
    ⊎ ((h : DoipHeader) × (Header.parse rest ≡ some h)
        × (length rest < header_size + h.payload_length))

-- What the loop finds at `offset` where a frame begins there.
record FrameHere (f : Frame) (tail bytes : List ℕ) (offset : ℕ) : Type 0 where
  parsed : Header.parse (drop offset bytes) ≡ some (header_of f)
  fits : offset + (header_size + length f.payload) ≤ length bytes
  payload_here : take (length f.payload) (drop (offset + header_size) bytes) ≡ f.payload
  behind : drop (offset + (header_size + length f.payload)) bytes ≡ tail

module _ (f : Frame) (tail bytes : List ℕ) (offset : ℕ) (within : offset ≤ length bytes)
    (at : drop offset bytes ≡ frame_bytes f ++ tail) where
  at_header : drop offset bytes ≡ Header.encode (header_of f) ++ (f.payload ++ tail)
  at_header = at ∙ append_assoc (Header.encode (header_of f)) f.payload tail

  length-at_header : length (drop offset bytes) ≡ header_size + (length f.payload + length tail)
  length-at_header = rw at_header (simp (length-append, length-encode))

  behind_header : drop (offset + header_size) bytes ≡ f.payload ++ tail
  behind_header =
      sym (drop-drop header_size offset bytes)
      ∙ rw at_header (drop-encode (header_of f) (f.payload ++ tail))

  behind_frame : drop (offset + (header_size + length f.payload)) bytes ≡ tail
  behind_frame =
      ap (λ k. drop k bytes) (sym (add_assoc offset header_size (length f.payload)))
      ∙ sym (drop-drop (length f.payload) (offset + header_size) bytes)
      ∙ rw behind_header (drop-length_append f.payload tail)

  frame_here : IsHeader (header_of f) → FrameHere f tail bytes offset
  frame_here ok_f = record {
    parsed = rw at_header (parse-encode (header_of f) (f.payload ++ tail) ok_f);
    fits = omega (arith, length-at_header, length-drop offset bytes);
    payload_here = rw behind_header (take-length_append f.payload tail);
    behind = behind_frame;
  }

length-stream_bytes : (fs : List Frame) (rest : List ℕ) → length fs ≤ length (stream_bytes fs rest)
length-stream_bytes [] rest = omega arith
length-stream_bytes (f ∷ fs) rest =
    let ih = length-stream_bytes fs rest in
    rw
      (
        length-append (frame_bytes f) (stream_bytes fs rest),
        length-append (Header.encode (header_of f)) f.payload,
        length-encode,
      )
      (omega arith)

module _ (env : Env) (ecu_address : ℕ) where
  -- The handlers run on the frames one after the other, up to the first error.
  unfoldable pub handle_frames : List Frame → Action (Unit {0})
  handle_frames [] = pure tt
  handle_frames (f ∷ fs) =
      dispatch env ecu_address (Header.from_u16 f.payload_type) f.payload >> handle_frames fs

  process_from_round :
      (fuel : ℕ) (bytes : List ℕ) (offset : ℕ) (h : DoipHeader)
      → Header.parse (drop offset bytes) ≡ some h
      → offset + (header_size + h.payload_length) ≤ length bytes
      → process_from env ecu_address (suc fuel) bytes offset ≡ (
          dispatch env ecu_address
            (Header.from_u16 h.payload_type)
            (take h.payload_length (drop (offset + header_size) bytes))
          >> process_from env ecu_address fuel bytes (offset + (header_size + h.payload_length)))
  unfolding process_from
  process_from_round fuel bytes offset h parsed fits =
      let payload : offset + (header_size + h.payload_length) - (offset + header_size)
          ≡ h.payload_length =
        omega arith in
      rw
        (
          le→leb (offset + header_size) (length bytes) (omega arith),
          parsed,
          le→not_ltb _ _ fits,
          payload,
        )
        refl

  process_from_incomplete :
      (fuel : ℕ) (bytes : List ℕ) (offset : ℕ)
      → offset ≤ length bytes
      → IsIncomplete (drop offset bytes)
      → process_from env ecu_address (suc fuel) bytes offset ≡ pure tt
  unfolding process_from
  process_from_incomplete fuel bytes offset within (inl short) =
      rw
        (lt→not_leb (offset + header_size) (length bytes) (omega (arith, length-drop offset bytes)))
        refl
  process_from_incomplete fuel bytes offset within (inr (h, parsed, short)) =
      let cut : length bytes < offset + (header_size + h.payload_length) =
        omega (arith, length-drop offset bytes) in
      elim (Bool-cases (leb (offset + header_size) (length bytes))) [
        | inl whole ↦ rw (whole, parsed, lt→ltb _ _ cut) refl
        | inr none_left ↦ rw none_left refl
      ]

  pub process_from-handle_frames :
      (fs : List Frame) (rest : List ℕ) (fuel : ℕ) (bytes : List ℕ) (offset : ℕ)
      → AreFrames fs
      → IsIncomplete rest
      → length fs < fuel
      → offset ≤ length bytes
      → drop offset bytes ≡ stream_bytes fs rest
      → process_from env ecu_address fuel bytes offset ≡ handle_frames fs
  unfolding handle_frames
  process_from-handle_frames fs rest zero bytes offset ok_fs ok_rest enough within at =
      absurd (omega arith)
  process_from-handle_frames [] rest (suc fuel) bytes offset ok_fs ok_rest enough within at =
      process_from_incomplete fuel bytes offset within (rw at ok_rest)
  process_from-handle_frames (f ∷ fs) rest (suc fuel) bytes offset (ok_f, ok_fs) ok_rest enough
        within at =
      let here = frame_here f (stream_bytes fs rest) bytes offset within at ok_f in
      process_from_round fuel bytes offset (header_of f) here.parsed here.fits
      ∙ ap₂ ◌>>◌ (ap (dispatch env ecu_address (Header.from_u16 f.payload_type)) here.payload_here)
          (process_from-handle_frames fs rest fuel bytes (offset + (header_size + length f.payload))
            ok_fs ok_rest (omega arith) here.fits here.behind)

  -- A read that holds whole frames and then an incomplete one is processed as those frames, each
  -- handled once and in their order up to the first error; the incomplete bytes have no effect.
  pub process_tcp_data-handle_frames :
      (fs : List Frame) (rest : List ℕ)
      → AreFrames fs
      → IsIncomplete rest
      → process_tcp_data env ecu_address (stream_bytes fs rest) ≡ handle_frames fs
  unfolding process_tcp_data
  process_tcp_data-handle_frames fs rest ok_fs ok_rest =
      process_from-handle_frames fs rest (suc (length (stream_bytes fs rest))) _ 0 ok_fs ok_rest
        (omega (arith, length-stream_bytes fs rest)) (omega arith) refl
